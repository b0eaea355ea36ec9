-- ===== src/Json.antt =====
-- The JSON values that tool arguments are, and `json.dumps` with `ensure_ascii=False`,
-- `sort_keys=True` and compact separators, as `canonical_arguments` of
-- backend/app/guardrails/policy.py calls it.
pub mod Print
use kylin_guard_agent.Base.{
  ℕ, String, List, Bool, true, false, Option, none, some, [], ◌∷◌, ◌==◌, string_eq, nat_eq,
  if◌then◌else◌,
}
use kylin_guard_agent.Base.Dict.{Dict}

-- A Python `int`; `negsuc n` is -(n + 1).
pub data ℤ : Type 0 where
  pos : ℕ → ℤ
  negsuc : ℕ → ℤ

-- A `float` is given by its `repr`.
mutual
  pub data Value : Type 0 where
    null : Value
    bool : Bool → Value
    int : ℤ → Value
    float : String → Value
    str : String → Value
    obj : Fields → Value
    arr : Items → Value

  pub data Fields : Type 0 where
    end : Fields
    field : String → Value → Fields → Fields

  pub data Items : Type 0 where
    nil : Items
    cons : Value → Items → Items

-- `Mapping[str, object]`
abbrev pub Arguments : Type 0
Arguments = Dict String Value

-- `isinstance(value, str)`, with the text
unfoldable pub as_str : Option Value → Option String
as_str (some (str s)) = some s
as_str _ = none

abbrev pub to_fields : Arguments → Fields
to_fields [] = end
to_fields ((key, value) ∷ members) = field key value (to_fields members)

abbrev pub to_arguments : Fields → Arguments
to_arguments end = []
to_arguments (field key value members) = (key, value) ∷ to_arguments members

abbrev pub is_zero : ℤ → Bool
is_zero (pos n) = n == 0
is_zero (negsuc n) = false
