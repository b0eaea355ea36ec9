-- ===== src/Audit/Redact.antt =====
-- `redact` of backend/app/audit/service.py, on JSON values: a tuple, which the source leaves as it is, is none.
use kylin_guard_agent.Base.{
  String, ◌≡◌, refl, Bool, true, false, List, [], ◌∷◌, any, has_substring, if◌then◌else◌,
}
use kylin_guard_agent.Json.{
  Value, null, bool, int, float, str, arr, obj, Items, nil, cons, Fields, end, field, Arguments,
}

-- `SENSITIVE_MARKERS`
abbrev pub sensitive_markers : List String
sensitive_markers =
    "password" ∷ "token" ∷ "secret" ∷ "api_key" ∷ "authorization" ∷ "private_key" ∷ []

-- `lower` is `str.lower`, and `sanitize` is `sanitize_text` of backend/app/guardrails/untrusted.py.
module _ (lower sanitize : String → String) where
  -- `any(marker in str(key).lower() for marker in SENSITIVE_MARKERS)`
  unfoldable pub is_sensitive : String → Bool
  is_sensitive key = any (λ marker. has_substring marker (lower key)) sensitive_markers

  unfoldable mutual
    pub redact : Value → Value
    redact null = null
    redact (bool b) = bool b
    redact (int n) = int n
    redact (float repr) = float repr
    redact (str s) = str (sanitize s)
    redact (arr xs) = arr (redact_items xs)
    redact (obj fs) = obj (redact_fields fs)

    pub redact_items : Items → Items
    redact_items nil = nil
    redact_items (cons x xs) = cons (redact x) (redact_items xs)

    pub redact_fields : Fields → Fields
    redact_fields end = end
    redact_fields (field k v fs) =
        field k (if is_sensitive k then str "***REDACTED***" else redact v) (redact_fields fs)

  -- `redact` of the payload, a mapping
  unfoldable pub redact_all : Arguments → Arguments
  redact_all [] = []
  redact_all ((k, v) ∷ payload) =
      (k, if is_sensitive k then str "***REDACTED***" else redact v) ∷ redact_all payload

  -- Under a sensitive key, at every depth, stands the mark and nothing else; every other text has
  -- passed `sanitize`.
  mutual
    pub IsClean : Value → Type 0
    IsClean (str s) = (t : String) × (s ≡ sanitize t)
    IsClean (arr xs) = IsCleanItems xs
    IsClean (obj fs) = IsCleanFields fs
    IsClean _ = Unit

    pub IsCleanItems : Items → Type 0
    IsCleanItems nil = Unit
    IsCleanItems (cons x xs) = IsClean x × IsCleanItems xs

    pub IsCleanFields : Fields → Type 0
    IsCleanFields end = Unit
    IsCleanFields (field k v fs) =
        (if is_sensitive k then v ≡ str "***REDACTED***" else IsClean v) × IsCleanFields fs

  member-IsClean :
      (b : Bool) (v : Value)
      → IsClean (redact v)
      → let w = if b then str "***REDACTED***" else redact v in
        if b then w ≡ str "***REDACTED***" else IsClean w
  member-IsClean true v h = refl
  member-IsClean false v h = h

  mutual
    unfolding redact IsClean

    redact_value-IsClean : (v : Value) → IsClean (redact v)
    redact_value-IsClean null = tt
    redact_value-IsClean (bool b) = tt
    redact_value-IsClean (int n) = tt
    redact_value-IsClean (float repr) = tt
    redact_value-IsClean (str s) = (s, refl)
    redact_value-IsClean (arr xs) = redact_items-IsCleanItems xs
    redact_value-IsClean (obj fs) = redact_fields-IsCleanFields fs

    redact_items-IsCleanItems : (xs : Items) → IsCleanItems (redact_items xs)
    redact_items-IsCleanItems nil = tt
    redact_items-IsCleanItems (cons x xs) = (redact_value-IsClean x, redact_items-IsCleanItems xs)

    redact_fields-IsCleanFields : (fs : Fields) → IsCleanFields (redact_fields fs)
    redact_fields-IsCleanFields end = tt
    redact_fields-IsCleanFields (field k v fs) =
        (member-IsClean (is_sensitive k) v (redact_value-IsClean v), redact_fields-IsCleanFields fs)

  -- Whatever the payload, in what `redact` returns, at every depth, the mark and nothing else
  -- stands under a sensitive key, and every other text has passed `sanitize`.
  pub redact-IsClean : (v : Value) → IsClean (redact v)
  redact-IsClean v = redact_value-IsClean v
