-- ===== src/Guardrails/Untrusted.antt =====
-- `sanitize_untrusted` of backend/app/guardrails/untrusted.py: external data, bounded and redacted.
-- `sanitize_text` (with the number of bytes) and `str.lower` are parameters.
pub mod Bounded
use kylin_guard_agent.Base.{
  ℕ, ◌+◌, String, Bool, true, false, List, [], ◌∷◌, any, has_substring, if◌then◌else◌, leb, ltb,
  string_eq,
}
use kylin_guard_agent.Base.Dict.{insert}
use kylin_guard_agent.Json.{
  Value, null, bool, int, float, str, arr, obj, Items, nil, cons, Fields, end, field, Arguments,
  to_fields,
}

abbrev pub markers : List String
markers = "password" ∷ "token" ∷ "secret" ∷ "api_key" ∷ "authorization" ∷ "private_key" ∷ []

module _ (sanitize_text : ℕ → String → String) (lower : String → String) where
  abbrev pub is_secret_key : String → Bool
  is_secret_key key = any (λ marker. has_substring marker (lower key)) markers

  abbrev pub unless_deep : ℕ → Value → Value
  unless_deep depth value = if ltb 8 depth then str "[TRUNCATED_DEPTH]" else value

  unfoldable mutual
    pub sanitize_untrusted : ℕ → Value → Value
    sanitize_untrusted depth null = unless_deep depth null
    sanitize_untrusted depth (bool b) = unless_deep depth (bool b)
    sanitize_untrusted depth (int n) = unless_deep depth (int n)
    sanitize_untrusted depth (float repr) = unless_deep depth (float repr)
    sanitize_untrusted depth (str text) = unless_deep depth (str (sanitize_text 32768 text))
    sanitize_untrusted depth (arr items) = unless_deep depth (arr (sanitize_items depth 0 items))
    sanitize_untrusted depth (obj members) =
        unless_deep depth (obj (to_fields (sanitize_members depth 0 members [])))

    -- `value[:200]`
    pub sanitize_items : ℕ → ℕ → Items → Items
    sanitize_items depth index nil = nil
    sanitize_items depth index (cons item items) =
        let kept =
          cons (sanitize_untrusted (depth + 1) item) (sanitize_items depth (index + 1) items) in
        if leb 200 index then nil else kept

    -- the loop over the items of a mapping, with the result so far
    pub sanitize_members : ℕ → ℕ → Fields → Arguments → Arguments
    sanitize_members depth index end result = result
    sanitize_members depth index (field key item members) result =
        let name = sanitize_text 256 key in
        let value =
          if is_secret_key name
          then str "***REDACTED***"
          else sanitize_untrusted (depth + 1) item in
        let rest = sanitize_members depth (index + 1) members (insert name value result) in
        if leb 200 index then insert "_truncated" (bool true) result else rest
