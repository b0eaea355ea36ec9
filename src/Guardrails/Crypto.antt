-- ===== src/Guardrails/Crypto.antt =====
-- The hash functions of Python's `hashlib` and `hmac`, which the program only calls.
use kylin_guard_agent.Base.{String, ◌≡◌, none}
use kylin_guard_agent.Base.{rsplit}

pub record Crypto : Type 0 where
  -- `hashlib.sha256(text.encode()).hexdigest()`
  pub sha256 : String → String
  -- `hmac.new(secret, payload.encode(), hashlib.sha256).hexdigest()`
  pub hmac : String → String → String

-- Two texts with one digest are the same text.
abbrev pub IsCollisionFree : (String → String) → Type 0
IsCollisionFree digest = (s t : String) → digest s ≡ digest t → s ≡ t

-- A digest is hexadecimal, so no dot occurs in it.
abbrev pub HasNoDot : Crypto → Type 0
HasNoDot crypto = (secret payload : String) → rsplit b'.' (crypto.hmac secret payload) ≡ none
