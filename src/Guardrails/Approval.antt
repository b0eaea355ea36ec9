-- ===== src/Guardrails/Approval.antt =====
-- backend/app/guardrails/approval.py: signed approval tokens that are consumed once.
-- The secret, the clock and the nonce are arguments; `json.loads` followed by
-- `ApprovalClaims(**_)` is the parameter `decode`, with `none` for what is not such an object.
pub mod Accept
pub mod Replay
use kylin_guard_agent.Base.{
  ℕ, ◌+◌, String, ◌<>◌, Bool, true, false, Option, none, some, List, [], ◌∷◌, ltb, not, ◌&&◌, ◌==◌,
  string_eq, contains, rsplit, if◌then◌else◌,
}
use kylin_guard_agent.Base.Exec.{
  Error, value_error, Result, ok, err, Exec, pure, raise, lift, gets, modify, raise_if, ◌>>=◌, ◌>>◌,
}
use kylin_guard_agent.Json.{Value, int, str, pos, Arguments}
use kylin_guard_agent.Json.Print.{canonical_arguments}
use kylin_guard_agent.Guardrails.Crypto.{Crypto}

pub record ApprovalClaims : Type 0 where
  pub user_id : String
  pub task_id : String
  pub tool_name : String
  pub arguments_hash : String
  pub risk_level : String
  pub expires_at : ℕ
  pub nonce : String

pub record ApprovalTokenManager : Type 0 where
  pub secret : String
  pub consumed : List String

-- `json.dumps(asdict(claims), sort_keys=True, separators=(",", ":"))`; the texts are ids, names and
-- digests in ASCII, where `ensure_ascii` makes no difference
unfoldable pub encode : ApprovalClaims → String
encode claims = canonical_arguments (
    ("user_id", str claims.user_id)
    ∷ ("task_id", str claims.task_id)
    ∷ ("tool_name", str claims.tool_name)
    ∷ ("arguments_hash", str claims.arguments_hash)
    ∷ ("risk_level", str claims.risk_level)
    ∷ ("expires_at", int (pos claims.expires_at))
    ∷ ("nonce", str claims.nonce)
    ∷ [])

module _ (crypto : Crypto) where
  open crypto use {sha256, hmac}

  unfoldable pub new_claims : String → String → String → Arguments → ℕ → ℕ → String → ApprovalClaims
  new_claims user_id task_id tool_name arguments ttl now nonce = record {
    user_id = user_id;
    task_id = task_id;
    tool_name = tool_name;
    arguments_hash = sha256 (canonical_arguments arguments);
    risk_level = "L3";
    expires_at = now + ttl;
    nonce = nonce;
  }

  -- `issue`; `nonce` is `secrets.token_urlsafe(24)`
  unfoldable pub issue :
      ApprovalTokenManager → String → String → String → Arguments → ℕ → ℕ → String → String
  unfolding new_claims
  issue manager user_id task_id tool_name arguments ttl now nonce =
      let payload = encode (new_claims user_id task_id tool_name arguments ttl now nonce) in
      payload <> ("." <> hmac manager.secret payload)

module _ (crypto : Crypto) (decode : String → Option ApprovalClaims) where
  open crypto use {sha256, hmac}

  -- `ApprovalClaims(**json.loads(payload))`, and the `except` clause
  load_claims : Option ApprovalClaims → Result ApprovalClaims
  load_claims none = err (value_error "APPROVAL_INVALID")
  load_claims (some claims) = ok claims

  -- The `try` block. Without a dot the tuple assignment raises, and that is not caught.
  unfoldable pub authenticate : String → Option (String × String) → Result ApprovalClaims
  unfolding load_claims
  authenticate secret none = err (value_error "not enough values to unpack (expected 2, got 1)")
  authenticate secret (some (payload, signature)) =
      if signature == hmac secret payload
      then load_claims (decode payload)
      else err (value_error "APPROVAL_TAMPERED")

  unfoldable pub consume :
      String → String → String → String → Arguments → ℕ → Exec ApprovalTokenManager ApprovalClaims
  consume token user_id task_id tool_name arguments now = do
    claims ← λ m. (authenticate m.secret (rsplit b'.' token), m)
    raise_if (← gets (λ m. contains m.consumed claims.nonce)) (value_error "APPROVAL_REPLAYED")
    raise_if (ltb claims.expires_at now) (value_error "APPROVAL_EXPIRED")
    raise_if
        (not (
          claims.user_id == user_id
          && claims.task_id == task_id
          && claims.tool_name == tool_name
          && claims.arguments_hash == sha256 (canonical_arguments arguments)))
        (value_error "APPROVAL_SCOPE_MISMATCH")
    modify (λ m. record m { consumed = claims.nonce ∷ m.consumed })
    pure claims
