-- ===== src/Api/Sessions.antt =====
-- `login`, `logout` and `current_user` (backend/app/auth/dependencies.py): sessions by bearer token.
-- `verify_password` and `str.strip` are parameters; `hash_token` is the SHA-256 digest.
pub mod Lifetime
use kylin_guard_agent.Base.{
  ℕ, ◌+◌, ◌*◌, String, Bool, true, false, Option, none, some, List, [], ◌∷◌, ◌==◌, string_eq, find,
  not, leb, ◌||◌, ◌&&◌, is_some, after_prefix, if◌then◌else◌,
}
use kylin_guard_agent.Base.Dict.{Dict, lookup, insert}
use kylin_guard_agent.Base.Exec.{
  Error, app_error, auth_required, auth_invalid, Exec, pure, raise, gets, modify, raise_if, ◌>>=◌,
  ◌>>◌,
}
use kylin_guard_agent.Json.{str}
use kylin_guard_agent.Models.{User, UserSession}
use kylin_guard_agent.Api.{Env, Db, Caller, log}

-- `db.scalar(select(UserSession).where(UserSession.token_hash == hash_token(token)))`
unfoldable pub session_of : Env → String → Db → Option (String × UserSession)
session_of env token db =
    find (λ (_, session). session.token_hash == env.crypto.sha256 token) db.sessions

unfoldable pub is_live : Env → UserSession → Bool
is_live env session = not (is_some session.revoked_at) && not (leb session.expires_at env.now)

unfoldable pub active_caller : String → Option User → Exec Db Caller
active_caller id none = raise (app_error auth_invalid 401)
active_caller id (some user) =
    if user.is_active
    then pure record { id = id; roles = user.roles }
    else raise (app_error auth_invalid 401)

unfoldable pub session_caller : Env → Option (String × UserSession) → Exec Db Caller
unfolding active_caller
session_caller env none = raise (app_error auth_invalid 401)
session_caller env (some (_, session)) = do
  raise_if (not (is_live env session)) (app_error auth_invalid 401)
  user ← gets (λ db. lookup session.user_id db.users)
  active_caller session.user_id user

module _ (strip : String → String) (verify_password : String → String → Bool) where
  -- The `Authorization` header; a missing one is `none`.
  unfoldable pub header_caller : Env → Option String → Exec Db Caller
  header_caller env none = raise (app_error auth_required 401)
  header_caller env (some rest) = do
    session ← gets (session_of env (strip rest))
    session_caller env session

  unfoldable pub current_user : Env → Option String → Exec Db Caller
  unfolding header_caller
  current_user env none = raise (app_error auth_required 401)
  current_user env (some authorization) = header_caller env (after_prefix "Bearer " authorization)

  accepts : String → Option (String × User) → Bool
  accepts password none = false
  accepts password (some (_, user)) = user.is_active && verify_password password user.password_hash

  -- The session lasts 8 hours.
  open_session : Env → String → Option (String × User) → Exec Db String
  open_session env token none = raise (app_error auth_invalid 401)
  open_session env token (some (id, user)) = do
    let session : UserSession = record {
      user_id = id;
      token_hash = env.crypto.sha256 token;
      expires_at = env.now + 8 * 3600 * 1000000;
      revoked_at = none;
    }
    modify (λ db. record db { sessions = insert env.fresh_id session db.sessions })
    modify (log env "AUTH_LOGIN_SUCCEEDED" (("username", str user.username) ∷ []) (some id) none)
    pure token

  -- `token` is `create_session_token()`. A failed login commits its audit event before it raises.
  unfoldable pub login : Env → String → String → String → Exec Db String
  unfolding accepts open_session
  login env token username password = do
    user ← gets (λ db. find (λ (_, user). user.username == username) db.users)
    modify (
        if accepts password user
        then (λ db. db)
        else log env "AUTH_LOGIN_FAILED" (("username", str username) ∷ []) none none)
    raise_if (not (accepts password user)) (app_error auth_invalid 401)
    open_session env token user

  revoke : Env → Option (String × UserSession) → Db → Db
  revoke env none db = db
  revoke env (some (id, session)) db = record db {
    sessions = insert id (record session { revoked_at = some env.now }) db.sessions;
  }

  bearer_token : String → String
  bearer_token authorization = elim (after_prefix "Bearer " authorization) [
    | none ↦ strip authorization
    | some rest ↦ strip rest
  ]

  unfoldable pub logout : Env → String → Exec Db Unit
  unfolding revoke bearer_token
  logout env authorization = do
    caller ← current_user env (some authorization)
    modify (λ db. revoke env (session_of env (bearer_token authorization) db) db)
    modify (log env "AUTH_LOGOUT" [] (some caller.id) none)
