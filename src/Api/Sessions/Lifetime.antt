-- ===== src/Api/Sessions/Lifetime.antt =====
-- What stands behind a caller whom `current_user` lets in (backend/app/auth/dependencies.py).
use kylin_guard_agent.Base.{
  String, Bool, true, Option, none, some, ◌==◌, string_eq, find-holds, after_prefix, ◌≡◌, refl,
  arith, Bool-cases, inl, inr, eq→≡, ◌<◌,
}
use mathlib.Core.Path.{subst}
use kylin_guard_agent.Base.Dict.{lookup}
use kylin_guard_agent.Base.Exec.{ok}
use kylin_guard_agent.Models.{User, UserSession}
use kylin_guard_agent.Api.{Env, Db, Caller}
use kylin_guard_agent.Api.Sessions.{
  session_of, is_live, active_caller, session_caller, header_caller, current_user,
}

-- What stands behind an authenticated caller: a session of the presented token, not revoked and
-- not expired, of an active user whose roles the caller has.
pub record IsAuthenticated (env : Env) (token : String) (db : Db) (caller : Caller) : Type 0 where
  pub session : UserSession
  pub user : User
  pub digest : session.token_hash ≡ env.crypto.sha256 token
  pub owner : session.user_id ≡ caller.id
  pub unrevoked : session.revoked_at ≡ none
  pub unexpired : env.now < session.expires_at
  pub account : lookup caller.id db.users ≡ some user
  pub active : user.is_active ≡ true
  pub roles : caller.roles ≡ user.roles

module _ (env : Env) where
  user-IsAuthenticated :
      (token : String) (session : UserSession) (found : Option User) (db after : Db)
      (caller : Caller)
      → session.token_hash ≡ env.crypto.sha256 token
      → is_live env session ≡ true
      → lookup session.user_id db.users ≡ found
      → active_caller session.user_id found db ≡ (ok caller, after)
      → IsAuthenticated env token db caller
  unfolding active_caller is_live
  user-IsAuthenticated token session none db after caller d l f h = ground arith
  user-IsAuthenticated token session (some user) db after caller d l f h =
      elim (Bool-cases user.is_active) [
        | inl a ↦ record {
          session = session;
          user = user;
          digest = d;
          owner = ground arith;
          unrevoked = ground arith;
          unexpired = ground arith;
          account = subst (λ id. lookup id db.users ≡ some user) (ground arith) f;
          active = a;
          roles = ground arith;
        }
        | inr a ↦ ground arith
      ]

  session-IsAuthenticated :
      (token : String) (found : Option (String × UserSession)) (db after : Db) (caller : Caller)
      → session_of env token db ≡ found
      → session_caller env found db ≡ (ok caller, after)
      → IsAuthenticated env token db caller
  unfolding session_caller session_of
  session-IsAuthenticated token none db after caller e h = ground arith
  session-IsAuthenticated token (some (id, session)) db after caller e h =
      elim (Bool-cases (is_live env session)) [
        | inl l ↦
            user-IsAuthenticated token session (lookup session.user_id db.users) db after caller
              (eq→≡ _ _
                (find-holds (λ (_, row). row.token_hash == env.crypto.sha256 token) db.sessions e))
              l refl (rw (session_caller, l) at h)
        | inr l ↦ ground arith
      ]

  header-IsAuthenticated :
      (strip : String → String) (verify_password : String → String → Bool) (rest : Option String)
      (db after : Db) (caller : Caller)
      → header_caller strip verify_password env rest db ≡ (ok caller, after)
      → (text : String) × (rest ≡ some text) × IsAuthenticated env (strip text) db caller
  unfolding header_caller
  header-IsAuthenticated strip verify none db after caller h = ground arith
  header-IsAuthenticated strip verify (some text) db after caller h = (
    text,
    refl,
    session-IsAuthenticated (strip text) (session_of env (strip text) db) db after caller refl h,
  )

  -- Whoever `current_user` lets in has sent `Bearer ` and the token of a session that is neither
  -- revoked nor expired and belongs to an active user, with the roles of that user.
  pub current_user-IsAuthenticated :
      (strip : String → String) (verify_password : String → String → Bool)
      (authorization : Option String) (db after : Db) (caller : Caller)
      → current_user strip verify_password env authorization db ≡ (ok caller, after)
      → (header : String) × (text : String) × (authorization ≡ some header)
        × (after_prefix "Bearer " header ≡ some text)
        × IsAuthenticated env (strip text) db caller
  unfolding current_user
  current_user-IsAuthenticated strip verify none db after caller h = ground arith
  current_user-IsAuthenticated strip verify (some header) db after caller h =
      let (text, e, a) =
        header-IsAuthenticated strip verify (after_prefix "Bearer " header) db after caller h in
      (header, text, refl, e, a)
