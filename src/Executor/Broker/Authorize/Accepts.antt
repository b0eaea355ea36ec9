-- ===== src/Executor/Broker/Authorize/Accepts.antt =====
-- What a request that `_authorize_and_consume` authorizes has shown (backend/app/executor/broker.py).
use kylin_guard_agent.Base.{
  ℕ, ◌<◌, String, ◌≡◌, refl, false, Option, none, some, List, string_eq, option_eq, nat_eq, arith,
  find, find-holds,
}
use kylin_guard_agent.Base.Dict.{Dict, lookup}
use kylin_guard_agent.Base.Exec.{Error, Result, ok, err}
use kylin_guard_agent.Json.{Arguments}
use kylin_guard_agent.Json.Print.{canonical_arguments}
use kylin_guard_agent.Models.{Approval}
use kylin_guard_agent.Executor.Broker.Authorize.{
  Database, Outside, Expected, text_of, expired_at, expired, expected_action, matches, consume_rows,
  transact, consume_approval, authorize, authorize_and_consume,
}
use kylin_guard_agent.Executor.Broker.Authorize.Rows.{IsConsumed, consume_rows-IsConsumed}
use kylin_guard_agent.Executor.Broker.Authorize.Fixed.{IsFixed, expected_action-IsFixed}

module _ (outside : Outside) where
  open outside use {sha256, column, parse_instant, now}

  -- The approval that an authorized request uses up: an unexpired row, APPROVED for the user, the task,
  -- the tool, the digest of the arguments and the token. The new database is the old one with this row
  -- CONSUMED.
  pub record IsApproved (user_id task_id approval_token : String) (expected : Expected)
      (before after : Database) (helper_args : List String) : Type 0 where
    pub id : String
    pub row : Approval
    pub token : row.token_hash ≡ some (sha256 approval_token)
    pub status : row.status ≡ "APPROVED"
    pub requester : row.requester_id ≡ user_id
    pub task : row.task_id ≡ task_id
    pub tool : row.tool_name ≡ expected.tool
    pub digest : row.arguments_hash ≡ sha256 (canonical_arguments expected.arguments)
    pub stored : String
    pub expiry : ℕ
    pub has_expiry : column row.expires_at ≡ some stored
    pub parsed : parse_instant stored ≡ some expiry
    pub in_date : now < expiry
    pub rows : Dict String Approval
    pub consumed : IsConsumed id row before.approvals rows
    pub written : after ≡ record before { approvals = rows }
    pub helper : helper_args ≡ expected.helper_args

  abbrev InDate : ℕ → Type 0
  InDate expires_at =
      (stored : String) × (expiry : ℕ) × (column expires_at ≡ some stored)
      × (parse_instant stored ≡ some expiry)
      × (now < expiry)

  parsed-InDate :
      (expires_at : ℕ) (stored : String) (parsed : Option ℕ)
      → column expires_at ≡ some stored
      → parse_instant stored ≡ parsed
      → expired_at outside parsed ≡ false
      → InDate expires_at
  parsed-InDate expires_at stored none c p h = ground arith
  parsed-InDate expires_at stored (some expiry) c p h = (stored, expiry, c, p, ground arith)

  expired-InDate :
      (expires_at : ℕ) (stored : Option String)
      → column expires_at ≡ stored
      → expired outside stored ≡ false
      → InDate expires_at
  unfolding expired
  expired-InDate expires_at none c h = ground arith
  expired-InDate expires_at (some stored) c h =
      parsed-InDate expires_at stored (parse_instant stored) c refl h

  transact-IsApproved :
      (user_id task_id approval_token : String) (expected : Expected) (before after : Database)
      (helper_args : List String) (found : Option (String × Approval))
      → find
          (λ (_, r).
            matches
              (sha256 approval_token)
              user_id
              task_id
              expected.tool
              (sha256 (canonical_arguments expected.arguments))
              r)
          before.approvals
        ≡ found
      → transact outside (sha256 approval_token) expected.helper_args found before
        ≡ (ok helper_args, after)
      → IsApproved user_id task_id approval_token expected before after helper_args
  unfolding transact matches
  transact-IsApproved u t k expected before after args none e h = ground arith
  transact-IsApproved u t k expected before after args (some (id, row)) e h =
      let m =
        find-holds
          (λ (x : String × Approval).
            matches (sha256 k) u t expected.tool (sha256 (canonical_arguments expected.arguments))
              x.1)
          before.approvals e in
      let valid : expired outside (column row.expires_at) ≡ false = ground arith in
      let (stored, expiry, c, p, d) = expired-InDate row.expires_at _ refl valid in
      record {
        id = id;
        row = row;
        token = ground (arith, m);
        status = ground (arith, m);
        requester = ground (arith, m);
        task = ground (arith, m);
        tool = ground (arith, m);
        digest = ground (arith, m);
        stored = stored;
        expiry = expiry;
        has_expiry = c;
        parsed = p;
        in_date = d;
        rows = (consume_rows id (sha256 k) before.approvals).0;
        consumed = consume_rows-IsConsumed _ _ _ _ _ id row before.approvals e (ground arith);
        written = ground arith;
        helper = ground arith;
      }

  pub record IsAuthorized (request : Arguments) (before after : Database)
      (helper_args : List String) : Type 0 where
    pub action : String
    pub user_id : String
    pub task_id : String
    pub approval_token : String
    pub expected : Expected
    pub has_action : text_of (lookup "action" request) ≡ some action
    pub has_user : text_of (lookup "user_id" request) ≡ some user_id
    pub has_task : text_of (lookup "task_id" request) ≡ some task_id
    pub has_token : text_of (lookup "approval_token" request) ≡ some approval_token
    pub planned : IsFixed outside before task_id request action expected
    pub approved : IsApproved user_id task_id approval_token expected before after helper_args

  planned-IsAuthorized :
      (request : Arguments) (action u t k : String) (before after : Database) (args : List String)
      → text_of (lookup "action" request) ≡ some action
      → text_of (lookup "user_id" request) ≡ some u
      → text_of (lookup "task_id" request) ≡ some t
      → text_of (lookup "approval_token" request) ≡ some k
      → (plan : Result Expected) → expected_action outside before action t request ≡ plan
      → authorize outside (some action) (some u) (some t) (some k) request before ≡ (ok args, after)
      → IsAuthorized request before after args
  unfolding authorize consume_approval
  planned-IsAuthorized request action u t k before after args ha hu ht hk (ok expected) e h =
      record {
        action = action;
        user_id = u;
        task_id = t;
        approval_token = k;
        expected = expected;
        has_action = ha;
        has_user = hu;
        has_task = ht;
        has_token = hk;
        planned = expected_action-IsFixed outside before action t request expected e;
        approved = transact-IsApproved u t k expected before after args _ refl (rw e at h);
      }
  planned-IsAuthorized request action u t k before after args ha hu ht hk (err x) e h = ground arith

  pub authorize_rejects :
      (request : Arguments) (e : Error) (before after : Database)
      → authorize_and_consume outside request before ≡ (err e, after)
      → after ≡ before
  unfolding authorize_and_consume
  authorize_rejects request e before after h = ground arith

  tokens-IsAuthorized :
      (request : Arguments) (a u t k : Option String) (before after : Database) (args : List String)
      → text_of (lookup "action" request) ≡ a
      → text_of (lookup "user_id" request) ≡ u
      → text_of (lookup "task_id" request) ≡ t
      → text_of (lookup "approval_token" request) ≡ k
      → authorize outside a u t k request before ≡ (ok args, after)
      → IsAuthorized request before after args
  tokens-IsAuthorized request (some a) (some u) (some t) (some k) before after args ha hu ht hk h =
      planned-IsAuthorized request a u t k before after args ha hu ht hk
        (expected_action outside before a t request) refl h
  tokens-IsAuthorized request (some a) (some u) (some t) none before after args ha hu ht hk h =
      unfold authorize in ground arith
  tokens-IsAuthorized request (some a) (some u) none k before after args ha hu ht hk h =
      unfold authorize in ground arith
  tokens-IsAuthorized request (some a) none t k before after args ha hu ht hk h =
      unfold authorize in ground arith
  tokens-IsAuthorized request none u t k before after args ha hu ht hk h =
      unfold authorize in ground arith

  -- An authorized request carries the four texts and one of the four fixed actions, with what the
  -- action needs from the request and the tables. There is a row with status APPROVED, the user
  -- and the task of the request, the tool of the action, the digests of its arguments and of the
  -- token, and an expiry later than now. The new database is the old one with this one row
  -- CONSUMED, and the helper gets the arguments of the action.
  pub authorize-IsAuthorized :
      (request : Arguments) (before after : Database) (args : List String)
      → authorize_and_consume outside request before ≡ (ok args, after)
      → IsAuthorized request before after args
  unfolding authorize_and_consume
  authorize-IsAuthorized request before after args h =
      tokens-IsAuthorized request _ _ _ _ before after args refl refl refl refl h
