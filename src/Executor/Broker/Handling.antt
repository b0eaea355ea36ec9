-- ===== src/Executor/Broker/Handling.antt =====
-- What one connection does to the database and to the loop of `serve` (backend/app/executor/broker.py).
use kylin_guard_agent.Base.{
  ℕ, String, ◌≡◌, refl, true, false, Option, none, some, List, ◌==◌, nat_eq, string_eq, ◌⊎◌, inl,
  inr, Bool-cases, eq→≡, eq_self, ap, ◌∙◌, all, contains,
}
use kylin_guard_agent.Base.Dict.{lookup}
use kylin_guard_agent.Base.Exec.{
  Error, value_error, app_error, os_error, type_error, timeout_expired, integrity_error, Result, ok,
  err, ◌>>=◌, lift,
}
use kylin_guard_agent.Json.{obj, Fields, Arguments}
use kylin_guard_agent.Executor.Broker.Request.{
  parse_request, check_fields, of_fields, keys, base_fields, allowed_fields, has_other, is_one,
  is_hashable,
}
use kylin_guard_agent.Executor.Broker.Wire.{receive_line}
use kylin_guard_agent.Executor.Broker.Authorize.{Database, Outside, authorize_and_consume}
use kylin_guard_agent.Executor.Broker.Authorize.Accepts.{
  IsAuthorized, authorize-IsAuthorized, authorize_rejects,
}
use kylin_guard_agent.Executor.Broker.{
  Connection, Handled, reply, escapes, deny, caught, Process, respond, serve_line, serve_stream,
  check_peer, handle_connection,
}

parse_unhashable :
    (fields : Fields)
    → all (contains (keys (of_fields fields))) base_fields ≡ true
    → has_other allowed_fields (of_fields fields) ≡ false
    → is_one (lookup "version" (of_fields fields)) ≡ true
    → is_hashable (lookup "action" (of_fields fields)) ≡ false
    → parse_request (ok (obj fields)) ≡ err type_error
unfolding parse_request check_fields
parse_unhashable fields b a v h = rw (b, a, v, h)

module _ (outside : Outside) (process : Process) where
  open process use {loads, run_helper}

  -- The connection has used up an approval: the peer is the allowed user, the line that it sent is the
  -- authorized request, and the helper ran with the arguments of the approved action.
  pub record Ran (connection : Connection) (allowed_uid : ℕ) (before after : Database)
      (handled : Handled) : Type 0 where
    pub peer : connection.peer_uid ≡ some allowed_uid
    pub raw : List ℕ
    pub received : receive_line connection.stream ≡ some (ok raw)
    pub request : Arguments
    pub parsed : parse_request (loads raw) ≡ ok request
    pub helper_args : List String
    pub authorized : IsAuthorized outside request before after helper_args
    pub outcome : handled ≡ respond outside process (run_helper helper_args)

  -- The handler answers with a denial, or an exception leaves it.
  pub data IsDenied (handled : Handled) : Type 0 where
    denied : (reason : String) → handled ≡ reply (deny reason) → IsDenied handled
    raised : (e : Error) → handled ≡ escapes e → IsDenied handled

  caught-IsDenied : (e : Error) → IsDenied (respond outside process (err e))
  unfolding respond caught
  caught-IsDenied (value_error code) = denied _ refl
  caught-IsDenied os_error = denied _ refl
  caught-IsDenied (app_error code status) = raised _ refl
  caught-IsDenied type_error = raised _ refl
  caught-IsDenied timeout_expired = raised _ refl
  caught-IsDenied integrity_error = raised _ refl

  serve_request-Ran :
      (connection : Connection) (uid : ℕ) (raw : List ℕ) (request : Arguments) (before : Database)
      → connection.peer_uid ≡ some uid
      → receive_line connection.stream ≡ some (ok raw)
      → parse_request (loads raw) ≡ ok request
      → (result : Result (List String)) (after : Database)
      → authorize_and_consume outside request before ≡ (result, after)
      → let (reached, last) = (lift result >>= λ args. lift (run_helper args)) after in
        Ran connection uid before last (respond outside process reached)
        ⊎ ((last ≡ before) × IsDenied (respond outside process reached))
  serve_request-Ran connection uid raw request before peer line read (ok args) after e =
      inl (record {
        peer = peer;
        raw = raw;
        received = line;
        request = request;
        parsed = read;
        helper_args = args;
        authorized = authorize-IsAuthorized outside request before after args e;
        outcome = refl;
      })
  serve_request-Ran connection uid raw request before peer line read (err x) after e =
      inr (authorize_rejects outside request x before after e, caught-IsDenied x)

  serve_parsed-Ran :
      (connection : Connection) (uid : ℕ) (raw : List ℕ) (before : Database)
      → connection.peer_uid ≡ some uid
      → receive_line connection.stream ≡ some (ok raw)
      → (parsed : Result Arguments) → parse_request (loads raw) ≡ parsed
      → let (reached, last) =
          (do
            request ← lift parsed
            args ← authorize_and_consume outside request
            lift (run_helper args))
            before in
        Ran connection uid before last (respond outside process reached)
        ⊎ ((last ≡ before) × IsDenied (respond outside process reached))
  serve_parsed-Ran connection uid raw before peer line (err e) read = inr (refl, caught-IsDenied e)
  serve_parsed-Ran connection uid raw before peer line (ok request) read =
      serve_request-Ran connection uid raw request before peer line read
        (authorize_and_consume outside request before).0
        (authorize_and_consume outside request before).1 refl

  serve_stream-Ran :
      (connection : Connection) (uid : ℕ) (before : Database)
      → connection.peer_uid ≡ some uid
      → (line : Option (Result (List ℕ))) → receive_line connection.stream ≡ line
      → let (handled, after) = serve_stream outside process line before in
        Ran connection uid before after handled ⊎ ((after ≡ before) × IsDenied handled)
  unfolding serve_stream serve_line
  serve_stream-Ran connection uid before peer none e = inr (refl, raised _ refl)
  serve_stream-Ran connection uid before peer (some (err x)) e = inr (refl, caught-IsDenied x)
  serve_stream-Ran connection uid before peer (some (ok raw)) e =
      serve_parsed-Ran connection uid raw before peer e (parse_request (loads raw)) refl

  check_peer-Ran :
      (connection : Connection) (allowed_uid : ℕ) (before : Database) (peer : Option ℕ)
      → connection.peer_uid ≡ peer
      → let (handled, after) =
          check_peer outside process peer allowed_uid connection.stream before in
        Ran connection allowed_uid before after handled ⊎ ((after ≡ before) × IsDenied handled)
  unfolding check_peer
  check_peer-Ran connection allowed_uid before none e = inr (refl, denied _ refl)
  check_peer-Ran connection allowed_uid before (some uid) e =
      elim (Bool-cases (uid == allowed_uid)) [
        | inl p ↦ rw p (
            serve_stream-Ran connection allowed_uid before (e ∙ ap some (eq→≡ uid allowed_uid p))
              (receive_line connection.stream) refl)
        | inr n ↦ rw n (inr (refl, denied _ refl))
      ]

  -- A connection leaves the database as it is, unless its peer is the allowed user, the line that
  -- it sent parses to a request that is authorized against the database, and the handler answers
  -- with the outcome of the helper on the arguments of the authorized action; then the new
  -- database is the old one with the row of the approval CONSUMED. Otherwise the handler answers
  -- with a denial or an exception leaves it.
  pub handle_connection-Ran :
      (connection : Connection) (allowed_uid : ℕ) (before : Database)
      → let (handled, after) = handle_connection outside process connection allowed_uid before in
        Ran connection allowed_uid before after handled ⊎ ((after ≡ before) × IsDenied handled)
  unfolding handle_connection
  handle_connection-Ran connection allowed_uid before =
      check_peer-Ran connection allowed_uid before connection.peer_uid refl

  -- A request of the allowed user with exactly the known fields and the right version, but with
  -- an array or an object as its action, makes the handler raise a TypeError that leaves it.
  pub unhashable_action-escapes :
      (connection : Connection) (allowed_uid : ℕ) (before : Database) (raw : List ℕ)
      (fields : Fields)
      → connection.peer_uid ≡ some allowed_uid
      → receive_line connection.stream ≡ some (ok raw)
      → loads raw ≡ ok (obj fields)
      → all (contains (keys (of_fields fields))) base_fields ≡ true
      → has_other allowed_fields (of_fields fields) ≡ false
      → is_one (lookup "version" (of_fields fields)) ≡ true
      → is_hashable (lookup "action" (of_fields fields)) ≡ false
      → handle_connection outside process connection allowed_uid before
        ≡ (escapes type_error, before)
  unfolding handle_connection check_peer
  unhashable_action-escapes connection allowed_uid before raw fields peer line loaded b a v h =
      rw (peer, check_peer)
        (rw (
          eq_self allowed_uid,
          line,
          serve_stream,
          serve_line,
          loaded,
          parse_unhashable fields b a v h,
        ))
