-- ===== src/Executor/Broker.antt =====
-- backend/app/executor/broker.py: the privileged broker that serves approved fixed actions.
-- The socket's bytes, the JSON parser, the clock, the hash, the way that SQLite stores instants,
-- and the root helper are parameters.
pub mod Wire
pub mod Request
pub mod Authorize
pub mod Handling
use kylin_guard_agent.Base.{
  ℕ, String, Bool, true, false, Option, none, some, List, [], ◌∷◌, ◌<>◌, ◌==◌, nat_eq,
  if◌then◌else◌,
}
use kylin_guard_agent.Base.Exec.{
  Error, value_error, app_error, os_error, type_error, timeout_expired, integrity_error, Result, ok,
  err, Exec, ◌>>=◌, lift,
}
use kylin_guard_agent.Json.{ℤ, pos, Value, Arguments}
use kylin_guard_agent.Executor.Broker.Request.{parse_request}
use kylin_guard_agent.Executor.Broker.Wire.{Stream, receive_line}
use kylin_guard_agent.Executor.Broker.Authorize.{Database, Outside, authorize_and_consume}

pub record BrokerResponse : Type 0 where
  pub returncode : ℤ
  pub stdout : String
  pub stderr : String

-- What a connection offers: the peer's uid, `none` where the platform does not tell it, and the
-- bytes that arrive.
pub record Connection : Type 0 where
  pub peer_uid : Option ℕ
  pub stream : Stream

-- A reply, or an exception that leaves the handler and, with it, the loop of `serve`.
pub data Handled : Type 0 where
  reply : BrokerResponse → Handled
  escapes : Error → Handled

abbrev deny : String → BrokerResponse
deny reason = record { returncode = pos 126; stdout = ""; stderr = reason }

-- The outside of the handler: `json.loads` on the bytes of a line, the root helper, of which
-- `subprocess.run` returns the outcome or raises, and `type(error).__name__`.
pub record Process : Type 0 where
  pub loads : List ℕ → Result Value
  pub run_helper : List String → Result BrokerResponse
  pub type_name : Error → String

module _ (outside : Outside) (process : Process) where
  open process use {loads, run_helper, type_name}

  -- the `except` clause
  caught : Error → Handled
  caught (value_error e) = reply (deny ("BROKER_DENIED:" <> type_name (value_error e)))
  caught os_error = reply (deny ("BROKER_DENIED:" <> type_name os_error))
  caught (app_error c n) = escapes (app_error c n)
  caught type_error = escapes type_error
  caught timeout_expired = escapes timeout_expired
  caught integrity_error = escapes integrity_error

  pub respond : Result BrokerResponse → Handled
  unfolding caught
  respond (ok response) = reply response
  respond (err e) = caught e

  -- from the received line on
  serve_line : Result (List ℕ) → Exec Database BrokerResponse
  serve_line line = do
    raw ← lift line
    request ← lift (parse_request (loads raw))
    helper_args ← authorize_and_consume outside request
    lift (run_helper helper_args)

  serve_stream : Option (Result (List ℕ)) → Database → Handled × Database
  unfolding respond serve_line
  serve_stream none database = (escapes type_error, database)
  serve_stream (some line) database =
      let (result, after) = serve_line line database in (respond result, after)

  check_peer : Option ℕ → ℕ → Stream → Database → Handled × Database
  unfolding serve_stream
  check_peer none allowed_uid stream database =
      (reply (deny "BROKER_PEER_CREDENTIALS_UNAVAILABLE"), database)
  check_peer (some uid) allowed_uid stream database =
      if uid == allowed_uid
      then serve_stream (receive_line stream) database
      else (reply (deny "BROKER_PEER_DENIED"), database)

  -- `_handle_connection`
  unfoldable pub handle_connection : Connection → ℕ → Database → Handled × Database
  unfolding check_peer
  handle_connection connection allowed_uid database =
      check_peer connection.peer_uid allowed_uid connection.stream database
