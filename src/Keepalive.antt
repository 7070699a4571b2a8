-- ===== src/Keepalive.antt =====
-- fastapi_ws_rpc/_internal/rpc_keepalive.py. The websocket and the RPC ping are outside of the
-- component: each round of the loop is given what they offer and how they answer. Durations are
-- milliseconds. `close_requests` counts the tasks created for `close_fn`.
pub mod Streaks
mod Examples
use fastapi_ws_rpc.Base.{
  ℕ, suc, ◌+◌, String, Bool, true, false, not, ◌&&◌, ◌||◌, Option, none, some, List, [], ◌∷◌, ◌==◌,
  ltb, if◌then◌else◌,
}
use fastapi_ws_rpc.Base.Int.{ℤ, pos, leb_ℤ, ltb_ℤ}
use fastapi_ws_rpc.Values.{
  Json, ExnClass, Exn, exn, Outcome, ok, raised, value_error, validation_error, runtime_error,
  connection_error, timeout_error, is_exception,
}
use fastapi_ws_rpc.Config.{check}

-- `_task`: none, one that runs, one that has ended by itself, or one that an exception ended.
pub data Task : Type 0 where
  no_task running done : Task
  crashed : Exn → Task

pub record RpcKeepalive : Type 0 where
  pub interval : ℤ
  pub max_failures : ℤ
  pub use_protocol_ping : Bool
  pub has_ping_fn : Bool
  pub task : Task
  pub consecutive_failures : ℕ
  pub close_requests : ℕ

-- The tests of `RpcKeepalive.__init__`.
unfoldable pub init_checks : ℤ → ℤ → Bool → Bool → Outcome (Unit {0})
init_checks interval max_failures use_protocol_ping has_ping_fn = check (
    (leb_ℤ interval (pos 0), "Keep-alive interval must be > 0")
    ∷ (ltb_ℤ max_failures (pos 1), "max_consecutive_failures must be >= 1")
    ∷ (not use_protocol_ping && not has_ping_fn, "ping_fn is required when use_protocol_ping=False")
    ∷ [])

abbrev pub new : ℤ → ℤ → Bool → Bool → RpcKeepalive
new interval max_failures use_protocol_ping has_ping_fn = record {
  interval = interval;
  max_failures = max_failures;
  use_protocol_ping = use_protocol_ping;
  has_ping_fn = has_ping_fn;
  task = no_task;
  consecutive_failures = 0;
  close_requests = 0;
}

abbrev pub is_running_task : Task → Bool
is_running_task running = true
is_running_task _ = false

unfoldable pub is_running : RpcKeepalive → Bool
is_running k = is_running_task k.task

unfoldable pub reset_failures : RpcKeepalive → RpcKeepalive
reset_failures k = record k { consecutive_failures = 0 }

unfoldable pub start : RpcKeepalive → RpcKeepalive
unfolding is_running
start k = if is_running k then k else record k { task = running }

-- Awaiting the cancelled task raises the exception that ended it, and the task stays.
unfoldable pub stop_task : Task → RpcKeepalive → Outcome (Unit {0}) × RpcKeepalive
stop_task (crashed e) k = (raised e, k)
stop_task _ k = (ok tt, record k { task = no_task })

unfoldable pub stop : RpcKeepalive → Outcome (Unit {0}) × RpcKeepalive
unfolding stop_task
stop k = stop_task k.task k

-- What a ping call returned: `None` or another false value, an object with no `result`, or one with
-- a result.
pub data Answer : Type 0 where
  nothing without_result : Answer
  with_result : Json → Answer

-- What the outside does in one round: the methods that the websocket has, the outcome of its ping
-- (with the wait for the pong), and that of `ping_fn`; both outcomes include their timeouts.
pub record Round : Type 0 where
  pub has_ping : Bool
  pub has_send_ping : Bool
  pub frame : Outcome (Unit {0})
  pub answer : Outcome Answer

abbrev pub ping_response : String
ping_response = "pong"

abbrev pub check_answer : Answer → Outcome (Unit {0})
check_answer (with_result (Json.str s)) =
    if s == ping_response then ok tt else raised (exn value_error "Unexpected ping response")
check_answer _ = raised (exn value_error "Unexpected ping response")

abbrev pub rpc_ping : Outcome Answer → Outcome (Unit {0})
rpc_ping (raised e) = raised e
rpc_ping (ok a) = check_answer a

unfoldable pub send_protocol_ping : Bool → Round → Outcome (Unit {0})
send_protocol_ping has_ping_fn r =
    if r.has_ping || r.has_send_ping
    then r.frame
    else if has_ping_fn
    then rpc_ping r.answer
    else raised (exn runtime_error "No ping method available (neither protocol nor RPC)")

unfoldable pub ping : RpcKeepalive → Round → Outcome (Unit {0})
unfolding send_protocol_ping
ping k r =
    if k.use_protocol_ping
    then send_protocol_ping k.has_ping_fn r
    else if k.has_ping_fn
    then rpc_ping r.answer
    else raised (exn runtime_error "No ping method configured")

-- The classes that the loop counts as failures; a `ValidationError` is a `ValueError`.
abbrev pub is_failure : ExnClass → Bool
is_failure timeout_error = true
is_failure runtime_error = true
is_failure connection_error = true
is_failure value_error = true
is_failure validation_error = true
is_failure _ = false

-- How another exception ends the task: only `CancelledError` is caught.
abbrev pub ending : Exn → Task
ending e = if is_exception e.cls then crashed e else done

-- The counter after a ping, or the end of the task by another exception.
unfoldable pub count_ping : Outcome (Unit {0}) → RpcKeepalive → RpcKeepalive
count_ping (ok u) k = record k { consecutive_failures = 0 }
count_ping (raised e) k =
    if is_failure e.cls
    then record k { consecutive_failures = k.consecutive_failures + 1 }
    else record k { task = ending e }

-- `if self._consecutive_failures >= self._max_failures`, which a task that has ended does not reach.
unfoldable pub check_failures : RpcKeepalive → RpcKeepalive
unfolding is_running
check_failures k =
    if is_running k && leb_ℤ k.max_failures (pos k.consecutive_failures)
    then record k { task = done; close_requests = k.close_requests + 1 }
    else k

-- One round of `_keepalive_loop`, after the sleep.
unfoldable pub keepalive_round : Round → RpcKeepalive → RpcKeepalive
unfolding is_running count_ping check_failures ping
keepalive_round r k = if is_running k then check_failures (count_ping (ping k r) k) else k

unfoldable pub run : List Round → RpcKeepalive → RpcKeepalive
unfolding keepalive_round
run [] k = k
run (r ∷ rs) k = run rs (keepalive_round r k)
