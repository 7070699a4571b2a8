-- ===== src/PromiseManager/CleanupTask.antt =====
-- `_cleanup_expired_promises` and the task of `_periodic_cleanup`, with its handlers
-- (fastapi_ws_rpc/_internal/promise_manager.py).
use fastapi_ws_rpc.Base.{
  ℕ, ◌+◌, String, Bool, true, false, not, List, [], ◌∷◌, ltb, if◌then◌else◌, length,
}
use fastapi_ws_rpc.Base.Dict.{Dict}
use fastapi_ws_rpc.Values.{Outcome, ok, raised, value_error, key_error}
use fastapi_ws_rpc.Schemas.{JsonRpcRequest}
use fastapi_ws_rpc.Base.{arith, not, ◌&&◌, ◌≡◌}
use fastapi_ws_rpc.Values.{
  ExnClass, is_exception, Exn, runtime_error, type_error, attribute_error, cancelled_error,
}
use fastapi_ws_rpc.PromiseManager.{
  PromiseManager, RpcPromise, clear_saved_call, ensure_cleanup_task_started, admit, register,
  create_promise,
}

unfoldable pub expired_ids : ℕ → ℕ → Dict RpcPromise → List String
expired_ids now ttl [] = []
expired_ids now ttl ((k, p) ∷ d) =
    let rest = expired_ids now ttl d in if ltb (p.created_at + ttl) now then k ∷ rest else rest

unfoldable pub clear_all : List String → PromiseManager → PromiseManager
unfolding clear_saved_call
clear_all [] m = m
clear_all (k ∷ ks) m = clear_all ks (clear_saved_call k m)

unfoldable pub cleanup_expired_promises : ℕ → PromiseManager → ℕ × PromiseManager
unfolding expired_ids clear_all
cleanup_expired_promises now m =
    let expired = expired_ids now m.promise_ttl m.requests in
    if m.closed then (0, m) else (length expired, clear_all expired m)

-- One round of `_periodic_cleanup`, after its sleep: the loop ends on a closed manager.
unfoldable pub periodic_cleanup : ℕ → PromiseManager → PromiseManager
unfolding cleanup_expired_promises
periodic_cleanup now m =
    if m.closed then record m { cleanup_running = false } else (cleanup_expired_promises now m).1

-- What comes of one round: the sleep ends at a time, or something raises in it.
pub data Round : Type 0 where
  wakes : ℕ → Round
  breaks : Exn → Round

-- The classes that are logged.
abbrev pub is_expected : ExnClass → Bool
is_expected runtime_error = true
is_expected value_error = true
is_expected type_error = true
is_expected key_error = true
is_expected attribute_error = true
is_expected _ = false

abbrev pub is_cancellation : ExnClass → Bool
is_cancellation cancelled_error = true
is_cancellation _ = false

-- The handlers: only an unexpected Exception is raised again, and only in development.
unfoldable pub on_cleanup_error : Bool → Exn → Outcome (Unit {0})
on_cleanup_error development e =
    if is_cancellation e.cls
    then ok tt
    else if is_expected e.cls
    then ok tt
    else if is_exception e.cls && not development
    then ok tt
    else raised e

-- The loop, with how the task ends if it does: the handlers stand outside of it.
unfoldable pub run_cleanup :
    Bool → List Round → PromiseManager → Outcome (Unit {0}) × PromiseManager
unfolding on_cleanup_error periodic_cleanup
run_cleanup development [] m = (ok tt, m)
run_cleanup development (breaks e ∷ rounds) m =
    (on_cleanup_error development e, record m { cleanup_running = false })
run_cleanup development (wakes now ∷ rounds) m =
    let rest = run_cleanup development rounds (periodic_cleanup now m) in
    if m.closed then (ok tt, record m { cleanup_running = false }) else rest

-- An expected exception ends the cleanup: no later round runs. The next request starts it again,
-- whether it is accepted or not.
cleanup_broken :
    (development : Bool) (e : Exn) (rounds : List Round) (now : ℕ) (q : JsonRpcRequest)
    (m : PromiseManager)
    → is_expected e.cls ≡ true
    → (run_cleanup development (breaks e ∷ rounds) m
        ≡ (ok tt, record m { cleanup_running = false }))
      × ((create_promise true now q (record m { cleanup_running = false })).1.cleanup_running
          ≡ true)
unfolding run_cleanup on_cleanup_error create_promise ensure_cleanup_task_started admit register
cleanup_broken development e rounds now q m expected = (ground (arith, expected), ground arith)
