-- ===== src/PromiseManager/Examples.antt =====
-- A manager with one pending request.
use fastapi_ws_rpc.Base.{String, ◌≡◌, refl, true, false, none, some, [], ◌∷◌, arith}
use fastapi_ws_rpc.Base.Dict.{lookup, insert}
use fastapi_ws_rpc.Values.{is_ok, Json, str_id, ok, raised, exn, rpc_channel_closed}
use fastapi_ws_rpc.Schemas.{JsonRpcRequest, JsonRpcResponse, call_id_of}
use fastapi_ws_rpc.PromiseManager.{
  PromiseManager, RpcPromise, init, ensure_cleanup_task_started, in_cooldown, mark_used, register,
  admit, create_promise, store_response, resume, close,
}
use fastapi_ws_rpc.PromiseManager.Operating.{creates, stores, closes, step, run}
use fastapi_ws_rpc.PromiseManager.CleanupTask.{cleanup_expired_promises}
use fastapi_ws_rpc.PromiseManager.Invariant.{IsValid}
use fastapi_ws_rpc.PromiseManager.Invariant.Runs.{run-init-IsValid}
use fastapi_ws_rpc.PromiseManager.Delivery.{store-resume}
use fastapi_ws_rpc.PromiseManager.Cooldown.{create_promise_cooldown}
use fastapi_ws_rpc.PromiseManager.Expiry.{cleanup_exact}
use fastapi_ws_rpc.PromiseManager.Closing.{close-resume}
use fastapi_ws_rpc.PromiseManager.Calls.{Move, view, step-Move}

abbrev ask : String → JsonRpcRequest
ask id = record { jsonrpc = "2.0"; id = some (str_id id); method = "ping"; params = none }

abbrev reply : String → JsonRpcResponse
reply id = record {
  jsonrpc = "2.0";
  id = some (str_id id);
  result = Json.str "pong";
  error = none;
  compressed = none;
}

abbrev fresh : PromiseManager
fresh = init true (some 2) none

abbrev busy : PromiseManager
busy = run (creates true 5 (ask "a") ∷ []) fresh

abbrev promise : RpcPromise
promise = record { request = ask "a"; event = 0; created_at = 5 }

busy-IsValid : IsValid busy
busy-IsValid = run-init-IsValid true (some 2) none (creates true 5 (ask "a") ∷ [])

pending : lookup "a" busy.requests ≡ some promise
unfolding run step init create_promise ensure_cleanup_task_started admit in_cooldown register
    mark_used lookup insert call_id_of
pending = refl

run-init-IsValid_example :
    IsValid (run (creates true 5 (ask "a") ∷ stores (reply "a") ∷ closes ∷ []) fresh)
run-init-IsValid_example =
    run-init-IsValid true (some 2) none
      (creates true 5 (ask "a") ∷ stores (reply "a") ∷ closes ∷ [])

store-resume_example : (resume promise (store_response (reply "a") busy).1).0 ≡ ok (reply "a")
unfolding call_id_of
store-resume_example =
    (store-resume busy promise (reply "a") (str_id "a") busy-IsValid refl pending).2

create_promise_cooldown_example :
    is_ok
      (create_promise true 9000
        (ask "a")
        (run (stores (reply "a") ∷ closes ∷ []) (create_promise true 5 (ask "a") fresh).1)).0
    ≡ false
unfolding init create_promise ensure_cleanup_task_started admit in_cooldown register mark_used
    lookup insert call_id_of
create_promise_cooldown_example =
    create_promise_cooldown true 5 9000 (ask "a") (ask "a") fresh (stores (reply "a") ∷ closes ∷ [])
      tt refl (tt, (tt, tt)) (omega arith) refl

cleanup_exact_example : lookup "a" (cleanup_expired_promises 60_006 busy).1.requests ≡ none
unfolding run step init create_promise ensure_cleanup_task_started admit in_cooldown register
    mark_used lookup insert call_id_of
cleanup_exact_example = (cleanup_exact 60_006 busy "a" promise busy-IsValid refl pending).0

close-resume_example :
    (resume promise (close busy)).0
    ≡ raised (exn rpc_channel_closed "Channel closed before response for call")
close-resume_example = (close-resume busy "a" promise pending).2

step-Move_example : Move (view busy) (view (step (stores (reply "a")) busy))
step-Move_example = step-Move (stores (reply "a")) busy busy-IsValid
