-- ===== src/PromiseManager/Operating.antt =====
-- The operations of the promise manager as steps, in any order.
use fastapi_ws_rpc.Base.{ℕ, String, Bool, List, [], ◌∷◌}
use fastapi_ws_rpc.Schemas.{JsonRpcRequest, JsonRpcResponse}
use fastapi_ws_rpc.PromiseManager.{
  PromiseManager, RpcPromise, create_promise, store_response, resume, clear_saved_call, close,
}
use fastapi_ws_rpc.PromiseManager.CleanupTask.{periodic_cleanup}

-- What the channel, the reader task and the cleanup task do to the manager, in any order.
pub data Op : Type 0 where
  creates : Bool → ℕ → JsonRpcRequest → Op
  stores : JsonRpcResponse → Op
  resumes : RpcPromise → Op
  clears : String → Op
  cleans : ℕ → Op
  closes : Op

unfoldable pub step : Op → PromiseManager → PromiseManager
unfolding create_promise store_response resume periodic_cleanup close
step (creates loop_running now request) m = (create_promise loop_running now request m).1
step (stores response) m = (store_response response m).1
step (resumes p) m = (resume p m).1
step (clears k) m = clear_saved_call k m
step (cleans now) m = periodic_cleanup now m
step closes m = close m

unfoldable pub run : List Op → PromiseManager → PromiseManager
unfolding step
run [] m = m
run (o ∷ os) m = run os (step o m)
