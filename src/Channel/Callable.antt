-- ===== src/Channel/Callable.antt =====
-- A channel as an `RpcCallable` (fastapi_ws_rpc/_internal/protocols.py): the operations of
-- fastapi_ws_rpc/rpc_channel.py that pass on to the promise manager and the socket.
pub mod Contract
use Prim.Native.String.{count}
use fastapi_ws_rpc.Base.{
  ℕ, ◌+◌, ◌<◌, String, ◌≡◌, refl, sym, ap, ◌∙◌, Bool, true, false, Option, none, some, List, arith,
  eq_iff, ◌==◌, ltb,
}
use fastapi_ws_rpc.Base.Dict.{Dict, lookup, IsDistinct, lookup-erase}
use fastapi_ws_rpc.Values.{
  Json, Fields, end, RpcId, str_id, Exn, exn, Outcome, ok, raised, key_error, value_error,
}
use fastapi_ws_rpc.Exec.{Exec, pure, lift, continue-eq-ok, ◌>>=◌, ◌>>◌}
use fastapi_ws_rpc.Schemas.{JsonRpcRequest, JsonRpcResponse, call_id_of, validate_id}
use fastapi_ws_rpc.Pydantic.{Pydantic}
use fastapi_ws_rpc.PromiseManager
use fastapi_ws_rpc.PromiseManager.{
  PromiseManager, RpcPromise, create_promise, ensure_cleanup_task_started, admit, register,
}
use fastapi_ws_rpc.SendQueue.{begin, acquire, finish}
use fastapi_ws_rpc.Protocols.{RpcCallable, Laws}
use fastapi_ws_rpc.Channel.{
  Channel, Timeout, given, actual_timeout, socket_send, guarded_send, send_raw, async_call, notify,
  new_request, call_id_or,
}

-- `if args is None: args = {}`
abbrev pub or_empty : Option Fields → Fields
or_empty none = end
or_empty (some args) = args

unfoldable pub get_saved_promise : String → Channel → Outcome RpcPromise
unfolding PromiseManager.get_saved_promise
get_saved_promise k c = PromiseManager.get_saved_promise k c.promises

unfoldable pub get_saved_response : String → Channel → Outcome JsonRpcResponse
unfolding PromiseManager.get_saved_response
get_saved_response k c = PromiseManager.get_saved_response k c.promises

unfoldable pub clear_saved_call : String → Channel → Channel
unfolding PromiseManager.clear_saved_call
clear_saved_call k c = record c { promises = PromiseManager.clear_saved_call k c.promises }

-- `send`: the socket's, with none of the checks of `send_raw`.
unfoldable pub send :
    Pydantic → (List (Dict Json) → Dict Json → Option Exn) → Dict Json → Exec Channel Unit
unfolding socket_send
send py transmit d = socket_send py transmit d

module _ (py : Pydantic) (transmit : List (Dict Json) → Dict Json → Option Exn) (now : ℕ)
    (uid : String) where
  -- `call`, up to its wait: the promise, and how long it is waited for.
  unfoldable pub call :
      Option ℕ → String → Option Fields → Timeout → Exec Channel (RpcPromise × Option ℕ)
  unfolding async_call actual_timeout
  call default_response_timeout name args timeout = do
    p ← async_call py transmit true now uid name (or_empty args) none
    pure (p, actual_timeout default_response_timeout timeout)

  -- The channel with this id, at one time.
  unfoldable pub callable : String → Option ℕ → RpcCallable Channel RpcPromise
  unfolding call async_call notify get_saved_response clear_saved_call
  callable id default_response_timeout = record {
    id = id;
    async_call =
        λ name args call_id. async_call py transmit true now uid name (or_empty args) call_id;
    call = λ name args timeout. call default_response_timeout name args (given timeout);
    notify = λ name args. notify py transmit name (or_empty args);
    get_saved_response = get_saved_response;
    clear_saved_call = clear_saved_call;
  }
