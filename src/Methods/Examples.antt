-- ===== src/Methods/Examples.antt =====
-- One methods object for two channels, and a call back.
use fastapi_ws_rpc.Base.{◌≡◌, refl, true, false, Option, none, some, List, [], ◌∷◌, get_elem?}
use fastapi_ws_rpc.Base.Dict.{Dict, lookup}
use fastapi_ws_rpc.Values.{Json, end, str_id, Exn, exn, ok, raised, key_error}
use fastapi_ws_rpc.Schemas.{JsonRpcRequest, JsonRpcResponse, validate_id, call_id_of}
use fastapi_ws_rpc.Pydantic.Strict.{strict}
use fastapi_ws_rpc.ProtocolHandler.{result_response}
use fastapi_ws_rpc.PromiseManager.{RpcPromise, store_response, create_promise}
use fastapi_ws_rpc.Protocols.{RpcCallable}
use fastapi_ws_rpc.Channel
use fastapi_ws_rpc.Channel.{Channel}
use fastapi_ws_rpc.Channel.Callable.{callable, clear_saved_call}
use fastapi_ws_rpc.Methods.{MethodsObject, AsyncCall, attach, call_me_back, run_call, get_response}
use fastapi_ws_rpc.Methods.Isolation.{attach_isolated}
use fastapi_ws_rpc.Methods.CallingBack.{call_me_back_answered}

abbrev base : MethodsObject
base = record { attributes = ("cache", 7) ∷ []; channel = none }

attach_isolated_example :
    let (a, one) = attach 3 base (base ∷ []) in
    let (b, two) = attach 4 base one in get_elem? two a ≡ some (record base { channel = some 3 })
attach_isolated_example = (attach_isolated 3 4 base (base ∷ []) 0 refl).0

abbrev bound : MethodsObject
bound = record base { channel = some 3 }

abbrev task : AsyncCall
task = record { channel = 3; method_name = "count"; args = end; call_id = "u1" }

abbrev transmit : List (Dict Json) → Dict Json → Option Exn
transmit sent d = none

abbrev fresh : Channel
fresh = Channel.init true false none none

abbrev rpc : RpcCallable Channel RpcPromise
rpc = callable strict transmit 5 "u0" "c1" none

abbrev request : JsonRpcRequest
request = record { jsonrpc = "2.0"; id = some (str_id "u1"); method = "count"; params = none }

abbrev promise : RpcPromise
promise = record { request = request; event = 0; created_at = 5 }

abbrev called : Channel
called = record fresh {
  promises = (create_promise true 5 request fresh.promises).1;
  sent = strict.dump_request request ∷ [];
}

abbrev response : JsonRpcResponse
response = result_response (str_id "u1") (Json.str "3")

abbrev stored : Channel
stored = record called { promises = (store_response response called.promises).1 }

ran : run_call rpc task fresh ≡ (ok promise, called)
unfolding run_call callable Channel.init create_promise validate_id call_id_of lookup
ran = refl

call_me_back_answered_example :
    (get_response rpc "u1" bound stored ≡ (ok (some response), clear_saved_call "u1" stored))
    × (get_response rpc "u1" bound (clear_saved_call "u1" stored)
        ≡ (raised (exn key_error "u1"), clear_saved_call "u1" stored))
unfolding call_me_back
call_me_back_answered_example =
    call_me_back_answered strict transmit 5 "u0" "c1" "count" "u1" none none bound task promise
      response fresh called refl refl ran refl
