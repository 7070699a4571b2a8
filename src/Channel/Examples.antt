-- ===== src/Channel/Examples.antt =====
-- Two channels: the server has a method that counts.
use fastapi_ws_rpc.Base.{
  String, ◌+◌, ◌≡◌, refl, true, false, Option, none, some, List, [], ◌∷◌, ◌++◌, arith, ltb, ◌≤◌,
  ◌==◌, if◌then◌else◌,
}
use fastapi_ws_rpc.Base.Dict.{Dict, lookup, insert}
use fastapi_ws_rpc.Values.{Json, end, fields, str_id, ExnClass, Exn, ok}
use fastapi_ws_rpc.Schemas.{JsonRpcRequest, validate_id, call_id_of}
use fastapi_ws_rpc.MethodInvoker.{
  Signature, Methods, method, value, Call, is_protected, convert_params, convert_result,
  get_return_type, convert_value,
}
use fastapi_ws_rpc.Pydantic.Strict.{strict}
use fastapi_ws_rpc.Pydantic.Strict.Lawful.{strict-laws}
use fastapi_ws_rpc.ProtocolHandler.{handle_message, result_response}
use fastapi_ws_rpc.PromiseManager
use fastapi_ws_rpc.PromiseManager.{
  PromiseManager, RpcPromise, call_id, create_promise, ensure_cleanup_task_started, in_cooldown,
  mark_used, register, admit, get_pending_count,
}
use fastapi_ws_rpc.PromiseManager.Operating.{creates, step, run}
use fastapi_ws_rpc.PromiseManager.Invariant.Runs.{run-init-IsValid}
use fastapi_ws_rpc.SendQueue
use fastapi_ws_rpc.SendQueue.{is_limited}
use fastapi_ws_rpc.Channel.{
  Channel, init, is_closed, new_request, watchdog_fires, async_call, finish_call,
}
use fastapi_ws_rpc.Channel.Calling.{HasRoom}
use fastapi_ws_rpc.Channel.RoundTrip.{server, client, rpc_round_trip}
use fastapi_ws_rpc.Channel.Lifecycle
use fastapi_ws_rpc.Channel.Lifecycle.{
  alone, starts, finishes, closes, disconnects, fires, run-init-once, watchdog_fires_socket,
  close_ends,
}

abbrev pub transmit : List (Dict Json) → Dict Json → Option Exn
transmit sent d = none

abbrev pub counting : Signature
counting = record { parameters = []; return_annotation = none }

abbrev pub methods : Methods
methods name = if name == "count" then some (method counting) else none

abbrev pub call : Call Channel
call name arguments c = (ok (value (Json.str "3")), c)

abbrev pub render : Json → String
render j = "value"

abbrev pub type_name : ExnClass → String
type_name c = "Error"

abbrev pub fresh : Channel
fresh = init true true none none

abbrev pub request : JsonRpcRequest
request = record { jsonrpc = "2.0"; id = some (str_id "u1"); method = "count"; params = none }

abbrev pub promise : RpcPromise
promise = record { request = request; event = 0; created_at = 5 }

abbrev pub waiting : PromiseManager
waiting = run (creates true 5 request ∷ []) (PromiseManager.init true none none)

pub waiting-made :
    create_promise true 5 request (PromiseManager.init true none none) ≡ (ok promise, waiting)
unfolding create_promise ensure_cleanup_task_started admit in_cooldown register mark_used lookup
    insert call_id_of PromiseManager.init run step
waiting-made = refl

pub fresh-HasRoom :
    (m : PromiseManager) → m.closed ≡ false → HasRoom (record fresh { promises = m })
unfolding init SendQueue.init is_limited
fresh-HasRoom m h = record {
  is_open = h;
  queue_valid = record { balanced = refl };
  below = λ l. omega arith;
}

pub waiting_open : waiting.closed ≡ false
unfolding create_promise ensure_cleanup_task_started admit in_cooldown register mark_used lookup
    insert call_id_of PromiseManager.init run step
waiting_open = refl

pub waiting_pending : lookup (call_id promise) waiting.requests ≡ some promise
unfolding create_promise ensure_cleanup_task_started admit in_cooldown register mark_used lookup
    insert call_id call_id_of PromiseManager.init run step
waiting_pending = refl

rpc_round_trip_example :
    let response = result_response (str_id "u1") (Json.str "3") in
    let ask = strict.dump_request request in
    let answer = strict.dump_response response in
    (async_call strict transmit true 5 "u1" "count" end none fresh
      ≡ (ok promise, record fresh { promises = waiting; sent = fresh.sent ++ (ask ∷ []) }))
    × (handle_message
          (server strict strict-laws transmit transmit methods methods call call render type_name
            false)
          (Json.obj (fields ask))
          fresh
        ≡ (ok tt, record fresh { sent = fresh.sent ++ (answer ∷ []) }))
    × ((finish_call strict transmit promise
          (handle_message
            (client strict strict-laws transmit transmit methods methods call call render type_name
              false)
            (Json.obj (fields answer))
            (record fresh { promises = waiting })).1).0
        ≡ ok response)
unfolding init new_request validate_id is_protected convert_params convert_result get_return_type
    convert_value
rpc_round_trip_example =
    rpc_round_trip strict strict-laws transmit transmit methods methods call call render type_name
      false true 5 "u1" "count" end none request promise waiting fresh
      (record fresh { promises = waiting }) fresh fresh counting [] (value (Json.str "3"))
      (Json.str "3") refl waiting-made (fresh-HasRoom waiting waiting_open) refl refl refl refl refl
      refl refl (fresh-HasRoom fresh.promises refl) refl
      (run-init-IsValid true none none (creates true 5 request ∷ [])) waiting_pending

run-init-once_example :
    let c =
      (Lifecycle.run
        (starts ∷ disconnects ∷ finishes ∷ closes ∷ fires ∷ [])
        (alone (init true true none none))).channel in
    (c.disconnect_runs ≤ 1)
    × (c.socket_closes ≤ 1)
    × (is_closed c ≡ ltb 0 (c.disconnect_runs + c.socket_closes))
run-init-once_example =
    run-init-once true true none none (starts ∷ disconnects ∷ finishes ∷ closes ∷ fires ∷ [])

watchdog_fires_socket_example :
    (Lifecycle.run (closes ∷ []) (alone (watchdog_fires fresh))).channel.socket_closes
    ≡ fresh.socket_closes
unfolding init PromiseManager.init
watchdog_fires_socket_example = (watchdog_fires_socket fresh (closes ∷ []) refl refl refl).3
