-- ===== src/ProtocolHandler/Examples.antt =====
-- A handler that keeps what it sends in a list, with one method that returns and one that raises.
use fastapi_ws_rpc.Base.{
  String, ◌≡◌, refl, false, Option, none, some, List, [], ◌∷◌, ◌==◌, if◌then◌else◌,
}
use fastapi_ws_rpc.Base.Dict.{Dict}
use fastapi_ws_rpc.Values.{Json, RpcId, str_id, exn, ok, raised, type_error, runtime_error, is_ok}
use fastapi_ws_rpc.Schemas.{JsonRpcRequest, internal_error}
use fastapi_ws_rpc.MethodInvoker.{
  Signature, Methods, method, value, Call, is_protected, convert_params, validate_method, invoke,
}
use fastapi_ws_rpc.Exec.{continue, handled}
use fastapi_ws_rpc.Pydantic.Strict.{strict}
use fastapi_ws_rpc.Pydantic.Strict.Lawful.{strict-laws}
use fastapi_ws_rpc.ProtocolHandler.{
  Handler, send_error, send_result, on_failure, on_bad_params, handle_request,
}
use fastapi_ws_rpc.ProtocolHandler.Requests.{
  with_send, handle_request_notification, handle_request_sanitised,
}
use fastapi_ws_rpc.ProtocolHandler.Replies.{Replies, handle_request-Replies}
use fastapi_ws_rpc.ProtocolHandler.Invoking.{handle_request-invoke}

abbrev Log : Type 0
Log = List (Dict Json)

abbrev no_parameters : Signature
no_parameters = record { parameters = []; return_annotation = none }

abbrev methods : Methods
methods name =
    if name == "count"
    then some (method no_parameters)
    else if name == "fail"
    then some (method no_parameters)
    else if name == "mistake"
    then some (method no_parameters)
    else none

abbrev call : Call Log
call name arguments log =
    if name == "count"
    then (ok (value (Json.str "3")), log)
    else if name == "fail"
    then (raised (exn runtime_error "disk full"), log)
    else (raised (exn type_error "unsupported operand"), log)

abbrev push : Dict Json → Log → Log
push d log = d ∷ log

abbrev handler : Handler Log
handler = record {
  py = strict;
  methods = methods;
  call = call;
  render = λ j. "value";
  type_name = λ c. "Error";
  send = λ d log. (ok tt, push d log);
  store = λ r log. log;
  debug_mode = false;
}

abbrev ask : Option RpcId → String → JsonRpcRequest
ask id name = record { jsonrpc = "2.0"; id = id; method = name; params = none }

handle_request-Replies_example :
    Replies handler strict-laws push
      (λ d log. refl)
      (str_id "a")
      "fail"
      []
      (handle_request handler (ask (some (str_id "a")) "fail") [])
handle_request-Replies_example =
    handle_request-Replies handler strict-laws push (λ d log. refl) (ask (some (str_id "a")) "fail")
      (str_id "a") [] refl (λ arguments log. refl)

handle_request_notification_example :
    handle_request
      (with_send handler (λ d log. (raised (exn runtime_error "closed"), log)))
      (ask none "count")
      []
    ≡ handle_request handler (ask none "count") []
handle_request_notification_example =
    handle_request_notification handler (λ d log. (raised (exn runtime_error "closed"), log))
      (ask none "count") [] refl

handle_request_sanitised_example :
    handle_request handler (ask (some (str_id "a")) "fail") []
    ≡ send_error handler (some (str_id "a")) internal_error "Internal server error" Json.null []
unfolding is_protected convert_params
handle_request_sanitised_example =
    handle_request_sanitised handler (ask (some (str_id "a")) "fail") (str_id "a") []
      (exn runtime_error "disk full") [] [] refl refl refl refl refl refl refl refl

handle_request-invoke_example :
    let q = ask (some (str_id "a")) "count" in
    let converted = convert_params methods q.params (some q.method) in
    handle_request handler q []
    ≡ handled
        (λ e. if is_ok converted then on_failure handler q e else on_bad_params handler q e)
        (continue
          (send_result handler q.id)
          (invoke methods handler.render call q.method q.params []))
unfolding validate_method
handle_request-invoke_example =
    handle_request-invoke handler (ask (some (str_id "a")) "count") [] refl
