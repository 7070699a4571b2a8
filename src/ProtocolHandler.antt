-- ===== src/ProtocolHandler.antt =====
-- fastapi_ws_rpc/_internal/protocol_handler.py. The handler is a record of its collaborators: the
-- send callback, the promise manager's `store_response`, the methods object, pydantic and the debug
-- flag. All act on one state `S`, which the channel instantiates. Texts of errors are cut before the
-- message or the type that the source quotes.
pub mod Requests
pub mod Replies
pub mod Messages
pub mod Invoking
mod Examples
use Prim.Native.String.{◌++◌}
use fastapi_ws_rpc.Base.{
  ℕ, String, Bool, true, false, ◌||◌, ◌&&◌, not, Option, none, some, ◌==◌, is_none, is_some,
  if◌then◌else◌,
}
use fastapi_ws_rpc.Base.Dict.{Dict, lookup, insert, contains}
use fastapi_ws_rpc.Values.{
  Json, Fields, field, end, entries, RpcId, ExnClass, Exn, exn, Outcome, ok, raised, value_error,
  validation_error, type_error, attribute_error, rpc_invalid_state, is_exception,
}
use fastapi_ws_rpc.Schemas.{
  JsonRpcErrorCode, parse_error, invalid_request, invalid_params, internal_error, code_value,
  JsonRpcRequest, JsonRpcError, JsonRpcResponse, Params,
}
use fastapi_ws_rpc.MethodInvoker.{
  Methods, Attribute, Signature, method, not_callable, Returned, no_response, value, Call,
  validate_method, convert_params, convert_result,
}
use fastapi_ws_rpc.Exec.{Exec, pure, raise, lift, continue, ◌>>=◌, ◌>>◌, handled, try}
use fastapi_ws_rpc.Pydantic.{Pydantic}

pub record Handler (S : Type 0) : Type 0 where
  pub py : Pydantic
  pub methods : Methods
  -- `await method(**arguments)`
  pub call : Call S
  -- `str` of a result, and `type(e).__name__`
  pub render : Json → String
  pub type_name : ExnClass → String
  -- `self._send`
  pub send : Dict Json → Exec S Unit
  -- `self._promise_manager.store_response`
  pub store : JsonRpcResponse → S → S
  pub debug_mode : Bool

-- `response_dict["id"] = None` for a null id
unfoldable pub with_null_id : Option RpcId → Dict Json → Dict Json
with_null_id none d = insert "id" Json.null d
with_null_id (some id) d = d

abbrev pub error_response : Option RpcId → JsonRpcErrorCode → String → Json → JsonRpcResponse
error_response id code message details = record {
  jsonrpc = "2.0";
  id = id;
  result = Json.null;
  error = some (record { code = code_value code; message = message; details = details });
  compressed = none;
}

-- `{"type": type(e).__name__, "method": method_name}`
abbrev pub error_data : String → String → Json
error_data type_name name =
    Json.obj (field "type" (Json.str type_name) (field "method" (Json.str name) end))

abbrev pub result_response : RpcId → Json → JsonRpcResponse
result_response id result = record {
  jsonrpc = "2.0";
  id = some id;
  result = result;
  error = none;
  compressed = none;
}

abbrev pub is_type_error : ExnClass → Bool
is_type_error type_error = true
is_type_error _ = false

-- `data.get("jsonrpc") != "2.0"`
abbrev pub is_version_2 : Dict Json → Bool
is_version_2 d = elim (lookup "jsonrpc" d) [
  | none ↦ false
  | some v ↦ elim v [ Json.str s ↦ s == "2.0" | _ ↦ false ]
]

abbrev pub is_caught : ExnClass → Bool
is_caught value_error = true
is_caught validation_error = true
is_caught _ = false

abbrev pub id_of : Option Json → Json
id_of none = Json.null
id_of (some j) = j

module _ {S : Type 0} (h : Handler S) where
  unfoldable pub send_error : Option RpcId → JsonRpcErrorCode → String → Json → Exec S Unit
  unfolding with_null_id
  send_error id code message details =
      h.send (with_null_id id (h.py.dump_response (error_response id code message details)))

  -- `if request.id is not None: await self.send_error(…)`
  unfoldable pub reply_error : Option RpcId → JsonRpcErrorCode → String → Json → Exec S Unit
  unfolding send_error
  reply_error none code message details = pure tt
  reply_error (some id) code message details = send_error (some id) code message details

  -- The response to a request that was executed.
  unfoldable pub send_result : Option RpcId → Returned → Exec S Unit
  send_result id no_response = pure tt
  send_result none (value v) = pure tt
  send_result (some id) (value v) = h.send (h.py.dump_response (result_response id v))

  -- The `try` block that executes the method: `getattr`, the call, the conversion, the response.
  unfoldable pub execute : JsonRpcRequest → Dict Json → Exec S Unit
  unfolding convert_result send_result
  execute q arguments = elim (h.methods q.method) [
    | none ↦ raise (exn attribute_error q.method)
    | some a ↦ elim a [
      | not_callable ↦ raise (exn type_error "object is not callable")
      | method s ↦ (do
        result ← h.call q.method arguments
        send_result q.id (convert_result h.render s result))
    ]
  ]

  -- The text and data that an unexpected exception shows to the peer.
  unfoldable pub disclosed : String → Exn → String × Json
  disclosed name e =
      if h.debug_mode
      then ("Internal error: " ++ e.text, error_data (h.type_name e.cls) name)
      else ("Internal server error", Json.null)

  -- `except TypeError`, `except Exception`; what is no `Exception` goes on.
  unfoldable pub on_failure : JsonRpcRequest → Exn → Exec S Unit
  unfolding disclosed reply_error
  on_failure q e =
      if is_type_error e.cls
      then reply_error q.id invalid_params ("Invalid parameters: " ++ e.text)
          (error_data "TypeError" q.method)
      else if is_exception e.cls
      then (let (message, details) = disclosed q.method e in
          reply_error q.id internal_error message details)
      else raise e

  abbrev pub is_value_error : Exn → Bool
  is_value_error e = elim e.cls [
    | value_error ↦ true
    | validation_error ↦ h.py.validation_is_value_error
    | _ ↦ false
  ]

  -- `except ValueError` around `convert_params`
  unfoldable pub on_bad_params : JsonRpcRequest → Exn → Exec S Unit
  unfolding reply_error
  on_bad_params q e =
      if is_value_error e
      then reply_error q.id invalid_params ("Invalid parameters: " ++ e.text)
          (error_data "ValueError" q.method)
      else raise e

  unfoldable pub run_request : JsonRpcRequest → Outcome (Dict Json) → Exec S Unit
  unfolding execute on_failure on_bad_params
  run_request q (raised e) = on_bad_params q e
  run_request q (ok arguments) = try (execute q arguments) (on_failure q)

  -- The checks on the error code and message of an invalid method.
  unfoldable pub refuse : Option RpcId → Option JsonRpcErrorCode → Option String → Exec S Unit
  unfolding reply_error
  refuse id none message =
      raise (exn rpc_invalid_state "error_code must be set when is_valid is False")
  refuse id (some code) none =
      raise (exn rpc_invalid_state "error_msg must be set when is_valid is False")
  refuse id (some code) (some message) = reply_error id code message Json.null

  unfoldable pub handle_request : JsonRpcRequest → Exec S Unit
  unfolding validate_method convert_params run_request refuse
  handle_request q =
      let (is_valid, code, message) = validate_method h.methods q.method in
      if is_valid
      then run_request q (convert_params h.methods q.params (some q.method))
      else refuse q.id code message

  unfoldable pub handle_response : JsonRpcResponse → Exec S Unit
  handle_response r s = (ok tt, h.store r s)

  -- The `try` block of `handle_message` on a dictionary.
  unfoldable pub route : Dict Json → Exec S Unit
  unfolding handle_request handle_response
  route d =
      if contains "method" d
      then (if is_version_2 d
          then (do q ← lift (h.py.parse_request d); handle_request q)
          else raise (exn value_error "Invalid JSON-RPC version"))
      else if contains "result" d || contains "error" d
      then (if is_version_2 d
          then (do r ← lift (h.py.parse_response d); handle_response r)
          else raise (exn value_error "Invalid JSON-RPC version"))
      else raise (exn value_error "Unknown message format")

  -- `except (ValidationError, ValueError)`: the id is the raw one of the message, and the response
  -- model validates it.
  unfoldable pub on_invalid : Json → Exn → Exec S Unit
  unfolding send_error
  on_invalid raw_id e =
      if is_value_error e
      then (do id ← lift (h.py.coerce_id raw_id); send_error id invalid_request e.text Json.null)
      else (do
        id ← lift (h.py.coerce_id raw_id)
        send_error id parse_error ("Invalid request format: " ++ e.text) Json.null)

  unfoldable pub handle_message : Json → Exec S Unit
  unfolding route on_invalid
  handle_message (Json.obj fs) =
      let d = entries fs in
      try (route d) (λ e. if is_caught e.cls then on_invalid (id_of (lookup "id" d)) e else raise e)
  handle_message _ = on_invalid Json.null (exn value_error "Expected dict")
