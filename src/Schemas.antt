-- ===== src/Schemas.antt =====
-- fastapi_ws_rpc/schemas.py: the error codes, the message models and the check on request ids.
use Prim.Native.String.{count}
use fastapi_ws_rpc.Base.{ℕ, String, Bool, Option, none, some, ltb, nat_eq, if◌then◌else◌}
use fastapi_ws_rpc.Base.Int.{ℤ, pos, negsuc, ltb_ℤ}
use fastapi_ws_rpc.Values.{
  Json, Items, Fields, RpcId, str_id, int_id, Outcome, ok, raised, exn, value_error,
}
use fastapi_ws_rpc.Values.Decimal.{str_of_int}

abbrev pub max_request_id_length : ℕ
max_request_id_length = 256

pub data JsonRpcErrorCode : Type 0 where
  parse_error invalid_request method_not_found invalid_params internal_error : JsonRpcErrorCode

-- The numeric values; `negsuc n` is -(n + 1).
unfoldable pub code_value : JsonRpcErrorCode → ℤ
code_value parse_error = negsuc 32699
code_value invalid_request = negsuc 32599
code_value method_not_found = negsuc 32600
code_value invalid_params = negsuc 32601
code_value internal_error = negsuc 32602

-- `params` by name or by position.
pub data Params : Type 0 where
  named : Fields → Params
  positional : Items → Params

pub record JsonRpcRequest : Type 0 where
  pub jsonrpc : String
  pub id : Option RpcId
  pub method : String
  pub params : Option Params

-- `data` of the source; `null` is Python's `None`.
pub record JsonRpcError : Type 0 where
  pub code : ℤ
  pub message : String
  pub details : Json

-- In `result`, `null` is Python's `None`.
pub record JsonRpcResponse : Type 0 where
  pub jsonrpc : String
  pub id : Option RpcId
  pub result : Json
  pub error : Option JsonRpcError
  pub compressed : Option Bool

-- `JsonRpcRequest.validate_id`. `len` counts code points.
unfoldable pub validate_id : Option RpcId → Outcome (Option RpcId)
validate_id none = ok none
validate_id (some (str_id v)) =
    if nat_eq (count v) 0
    then raised (exn value_error "Request ID string cannot be empty")
    else if ltb max_request_id_length (count v)
    then raised (exn value_error "Request ID string cannot exceed 256 characters")
    else ok (some (str_id v))
validate_id (some (int_id v)) =
    if ltb_ℤ v (pos 0)
    then raised (exn value_error "Request ID integer must be non-negative")
    else ok (some (int_id v))

-- `str(request.id) if request.id is not None else ""`
unfoldable pub call_id_of : Option RpcId → String
call_id_of none = ""
call_id_of (some (str_id s)) = s
call_id_of (some (int_id n)) = str_of_int n
