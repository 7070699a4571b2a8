-- ===== src/Pydantic.antt =====
-- What the library uses of pydantic, which is not part of the repository: validation of the message
-- models of fastapi_ws_rpc/schemas.py (`pydantic_parse` of fastapi_ws_rpc/utils.py calls it) and
-- `model_dump(exclude_none=True)`. The laws are pydantic's documented behaviour on these models.
pub mod Strict
use fastapi_ws_rpc.Base.{String, ◌≡◌, Bool, true, false, Option, none, some, is_some}
use fastapi_ws_rpc.Base.Dict.{Dict, lookup, insert}
use fastapi_ws_rpc.Values.{
  Json, Fields, Items, RpcId, str_id, int_id, Exn, Outcome, ok, raised, ExnClass, validation_error,
}
use fastapi_ws_rpc.Schemas.{JsonRpcRequest, JsonRpcResponse, validate_id}

pub record Pydantic : Type 0 where
  pub parse_request : Dict Json → Outcome JsonRpcRequest
  pub parse_response : Dict Json → Outcome JsonRpcResponse
  pub dump_request : JsonRpcRequest → Dict Json
  pub dump_response : JsonRpcResponse → Dict Json
  -- The conversion of a raw value to the field `id`.
  pub coerce_id : Json → Outcome (Option RpcId)
  -- `issubclass(ValidationError, ValueError)`
  pub validation_is_value_error : Bool

-- An id as JSON.
abbrev pub id_json : RpcId → Json
id_json (str_id s) = Json.str s
id_json (int_id n) = Json.int n

abbrev pub is_null : Json → Bool
is_null Json.null = true
is_null _ = false

abbrev pub optional : Json → Option Json
optional Json.null = none
optional j = some j

abbrev pub optional_id : Option RpcId → Option Json
optional_id none = none
optional_id (some id) = some (id_json id)

pub record Laws (py : Pydantic) : Type 0 where
  pub subclass : py.validation_is_value_error ≡ true
  pub request_error :
      (d : Dict Json) (e : Exn) → py.parse_request d ≡ raised e → e.cls ≡ validation_error
  pub response_error :
      (d : Dict Json) (e : Exn) → py.parse_response d ≡ raised e → e.cls ≡ validation_error
  -- The field validator has run on a parsed request.
  pub request_valid :
      (d : Dict Json) (q : JsonRpcRequest) → py.parse_request d ≡ ok q → validate_id q.id ≡ ok q.id
  pub id_known : (id : RpcId) → py.coerce_id (id_json id) ≡ ok (some id)
  -- A dump has the fields that are not `None`, under their names, and no others.
  pub response_version :
      (r : JsonRpcResponse) → lookup "jsonrpc" (py.dump_response r) ≡ some (Json.str r.jsonrpc)
  pub response_id : (r : JsonRpcResponse) → lookup "id" (py.dump_response r) ≡ optional_id r.id
  pub response_result :
      (r : JsonRpcResponse) → lookup "result" (py.dump_response r) ≡ optional r.result
  pub response_has_error :
      (r : JsonRpcResponse) → is_some (lookup "error" (py.dump_response r)) ≡ is_some r.error
  pub response_method : (r : JsonRpcResponse) → lookup "method" (py.dump_response r) ≡ none
  pub request_version :
      (q : JsonRpcRequest) → lookup "jsonrpc" (py.dump_request q) ≡ some (Json.str q.jsonrpc)
  pub request_method :
      (q : JsonRpcRequest) → lookup "method" (py.dump_request q) ≡ some (Json.str q.method)
  pub request_id : (q : JsonRpcRequest) → lookup "id" (py.dump_request q) ≡ optional_id q.id
  -- Validation of a dump gives the model back, also where a null id is written out.
  pub parse_dump_response : (r : JsonRpcResponse) → py.parse_response (py.dump_response r) ≡ ok r
  pub parse_null_id :
      (r : JsonRpcResponse)
      → r.id ≡ none
      → py.parse_response (insert "id" Json.null (py.dump_response r)) ≡ ok r
  pub parse_dump_request :
      (q : JsonRpcRequest)
      → validate_id q.id ≡ ok q.id
      → py.parse_request (py.dump_request q) ≡ ok q
