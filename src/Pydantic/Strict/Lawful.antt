-- ===== src/Pydantic/Strict/Lawful.antt =====
-- The laws, for the concrete validation.
use fastapi_ws_rpc.Base.{◌≡◌, refl, Option, none, some, arith, is_some}
use fastapi_ws_rpc.Base.Dict.{Dict, lookup, insert}
use fastapi_ws_rpc.Values.{Json, RpcId, str_id, int_id, Exn, Outcome, ok, raised, validation_error}
use fastapi_ws_rpc.Schemas.{JsonRpcRequest, JsonRpcResponse, validate_id}
use fastapi_ws_rpc.Pydantic.{Laws, id_json, optional, optional_id}
use fastapi_ws_rpc.Pydantic.Strict.{
  ◌>>=◌, as_str, required_str, as_id, field_id, as_params, error_object, as_error, checked,
  parse_request, parse_response, dump_request, dump_response, strict,
}

bind_ok :
    {A B : Type 0} (m : Outcome A) (f : A → Outcome B) {b : B}
    → (m >>= f) ≡ ok b
    → (a : A) × (m ≡ ok a) × (f a ≡ ok b)
bind_ok (ok a) f h = (a, refl, h)
bind_ok (raised e) f h = cc

checked_valid : (raw id : Option RpcId) → checked (validate_id raw) ≡ ok id → validate_id id ≡ ok id
unfolding validate_id
checked_valid none id h = ground arith
checked_valid (some (str_id s)) id h = ground arith
checked_valid (some (int_id n)) id h = ground arith

request_valid :
    (d : Dict Json) (q : JsonRpcRequest) → parse_request d ≡ ok q → validate_id q.id ≡ ok q.id
unfolding parse_request
request_valid d q h =
    let (version, _, h₁) = bind_ok (as_str "2.0" (lookup "jsonrpc" d)) _ h in
    let (raw, _, h₂) = bind_ok (field_id (lookup "id" d)) _ h₁ in
    let (id, valid, h₃) = bind_ok (checked (validate_id raw)) _ h₂ in
    let (name, _, h₄) = bind_ok (required_str (lookup "method" d)) _ h₃ in
    let (params, _, h₅) = bind_ok (as_params (lookup "params" d)) _ h₄ in
    ground (arith, checked_valid raw id valid)

response_version :
    (r : JsonRpcResponse) → lookup "jsonrpc" (dump_response r) ≡ some (Json.str r.jsonrpc)
unfolding dump_response lookup
response_version r = refl

response_id : (r : JsonRpcResponse) → lookup "id" (dump_response r) ≡ optional_id r.id
unfolding dump_response lookup
response_id r = ground arith

response_result : (r : JsonRpcResponse) → lookup "result" (dump_response r) ≡ optional r.result
unfolding dump_response lookup
response_result r = ground arith

response_has_error :
    (r : JsonRpcResponse) → is_some (lookup "error" (dump_response r)) ≡ is_some r.error
unfolding dump_response lookup
response_has_error r = ground arith

response_method : (r : JsonRpcResponse) → lookup "method" (dump_response r) ≡ none
unfolding dump_response lookup
response_method r = ground arith

parse_dump_response : (r : JsonRpcResponse) → parse_response (dump_response r) ≡ ok r
unfolding parse_response dump_response lookup error_object
parse_dump_response r = ground arith

parse_null_id :
    (r : JsonRpcResponse)
    → r.id ≡ none
    → parse_response (insert "id" Json.null (dump_response r)) ≡ ok r
unfolding parse_response dump_response lookup insert error_object
parse_null_id r h = ground arith

request_laws :
    (q : JsonRpcRequest)
    → (lookup "jsonrpc" (dump_request q) ≡ some (Json.str q.jsonrpc))
      × (lookup "method" (dump_request q) ≡ some (Json.str q.method))
      × (lookup "id" (dump_request q) ≡ optional_id q.id)
unfolding dump_request lookup
request_laws q = (refl, ground arith, ground arith)

parse_dump_request :
    (q : JsonRpcRequest) → validate_id q.id ≡ ok q.id → parse_request (dump_request q) ≡ ok q
unfolding parse_request dump_request lookup
parse_dump_request q h = ground arith

request_error : (d : Dict Json) (e : Exn) → parse_request d ≡ raised e → e.cls ≡ validation_error
unfolding parse_request
request_error d e h = ground arith

response_error : (d : Dict Json) (e : Exn) → parse_response d ≡ raised e → e.cls ≡ validation_error
unfolding parse_response as_error error_object
response_error d e h = ground arith

id_known : (id : RpcId) → as_id (id_json id) ≡ ok (some id)
id_known (str_id s) = refl
id_known (int_id n) = refl

pub strict-laws : Laws strict
strict-laws = record {
  subclass = refl;
  request_error = request_error;
  response_error = response_error;
  request_valid = request_valid;
  id_known = id_known;
  response_version = response_version;
  response_id = response_id;
  response_result = response_result;
  response_has_error = response_has_error;
  response_method = response_method;
  request_version = λ q. (request_laws q).0;
  request_method = λ q. (request_laws q).1;
  request_id = λ q. (request_laws q).2;
  parse_dump_response = parse_dump_response;
  parse_null_id = parse_null_id;
  parse_dump_request = parse_dump_request;
}
