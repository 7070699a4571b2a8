-- ===== src/Pydantic/Strict.antt =====
-- A concrete validation of the message models: it takes a field as it stands or refuses it, and
-- converts nothing.
pub mod Lawful
use fastapi_ws_rpc.Base.{String, ◌≡◌, refl, Bool, true, Option, none, some, [], ◌∷◌, arith, is_some}
use fastapi_ws_rpc.Base.Int.{ℤ}
use fastapi_ws_rpc.Base.Dict.{Dict, lookup, insert}
use fastapi_ws_rpc.Values.{
  Json, fields, entries, RpcId, str_id, int_id, Exn, exn, Outcome, ok, raised, validation_error,
}
use fastapi_ws_rpc.Schemas.{
  JsonRpcRequest, JsonRpcResponse, JsonRpcError, Params, named, positional, validate_id,
}
use fastapi_ws_rpc.Pydantic.{Pydantic, id_json, optional, optional_id}

infixl 5 ◌>>=◌
abbrev pub ◌>>=◌ : {A B : Type 0} → Outcome A → (A → Outcome B) → Outcome B
ok a >>= f = f a
raised e >>= f = raised e

abbrev pub invalid : {A : Type 0} → Outcome A
invalid = raised (exn validation_error "validation error")

abbrev pub as_str : String → Option Json → Outcome String
as_str default none = ok default
as_str default (some (Json.str s)) = ok s
as_str default (some _) = invalid

abbrev pub required_str : Option Json → Outcome String
required_str none = invalid
required_str (some (Json.str s)) = ok s
required_str (some _) = invalid

abbrev pub as_id : Json → Outcome (Option RpcId)
as_id Json.null = ok none
as_id (Json.str s) = ok (some (str_id s))
as_id (Json.int n) = ok (some (int_id n))
as_id _ = invalid

abbrev pub field_id : Option Json → Outcome (Option RpcId)
field_id none = ok none
field_id (some j) = as_id j

abbrev pub as_params : Option Json → Outcome (Option Params)
as_params none = ok none
as_params (some Json.null) = ok none
as_params (some (Json.obj fs)) = ok (some (named fs))
as_params (some (Json.arr xs)) = ok (some (positional xs))
as_params (some _) = invalid

abbrev pub as_any : Option Json → Json
as_any none = Json.null
as_any (some j) = j

abbrev pub required_int : Option Json → Outcome ℤ
required_int none = invalid
required_int (some (Json.int n)) = ok n
required_int (some _) = invalid

unfoldable pub error_object : Dict Json → Outcome JsonRpcError
error_object d = do
  code ← required_int (lookup "code" d)
  message ← required_str (lookup "message" d)
  ok (record { code = code; message = message; details = as_any (lookup "data" d) })

unfoldable pub as_error : Option Json → Outcome (Option JsonRpcError)
unfolding error_object
as_error none = ok none
as_error (some Json.null) = ok none
as_error (some (Json.obj fs)) = do e ← error_object (entries fs); ok (some e)
as_error (some _) = invalid

abbrev pub as_bool : Option Json → Outcome (Option Bool)
as_bool none = ok none
as_bool (some Json.null) = ok none
as_bool (some (Json.bool b)) = ok (some b)
as_bool (some _) = invalid

-- A failed field validator is a failed validation.
abbrev pub checked : Outcome (Option RpcId) → Outcome (Option RpcId)
checked (ok id) = ok id
checked (raised e) = invalid

unfoldable pub parse_request : Dict Json → Outcome JsonRpcRequest
parse_request d = do
  version ← as_str "2.0" (lookup "jsonrpc" d)
  raw ← field_id (lookup "id" d)
  id ← checked (validate_id raw)
  name ← required_str (lookup "method" d)
  params ← as_params (lookup "params" d)
  ok (record { jsonrpc = version; id = id; method = name; params = params })

unfoldable pub parse_response : Dict Json → Outcome JsonRpcResponse
unfolding as_error
parse_response d = do
  version ← as_str "2.0" (lookup "jsonrpc" d)
  id ← field_id (lookup "id" d)
  error ← as_error (lookup "error" d)
  compressed ← as_bool (lookup "compressed" d)
  ok (record {
    jsonrpc = version;
    id = id;
    result = as_any (lookup "result" d);
    error = error;
    compressed = compressed;
  })

abbrev pub present : String → Option Json → Dict Json → Dict Json
present k none d = d
present k (some j) d = (k, j) ∷ d

abbrev pub params_json : Option Params → Option Json
params_json none = none
params_json (some (named fs)) = some (Json.obj fs)
params_json (some (positional xs)) = some (Json.arr xs)

abbrev pub error_json : Option JsonRpcError → Option Json
error_json none = none
error_json (some e) = some (
    Json.obj (
      fields (
        ("code", Json.int e.code)
        ∷ ("message", Json.str e.message)
        ∷ present "data" (optional e.details) [])))

abbrev pub bool_json : Option Bool → Option Json
bool_json none = none
bool_json (some b) = some (Json.bool b)

unfoldable pub dump_request : JsonRpcRequest → Dict Json
dump_request q =
    ("jsonrpc", Json.str q.jsonrpc)
    ∷ present "id" (optional_id q.id)
        (("method", Json.str q.method) ∷ present "params" (params_json q.params) [])

unfoldable pub dump_response : JsonRpcResponse → Dict Json
dump_response r =
    ("jsonrpc", Json.str r.jsonrpc)
    ∷ present "id" (optional_id r.id) (
        present "result" (optional r.result)
          (present "error" (error_json r.error) (present "compressed" (bool_json r.compressed) [])))

abbrev pub strict : Pydantic
strict = record {
  parse_request = parse_request;
  parse_response = parse_response;
  dump_request = dump_request;
  dump_response = dump_response;
  coerce_id = as_id;
  validation_is_value_error = true;
}
