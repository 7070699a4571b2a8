-- ===== src/ProtocolHandler/Messages.antt =====
-- How messages are routed, and what passes between two peers.
use fastapi_ws_rpc.Base.{
  String, ◌≡◌, refl, ap, ◌∙◌, true, false, Option, none, some, arith, ◌||◌, is_some,
}
use fastapi_ws_rpc.Base.Dict.{Dict, lookup, insert, contains, lookup-insert}
use fastapi_ws_rpc.Values.{Json, fields, entries-fields, RpcId, Exn, Outcome, ok, raised}
use fastapi_ws_rpc.Schemas.{JsonRpcErrorCode, invalid_request, JsonRpcRequest, JsonRpcResponse}
use fastapi_ws_rpc.Exec.{continue}
use fastapi_ws_rpc.Pydantic.{Laws, optional}
use fastapi_ws_rpc.ProtocolHandler.{
  Handler, send_error, with_null_id, error_response, result_response, handle_request,
  handle_response, is_version_2, route, on_invalid, is_caught, id_of, handle_message,
}

pub version_2 : (d : Dict Json) → lookup "jsonrpc" d ≡ some (Json.str "2.0") → is_version_2 d ≡ true
version_2 d e = rw (e, is_version_2)

module _ {S : Type 0} (h : Handler S) where
  -- How `route` goes on, by the keys of the message.
  pub route-request :
      (d : Dict Json)
      → contains "method" d ≡ true
      → is_version_2 d ≡ true
      → (s : S) → route h d s ≡ continue (handle_request h) (h.py.parse_request d, s)
  unfolding route
  route-request d asks version s = rw (asks, version)

  route-response :
      (d : Dict Json)
      → contains "method" d ≡ false
      → (contains "result" d || contains "error" d) ≡ true
      → is_version_2 d ≡ true
      → (s : S) → route h d s ≡ continue (handle_response h) (h.py.parse_response d, s)
  unfolding route
  route-response d plain answers version s = rw (plain, answers, version)

  -- What `handle_message` does with the outcome of `route`.
  pub handle_message-ok :
      (d : Dict Json) (s t : S)
      → route h d s ≡ (ok tt, t)
      → handle_message h (Json.obj (fields d)) s ≡ (ok tt, t)
  unfolding handle_message
  handle_message-ok d s t fine = rw (entries-fields d, fine)

  handle_message-caught :
      (d : Dict Json) (e : Exn) (s t : S)
      → is_caught e.cls ≡ true
      → route h d s ≡ (raised e, t)
      → handle_message h (Json.obj (fields d)) s ≡ on_invalid h (id_of (lookup "id" d)) e t
  unfolding handle_message
  handle_message-caught d e s t caught fails = rw (entries-fields d, fails, caught)

module _ {S : Type 0} (h : Handler S) (laws : Laws h.py) where
  -- A message of version 2.0 with a result or an error and no method, which parses as a response,
  -- is stored and nothing is sent.
  handle_message-stores :
      (d : Dict Json) (r : JsonRpcResponse) (s : S)
      → lookup "method" d ≡ none
      → (contains "result" d || contains "error" d) ≡ true
      → lookup "jsonrpc" d ≡ some (Json.str "2.0")
      → h.py.parse_response d ≡ ok r
      → handle_message h (Json.obj (fields d)) s ≡ (ok tt, h.store r s)
  unfolding handle_response
  handle_message-stores d r s plain answers version parsed = handle_message-ok h d s (h.store r s) (
      route-response h d (ap is_some plain) answers (version_2 d version) s
      ∙ ap (λ (o : Outcome JsonRpcResponse). continue (handle_response h) (o, s)) parsed)

  -- An error message that a peer dumps, with or without an id, is stored by the receiver and never
  -- answered.
  error_not_answered :
      (id : Option RpcId) (code : JsonRpcErrorCode) (message : String) (details : Json) (s : S)
      → let r = error_response id code message details in
        handle_message h (Json.obj (fields (with_null_id id (h.py.dump_response r)))) s
        ≡ (ok tt, h.store r s)
  unfolding with_null_id
  error_not_answered none code message details s =
      let r = error_response none code message details in
      let d = h.py.dump_response r in
      handle_message-stores (insert "id" Json.null d) r s
        (lookup-insert "id" "method" Json.null d ∙ laws.response_method r)
        (ground (
          arith,
          lookup-insert "id" "result" Json.null d,
          lookup-insert "id" "error" Json.null d,
          laws.response_has_error r,
        ))
        (lookup-insert "id" "jsonrpc" Json.null d ∙ laws.response_version r)
        (laws.parse_null_id r refl)
  error_not_answered (some id) code message details s =
      let r = error_response (some id) code message details in
      handle_message-stores (h.py.dump_response r) r s (laws.response_method r)
        (ground (arith, laws.response_has_error r)) (laws.response_version r)
        (laws.parse_dump_response r)

  -- The result of a method, if it is not `None`, reaches the peer that asked: the message that
  -- answers the request is stored there as a response with that id and that result.
  pub result_stored :
      (id : RpcId) (v : Json) (s : S)
      → is_some (optional v) ≡ true
      → let r = result_response id v in
        handle_message h (Json.obj (fields (h.py.dump_response r))) s ≡ (ok tt, h.store r s)
  result_stored id v s there =
      let r = result_response id v in
      handle_message-stores (h.py.dump_response r) r s (laws.response_method r)
        (ground (arith, laws.response_result r, there)) (laws.response_version r)
        (laws.parse_dump_response r)

  -- Every exception that `handle_message` catches is reported under INVALID_REQUEST, a failed
  -- validation too: the branch for PARSE_ERROR is never taken.
  on_invalid-invalid_request :
      (raw_id : Json) (e : Exn) (s : S)
      → is_caught e.cls ≡ true
      → on_invalid h raw_id e s
        ≡ continue
            (λ (id : Option RpcId). send_error h id invalid_request e.text Json.null)
            (h.py.coerce_id raw_id, s)
  unfolding on_invalid
  on_invalid-invalid_request raw_id e s caught = ground (arith, laws.subclass)

  -- A message with a method and the right version that does not validate is answered with
  -- INVALID_REQUEST under its own id, if that is valid, or a null one if it has none.
  invalid_request_reported :
      (d : Dict Json) (e : Exn) (id : Option RpcId) (s : S)
      → contains "method" d ≡ true
      → lookup "jsonrpc" d ≡ some (Json.str "2.0")
      → h.py.parse_request d ≡ raised e
      → h.py.coerce_id (id_of (lookup "id" d)) ≡ ok id
      → handle_message h (Json.obj (fields d)) s
        ≡ send_error h id invalid_request e.text Json.null s
  invalid_request_reported d e id s asks version fails coerced =
      let caught : is_caught e.cls ≡ true = ap is_caught (laws.request_error d e fails) in
      handle_message-caught h d e s s caught (
        route-request h d asks (version_2 d version) s
        ∙ ap (λ (o : Outcome JsonRpcRequest). continue (handle_request h) (o, s)) fails)
      ∙ on_invalid-invalid_request (id_of (lookup "id" d)) e s caught
      ∙ ap
          (λ (o : Outcome (Option RpcId)).
            continue (λ (i : Option RpcId). send_error h i invalid_request e.text Json.null) (o, s))
          coerced

  -- If a message with a method and the right version does not validate and its raw id is no valid
  -- id, nothing is sent and the error of the id leaves handle_message.
  malformed_id_raises :
      (d : Dict Json) (e e' : Exn) (raw_id : Json) (s : S)
      → contains "method" d ≡ true
      → lookup "jsonrpc" d ≡ some (Json.str "2.0")
      → h.py.parse_request d ≡ raised e
      → lookup "id" d ≡ some raw_id
      → h.py.coerce_id raw_id ≡ raised e'
      → handle_message h (Json.obj (fields d)) s ≡ (raised e', s)
  malformed_id_raises d e e' raw_id s asks version fails has refused =
      let caught : is_caught e.cls ≡ true = ap is_caught (laws.request_error d e fails) in
      handle_message-caught h d e s s caught (
        route-request h d asks (version_2 d version) s
        ∙ ap (λ (o : Outcome JsonRpcRequest). continue (handle_request h) (o, s)) fails)
      ∙ on_invalid-invalid_request (id_of (lookup "id" d)) e s caught
      ∙ ap
          (λ (o : Outcome (Option RpcId)).
            continue (λ (i : Option RpcId). send_error h i invalid_request e.text Json.null) (o, s))
          (ap (λ (o : Option Json). h.py.coerce_id (id_of o)) has ∙ refused)
