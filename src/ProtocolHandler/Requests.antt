-- ===== src/ProtocolHandler/Requests.antt =====
-- How requests are answered.
use Prim.Native.String.{◌++◌}
use fastapi_ws_rpc.Base.{
  String, ◌≡◌, refl, ap, ◌∙◌, true, false, inl, inr, Option, none, some, Bool-cases,
}
use fastapi_ws_rpc.Base.Dict.{Dict}
use fastapi_ws_rpc.Values.{Json, RpcId, Exn, Outcome, ok, raised, is_exception}
use fastapi_ws_rpc.Schemas.{JsonRpcErrorCode, invalid_params, internal_error, JsonRpcRequest}
use fastapi_ws_rpc.MethodInvoker.{
  Signature, method, Returned, no_response, value, validate_method, convert_params, convert_result,
  is_protected,
}
use fastapi_ws_rpc.MethodInvoker.Validation.{is_method, is_method-signature, attribute_cases}
use fastapi_ws_rpc.Exec.{Exec, continue-ext, handled-ext}
use fastapi_ws_rpc.ProtocolHandler.{
  Handler, send_error, reply_error, is_type_error, error_data, send_result, execute, disclosed,
  on_failure, on_bad_params, run_request, refuse, handle_request,
}

-- The same handler with another send callback.
abbrev pub with_send : {S : Type 0} → Handler S → (Dict Json → Exec S Unit) → Handler S
with_send h send = record h { send = send }

module _ {S : Type 0} (h : Handler S) where
  -- A request for a method that passes validation goes on to its parameters.
  pub handle_request-valid :
      (q : JsonRpcRequest)
      → is_protected q.method ≡ false
      → is_method (h.methods q.method) ≡ true
      → handle_request h q ≡ run_request h q (convert_params h.methods q.params (some q.method))
  unfolding handle_request
  handle_request-valid q public there =
      let (g, found) = is_method-signature (h.methods q.method) there in
      rw (public, found, validate_method, handle_request)

  execute-raised :
      (q : JsonRpcRequest) (arguments : Dict Json) (e : Exn) (s s' : S)
      → is_method (h.methods q.method) ≡ true
      → h.call q.method arguments s ≡ (raised e, s')
      → execute h q arguments s ≡ (raised e, s')
  unfolding execute
  execute-raised q arguments e s s' there fails =
      let (g, found) = is_method-signature (h.methods q.method) there in rw (found, execute, fails)

  pub execute-ok :
      (q : JsonRpcRequest) (arguments : Dict Json) (g : Signature) (r : Returned) (s s' : S)
      → h.methods q.method ≡ some (method g)
      → h.call q.method arguments s ≡ (ok r, s')
      → execute h q arguments s ≡ send_result h q.id (convert_result h.render g r) s'
  unfolding execute
  execute-ok q arguments g r s s' found returns = rw (found, execute, returns)

  run_request-raised :
      (q : JsonRpcRequest) (arguments : Dict Json) (e : Exn) (s s' : S)
      → execute h q arguments s ≡ (raised e, s')
      → run_request h q (ok arguments) s ≡ on_failure h q e s'
  unfolding run_request
  run_request-raised q arguments e s s' fails = rw fails

  on_failure-sanitised :
      (q : JsonRpcRequest) (id : RpcId) (e : Exn) (s : S)
      → h.debug_mode ≡ false
      → q.id ≡ some id
      → is_type_error e.cls ≡ false
      → is_exception e.cls ≡ true
      → on_failure h q e s
        ≡ send_error h (some id) internal_error "Internal server error" Json.null s
  unfolding on_failure disclosed reply_error
  on_failure-sanitised q id e s prod asked other caught =
      rw (other, on_failure, caught, asked, prod)

  -- In production mode an Exception of a public method whose parameters convert, other than
  -- TypeError, is answered, for a request with an id, by a fixed error with no data.
  pub handle_request_sanitised :
      (q : JsonRpcRequest) (id : RpcId) (arguments : Dict Json) (e : Exn) (s s' : S)
      → h.debug_mode ≡ false
      → q.id ≡ some id
      → is_protected q.method ≡ false
      → is_method (h.methods q.method) ≡ true
      → convert_params h.methods q.params (some q.method) ≡ ok arguments
      → h.call q.method arguments s ≡ (raised e, s')
      → is_type_error e.cls ≡ false
      → is_exception e.cls ≡ true
      → handle_request h q s
        ≡ send_error h (some id) internal_error "Internal server error" Json.null s'
  handle_request_sanitised q id arguments e s s' prod asked public there args fails other caught =
      rw (handle_request-valid q public there, args)
        (run_request-raised q arguments e s s' (execute-raised q arguments e s s' there fails)
          ∙ on_failure-sanitised q id e s' prod asked other caught)

  -- A TypeError of a public method whose parameters convert is answered, for a request with an id,
  -- with INVALID_PARAMS and its text, in every mode.
  handle_request_type_error :
      (q : JsonRpcRequest) (id : RpcId) (arguments : Dict Json) (e : Exn) (s s' : S)
      → q.id ≡ some id
      → is_protected q.method ≡ false
      → is_method (h.methods q.method) ≡ true
      → convert_params h.methods q.params (some q.method) ≡ ok arguments
      → h.call q.method arguments s ≡ (raised e, s')
      → is_type_error e.cls ≡ true
      → handle_request h q s
        ≡ send_error h
            (some id)
            invalid_params
            ("Invalid parameters: " ++ e.text)
            (error_data "TypeError" q.method)
            s'
  unfolding on_failure reply_error
  handle_request_type_error q id arguments e s s' asked public there args fails bad =
      rw (handle_request-valid q public there, args)
        (run_request-raised q arguments e s s' (execute-raised q arguments e s s' there fails)
          ∙ rw (bad, on_failure, asked))

  -- Without an id neither the result nor an error is sent.
  send_result-notification :
      (send : Dict Json → Exec S Unit) (r : Returned)
      → send_result (with_send h send) none r ≡ send_result h none r
  unfolding send_result
  send_result-notification send no_response = refl
  send_result-notification send (value v) = refl

  execute-notification :
      (send : Dict Json → Exec S Unit) (q : JsonRpcRequest) (arguments : Dict Json) (s : S)
      → q.id ≡ none
      → execute (with_send h send) q arguments s ≡ execute h q arguments s
  unfolding execute
  execute-notification send q arguments s quiet = elim (attribute_cases (h.methods q.method)) [
    | inl e ↦ rw (e, execute)
    | inr (inl e) ↦ rw (e, execute)
    | inr (inr (g, e)) ↦
        rw (e, execute, quiet)
          (continue-ext _ _ (h.call q.method arguments s) (λ r t.
            ap (λ (m : Exec S Unit). m t)
              (send_result-notification send (convert_result h.render g r))))
  ]

  on_failure-notification :
      (send : Dict Json → Exec S Unit) (q : JsonRpcRequest) (e : Exn) (s : S)
      → q.id ≡ none
      → on_failure (with_send h send) q e s ≡ on_failure h q e s
  unfolding on_failure disclosed reply_error
  on_failure-notification send q e s quiet = rw (quiet, on_failure)

  run_request-notification :
      (send : Dict Json → Exec S Unit) (q : JsonRpcRequest) (r : Outcome (Dict Json)) (s : S)
      → q.id ≡ none
      → run_request (with_send h send) q r s ≡ run_request h q r s
  unfolding run_request on_bad_params reply_error
  run_request-notification send q (raised e) s quiet = rw (quiet, on_bad_params)
  run_request-notification send q (ok arguments) s quiet =
      rw (execute-notification send q arguments s quiet) (
        handled-ext (on_failure (with_send h send) q) (on_failure h q) (execute h q arguments s)
          (λ e t. on_failure-notification send q e t quiet))

  refuse-notification :
      (send : Dict Json → Exec S Unit) (code : Option JsonRpcErrorCode) (message : Option String)
      → refuse (with_send h send) none code message ≡ refuse h none code message
  unfolding refuse reply_error
  refuse-notification send none message = refl
  refuse-notification send (some code) none = refl
  refuse-notification send (some code) (some message) = refl

  -- Handling a request without an id does not depend on the send callback: a notification is never
  -- answered.
  pub handle_request_notification :
      (send : Dict Json → Exec S Unit) (q : JsonRpcRequest) (s : S)
      → q.id ≡ none
      → handle_request (with_send h send) q s ≡ handle_request h q s
  unfolding handle_request
  handle_request_notification send q s quiet =
      let (is_valid, code, message) = validate_method h.methods q.method in
      elim (Bool-cases is_valid) [
        | inl e ↦ rw (e, handle_request) (run_request-notification send q _ s quiet)
        | inr e ↦
            rw (e, handle_request, quiet)
              (ap (λ (m : Exec S Unit). m s) (refuse-notification send code message))
      ]
