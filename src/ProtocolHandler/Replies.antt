-- ===== src/ProtocolHandler/Replies.antt =====
-- The replies to requests with an id.
use fastapi_ws_rpc.Base.{
  String, ◌≡◌, refl, ap, ◌∙◌, true, false, inl, inr, ◌⊎◌, Option, none, some, Bool-cases,
  Option-cases, is_some,
}
use fastapi_ws_rpc.Base.Dict.{Dict, lookup}
use fastapi_ws_rpc.Values.{Json, RpcId, Exn, Outcome, ok, raised, value_error, is_exception}
use fastapi_ws_rpc.Schemas.{JsonRpcErrorCode, internal_error, JsonRpcRequest}
use fastapi_ws_rpc.MethodInvoker.{
  Signature, Returned, no_response, value, validate_method, convert_params, convert_result,
}
use fastapi_ws_rpc.MethodInvoker.Validation.{
  is_method, is_method-signature, convert_params-value_error, validate_method_iff,
}
use fastapi_ws_rpc.Exec.{continue, handled}
use fastapi_ws_rpc.Pydantic.{Laws, id_json}
use fastapi_ws_rpc.ProtocolHandler.{
  Handler, send_error, reply_error, error_response, result_response, is_type_error, send_result,
  execute, on_failure, on_bad_params, run_request, refuse, handle_request,
}
use fastapi_ws_rpc.ProtocolHandler.Requests.{handle_request-valid}

-- The method returns a value, or raises what `except Exception` catches.
abbrev pub Answers : Outcome Returned → Type 0
Answers (ok no_response) = ⊥
Answers (ok (value v)) = Unit
Answers (raised e) = is_exception e.cls ≡ true

true_ne_false : {o : Option String} → o ≡ none → is_some o ≡ true → ⊥
true_ne_false e h = cc

-- The send callback never raises: it hands the message to the socket.
module _ {S : Type 0} (h : Handler S) (laws : Laws h.py) (push : Dict Json → S → S)
    (sends : (d : Dict Json) (s : S) → h.send d s ≡ (ok tt, push d s)) where
  -- The state is `s`, or the one after the call of the method.
  abbrev pub Reaches : String → S → S → Type 0
  Reaches name s t = (t ≡ s) ⊎ ((arguments : Dict Json) × (t ≡ (h.call name arguments s).1))

  -- The run from `s` sends one message, which answers the request `id`, and does nothing else but
  -- what the method did, if it was called at all.
  abbrev pub Replies : RpcId → String → S → Outcome (Unit {0}) × S → Type 0
  Replies id name s r =
      (d : Dict Json) × (t : S) × (r ≡ (ok tt, push d t))
      × (lookup "id" d ≡ some (id_json id))
      × (lookup "jsonrpc" d ≡ some (Json.str "2.0"))
      × Reaches name s t

  send_error-Replies :
      (id : RpcId) (code : JsonRpcErrorCode) (message : String) (details : Json) (name : String)
      (s t : S)
      → Reaches name s t
      → Replies id name s (send_error h (some id) code message details t)
  unfolding send_error
  send_error-Replies id code message details name s t here =
      let r = error_response (some id) code message details in
      (h.py.dump_response r, t, sends _ t, laws.response_id r, laws.response_version r, here)

  send_result-push :
      (q : JsonRpcRequest) (id : RpcId) (v : Json) (s : S)
      → q.id ≡ some id
      → send_result h q.id (value v) s ≡ (ok tt, push (h.py.dump_response (result_response id v)) s)
  unfolding send_result
  send_result-push q id v s asked =
      ap (λ (o : Option RpcId). send_result h o (value v) s) asked ∙ sends _ s

  on_failure-Replies :
      (q : JsonRpcRequest) (id : RpcId) (e : Exn) (s t : S)
      → q.id ≡ some id
      → is_exception e.cls ≡ true
      → Reaches q.method s t
      → Replies id q.method s (on_failure h q e t)
  unfolding on_failure reply_error
  on_failure-Replies q id e s t asked caught here = elim (Bool-cases (is_type_error e.cls)) [
    | inl b ↦ rw (b, on_failure, asked) (send_error-Replies id _ _ _ q.method s t here)
    | inr b ↦
        rw (b, on_failure, caught, asked)
          (send_error-Replies id internal_error _ _ q.method s t here)
  ]

  -- A result that was sent is not sent again: the handlers behind it see no exception.
  after_result :
      (q : JsonRpcRequest) (id : RpcId) (v : Json) (s t : S)
      → q.id ≡ some id
      → Reaches q.method s t
      → Replies id q.method s (handled (on_failure h q) (send_result h q.id (value v) t))
  after_result q id v s t asked here =
      let r = result_response id v in
      (
        h.py.dump_response r,
        t,
        ap (handled (on_failure h q)) (send_result-push q id v t asked),
        laws.response_id r,
        laws.response_version r,
        here,
      )

  finish-Replies :
      (q : JsonRpcRequest) (id : RpcId) (g : Signature) (s : S) (r : Outcome Returned × S)
      → q.id ≡ some id
      → Answers r.0
      → Reaches q.method s r.1
      → Replies id q.method s (
          handled
            (on_failure h q)
            (continue (λ (x : Returned). send_result h q.id (convert_result h.render g x)) r))
  unfolding convert_result
  finish-Replies q id g s (ok no_response, t) asked plain here = absurd plain
  finish-Replies q id g s (ok (value v), t) asked plain here = after_result q id _ s t asked here
  finish-Replies q id g s (raised e, t) asked plain here =
      on_failure-Replies q id e s t asked plain here

  run_request-Replies :
      (q : JsonRpcRequest) (id : RpcId) (r : Outcome (Dict Json)) (s : S)
      → q.id ≡ some id
      → is_method (h.methods q.method) ≡ true
      → ((e : Exn) → r ≡ raised e → e.cls ≡ value_error)
      → ((arguments : Dict Json) (t : S) → Answers (h.call q.method arguments t).0)
      → Replies id q.method s (run_request h q r s)
  unfolding run_request execute on_bad_params reply_error
  run_request-Replies q id (raised e) s asked there class plain =
      rw (class e refl, on_bad_params, asked) (send_error-Replies id _ _ _ q.method s s (inl refl))
  run_request-Replies q id (ok arguments) s asked there class plain =
      let (g, found) = is_method-signature (h.methods q.method) there in
      rw (found, execute)
        (finish-Replies q id g s (h.call q.method arguments s) asked (plain arguments s)
          (inr (arguments, refl)))

  -- An invalid method comes with a code and a message, which are sent.
  refused-Replies :
      (q : JsonRpcRequest) (id : RpcId) (s : S)
      → q.id ≡ some id
      → (validate_method h.methods q.method).0 ≡ false
      → Replies id q.method s (handle_request h q s)
  unfolding handle_request refuse reply_error
  refused-Replies q id s asked bad =
      let v = validate_method h.methods q.method in
      let (has_code, has_message) = (validate_method_iff h.methods q.method).2 bad in
      elim (Option-cases v.2) [
        | inl e ↦ absurd (true_ne_false e has_message)
        | inr (message, e) ↦
            rw (bad, handle_request, has_code, e, asked)
              (send_error-Replies id _ _ _ q.method s s (inl refl))
      ]

  -- If the method, on any arguments, returns a value or raises an Exception, and the send callback
  -- takes every message, a request with an id is answered by exactly one message, with that id and
  -- the protocol version, sent in the state before the request or in the one that a call of its
  -- method left, and the handler does not raise; the method may also be unknown or protected and
  -- the parameters unfit.
  pub handle_request-Replies :
      (q : JsonRpcRequest) (id : RpcId) (s : S)
      → q.id ≡ some id
      → ((arguments : Dict Json) (t : S) → Answers (h.call q.method arguments t).0)
      → Replies id q.method s (handle_request h q s)
  handle_request-Replies q id s asked plain =
      let valid = (validate_method_iff h.methods q.method).0 in
      elim (Bool-cases (validate_method h.methods q.method).0) [
        | inl good ↦
            let (public, there) = valid.0 good in
            rw (handle_request-valid h q public there) (
              run_request-Replies q id (convert_params h.methods q.params (some q.method)) s asked
                there (λ e. convert_params-value_error h.methods q.params q.method e there) plain)
        | inr bad ↦ refused-Replies q id s asked bad
      ]
