-- ===== src/ProtocolHandler/Invoking.antt =====
-- The handler against `RpcMethodInvoker.invoke`: `handle_request` repeats its steps, so that it can
-- tell bad parameters from a failing method.
use fastapi_ws_rpc.Base.{String, ◌≡◌, refl, sym, ap, ◌∙◌, true, Option, some, arith, if◌then◌else◌}
use fastapi_ws_rpc.Base.Dict.{Dict}
use fastapi_ws_rpc.Values.{Json, Outcome, ok, raised, is_ok}
use fastapi_ws_rpc.Schemas.{JsonRpcRequest, Params}
use fastapi_ws_rpc.MethodInvoker.{
  Signature, method, Returned, convert_result, convert_params, validate_method, finish, call_with,
  invoke,
}
use fastapi_ws_rpc.MethodInvoker.Validation.{validate_method_iff, is_method-signature}
use fastapi_ws_rpc.Exec.{Exec, continue, handled}
use fastapi_ws_rpc.ProtocolHandler.Requests.{handle_request-valid}
use fastapi_ws_rpc.ProtocolHandler.{
  Handler, handle_request, run_request, execute, send_result, on_failure, on_bad_params,
}

module _ {S : Type 0} (h : Handler S) where
  continue-finish :
      {B : Type 0} (f : Returned → Exec S B) (g : Signature) (r : Outcome Returned × S)
      → continue f (finish h.methods h.render h.call g r)
        ≡ continue (λ x. f (convert_result h.render g x)) r
  unfolding finish
  continue-finish f g (ok x, s) = refl
  continue-finish f g (raised e, s) = refl

  -- `execute` is the second half of `invoke`, and the response.
  execute-call_with :
      (q : JsonRpcRequest) (g : Signature) (arguments : Dict Json) (s : S)
      → h.methods q.method ≡ some (method g)
      → execute h q arguments s
        ≡ continue
            (send_result h q.id)
            (call_with h.methods h.render h.call q.method g (ok arguments) s)
  unfolding execute call_with
  execute-call_with q g arguments s found =
      ground (arith, found)
      ∙ sym (continue-finish (send_result h q.id) g (h.call q.method arguments s))

  run_request-call_with :
      (q : JsonRpcRequest) (g : Signature) (converted : Outcome (Dict Json)) (s : S)
      → h.methods q.method ≡ some (method g)
      → run_request h q converted s
        ≡ handled
            (λ e. if is_ok converted then on_failure h q e else on_bad_params h q e)
            (continue
              (send_result h q.id)
              (call_with h.methods h.render h.call q.method g converted s))
  unfolding run_request call_with
  run_request-call_with q g (raised e) s found = refl
  run_request-call_with q g (ok arguments) s found =
      ap (handled (on_failure h q)) (execute-call_with q g arguments s found)

  invoke-call_with :
      (name : String) (g : Signature) (params : Option Params) (s : S)
      → h.methods name ≡ some (method g)
      → invoke h.methods h.render h.call name params s
        ≡ call_with h.methods h.render h.call name g (convert_params h.methods params (some name)) s
  unfolding invoke
  invoke-call_with name g params s found = ground (arith, found)

  -- For a method that is valid, the handler does what invoke of the method invoker does and sends
  -- the result; an exception goes to the handler of bad parameters if their conversion raised it,
  -- and otherwise to that of failures.
  pub handle_request-invoke :
      (q : JsonRpcRequest) (s : S)
      → (validate_method h.methods q.method).0 ≡ true
      → let converted = convert_params h.methods q.params (some q.method) in
        handle_request h q s
        ≡ handled
            (λ e. if is_ok converted then on_failure h q e else on_bad_params h q e)
            (continue (send_result h q.id) (invoke h.methods h.render h.call q.method q.params s))
  handle_request-invoke q s valid =
      let converted = convert_params h.methods q.params (some q.method) in
      let (public, there) = (validate_method_iff h.methods q.method).0.0 valid in
      let (g, found) = is_method-signature (h.methods q.method) there in
      ap (λ (k : Exec S Unit). k s) (handle_request-valid h q public there)
      ∙ run_request-call_with q g converted s found
      ∙ ap
          (λ (r : Outcome Returned × S).
            handled (λ e. if is_ok converted then on_failure h q e else on_bad_params h q e)
              (continue (send_result h q.id) r))
          (sym (invoke-call_with q.method g q.params s found))
