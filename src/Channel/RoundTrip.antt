-- ===== src/Channel/RoundTrip.antt =====
-- A call from one channel to another and back.
use fastapi_ws_rpc.Base.{
  ℕ, String, ◌≡◌, refl, ap, sym, ◌∙◌, Bool, true, false, Option, none, some, List, [], ◌∷◌, ◌++◌,
  is_some,
}
use fastapi_ws_rpc.Base.Dict.{Dict, lookup}
use fastapi_ws_rpc.Values.{Json, Fields, fields, RpcId, str_id, ExnClass, Exn, Outcome, ok}
use fastapi_ws_rpc.Schemas.{JsonRpcRequest, validate_id, call_id_of}
use fastapi_ws_rpc.Exec.{continue, handled}
use fastapi_ws_rpc.Pydantic.{Pydantic, Laws, optional}
use fastapi_ws_rpc.MethodInvoker.{
  Methods, Call, Signature, method, Returned, value, convert_params, convert_result, is_protected,
}
use fastapi_ws_rpc.MethodInvoker.Validation.{is_method}
use fastapi_ws_rpc.ProtocolHandler.{
  Handler, handle_message, handle_request, send_result, run_request, on_failure, result_response,
}
use fastapi_ws_rpc.ProtocolHandler.Requests.{handle_request-valid, execute-ok}
use fastapi_ws_rpc.ProtocolHandler.Messages.{
  handle_message-ok, route-request, version_2, result_stored,
}
use fastapi_ws_rpc.PromiseManager.{PromiseManager, RpcPromise, create_promise, call_id}
use fastapi_ws_rpc.PromiseManager.Invariant.{IsValid}
use fastapi_ws_rpc.PromiseManager.Delivery.{store-resume}
use fastapi_ws_rpc.Channel.{Channel, new_request, async_call, call_id_or, finish_call, handler}
use fastapi_ws_rpc.Channel.Calling.{
  HasRoom, new_request-id, call_id-new_request, send_raw-ok, async_call-sends,
}

module _ {S : Type 0} (h : Handler S) (laws : Laws h.py) where
  -- A valid request that another peer dumped is handled as that request.
  handle_message-dump_request :
      (q : JsonRpcRequest) (s t : S)
      → validate_id q.id ≡ ok q.id
      → q.jsonrpc ≡ "2.0"
      → handle_request h q s ≡ (ok tt, t)
      → handle_message h (Json.obj (fields (h.py.dump_request q))) s ≡ (ok tt, t)
  handle_message-dump_request q s t valid version fine =
      let d = h.py.dump_request q in
      handle_message-ok h d s t (
        route-request h d (ap is_some (laws.request_method q))
          (version_2 d (laws.request_version q ∙ ap (λ v. some (Json.str v)) version)) s
        ∙ ap (λ (o : Outcome JsonRpcRequest). continue (handle_request h) (o, s))
            (laws.parse_dump_request q valid)
        ∙ fine)

  -- A request for a method that returns is answered by what `send_result` sends.
  handle_request-returns :
      (q : JsonRpcRequest) (id : RpcId) (g : Signature) (arguments : Dict Json) (r : Returned)
      (w : Json) (s s' t : S)
      → q.id ≡ some id
      → is_protected q.method ≡ false
      → h.methods q.method ≡ some (method g)
      → convert_params h.methods q.params (some q.method) ≡ ok arguments
      → h.call q.method arguments s ≡ (ok r, s')
      → convert_result h.render g r ≡ value w
      → h.send (h.py.dump_response (result_response id w)) s' ≡ (ok tt, t)
      → handle_request h q s ≡ (ok tt, t)
  unfolding run_request send_result
  handle_request-returns q id g arguments r w s s' t asked public found args returns result sends =
      ap (λ f. f s) (handle_request-valid h q public (ap is_method found))
      ∙ ap (λ o. run_request h q o s) args
      ∙ ap (handled (on_failure h q)) (
          execute-ok h q arguments g r s s' found returns
          ∙ ap (λ i. send_result h i (convert_result h.render g r) s') asked
          ∙ ap (λ x. send_result h (some id) x s') result
          ∙ sends)

-- The two channels use the same pydantic; their methods, sockets and modes may differ.
module _ (py : Pydantic) (laws : Laws py)
    (to_server to_client : List (Dict Json) → Dict Json → Option Exn)
    (server_methods client_methods : Methods) (server_call client_call : Call Channel)
    (render : Json → String) (type_name : ExnClass → String) (debug : Bool) where
  abbrev pub server : Handler Channel
  server = handler py to_client server_methods server_call render type_name debug

  abbrev pub client : Handler Channel
  client = handler py to_server client_methods client_call render type_name debug

  -- The client takes the reply to a pending call, and the caller returns it.
  reply_received :
      (c : Channel) (p : RpcPromise) (id : RpcId) (w : Json)
      → IsValid c.promises
      → is_some (optional w) ≡ true
      → lookup (call_id_of (some id)) c.promises.requests ≡ some p
      → let r = result_response id w in
        (finish_call py to_server p
          (handle_message client (Json.obj (fields (py.dump_response r))) c).1).0
        ≡ ok r
  unfolding finish_call handler
  reply_received c p id w v there pending =
      let r = result_response id w in
      ap (λ (x : Outcome (Unit {0}) × Channel). (finish_call py to_server p x.1).0)
        (result_stored client laws id w c there)
      ∙ (store-resume c.promises p r id v refl pending).2

  -- A call reaches the method on the other side and its result reaches the caller: the client
  -- sends one message, the server on that message calls the public method and sends one reply, and
  -- the client, in any later valid state where the call is pending, takes the reply and the caller
  -- returns the result, if that is not None and both sides have room to send.
  pub rpc_round_trip :
      (loop_running : Bool) (now : ℕ) (uid name : String) (args : Fields) (chosen : Option String)
      (q : JsonRpcRequest) (p : RpcPromise) (m : PromiseManager) (c later s s' : Channel)
      (g : Signature) (arguments : Dict Json) (r : Returned) (w : Json)
      → new_request (some (str_id (call_id_or chosen uid))) name args ≡ ok q
      → create_promise loop_running now q c.promises ≡ (ok p, m)
      → HasRoom (record c { promises = m })
      → to_server c.sent (py.dump_request q) ≡ none
      → is_protected name ≡ false
      → server_methods name ≡ some (method g)
      → convert_params server_methods q.params (some name) ≡ ok arguments
      → server_call name arguments s ≡ (ok r, s')
      → convert_result render g r ≡ value w
      → is_some (optional w) ≡ true
      → HasRoom s'
      → to_client s'.sent (py.dump_response (result_response (str_id (call_id_or chosen uid)) w))
        ≡ none
      → IsValid later.promises
      → lookup (call_id p) later.promises.requests ≡ some p
      → let ask = py.dump_request q in
        let response = result_response (str_id (call_id_or chosen uid)) w in
        let answer = py.dump_response response in
        (async_call py to_server loop_running now uid name args chosen c
          ≡ (ok p, record c { promises = m; sent = c.sent ++ (ask ∷ []) }))
        × (handle_message server (Json.obj (fields ask)) s
            ≡ (ok tt, record s' { sent = s'.sent ++ (answer ∷ []) }))
        × ((finish_call py to_server p (handle_message client (Json.obj (fields answer)) later).1).0
            ≡ ok response)
  unfolding handler
  rpc_round_trip loop_running now uid name args chosen q p m c later s s' g arguments r w asked made
        room sends public found converts returns result there room' sends' v pending =
      let id = str_id (call_id_or chosen uid) in
      let (has_id, valid, named, version) = new_request-id (some id) name args q asked in
      let key = call_id-new_request id name args loop_running now q p c.promises m asked made in
      (
        async_call-sends py to_server loop_running now uid name args chosen q p m c asked made room
            sends,
        handle_message-dump_request server laws q s _ valid version (
            handle_request-returns server laws q id g arguments r w s s' _ has_id
              (ap is_protected named ∙ public) (ap server_methods named ∙ found)
              (ap (λ x. convert_params server_methods q.params (some x)) named ∙ converts)
              (ap (λ x. server_call x arguments s) named ∙ returns) result
              (send_raw-ok py to_client _ s' room' sends')),
        reply_received later p id w v there
            (ap (λ k. lookup k later.promises.requests) (sym key) ∙ pending),
      )
