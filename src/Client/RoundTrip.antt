-- ===== src/Client/RoundTrip.antt =====
-- A call of a client to an endpoint and back, through the JSON sockets of both: the client's `call`,
-- the round of `main_loop` that receives the request, and the round of the client's reader that
-- receives the reply.
use fastapi_ws_rpc.Base.{
  ℕ, String, ◌≤◌, ◌≡◌, ap, sym, ◌∙◌, Bool, true, false, Option, none, some, List, [], ◌∷◌, ◌++◌,
  is_some, arith,
}
use fastapi_ws_rpc.Base.Dict.{Dict, lookup}
use fastapi_ws_rpc.Values.{Json, Fields, fields, str_id, ExnClass, Exn, Outcome, ok, raised}
use fastapi_ws_rpc.Schemas.{JsonRpcRequest}
use fastapi_ws_rpc.Pydantic.{Pydantic, Laws, optional}
use fastapi_ws_rpc.MethodInvoker.{
  Methods, Call, Signature, method, Returned, value, convert_params, convert_result, is_protected,
}
use fastapi_ws_rpc.ProtocolHandler.{Handler, handle_message, result_response}
use fastapi_ws_rpc.PromiseManager.{
  PromiseManager, RpcPromise, create_promise, call_id, store_response,
}
use fastapi_ws_rpc.PromiseManager.Invariant.{IsValid}
use fastapi_ws_rpc.Channel.{Channel, new_request, async_call, finish_call, handler, on_message}
use fastapi_ws_rpc.Channel.Calling.{HasRoom, call_id-new_request}
use fastapi_ws_rpc.Channel.Callable.{or_empty}
use fastapi_ws_rpc.Channel.RoundTrip.{rpc_round_trip}
use fastapi_ws_rpc.SimpleWebSocket.{
  Codec, Raw, text, dict, serialize, recv, message_size, deserialize,
}
use fastapi_ws_rpc.Endpoint
use fastapi_ws_rpc.Endpoint.{Connection, Round, waits, is_idle, serve, after_recv, continue_loop}
use fastapi_ws_rpc.Client.{reading, Client, Env, validate_connected}
use fastapi_ws_rpc.Client.Calling.{begin_call, with_channel}
use fastapi_ws_rpc.Client.Reading.{Close, Received, message, refused, reader_round}
use fastapi_ws_rpc.Client.Delivery.{reader_round_delivers}

-- How the end of `recv` reaches a round of `main_loop`, and one of the client's reader.
abbrev pub to_round : Outcome Json → Endpoint.Received
to_round (ok j) = Endpoint.received j
to_round (raised e) = Endpoint.failed e

abbrev pub to_reader : Outcome Json → Received
to_reader (ok j) = message j
to_reader (raised e) = refused e

-- The frame that a JSON socket sends for a message of a channel.
abbrev pub frame : Codec → Dict Json → Raw
frame codec d = text (serialize codec (dict (fields d)))

-- The decoder reads the message back, and it is not too large.
pub record Passes (codec : Codec) (limit : ℕ) (d : Dict Json) : Type 0 where
  pub back : codec.loads (codec.dumps (fields d)) ≡ ok (Json.obj (fields d))
  pub size : codec.utf8_length (codec.dumps (fields d)) ≤ limit

recv-frame :
    (codec : Codec) (other : Outcome Json) (limit : ℕ) (d : Dict Json)
    → Passes codec limit d
    → recv codec other limit (frame codec d) ≡ ok (Json.obj (fields d))
unfolding recv message_size deserialize serialize
recv-frame codec other limit d h = ground (arith, h.back, h.size)

-- A round that receives a message which the handler takes leaves the loop waiting.
serve-handled :
    (h : Handler Channel) (os_timeout : Bool) (idle_timeout : Option ℕ) (before after last : ℕ)
    (j : Json) (conn : Connection) (t : Channel)
    → is_idle idle_timeout last before ≡ false
    → handle_message h j conn.channel ≡ (ok tt, t)
    → serve h os_timeout idle_timeout
        (record { before = before; result = Endpoint.received j; after = after } ∷ [])
        last
        conn
      ≡ (waits, record conn { channel = t })
unfolding serve after_recv continue_loop on_message
serve-handled h os_timeout idle_timeout before after last j conn t awake fine =
    ground (arith, awake, fine)

begin_call-eq :
    (env : Env) (py : Pydantic) (transmit : List (Dict Json) → Dict Json → Option Exn) (now : ℕ)
    (uid name : String) (args : Option Fields) (c : Client) (ch : Channel)
    → validate_connected env c ≡ ok tt
    → c.channel ≡ some ch
    → begin_call env py transmit now uid name args c
      ≡ with_channel c (async_call py transmit true now uid name (or_empty args) none ch)
unfolding begin_call
begin_call-eq env py transmit now uid name args c ch connected has_channel =
    ground (arith, connected, has_channel)

-- Client and endpoint use the same pydantic and JSON; their methods, sockets and limits may differ.
module _ (py : Pydantic) (laws : Laws py)
    (to_server to_client : List (Dict Json) → Dict Json → Option Exn)
    (server_methods client_methods : Methods) (server_call client_call : Call Channel)
    (render : Json → String) (type_name : ExnClass → String) (debug : Bool) (codec : Codec)
    (not_text : Outcome Json) (server_limit client_limit : ℕ) (env : Env) (os_timeout : Bool)
    (idle_timeout : Option ℕ) (rcvd : Exn → Option Close) where
  -- A call of a client gets the answer of an endpoint through the JSON sockets of both: if the
  -- client is connected, a promise is made, both sides have room to send, the two messages pass
  -- through the codec within the limits, the endpoint is not idle, and the public method returns a
  -- result that is not None, then the call sends the request, the round of main_loop that receives
  -- it replies and waits on, the round of the reader of the client, in any later valid state in
  -- which the call is pending, stores the reply and reads on, and the call returns the result.
  pub client_call_round_trip :
      (now before after last : ℕ) (uid name : String) (args : Option Fields) (q : JsonRpcRequest)
      (p : RpcPromise) (m : PromiseManager) (c later : Client) (ch later_ch s' : Channel)
      (conn : Connection) (g : Signature) (arguments : Dict Json) (r : Returned) (w : Json)
      → validate_connected env c ≡ ok tt
      → c.channel ≡ some ch
      → new_request (some (str_id uid)) name (or_empty args) ≡ ok q
      → create_promise true now q ch.promises ≡ (ok p, m)
      → HasRoom (record ch { promises = m })
      → to_server ch.sent (py.dump_request q) ≡ none
      → Passes codec server_limit (py.dump_request q)
      → is_idle idle_timeout last before ≡ false
      → is_protected name ≡ false
      → server_methods name ≡ some (method g)
      → convert_params server_methods q.params (some name) ≡ ok arguments
      → server_call name arguments conn.channel ≡ (ok r, s')
      → convert_result render g r ≡ value w
      → is_some (optional w) ≡ true
      → HasRoom s'
      → to_client s'.sent (py.dump_response (result_response (str_id uid) w)) ≡ none
      → Passes codec client_limit (py.dump_response (result_response (str_id uid) w))
      → later.reader ≡ reading
      → later.channel ≡ some later_ch
      → IsValid later_ch.promises
      → lookup (call_id p) later_ch.promises.requests ≡ some p
      → let ask = py.dump_request q in
        let response = result_response (str_id uid) w in
        let answer = py.dump_response response in
        let own = handler py to_server client_methods client_call render type_name debug in
        let its = handler py to_client server_methods server_call render type_name debug in
        let stored = record later_ch { promises = (store_response response later_ch.promises).1 } in
        (begin_call env py to_server now uid name args c ≡ (
          ok p,
          record c { channel = some (record ch { promises = m; sent = ch.sent ++ (ask ∷ []) }) },
        ))
        × (serve its os_timeout idle_timeout
              (record {
                before = before;
                result = to_round (recv codec not_text server_limit (frame codec ask));
                after = after;
              }
                ∷ [])
              last
              conn
            ≡ (waits, record conn { channel = record s' { sent = s'.sent ++ (answer ∷ []) } }))
        × (reader_round rcvd own
              (to_reader (recv codec not_text client_limit (frame codec answer)))
              later
            ≡ record later { channel = some stored })
        × ((finish_call py to_server p stored).0 ≡ ok response)
  client_call_round_trip now before after last uid name args q p m c later ch later_ch s' conn g
        arguments r w connected has_channel asked made room sends ask_passes awake public found
        converts returns result there room' sends' answer_passes reads later_channel v pending =
      let response = result_response (str_id uid) w in
      let trip =
        rpc_round_trip py laws to_server to_client server_methods client_methods server_call
          client_call render type_name debug true now uid name (or_empty args) none q p m ch
          later_ch conn.channel s' g arguments r w asked made room sends public found converts
          returns result there room' sends' v pending in
      let key =
        call_id-new_request (str_id uid) name (or_empty args) true now q p ch.promises m asked
          made in
      let delivered =
        reader_round_delivers py laws to_server client_methods client_call render type_name debug
          rcvd later later_ch p (str_id uid) w reads later_channel v there
          (ap (λ k. lookup k later_ch.promises.requests) (sym key) ∙ pending) in
      let its = handler py to_client server_methods server_call render type_name debug in
      let own = handler py to_server client_methods client_call render type_name debug in
      let ask = py.dump_request q in
      (
        begin_call-eq env py to_server now uid name args c ch connected has_channel
            ∙ ap (with_channel c) trip.0,
        ap
              (λ (o : Outcome Json).
                serve its os_timeout idle_timeout
                  (record { before = before; result = to_round o; after = after } ∷ []) last conn)
              (recv-frame codec not_text server_limit ask ask_passes)
            ∙ serve-handled its os_timeout idle_timeout before after last (Json.obj (fields ask))
                conn _ awake trip.1,
        ap (λ (o : Outcome Json). reader_round rcvd own (to_reader o) later)
              (recv-frame codec not_text client_limit (py.dump_response response) answer_passes)
            ∙ delivered.0,
        delivered.2,
      )
