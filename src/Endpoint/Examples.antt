-- ===== src/Endpoint/Examples.antt =====
-- An endpoint with two websockets, which serves the first.
use fastapi_ws_rpc.Base.{◌≡◌, refl, ap, ◌∙◌, true, false, not, none, some, List, [], ◌∷◌, ◌++◌}
use fastapi_ws_rpc.Values.{Json, fields, str_id, Exn, Outcome, ok}
use fastapi_ws_rpc.MethodInvoker.{value}
use fastapi_ws_rpc.Exec.{Exec, handled}
use fastapi_ws_rpc.Pydantic.Strict.{strict}
use fastapi_ws_rpc.Pydantic.Strict.Lawful.{strict-laws}
use fastapi_ws_rpc.ProtocolHandler.{Handler, handle_message, result_response}
use fastapi_ws_rpc.ProtocolHandler.Messages.{result_stored}
use fastapi_ws_rpc.Channel
use fastapi_ws_rpc.Channel.{Channel, handler, on_message, is_closed}
use fastapi_ws_rpc.Endpoint.{is_connected, Connection, received, Round, returns, waits, serve}
use fastapi_ws_rpc.Endpoint.Serving.{has_returned}
use fastapi_ws_rpc.Config.Presets.{default_connection}
use fastapi_ws_rpc.Endpoint.Starting.{
  Setup, main_loop, main_loop_tracked, main_loop_no_subprotocols,
}
use fastapi_ws_rpc.Endpoint.IdleTimeout.{IsCalm, serve_idle_timeout}

abbrev h : Handler Channel
h =
    handler strict (λ sent d. none) (λ name. none) (λ name arguments c. (ok (value Json.null), c))
      (λ j. "value") (λ c. "Error") false

abbrev connection : Connection
connection = record {
  websocket = 1;
  active = 1 ∷ 2 ∷ [];
  channel = Channel.init true false none none;
  disconnecting = none;
}

abbrev message : Json
message = Json.obj (fields (strict.dump_response (result_response (str_id "a") (Json.str "3"))))

-- Messages every 50 time units, then silence.
abbrev greeting : Round
greeting = record { before = 10; result = received message; after = 50 }

abbrev follow_up : Round
follow_up = record { before = 60; result = received message; after = 100 }

abbrev chatter : List Round
chatter = greeting ∷ follow_up ∷ []

abbrev silence : Round
silence = record { before = 170; result = received message; after = 171 }

handled-ok :
    (f : Exn → Exec Channel Unit) (r : Outcome (Unit {0}) × Channel) (c : Channel)
    → r ≡ (ok tt, c)
    → (handled f r).0 ≡ ok tt
handled-ok f r c e = ap (λ (x : Outcome (Unit {0}) × Channel). (handled f x).0) e

message-ok : (c : Channel) → (on_message h message c).0 ≡ ok tt
unfolding on_message handler
message-ok c =
    handled-ok _ (handle_message h message c) _
      (result_stored h strict-laws (str_id "a") (Json.str "3") c refl)

chatter-IsCalm : (r : Round) → r.result ≡ received message → IsCalm h true (some 60) r
chatter-IsCalm r same m c e =
    let equal : m ≡ message = cc in ap (λ (j : Json). (on_message h j c).0) equal ∙ message-ok c

serve_idle_timeout_example :
    let (exit, c') = serve h true (some 60) chatter 0 connection in
    let (exit', c'') = serve h true (some 60) (chatter ++ (silence ∷ [])) 0 connection in
    (exit ≡ waits)
    × (c'.active ≡ connection.active)
    × (exit' ≡ returns)
    × (is_connected 1 c''.active ≡ false)
    × (is_closed c''.channel ≡ true)
serve_idle_timeout_example =
    serve_idle_timeout h true (some 60) chatter [] silence 0 connection refl refl
      (chatter-IsCalm greeting refl, (chatter-IsCalm follow_up refl, tt))
      (refl, refl, (refl, refl, tt)) refl

abbrev ready : Setup
ready = record {
  accepted = ok tt;
  wrapped = ok tt;
  requested = some ("jsonrpc2.0" ∷ []);
  greeted = ok tt;
  disconnecting = none;
}

main_loop_tracked_example :
    let (exit, active) =
      main_loop h true default_connection none ready (greeting ∷ []) 0 3 (2 ∷ []) in
    is_connected 3 active ≡ not (has_returned exit)
unfolding is_connected
main_loop_tracked_example =
    main_loop_tracked h true default_connection none ready (greeting ∷ []) 0 3 (2 ∷ []) refl refl

main_loop_no_subprotocols_example :
    let (exit, active) =
      main_loop h true default_connection none
        (record ready { requested = some [] })
        []
        0
        3
        (2 ∷ []) in
    is_connected 3 active ≡ true
main_loop_no_subprotocols_example =
    (main_loop_no_subprotocols h true default_connection none (record ready { requested = some [] })
      [] 0 3 (2 ∷ []) refl refl refl refl).2
