-- ===== src/Endpoint/Starting.antt =====
-- `WebSocketRpcEndpoint` of fastapi_ws_rpc/websocket_rpc_endpoint.py from its construction to the end
-- of `main_loop`: what comes before the serving loop, and the handlers around all of it.
use fastapi_ws_rpc.Base.{
  ℕ, ◌≡◌, refl, String, Bool, true, false, not, ◌&&◌, Option, none, some, List, [], is_some, arith,
  if◌then◌else◌,
}
use fastapi_ws_rpc.Base.Int.{ℤ, pos_part}
use fastapi_ws_rpc.Values.{is_ok, Exn, exn, Outcome, ok, raised, other}
use fastapi_ws_rpc.ProtocolHandler.{Handler}
use fastapi_ws_rpc.Config.{RpcConnectionConfig}
use fastapi_ws_rpc.Config.Presets.{default_connection}
use fastapi_ws_rpc.Channel
use fastapi_ws_rpc.Channel.{Channel}
use fastapi_ws_rpc.Endpoint.{
  Connections, connect, disconnect, is_connected, is_start_failure, offered, negotiated, Connection,
  Round, Exit, returns, escapes, serve,
}
use fastapi_ws_rpc.Endpoint.Serving.{
  has_returned, occurrences, is_connected-occurrences, connect-occurrences, disconnect-occurrences,
  serve_tracked,
}

-- The configuration that `__init__` keeps: the one that is given, or the defaults with the duration
-- of the older parameter.
unfoldable pub merge_config : Option ℤ → Option RpcConnectionConfig → RpcConnectionConfig
merge_config duration none = record default_connection { max_connection_duration = duration }
merge_config duration (some config) = config

-- What the outside does before the loop: the end of `accept`, of the wrapper's constructor, and of
-- the connect callbacks, the subprotocols of the request's scope, and what calling the disconnect
-- callbacks raises.
pub record Setup : Type 0 where
  pub accepted : Outcome (Unit {0})
  pub wrapped : Outcome (Unit {0})
  pub requested : Option (List String)
  pub greeted : Outcome (Unit {0})
  pub disconnecting : Option Exn

abbrev pub discard : {A : Type 0} → Outcome A → Outcome (Unit {0})
discard (ok a) = ok tt
discard (raised e) = raised e

abbrev pub and_then : Outcome (Unit {0}) → Outcome (Unit {0}) → Outcome (Unit {0})
and_then (ok u) r = r
and_then (raised e) r = raised e

-- The steps between `accept` and the loop.
unfoldable pub prepare : RpcConnectionConfig → Setup → Outcome (Unit {0})
unfolding negotiated
prepare config setup =
    and_then setup.wrapped
      (and_then (discard (negotiated config.websocket.subprotocols setup.requested)) setup.greeted)

-- The channel that is made; `max_pending` is the endpoint's `max_pending_requests`.
unfoldable pub new_channel : RpcConnectionConfig → Option ℕ → Channel
unfolding Channel.init
new_channel config max_pending =
    Channel.init true (is_some config.max_connection_duration) max_pending none

-- How `main_loop` ends, and what is tracked then.
abbrev pub tracked : Exit × Connection → Exit × Connections
tracked (exit, c) = (exit, c.active)

module _ (h : Handler Channel) (os_timeout : Bool) (config : RpcConnectionConfig)
    (max_pending : Option ℕ) where
  -- The outer handler, where the loop has not begun.
  unfoldable pub on_start_failure : Exn → ℕ → Connections → Exit × Connections
  unfolding disconnect
  on_start_failure e websocket active =
      if is_start_failure os_timeout h.py.validation_is_value_error e.cls
      then (returns, disconnect websocket active)
      else (escapes e, active)

  abbrev pub idle_timeout : Option ℕ
  idle_timeout = elim config.idle_timeout [ none ↦ none | some t ↦ some (pos_part t) ]

  -- What follows `accept`, by the end of the steps before the loop.
  unfoldable pub continue_main :
      Option Exn → Outcome (Unit {0}) → List Round → ℕ → ℕ → Connections → Exit × Connections
  unfolding on_start_failure serve new_channel
  continue_main disconnecting (ok u) rounds start websocket active = tracked (
      serve h os_timeout idle_timeout rounds start (record {
        websocket = websocket;
        active = active;
        channel = new_channel config max_pending;
        disconnecting = disconnecting;
      }))
  continue_main disconnecting (raised e) rounds start websocket active =
      on_start_failure e websocket active

  -- `main_loop`; `start` is the clock when the loop begins.
  unfoldable pub main_loop : Setup → List Round → ℕ → ℕ → Connections → Exit × Connections
  unfolding connect prepare continue_main on_start_failure
  main_loop setup rounds start websocket active = elim setup.accepted [
    | raised e ↦ on_start_failure e websocket active
    | ok u ↦
        continue_main setup.disconnecting (prepare config setup) rounds start websocket
          (connect websocket active)
  ]

  on_start_failure-tracked :
      (e : Exn) (websocket : ℕ) (active : Connections)
      → occurrences websocket active ≡ 1
      → let (exit, active') = on_start_failure e websocket active in
        is_connected websocket active' ≡ not (has_returned exit)
  unfolding on_start_failure
  on_start_failure-tracked e websocket active once = ground (
    arith,
    once,
    disconnect-occurrences websocket websocket active,
    is_connected-occurrences websocket active,
    is_connected-occurrences websocket (disconnect websocket active),
  )

  continue_main-tracked :
      (r : Outcome (Unit {0})) (rounds : List Round) (start websocket : ℕ) (active : Connections)
      → occurrences websocket active ≡ 1
      → let (exit, active') = continue_main none r rounds start websocket active in
        is_connected websocket active' ≡ not (has_returned exit)
  unfolding continue_main
  continue_main-tracked (ok u) rounds start websocket active once =
      serve_tracked h os_timeout idle_timeout rounds start
        (record {
          websocket = websocket;
          active = active;
          channel = new_channel config max_pending;
          disconnecting = none;
        })
        refl once
  continue_main-tracked (raised e) rounds start websocket active once =
      on_start_failure-tracked e websocket active once

  -- If calling the disconnect callbacks raises nothing, a websocket that was not tracked is
  -- tracked when main_loop ends exactly if it was accepted and main_loop did not return: whatever
  -- the steps before the loop and the rounds of the loop do.
  pub main_loop_tracked :
      (setup : Setup) (rounds : List Round) (start websocket : ℕ) (active : Connections)
      → is_connected websocket active ≡ false
      → setup.disconnecting ≡ none
      → let (exit, active') = main_loop setup rounds start websocket active in
        is_connected websocket active' ≡ (is_ok setup.accepted && not (has_returned exit))
  unfolding main_loop on_start_failure
  main_loop_tracked setup rounds start websocket active fresh polite =
      let joined = connect websocket active in
      ground (
        arith,
        fresh,
        polite,
        is_connected-occurrences websocket active,
        is_connected-occurrences websocket (disconnect websocket active),
        disconnect-occurrences websocket websocket active,
        continue_main-tracked (prepare config setup) rounds start websocket joined (
            ground (
              arith,
              fresh,
              is_connected-occurrences websocket active,
              connect-occurrences websocket websocket active,
            )),
      )

  -- If the endpoint offers a subprotocol and the client asked for none, so that the list in the
  -- scope is empty, an accepted and wrapped websocket ends main_loop by an IndexError that no
  -- clause catches, and it stays tracked.
  pub main_loop_no_subprotocols :
      (setup : Setup) (rounds : List Round) (start websocket : ℕ) (active : Connections)
      → is_some (offered config.websocket.subprotocols) ≡ true
      → setup.accepted ≡ ok tt
      → setup.wrapped ≡ ok tt
      → setup.requested ≡ some []
      → let (exit, active') = main_loop setup rounds start websocket active in
        (exit ≡ escapes (exn (other "IndexError") "list index out of range"))
        × (active' ≡ connect websocket active)
        × (is_connected websocket active' ≡ true)
  unfolding main_loop continue_main on_start_failure prepare negotiated
  main_loop_no_subprotocols setup rounds start websocket active offers accepts wraps asks = ground (
    arith,
    offers,
    accepts,
    wraps,
    asks,
    is_connected-occurrences websocket (connect websocket active),
    connect-occurrences websocket websocket active,
  )
