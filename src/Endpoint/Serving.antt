-- ===== src/Endpoint/Serving.antt =====
-- What is left of a connection when its loop ends.
use fastapi_ws_rpc.Base.{
  ℕ, suc, ◌+◌, ◌-◌, ◌≡◌, ◌≢◌, refl, ap, ◌∙◌, Bool, true, false, not, Option, none, List, [], ◌∷◌,
  ◌++◌, arith, nat_eq, length, if◌then◌else◌, ltb, if_both,
}
use fastapi_ws_rpc.Values.{ExnClass, Exn, Outcome, ok, raised, is_rpc_error}
use fastapi_ws_rpc.ProtocolHandler.{Handler}
use fastapi_ws_rpc.Channel.{Channel, on_message}
use fastapi_ws_rpc.Endpoint.{
  Connections, connect, disconnect, is_connected, get_connection_count, Connection,
  handle_disconnect, disconnecting_to, on_outer_exception, give_up, Received, received, timed_out,
  failed, Round, Exit, returns, escapes, is_connection_failure, is_start_failure, is_timeout,
  is_idle, on_exception, continue_loop, after_recv, serve,
}

-- How often a websocket is tracked.
abbrev pub occurrences : ℕ → Connections → ℕ
occurrences w [] = 0
occurrences w (x ∷ active) =
    let rest = occurrences w active in if nat_eq x w then suc rest else rest

pub is_connected-occurrences :
    (w : ℕ) (active : Connections) → is_connected w active ≡ ltb 0 (occurrences w active)
unfolding is_connected
is_connected-occurrences w [] = ground arith
is_connected-occurrences w (x ∷ active) = ground (arith, is_connected-occurrences w active)

pub disconnect-occurrences :
    (w v : ℕ) (active : Connections)
    → occurrences v (disconnect w active)
      ≡ (if nat_eq w v then occurrences v active - 1 else occurrences v active)
unfolding disconnect
disconnect-occurrences w v [] = ground arith
disconnect-occurrences w v (x ∷ active) = ground (arith, disconnect-occurrences w v active)

pub connect-occurrences :
    (w v : ℕ) (active : Connections)
    → occurrences v (connect w active)
      ≡ (if nat_eq w v then occurrences v active + 1 else occurrences v active)
unfolding connect
connect-occurrences w v [] = ground arith
connect-occurrences w v (x ∷ active) = ground (arith, connect-occurrences w v active)

count-append : (active : Connections) (w : ℕ) → length (active ++ (w ∷ [])) ≡ suc (length active)
count-append [] w = refl
count-append (x ∷ active) w = ap suc (count-append active w)

-- A websocket that was not tracked is tracked after connect with the count one higher, and not
-- after disconnect, which leaves the tracking of every other websocket as it was.
connect-disconnect :
    (w v : ℕ) (active : Connections)
    → is_connected w active ≡ false
    → let tracked = connect w active in
      (is_connected w tracked ≡ true)
      × (get_connection_count tracked ≡ get_connection_count active + 1)
      × (is_connected w (disconnect w tracked) ≡ false)
      × (v ≢ w → is_connected v (disconnect w tracked) ≡ is_connected v active)
unfolding get_connection_count connect
connect-disconnect w v active fresh =
    let tracked = connect w active in
    (
      ground (arith, is_connected-occurrences w tracked, connect-occurrences w w active),
      omega (arith, count-append active w),
      ground (
        arith,
        is_connected-occurrences w (disconnect w tracked),
        disconnect-occurrences w w tracked,
        connect-occurrences w w active,
        is_connected-occurrences w active,
      ),
      λ ne. ground (
        arith,
        is_connected-occurrences v (disconnect w tracked),
        disconnect-occurrences w v tracked,
        connect-occurrences w v active,
        is_connected-occurrences v active,
      ),
    )

rpc_error-uncaught :
    (os_timeout subclass : Bool) (k : ExnClass)
    → is_rpc_error k ≡ true
    → (is_connection_failure os_timeout k ≡ false)
      × (is_start_failure os_timeout subclass k ≡ false)
      × (is_timeout k ≡ false)
rpc_error-uncaught os_timeout subclass k h = ground arith

-- The loop returned.
abbrev pub has_returned : Exit → Bool
has_returned returns = true
has_returned _ = false

module _ (h : Handler Channel) (os_timeout : Bool) (idle_timeout : Option ℕ) where
  -- The websocket is tracked once, or not any more.
  abbrev TracksUnless : ℕ → Exit × Connection → Type 0
  TracksUnless w r = occurrences w r.1.active ≡ (if has_returned r.0 then 0 else 1)

  -- The disconnect callbacks raise nothing, and the websocket is tracked once.
  abbrev Begins : Connection → Type 0
  Begins c = (c.disconnecting ≡ none) × (occurrences c.websocket c.active ≡ 1)

  disconnecting_to-TracksUnless :
      (handler : Exn → Connection → Exit × Connection) (c : Connection)
      → Begins c
      → TracksUnless c.websocket (disconnecting_to h os_timeout idle_timeout handler c)
  unfolding disconnecting_to handle_disconnect
  disconnecting_to-TracksUnless handler c (polite, once) =
      ground (arith, polite, once, disconnect-occurrences c.websocket c.websocket c.active)

  on_exception-TracksUnless :
      (e : Exn) (c : Connection)
      → Begins c
      → TracksUnless c.websocket (on_exception h os_timeout idle_timeout e c)
  unfolding on_exception on_outer_exception
  on_exception-TracksUnless e c begins =
      if_both (TracksUnless c.websocket) (is_connection_failure os_timeout e.cls)
        (disconnecting_to-TracksUnless (on_outer_exception h os_timeout idle_timeout) c begins)
        (if_both (TracksUnless c.websocket)
          (is_start_failure os_timeout h.py.validation_is_value_error e.cls)
          (ground (arith, begins.1, disconnect-occurrences c.websocket c.websocket c.active))
          begins.1)

  give_up-TracksUnless :
      (c : Connection) → Begins c → TracksUnless c.websocket (give_up h os_timeout idle_timeout c)
  unfolding give_up
  give_up-TracksUnless c begins =
      disconnecting_to-TracksUnless (on_exception h os_timeout idle_timeout) c begins

  continue_loop-TracksUnless :
      (next : Connection → Exit × Connection) (r : Outcome (Unit {0}) × Channel) (c : Connection)
      → ((c' : Connection) → Begins c' → TracksUnless c'.websocket (next c'))
      → Begins c
      → TracksUnless c.websocket (continue_loop h os_timeout idle_timeout next r c)
  unfolding continue_loop
  continue_loop-TracksUnless next (ok u, channel) c ih once =
      ih (record c { channel = channel }) once
  continue_loop-TracksUnless next (raised e, channel) c ih once =
      on_exception-TracksUnless e (record c { channel = channel }) once

  after_recv-TracksUnless :
      (next : Connection → Exit × Connection) (r : Received) (c : Connection)
      → ((c' : Connection) → Begins c' → TracksUnless c'.websocket (next c'))
      → Begins c
      → TracksUnless c.websocket (after_recv h os_timeout idle_timeout next r c)
  unfolding after_recv
  after_recv-TracksUnless next (received message) c ih once =
      continue_loop-TracksUnless next (on_message h message c.channel) c ih once
  after_recv-TracksUnless next timed_out c ih once = give_up-TracksUnless c once
  after_recv-TracksUnless next (failed e) c ih once =
      if_both (TracksUnless c.websocket) (is_timeout e.cls) (give_up-TracksUnless c once)
        (on_exception-TracksUnless e c once)

  serve-TracksUnless :
      (rs : List Round) (last : ℕ) (c : Connection)
      → Begins c
      → TracksUnless c.websocket (serve h os_timeout idle_timeout rs last c)
  unfolding serve
  serve-TracksUnless [] last c begins = begins.1
  serve-TracksUnless (r ∷ rs) last c once =
      if_both (TracksUnless c.websocket) (is_idle idle_timeout last r.before)
        (give_up-TracksUnless c once)
        (after_recv-TracksUnless
          (λ (c' : Connection). serve h os_timeout idle_timeout rs r.after c') r.result c
          (serve-TracksUnless rs r.after) once)

  -- If the disconnect callbacks raise nothing, a websocket that is tracked once when the loop begins
  -- is tracked at its end exactly if the loop did not return.
  pub serve_tracked :
      (rs : List Round) (last : ℕ) (c : Connection)
      → c.disconnecting ≡ none
      → occurrences c.websocket c.active ≡ 1
      → let (exit, c') = serve h os_timeout idle_timeout rs last c in
        is_connected c.websocket c'.active ≡ not (has_returned exit)
  serve_tracked rs last c polite once = ground (
    arith,
    serve-TracksUnless rs last c (polite, once),
    is_connected-occurrences c.websocket (serve h os_timeout idle_timeout rs last c).1.active,
  )

  -- An RpcError that recv raises in a round that begins before the idle timeout leaves the loop
  -- uncaught, with the websocket still tracked and the channel unchanged.
  rpc_error_escapes :
      (e : Exn) (r : Round) (rs : List Round) (last : ℕ) (c : Connection)
      → is_idle idle_timeout last r.before ≡ false
      → r.result ≡ failed e
      → is_rpc_error e.cls ≡ true
      → serve h os_timeout idle_timeout (r ∷ rs) last c ≡ (escapes e, c)
  unfolding serve after_recv on_exception on_outer_exception
  rpc_error_escapes e r rs last c early fails rpc =
      let (inner, outer, recv) =
        rpc_error-uncaught os_timeout h.py.validation_is_value_error e.cls rpc in
      let go = λ (c' : Connection). serve h os_timeout idle_timeout rs r.after c' in
      ap
        (λ (b : Bool).
          if b
          then give_up h os_timeout idle_timeout c
          else after_recv h os_timeout idle_timeout go r.result c)
        early
      ∙ ap (λ x. after_recv h os_timeout idle_timeout go x c) fails
      ∙ rw (recv, inner, outer, on_exception, on_outer_exception)
