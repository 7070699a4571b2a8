-- ===== src/Endpoint/IdleTimeout.antt =====
-- When an idle connection is given up.
use fastapi_ws_rpc.Base.{
  ℕ, ◌≡◌, refl, ap, ◌∙◌, Bool, true, false, Option, none, List, [], ◌∷◌, ◌++◌, arith, if◌then◌else◌,
  All,
}
use fastapi_ws_rpc.Values.{Json, Outcome, ok, raised}
use fastapi_ws_rpc.PromiseManager
use fastapi_ws_rpc.ProtocolHandler.{Handler}
use fastapi_ws_rpc.Channel.{Channel, is_closed, on_disconnect, on_message}
use fastapi_ws_rpc.Endpoint.{
  disconnect, is_connected, Connection, handle_disconnect, disconnecting_to, give_up, Received,
  received, timed_out, failed, Round, Exit, returns, waits, is_idle, continue_loop, after_recv,
  serve,
}
use fastapi_ws_rpc.Endpoint.Serving.{occurrences, disconnect-occurrences, is_connected-occurrences}

append_nil : {A : Type 0} → (xs : List A) → xs ≡ xs ++ []
append_nil [] = refl
append_nil (x ∷ xs) = ap (◌∷◌ x) (append_nil xs)

abbrev pub is_message : Received → Bool
is_message (received message) = true
is_message _ = false

-- When the last message of the rounds was handled.
abbrev pub last_message : ℕ → List Round → ℕ
last_message last [] = last
last_message last (r ∷ rs) = last_message r.after rs

on_disconnect-closed : (c : Channel) → is_closed (on_disconnect c) ≡ true
unfolding on_disconnect PromiseManager.close
on_disconnect-closed c = ground arith

module _ (h : Handler Channel) (os_timeout : Bool) (idle_timeout : Option ℕ) where
  -- Each round brings a message before the idle timeout of the one before has passed.
  abbrev pub Timely : ℕ → List Round → Type 0
  Timely last [] = Unit
  Timely last (r ∷ rs) =
      (is_idle idle_timeout last r.before ≡ false)
      × (is_message r.result ≡ true)
      × Timely r.after rs

  -- The handler does not raise on the message of the round, whatever the state of the channel.
  abbrev pub IsCalm : Round → Type 0
  IsCalm r =
      (message : Json) (channel : Channel)
      → r.result ≡ received message
      → (on_message h message channel).0 ≡ ok tt

  -- The loop has gone through `rs` and stands before `next`, with the websocket tracked as it was.
  Reaches : List Round → List Round → ℕ → Connection → Type 0
  Reaches rs next last c =
      (c' : Connection) × (serve h os_timeout idle_timeout (rs ++ next) last c
        ≡ serve h os_timeout idle_timeout next (last_message last rs) c')
      × (c'.active ≡ c.active)
      × (c'.websocket ≡ c.websocket)
      × (c'.disconnecting ≡ c.disconnecting)

  continue_ok :
      (next : Connection → Exit × Connection) (r : Outcome (Unit {0}) × Channel) (c : Connection)
      → r.0 ≡ ok tt
      → continue_loop h os_timeout idle_timeout next r c ≡ next (record c { channel = r.1 })
  unfolding continue_loop
  continue_ok next (ok u, channel) c fine = refl
  continue_ok next (raised e, channel) c fine = cc

  after_message :
      (next : Connection → Exit × Connection) (r : Received) (c : Connection)
      → ((message : Json) (channel : Channel)
          → r ≡ received message
          → (on_message h message channel).0 ≡ ok tt)
      → is_message r ≡ true
      → (channel : Channel) × (after_recv h os_timeout idle_timeout next r c
          ≡ next (record c { channel = channel }))
  unfolding after_recv
  after_message next (received message) c calm there =
      let o = on_message h message c.channel in
      (o.1, continue_ok next o c (calm message c.channel refl))
  after_message next timed_out c calm there = cc
  after_message next (failed e) c calm there = cc

  Timely-Reaches :
      (rs next : List Round) (last : ℕ) (c : Connection)
      → All IsCalm rs
      → Timely last rs
      → Reaches rs next last c
  unfolding Reaches serve
  Timely-Reaches [] next last c calm timely = (c, refl, refl, refl, refl)
  Timely-Reaches (r ∷ rs) next last c calm (early, there, later) =
      let go = λ (c' : Connection). serve h os_timeout idle_timeout (rs ++ next) r.after c' in
      let (channel, passed) = after_message go r.result c calm.0 there in
      let (c', reached, same, same', same'') =
        Timely-Reaches rs next r.after (record c { channel = channel }) calm.1 later in
      (
        c',
        ap
              (λ (b : Bool).
                if b
                then give_up h os_timeout idle_timeout c
                else after_recv h os_timeout idle_timeout go r.result c)
              early
            ∙ passed
            ∙ reached,
        same,
        same',
        same'',
      )

  give_up-returns :
      (c : Connection)
      → c.disconnecting ≡ none
      → give_up h os_timeout idle_timeout c ≡ (returns, (handle_disconnect c).1)
  unfolding give_up disconnecting_to handle_disconnect
  give_up-returns c polite = ground (arith, polite)

  -- If calling the disconnect callbacks raises nothing: while each message comes before the idle
  -- timeout of the one before and the handler does not raise, the loop waits on and the websocket
  -- stays tracked; at the first round that begins when the timeout is over it returns with the
  -- websocket untracked and the channel closed.
  pub serve_idle_timeout :
      (rs rest : List Round) (r : Round) (last : ℕ) (c : Connection)
      → c.disconnecting ≡ none
      → occurrences c.websocket c.active ≡ 1
      → All IsCalm rs
      → Timely last rs
      → is_idle idle_timeout (last_message last rs) r.before ≡ true
      → let (exit, c') = serve h os_timeout idle_timeout rs last c in
        let (exit', c'') = serve h os_timeout idle_timeout (rs ++ (r ∷ rest)) last c in
        (exit ≡ waits)
        × (c'.active ≡ c.active)
        × (exit' ≡ returns)
        × (is_connected c.websocket c''.active ≡ false)
        × (is_closed c''.channel ≡ true)
  unfolding serve Reaches handle_disconnect
  serve_idle_timeout rs rest r last c polite once calm timely idle =
      let (c1, quiet, same, _, _) = Timely-Reaches rs [] last c calm timely in
      let (c2, reached, tracked, websocket, disconnecting) =
        Timely-Reaches rs (r ∷ rest) last c calm timely in
      let waiting = ap (λ l. serve h os_timeout idle_timeout l last c) (append_nil rs) ∙ quiet in
      let gone : is_connected c.websocket (disconnect c2.websocket c2.active) ≡ false =
        rw (tracked, websocket)
          (ground (
            arith,
            disconnect-occurrences c.websocket c.websocket c.active,
            is_connected-occurrences c.websocket (disconnect c.websocket c.active),
          )) in
      let go = λ (c' : Connection). serve h os_timeout idle_timeout rest r.after c' in
      let ended =
        reached
        ∙ ap
            (λ (b : Bool).
              if b
              then give_up h os_timeout idle_timeout c2
              else after_recv h os_timeout idle_timeout go r.result c2)
            idle
        ∙ give_up-returns c2 (disconnecting ∙ polite) in
      (
        ap (λ x. x.0) waiting,
        ap (λ x. x.1.active) waiting ∙ same,
        ap (λ x. x.0) ended,
        ap (λ x. is_connected c.websocket x.1.active) ended ∙ gone,
        ap (λ x. is_closed x.1.channel) ended ∙ on_disconnect-closed c2.channel,
      )
