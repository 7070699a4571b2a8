-- ===== src/Client/Readiness.antt =====
-- The check of readiness, where the pings fail.
use fastapi_ws_rpc.Base.{
  ℕ, zero, suc, ◌+◌, ◌≡◌, refl, ap, ◌∙◌, Bool, true, false, some, arith, is_some, ◌&&◌,
  if◌then◌else◌,
}
use fastapi_ws_rpc.Values.{
  ExnClass, rpc_channel_closed, rpc_invalid_state, is_exception, Outcome, ok, raised,
}
use fastapi_ws_rpc.Schemas.{JsonRpcResponse}
use fastapi_ws_rpc.Exec.{Exec, pure, continue, handled}
use fastapi_ws_rpc.PromiseManager
use fastapi_ws_rpc.Channel
use fastapi_ws_rpc.Keepalive.{reset_failures}
use fastapi_ws_rpc.Client.{
  Socket, created, reading, Client, Env, outcome_of, validate_connected, is_connected,
}
use fastapi_ws_rpc.Client.Shutting.{suppress}
use fastapi_ws_rpc.Client.Connecting.{
  Attempt, set_channel, initialize_rpc_layer, start_reader, ping, is_not_ready, wait_loop,
  wait_on_rpc_ready, start_background_tasks, set_up, connect,
}
use fastapi_ws_rpc.Client.Connected.{Opens, background-eq, with_keepalive, counted-Opens}

-- The errors by which a ping can end while the channel is open and the socket lives.
abbrev pub is_met_open : ExnClass → Bool
is_met_open rpc_channel_closed = false
is_met_open rpc_invalid_state = false
is_met_open _ = true

-- The ping ends by one of those that the check counts.
abbrev pub is_unanswered : Outcome JsonRpcResponse → Bool
is_unanswered (ok r) = false
is_unanswered (raised e) = is_met_open e.cls && is_not_ready e.cls

ping-reads :
    (env : Env) (a : Attempt) (s : Socket) (n : ℕ) (c : Client)
    → c.ws ≡ some s
    → is_some c.channel ≡ true
    → s.has_ended ≡ false
    → c.reader ≡ reading
    → ping env a n c ≡ (a.answers n, record c { pings = suc c.pings })
unfolding ping start_reader validate_connected
ping-reads env a s n c has_ws has_channel live runs =
    ground (arith, has_ws, has_channel, live, runs)

-- What the loop does with the end of a ping.
abbrev retried : Exec Client Unit → Outcome JsonRpcResponse × Client → Outcome (Unit {0}) × Client
retried rest p =
    handled (λ e c. if is_not_ready e.cls then rest c else (raised e, c))
      (continue (λ r. pure tt) p)

retried-unanswered :
    (rest : Exec Client Unit) (p : Outcome JsonRpcResponse × Client)
    → is_unanswered p.0 ≡ true
    → retried rest p ≡ rest p.1
retried-unanswered rest (ok r, d) h = ground (arith, h)
retried-unanswered rest (raised e, d) h = ground (arith, h)

loop-unanswered :
    (env : Env) (a : Attempt) (s : Socket) (left n : ℕ) (c : Client)
    → c.ws ≡ some s
    → is_some c.channel ≡ true
    → s.has_ended ≡ false
    → c.reader ≡ reading
    → ((k : ℕ) → is_unanswered (a.answers k) ≡ true)
    → wait_loop env a left n c ≡ (ok tt, record c { pings = c.pings + left })
unfolding wait_loop
loop-unanswered env a s zero n c has_ws has_channel live runs silent =
    ap (λ (k : ℕ). (ok tt, record c { pings = k })) (omega arith)
loop-unanswered env a s (suc left) n c has_ws has_channel live runs silent =
    let d = record c { pings = suc c.pings } in
    ap (retried (wait_loop env a left (suc n)))
      (ping-reads env a s n c has_ws has_channel live runs)
    ∙ retried-unanswered (wait_loop env a left (suc n)) (a.answers n, d) (silent n)
    ∙ loop-unanswered env a s left (suc n) d has_ws has_channel live runs silent
    ∙ ap (λ (k : ℕ). (ok tt, record c { pings = k })) (omega arith)

ping-starts :
    (env : Env) (a : Attempt) (s : Socket) (c : Client)
    → c.ws ≡ some s
    → is_some c.channel ≡ true
    → s.has_ended ≡ false
    → c.reader ≡ created
    → ping env a 0 c ≡ (a.answers 0, record c { reader = reading; pings = suc c.pings })
unfolding ping start_reader validate_connected
ping-starts env a s c has_ws has_channel live new = ground (arith, has_ws, has_channel, live, new)

wait-unanswered :
    (env : Env) (a : Attempt) (s : Socket) (c : Client)
    → c.ws ≡ some s
    → is_some c.channel ≡ true
    → s.has_ended ≡ false
    → c.reader ≡ created
    → ((k : ℕ) → is_unanswered (a.answers k) ≡ true)
    → wait_on_rpc_ready env a c ≡ (ok tt, record c { reader = reading; pings = c.pings + 5 })
unfolding wait_on_rpc_ready wait_loop
wait-unanswered env a s c has_ws has_channel live new silent =
    let d = record c { reader = reading; pings = suc c.pings } in
    ap (retried (wait_loop env a 4 1)) (ping-starts env a s c has_ws has_channel live new)
    ∙ retried-unanswered (wait_loop env a 4 1) (a.answers 0, d) (silent 0)
    ∙ loop-unanswered env a s 4 1 d has_ws has_channel live refl silent
    ∙ ap (λ (k : ℕ). (ok tt, record c { reader = reading; pings = k })) (omega arith)

-- The client that has waited in vain.
abbrev unanswered_client : Socket → Client → Client
unanswered_client s c = record (with_keepalive (set_channel s c)) {
  reader = reading;
  pings = c.pings + 5;
}

background-unanswered :
    (env : Env) (a : Attempt) (s : Socket) (c : Client)
    → Opens env a s c
    → ((k : ℕ) → is_unanswered (a.answers k) ≡ true)
    → start_background_tasks env a (set_channel s c) ≡ (ok tt, unanswered_client s c)
unfolding set_channel
background-unanswered env a s c h silent =
    background-eq env a s c h
    ∙ wait-unanswered env a s (record (with_keepalive (set_channel s c)) { reader = created }) refl
        refl h.live refl silent

-- A connection that gets its socket and channel and whose connect callbacks raise no more than an
-- Exception succeeds, and the client is connected, though every one of the five pings of the check
-- of readiness failed while the channel was open and the socket lived: by a timeout, by
-- backpressure or by an error of the connection.
pub connect_unanswered :
    (env : Env) (a : Attempt) (s : Socket) (c : Client)
    → Opens env a s c
    → ((k : ℕ) → is_unanswered (a.answers k) ≡ true)
    → suppress is_exception (outcome_of a.callbacks) ≡ ok tt
    → let (o, c') = connect env a c in
      (o ≡ ok tt) × (is_connected env c' ≡ true) × (c'.pings ≡ c.pings + 5)
unfolding connect set_up initialize_rpc_layer is_connected set_channel Channel.init
    PromiseManager.init reset_failures
connect_unanswered env a s c h silent callbacks =
    let d = record c { connects = suc c.connects } in
    ground (
      arith,
      h.established,
      h.negotiated,
      h.wrapped,
      h.constructed,
      h.live,
      callbacks,
      background-unanswered env a s d (counted-Opens (suc c.connects) h) silent,
    )
