-- ===== src/Client/Connected.antt =====
-- A connection that succeeds.
use fastapi_ws_rpc.Base.{
  ℕ, suc, ◌≡◌, refl, ap, ◌∙◌, ◌++◌, true, false, none, some, arith, is_some, if◌then◌else◌,
}
use fastapi_ws_rpc.Values.{is_exception, ok}
use fastapi_ws_rpc.Schemas.{JsonRpcResponse}
use fastapi_ws_rpc.Exec.{continue}
use fastapi_ws_rpc.PromiseManager
use fastapi_ws_rpc.Channel
use fastapi_ws_rpc.Channel.{Channel, is_closed}
use fastapi_ws_rpc.Config.{RpcKeepaliveConfig, keepalive_enabled, post_init_keepalive}
use fastapi_ws_rpc.Keepalive
use fastapi_ws_rpc.Keepalive.{RpcKeepalive, init_checks, start, is_running, reset_failures}
use fastapi_ws_rpc.Client.{
  Socket, created, reading, Client, Env, outcome_of, validate_connected, is_connected,
}
use fastapi_ws_rpc.Client.Shutting.{suppress}
use fastapi_ws_rpc.Client.Connecting.{
  Attempt, wrap_socket, set_channel, initialize_rpc_layer, start_keepalive, start_reader, ping,
  wait_loop, wait_on_rpc_ready, start_background_tasks, set_up, connect, as_list, reset_keepalive,
}
use fastapi_ws_rpc.Client.Negotiating.{
  establish_websocket, prepare_connection_kwargs, validate_subprotocol,
}

-- What a connection meets outside that gets as far as the check of readiness.
pub record Opens (env : Env) (a : Attempt) (s : Socket) (c : Client) : Type 0 where
  pub established : establish_websocket a.connect (prepare_connection_kwargs c) ≡ ok s
  pub negotiated : validate_subprotocol env c.config.websocket.subprotocols s.subprotocol ≡ ok tt
  pub wrapped : wrap_socket a.wrap ≡ ok tt
  pub constructed : a.make_channel ≡ none
  pub live : s.has_ended ≡ false
  pub keepalive : post_init_keepalive c.config.keepalive ≡ ok tt

-- One that succeeds: the first ping is answered.
pub record Accepts (env : Env) (a : Attempt) (s : Socket) (c : Client) : Type 0 where
  pub opens : Opens env a s c
  pub answer : JsonRpcResponse
  pub answered : a.answers 0 ≡ ok answer
  pub callbacks : suppress is_exception (outcome_of a.callbacks) ≡ ok tt

-- The keepalive of a new connection.
abbrev pub keepalive_of : RpcKeepaliveConfig → RpcKeepalive
keepalive_of k =
    record (Keepalive.new k.interval k.max_consecutive_failures k.use_protocol_ping true) {
      task = Keepalive.running;
    }

abbrev pub with_keepalive : Client → Client
with_keepalive c =
    let k = c.config.keepalive in
    record c {
      keepalive = if keepalive_enabled k then some (keepalive_of k) else c.keepalive;
      strays = if keepalive_enabled k then c.strays ++ as_list c.keepalive else c.strays;
    }

-- The client that has just connected.
abbrev pub connected_client : Socket → Client → Client
connected_client s c = record (with_keepalive (set_channel s c)) {
  reader = reading;
  pings = suc c.pings;
}

start_keepalive-ok :
    (c : Client)
    → post_init_keepalive c.config.keepalive ≡ ok tt
    → start_keepalive c.config.keepalive c ≡ (ok tt, with_keepalive c)
unfolding start_keepalive post_init_keepalive keepalive_enabled init_checks start is_running
start_keepalive-ok c valid = ground arith

wait-ok :
    (env : Env) (a : Attempt) (s : Socket) (r : JsonRpcResponse) (c : Client)
    → c.ws ≡ some s
    → is_some c.channel ≡ true
    → c.reader ≡ created
    → s.has_ended ≡ false
    → a.answers 0 ≡ ok r
    → wait_on_rpc_ready env a c ≡ (ok tt, record c { reader = reading; pings = suc c.pings })
unfolding wait_on_rpc_ready wait_loop ping start_reader validate_connected
wait-ok env a s r c has_ws has_channel new live answered = ground arith

-- The number of connections plays no part.
pub counted-Opens :
    {env : Env} {a : Attempt} {s : Socket} {c : Client} (n : ℕ)
    → Opens env a s c
    → Opens env a s (record c { connects = n })
unfolding prepare_connection_kwargs
counted-Opens n h = record {
  established = h.established;
  negotiated = h.negotiated;
  wrapped = h.wrapped;
  constructed = h.constructed;
  live = h.live;
  keepalive = h.keepalive;
}

pub counted-Accepts :
    {env : Env} {a : Attempt} {s : Socket} {c : Client} (n : ℕ)
    → Accepts env a s c
    → Accepts env a s (record c { connects = n })
counted-Accepts n h = record {
  opens = counted-Opens n h.opens;
  answer = h.answer;
  answered = h.answered;
  callbacks = h.callbacks;
}

pub background-eq :
    (env : Env) (a : Attempt) (s : Socket) (c : Client)
    → Opens env a s c
    → start_background_tasks env a (set_channel s c)
      ≡ wait_on_rpc_ready env a (record (with_keepalive (set_channel s c)) { reader = created })
unfolding start_background_tasks set_channel
background-eq env a s c h =
    ap (continue (λ u. wait_on_rpc_ready env a))
      (start_keepalive-ok (record (set_channel s c) { reader = created }) h.keepalive)

background-ok :
    (env : Env) (a : Attempt) (s : Socket) (c : Client)
    → Accepts env a s c
    → start_background_tasks env a (set_channel s c) ≡ (ok tt, connected_client s c)
unfolding set_channel
background-ok env a s c h =
    background-eq env a s c h.opens
    ∙ wait-ok env a s h.answer (record (with_keepalive (set_channel s c)) { reader = created }) refl
        refl refl h.opens.live h.answered

pub connect-ok :
    (env : Env) (a : Attempt) (s : Socket) (c : Client)
    → Accepts env a s c
    → connect env a c
      ≡ (ok tt, reset_keepalive env a (connected_client s (record c { connects = suc c.connects })))
unfolding connect set_up initialize_rpc_layer
connect-ok env a s c h =
    let d = record c { connects = suc c.connects } in
    ground (
      arith,
      h.opens.established,
      h.opens.negotiated,
      h.opens.wrapped,
      h.callbacks,
      background-ok env a s d (counted-Accepts (suc c.connects) h),
    )

-- A connection that meets nothing wrong outside leaves the client connected after one ping, with a
-- new channel and, if it is on, a new keepalive; the old ones are replaced as they are.
pub connect-IsConnected :
    (env : Env) (a : Attempt) (s : Socket) (c : Client)
    → Accepts env a s c
    → let (o, c') = connect env a c in
      (o ≡ ok tt)
      × (is_connected env c' ≡ true)
      × (c'.dropped ≡ c.dropped ++ as_list c.channel)
      × (keepalive_enabled c.config.keepalive ≡ true
          → (c'.keepalive ≡ some (keepalive_of c.config.keepalive))
            × (c'.strays ≡ c.strays ++ as_list c.keepalive))
      × (c'.closing ≡ c.closing)
      × (c'.pings ≡ suc c.pings)
unfolding is_connected set_channel Channel.init PromiseManager.init reset_failures
connect-IsConnected env a s c h = ground (arith, connect-ok env a s c h, h.opens.live)
