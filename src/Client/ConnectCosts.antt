-- ===== src/Client/ConnectCosts.antt =====
-- What `__connect__` costs.
use fastapi_ws_rpc.Base.{ℕ, zero, suc, ◌+◌, Bool, arith, if◌then◌else◌, if_both}
use fastapi_ws_rpc.Values.{ExnClass, is_exception, Outcome, raised}
use fastapi_ws_rpc.Exec.{Exec, pure, raise, lift, ◌>>◌}
use fastapi_ws_rpc.Client.{Socket, Reader, Client, Env, validate_connected, created, outcome_of}
use fastapi_ws_rpc.Client.Shutting.{cleanup_partial_init, suppress}
use fastapi_ws_rpc.Client.Connecting.{
  Attempt, initialize_rpc_layer, start_keepalive, start_reader, ping, wait_loop, wait_on_rpc_ready,
  start_background_tasks, set_up, connect, begin_ping, is_not_ready, max_attempts, cleaning,
  is_init_error, reset_keepalive,
}
use fastapi_ws_rpc.Client.Negotiating.{
  validate_subprotocol, establish_websocket, prepare_connection_kwargs,
}
use fastapi_ws_rpc.Client.Costs.{
  Costs, Costing, trans, weaken, bind, try-Costing, same, lift-Costing, cleanup-Costing,
  start_keepalive-Costing, initialize-Costing,
}

module _ (env : Env) (a : Attempt) where
  start_reader-Costs : (r : Reader) (c : Client) → Costs 0 c (start_reader env a r c)
  unfolding start_reader
  start_reader-Costs r c = ground (arith, same c)

  begin_ping-Costing : Costing 1 (begin_ping env a)
  begin_ping-Costing c =
      let d = record c { pings = suc c.pings } in
      trans {n = 1} {d = d} (ground (arith, same c)) (start_reader-Costs c.reader d)

  ping-Costing : (n : ℕ) → Costing 1 (ping env a n)
  unfolding ping
  ping-Costing n =
      bind {n = 1} (begin_ping env a >> (λ (c : Client). (validate_connected env c, c)))
        (λ u. lift (a.answers n))
        (bind (begin_ping env a) (λ u c. (validate_connected env c, c)) begin_ping-Costing
          (λ u c. same c))
        (λ u. lift-Costing (a.answers n))

  wait_loop-Costing : (left attempt : ℕ) → Costing left (wait_loop env a left attempt)
  unfolding wait_loop
  wait_loop-Costing zero attempt c = same c
  wait_loop-Costing (suc left) attempt c = weaken {n = 1 + left} (omega arith) (
      try-Costing {n = 1} (ping env a attempt >> pure tt)
        (λ e c. if is_not_ready e.cls then wait_loop env a left (suc attempt) c else (raised e, c))
        (bind (ping env a attempt) (λ r. pure tt) (ping-Costing attempt) (λ r. same))
        (λ e d.
          if_both (λ (r : Outcome (Unit {0}) × Client). Costs left d r.1) (is_not_ready e.cls)
            (wait_loop-Costing left (suc attempt) d) (weaken (omega arith) (same d)))
        c)

  background-Costing : Costing 5 (start_background_tasks env a)
  unfolding start_background_tasks wait_on_rpc_ready
  background-Costing c =
      let d = record c { reader = created } in
      trans {n = 0} {d = d} (ground (arith, same c)) (
        bind (start_keepalive c.config.keepalive) (λ u. wait_on_rpc_ready env a)
          (start_keepalive-Costing c.config.keepalive) (λ u. wait_loop-Costing max_attempts 0) d)

  cleaning-Costing :
      {n : ℕ} (test : ExnClass → Bool) (m : Exec Client Unit)
      → Costing n m
      → Costing (n + 0) (cleaning env a test m)
  cleaning-Costing test m costs =
      try-Costing m
        (λ e c. if test e.cls then (cleanup_partial_init env >> raise e) c else (raised e, c)) costs
        (λ e d.
          if_both (λ (r : Outcome (Unit {0}) × Client). Costs 0 d r.1) (test e.cls)
            (bind (cleanup_partial_init env) (λ u. raise e) (cleanup-Costing env) (λ u. same) d)
            (same d))

  set_up-Costing : (s : Socket) → Costing 5 (set_up env a s)
  unfolding set_up
  set_up-Costing s c =
      bind {n = 5} {k = 0}
        (lift (validate_subprotocol env c.config.websocket.subprotocols s.subprotocol)
          >> cleaning env a is_init_error (initialize_rpc_layer a s)
          >> cleaning env a is_exception (start_background_tasks env a))
        (λ u c. (suppress is_exception (outcome_of a.callbacks), reset_keepalive env a c))
        (bind {n = 0} {k = 5}
          (lift (validate_subprotocol env c.config.websocket.subprotocols s.subprotocol)
            >> cleaning env a is_init_error (initialize_rpc_layer a s))
          (λ u. cleaning env a is_exception (start_background_tasks env a))
          (bind (lift (validate_subprotocol env c.config.websocket.subprotocols s.subprotocol))
            (λ u. cleaning env a is_init_error (initialize_rpc_layer a s))
            (lift-Costing (validate_subprotocol env c.config.websocket.subprotocols s.subprotocol))
            (λ u.
              cleaning-Costing is_init_error (initialize_rpc_layer a s) (initialize-Costing a s)))
          (λ u. cleaning-Costing is_exception (start_background_tasks env a) background-Costing))
        (λ u d. ground (arith, same d)) c

  -- `__connect__` sends at most five pings, and counts as one connection.
  pub connect-Costs :
      (c : Client) → Costs 5 (record c { connects = suc c.connects }) (connect env a c).1
  unfolding connect
  connect-Costs c =
      bind {n = 0} {k = 5} (lift (establish_websocket a.connect (prepare_connection_kwargs c)))
        (set_up env a) (lift-Costing (establish_websocket a.connect (prepare_connection_kwargs c)))
        set_up-Costing (record c { connects = suc c.connects })
