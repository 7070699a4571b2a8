-- ===== src/Client/Reopening.antt =====
-- Reconnecting where the first attempt succeeds, and what becomes of a client that was closed.
use fastapi_ws_rpc.Base.{
  ℕ, zero, suc, ◌+◌, ◌<◌, ◌≡◌, ap, ◌∙◌, ◌++◌, true, false, Option, none, some, [], ◌∷◌, arith,
}
use fastapi_ws_rpc.Base.Int.{pos_part}
use fastapi_ws_rpc.Values.{Exn, ok, connection_closed}
use fastapi_ws_rpc.Config.{WebSocketRpcClientConfig}
use fastapi_ws_rpc.ProtocolHandler.{Handler}
use fastapi_ws_rpc.Channel.{Channel}
use fastapi_ws_rpc.Client.{Socket, Client, Env, reading, reconnect_job, is_connected}
use fastapi_ws_rpc.Client.Shutting.{begin_close, finish_close}
use fastapi_ws_rpc.Client.Connecting.{Attempt, connect, as_list}
use fastapi_ws_rpc.Client.Negotiating.{prepare_connection_kwargs}
use fastapi_ws_rpc.Client.Connected.{Accepts, connect-IsConnected}
use fastapi_ws_rpc.Client.Costs.{finish_close-Costing}
use fastapi_ws_rpc.Client.Reading.{
  ws_close_code_normal, Close, refused, is_non_retryable, job_after, connection_lost, on_exception,
  after_recv, reader_round,
}
use fastapi_ws_rpc.Client.Backoff.{duration, attempt_loop-suc}
use fastapi_ws_rpc.Client.Reconnecting.{
  reset, connected, after_attempt, attempt_loop, close_unless_connected, attempt_reconnection,
}

-- What a connection meets depends on the configuration alone.
moved-Accepts :
    {env : Env} {a : Attempt} {s : Socket} (c d : Client)
    → d.config ≡ c.config
    → d.connect_kwargs ≡ c.connect_kwargs
    → Accepts env a s c
    → Accepts env a s d
unfolding prepare_connection_kwargs
moved-Accepts c d config kwargs h = record {
  opens = record {
    established = cc (config, kwargs, h.opens.established);
    negotiated = cc (config, h.opens.negotiated);
    wrapped = h.opens.wrapped;
    constructed = h.opens.constructed;
    live = h.opens.live;
    keepalive = cc (config, h.opens.keepalive);
  };
  answer = h.answer;
  answered = h.answered;
  callbacks = h.callbacks;
}

-- The flag and the counters play no part in what a connection meets.
later-Accepts :
    {env : Env} {a : Attempt} {s : Socket} {c : Client} (n : ℕ)
    → Accepts env a s c
    → Accepts env a s (record c { is_reconnecting = true; slept = n })
unfolding prepare_connection_kwargs
later-Accepts n h = record {
  opens = record {
    established = h.opens.established;
    negotiated = h.opens.negotiated;
    wrapped = h.opens.wrapped;
    constructed = h.opens.constructed;
    live = h.opens.live;
    keepalive = h.opens.keepalive;
  };
  answer = h.answer;
  answered = h.answered;
  callbacks = h.callbacks;
}

module _ (env : Env) (attempts : ℕ → Attempt) (uniform : ℕ → ℕ → ℕ) where
  -- The client when the first attempt begins.
  begun : Client → Client
  begun c = record c {
    is_reconnecting = true;
    slept = c.slept + duration (uniform 0) c.config.connection.reconnect_delay 0;
  }

  loop-ok :
      (left : ℕ) (s : Socket) (c : Client)
      → 0 < left
      → Accepts env (attempts 0) s c
      → attempt_loop env attempts uniform left 0 (record c { is_reconnecting = true })
        ≡ (ok connected, reset (connect env (attempts 0) (begun c)).1)
  unfolding after_attempt begun
  loop-ok zero s c some_left accepts = ground arith
  loop-ok (suc left) s c some_left accepts =
      let n = c.slept + duration (uniform 0) c.config.connection.reconnect_delay 0 in
      ground (
        arith,
        attempt_loop-suc env attempts uniform left 0 (record c { is_reconnecting = true })
            (omega arith),
        (connect-IsConnected env (attempts 0) s (record c { is_reconnecting = true; slept = n })
            (later-Accepts n accepts)).0,
      )

  reconnecting-ok :
      (s : Socket) (c : Client)
      → c.is_reconnecting ≡ false
      → 0 < pos_part c.config.connection.max_reconnect_attempts
      → Accepts env (attempts 0) s c
      → attempt_reconnection env attempts uniform c
        ≡ (ok tt, record (reset (connect env (attempts 0) (begun c)).1) { is_reconnecting = false })
  unfolding attempt_reconnection close_unless_connected
  reconnecting-ok s c idle some_left accepts =
      ground
        (arith, loop-ok (pos_part c.config.connection.max_reconnect_attempts) s c some_left accepts)

  -- A reconnection that is not already under way, with an attempt allowed and the first one
  -- accepted outside, connects and resets all flags whether or not the client was closed before;
  -- the old channel is replaced as it is, neither disconnected nor closed.
  pub attempt_reconnection_resets :
      (s : Socket) (c : Client)
      → c.is_reconnecting ≡ false
      → 0 < pos_part c.config.connection.max_reconnect_attempts
      → Accepts env (attempts 0) s c
      → let (r, c') = attempt_reconnection env attempts uniform c in
        (r ≡ ok tt)
        × (is_connected env c' ≡ true)
        × (c'.closing ≡ false)
        × (c'.connection_closed ≡ false)
        × (c'.close_code ≡ none)
        × (c'.reconnect_attempt ≡ 0)
        × (c'.is_reconnecting ≡ false)
        × (c'.dropped ≡ c.dropped ++ as_list c.channel)
  unfolding reset begun is_connected
  attempt_reconnection_resets s c idle some_left accepts =
      let n = c.slept + duration (uniform 0) c.config.connection.reconnect_delay 0 in
      ground (
        arith,
        reconnecting-ok s c idle some_left accepts,
        connect-IsConnected env (attempts 0) s (begun c) (later-Accepts n accepts),
      )

  -- The reader meets the end of the connection while `close` waits for its socket.
  lost-facts :
      (rcvd : Exn → Option Close) (h : Handler Channel) (e : Exn) (c : Client)
      → c.reader ≡ reading
      → c.config.connection.auto_reconnect ≡ true
      → e.cls ≡ connection_closed
      → rcvd e ≡ some (record { code = ws_close_code_normal; reason = "" })
      → let lost = reader_round rcvd h (refused e) (begin_close env c) in
        (lost.config ≡ c.config)
        × (lost.connect_kwargs ≡ c.connect_kwargs)
        × (lost.is_reconnecting ≡ c.is_reconnecting)
        × (lost.closing ≡ true)
        × (lost.scheduled ≡ c.scheduled ++ (reconnect_job ∷ []))
  unfolding begin_close reader_round after_recv on_exception connection_lost job_after
      is_non_retryable
  lost-facts rcvd h e c runs auto gone normal = ground (arith, runs, auto, gone, normal)

  -- If the reader meets the normal end of the connection while close waits for the socket, and the
  -- client reconnects automatically with an attempt allowed and the first one accepted outside,
  -- the task that the reader creates connects the closed client again and takes its closing flag
  -- back.
  pub close_reopened :
      (rcvd : Exn → Option Close) (h : Handler Channel) (e : Exn) (s : Socket) (c : Client)
      → c.reader ≡ reading
      → c.is_reconnecting ≡ false
      → c.config.connection.auto_reconnect ≡ true
      → 0 < pos_part c.config.connection.max_reconnect_attempts
      → e.cls ≡ connection_closed
      → rcvd e ≡ some (record { code = ws_close_code_normal; reason = "" })
      → Accepts env (attempts 0) s c
      → let lost = reader_round rcvd h (refused e) (begin_close env c) in
        let closed = (finish_close env lost).1 in
        let (r, again) = attempt_reconnection env attempts uniform closed in
        (closed.closing ≡ true)
        × (closed.scheduled ≡ c.scheduled ++ (reconnect_job ∷ []))
        × (r ≡ ok tt)
        × (is_connected env again ≡ true)
        × (again.closing ≡ false)
  close_reopened rcvd h e s c runs idle auto some_left gone normal accepts =
      let lost = reader_round rcvd h (refused e) (begin_close env c) in
      let facts = lost-facts rcvd h e c runs auto gone normal in
      let costs = finish_close-Costing env lost in
      let closed = (finish_close env lost).1 in
      let config = costs.config ∙ facts.0 in
      let again =
        attempt_reconnection_resets s closed (costs.is_reconnecting ∙ facts.2 ∙ idle)
          (ground (arith, ap (λ (k : WebSocketRpcClientConfig). k.connection) config, some_left))
          (moved-Accepts c closed config (costs.connect_kwargs ∙ facts.1) accepts) in
      (costs.closing ∙ facts.3, costs.scheduled ∙ facts.4, again.0, again.1, again.2)
