-- ===== src/Client/Connecting.antt =====
-- `__connect__` of fastapi_ws_rpc/websocket_rpc_client.py and its steps. What the outside does while
-- it runs is given; no other task of the client runs meanwhile, but for the start of the reader.
use fastapi_ws_rpc.Base.{
  ℕ, zero, suc, Bool, true, false, ◌&&◌, Option, none, some, List, [], ◌∷◌, ◌++◌, is_some,
  if◌then◌else◌,
}
use fastapi_ws_rpc.Base.Int.{pos_part}
use fastapi_ws_rpc.Base.Dict.{Dict}
use fastapi_ws_rpc.Values.{
  Json, ExnClass, is_exception, Exn, Outcome, ok, raised, value_error, validation_error, type_error,
  connection_error, os_error, timeout_error, rpc_channel_closed, rpc_backpressure,
  rpc_invalid_state,
}
use fastapi_ws_rpc.Schemas.{JsonRpcResponse}
use fastapi_ws_rpc.Exec.{Exec, pure, raise, lift, ◌>>=◌, ◌>>◌, try}
use fastapi_ws_rpc.Config.{RpcKeepaliveConfig, keepalive_enabled}
use fastapi_ws_rpc.Channel
use fastapi_ws_rpc.Channel.{Channel}
use fastapi_ws_rpc.Keepalive
use fastapi_ws_rpc.Keepalive.{RpcKeepalive, init_checks, reset_failures, start}
use fastapi_ws_rpc.Client.{
  Socket, Reader, created, reading, failed, Client, Env, outcome_of, validate_connected,
}
use fastapi_ws_rpc.Client.Shutting.{suppress, cleanup_partial_init}
use fastapi_ws_rpc.Client.Negotiating.{
  establish_websocket, prepare_connection_kwargs, validate_subprotocol,
}
use fastapi_ws_rpc.Client.Text.{names_max_message_size}

-- What the outside does during one connection: `websockets.connect` on its arguments, the
-- constructor of the wrapper with and without a size limit, that of the channel, the end of each ping
-- with its timeout, while nothing closes the channel, and what calling the connect callbacks raises.
pub record Attempt : Type 0 where
  pub connect : Dict Json → Outcome Socket
  pub wrap : Bool → Option Exn
  pub make_channel : Option Exn
  pub answers : ℕ → Outcome JsonRpcResponse
  pub callbacks : Option Exn

abbrev pub is_type_error : ExnClass → Bool
is_type_error type_error = true
is_type_error _ = false

-- The construction of the wrapper, again without the limit if the class does not take it.
unfoldable pub wrap_socket : (Bool → Option Exn) → Outcome (Unit {0})
wrap_socket wrap = elim (wrap true) [
  | none ↦ ok tt
  | some e ↦
      if is_type_error e.cls && names_max_message_size e then outcome_of (wrap false) else raised e
]

abbrev pub as_list {ℓ} : {A : Type ℓ} → Option A → List A
as_list none = []
as_list (some a) = a ∷ []

-- What a complete `_initialize_rpc_layer` sets: the socket and a new channel.
unfoldable pub set_channel : Socket → Client → Client
unfolding Channel.init
set_channel s c = record c {
  ws = some s;
  channel = some (
      Channel.init true (is_some c.config.connection.max_connection_duration)
        (some (pos_part c.config.backpressure.max_pending_requests)) none);
  dropped = c.dropped ++ as_list c.channel;
}

unfoldable pub initialize_rpc_layer : Attempt → Socket → Exec Client Unit
unfolding wrap_socket set_channel
initialize_rpc_layer a s c = elim (wrap_socket a.wrap) [
  | raised e ↦ (raised e, c)
  | ok u ↦ elim a.make_channel [
    | none ↦ (ok tt, set_channel s c)
    | some e ↦ (raised e, record c { ws = some s })
  ]
]

-- The keepalive that `_start_background_tasks` creates and starts.
unfoldable pub start_keepalive : RpcKeepaliveConfig → Exec Client Unit
unfolding keepalive_enabled init_checks start
start_keepalive k c =
    if keepalive_enabled k
    then (
      init_checks k.interval k.max_consecutive_failures k.use_protocol_ping true,
      elim (init_checks k.interval k.max_consecutive_failures k.use_protocol_ping true) [
        | ok u ↦ record c {
          keepalive = some (
              start (Keepalive.new k.interval k.max_consecutive_failures k.use_protocol_ping true));
          strays = c.strays ++ as_list c.keepalive;
        }
        | raised e ↦ c
      ],
    )
    else (ok tt, c)

-- The errors that the check of readiness counts.
abbrev pub is_not_ready : ExnClass → Bool
is_not_ready timeout_error = true
is_not_ready rpc_channel_closed = true
is_not_ready rpc_backpressure = true
is_not_ready rpc_invalid_state = true
is_not_ready connection_error = true
is_not_ready os_error = true
is_not_ready _ = false

abbrev pub max_attempts : ℕ
max_attempts = 5

abbrev pub is_init_error : ExnClass → Bool
is_init_error validation_error = true
is_init_error value_error = true
is_init_error type_error = true
is_init_error _ = false

module _ (env : Env) (a : Attempt) where
  -- What a new reader does before its loop.
  unfoldable pub start_reader : Reader → Client → Client
  unfolding validate_connected
  start_reader created c = elim (validate_connected env c) [
    | ok u ↦ record c { reader = reading }
    | raised e ↦ record c { reader = failed e }
  ]
  start_reader _ c = c

  abbrev pub begin_ping : Exec Client Unit
  begin_ping c = (ok tt, start_reader c.reader (record c { pings = suc c.pings }))

  -- `ping`, the attempt given, and the start of the reader while it waits.
  unfoldable pub ping : ℕ → Exec Client JsonRpcResponse
  unfolding validate_connected start_reader
  ping attempt =
      begin_ping >> (λ (c : Client). (validate_connected env c, c)) >> lift (a.answers attempt)

  -- The loop of `wait_on_rpc_ready`, with the number of attempts that are left.
  unfoldable pub wait_loop : ℕ → ℕ → Exec Client Unit
  unfolding ping
  wait_loop zero attempt = pure tt
  wait_loop (suc left) attempt =
      let rest = wait_loop left (suc attempt) in
      try (ping attempt >> pure tt) (λ e c. if is_not_ready e.cls then rest c else (raised e, c))

  unfoldable pub wait_on_rpc_ready : Exec Client Unit
  unfolding wait_loop
  wait_on_rpc_ready = wait_loop max_attempts 0

  unfoldable pub start_background_tasks : Exec Client Unit
  unfolding start_keepalive wait_on_rpc_ready
  start_background_tasks c =
      (start_keepalive c.config.keepalive >> wait_on_rpc_ready) (record c { reader = created })

  -- `except … as e: await self._cleanup_partial_init(); raise`
  abbrev pub cleaning : (ExnClass → Bool) → Exec Client Unit → Exec Client Unit
  cleaning test m =
      try m (λ e c. if test e.cls then (cleanup_partial_init env >> raise e) c else (raised e, c))

  abbrev pub reset_keepalive : Client → Client
  reset_keepalive c = elim c.keepalive [
    | none ↦ c
    | some k ↦ record c { keepalive = some (reset_failures k) }
  ]

  -- The steps of `__connect__` on the socket.
  unfoldable pub set_up : Socket → Exec Client Unit
  unfolding validate_subprotocol initialize_rpc_layer cleanup_partial_init start_background_tasks
      reset_failures
  set_up s c =
      (lift (validate_subprotocol env c.config.websocket.subprotocols s.subprotocol)
          >> cleaning is_init_error (initialize_rpc_layer a s)
          >> cleaning is_exception start_background_tasks
          >> (λ c. (suppress is_exception (outcome_of a.callbacks), reset_keepalive c)))
        c

  -- `__connect__`: its outer handlers only log.
  unfoldable pub connect : Exec Client Unit
  unfolding prepare_connection_kwargs establish_websocket set_up
  connect c =
      (lift (establish_websocket a.connect (prepare_connection_kwargs c)) >>= set_up)
        (record c { connects = suc c.connects })
