-- ===== src/Client/Shutting.antt =====
-- How `WebSocketRpcClient` of fastapi_ws_rpc/websocket_rpc_client.py closes: `close` with its parts,
-- `cancel_tasks` and `_cleanup_partial_init`.
use fastapi_ws_rpc.Base.{Bool, true, false, Option, none, some, if◌then◌else◌}
use fastapi_ws_rpc.Values.{
  ExnClass, is_exception, Outcome, ok, raised, value_error, validation_error, type_error,
  runtime_error, attribute_error, connection_closed, web_socket_exception, invalid_status,
}
use fastapi_ws_rpc.Exec.{Exec, lift, ◌>>◌}
use fastapi_ws_rpc.Channel
use fastapi_ws_rpc.Channel.{Channel, is_closed, on_disconnect}
use fastapi_ws_rpc.Keepalive
use fastapi_ws_rpc.Keepalive.{RpcKeepalive}
use fastapi_ws_rpc.Client.{
  Socket, Reader, no_reader, created, reading, finished, failed, Client, Env, outcome_of,
  end_socket,
}

-- The classes that `close` suppresses around `ws.close()`. `ConnectionClosed` and `InvalidStatus`
-- are `WebSocketException`s.
abbrev pub is_suppressed : ExnClass → Bool
is_suppressed runtime_error = true
is_suppressed connection_closed = true
is_suppressed web_socket_exception = true
is_suppressed invalid_status = true
is_suppressed _ = false

-- Those that it logs around the end of the channel; a `ValidationError` is a `ValueError`.
abbrev pub is_logged : ExnClass → Bool
is_logged runtime_error = true
is_logged value_error = true
is_logged validation_error = true
is_logged type_error = true
is_logged attribute_error = true
is_logged _ = false

-- `with suppress(…)`, where the test says which classes it names.
abbrev pub suppress : (ExnClass → Bool) → Outcome (Unit {0}) → Outcome (Unit {0})
suppress test (ok u) = ok u
suppress test (raised e) = if test e.cls then ok tt else raised e

-- `cancel_reader_task`. A reader that reads catches its cancellation and signals the end; one that
-- failed raises its exception again where it is awaited, and stays.
unfoldable pub cancel_reader : Reader → Exec Client Unit
cancel_reader no_reader c = (ok tt, c)
cancel_reader created c = (ok tt, record c { reader = no_reader })
cancel_reader reading c = (ok tt, record c { reader = no_reader; connection_closed = true })
cancel_reader finished c = (ok tt, record c { reader = no_reader })
cancel_reader (failed e) c = (raised e, c)

-- The end of `stop`, on the client's keepalive.
abbrev pub stopped : Client → Outcome (Unit {0}) × RpcKeepalive → Outcome (Unit {0}) × Client
stopped c (r, k) = (r, record c { keepalive = some k })

abbrev pub stop_keepalive : Exec Client Unit
stop_keepalive c = elim c.keepalive [ none ↦ (ok tt, c) | some k ↦ stopped c (Keepalive.stop k) ]

unfoldable pub cancel_tasks : Exec Client Unit
unfolding Keepalive.stop cancel_reader
cancel_tasks = stop_keepalive >> (λ (c : Client). cancel_reader c.reader c)

module _ (env : Env) where
  -- `on_disconnect` and `close` of the channel, with what calling the callbacks raises.
  abbrev pub end_channel : Channel → Outcome (Unit {0}) × Channel
  end_channel ch =
      let left = on_disconnect ch in
      elim env.callbacks [ none ↦ (ok tt, Channel.close left) | some e ↦ (raised e, left) ]

  -- The channel's part of `close`.
  unfoldable pub close_channel : Exec Client Unit
  unfolding on_disconnect Channel.close
  close_channel c = elim c.channel [
    | none ↦ (ok tt, c)
    | some ch ↦
        if is_closed ch
        then (ok tt, c)
        else (suppress is_logged (end_channel ch).0, record c { channel = some (end_channel ch).1 })
  ]

  -- What closing the socket raises, but for the classes that are suppressed.
  abbrev pub close_socket : (ExnClass → Bool) → Option Socket → Outcome (Unit {0})
  close_socket test none = ok tt
  close_socket test (some s) = suppress test (outcome_of env.ws_close)

  -- The first part of `close`, up to the request that closes the socket.
  unfoldable pub begin_close : Client → Client
  begin_close c = end_socket (record c { closing = true; connection_closed = true })

  -- The rest, once that request has ended.
  unfoldable pub finish_close : Exec Client Unit
  unfolding close_channel cancel_tasks
  finish_close c = (lift (close_socket is_suppressed c.ws) >> close_channel >> cancel_tasks) c

  -- `close`, where no other task runs during its awaits.
  unfoldable pub close : Exec Client Unit
  unfolding begin_close finish_close
  close c = if c.closing then (ok tt, c) else finish_close (begin_close c)

  abbrev pub shut_channel : Exec Client Unit
  shut_channel c = (
    ok tt,
    record c { channel = elim c.channel [ none ↦ none | some ch ↦ some (Channel.close ch) ] },
  )

  -- `_cleanup_partial_init`. Where closing the channel closes the socket again, the outcome is the
  -- same.
  unfoldable pub cleanup_partial_init : Exec Client Unit
  unfolding Channel.close cancel_tasks
  cleanup_partial_init c =
      (lift (close_socket is_exception c.ws) >> shut_channel >> cancel_tasks) (end_socket c)
