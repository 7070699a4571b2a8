-- ===== src/Config/Examples.antt =====
-- The presets, and a configuration that cannot be built.
use fastapi_ws_rpc.Base.{◌≡◌, refl, some}
use fastapi_ws_rpc.Base.Int.{pos}
use fastapi_ws_rpc.Values.{ok, raised, exn, value_error}
use fastapi_ws_rpc.Config.{
  construct, validate, post_init_connection, post_init_backpressure, post_init_keepalive,
  post_init_retry, keepalive_enabled, validate_connection, validate_websocket,
}
use fastapi_ws_rpc.Config.Presets.{production_defaults, development_defaults, default_connection}

production_is_valid :
    (construct production_defaults ≡ ok tt) × (validate production_defaults ≡ ok tt)
unfolding construct post_init_connection post_init_backpressure post_init_keepalive post_init_retry
    keepalive_enabled validate validate_connection validate_websocket
production_is_valid = (refl, refl)

development_is_valid :
    (construct development_defaults ≡ ok tt) × (validate development_defaults ≡ ok tt)
unfolding construct post_init_connection post_init_backpressure post_init_keepalive post_init_retry
    keepalive_enabled validate validate_connection validate_websocket
development_is_valid = (refl, refl)

-- The response timeout is an hour and so is the duration.
too_long :
    post_init_connection (record default_connection {
      default_response_timeout = some (pos 3_600_000);
      max_connection_duration = some (pos 3_600_000);
    })
    ≡ raised (exn value_error "default_response_timeout must be less than max_connection_duration")
unfolding post_init_connection
too_long = refl
