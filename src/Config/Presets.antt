-- ===== src/Config/Presets.antt =====
-- `production_defaults` and `development_defaults` of fastapi_ws_rpc/config.py, with the defaults of the
-- fields that they leave out.
use fastapi_ws_rpc.Base.{true, false, none, some, [], ◌∷◌}
use fastapi_ws_rpc.Base.Int.{pos}
use fastapi_ws_rpc.Config.{
  WebSocketConnectionConfig, RpcConnectionConfig, RpcRetryConfig, WebSocketRpcClientConfig,
}

abbrev pub default_websocket : WebSocketConnectionConfig
default_websocket = record {
  subprotocols = some ("jsonrpc2.0" ∷ []);
  compression = some "deflate";
  compression_threshold = pos 1024;
  ping_timeout = none;
}

abbrev pub default_connection : RpcConnectionConfig
default_connection = record {
  default_response_timeout = none;
  max_connection_duration = none;
  idle_timeout = none;
  message_receive_timeout = none;
  auto_reconnect = false;
  reconnect_delay = pos 5000;
  max_reconnect_attempts = pos 10;
  debug = record { debug_mode = false };
  websocket = default_websocket;
}

abbrev pub production_retry : RpcRetryConfig
production_retry = record {
  enabled = true;
  max_attempts = pos 5;
  min_wait = pos 100;
  max_wait = pos 30_000;
  jitter = true;
}

abbrev pub production_defaults : WebSocketRpcClientConfig
production_defaults = record {
  connection = record default_connection {
    default_response_timeout = some (pos 30_000);
    max_connection_duration = some (pos 3_600_000);
    idle_timeout = some (pos 300_000);
    websocket = record default_websocket { ping_timeout = some (pos 60_000) };
  };
  backpressure = record {
    max_pending_requests = pos 500;
    max_message_size = pos 10_485_760;
    max_send_queue_size = pos 1000;
  };
  keepalive = record {
    interval = pos 30_000;
    max_consecutive_failures = pos 3;
    use_protocol_ping = true;
  };
  retry = production_retry;
  websocket = default_websocket;
  websocket_kwargs = [];
}

abbrev pub development_defaults : WebSocketRpcClientConfig
development_defaults = record {
  connection = default_connection;
  backpressure = record {
    max_pending_requests = pos 1000;
    max_message_size = pos 10_485_760;
    max_send_queue_size = pos 1000;
  };
  keepalive = record {
    interval = pos 0;
    max_consecutive_failures = pos 3;
    use_protocol_ping = true;
  };
  retry = production_retry;
  websocket = default_websocket;
  websocket_kwargs = [];
}
