-- ===== src/Config.antt =====
-- fastapi_ws_rpc/config.py: the configuration records, what their `__post_init__` and `validate`
-- refuse. Durations are whole milliseconds. A record is built by its
-- constructor, and `post_init` says whether the source's constructor returns or raises.
pub mod Presets
pub mod Validity
mod Examples
use fastapi_ws_rpc.Base.{
  ℕ, String, Bool, true, false, not, ◌&&◌, ◌||◌, Option, none, some, List, [], ◌∷◌, ◌==◌, is_some,
  if◌then◌else◌,
}
use fastapi_ws_rpc.Base.Int.{ℤ, pos, negsuc, ltb_ℤ, leb_ℤ}
use fastapi_ws_rpc.Base.Dict.{Dict}
use fastapi_ws_rpc.Values.{Json, Outcome, ok, raised, exn, value_error}

-- The tests of a validation in their order: the first that holds raises `ValueError`.
abbrev pub check : List (Bool × String) → Outcome (Unit {0})
check [] = ok tt
check ((bad, text) ∷ tests) = if bad then raised (exn value_error text) else check tests

abbrev pub then_check : Outcome (Unit {0}) → Outcome (Unit {0}) → Outcome (Unit {0})
then_check (ok u) r = r
then_check (raised e) r = raised e

-- `value is not None and test(value)`
abbrev pub is_some_and : Option ℤ → (ℤ → Bool) → Bool
is_some_and none test = false
is_some_and (some v) test = test v

abbrev pub is_negative : ℤ → Bool
is_negative v = ltb_ℤ v (pos 0)

-- `value <= 0`
abbrev pub is_not_positive : ℤ → Bool
is_not_positive v = leb_ℤ v (pos 0)

pub record RpcDebugConfig : Type 0 where
  pub debug_mode : Bool

pub record WebSocketConnectionConfig : Type 0 where
  pub subprotocols : Option (List String)
  pub compression : Option String
  pub compression_threshold : ℤ
  pub ping_timeout : Option ℤ

-- This class has no `__post_init__`: only `validate` looks at the values.
unfoldable pub validate_websocket : WebSocketConnectionConfig → Outcome (Unit {0})
validate_websocket c = check (
    (
      elim c.compression [ none ↦ false | some s ↦ not (s == "deflate") ],
      "Invalid compression method",
    )
    ∷ (is_negative c.compression_threshold, "compression_threshold must be non-negative")
    ∷ (is_some_and c.ping_timeout is_negative, "ping_timeout must be non-negative")
    ∷ [])

pub record RpcConnectionConfig : Type 0 where
  pub default_response_timeout : Option ℤ
  pub max_connection_duration : Option ℤ
  pub idle_timeout : Option ℤ
  pub message_receive_timeout : Option ℤ
  pub auto_reconnect : Bool
  pub reconnect_delay : ℤ
  pub max_reconnect_attempts : ℤ
  pub debug : RpcDebugConfig
  pub websocket : WebSocketConnectionConfig

-- Both are given, and the response timeout is at least the duration.
abbrev pub outlasts : Option ℤ → Option ℤ → Bool
outlasts none duration = false
outlasts (some t) none = false
outlasts (some t) (some d) = leb_ℤ d t

unfoldable pub post_init_connection : RpcConnectionConfig → Outcome (Unit {0})
post_init_connection c = check (
    (
      is_some_and c.default_response_timeout is_negative,
      "default_response_timeout must be non-negative",
    )
    ∷ (
      is_some_and c.max_connection_duration is_not_positive,
      "max_connection_duration must be positive",
    )
    ∷ (is_some_and c.idle_timeout is_not_positive, "idle_timeout must be positive")
    ∷ (
      outlasts c.default_response_timeout c.max_connection_duration,
      "default_response_timeout must be less than max_connection_duration",
    )
    ∷ (is_negative c.reconnect_delay, "reconnect_delay must be non-negative")
    ∷ (ltb_ℤ c.max_reconnect_attempts (pos 1), "max_reconnect_attempts must be at least 1")
    ∷ [])

-- `RpcDebugConfig.validate` does nothing.
unfoldable pub validate_connection : RpcConnectionConfig → Outcome (Unit {0})
unfolding validate_websocket
validate_connection c = validate_websocket c.websocket

pub record RpcBackpressureConfig : Type 0 where
  pub max_pending_requests : ℤ
  pub max_message_size : ℤ
  pub max_send_queue_size : ℤ

unfoldable pub post_init_backpressure : RpcBackpressureConfig → Outcome (Unit {0})
post_init_backpressure c = check (
    (is_not_positive c.max_pending_requests, "max_pending_requests must be positive")
    ∷ (is_not_positive c.max_message_size, "max_message_size must be positive")
    ∷ (is_negative c.max_send_queue_size, "max_send_queue_size must be non-negative")
    ∷ [])

pub record RpcKeepaliveConfig : Type 0 where
  pub interval : ℤ
  pub max_consecutive_failures : ℤ
  pub use_protocol_ping : Bool

-- `enabled`
unfoldable pub keepalive_enabled : RpcKeepaliveConfig → Bool
keepalive_enabled c = ltb_ℤ (pos 0) c.interval

unfoldable pub post_init_keepalive : RpcKeepaliveConfig → Outcome (Unit {0})
unfolding keepalive_enabled
post_init_keepalive c = check (
    (is_negative c.interval, "interval must be non-negative")
    ∷ (
      keepalive_enabled c && ltb_ℤ c.max_consecutive_failures (pos 1),
      "max_consecutive_failures must be at least 1 when keepalive is enabled",
    )
    ∷ [])

pub record RpcRetryConfig : Type 0 where
  pub enabled : Bool
  pub max_attempts : ℤ
  pub min_wait : ℤ
  pub max_wait : ℤ
  pub jitter : Bool

unfoldable pub post_init_retry : RpcRetryConfig → Outcome (Unit {0})
post_init_retry c = check (
    (is_not_positive c.max_attempts, "max_attempts must be positive")
    ∷ (is_negative c.min_wait, "min_wait must be non-negative")
    ∷ (is_negative c.max_wait, "max_wait must be non-negative")
    ∷ (ltb_ℤ c.max_wait c.min_wait, "max_wait must be >= min_wait")
    ∷ [])

pub record WebSocketRpcClientConfig : Type 0 where
  pub connection : RpcConnectionConfig
  pub backpressure : RpcBackpressureConfig
  pub keepalive : RpcKeepaliveConfig
  pub retry : RpcRetryConfig
  pub websocket : WebSocketConnectionConfig
  pub websocket_kwargs : Dict Json

-- The constructors of the parts, in the order of the fields.
unfoldable pub construct : WebSocketRpcClientConfig → Outcome (Unit {0})
unfolding post_init_connection post_init_backpressure post_init_keepalive post_init_retry
construct c = then_check (post_init_connection c.connection) (
    then_check (post_init_backpressure c.backpressure)
      (then_check (post_init_keepalive c.keepalive) (post_init_retry c.retry)))

-- `WebSocketRpcClientConfig.validate`; the `validate` of the other parts does nothing.
unfoldable pub validate : WebSocketRpcClientConfig → Outcome (Unit {0})
unfolding validate_connection validate_websocket
validate c = then_check (validate_connection c.connection) (validate_websocket c.websocket)
