-- ===== src/Config/Validity.antt =====
-- Which configurations can be built and pass their validation.
use fastapi_ws_rpc.Base.{
  String, ◌≡◌, refl, Bool, false, ◌↔◌, Option, none, some, List, ◌∷◌, arith, ◌==◌, eq_iff, not,
}
use fastapi_ws_rpc.Base.Int.{ℤ, pos, ◌≤ℤ◌, ◌<ℤ◌}
use fastapi_ws_rpc.Values.{Outcome, ok, raised}
use fastapi_ws_rpc.Config.{
  check, then_check, is_some_and, is_negative, is_not_positive, outlasts, WebSocketConnectionConfig,
  validate_websocket, RpcConnectionConfig, post_init_connection, validate_connection,
  RpcBackpressureConfig, post_init_backpressure, RpcKeepaliveConfig, post_init_keepalive,
  RpcRetryConfig, post_init_retry, WebSocketRpcClientConfig, construct, validate,
}

-- A value that is given satisfies the predicate.
abbrev pub IfGiven : Option ℤ → (ℤ → Type 0) → Type 0
IfGiven none P = Unit
IfGiven (some v) P = P v

abbrev pub IfBoth : Option ℤ → Option ℤ → (ℤ → ℤ → Type 0) → Type 0
IfBoth (some a) (some b) P = P a b
IfBoth _ _ P = Unit

-- Only the method `deflate` is known.
abbrev pub KnownCompression : Option String → Type 0
KnownCompression none = Unit
KnownCompression (some s) = s ≡ "deflate"

pub record IsWebSocketValid (c : WebSocketConnectionConfig) : Type 0 where
  pub compression : KnownCompression c.compression
  pub threshold : pos 0 ≤ℤ c.compression_threshold
  pub ping_timeout : IfGiven c.ping_timeout (λ t. pos 0 ≤ℤ t)

pub record IsConnectionValid (c : RpcConnectionConfig) : Type 0 where
  pub response_timeout : IfGiven c.default_response_timeout (λ t. pos 0 ≤ℤ t)
  pub duration : IfGiven c.max_connection_duration (λ t. pos 0 <ℤ t)
  pub idle : IfGiven c.idle_timeout (λ t. pos 0 <ℤ t)
  pub in_time : IfBoth c.default_response_timeout c.max_connection_duration (λ t d. t <ℤ d)
  pub delay : pos 0 ≤ℤ c.reconnect_delay
  pub attempts : pos 1 ≤ℤ c.max_reconnect_attempts

pub record IsBackpressureValid (c : RpcBackpressureConfig) : Type 0 where
  pub pending : pos 0 <ℤ c.max_pending_requests
  pub message_size : pos 0 <ℤ c.max_message_size
  pub send_queue : pos 0 ≤ℤ c.max_send_queue_size

pub record IsKeepaliveValid (c : RpcKeepaliveConfig) : Type 0 where
  pub interval : pos 0 ≤ℤ c.interval
  pub failures : pos 0 <ℤ c.interval → pos 1 ≤ℤ c.max_consecutive_failures

pub record IsRetryValid (c : RpcRetryConfig) : Type 0 where
  pub attempts : pos 0 <ℤ c.max_attempts
  pub min_wait : pos 0 ≤ℤ c.min_wait
  pub max_wait : c.min_wait ≤ℤ c.max_wait

-- Each test of an optional field fails exactly if its condition holds.
abbrev bad_compression : Option String → Bool
bad_compression o = elim o [ none ↦ false | some s ↦ not (s == "deflate") ]

compression_iff : (o : Option String) → (bad_compression o ≡ false) ↔ KnownCompression o
compression_iff none = (λ h. tt, λ h. refl)
compression_iff (some s) = (ground (arith, eq_iff s "deflate"), ground (arith, eq_iff s "deflate"))

nonneg_iff : (o : Option ℤ) → (is_some_and o is_negative ≡ false) ↔ IfGiven o (λ t. pos 0 ≤ℤ t)
nonneg_iff none = (λ h. tt, λ h. refl)
nonneg_iff (some t) = (ground arith, ground arith)

positive_iff :
    (o : Option ℤ) → (is_some_and o is_not_positive ≡ false) ↔ IfGiven o (λ t. pos 0 <ℤ t)
positive_iff none = (λ h. tt, λ h. refl)
positive_iff (some t) = (ground arith, ground arith)

outlasts_iff : (o o' : Option ℤ) → (outlasts o o' ≡ false) ↔ IfBoth o o' (λ t d. t <ℤ d)
outlasts_iff none none = (λ h. tt, λ h. refl)
outlasts_iff none (some d) = (λ h. tt, λ h. refl)
outlasts_iff (some t) none = (λ h. tt, λ h. refl)
outlasts_iff (some t) (some d) = (ground arith, ground arith)

-- A validation succeeds exactly if its first test fails and the rest succeeds.
check_iff :
    (b : Bool) (text : String) (tests : List (Bool × String))
    → (check ((b, text) ∷ tests) ≡ ok tt) ↔ ((b ≡ false) × (check tests ≡ ok tt))
check_iff b text tests = (ground arith, ground arith)

then_check_iff :
    (r r' : Outcome (Unit {0})) → (then_check r r' ≡ ok tt) ↔ ((r ≡ ok tt) × (r' ≡ ok tt))
then_check_iff (ok u) r' = (λ h. (refl, h), λ h. h.1)
then_check_iff (raised e) r' = (λ h. cc, λ h. cc)

websocket_iff :
    (c : WebSocketConnectionConfig) → (validate_websocket c ≡ ok tt) ↔ IsWebSocketValid c
unfolding validate_websocket
websocket_iff c =
    let a = compression_iff c.compression in
    let b = nonneg_iff c.ping_timeout in
    (
      λ h. record {
        compression = ground (arith, h, a);
        threshold = ground (arith, h);
        ping_timeout = ground (arith, h, b);
      },
      λ v. ground (arith, v.compression, v.threshold, v.ping_timeout, a, b),
    )

connection_iff : (c : RpcConnectionConfig) → (post_init_connection c ≡ ok tt) ↔ IsConnectionValid c
unfolding post_init_connection
connection_iff c =
    let t = nonneg_iff c.default_response_timeout in
    let d = positive_iff c.max_connection_duration in
    let i = positive_iff c.idle_timeout in
    let o = outlasts_iff c.default_response_timeout c.max_connection_duration in
    (
      λ h. record {
        response_timeout = ground (arith, h, t);
        duration = ground (arith, h, d);
        idle = ground (arith, h, i);
        in_time = ground (arith, h, o);
        delay = ground (arith, h);
        attempts = ground (arith, h);
      },
      λ v. ground (
        arith, v.response_timeout, v.duration, v.idle, v.in_time, v.delay, v.attempts, t, d, i, o,
      ),
    )

backpressure_iff :
    (c : RpcBackpressureConfig) → (post_init_backpressure c ≡ ok tt) ↔ IsBackpressureValid c
unfolding post_init_backpressure
backpressure_iff c = (
  λ h. record {
    pending = ground (arith, h);
    message_size = ground (arith, h);
    send_queue = ground (arith, h);
  },
  λ v. ground (arith, v.pending, v.message_size, v.send_queue),
)

keepalive_iff : (c : RpcKeepaliveConfig) → (post_init_keepalive c ≡ ok tt) ↔ IsKeepaliveValid c
unfolding post_init_keepalive
keepalive_iff c = (
  λ h. record { interval = ground (arith, h); failures = ground (arith, h) },
  λ v. ground (arith, v.interval, v.failures),
)

retry_iff : (c : RpcRetryConfig) → (post_init_retry c ≡ ok tt) ↔ IsRetryValid c
unfolding post_init_retry
retry_iff c = (
  λ h. record {
    attempts = ground (arith, h);
    min_wait = ground (arith, h);
    max_wait = ground (arith, h);
  },
  λ v. ground (arith, v.attempts, v.min_wait, v.max_wait),
)

-- All conditions on the parts that are checked when they are built.
pub record IsConstructible (c : WebSocketRpcClientConfig) : Type 0 where
  pub connection : IsConnectionValid c.connection
  pub backpressure : IsBackpressureValid c.backpressure
  pub keepalive : IsKeepaliveValid c.keepalive
  pub retry : IsRetryValid c.retry

-- A client configuration can be built exactly if every part meets its stated conditions.
construct-ok_iff : (c : WebSocketRpcClientConfig) → (construct c ≡ ok tt) ↔ IsConstructible c
unfolding construct
construct-ok_iff c =
    let a = connection_iff c.connection in
    let b = backpressure_iff c.backpressure in
    let k = keepalive_iff c.keepalive in
    let r = retry_iff c.retry in
    let last = then_check_iff (post_init_keepalive c.keepalive) (post_init_retry c.retry) in
    let middle =
      then_check_iff (post_init_backpressure c.backpressure)
        (then_check (post_init_keepalive c.keepalive) (post_init_retry c.retry)) in
    let first = then_check_iff (post_init_connection c.connection) _ in
    (
      λ h.
          let (x, rest) = first.0 h in
          let (y, rest') = middle.0 rest in
          let (z, w) = last.0 rest' in
          record { connection = a.0 x; backpressure = b.0 y; keepalive = k.0 z; retry = r.0 w },
      λ v.
          first.1 (
            a.1 v.connection,
            middle.1 (b.1 v.backpressure, last.1 (k.1 v.keepalive, r.1 v.retry)),
          ),
    )

-- The method validate succeeds exactly if both WebSocket parts are valid.
validate-ok_iff :
    (c : WebSocketRpcClientConfig)
    → (validate c ≡ ok tt)
      ↔ (IsWebSocketValid c.connection.websocket × IsWebSocketValid c.websocket)
unfolding validate validate_connection
validate-ok_iff c =
    let first =
      then_check_iff (validate_websocket c.connection.websocket) (validate_websocket c.websocket) in
    let a = websocket_iff c.connection.websocket in
    let b = websocket_iff c.websocket in
    (λ h. let (x, y) = first.0 h in (a.0 x, b.0 y), λ v. first.1 (a.1 v.0, b.1 v.1))
