-- ===== src/Client/Costs.antt =====
-- What the parts of `__connect__` and `close` leave alone, and how many pings they send.
use fastapi_ws_rpc.Base.{ℕ, ◌+◌, ◌≤◌, ◌≡◌, refl, true, is_some, arith}
use fastapi_ws_rpc.Values.{is_exception, Exn, Outcome, ok, raised}
use fastapi_ws_rpc.Exec.{Exec, lift, ◌>>=◌, ◌>>◌, try, continue, handled}
use fastapi_ws_rpc.Config.{RpcKeepaliveConfig}
use fastapi_ws_rpc.Keepalive
use fastapi_ws_rpc.Client.{Socket, Client, Env, end_socket}
use fastapi_ws_rpc.Client.Shutting.{
  cancel_reader, cancel_tasks, close_channel, begin_close, finish_close, close,
  cleanup_partial_init, is_suppressed, close_socket, shut_channel,
}
use fastapi_ws_rpc.Client.Connecting.{Attempt, set_channel, initialize_rpc_layer, start_keepalive}

-- From the first state to the second nothing of the reconnection changes, at most `n` pings are sent,
-- the signal of the end is not taken back, and a channel comes with a socket.
pub record Costs (n : ℕ) (c c' : Client) : Type 0 where
  pub config : c'.config ≡ c.config
  pub connect_kwargs : c'.connect_kwargs ≡ c.connect_kwargs
  pub connects : c'.connects ≡ c.connects
  pub slept : c'.slept ≡ c.slept
  pub pings : c'.pings ≤ c.pings + n
  pub closing : c'.closing ≡ c.closing
  pub is_reconnecting : c'.is_reconnecting ≡ c.is_reconnecting
  pub reconnect_attempt : c'.reconnect_attempt ≡ c.reconnect_attempt
  pub scheduled : c'.scheduled ≡ c.scheduled
  pub signalled : c.connection_closed ≡ true → c'.connection_closed ≡ true
  pub paired :
      (is_some c.channel ≡ true → is_some c.ws ≡ true)
      → is_some c'.channel ≡ true
      → is_some c'.ws ≡ true

abbrev pub Costing : {A : Type 0} → ℕ → Exec Client A → Type 0
Costing n m = (c : Client) → Costs n c (m c).1

pub trans : {n k : ℕ} {c d e : Client} → Costs n c d → Costs k d e → Costs (n + k) c e
trans a b = record {
  config = ground (arith, a.config, b.config);
  connect_kwargs = ground (arith, a.connect_kwargs, b.connect_kwargs);
  connects = ground (arith, a.connects, b.connects);
  slept = ground (arith, a.slept, b.slept);
  pings = omega (arith, a.pings, b.pings);
  closing = ground (arith, a.closing, b.closing);
  is_reconnecting = ground (arith, a.is_reconnecting, b.is_reconnecting);
  reconnect_attempt = ground (arith, a.reconnect_attempt, b.reconnect_attempt);
  scheduled = ground (arith, a.scheduled, b.scheduled);
  signalled = λ h. b.signalled (a.signalled h);
  paired = λ h. b.paired (a.paired h);
}

pub weaken : {n k : ℕ} {c d : Client} → n ≤ k → Costs n c d → Costs k c d
weaken le a = record {
  config = a.config;
  connect_kwargs = a.connect_kwargs;
  connects = a.connects;
  slept = a.slept;
  pings = omega (arith, a.pings);
  closing = a.closing;
  is_reconnecting = a.is_reconnecting;
  reconnect_attempt = a.reconnect_attempt;
  scheduled = a.scheduled;
  signalled = a.signalled;
  paired = a.paired;
}

bind_rest :
    {A B : Type 0} {n k : ℕ} (c : Client) (r : Outcome A × Client) (f : A → Exec Client B)
    → Costs n c r.1
    → ((a : A) → Costing k (f a))
    → Costs (n + k) c (continue f r).1
bind_rest c (ok a, d) f costs next = trans costs (next a d)
bind_rest c (raised e, d) f costs next = weaken (omega arith) costs

pub bind :
    {A B : Type 0} {n k : ℕ} (m : Exec Client A) (f : A → Exec Client B)
    → Costing n m
    → ((a : A) → Costing k (f a))
    → Costing (n + k) (m >>= f)
bind m f costs next c = bind_rest c (m c) f (costs c) next

try_rest :
    {A : Type 0} {n k : ℕ} (c : Client) (r : Outcome A × Client) (h : Exn → Exec Client A)
    → Costs n c r.1
    → ((e : Exn) → Costing k (h e))
    → Costs (n + k) c (handled h r).1
try_rest c (ok a, d) h costs next = weaken (omega arith) costs
try_rest c (raised e, d) h costs next = trans costs (next e d)

pub try-Costing :
    {A : Type 0} {n k : ℕ} (m : Exec Client A) (h : Exn → Exec Client A)
    → Costing n m
    → ((e : Exn) → Costing k (h e))
    → Costing (n + k) (try m h)
try-Costing m h costs next c = try_rest c (m c) h (costs c) next

pub same : (c : Client) → Costs 0 c c
same c = record {
  config = refl;
  connect_kwargs = refl;
  connects = refl;
  slept = refl;
  pings = omega arith;
  closing = refl;
  is_reconnecting = refl;
  reconnect_attempt = refl;
  scheduled = refl;
  signalled = λ h. h;
  paired = λ h. h;
}

cancel_tasks-Costing : Costing 0 cancel_tasks
unfolding cancel_tasks cancel_reader Keepalive.stop
cancel_tasks-Costing c = ground (arith, same c)

close_channel-Costing : (env : Env) → Costing 0 (close_channel env)
unfolding close_channel
close_channel-Costing env c = ground (arith, same c)

pub lift-Costing : {A : Type 0} (r : Outcome A) → Costing 0 (lift r)
lift-Costing r c = same c

pub cleanup-Costing : (env : Env) → Costing 0 (cleanup_partial_init env)
unfolding cleanup_partial_init
cleanup-Costing env c = trans {n = 0} {k = 0} {d = end_socket c} (ground (arith, same c)) (
    bind {n = 0} (lift (close_socket env is_exception c.ws) >> shut_channel env) (λ u. cancel_tasks)
      (λ d. ground (arith, same d)) (λ u. cancel_tasks-Costing) (end_socket c))

pub finish_close-Costing : (env : Env) → Costing 0 (finish_close env)
unfolding finish_close
finish_close-Costing env c =
    bind (lift (close_socket env is_suppressed c.ws) >> close_channel env) (λ u. cancel_tasks)
      (bind (lift (close_socket env is_suppressed c.ws)) (λ u. close_channel env)
        (lift-Costing (close_socket env is_suppressed c.ws)) (λ u. close_channel-Costing env))
      (λ u. cancel_tasks-Costing) c

-- Closing costs nothing.
pub close-counts :
    (env : Env) (c : Client)
    → let c' = (close env c).1 in
      (c'.connects ≡ c.connects) × (c'.pings ≤ c.pings) × (c'.slept ≡ c.slept)
unfolding close begin_close
close-counts env c =
    let costs = finish_close-Costing env (begin_close env c) in
    ground (arith, costs.connects, costs.pings, costs.slept)

pub start_keepalive-Costing : (k : RpcKeepaliveConfig) → Costing 0 (start_keepalive k)
unfolding start_keepalive
start_keepalive-Costing k c = ground (arith, same c)

pub initialize-Costing : (a : Attempt) (s : Socket) → Costing 0 (initialize_rpc_layer a s)
unfolding initialize_rpc_layer set_channel
initialize-Costing a s c = ground (arith, same c)
