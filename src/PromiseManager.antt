-- ===== src/PromiseManager.antt =====
-- fastapi_ws_rpc/_internal/promise_manager.py. Times are naturals in one unit, the millisecond, and
-- each operation that reads `time.time()` takes the reading as its argument `now`. A difference of
-- two readings is compared by moving the older one to the other side, so the tests are those of the
-- source on signed differences. A promise carries the identity of its `asyncio.Event`; `is_set`
-- says which events are set. Exception texts are cut before their figures.
pub mod Invariant
pub mod Delivery
pub mod Cooldown
pub mod Expiry
pub mod Closing
pub mod Calls
pub mod CleanupTask
pub mod Operating
mod Examples
use Prim.Native.String.{count}
use fastapi_ws_rpc.Base.{
  ℕ, suc, ◌+◌, String, Bool, true, false, ◌||◌, not, Option, none, some, List, [], ◌∷◌, ltb, leb,
  nat_eq, if◌then◌else◌, length,
}
use fastapi_ws_rpc.Base.Dict.{Dict, lookup, insert, erase, retain, contains, size}
use fastapi_ws_rpc.Values.{
  Outcome, ok, raised, exn, value_error, key_error, timeout_error, rpc_backpressure,
  rpc_channel_closed,
}
use fastapi_ws_rpc.Schemas.{JsonRpcRequest, JsonRpcResponse, call_id_of}

abbrev pub default_max_pending_requests : ℕ
default_max_pending_requests = 1000

abbrev pub default_promise_ttl : ℕ
default_promise_ttl = 60_000

abbrev pub max_request_id_length : ℕ
max_request_id_length = 256

abbrev pub request_id_cooldown : ℕ
request_id_cooldown = 10_000

abbrev pub max_recent_ids : ℕ
max_recent_ids = 10_000

-- `RpcPromise`; `event` names its `asyncio.Event`.
pub record RpcPromise : Type 0 where
  pub request : JsonRpcRequest
  pub event : ℕ
  pub created_at : ℕ

-- `RpcPromise.call_id`
unfoldable pub call_id : RpcPromise → String
unfolding call_id_of
call_id p = call_id_of p.request.id

-- `cleanup_running`: there is a cleanup task and it is not done.
pub record PromiseManager : Type 0 where
  pub requests : Dict RpcPromise
  pub responses : Dict JsonRpcResponse
  pub recently_used_ids : Dict ℕ
  pub closed : Bool
  pub max_pending_requests : ℕ
  pub promise_ttl : ℕ
  pub cleanup_running : Bool
  pub is_set : ℕ → Bool
  pub next_event : ℕ

abbrev pub default_to : Option ℕ → ℕ → ℕ
default_to none d = d
default_to (some n) d = n

-- `RpcPromiseManager.__init__`; the first argument says whether an event loop is running.
unfoldable pub init : Bool → Option ℕ → Option ℕ → PromiseManager
init loop_running max_pending ttl = record {
  requests = [];
  responses = [];
  recently_used_ids = [];
  closed = false;
  max_pending_requests = default_to max_pending default_max_pending_requests;
  promise_ttl = default_to ttl default_promise_ttl;
  cleanup_running = loop_running;
  is_set = λ e. false;
  next_event = 0;
}

-- `event.set()`
abbrev pub set_event : ℕ → (ℕ → Bool) → ℕ → Bool
set_event e is_set x = if nat_eq e x then true else is_set x

unfoldable pub ensure_cleanup_task_started : Bool → PromiseManager → PromiseManager
ensure_cleanup_task_started loop_running m = record m {
  cleanup_running = m.cleanup_running || loop_running;
}

-- The cooldown test of `create_promise` on the dictionary of recent ids.
unfoldable pub in_cooldown : ℕ → String → Dict ℕ → Bool
in_cooldown now k recent = elim (lookup k recent) [
  | none ↦ false
  | some last ↦ ltb now (last + request_id_cooldown)
]

-- The id is marked as used; above `max_recent_ids` entries the old ones are dropped.
unfoldable pub mark_used : ℕ → String → Dict ℕ → Dict ℕ
mark_used now k recent =
    let marked = insert k now recent in
    if ltb max_recent_ids (size marked)
    then retain (λ used. ltb now (used + request_id_cooldown)) marked
    else marked

-- The end of `create_promise`, where all checks have passed.
unfoldable pub register : ℕ → JsonRpcRequest → PromiseManager → Outcome RpcPromise × PromiseManager
unfolding mark_used
register now request m =
    let k = call_id_of request.id in
    let promise : RpcPromise = record {
      request = request;
      event = m.next_event;
      created_at = now;
    } in
    (
      ok promise,
      record m {
        recently_used_ids = mark_used now k m.recently_used_ids;
        requests = insert k promise m.requests;
        next_event = suc m.next_event;
      },
    )

-- The checks of `create_promise` in their order, then the registration.
unfoldable pub admit : ℕ → JsonRpcRequest → PromiseManager → Outcome RpcPromise × PromiseManager
unfolding in_cooldown register
admit now request m =
    let k = call_id_of request.id in
    if ltb max_request_id_length (count k)
    then (raised (exn value_error "Request ID too long"), m)
    else if in_cooldown now k m.recently_used_ids
    then (raised (exn value_error "Request ID is in its cooldown period"), m)
    else if leb m.max_pending_requests (size m.requests)
    then (raised (exn rpc_backpressure "Channel backpressure: maximum pending requests"), m)
    else if contains k m.requests
    then (raised (exn value_error "Request ID collision detected"), m)
    else register now request m

unfoldable pub create_promise :
    Bool → ℕ → JsonRpcRequest → PromiseManager → Outcome RpcPromise × PromiseManager
unfolding ensure_cleanup_task_started admit
create_promise loop_running now request m =
    admit now request (ensure_cleanup_task_started loop_running m)

-- `store_response` at the key of the response.
unfoldable pub store_at : String → JsonRpcResponse → PromiseManager → Bool × PromiseManager
store_at k response m = elim (lookup k m.requests) [
  | none ↦ (false, m)
  | some promise ↦ (
    true,
    record m {
      responses = insert k response m.responses;
      is_set = set_event promise.event m.is_set;
    },
  )
]

unfoldable pub store_response : JsonRpcResponse → PromiseManager → Bool × PromiseManager
unfolding store_at
store_response response m = elim response.id [
  | none ↦ (false, m)
  | some id ↦ store_at (call_id_of (some id)) response m
]

unfoldable pub get_saved_promise : String → PromiseManager → Outcome RpcPromise
get_saved_promise k m = elim (lookup k m.requests) [
  | none ↦ raised (exn key_error k)
  | some promise ↦ ok promise
]

unfoldable pub get_saved_response : String → PromiseManager → Outcome JsonRpcResponse
get_saved_response k m = elim (lookup k m.responses) [
  | none ↦ raised (exn key_error k)
  | some response ↦ ok response
]

unfoldable pub clear_saved_call : String → PromiseManager → PromiseManager
clear_saved_call k m = record m { requests = erase k m.requests; responses = erase k m.responses }

-- What `asyncio.wait` in `wait_for_response` waits for: the promise's event, the closure, or the
-- expiry of the timeout.
unfoldable pub is_ready : Bool → RpcPromise → PromiseManager → Bool
is_ready timed_out p m = m.is_set p.event || m.closed || timed_out

-- `wait_for_response` from the moment at which `asyncio.wait` returns.
unfoldable pub resume : RpcPromise → PromiseManager → Outcome JsonRpcResponse × PromiseManager
unfolding call_id clear_saved_call
resume p m =
    let k = call_id p in
    (
      elim (lookup k m.responses) [
        | some response ↦ ok response
        | none ↦
            if m.closed
            then raised (exn rpc_channel_closed "Channel closed before response for call")
            else raised (exn timeout_error "Timeout waiting for response to call")
      ],
      clear_saved_call k m,
    )

-- `for promise in list(self._requests.values()): promise.set()`
unfoldable pub set_all : Dict RpcPromise → (ℕ → Bool) → ℕ → Bool
set_all [] is_set = is_set
set_all ((k, p) ∷ d) is_set = set_all d (set_event p.event is_set)

unfoldable pub close : PromiseManager → PromiseManager
unfolding set_all
close m = record m {
  closed = true;
  cleanup_running = false;
  is_set = set_all m.requests m.is_set;
  requests = [];
  responses = [];
}

unfoldable pub get_pending_count : PromiseManager → ℕ
get_pending_count m = size m.requests
