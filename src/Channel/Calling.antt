-- ===== src/Channel/Calling.antt =====
-- What a call or a notification sends, and what it leaves behind.
use Prim.Native.String.{count}
use fastapi_ws_rpc.Base.{
  ℕ, ◌<◌, String, ◌≡◌, ap, sym, ◌∙◌, Bool, true, false, Option, none, some, List, [], ◌∷◌, ◌++◌,
  arith, leb, ltb, eq_iff, if_both,
}
use fastapi_ws_rpc.Base.Dict.{Dict, lookup, contains, size, lookup-insert}
use fastapi_ws_rpc.Values.{
  Json, Fields, RpcId, str_id, Exn, exn, Outcome, ok, raised, rpc_channel_closed,
}
use fastapi_ws_rpc.Schemas.{JsonRpcRequest, validate_id, call_id_of}
use fastapi_ws_rpc.Pydantic.{Pydantic}
use fastapi_ws_rpc.PromiseManager.{
  PromiseManager, RpcPromise, create_promise, ensure_cleanup_task_started, admit, register, call_id,
  max_request_id_length, in_cooldown,
}
use fastapi_ws_rpc.SendQueue.{SendQueue, begin, acquire, finish, is_limited}
use fastapi_ws_rpc.SendQueue.Bounds.{IsValid}
use fastapi_ws_rpc.Channel.{
  Channel, is_closed, new_request, socket_send, guarded_send, send_raw, async_call, call_id_or,
}

-- The outcome, if it is a promise, holds the request and is filed under its call id.
pub record Files (q : JsonRpcRequest) (r : Outcome RpcPromise × PromiseManager) : Type 0 where
  pub files :
      (p : RpcPromise) → r.0 ≡ ok p → (p.request ≡ q) × (lookup (call_id p) r.1.requests ≡ some p)

raised-Files : (q : JsonRpcRequest) (e : Exn) (m : PromiseManager) → Files q (raised e, m)
raised-Files q e m = record { files = λ p h. cc }

register-Files : (now : ℕ) (q : JsonRpcRequest) (m : PromiseManager) → Files q (register now q m)
unfolding register call_id
register-Files now q m =
    let k = call_id_of q.id in
    let promise : RpcPromise = record { request = q; event = m.next_event; created_at = now } in
    record { files = λ p h. ground (arith, lookup-insert k k promise m.requests, eq_iff k k) }

admit-Files : (now : ℕ) (q : JsonRpcRequest) (m : PromiseManager) → Files q (admit now q m)
unfolding admit
admit-Files now q m =
    let k = call_id_of q.id in
    let refused = λ (e : Exn). raised-Files q e m in
    if_both (Files q) (ltb max_request_id_length (count k)) (refused _) (
      if_both (Files q) (in_cooldown now k m.recently_used_ids) (refused _) (
        if_both (Files q) (leb m.max_pending_requests (size m.requests)) (refused _)
          (if_both (Files q) (contains k m.requests) (refused _) (register-Files now q m))))

-- A new promise is filed under its call id, and holds the request.
pub create_promise-Files :
    (loop_running : Bool) (now : ℕ) (q : JsonRpcRequest) (m : PromiseManager)
    → Files q (create_promise loop_running now q m)
unfolding create_promise
create_promise-Files loop_running now q m =
    admit-Files now q (ensure_cleanup_task_started loop_running m)

pub filed :
    (loop_running : Bool) (now : ℕ) (q : JsonRpcRequest) (m m' : PromiseManager) (p : RpcPromise)
    → create_promise loop_running now q m ≡ (ok p, m')
    → lookup (call_id p) m'.requests ≡ some p
filed loop_running now q m m' p made =
    ap (λ (r : Outcome RpcPromise × PromiseManager). lookup (call_id p) r.1.requests) (sym made)
    ∙ ((create_promise-Files loop_running now q m).files p (ap (λ r. r.0) made)).1

create_promise-closed :
    (loop_running : Bool) (now : ℕ) (q : JsonRpcRequest) (m : PromiseManager)
    → (create_promise loop_running now q m).1.closed ≡ m.closed
unfolding create_promise ensure_cleanup_task_started admit register
create_promise-closed loop_running now q m = ground arith

-- A new request carries the id, if that is valid.
pub new_request-id :
    (id : Option RpcId) (name : String) (args : Fields) (q : JsonRpcRequest)
    → new_request id name args ≡ ok q
    → (q.id ≡ id) × (validate_id q.id ≡ ok q.id) × (q.method ≡ name) × (q.jsonrpc ≡ "2.0")
unfolding new_request validate_id
new_request-id id name args q e = ground arith

-- The promise of a new request is known by the id of the request.
pub call_id-new_request :
    (id : RpcId) (name : String) (args : Fields) (loop_running : Bool) (now : ℕ)
    (q : JsonRpcRequest) (p : RpcPromise) (m m' : PromiseManager)
    → new_request (some id) name args ≡ ok q
    → create_promise loop_running now q m ≡ (ok p, m')
    → call_id p ≡ call_id_of (some id)
unfolding call_id
call_id-new_request id name args loop_running now q p m m' asked made =
    let same : p.request ≡ q =
      ((create_promise-Files loop_running now q m).files p (ap (λ x. x.0) made)).0 in
    ap (λ (x : JsonRpcRequest). call_id_of x.id) same
    ∙ ap call_id_of (new_request-id (some id) name args q asked).0

-- Room for one more message: the channel is open and no bound on the pending sends is reached.
pub record HasRoom (c : Channel) : Type 0 where
  pub is_open : is_closed c ≡ false
  pub queue_valid : IsValid c.queue
  pub below : is_limited c.queue ≡ true → c.queue.pending_sends < c.queue.max_send_queue_size

queue_restored :
    (q : SendQueue)
    → IsValid q
    → (is_limited q ≡ true → q.pending_sends < q.max_send_queue_size)
    → ((begin false q).0 ≡ ok tt) × (finish (acquire (begin false q).1) ≡ q)
unfolding begin acquire finish is_limited
queue_restored q v room = (ground (arith, v.balanced), ground (arith, v.balanced))

module _ (py : Pydantic) (transmit : List (Dict Json) → Dict Json → Option Exn) where
  socket_send-ok :
      (d : Dict Json) (c : Channel)
      → transmit c.sent d ≡ none
      → socket_send py transmit d c ≡ (ok tt, record c { sent = c.sent ++ (d ∷ []) })
  unfolding socket_send
  socket_send-ok d c sends = rw (sends, socket_send)

  guarded-ok :
      (d : Dict Json) (b : Outcome (Unit {0}) × SendQueue) (c : Channel)
      → b.0 ≡ ok tt
      → finish (acquire b.1) ≡ c.queue
      → transmit c.sent d ≡ none
      → guarded_send py transmit d b c ≡ (ok tt, record c { sent = c.sent ++ (d ∷ []) })
  unfolding guarded_send
  guarded-ok d (ok u, q) c fine same sends =
      ap (λ (r : Outcome (Unit {0}) × Channel). (r.0, record r.1 { queue = finish r.1.queue }))
        (socket_send-ok d (record c { queue = acquire q }) sends)
      ∙ ap (λ (q' : SendQueue). (ok tt, record c { sent = c.sent ++ (d ∷ []); queue = q' })) same
  guarded-ok d (raised e, q) c fine same sends = cc

  -- A message that finds room and that the socket takes is sent, and nothing else changes.
  pub send_raw-ok :
      (d : Dict Json) (c : Channel)
      → HasRoom c
      → transmit c.sent d ≡ none
      → send_raw py transmit d c ≡ (ok tt, record c { sent = c.sent ++ (d ∷ []) })
  unfolding send_raw
  send_raw-ok d c room sends =
      let (fine, same) = queue_restored c.queue room.queue_valid room.below in
      ap (λ (b : Bool). guarded_send py transmit d (begin b c.queue) c) room.is_open
      ∙ guarded-ok d (begin false c.queue) c fine same sends

  send_raw-closed :
      (d : Dict Json) (c : Channel)
      → is_closed c ≡ true
      → send_raw py transmit d c
        ≡ (raised (exn rpc_channel_closed "Cannot send on closed channel"), c)
  unfolding send_raw begin guarded_send
  send_raw-closed d c shut = ap (λ (b : Bool). guarded_send py transmit d (begin b c.queue) c) shut

  -- A call whose request and promise are made sends exactly the request, if there is room and the
  -- socket takes it, and leaves the promise pending.
  pub async_call-sends :
      (loop_running : Bool) (now : ℕ) (uid name : String) (args : Fields) (chosen : Option String)
      (q : JsonRpcRequest) (p : RpcPromise) (m : PromiseManager) (c : Channel)
      → new_request (some (str_id (call_id_or chosen uid))) name args ≡ ok q
      → create_promise loop_running now q c.promises ≡ (ok p, m)
      → HasRoom (record c { promises = m })
      → transmit c.sent (py.dump_request q) ≡ none
      → async_call py transmit loop_running now uid name args chosen c
        ≡ (ok p, record c { promises = m; sent = c.sent ++ (py.dump_request q ∷ []) })
  unfolding async_call
  async_call-sends loop_running now uid name args chosen q p m c asked made room sends =
      rw (asked, made, send_raw-ok (py.dump_request q) (record c { promises = m }) room sends)

  -- On a closed channel a call whose request and promise are made raises RpcChannelClosedError and
  -- leaves the promise pending.
  async_call_closed :
      (loop_running : Bool) (now : ℕ) (uid name : String) (args : Fields) (chosen : Option String)
      (q : JsonRpcRequest) (p : RpcPromise) (m : PromiseManager) (c : Channel)
      → is_closed c ≡ true
      → new_request (some (str_id (call_id_or chosen uid))) name args ≡ ok q
      → create_promise loop_running now q c.promises ≡ (ok p, m)
      → (async_call py transmit loop_running now uid name args chosen c ≡ (
        raised (exn rpc_channel_closed "Cannot send on closed channel"),
        record c { promises = m },
      ))
        × (lookup (call_id p) m.requests ≡ some p)
  unfolding async_call
  async_call_closed loop_running now uid name args chosen q p m c shut asked made =
      let still = ap (λ (r : Outcome RpcPromise × PromiseManager). r.1.closed) made in
      (
        rw (
          asked,
          made,
          send_raw-closed (py.dump_request q) (record c { promises = m })
              (sym still ∙ create_promise-closed loop_running now q c.promises ∙ shut),
        ),
        filed loop_running now q c.promises m p made,
      )
