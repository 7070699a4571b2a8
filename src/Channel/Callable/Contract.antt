-- ===== src/Channel/Callable/Contract.antt =====
-- What a channel promises as an `RpcCallable`.
use fastapi_ws_rpc.Base.{
  ℕ, String, ◌≡◌, refl, sym, ap, ◌∙◌, Bool, true, false, Option, none, some, ◌==◌, List, arith,
  eq_iff,
}
use fastapi_ws_rpc.Base.Dict.{Dict, lookup, IsDistinct, lookup-erase}
use fastapi_ws_rpc.Values.{
  Json, Fields, RpcId, str_id, Exn, is_ok, Outcome, ok, raised, value_error, class_of, raised_of,
}
use fastapi_ws_rpc.Exec.{continue-eq-ok}
use fastapi_ws_rpc.Schemas.{JsonRpcRequest, call_id_of}
use fastapi_ws_rpc.Pydantic.{Pydantic}
use fastapi_ws_rpc.PromiseManager.{PromiseManager, RpcPromise, call_id, create_promise}
use fastapi_ws_rpc.PromiseManager.Cooldown.{
  create_promise-accepted_iff, accepted-UsedAt, in_cooldown-value_error,
}
use fastapi_ws_rpc.SendQueue.{begin, acquire, finish, is_limited}
use fastapi_ws_rpc.Protocols.{Laws}
use fastapi_ws_rpc.Channel.{
  Channel, send_raw, guarded_send, socket_send, on_promises, async_call, new_request, call_id_or,
  params_of,
}
use fastapi_ws_rpc.Channel.Calling.{filed, new_request-id, call_id-new_request}
use fastapi_ws_rpc.Channel.Callable.{or_empty, get_saved_response, clear_saved_call, callable}

-- A request with the id of another one that could be made can be made too.
new_request-again :
    (id : Option RpcId) (name other : String) (args more : Fields) (q : JsonRpcRequest)
    → new_request id name args ≡ ok q
    → (q' : JsonRpcRequest) × (new_request id other more ≡ ok q') × (q'.id ≡ q.id)
unfolding new_request
new_request-again id name other args more q asked = (
  record { jsonrpc = "2.0"; id = q.id; method = other; params = params_of more },
  ground arith,
  refl,
)

-- An id that was accepted is refused at the same time with ValueError.
create_promise-again :
    (loop_running : Bool) (now : ℕ) (q q' : JsonRpcRequest) (p : RpcPromise) (m m' : PromiseManager)
    → IsDistinct m.recently_used_ids
    → create_promise loop_running now q m ≡ (ok p, m')
    → q'.id ≡ q.id
    → class_of (create_promise loop_running now q' m').0 ≡ some value_error
create_promise-again loop_running now q q' p m m' dist made same =
    let used = accepted-UsedAt loop_running now q m dist (rw made refl) in
    in_cooldown-value_error loop_running now now q' m'
      (ap (λ (i : Option RpcId). lookup (call_id_of i) m'.recently_used_ids) same
        ∙ ap
            (λ (r : Outcome RpcPromise × PromiseManager).
              lookup (call_id_of q.id) r.1.recently_used_ids)
            (sym made)
        ∙ used.1)
      (omega arith)

-- A send leaves the promises alone.
send_raw-promises :
    (py : Pydantic) (transmit : List (Dict Json) → Dict Json → Option Exn) (d : Dict Json)
    (c : Channel)
    → (send_raw py transmit d c).1.promises ≡ c.promises
unfolding send_raw guarded_send socket_send begin acquire finish is_limited
send_raw-promises py transmit d c = ground arith

module _ (py : Pydantic) (transmit : List (Dict Json) → Dict Json → Option Exn) (now : ℕ)
    (uid : String) where
  -- A call that returns has made its request and its promise.
  pub async_call-made :
      (name : String) (args : Fields) (k : Option String) (p : RpcPromise) (c t : Channel)
      → async_call py transmit true now uid name args k c ≡ (ok p, t)
      → (q : JsonRpcRequest) × (new_request (some (str_id (call_id_or k uid))) name args ≡ ok q)
        × (create_promise true now q c.promises ≡ (ok p, t.promises))
  unfolding async_call
  async_call-made name args k p c t made =
      let (q, c1, asked, rest) =
        continue-eq-ok _ (new_request (some (str_id (call_id_or k uid))) name args, c) made in
      let (p', c2, promised, sending) =
        continue-eq-ok _ (on_promises (create_promise true now q) c1) rest in
      let (u, c3, sent, returned) =
        continue-eq-ok _ (send_raw py transmit (py.dump_request q) c2) sending in
      let same = ap (λ (r : Outcome JsonRpcRequest × Channel). r.1.promises) asked in
      let end_promises =
        ap (λ (r : Outcome Unit × Channel). r.1.promises) (sym sent)
        ∙ send_raw-promises py transmit (py.dump_request q) c2 in
      (
        q,
        ap (λ (r : Outcome JsonRpcRequest × Channel). r.0) asked,
        ap (λ (m : PromiseManager). create_promise true now q m) same
            ∙ ap (λ (r : Outcome RpcPromise × Channel). (r.0, r.1.promises)) promised
            ∙ ap (λ (m : PromiseManager). (ok p', m)) (sym end_promises)
            ∙ ap (λ (r : Outcome RpcPromise × Channel). (r.0, r.1.promises)) returned,
      )

  -- A second call whose promise is refused raises what refused it.
  async_call-refused :
      (name : String) (args : Fields) (k : Option String) (q : JsonRpcRequest) (c : Channel)
      → new_request (some (str_id (call_id_or k uid))) name args ≡ ok q
      → class_of (create_promise true now q c.promises).0 ≡ some value_error
      → class_of (async_call py transmit true now uid name args k c).0 ≡ some value_error
  unfolding async_call
  async_call-refused name args k q c asked refused =
      let (e, eq, cls) = raised_of (create_promise true now q c.promises).0 value_error refused in
      rw (asked, async_call, eq) (ap some cls)

not_ok :
    {A S : Type 0} (r : Outcome A × S) → ((a : A) (s : S) → r ≡ (ok a, s) → ⊥) → is_ok r.0 ≡ false
not_ok (ok a, s) never = absurd (never a s refl)
not_ok (raised e, s) never = refl

given_id : (k uid : String) → (k == "") ≡ false → call_id_or (some k) uid ≡ k
given_id k uid given = ground (arith, given)

-- A promise that is made is for an id that is free.
create_promise-free :
    (now : ℕ) (q : JsonRpcRequest) (p : RpcPromise) (m m' : PromiseManager)
    → create_promise true now q m ≡ (ok p, m')
    → lookup (call_id_of q.id) m.requests ≡ none
create_promise-free now q p m m' made =
    ((create_promise-accepted_iff true now q m).0
      (ap (λ (r : Outcome RpcPromise × PromiseManager). is_ok r.0) made)).3

none_ne_some : {A : Type 0} {o : Option A} {a : A} → o ≡ none → o ≡ some a → ⊥
none_ne_some h g = cc

-- No call is made with the id of a call that is pending.
async_call-pending :
    (py : Pydantic) (transmit : List (Dict Json) → Dict Json → Option Exn) (now later : ℕ)
    (uid other_uid name other : String) (args more : Fields) (k : String) (p p' : RpcPromise)
    (c t u : Channel)
    → (k == "") ≡ false
    → async_call py transmit true now uid name args (some k) c ≡ (ok p, t)
    → async_call py transmit true later other_uid other more (some k) t ≡ (ok p', u)
    → ⊥
async_call-pending py transmit now later uid other_uid name other args more k p p' c t u given made
      again =
    let (q, asked, promised) = async_call-made py transmit now uid name args (some k) p c t made in
    let (q', asked', promised') =
      async_call-made py transmit later other_uid other more (some k) p' t u again in
    let id = str_id (call_id_or (some k) uid) in
    let id' = str_id (call_id_or (some k) other_uid) in
    let same : call_id_of q'.id ≡ call_id p =
      ap call_id_of (new_request-id (some id') other more q' asked').0
      ∙ ap (λ (s : String). call_id_of (some (str_id s)))
          (given_id k other_uid given ∙ sym (given_id k uid given))
      ∙ sym (call_id-new_request id name args true now q p c.promises t.promises asked promised) in
    none_ne_some
      (ap (λ (s : String). lookup s t.promises.requests) (sym same)
        ∙ create_promise-free later q' p' t.promises u.promises promised')
      (filed true now q c.promises t.promises p promised)

module _ (py : Pydantic) (transmit : List (Dict Json) → Dict Json → Option Exn) (now later : ℕ)
    (uid other_uid : String) where
  pub callable-Laws :
      (id : String) (default_response_timeout : Option ℕ)
      → Laws
          (callable py transmit now uid id default_response_timeout)
          (callable py transmit later other_uid id default_response_timeout)
          (λ c. IsDistinct c.promises.recently_used_ids)
  unfolding callable get_saved_response clear_saved_call
  callable-Laws id default_response_timeout = record {
    cleared = λ k c. ground (arith, lookup-erase k k c.promises.responses, eq_iff k k);
    others_kept = λ j k c ne. ground (arith, lookup-erase k j c.promises.responses);
    in_use = λ name other args more k p c t dist made.
        let (q, asked, promised) =
          async_call-made py transmit now uid name (or_empty args) (some k) p c t made in
        let (q', asked', same) =
          new_request-again (some (str_id (call_id_or (some k) uid))) name other (or_empty args)
            (or_empty more) q asked in
        raised_of _ value_error (
          async_call-refused py transmit now uid other (or_empty more) (some k) q' t asked'
            (create_promise-again true now q q' p c.promises t.promises dist promised same));
    still_in_use = λ name other args more k p c t given made.
        not_ok (async_call py transmit true later other_uid other (or_empty more) (some k) t)
          (λ p' u again.
            async_call-pending py transmit now later uid other_uid name other (or_empty args)
              (or_empty more) k p p' c t u given made again);
  }
