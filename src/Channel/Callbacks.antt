-- ===== src/Channel/Callbacks.antt =====
-- The callbacks of `RpcChannel` in fastapi_ws_rpc/rpc_channel.py. The lists live in a heap, where a
-- list is known by its place, since a channel keeps the list that it is given unless that is empty.
use fastapi_ws_rpc.Base.{
  ℕ, zero, suc, ◌≡◌, refl, Bool, true, false, Option, none, some, List, [], ◌∷◌, ◌++◌, length,
  length-append, ◌∙◌, get_elem?, nat_eq, arith, if◌then◌else◌,
}
use fastapi_ws_rpc.Values.{Exn, Outcome, ok, raised}

abbrev pub Heap : Type 0
Heap = List (List ℕ)

abbrev pub is_nonempty : Option (List ℕ) → Bool
is_nonempty none = false
is_nonempty (some []) = false
is_nonempty (some (c ∷ cs)) = true

abbrev pub fresh_list : Heap → ℕ × Heap
fresh_list heap = (length heap, heap ++ ([] ∷ []))

-- `callbacks or []`: the place of the list that the channel keeps.
unfoldable pub keep_list : Option ℕ → Heap → ℕ × Heap
keep_list none heap = fresh_list heap
keep_list (some place) heap =
    if is_nonempty (get_elem? heap place) then (place, heap) else fresh_list heap

abbrev pub update : (List ℕ → List ℕ) → ℕ → Heap → Heap
update f n [] = []
update f zero (l ∷ heap) = f l ∷ heap
update f (suc n) (l ∷ heap) = l ∷ update f n heap

-- `add_connect_callback` and its like
unfoldable pub add_callback : ℕ → ℕ → Heap → Heap
add_callback callback = update (λ l. l ++ (callback ∷ []))

-- `list.remove`: the first occurrence, and whether there was one.
unfoldable pub remove_first : ℕ → List ℕ → Bool × List ℕ
remove_first callback [] = (false, [])
remove_first callback (c ∷ cs) =
    let (found, rest) = remove_first callback cs in
    if nat_eq c callback then (true, cs) else (found, c ∷ rest)

-- `remove_connect_callback` and its like
unfoldable pub remove_callback : ℕ → ℕ → Heap → Bool × Heap
unfolding remove_first
remove_callback callback place heap = elim (get_elem? heap place) [
  | none ↦ (false, heap)
  | some l ↦ ((remove_first callback l).0, update (λ l. (remove_first callback l).1) place heap)
]

-- What a callback does when it is called: it raises at once, or its coroutine ends in some way.
pub data Callback : Type 0 where
  refuses : Exn → Callback
  settles : Outcome (Unit {0}) → Callback

unfoldable pub first_refusal : List Callback → Option Exn
first_refusal [] = none
first_refusal (refuses e ∷ cs) = some e
first_refusal (settles o ∷ cs) = first_refusal cs

-- `_invoke_callbacks`: how it ends, and how many coroutines ran. They run once all are created.
unfoldable pub invoke_callbacks : List Callback → Outcome (Unit {0}) × ℕ
unfolding first_refusal
invoke_callbacks callbacks = elim (first_refusal callbacks) [
  | none ↦ (ok tt, length callbacks)
  | some e ↦ (raised e, 0)
]

-- `on_connect`: whether it creates the task that fetches the other side's id, and how the callbacks end.
unfoldable pub on_connect : Bool → List Callback → Bool × (Outcome (Unit {0}) × ℕ)
unfolding invoke_callbacks
on_connect sync_channel_id callbacks = (sync_channel_id, invoke_callbacks callbacks)

-- `on_error`
unfoldable pub on_error : List Callback → Outcome (Unit {0}) × ℕ
unfolding invoke_callbacks
on_error callbacks = invoke_callbacks callbacks

get_elem?-new : (l : List ℕ) (heap : Heap) → get_elem? (heap ++ (l ∷ [])) (length heap) ≡ some l
get_elem?-new l [] = refl
get_elem?-new l (x ∷ heap) = get_elem?-new l heap

get_elem?-update :
    (f : List ℕ → List ℕ) (n : ℕ) (l : List ℕ) (heap : Heap)
    → get_elem? heap n ≡ some l
    → get_elem? (update f n heap) n ≡ some (f l)
get_elem?-update f n l [] at = ground (arith, at)
get_elem?-update f zero l (x ∷ heap) at = ground (arith, at)
get_elem?-update f (suc n) l (x ∷ heap) at = get_elem?-update f n l heap at

get_elem?-update_other :
    (f : List ℕ → List ℕ) (n m : ℕ) (heap : Heap)
    → nat_eq n m ≡ false
    → get_elem? (update f n heap) m ≡ get_elem? heap m
get_elem?-update_other f n m [] apart = refl
get_elem?-update_other f zero zero (x ∷ heap) apart = ground (arith, apart)
get_elem?-update_other f zero (suc m) (x ∷ heap) apart = refl
get_elem?-update_other f (suc n) zero (x ∷ heap) apart = refl
get_elem?-update_other f (suc n) (suc m) (x ∷ heap) apart =
    get_elem?-update_other f n m heap (ground (arith, apart))

get_elem?-old :
    (l x : List ℕ) (heap : Heap) (n : ℕ)
    → get_elem? heap n ≡ some x
    → get_elem? (heap ++ (l ∷ [])) n ≡ some x
get_elem?-old l x [] n at = ground (arith, at)
get_elem?-old l x (y ∷ heap) zero at = at
get_elem?-old l x (y ∷ heap) (suc n) at = get_elem?-old l x heap n at

keep_list-empty :
    (place : ℕ) (heap : Heap)
    → get_elem? heap place ≡ some []
    → keep_list (some place) heap ≡ fresh_list heap
unfolding keep_list
keep_list-empty place heap at = ground (arith, at)

keep_list-nonempty :
    (place c : ℕ) (cs : List ℕ) (heap : Heap)
    → get_elem? heap place ≡ some (c ∷ cs)
    → keep_list (some place) heap ≡ (place, heap)
unfolding keep_list
keep_list-nonempty place c cs heap at = ground (arith, at)

-- If two channels are given the same list of callbacks, a callback that is added to the first is
-- in the list of the second exactly if the list was not empty.
callbacks_shared :
    (place callback : ℕ) (l : List ℕ) (heap : Heap)
    → get_elem? heap place ≡ some l
    → let (a, one) = keep_list (some place) heap in
      let (b, two) = keep_list (some place) one in
      get_elem? (add_callback callback a two) b
      ≡ some (if is_nonempty (some l) then l ++ (callback ∷ []) else [])
unfolding add_callback
callbacks_shared place callback (c ∷ cs) heap at =
    let same = keep_list-nonempty place c cs heap at in
    rw same (rw same (get_elem?-update (λ l. l ++ (callback ∷ [])) place (c ∷ cs) heap at))
callbacks_shared place callback [] heap at =
    let one = heap ++ ([] ∷ []) in
    rw (keep_list-empty place heap at) (
      rw (keep_list-empty place one (get_elem?-old [] [] heap place at)) (
        get_elem?-update_other (λ l. l ++ (callback ∷ [])) (length heap) (length one)
          (one ++ ([] ∷ [])) (ground (arith, length-append heap ([] ∷ [])))
        ∙ get_elem?-new [] one))
