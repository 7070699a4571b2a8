-- ===== src/Methods/Isolation.antt =====
-- The copies that channels make of a methods object, and the answers to calls back.
use fastapi_ws_rpc.Base.{ℕ, zero, suc, ◌≡◌, refl, ap, some, [], ◌∷◌, ◌++◌, length, get_elem?, arith}
use fastapi_ws_rpc.Methods.{MethodsObject, Store, update, set_channel, copy, attach}

get_elem?-new :
    (m : MethodsObject) (store : Store) → get_elem? (store ++ (m ∷ [])) (length store) ≡ some m
get_elem?-new m [] = refl
get_elem?-new m (x ∷ store) = get_elem?-new m store

update-new :
    (f : MethodsObject → MethodsObject) (m : MethodsObject) (store : Store)
    → update f (length store) (store ++ (m ∷ [])) ≡ store ++ (f m ∷ [])
update-new f m [] = refl
update-new f m (x ∷ store) = ap (λ (rest : Store). x ∷ rest) (update-new f m store)

get_elem?-old :
    (m x : MethodsObject) (store : Store) (n : ℕ)
    → get_elem? store n ≡ some x
    → get_elem? (store ++ (m ∷ [])) n ≡ some x
get_elem?-old m x [] n at = ground (arith, at)
get_elem?-old m x (y ∷ store) zero at = at
get_elem?-old m x (y ∷ store) (suc n) at = get_elem?-old m x store n at

attach-eq :
    (channel : ℕ) (m : MethodsObject) (store : Store)
    → attach channel m store ≡ (length store, store ++ (record m { channel = some channel } ∷ []))
unfolding attach set_channel copy
attach-eq channel m store =
    ap (λ (s : Store). (length store, s))
      (update-new (λ m. record m { channel = some channel }) m store)

-- Two channels that attach to one methods object have copies of it, each bound to its own channel
-- with the same attributes, and the object itself keeps its state.
pub attach_isolated :
    (first second : ℕ) (m : MethodsObject) (store : Store) (n : ℕ)
    → get_elem? store n ≡ some m
    → let (a, one) = attach first m store in
      let (b, two) = attach second m one in
      (get_elem? two a ≡ some (record m { channel = some first }))
      × (get_elem? two b ≡ some (record m { channel = some second }))
      × (get_elem? two n ≡ some m)
attach_isolated first second m store n at =
    let x = record m { channel = some first } in
    let y = record m { channel = some second } in
    let one = store ++ (x ∷ []) in
    rw (attach-eq first m store) (
      rw (attach-eq second m one) (
        get_elem?-old y x one (length store) (get_elem?-new x store),
        get_elem?-new y one,
        get_elem?-old y m one n (get_elem?-old x m store n at),
      ))
