-- ===== src/Utils/Spelling.antt =====
-- What the spelling of a name keeps and what it changes.
use fastapi_ws_rpc.Base.{
  ℕ, ◌≡◌, refl, ap, ◌∙◌, Bool, true, false, ◌&&◌, List, [], ◌∷◌, map, All, arith, nat_eq, ◌||◌, not,
  ◌⊎◌, inl, inr, if_cases, if_both,
}
use fastapi_ws_rpc.Utils.{
  is_upper, is_lower, is_digit, is_newline, underscore, split_words, split_capitals, to_lower,
  convert_camelcase_to_underscore,
}

abbrev pub HasNoCapitals : List ℕ → Type 0
HasNoCapitals = All (λ c. is_upper c ≡ false)

-- The second text is the first with single underscores put in, each before a capital.
pub data Inserts : List ℕ → List ℕ → Type 0 where
  done : Inserts [] []
  keep : {xs ys : List ℕ} (c : ℕ) → Inserts xs ys → Inserts (c ∷ xs) (c ∷ ys)
  put :
      {xs ys : List ℕ} (u : ℕ)
      → is_upper u ≡ true
      → Inserts xs ys
      → Inserts (u ∷ xs) (underscore ∷ u ∷ ys)

-- No capital follows a lower letter or a digit.
abbrev pub HasNoSeam : List ℕ → Type 0
HasNoSeam [] = Unit
HasNoSeam (c ∷ []) = Unit
HasNoSeam (c ∷ u ∷ cs) = (((is_lower c || is_digit c) && is_upper u) ≡ false) × HasNoSeam (u ∷ cs)

-- The character before a capital that begins a word: where a word can begin without an underscore
-- of the first substitution.
abbrev pub is_border : ℕ → Bool
is_border c = is_newline c || nat_eq c underscore || is_lower c

-- A capital before a lower letter follows an underscore, a lower letter or a newline, or comes
-- first.
abbrev pub HasWords : List ℕ → Type 0
HasWords [] = Unit
HasWords (c ∷ []) = Unit
HasWords (c ∷ u ∷ []) = Unit
HasWords (c ∷ u ∷ l ∷ cs) =
    ((is_upper u && is_lower l && not (is_border c)) ≡ false) × HasWords (u ∷ l ∷ cs)

split_words-Inserts : (inside : Bool) (cs : List ℕ) → Inserts cs (split_words inside cs)
unfolding split_words
split_words-Inserts inside [] = done
split_words-Inserts inside (c ∷ []) = keep c done
split_words-Inserts inside (c ∷ u ∷ []) = keep c (keep u done)
split_words-Inserts inside (c ∷ u ∷ l ∷ cs) =
    if_cases (Inserts (c ∷ u ∷ l ∷ cs))
      (not (inside && is_lower c) && not (is_newline c) && is_upper u && is_lower l)
      (λ h. keep c (put u (ground (arith, h)) (keep l (split_words-Inserts true cs))))
      (λ h. keep c (split_words-Inserts (inside && is_lower c) (u ∷ l ∷ cs)))

split_capitals-Inserts : (cs : List ℕ) → Inserts cs (split_capitals cs)
unfolding split_capitals
split_capitals-Inserts [] = done
split_capitals-Inserts (c ∷ []) = keep c done
split_capitals-Inserts (c ∷ u ∷ cs) =
    if_cases (Inserts (c ∷ u ∷ cs)) ((is_lower c || is_digit c) && is_upper u)
      (λ h. keep c (put u (ground (arith, h)) (split_capitals-Inserts cs)))
      (λ h. keep c (split_capitals-Inserts (u ∷ cs)))

capital-HasNoSeam : (u : ℕ) (cs : List ℕ) → is_upper u ≡ true → HasNoSeam cs → HasNoSeam (u ∷ cs)
capital-HasNoSeam u [] h seamless = tt
capital-HasNoSeam u (c ∷ cs) h seamless = (ground (arith, h), seamless)

split_capitals-head : (u : ℕ) (cs : List ℕ) → (ds : List ℕ) × (split_capitals (u ∷ cs) ≡ u ∷ ds)
unfolding split_capitals
split_capitals-head u [] = ([], refl)
split_capitals-head u (v ∷ cs) =
    if_both (λ (xs : List ℕ). (ds : List ℕ) × (xs ≡ u ∷ ds))
      ((is_lower u || is_digit u) && is_upper v) (underscore ∷ v ∷ split_capitals cs, refl)
      (split_capitals (v ∷ cs), refl)

next-HasNoSeam :
    (c u : ℕ) (xs ds : List ℕ)
    → ((is_lower c || is_digit c) && is_upper u) ≡ false
    → xs ≡ u ∷ ds
    → HasNoSeam xs
    → HasNoSeam (c ∷ xs)
next-HasNoSeam c u [] ds h eq seamless = tt
next-HasNoSeam c u (x ∷ xs) ds h eq seamless = (ground (arith, h, eq), seamless)

split_capitals-HasNoSeam : (cs : List ℕ) → HasNoSeam (split_capitals cs)
unfolding split_capitals
split_capitals-HasNoSeam [] = tt
split_capitals-HasNoSeam (c ∷ []) = tt
split_capitals-HasNoSeam (c ∷ u ∷ cs) =
    if_cases HasNoSeam ((is_lower c || is_digit c) && is_upper u)
      (λ h. (
        ground arith,
        (
          ground arith,
          capital-HasNoSeam u (split_capitals cs) (ground (arith, h)) (split_capitals-HasNoSeam cs),
        ),
      ))
      (λ h.
        let (ds, eq) = split_capitals-head u cs in
        next-HasNoSeam c u (split_capitals (u ∷ cs)) ds h eq (split_capitals-HasNoSeam (u ∷ cs)))

-- A list that begins with `u` and then with `l` or an underscore.
abbrev pub Starts : ℕ → ℕ → List ℕ → Type 0
Starts u l xs = (v : ℕ) × (ds : List ℕ) × (xs ≡ u ∷ v ∷ ds) × ((v ≡ l) ⊎ (v ≡ underscore))

split_words-head :
    (inside : Bool) (u : ℕ) (cs : List ℕ) → (ds : List ℕ) × (split_words inside (u ∷ cs) ≡ u ∷ ds)
unfolding split_words
split_words-head inside u [] = ([], refl)
split_words-head inside u (l ∷ []) = (l ∷ [], refl)
split_words-head inside u (l ∷ x ∷ cs) =
    if_both (λ (xs : List ℕ). (ds : List ℕ) × (xs ≡ u ∷ ds))
      (not (inside && is_lower u) && not (is_newline u) && is_upper l && is_lower x)
      (underscore ∷ l ∷ x ∷ split_words true cs, refl)
      (split_words (inside && is_lower u) (l ∷ x ∷ cs), refl)

split_words-Starts :
    (inside : Bool) (u l : ℕ) (cs : List ℕ) → Starts u l (split_words inside (u ∷ l ∷ cs))
unfolding split_words
split_words-Starts inside u l [] = (l, [], refl, inl refl)
split_words-Starts inside u l (x ∷ cs) =
    let (ds, eq) = split_words-head (inside && is_lower u) l (x ∷ cs) in
    if_both (Starts u l)
      (not (inside && is_lower u) && not (is_newline u) && is_upper l && is_lower x)
      (underscore, l ∷ x ∷ split_words true cs, refl, inr refl) (l, ds, ap (◌∷◌ u) eq, inl refl)

border-HasWords : (c : ℕ) (cs : List ℕ) → is_lower c ≡ true → HasWords cs → HasWords (c ∷ cs)
border-HasWords c [] h words = tt
border-HasWords c (u ∷ []) h words = tt
border-HasWords c (u ∷ l ∷ cs) h words = (ground (arith, h), words)

next-HasWords :
    (c u l : ℕ) (xs : List ℕ)
    → (is_upper u && is_lower l && not (is_border c)) ≡ false
    → Starts u l xs
    → HasWords xs
    → HasWords (c ∷ xs)
next-HasWords c u l [] h starts words = tt
next-HasWords c u l (x ∷ []) h starts words = tt
next-HasWords c u l (x ∷ y ∷ xs) h (v, ds, eq, here) words = (ground (arith, h, eq, here), words)

-- What follows a capital and a lower letter adds no word that begins without an underscore.
later-HasWords : (u l : ℕ) (cs : List ℕ) → is_lower l ≡ true → HasWords cs → HasWords (u ∷ l ∷ cs)
later-HasWords u l [] h words = tt
later-HasWords u l (c ∷ cs) h words = (ground (arith, h), border-HasWords l (c ∷ cs) h words)

split_words-HasWords : (inside : Bool) (cs : List ℕ) → HasWords (split_words inside cs)
unfolding split_words
split_words-HasWords inside [] = tt
split_words-HasWords inside (c ∷ []) = tt
split_words-HasWords inside (c ∷ u ∷ []) = tt
split_words-HasWords inside (c ∷ u ∷ l ∷ cs) =
    if_cases HasWords (not (inside && is_lower c) && not (is_newline c) && is_upper u && is_lower l)
      (λ h. (
        ground arith,
        (
          ground arith,
          later-HasWords u l (split_words true cs) (ground (arith, h))
              (split_words-HasWords true cs),
        ),
      ))
      (λ h.
        next-HasWords c u l (split_words (inside && is_lower c) (u ∷ l ∷ cs)) (ground (arith, h))
          (split_words-Starts (inside && is_lower c) u l cs)
          (split_words-HasWords (inside && is_lower c) (u ∷ l ∷ cs)))

map-HasNoCapitals : (cs : List ℕ) → HasNoCapitals (map to_lower cs)
unfolding to_lower
map-HasNoCapitals [] = tt
map-HasNoCapitals (c ∷ cs) = (ground arith, map-HasNoCapitals cs)

-- Without capitals nothing is found and nothing is changed.
split_words-same : (inside : Bool) (cs : List ℕ) → HasNoCapitals cs → split_words inside cs ≡ cs
unfolding split_words
split_words-same inside [] h = refl
split_words-same inside (c ∷ []) h = refl
split_words-same inside (c ∷ u ∷ []) h = refl
split_words-same inside (c ∷ u ∷ l ∷ cs) h =
    ground (arith, split_words-same (inside && is_lower c) (u ∷ l ∷ cs) h.1)

split_capitals-same : (cs : List ℕ) → HasNoCapitals cs → split_capitals cs ≡ cs
unfolding split_capitals
split_capitals-same [] h = refl
split_capitals-same (c ∷ []) h = refl
split_capitals-same (c ∷ u ∷ cs) h = ground (arith, split_capitals-same (u ∷ cs) h.1)

to_lower-same : (cs : List ℕ) → HasNoCapitals cs → map to_lower cs ≡ cs
unfolding to_lower
to_lower-same [] h = refl
to_lower-same (c ∷ cs) h = ground (arith, to_lower-same cs h.1)

-- Over ASCII, the first substitution puts in single underscores, each before a capital, after
-- which a capital before a lower letter follows an underscore, a lower letter or a newline, or
-- comes first; the second puts in more of them, after which no capital follows a lower letter or a
-- digit; the conversion to lower case lowers the result, has no capital, and changes nothing when
-- it is applied again.
pub convert_splits :
    (name : List ℕ)
    → let words = split_words false name in
      let split = split_capitals words in
      let spelled = convert_camelcase_to_underscore true name in
      Inserts name words
      × HasWords words
      × Inserts words split
      × HasNoSeam split
      × (spelled ≡ map to_lower split)
      × HasNoCapitals spelled
      × (convert_camelcase_to_underscore true spelled ≡ spelled)
unfolding convert_camelcase_to_underscore
convert_splits name =
    let words = split_words false name in
    let split = split_capitals words in
    let plain = map-HasNoCapitals split in
    let spelled = map to_lower split in
    (
      split_words-Inserts false name,
      split_words-HasWords false name,
      split_capitals-Inserts words,
      split_capitals-HasNoSeam words,
      refl,
      plain,
      ap (λ (cs : List ℕ). map to_lower (split_capitals cs)) (split_words-same false spelled plain)
          ∙ ap (map to_lower) (split_capitals-same spelled plain)
          ∙ to_lower-same spelled plain,
    )
