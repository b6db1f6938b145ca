-- ===== src/Things/Paging.antt =====
-- `updateThings` (web/src/reactives/useThingsAndShadows.js) gathers all pages of an honest server.
use tio.Common.{
  ℕ, zero, suc, ◌+◌, ◌*◌, ◌<◌, ◌≤◌, ◌≡◌, ◌∙◌, refl, sym, ap, true, [], ◌∷◌, ◌++◌, List, Option,
  some, length, ltb, inl, inr, if◌then◌else◌, arith, ◌⊎◌, subst,
}
use tio.Store.{AppState}
use tio.Things.{Page, fetched, fetch_from, update_things, with_fetched}

zero_page : (size : ℕ) → 0 ≡ 0 * size
zero_page size = omega arith

next_start : (k size : ℕ) → k * size + size ≡ suc k * size
next_start k size = omega arith

add_zero_left : (n : ℕ) → n ≡ 0 + n
add_zero_left n = omega arith

lt_or_le : (a b : ℕ) → (a < b) ⊎ (b ≤ a)
lt_or_le a b = ground arith

-- The test of the loop, and the two ends it has.
module _ {A : Type 0} where
  more : (a b : ℕ) (x y z : A) → a < b → x ≡ z → (if ltb a b then x else y) ≡ z
  more a b x y z h e = ground arith

  enough : (a b : ℕ) (x y z : A) → b ≤ a → y ≡ z → (if ltb a b then x else y) ≡ z
  enough a b x y z h e = ground arith

add_one : (n : ℕ) → n + 1 ≡ suc n
add_one n = omega arith

suc_add_left : (m n : ℕ) → suc (m + n) ≡ suc m + n
suc_add_left m n = omega arith

module _ {T : Type 0} where
  abbrev pub take : ℕ → List T → List T
  take zero xs = []
  take (suc n) [] = []
  take (suc n) (x ∷ xs) = x ∷ take n xs

  abbrev pub drop : ℕ → List T → List T
  drop zero xs = xs
  drop (suc n) [] = []
  drop (suc n) (x ∷ xs) = drop n xs

  -- The server holds the things `xs` and answers with pages of `size`, the first of index 1.
  abbrev pub IsPaged : (size : ℕ) → List T → (ℕ → Option (Page T)) → Type 0
  IsPaged size xs server =
      (k : ℕ)
      → server (suc k)
        ≡ some (record { content = take size (drop (k * size) xs); total = length xs })

  take_all : (n : ℕ) (xs : List T) → length xs ≤ n → take n xs ≡ xs
  take_all zero [] h = refl
  take_all zero (x ∷ xs) h = absurd (omega arith)
  take_all (suc n) [] h = refl
  take_all (suc n) (x ∷ xs) h = ap (x ∷◌) (take_all n xs (omega arith))

  length-take_le : (n : ℕ) (xs : List T) → n ≤ length xs → length (take n xs) ≡ n
  length-take_le zero xs h = refl
  length-take_le (suc n) [] h = absurd (omega arith)
  length-take_le (suc n) (x ∷ xs) h = ap suc (length-take_le n xs (omega arith))

  take_nil : (n : ℕ) → take n [] ≡ []
  take_nil zero = refl
  take_nil (suc n) = refl

  take_add : (m n : ℕ) (xs : List T) → take m xs ++ take n (drop m xs) ≡ take (m + n) xs
  take_add zero n xs = ap (λ k. take k xs) (add_zero_left n)
  take_add (suc m) n [] = take_nil n ∙ ap (λ k. take k []) (suc_add_left m n)
  take_add (suc m) n (x ∷ xs) =
      ap (x ∷◌) (take_add m n xs) ∙ ap (λ k. take k (x ∷ xs)) (suc_add_left m n)

  take_next :
      (k size : ℕ) (xs : List T)
      → take (k * size) xs ++ take size (drop (k * size) xs) ≡ take (suc k * size) xs
  take_next k size xs = take_add (k * size) size xs ∙ ap (λ m. take m xs) (next_start k size)

  -- One page more.
  fetch_from-page :
      (size : ℕ) (xs : List T) (server : ℕ → Option (Page T)) (fuel k : ℕ)
      → IsPaged size xs server
      → fetch_from (suc fuel) (suc k) (take (k * size) xs) server ≡ (
          if ltb (length (take (suc k * size) xs)) (length xs)
          then fetch_from fuel (suc k + 1) (take (suc k * size) xs) server
          else fetched (take (suc k * size) xs))
  unfolding fetch_from
  fetch_from-page size xs server fuel k p = rw (fetch_from, p k, take_next k size xs) refl

  fetch_from-IsPaged :
      (size : ℕ) (xs : List T) (server : ℕ → Option (Page T)) (fuel k : ℕ)
      → IsPaged size xs server
      → 0 < size
      → k * size ≤ length xs
      → length xs < fuel + k * size
      → fetch_from fuel (suc k) (take (k * size) xs) server ≡ fetched xs
  fetch_from-IsPaged size xs server zero k p s h f = absurd (omega arith)
  fetch_from-IsPaged size xs server (suc fuel) k p s h f =
      fetch_from-page size xs server fuel k p ∙ elim (lt_or_le (suc k * size) (length xs)) [
        | inl h' ↦
            more _ _ _ _ _
              (subst (λ n. n < length xs) (sym (length-take_le (suc k * size) xs (omega arith))) h')
              (ap (λ i. fetch_from fuel i (take (suc k * size) xs) server) (add_one (suc k))
                ∙ fetch_from-IsPaged size xs server fuel (suc k) p s (omega arith) (omega arith))
        | inr h' ↦
            let all = take_all (suc k * size) xs h' in
            enough _ _ _ _ _ (subst (λ l. length xs ≤ length l) (sym all) (omega arith))
              (ap fetched all)
      ]

  -- The things that are shown are all that the server has: with pages of at least one thing, and a
  -- server whose things do not change meanwhile, `updateThings` ends within one request more than
  -- there are things, stores exactly the server's list in its order, changes no other part of the
  -- state, and answers true.
  pub update_things-IsPaged :
      {S : Type 0} (size : ℕ) (xs : List T) (server : ℕ → Option (Page T)) (fuel : ℕ)
      (st : AppState T S)
      → IsPaged size xs server
      → 0 < size
      → length xs < fuel
      → update_things fuel server st ≡ (record st { things = xs }, true)
  unfolding update_things
  update_things-IsPaged size xs server fuel st p s h =
      ap (λ f. with_fetched f st)
        (ap (λ m. fetch_from fuel 1 (take m xs) server) (zero_page size)
          ∙ fetch_from-IsPaged size xs server fuel 0 p s (omega arith) (omega arith))
