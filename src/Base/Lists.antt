-- ===== src/Base/Lists.antt =====
-- Lists measured and indexed by native numbers, under the library's names, and Go's slices.
use Prim.Native.Nat.{ℕ, zero, suc, ◌+◌, ◌-◌, ◌≤◌, ◌<◌, min}
use mathlib.Core.Path.{◌≡◌, refl, ap, sym, ◌∙◌}
use mathlib.Core.List.{List, [], ◌∷◌, ◌++◌, map}
use native.Mathlib.Omega.{arith}

module _ {ℓ} {A : Type ℓ} where
  abbrev pub length : List A → ℕ
  length [] = 0
  length (x ∷ xs) = suc (length xs)

  abbrev pub get_or : List A → ℕ → A → A
  get_or [] i d = d
  get_or (x ∷ xs) zero d = x
  get_or (x ∷ xs) (suc i) d = get_or xs i d

  abbrev pub take : ℕ → List A → List A
  take zero xs = []
  take (suc n) [] = []
  take (suc n) (x ∷ xs) = x ∷ take n xs

  abbrev pub drop : ℕ → List A → List A
  drop zero xs = xs
  drop (suc n) [] = []
  drop (suc n) (x ∷ xs) = drop n xs

  abbrev pub replicate : ℕ → A → List A
  replicate zero a = []
  replicate (suc n) a = a ∷ replicate n a

  -- `xs[i:j]`
  unfoldable pub slice : List A → ℕ → ℕ → List A
  slice xs i j = take (j - i) (drop i xs)

module _ {ℓ} {A : Type ℓ} where
  pub length-append : (xs ys : List A) → length (xs ++ ys) ≡ length xs + length ys
  length-append [] ys = omega arith
  length-append (x ∷ xs) ys = omega (arith, length-append xs ys)

  pub take_of_length-append : (xs ys : List A) (n : ℕ) → n ≡ length xs → take n (xs ++ ys) ≡ xs
  take_of_length-append [] ys n h = rw h
  take_of_length-append (x ∷ xs) ys zero h = absurd (omega arith)
  take_of_length-append (x ∷ xs) ys (suc n) h =
      ap (◌∷◌ x) (take_of_length-append xs ys n (omega arith))

  pub drop_of_length-append :
      (xs ys : List A) (n k : ℕ) → n ≡ length xs + k → drop n (xs ++ ys) ≡ drop k ys
  drop_of_length-append [] ys n k h = let e : n ≡ k = omega arith in rw e
  drop_of_length-append (x ∷ xs) ys zero k h = absurd (omega arith)
  drop_of_length-append (x ∷ xs) ys (suc n) k h = drop_of_length-append xs ys n k (omega arith)

  pub get_or-append :
      (xs ys : List A) (n k : ℕ) (d : A) → n ≡ length xs + k → get_or (xs ++ ys) n d ≡ get_or ys k d
  get_or-append [] ys n k d h = let e : n ≡ k = omega arith in rw e
  get_or-append (x ∷ xs) ys zero k d h = absurd (omega arith)
  get_or-append (x ∷ xs) ys (suc n) k d h = get_or-append xs ys n k d (omega arith)

  pub get_or-append_left :
      (xs ys : List A) (n : ℕ) (d : A) → n < length xs → get_or (xs ++ ys) n d ≡ get_or xs n d
  get_or-append_left [] ys n d h = absurd (omega arith)
  get_or-append_left (x ∷ xs) ys zero d h = refl
  get_or-append_left (x ∷ xs) ys (suc n) d h = get_or-append_left xs ys n d (omega arith)

  -- A slice that starts behind `xs` and is as long as `ys` is `ys`.
  pub slice-append :
      (xs ys zs : List A) (i j : ℕ)
      → i ≡ length xs
      → j ≡ length xs + length ys
      → slice (xs ++ (ys ++ zs)) i j ≡ ys
  unfolding slice
  slice-append xs ys zs i j hi hj =
      rw (drop_of_length-append xs (ys ++ zs) i 0 (omega arith))
        (take_of_length-append ys zs (j - i) (omega arith))

  pub length-take : (n : ℕ) (xs : List A) → length (take n xs) ≡ min n (length xs)
  length-take zero xs = omega arith
  length-take (suc n) [] = omega arith
  length-take (suc n) (x ∷ xs) = omega (arith, length-take n xs)

  pub length-drop : (n : ℕ) (xs : List A) → length (drop n xs) ≡ length xs - n
  length-drop zero xs = omega arith
  length-drop (suc n) [] = omega arith
  length-drop (suc n) (x ∷ xs) = omega (arith, length-drop n xs)

  pub length-slice : (xs : List A) (i j : ℕ) → i ≤ j → j ≤ length xs → length (slice xs i j) ≡ j - i
  unfolding slice
  length-slice xs i j h k = omega (arith, length-take (j - i) (drop i xs), length-drop i xs)

  pub length-map {κ} : {B : Type κ} (xs : List A) (f : A → B) → length (map f xs) ≡ length xs
  length-map [] f = refl
  length-map (x ∷ xs) f = ap suc (length-map xs f)

module _ {ℓ} {A : Type ℓ} where
  pub take-append_left : (n : ℕ) (xs ys : List A) → n ≤ length xs → take n (xs ++ ys) ≡ take n xs
  take-append_left zero xs ys h = refl
  take-append_left (suc n) [] ys h = absurd (omega arith)
  take-append_left (suc n) (x ∷ xs) ys h = ap (◌∷◌ x) (take-append_left n xs ys (omega arith))

  pub drop-append_left :
      (n : ℕ) (xs ys : List A) → n ≤ length xs → drop n (xs ++ ys) ≡ drop n xs ++ ys
  drop-append_left zero xs ys h = refl
  drop-append_left (suc n) [] ys h = absurd (omega arith)
  drop-append_left (suc n) (x ∷ xs) ys h = drop-append_left n xs ys (omega arith)

module _ {ℓ} {A : Type ℓ} where
  take-append-drop : (n : ℕ) (xs : List A) → take n xs ++ drop n xs ≡ xs
  take-append-drop zero xs = refl
  take-append-drop (suc n) [] = refl
  take-append-drop (suc n) (x ∷ xs) = ap (◌∷◌ x) (take-append-drop n xs)

  drop-nil : (i : ℕ) → drop {A = A} i [] ≡ []
  drop-nil zero = refl
  drop-nil (suc i) = refl

  drop-drop : (i j : ℕ) (xs : List A) → drop j (drop i xs) ≡ drop (i + j) xs
  drop-drop zero j xs = let e : 0 + j ≡ j = omega arith in rw e
  drop-drop (suc i) j [] = drop-nil j ∙ sym (drop-nil (suc i + j))
  drop-drop (suc i) j (x ∷ xs) =
      let e : suc i + j ≡ suc (i + j) = omega arith in rw e (drop-drop i j xs)

  -- A list is its part before `i`, its slice from `i` to `j`, and the rest.
  pub slice_apart : (xs : List A) (i j : ℕ) → i ≤ j → take i xs ++ (slice xs i j ++ drop j xs) ≡ xs
  unfolding slice
  slice_apart xs i j h =
      let e : i + (j - i) ≡ j = omega arith in
      let d : drop (j - i) (drop i xs) ≡ drop j xs =
        drop-drop i (j - i) xs ∙ ap (λ k. drop k xs) e in
      rw (← d, take-append-drop (j - i) (drop i xs)) (take-append-drop i xs)

module _ {ℓ} {A : Type ℓ} (p body t : List A) where
  -- List A and slices inside the body, seen from the body.
  pub get_or-inside :
      (i : ℕ) (d : A)
      → length p ≤ i
      → i < length p + length body
      → get_or (p ++ (body ++ t)) i d ≡ get_or body (i - length p) d
  get_or-inside i d lo hi =
      get_or-append p (body ++ t) i (i - length p) d (omega arith)
      ∙ get_or-append_left body t (i - length p) d (omega arith)

  pub slice-inside :
      (i j : ℕ)
      → length p ≤ i
      → i ≤ j
      → j ≤ length p + length body
      → slice (p ++ (body ++ t)) i j ≡ take (j - i) (drop (i - length p) body)
  unfolding slice
  slice-inside i j lo mid hi =
      rw
        (
          drop_of_length-append p (body ++ t) i (i - length p) (omega arith),
          drop-append_left (i - length p) body t (omega arith),
        )
        (take-append_left (j - i) (drop (i - length p) body) t
          (omega (arith, length-drop (i - length p) body)))

module _ {ℓ κ} {A : Type ℓ} (P : A → Type κ) where
  -- Every element satisfies `P`.
  abbrev pub All : List A → Type κ
  All [] = Unit
  All (x ∷ xs) = P x × All xs

  pub All-append : (xs ys : List A) → All xs → All ys → All (xs ++ ys)
  All-append [] ys h k = k
  All-append (x ∷ xs) ys (px, h) k = (px, All-append xs ys h k)

  pub All-take : (n : ℕ) (xs : List A) → All xs → All (take n xs)
  All-take zero xs h = tt
  All-take (suc n) [] h = tt
  All-take (suc n) (x ∷ xs) (px, h) = (px, All-take n xs h)

  pub All-drop : (n : ℕ) (xs : List A) → All xs → All (drop n xs)
  All-drop zero xs h = h
  All-drop (suc n) [] h = tt
  All-drop (suc n) (x ∷ xs) (px, h) = All-drop n xs h

  pub All-slice : (xs : List A) (i j : ℕ) → All xs → All (slice xs i j)
  unfolding slice
  All-slice xs i j h = All-take (j - i) (drop i xs) (All-drop i xs h)
