-- ===== src/Dict.antt =====
-- Go's `map[string]*T`, as its entries. A put keeps the place of an old entry and adds a new one at
-- the end; the order stands for the unknown order in which Go walks a map.
pub mod Entries
pub mod Listed
use local_dns.Base.{
  ℕ, zero, suc, ◌+◌, ◌≤◌, ◌≡◌, ◌≢◌, refl, sym, ap, ◌∙◌, List, [], ◌∷◌, ◌++◌, Bool, true, false,
  ◌||◌, Bytes, Option, none, some, arith, bytes_eq, bytes_eq_iff, bytes_eq→eq, bytes_eq_refl,
  if◌then◌else◌, length, All, map, Bool-cases, inl, inr,
}

abbrev pub Dict {ℓ} : Type ℓ → Type ℓ
Dict V = List (Bytes × V)

module _ {ℓ} {V : Type ℓ} where
  -- `v, ok := m[k]`
  unfoldable pub get : Bytes → Dict V → Option V
  get k [] = none
  get k ((j, v) ∷ m) = if bytes_eq j k then some v else get k m

  -- `m[k] = v`
  unfoldable pub put : Bytes → V → Dict V → Dict V
  put k v [] = (k, v) ∷ []
  put k v ((j, w) ∷ m) = if bytes_eq j k then (j, v) ∷ m else (j, w) ∷ put k v m

  -- `delete(m, k)`
  unfoldable pub remove : Bytes → Dict V → Dict V
  remove k [] = []
  remove k ((j, v) ∷ m) = let rest = remove k m in if bytes_eq j k then rest else (j, v) ∷ rest

  -- `_, ok := m[k]`
  unfoldable pub has : Bytes → Dict V → Bool
  unfolding get
  has k m = elim (get k m) [ none ↦ false | some v ↦ true ]

  -- The values, in the order of the walk.
  pub values : Dict V → List V
  values = map (λ e. e.1)

  pub keys : Dict V → List Bytes
  keys = map (λ e. e.0)

  pub get-put :
      (k j : Bytes) (v : V) (m : Dict V)
      → get j (put k v m) ≡ (if bytes_eq k j then some v else get j m)
  unfolding get put
  get-put k j v [] = refl
  get-put k j v ((i, w) ∷ m) =
      ground (arith, get-put k j v m, bytes_eq_iff k j, bytes_eq_iff i k, bytes_eq_iff i j)

  pub get-put_self : (k : Bytes) (v : V) (m : Dict V) → get k (put k v m) ≡ some v
  get-put_self k v m = get-put k k v m ∙ rw (bytes_eq_refl k)

  pub get-remove :
      (k j : Bytes) (m : Dict V) → get j (remove k m) ≡ (if bytes_eq k j then none else get j m)
  unfolding get remove
  get-remove k j [] = ground arith
  get-remove k j ((i, w) ∷ m) =
      ground (arith, get-remove k j m, bytes_eq_iff k j, bytes_eq_iff i k, bytes_eq_iff i j)

-- The key is not among the keys.
abbrev pub Fresh {ℓ} : {V : Type ℓ} → Bytes → Dict V → Type 0
Fresh k [] = Unit
Fresh k ((j, v) ∷ m) = (bytes_eq j k ≡ false) × Fresh k m

-- No key stands twice, as in a map.
abbrev pub IsDict {ℓ} : {V : Type ℓ} → Dict V → Type 0
IsDict [] = Unit
IsDict ((j, v) ∷ m) = Fresh j m × IsDict m

module _ {ℓ} {V : Type ℓ} where
  put-Fresh :
      (i k : Bytes) (v : V) (m : Dict V) → bytes_eq k i ≡ false → Fresh i m → Fresh i (put k v m)
  unfolding put
  put-Fresh i k v [] h f = (h, tt)
  put-Fresh i k v ((j, w) ∷ m) h (hj, f) = elim (Bool-cases (bytes_eq j k)) [
    | inl same ↦ rw same (hj, f)
    | inr other ↦ rw other (hj, put-Fresh i k v m h f)
  ]

  remove-Fresh : (i k : Bytes) (m : Dict V) → Fresh i m → Fresh i (remove k m)
  unfolding remove
  remove-Fresh i k [] f = tt
  remove-Fresh i k ((j, w) ∷ m) (hj, f) = elim (Bool-cases (bytes_eq j k)) [
    | inl same ↦ rw same (remove-Fresh i k m f)
    | inr other ↦ rw other (hj, remove-Fresh i k m f)
  ]

  -- Both writes keep every key single.
  pub put-IsDict : (k : Bytes) (v : V) (m : Dict V) → IsDict m → IsDict (put k v m)
  unfolding put
  put-IsDict k v [] h = (tt, tt)
  put-IsDict k v ((j, w) ∷ m) (f, h) = elim (Bool-cases (bytes_eq j k)) [
    | inl same ↦ rw same (f, h)
    | inr other ↦ rw other (
      put-Fresh j k v m (ground (arith, bytes_eq_iff j k, bytes_eq_iff k j)) f,
      put-IsDict k v m h,
    )
  ]

  pub remove-IsDict : (k : Bytes) (m : Dict V) → IsDict m → IsDict (remove k m)
  unfolding remove
  remove-IsDict k [] h = tt
  remove-IsDict k ((j, w) ∷ m) (f, h) = elim (Bool-cases (bytes_eq j k)) [
    | inl same ↦ rw same (remove-IsDict k m h)
    | inr other ↦ rw other (remove-Fresh j k m f, remove-IsDict k m h)
  ]

pub ruleset dict_laws = (get-put, get-put_self, get-remove)
