-- ===== src/Dict/Entries.antt =====
-- A property of every entry of a map.
use local_dns.Base.{
  ◌≡◌, false, refl, [], ◌∷◌, Bytes, none, some, arith, bytes_eq, bytes_eq→eq, bytes_eq_iff,
  bytes_eq_refl, All, Bool-cases, ◌⊎◌, inl, inr,
}
use local_dns.Dict.{Dict, get, put, remove, keys, Fresh, IsDict}

module _ {V : Type 0} (P : Bytes → V → Type 0) where
  abbrev pub Holds : Dict V → Type 0
  Holds = All (λ e. P e.0 e.1)

  pub Holds-get : (k : Bytes) (v : V) (m : Dict V) → Holds m → get k m ≡ some v → P k v
  unfolding get
  Holds-get k v [] h e = cc
  Holds-get k v ((j, w) ∷ m) (hj, h) e = elim (Bool-cases (bytes_eq j k)) [
    | inl same ↦
        let jk = bytes_eq→eq j k same in let wv : w ≡ v = ground arith in rw (← jk, ← wv) hj
    | inr other ↦ Holds-get k v m h (ground arith)
  ]

  pub Holds-put : (k : Bytes) (v : V) (m : Dict V) → P k v → Holds m → Holds (put k v m)
  unfolding put
  Holds-put k v [] p h = (p, tt)
  Holds-put k v ((j, w) ∷ m) p (hj, h) = elim (Bool-cases (bytes_eq j k)) [
    | inl same ↦ rw same (rw (bytes_eq→eq j k same) p, h)
    | inr other ↦ rw other (hj, Holds-put k v m p h)
  ]

  pub Holds-remove : (k : Bytes) (m : Dict V) → Holds m → Holds (remove k m)
  unfolding remove
  Holds-remove k [] h = tt
  Holds-remove k ((j, w) ∷ m) (hj, h) = elim (Bool-cases (bytes_eq j k)) [
    | inl same ↦ rw same (Holds-remove k m h)
    | inr other ↦ rw other (hj, Holds-remove k m h)
  ]

-- A property of every key.
module _ {V : Type 0} (P : Bytes → Type 0) where
  pub All-keys : (m : Dict V) (k : Bytes) → All P (keys m) → (get k m ≡ none) ⊎ P k
  unfolding get keys
  All-keys [] k h = inl refl
  All-keys ((j, d) ∷ m) k (p, h) = elim (Bool-cases (bytes_eq j k)) [
    | inl same ↦ inr (rw (bytes_eq→eq j k same) at p)
    | inr other ↦ rw other (All-keys m k h)
  ]

-- Each entry of a map is found under its key.
module _ {V : Type 0} where
  behind :
      (j : Bytes) (w : V) (part whole : Dict V)
      → Fresh j part
      → Holds (λ k v. get k whole ≡ some v) part
      → Holds (λ k v. get k ((j, w) ∷ whole) ≡ some v) part
  unfolding get
  behind j w [] whole f h = tt
  behind j w ((k, v) ∷ part) whole (e, f) (g, h) =
      let other : bytes_eq j k ≡ false = ground (arith, bytes_eq_iff k j, bytes_eq_iff j k) in
      (rw other g, behind j w part whole f h)

  pub Holds-self : (m : Dict V) → IsDict m → Holds (λ k v. get k m ≡ some v) m
  unfolding get
  Holds-self [] d = tt
  Holds-self ((j, w) ∷ m) (f, d) = (rw (bytes_eq_refl j) refl, behind j w m m f (Holds-self m d))
