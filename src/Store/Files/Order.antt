-- ===== src/Store/Files/Order.antt =====
-- Sorting a list by a key keeps its elements, found by their key.
use local_dns.Base.{
  ◌≡◌, refl, ◌∙◌, List, [], ◌∷◌, false, Bytes, arith, bytes_eq, bytes_eq_iff, All, Bool-cases, inl,
  inr,
}
use local_dns.Dict.Listed.{find, Lacking, Distinct}
use local_dns.Store.Files.{less, insert, sort_by}

module _ {A : Type 0} (key : A → Bytes) where
  -- Where a key stands once, the order of two elements does not matter to a search.
  find-swap :
      (k : Bytes) (a b : A) (l : List A)
      → bytes_eq (key b) (key a) ≡ false
      → find key k (b ∷ a ∷ l) ≡ find key k (a ∷ b ∷ l)
  unfolding find
  find-swap k a b l h =
      ground (arith, bytes_eq_iff (key b) (key a), bytes_eq_iff (key a) k, bytes_eq_iff (key b) k)

  find-behind :
      (k : Bytes) (b : A) (l m : List A)
      → find key k l ≡ find key k m
      → find key k (b ∷ l) ≡ find key k (b ∷ m)
  unfolding find
  find-behind k b l m e = rw e refl

  find-insert :
      (k : Bytes) (a : A) (l : List A)
      → Lacking key (key a) l
      → find key k (insert key a l) ≡ find key k (a ∷ l)
  unfolding insert
  find-insert k a [] h = refl
  find-insert k a (b ∷ l) (hb, h) = elim (Bool-cases (less (key b) (key a))) [
    | inl behind ↦
        rw behind
          (find-behind k b (insert key a l) (a ∷ l) (find-insert k a l h) ∙ find-swap k a b l hb)
    | inr before ↦ rw before refl
  ]

  module _ (P : A → Type 0) where
    pub All-insert : (a : A) (l : List A) → P a → All P l → All P (insert key a l)
    unfolding insert
    All-insert a [] p h = (p, tt)
    All-insert a (b ∷ l) p (hb, h) = elim (Bool-cases (less (key b) (key a))) [
      | inl behind ↦ rw behind (hb, All-insert a l p h)
      | inr before ↦ rw before (p, (hb, h))
    ]

    pub All-sort_by : (l : List A) → All P l → All P (sort_by key l)
    unfolding sort_by
    All-sort_by [] h = tt
    All-sort_by (a ∷ l) (p, h) = All-insert a (sort_by key l) p (All-sort_by l h)

  insert-Distinct :
      (a : A) (l : List A) → Lacking key (key a) l → Distinct key l → Distinct key (insert key a l)
  unfolding insert
  insert-Distinct a [] f d = (tt, tt)
  insert-Distinct a (b ∷ l) (fb, f) (g, d) = elim (Bool-cases (less (key b) (key a))) [
    | inl behind ↦ rw behind (
      All-insert (λ c. bytes_eq (key c) (key b) ≡ false) a l
          (ground (arith, bytes_eq_iff (key b) (key a), bytes_eq_iff (key a) (key b))) g,
      insert-Distinct a l f d,
    )
    | inr before ↦ rw before ((fb, f), (g, d))
  ]

  pub sort_by-Distinct : (l : List A) → Distinct key l → Distinct key (sort_by key l)
  unfolding sort_by
  sort_by-Distinct [] d = tt
  sort_by-Distinct (a ∷ l) (f, d) =
      insert-Distinct a (sort_by key l) (All-sort_by (λ c. bytes_eq (key c) (key a) ≡ false) l f)
        (sort_by-Distinct l d)

  pub find-sort_by :
      (k : Bytes) (l : List A) → Distinct key l → find key k (sort_by key l) ≡ find key k l
  unfolding sort_by
  find-sort_by k [] d = refl
  find-sort_by k (a ∷ l) (f, d) =
      find-insert k a (sort_by key l) (All-sort_by (λ c. bytes_eq (key c) (key a) ≡ false) l f)
      ∙ find-behind k a (sort_by key l) l (find-sort_by k l d)
