-- ===== src/Store/Files/Canonical.antt =====
-- A list that is sorted by a key, with each key once, is given by what is found in it.
use local_dns.Base.{
  ◌≡◌, refl, sym, ap, ◌∙◌, List, [], ◌∷◌, true, false, Bytes, none, some, arith, bytes_eq,
  bytes_eq_iff, bytes_eq_refl, bytes_eq→eq, All, Bool-cases, inl, inr,
}
use local_dns.Dict.Listed.{find, find-Lacking, Lacking, Distinct}
use local_dns.Store.Files.{less, insert, sort_by}
use local_dns.Store.Files.Less.{less_irrefl, less_trans, less_total}
use local_dns.Store.Files.Order.{All-insert, All-sort_by}

module _ {A : Type 0} (key : A → Bytes) where
  -- All keys are above the one that is given.
  abbrev Above : Bytes → List A → Type 0
  Above k = All (λ a. less k (key a) ≡ true)

  abbrev IsStrict : List A → Type 0
  IsStrict [] = Unit
  IsStrict (a ∷ l) = Above (key a) l × IsStrict l

  Above-trans : (j k : Bytes) (l : List A) → less j k ≡ true → Above k l → Above j l
  Above-trans j k [] h f = tt
  Above-trans j k (a ∷ l) h (g, f) = (less_trans j k (key a) h g, Above-trans j k l h f)

  Above-Lacking : (k : Bytes) (l : List A) → Above k l → Lacking key k l
  Above-Lacking k [] f = tt
  Above-Lacking k (a ∷ l) (g, f) =
      (ground (arith, bytes_eq_iff (key a) k, less_irrefl k), Above-Lacking k l f)

  insert-IsStrict :
      (a : A) (l : List A) → Lacking key (key a) l → IsStrict l → IsStrict (insert key a l)
  unfolding insert
  insert-IsStrict a [] f h = (tt, tt)
  insert-IsStrict a (b ∷ l) (fb, f) (g, h) = elim (Bool-cases (less (key b) (key a))) [
    | inl behind ↦
        rw behind
          (All-insert key (λ c. less (key b) (key c) ≡ true) a l behind g, insert-IsStrict a l f h)
    | inr before ↦
        let under : less (key a) (key b) ≡ true =
          ground (arith, bytes_eq_iff (key b) (key a), less_total (key b) (key a)) in
        rw before ((under, Above-trans (key a) (key b) l under g), (g, h))
  ]

  pub sort_by-IsStrict : (l : List A) → Distinct key l → IsStrict (sort_by key l)
  unfolding sort_by
  sort_by-IsStrict [] d = tt
  sort_by-IsStrict (a ∷ l) (f, d) =
      insert-IsStrict a (sort_by key l)
        (All-sort_by key (λ c. bytes_eq (key c) (key a) ≡ false) l f) (sort_by-IsStrict l d)

  find-first : (a : A) (l : List A) → find key (key a) (a ∷ l) ≡ some a
  unfolding find
  find-first a l = rw (bytes_eq_refl (key a)) refl

  find-later :
      (k : Bytes) (a : A) (l : List A)
      → bytes_eq (key a) k ≡ false
      → find key k (a ∷ l) ≡ find key k l
  unfolding find
  find-later k a l h = rw h refl

  -- A key below the first one is not found.
  find-under :
      (k : Bytes) (b : A) (m : List A)
      → Above (key b) m
      → less k (key b) ≡ true
      → find key k (b ∷ m) ≡ none
  find-under k b m f h =
      find-Lacking key k (b ∷ m) (Above-Lacking k (b ∷ m) (h, Above-trans k (key b) m h f))

  -- Two such lists in which every key finds the same start with the same key.
  first_key :
      (a b : A) (l m : List A)
      → IsStrict (a ∷ l)
      → IsStrict (b ∷ m)
      → ((k : Bytes) → find key k (a ∷ l) ≡ find key k (b ∷ m))
      → key a ≡ key b
  first_key a b l m (f, h) (g, i) e = elim (Bool-cases (less (key a) (key b))) [
    | inl under ↦
        let found : some a ≡ none =
          sym (find-first a l) ∙ e (key a) ∙ find-under (key a) b m g under in
        cc
    | inr least ↦ elim (Bool-cases (less (key b) (key a))) [
      | inl over ↦
          let found : some b ≡ none =
            sym (find-first b m) ∙ sym (e (key b)) ∙ find-under (key b) a l f over in
          cc
      | inr most ↦ less_total (key a) (key b) least most
    ]
  ]

  pub IsStrict-ext :
      (l m : List A) → IsStrict l → IsStrict m → ((k : Bytes) → find key k l ≡ find key k m) → l ≡ m
  unfolding find
  IsStrict-ext [] [] h i e = refl
  IsStrict-ext [] (b ∷ m) h i e = let found : none ≡ some b = e (key b) ∙ find-first b m in cc
  IsStrict-ext (a ∷ l) [] h i e = let found : none ≡ some a = sym (e (key a)) ∙ find-first a l in cc
  IsStrict-ext (a ∷ l) (b ∷ m) (f, h) (g, i) e =
      let same = first_key a b l m (f, h) (g, i) e in
      let head : some a ≡ some b =
        sym (find-first a l) ∙ e (key a) ∙ ap (λ k. find key k (b ∷ m)) same ∙ find-first b m in
      let tail = IsStrict-ext l m h i (λ k. elim (Bool-cases (bytes_eq (key a) k)) [
        | inl this ↦
            let ak = bytes_eq→eq (key a) k this in
            find-Lacking key k l (Above-Lacking k l (rw ak at f))
            ∙ sym (find-Lacking key k m (Above-Lacking k m (rw (← same, ak) at g)))
        | inr other ↦ sym (find-later k a l other) ∙ e k ∙ find-later k b m (rw same at other)
      ]) in
      cc
