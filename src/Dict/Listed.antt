-- ===== src/Dict/Listed.antt =====
-- The values of a map as a list: found by their key, in any order.
use local_dns.Base.{
  ◌≡◌, refl, ap, suc, length, List, [], ◌∷◌, false, Bytes, Option, none, some, bytes_eq,
  if◌then◌else◌, All,
}
use local_dns.Dict.{Dict, get, values, Fresh, IsDict}
use local_dns.Dict.Entries.{Holds}

pub length-values : {A : Type 0} (m : Dict A) → length (values m) ≡ length m
unfolding values
length-values [] = refl
length-values (e ∷ m) = ap suc (length-values m)

module _ {A : Type 0} (key : A → Bytes) where
  unfoldable pub find : Bytes → List A → Option A
  find k [] = none
  find k (a ∷ l) = if bytes_eq (key a) k then some a else find k l

  -- No element has the key.
  abbrev pub Lacking : Bytes → List A → Type 0
  Lacking k = All (λ a. bytes_eq (key a) k ≡ false)

  abbrev pub Distinct : List A → Type 0
  Distinct [] = Unit
  Distinct (a ∷ l) = Lacking (key a) l × Distinct l

  pub find-Lacking : (k : Bytes) (l : List A) → Lacking k l → find k l ≡ none
  unfolding find
  find-Lacking k [] h = refl
  find-Lacking k (a ∷ l) (ha, h) = rw ha (find-Lacking k l h)

  -- The values of a map whose entries stand under their own keys.
  abbrev Keyed : Dict A → Type 0
  Keyed = Holds (λ k v. key v ≡ k)

  pub find-values : (k : Bytes) (m : Dict A) → Keyed m → find k (values m) ≡ get k m
  unfolding find get values
  find-values k [] h = refl
  find-values k ((j, v) ∷ m) (e, h) = rw e (rw (find-values k m h))

  Fresh-Lacking : (k : Bytes) (m : Dict A) → Keyed m → Fresh k m → Lacking k (values m)
  unfolding values
  Fresh-Lacking k [] h f = tt
  Fresh-Lacking k ((j, v) ∷ m) (e, h) (fj, f) = (rw e fj, Fresh-Lacking k m h f)

  pub values-Distinct : (m : Dict A) → Keyed m → IsDict m → Distinct (values m)
  unfolding values
  values-Distinct [] h d = tt
  values-Distinct ((j, v) ∷ m) (e, h) (f, d) = (rw e (Fresh-Lacking j m h f), values-Distinct m h d)

  pub values-All : (P : A → Type 0) (m : Dict A) → Holds (λ k a. P a) m → All P (values m)
  unfolding values
  values-All P [] h = tt
  values-All P (e ∷ m) (p, h) = (p, values-All P m h)
