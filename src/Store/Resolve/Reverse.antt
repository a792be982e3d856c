-- ===== src/Store/Resolve/Reverse.antt =====
-- `ResolvePTR` finds the least of the names at an address.
use local_dns.Base.{
  ◌≡◌, refl, ap, inl, inr, List, [], ◌∷◌, true, false, Bytes, Option, none, some, arith, Bool-cases,
  Option-cases, All,
}
use local_dns.Dict.{get, keys}
use local_dns.Dict.Entries.{All-keys}
use local_dns.Store.State.{Mapping, Store}
use local_dns.Store.Files.{less, insert, sort_by}
use local_dns.Store.Files.Less.{less_irrefl, less_trans, less_total, less_asym}
use local_dns.Store.Files.Order.{All-insert}
use local_dns.Net.{ip_equal}
use local_dns.Store.Resolve.{name_is_at, first_at, resolve_ptr, resolve_locked, resolve_name, is_at}

-- Not above a name.
abbrev NotAbove : Bytes → Bytes → Type 0
NotAbove h k = less k h ≡ false

NotAbove-trans : (a b k : Bytes) → NotAbove a b → NotAbove b k → NotAbove a k
NotAbove-trans a b k h g = elim (Bool-cases (less b k)) [
  | inl below ↦ ground (arith, less_trans b k a)
  | inr same ↦ rw (less_total b k same g) at h
]

abbrev Ascending : List Bytes → Type 0
Ascending [] = Unit
Ascending (h ∷ l) = All (NotAbove h) l × Ascending l

All-NotAbove :
    (a b : Bytes) (l : List Bytes) → NotAbove a b → All (NotAbove b) l → All (NotAbove a) l
All-NotAbove a b [] h f = tt
All-NotAbove a b (k ∷ l) h (g, f) = (NotAbove-trans a b k h g, All-NotAbove a b l h f)

module _ (P : Bytes → Type 0) where
  All-inserted : (a : Bytes) (l : List Bytes) → All P (insert (λ h. h) a l) → P a × All P l
  unfolding insert
  All-inserted a [] (p, h) = (p, tt)
  All-inserted a (b ∷ l) h = elim (Bool-cases (less b a)) [
    | inl behind ↦
        let (hb, rest) = rw behind at h in let (p, hs) = All-inserted a l rest in (p, (hb, hs))
    | inr before ↦ rw before at h
  ]

  -- What holds of the sorted names holds of the names.
  All-sorted : (l : List Bytes) → All P (sort_by (λ h. h) l) → All P l
  unfolding sort_by
  All-sorted [] h = tt
  All-sorted (a ∷ l) h =
      let (p, rest) = All-inserted a (sort_by (λ k. k) l) h in (p, All-sorted l rest)

insert-Ascending : (a : Bytes) (l : List Bytes) → Ascending l → Ascending (insert (λ h. h) a l)
unfolding insert
insert-Ascending a [] h = (tt, tt)
insert-Ascending a (b ∷ l) (f, h) = elim (Bool-cases (less b a)) [
  | inl behind ↦
      rw behind
        (All-insert (λ h. h) (NotAbove b) a l (less_asym b a behind) f, insert-Ascending a l h)
  | inr before ↦ rw before ((before, All-NotAbove a b l before f), (f, h))
]

sort_by-Ascending : (l : List Bytes) → Ascending (sort_by (λ h. h) l)
unfolding sort_by
sort_by-Ascending [] = tt
sort_by-Ascending (a ∷ l) = insert-Ascending a (sort_by (λ h. h) l) (sort_by-Ascending l)

-- The name leads to the address, or to one that is equal to it.
unfoldable pub Leads : Store → Bytes → Bytes → Type 0
Leads s ip k = (cur : Bytes) × (resolve_name k s ≡ some (some cur)) × (ip_equal cur ip ≡ true)

-- `ResolvePTR`'s answer: a name that leads to the address, with none below it, or no name does.
unfoldable pub IsAnswer : Store → Bytes → Option Bytes → Type 0
IsAnswer s ip none = (k : Bytes) → ¬ Leads s ip k
IsAnswer s ip (some h) = Leads s ip h × ((k : Bytes) → Leads s ip k → less k h ≡ false)

module _ (s : Store) (ip : Bytes) where
  name_is_at→Leads : (k : Bytes) → name_is_at s ip k ≡ true → Leads s ip k
  unfolding name_is_at Leads resolve_name
  name_is_at→Leads k h = go (get k s.mappings) refl h
    where
      go :
          (o : Option Mapping)
          → get k s.mappings ≡ o
          → (elim o [ none ↦ false | some m ↦ is_at (resolve_locked m s) ip ]) ≡ true
          → Leads s ip k
      go none e h = cc
      go (some m) e h = elim (Option-cases (resolve_locked m s)) [
        | inl c ↦ absurd (ground arith)
        | inr (cur, c) ↦ (cur, rw (e, resolve_name) (ap some c), ground arith)
      ]

  Leads→name_is_at : (k : Bytes) → Leads s ip k → name_is_at s ip k ≡ true
  unfolding name_is_at Leads resolve_name
  Leads→name_is_at k (cur, e, h) = elim (Option-cases (get k s.mappings)) [
    | inl g ↦ absurd (ground arith)
    | inr (m, g) ↦ ground arith
  ]

  -- The loop's answer among the names that it walks.
  IsFirst : List Bytes → Option Bytes → Type 0
  IsFirst l none = All (λ k. name_is_at s ip k ≡ false) l
  IsFirst l (some h) =
      (name_is_at s ip h ≡ true) × All (λ k. name_is_at s ip k ≡ true → NotAbove h k) l

  skipped :
      (h : Bytes) (l : List Bytes) (o : Option Bytes)
      → name_is_at s ip h ≡ false
      → IsFirst l o
      → IsFirst (h ∷ l) o
  unfolding IsFirst
  skipped h l none e f = (e, f)
  skipped h l (some k) e (g, f) = (g, ((λ t. cc), f))

  weaken :
      (h : Bytes) (l : List Bytes)
      → All (NotAbove h) l
      → All (λ k. name_is_at s ip k ≡ true → NotAbove h k) l
  weaken h [] f = tt
  weaken h (k ∷ l) (g, f) = ((λ _. g), weaken h l f)

  first_at-IsFirst : (l : List Bytes) → Ascending l → IsFirst l (first_at s ip l)
  unfolding IsFirst first_at
  first_at-IsFirst [] d = tt
  first_at-IsFirst (h ∷ l) (f, d) = elim (Bool-cases (name_is_at s ip h)) [
    | inl e ↦ rw e (e, ((λ _. less_irrefl h), weaken h l f))
    | inr e ↦ rw e (skipped h l (first_at s ip l) e (first_at-IsFirst l d))
  ]

  without : (k : Bytes) → get k s.mappings ≡ none → name_is_at s ip k ≡ false
  unfolding name_is_at
  without k e = rw (e, name_is_at) refl

  answered : (o : Option Bytes) → IsFirst (keys s.mappings) o → IsAnswer s ip o
  unfolding IsFirst IsAnswer
  answered none f = λ k leads. elim (All-keys _ s.mappings k f) [
    | inl e ↦ absurd (ground (arith, without k e, Leads→name_is_at k leads))
    | inr absent ↦ absurd (ground (arith, Leads→name_is_at k leads))
  ]
  answered (some h) (e, f) = (
    name_is_at→Leads h e,
    λ k leads. elim (All-keys _ s.mappings k f) [
      | inl missing ↦ absurd (ground (arith, without k missing, Leads→name_is_at k leads))
      | inr least ↦ least (Leads→name_is_at k leads)
    ],
  )

  unsorted : (l : List Bytes) (o : Option Bytes) → IsFirst (sort_by (λ h. h) l) o → IsFirst l o
  unfolding IsFirst
  unsorted l none f = All-sorted _ l f
  unsorted l (some h) (e, f) = (e, All-sorted _ l f)

-- `ResolvePTR` returns a name that `ResolveName` leads to the address, and of these the least in
-- the order of strings, whatever the order in which the map is walked; it returns none only where
-- no name leads there.
pub resolve_ptr-IsAnswer : (ip : Bytes) (s : Store) → IsAnswer s ip (resolve_ptr ip s)
unfolding resolve_ptr
resolve_ptr-IsAnswer ip s = answered s ip (resolve_ptr ip s) (
    unsorted s ip (keys s.mappings) (resolve_ptr ip s) (
      first_at-IsFirst s ip (sort_by (λ h. h) (keys s.mappings))
        (sort_by-Ascending (keys s.mappings))))
