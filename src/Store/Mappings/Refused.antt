-- ===== src/Store/Mappings/Refused.antt =====
-- A change of the mappings that is refused changes nothing.
use local_dns.Base.{
  ℕ, [], ◌≡◌, refl, inl, inr, Bool, true, false, Bytes, Outcome, ok, err, arith, Bool-cases,
  Option-cases, bytes_eq,
}
use local_dns.Dict.{get, has}
use local_dns.Names.{normalize}
use local_dns.Store.State.{Mapping, Store, Error, save_failed}
use local_dns.Store.Files.{save_locked}
use local_dns.Store.Mappings.{
  Input, normalize_mapping_input, saved, set_locked, set_mapping, replace, update_locked,
  update_mapping,
}

-- The result of a call and the store behind it: an error other than a failed save comes with the
-- old store.
abbrev IsAtomic : Store → Outcome Error Mapping × Store → Type 0
IsAtomic s r = (e : Error) → r.0 ≡ err e → ¬ (e ≡ save_failed) → r.1 ≡ s

saved-IsAtomic :
    (disk : Bool) (s t : Store) (m : Mapping) → IsAtomic s (saved (save_locked disk t) m)
unfolding save_locked
saved-IsAtomic true s t m e h other = cc
saved-IsAtomic false s t m e h other = absurd (ground (arith, h, other))

unchanged : (s : Store) (r : Outcome Error Mapping) → IsAtomic s (r, s)
unchanged s r e h other = refl

update_locked-IsAtomic :
    (disk : Bool) (old : Bytes) (i : Input) (now : ℕ) (s : Store)
    → IsAtomic s (update_locked disk old i now s)
unfolding update_locked replace
update_locked-IsAtomic disk old i now s = elim (Option-cases (get old s.mappings)) [
  | inl missing ↦ rw (missing, update_locked) (unchanged s _)
  | inr (m, there) ↦ elim (Bool-cases (bytes_eq i.hostname old)) [
    | inl same ↦ rw (there, update_locked, same) (saved-IsAtomic disk s _ _)
    | inr other ↦ elim (Bool-cases (has i.hostname s.mappings)) [
      | inl taken ↦ rw (there, update_locked, other, taken) (unchanged s _)
      | inr free ↦ rw (there, update_locked, other, free) (saved-IsAtomic disk s _ _)
    ]
  ]
]

either_IsAtomic :
    (disk : Bool) (old hostname mac ip note : Bytes) (now : ℕ) (s : Store)
    → IsAtomic s (set_mapping disk hostname mac ip note now s)
      × IsAtomic s (update_mapping disk old hostname mac ip note now s)
unfolding set_mapping update_mapping set_locked
either_IsAtomic disk old hostname mac ip note now s =
    go (normalize_mapping_input hostname mac ip note) refl
  where
    go :
        (o : Outcome Error Input)
        → normalize_mapping_input hostname mac ip note ≡ o
        → IsAtomic s (set_mapping disk hostname mac ip note now s)
          × IsAtomic s (update_mapping disk old hostname mac ip note now s)
    go (err e) h = (rw (h, set_mapping) (unchanged s _), rw (h, update_mapping) (unchanged s _))
    go (ok i) h = (
      rw (h, set_mapping) (saved-IsAtomic disk s _ _),
      rw (h, update_mapping) (update_locked-IsAtomic disk (normalize old) i now s),
    )

-- A `SetMapping` that returns an error, other than that of a failed save, leaves the store as it was.
pub set_mapping_refused :
    (disk : Bool) (hostname mac ip note : Bytes) (now : ℕ) (s : Store) (e : Error)
    → (set_mapping disk hostname mac ip note now s).0 ≡ err e
    → ¬ (e ≡ save_failed)
    → (set_mapping disk hostname mac ip note now s).1 ≡ s
set_mapping_refused disk hostname mac ip note now s =
    (either_IsAtomic disk [] hostname mac ip note now s).0

-- An `UpdateMapping` that returns an error, other than that of a failed save, leaves the store as it
-- was: a mapping that cannot get its new name keeps the old one.
pub update_mapping_refused :
    (disk : Bool) (old hostname mac ip note : Bytes) (now : ℕ) (s : Store) (e : Error)
    → (update_mapping disk old hostname mac ip note now s).0 ≡ err e
    → ¬ (e ≡ save_failed)
    → (update_mapping disk old hostname mac ip note now s).1 ≡ s
update_mapping_refused disk old hostname mac ip note now s =
    (either_IsAtomic disk old hostname mac ip note now s).1
