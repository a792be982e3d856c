-- ===== src/Store/Resolve/Mapped.antt =====
-- The names that resolve after an operation on the mappings.
use local_dns.Base.{
  ℕ, ◌≡◌, refl, ◌∙◌, ◌⊎◌, inl, inr, Bool, true, false, Bytes, Option, none, some, ok, arith,
  if◌then◌else◌, Bool-cases, bytes_eq, bytes_eq_iff,
}
use local_dns.Base.Text.{is_empty}
use local_dns.Dict.{Dict, get, put, remove, has, get-put, get-remove}
use local_dns.Names.{normalize}
use local_dns.Store.State.{Mapping, Store}
use local_dns.Store.Files.{save_locked}
use local_dns.Store.Mappings.{
  Input, normalize_mapping_input, assign, mapping_or_new, saved, set_locked, set_mapping, replace,
  update_locked, update_mapping, delete_mapping,
}
use local_dns.Net.{parse_ip}
use local_dns.Store.Resolve.{device_ip, resolve_locked, resolve_name}

-- Where a mapping with these fields leads: its own address, or that of its device.
abbrev pub target : Input → Store → Option Bytes
target i s = if is_empty i.ip then device_ip (get i.mac s.devices) else parse_ip i.ip

-- A save changes no entry.
resolve_name-save_locked :
    (disk : Bool) (k : Bytes) (s : Store) → resolve_name k (save_locked disk s).1 ≡ resolve_name k s
unfolding resolve_name resolve_locked save_locked
resolve_name-save_locked true k s = refl
resolve_name-save_locked false k s = refl

resolve_name-saved :
    (disk : Bool) (k : Bytes) (m : Mapping) (s : Store)
    → resolve_name k (saved (save_locked disk s) m).1 ≡ resolve_name k s
unfolding resolve_name resolve_locked save_locked
resolve_name-saved true k m s = refl
resolve_name-saved false k m s = refl

resolve_name-put :
    (k : Bytes) (m : Mapping) (i : Input) (now : ℕ) (rest : Dict Mapping) (s : Store)
    → resolve_name k (record s { mappings = put i.hostname (assign m i now) rest; dirty = true })
      ≡ (if bytes_eq i.hostname k
          then some (target i s)
          else resolve_name k (record s { mappings = rest }))
unfolding resolve_name resolve_locked
resolve_name-put k m i now rest s =
    rw (get-put, resolve_name)
      (elim (Bool-cases (bytes_eq i.hostname k)) [ inl e ↦ rw e refl | inr e ↦ rw e refl ])

-- `SetMapping` with fields that pass the checks makes its host name lead to the mapping's own
-- address, or to that of its device at the time of the question, and no other name changes; the
-- name is changed in memory even if the file cannot be written.
pub resolve_name-set_mapping :
    (disk : Bool) (hostname mac ip note : Bytes) (now : ℕ) (s : Store) (i : Input) (k : Bytes)
    → normalize_mapping_input hostname mac ip note ≡ ok i
    → resolve_name k (set_mapping disk hostname mac ip note now s).1
      ≡ (if bytes_eq i.hostname k then some (target i s) else resolve_name k s)
unfolding set_mapping set_locked
resolve_name-set_mapping disk hostname mac ip note now s i k h =
    rw (h, set_mapping)
      (resolve_name-saved disk k _ _
        ∙ resolve_name-put k (mapping_or_new (get i.hostname s.mappings) i.hostname now) i now
            s.mappings s)

resolve_name-replace :
    (disk : Bool) (rest : Dict Mapping) (m : Mapping) (i : Input) (now : ℕ) (s : Store) (k : Bytes)
    → resolve_name k (replace disk rest m i now s).1 ≡ (
        if bytes_eq i.hostname k
        then some (target i s)
        else resolve_name k (record s { mappings = rest }))
unfolding replace
resolve_name-replace disk rest m i now s k =
    resolve_name-saved disk k _ _ ∙ resolve_name-put k m i now rest s

resolve_name-remove :
    (h k : Bytes) (s : Store)
    → resolve_name k (record s { mappings = remove h s.mappings })
      ≡ (if bytes_eq h k then none else resolve_name k s)
unfolding resolve_name resolve_locked
resolve_name-remove h k s =
    rw (get-remove, resolve_name)
      (elim (Bool-cases (bytes_eq h k)) [ inl e ↦ rw e refl | inr e ↦ rw e refl ])

module _ (i : Input) (old k : Bytes) (s : Store) where
  -- The answer behind a change of the mapping under `old`.
  abbrev moved : Option (Option Bytes)
  moved =
      if bytes_eq i.hostname k
      then some (target i s)
      else if bytes_eq old k
      then none
      else resolve_name k s

  moved_same :
      bytes_eq i.hostname old ≡ true
      → (if bytes_eq i.hostname k then some (target i s) else resolve_name k s) ≡ moved
  moved_same same =
      ground (arith, bytes_eq_iff i.hostname old, bytes_eq_iff i.hostname k, bytes_eq_iff old k)

  resolve_name-update_locked :
      (disk : Bool) (now : ℕ) (m : Mapping)
      → get old s.mappings ≡ some m
      → (bytes_eq i.hostname old ≡ true) ⊎ (has i.hostname s.mappings ≡ false)
      → resolve_name k (update_locked disk old i now s).1 ≡ moved
  unfolding update_locked
  resolve_name-update_locked disk now m there free = elim (Bool-cases (bytes_eq i.hostname old)) [
    | inl same ↦
        rw (there, update_locked, same)
          (resolve_name-replace disk s.mappings m i now s k ∙ moved_same same)
    | inr other ↦
        let taken : has i.hostname s.mappings ≡ false = ground (arith, free) in
        rw (there, update_locked, other, taken)
          (resolve_name-replace disk (remove old s.mappings) (record m { hostname = i.hostname }) i
              now s k
            ∙ rw (resolve_name-remove old k s) refl)
  ]

-- `UpdateMapping` of a mapping that is there, with fields that pass the checks and whose host name
-- is the old one or free: the new name leads where the fields say, the old one, if it is another,
-- is not found any more, and no other name changes.
pub resolve_name-update_mapping :
    (disk : Bool) (old hostname mac ip note : Bytes) (now : ℕ) (s : Store) (i : Input) (m : Mapping)
    (k : Bytes)
    → normalize_mapping_input hostname mac ip note ≡ ok i
    → get (normalize old) s.mappings ≡ some m
    → (bytes_eq i.hostname (normalize old) ≡ true) ⊎ (has i.hostname s.mappings ≡ false)
    → resolve_name k (update_mapping disk old hostname mac ip note now s).1 ≡ (
        if bytes_eq i.hostname k
        then some (target i s)
        else if bytes_eq (normalize old) k
        then none
        else resolve_name k s)
unfolding update_mapping
resolve_name-update_mapping disk old hostname mac ip note now s i m k h there free =
    rw (h, update_mapping) (resolve_name-update_locked i (normalize old) k s disk now m there free)

resolve_name-unmarked :
    (b : Bool) (k : Bytes) (s : Store) → resolve_name k (record s { dirty = b }) ≡ resolve_name k s
unfolding resolve_name resolve_locked
resolve_name-unmarked b k s = refl

unknown : (h : Bytes) (s : Store) → has h s.mappings ≡ false → resolve_name h s ≡ none
unfolding resolve_name has
unknown h s missing = ground arith

missing_name :
    (k : Bytes) (s : Store) (h : Bytes)
    → has h s.mappings ≡ false
    → resolve_name k s ≡ (if bytes_eq h k then none else resolve_name k s)
missing_name k s h missing = elim (Bool-cases (bytes_eq h k)) [
  | inl e ↦ rw e (rw ((bytes_eq_iff h k).0 e) at (unknown h s missing))
  | inr e ↦ rw e refl
]

-- `DeleteMapping` takes its name away and no other, whether or not it was there and whether or not
-- the file can be written.
pub resolve_name-delete_mapping :
    (disk : Bool) (hostname k : Bytes) (s : Store)
    → resolve_name k (delete_mapping disk hostname s).2
      ≡ (if bytes_eq (normalize hostname) k then none else resolve_name k s)
unfolding delete_mapping has
resolve_name-delete_mapping disk hostname k s =
    elim (Bool-cases (has (normalize hostname) s.mappings)) [
      | inl there ↦
          rw (there, delete_mapping)
            (resolve_name-save_locked disk k
                (record s { mappings = remove (normalize hostname) s.mappings; dirty = true })
              ∙ resolve_name-unmarked _ k _
              ∙ resolve_name-remove (normalize hostname) k s)
      | inr missing ↦ rw (missing, delete_mapping) (missing_name k s (normalize hostname) missing)
    ]
