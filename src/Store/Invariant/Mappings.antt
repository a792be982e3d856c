-- ===== src/Store/Invariant/Mappings.antt =====
-- The operations on mappings keep every entry under its host name.
use local_dns.Base.{
  ℕ, ◌≡◌, refl, sym, ◌∙◌, ◌⊎◌, [], ◌∷◌, Bool, true, false, Bytes, Option, none, some, Outcome, ok,
  err, arith, Bool-cases, Option-cases, inl, inr, bytes_eq, >>=-eq-ok, if◌then◌else◌, bytes_eq→eq,
}
use local_dns.Base.Text.{is_empty}
use local_dns.Dict.{Dict, get, has}
use local_dns.Dict.Entries.{Holds-get}
use local_dns.Names.{normalize, normalize_mac, validate_labels}
use local_dns.Names.Mac.{IsMac, normalize_mac-IsMac}
use local_dns.Names.Valid.{IsHostName, validate_labels_iff}
use local_dns.Store.State.{Mapping, Store, Error}
use local_dns.Store.Files.{save_locked}
use local_dns.Store.Mappings.{
  Input, input_mac, input_ip, same, normalize_mapping_input, assign, mapping_or_new, saved,
  set_locked, set_mapping, replace, update_locked, update_mapping, delete_mapping,
}
use local_dns.Store.Entries.{IsMapping, IsMappings, put-IsMappings, remove-IsMappings}
use local_dns.Store.Invariant.{IsStore, save_locked-IsStore, marked}
use local_dns.Store.Invariant.Devices.{Outcome-cases}

-- What the checks establish of the fields of a mapping.
pub record IsInput (i : Input) : Type 0 where
  pub named : IsHostName i.hostname
  pub addressed : (i.mac ≡ []) ⊎ IsMac i.mac

is_empty→nil : (s : Bytes) → is_empty s ≡ true → s ≡ []
is_empty→nil [] h = refl
is_empty→nil (c ∷ s) h = cc

input_mac-ok : (mac m : Bytes) → input_mac mac ≡ ok m → (m ≡ []) ⊎ IsMac m
unfolding input_mac
input_mac-ok mac m h = elim (Bool-cases (is_empty mac)) [
  | inl e ↦ inl (ground (arith, is_empty→nil mac e))
  | inr e ↦ elim (Outcome-cases (normalize_mac mac)) [
    | inl (norm, k) ↦ inr (normalize_mac-IsMac mac m (ground arith))
    | inr (p, k) ↦ absurd (ground arith)
  ]
]

-- A last test that passed.
passed : (test : Bool) (e : Error) (i j : Input) → (if test then err e else ok i) ≡ ok j → i ≡ j
passed true e i j h = cc
passed false e i j h = ground arith

normalize_mapping_input-IsInput :
    (hostname mac ip note : Bytes) (i : Input)
    → normalize_mapping_input hostname mac ip note ≡ ok i
    → IsInput i
unfolding normalize_mapping_input
normalize_mapping_input-IsInput hostname mac ip note i h =
    elim (Option-cases (validate_labels (normalize hostname))) [
      | inr (p, e) ↦ absurd (ground arith)
      | inl e ↦ elim (Bool-cases (same (is_empty mac) (is_empty ip))) [
        | inl k ↦ absurd (ground arith)
        | inr k ↦
            let checked = rw (e, normalize_mapping_input, k) at h in
            let (norm, kn, chained) = >>=-eq-ok (input_mac mac) _ checked in
            let (address, ka, last) = >>=-eq-ok (input_ip ip) _ chained in
            rw (← passed _ _ _ _ last) (record {
              named = (validate_labels_iff (normalize hostname)).0 e;
              addressed = input_mac-ok mac norm kn;
            })
      ]
    ]

assign-IsMapping :
    (m : Mapping) (i : Input) (now : ℕ)
    → IsInput i
    → m.hostname ≡ i.hostname
    → IsMapping i.hostname (assign m i now)
assign-IsMapping m i now v e = (e, v.named, v.addressed)

saved-store : (r : Option Error × Store) (m : Mapping) → (saved r m).1 ≡ r.1
saved-store (none, s) m = refl
saved-store (some e, s) m = refl

mapping_or_new-hostname :
    (o : Option Mapping) (h : Bytes) (now : ℕ)
    → ((m : Mapping) → o ≡ some m → m.hostname ≡ h)
    → (mapping_or_new o h now).hostname ≡ h
mapping_or_new-hostname none h now k = refl
mapping_or_new-hostname (some m) h now k = k m refl

set_locked-IsStore :
    (disk : Bool) (i : Input) (now : ℕ) (s : Store)
    → IsInput i
    → IsStore s
    → IsStore (set_locked disk i now s).1
unfolding set_locked
set_locked-IsStore disk i now s w v = rw (saved-store (save_locked disk _) _) (
    save_locked-IsStore disk _ (
      marked _ refl v.devices (
        put-IsMappings i.hostname _ s.mappings
          (assign-IsMapping (mapping_or_new (get i.hostname s.mappings) i.hostname now) i now w (
            mapping_or_new-hostname (get i.hostname s.mappings) i.hostname now
              (λ m h. (Holds-get IsMapping i.hostname m s.mappings v.mappings.0 h).0)))
          v.mappings)))

-- The checks pass with an input, or fail.
input-cases : (o : Outcome Error Input) → ((i : Input) × (o ≡ ok i)) ⊎ ((e : Error) × (o ≡ err e))
input-cases (ok i) = inl (i, refl)
input-cases (err e) = inr (e, refl)

pub set_mapping-IsStore :
    (disk : Bool) (hostname mac ip note : Bytes) (now : ℕ) (s : Store)
    → IsStore s
    → IsStore (set_mapping disk hostname mac ip note now s).1
unfolding set_mapping
set_mapping-IsStore disk hostname mac ip note now s v =
    elim (input-cases (normalize_mapping_input hostname mac ip note)) [
      | inr (e, k) ↦ rw (k, set_mapping) v
      | inl (i, k) ↦
          rw (k, set_mapping)
            (set_locked-IsStore disk i now s
              (normalize_mapping_input-IsInput hostname mac ip note i k) v)
    ]

replace-IsStore :
    (disk : Bool) (rest : Dict Mapping) (m : Mapping) (i : Input) (now : ℕ) (s : Store)
    → IsInput i
    → m.hostname ≡ i.hostname
    → IsMappings rest
    → IsStore s
    → IsStore (replace disk rest m i now s).1
unfolding replace
replace-IsStore disk rest m i now s w e r v = rw (saved-store (save_locked disk _) _) (
    save_locked-IsStore disk _
      (marked _ refl v.devices (put-IsMappings i.hostname _ rest (assign-IsMapping m i now w e) r)))

update_locked-IsStore :
    (disk : Bool) (old : Bytes) (i : Input) (now : ℕ) (s : Store)
    → IsInput i
    → IsStore s
    → IsStore (update_locked disk old i now s).1
unfolding update_locked
update_locked-IsStore disk old i now s w v = elim (Option-cases (get old s.mappings)) [
  | inl h ↦ rw (h, update_locked) v
  | inr (m, h) ↦ elim (Bool-cases (bytes_eq i.hostname old)) [
    | inl k ↦
        rw (h, update_locked, k)
          (replace-IsStore disk s.mappings m i now s w
            ((Holds-get IsMapping old m s.mappings v.mappings.0 h).0
              ∙ sym (bytes_eq→eq i.hostname old k))
            v.mappings v)
    | inr k ↦ elim (Bool-cases (has i.hostname s.mappings)) [
      | inl t ↦ rw (h, update_locked, k, t) v
      | inr t ↦
          rw (h, update_locked, k, t)
            (replace-IsStore disk _ (record m { hostname = i.hostname }) i now s w refl
              (remove-IsMappings old s.mappings v.mappings) v)
    ]
  ]
]

pub update_mapping-IsStore :
    (disk : Bool) (old hostname mac ip note : Bytes) (now : ℕ) (s : Store)
    → IsStore s
    → IsStore (update_mapping disk old hostname mac ip note now s).1
unfolding update_mapping
update_mapping-IsStore disk old hostname mac ip note now s v =
    elim (input-cases (normalize_mapping_input hostname mac ip note)) [
      | inr (e, k) ↦ rw (k, update_mapping) v
      | inl (i, k) ↦
          rw (k, update_mapping)
            (update_locked-IsStore disk (normalize old) i now s
              (normalize_mapping_input-IsInput hostname mac ip note i k) v)
    ]

pub delete_mapping-IsStore :
    (disk : Bool) (hostname : Bytes) (s : Store)
    → IsStore s
    → IsStore (delete_mapping disk hostname s).2
unfolding delete_mapping
delete_mapping-IsStore disk hostname s v = elim (Bool-cases (has (normalize hostname) s.mappings)) [
  | inl h ↦ rw h (
      save_locked-IsStore disk _
        (marked _ refl v.devices (remove-IsMappings (normalize hostname) s.mappings v.mappings)))
  | inr h ↦ rw h v
]
