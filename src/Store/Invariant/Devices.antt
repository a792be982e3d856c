-- ===== src/Store/Invariant/Devices.antt =====
-- The operations on devices keep every entry under its canonical address.
use local_dns.Base.{
  ℕ, ◌≡◌, refl, ◌∙◌, ◌⊎◌, List, [], ◌∷◌, Bool, true, false, Bytes, Option, none, some, Outcome, ok,
  err, Bool-cases, Option-cases, inl, inr, length, ltb, bytes_eq,
}
use local_dns.Base.Text.{is_empty, trim_space}
use local_dns.Dict.{get, put}
use local_dns.Dict.Entries.{Holds-get}
use local_dns.Names.{normalize_mac, Problem}
use local_dns.Names.Mac.{normalize_mac-IsMac}
use local_dns.Store.State.{Device, SeenDevice, Store}
use local_dns.Store.Devices.{
  observe, known_or_new, see, see_all, apply_scan, set_discovered_hostname, set_vendor, set_label,
  delete_device,
}
use local_dns.Store.Entries.{IsDevice, put-IsDevices, remove-IsDevices}
use local_dns.Store.Invariant.{IsStore, save_locked-IsStore, marked}

-- The result of `NormalizeMAC`, with its equation.
pub Outcome-cases {ℓ} :
    {A : Type ℓ} (o : Outcome Problem A) → ((a : A) × (o ≡ ok a)) ⊎ ((p : Problem) × (o ≡ err p))
Outcome-cases (ok a) = inl (a, refl)
Outcome-cases (err p) = inr (p, refl)

known_or_new-mac :
    (o : Option Device) (mac : Bytes) (now : ℕ)
    → ((d : Device) → o ≡ some d → d.mac ≡ mac)
    → (known_or_new o mac now).mac ≡ mac
known_or_new-mac none mac now h = refl
known_or_new-mac (some d) mac now h = h d refl

see-IsDevices :
    (now : ℕ) (s : Store) (material : Bool) (sd : SeenDevice)
    → IsStore s
    → IsStore (see now s material sd).0
unfolding see observe
see-IsDevices now s material sd v = elim (Outcome-cases (normalize_mac sd.mac)) [
  | inr (p, e) ↦ rw (e, see) v
  | inl (mac, e) ↦
      rw (e, see)
        (marked _ refl
          (put-IsDevices mac _ s.devices
            (
              known_or_new-mac (get mac s.devices) mac now
                  (λ d h. (Holds-get IsDevice mac d s.devices v.devices.0 h).0),
              normalize_mac-IsMac sd.mac mac e,
            )
            v.devices)
          v.mappings)
]

see_all-IsStore :
    (now : ℕ) (s : Store) (material : Bool) (seen : List SeenDevice)
    → IsStore s
    → IsStore (see_all now s material seen).0
unfolding see_all
see_all-IsStore now s material [] v = v
see_all-IsStore now s material (sd ∷ seen) v =
    see_all-IsStore now (see now s material sd).0 (see now s material sd).1 seen
      (see-IsDevices now s material sd v)

pub apply_scan-IsStore :
    (seen : List SeenDevice) (now : ℕ) (s : Store) → IsStore s → IsStore (apply_scan seen now s).1
unfolding apply_scan
apply_scan-IsStore seen now s v =
    let w = see_all-IsStore now s false seen v in
    elim (Bool-cases (see_all now s false seen).1) [
      | inl e ↦ rw e (marked _ refl w.devices w.mappings)
      | inr e ↦ rw e w
    ]

-- A device that was changed in place.
changed :
    (s : Store) (mac : Bytes) (d d' : Device)
    → IsStore s
    → get mac s.devices ≡ some d
    → d'.mac ≡ d.mac
    → IsStore (record s { devices = put mac d' s.devices; dirty = true })
changed s mac d d' v h e =
    let (own, canonical) = Holds-get IsDevice mac d s.devices v.devices.0 h in
    marked _ refl (put-IsDevices mac d' s.devices (e ∙ own, canonical) v.devices) v.mappings

pub set_discovered_hostname-IsStore :
    (mac hostname : Bytes) (s : Store)
    → IsStore s
    → IsStore (set_discovered_hostname mac hostname s).1
unfolding set_discovered_hostname
set_discovered_hostname-IsStore mac hostname s v =
    elim (Bool-cases (is_empty (trim_space hostname))) [
      | inl e ↦ rw e v
      | inr e ↦ rw e (elim (Option-cases (get mac s.devices)) [
        | inl h ↦ rw h v
        | inr (d, h) ↦ rw h (elim (Bool-cases (bytes_eq d.hostname (trim_space hostname))) [
          | inl k ↦ rw k v
          | inr k ↦ rw k (changed s mac d _ v h refl)
        ])
      ])
    ]

pub set_vendor-IsStore :
    (mac vendor : Bytes) (s : Store) → IsStore s → IsStore (set_vendor mac vendor s).1
unfolding set_vendor
set_vendor-IsStore mac vendor s v = elim (Bool-cases (is_empty vendor)) [
  | inl e ↦ rw e v
  | inr e ↦ rw e (elim (Option-cases (get mac s.devices)) [
    | inl h ↦ rw h v
    | inr (d, h) ↦ rw h (elim (Bool-cases (bytes_eq d.vendor vendor)) [
      | inl k ↦ rw k v
      | inr k ↦ rw k (changed s mac d _ v h refl)
    ])
  ])
]

pub set_label-IsStore :
    (disk : Bool) (mac label : Bytes) (s : Store)
    → IsStore s
    → IsStore (set_label disk mac label s).1
unfolding set_label
set_label-IsStore disk mac label s v = elim (Bool-cases (ltb 100 (length (trim_space label)))) [
  | inl e ↦ rw e v
  | inr e ↦ rw e (elim (Outcome-cases (normalize_mac mac)) [
    | inr (p, e) ↦ rw e v
    | inl (norm, e) ↦ rw e (elim (Option-cases (get norm s.devices)) [
      | inl h ↦ rw h v
      | inr (d, h) ↦ rw h (save_locked-IsStore disk _ (changed s norm d _ v h refl))
    ])
  ])
]

pub delete_device-IsStore :
    (disk : Bool) (mac : Bytes) (s : Store) → IsStore s → IsStore (delete_device disk mac s).1
unfolding delete_device
delete_device-IsStore disk mac s v = elim (Outcome-cases (normalize_mac mac)) [
  | inr (p, e) ↦ rw (e, delete_device) v
  | inl (norm, e) ↦
      rw (e, delete_device)
        (elim (Option-cases (get norm s.devices)) [
          | inl h ↦ rw h v
          | inr (d, h) ↦ rw h (
              save_locked-IsStore disk _
                (marked _ refl (remove-IsDevices norm s.devices v.devices) v.mappings))
        ])
]
