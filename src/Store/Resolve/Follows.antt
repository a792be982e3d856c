-- ===== src/Store/Resolve/Follows.antt =====
-- A name of a device follows the device's address.
use local_dns.Base.{
  ℕ, ◌≡◌, refl, ap, ◌∙◌, inl, inr, List, [], ◌∷◌, ◌++◌, Bool, true, false, not, ◌&&◌, Bytes, Option,
  none, some, ok, All, arith, if◌then◌else◌, Bool-cases, bytes_eq, bytes_eq→eq, bytes_eq_refl,
}
use local_dns.Base.Text.{is_empty}
use local_dns.Dict.{get, get-put}
use local_dns.Names.{normalize_mac}
use local_dns.Net.{parse_ip}
use local_dns.Store.State.{Device, Mapping, SeenDevice, Store}
use local_dns.Store.Files.{save_locked}
use local_dns.Store.Devices.{observe, known_or_new, apply_scan, see_all}
use local_dns.Store.Devices.Scan.{history, is_of, apply_scan-device, see_all-mappings}
use local_dns.Store.Mappings.{
  Input, normalize_mapping_input, assign, mapping_or_new, set_locked, set_mapping,
}
use local_dns.Store.Resolve.{device_ip, resolve_locked, resolve_name}

-- An observation that tells no address of this device.
abbrev pub IsSilent : Bytes → SeenDevice → Type 0
IsSilent k sd = (is_of k sd && not (is_empty sd.ip)) ≡ false

history-append :
    (now : ℕ) (k : Bytes) (xs ys : List SeenDevice) (o : Option Device)
    → history now k (xs ++ ys) o ≡ history now k ys (history now k xs o)
history-append now k [] ys o = refl
history-append now k (sd ∷ xs) ys o =
    history-append now k xs ys
      (if is_of k sd then some (observe now sd (known_or_new o k now)) else o)

ip-observe :
    (now : ℕ) (sd : SeenDevice) (d : Device)
    → (observe now sd d).ip ≡ (if is_empty sd.ip then d.ip else sd.ip)
unfolding observe
ip-observe now sd d = elim (Bool-cases (is_empty sd.ip)) [
  | inl e ↦ rw e
  | inr e ↦ elim (Bool-cases (bytes_eq d.ip sd.ip)) [
    | inl same ↦ rw (e, same) (bytes_eq→eq d.ip sd.ip same)
    | inr other ↦ rw (e, other)
  ]
]

device_ip-observe :
    (now : ℕ) (sd : SeenDevice) (o : Option Device) (k : Bytes)
    → is_empty sd.ip ≡ true
    → device_ip (some (observe now sd (known_or_new o k now))) ≡ device_ip o
device_ip-observe now sd none k h = let e = ip-observe now sd (known_or_new none k now) in rw (e, h)
device_ip-observe now sd (some d) k h = rw (ip-observe now sd d, h)

history-silent :
    (now : ℕ) (k : Bytes) (seen : List SeenDevice) (o : Option Device)
    → All (IsSilent k) seen
    → device_ip (history now k seen o) ≡ device_ip o
history-silent now k [] o h = refl
history-silent now k (sd ∷ seen) o (q, h) =
    history-silent now k seen _ h ∙ elim (Bool-cases (is_of k sd)) [
      | inl mine ↦ rw mine (device_ip-observe now sd o k (ground arith))
      | inr other ↦ rw other
    ]

-- After the last observation that tells an address, the device has that one.
history-last :
    (now : ℕ) (k : Bytes) (before after : List SeenDevice) (sd : SeenDevice) (o : Option Device)
    → is_of k sd ≡ true
    → is_empty sd.ip ≡ false
    → All (IsSilent k) after
    → device_ip (history now k (before ++ sd ∷ after) o) ≡ parse_ip sd.ip
history-last now k before after sd o mine told silent =
    ap device_ip (history-append now k before (sd ∷ after) o)
    ∙ (history-silent now k after _ silent
        ∙ rw (mine, ip-observe now sd (known_or_new (history now k before o) k now), told, told))

apply_scan-mappings :
    (seen : List SeenDevice) (now : ℕ) (s : Store) → (apply_scan seen now s).1.mappings ≡ s.mappings
unfolding apply_scan
apply_scan-mappings seen now s = elim (Bool-cases (see_all now s false seen).1) [
  | inl e ↦ rw e (see_all-mappings now s false seen)
  | inr e ↦ rw e (see_all-mappings now s false seen)
]

-- The mapping that `SetMapping` leaves under its host name.
set_mapping-entry :
    (disk : Bool) (hostname mac ip note : Bytes) (now : ℕ) (s : Store) (i : Input)
    → normalize_mapping_input hostname mac ip note ≡ ok i
    → get i.hostname (set_mapping disk hostname mac ip note now s).1.mappings
      ≡ some (assign (mapping_or_new (get i.hostname s.mappings) i.hostname now) i now)
unfolding set_mapping set_locked save_locked
set_mapping-entry true hostname mac ip note now s i h =
    rw (h, set_mapping, get-put, bytes_eq_refl i.hostname)
set_mapping-entry false hostname mac ip note now s i h =
    rw (h, set_mapping, get-put, bytes_eq_refl i.hostname)

module _ (s : Store) (k : Bytes) (m : Mapping) (there : get k s.mappings ≡ some m)
    (dynamic : m.ip ≡ []) (before after : List SeenDevice) (sd : SeenDevice) (now : ℕ) where
  -- A name of a device leads, after a scan, to the last address that the scan saw of the device.
  pub resolve_name-scanned :
      normalize_mac sd.mac ≡ ok m.mac
      → is_empty sd.ip ≡ false
      → All (IsSilent m.mac) after
      → resolve_name k (apply_scan (before ++ sd ∷ after) now s).1 ≡ some (parse_ip sd.ip)
  unfolding resolve_name resolve_locked
  resolve_name-scanned same told silent =
      let seen = before ++ sd ∷ after in
      let mine : is_of m.mac sd ≡ true = rw (same, is_of) (bytes_eq_refl m.mac) in
      rw
        (
          apply_scan-mappings seen now s,
          there,
          resolve_name,
          dynamic,
          apply_scan-device seen now s m.mac,
        )
        (ap some (history-last now m.mac before after sd (get m.mac s.devices) mine told silent))

-- The host name that `SetMapping` gives to a device leads, after any later scan, to the address of the
-- last observation of the device in that scan that tells one, whatever the device's address was before
-- and whatever else was seen.
pub resolve_name-follows :
    (disk : Bool) (hostname mac ip note : Bytes) (now : ℕ) (s : Store) (i : Input)
    (before after : List SeenDevice) (sd : SeenDevice) (later : ℕ)
    → normalize_mapping_input hostname mac ip note ≡ ok i
    → i.ip ≡ []
    → normalize_mac sd.mac ≡ ok i.mac
    → is_empty sd.ip ≡ false
    → All (IsSilent i.mac) after
    → resolve_name i.hostname
        (apply_scan (before ++ sd ∷ after) later (set_mapping disk hostname mac ip note now s).1).1
      ≡ some (parse_ip sd.ip)
resolve_name-follows disk hostname mac ip note now s i before after sd later passes dynamic =
    resolve_name-scanned (set_mapping disk hostname mac ip note now s).1 i.hostname
      (assign (mapping_or_new (get i.hostname s.mappings) i.hostname now) i now)
      (set_mapping-entry disk hostname mac ip note now s i passes) dynamic before after sd later
