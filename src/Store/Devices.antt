-- ===== src/Store/Devices.antt =====
-- store.go: the operations on devices.
pub mod Scan
use local_dns.Base.{
  ℕ, zero, suc, ◌-◌, List, [], ◌∷◌, Bool, true, false, not, ◌&&◌, ◌||◌, Bytes, Option, none, some,
  Outcome, ok, err, length, ltb, leb, ◌==◌, bytes_eq, if◌then◌else◌,
}
use local_dns.Base.Text.{is_empty, trim_space}
use local_dns.Dict.{get, put, remove}
use local_dns.Names.{normalize_mac}
use local_dns.Store.State.{Device, SeenDevice, Store, Error, bad_name, long_label, not_registered}
use local_dns.Store.Files.{save_locked}

-- `&Device{MAC: mac, FirstSeen: now}`
abbrev new_device : Bytes → ℕ → Device
new_device mac now = record {
  mac = mac;
  ip = [];
  hostname = [];
  vendor = [];
  label = [];
  self = false;
  first_seen = now;
  last_seen = 0;
}

abbrev pub ip_changes : SeenDevice → Device → Bool
ip_changes sd d = not (is_empty sd.ip) && not (bytes_eq d.ip sd.ip)

abbrev becomes_self : SeenDevice → Device → Bool
becomes_self sd d = sd.self && not d.self

-- The device after an observation.
unfoldable pub observe : ℕ → SeenDevice → Device → Device
observe now sd d = record d {
  ip = if ip_changes sd d then sd.ip else d.ip;
  self = if becomes_self sd d then true else d.self;
  last_seen = now;
}

-- `d, ok := s.devices[mac]`, or a new device.
abbrev pub known_or_new : Option Device → Bytes → ℕ → Device
known_or_new none mac now = new_device mac now
known_or_new (some d) mac now = d

abbrev pub is_new : Option Device → Bool
is_new none = true
is_new (some d) = false

-- One round of the loop of `ApplyScan`, with the flag `material`.
unfoldable pub see : ℕ → Store → Bool → SeenDevice → Store × Bool
unfolding observe
see now s material sd = elim (normalize_mac sd.mac) [
  | err _ ↦ (s, material)
  | ok mac ↦
      let old = get mac s.devices in
      let d = known_or_new old mac now in
      (
        record s { devices = put mac (observe now sd d) s.devices; dirty = true },
        material || is_new old || ip_changes sd d || becomes_self sd d,
      )
]

unfoldable pub see_all : ℕ → Store → Bool → List SeenDevice → Store × Bool
unfolding see
see_all now s material [] = (s, material)
see_all now s material (sd ∷ seen) =
    let (s', material') = see now s material sd in see_all now s' material' seen

unfoldable pub apply_scan : List SeenDevice → ℕ → Store → Bool × Store
unfolding see_all
apply_scan seen now s =
    let (s', material) = see_all now s false seen in
    (material, if material then record s' { dirty = true } else s')

unfoldable pub set_discovered_hostname : Bytes → Bytes → Store → Bool × Store
set_discovered_hostname mac hostname s =
    let name = trim_space hostname in
    if is_empty name then (false, s) else elim (get mac s.devices) [
      | none ↦ (false, s)
      | some d ↦ if bytes_eq d.hostname name then (false, s) else (
        true,
        record s { devices = put mac (record d { hostname = name }) s.devices; dirty = true },
      )
    ]

unfoldable pub set_vendor : Bytes → Bytes → Store → Bool × Store
set_vendor mac vendor s = if is_empty vendor then (false, s) else elim (get mac s.devices) [
  | none ↦ (false, s)
  | some d ↦ if bytes_eq d.vendor vendor then (false, s) else (
    true,
    record s { devices = put mac (record d { vendor = vendor }) s.devices; dirty = true },
  )
]

unfoldable pub set_label : Bool → Bytes → Bytes → Store → Option Error × Store
set_label disk mac label s =
    let text = trim_space label in
    if ltb 100 (length text) then (some long_label, s) else elim (normalize_mac mac) [
      | err p ↦ (some (bad_name p), s)
      | ok norm ↦ elim (get norm s.devices) [
        | none ↦ (some not_registered, s)
        | some d ↦
            save_locked disk
              (record s { devices = put norm (record d { label = text }) s.devices; dirty = true })
      ]
    ]

unfoldable pub delete_device : Bool → Bytes → Store → Option Error × Store
delete_device disk mac s = elim (normalize_mac mac) [
  | err p ↦ (some (bad_name p), s)
  | ok norm ↦ elim (get norm s.devices) [
    | none ↦ (some not_registered, s)
    | some _ ↦ save_locked disk (record s { devices = remove norm s.devices; dirty = true })
  ]
]

-- `Store.Device`
unfoldable pub device : Bytes → Store → Option Device
device mac s = elim (normalize_mac mac) [ err _ ↦ none | ok norm ↦ get norm s.devices ]

-- `!d.LastSeen.IsZero() && now.Sub(d.LastSeen) <= s.onlineWindow`; a time before the last sight is
-- within the window.
unfoldable pub online_locked : Device → ℕ → Store → Bool
online_locked d now s = not (d.last_seen == 0) && leb (now - d.last_seen) s.online_window
