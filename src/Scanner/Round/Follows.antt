-- ===== src/Scanner/Round/Follows.antt =====
-- After a scan the names of the devices lead to the addresses that it observed.
use local_dns.Base.{
  ◌≡◌, refl, ap, ◌∙◌, List, [], ◌∷◌, ◌++◌, Bool, true, false, Bytes, Option, some, ok, All,
  Bool-cases, Option-cases, inl, inr, bytes_eq, bytes_eq→eq,
}
use local_dns.Base.Text.{is_empty, trim_space}
use local_dns.Dict.{get, put, get-put}
use local_dns.Names.{normalize_mac}
use local_dns.Net.{parse_ip}
use local_dns.Store.State.{Device, Mapping, SeenDevice, Store}
use local_dns.Store.Files.{save_locked}
use local_dns.Store.Devices.{apply_scan, set_discovered_hostname, set_vendor}
use local_dns.Store.Devices.Scan.{resolve_name-same}
use local_dns.Store.Resolve.{device_ip, resolve_name}
use local_dns.Store.Resolve.Follows.{IsSilent, resolve_name-scanned}
use local_dns.Store.Run.{Op, written, run, run_all}
use local_dns.Scanner.Arp.{Neighbor, read_arp_table}
use local_dns.Scanner.Network.{NetContext, resolve_network}
use local_dns.Scanner.Round.{Memory, Settings, World, feed, observed, scan}
use local_dns.Scanner.Round.Calls.{IsDetail, naming, filling, feed-cases, run_all-append}

-- A device that is written back with the same address leads where it led.
device_ip-put :
    (k : Bytes) (d e : Device) (s : Store) (j : Bytes)
    → get k s.devices ≡ some d
    → e.ip ≡ d.ip
    → device_ip (get j (put k e s.devices)) ≡ device_ip (get j s.devices)
device_ip-put k d e s j there same = rw get-put (elim (Bool-cases (bytes_eq k j)) [
  | inr other ↦ rw other
  | inl mine ↦ rw (mine, same, ← (bytes_eq→eq k j mine), there)
])

resolve_name-named :
    (mac name k : Bytes) (s : Store)
    → resolve_name k (set_discovered_hostname mac name s).1 ≡ resolve_name k s
unfolding set_discovered_hostname
resolve_name-named mac name k s = elim (Bool-cases (is_empty (trim_space name))) [
  | inl none_given ↦ rw none_given
  | inr given ↦ elim (Option-cases (get mac s.devices)) [
    | inl unknown ↦ rw (given, set_discovered_hostname, unknown)
    | inr (d, there) ↦ elim (Bool-cases (bytes_eq d.hostname (trim_space name))) [
      | inl same ↦ rw (given, set_discovered_hostname, there, same)
      | inr new ↦
          rw (given, set_discovered_hostname, there, new)
            (resolve_name-same s _ k refl (λ j. device_ip-put mac d _ s j there refl))
    ]
  ]
]

resolve_name-vendor_found :
    (mac vendor k : Bytes) (s : Store)
    → resolve_name k (set_vendor mac vendor s).1 ≡ resolve_name k s
unfolding set_vendor
resolve_name-vendor_found mac vendor k s = elim (Bool-cases (is_empty vendor)) [
  | inl none_given ↦ rw none_given
  | inr given ↦ elim (Option-cases (get mac s.devices)) [
    | inl unknown ↦ rw (given, set_vendor, unknown)
    | inr (d, there) ↦ elim (Bool-cases (bytes_eq d.vendor vendor)) [
      | inl same ↦ rw (given, set_vendor, there, same)
      | inr new ↦
          rw (given, set_vendor, there, new)
            (resolve_name-same s _ k refl (λ j. device_ip-put mac d _ s j there refl))
    ]
  ]
]

resolve_name-save :
    (disk : Bool) (k : Bytes) (s : Store) → resolve_name k (save_locked disk s).1 ≡ resolve_name k s
unfolding save_locked
resolve_name-save true k s = resolve_name-same s _ k refl (λ j. refl)
resolve_name-save false k s = refl

resolve_name-detail :
    (op : Op) (k : Bytes) (s : Store) → IsDetail op → resolve_name k (run op s) ≡ resolve_name k s
unfolding run
resolve_name-detail op k s (naming mac name) = resolve_name-named mac name k s
resolve_name-detail op k s (filling mac vendor) = resolve_name-vendor_found mac vendor k s

resolve_name-details :
    (ops : List Op) (k : Bytes) (s : Store)
    → All IsDetail ops
    → resolve_name k (run_all ops s) ≡ resolve_name k s
unfolding run_all
resolve_name-details [] k s h = refl
resolve_name-details (op ∷ ops) k s (p, h) =
    resolve_name-details ops k (run op s) h ∙ resolve_name-detail op k s p

-- What a scan makes of a name is what its observations make of it.
resolve_name-feed :
    (c : Settings) (w : World) (nc : Option NetContext) (neighbors : List Neighbor)
    (memory : Memory) (s : Store) (k : Bytes)
    → resolve_name k (feed c w nc neighbors memory s).1
      ≡ resolve_name k (apply_scan (observed nc neighbors) w.now s).1
unfolding run_all run
resolve_name-feed c w nc neighbors memory s k =
    let (ops, details, end) = feed-cases c w nc neighbors memory s in
    let s1 = (apply_scan (observed nc neighbors) w.now s).1 in
    elim end [
      | inl e ↦ ap (resolve_name k) e ∙ resolve_name-details ops k s1 details
      | inr e ↦
          ap (resolve_name k) (e ∙ run_all-append ops (written w.disk ∷ []) s1)
          ∙ (resolve_name-save w.disk k (run_all ops s1) ∙ resolve_name-details ops k s1 details)
    ]

-- After a scan that reads the table of neighbours, the name of a mapping of a device leads to the
-- address of the last observation of the device that tells one, whatever probes and look-ups of
-- vendors find and whether the save succeeds or not.
pub resolve_name-scan :
    (c : Settings) (w : World) (memory : Memory) (s : Store) (k : Bytes) (m : Mapping)
    (neighbors : List Neighbor) (before after : List SeenDevice) (sd : SeenDevice)
    → w.swept_then_done ≡ false
    → read_arp_table w.arp ≡ some neighbors
    → observed (resolve_network c.cidr c.iface w.kernel) neighbors ≡ before ++ sd ∷ after
    → get k s.mappings ≡ some m
    → m.ip ≡ []
    → normalize_mac sd.mac ≡ ok m.mac
    → is_empty sd.ip ≡ false
    → All (IsSilent m.mac) after
    → resolve_name k (scan c w memory s).1 ≡ some (parse_ip sd.ip)
unfolding scan
resolve_name-scan c w memory s k m neighbors before after sd going table saw there dynamic same told
      silent =
    rw (going, scan, table)
      (resolve_name-feed c w (resolve_network c.cidr c.iface w.kernel) neighbors memory s k
        ∙ rw saw (resolve_name-scanned s k m there dynamic before after sd w.now same told silent))
