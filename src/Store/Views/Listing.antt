-- ===== src/Store/Views/Listing.antt =====
-- store.go: `Devices`, what the web interface lists.
use local_dns.Base.{
  ℕ, List, [], ◌∷◌, Bool, not, ◌&&◌, map, Bytes, none, some, replicate, bytes_eq, if◌then◌else◌,
}
use local_dns.Base.Text.{is_empty}
use local_dns.Dict.{values}
use local_dns.Net.{parse_ip, to4, to16}
use local_dns.Store.State.{Device, Mapping, Store}
use local_dns.Store.Files.{less, sort_by}
use local_dns.Store.Devices.{online_locked}

pub record DeviceView : Type 0 where
  pub device : Device
  pub online : Bool
  pub names : List Bytes

-- `parseIPv4Key`; `To16` of a parsed address is its 16 bytes.
unfoldable pub ip_key : Bytes → Bytes
unfolding to4 to16
ip_key ip = elim (parse_ip ip) [
  | none ↦ replicate 5 0xFF
  | some p ↦ elim (to4 p) [
    | some v4 ↦ 0 ∷ v4
    | none ↦ elim (to16 p) [ none ↦ 1 ∷ [] | some v6 ↦ 1 ∷ v6 ]
  ]
]

-- The loop over the mappings, for the list of one address in `namesByMAC`.
unfoldable pub names_of : Bytes → List Mapping → List Bytes
names_of mac [] = []
names_of mac (m ∷ ms) =
    if not (is_empty m.mac) && bytes_eq m.mac mac
    then m.hostname ∷ names_of mac ms
    else names_of mac ms

-- One round of the loop over the devices.
unfoldable pub view_of : ℕ → Store → Device → DeviceView
unfolding names_of sort_by online_locked
view_of now s d = record {
  device = d;
  online = online_locked d now s;
  names = sort_by (λ (h : Bytes). h) (names_of d.mac (values s.mappings));
}

-- The order of the list: by address, then by MAC.
unfoldable pub before : DeviceView → DeviceView → Bool
unfolding less ip_key
before a b =
    if bytes_eq (ip_key a.device.ip) (ip_key b.device.ip)
    then less a.device.mac b.device.mac
    else less (ip_key a.device.ip) (ip_key b.device.ip)

-- `sort.Slice`: the addresses differ, so this order has one sorted list.
unfoldable pub insert_view : DeviceView → List DeviceView → List DeviceView
unfolding before
insert_view v [] = v ∷ []
insert_view v (w ∷ l) = if before w v then w ∷ insert_view v l else v ∷ w ∷ l

unfoldable pub sort_views : List DeviceView → List DeviceView
unfolding insert_view
sort_views [] = []
sort_views (v ∷ l) = insert_view v (sort_views l)

-- `Store.Devices`
unfoldable pub device_views : ℕ → Store → List DeviceView
unfolding sort_views view_of
device_views now s = sort_views (map (view_of now s) (values s.devices))
