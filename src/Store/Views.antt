-- ===== src/Store/Views.antt =====
-- store.go: what the web interface shows of the store.
pub mod Shown
pub mod Listing
pub mod Sorted
use local_dns.Base.{
  ℕ, suc, ◌+◌, List, [], ◌∷◌, Bool, true, false, not, map, Bytes, Option, none, some, length,
  if◌then◌else◌,
}
use local_dns.Base.Text.{is_empty}
use local_dns.Dict.{get, values}
use local_dns.Store.State.{Device, Mapping, Store}
use local_dns.Store.Files.{sort_by}
use local_dns.Store.Devices.{online_locked}

pub record MappingView : Type 0 where
  pub mapping : Mapping
  pub current_ip : Bytes
  pub online : Bool
  pub device_name : Bytes

-- The view of a mapping of a device, if it is known. The name of a device is its label, or else its
-- host name.
abbrev pub device_view : Mapping → ℕ → Store → Option Device → MappingView
device_view m now s none = record { mapping = m; current_ip = []; online = false; device_name = [] }
device_view m now s (some d) = record {
  mapping = m;
  current_ip = d.ip;
  online = online_locked d now s;
  device_name = if not (is_empty d.label) then d.label else d.hostname;
}

-- One round of the loop of `Mappings`.
unfoldable pub mapping_view : ℕ → Store → Mapping → MappingView
mapping_view now s m =
    if not (is_empty m.ip)
    then record { mapping = m; current_ip = m.ip; online = true; device_name = [] }
    else device_view m now s (get m.mac s.devices)

-- `Store.Mappings`
unfoldable pub mapping_views : ℕ → Store → List MappingView
unfolding mapping_view sort_by
mapping_views now s =
    sort_by (λ (v : MappingView). v.mapping.hostname) (map (mapping_view now s) (values s.mappings))

-- The loop of `Counts`.
unfoldable count_online : ℕ → Store → List Device → ℕ
unfolding online_locked
count_online now s [] = 0
count_online now s (d ∷ devices) =
    let rest = count_online now s devices in if online_locked d now s then suc rest else rest

-- `Store.Counts`: all devices, and those that are online.
unfoldable pub counts : ℕ → Store → ℕ × ℕ
unfolding count_online
counts now s = (length s.devices, count_online now s (values s.devices))
