-- ===== src/Store/Resolve.antt =====
-- store.go: `ResolveName` and `ResolvePTR`, which the DNS server calls.
pub mod Mapped
pub mod Reverse
pub mod Alike
pub mod Follows
use local_dns.Base.{ℕ, List, [], ◌∷◌, Bool, true, false, Bytes, Option, none, some, if◌then◌else◌}
use local_dns.Base.Text.{is_empty}
use local_dns.Dict.{get, keys}
use local_dns.Net.{parse_ip, ip_equal}
use local_dns.Store.State.{Device, Mapping, Store}
use local_dns.Store.Files.{sort_by}

-- The address of a device that is known, if it has one.
abbrev pub device_ip : Option Device → Option Bytes
device_ip none = none
device_ip (some d) = if is_empty d.ip then none else parse_ip d.ip

unfoldable pub resolve_locked : Mapping → Store → Option Bytes
resolve_locked m s = if is_empty m.ip then device_ip (get m.mac s.devices) else parse_ip m.ip

-- `none` for a name that is not found; `some none` for one with no address.
unfoldable pub resolve_name : Bytes → Store → Option (Option Bytes)
unfolding resolve_locked
resolve_name hostname s = elim (get hostname s.mappings) [
  | none ↦ none
  | some m ↦ some (resolve_locked m s)
]

-- `cur != nil && cur.Equal(ip)`
abbrev pub is_at : Option Bytes → Bytes → Bool
is_at none ip = false
is_at (some cur) ip = ip_equal cur ip

-- Whether the mapping of a hostname has the address now.
unfoldable pub name_is_at : Store → Bytes → Bytes → Bool
unfolding resolve_locked
name_is_at s ip h = elim (get h s.mappings) [
  | none ↦ false
  | some m ↦ is_at (resolve_locked m s) ip
]

-- The loop over the sorted hostnames.
unfoldable pub first_at : Store → Bytes → List Bytes → Option Bytes
unfolding name_is_at
first_at s ip [] = none
first_at s ip (h ∷ hostnames) =
    let rest = first_at s ip hostnames in if name_is_at s ip h then some h else rest

unfoldable pub resolve_ptr : Bytes → Store → Option Bytes
unfolding first_at
resolve_ptr ip s = first_at s ip (sort_by (λ (h : Bytes). h) (keys s.mappings))
