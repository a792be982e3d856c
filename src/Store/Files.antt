-- ===== src/Store/Files.antt =====
-- store.go: `Open`, `Save` and `SaveIfDirty`. The order in which the state is written is the sorted
-- one; a write that fails leaves the old file.
pub mod Less
pub mod Order
pub mod Canonical
use local_dns.Base.{
  ℕ, zero, suc, List, [], ◌∷◌, Bool, true, false, not, ◌&&◌, Bytes, Option, none, some, Outcome, ok,
  err, ltb, ◌==◌, if◌then◌else◌,
}
use mathlib.Core.List.{foldl}
use local_dns.Base.Text.{is_empty}
use local_dns.Dict.{Dict, get, put, values}
use local_dns.Names.{Problem, normalize, normalize_mac, validate_labels}
use local_dns.Store.State.{
  Device, Mapping, Persisted, File, missing, unreadable, corrupt, holds, Store, Error, save_failed,
  corrupted, read_failed,
}

-- `s < t` on strings.
unfoldable pub less : Bytes → Bytes → Bool
less s [] = false
less [] (d ∷ t) = true
less (c ∷ s) (d ∷ t) = if c == d then less s t else ltb c d

-- `sort.Slice` by a key; the keys of a map's entries differ, so the order is the only one.
module _ {A : Type 0} (key : A → Bytes) where
  unfoldable pub insert : A → List A → List A
  unfolding less
  insert a [] = a ∷ []
  insert a (b ∷ l) = if less (key b) (key a) then b ∷ insert a l else a ∷ b ∷ l

  unfoldable pub sort_by : List A → List A
  unfolding insert
  sort_by [] = []
  sort_by (a ∷ l) = insert a (sort_by l)

unfoldable pub persist : Store → Persisted
unfolding sort_by
persist s = record {
  devices = sort_by (λ (d : Device). d.mac) (values s.devices);
  mappings = sort_by (λ (m : Mapping). m.hostname) (values s.mappings);
}

-- The `error` of `saveLocked`, and the store after it.
unfoldable pub save_locked : Bool → Store → Option Error × Store
save_locked disk s =
    if disk
    then (none, record s { file = holds (persist s); dirty = false })
    else (some save_failed, s)

-- `Save`, which takes the mutex.
abbrev pub save : Bool → Store → Option Error × Store
save disk s = save_locked disk s

unfoldable pub save_if_dirty : Bool → Store → Option Error × Store
save_if_dirty disk s = if s.dirty then save_locked disk s else (none, s)

-- The loop over the devices of the file.
unfoldable pub load_device : Dict Device → Device → Dict Device
load_device devices d = elim (normalize_mac d.mac) [
  | err _ ↦ devices
  | ok mac ↦ put mac (record d { mac = mac }) devices
]

-- The loop over the mappings of the file. The address of a mapping is normalized if it has one.
unfoldable pub mapping_mac : Mapping → Outcome Problem Bytes
mapping_mac m = if is_empty m.mac then ok m.mac else normalize_mac m.mac

unfoldable pub load_mapping : Dict Mapping → Mapping → Dict Mapping
unfolding mapping_mac
load_mapping mappings m =
    let hostname = normalize m.hostname in
    elim (validate_labels hostname) [
      | some _ ↦ mappings
      | none ↦ elim (mapping_mac m) [
        | err _ ↦ mappings
        | ok mac ↦ put hostname (record m { hostname = hostname; mac = mac }) mappings
      ]
    ]

unfoldable pub open_store : File → ℕ → Outcome Error Store
unfolding load_device load_mapping
open_store missing window =
    ok (record {
      file = missing;
      online_window = window;
      devices = [];
      mappings = [];
      dirty = false;
    })
open_store unreadable window = err read_failed
open_store corrupt window = err corrupted
open_store (holds p) window = ok (record {
  file = holds p;
  online_window = window;
  devices = foldl load_device [] p.devices;
  mappings = foldl load_mapping [] p.mappings;
  dirty = false;
})
