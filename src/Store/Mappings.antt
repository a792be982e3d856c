-- ===== src/Store/Mappings.antt =====
-- store.go: the operations on mappings.
pub mod Refused
use local_dns.Base.{
  ℕ, zero, suc, List, [], ◌∷◌, Bool, true, false, not, ◌&&◌, ◌||◌, Bytes, Option, none, some,
  Outcome, ok, err, ◌>>=◌, length, ltb, leb, ◌==◌, bytes_eq, if◌then◌else◌,
}
use local_dns.Base.Text.{is_empty, trim_space}
use local_dns.Dict.{Dict, get, put, remove, has}
use local_dns.Names.{Problem, normalize, normalize_mac, validate_labels}
use local_dns.Net.{parse_ip, ip_string}
use local_dns.Store.State.{
  Mapping, Store, Error, bad_name, not_one_target, bad_ip, long_note, mapping_not_found,
  hostname_taken,
}
use local_dns.Store.Files.{save_locked}

-- The fields of a mapping, normalized.
pub record Input : Type 0 where
  pub hostname : Bytes
  pub mac : Bytes
  pub ip : Bytes
  pub note : Bytes

abbrev pub same : Bool → Bool → Bool
same true b = b
same false b = not b

-- `if mac != "" { mac, err = names.NormalizeMAC(mac) }`
unfoldable pub input_mac : Bytes → Outcome Error Bytes
input_mac mac =
    if is_empty mac
    then ok mac
    else elim (normalize_mac mac) [ err p ↦ err (bad_name p) | ok norm ↦ ok norm ]

-- `if ip != "" { … }`
unfoldable pub input_ip : Bytes → Outcome Error Bytes
input_ip ip =
    if is_empty ip
    then ok ip
    else elim (parse_ip (trim_space ip)) [ none ↦ err bad_ip | some parsed ↦ ok (ip_string parsed) ]

unfoldable pub normalize_mapping_input : Bytes → Bytes → Bytes → Bytes → Outcome Error Input
unfolding input_mac input_ip
normalize_mapping_input hostname mac ip note =
    let name = normalize hostname in
    elim (validate_labels name) [
      | some p ↦ err (bad_name p)
      | none ↦ if same (is_empty mac) (is_empty ip) then err not_one_target else do
        norm ← input_mac mac
        address ← input_ip ip
        if ltb 200 (length note)
            then err long_note
            else ok (record { hostname = name; mac = norm; ip = address; note = trim_space note })
    ]

-- The writes that `SetMapping` and `UpdateMapping` share.
abbrev pub assign : Mapping → Input → ℕ → Mapping
assign m i now = record m { mac = i.mac; ip = i.ip; note = i.note; updated_at = now }

-- `m, ok := s.mappings[hostname]`, or a new mapping.
abbrev pub mapping_or_new : Option Mapping → Bytes → ℕ → Mapping
mapping_or_new none hostname now = record {
  hostname = hostname;
  mac = [];
  ip = [];
  note = [];
  created_at = now;
  updated_at = 0;
}
mapping_or_new (some m) hostname now = m

-- `return *m, err` behind a save; the mapping beside an error is not used by any caller.
abbrev pub saved : Option Error × Store → Mapping → Outcome Error Mapping × Store
saved (none, s) m = (ok m, s)
saved (some e, s) m = (err e, s)

-- The part of `SetMapping` under the lock.
unfoldable pub set_locked : Bool → Input → ℕ → Store → Outcome Error Mapping × Store
set_locked disk i now s =
    let m = assign (mapping_or_new (get i.hostname s.mappings) i.hostname now) i now in
    saved (save_locked disk (record s { mappings = put i.hostname m s.mappings; dirty = true })) m

unfoldable pub set_mapping :
    Bool → Bytes → Bytes → Bytes → Bytes → ℕ → Store → Outcome Error Mapping × Store
unfolding set_locked
set_mapping disk hostname mac ip note now s = elim (normalize_mapping_input hostname mac ip note) [
  | err e ↦ (err e, s)
  | ok i ↦ set_locked disk i now s
]

-- The part of `UpdateMapping` behind the checks: `rest` is the map without the old entry and `m` has
-- the new hostname, if the mapping is renamed.
unfoldable pub replace :
    Bool → Dict Mapping → Mapping → Input → ℕ → Store → Outcome Error Mapping × Store
replace disk rest m i now s =
    let m' = assign m i now in
    saved (save_locked disk (record s { mappings = put i.hostname m' rest; dirty = true })) m'

-- The part of `UpdateMapping` under the lock.
unfoldable pub update_locked : Bool → Bytes → Input → ℕ → Store → Outcome Error Mapping × Store
unfolding replace has
update_locked disk old i now s = elim (get old s.mappings) [
  | none ↦ (err mapping_not_found, s)
  | some m ↦
      if bytes_eq i.hostname old
      then replace disk s.mappings m i now s
      else if has i.hostname s.mappings
      then (err hostname_taken, s)
      else replace disk (remove old s.mappings) (record m { hostname = i.hostname }) i now s
]

unfoldable pub update_mapping :
    Bool → Bytes → Bytes → Bytes → Bytes → Bytes → ℕ → Store → Outcome Error Mapping × Store
unfolding update_locked
update_mapping disk old hostname mac ip note now s =
    elim (normalize_mapping_input hostname mac ip note) [
      | err e ↦ (err e, s)
      | ok i ↦ update_locked disk (normalize old) i now s
    ]

-- Whether the mapping was there, and the `error`.
unfoldable pub delete_mapping : Bool → Bytes → Store → Bool × Option Error × Store
unfolding has
delete_mapping disk hostname s =
    let name = normalize hostname in
    if has name s.mappings
    then (let (e, s') =
          save_locked disk (record s { mappings = remove name s.mappings; dirty = true }) in
        (true, e, s'))
    else (false, none, s)
