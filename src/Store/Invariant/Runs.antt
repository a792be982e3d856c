-- ===== src/Store/Invariant/Runs.antt =====
-- Every store that the program reaches is well formed, whatever stands in its file.
use local_dns.Base.{
  ℕ, ◌≡◌, refl, ◌⊎◌, List, [], ◌∷◌, Bool, true, false, Bytes, none, Outcome, ok, err, arith,
  if◌then◌else◌, Bool-cases, Option-cases, inl, inr,
}
use mathlib.Core.List.{foldl}
use local_dns.Base.Text.{is_empty}
use local_dns.Dict.{Dict}
use local_dns.Names.{normalize, normalize_mac, validate_labels}
use local_dns.Names.Mac.{IsMac, normalize_mac-IsMac}
use local_dns.Names.Valid.{validate_labels_iff}
use local_dns.Store.State.{Device, Mapping, File, Store, Error}
use local_dns.Store.Files.{
  save_locked, save_if_dirty, load_device, load_mapping, mapping_mac, open_store,
}
use local_dns.Store.Durable.{open_store-cases, open_store-IsSaved}
use local_dns.Store.Run.{
  Op, scanned, named, vendor_found, labelled, device_deleted, mapping_deleted, mapped,
  mapping_updated, save_time, written, reopen, opened_or, run, run_all,
}
use local_dns.Store.Entries.{IsDevices, IsMappings, put-IsDevices, put-IsMappings}
use local_dns.Store.Invariant.{IsStore, save_locked-IsStore}
use local_dns.Store.Invariant.Devices.{
  Outcome-cases, apply_scan-IsStore, set_discovered_hostname-IsStore, set_vendor-IsStore,
  set_label-IsStore, delete_device-IsStore,
}
use local_dns.Store.Invariant.Mappings.{
  set_mapping-IsStore, update_mapping-IsStore, delete_mapping-IsStore,
}

foldl-IsDevices :
    (ds : List Device) (m : Dict Device) → IsDevices m → IsDevices (foldl load_device m ds)
unfolding load_device
foldl-IsDevices [] m v = v
foldl-IsDevices (d ∷ ds) m v =
    foldl-IsDevices ds (load_device m d) (elim (Outcome-cases (normalize_mac d.mac)) [
      | inl (mac, e) ↦
          rw (e, load_device) (put-IsDevices mac _ m (refl, normalize_mac-IsMac d.mac mac e) v)
      | inr (p, e) ↦ rw (e, load_device) v
    ])

mapping_mac-ok : (m : Mapping) (mac : Bytes) → mapping_mac m ≡ ok mac → (mac ≡ []) ⊎ IsMac mac
unfolding mapping_mac
mapping_mac-ok m mac h = elim (Bool-cases (is_empty m.mac)) [
  | inl e ↦ inl (ground arith)
  | inr e ↦ inr (normalize_mac-IsMac m.mac mac (ground arith))
]

load_mapping-IsMappings :
    (d : Mapping) (m : Dict Mapping) → IsMappings m → IsMappings (load_mapping m d)
unfolding load_mapping
load_mapping-IsMappings d m v = elim (Option-cases (validate_labels (normalize d.hostname))) [
  | inr (p, e) ↦ rw (e, load_mapping) v
  | inl e ↦ elim (Outcome-cases (mapping_mac d)) [
    | inr (p, k) ↦ rw (e, load_mapping, k) v
    | inl (mac, k) ↦
        rw (e, load_mapping, k)
          (put-IsMappings (normalize d.hostname) _ m
            (refl, (validate_labels_iff (normalize d.hostname)).0 e, mapping_mac-ok d mac k) v)
  ]
]

foldl-IsMappings :
    (ds : List Mapping) (m : Dict Mapping) → IsMappings m → IsMappings (foldl load_mapping m ds)
foldl-IsMappings [] m v = v
foldl-IsMappings (d ∷ ds) m v =
    foldl-IsMappings ds (load_mapping m d) (load_mapping-IsMappings d m v)

-- A store that `Open` returns is well formed, whatever the file holds.
pub open_store-IsStore :
    (file : File) (window : ℕ) (s : Store) → open_store file window ≡ ok s → IsStore s
open_store-IsStore file window s h = elim (open_store-cases file window s h) [
  | inl (_, e) ↦ record {
    devices = rw (← e) (tt, tt);
    mappings = rw (← e) (tt, tt);
    durable = inr (open_store-IsSaved file window s h);
  }
  | inr (p, _, e) ↦ record {
    devices = rw (← e) (foldl-IsDevices p.devices [] (tt, tt));
    mappings = rw (← e) (foldl-IsMappings p.mappings [] (tt, tt));
    durable = inr (open_store-IsSaved file window s h);
  }
]

opened_or-IsStore :
    (s : Store) (o : Outcome Error Store)
    → ((s' : Store) → o ≡ ok s' → IsStore s')
    → IsStore s
    → IsStore (opened_or s o)
opened_or-IsStore s (ok s') h v = h s' refl
opened_or-IsStore s (err e) h v = v

save_if-IsStore :
    (test disk : Bool) (s : Store)
    → IsStore s
    → IsStore (if test then save_locked disk s else (none, s)).1
save_if-IsStore true disk s v = save_locked-IsStore disk s v
save_if-IsStore false disk s v = v

-- Every call keeps a store well formed.
pub run-IsStore : (op : Op) (s : Store) → IsStore s → IsStore (run op s)
unfolding run
run-IsStore (scanned seen now) s v = apply_scan-IsStore seen now s v
run-IsStore (named mac name) s v = set_discovered_hostname-IsStore mac name s v
run-IsStore (vendor_found mac vendor) s v = set_vendor-IsStore mac vendor s v
run-IsStore (labelled disk mac label) s v = set_label-IsStore disk mac label s v
run-IsStore (device_deleted disk mac) s v = delete_device-IsStore disk mac s v
run-IsStore (mapping_deleted disk hostname) s v = delete_mapping-IsStore disk hostname s v
run-IsStore (mapped disk hostname mac ip note now) s v =
    set_mapping-IsStore disk hostname mac ip note now s v
run-IsStore (mapping_updated disk old hostname mac ip note now) s v =
    update_mapping-IsStore disk old hostname mac ip note now s v
run-IsStore (save_time disk) s v = unfold save_if_dirty in save_if-IsStore s.dirty disk s v
run-IsStore (written disk) s v = save_locked-IsStore disk s v
run-IsStore (reopen window) s v =
    opened_or-IsStore s (open_store s.file window) (open_store-IsStore s.file window) v

pub run_all-preserves : (ops : List Op) (s : Store) → IsStore s → IsStore (run_all ops s)
unfolding run_all
run_all-preserves [] s v = v
run_all-preserves (op ∷ ops) s v = run_all-preserves ops (run op s) (run-IsStore op s v)
