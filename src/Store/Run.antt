-- ===== src/Store/Run.antt =====
-- The store's life: the calls that the program makes of it, in any order.
use local_dns.Base.{ℕ, List, [], ◌∷◌, Bool, Bytes, Outcome, ok, err}
use local_dns.Store.State.{SeenDevice, Store, Error}
use local_dns.Store.Files.{save_locked, save_if_dirty, open_store}
use local_dns.Store.Devices.{
  apply_scan, set_discovered_hostname, set_vendor, set_label, delete_device,
}
use local_dns.Store.Mappings.{set_mapping, update_mapping, delete_mapping}

-- A call with its arguments. `reopen` is the end of the process and a new start with a window: the
-- program ends if the file cannot be read, and the store stays what it was.
pub data Op : Type 0 where
  scanned : List SeenDevice → ℕ → Op
  named vendor_found : Bytes → Bytes → Op
  labelled : Bool → Bytes → Bytes → Op
  device_deleted mapping_deleted : Bool → Bytes → Op
  mapped : Bool → Bytes → Bytes → Bytes → Bytes → ℕ → Op
  mapping_updated : Bool → Bytes → Bytes → Bytes → Bytes → Bytes → ℕ → Op
  save_time written : Bool → Op
  reopen : ℕ → Op

-- A store that was opened, or the one before.
abbrev pub opened_or : Store → Outcome Error Store → Store
opened_or s (ok s') = s'
opened_or s (err e) = s

unfoldable pub run : Op → Store → Store
unfolding apply_scan set_discovered_hostname set_vendor set_label delete_device set_mapping
    update_mapping delete_mapping save_if_dirty open_store save_locked
run (scanned seen now) s = (apply_scan seen now s).1
run (named mac name) s = (set_discovered_hostname mac name s).1
run (vendor_found mac vendor) s = (set_vendor mac vendor s).1
run (labelled disk mac label) s = (set_label disk mac label s).1
run (device_deleted disk mac) s = (delete_device disk mac s).1
run (mapping_deleted disk hostname) s = (delete_mapping disk hostname s).2
run (mapped disk hostname mac ip note now) s = (set_mapping disk hostname mac ip note now s).1
run (mapping_updated disk old hostname mac ip note now) s =
    (update_mapping disk old hostname mac ip note now s).1
run (save_time disk) s = (save_if_dirty disk s).1
run (written disk) s = (save_locked disk s).1
run (reopen window) s = opened_or s (open_store s.file window)

unfoldable pub run_all : List Op → Store → Store
unfolding run
run_all [] s = s
run_all (op ∷ ops) s = run_all ops (run op s)
