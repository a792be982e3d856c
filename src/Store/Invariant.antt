-- ===== src/Store/Invariant.antt =====
-- The store's invariant.
pub mod Devices
pub mod Mappings
pub mod Runs
use local_dns.Base.{
  ℕ, ◌≡◌, refl, sym, ap, ◌∙◌, ◌⊎◌, inl, inr, List, [], ◌∷◌, Bool, true, false, Bytes, Option, none,
  some, Outcome, ok, err, arith, ◌>>=◌, >>=-eq-ok, Bool-cases, Option-cases, length, ltb,
}
use mathlib.Core.List.{foldl}
use local_dns.Base.Text.{is_empty, trim_space}
use local_dns.Dict.{Dict, get, put, remove, has, IsDict, put-IsDict, remove-IsDict}
use local_dns.Dict.Entries.{Holds, Holds-get, Holds-put, Holds-remove}
use local_dns.Names.{normalize, normalize_mac, validate_labels}
use local_dns.Names.Mac.{IsMac, normalize_mac-IsMac}
use local_dns.Names.Valid.{IsHostName, validate_labels_iff}
use local_dns.Store.State.{Device, Mapping, SeenDevice, Store, Error}
use local_dns.Store.Files.{save_locked}
use local_dns.Store.Entries.{IsDevices, IsMappings}
use local_dns.Store.Durable.{IsSaved, save_locked-IsSaved}

-- The entries are well formed, and a store is marked as changed or its file has what it has.
pub record IsStore (s : Store) : Type 0 where
  pub devices : IsDevices s.devices
  pub mappings : IsMappings s.mappings
  pub durable : (s.dirty ≡ true) ⊎ IsSaved s

-- A store that is marked as changed.
pub marked : (s : Store) → s.dirty ≡ true → IsDevices s.devices → IsMappings s.mappings → IsStore s
marked s t d m = record { devices = d; mappings = m; durable = inl t }

pub save_locked-IsStore : (disk : Bool) (s : Store) → IsStore s → IsStore (save_locked disk s).1
unfolding save_locked
save_locked-IsStore true s v = record {
  devices = v.devices;
  mappings = v.mappings;
  durable = inr (save_locked-IsSaved s v.devices v.mappings);
}
save_locked-IsStore false s v = v
