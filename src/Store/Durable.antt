-- ===== src/Store/Durable.antt =====
-- What was saved comes back.
use local_dns.Base.{
  ℕ, ◌≡◌, refl, ap, ◌∙◌, ◌⊎◌, List, [], ◌∷◌, true, false, Bytes, Option, none, some, ok, arith,
  Bool-cases, inl, inr, All, bytes_eq, bytes_eq_iff,
}
use mathlib.Core.List.{foldl}
use local_dns.Base.Text.{is_empty}
use local_dns.Dict.{Dict, get, put, get-put, values, IsDict}
use local_dns.Dict.Entries.{Holds}
use local_dns.Dict.Listed.{find, Distinct, find-Lacking, find-values, values-Distinct, values-All}
use local_dns.Names.Mac.{IsMac, normalize_mac_canonical}
use local_dns.Names.Valid.{IsHostName, validate_labels_iff}
use local_dns.Names.Valid.Canonical.{normalize-IsHostName}
use local_dns.Store.State.{
  Device, Mapping, Persisted, File, missing, unreadable, corrupt, holds, Store,
}
use local_dns.Store.Files.{
  sort_by, persist, save_locked, load_device, load_mapping, mapping_mac, open_store,
}
use local_dns.Store.Files.Order.{All-sort_by, sort_by-Distinct, find-sort_by}
use local_dns.Store.Entries.{IsDevices, IsMappings}

abbrev or_else {ℓ} : {A : Type ℓ} → Option A → Option A → Option A
or_else (some a) o = some a
or_else none o = o

or_none : {A : Type 0} (o : Option A) → or_else o none ≡ o
or_none none = refl
or_none (some a) = refl

-- A loader that puts each good element under its key.
module _ {A : Type 0} (key : A → Bytes) (load : Dict A → A → Dict A) (P : A → Type 0)
    (loads : (a : A) (m : Dict A) → P a → load m a ≡ put (key a) a m) where
  get-foldl :
      (k : Bytes) (l : List A) (m : Dict A)
      → All P l
      → Distinct key l
      → get k (foldl load m l) ≡ or_else (find key k l) (get k m)
  unfolding find
  get-foldl k [] m h d = refl
  get-foldl k (a ∷ l) m (p, h) (f, d) =
      get-foldl k l (load m a) h d
      ∙ rw (loads a m p, get-put)
          (elim (Bool-cases (bytes_eq (key a) k)) [
            | inl same ↦
                rw (same, find-Lacking key k l (rw ((bytes_eq_iff (key a) k).0 same) at f)) refl
            | inr other ↦ rw other refl
          ])

  -- The map that is loaded from the sorted values has the same entries.
  get-reload :
      (k : Bytes) (m : Dict A)
      → Holds (λ j a. key a ≡ j) m
      → Holds (λ j a. P a) m
      → IsDict m
      → get k (foldl load [] (sort_by key (values m))) ≡ get k m
  unfolding get
  get-reload k m own good single =
      get-foldl k (sort_by key (values m)) []
        (All-sort_by key P (values m) (values-All key P m good))
        (sort_by-Distinct key (values m) (values-Distinct key m own single))
      ∙ (rw
          (
            find-sort_by key k (values m) (values-Distinct key m own single),
            find-values key k m own,
          )
          (or_none (get k m)))

-- A mapping as the invariant has it is loaded as it is.
abbrev IsSound : Mapping → Type 0
IsSound m = IsHostName m.hostname × ((m.mac ≡ []) ⊎ IsMac m.mac)

load_device-IsMac : (d : Device) (m : Dict Device) → IsMac d.mac → load_device m d ≡ put d.mac d m
unfolding load_device
load_device-IsMac d m v = rw (normalize_mac_canonical d.mac v, load_device) refl

mapping_mac-canonical : (m : Mapping) → (m.mac ≡ []) ⊎ IsMac m.mac → mapping_mac m ≡ ok m.mac
unfolding mapping_mac
mapping_mac-canonical m (inl e) = rw e refl
mapping_mac-canonical m (inr v) = elim (Bool-cases (is_empty m.mac)) [
  | inl e ↦ rw (e, mapping_mac) refl
  | inr e ↦ rw (e, mapping_mac) (normalize_mac_canonical m.mac v)
]

load_mapping-IsSound :
    (d : Mapping) (m : Dict Mapping) → IsSound d → load_mapping m d ≡ put d.hostname d m
unfolding load_mapping
load_mapping-IsSound d m (v, a) =
    let same = normalize-IsHostName d.hostname v in
    rw (load_mapping, same, (validate_labels_iff d.hostname).1 v, mapping_mac-canonical d a)
      (ap (λ h. put h (record d { hostname = h }) m) same)

-- The entries of a well-formed map, by themselves.
module _ {A : Type 0} {P Q : Bytes → A → Type 0} (f : (k : Bytes) (a : A) → P k a → Q k a) where
  pub Holds-map : (m : Dict A) → Holds P m → Holds Q m
  Holds-map [] h = tt
  Holds-map ((k, a) ∷ m) (p, h) = (f k a p, Holds-map m h)

get-reload_devices :
    (k : Bytes) (m : Dict Device)
    → IsDevices m
    → get k (foldl load_device [] (sort_by (λ (d : Device). d.mac) (values m))) ≡ get k m
get-reload_devices k m (h, single) =
    get-reload (λ (d : Device). d.mac) load_device (λ d. IsMac d.mac) load_device-IsMac k m
      (Holds-map (λ k d p. p.0) m h) (Holds-map (λ k d p. rw p.0 p.1) m h) single

get-reload_mappings :
    (k : Bytes) (m : Dict Mapping)
    → IsMappings m
    → get k (foldl load_mapping [] (sort_by (λ (d : Mapping). d.hostname) (values m))) ≡ get k m
get-reload_mappings k m (h, single) =
    get-reload (λ (d : Mapping). d.hostname) load_mapping IsSound load_mapping-IsSound k m
      (Holds-map (λ k d p. p.0) m h) (Holds-map (λ k d p. (rw p.0 p.1, p.2)) m h) single

-- Two stores answer every lookup alike.
pub record Agrees (s t : Store) : Type 0 where
  pub devices : (k : Bytes) → get k s.devices ≡ get k t.devices
  pub mappings : (k : Bytes) → get k s.mappings ≡ get k t.mappings

-- The file of a store has what the store has, for a process that opens it anew.
unfoldable pub IsSaved : Store → Type 0
IsSaved s = (window : ℕ) → (t : Store) × (open_store s.file window ≡ ok t) × Agrees t s

-- A save that succeeds writes all of a well-formed store.
pub save_locked-IsSaved :
    (s : Store) → IsDevices s.devices → IsMappings s.mappings → IsSaved (save_locked true s).1
unfolding IsSaved save_locked open_store persist
save_locked-IsSaved s d m window = (
  record {
    file = holds (persist s);
    online_window = window;
    devices = foldl load_device [] (persist s).devices;
    mappings = foldl load_mapping [] (persist s).mappings;
    dirty = false;
  },
  refl,
  record {
    devices = λ k. get-reload_devices k s.devices d;
    mappings = λ k. get-reload_mappings k s.mappings m;
  },
)

-- The store that `Open` makes of no file, and of one that can be read.
abbrev fresh : ℕ → Store
fresh window = record {
  file = missing;
  online_window = window;
  devices = [];
  mappings = [];
  dirty = false;
}

abbrev loaded : Persisted → ℕ → Store
loaded p window = record {
  file = holds p;
  online_window = window;
  devices = foldl load_device [] p.devices;
  mappings = foldl load_mapping [] p.mappings;
  dirty = false;
}

-- The store that `Open` returns is one of these.
pub open_store-cases :
    (file : File) (window : ℕ) (s : Store)
    → open_store file window ≡ ok s
    → ((file ≡ missing) × (fresh window ≡ s))
      ⊎ ((p : Persisted) × (file ≡ holds p) × (loaded p window ≡ s))
unfolding open_store
open_store-cases missing window s h = inl (refl, ground arith)
open_store-cases unreadable window s h = cc
open_store-cases corrupt window s h = cc
open_store-cases (holds p) window s h = inr (p, refl, ground arith)

fresh-IsSaved : (window : ℕ) → IsSaved (fresh window)
unfolding IsSaved open_store
fresh-IsSaved window next = (fresh next, refl, record { devices = λ k. refl; mappings = λ k. refl })

loaded-IsSaved : (p : Persisted) (window : ℕ) → IsSaved (loaded p window)
unfolding IsSaved open_store
loaded-IsSaved p window next =
    (loaded p next, refl, record { devices = λ k. refl; mappings = λ k. refl })

-- A store that was just opened has what its file has.
pub open_store-IsSaved :
    (file : File) (window : ℕ) (s : Store) → open_store file window ≡ ok s → IsSaved s
open_store-IsSaved file window s h = elim (open_store-cases file window s h) [
  | inl (_, e) ↦ rw (← e) (fresh-IsSaved window)
  | inr (p, _, e) ↦ rw (← e) (loaded-IsSaved p window)
]
