-- ===== src/Web/Calls.antt =====
-- What a request does to the store.
use local_dns.Base.{
  ℕ, ◌≤◌, ◌≡◌, ◌≢◌, refl, ap, ◌⊎◌, inl, inr, List, [], ◌∷◌, Bool, true, false, Bytes, Option, none,
  some, Outcome, ok, err, arith, Bool-cases, Option-cases, length, ltb,
}
use local_dns.Base.Text.{trim_space}
use local_dns.Dict.{get, has}
use local_dns.Names.{normalize, normalize_mac}
use local_dns.Store.State.{Mapping, Store, Error, save_failed}
use local_dns.Store.Files.{save_locked}
use local_dns.Store.Devices.{delete_device, set_label}
use local_dns.Store.Invariant.{IsStore}
use local_dns.Store.Invariant.Devices.{Outcome-cases}
use local_dns.Store.Invariant.Runs.{run_all-preserves}
use local_dns.Store.Mappings.{delete_mapping, set_mapping, update_mapping}
use local_dns.Store.Mappings.Refused.{set_mapping_refused, update_mapping_refused}
use local_dns.Store.Run.{
  Op, labelled, device_deleted, mapping_deleted, mapped, mapping_updated, run, run_all,
}
use local_dns.Web.{
  Action, MappingBody, Payload, Shared, Site, get_status, get_devices, get_mappings, post_scan,
  served, patch_device, delete_device_at, delete_mapping_at, post_mapping, put_mapping, failed,
  respond, do_patch, do_delete_device, do_post_mapping, do_put_mapping, do_delete_mapping, serve,
  allowed, deleted_answer,
}

-- The calls that a request stands for: one at most, with its texts trimmed as the handler does it.
abbrev pub calls_of : Bool → ℕ → Action → List Op
calls_of disk now (patch_device mac (some (some label))) = labelled disk mac label ∷ []
calls_of disk now (delete_device_at mac) = device_deleted disk mac ∷ []
calls_of disk now (delete_mapping_at hostname) = mapping_deleted disk hostname ∷ []
calls_of disk now (post_mapping (some b)) =
    mapped disk b.hostname (trim_space b.mac) (trim_space b.ip) b.note now ∷ []
calls_of disk now (put_mapping old (some b)) =
    mapping_updated disk old b.hostname (trim_space b.mac) (trim_space b.ip) b.note now ∷ []
calls_of disk now _ = []

-- A handler does to the store what its call of the store does, and no more.
pub store-respond :
    (site : Site) (disk : Bool) (now : ℕ) (action : Action) (s : Shared)
    → (respond site disk now action s).1.store ≡ run_all (calls_of disk now action) s.store
unfolding respond run_all run do_patch do_delete_device do_post_mapping do_put_mapping
    do_delete_mapping
store-respond site disk now get_status s = refl
store-respond site disk now get_devices s = refl
store-respond site disk now get_mappings s = refl
store-respond site disk now post_scan s = refl
store-respond site disk now served s = refl
store-respond site disk now (patch_device mac none) s = refl
store-respond site disk now (patch_device mac (some none)) s = refl
store-respond site disk now (patch_device mac (some (some label))) s = refl
store-respond site disk now (delete_device_at mac) s = refl
store-respond site disk now (delete_mapping_at hostname) s = refl
store-respond site disk now (post_mapping none) s = refl
store-respond site disk now (post_mapping (some b)) s = refl
store-respond site disk now (put_mapping old none) s = refl
store-respond site disk now (put_mapping old (some b)) s = refl

-- A save gives no error, or that of a save.
save_locked-error :
    (disk : Bool) (s : Store) (e : Error) → (save_locked disk s).0 ≡ some e → e ≡ save_failed
unfolding save_locked
save_locked-error true s e h = cc
save_locked-error false s e h = cc

set_label_refused :
    (disk : Bool) (mac label : Bytes) (s : Store) (e : Error)
    → (set_label disk mac label s).0 ≡ some e
    → e ≢ save_failed
    → (set_label disk mac label s).1 ≡ s
unfolding set_label
set_label_refused disk mac label s e h n = elim (Bool-cases (ltb 100 (length (trim_space label)))) [
  | inl long ↦ rw long
  | inr fits ↦ elim (Outcome-cases (normalize_mac mac)) [
    | inr (p, bad) ↦ rw (fits, set_label, bad)
    | inl (norm, good) ↦ elim (Option-cases (get norm s.devices)) [
      | inl unknown ↦ rw (fits, set_label, good, unknown)
      | inr (d, there) ↦
          absurd (n (save_locked-error disk _ e (rw (fits, set_label, good, there) at h)))
    ]
  ]
]

delete_device_refused :
    (disk : Bool) (mac : Bytes) (s : Store) (e : Error)
    → (delete_device disk mac s).0 ≡ some e
    → e ≢ save_failed
    → (delete_device disk mac s).1 ≡ s
unfolding delete_device
delete_device_refused disk mac s e h n = elim (Outcome-cases (normalize_mac mac)) [
  | inr (p, bad) ↦ rw (bad, delete_device)
  | inl (norm, good) ↦ elim (Option-cases (get norm s.devices)) [
    | inl unknown ↦ rw (good, delete_device, unknown)
    | inr (d, there) ↦
        absurd (n (save_locked-error disk _ e (rw (good, delete_device, there) at h)))
  ]
]

Result-cases :
    (o : Outcome Error Mapping) → ((m : Mapping) × (o ≡ ok m)) ⊎ ((e : Error) × (o ≡ err e))
Result-cases (ok m) = inl (m, refl)
Result-cases (err e) = inr (e, refl)

failed-save : (e : Error) → ◌≢◌ {A = Payload} (failed e) (failed save_failed) → e ≢ save_failed
failed-save e h k = h (ap failed k)

no_error : 400 ≤ 200 → ⊥
no_error h = omega arith

-- A deletion of what is there only fails with the save.
delete-error :
    (disk : Bool) (t : Store)
    → 400 ≤ (deleted_answer true (save_locked disk t).0).code
    → (deleted_answer true (save_locked disk t).0).payload ≢ failed save_failed
    → ⊥
unfolding save_locked
delete-error true t h n = no_error h
delete-error false t h n = n refl

module _ (disk : Bool) (s : Shared) where
  do_patch_refused :
      (mac : Bytes) (body : Option (Option Bytes))
      → 400 ≤ (do_patch disk mac body s).0.code
      → (do_patch disk mac body s).0.payload ≢ failed save_failed
      → (do_patch disk mac body s).1 ≡ s
  unfolding do_patch
  do_patch_refused mac none h n = refl
  do_patch_refused mac (some none) h n = refl
  do_patch_refused mac (some (some label)) h n =
      elim (Option-cases (set_label disk mac label s.store).0) [
        | inl fine ↦ absurd (no_error (rw fine at h))
        | inr (e, bad) ↦
            ap (λ t. record s { store = t })
              (set_label_refused disk mac label s.store e bad (failed-save e (rw bad at n)))
      ]

  do_delete_device_refused :
      (mac : Bytes)
      → 400 ≤ (do_delete_device disk mac s).0.code
      → (do_delete_device disk mac s).0.payload ≢ failed save_failed
      → (do_delete_device disk mac s).1 ≡ s
  unfolding do_delete_device
  do_delete_device_refused mac h n = elim (Option-cases (delete_device disk mac s.store).0) [
    | inl fine ↦ absurd (no_error (rw fine at h))
    | inr (e, bad) ↦
        ap (λ t. record s { store = t })
          (delete_device_refused disk mac s.store e bad (failed-save e (rw bad at n)))
  ]

  do_delete_mapping_refused :
      (hostname : Bytes)
      → 400 ≤ (do_delete_mapping disk hostname s).0.code
      → (do_delete_mapping disk hostname s).0.payload ≢ failed save_failed
      → (do_delete_mapping disk hostname s).1 ≡ s
  unfolding do_delete_mapping delete_mapping
  do_delete_mapping_refused hostname h n =
      elim (Bool-cases (has (normalize hostname) s.store.mappings)) [
        | inr absent ↦ rw absent refl
        | inl there ↦ absurd (delete-error disk _ (rw there at h) (rw there at n))
      ]

  do_post_mapping_refused :
      (now : ℕ) (body : Option MappingBody)
      → 400 ≤ (do_post_mapping disk now body s).0.code
      → (do_post_mapping disk now body s).0.payload ≢ failed save_failed
      → (do_post_mapping disk now body s).1 ≡ s
  unfolding do_post_mapping
  do_post_mapping_refused now none h n = refl
  do_post_mapping_refused now (some b) h n =
      let mac = trim_space b.mac in
      let ip = trim_space b.ip in
      elim (Result-cases (set_mapping disk b.hostname mac ip b.note now s.store).0) [
        | inl (m, fine) ↦ absurd (no_error (rw fine at h))
        | inr (e, bad) ↦
            ap (λ t. record s { store = t })
              (set_mapping_refused disk b.hostname mac ip b.note now s.store e bad
                (failed-save e (rw bad at n)))
      ]

  do_put_mapping_refused :
      (now : ℕ) (old : Bytes) (body : Option MappingBody)
      → 400 ≤ (do_put_mapping disk now old body s).0.code
      → (do_put_mapping disk now old body s).0.payload ≢ failed save_failed
      → (do_put_mapping disk now old body s).1 ≡ s
  unfolding do_put_mapping
  do_put_mapping_refused now old none h n = refl
  do_put_mapping_refused now old (some b) h n =
      let mac = trim_space b.mac in
      let ip = trim_space b.ip in
      elim (Result-cases (update_mapping disk old b.hostname mac ip b.note now s.store).0) [
        | inl (m, fine) ↦ absurd (no_error (rw fine at h))
        | inr (e, bad) ↦
            ap (λ t. record s { store = t })
              (update_mapping_refused disk old b.hostname mac ip b.note now s.store e bad
                (failed-save e (rw bad at n)))
      ]

-- A handler that answers with an error, other than that of a save that failed, has changed nothing.
pub respond_refused :
    (site : Site) (disk : Bool) (now : ℕ) (action : Action) (s : Shared)
    → 400 ≤ (respond site disk now action s).0.code
    → (respond site disk now action s).0.payload ≢ failed save_failed
    → (respond site disk now action s).1 ≡ s
unfolding respond
respond_refused site disk now get_status s h n = refl
respond_refused site disk now get_devices s h n = refl
respond_refused site disk now get_mappings s h n = refl
respond_refused site disk now post_scan s h n = absurd (omega arith)
respond_refused site disk now served s h n = refl
respond_refused site disk now (patch_device mac body) s h n = do_patch_refused disk s mac body h n
respond_refused site disk now (delete_device_at mac) s h n = do_delete_device_refused disk s mac h n
respond_refused site disk now (post_mapping body) s h n =
    do_post_mapping_refused disk s now body h n
respond_refused site disk now (put_mapping old body) s h n =
    do_put_mapping_refused disk s now old body h n
respond_refused site disk now (delete_mapping_at hostname) s h n =
    do_delete_mapping_refused disk s hostname h n

-- A handler keeps a store well formed.
pub respond-IsStore :
    (site : Site) (disk : Bool) (now : ℕ) (action : Action) (s : Shared)
    → IsStore s.store
    → IsStore (respond site disk now action s).1.store
respond-IsStore site disk now action s v =
    rw (store-respond site disk now action s)
      (run_all-preserves (calls_of disk now action) s.store v)

-- A request keeps a store well formed.
pub serve-IsStore :
    (site : Site) (disk : Bool) (now : ℕ) (given : Option (Bytes × Bytes)) (action : Action)
    (s : Shared)
    → IsStore s.store
    → IsStore (serve site disk now given action s).1.store
unfolding serve
serve-IsStore site disk now given action s v = elim (Bool-cases (allowed site given)) [
  | inl may ↦ rw may (respond-IsStore site disk now action s v)
  | inr may_not ↦ rw may_not v
]
