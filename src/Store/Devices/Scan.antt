-- ===== src/Store/Devices/Scan.antt =====
-- What a scan does to the devices.
use local_dns.Base.{
  ℕ, ◌≡◌, refl, ap, ◌∙◌, ◌⊎◌, inl, inr, List, [], ◌∷◌, Bool, true, false, ◌||◌, Bytes, Option, none,
  some, ok, err, arith, if◌then◌else◌, Bool-cases, bytes_eq, bytes_eq→eq,
}
use local_dns.Dict.{get, get-put}
use local_dns.Names.{normalize_mac}
use local_dns.Store.State.{Device, Mapping, SeenDevice, Store}
use local_dns.Store.Resolve.{device_ip, resolve_locked, resolve_name}
use local_dns.Store.Devices.{observe, known_or_new, is_new, ip_changes, see, see_all, apply_scan}

-- Whether an observation is of the device with this address.
abbrev pub is_of : Bytes → SeenDevice → Bool
is_of k sd = elim (normalize_mac sd.mac) [ err _ ↦ false | ok mac ↦ bytes_eq mac k ]

-- What is known of a device after the observations: the history of one device, read by itself.
abbrev pub history : ℕ → Bytes → List SeenDevice → Option Device → Option Device
history now k [] o = o
history now k (sd ∷ seen) o =
    history now k seen (if is_of k sd then some (observe now sd (known_or_new o k now)) else o)

see-device :
    (now : ℕ) (s : Store) (material : Bool) (sd : SeenDevice) (k : Bytes)
    → get k (see now s material sd).0.devices ≡ (
        if is_of k sd
        then some (observe now sd (known_or_new (get k s.devices) k now))
        else get k s.devices)
unfolding see
see-device now s material sd k = go (normalize_mac sd.mac) refl
  where
    go :
        (o : _)
        → normalize_mac sd.mac ≡ o
        → get k (see now s material sd).0.devices ≡ (
            if is_of k sd
            then some (observe now sd (known_or_new (get k s.devices) k now))
            else get k s.devices)
    go (err p) e = rw (e, see, is_of) refl
    go (ok mac) e = rw (e, see, is_of, get-put) (same (Bool-cases (bytes_eq mac k)))
      where
        same :
            (bytes_eq mac k ≡ true) ⊎ (bytes_eq mac k ≡ false)
            → (if bytes_eq mac k
                then some (observe now sd (known_or_new (get mac s.devices) mac now))
                else get k s.devices)
              ≡ (if bytes_eq mac k
                  then some (observe now sd (known_or_new (get k s.devices) k now))
                  else get k s.devices)
        same (inl t) = rw t (
            ap (λ j. some (observe now sd (known_or_new (get j s.devices) j now)))
              (bytes_eq→eq mac k t))
        same (inr t) = rw t refl

see_all-device :
    (now : ℕ) (s : Store) (material : Bool) (seen : List SeenDevice) (k : Bytes)
    → get k (see_all now s material seen).0.devices ≡ history now k seen (get k s.devices)
unfolding see_all
see_all-device now s material [] k = refl
see_all-device now s material (sd ∷ seen) k =
    see_all-device now (see now s material sd).0 (see now s material sd).1 seen k
    ∙ ap (history now k seen) (see-device now s material sd k)

pub apply_scan-device :
    (seen : List SeenDevice) (now : ℕ) (s : Store) (k : Bytes)
    → get k (apply_scan seen now s).1.devices ≡ history now k seen (get k s.devices)
unfolding apply_scan
apply_scan-device seen now s k = elim (Bool-cases (see_all now s false seen).1) [
  | inl e ↦ rw e (see_all-device now s false seen k)
  | inr e ↦ rw e (see_all-device now s false seen k)
]

-- An observation that is not material.
quiet_ip :
    (now : ℕ) (sd : SeenDevice) (o : Option Device) (mac : Bytes)
    → is_new o ≡ false
    → ip_changes sd (known_or_new o mac now) ≡ false
    → device_ip (some (observe now sd (known_or_new o mac now))) ≡ device_ip o
unfolding observe
quiet_ip now sd none mac h e = cc
quiet_ip now sd (some d) mac h e = rw e refl

or_false : (a b c d : Bool) → (a || b || c || d) ≡ false → (a ≡ false) × (b ≡ false) × (c ≡ false)
or_false a b c d h = (ground arith, ground arith, ground arith)

see-quiet :
    (now : ℕ) (s : Store) (material : Bool) (sd : SeenDevice)
    → (see now s material sd).1 ≡ false
    → (material ≡ false)
      × ((k : Bytes)
          → device_ip (get k (see now s material sd).0.devices) ≡ device_ip (get k s.devices))
unfolding see
see-quiet now s material sd h = go (normalize_mac sd.mac) refl
  where
    go :
        (o : _)
        → normalize_mac sd.mac ≡ o
        → (material ≡ false)
          × ((k : Bytes)
              → device_ip (get k (see now s material sd).0.devices) ≡ device_ip (get k s.devices))
    go (err p) e = (rw (e, see) at h, λ k. rw (e, see) refl)
    go (ok mac) e =
        let (a, b, c) = or_false _ _ _ _ (rw (e, see) at h) in
        (
          a,
          λ k.
              rw (e, see, get-put)
                (elim (Bool-cases (bytes_eq mac k)) [
                  | inl t ↦ rw t (
                      quiet_ip now sd (get mac s.devices) mac b c
                      ∙ ap (λ j. device_ip (get j s.devices)) (bytes_eq→eq mac k t))
                  | inr t ↦ rw t refl
                ]),
        )

see-mappings :
    (now : ℕ) (s : Store) (material : Bool) (sd : SeenDevice)
    → (see now s material sd).0.mappings ≡ s.mappings
unfolding see
see-mappings now s material sd = go (normalize_mac sd.mac) refl
  where
    go : (o : _) → normalize_mac sd.mac ≡ o → (see now s material sd).0.mappings ≡ s.mappings
    go (err p) e = rw (e, see) refl
    go (ok mac) e = rw (e, see) refl

pub see_all-mappings :
    (now : ℕ) (s : Store) (material : Bool) (seen : List SeenDevice)
    → (see_all now s material seen).0.mappings ≡ s.mappings
unfolding see_all
see_all-mappings now s material [] = refl
see_all-mappings now s material (sd ∷ seen) =
    see_all-mappings now (see now s material sd).0 (see now s material sd).1 seen
    ∙ see-mappings now s material sd

see_all-quiet :
    (now : ℕ) (s : Store) (material : Bool) (seen : List SeenDevice)
    → (see_all now s material seen).1 ≡ false
    → (material ≡ false)
      × ((k : Bytes)
          → device_ip (get k (see_all now s material seen).0.devices) ≡ device_ip (get k s.devices))
unfolding see_all
see_all-quiet now s material [] h = (h, λ k. refl)
see_all-quiet now s material (sd ∷ seen) h =
    let (m, rest) = see_all-quiet now (see now s material sd).0 (see now s material sd).1 seen h in
    let (material', first) = see-quiet now s material sd m in (material', λ k. rest k ∙ first k)

pub resolve_name-same :
    (s t : Store) (k : Bytes)
    → t.mappings ≡ s.mappings
    → ((j : Bytes) → device_ip (get j t.devices) ≡ device_ip (get j s.devices))
    → resolve_name k t ≡ resolve_name k s
unfolding resolve_name resolve_locked
resolve_name-same s t k e same = go (get k s.mappings) refl
  where
    go : (o : Option Mapping) → get k s.mappings ≡ o → resolve_name k t ≡ resolve_name k s
    go none f = rw (e, f, resolve_name) refl
    go (some m) f = rw (e, f, resolve_name, same m.mac) refl

-- A scan that reports nothing material leaves every name where it led.
pub resolve_name-apply_scan :
    (seen : List SeenDevice) (now : ℕ) (s : Store) (k : Bytes)
    → (apply_scan seen now s).0 ≡ false
    → resolve_name k (apply_scan seen now s).1 ≡ resolve_name k s
unfolding apply_scan
resolve_name-apply_scan seen now s k h = rw h (
    resolve_name-same s (see_all now s false seen).0 k (see_all-mappings now s false seen)
      (see_all-quiet now s false seen h).1)
