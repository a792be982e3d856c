-- ===== src/Store/Views/Shown.antt =====
-- What is shown is what the DNS server answers.
use local_dns.Base.{
  ℕ, ◌≡◌, refl, ap, ◌∙◌, List, [], ◌∷◌, map, Bytes, Option, none, some, All, Bool-cases, inl, inr,
  if◌then◌else◌,
}
use local_dns.Base.Text.{is_empty}
use local_dns.Dict.{Dict, get, values}
use local_dns.Dict.Entries.{Holds, Holds-self}
use local_dns.Dict.Listed.{values-All}
use local_dns.Net.{parse_ip}
use local_dns.Store.State.{Device, Mapping, Store}
use local_dns.Store.Files.Order.{All-sort_by}
use local_dns.Store.Entries.{IsMapping}
use local_dns.Store.Invariant.{IsStore}
use local_dns.Store.Resolve.{device_ip, resolve_locked, resolve_name}
use local_dns.Store.Views.{MappingView, device_view, mapping_view, mapping_views}

-- The address that a text shows.
abbrev shown_ip : Bytes → Option Bytes
shown_ip text = if is_empty text then none else parse_ip text

-- The mapping's name leads to the address that is shown.
abbrev pub IsShown : Store → MappingView → Type 0
IsShown s v = resolve_name v.mapping.hostname s ≡ some (shown_ip v.current_ip)

resolve_locked-view :
    (now : ℕ) (s : Store) (m : Mapping)
    → resolve_locked m s ≡ shown_ip (mapping_view now s m).current_ip
unfolding mapping_view resolve_locked
resolve_locked-view now s m = elim (Bool-cases (is_empty m.ip)) [
  | inr fixed ↦ rw (fixed, mapping_view, resolve_locked, fixed) refl
  | inl dynamic ↦ rw (dynamic, mapping_view, resolve_locked) (go (get m.mac s.devices))
]
  where
    go : (o : Option Device) → device_ip o ≡ shown_ip (device_view m now s o).current_ip
    go none = refl
    go (some d) = refl

own_view :
    (m : Mapping) (now : ℕ) (s : Store) (o : Option Device) → (device_view m now s o).mapping ≡ m
own_view m now s none = refl
own_view m now s (some d) = refl

own : (now : ℕ) (s : Store) (m : Mapping) → (mapping_view now s m).mapping ≡ m
unfolding mapping_view
own now s m = elim (Bool-cases (is_empty m.ip)) [
  | inr fixed ↦ rw (fixed, mapping_view) refl
  | inl dynamic ↦ rw (dynamic, mapping_view) (own_view m now s (get m.mac s.devices))
]

module _ (now : ℕ) (s : Store) where
  -- A mapping that is found under its host name is shown as it is.
  mapping_view-IsShown :
      (k : Bytes) (m : Mapping)
      → get k s.mappings ≡ some m
      → m.hostname ≡ k
      → IsShown s (mapping_view now s m)
  unfolding resolve_name
  mapping_view-IsShown k m there named =
      let found : resolve_name k s ≡ some (resolve_locked m s) = rw (there, resolve_name) refl in
      ap (λ h. resolve_name h s) (ap (λ (d : Mapping). d.hostname) (own now s m) ∙ named)
      ∙ (found ∙ ap some (resolve_locked-view now s m))

  all-IsShown :
      (m : Dict Mapping)
      → Holds (λ k d. get k s.mappings ≡ some d) m
      → Holds IsMapping m
      → Holds (λ k d. IsShown s (mapping_view now s d)) m
  all-IsShown [] h k = tt
  all-IsShown ((j, d) ∷ m) (there, h) (v, k) =
      (mapping_view-IsShown j d there v.0, all-IsShown m h k)

  All-views :
      (l : List Mapping)
      → All (λ d. IsShown s (mapping_view now s d)) l
      → All (IsShown s) (map (mapping_view now s) l)
  All-views [] h = tt
  All-views (d ∷ l) (v, h) = (v, All-views l h)

-- Each address that `Mappings` shows of a well-formed store is the one that the DNS answers for the
-- mapping's name, and none is shown where there is none.
pub mapping_views-IsShown :
    (now : ℕ) (s : Store) → IsStore s → All (IsShown s) (mapping_views now s)
unfolding mapping_views
mapping_views-IsShown now s v =
    All-sort_by (λ (w : MappingView). w.mapping.hostname) (IsShown s)
      (map (mapping_view now s) (values s.mappings))
      (All-views now s (values s.mappings) (
        values-All (λ (m : Mapping). m.hostname) (λ d. IsShown s (mapping_view now s d)) s.mappings
          (all-IsShown now s s.mappings (Holds-self s.mappings v.mappings.1) v.mappings.0)))
