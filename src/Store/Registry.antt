-- ===== src/Store/Registry.antt =====
-- The store without the order of its maps, its file and its mark, and the file that stands for it.
use mathlib.Core.Quot
use mathlib.Core.Quot.{Quot}
use local_dns.Base.{◌≡◌, ap, ◌↔◌, Bytes, Option}
use local_dns.Dict.{Dict, get, IsDict}
use local_dns.Dict.Entries.{Holds}
use local_dns.Store.State.{Device, Mapping, Store}
use local_dns.Store.Durable.{Agrees}

-- Stores that have the same under every key are one registry.
abbrev pub Registry : Type 0
Registry = Quot Agrees

abbrev pub registry : Store → Registry
registry s = Quot.mk s

-- A registry's device and its mapping under a key.
unfoldable device_at : Bytes → Registry → Option Device
device_at k = Quot.lift (hlevel) (λ s. get k s.devices) (λ s t a. a.devices k)

unfoldable mapping_at : Bytes → Registry → Option Mapping
mapping_at k = Quot.lift (hlevel) (λ s. get k s.mappings) (λ s t a. a.mappings k)

-- Two stores are one registry only if they have the same under every key.
pub registry_iff : (s t : Store) → (registry s ≡ registry t) ↔ Agrees s t
unfolding device_at mapping_at
registry_iff s t = (
  λ e. record { devices = λ k. ap (device_at k) e; mappings = λ k. ap (mapping_at k) e },
  λ a. Quot.sound a,
)

module _ {A : Type 0} (key : A → Bytes) where
  -- A map with each value under its own key.
  abbrev IsKeyed : Dict A → Type 0
  IsKeyed m = Holds (λ k a. key a ≡ k) m × IsDict m
