-- ===== src/Store/Views/Sorted.antt =====
-- The list of devices is in order, and shows each device as it is.
use local_dns.Base.{ℕ, ◌≡◌, List, [], ◌∷◌, false, Bytes, some, All}
use local_dns.Dict.{Dict, get}
use local_dns.Store.State.{Mapping, Store}
use local_dns.Store.Devices.{online_locked}
use local_dns.Store.Views.Listing.{DeviceView, before}

-- No view stands behind one that belongs after it.
abbrev pub IsOrdered : List DeviceView → Type 0
IsOrdered [] = Unit {0}
IsOrdered (v ∷ []) = Unit {0}
IsOrdered (v ∷ w ∷ l) = (before w v ≡ false) × IsOrdered (w ∷ l)

-- The view shows a device of the store as it is, and names that mappings give to its address.
pub record IsListed (now : ℕ) (s : Store) (v : DeviceView) : Type 0 where
  pub known : get v.device.mac s.devices ≡ some v.device
  pub online : v.online ≡ online_locked v.device now s
  pub names :
      All (λ h. (m : Mapping) × (get h s.mappings ≡ some m) × (m.mac ≡ v.device.mac)) v.names

abbrev IsNamed : Store → Bytes → Bytes → Type 0
IsNamed s mac h = (m : Mapping) × (get h s.mappings ≡ some m) × (m.mac ≡ mac)
