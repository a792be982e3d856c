-- ===== src/Store/Entries.antt =====
-- What holds of the entries of a store: each stands under its own canonical key.
use local_dns.Base.{◌≡◌, ◌⊎◌, [], Bytes}
use local_dns.Dict.{Dict, put, remove, IsDict, put-IsDict, remove-IsDict}
use local_dns.Dict.Entries.{Holds, Holds-put, Holds-remove}
use local_dns.Names.Mac.{IsMac}
use local_dns.Names.Valid.{IsHostName}
use local_dns.Store.State.{Device, Mapping}

-- A device stands under its canonical address.
abbrev pub IsDevice : Bytes → Device → Type 0
IsDevice k d = (d.mac ≡ k) × IsMac k

-- A mapping stands under its host name, and its address, if it has one, is canonical.
abbrev pub IsMapping : Bytes → Mapping → Type 0
IsMapping k m = (m.hostname ≡ k) × IsHostName k × ((m.mac ≡ []) ⊎ IsMac m.mac)

abbrev pub IsDevices : Dict Device → Type 0
IsDevices m = Holds IsDevice m × IsDict m

abbrev pub IsMappings : Dict Mapping → Type 0
IsMappings m = Holds IsMapping m × IsDict m

pub put-IsDevices :
    (k : Bytes) (d : Device) (m : Dict Device) → IsDevice k d → IsDevices m → IsDevices (put k d m)
put-IsDevices k d m p (h, u) = (Holds-put IsDevice k d m p h, put-IsDict k d m u)

pub put-IsMappings :
    (k : Bytes) (d : Mapping) (m : Dict Mapping)
    → IsMapping k d
    → IsMappings m
    → IsMappings (put k d m)
put-IsMappings k d m p (h, u) = (Holds-put IsMapping k d m p h, put-IsDict k d m u)

pub remove-IsDevices : (k : Bytes) (m : Dict Device) → IsDevices m → IsDevices (remove k m)
remove-IsDevices k m (h, u) = (Holds-remove IsDevice k m h, remove-IsDict k m u)

pub remove-IsMappings : (k : Bytes) (m : Dict Mapping) → IsMappings m → IsMappings (remove k m)
remove-IsMappings k m (h, u) = (Holds-remove IsMapping k m h, remove-IsDict k m u)
