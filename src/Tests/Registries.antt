-- ===== src/Tests/Registries.antt =====
-- The theorems on the registry at concrete stores.
use local_dns.Base.{[], ◌∷◌}
use local_dns.Base.Text.{codes}
use local_dns.Store.State.{Mapping, Store}
use local_dns.Tests.Stores.{home, nas_mapping}

abbrev box_mapping : Mapping
box_mapping = record nas_mapping { hostname = codes "box" }

-- Two mappings, whose map is walked in one order and in the other.
abbrev one_way : Store
one_way = record home { mappings = (codes "nas", nas_mapping) ∷ (codes "box", box_mapping) ∷ [] }

abbrev other_way : Store
other_way = record home { mappings = (codes "box", box_mapping) ∷ (codes "nas", nas_mapping) ∷ [] }
