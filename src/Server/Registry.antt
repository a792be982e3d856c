-- ===== src/Server/Registry.antt =====
-- The store as the DNS server sees it: without the order of its maps, its file and its mark.
use mathlib.Core.Quot
use local_dns.Base.{ℕ, ◌≡◌, ap, Bytes, Option}
use local_dns.Store.State.{Store}
use local_dns.Store.Durable.{Agrees}
use local_dns.Store.Registry.{Registry, registry}
use local_dns.Store.Resolve.Alike.{resolve_name-Agrees, resolve_ptr-Agrees}
use local_dns.Server.Answer.{Server}
use local_dns.Server.Handle.{Network, Transport, handle}
use local_dns.Server.Managed.{serving}

pub serving-Agrees : (srv : Server) (s t : Store) → Agrees s t → serving srv s ≡ serving srv t
serving-Agrees srv s t a = λ i. record srv {
  resolver = record {
    name_lookup = λ h. resolve_name-Agrees s t a h i;
    ptr_lookup = λ ip. resolve_ptr-Agrees s t ip a i;
  };
}

-- The response of the server over a registry.
unfoldable pub response_of : Server → ℕ → Network → Bytes → Transport → Registry → Option Bytes
response_of srv now net req transport =
    Quot.lift (hlevel) (λ s. handle (serving srv s) now net req transport)
      (λ s t a. ap (λ server. handle server now net req transport) (serving-Agrees srv s t a))

-- Stores that are one registry answer every message alike, whatever the order in which Go walks their
-- maps: the server's response is a function of the registry.
pub handle-registry :
    (srv : Server) (s t : Store)
    → registry s ≡ registry t
    → (now : ℕ) (net : Network) (req : Bytes) (transport : Transport)
    → handle (serving srv s) now net req transport ≡ handle (serving srv t) now net req transport
unfolding response_of
handle-registry srv s t same now net req transport = ap (response_of srv now net req transport) same
