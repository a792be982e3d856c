-- ===== src/Program/Told.antt =====
-- From the network to a client of the DNS.
use local_dns.Base.{
  ℕ, ◌^◌, ◌<◌, ◌≡◌, ◌⊎◌, refl, ap, ◌∙◌, List, [], ◌∷◌, ◌++◌, false, Bytes, some, ok, All,
}
use local_dns.Base.Text.{is_empty}
use local_dns.Dict.{get}
use local_dns.Names.{normalize_mac}
use local_dns.Net.{parse_ip, to4}
use local_dns.Dnsmsg.Word.{type_a, type_any}
use local_dns.Dnsmsg.Header.{Header}
use local_dns.Dnsmsg.Question.{Question}
use local_dns.Store.State.{Mapping, SeenDevice, Store}
use local_dns.Store.Resolve.{resolve_name}
use local_dns.Store.Resolve.Follows.{IsSilent}
use local_dns.Server.Answer.{Server}
use local_dns.Server.Handle.{Network, Transport, handle}
use local_dns.Server.Local.{IsAsked}
use local_dns.Server.Managed.{serving}
use local_dns.Server.Told.{Tells, parse_message-handle}
use local_dns.Scanner.Arp.{Neighbor, read_arp_table}
use local_dns.Scanner.Network.{resolve_network}
use local_dns.Scanner.Round.{Memory, Settings, World, observed, scan}
use local_dns.Scanner.Round.Follows.{resolve_name-scan}

-- A text that is an address has a byte.
is_empty-parse_ip : (t ip : Bytes) → parse_ip t ≡ some ip → is_empty t ≡ false
unfolding parse_ip
is_empty-parse_ip [] ip h = absurd cc
is_empty-parse_ip (c ∷ t) ip h = refl

-- After a scan whose last observation of a device tells an IPv4 address, a question of type A or
-- ANY and the class IN for the host name of a mapping of the device is answered, the same whatever
-- the upstream resolvers do, and a client that parses the answer with `ParseMessage` finds the
-- question, one record of type A and the class IN for its name, with the server's TTL and the four
-- bytes of that address, and no other.
pub parse_message-scan :
    (c : Settings) (w : World) (memory : Memory) (s : Store) (m : Mapping)
    (neighbors : List Neighbor) (before after : List SeenDevice) (sd : SeenDevice) (srv : Server)
    (hostname : Bytes) (clock : ℕ) (req : Bytes) (h : Header) (q : Question) (ip v4 : Bytes)
    → w.swept_then_done ≡ false
    → read_arp_table w.arp ≡ some neighbors
    → observed (resolve_network c.cidr c.iface w.kernel) neighbors ≡ before ++ sd ∷ after
    → get hostname s.mappings ≡ some m
    → m.ip ≡ []
    → normalize_mac sd.mac ≡ ok m.mac
    → parse_ip sd.ip ≡ some ip
    → to4 ip ≡ some v4
    → All (IsSilent m.mac) after
    → IsAsked req h q
    → q.name ≡ hostname ++ (b'.' ∷ srv.domain)
    → (q.qtype ≡ type_a) ⊎ (q.qtype ≡ type_any)
    → srv.ttl < 2 ^ 32
    → (resp : Bytes) × ((net : Network) (transport : Transport)
        → handle (serving srv (scan c w memory s).1) clock net req transport ≡ some resp)
      × Tells q type_a srv.ttl v4 resp
parse_message-scan c w memory s m neighbors before after sd srv hostname clock req h q ip v4 going
      table saw there dynamic same read four silent v named kind fits =
    let s' = (scan c w memory s).1 in
    let found : resolve_name hostname s' ≡ some (parse_ip sd.ip) =
      resolve_name-scan c w memory s hostname m neighbors before after sd going table saw there
        dynamic same (is_empty-parse_ip sd.ip ip read) silent in
    parse_message-handle (serving srv s') clock req h q hostname ip v4 v named kind fits
      (found ∙ ap some read) four
