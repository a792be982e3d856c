-- ===== src/Server/Managed.antt =====
-- The server over the store: a mapping that is made is what the DNS says.
use local_dns.Base.{ℕ, ◌-◌, ◌≡◌, refl, ◌∙◌, ◌∷◌, ◌++◌, Bool, Bytes, some, ok, bytes_eq_refl}
use local_dns.Dnsmsg.Word.{rcode_no_error}
use local_dns.Dnsmsg.Header.{Header}
use local_dns.Dnsmsg.Question.{Question}
use local_dns.Store.State.{Store}
use local_dns.Store.Mappings.{Input, normalize_mapping_input, set_mapping}
use local_dns.Store.Resolve.{resolve_name}
use local_dns.Store.Resolve.Mapped.{target, resolve_name-set_mapping}
use local_dns.Server.Answer.{Server, resolver_of}
use local_dns.Server.Handle.{Network, Transport, handle}
use local_dns.Server.Local.{IsAsked, Says, answer_count, handle-hostname}

-- The server with the store as its resolver.
abbrev pub serving : Server → Store → Server
serving srv s = record srv { resolver = resolver_of s }

-- Behind a `SetMapping` whose fields pass the checks, a question of the class IN for the host name
-- below the domain is answered without an error, the same whatever the upstream resolvers do: with
-- one record if the mapping's own address, or that of its device, is of the kind that is asked for,
-- and otherwise with the domain's record in the authority section.
pub handle-set_mapping :
    (srv : Server) (s : Store) (disk : Bool) (hostname mac ip note : Bytes) (now : ℕ) (i : Input)
    (clock : ℕ) (req : Bytes) (h : Header) (q : Question)
    → normalize_mapping_input hostname mac ip note ≡ ok i
    → IsAsked req h q
    → q.name ≡ i.hostname ++ (b'.' ∷ srv.domain)
    → (resp : Bytes) × ((net : Network) (transport : Transport)
        → handle
            (serving srv (set_mapping disk hostname mac ip note now s).1)
            clock
            net
            req
            transport
          ≡ some resp)
      × Says h q resp rcode_no_error
          (answer_count q.qtype (some (target i s)))
          (1 - answer_count q.qtype (some (target i s)))
handle-set_mapping srv s disk hostname mac ip note now i clock req h q passed v named =
    let s' = (set_mapping disk hostname mac ip note now s).1 in
    let (resp, given, says) = handle-hostname (serving srv s') clock req h q i.hostname v named in
    let found : resolve_name i.hostname s' ≡ some (target i s) =
      resolve_name-set_mapping disk hostname mac ip note now s i i.hostname passed
      ∙ rw (bytes_eq_refl i.hostname) refl in
    (resp, given, rw found at says)
