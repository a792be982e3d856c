-- ===== src/Server/Answer.antt =====
-- server.go: the answers that the server gives by itself.
use local_dns.Base.{
  ℕ, ◌+◌, ◌%◌, ◌^◌, List, [], ◌∷◌, ◌++◌, Bool, not, ◌&&◌, ◌||◌, Bytes, Option, none, some, Outcome,
  ok, err, ◌==◌, bytes_eq, if◌then◌else◌,
}
use local_dns.Base.Text.{codes, is_empty, has_suffix, trim_suffix, contains}
use local_dns.Net.{to4, to16}
use local_dns.Dnsmsg.Word.{
  Error, type_a, type_aaaa, type_any, type_ptr, type_soa, class_in, flag_aa, flag_ra,
  rcode_no_error, rcode_nx_domain, rcode_serv_fail,
}
use local_dns.Dnsmsg.Name.{encode_name, name_ptr}
use local_dns.Dnsmsg.Question.{Question}
use local_dns.Dnsmsg.Query.{soa_data}
use local_dns.Dnsmsg.Reply.{ResourceRecord, build_reply}
use local_dns.Dnsmsg.Reverse.{parse_reverse_name}
use local_dns.Store.State.{Store}
use local_dns.Store.Resolve.{resolve_name, resolve_ptr}

-- The interface `Resolver`: `none` for a name that is not found, `some none` for one with no
-- address.
pub record Resolver : Type 0 where
  pub name_lookup : Bytes → Option (Option Bytes)
  pub ptr_lookup : Bytes → Option Bytes

-- `*store.Store` as a `Resolver`.
abbrev pub resolver_of : Store → Resolver
resolver_of s = record { name_lookup = λ h. resolve_name h s; ptr_lookup = λ ip. resolve_ptr ip s }

-- The exported fields that the answers depend on, the resolver among them.
pub record Server : Type 0 where
  pub domain : Bytes
  pub ttl : ℕ
  pub upstreams : List Bytes
  pub single_label : Bool
  pub resolver : Resolver

-- The bytes beside an error that is dropped.
abbrev bytes_or_nil : Outcome Error Bytes → Bytes
bytes_or_nil (ok b) = b
bytes_or_nil (err e) = []

-- `soaRecord`; `now` is the number of seconds of `time.Now().Unix()`.
unfoldable pub soa_record : Server → ℕ → ResourceRecord
soa_record s now = record {
  owner = bytes_or_nil (encode_name s.domain);
  rtype = type_soa;
  rclass = class_in;
  ttl = s.ttl;
  rdata = bytes_or_nil (
      soa_data (codes "ns." ++ s.domain) (codes "hostmaster." ++ s.domain) (now % 2 ^ 32) 3600 600
        86400 s.ttl);
}

abbrev pub reply_or_nil : Outcome Error Bytes → Option Bytes
reply_or_nil (ok resp) = some resp
reply_or_nil (err e) = none

unfoldable pub reply :
    Bytes → Question → ℕ → List ResourceRecord → List ResourceRecord → Option Bytes
reply req q rcode answers authority =
    reply_or_nil (build_reply req q (flag_aa + flag_ra) rcode answers authority)

unfoldable pub answer_apex : Server → ℕ → Bytes → Question → Option Bytes
unfolding reply soa_record
answer_apex s now req q =
    let soa = soa_record s now in
    if q.qtype == type_soa || q.qtype == type_any
    then reply req q rcode_no_error (soa ∷ []) []
    else reply req q rcode_no_error [] (soa ∷ [])

-- A record for the name of the question, which a pointer to offset 12 stands for.
abbrev pub own_record : Server → ℕ → Bytes → ResourceRecord
own_record s rtype rdata = record {
  owner = name_ptr 12;
  rtype = rtype;
  rclass = class_in;
  ttl = s.ttl;
  rdata = rdata;
}

abbrev bytes_of : Option Bytes → Bytes
bytes_of none = []
bytes_of (some b) = b

-- The answers for an address, which is an IPv4 one if `to4` has it.
abbrev pub records_by : Server → ℕ → Bytes → Option Bytes → List ResourceRecord
records_by s qtype ip (some v4) =
    if qtype == type_a || qtype == type_any then own_record s type_a v4 ∷ [] else []
records_by s qtype ip none =
    if qtype == type_aaaa || qtype == type_any
    then own_record s type_aaaa (bytes_of (to16 ip)) ∷ []
    else []

unfoldable pub address_records : Server → ℕ → Option Bytes → List ResourceRecord
address_records s qtype none = []
address_records s qtype (some ip) = records_by s qtype ip (to4 ip)

-- `if len(answers) == 0 { authority = … }`
abbrev pub authority_for : Server → ℕ → List ResourceRecord → List ResourceRecord
authority_for s now [] = soa_record s now ∷ []
authority_for s now (_ ∷ _) = []

unfoldable pub answer_name : Server → ℕ → Bytes → Question → Bytes → Option Bytes
unfolding reply soa_record address_records
answer_name s now req q hostname = elim (s.resolver.name_lookup hostname) [
  | none ↦ reply req q rcode_nx_domain [] (soa_record s now ∷ [])
  | some ip ↦
      (let answers = address_records s q.qtype ip in
        reply req q rcode_no_error answers (authority_for s now answers))
]

unfoldable pub answer_ptr : Server → Bytes → Question → Bytes → Option Bytes
unfolding reply
answer_ptr s req q hostname = elim (encode_name (hostname ++ (b'.' ∷ s.domain))) [
  | err e ↦ reply req q rcode_serv_fail [] []
  | ok fqdn ↦ reply req q rcode_no_error (own_record s type_ptr fqdn ∷ []) []
]

-- The case of a PTR question outside the domain.
abbrev pub local_ptr : Server → Bytes → Question → Option Bytes
local_ptr s req q = elim (parse_reverse_name q.name) [
  | none ↦ none
  | some ip ↦ elim (s.resolver.ptr_lookup ip) [
    | none ↦ none
    | some hostname ↦ answer_ptr s req q hostname
  ]
]

-- The case of a name of a single label.
abbrev pub local_single : Server → ℕ → Bytes → Question → Option Bytes
local_single s now req q = elim (s.resolver.name_lookup q.name) [
  | none ↦ none
  | some _ ↦ answer_name s now req q q.name
]

-- `none` for a question that is forwarded.
unfoldable pub local : Server → ℕ → Bytes → Question → Option Bytes
unfolding answer_apex answer_name answer_ptr
local s now req q =
    if bytes_eq q.name s.domain
    then answer_apex s now req q
    else if has_suffix q.name (b'.' ∷ s.domain)
    then answer_name s now req q (trim_suffix q.name (b'.' ∷ s.domain))
    else if q.qtype == type_ptr
    then local_ptr s req q
    else if s.single_label && not (is_empty q.name) && not (contains b'.' q.name)
    then local_single s now req q
    else none
