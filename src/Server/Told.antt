-- ===== src/Server/Told.antt =====
-- What a client reads in the answer to a question for an address.
use local_dns.Base.{
  ℕ, ◌+◌, ◌^◌, ◌<◌, ◌≡◌, ◌⊎◌, inl, inr, refl, ◌∙◌, List, [], ◌∷◌, ◌++◌, true, ◌||◌, ◌==◌, Bytes,
  some, ok, arith, bytes_eq, ◌&&◌, take, drop, length-drop, length, slice, Bool-cases,
}
use local_dns.Net.{to4, v4_prefix}
use local_dns.Dnsmsg.Word.{type_a, type_any, class_in, rcode_no_error, flag_aa, flag_ra}
use local_dns.Dnsmsg.Header.{Header}
use local_dns.Dnsmsg.Header.Flags.{authoritative}
use local_dns.Dnsmsg.Message.{ParsedRr, parse_message}
use local_dns.Dnsmsg.Question.{Question}
use local_dns.Dnsmsg.Reply.Owner.{pointed}
use local_dns.Dnsmsg.Reply.Records.{AreRead, IsSent}
use local_dns.Dnsmsg.Reply.RoundTrip.{parse_message-build_reply}
use local_dns.Server.Answer.{Server, address_records, answer_name, own_record, reply}
use local_dns.Server.Handle.{Network, Transport, handle}
use local_dns.Server.Local.{IsAsked, handle-local_eq, local-hostname}

-- A response that tells one record: a client that parses it finds the question, one record for the
-- name of the question, and nothing else.
pub record Tells (q : Question) (rtype ttl : ℕ) (rdata resp : Bytes) : Type 0 where
  pub header : Header
  pub answer : ParsedRr
  pub parsed :
      parse_message resp ≡ ok (record { header = header; questions = q ∷ []; rrs = answer ∷ [] })
  pub named : answer.name ≡ q.name
  pub rtype_of : answer.rtype ≡ rtype
  pub internet : answer.rclass ≡ class_in
  pub ttl_of : answer.ttl ≡ ttl
  pub content : slice resp answer.data_start (answer.data_start + answer.data_len) ≡ rdata

-- A record of the server's own fits the wire.
abbrev own_record_sent :
    (s : Server) (q : Question) (rtype : ℕ) (rdata : Bytes)
    → rtype < 2 ^ 16
    → s.ttl < 2 ^ 32
    → length rdata < 2 ^ 16
    → IsSent q.name (own_record s rtype rdata)
own_record_sent s q rtype rdata small fits short = record {
  name = q.name;
  owned = pointed;
  rtype = small;
  rclass = omega arith;
  ttl = fits;
  short_data = short;
}

-- The one record that is read is the one that was written.
one_read :
    (s : Server) (header : Header) (q : Question) (rtype : ℕ) (rdata resp : Bytes)
    (small : rtype < 2 ^ 16) (fits : s.ttl < 2 ^ 32) (short : length rdata < 2 ^ 16)
    (an ns : List ParsedRr)
    → parse_message resp ≡ ok (record { header = header; questions = q ∷ []; rrs = an ++ ns })
    → AreRead q.name resp 0
        (own_record s rtype rdata ∷ [])
        (own_record_sent s q rtype rdata small fits short, tt)
        an
    → AreRead q.name resp 1 [] tt ns
    → Tells q rtype s.ttl rdata resp
unfolding AreRead
one_read s header q rtype rdata resp small fits short [] ns e a b = absurd a
one_read s header q rtype rdata resp small fits short (p ∷ []) (n ∷ ns) e a b = absurd b
one_read s header q rtype rdata resp small fits short (p ∷ p' ∷ an) ns e (is, a) b = absurd a
one_read s header q rtype rdata resp small fits short (p ∷ []) [] e (is, a) b = record {
  header = header;
  answer = p;
  parsed = e;
  named = is.named;
  rtype_of = is.rtype;
  internet = is.rclass;
  ttl_of = is.ttl;
  content = is.content;
}

-- The reply with one record of the server's own.
reply-Tells :
    (s : Server) (req : Bytes) (h : Header) (q : Question) (rtype : ℕ) (rdata : Bytes)
    → IsAsked req h q
    → rtype < 2 ^ 16
    → s.ttl < 2 ^ 32
    → length rdata < 2 ^ 16
    → (resp : Bytes) × (reply req q rcode_no_error (own_record s rtype rdata ∷ []) [] ≡ some resp)
      × Tells q rtype s.ttl rdata resp
unfolding reply
reply-Tells s req h q rtype rdata v small fits short =
    let (resp, an, ns, made, parsed, answered, rest) =
      parse_message-build_reply req h q (flag_aa + flag_ra) rcode_no_error
        (own_record s rtype rdata ∷ []) [] v.bytes authoritative v.headed v.asked
        (own_record_sent s q rtype rdata small fits short, tt) tt (omega arith) (omega arith) in
    (
      resp,
      rw made refl,
      one_read s _ q rtype rdata resp small fits short an ns parsed answered rest,
    )

-- An IPv4 address has four bytes.
length-to4 : (ip v4 : Bytes) → to4 ip ≡ some v4 → length v4 ≡ 4
unfolding to4
length-to4 ip v4 e = elim (Bool-cases (length ip == 4)) [
  | inl four ↦ let same : ip ≡ v4 = ground (arith, four) in rw (← same) (ground (arith, four))
  | inr other ↦ elim (Bool-cases (length ip == 16 && bytes_eq (take 12 ip) v4_prefix)) [
    | inl mapped ↦
        let same : drop 12 ip ≡ v4 = ground (arith, other, mapped) in
        let size : length ip ≡ 16 = ground (arith, mapped) in
        rw (← same) (omega (arith, size, length-drop 12 ip))
    | inr none_there ↦ absurd (ground (arith, other, none_there))
  ]
]

-- A question of type A or ANY and the class IN for a host name below the domain that the resolver
-- finds at an IPv4 address is answered here, the same whatever the upstream resolvers do and over
-- either transport, and a client that parses the answer with `ParseMessage` finds the question, one
-- record of type A and the class IN for its name, with the server's TTL and the four bytes of the
-- address, and no other.
pub parse_message-handle :
    (s : Server) (now : ℕ) (req : Bytes) (h : Header) (q : Question) (hostname ip v4 : Bytes)
    → IsAsked req h q
    → q.name ≡ hostname ++ (b'.' ∷ s.domain)
    → (q.qtype ≡ type_a) ⊎ (q.qtype ≡ type_any)
    → s.ttl < 2 ^ 32
    → s.resolver.name_lookup hostname ≡ some (some ip)
    → to4 ip ≡ some v4
    → (resp : Bytes) × ((net : Network) (transport : Transport)
        → handle s now net req transport ≡ some resp)
      × Tells q type_a s.ttl v4 resp
unfolding answer_name address_records
parse_message-handle s now req h q hostname ip v4 v e kind fits found four =
    let (resp, given, tells) =
      reply-Tells s req h q type_a v4 v (omega arith) fits (omega (arith, length-to4 ip v4 four)) in
    let wanted : (q.qtype == type_a || q.qtype == type_any) ≡ true = elim kind [
      | inl a ↦ rw a refl
      | inr any ↦ rw any refl
    ] in
    let answered : answer_name s now req q hostname ≡ some resp =
      rw (found, answer_name, four, wanted) given in
    (
      resp,
      handle-local_eq s now req resp h q v (local-hostname req h q v s now hostname e ∙ answered),
      tells,
    )
