-- ===== src/Server/Local.antt =====
-- Names of the domain are answered here.
use local_dns.Base.{
  ℕ, ◌+◌, ◌-◌, ◌%◌, ◌^◌, ◌≡◌, refl, sym, ap, ◌∙◌, inl, inr, List, [], ◌∷◌, ◌++◌, true, false, ◌||◌,
  Bytes, Option, none, some, ok, arith, ◌==◌, length, length-append, All, Bool-cases, bytes_eq,
  bytes_eq→eq, ◌≤◌, if◌then◌else◌,
}
use local_dns.Base.Text.{has_suffix, trim_suffix, has_suffix-append, trim_suffix-append}
use local_dns.Net.{to4}
use local_dns.Dnsmsg.Word.{
  IsByte, class_in, type_a, type_aaaa, type_any, flag_aa, flag_ra, rcode_no_error, rcode_nx_domain,
}
use local_dns.Dnsmsg.Header.{Header, parse_header, response, opcode, rcode_of}
use local_dns.Dnsmsg.Header.Flags.{authoritative, rcode_of-reply}
use local_dns.Dnsmsg.Question.{Question, parse_question}
use local_dns.Dnsmsg.Reply.{ResourceRecord, reply_header}
use local_dns.Dnsmsg.Reply.Echo.{build_reply-echo}
use local_dns.Server.Answer.{
  Server, reply, soa_record, address_records, records_by, authority_for, answer_name, local,
}
use local_dns.Server.Handle.{Network, Transport, handle_question, handle_query, handle}

-- A standard query with one question, of the class IN.
pub record IsAsked (req : Bytes) (h : Header) (q : Question) : Type 0 where
  pub bytes : All IsByte req
  pub headed : parse_header req ≡ ok h
  pub query : response h ≡ false
  pub standard : opcode h ≡ 0
  pub single : h.qd_count ≡ 1
  pub asked : parse_question req ≡ ok q
  pub internet : q.qclass ≡ class_in

-- What is answered here does not depend on the upstream resolvers.
pub handle-local_eq :
    (s : Server) (now : ℕ) (req resp : Bytes) (h : Header) (q : Question)
    → IsAsked req h q
    → local s now req q ≡ some resp
    → (net : Network) (transport : Transport) → handle s now net req transport ≡ some resp
unfolding handle handle_query handle_question
handle-local_eq s now req resp h q v e net transport =
    let same : (opcode h == 0) ≡ true = ground (arith, v.standard) in
    let one : (h.qd_count == 1) ≡ true = ground (arith, v.single) in
    let class : (q.qclass == class_in) ≡ true = ground (arith, v.internet) in
    rw (v.headed, handle, v.query, handle_query, same, one, v.asked, handle_question, class, e) refl

-- The answers to give: one record for an address of the kind that is asked for.
abbrev wanted : ℕ → Option Bytes → ℕ
wanted qtype (some v4) = if qtype == type_a || qtype == type_any then 1 else 0
wanted qtype none = if qtype == type_aaaa || qtype == type_any then 1 else 0

abbrev pub answer_count : ℕ → Option (Option Bytes) → ℕ
answer_count qtype none = 0
answer_count qtype (some none) = 0
answer_count qtype (some (some ip)) = wanted qtype (to4 ip)

abbrev pub rcode_for : Option (Option Bytes) → ℕ
rcode_for none = rcode_nx_domain
rcode_for (some _) = rcode_no_error

length-records_by :
    (s : Server) (qtype : ℕ) (ip : Bytes) (v4 : Option Bytes)
    → length (records_by s qtype ip v4) ≡ wanted qtype v4
length-records_by s qtype ip none = ground arith
length-records_by s qtype ip (some v4) = ground arith

wanted_le : (qtype : ℕ) (v4 : Option Bytes) → wanted qtype v4 ≤ 1
wanted_le qtype none = ground arith
wanted_le qtype (some v4) = ground arith

few : (n m : ℕ) → n ≡ m → m ≤ 1 → n % 2 ^ 16 ≡ m
few n m e h = omega arith

length-authority_for :
    (s : Server) (now : ℕ) (answers : List ResourceRecord)
    → length (authority_for s now answers) ≡ 1 - length answers
length-authority_for s now [] = refl
length-authority_for s now (a ∷ answers) = omega arith

-- What a response to a question says: its question, its code and the sizes of two sections.
pub record Says (h : Header) (q : Question) (resp : Bytes) (rcode an ns : ℕ) : Type 0 where
  pub header : Header
  pub headed : parse_header resp ≡ ok header
  pub asked : parse_question resp ≡ ok q
  pub id : header.id ≡ h.id
  pub code : rcode_of header ≡ rcode
  pub answers : header.an_count ≡ an
  pub authority : header.ns_count ≡ ns

module _ (req : Bytes) (h : Header) (q : Question) (v : IsAsked req h q) where
  pub reply-Says :
      (rcode : ℕ) (answers authority : List ResourceRecord)
      → rcode % 16 ≡ rcode
      → (resp : Bytes) × (reply req q rcode answers authority ≡ some resp)
        × Says h q resp rcode (length answers % 2 ^ 16) (length authority % 2 ^ 16)
  unfolding reply
  reply-Says rcode answers authority small =
      let extra = flag_aa + flag_ra in
      let r = reply_header h extra rcode answers authority in
      let (resp, made, headed, asked) =
        build_reply-echo req h q extra rcode answers authority v.bytes authoritative v.headed
          v.asked in
      (
        resp,
        rw made refl,
        record {
          header = r;
          headed = headed;
          asked = asked;
          id = refl;
          code = rcode_of-reply h r extra rcode authoritative refl ∙ small;
          answers = refl;
          authority = refl;
        },
      )

  -- What `answerName` says of a host name.
  answer_name-Says :
      (s : Server) (now : ℕ) (hostname : Bytes)
      → (resp : Bytes) × (answer_name s now req q hostname ≡ some resp)
        × Says h q resp
            (rcode_for (s.resolver.name_lookup hostname))
            (answer_count q.qtype (s.resolver.name_lookup hostname))
            (1 - answer_count q.qtype (s.resolver.name_lookup hostname))
  unfolding answer_name address_records
  answer_name-Says s now hostname = go (s.resolver.name_lookup hostname) refl
    where
      go :
          (o : Option (Option Bytes))
          → s.resolver.name_lookup hostname ≡ o
          → (resp : Bytes) × (answer_name s now req q hostname ≡ some resp)
            × Says h q resp (rcode_for o) (answer_count q.qtype o) (1 - answer_count q.qtype o)
      go none e = rw (e, answer_name) (reply-Says rcode_nx_domain [] (soa_record s now ∷ []) refl)
      go (some none) e =
          rw (e, answer_name) (reply-Says rcode_no_error [] (soa_record s now ∷ []) refl)
      go (some (some ip)) e =
          let answers = records_by s q.qtype ip (to4 ip) in
          let count : length answers % 2 ^ 16 ≡ wanted q.qtype (to4 ip) =
            few _ _ (length-records_by s q.qtype ip (to4 ip)) (wanted_le q.qtype (to4 ip)) in
          let rest : length (authority_for s now answers) % 2 ^ 16 ≡ 1 - wanted q.qtype (to4 ip) =
            few _ _
              (length-authority_for s now answers
                ∙ ap (λ n. 1 - n) (length-records_by s q.qtype ip (to4 ip)))
              (omega arith) in
          let (resp, e', says) =
            reply-Says rcode_no_error answers (authority_for s now answers) refl in
          rw (e, answer_name) (resp, e', rw (count, rest) at says)

  -- A host name below the domain is not the domain.
  below :
      (hostname domain : Bytes)
      → q.name ≡ hostname ++ (b'.' ∷ domain)
      → bytes_eq q.name domain ≡ false
  below hostname domain e = elim (Bool-cases (bytes_eq q.name domain)) [
    | inr other ↦ other
    | inl same ↦ absurd (
        omega (
          arith,
          ap length (sym e ∙ bytes_eq→eq q.name domain same),
          length-append hostname (b'.' ∷ domain),
        ))
  ]

  pub local-hostname :
      (s : Server) (now : ℕ) (hostname : Bytes)
      → q.name ≡ hostname ++ (b'.' ∷ s.domain)
      → local s now req q ≡ answer_name s now req q hostname
  unfolding local
  local-hostname s now hostname e =
      let dotted = (b'.' ∷ s.domain) in
      let other = below hostname s.domain e in
      let suffix : has_suffix q.name dotted ≡ true = rw e (has_suffix-append hostname dotted) in
      let prefix : trim_suffix q.name dotted ≡ hostname =
        rw e (trim_suffix-append hostname dotted) in
      rw (other, local, suffix) (ap (answer_name s now req q) prefix)

pub handle-hostname :
    (s : Server) (now : ℕ) (req : Bytes) (h : Header) (q : Question) (hostname : Bytes)
    → IsAsked req h q
    → q.name ≡ hostname ++ (b'.' ∷ s.domain)
    → (resp : Bytes) × ((net : Network) (transport : Transport)
        → handle s now net req transport ≡ some resp)
      × Says h q resp
          (rcode_for (s.resolver.name_lookup hostname))
          (answer_count q.qtype (s.resolver.name_lookup hostname))
          (1 - answer_count q.qtype (s.resolver.name_lookup hostname))
handle-hostname s now req h q hostname v e =
    let (resp, given, says) = answer_name-Says req h q v s now hostname in
    (
      resp,
      handle-local_eq s now req resp h q v (local-hostname req h q v s now hostname e ∙ given),
      says,
    )
