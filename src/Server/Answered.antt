-- ===== src/Server/Answered.antt =====
-- Every query is answered, with its own number, and no response is.
use local_dns.Base.{
  ℕ, ◌≡◌, refl, ◌↔◌, inl, inr, List, [], ◌∷◌, Bool, true, Bytes, none, some, Outcome, ok, err,
  arith, All, Bool-cases, Option-cases, append-nil,
}
use local_dns.Dnsmsg.Word.{Error, IsByte, uint16_at, IsUint16, flag_ra}
use local_dns.Dnsmsg.Header.{Header, IsHeader, parse_header, response, append_header, reply_flags}
use local_dns.Dnsmsg.Header.Flags.{relayed, response-reply, flags-reply-IsUint16}
use local_dns.Dnsmsg.Header.RoundTrip.{parse_header-append_header, parse_header-IsHeader}
use local_dns.Dnsmsg.Question.{Question, parse_question}
use local_dns.Dnsmsg.Reply.{build_header_only, reply_header}
use local_dns.Dnsmsg.Reply.Echo.{build_reply-echo}
use local_dns.Server.Answer.{Server, local}
use local_dns.Server.Wire.{same_id, exchange_udp}
use local_dns.Server.Wire.Frames.{exchange_udp-same_id}
use local_dns.Server.Handle.{Network, Transport, udp, relay, handle}
use local_dns.Server.Sources.{Built, handle-Gives, local-Built}

-- Whether a message is no query: its header is cut off, or marks a response.
abbrev pub is_no_query : Bytes → Bool
is_no_query req = elim (parse_header req) [ err _ ↦ true | ok h ↦ response h ]

-- `handle` drops exactly what has no whole header and what is marked as a response: every other
-- message is answered, whatever the upstream resolvers do, over either transport.
pub handle-eq-none_iff :
    (s : Server) (now : ℕ) (net : Network) (req : Bytes) (transport : Transport)
    → (handle s now net req transport ≡ none) ↔ (is_no_query req ≡ true)
unfolding handle
handle-eq-none_iff s now net req transport =
    (dropped (parse_header req) refl, silent (parse_header req) refl)
  where
    dropped :
        (o : Outcome Error Header)
        → parse_header req ≡ o
        → handle s now net req transport ≡ none
        → is_no_query req ≡ true
    dropped (err p) f e = rw (f, is_no_query) refl
    dropped (ok h) f e = elim (Bool-cases (response h)) [
      | inl r ↦ rw (f, is_no_query) r
      | inr query ↦
          let (resp, given, _) =
            handle-Gives (λ _. Unit) s now net req transport h f (λ _ _. tt) (λ _ _ _ _. tt)
              (λ _. tt) query in
          absurd (ground (arith, given, e))
    ]

    silent :
        (o : Outcome Error Header)
        → parse_header req ≡ o
        → is_no_query req ≡ true
        → handle s now net req transport ≡ none
    silent (err p) f k = rw (f, handle) refl
    silent (ok h) f k =
        let marked : response h ≡ true = rw (f, is_no_query) at k in rw (f, handle, marked) refl

-- The header of a message that has only one.
parse_header-build_header_only :
    (h : Header) (rcode : ℕ)
    → IsUint16 h.id
    → (r : Header) × (parse_header (build_header_only h.id h.flags rcode) ≡ ok r)
      × (r.id ≡ h.id)
      × (response r ≡ true)
unfolding build_header_only
parse_header-build_header_only h rcode v =
    let r : Header = record {
      id = h.id;
      flags = reply_flags h.flags flag_ra rcode;
      qd_count = 0;
      an_count = 0;
      ns_count = 0;
      ar_count = 0;
    } in
    let sound : IsHeader r = record {
      id = v;
      flags = flags-reply-IsUint16 h r flag_ra rcode relayed refl;
      qd_count = omega arith;
      an_count = omega arith;
      ns_count = omega arith;
      ar_count = omega arith;
    } in
    (
      r,
      (rw (append-nil (append_header r [])) at (parse_header-append_header r [] sound)),
      refl,
      response-reply h r flag_ra rcode relayed refl,
    )

-- The header of a response has the number of the query.
abbrev Echoes : Header → Bytes → Type 0
Echoes h resp = (r : Header) × (parse_header resp ≡ ok r) × (r.id ≡ h.id) × (response r ≡ true)

Built-Echoes :
    (req : Bytes) (h : Header) (q : Question) (resp : Bytes)
    → All IsByte req
    → parse_header req ≡ ok h
    → parse_question req ≡ ok q
    → Built req q resp
    → Echoes h resp
Built-Echoes req h q resp bytes headed asked b =
    let (out, made, headed', _) =
      build_reply-echo req h q b.extra b.rcode b.answers b.authority bytes b.known headed asked in
    let r = reply_header h b.extra b.rcode b.answers b.authority in
    let same : out ≡ resp = ground (arith, made, b.made) in
    (r, (rw same at headed'), refl, response-reply h r b.extra b.rcode b.known refl)

-- A response that the server makes by itself to a request of bytes, whose header and question were
-- parsed, is dropped when it comes back to it: no loop between two servers.
pub handle-local :
    (s : Server) (now now' : ℕ) (net : Network) (req resp : Bytes) (h : Header) (q : Question)
    (transport : Transport)
    → All IsByte req
    → parse_header req ≡ ok h
    → parse_question req ≡ ok q
    → local s now req q ≡ some resp
    → handle s now' net resp transport ≡ none
handle-local s now now' net req resp h q transport bytes headed asked e =
    let (r, headed', _, marked) =
      Built-Echoes req h q resp bytes headed asked (local-Built req q s now resp e) in
    (handle-eq-none_iff s now' net resp transport).1 (rw (headed', is_no_query) marked)

relay-same_id :
    (net : Network) (req : Bytes) (upstreams : List Bytes) (resp : Bytes)
    → relay net udp req upstreams ≡ some resp
    → same_id resp req ≡ true
unfolding relay
relay-same_id net req [] resp h = cc
relay-same_id net req (up ∷ upstreams) resp h = elim (Option-cases (exchange_udp (net up) req)) [
  | inl e ↦ relay-same_id net req upstreams resp (rw (e, relay) at h)
  | inr (r, e) ↦
      let same : r ≡ resp = ground arith in rw same at (exchange_udp-same_id (net up) req r e)
]

-- The number of a message, as its first two bytes.
abbrev pub HasId : Bytes → Bytes → Type 0
HasId req resp = uint16_at resp 0 ≡ uint16_at req 0

same_id→HasId : (req resp : Bytes) → same_id resp req ≡ true → HasId req resp
same_id→HasId req resp h = ground arith

parse_header-id : (msg : Bytes) (h : Header) → parse_header msg ≡ ok h → h.id ≡ uint16_at msg 0
unfolding parse_header
parse_header-id msg h e = ground arith

Echoes→HasId :
    (req resp : Bytes) (h : Header) → parse_header req ≡ ok h → Echoes h resp → HasId req resp
Echoes→HasId req resp h headed (r, headed', same, _) =
    omega (arith, parse_header-id req h headed, parse_header-id resp r headed', same)

-- Over UDP every response to a message of bytes has the number of the message, whether it is made
-- here or comes from an upstream resolver, which may send anything.
pub handle-udp_id :
    (s : Server) (now : ℕ) (net : Network) (req resp : Bytes)
    → All IsByte req
    → handle s now net req udp ≡ some resp
    → HasId req resp
unfolding handle
handle-udp_id s now net req resp bytes e = go (parse_header req) refl
  where
    go : (o : Outcome Error Header) → parse_header req ≡ o → HasId req resp
    go (err p) headed = absurd (ground arith)
    go (ok h) headed = elim (Bool-cases (response h)) [
      | inl r ↦ absurd (ground arith)
      | inr query ↦
          let (resp', given, good) =
            handle-Gives (HasId req) s now net req udp h headed
              (λ r k. same_id→HasId req r (relay-same_id net req s.upstreams r k))
              (λ q r asked b.
                Echoes→HasId req r h headed (Built-Echoes req h q r bytes headed asked b))
              (λ rcode. Echoes→HasId req _ h headed (
                parse_header-build_header_only h rcode (parse_header-IsHeader req bytes headed).id))
              query in
          let same : resp' ≡ resp = ground arith in rw same at good
    ]
