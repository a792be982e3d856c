-- ===== src/Server/Sources.antt =====
-- Where a response comes from.
use local_dns.Base.{
  ℕ, ◌≡◌, refl, ◌++◌, inl, inr, List, ◌∷◌, false, not, ◌||◌, ◌&&◌, Bytes, Option, none, some,
  Outcome, ok, err, arith, ◌==◌, Bool-cases, Option-cases, bytes_eq,
}
use local_dns.Base.Text.{is_empty, has_suffix, contains}
use local_dns.Dnsmsg.Word.{Error, class_in, type_ptr, type_soa, type_any}
use local_dns.Dnsmsg.Header.{Header, parse_header, response, opcode}
use local_dns.Dnsmsg.Header.Flags.{IsExtra, authoritative, relayed}
use local_dns.Dnsmsg.Name.{encode_name}
use local_dns.Dnsmsg.Question.{Question, parse_question}
use local_dns.Dnsmsg.Reply.{ResourceRecord, build_reply, build_header_only}
use local_dns.Dnsmsg.Reverse.{parse_reverse_name}
use local_dns.Server.Answer.{
  Server, reply_or_nil, reply, answer_apex, answer_name, answer_ptr, local, local_ptr, local_single,
}
use local_dns.Server.Handle.{
  Network, Transport, relay, reply_serv_fail, header_only_fail, forward, handle_question,
  handle_query, handle,
}

-- The response is one of `BuildReply`, for the question.
pub record Built (req : Bytes) (q : Question) (resp : Bytes) : Type 0 where
  pub extra : ℕ
  pub rcode : ℕ
  pub answers : List ResourceRecord
  pub authority : List ResourceRecord
  pub known : IsExtra extra
  pub made : build_reply req q extra rcode answers authority ≡ ok resp

module _ (req : Bytes) (q : Question) where
  -- Every response is one of `BuildReply`.
  abbrev Builds : Option Bytes → Type 0
  Builds o = (resp : Bytes) → o ≡ some resp → Built req q resp

  reply_or_nil-Built :
      (extra rcode : ℕ) (answers authority : List ResourceRecord)
      → IsExtra extra
      → Builds (reply_or_nil (build_reply req q extra rcode answers authority))
  reply_or_nil-Built extra rcode answers authority known resp e =
      go (build_reply req q extra rcode answers authority) refl e
    where
      go :
          (o : Outcome Error Bytes)
          → build_reply req q extra rcode answers authority ≡ o
          → reply_or_nil o ≡ some resp
          → Built req q resp
      go (err p) h e = cc
      go (ok r) h e = record {
        extra = extra;
        rcode = rcode;
        answers = answers;
        authority = authority;
        known = known;
        made = ground arith;
      }

  reply-Built :
      (rcode : ℕ) (answers authority : List ResourceRecord)
      → Builds (reply req q rcode answers authority)
  unfolding reply
  reply-Built rcode answers authority = reply_or_nil-Built _ rcode answers authority authoritative

  nothing : Builds none
  nothing resp e = cc

  module _ (s : Server) (now : ℕ) where
    answer_apex-Built : Builds (answer_apex s now req q)
    unfolding answer_apex
    answer_apex-Built = elim (Bool-cases (q.qtype == type_soa || q.qtype == type_any)) [
      | inl e ↦ rw (e, answer_apex) (reply-Built _ _ _)
      | inr e ↦ rw (e, answer_apex) (reply-Built _ _ _)
    ]

    answer_name-Built : (hostname : Bytes) → Builds (answer_name s now req q hostname)
    unfolding answer_name
    answer_name-Built hostname = elim (Option-cases (s.resolver.name_lookup hostname)) [
      | inl e ↦ rw (e, answer_name) (reply-Built _ _ _)
      | inr (ip, e) ↦ rw (e, answer_name) (reply-Built _ _ _)
    ]

    answer_ptr-Built : (hostname : Bytes) → Builds (answer_ptr s req q hostname)
    unfolding answer_ptr
    answer_ptr-Built hostname = go (encode_name (hostname ++ (b'.' ∷ s.domain))) refl
      where
        go :
            (o : Outcome Error Bytes)
            → encode_name (hostname ++ (b'.' ∷ s.domain)) ≡ o
            → Builds (answer_ptr s req q hostname)
        go (err p) e = rw (e, answer_ptr) (reply-Built _ _ _)
        go (ok w) e = rw (e, answer_ptr) (reply-Built _ _ _)

    local_ptr-Built : Builds (local_ptr s req q)
    local_ptr-Built = elim (Option-cases (parse_reverse_name q.name)) [
      | inl e ↦ rw (e, local_ptr) nothing
      | inr (ip, e) ↦ elim (Option-cases (s.resolver.ptr_lookup ip)) [
        | inl f ↦ rw (e, local_ptr, f) nothing
        | inr (hostname, f) ↦ rw (e, local_ptr, f) (answer_ptr-Built hostname)
      ]
    ]

    local_single-Built : Builds (local_single s now req q)
    local_single-Built = elim (Option-cases (s.resolver.name_lookup q.name)) [
      | inl e ↦ rw (e, local_single) nothing
      | inr (ip, e) ↦ rw (e, local_single) (answer_name-Built q.name)
    ]

    pub local-Built : Builds (local s now req q)
    unfolding local
    local-Built = elim (Bool-cases (bytes_eq q.name s.domain)) [
      | inl a ↦ rw (a, local) answer_apex-Built
      | inr a ↦ elim (Bool-cases (has_suffix q.name (b'.' ∷ s.domain))) [
        | inl b ↦ rw (a, local, b) (answer_name-Built _)
        | inr b ↦ elim (Bool-cases (q.qtype == type_ptr)) [
          | inl c ↦ rw (a, local, b, c) local_ptr-Built
          | inr c ↦
              elim (Bool-cases
                (s.single_label && not (is_empty q.name) && not (contains b'.' q.name))) [
                  | inl d ↦ rw (a, local, b, c, d) local_single-Built
                  | inr d ↦ rw (a, local, b, c, d) nothing
                ]
        ]
      ]
    ]

-- A response is given, and it has the property.
abbrev Gives : (Bytes → Type 0) → Option Bytes → Type 0
Gives P o = (resp : Bytes) × (o ≡ some resp) × P resp

-- A property of every response that is relayed or built is one of what `handle` gives to a query.
module _ (P : Bytes → Type 0) (s : Server) (now : ℕ) (net : Network) (req : Bytes)
    (transport : Transport) (h : Header) (headed : parse_header req ≡ ok h)
    (passed_on : (resp : Bytes) → relay net transport req s.upstreams ≡ some resp → P resp)
    (built : (q : Question) (resp : Bytes) → parse_question req ≡ ok q → Built req q resp → P resp)
    (bare : (rcode : ℕ) → P (build_header_only h.id h.flags rcode)) where
  header_only_fail-Gives : Gives P (header_only_fail req)
  unfolding header_only_fail
  header_only_fail-Gives = rw (headed, header_only_fail) (_, refl, bare _)

  forward-Gives-none : Gives P (forward s net req transport none)
  unfolding forward
  forward-Gives-none = elim (Option-cases (relay net transport req s.upstreams)) [
    | inl e ↦ rw (e, forward) header_only_fail-Gives
    | inr (resp, e) ↦ rw (e, forward) (resp, refl, passed_on resp e)
  ]

  module _ (q : Question) (asked : parse_question req ≡ ok q) where
    forward-Gives : Gives P (forward s net req transport (some q))
    unfolding forward reply_serv_fail
    forward-Gives = elim (Option-cases (relay net transport req s.upstreams)) [
      | inr (resp, e) ↦ rw (e, forward) (resp, refl, passed_on resp e)
      | inl e ↦ elim (Option-cases (reply_serv_fail req q)) [
        | inl f ↦ rw (e, forward, f) header_only_fail-Gives
        | inr (resp, f) ↦
            rw (e, forward, f)
              (resp, refl, built q resp asked (reply_or_nil-Built req q _ _ _ _ relayed resp f))
      ]
    ]

    handle_question-Gives : Gives P (handle_question s now net req transport q)
    unfolding handle_question
    handle_question-Gives = elim (Bool-cases (q.qclass == class_in)) [
      | inr e ↦ rw (e, handle_question) forward-Gives
      | inl e ↦ elim (Option-cases (local s now req q)) [
        | inl f ↦ rw (e, handle_question, f) forward-Gives
        | inr (resp, f) ↦
            rw (e, handle_question, f)
              (resp, refl, built q resp asked (local-Built req q s now resp f))
      ]
    ]

  handle_query-Gives : Gives P (handle_query s now net req transport h)
  unfolding handle_query
  handle_query-Gives = elim (Bool-cases (not (opcode h == 0) || not (h.qd_count == 1))) [
    | inl e ↦ rw (e, handle_query) forward-Gives-none
    | inr e ↦ go e (parse_question req) refl
  ]
    where
      go :
          (not (opcode h == 0) || not (h.qd_count == 1)) ≡ false
          → (o : Outcome Error Question) → parse_question req ≡ o
          → Gives P (handle_query s now net req transport h)
      go e (err p) f = rw (e, handle_query, f) (_, refl, bare _)
      go e (ok q) f = rw (e, handle_query, f) (handle_question-Gives q f)

  pub handle-Gives : response h ≡ false → Gives P (handle s now net req transport)
  unfolding handle
  handle-Gives query = rw (headed, handle, query) handle_query-Gives
