-- ===== src/Dnsmsg/Reply/RoundTrip.antt =====
-- What a client reads of a whole reply.
use local_dns.Base.{
  ℕ, ◌%◌, ◌^◌, ◌≤◌, ◌<◌, ◌≡◌, refl, sym, ap, ◌∙◌, List, [], ◌∷◌, ◌++◌, append_assoc, append-nil,
  Bytes, ok, >>=-eq-ok, length, length-append, length-slice, slice, arith, All,
}
use mathlib.Core.Path.{subst}
use local_dns.Dnsmsg.Word.{IsByte}
use local_dns.Dnsmsg.Header.{Header, parse_header}
use local_dns.Dnsmsg.Header.RoundTrip.{parse_header-IsHeader}
use local_dns.Dnsmsg.Header.Flags.{IsExtra}
use local_dns.Dnsmsg.Name.{decode_name_uncompressed}
use local_dns.Dnsmsg.Name.Agreement.{decode_name-agrees}
use local_dns.Dnsmsg.Question.{Question, question_fields, parse_question}
use local_dns.Dnsmsg.Question.Bounds.{parse_question-Parts, parse_question_bounds}
use local_dns.Dnsmsg.Message.{ParsedRr, read_questions, read_records, parse_message}
use local_dns.Dnsmsg.Reply.{ResourceRecord, reply_header, build_reply}
use local_dns.Dnsmsg.Reply.Echo.{
  header, records_bytes, reply, build_reply-ok, length-header, parse_header-reply,
  parse_question-reply,
}
use local_dns.Dnsmsg.Reply.Records.{IsSent, AreRead, read_records-sent}

-- `ParseMessage` reads the question as `ParseQuestion` does.
read_questions-parse_question :
    (msg : Bytes) (q : Question)
    → parse_question msg ≡ ok q
    → read_questions 1 msg 12 ≡ ok (q ∷ [], q.end)
unfolding read_questions parse_question
read_questions-parse_question msg q h =
    let (r, named, e) = >>=-eq-ok (decode_name_uncompressed msg 12) (question_fields msg) h in
    rw (decode_name-agrees 16 msg 12 r named, e) refl

-- A message with one question is read part by part.
parse_message-parts :
    (msg : Bytes) (id flags an_count ns_count : ℕ) (q : Question) (an ns : List ParsedRr)
    (behind last : ℕ)
    → let h : Header = record {
      id = id;
      flags = flags;
      qd_count = 1;
      an_count = an_count;
      ns_count = ns_count;
      ar_count = 0;
    } in
      parse_header msg ≡ ok h
      → parse_question msg ≡ ok q
      → read_records 0 an_count msg q.end ≡ ok (an, behind)
      → read_records 1 ns_count msg behind ≡ ok (ns, last)
      → parse_message msg ≡ ok (record { header = h; questions = q ∷ []; rrs = an ++ ns })
unfolding parse_message read_records
parse_message-parts msg id flags an_count ns_count q an ns behind last headed asked answered
      authorized =
    rw (headed, read_questions-parse_question msg q asked, answered, authorized, append-nil) refl

-- A count that fits 16 bits is the number itself.
counted :
    (section : ℕ) (msg : Bytes) (rrs : List ParsedRr) (count off end : ℕ)
    → count < 2 ^ 16
    → read_records section count msg off ≡ ok (rrs, end)
    → read_records section (count % 2 ^ 16) msg off ≡ ok (rrs, end)
counted section msg rrs count off end few h =
    let small : count % 2 ^ 16 ≡ count = omega arith in
    subst (λ n. read_records section n msg off ≡ ok (rrs, end)) (sym small) h

-- A reply to a request of bytes whose header and question were parsed, with the flags that the
-- program passes, is always built, and if its records fit the wire and are fewer than 65536 in each
-- section, `ParseMessage` reads it back as a whole: the header, the question of the request, and
-- then every record of the answer and of the authority section, in the order in which they were
-- written, with its type, its class, its TTL, its data and the name of its owner: that of the
-- question for a pointer to it, otherwise the encoded name in lower case and without its final dot.
pub parse_message-build_reply :
    (req : Bytes) (h : Header) (q : Question) (flags rcode : ℕ)
    (answers authority : List ResourceRecord)
    → All IsByte req
    → IsExtra flags
    → parse_header req ≡ ok h
    → parse_question req ≡ ok q
    → (sent : All (IsSent q.name) answers) → (sent' : All (IsSent q.name) authority)
    → length answers < 2 ^ 16
    → length authority < 2 ^ 16
    → (out : Bytes) × (an : List ParsedRr) × (ns : List ParsedRr) × (build_reply req q flags rcode
          answers authority
        ≡ ok out)
      × (parse_message out
          ≡ ok (record {
            header = reply_header h flags rcode answers authority;
            questions = q ∷ [];
            rrs = an ++ ns;
          }))
      × AreRead q.name out 0 answers sent an
      × AreRead q.name out 1 authority sent' ns
parse_message-build_reply req h q flags rcode answers authority bytes known headed asked sent sent'
      few few' =
    let (behind, inside, _, _) = parse_question_bounds req q asked in
    let lo : 12 ≤ q.end = omega arith in
    let out = reply req h q flags rcode answers authority headed inside lo in
    let front =
      header req h q flags rcode answers authority headed inside lo ++ slice req 12 q.end in
    let again = parse_question-reply req h q flags rcode answers authority headed inside lo asked in
    let parts = parse_question-Parts out q again in
    let ends : length front ≡ q.end = omega (
      arith,
      length-append (header req h q flags rcode answers authority headed inside lo)
          (slice req 12 q.end),
      length-header req h q flags rcode answers authority headed inside lo,
      length-slice req 12 q.end lo inside,
    ) in
    let apart : out ≡ front ++ (records_bytes answers ++ records_bytes authority) = sym (
      append_assoc (header req h q flags rcode answers authority headed inside lo)
        (slice req 12 q.end) _) in
    let (an, read, are) =
      read_records-sent q.name out parts.off parts.named 0 answers front (records_bytes authority)
        sent apart in
    let (ns, read', are') =
      read_records-sent q.name out parts.off parts.named 1 authority
        (front ++ records_bytes answers) [] sent'
        (apart
          ∙ sym (append_assoc front (records_bytes answers) (records_bytes authority))
          ∙ ap (λ t. (front ++ records_bytes answers) ++ t)
              (sym (append-nil (records_bytes authority)))) in
    (
      out,
      an,
      ns,
      build_reply-ok req h q flags rcode answers authority headed inside lo,
      parse_message-parts out _ _ _ _ q an ns _ _
          (parse_header-reply req h q flags rcode answers authority headed inside lo known
            (parse_header-IsHeader req bytes headed).id)
          again
          (counted 0 out an (length answers) _ _ few (
            subst
              (λ k.
                read_records 0 (length answers) out k
                ≡ ok (an, length (front ++ records_bytes answers)))
              ends read))
          (counted 1 out ns (length authority) _ _ few' read'),
      are,
      are',
    )
