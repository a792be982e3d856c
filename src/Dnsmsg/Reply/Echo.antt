-- ===== src/Dnsmsg/Reply/Echo.antt =====
-- What a client reads in a reply: the header, and the question that it asked.
use local_dns.Base.{
  ℕ, ◌+◌, ◌≤◌, ◌<◌, ◌≡◌, refl, sym, ap, ◌∙◌, List, [], ◌∷◌, ◌++◌, append_assoc, append-nil, Bytes,
  ok, length, length-append, length-take, length-slice, get_or-inside, slice_apart, All, ◌-◌, slice,
  arith, le→ltb, take, drop,
}
use local_dns.Dnsmsg.Word.{IsUint16, IsByte, byte_at}
use local_dns.Dnsmsg.Header.{Header, parse_header, append_header}
use local_dns.Dnsmsg.Header.RoundTrip.{
  parse_header-append_header, parse_header-IsHeader, length-append_header,
}
use local_dns.Dnsmsg.Header.Flags.{IsExtra, flags-reply-IsUint16}
use local_dns.Dnsmsg.Name.{decode_name_uncompressed}
use local_dns.Dnsmsg.Name.Safety.{decode_name_uncompressed-IsRead}
use local_dns.Dnsmsg.Name.Locality.{decode_name_uncompressed-local}
use local_dns.Dnsmsg.Question.{Question, question_fields, parse_question}
use local_dns.Dnsmsg.Question.Bounds.{parse_question-Parts, parse_question_bounds}
use local_dns.Dnsmsg.Reply.{
  ResourceRecord, record_bytes, append_record, append_records, reply_header, build_reply,
}

-- The bytes of records, one behind the other.
unfoldable pub records_bytes : List ResourceRecord → Bytes
records_bytes [] = []
records_bytes (rr ∷ rrs) = record_bytes rr ++ records_bytes rrs

pub append_records-bytes :
    (rrs : List ResourceRecord) (out : Bytes) → append_records rrs out ≡ out ++ records_bytes rrs
unfolding append_records records_bytes
append_records-bytes [] out = rw append-nil
append_records-bytes (rr ∷ rrs) out =
    append_records-bytes rrs (append_record rr out)
    ∙ append_assoc out (record_bytes rr) (records_bytes rrs)

module _ (req : Bytes) (h : Header) (q : Question) (flags rcode : ℕ)
    (answers authority : List ResourceRecord) (headed : parse_header req ≡ ok h)
    (inside : q.end ≤ length req) (behind : 12 ≤ q.end) where
  abbrev pub header : Bytes
  header = append_header (reply_header h flags rcode answers authority) []

  abbrev pub records : Bytes
  records = records_bytes answers ++ records_bytes authority

  abbrev pub reply : Bytes
  reply = header ++ (slice req 12 q.end ++ records)

  -- A reply to a request that was parsed never fails.
  pub build_reply-ok : build_reply req q flags rcode answers authority ≡ ok reply
  unfolding build_reply
  build_reply-ok =
      rw
        (
          headed,
          le→ltb (length req) q.end inside,
          le→ltb q.end 12 behind,
          append_records-bytes,
          append_records-bytes,
        )
        (ap ok (simp append_assoc))

  pub parse_header-reply :
      IsExtra flags
      → IsUint16 h.id
      → parse_header reply ≡ ok (reply_header h flags rcode answers authority)
  parse_header-reply known fits =
      parse_header-append_header (reply_header h flags rcode answers authority)
        (slice req 12 q.end ++ records)
        (record {
          id = fits;
          flags =
              flags-reply-IsUint16 h (reply_header h flags rcode answers authority) flags rcode
                known refl;
          qd_count = omega arith;
          an_count = omega arith;
          ns_count = omega arith;
          ar_count = omega arith;
        })

  pub length-header : length header ≡ 12
  length-header = length-append_header (reply_header h flags rcode answers authority) []

  length-front : length (take 12 req) ≡ 12
  length-front = omega (arith, length-take 12 req)

  -- The bytes of the question stand at the same place in the reply.
  byte-reply : (i : ℕ) → 12 ≤ i → i < q.end → byte_at reply i ≡ byte_at req i
  byte-reply i lo hi =
      let body = slice req 12 q.end in
      let len : length body ≡ q.end - 12 = length-slice req 12 q.end behind inside in
      let a =
        get_or-inside header body records i 0 (omega (arith, length-header))
          (omega (arith, length-header)) in
      let b =
        get_or-inside (take 12 req) body (drop q.end req) i 0 (omega (arith, length-front))
          (omega (arith, length-front)) in
      let at : i - length header ≡ i - length (take 12 req) =
        omega (arith, length-header, length-front) in
      a
      ∙ ap (λ k. byte_at body k) at
      ∙ sym b
      ∙ ap (λ m. byte_at m i) (slice_apart req 12 q.end behind)

  name-reply :
      (r : Bytes × ℕ)
      → r.1 ≤ q.end
      → decode_name_uncompressed req 12 ≡ ok r
      → decode_name_uncompressed reply 12 ≡ ok r
  name-reply r fits e =
      let body = slice req 12 q.end in
      let len : length body ≡ q.end - 12 = length-slice req 12 q.end behind inside in
      let apart : take 12 req ++ (body ++ drop q.end req) ≡ req = slice_apart req 12 q.end behind in
      rw length-front at (
        decode_name_uncompressed-local (take 12 req) header body (drop q.end req) records r
          (omega (arith, length-header, length-front)) (omega (arith, length-front))
          (rw (apart, length-front) e))

  length-reply : q.end ≤ length reply
  length-reply =
      let body = slice req 12 q.end in
      omega (
        arith,
        length-header,
        length-append header (body ++ records),
        length-append body records,
        length-slice req 12 q.end behind inside,
      )

  pub parse_question-reply : parse_question req ≡ ok q → parse_question reply ≡ ok q
  unfolding parse_question question_fields
  parse_question-reply asked =
      let parts = parse_question-Parts req q asked in
      let ends : q.end ≡ parts.off + 4 = ap (λ (p : Question). p.end) parts.fields in
      let read = decode_name_uncompressed-IsRead req 12 parts.named in
      rw (name-reply (q.name, parts.off) (omega (arith, ends)) parts.named) (
        rw
          (
            le→ltb (length reply) (parts.off + 4) (omega (arith, length-reply, ends)),
            byte-reply parts.off (omega (arith, read.forward)) (omega (arith, ends)),
            byte-reply (parts.off + 1) (omega (arith, read.forward)) (omega (arith, ends)),
            byte-reply (parts.off + 2) (omega (arith, read.forward)) (omega (arith, ends)),
            byte-reply (parts.off + 2 + 1) (omega (arith, read.forward)) (omega (arith, ends)),
          )
          (ap ok (sym parts.fields)))

-- A reply to a request of bytes whose header and question were parsed, with the flags that the
-- program passes, is always built. Its header has the request's number, the flags of `reply_flags`
-- and the counts; its question is the request's.
pub build_reply-echo :
    (req : Bytes) (h : Header) (q : Question) (flags rcode : ℕ)
    (answers authority : List ResourceRecord)
    → All IsByte req
    → IsExtra flags
    → parse_header req ≡ ok h
    → parse_question req ≡ ok q
    → (out : Bytes) × (build_reply req q flags rcode answers authority ≡ ok out)
      × (parse_header out ≡ ok (reply_header h flags rcode answers authority))
      × (parse_question out ≡ ok q)
build_reply-echo req h q flags rcode answers authority bytes known headed asked =
    let (behind, inside, _, _) = parse_question_bounds req q asked in
    let lo : 12 ≤ q.end = omega arith in
    (
      reply req h q flags rcode answers authority headed inside lo,
      build_reply-ok req h q flags rcode answers authority headed inside lo,
      parse_header-reply req h q flags rcode answers authority headed inside lo known
          (parse_header-IsHeader req bytes headed).id,
      parse_question-reply req h q flags rcode answers authority headed inside lo asked,
    )
