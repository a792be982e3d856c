-- ===== src/Dnsmsg/Query/RoundTrip.antt =====
-- A query that the program builds, as a receiver parses it.
use local_dns.Base.{
  ℕ, ◌+◌, ◌≡◌, sym, ◌∙◌, [], ◌++◌, append_assoc, Bool, Bytes, ok, >>=-eq-ok, length, length-append,
  get_or-append, arith, le→ltb,
}
use local_dns.Base.Text.{to_lower, trim_suffix}
use local_dns.Dnsmsg.Word.{uint16_at, put_uint16, IsUint16, header_len}
use local_dns.Dnsmsg.Header.{parse_header, append_header}
use local_dns.Dnsmsg.Header.RoundTrip.{parse_header-append_header, length-append_header}
use local_dns.Dnsmsg.Name.{encode_name, decode_name_uncompressed}
use local_dns.Dnsmsg.Name.RoundTrip.{dot, decode-encode_name}
use local_dns.Dnsmsg.Question.{question_fields, parse_question}
use local_dns.Dnsmsg.Query.{build_query, query_header}

abbrev tail : ℕ → ℕ → Bytes
tail qtype qclass = put_uint16 qtype ++ put_uint16 qclass

-- The fields that stand behind a name at the end of a message.
module _ (pre : Bytes) (qtype qclass : ℕ) (ht : IsUint16 qtype) (hc : IsUint16 qclass) where
  qtype_at : uint16_at (pre ++ tail qtype qclass) (length pre) ≡ qtype
  qtype_at = omega (
    arith,
    get_or-append pre (tail qtype qclass) (length pre) 0 0 (omega arith),
    get_or-append pre (tail qtype qclass) (length pre + 1) 1 0 (omega arith),
  )

  qclass_at : uint16_at (pre ++ tail qtype qclass) (length pre + 2) ≡ qclass
  qclass_at = omega (
    arith,
    get_or-append pre (tail qtype qclass) (length pre + 2) 2 0 (omega arith),
    get_or-append pre (tail qtype qclass) (length pre + 2 + 1) 3 0 (omega arith),
  )

  -- The fields are parsed, and the question ends with the message.
  question_fields_at_end :
      (name : Bytes) (off : ℕ)
      → off ≡ length pre
      → question_fields (pre ++ tail qtype qclass) (name, off)
        ≡ ok (record {
          name = name;
          qtype = qtype;
          qclass = qclass;
          end = length (pre ++ tail qtype qclass);
        })
  unfolding question_fields
  question_fields_at_end name off e =
      let len : length (pre ++ tail qtype qclass) ≡ length pre + 4 =
        length-append pre (tail qtype qclass) in
      rw (e, qtype_at, qclass_at, len, le→ltb (length pre + 4) (length pre + 4) (omega arith))

module _ (id : ℕ) (name : Bytes) (qtype qclass : ℕ) (rd : Bool) {msg : Bytes}
    (built : build_query id name qtype qclass rd ≡ ok msg) where
  abbrev header : Bytes
  header = append_header (query_header id rd) []

  build_query-parts :
      (wire : Bytes) × (encode_name name ≡ ok wire) × (msg ≡ header ++ (wire ++ tail qtype qclass))
  unfolding build_query
  build_query-parts =
      let (wire, encoded, e) =
        >>=-eq-ok (encode_name name) (λ w. ok (header ++ (w ++ tail qtype qclass))) built in
      (wire, encoded, cc)

  -- The header of a query that `BuildQuery` makes, with a number of 16 bits, is read back: its number,
  -- its wish for recursion, and the count of one question.
  pub parse_header-build_query : IsUint16 id → parse_header msg ≡ ok (query_header id rd)
  parse_header-build_query h =
      let (wire, _, e) = build_query-parts in
      rw e
        (parse_header-append_header (query_header id rd) (wire ++ tail qtype qclass) (ground arith))

  -- The question of a query that `BuildQuery` makes, with a type and a class of 16 bits, is read back:
  -- its name in lower case and without its final dot, its type and its class; and it ends where the
  -- message ends.
  pub parse_question-build_query :
      IsUint16 qtype
      → IsUint16 qclass
      → parse_question msg
        ≡ ok (record {
          name = to_lower (trim_suffix name dot);
          qtype = qtype;
          qclass = qclass;
          end = length msg;
        })
  unfolding parse_question
  parse_question-build_query ht hc =
      let (wire, encoded, e) = build_query-parts in
      let twelve : length header ≡ 12 = length-append_header (query_header id rd) [] in
      let read = decode-encode_name name wire header (tail qtype qclass) encoded in
      let whole : msg ≡ (header ++ wire) ++ tail qtype qclass =
        e ∙ sym (append_assoc header wire (tail qtype qclass)) in
      let placed : decode_name_uncompressed msg header_len
          ≡ ok (to_lower (trim_suffix name dot), 12 + length wire) =
        rw e (rw twelve at read) in
      let stop : 12 + length wire ≡ length (header ++ wire) =
        omega (arith, twelve, length-append header wire) in
      rw placed (
        rw whole (
          question_fields_at_end (header ++ wire) qtype qclass ht hc
            (to_lower (trim_suffix name dot)) (12 + length wire) stop))
