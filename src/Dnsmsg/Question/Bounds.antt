-- ===== src/Dnsmsg/Question/Bounds.antt =====
-- Where the question lies in its message.
use local_dns.Base.{
  ℕ, ◌+◌, ◌≤◌, ◌≡◌, Bytes, ok, >>=-eq-ok, length, ltb, arith, ap, Bool-cases, inl, inr, tests,
}
use local_dns.Dnsmsg.Word.{header_len, uint16_at}
use local_dns.Dnsmsg.Name.{decode_name_uncompressed}
use local_dns.Dnsmsg.Name.Safety.{IsLower, decode_name_uncompressed-IsRead}
use local_dns.Dnsmsg.Question.{Question, question_fields, parse_question}

-- A question that was read: its name, and the fields behind it.
pub record Parts (msg : Bytes) (q : Question) : Type 0 where
  pub off : ℕ
  pub named : decode_name_uncompressed msg header_len ≡ ok (q.name, off)
  pub fields : q ≡ record {
    name = q.name;
    qtype = uint16_at msg off;
    qclass = uint16_at msg (off + 2);
    end = off + 4;
  }
  pub inside : off + 4 ≤ length msg

pub parse_question-Parts : (msg : Bytes) (q : Question) → parse_question msg ≡ ok q → Parts msg q
unfolding parse_question question_fields
parse_question-Parts msg q h =
    let (r, named, e) =
      >>=-eq-ok (decode_name_uncompressed msg header_len) (question_fields msg) h in
    let name_eq : q.name ≡ r.0 = ground arith in
    record {
      off = r.1;
      named = rw name_eq named;
      fields = ground arith;
      inside = elim (Bool-cases (ltb (length msg) (r.1 + 4))) [
        | inl long ↦ ground arith
        | inr fits ↦ omega tests
      ];
    }

-- A question that is read has its end behind the header, its name and its four bytes of fields, and
-- inside the message; its name is in lower case, with 255 bytes at most.
pub parse_question_bounds :
    (msg : Bytes) (q : Question)
    → parse_question msg ≡ ok q
    → (17 ≤ q.end) × (q.end ≤ length msg) × IsLower q.name × (length q.name ≤ 255)
parse_question_bounds msg q h =
    let parts = parse_question-Parts msg q h in
    let read = decode_name_uncompressed-IsRead msg header_len parts.named in
    let ends : q.end ≡ parts.off + 4 = ap (λ (p : Question). p.end) parts.fields in
    (omega (arith, read.forward), omega (arith, parts.inside), read.lower_case, read.bounded)
