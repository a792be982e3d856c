-- ===== src/Dnsmsg/Message.antt =====
-- dnsmsg.go: `ParseMessage`. What stands beside an error in the source is left out: the caller drops
-- it.
pub mod Bounds
use local_dns.Base.{
  ℕ, zero, suc, ◌+◌, List, [], ◌∷◌, ◌++◌, Bytes, Outcome, ok, err, ◌>>=◌, length, ltb,
  if◌then◌else◌,
}
use local_dns.Dnsmsg.Word.{Error, short, header_len, uint16_at, uint32_at}
use local_dns.Dnsmsg.Header.{Header, parse_header}
use local_dns.Dnsmsg.Name.{decode_name, max_depth}
use local_dns.Dnsmsg.Question.{Question, question_fields}

pub record ParsedRr : Type 0 where
  pub name : Bytes
  pub rtype : ℕ
  pub rclass : ℕ
  pub ttl : ℕ
  pub data_start : ℕ
  pub data_len : ℕ
  pub section : ℕ

pub record Message : Type 0 where
  pub header : Header
  pub questions : List Question
  pub rrs : List ParsedRr

-- The loop over the questions: what was read, and the offset behind it.
unfoldable pub read_questions : ℕ → Bytes → ℕ → Outcome Error (List Question × ℕ)
unfolding question_fields
read_questions zero msg off = ok ([], off)
read_questions (suc count) msg off = do
  r ← decode_name max_depth msg off
  q ← question_fields msg r
  (questions, end) ← read_questions count msg q.end
  ok (q ∷ questions, end)

-- The part of one record behind its name.
unfoldable pub record_fields : ℕ → Bytes → Bytes × ℕ → Outcome Error ParsedRr
record_fields section msg (name, next) =
    let rdlen = uint16_at msg (next + 8) in
    if ltb (length msg) (next + 10)
    then err short
    else if ltb (length msg) (next + 10 + rdlen)
    then err short
    else ok (record {
      name = name;
      rtype = uint16_at msg next;
      rclass = uint16_at msg (next + 2);
      ttl = uint32_at msg (next + 4);
      data_start = next + 10;
      data_len = rdlen;
      section = section;
    })

-- The loop over the records of one section.
unfoldable pub read_records : ℕ → ℕ → Bytes → ℕ → Outcome Error (List ParsedRr × ℕ)
unfolding record_fields
read_records section zero msg off = ok ([], off)
read_records section (suc count) msg off = do
  r ← decode_name max_depth msg off
  rr ← record_fields section msg r
  (rrs, end) ← read_records section count msg (rr.data_start + rr.data_len)
  ok (rr ∷ rrs, end)

unfoldable pub parse_message : Bytes → Outcome Error Message
unfolding read_questions read_records
parse_message msg = do
  h ← parse_header msg
  (questions, off) ← read_questions h.qd_count msg header_len
  (answers, behind) ← read_records 0 h.an_count msg off
  (authority, last) ← read_records 1 h.ns_count msg behind
  (additional, end) ← read_records 2 h.ar_count msg last
  ok (record { header = h; questions = questions; rrs = answers ++ (authority ++ additional) })
