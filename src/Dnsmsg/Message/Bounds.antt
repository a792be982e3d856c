-- ===== src/Dnsmsg/Message/Bounds.antt =====
-- A message that is parsed holds what its header says, inside its bytes.
use local_dns.Base.{
  ℕ, zero, suc, ◌+◌, ◌≤◌, ◌≡◌, refl, sym, ap, ◌∙◌, List, [], ◌∷◌, ◌++◌, Bytes, ok, >>=-eq-ok,
  length, All, arith, Bool-cases, inl, inr, ltb, ltb→le,
}
use local_dns.Dnsmsg.Word.{header_len, uint16_at}
use local_dns.Dnsmsg.Header.{Header, parse_header}
use local_dns.Dnsmsg.Name.{decode_name, max_depth}
use local_dns.Dnsmsg.Name.Safety.{IsLower}
use local_dns.Dnsmsg.Name.Pointers.{decode_name-IsRead}
use local_dns.Dnsmsg.Question.{Question, question_fields}
use local_dns.Dnsmsg.Message.{
  ParsedRr, Message, read_questions, record_fields, read_records, parse_message,
}

-- The question ends inside the message.
abbrev IsInside : Bytes → Question → Type 0
IsInside msg q = (q.end ≤ length msg) × IsLower q.name

-- The data of the record stand inside the message, behind its header.
pub record IsWhole (msg : Bytes) (section : ℕ) (rr : ParsedRr) : Type 0 where
  pub behind : header_len ≤ rr.data_start
  pub inside : rr.data_start + rr.data_len ≤ length msg
  pub lower_case : IsLower rr.name
  pub counted : rr.section ≡ section

question_fields-IsInside :
    (msg : Bytes) (r : Bytes × ℕ) (q : Question)
    → IsLower r.0
    → question_fields msg r ≡ ok q
    → IsInside msg q × (r.1 ≤ q.end)
unfolding question_fields
question_fields-IsInside msg r q low h = elim (Bool-cases (ltb (length msg) (r.1 + 4))) [
  | inl long ↦ absurd (ground arith)
  | inr fits ↦
      let named : q.name ≡ r.0 = ground arith in
      let ends : q.end ≡ r.1 + 4 = ground arith in
      ((omega (arith, ltb→le (length msg) (r.1 + 4) fits), rw named low), omega arith)
]

record_fields-IsWhole :
    (section : ℕ) (msg : Bytes) (r : Bytes × ℕ) (rr : ParsedRr)
    → header_len ≤ r.1
    → IsLower r.0
    → record_fields section msg r ≡ ok rr
    → IsWhole msg section rr × (r.1 ≤ rr.data_start)
unfolding record_fields
record_fields-IsWhole section msg r rr lo low h = elim (Bool-cases (ltb (length msg) (r.1 + 10))) [
  | inl long ↦ absurd (ground arith)
  | inr fits ↦ elim (Bool-cases (ltb (length msg) (r.1 + 10 + uint16_at msg (r.1 + 8)))) [
    | inl long ↦ absurd (ground arith)
    | inr whole ↦
        let named : rr.name ≡ r.0 = ground arith in
        let starts : rr.data_start ≡ r.1 + 10 = ground arith in
        let len : rr.data_len ≡ uint16_at msg (r.1 + 8) = ground arith in
        (
          record {
            behind = omega arith;
            inside = omega (arith, ltb→le (length msg) (r.1 + 10 + uint16_at msg (r.1 + 8)) whole);
            lower_case = rw named low;
            counted = ground arith;
          },
          omega arith,
        )
  ]
]

read_questions-Inside :
    (count : ℕ) (msg : Bytes) (off : ℕ) (r : List Question × ℕ)
    → header_len ≤ off
    → read_questions count msg off ≡ ok r
    → (length r.0 ≡ count) × All (IsInside msg) r.0 × (header_len ≤ r.1)
unfolding read_questions
read_questions-Inside zero msg off r lo h =
    let none : r.0 ≡ [] = ground arith in
    let same : r.1 ≡ off = ground arith in (rw none refl, rw none tt, omega arith)
read_questions-Inside (suc count) msg off r lo h =
    let (n, en, h1) = >>=-eq-ok (decode_name max_depth msg off) _ h in
    let (q, eq, h2) = >>=-eq-ok (question_fields msg n) _ h1 in
    let (t, et, h3) = >>=-eq-ok (read_questions count msg q.end) _ h2 in
    let read = decode_name-IsRead max_depth msg off n en in
    let (fits, forward) = question_fields-IsInside msg n q read.lower_case eq in
    let (counted, inside, behind) =
      read_questions-Inside count msg q.end t (omega (arith, read.forward)) et in
    let list : r.0 ≡ q ∷ t.0 = ground arith in
    let end : r.1 ≡ t.1 = ground arith in
    (rw list (ap suc counted), rw list (fits, inside), omega arith)

read_records-Whole :
    (section count : ℕ) (msg : Bytes) (off : ℕ) (r : List ParsedRr × ℕ)
    → header_len ≤ off
    → read_records section count msg off ≡ ok r
    → (length r.0 ≡ count) × All (IsWhole msg section) r.0 × (header_len ≤ r.1)
unfolding read_records
read_records-Whole section zero msg off r lo h =
    let none : r.0 ≡ [] = ground arith in
    let same : r.1 ≡ off = ground arith in (rw none refl, rw none tt, omega arith)
read_records-Whole section (suc count) msg off r lo h =
    let (n, en, h1) = >>=-eq-ok (decode_name max_depth msg off) _ h in
    let (rr, eq, h2) = >>=-eq-ok (record_fields section msg n) _ h1 in
    let (t, et, h3) =
      >>=-eq-ok (read_records section count msg (rr.data_start + rr.data_len)) _ h2 in
    let read = decode_name-IsRead max_depth msg off n en in
    let (fits, forward) =
      record_fields-IsWhole section msg n rr (omega (arith, read.forward)) read.lower_case eq in
    let (counted, inside, behind) =
      read_records-Whole section count msg (rr.data_start + rr.data_len) t
        (omega (arith, fits.behind)) et in
    let list : r.0 ≡ rr ∷ t.0 = ground arith in
    let end : r.1 ≡ t.1 = ground arith in
    (rw list (ap suc counted), rw list (fits, inside), omega arith)

-- The sections of a message: as many questions and records as its header counts, the records in the
-- order of the sections.
pub record IsSectioned (msg : Bytes) (m : Message) : Type 0 where
  pub questions : length m.questions ≡ m.header.qd_count
  pub inside : All (IsInside msg) m.questions
  pub answers : List ParsedRr
  pub authority : List ParsedRr
  pub additional : List ParsedRr
  pub parts : m.rrs ≡ answers ++ (authority ++ additional)
  pub an_count : length answers ≡ m.header.an_count
  pub ns_count : length authority ≡ m.header.ns_count
  pub ar_count : length additional ≡ m.header.ar_count
  pub an_whole : All (IsWhole msg 0) answers
  pub ns_whole : All (IsWhole msg 1) authority
  pub ar_whole : All (IsWhole msg 2) additional

-- A message that `ParseMessage` accepts has the header of `ParseHeader`, as many questions and
-- records of each section as that counts, in the order of the sections and marked with theirs, each
-- name in lower case, each question's end and each record's data inside the message and behind its
-- header.
pub parse_message-IsSectioned :
    (msg : Bytes) (m : Message)
    → parse_message msg ≡ ok m
    → (parse_header msg ≡ ok m.header) × IsSectioned msg m
unfolding parse_message
parse_message-IsSectioned msg m e =
    let (h, eh, e1) = >>=-eq-ok (parse_header msg) _ e in
    let (qs, eq, e2) = >>=-eq-ok (read_questions h.qd_count msg header_len) _ e1 in
    let (an, ea, e3) = >>=-eq-ok (read_records 0 h.an_count msg qs.1) _ e2 in
    let (ns, en, e4) = >>=-eq-ok (read_records 1 h.ns_count msg an.1) _ e3 in
    let (ar, er, e5) = >>=-eq-ok (read_records 2 h.ar_count msg ns.1) _ e4 in
    let (cq, iq, lq) = read_questions-Inside h.qd_count msg header_len qs (omega arith) eq in
    let (ca, wa, la) = read_records-Whole 0 h.an_count msg qs.1 an lq ea in
    let (cn, wn, ln) = read_records-Whole 1 h.ns_count msg an.1 ns la en in
    let (cr, wr, lr) = read_records-Whole 2 h.ar_count msg ns.1 ar ln er in
    let header : m.header ≡ h = ground arith in
    let questions : m.questions ≡ qs.0 = ground arith in
    let rrs : m.rrs ≡ an.0 ++ (ns.0 ++ ar.0) = ground arith in
    (
      rw header eh,
      record {
        questions = rw questions cq ∙ ap (λ (g : Header). g.qd_count) (sym header);
        inside = rw questions iq;
        answers = an.0;
        authority = ns.0;
        additional = ar.0;
        parts = rrs;
        an_count = ca ∙ ap (λ (g : Header). g.an_count) (sym header);
        ns_count = cn ∙ ap (λ (g : Header). g.ns_count) (sym header);
        ar_count = cr ∙ ap (λ (g : Header). g.ar_count) (sym header);
        an_whole = wa;
        ns_whole = wn;
        ar_whole = wr;
      },
    )
