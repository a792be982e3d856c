-- ===== src/Dnsmsg/Reply/Records.antt =====
-- What a client reads of the records of a reply.
use local_dns.Base.{
  ℕ, ◌+◌, ◌^◌, ◌%◌, ◌<◌, ◌≡◌, refl, sym, ap, ◌∙◌, List, [], ◌∷◌, ◌++◌, append_assoc, append-nil,
  Bytes, ok, length, length-append, get_or-append, slice, slice-append, arith, le→ltb, All,
}
use mathlib.Core.Path.{subst}
use local_dns.Dnsmsg.Word.{IsUint16, byte_at, uint16_at, uint32_at, put_uint16, put_uint32}
use local_dns.Dnsmsg.Name.{decode_name, decode_name_uncompressed}
use local_dns.Dnsmsg.Message.{ParsedRr, record_fields, read_records}
use local_dns.Dnsmsg.Reply.{ResourceRecord, record_bytes}
use local_dns.Dnsmsg.Reply.Echo.{records_bytes}
use local_dns.Dnsmsg.Reply.Owner.{Owner, decode_name-Owner}

-- A record that fits the wire.
pub record IsSent (asked : Bytes) (rr : ResourceRecord) : Type 0 where
  pub name : Bytes
  pub owned : Owner asked rr.owner name
  pub rtype : IsUint16 rr.rtype
  pub rclass : IsUint16 rr.rclass
  pub ttl : rr.ttl < 2 ^ 32
  pub short_data : IsUint16 (length rr.rdata)

-- The ten bytes behind the owner.
abbrev fixed : ResourceRecord → Bytes
fixed rr =
    put_uint16 rr.rtype
    ++ (put_uint16 rr.rclass ++ (put_uint32 rr.ttl ++ put_uint16 (length rr.rdata % 2 ^ 16)))

-- What is read of a record whose fixed part starts at `next`.
abbrev parsed_rr : ℕ → Bytes → ResourceRecord → ℕ → ParsedRr
parsed_rr section name rr next = record {
  name = name;
  rtype = rr.rtype;
  rclass = rr.rclass;
  ttl = rr.ttl;
  data_start = next + 10;
  data_len = length rr.rdata;
  section = section;
}

module _ (front post asked : Bytes) (rr : ResourceRecord) (sent : IsSent asked rr) where
  abbrev after : Bytes
  after = fixed rr ++ (rr.rdata ++ post)

  byte_behind : (i k : ℕ) → i ≡ length front + k → byte_at (front ++ after) i ≡ byte_at after k
  byte_behind i k at = get_or-append front after i k 0 at

  rtype_at : uint16_at (front ++ after) (length front) ≡ rr.rtype
  rtype_at = omega (
    arith,
    byte_behind (length front) 0 (omega arith),
    byte_behind (length front + 1) 1 (omega arith),
    sent.rtype,
  )

  rclass_at : uint16_at (front ++ after) (length front + 2) ≡ rr.rclass
  rclass_at = omega (
    arith,
    byte_behind (length front + 2) 2 (omega arith),
    byte_behind (length front + 2 + 1) 3 (omega arith),
    sent.rclass,
  )

  ttl_at : uint32_at (front ++ after) (length front + 4) ≡ rr.ttl
  ttl_at = omega (
    arith,
    byte_behind (length front + 4) 4 (omega arith),
    byte_behind (length front + 4 + 1) 5 (omega arith),
    byte_behind (length front + 4 + 2) 6 (omega arith),
    byte_behind (length front + 4 + 2 + 1) 7 (omega arith),
    sent.ttl,
  )

  rdlen_at : uint16_at (front ++ after) (length front + 8) ≡ length rr.rdata
  rdlen_at = omega (
    arith,
    byte_behind (length front + 8) 8 (omega arith),
    byte_behind (length front + 8 + 1) 9 (omega arith),
    sent.short_data,
  )

  length-whole : length (front ++ after) ≡ length front + (10 + (length rr.rdata + length post))
  length-whole = omega (arith, length-append front after, length-append rr.rdata post)

  -- The fields of a record are read.
  record_fields-after :
      (section : ℕ) (name : Bytes)
      → record_fields section (front ++ after) (name, length front)
        ≡ ok (parsed_rr section name rr (length front))
  unfolding record_fields
  record_fields-after section name =
      rw
        (
          le→ltb (length (front ++ after)) (length front + 10) (omega (arith, length-whole)),
          rdlen_at,
          le→ltb (length (front ++ after)) (length front + 10 + length rr.rdata)
              (omega (arith, length-whole)),
          rtype_at,
          rclass_at,
          ttl_at,
        )
        refl

  data_at :
      slice (front ++ after) (length front + 10) (length front + 10 + length rr.rdata) ≡ rr.rdata
  data_at =
      ap (λ m. slice m (length front + 10) (length front + 10 + length rr.rdata))
        (sym (append_assoc front (fixed rr) (rr.rdata ++ post)))
      ∙ slice-append (front ++ fixed rr) rr.rdata post _ _
          (omega (arith, length-append front (fixed rr)))
          (omega (arith, length-append front (fixed rr)))

-- A record as a client reads it: the name of its owner, the type, the class, the TTL and the data in the
-- message.
pub record IsReadOf (asked msg : Bytes) (section : ℕ) (rr : ResourceRecord) (sent : IsSent asked rr)
    (p : ParsedRr) : Type 0 where
  pub named : p.name ≡ sent.name
  pub rtype : p.rtype ≡ rr.rtype
  pub rclass : p.rclass ≡ rr.rclass
  pub ttl : p.ttl ≡ rr.ttl
  pub content : slice msg p.data_start (p.data_start + p.data_len) ≡ rr.rdata
  pub section_of : p.section ≡ section

-- Records and what is read of them, in the same order.
unfoldable pub AreRead :
    (asked msg : Bytes) (section : ℕ) (rrs : List ResourceRecord)
    → All (IsSent asked) rrs
    → List ParsedRr
    → Type 0
AreRead asked msg section [] h [] = Unit
AreRead asked msg section [] h (p ∷ ps) = ⊥
AreRead asked msg section (rr ∷ rrs) h [] = ⊥
AreRead asked msg section (rr ∷ rrs) (sent, h) (p ∷ ps) =
    IsReadOf asked msg section rr sent p × AreRead asked msg section rrs h ps

-- The bytes of a record are its owner, the fixed part and the data.
record_bytes-parts :
    (rr : ResourceRecord) (post : Bytes)
    → record_bytes rr ++ post ≡ rr.owner ++ (fixed rr ++ (rr.rdata ++ post))
unfolding record_bytes
record_bytes-parts rr post = simp append_assoc

length-record_bytes :
    (rr : ResourceRecord) → length (record_bytes rr) ≡ length rr.owner + (10 + length rr.rdata)
unfolding record_bytes
length-record_bytes rr = omega (arith, length-append rr.owner (fixed rr ++ rr.rdata))

module _ (asked msg : Bytes) (end : ℕ) (named : decode_name_uncompressed msg 12 ≡ ok (asked, end))
    (section : ℕ) where
  -- One record that stands behind `pre`.
  one_record :
      (rr : ResourceRecord) (pre post : Bytes)
      → (sent : IsSent asked rr) → msg ≡ pre ++ (record_bytes rr ++ post)
      → (name : Bytes) × (p : ParsedRr) × (decode_name 17 msg (length pre)
          ≡ ok (name, length pre + length rr.owner))
        × (record_fields section msg (name, length pre + length rr.owner) ≡ ok p)
        × (p.data_start + p.data_len ≡ length (pre ++ record_bytes rr))
        × IsReadOf asked msg section rr sent p
  one_record rr pre post sent e =
      let front = pre ++ rr.owner in
      let behind = fixed rr ++ (rr.rdata ++ post) in
      let whole : msg ≡ pre ++ (rr.owner ++ behind) =
        e ∙ ap (λ t. pre ++ t) (record_bytes-parts rr post) in
      let split : msg ≡ front ++ behind = whole ∙ sym (append_assoc pre rr.owner behind) in
      let len : length front ≡ length pre + length rr.owner = length-append pre rr.owner in
      (
        sent.name,
        parsed_rr section sent.name rr (length front),
        subst (λ m. decode_name 17 m (length pre) ≡ ok (sent.name, length pre + length rr.owner))
            (sym whole)
            (decode_name-Owner pre behind asked rr.owner sent.name end
              (subst (λ m. decode_name_uncompressed m 12 ≡ ok (asked, end)) whole named)
              sent.owned),
        subst
            (λ n.
              record_fields section msg (sent.name, n)
              ≡ ok (parsed_rr section sent.name rr (length front)))
            len
            (subst
              (λ m.
                record_fields section m (sent.name, length front)
                ≡ ok (parsed_rr section sent.name rr (length front)))
              (sym split) (record_fields-after front post asked rr sent section sent.name)),
        omega (arith, len, length-append pre (record_bytes rr), length-record_bytes rr),
        record {
          named = refl;
          rtype = refl;
          rclass = refl;
          ttl = refl;
          content =
              subst
                (λ m. slice m (length front + 10) (length front + 10 + length rr.rdata) ≡ rr.rdata)
                (sym split) (data_at front post asked rr sent);
          section_of = refl;
        },
      )

  -- The loop over the records of a section reads the records that were written.
  pub read_records-sent :
      (rrs : List ResourceRecord) (pre post : Bytes)
      → (h : All (IsSent asked) rrs) → msg ≡ pre ++ (records_bytes rrs ++ post)
      → (ps : List ParsedRr) × (read_records section (length rrs) msg (length pre)
          ≡ ok (ps, length (pre ++ records_bytes rrs)))
        × AreRead asked msg section rrs h ps
  unfolding read_records AreRead records_bytes
  read_records-sent [] pre post h e =
      ([], ap (λ (t : Bytes). ok ([], length t)) (sym (rw append-nil refl)), tt)
  read_records-sent (rr ∷ rrs) pre post (sent, h) e =
      let rest = records_bytes rrs ++ post in
      let first : msg ≡ pre ++ (record_bytes rr ++ rest) =
        e ∙ ap (λ t. pre ++ t) (append_assoc (record_bytes rr) (records_bytes rrs) post) in
      let (name, p, decoded, fields, at, is) = one_record rr pre rest sent first in
      let (ps, read, are) =
        read_records-sent rrs (pre ++ record_bytes rr) post h
          (first ∙ sym (append_assoc pre (record_bytes rr) rest)) in
      (
        p ∷ ps,
        rw (decoded, fields, at, read)
            (ap (λ (t : Bytes). ok (p ∷ ps, length t))
              (append_assoc pre (record_bytes rr) (records_bytes rrs))),
        (is, are),
      )
