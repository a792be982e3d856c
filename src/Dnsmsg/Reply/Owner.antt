-- ===== src/Dnsmsg/Reply/Owner.antt =====
-- The names of the owners of records in a reply.
use local_dns.Base.{
  ℕ, suc, ◌+◌, ◌<◌, ◌≡◌, refl, [], ◌∷◌, ◌++◌, Bytes, none, Outcome, ok, length, length-append,
  get_or-append, arith, lt→leb,
}
use local_dns.Base.Text.{to_lower, trim_suffix}
use local_dns.Dnsmsg.Word.{Error, byte_at}
use local_dns.Dnsmsg.Name.{
  decode_name, decode_name_uncompressed, encode_name, follow, name_loop, name_ptr, with_part,
}
use local_dns.Dnsmsg.Name.Agreement.{decode_name-agrees}
use local_dns.Dnsmsg.Name.RoundTrip.{dot, decode-encode_name}

-- How the program writes the owner of a record: a pointer to the name of the question, or a name in
-- full. The index is the name that is read.
pub data Owner (asked : Bytes) : Bytes → Bytes → Type 0 where
  pointed : Owner asked (name_ptr 12) asked
  full :
      (name wire : Bytes)
      → encode_name name ≡ ok wire
      → Owner asked wire (to_lower (trim_suffix name dot))

part_alone : (name : Bytes) → with_part [] name ≡ name
part_alone [] = refl
part_alone (c ∷ name) = refl

-- The name behind a pointer to the twelfth byte.
name_loop-pointed :
    (jump : ℕ → Outcome Error (Bytes × ℕ)) (rounds : ℕ) (msg : Bytes) (off : ℕ) (asked : Bytes)
    (end : ℕ)
    → byte_at msg off ≡ 192
    → byte_at msg (off + 1) ≡ 12
    → off + 1 < length msg
    → jump 12 ≡ ok (asked, end)
    → name_loop jump (suc rounds) msg off none 0 [] ≡ ok (asked, off + 2)
unfolding name_loop follow
name_loop-pointed jump rounds msg off asked end first second inside named =
    rw
      (
        lt→leb (length msg) off (omega arith),
        first,
        lt→leb (length msg) (off + 1) inside,
        second,
        named,
        part_alone,
      )
      refl

-- The owner of a record is read, whichever way it is written, from a message that has the name of the
-- question behind its header.
pub decode_name-Owner :
    (pre rest asked owner name : Bytes) (end : ℕ)
    → decode_name_uncompressed (pre ++ (owner ++ rest)) 12 ≡ ok (asked, end)
    → Owner asked owner name
    → decode_name 17 (pre ++ (owner ++ rest)) (length pre) ≡ ok (name, length pre + length owner)
decode_name-Owner pre rest asked owner name end named (full text wire encoded) =
    decode_name-agrees 16 (pre ++ (wire ++ rest)) (length pre)
      (to_lower (trim_suffix text dot), length pre + length wire)
      (decode-encode_name text wire pre rest encoded)
decode_name-Owner pre rest asked owner name end named pointed =
    unfold decode_name name_ptr in
    name_loop-pointed (decode_name 16 (pre ++ (name_ptr 12 ++ rest))) 127
      (pre ++ (name_ptr 12 ++ rest)) (length pre) asked end
      (get_or-append pre (name_ptr 12 ++ rest) (length pre) 0 0 (omega arith))
      (get_or-append pre (name_ptr 12 ++ rest) (length pre + 1) 1 0 (omega arith))
      (omega (arith, length-append pre (name_ptr 12 ++ rest)))
      (decode_name-agrees 15 (pre ++ (name_ptr 12 ++ rest)) 12 (asked, end) named)
