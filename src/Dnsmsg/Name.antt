-- ===== src/Dnsmsg/Name.antt =====
-- dnsmsg.go: domain names on the wire. The proofs are in the modules below.
pub mod Wire
pub mod Steps
pub mod RoundTrip
pub mod Safety
pub mod Pointers
pub mod Agreement
pub mod Locality
use local_dns.Base.{
  ℕ, zero, suc, ◌+◌, ◌*◌, ◌/◌, ◌%◌, List, [], ◌∷◌, ◌++◌, Bool, not, Option, none, some, Bytes,
  Outcome, ok, err, ◌>>=◌, length, slice, leb, ltb, ◌==◌, bytes_eq, if◌then◌else◌, bit_and, bit_or,
  ◌||◌,
}
use local_dns.Base.Text.{to_lower, is_empty, split, trim_suffix}
use local_dns.Dnsmsg.Word.{Error, short, bad_name, no_fuel, byte_at}

-- A name has 127 labels at most, so 128 rounds are enough for each of the two loops.
abbrev pub max_rounds : ℕ
max_rounds = 128

-- `if sb.Len() > 0 { sb.WriteByte('.') }`
abbrev pub dotted : Bytes → Bytes
dotted [] = []
dotted (c ∷ s) = c ∷ s ++ b'.' ∷ []

-- The loop of `decodeNameUncompressed`, over its variables.
unfoldable pub decode_loop : ℕ → Bytes → ℕ → ℕ → Bytes → Outcome Error (Bytes × ℕ)
unfolding to_lower
decode_loop zero msg off total sb = err no_fuel
decode_loop (suc rounds) msg off total sb =
    let l = byte_at msg off in
    let label = to_lower (slice msg (off + 1) (off + 1 + l)) in
    let rest = decode_loop rounds msg (off + (1 + l)) (total + (l + 1)) (dotted sb ++ label) in
    if leb (length msg) off
    then err short
    else if l == 0
    then ok (sb, off + 1)
    else if not (bit_and l 0xC0 == 0)
    then err bad_name
    else if ltb (length msg) (off + 1 + l)
    then err short
    else if ltb 255 (total + (l + 1))
    then err bad_name
    else rest

unfoldable pub decode_name_uncompressed : Bytes → ℕ → Outcome Error (Bytes × ℕ)
decode_name_uncompressed msg off = decode_loop max_rounds msg off 0 []

-- `if next < 0 { next = n }`
abbrev first_next : Option ℕ → ℕ → ℕ
first_next none n = n
first_next (some next) n = next

-- What `sb` holds after the part behind a pointer is written.
abbrev pub with_part : Bytes → Bytes → Bytes
with_part sb [] = sb
with_part sb (c ∷ part) = dotted sb ++ c ∷ part

-- The case of a pointer: `jump` is the call of `decodeName` at the next depth.
unfoldable pub follow :
    (ℕ → Outcome Error (Bytes × ℕ)) → Bytes → ℕ → Option ℕ → Bytes → Outcome Error (Bytes × ℕ)
follow jump msg off next sb = if leb (length msg) (off + 1) then err short else do
  (part, _) ← jump (bit_or (bit_and (byte_at msg off) 0x3F * 256) (byte_at msg (off + 1)))
  ok (with_part sb part, first_next next (off + 2))

-- The loop of `decodeName`. `next` is `none` where the source has -1.
unfoldable pub name_loop :
    (ℕ → Outcome Error (Bytes × ℕ))
    → ℕ
    → Bytes
    → ℕ
    → Option ℕ
    → ℕ
    → Bytes
    → Outcome Error (Bytes × ℕ)
unfolding to_lower
name_loop jump zero msg off next total sb = err no_fuel
name_loop jump (suc rounds) msg off next total sb =
    let b = byte_at msg off in
    let label = to_lower (slice msg (off + 1) (off + 1 + b)) in
    let rest =
      name_loop jump rounds msg (off + (1 + b)) next (total + (b + 1)) (dotted sb ++ label) in
    if leb (length msg) off
    then err short
    else if b == 0
    then ok (sb, first_next next (off + 1))
    else if bit_and b 0xC0 == 0xC0
    then follow jump msg off next sb
    else if not (bit_and b 0xC0 == 0)
    then err bad_name
    else if ltb (length msg) (off + 1 + b)
    then err short
    else if ltb 255 (total + (b + 1))
    then err bad_name
    else rest

-- `decodeName` at depth `17 - left`: the test `depth > 16` is `left = 0`.
unfoldable pub decode_name : ℕ → Bytes → ℕ → Outcome Error (Bytes × ℕ)
decode_name zero msg off = err bad_name
decode_name (suc left) msg off = name_loop (decode_name left msg) max_rounds msg off none 0 []

-- `decodeName(msg, off, 0)`
abbrev pub max_depth : ℕ
max_depth = 17

unfoldable pub decode_name_at : Bytes → ℕ → Outcome Error Bytes
decode_name_at msg off = do (name, _) ← decode_name max_depth msg off; ok name

-- The loop of `EncodeName` over the labels.
unfoldable pub write_labels : List Bytes → Bytes → Outcome Error Bytes
write_labels [] out = ok out
write_labels (label ∷ labels) out =
    let rest = write_labels labels (out ++ length label % 256 ∷ label) in
    if is_empty label then err bad_name else if ltb 63 (length label) then err bad_name else rest

unfoldable pub encode_name : Bytes → Outcome Error Bytes
unfolding split trim_suffix write_labels
encode_name name = if is_empty name || bytes_eq name (b'.' ∷ []) then ok (0 ∷ []) else do
  out ← write_labels (split b'.' (trim_suffix name (b'.' ∷ []))) []
  if ltb 255 (length out + 1) then err bad_name else ok (out ++ 0 ∷ [])

-- `[]byte{0xC0 | byte(off>>8), byte(off)}`
unfoldable pub name_ptr : ℕ → Bytes
name_ptr off = bit_or 0xC0 (off / 256 % 256) ∷ (off % 256) ∷ []
