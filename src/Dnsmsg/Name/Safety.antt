-- ===== src/Dnsmsg/Name/Safety.antt =====
-- What the two decoders return: they end, stay inside the message, and yield lower-case names of
-- bounded length.
use local_dns.Base.{
  ℕ, zero, suc, ◌+◌, ◌*◌, ◌≤◌, ◌<◌, ◌≡◌, ◌≢◌, refl, [], ◌∷◌, ◌++◌, Bytes, false, ok, err, slice,
  length, length-append, length-map, arith, bit_and, All, All-append, ◌⊎◌, map, length-slice, inl,
  inr,
}
use local_dns.Base.Text.{to_lower, lower, is_upper}
use local_dns.Dnsmsg.Word.{no_fuel, byte_at}
use local_dns.Dnsmsg.Name.{decode_loop, decode_name_uncompressed, dotted, max_rounds}

-- With a round for each label that 255 bytes can hold, the loop ends.
decode_loop-ends :
    (rounds : ℕ) (msg : Bytes) (off total : ℕ) (sb : Bytes)
    → total ≤ 255
    → 256 ≤ total + 2 * rounds
    → decode_loop rounds msg off total sb ≢ err no_fuel
unfolding decode_loop
decode_loop-ends zero msg off total sb fits enough = absurd (omega arith)
decode_loop-ends (suc rounds) msg off total sb fits enough = ground (
  arith,
  decode_loop-ends rounds msg (off + (1 + byte_at msg off)) (total + (byte_at msg off + 1))
      (dotted sb ++ to_lower (slice msg (off + 1) (off + 1 + byte_at msg off))),
)

abbrev pub IsLower : Bytes → Type 0
IsLower = All (λ c. is_upper c ≡ false)

to_lower-IsLower : (s : Bytes) → IsLower (to_lower s)
unfolding to_lower lower
to_lower-IsLower [] = tt
to_lower-IsLower (c ∷ s) = (ground arith, to_lower-IsLower s)

pub dotted-IsLower : (s : Bytes) → IsLower s → IsLower (dotted s)
dotted-IsLower [] h = tt
dotted-IsLower (c ∷ s) h = All-append _ (c ∷ s) (b'.' ∷ []) h (refl, tt)

pub length-dotted : (s : Bytes) → length (dotted s) ≤ length s + 1
length-dotted [] = omega arith
length-dotted (c ∷ s) = omega (arith, length-append s (b'.' ∷ []))

pub grown-IsLower : (sb label : Bytes) → IsLower sb → IsLower (dotted sb ++ to_lower label)
grown-IsLower sb label h =
    All-append _ (dotted sb) (to_lower label) (dotted-IsLower sb h) (to_lower-IsLower label)

-- A name that was read, and the offset behind it.
pub record IsRead (msg : Bytes) (off bound : ℕ) (r : Bytes × ℕ) : Type 0 where
  pub lower_case : IsLower r.0
  pub bounded : length r.0 ≤ bound
  pub forward : off < r.1
  pub inside : r.1 ≤ length msg

-- A label that a round accepts.
pub record IsRound (msg : Bytes) (off total : ℕ) : Type 0 where
  pub plain : bit_and (byte_at msg off) 0xC0 ≡ 0
  pub some_bytes : 1 ≤ byte_at msg off
  pub inside : off + 1 + byte_at msg off ≤ length msg
  pub fits : total + (byte_at msg off + 1) ≤ 255

module _ (rounds : ℕ) (msg : Bytes) (off total : ℕ) (sb : Bytes) where
  -- A successful round ends the name or reads a label.
  pub decode_loop-rounds :
      (r : Bytes × ℕ)
      → decode_loop (suc rounds) msg off total sb ≡ ok r
      → ((off < length msg) × (byte_at msg off ≡ 0) × (r ≡ (sb, off + 1)))
        ⊎ (IsRound msg off total
            × (decode_loop rounds msg
                  (off + (1 + byte_at msg off))
                  (total + (byte_at msg off + 1))
                  (dotted sb ++ to_lower (slice msg (off + 1) (off + 1 + byte_at msg off)))
                ≡ ok r))
  unfolding decode_loop
  decode_loop-rounds r h = ground arith

  -- A round over an accepted label goes on behind it.
  pub decode_loop_round :
      IsRound msg off total
      → decode_loop (suc rounds) msg off total sb
        ≡ decode_loop rounds msg
            (off + (1 + byte_at msg off))
            (total + (byte_at msg off + 1))
            (dotted sb ++ to_lower (slice msg (off + 1) (off + 1 + byte_at msg off)))
  unfolding decode_loop
  decode_loop_round v = ground (arith, v.plain)

pub length-grown :
    (sb : Bytes) (msg : Bytes) (off l : ℕ)
    → off + 1 + l ≤ length msg
    → length (dotted sb ++ to_lower (slice msg (off + 1) (off + 1 + l))) ≤ length sb + 1 + l
unfolding to_lower
length-grown sb msg off l h =
    let label = slice msg (off + 1) (off + 1 + l) in
    omega (
      arith,
      length-append (dotted sb) (map lower label),
      length-map label lower,
      length-dotted sb,
      length-slice msg (off + 1) (off + 1 + l),
    )

decode_loop-IsRead :
    (rounds : ℕ) (msg : Bytes) (start off total : ℕ) (sb : Bytes) (r : Bytes × ℕ)
    → decode_loop rounds msg off total sb ≡ ok r
    → IsLower sb
    → length sb ≤ total
    → total ≤ 255
    → start ≤ off
    → IsRead msg start 255 r
decode_loop-IsRead zero msg start off total sb r h low len fits from = unfold decode_loop in cc
decode_loop-IsRead (suc rounds) msg start off total sb r h low len fits from =
    elim (decode_loop-rounds rounds msg off total sb r h) [
      | inl (here, _, e) ↦ rw e (record {
        lower_case = low;
        bounded = omega arith;
        forward = omega arith;
        inside = omega arith;
      })
      | inr (round, go) ↦
          decode_loop-IsRead rounds msg start (off + (1 + byte_at msg off))
            (total + (byte_at msg off + 1))
            (dotted sb ++ to_lower (slice msg (off + 1) (off + 1 + byte_at msg off))) r go
            (grown-IsLower sb (slice msg (off + 1) (off + 1 + byte_at msg off)) low)
            (omega (arith, length-grown sb msg off (byte_at msg off))) round.fits (omega arith)
    ]

-- `decodeNameUncompressed` ends on every message and offset: its loop is never cut off by the
-- fuel.
pub decode_name_uncompressed-ends :
    (msg : Bytes) (off : ℕ) → decode_name_uncompressed msg off ≢ err no_fuel
unfolding decode_name_uncompressed
decode_name_uncompressed-ends msg off =
    decode_loop-ends max_rounds msg off 0 [] (omega arith) (omega arith)

-- A name that `decodeNameUncompressed` returns is in lower case and has 255 bytes at most, and the
-- offset behind it lies further on in the message, or at its end.
pub decode_name_uncompressed-IsRead :
    (msg : Bytes) (off : ℕ) {r : Bytes × ℕ}
    → decode_name_uncompressed msg off ≡ ok r
    → IsRead msg off 255 r
unfolding decode_name_uncompressed
decode_name_uncompressed-IsRead msg off {r} h =
    decode_loop-IsRead max_rounds msg off off 0 [] r h tt (omega arith) (omega arith) (omega arith)
