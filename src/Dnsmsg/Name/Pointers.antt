-- ===== src/Dnsmsg/Name/Pointers.antt =====
-- `decodeName`, which follows compression pointers.
use local_dns.Base.{
  ℕ, zero, suc, ◌+◌, ◌*◌, ◌≤◌, ◌<◌, ◌≡◌, ◌≢◌, [], ◌∷◌, ◌++◌, Bytes, Option, none, Outcome, ok, err,
  slice, length, length-append, arith, tests, leb, bit_and, bit_or, All-append, Bool-cases, inl,
  inr, ◌⊎◌, >>=-eq-ok,
}
use local_dns.Base.Text.{to_lower}
use local_dns.Dnsmsg.Word.{Error, no_fuel, byte_at}
use local_dns.Dnsmsg.Name.{name_loop, follow, decode_name, dotted, with_part, max_rounds}
use local_dns.Dnsmsg.Name.Safety.{
  IsLower, IsRead, IsRound, grown-IsLower, dotted-IsLower, length-grown, length-dotted,
}

-- Where the pointer at `off` leads.
abbrev pub target : Bytes → ℕ → ℕ
target msg off = bit_or (bit_and (byte_at msg off) 0x3F * 256) (byte_at msg (off + 1))

module _ (jump : ℕ → Outcome Error (Bytes × ℕ)) (rounds : ℕ) (msg : Bytes) (off total : ℕ)
    (sb : Bytes) (r : Bytes × ℕ) where
  follow-ok :
      follow jump msg off none sb ≡ ok r
      → (part : Bytes × ℕ) × (jump (target msg off) ≡ ok part)
        × (r ≡ (with_part sb part.0, off + 2))
        × (off + 2 ≤ length msg)
  unfolding follow
  follow-ok h = elim (Bool-cases (leb (length msg) (off + 1))) [
    | inl cut ↦ ground arith
    | inr inside ↦
        let (part, jumped, e) =
          >>=-eq-ok (jump (target msg off)) (λ p. ok (with_part sb p.0, off + 2)) {end = r}
            (ground arith) in
        (part, jumped, cc, omega tests)
  ]

  -- A successful round ends the name, goes through a pointer, or reads a label.
  name_loop-rounds :
      name_loop jump (suc rounds) msg off none total sb ≡ ok r
      → ((off < length msg) × (r ≡ (sb, off + 1)))
        ⊎ (follow jump msg off none sb ≡ ok r)
        ⊎ (IsRound msg off total
            × (name_loop jump rounds msg
                  (off + (1 + byte_at msg off))
                  none
                  (total + (byte_at msg off + 1))
                  (dotted sb ++ to_lower (slice msg (off + 1) (off + 1 + byte_at msg off)))
                ≡ ok r))
  unfolding name_loop
  name_loop-rounds h = ground arith

length-with_part : (sb part : Bytes) → length (with_part sb part) ≤ length sb + 1 + length part
length-with_part sb [] = omega arith
length-with_part sb (c ∷ part) =
    omega (arith, length-append (dotted sb) (c ∷ part), length-dotted sb)

with_part-IsLower : (sb part : Bytes) → IsLower sb → IsLower part → IsLower (with_part sb part)
with_part-IsLower sb [] h k = h
with_part-IsLower sb (c ∷ part) h k = All-append _ (dotted sb) (c ∷ part) (dotted-IsLower sb h) k

module _ (jump : ℕ → Outcome Error (Bytes × ℕ)) (msg : Bytes) (bound : ℕ)
    (jumps : (ptr : ℕ) (p : Bytes × ℕ) → jump ptr ≡ ok p → IsRead msg ptr bound p) where
  name_loop-IsRead :
      (rounds start off total : ℕ) (sb : Bytes) (r : Bytes × ℕ)
      → name_loop jump rounds msg off none total sb ≡ ok r
      → IsLower sb
      → length sb ≤ total
      → total ≤ 255
      → start ≤ off
      → IsRead msg start (256 + bound) r
  name_loop-IsRead zero start off total sb r h low len fits from = unfold name_loop in cc
  name_loop-IsRead (suc rounds) start off total sb r h low len fits from =
      elim (name_loop-rounds jump rounds msg off total sb r h) [
        | inl (here, e) ↦ rw e (record {
          lower_case = low;
          bounded = omega arith;
          forward = omega arith;
          inside = omega arith;
        })
        | inr (inl go) ↦
            let (part, jumped, e, inside) = follow-ok jump rounds msg off total sb r go in
            let read = jumps (target msg off) part jumped in
            rw e (record {
              lower_case = with_part-IsLower sb part.0 low read.lower_case;
              bounded = omega (arith, length-with_part sb part.0, read.bounded);
              forward = omega arith;
              inside = omega arith;
            })
        | inr (inr (round, go)) ↦
            name_loop-IsRead rounds start (off + (1 + byte_at msg off))
              (total + (byte_at msg off + 1))
              (dotted sb ++ to_lower (slice msg (off + 1) (off + 1 + byte_at msg off))) r go
              (grown-IsLower sb (slice msg (off + 1) (off + 1 + byte_at msg off)) low)
              (omega (arith, length-grown sb msg off (byte_at msg off))) round.fits (omega arith)
      ]

module _ (jump : ℕ → Outcome Error (Bytes × ℕ)) (msg : Bytes)
    (jumps : (ptr : ℕ) → jump ptr ≢ err no_fuel) where
  follow-ends : (off : ℕ) (next : Option ℕ) (sb : Bytes) → follow jump msg off next sb ≢ err no_fuel
  unfolding follow
  follow-ends off next sb = ground (arith, jumps (target msg off))

  name_loop-ends :
      (rounds off : ℕ) (next : Option ℕ) (total : ℕ) (sb : Bytes)
      → total ≤ 255
      → 256 ≤ total + 2 * rounds
      → name_loop jump rounds msg off next total sb ≢ err no_fuel
  unfolding name_loop
  name_loop-ends zero off next total sb fits enough = absurd (omega arith)
  name_loop-ends (suc rounds) off next total sb fits enough = ground (
    arith,
    follow-ends off next sb,
    name_loop-ends rounds (off + (1 + byte_at msg off)) next (total + (byte_at msg off + 1))
        (dotted sb ++ to_lower (slice msg (off + 1) (off + 1 + byte_at msg off))),
  )

-- `decodeName` ends on every message, offset and depth, also on a message whose pointers form a
-- cycle: its loop is never cut off by the fuel.
pub decode_name-ends : (left : ℕ) (msg : Bytes) (off : ℕ) → decode_name left msg off ≢ err no_fuel
unfolding decode_name
decode_name-ends zero msg off = ground arith
decode_name-ends (suc left) msg off =
    name_loop-ends (decode_name left msg) msg (decode_name-ends left msg) max_rounds off none 0 []
      (omega arith) (omega arith)

-- A name that `decodeName` returns is in lower case, has 256 bytes at most for each depth that is
-- left, and the offset behind it lies further on in the message, or at its end.
pub decode_name-IsRead :
    (left : ℕ) (msg : Bytes) (off : ℕ) (r : Bytes × ℕ)
    → decode_name left msg off ≡ ok r
    → IsRead msg off (256 * left) r
unfolding decode_name
decode_name-IsRead zero msg off r h = cc
decode_name-IsRead (suc left) msg off r h =
    let read =
      name_loop-IsRead (decode_name left msg) msg (256 * left)
        (λ ptr p. decode_name-IsRead left msg ptr p) max_rounds off off 0 [] r h tt (omega arith)
        (omega arith) (omega arith) in
    record {
      lower_case = read.lower_case;
      bounded = omega (arith, read.bounded);
      forward = read.forward;
      inside = read.inside;
    }
