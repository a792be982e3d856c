-- ===== src/Dnsmsg/Name/Locality.antt =====
-- A name without pointers depends on its own bytes only: it is read alike in any message that holds
-- them at the same place.
use local_dns.Base.{
  ℕ, zero, suc, ◌+◌, ◌≤◌, ◌<◌, ◌≡◌, sym, ◌∙◌, ap, [], ◌++◌, Bytes, ok, slice, length, length-append,
  get_or-inside, slice-inside, arith, inl, inr,
}
use local_dns.Base.Text.{to_lower}
use local_dns.Dnsmsg.Word.{byte_at}
use local_dns.Dnsmsg.Name.{decode_loop, decode_name_uncompressed, dotted, max_rounds}
use local_dns.Dnsmsg.Name.Safety.{IsRound, decode_loop-rounds, decode_loop_round}
use local_dns.Dnsmsg.Name.Steps.{decode_loop_end}

decode_loop-forward :
    (rounds : ℕ) (msg : Bytes) (off total : ℕ) (sb : Bytes) (r : Bytes × ℕ)
    → decode_loop rounds msg off total sb ≡ ok r
    → off < r.1
decode_loop-forward zero msg off total sb r h = unfold decode_loop in cc
decode_loop-forward (suc rounds) msg off total sb r h =
    elim (decode_loop-rounds rounds msg off total sb r h) [
      | inl (_, _, e) ↦ rw e (omega arith)
      | inr (_, go) ↦ omega (
        arith,
        decode_loop-forward rounds msg (off + (1 + byte_at msg off)) (total + (byte_at msg off + 1))
            (dotted sb ++ to_lower (slice msg (off + 1) (off + 1 + byte_at msg off))) r go,
      )
    ]

module _ (p p' body t t' : Bytes) (same : length p ≡ length p') where
  abbrev here : Bytes
  here = p ++ (body ++ t)

  abbrev there : Bytes
  there = p' ++ (body ++ t')

  length-there : length p + length body ≤ length there
  length-there = omega (arith, same, length-append p' (body ++ t'), length-append body t')

  byte_same : (i : ℕ) → length p ≤ i → i < length p + length body → byte_at there i ≡ byte_at here i
  byte_same i lo hi =
      get_or-inside p' body t' i 0 (omega arith) (omega arith)
      ∙ rw (← same) (sym (get_or-inside p body t i 0 lo hi))

  slice_same :
      (i j : ℕ)
      → length p ≤ i
      → i ≤ j
      → j ≤ length p + length body
      → slice there i j ≡ slice here i j
  slice_same i j lo mid hi =
      slice-inside p' body t' i j (omega arith) mid (omega arith)
      ∙ rw (← same) (sym (slice-inside p body t i j lo mid hi))

  IsRound-same :
      (off total : ℕ)
      → byte_at there off ≡ byte_at here off
      → IsRound here off total
      → off + 1 + byte_at here off ≤ length p + length body
      → IsRound there off total
  IsRound-same off total e round fits = record {
    plain = rw e round.plain;
    some_bytes = rw e round.some_bytes;
    inside = rw e (omega (arith, length-there));
    fits = rw e round.fits;
  }

  decode_loop-local :
      (rounds off total : ℕ) (sb : Bytes) (r : Bytes × ℕ)
      → length p ≤ off
      → r.1 ≤ length p + length body
      → decode_loop rounds here off total sb ≡ ok r
      → decode_loop rounds there off total sb ≡ ok r
  decode_loop-local zero off total sb r lo hi h = unfold decode_loop in cc
  decode_loop-local (suc rounds) off total sb r lo hi h =
      elim (decode_loop-rounds rounds here off total sb r h) [
        | inl (_, zero_byte, e) ↦
            let ends : r.1 ≡ off + 1 = ap (λ (q : Bytes × ℕ). q.1) e in
            rw e (
              decode_loop_end rounds there off total sb (omega (arith, length-there))
                (byte_same off lo (omega arith) ∙ zero_byte))
        | inr (round, go) ↦
            let b = byte_at here off in
            let label = slice here (off + 1) (off + 1 + b) in
            let further =
              decode_loop-forward rounds here (off + (1 + b)) (total + (b + 1))
                (dotted sb ++ to_lower label) r go in
            let again =
              decode_loop-local rounds (off + (1 + b)) (total + (b + 1))
                (dotted sb ++ to_lower label) r (omega arith) hi go in
            let byte_eq : byte_at there off ≡ b = byte_same off lo (omega arith) in
            let label_eq : slice there (off + 1) (off + 1 + b) ≡ label =
              slice_same (off + 1) (off + 1 + b) (omega arith) (omega arith) (omega arith) in
            let step =
              decode_loop_round rounds there off total sb
                (IsRound-same off total byte_eq round (omega arith)) in
            step ∙ rw (byte_eq, label_eq) again
      ]

-- Two messages with beginnings of the same length and the same bytes behind them, as far as the
-- name behind the beginning goes, give the same name and the same offset behind it.
pub decode_name_uncompressed-local :
    (p p' body t t' : Bytes) (r : Bytes × ℕ)
    → length p ≡ length p'
    → r.1 ≤ length p + length body
    → decode_name_uncompressed (p ++ (body ++ t)) (length p) ≡ ok r
    → decode_name_uncompressed (p' ++ (body ++ t')) (length p) ≡ ok r
unfolding decode_name_uncompressed
decode_name_uncompressed-local p p' body t t' r same fits h =
    decode_loop-local p p' body t t' same max_rounds (length p) 0 [] r (omega arith) fits h
