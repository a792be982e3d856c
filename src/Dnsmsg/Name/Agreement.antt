-- ===== src/Dnsmsg/Name/Agreement.antt =====
-- The two decoders of names agree on names without pointers.
use local_dns.Base.{
  ℕ, zero, suc, ◌+◌, ◌≡◌, [], ◌++◌, Bytes, none, Outcome, ok, slice, arith, inl, inr,
}
use local_dns.Base.Text.{to_lower}
use local_dns.Dnsmsg.Word.{Error, byte_at}
use local_dns.Dnsmsg.Name.{
  decode_loop, name_loop, decode_name, decode_name_uncompressed, dotted, max_rounds,
}
use local_dns.Dnsmsg.Name.Safety.{decode_loop-rounds}

module _ (jump : ℕ → Outcome Error (Bytes × ℕ)) (msg : Bytes) where
  decode_loop-name_loop :
      (rounds off total : ℕ) (sb : Bytes) (r : Bytes × ℕ)
      → decode_loop rounds msg off total sb ≡ ok r
      → name_loop jump rounds msg off none total sb ≡ ok r
  unfolding name_loop
  decode_loop-name_loop zero off total sb r h = unfold decode_loop in cc
  decode_loop-name_loop (suc rounds) off total sb r h =
      elim (decode_loop-rounds rounds msg off total sb r h) [
        | inl (here, zero_byte, e) ↦ ground arith
        | inr (round, go) ↦ ground (
          arith,
          round.plain,
          round.inside,
          round.fits,
          round.some_bytes,
          decode_loop-name_loop rounds (off + (1 + byte_at msg off)) (total + (byte_at msg off + 1))
              (dotted sb ++ to_lower (slice msg (off + 1) (off + 1 + byte_at msg off))) r go,
        )
      ]

-- A name that `decodeNameUncompressed` reads is read alike by `decodeName`, at every depth that is
-- allowed.
pub decode_name-agrees :
    (left : ℕ) (msg : Bytes) (off : ℕ) (r : Bytes × ℕ)
    → decode_name_uncompressed msg off ≡ ok r
    → decode_name (suc left) msg off ≡ ok r
unfolding decode_name decode_name_uncompressed
decode_name-agrees left msg off r h =
    decode_loop-name_loop (decode_name left msg) msg max_rounds off 0 [] r h
