-- ===== src/Dnsmsg/Name/Steps.antt =====
-- One round of the loop of `decodeNameUncompressed`.
use local_dns.Base.{
  ℕ, suc, ◌+◌, ◌*◌, ◌/◌, ◌≤◌, ◌<◌, ◌≡◌, refl, ◌++◌, Bytes, ok, slice, length, arith, bit_and,
}
use local_dns.Base.Bits.{agree, agree→eq}
use local_dns.Base.Text.{to_lower}
use local_dns.Dnsmsg.Word.{byte_at}
use local_dns.Dnsmsg.Name.{decode_loop, dotted}

-- The two high bits of a byte.
and_high : (b : ℕ) → b < 256 → bit_and b 0xC0 ≡ b / 64 * 64
unfolding agree
and_high = agree→eq _ _ 256 refl

module _ (rounds : ℕ) (msg : Bytes) (off total : ℕ) (sb : Bytes) where
  pub decode_loop_end :
      off < length msg
      → byte_at msg off ≡ 0
      → decode_loop (suc rounds) msg off total sb ≡ ok (sb, off + 1)
  unfolding decode_loop
  decode_loop_end h e = ground arith

  pub decode_loop_label :
      (l : ℕ)
      → byte_at msg off ≡ l
      → 1 ≤ l
      → l ≤ 63
      → off + 1 + l ≤ length msg
      → total + (l + 1) ≤ 255
      → decode_loop (suc rounds) msg off total sb
        ≡ decode_loop rounds msg
            (off + (1 + l))
            (total + (l + 1))
            (dotted sb ++ to_lower (slice msg (off + 1) (off + 1 + l)))
  unfolding decode_loop
  decode_loop_label l e lo hi fits short = rw e (ground (arith, and_high l))
