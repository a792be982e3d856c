-- ===== src/Dnsmsg/Header/Flags.antt =====
-- The flags of a reply.
use local_dns.Base.{
  ◌⊎◌, inl, inr, ◌≡◌, refl, ◌∙◌, true, arith, ℕ, ◌+◌, ◌*◌, ◌/◌, ◌%◌, ◌^◌, ◌<◌, bit_and, bit_or,
}
use local_dns.Base.Bits.{bit_and_shifted, bit_and_ones, agree, agree→eq}
use local_dns.Dnsmsg.Word.{IsUint16, flag_qr, flag_rd, flag_ra, flag_aa}
use local_dns.Dnsmsg.Header.{Header, reply_flags, response, opcode, rcode_of}

-- The flags word as a sum of its fields, for the two extra words that the program sets.
abbrev sum_of_fields : ℕ → ℕ → ℕ → ℕ → ℕ
sum_of_fields op rd extra rcode = 2 ^ 15 + op * 2 ^ 11 + rd * 2 ^ 8 + extra + rcode

abbrev or_of_fields : ℕ → ℕ → ℕ → ℕ → ℕ
or_of_fields op rd extra rcode =
    bit_or (bit_or (bit_or (bit_or flag_qr (op * 2 ^ 11)) (rd * 2 ^ 8)) extra) rcode

-- The arguments packed in one number below 512.
or_table :
    (extra : ℕ)
    → agree
        (λ n. or_of_fields (n / 32) (n / 16 % 2) extra (n % 16))
        (λ n. sum_of_fields (n / 32) (n / 16 % 2) extra (n % 16))
        512
      ≡ true
    → (op rd rcode : ℕ) → op < 16
    → rd < 2
    → rcode < 16
    → or_of_fields op rd extra rcode ≡ sum_of_fields op rd extra rcode
or_table extra e op rd rcode ho hr hc =
    let n = (op * 32 + rd * 16 + rcode) in
    let a : n / 32 ≡ op = omega arith in
    let b : n / 16 % 2 ≡ rd = omega arith in
    let c : n % 16 ≡ rcode = omega arith in rw (a, b, c) at (agree→eq _ _ 512 e n (omega arith))

-- `flags&(0xF<<11)`, `flags&FlagRD` and `rcode&0xF` as remainders.
and_opcode : (f : ℕ) → bit_and f (0xF * 2 ^ 11) ≡ f / 2 ^ 11 % 16 * 2 ^ 11
and_opcode f = omega (arith, bit_and_shifted 11 f 15, bit_and_ones 4 (f / 2 ^ 11))

and_rd : (f : ℕ) → bit_and f flag_rd ≡ f / 2 ^ 8 % 2 * 2 ^ 8
and_rd f = omega (arith, bit_and_shifted 8 f 1, bit_and_ones 1 (f / 2 ^ 8))

and_rcode : (c : ℕ) → bit_and c 0xF ≡ c % 16
and_rcode c = bit_and_ones 4 c

and_qr : (f : ℕ) → bit_and f flag_qr ≡ f / 2 ^ 15 % 2 * 2 ^ 15
and_qr f = omega (arith, bit_and_shifted 15 f 1, bit_and_ones 1 (f / 2 ^ 15))

-- The extra flags that the program passes: `FlagAA|FlagRA` and `FlagRA`.
pub data IsExtra : ℕ → Type 0 where
  authoritative : IsExtra (flag_aa + flag_ra)
  relayed : IsExtra flag_ra

reply_flags_sum :
    (f extra rcode : ℕ)
    → IsExtra extra
    → reply_flags f extra rcode ≡ sum_of_fields (f / 2 ^ 11 % 16) (f / 2 ^ 8 % 2) extra (rcode % 16)
unfolding reply_flags agree
reply_flags_sum f extra rcode authoritative =
    rw (and_opcode, and_rd, and_rcode)
      (or_table _ refl _ _ _ (omega arith) (omega arith) (omega arith))
reply_flags_sum f extra rcode relayed =
    rw (and_opcode, and_rd, and_rcode)
      (or_table _ refl _ _ _ (omega arith) (omega arith) (omega arith))

extra_cases : {extra : ℕ} → IsExtra extra → (extra ≡ 1152) ⊎ (extra ≡ 128)
extra_cases authoritative = inl refl
extra_cases relayed = inr refl

module _ (req h : Header) (extra rcode : ℕ) (known : IsExtra extra)
    (built : h.flags ≡ reply_flags req.flags extra rcode) where
  flags_sum :
      h.flags ≡ sum_of_fields (req.flags / 2 ^ 11 % 16) (req.flags / 2 ^ 8 % 2) extra (rcode % 16)
  flags_sum = built ∙ reply_flags_sum req.flags extra rcode known

  pub flags-reply-IsUint16 : IsUint16 h.flags
  flags-reply-IsUint16 = omega (arith, flags_sum, extra_cases known)

  -- The reply is marked as a response.
  pub response-reply : response h ≡ true
  unfolding response
  response-reply = ground (arith, and_qr h.flags, flags_sum, extra_cases known)

  pub rcode_of-reply : rcode_of h ≡ rcode % 16
  unfolding rcode_of
  rcode_of-reply = omega (arith, and_rcode h.flags, flags_sum, extra_cases known)

  -- The flags of a reply, with the extra flags that the program sets, keep the operation code and the
  -- wish for recursion of the request.
  pub opcode-reply : (opcode h ≡ opcode req) × (bit_and h.flags flag_rd ≡ bit_and req.flags flag_rd)
  unfolding opcode
  opcode-reply = (
    omega (
      arith,
      bit_and_ones 4 (h.flags / 2 ^ 11),
      bit_and_ones 4 (req.flags / 2 ^ 11),
      flags_sum,
      extra_cases known,
    ),
    omega (arith, and_rd h.flags, and_rd req.flags, flags_sum, extra_cases known),
  )
