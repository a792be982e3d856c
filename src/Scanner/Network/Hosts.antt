-- ===== src/Scanner/Network/Hosts.antt =====
-- The hosts of a subnet.
use local_dns.Base.{
  ℕ, zero, suc, ◌+◌, ◌-◌, ◌*◌, ◌%◌, ◌^◌, ◌≤◌, ◌<◌, ◌≡◌, ap, ◌∙◌, List, [], ◌∷◌, map, true, false,
  ◌&&◌, ◌||◌, arith, leb, ltb, leb→le, leb→lt, get_or, le→ltb, ◌==◌, Bool-cases, inl, inr,
}
use native.Mathlib.Numerals.{towards_suc}
use local_dns.Net.{to4}
use local_dns.Net.Cidr.{ip_mask, masked}
use local_dns.Scanner.Network.{bytes_word, hosts_in_subnet, hosts_loop, word_bytes}

-- n numbers from lo on.
abbrev pub numbers : ℕ → ℕ → List ℕ
numbers lo zero = []
numbers lo (suc n) = lo ∷ numbers (lo + 1) n

-- The last byte of the mask: what is cleared, and what it leaves room for.
partial_byte : (ones a : ℕ) → ones < 8 → a < 256 → a - a % 2 ^ (8 - ones) + 2 ^ (8 - ones) ≤ 256
partial_byte zero a h k = omega arith
partial_byte (suc zero) a h k = omega arith
partial_byte (suc (suc zero)) a h k = omega arith
partial_byte (suc (suc (suc zero))) a h k = omega arith
partial_byte (suc (suc (suc (suc zero)))) a h k = omega arith
partial_byte (suc (suc (suc (suc (suc zero))))) a h k = omega arith
partial_byte (suc (suc (suc (suc (suc (suc zero)))))) a h k = omega arith
partial_byte (suc (suc (suc (suc (suc (suc (suc zero))))))) a h k = omega arith
partial_byte (suc (suc (suc (suc (suc (suc (suc (suc n)))))))) a h k = absurd (omega arith)

pow_up : (k : ℕ) → 2 ^ (k + 8) ≡ 256 * 2 ^ k
pow_up k = simp towards_suc (omega arith)

-- The value of the bytes under a mask, with the room that the mask leaves, byte by byte.
module _ (d : ℕ) (hd : d < 256) where
  room_one : (ones : ℕ) → ones ≤ 8 → get_or (masked ones (d ∷ [])) 0 0 + 2 ^ (8 - ones) ≤ 256
  unfolding masked
  room_one ones h = elim (Bool-cases (leb 8 ones)) [
    | inl full ↦ let e : ones ≡ 8 = omega (arith, leb→le 8 ones full) in rw (full, e) (omega arith)
    | inr part ↦ rw part (partial_byte ones d (leb→lt 8 ones part) hd)
  ]

module _ (c d : ℕ) (hc : c < 256) (hd : d < 256) where
  room_two :
      (ones : ℕ)
      → ones ≤ 16
      → get_or (masked ones (c ∷ d ∷ [])) 0 0 * 256
          + get_or (masked ones (c ∷ d ∷ [])) 1 0
          + 2 ^ (16 - ones)
        ≤ 65536
  unfolding masked
  room_two ones h = elim (Bool-cases (leb 8 ones)) [
    | inl full ↦
        let ih = room_one d hd (ones - 8) (omega arith) in
        let e : 16 - ones ≡ 8 - (ones - 8) = omega (arith, leb→le 8 ones full) in
        rw (full, e) (unfold masked in omega (arith, ih))
    | inr part ↦
        let less = leb→lt 8 ones part in
        let z : ones - 8 ≡ 0 = omega arith in
        let e : 16 - ones ≡ 8 - ones + 8 = omega arith in
        rw (part, z, e, pow_up (8 - ones)) (omega (arith, partial_byte ones c less hc))
  ]

module _ (b c d : ℕ) (hb : b < 256) (hc : c < 256) (hd : d < 256) where
  room_three :
      (ones : ℕ)
      → ones ≤ 24
      → get_or (masked ones (b ∷ c ∷ d ∷ [])) 0 0 * 65536
          + get_or (masked ones (b ∷ c ∷ d ∷ [])) 1 0 * 256
          + get_or (masked ones (b ∷ c ∷ d ∷ [])) 2 0
          + 2 ^ (24 - ones)
        ≤ 16777216
  unfolding masked
  room_three ones h = elim (Bool-cases (leb 8 ones)) [
    | inl full ↦
        let ih = room_two c d hc hd (ones - 8) (omega arith) in
        let e : 24 - ones ≡ 16 - (ones - 8) = omega (arith, leb→le 8 ones full) in
        rw (full, e) (unfold masked in omega (arith, ih))
    | inr part ↦
        let less = leb→lt 8 ones part in
        let z : ones - 8 ≡ 0 = omega arith in
        let e : 24 - ones ≡ 8 - ones + 8 + 8 = omega arith in
        rw (part, z, e, pow_up (8 - ones + 8), pow_up (8 - ones))
          (omega (arith, partial_byte ones b less hb))
  ]

module _ (a b c d : ℕ) (ha : a < 256) (hb : b < 256) (hc : c < 256) (hd : d < 256) where
  -- The addresses of a subnet fit below 2^32.
  room_four :
      (ones : ℕ)
      → ones ≤ 32
      → bytes_word (masked ones (a ∷ b ∷ c ∷ d ∷ [])) + 2 ^ (32 - ones) ≤ 2 ^ 32
  unfolding masked
  room_four ones h = elim (Bool-cases (leb 8 ones)) [
    | inl full ↦
        let ih = room_three b c d hb hc hd (ones - 8) (omega arith) in
        let e : 32 - ones ≡ 24 - (ones - 8) = omega (arith, leb→le 8 ones full) in
        rw (full, e) (unfold masked in omega (arith, ih))
    | inr part ↦
        let less = leb→lt 8 ones part in
        let z : ones - 8 ≡ 0 = omega arith in
        let e : 32 - ones ≡ 8 - ones + 8 + 8 + 8 = omega arith in
        rw (part, z, e, pow_up (8 - ones + 8 + 8), pow_up (8 - ones + 8), pow_up (8 - ones))
          (omega (arith, partial_byte ones a less ha))
  ]

-- The rounds behind the network address, up to the broadcast address.
hosts_loop-numbers :
    (left ones total base i : ℕ)
    → ones < 31
    → 0 < i
    → i + suc left ≡ total
    → base + total ≤ 2 ^ 32
    → hosts_loop (suc left) ones total base i ≡ map word_bytes (numbers (base + i) left)
unfolding hosts_loop
hosts_loop-numbers zero ones total base i h pos end fits = ground arith
hosts_loop-numbers (suc left) ones total base i h pos end fits =
    let ih = hosts_loop-numbers left ones total base (i + 1) h (omega arith) (omega arith) fits in
    let small : (base + i) % 2 ^ 32 ≡ base + i = omega arith in
    let next : base + (i + 1) ≡ base + i + 1 = omega arith in
    let inside : (ltb ones 31 && (i == 0 || i == total - 1)) ≡ false = ground arith in
    rw (inside, small)
      (ap (◌∷◌ (word_bytes (base + i))) (ih ∙ ap (λ k. map word_bytes (numbers k left)) next))

pow_pos : (k : ℕ) → 1 ≤ 2 ^ k
pow_pos zero = omega arith
pow_pos (suc k) = omega (arith, pow_pos k)

pow_two_up : (k : ℕ) → 2 ^ (k + 2) ≡ 4 * 2 ^ k
pow_two_up k = simp towards_suc (omega arith)

-- The first round passes over the network address.
hosts_loop-all :
    (total ones base : ℕ)
    → ones < 31
    → 2 ≤ total
    → base + total ≤ 2 ^ 32
    → hosts_loop total ones total base 0 ≡ map word_bytes (numbers (base + 1) (total - 2))
unfolding hosts_loop
hosts_loop-all zero ones base h two fits = absurd (omega arith)
hosts_loop-all (suc zero) ones base h two fits = absurd (omega arith)
hosts_loop-all (suc (suc n)) ones base h two fits =
    let rest =
      hosts_loop-numbers n ones (suc (suc n)) base (0 + 1) h (omega arith) (omega arith) fits in
    let size : suc (suc n) - 2 ≡ n = omega arith in
    let first : (ltb ones 31 && (0 == 0 || 0 == suc (suc n) - 1)) ≡ true = ground arith in
    rw (first, size) rest

-- The subnet of an IPv4 address under a mask of at most 30 ones that has at most so many hosts:
-- `hostsInSubnet` lists, in ascending order and each once, the addresses behind the network address
-- and before the broadcast address, which is the last one of the subnet; they fit into 32 bits.
pub hosts_in_subnet_lem :
    (a b c d ones max_hosts : ℕ)
    → a < 256
    → b < 256
    → c < 256
    → d < 256
    → ones ≤ 30
    → 2 ^ (32 - ones) - 2 ≤ max_hosts
    → (hosts_in_subnet (record { ip = a ∷ b ∷ c ∷ d ∷ []; ones = ones; bits = 32 }) max_hosts
        ≡ map word_bytes
            (numbers (bytes_word (masked ones (a ∷ b ∷ c ∷ d ∷ [])) + 1) (2 ^ (32 - ones) - 2)))
      × (bytes_word (masked ones (a ∷ b ∷ c ∷ d ∷ [])) + 2 ^ (32 - ones) ≤ 2 ^ 32)
unfolding hosts_in_subnet ip_mask to4 masked
hosts_in_subnet_lem a b c d ones max_hosts ha hb hc hd h few =
    let fits = room_four a b c d ha hb hc hd ones (omega arith) in
    let e : 32 - ones ≡ 30 - ones + 2 = omega arith in
    let big : 2 ≤ 2 ^ (32 - ones) =
      omega (arith, ap (λ k. 2 ^ k) e, pow_two_up (30 - ones), pow_pos (30 - ones)) in
    (
      rw (le→ltb max_hosts (2 ^ (32 - ones) - 2) few) (
          hosts_loop-all (2 ^ (32 - ones)) ones (bytes_word (masked ones (a ∷ b ∷ c ∷ d ∷ [])))
            (omega arith) big fits),
      fits,
    )
