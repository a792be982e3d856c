-- ===== src/Names/Mac.antt =====
-- The canonical form of a MAC address.
use local_dns.Base.{
  ℕ, zero, suc, ◌+◌, ◌*◌, ◌/◌, ◌%◌, ◌<◌, ◌≡◌, refl, ap, [], ◌∷◌, false, Bytes, Option, none, some,
  ok, All, length, get_or, take, drop, ◌⊎◌, arith, Option-cases, inl, inr,
}
use local_dns.Base.Bits.{agree, agree→eq}
use local_dns.Base.Text.{is_space, trim_space}
use local_dns.Base.Text.Trim.{trim_lacking}
use local_dns.Names.{
  hex_value, hex_digit, xtoi2, parse_pairs, parse_quads, parse_mac, mac_string, normalize_mac,
}

abbrev IsByte : ℕ → Type 0
IsByte b = b < 256

as_number : Option ℕ → ℕ
as_number none = 256
as_number (some n) = n

some_of_number : (o : Option ℕ) (n : ℕ) → n < 256 → as_number o ≡ n → o ≡ some n
unfolding as_number
some_of_number none n h e = absurd (omega arith)
some_of_number (some m) n h e = ap some e

hex_value-hex_digit : (n : ℕ) → n < 16 → hex_value (hex_digit n) ≡ some n
unfolding as_number agree hex_value hex_digit
hex_value-hex_digit n h =
    some_of_number (hex_value (hex_digit n)) n (omega arith)
      (agree→eq (λ k. as_number (hex_value (hex_digit k))) (λ k. k) 16 refl n h)

hex_digit-space : (n : ℕ) → n < 16 → is_space (hex_digit n) ≡ false
unfolding hex_digit
hex_digit-space n h = ground arith

-- Two digits and a colon, or the last two digits.
xtoi2-pair :
    (b : ℕ) (s : Bytes)
    → IsByte b
    → xtoi2 (hex_digit (b / 16) ∷ hex_digit (b % 16) ∷ b':' ∷ s) b':' ≡ some b
unfolding xtoi2
xtoi2-pair b s h = ground (arith, hex_value-hex_digit (b / 16), hex_value-hex_digit (b % 16))

xtoi2-last : (b : ℕ) → IsByte b → xtoi2 (hex_digit (b / 16) ∷ hex_digit (b % 16) ∷ []) b':' ≡ some b
unfolding xtoi2
xtoi2-last b h = ground (arith, hex_value-hex_digit (b / 16), hex_value-hex_digit (b % 16))

parse_pairs_step :
    (n sep : ℕ) (s : Bytes) (b : ℕ) (hw : Bytes)
    → xtoi2 s sep ≡ some b
    → parse_pairs n sep (drop 3 s) ≡ some hw
    → parse_pairs (suc n) sep s ≡ some (b ∷ hw)
unfolding parse_pairs
parse_pairs_step n sep s b hw e k = ground arith

parse_pairs-mac_string :
    (hw : Bytes) → All IsByte hw → parse_pairs (length hw) b':' (mac_string hw) ≡ some hw
unfolding mac_string
parse_pairs-mac_string [] h = unfold parse_pairs in refl
parse_pairs-mac_string (b ∷ []) (h, _) =
    parse_pairs_step 0 b':' (mac_string (b ∷ [])) b [] (xtoi2-last b h) (unfold parse_pairs in refl)
parse_pairs-mac_string (b ∷ c ∷ hw) (h, hs) =
    parse_pairs_step (suc (length hw)) b':' (mac_string (b ∷ c ∷ hw)) b (c ∷ hw)
      (xtoi2-pair b (mac_string (c ∷ hw)) h) (parse_pairs-mac_string (c ∷ hw) hs)

-- An address of six bytes is read back from its print.
parse_mac-mac_string :
    (hw : Bytes) → length hw ≡ 6 → All IsByte hw → parse_mac (mac_string hw) ≡ some hw
unfolding parse_mac mac_string
parse_mac-mac_string (a ∷ b ∷ c ∷ d ∷ e ∷ f ∷ []) len h =
    parse_pairs-mac_string (a ∷ b ∷ c ∷ d ∷ e ∷ f ∷ []) h
parse_mac-mac_string _ len h = absurd (omega arith)

mac_string-space : (hw : Bytes) → All IsByte hw → All (λ c. is_space c ≡ false) (mac_string hw)
unfolding mac_string
mac_string-space [] h = tt
mac_string-space (b ∷ []) (h, _) =
    (hex_digit-space (b / 16) (omega arith), (hex_digit-space (b % 16) (omega arith), tt))
mac_string-space (b ∷ c ∷ hw) (h, hs) = (
  hex_digit-space (b / 16) (omega arith),
  (hex_digit-space (b % 16) (omega arith), (refl, mac_string-space (c ∷ hw) hs)),
)

hex_value-lt : (c n : ℕ) → hex_value c ≡ some n → n < 16
unfolding hex_value
hex_value-lt c n h = ground arith

xtoi2-IsByte : (s : Bytes) (e b : ℕ) → xtoi2 s e ≡ some b → IsByte b
unfolding xtoi2
xtoi2-IsByte s e b h = elim (Option-cases (hex_value (get_or s 0 0))) [
  | inl no_high ↦ ground arith
  | inr (high, eh) ↦ elim (Option-cases (hex_value (get_or s 1 0))) [
    | inl no_low ↦ ground arith
    | inr (low, el) ↦
        ground (arith, hex_value-lt (get_or s 0 0) high eh, hex_value-lt (get_or s 1 0) low el)
  ]
]

parse_pairs-IsByte : (n sep : ℕ) (s hw : Bytes) → parse_pairs n sep s ≡ some hw → All IsByte hw
unfolding parse_pairs
parse_pairs-IsByte zero sep s hw h = let e : [] ≡ hw = cc in rw (← e) tt
parse_pairs-IsByte (suc n) sep s hw h = elim (Option-cases (xtoi2 s sep)) [
  | inl cut ↦ ground arith
  | inr (b, eb) ↦ elim (Option-cases (parse_pairs n sep (drop 3 s))) [
    | inl cut ↦ ground arith
    | inr (rest, er) ↦
        let e : hw ≡ b ∷ rest = ground arith in
        rw e (xtoi2-IsByte s sep b eb, parse_pairs-IsByte n sep (drop 3 s) rest er)
  ]
]

parse_quads-IsByte : (n : ℕ) (s hw : Bytes) → parse_quads n s ≡ some hw → All IsByte hw
unfolding parse_quads
parse_quads-IsByte zero s hw h = let e : [] ≡ hw = cc in rw (← e) tt
parse_quads-IsByte (suc n) s hw h = elim (Option-cases (xtoi2 (take 2 s) 0)) [
  | inl cut ↦ ground arith
  | inr (a, ea) ↦ elim (Option-cases (xtoi2 (drop 2 s) b'.')) [
    | inl cut ↦ ground arith
    | inr (b, eb) ↦ elim (Option-cases (parse_quads n (drop 5 s))) [
      | inl cut ↦ ground arith
      | inr (rest, er) ↦
          let e : hw ≡ a ∷ b ∷ rest = ground arith in
          rw e (
            xtoi2-IsByte (take 2 s) 0 a ea,
            (xtoi2-IsByte (drop 2 s) b'.' b eb, parse_quads-IsByte n (drop 5 s) rest er),
          )
    ]
  ]
]

parse_mac-IsByte : (s hw : Bytes) → parse_mac s ≡ some hw → All IsByte hw
unfolding parse_mac
parse_mac-IsByte s hw h =
    let sep = get_or s 2 0 in
    let pairs = (length s + 1) / 3 in
    let quads = 2 * (length s + 1) / 5 / 2 in
    let run : (parse_pairs pairs sep s ≡ some hw) ⊎ (parse_quads quads s ≡ some hw) =
      ground arith in
    elim run [
      | inl e ↦ parse_pairs-IsByte pairs sep s hw e
      | inr e ↦ parse_quads-IsByte quads s hw e
    ]

-- The canonical form: six bytes in lower-case hexadecimal with colons between them.
pub record IsMac (m : Bytes) : Type 0 where
  pub hw : Bytes
  pub six : length hw ≡ 6
  pub bytes : All IsByte hw
  pub text : m ≡ mac_string hw

-- What `NormalizeMAC` returns is in canonical form, and is returned as it is when it is given again.
pub normalize_mac-IsMac : (s m : Bytes) → normalize_mac s ≡ ok m → IsMac m
unfolding normalize_mac
normalize_mac-IsMac s m h = elim (Option-cases (parse_mac (trim_space s))) [
  | inl bad ↦ ground arith
  | inr (hw, e) ↦ record {
    hw = hw;
    six = ground arith;
    bytes = parse_mac-IsByte (trim_space s) hw e;
    text = ground arith;
  }
]

normalize_mac_six :
    (s hw : Bytes)
    → parse_mac (trim_space s) ≡ some hw
    → length hw ≡ 6
    → normalize_mac s ≡ ok (mac_string hw)
unfolding normalize_mac
normalize_mac_six s hw e len = ground arith

trim_space-mac_string : (hw : Bytes) → All IsByte hw → trim_space (mac_string hw) ≡ mac_string hw
unfolding trim_space
trim_space-mac_string hw h = trim_lacking is_space (mac_string hw) (mac_string-space hw h)

-- An address in canonical form is its own canonical form.
pub normalize_mac_canonical : (m : Bytes) → IsMac m → normalize_mac m ≡ ok m
normalize_mac_canonical m v = rw v.text (
    normalize_mac_six (mac_string v.hw) v.hw
      (rw (trim_space-mac_string v.hw v.bytes) (parse_mac-mac_string v.hw v.six v.bytes)) v.six)

-- `NormalizeMAC` returns an address in canonical form, and the same when it is given that again.
pub normalize_mac_idem : (s m : Bytes) → normalize_mac s ≡ ok m → IsMac m × (normalize_mac m ≡ ok m)
normalize_mac_idem s m h =
    let canonical = normalize_mac-IsMac s m h in (canonical, normalize_mac_canonical m canonical)
