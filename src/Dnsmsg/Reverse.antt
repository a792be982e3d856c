-- ===== src/Dnsmsg/Reverse.antt =====
-- dnsmsg.go: `ReverseName` and `ParseReverseName`.
pub mod RoundTrip
use local_dns.Base.{
  ℕ, zero, suc, ◌+◌, ◌-◌, ◌*◌, ◌/◌, ◌%◌, List, [], ◌∷◌, ◌++◌, Bytes, Option, none, some, length,
  replicate, ltb, leb, ◌==◌, not, if◌then◌else◌, ◌||◌,
}
use local_dns.Base.Text.{codes, split, has_suffix, trim_suffix}

-- What `%d` prints for a byte.
unfoldable pub decimal : ℕ → Bytes
decimal n =
    if ltb n 10
    then (b'0' + n) ∷ []
    else if ltb n 100
    then (b'0' + n / 10) ∷ (b'0' + n % 10) ∷ []
    else (b'0' + n / 100) ∷ (b'0' + n / 10 % 10) ∷ (b'0' + n % 10) ∷ []

abbrev pub suffix : Bytes
suffix = codes ".in-addr.arpa"

unfoldable pub reverse_name : Bytes → Bytes
reverse_name (a ∷ b ∷ c ∷ d ∷ []) =
    decimal d ++ (b'.' ∷ (decimal c ++ (b'.' ∷ (decimal b ++ (b'.' ∷ (decimal a ++ suffix))))))
reverse_name ip4 = []

-- The loop over the characters of a part.
unfoldable pub read_digits : Bytes → ℕ → Option ℕ
read_digits [] n = some n
read_digits (c ∷ p) n =
    let rest = read_digits p (n * 10 + (c - b'0')) in
    if ltb c b'0' || ltb b'9' c then none else rest

unfoldable pub read_octet : Bytes → Option ℕ
unfolding read_digits
read_octet p =
    if length p == 0 || ltb 3 (length p)
    then none
    else elim (read_digits p 0) [ none ↦ none | some n ↦ if ltb 255 n then none else some n ]

-- `ip[i] = n`
abbrev pub set : Bytes → ℕ → ℕ → Bytes
set [] i v = []
set (x ∷ xs) zero v = v ∷ xs
set (x ∷ xs) (suc i) v = x ∷ set xs i v

-- The loop over the parts, from the index `i` on.
unfoldable pub read_octets : List Bytes → ℕ → Bytes → Option Bytes
read_octets [] i ip = some ip
read_octets (p ∷ parts) i ip = elim (read_octet p) [
  | none ↦ none
  | some n ↦ read_octets parts (i + 1) (set ip (3 - i) n)
]

unfoldable pub parse_reverse_name : Bytes → Option Bytes
parse_reverse_name name =
    let parts = split b'.' (trim_suffix name suffix) in
    if not (has_suffix name suffix)
    then none
    else if not (length parts == 4)
    then none
    else read_octets parts 0 (replicate 4 0)
