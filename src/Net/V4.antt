-- ===== src/Net/V4.antt =====
-- `parseIPv4Fields` of Go's package net/netip: four decimal fields with dots between them, without
-- leading zeros.
use local_dns.Base.{
  ℕ, ◌+◌, ◌-◌, ◌*◌, List, [], ◌∷◌, ◌&&◌, ◌||◌, Bytes, Option, none, some, length, ltb, ◌==◌,
  if◌then◌else◌,
}
use local_dns.Base.Text.{split}

-- One field, digit by digit: the value so far and the number of its digits.
unfoldable read_field : Bytes → ℕ → ℕ → Option ℕ
read_field [] val digits = if digits == 0 then none else some val
read_field (c ∷ s) val digits =
    let next = val * 10 + (c - b'0') in
    let rest = read_field s next (digits + 1) in
    if ltb c b'0' || ltb b'9' c
    then none
    else if digits == 1 && val == 0
    then none
    else if ltb 255 next
    then none
    else rest

unfoldable read_fields : List Bytes → Option Bytes
unfolding read_field
read_fields [] = some []
read_fields (p ∷ ps) = elim (read_field p 0 0) [
  | none ↦ none
  | some n ↦ elim (read_fields ps) [ none ↦ none | some ns ↦ some (n ∷ ns) ]
]

-- Go reads the text once and counts the fields; an empty field is refused at its dot. That accepts
-- the texts that split at the dots into four fields.
unfoldable pub parse_fields : Bytes → Option Bytes
unfolding read_fields split
parse_fields s = if length (split b'.' s) == 4 then read_fields (split b'.' s) else none
