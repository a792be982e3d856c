-- ===== src/Config/Duration.antt =====
-- `time.ParseDuration`: nanoseconds. Go multiplies the digits behind a point by the unit in floating
-- point; here the product is exact and rounded down.
pub mod Fuel
use local_dns.Base.{
  ℕ, zero, suc, ◌+◌, ◌-◌, ◌*◌, ◌/◌, List, [], ◌∷◌, Bool, true, false, not, ◌&&◌, ◌||◌, Bytes,
  Option, none, some, length, drop, ltb, leb, ◌==◌, bytes_eq, if◌then◌else◌,
}
use local_dns.Base.Int.{ℤ, pos, negated}
use local_dns.Base.Text.{codes, is_empty}

abbrev top : ℕ
top = 9223372036854775808

abbrev is_digit : ℕ → Bool
is_digit c = leb b'0' c && leb c b'9'

-- `leadingInt`: the number, and the rest.
unfoldable leading_int : Bytes → ℕ → Option (ℕ × Bytes)
leading_int [] x = some (x, [])
leading_int (c ∷ s) x =
    let next = x * 10 + (c - b'0') in
    let rest = leading_int s next in
    if not (is_digit c)
    then some (x, c ∷ s)
    else if ltb (top / 10) x || ltb top next
    then none
    else rest

-- `leadingFraction`: the number and its scale; the digits behind an overflow are dropped.
unfoldable leading_fraction : Bytes → ℕ → ℕ → Bool → ℕ × ℕ × Bytes
leading_fraction [] x scale full = (x, scale, [])
leading_fraction (c ∷ s) x scale full =
    let next = x * 10 + (c - b'0') in
    let stop = full || ltb ((top - 1) / 10) x || ltb top next in
    let rest =
      leading_fraction s (if stop then x else next) (if stop then scale else scale * 10) stop in
    if is_digit c then rest else (x, scale, c ∷ s)

-- The letters of a unit, up to a digit or a point, and the rest.
unfoldable unit_of : Bytes → Bytes × Bytes
unit_of [] = ([], [])
unit_of (c ∷ s) =
    let (u, rest) = unit_of s in if c == b'.' || is_digit c then ([], c ∷ s) else (c ∷ u, rest)

-- `unitMap`
unfoldable unit_map : Bytes → Option ℕ
unit_map u =
    if bytes_eq u (codes "ns")
    then some 1
    else if bytes_eq u (codes "us")
        || bytes_eq u (0xC2 ∷ 0xB5 ∷ b's' ∷ [])
        || bytes_eq u (0xCE ∷ 0xBC ∷ b's' ∷ [])
    then some 1000
    else if bytes_eq u (codes "ms")
    then some 1000000
    else if bytes_eq u (codes "s")
    then some 1000000000
    else if bytes_eq u (codes "m")
    then some 60000000000
    else if bytes_eq u (codes "h")
    then some 3600000000000
    else none

-- The value of a number with a fraction in a unit.
unfoldable amount : ℕ → ℕ → ℕ → ℕ → Option ℕ
amount v f scale unit =
    if ltb (top / unit) v
    then none
    else let total = v * unit + f * unit / scale in
      if ltb 0 f && ltb top total then none else some total

unfoldable starts_with_dot : Bytes → Bool
starts_with_dot [] = false
starts_with_dot (c ∷ s) = c == b'.'

-- The digits behind a point, if there is one.
unfoldable fraction : Bytes → ℕ × ℕ × Bytes
unfolding leading_fraction starts_with_dot
fraction s = if starts_with_dot s then leading_fraction (drop 1 s) 0 1 false else (0, 1, s)

-- The unit, and the rest behind it.
unfoldable with_unit : ℕ → ℕ → ℕ → Bytes → Option (ℕ × Bytes)
unfolding unit_of unit_map amount
with_unit v f scale r = elim (unit_map (unit_of r).0) [
  | none ↦ none
  | some unit ↦ elim (amount v f scale unit) [ none ↦ none | some n ↦ some (n, (unit_of r).1) ]
]

-- What stands behind the whole number: the fraction, the unit, and the rest.
unfoldable after_int : Bool → ℕ → Bytes → Option (ℕ × Bytes)
unfolding fraction with_unit starts_with_dot
after_int pre v s =
    let (f, scale, r) = fraction s in
    let post = starts_with_dot s && not (length r == length (drop 1 s)) in
    if not pre && not post then none else with_unit v f scale r

-- One round of the loop: a number with a unit.
unfoldable term : Bytes → Option (ℕ × Bytes)
unfolding leading_int after_int
term [] = none
term (c ∷ s) = if not (c == b'.' || is_digit c) then none else elim (leading_int (c ∷ s) 0) [
  | none ↦ none
  | some (v, r) ↦ after_int (not (length r == length (c ∷ s))) v r
]

-- The loop, with a round for each byte.
unfoldable terms : ℕ → Bytes → ℕ → Option ℕ
unfolding term
terms fuel [] d = some d
terms zero (c ∷ s) d = none
terms (suc fuel) (c ∷ s) d = elim (term (c ∷ s)) [
  | none ↦ none
  | some (n, rest) ↦ if ltb top (d + n) then none else terms fuel rest (d + n)
]

-- The sign, and what follows it.
unfoldable sign : Bytes → Bool × Bytes
sign [] = (false, [])
sign (c ∷ s) = if c == b'-' || c == b'+' then (c == b'-', s) else (false, c ∷ s)

unfoldable pub parse_duration : Bytes → Option ℤ
unfolding sign terms negated
parse_duration s =
    let (neg, r) = sign s in
    if bytes_eq r (codes "0")
    then some (pos 0)
    else if is_empty r
    then none
    else elim (terms (length r) r 0) [
      | none ↦ none
      | some d ↦ if neg then some (negated d) else if leb top d then none else some (pos d)
    ]
