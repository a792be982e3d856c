-- ===== src/Net/Text6.antt =====
-- IPv6 addresses as text: `parseIPv6` and `Addr.string6` of Go's package net/netip.
use local_dns.Base.{
  ℕ, zero, suc, ◌+◌, ◌-◌, ◌*◌, ◌/◌, ◌%◌, List, [], ◌∷◌, ◌++◌, Bool, true, false, not, ◌&&◌, ◌||◌,
  Bytes, Option, none, some, length, get_or, drop, take, replicate, ltb, ◌==◌, if◌then◌else◌,
}
use local_dns.Base.Text.{is_empty}
use local_dns.Names.{hex_value, hex_digit}
use local_dns.Net.V4.{parse_fields}

-- The hexadecimal digits in front: their value, their number and what follows. A fifth digit, or a
-- value above 16 bits, is an error.
unfoldable read_hex : Bytes → ℕ → ℕ → Option (ℕ × ℕ × Bytes)
read_hex [] acc off = some (acc, off, [])
read_hex (c ∷ s) acc off = elim (hex_value c) [
  | none ↦ some (acc, off, c ∷ s)
  | some d ↦ if ltb 3 off then none else read_hex s (acc * 16 + d) (off + 1)
]

-- The bytes read, and the place of the ellipsis among them.
abbrev Groups : Type 0
Groups = Bytes × Option ℕ

-- `s[0]` behind a group of digits: the end, a colon, or an ellipsis.
abbrev Rest : Type 0
Rest = Option (Bytes × Option ℕ × Bool)

-- What stands behind a group: the text to go on with, the ellipsis, and whether the loop ends.
unfoldable after_group : Bytes → Option ℕ → ℕ → Rest
after_group [] ellipsis i = some ([], ellipsis, true)
after_group (c ∷ []) ellipsis i = none
after_group (c ∷ d ∷ s) none i =
    if not (c == b':')
    then none
    else if d == b':'
    then some (s, some i, is_empty s)
    else some (d ∷ s, none, false)
after_group (c ∷ d ∷ s) (some at) i =
    if not (c == b':') then none else if d == b':' then none else some (d ∷ s, some at, false)

-- The loop over the groups, with a round for each two bytes that are left. What is left of the text
-- when sixteen bytes are read is an error.
unfoldable read_groups : ℕ → Bytes → Bytes → Option ℕ → Option Groups
read_groups zero s ip ellipsis = if is_empty s then some (ip, ellipsis) else none
read_groups (suc rounds) s ip ellipsis = elim (read_hex s 0 0) [
  | none ↦ none
  | some (acc, off, rest) ↦
      if off == 0
      then none
      else if get_or rest 0 0 == b'.'
      then (if (elim ellipsis [ none ↦ not (length ip == 12) | some _ ↦ false ])
            || ltb 12 (length ip)
          then none
          else elim (parse_fields s) [ none ↦ none | some fields ↦ some (ip ++ fields, ellipsis) ])
      else elim (after_group rest ellipsis (length ip + 2)) [
        | none ↦ none
        | some (s', ellipsis', done) ↦
            let ip' = ip ++ (acc / 256) ∷ (acc % 256) ∷ [] in
            elim done [ true ↦ some (ip', ellipsis') | false ↦ read_groups rounds s' ip' ellipsis' ]
      ]
]

-- The zeros that the ellipsis stands for.
unfoldable expand : Groups → Option Bytes
expand (ip, none) = if length ip == 16 then some ip else none
expand (ip, some at) =
    if length ip == 16
    then none
    else some (take at ip ++ (replicate (16 - length ip) 0 ++ drop at ip))

unfoldable pub parse_ipv6 : Bytes → Option Bytes
unfolding read_hex after_group read_groups expand
parse_ipv6 s =
    if get_or s 0 0 == b':' && get_or s 1 0 == b':'
    then (if length s == 2
        then some (replicate 16 0)
        else elim (read_groups 8 (drop 2 s) [] (some 0)) [ none ↦ none | some g ↦ expand g ])
    else elim (read_groups 8 s [] none) [ none ↦ none | some g ↦ expand g ]

-- The groups of two bytes.
unfoldable groups : Bytes → List ℕ
groups [] = []
groups (a ∷ []) = []
groups (a ∷ b ∷ ip) = (a * 256 + b) ∷ groups ip

-- How many zero groups stand in front.
unfoldable zero_run : List ℕ → ℕ
zero_run [] = 0
zero_run (g ∷ gs) = let rest = zero_run gs in if g == 0 then suc rest else 0

-- The first of the longest runs of zero groups, with its length.
unfoldable longest_run : ℕ → List ℕ → ℕ × ℕ
unfolding zero_run
longest_run i [] = (i, 0)
longest_run i (g ∷ gs) =
    let (at, len) = longest_run (i + 1) gs in
    if ltb (zero_run (g ∷ gs)) len then (at, len) else (i, zero_run (g ∷ gs))

-- A group without leading zeros.
unfoldable hex_group : ℕ → Bytes
hex_group g =
    if ltb g 16
    then hex_digit g ∷ []
    else if ltb g 256
    then hex_digit (g / 16) ∷ hex_digit (g % 16) ∷ []
    else if ltb g 4096
    then hex_digit (g / 256) ∷ hex_digit (g / 16 % 16) ∷ hex_digit (g % 16) ∷ []
    else hex_digit (g / 4096)
      ∷ hex_digit (g / 256 % 16)
      ∷ hex_digit (g / 16 % 16)
      ∷ hex_digit (g % 16)
      ∷ []

unfoldable join_groups : List ℕ → Bytes
unfolding hex_group
join_groups [] = []
join_groups (g ∷ []) = hex_group g
join_groups (g ∷ h ∷ gs) = hex_group g ++ b':' ∷ join_groups (h ∷ gs)

-- A run of two zero groups or more is written as `::`.
unfoldable pub ipv6_string : Bytes → Bytes
unfolding groups longest_run join_groups
ipv6_string ip =
    let gs = groups ip in
    let (at, len) = longest_run 0 gs in
    if ltb len 2
    then join_groups gs
    else join_groups (take at gs) ++ b':' ∷ b':' ∷ join_groups (drop (at + len) gs)
