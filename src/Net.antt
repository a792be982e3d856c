-- ===== src/Net.antt =====
-- The functions of Go's package net that the program calls on addresses: `net.ParseIP`, `IP.To4`,
-- `IP.To16`, `IP.Equal` and `IP.String`. A `net.IP` is its bytes, 4 or 16; `nil` is `none`.
pub mod Text6
pub mod V4
pub mod HostPort
pub mod Cidr
use Text6.{parse_ipv6, ipv6_string}
use local_dns.Base.{
  ℕ, zero, suc, ◌+◌, ◌-◌, ◌*◌, ◌/◌, ◌%◌, List, [], ◌∷◌, ◌++◌, Bool, true, false, not, ◌&&◌, ◌||◌,
  Bytes, Option, none, some, length, get_or, drop, take, slice, replicate, ltb, leb, ◌==◌, bytes_eq,
  if◌then◌else◌,
}
use local_dns.Base.Text.{contains}
use local_dns.Net.V4.{parse_fields}
use local_dns.Dnsmsg.Reverse.{decimal}

-- The ten zeros and two 0xff in front of an IPv4 address in 16 bytes.
abbrev pub v4_prefix : Bytes
v4_prefix = 0 ∷ 0 ∷ 0 ∷ 0 ∷ 0 ∷ 0 ∷ 0 ∷ 0 ∷ 0 ∷ 0 ∷ 255 ∷ 255 ∷ []

-- `net.ParseIP` goes by the first dot, colon or percent sign. An address with a zone is none.
unfoldable pub parse_by_first : Bytes → Bytes → Option Bytes
parse_by_first whole [] = none
parse_by_first whole (c ∷ s) =
    let rest = parse_by_first whole s in
    if c == b'.'
    then elim (parse_fields whole) [ none ↦ none | some fields ↦ some (v4_prefix ++ fields) ]
    else if c == b':'
    then (if contains b'%' whole then none else parse_ipv6 whole)
    else if c == b'%'
    then none
    else rest

unfoldable pub parse_ip : Bytes → Option Bytes
unfolding parse_by_first
parse_ip s = parse_by_first s s

unfoldable pub to4 : Bytes → Option Bytes
to4 ip =
    if length ip == 4
    then some ip
    else if length ip == 16 && bytes_eq (take 12 ip) v4_prefix
    then some (drop 12 ip)
    else none

unfoldable pub to16 : Bytes → Option Bytes
to16 ip =
    if length ip == 4 then some (v4_prefix ++ ip) else if length ip == 16 then some ip else none

-- `ip.Equal(x)`: an IPv4 address and the same in 16 bytes are equal.
unfoldable pub ip_equal : Bytes → Bytes → Bool
ip_equal ip x =
    if length ip == length x
    then bytes_eq ip x
    else if length ip == 4 && length x == 16
    then bytes_eq (v4_prefix ++ ip) x
    else if length ip == 16 && length x == 4
    then bytes_eq ip (v4_prefix ++ x)
    else false

-- The decimal form with dots.
unfoldable dotted_decimal : Bytes → Bytes
unfolding decimal
dotted_decimal [] = []
dotted_decimal (b ∷ []) = decimal b
dotted_decimal (b ∷ c ∷ ip) = decimal b ++ b'.' ∷ dotted_decimal (c ∷ ip)

unfoldable pub ip_string : Bytes → Bytes
unfolding to4 dotted_decimal
ip_string ip = elim (to4 ip) [ some v4 ↦ dotted_decimal v4 | none ↦ ipv6_string ip ]
