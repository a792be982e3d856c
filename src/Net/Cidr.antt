-- ===== src/Net/Cidr.antt =====
-- `net.ParseCIDR`, `IP.Mask` and `IPNet.Contains`. A mask of Go's `CIDRMask` is given by its ones.
use local_dns.Base.{
  ℕ, ◌+◌, ◌-◌, ◌*◌, ◌%◌, ◌^◌, [], ◌∷◌, Bool, false, ◌&&◌, ◌||◌, Bytes, Option, none, some, length,
  drop, take, ltb, leb, ◌==◌, bytes_eq, if◌then◌else◌,
}
use local_dns.Base.Text.{contains, is_empty}
use local_dns.Base.Text.Search.{cut}
use local_dns.Net.{parse_ip, to4, v4_prefix}

-- `net.IPNet`: the address, 4 or 16 bytes, and `Mask.Size()`, the ones and the bits.
pub record IpNet : Type 0 where
  pub ip : Bytes
  pub ones : ℕ
  pub bits : ℕ

-- `dtoi`, which reads the whole text: none if there is no digit, another byte, or a number of
-- 0xFFFFFF or more.
unfoldable dtoi_loop : Bytes → ℕ → Option ℕ
dtoi_loop [] n = some n
dtoi_loop (c ∷ s) n =
    let next = n * 10 + (c - b'0') in
    let rest = dtoi_loop s next in
    if ltb c b'0' || ltb b'9' c then none else if leb 0xFFFFFF next then none else rest

unfoldable dtoi : Bytes → Option ℕ
unfolding dtoi_loop
dtoi s = if is_empty s then none else dtoi_loop s 0

-- The bytes of an address under a mask with so many ones.
unfoldable pub masked : ℕ → Bytes → Bytes
masked ones [] = []
masked ones (b ∷ ip) = (if leb 8 ones then b else b - b % 2 ^ (8 - ones)) ∷ masked (ones - 8) ip

-- `netip.Addr.BitLen`: 32 for an address in dotted form.
unfoldable bit_len : Bytes → ℕ
unfolding contains
bit_len text = if contains b':' text then 128 else 32

-- `IP.Mask`: an IPv4 address in 16 bytes is taken in its 4 for a mask of 32 bits, and a mask of 128
-- bits that begins with 96 ones in its last 32 bits for an address of 4 bytes.
unfoldable pub ip_mask : Bytes → ℕ → ℕ → Option Bytes
unfolding masked
ip_mask ip ones bits =
    if bits == 128 && length ip == 4 && leb 96 ones
    then some (masked (ones - 96) ip)
    else let x =
        if bits == 32 && length ip == 16 && bytes_eq (take 12 ip) v4_prefix
        then drop 12 ip
        else ip in
      if 8 * length x == bits then some (masked ones x) else none

unfoldable pub parse_cidr : Bytes → Option (Bytes × IpNet)
unfolding cut dtoi bit_len ip_mask parse_ip
parse_cidr s = elim (cut b'/' s) [
  | none ↦ none
  | some (addr, mask) ↦ elim (parse_ip addr) [
    | none ↦ none
    | some ip ↦ elim (dtoi mask) [
      | none ↦ none
      | some n ↦ if ltb (bit_len addr) n then none else elim (ip_mask ip n (bit_len addr)) [
        | none ↦ none
        | some base ↦ some (ip, record { ip = base; ones = n; bits = bit_len addr })
      ]
    ]
  ]
]

-- An IPv4 address in its 4 bytes, another as it is.
unfoldable short : Bytes → Bytes
unfolding to4
short ip = elim (to4 ip) [ none ↦ ip | some v4 ↦ v4 ]

-- `IPNet.Contains`: of the same length, 4 or 16, and equal under the mask.
unfoldable pub contains_ip : IpNet → Bytes → Bool
unfolding short masked
contains_ip net ip =
    let base = short net.ip in
    let x = short ip in
    length x == length base
    && (if net.bits == 8 * length base
        then bytes_eq (masked net.ones base) (masked net.ones x)
        else if net.bits == 128 && length base == 4
        then bytes_eq (masked (net.ones - 96) base) (masked (net.ones - 96) x)
        else false)
