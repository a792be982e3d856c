-- ===== src/Scanner/Network.antt =====
-- internal/scanner/netinfo.go: the subnet that a scan targets. What the kernel tells of the interfaces
-- and of the routes is given.
pub mod Hosts
use local_dns.Base.{
  ℕ, zero, suc, ◌+◌, ◌-◌, ◌*◌, ◌/◌, ◌%◌, ◌^◌, List, [], ◌∷◌, ◌++◌, Bool, true, false, not, ◌&&◌,
  ◌||◌, Bytes, Option, none, some, length, get_or, drop, ltb, leb, ◌==◌, bytes_eq, bit_and,
  if◌then◌else◌,
}
use local_dns.Base.Scan.{Reading, scan_lines, max_line}
use local_dns.Base.Text.{codes, is_empty, to_lower}
use local_dns.Base.Text.Search.{fields}
use local_dns.Net.{to4}
use local_dns.Net.Cidr.{IpNet, contains_ip, ip_mask, parse_cidr}

-- `net.Interface` with its addresses: `none` if they cannot be read, and in the list `none` for one
-- that is no `*net.IPNet`. `hardware` is `HardwareAddr.String()`.
pub record Iface : Type 0 where
  pub name : Bytes
  pub up : Bool
  pub loopback : Bool
  pub hardware : Bytes
  pub addrs : Option (List (Option IpNet))

-- `netContext`; `self_ip` may be nil.
pub record NetContext : Type 0 where
  pub iface_name : Bytes
  pub ipnet : IpNet
  pub self_ip : Option Bytes
  pub self_mac : Bytes

-- What the kernel tells: `net.Interfaces()` and `/proc/net/route`, with `none` for an error.
pub record Kernel : Type 0 where
  pub ifaces : Option (List Iface)
  pub route : Option Reading

-- `net.InterfaceByName`
unfoldable find_iface : Bytes → List Iface → Option Iface
find_iface name [] = none
find_iface name (ifi ∷ ifaces) =
    let rest = find_iface name ifaces in if bytes_eq ifi.name name then some ifi else rest

unfoldable iface_by_name : Bytes → Kernel → Option Iface
unfolding find_iface
iface_by_name name k = elim k.ifaces [ none ↦ none | some ifaces ↦ find_iface name ifaces ]

-- The first address that is an IPv4 one and passes a test: its 4 bytes and its `IPNet`.
unfoldable first_addr : (Bytes → Bool) → List (Option IpNet) → Option (Bytes × IpNet)
unfolding to4
first_addr test [] = none
first_addr test (none ∷ addrs) = first_addr test addrs
first_addr test (some ipn ∷ addrs) =
    let rest = first_addr test addrs in
    elim (to4 ipn.ip) [ none ↦ rest | some v4 ↦ if test v4 then some (v4, ipn) else rest ]

unfoldable first_addr_of : (Bytes → Bool) → Iface → Option (Bytes × IpNet)
unfolding first_addr
first_addr_of test ifi = elim ifi.addrs [ none ↦ none | some addrs ↦ first_addr test addrs ]

-- The function `try` of `fillSelf`: the context, if the interface has an address in the subnet.
unfoldable try_iface : NetContext → Iface → Option NetContext
unfolding first_addr_of contains_ip
try_iface nc ifi = elim (first_addr_of (contains_ip nc.ipnet) ifi) [
  | none ↦ none
  | some (v4, ipn) ↦
      some (record nc { iface_name = ifi.name; self_ip = some v4; self_mac = ifi.hardware })
]

-- The loop over all interfaces.
unfoldable try_all : NetContext → List Iface → NetContext
unfolding try_iface
try_all nc [] = nc
try_all nc (ifi ∷ ifaces) =
    let rest = try_all nc ifaces in
    if ifi.loopback || not ifi.up
    then rest
    else elim (try_iface nc ifi) [ some found ↦ found | none ↦ rest ]

unfoldable try_pinned : NetContext → Kernel → Option NetContext
unfolding iface_by_name try_iface
try_pinned nc k =
    if is_empty nc.iface_name
    then none
    else elim (iface_by_name nc.iface_name k) [ none ↦ none | some ifi ↦ try_iface nc ifi ]

unfoldable fill_self : Kernel → NetContext → NetContext
unfolding try_pinned try_all
fill_self k nc = elim (try_pinned nc k) [
  | some found ↦ found
  | none ↦ elim k.ifaces [ none ↦ nc | some ifaces ↦ try_all nc ifaces ]
]

-- `IsLinkLocalUnicast`, `IsLoopback` and `IsPrivate` of an IPv4 address.
abbrev is_link_local : Bytes → Bool
is_link_local v4 = get_or v4 0 0 == 169 && get_or v4 1 0 == 254

abbrev is_loopback : Bytes → Bool
is_loopback v4 = get_or v4 0 0 == 127

abbrev is_private : Bytes → Bool
is_private v4 =
    get_or v4 0 0 == 10
    || (get_or v4 0 0 == 172 && leb 16 (get_or v4 1 0) && leb (get_or v4 1 0) 31)
    || (get_or v4 0 0 == 192 && get_or v4 1 0 == 168)

unfoldable first_ipv4 : Iface → Option (Bytes × IpNet)
unfolding first_addr_of
first_ipv4 = first_addr_of (λ v4. not (is_link_local v4 || is_loopback v4))

-- The loop of `firstPrivateIface`.
unfoldable first_private : List Iface → Option Bytes
unfolding first_addr_of
first_private [] = none
first_private (ifi ∷ ifaces) =
    let rest = first_private ifaces in
    if ifi.loopback || not ifi.up
    then rest
    else elim (first_addr_of (λ v4. is_private v4) ifi) [ some _ ↦ some ifi.name | none ↦ rest ]

unfoldable first_private_iface : Kernel → Option Bytes
unfolding first_private
first_private_iface k = elim k.ifaces [ none ↦ none | some ifaces ↦ first_private ifaces ]

-- `v<<4 | d` in a `uint64`.
abbrev shift_in : ℕ → ℕ → ℕ
shift_in v d = v * 16 % 2 ^ 64 + d

-- The loop of `flagsSet` over the digits in lower case, and the test of the mask.
unfoldable flags_loop : ℕ → Bytes → ℕ → Bool
flags_loop mask [] v = not (bit_and v mask == 0)
flags_loop mask (c ∷ s) v = elim (leb b'0' c && leb c b'9') [
  | true ↦ flags_loop mask s (shift_in v (c - b'0'))
  | false ↦ elim (leb b'a' c && leb c b'f') [
    | true ↦ flags_loop mask s (shift_in v (c - b'a' + 10))
    | false ↦ false
  ]
]

unfoldable flags_set : Bytes → ℕ → Bool
unfolding flags_loop to_lower
flags_set hex mask = flags_loop mask (to_lower hex) 0

-- The loop over the lines behind the header.
unfoldable route_lines : List Bytes → Option Bytes
unfolding flags_set fields
route_lines [] = none
route_lines (line ∷ lines) =
    let words = fields line in
    let rest = route_lines lines in
    if ltb (length words) 4
    then rest
    else if bytes_eq (get_or words 1 []) (codes "00000000") && flags_set (get_or words 3 []) 1
    then some (get_or words 0 [])
    else rest

unfoldable default_route_iface : Option Reading → Option Bytes
unfolding route_lines scan_lines
default_route_iface none = none
default_route_iface (some r) = route_lines (drop 1 (scan_lines max_line r).lines)

-- The interface to take, if none is pinned.
unfoldable chosen_iface : Bytes → Kernel → Option Bytes
unfolding default_route_iface first_private_iface
chosen_iface pinned k =
    if not (is_empty pinned)
    then some pinned
    else elim (default_route_iface k.route) [ some name ↦ some name | none ↦ first_private_iface k ]

-- The context of an interface. `ip.Mask` gives nil for a mask of another length.
unfoldable context_of : Bytes → Iface → Option NetContext
unfolding first_ipv4 ip_mask
context_of name ifi = elim (first_ipv4 ifi) [
  | none ↦ none
  | some (ip, ipn) ↦
      let base = (elim (ip_mask ip ipn.ones ipn.bits) as (λ _. Bytes) [ none ↦ [] | some b ↦ b ]) in
      some (record {
        iface_name = name;
        ipnet = record { ip = base; ones = ipn.ones; bits = ipn.bits };
        self_ip = some ip;
        self_mac = ifi.hardware;
      })
]

-- `resolveNetwork`, with `none` for an error.
unfoldable pub resolve_network : Bytes → Bytes → Kernel → Option NetContext
unfolding fill_self chosen_iface iface_by_name context_of parse_cidr
resolve_network cidr iface k =
    if not (is_empty cidr)
    then elim (parse_cidr cidr) [
      | none ↦ none
      | some (ip, ipn) ↦
          some (
            fill_self k (record { iface_name = iface; ipnet = ipn; self_ip = none; self_mac = [] }))
    ]
    else elim (chosen_iface iface k) [
      | none ↦ none
      | some name ↦ elim (iface_by_name name k) [ none ↦ none | some ifi ↦ context_of name ifi ]
    ]

-- The bytes of a `uint32`, and the number of four bytes.
abbrev pub word_bytes : ℕ → Bytes
word_bytes v = (v / 2 ^ 24 % 256) ∷ (v / 2 ^ 16 % 256) ∷ (v / 2 ^ 8 % 256) ∷ (v % 256) ∷ []

abbrev pub bytes_word : Bytes → ℕ
bytes_word b = get_or b 0 0 * 2 ^ 24 + get_or b 1 0 * 2 ^ 16 + get_or b 2 0 * 2 ^ 8 + get_or b 3 0

-- The loop from `i`, with so many rounds left.
unfoldable pub hosts_loop : ℕ → ℕ → ℕ → ℕ → ℕ → List Bytes
hosts_loop zero ones total base i = []
hosts_loop (suc left) ones total base i =
    let rest = hosts_loop left ones total base (i + 1) in
    if ltb ones 31 && (i == 0 || i == total - 1)
    then rest
    else word_bytes ((base + i) % 2 ^ 32) ∷ rest

-- `hostsInSubnet`, with the empty list for nil.
unfoldable pub hosts_in_subnet : IpNet → ℕ → List Bytes
unfolding hosts_loop ip_mask to4
hosts_in_subnet ipn max_hosts =
    let total = 2 ^ (32 - ipn.ones) in
    if not (ipn.bits == 32)
    then []
    else if ltb max_hosts (total - 2)
    then []
    else elim (ip_mask ipn.ip ipn.ones ipn.bits) [
      | none ↦ []
      | some masked_ip ↦ elim (to4 masked_ip) [
        | none ↦ []
        | some base ↦ hosts_loop total ipn.ones total (bytes_word base) 0
      ]
    ]
