-- ===== src/Scanner/Arp.antt =====
-- internal/scanner/arp.go: the kernel's table of neighbours.
use local_dns.Base.{
  ℕ, ◌/◌, ◌%◌, ◌^◌, List, [], ◌∷◌, Bool, false, not, ◌||◌, Bytes, Option, none, some, length, ltb,
  ◌==◌, bytes_eq, if◌then◌else◌, get_or, drop,
}
use local_dns.Base.Scan.{Reading, scan_lines, max_line}
use local_dns.Base.Text.{codes, to_lower, trim_prefix}
use local_dns.Base.Text.Search.{fields, parse_uint}

pub record Neighbor : Type 0 where
  pub ip : Bytes
  pub mac : Bytes
  pub dev : Bytes

-- `strconv.ParseUint(strings.TrimPrefix(s, "0x"), 16, 32)`
unfoldable pub hex_field : Bytes → Option ℕ
unfolding parse_uint trim_prefix
hex_field s = parse_uint 16 (2 ^ 32) (trim_prefix s (codes "0x"))

abbrev is_ether : Option ℕ → Bool
is_ether none = false
is_ether (some n) = n == 1

-- `flags&atfCom != 0`, where `atfCom` is 2.
abbrev is_complete : Option ℕ → Bool
is_complete none = false
is_complete (some n) = n / 2 % 2 == 1

abbrev zero_mac : Bytes
zero_mac = codes "00:00:00:00:00:00"

abbrev broadcast_mac : Bytes
broadcast_mac = codes "ff:ff:ff:ff:ff:ff"

-- The entry of one line, if it is complete.
unfoldable pub neighbor_of : List Bytes → Option Neighbor
unfolding hex_field to_lower
neighbor_of words =
    let mac = to_lower (get_or words 3 []) in
    if ltb (length words) 6
    then none
    else if not (is_ether (hex_field (get_or words 1 [])))
    then none
    else if not (is_complete (hex_field (get_or words 2 [])))
    then none
    else if bytes_eq mac zero_mac || bytes_eq mac broadcast_mac
    then none
    else some (record { ip = get_or words 0 []; mac = mac; dev = get_or words 5 [] })

-- The loop over the lines behind the header.
unfoldable pub read_neighbors : List Bytes → List Neighbor
unfolding neighbor_of fields
read_neighbors [] = []
read_neighbors (line ∷ lines) =
    let rest = read_neighbors lines in
    elim (neighbor_of (fields line)) [ none ↦ rest | some n ↦ n ∷ rest ]

unfoldable pub parse_arp_table : Reading → List Neighbor
unfolding read_neighbors scan_lines
parse_arp_table r = read_neighbors (drop 1 (scan_lines max_line r).lines)

-- `readARPTable`, with `none` for a file that cannot be opened.
unfoldable pub read_arp_table : Option Reading → Option (List Neighbor)
unfolding parse_arp_table
read_arp_table none = none
read_arp_table (some r) = some (parse_arp_table r)
