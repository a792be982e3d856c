-- ===== src/Names.antt =====
-- internal/names/names.go: host names and MAC addresses. The error texts of the source are the
-- constructors of `Problem`; `net.ParseMAC` and `HardwareAddr.String` are Go's.
pub mod Valid
pub mod Mac
use local_dns.Base.{
  ℕ, zero, suc, ◌+◌, ◌-◌, ◌*◌, ◌/◌, ◌%◌, List, [], ◌∷◌, ◌++◌, Bool, true, false, not, ◌&&◌, ◌||◌,
  Bytes, Option, none, some, Outcome, ok, err, length, get_or, drop, take, ltb, leb, ◌==◌,
  if◌then◌else◌,
}
use local_dns.Base.Text.{is_empty, is_dot, split, to_lower, trim, trim_space}

pub data Problem : Type 0 where
  empty_name long_name missing_label long_label bad_character edge_hyphen bad_mac : Problem

-- `c == '-' || ('a' <= c && c <= 'z') || ('0' <= c && c <= '9')`
unfoldable pub is_host_char : ℕ → Bool
is_host_char c = c == b'-' || (leb b'a' c && leb c b'z') || (leb b'0' c && leb c b'9')

-- The loop over the bytes of a label.
unfoldable pub all_host_chars : Bytes → Bool
all_host_chars [] = true
all_host_chars (c ∷ label) = is_host_char c && all_host_chars label

-- The checks of one label.
unfoldable pub check_label : Bytes → Option Problem
unfolding all_host_chars is_host_char
check_label label =
    if is_empty label
    then some missing_label
    else if ltb 63 (length label)
    then some long_label
    else if not (all_host_chars label)
    then some bad_character
    else if get_or label 0 0 == b'-' || get_or label (length label - 1) 0 == b'-'
    then some edge_hyphen
    else none

-- The loop over the labels.
unfoldable pub check_labels : List Bytes → Option Problem
check_labels [] = none
check_labels (label ∷ labels) = elim (check_label label) [
  | none ↦ check_labels labels
  | some problem ↦ some problem
]

-- `ValidateLabels`: the first problem, or `none` for `nil`.
unfoldable pub validate_labels : Bytes → Option Problem
validate_labels name =
    if is_empty name
    then some empty_name
    else if ltb 200 (length name)
    then some long_name
    else check_labels (split b'.' name)

unfoldable pub normalize : Bytes → Bytes
normalize name = trim is_dot (to_lower (trim_space name))

-- The value of a hexadecimal digit.
unfoldable pub hex_value : ℕ → Option ℕ
hex_value c =
    if leb b'0' c && leb c b'9'
    then some (c - b'0')
    else if leb b'a' c && leb c b'f'
    then some (c - b'a' + 10)
    else if leb b'A' c && leb c b'F'
    then some (c - b'A' + 10)
    else none

-- `xtoi2(s, e)` of package net: two digits, and then `e` or the end.
unfoldable pub xtoi2 : Bytes → ℕ → Option ℕ
xtoi2 s e =
    if ltb 2 (length s) && not (get_or s 2 0 == e) then none else elim (hex_value (get_or s 0 0)) [
      | none ↦ none
      | some h ↦ elim (hex_value (get_or s 1 0)) [ none ↦ none | some l ↦ some (h * 16 + l) ]
    ]

-- The loop of `net.ParseMAC` over pairs of digits with a separator between them.
unfoldable pub parse_pairs : ℕ → ℕ → Bytes → Option Bytes
parse_pairs zero sep s = some []
parse_pairs (suc n) sep s = elim (xtoi2 s sep) [
  | none ↦ none
  | some b ↦ elim (parse_pairs n sep (drop 3 s)) [ none ↦ none | some hw ↦ some (b ∷ hw) ]
]

-- The loop over groups of four digits with a dot between them.
unfoldable pub parse_quads : ℕ → Bytes → Option Bytes
parse_quads zero s = some []
parse_quads (suc n) s = elim (xtoi2 (take 2 s) 0) [
  | none ↦ none
  | some a ↦ elim (xtoi2 (drop 2 s) b'.') [
    | none ↦ none
    | some b ↦ elim (parse_quads n (drop 5 s)) [ none ↦ none | some hw ↦ some (a ∷ b ∷ hw) ]
  ]
]

-- The lengths of an address that `net.ParseMAC` knows.
abbrev is_mac_length : ℕ → Bool
is_mac_length n = n == 6 || n == 8 || n == 20

unfoldable pub parse_mac : Bytes → Option Bytes
parse_mac s =
    let sep = get_or s 2 0 in
    let pairs = (length s + 1) / 3 in
    let bytes = 2 * (length s + 1) / 5 in
    if ltb (length s) 14
    then none
    else if sep == b':' || sep == b'-'
    then (if not ((length s + 1) % 3 == 0) || not (is_mac_length pairs)
        then none
        else parse_pairs pairs sep s)
    else if get_or s 4 0 == b'.'
    then (if not ((length s + 1) % 5 == 0) || not (is_mac_length bytes)
        then none
        else parse_quads (bytes / 2) s)
    else none

unfoldable pub hex_digit : ℕ → ℕ
hex_digit n = if ltb n 10 then b'0' + n else b'a' + n - 10

-- `HardwareAddr.String`
unfoldable pub mac_string : Bytes → Bytes
mac_string [] = []
mac_string (b ∷ []) = hex_digit (b / 16) ∷ hex_digit (b % 16) ∷ []
mac_string (b ∷ c ∷ hw) = hex_digit (b / 16) ∷ hex_digit (b % 16) ∷ b':' ∷ mac_string (c ∷ hw)

unfoldable pub normalize_mac : Bytes → Outcome Problem Bytes
normalize_mac s = elim (parse_mac (trim_space s)) [
  | none ↦ err bad_mac
  | some hw ↦ if length hw == 6 then ok (mac_string hw) else err bad_mac
]
