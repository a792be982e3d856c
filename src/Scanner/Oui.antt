-- ===== src/Scanner/Oui.antt =====
-- internal/scanner/oui.go: vendors by the first three bytes of a MAC address.
pub mod First
use local_dns.Base.{
  ℕ, suc, ◌+◌, ◌-◌, List, [], ◌∷◌, ◌++◌, Bool, true, false, not, ◌&&◌, ◌||◌, Bytes, Option, none,
  some, length, drop, take, leb, ◌==◌, if◌then◌else◌,
}
use local_dns.Base.Scan.{Reading, scan_lines}
use local_dns.Base.Text.{codes, contains, has_prefix, is_empty, split, trim_prefix, trim_space}
use local_dns.Base.Text.Search.{cut, index_byte, without}
use local_dns.Dict.{Dict, get, put, has}

-- What a byte of an address adds to the key: a digit, nothing for a separator, or `none` for another.
unfoldable pub key_char : ℕ → Option Bytes
key_char c =
    if leb b'0' c && leb c b'9'
    then some (c ∷ [])
    else if leb b'a' c && leb c b'f'
    then some ((c - 32) ∷ [])
    else if leb b'A' c && leb c b'F'
    then some (c ∷ [])
    else if c == b':' || c == b'-' || c == b'.'
    then some []
    else none

-- The loop of `ouiKey`, with what was written so far.
unfoldable pub key_loop : Bytes → Bytes → Bytes
unfolding key_char
key_loop written [] = []
key_loop written (c ∷ mac) = elim (key_char c) [
  | none ↦ []
  | some digit ↦
      let next = written ++ digit in
      let rest = key_loop next mac in if length next == 6 then next else rest
]

-- `ouiKey`, with the empty text for what is no address.
unfoldable pub oui_key : Bytes → Bytes
unfolding key_loop
oui_key mac = key_loop [] mac

-- The last column of a table.
unfoldable last_of : Bytes → List Bytes → Bytes
last_of col [] = col
last_of col (next ∷ cols) = last_of next cols

-- The name in the columns behind the address: of several the last one, or else the first.
unfoldable column : Bytes → List Bytes → Bytes
unfolding last_of trim_space
column name [] = name
column name (col ∷ []) = name
column name (col ∷ next ∷ cols) =
    let last = trim_space (last_of next cols) in if is_empty last then trim_space col else last

unfoldable long_name : Bytes → Bytes
unfolding column split
long_name name = column name (split 9 name)

unfoldable vendor_name : Bytes → Bytes
unfolding long_name trim_space trim_prefix
vendor_name rest =
    long_name
      (trim_space (trim_prefix (trim_prefix (trim_space rest) (codes "(hex)")) (codes "(base 16)")))

-- `strings.Cut(line, "\t")`, without its third result.
unfoldable first_column : Bytes → Bytes × Bytes
unfolding cut
first_column line = elim (cut 9 line) [ none ↦ (line, []) | some parts ↦ parts ]

-- The part of the first column before a space goes on as the token; what follows it is moved over.
unfoldable token_and_rest : Bytes → Bytes × Bytes
unfolding first_column index_byte
token_and_rest line =
    let (token, rest) = first_column line in
    elim (index_byte b' ' token) [
      | none ↦ (token, rest)
      | some i ↦ (take i token, drop (suc i) token ++ 9 ∷ rest)
    ]

-- One line of a database: the key and the name, if there are any.
unfoldable pub oui_entry : Bytes → Option (Bytes × Bytes)
unfolding token_and_rest vendor_name oui_key without contains
oui_entry text =
    let line = trim_space text in
    let (token, rest) = token_and_rest line in
    if is_empty line || has_prefix line (codes "#")
    then none
    else if contains b'/' token
    then none
    else if is_empty (oui_key token) || not (length (without b'-' (without b':' token)) == 6)
    then none
    else if is_empty (vendor_name rest)
    then none
    else some (oui_key token, vendor_name rest)

-- `if _, exists := into[key]; !exists { into[key] = name }`
unfoldable pub add_entry : Dict Bytes → Option (Bytes × Bytes) → Dict Bytes
add_entry table none = table
add_entry table (some (key, name)) = if has key table then table else put key name table

-- The loop over the lines.
unfoldable pub add_lines : Dict Bytes → List Bytes → Dict Bytes
unfolding add_entry oui_entry
add_lines table [] = table
add_lines table (line ∷ lines) = add_lines (add_entry table (oui_entry line)) lines

abbrev pub max_oui_line : ℕ
max_oui_line = 1048576

unfoldable pub parse_oui : Dict Bytes → Reading → Dict Bytes
unfolding add_lines scan_lines
parse_oui table r = add_lines table (scan_lines max_oui_line r).lines

-- The loop over the files; `none` is one that cannot be opened.
unfoldable pub load_files : Dict Bytes → List (Option Reading) → Dict Bytes
unfolding parse_oui
load_files table [] = table
load_files table (none ∷ files) = load_files table files
load_files table (some r ∷ files) = load_files (parse_oui table r) files

-- `*OUITable`, with `none` for nil.
abbrev pub OuiTable : Type 0
OuiTable = Option (Dict Bytes)

unfoldable pub load_oui : List (Option Reading) → OuiTable
unfolding load_files
load_oui files = elim (load_files [] files) [ [] ↦ none | e ∷ m ↦ some (e ∷ m) ]

-- `Len`
unfoldable oui_len : OuiTable → ℕ
oui_len none = 0
oui_len (some m) = length m

-- `Lookup`
unfoldable pub lookup_vendor : OuiTable → Bytes → Bytes
unfolding oui_key
lookup_vendor none mac = []
lookup_vendor (some m) mac =
    if is_empty (oui_key mac) then [] else elim (get (oui_key mac) m) [ none ↦ [] | some v ↦ v ]
