-- ===== src/Base/Text/Search.antt =====
-- Functions of Go's `strings` package that look for a byte or cut a text there, and
-- `strconv.ParseUint`.
use local_dns.Base.Tests.{Bytes, leb, ◌==◌, if◌then◌else◌}
use local_dns.Base.Text.{is_empty, lower, is_space}
use Prim.Native.Nat.{ℕ, suc, ◌+◌, ◌-◌, ◌*◌}
use mathlib.Core.Bool.{true, false, ◌&&◌, ◌||◌}
use mathlib.Core.Option.{Option, none, some}
use mathlib.Core.List.{List, [], ◌∷◌, ◌++◌}

-- `strings.IndexByte`, with none for -1.
unfoldable pub index_byte : ℕ → Bytes → Option ℕ
index_byte b [] = none
index_byte b (c ∷ s) =
    let rest = index_byte b s in
    if c == b then some 0 else elim rest [ none ↦ none | some i ↦ some (suc i) ]

-- `strings.LastIndexByte`
unfoldable pub last_index_byte : ℕ → Bytes → Option ℕ
last_index_byte b [] = none
last_index_byte b (c ∷ s) = elim (last_index_byte b s) [
  | some i ↦ some (suc i)
  | none ↦ if c == b then some 0 else none
]

-- `strings.Cut` at one byte: what stands before the first one and after it.
unfoldable pub cut : ℕ → Bytes → Option (Bytes × Bytes)
cut b [] = none
cut b (c ∷ s) =
    let rest = cut b s in
    if c == b
    then some ([], s)
    else elim rest [ none ↦ none | some (before, after) ↦ some (c ∷ before, after) ]

-- `strings.Count` of one byte
unfoldable pub count : ℕ → Bytes → ℕ
count b [] = 0
count b (c ∷ s) = if c == b then suc (count b s) else count b s

-- `strings.ReplaceAll(s, b, "")`
unfoldable pub without : ℕ → Bytes → Bytes
without b [] = []
without b (c ∷ s) = if c == b then without b s else c ∷ without b s

-- Puts a word, if there is one, in front of the others.
unfoldable word : Bytes → List Bytes → List Bytes
word w ws = if is_empty w then ws else w ∷ ws

-- The words of the text, behind the letters of the one that is being read.
unfoldable fields_from : Bytes → Bytes → List Bytes
unfolding word
fields_from w [] = word w []
fields_from w (c ∷ s) = elim (is_space c) [
  | true ↦ word w (fields_from [] s)
  | false ↦ fields_from (w ++ c ∷ []) s
]

-- `strings.Fields`
unfoldable pub fields : Bytes → List Bytes
unfolding fields_from
fields s = fields_from [] s

-- The value of a digit in `ParseUint`: letters of either case go on from 10.
unfoldable pub digit : ℕ → Option ℕ
unfolding lower
digit c =
    if leb b'0' c && leb c b'9'
    then some (c - b'0')
    else if leb b'a' (lower c) && leb (lower c) b'z'
    then some (lower c - b'a' + 10)
    else none

-- The loop over the digits; `limit` is one above the greatest number.
unfoldable pub uint_loop : ℕ → ℕ → Bytes → ℕ → Option ℕ
unfolding digit
uint_loop base limit [] n = some n
uint_loop base limit (c ∷ s) n = elim (digit c) [
  | none ↦ none
  | some d ↦
      let next = n * base + d in
      let rest = uint_loop base limit s next in if leb base d || leb limit next then none else rest
]

-- `strconv.ParseUint(s, base, w)` for a base that is not 0, with 2^w for `limit`.
unfoldable pub parse_uint : ℕ → ℕ → Bytes → Option ℕ
unfolding uint_loop
parse_uint base limit s = if is_empty s then none else uint_loop base limit s 0
