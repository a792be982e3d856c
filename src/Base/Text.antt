-- ===== src/Base/Text.antt =====
-- Functions of Go's `strings` package that the program calls, over bytes. They agree with Go's on
-- ASCII text: a byte of 128 or more is neither a letter nor a space here.
mod Affix
pub mod Trim
pub mod Search
pub mod Found
mod Split
pub use Split.{
  split-append_sep, split-join, join-split, split-ne-nil, Lacks, split-Lacks, length-join_split,
}
unfoldable pub use Split.{split, join, total_length}
pub use Affix.{has_suffix-append, trim_suffix-append, has_suffix→append, trim_suffix_absent}
unfoldable pub use Affix.{has_prefix, has_suffix, trim_prefix, trim_suffix}
use Prim.Native.Char.{code}
use Prim.Native.String.{String}
use Prim.Native.Nat.{ℕ, ◌+◌}
use mathlib.Core.Bool.{Bool, true, false, ◌&&◌, ◌||◌}
use mathlib.Core.List.{[], ◌∷◌, map}
use local_dns.Base.Tests.{Bytes, leb, ◌==◌, if◌then◌else◌}

-- The bytes of an ASCII literal.
abbrev pub codes : String → Bytes
codes String.[] = []
codes (String.◌∷◌ c s) = code c ∷ codes s

-- `s == ""`
abbrev pub is_empty : Bytes → Bool
is_empty [] = true
is_empty (c ∷ s) = false

abbrev pub is_upper : ℕ → Bool
is_upper c = leb b'A' c && leb c b'Z'

-- `if 'A' <= c && c <= 'Z' { c += 'a' - 'A' }`
unfoldable pub lower : ℕ → ℕ
lower c = if is_upper c then c + 32 else c

-- `strings.ToLower`
unfoldable pub to_lower : Bytes → Bytes
to_lower = map lower

-- The ASCII characters that `unicode.IsSpace` accepts.
abbrev pub is_space : ℕ → Bool
is_space c = (leb 9 c && leb c 13) || c == 32

abbrev pub is_dot : ℕ → Bool
is_dot c = c == b'.'

-- `strings.TrimLeftFunc` and `strings.TrimRightFunc`
unfoldable pub trim_left : (ℕ → Bool) → Bytes → Bytes
trim_left p [] = []
trim_left p (c ∷ s) = if p c then trim_left p s else c ∷ s

unfoldable pub trim_right : (ℕ → Bool) → Bytes → Bytes
trim_right p [] = []
trim_right p (c ∷ s) = let rest = trim_right p s in if p c && is_empty rest then [] else c ∷ rest

-- `strings.Trim` with a set of characters, and `strings.TrimSpace`
unfoldable pub trim : (ℕ → Bool) → Bytes → Bytes
unfolding trim_left trim_right
trim p s = trim_right p (trim_left p s)

unfoldable pub trim_space : Bytes → Bytes
unfolding trim
trim_space = trim is_space

-- `strings.Contains` for a one-byte text
unfoldable pub contains : ℕ → Bytes → Bool
contains b [] = false
contains b (c ∷ s) = c == b || contains b s
