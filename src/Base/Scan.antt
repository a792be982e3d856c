-- ===== src/Base/Scan.antt =====
-- `bufio.Scanner` over the lines of a file.
use local_dns.Base.Tests.{Bytes, leb, ◌==◌, if◌then◌else◌}
use local_dns.Base.Lists.{length}
use local_dns.Base.Text.{is_empty, split}
use Prim.Native.Nat.{ℕ}
use mathlib.Core.Bool.{Bool, true}
use mathlib.Core.List.{List, [], ◌∷◌}

-- What is read from a file: its text, and whether an error stands at the end instead of the end of
-- the file.
pub record Reading : Type 0 where
  pub text : Bytes
  pub broken : Bool

-- What stands after the last newline is a line if it is not empty.
unfoldable drop_empty_end : List Bytes → List Bytes
drop_empty_end [] = []
drop_empty_end (l ∷ []) = if is_empty l then [] else l ∷ []
drop_empty_end (l ∷ m ∷ ls) = l ∷ drop_empty_end (m ∷ ls)

-- `dropCR`
unfoldable drop_cr : Bytes → Bytes
drop_cr [] = []
drop_cr (c ∷ []) = if c == 13 then [] else c ∷ []
drop_cr (c ∷ d ∷ s) = c ∷ drop_cr (d ∷ s)

-- What the scanner gives: its lines, and whether `Err()` is an error at the end.
pub record Scanned : Type 0 where
  pub lines : List Bytes
  pub failed : Bool

-- A line that does not fit into the buffer of `size` bytes with its newline ends the scan.
unfoldable fitting : ℕ → Bool → List Bytes → Scanned
unfolding drop_cr
fitting size broken [] = record { lines = []; failed = broken }
fitting size broken (l ∷ ls) =
    let rest = fitting size broken ls in
    if leb size (length l)
    then record { lines = []; failed = true }
    else record { lines = drop_cr l ∷ rest.lines; failed = rest.failed }

unfoldable pub scan_lines : ℕ → Reading → Scanned
unfolding fitting drop_empty_end split
scan_lines size r = fitting size r.broken (drop_empty_end (split 10 r.text))

-- `bufio.MaxScanTokenSize`
abbrev pub max_line : ℕ
max_line = 65536
