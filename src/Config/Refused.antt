-- ===== src/Config/Refused.antt =====
-- What `parse` reports, and what it passes over.
use local_dns.Base.{
  ℕ, suc, ◌+◌, ◌≡◌, refl, ap, ◌∙◌, List, [], ◌∷◌, ◌++◌, Bytes, Outcome, ok, err, length, arith,
  true, inl, inr, ◌⊎◌, false, Bool, if◌then◌else◌,
}
use local_dns.Base.Scan.{Reading, max_line, scan_lines}
use local_dns.Config.Lines.{apply_line, apply_lines, parse}
use local_dns.Config.State.{Config, Error, Refusal, at_line, reading_failed}

Outcome-cases :
    (o : Outcome Refusal Config) → ((r : Refusal) × (o ≡ err r)) ⊎ ((c : Config) × (o ≡ ok c))
Outcome-cases (err r) = inl (r, refl)
Outcome-cases (ok c) = inr (c, refl)

apply_lines-ok :
    (n : ℕ) (c d : Config) (line : Bytes) (lines : List Bytes)
    → apply_line c line ≡ ok d
    → apply_lines n c (line ∷ lines) ≡ apply_lines (suc n) d lines
unfolding apply_lines
apply_lines-ok n c d line lines h = rw (h, apply_lines)

-- The settings go line by line: what the first lines make of them is where the others start.
pub apply_lines-append :
    (n : ℕ) (c d : Config) (before after : List Bytes)
    → apply_lines n c before ≡ ok d
    → apply_lines n c (before ++ after) ≡ apply_lines (n + length before) d after
unfolding apply_lines
apply_lines-append n c d [] after h =
    let e : c ≡ d = ground arith in let k : n + 0 ≡ n = omega arith in rw (e, k)
apply_lines-append n c d (line ∷ before) after h = elim (Outcome-cases (apply_line c line)) [
  | inl (r, bad) ↦ ground arith
  | inr (c', good) ↦
      let step = apply_lines-append (suc n) c' d before after (rw (good, apply_lines) at h) in
      let k : suc n + length before ≡ n + length (line ∷ before) = omega arith in
      apply_lines-ok n c c' line (before ++ after) good ∙ rw k at step
]

-- If a line is refused, its number is reported: the lines before it were accepted.
apply_lines_refused :
    (n k : ℕ) (c : Config) (lines : List Bytes) (r : Refusal)
    → apply_lines n c lines ≡ err (at_line k r)
    → (before : List Bytes) × (line : Bytes) × (after : List Bytes) × (d : Config) × (lines
        ≡ before ++ line ∷ after)
      × (k ≡ n + length before + 1)
      × (apply_lines n c before ≡ ok d)
      × (apply_line d line ≡ err r)
unfolding apply_lines
apply_lines_refused n k c [] r h = cc
apply_lines_refused n k c (line ∷ lines) r h = elim (Outcome-cases (apply_line c line)) [
  | inl (r', bad) ↦
      let e : r' ≡ r = ground arith in ([], line, lines, c, refl, ground arith, refl, rw e at bad)
  | inr (c', good) ↦
      let (before, culprit, after, d, split, number, accepted, refused) =
        apply_lines_refused (suc n) k c' lines r (rw (good, apply_lines) at h) in
      (
        line ∷ before,
        culprit,
        after,
        d,
        ap (◌∷◌ line) split,
        omega arith,
        apply_lines-ok n c c' line before good ∙ accepted,
        refused,
      )
]

Results-cases :
    (o : Outcome Error Config) → ((e : Error) × (o ≡ err e)) ⊎ ((c : Config) × (o ≡ ok c))
Results-cases (err e) = inl (e, refl)
Results-cases (ok c) = inr (c, refl)

err-injective : (d e : Error) → ◌≡◌ {A = Outcome Error Config} (err d) (err e) → d ≡ e
err-injective d e h = cc

parse-at_line :
    (d : Config) (failed : Bool) (k : ℕ) (r : Refusal)
    → (if failed then err reading_failed else ok d) ≡ err (at_line k r)
    → ⊥
parse-at_line d true k r h = cc
parse-at_line d false k r h = cc

-- When `parse` reports a line, the line of that number, counted from 1, is refused for that reason
-- by the settings that the lines before it made, and all those were accepted.
pub parse_refused :
    (c : Config) (file : Reading) (k : ℕ) (r : Refusal)
    → parse c file ≡ err (at_line k r)
    → (before : List Bytes) × (line : Bytes) × (after : List Bytes) × (d : Config) × ((scan_lines
          max_line file).lines
        ≡ before ++ line ∷ after)
      × (k ≡ length before + 1)
      × (apply_lines 0 c before ≡ ok d)
      × (apply_line d line ≡ err r)
unfolding parse
parse_refused c file k r h =
    let lines = (scan_lines max_line file).lines in
    elim (Results-cases (apply_lines 0 c lines)) [
      | inl (e, bad) ↦
          let same : e ≡ at_line k r = err-injective e (at_line k r) (rw (bad, parse) at h) in
          let (before, line, after, d, apart, number, accepted, refused) =
            apply_lines_refused 0 k c lines r (bad ∙ ap err same) in
          (before, line, after, d, apart, omega arith, accepted, refused)
      | inr (d, good) ↦
          absurd (parse-at_line d (scan_lines max_line file).failed k r (rw (good, parse) at h))
    ]
