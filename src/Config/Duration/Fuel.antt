-- ===== src/Config/Duration/Fuel.antt =====
-- The loop of `time.ParseDuration` ends: every round reads at least a byte.
use local_dns.Base.{
  ℕ, zero, suc, ◌+◌, ◌-◌, ◌*◌, ◌/◌, ◌≤◌, ◌<◌, ◌≡◌, refl, [], ◌∷◌, Bool, false, not, ◌||◌, Bytes,
  none, some, length, arith, Bool-cases, Option-cases, inl, inr, ltb, ◌==◌, if◌then◌else◌,
}
use local_dns.Config.Duration.{
  top, is_digit, leading_int, leading_fraction, unit_of, unit_map, starts_with_dot, after_int,
  fraction, with_unit, term, terms,
}

leading_int-rest :
    (s : Bytes) (x v : ℕ) (rest : Bytes) → leading_int s x ≡ some (v, rest) → length rest ≤ length s
unfolding leading_int
leading_int-rest [] x v rest h = let e : [] ≡ rest = cc in rw (← e) (omega arith)
leading_int-rest (c ∷ s) x v rest h = elim (Bool-cases (is_digit c)) [
  | inl digit ↦ let ih = leading_int-rest s (x * 10 + (c - b'0')) v rest in ground (arith, ih)
  | inr other ↦ let e : c ∷ s ≡ rest = ground arith in rw (← e) (omega arith)
]

leading_fraction-rest :
    (s : Bytes) (x scale : ℕ) (full : Bool) → length (leading_fraction s x scale full).2 ≤ length s
unfolding leading_fraction
leading_fraction-rest [] x scale full = omega arith
leading_fraction-rest (c ∷ s) x scale full = elim (Bool-cases (is_digit c)) [
  | inl digit ↦
      let stop = full || ltb ((top - 1) / 10) x || ltb top (x * 10 + (c - b'0')) in
      let ih =
        leading_fraction-rest s (if stop then x else x * 10 + (c - b'0'))
          (if stop then scale else scale * 10) stop in
      rw digit (omega arith)
  | inr other ↦ rw other (omega arith)
]

length-unit_of : (s : Bytes) → length (unit_of s).0 + length (unit_of s).1 ≡ length s
unfolding unit_of
length-unit_of [] = omega arith
length-unit_of (c ∷ s) = ground (arith, length-unit_of s)

unit_map-nil : unit_map [] ≡ none
unfolding unit_map
unit_map-nil = refl

length-zero : (s : Bytes) → length s ≡ 0 → s ≡ []
length-zero [] h = refl
length-zero (c ∷ s) h = absurd (omega arith)

fraction-rest : (s : Bytes) → length (fraction s).2 ≤ length s
unfolding fraction starts_with_dot
fraction-rest [] = omega arith
fraction-rest (c ∷ s) = elim (Bool-cases (c == b'.')) [
  | inl dot ↦ rw dot (omega (arith, leading_fraction-rest s 0 1 false))
  | inr other ↦ rw other (omega arith)
]

with_unit-rest :
    (v f scale : ℕ) (r : Bytes) (n : ℕ) (rest : Bytes)
    → with_unit v f scale r ≡ some (n, rest)
    → length rest < length r
unfolding with_unit
with_unit-rest v f scale r n rest h =
    let sum = length-unit_of r in ground (arith, unit_map-nil, length-zero (unit_of r).0)

after_int-rest :
    (pre : Bool) (v : ℕ) (s : Bytes) (n : ℕ) (rest : Bytes)
    → after_int pre v s ≡ some (n, rest)
    → length rest < length s
unfolding after_int
after_int-rest pre v s n rest h = omega (
  arith,
  fraction-rest s,
  with_unit-rest v (fraction s).0 (fraction s).1 (fraction s).2 n rest (ground arith),
)

term-rest : (s : Bytes) (n : ℕ) (rest : Bytes) → term s ≡ some (n, rest) → length rest < length s
unfolding term
term-rest [] n rest h = cc
term-rest (c ∷ s) n rest h = elim (Option-cases (leading_int (c ∷ s) 0)) [
  | inl bad ↦ absurd (ground arith)
  | inr ((v, r), e) ↦ omega (
    arith,
    leading_int-rest (c ∷ s) 0 v r e,
    after_int-rest (not (length r == length (c ∷ s))) v r n rest (ground arith),
  )
]

terms-enough :
    (f g : ℕ) (s : Bytes) (d : ℕ) → length s ≤ f → length s ≤ g → terms f s d ≡ terms g s d
unfolding terms
terms-enough f g [] d hf hg = refl
terms-enough zero g (c ∷ s) d hf hg = absurd (omega arith)
terms-enough (suc f) zero (c ∷ s) d hf hg = absurd (omega arith)
terms-enough (suc f) (suc g) (c ∷ s) d hf hg = elim (Option-cases (term (c ∷ s))) [
  | inl bad ↦ rw (bad, terms)
  | inr ((n, rest), e) ↦
      let less = term-rest (c ∷ s) n rest e in
      rw (e, terms, terms-enough f g rest (d + n) (omega arith) (omega arith)) refl
]

-- More rounds than bytes change nothing: the loop of `time.ParseDuration` ends by itself.
pub terms-fuel : (f : ℕ) (s : Bytes) (d : ℕ) → length s ≤ f → terms f s d ≡ terms (length s) s d
terms-fuel f s d h = terms-enough f (length s) s d h (omega arith)
