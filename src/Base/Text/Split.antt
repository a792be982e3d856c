-- ===== src/Base/Text/Split.antt =====
-- `strings.Split` at one byte, against joining.
use Prim.Native.Nat.{ℕ, ◌+◌}
use mathlib.Core.Path.{◌≡◌, refl, ap, ◌∙◌}
use mathlib.Core.Logic.{◌≢◌, inl, inr}
use mathlib.Core.List.{List, [], ◌∷◌, ◌++◌}
use native.Mathlib.Omega.{arith}
use local_dns.Base.Tests.{Bytes, Bool-cases, ◌==◌, if◌then◌else◌}
use local_dns.Base.Lists.{length, All, length-append}

-- Puts a byte in front of the first part.
push : ℕ → List Bytes → List Bytes
push c [] = (c ∷ []) ∷ []
push c (p ∷ ps) = (c ∷ p) ∷ ps

unfoldable pub split : ℕ → Bytes → List Bytes
unfolding push
split sep [] = [] ∷ []
split sep (c ∷ s) = let rest = split sep s in if c == sep then [] ∷ rest else push c rest

-- The parts with the separator between them.
unfoldable pub join : ℕ → List Bytes → Bytes
join sep [] = []
join sep (p ∷ []) = p
join sep (p ∷ q ∷ ps) = p ++ sep ∷ join sep (q ∷ ps)

-- The byte does not occur.
abbrev pub Lacks : ℕ → Bytes → Type 0
Lacks b = All (λ c. c ≢ b)

pub split-ne-nil : (sep : ℕ) (s : Bytes) → split sep s ≢ []
unfolding split
split-ne-nil sep [] = ground arith
split-ne-nil sep (c ∷ s) = ground arith

join-push : (sep c : ℕ) (ps : List Bytes) → join sep (push c ps) ≡ c ∷ join sep ps
unfolding join push
join-push sep c [] = refl
join-push sep c (p ∷ []) = refl
join-push sep c (p ∷ q ∷ ps) = refl

join-cons :
    (sep : ℕ) (p : Bytes) (ps : List Bytes) → ps ≢ [] → join sep (p ∷ ps) ≡ p ++ sep ∷ join sep ps
unfolding join
join-cons sep p [] h = absurd (h refl)
join-cons sep p (q ∷ ps) h = refl

pub join-split : (sep : ℕ) (s : Bytes) → join sep (split sep s) ≡ s
unfolding split
join-split sep [] = unfold join in refl
join-split sep (c ∷ s) = ground (
  arith,
  join-cons sep [] (split sep s) (split-ne-nil sep s),
  join-push sep c (split sep s),
  join-split sep s,
)

push-Lacks :
    (sep c : ℕ) (ps : List Bytes) → c ≢ sep → All (Lacks sep) ps → All (Lacks sep) (push c ps)
unfolding push
push-Lacks sep c [] h k = ((h, tt), tt)
push-Lacks sep c (p ∷ ps) h (k, ks) = ((h, k), ks)

-- No part holds the separator.
pub split-Lacks : (sep : ℕ) (s : Bytes) → All (Lacks sep) (split sep s)
unfolding split
split-Lacks sep [] = (tt, tt)
split-Lacks sep (c ∷ s) = elim (Bool-cases (c == sep)) [
  | inl same ↦ rw same (tt, split-Lacks sep s)
  | inr other ↦ rw other (push-Lacks sep c (split sep s) (ground arith) (split-Lacks sep s))
]

-- The bytes of the parts, with one more for each.
unfoldable pub total_length : List Bytes → ℕ
total_length [] = 0
total_length (p ∷ ps) = length p + 1 + total_length ps

length-join : (sep : ℕ) (ps : List Bytes) → ps ≢ [] → length (join sep ps) + 1 ≡ total_length ps
unfolding join total_length
length-join sep [] h = absurd (h refl)
length-join sep (p ∷ []) h = omega arith
length-join sep (p ∷ q ∷ ps) h =
    ground (arith, length-append p (sep ∷ join sep (q ∷ ps)), length-join sep (q ∷ ps))

pub length-join_split : (sep : ℕ) (s : Bytes) → length s + 1 ≡ total_length (split sep s)
length-join_split sep s =
    ground (arith, length-join sep (split sep s) (split-ne-nil sep s), join-split sep s)

-- A part without the separator stays whole.
split-append : (sep : ℕ) (p s : Bytes) → Lacks sep p → split sep (p ++ sep ∷ s) ≡ p ∷ split sep s
unfolding split
split-append sep [] s h = ground arith
split-append sep (c ∷ p) s (h, hs) = rw (split-append sep p s hs) (ground arith)

split_lacking : (sep : ℕ) (p : Bytes) → Lacks sep p → split sep p ≡ p ∷ []
unfolding split
split_lacking sep [] h = refl
split_lacking sep (c ∷ p) (h, hs) = rw (split_lacking sep p hs) (ground arith)

-- Splitting a join gives the parts back, if there is a part and none holds the separator.
pub split-join :
    (sep : ℕ) (p : Bytes) (ps : List Bytes)
    → All (Lacks sep) (p ∷ ps)
    → split sep (join sep (p ∷ ps)) ≡ p ∷ ps
unfolding join
split-join sep p [] (h, hs) = split_lacking sep p h
split-join sep p (q ∷ ps) (h, hs) =
    split-append sep p (join sep (q ∷ ps)) h ∙ ap (◌∷◌ p) (split-join sep q ps hs)

push-append : (c : ℕ) (ps qs : List Bytes) → ps ≢ [] → push c (ps ++ qs) ≡ push c ps ++ qs
unfolding push
push-append c [] qs h = absurd (h refl)
push-append c (p ∷ ps) qs h = refl

-- Texts that a separator joins are split apart.
pub split-append_sep :
    (sep : ℕ) (s t : Bytes) → split sep (s ++ sep ∷ t) ≡ split sep s ++ split sep t
unfolding split
split-append_sep sep [] t = ground arith
split-append_sep sep (c ∷ s) t =
    rw (split-append_sep sep s t)
      (ground (arith, push-append c (split sep s) (split sep t) (split-ne-nil sep s)))
