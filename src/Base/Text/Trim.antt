-- ===== src/Base/Text/Trim.antt =====
-- What trimming leaves alone.
use local_dns.Base.Tests.{Bytes}
use local_dns.Base.Lists.{length, All}
use local_dns.Base.Text.{is_empty, trim_left, trim_right, trim}
use Prim.Native.Nat.{ℕ, ◌≤◌}
use mathlib.Core.Path.{◌≡◌, refl}
use mathlib.Core.Logic.{◌≢◌}
use mathlib.Core.Bool.{Bool, true, false, ◌&&◌}
use mathlib.Core.List.{[], ◌∷◌, ◌++◌}
use native.Mathlib.Omega.{arith}

module _ (p : ℕ → Bool) where
  pub trim_right_lacking : (s : Bytes) → All (λ c. p c ≡ false) s → trim_right p s ≡ s
  unfolding trim_right
  trim_right_lacking [] h = refl
  trim_right_lacking (c ∷ s) (hc, h) = rw (hc, trim_right_lacking s h)

  is_empty-false : (s : Bytes) → s ≢ [] → is_empty s ≡ false
  is_empty-false [] h = absurd (h refl)
  is_empty-false (c ∷ s) h = refl

  and-false : (b : Bool) → (b && false) ≡ false
  and-false true = refl
  and-false false = refl

  pub trim_right-cons :
      (c : ℕ) (s : Bytes) → s ≢ [] → trim_right p s ≡ s → trim_right p (c ∷ s) ≡ c ∷ s
  unfolding trim_right
  trim_right-cons c s h e = rw (e, is_empty-false s h, and-false (p c))

  append-ne-nil : (s t : Bytes) → t ≢ [] → s ++ t ≢ []
  append-ne-nil [] t h = h
  append-ne-nil (c ∷ s) t h = λ e. cc

  -- Where something of the end stays, all before it stays.
  pub trim_right-append :
      (s t : Bytes) → t ≢ [] → trim_right p t ≡ t → trim_right p (s ++ t) ≡ s ++ t
  trim_right-append [] t h e = e
  trim_right-append (c ∷ s) t h e =
      trim_right-cons c (s ++ t) (append-ne-nil s t h) (trim_right-append s t h e)

  pub trim_right-drops :
      (s : Bytes) (c : ℕ) → p c ≡ true → trim_right p (s ++ c ∷ []) ≡ trim_right p s
  unfolding trim_right
  trim_right-drops [] c h = rw h
  trim_right-drops (d ∷ s) c h = rw (trim_right-drops s c h)

  pub length-trim_right-le : (s : Bytes) → length (trim_right p s) ≤ length s
  unfolding trim_right
  length-trim_right-le [] = omega arith
  length-trim_right-le (c ∷ s) = ground (arith, length-trim_right-le s)

  pub trim_left_lacking : (s : Bytes) → All (λ c. p c ≡ false) s → trim_left p s ≡ s
  unfolding trim_left
  trim_left_lacking [] h = refl
  trim_left_lacking (c ∷ s) (hc, h) = rw hc

  pub trim_lacking : (s : Bytes) → All (λ c. p c ≡ false) s → trim p s ≡ s
  unfolding trim
  trim_lacking s h = rw (trim_left_lacking s h) (trim_right_lacking s h)
