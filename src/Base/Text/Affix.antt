-- ===== src/Base/Text/Affix.antt =====
-- Prefixes and suffixes.
use Prim.Native.Nat.{ℕ, zero, suc, ◌+◌, ◌-◌}
use mathlib.Core.Path.{◌≡◌, refl, ap}
use mathlib.Core.Bool.{Bool, true, false, ◌&&◌}
use mathlib.Core.List.{[], ◌∷◌, ◌++◌}
use native.Mathlib.Omega.{arith}
use local_dns.Base.Tests.{Bytes, bytes_eq, bytes_eq→eq, bytes_eq_refl, leb, ◌==◌, if◌then◌else◌}
use local_dns.Base.Lists.{
  length, take, drop, length-append, take_of_length-append, drop_of_length-append,
}

-- `strings.HasPrefix`
unfoldable pub has_prefix : Bytes → Bytes → Bool
has_prefix s [] = true
has_prefix [] (d ∷ t) = false
has_prefix (c ∷ s) (d ∷ t) = c == d && has_prefix s t

-- `strings.HasSuffix`
unfoldable pub has_suffix : Bytes → Bytes → Bool
has_suffix s t = leb (length t) (length s) && bytes_eq (drop (length s - length t) s) t

-- `strings.TrimPrefix`
unfoldable pub trim_prefix : Bytes → Bytes → Bytes
unfolding has_prefix
trim_prefix s t = if has_prefix s t then drop (length t) s else s

-- `strings.TrimSuffix`
unfoldable pub trim_suffix : Bytes → Bytes → Bytes
unfolding has_suffix
trim_suffix s t = if has_suffix s t then take (length s - length t) s else s

module _ (s t : Bytes) where
  pub has_suffix-append : has_suffix (s ++ t) t ≡ true
  unfolding has_suffix
  has_suffix-append =
      let len : length (s ++ t) ≡ length s + length t = length-append s t in
      let e : length (s ++ t) - length t ≡ length s + 0 = omega arith in
      ground (arith, drop_of_length-append s t (length (s ++ t) - length t) 0 e, bytes_eq_refl t)

  pub trim_suffix-append : trim_suffix (s ++ t) t ≡ s
  unfolding trim_suffix
  trim_suffix-append =
      rw has_suffix-append (take_of_length-append s t _ (omega (arith, length-append s t)))

  pub trim_suffix_absent : has_suffix s t ≡ false → trim_suffix s t ≡ s
  unfolding trim_suffix
  trim_suffix_absent h = rw h

take-append-drop : (n : ℕ) (s : Bytes) → take n s ++ drop n s ≡ s
take-append-drop zero s = refl
take-append-drop (suc n) [] = refl
take-append-drop (suc n) (c ∷ s) = ap (◌∷◌ c) (take-append-drop n s)

-- A text that has the suffix is what is left in front, and the suffix.
pub has_suffix→append : (s t : Bytes) → has_suffix s t ≡ true → s ≡ trim_suffix s t ++ t
unfolding trim_suffix
has_suffix→append s t h =
    ground (
      arith,
      take-append-drop (length s - length t) s,
      bytes_eq→eq (drop (length s - length t) s) t,
    )
