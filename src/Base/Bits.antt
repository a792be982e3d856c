-- ===== src/Base/Bits.antt =====
-- Masks and disjoint fields as arithmetic.
use Prim.Native.Nat.{
  ℕ, zero, suc, ◌+◌, ◌-◌, ◌*◌, ◌/◌, ◌%◌, ◌^◌, ◌≤◌, ◌<◌, min, bit_and, digits, bit_and-bitwise,
}
use mathlib.Core.Path.{◌≡◌, refl, sym, ap, ◌∙◌}
use mathlib.Core.Bool.{Bool, true, ◌&&◌}
use native.Mathlib.Omega.{arith}
use native.Mathlib.Nat.{
  mul_comm, pow-suc, pow-succ', one-le-pow, div-div-eq-div-mul, mod-eq-sub-div-mul, div-mul-le_self,
}
use local_dns.Base.Tests.{◌==◌}

module _ (z : ℕ → ℕ) (f : ℕ → ℕ → ℕ) where
  digits-zero : (n b : ℕ) → digits z f n 0 b ≡ z b
  digits-zero zero b = refl
  digits-zero (suc n) b = refl

  -- Any fuel that is at least the first number gives the same result.
  digits_agree : (x k l y : ℕ) → x ≤ k → x ≤ l → digits z f k x y ≡ digits z f l x y
  digits_agree zero k l y p q = digits-zero k y ∙ sym (digits-zero l y)
  digits_agree (suc x) zero l y p q = absurd (omega arith)
  digits_agree (suc x) (suc k) zero y p q = absurd (omega arith)
  digits_agree (suc x) (suc k) (suc l) y p q =
      ap (λ (t : ℕ). t * 2 + f (suc x % 2) (y % 2))
        (digits_agree (suc x / 2) k l (y / 2) (omega arith) (omega arith))

pub bit_and_halves : (a b : ℕ) → bit_and a b ≡ bit_and (a / 2) (b / 2) * 2 + min (a % 2) (b % 2)
bit_and_halves zero b = omega (arith, bit_and-bitwise 0 b, bit_and-bitwise 0 (b / 2))
bit_and_halves (suc a) b =
    let fuel =
      digits_agree (λ y. 0) min (suc a / 2) a (suc a / 2) (b / 2) (omega arith) (omega arith) in
    omega (arith, fuel, bit_and-bitwise (suc a / 2) (b / 2), bit_and-bitwise (suc a) b)

bit_and-zero : (n a : ℕ) → a ≤ n → bit_and a 0 ≡ 0
bit_and-zero n zero h = refl
bit_and-zero zero (suc a) h = absurd (omega arith)
bit_and-zero (suc n) (suc a) h =
    omega (arith, bit_and_halves (suc a) 0, bit_and-zero n (suc a / 2) (omega arith))

-- A mask whose low digit is zero reads nothing of the low digit.
pub bit_and_even : (a m : ℕ) → bit_and a (m * 2) ≡ bit_and (a / 2) m * 2
bit_and_even a m =
    let e : m * 2 / 2 ≡ m = omega arith in
    omega (arith, bit_and_halves a (m * 2), ap (bit_and (a / 2)) e)

-- A mask without its low `k` zeros reads the number without its low `k` digits.
pub bit_and_shifted : (k a m : ℕ) → bit_and a (m * 2 ^ k) ≡ bit_and (a / 2 ^ k) m * 2 ^ k
bit_and_shifted zero a m =
    let e : m * 2 ^ 0 ≡ m = omega arith in
    let d : a / 2 ^ 0 ≡ a = omega arith in rw (e, d) (omega arith)
bit_and_shifted (suc k) a m =
    let e : m * 2 ^ suc k ≡ m * 2 ^ k * 2 = omega (arith, ap (λ (t : ℕ). m * t) (pow-suc 2 k)) in
    let d : a / 2 ^ suc k ≡ a / 2 / 2 ^ k = rw pow-succ' (sym (div-div-eq-div-mul a 2 (2 ^ k))) in
    rw (e, d, bit_and_even, bit_and_shifted k (a / 2) m)
      (omega (arith, ap (λ (t : ℕ). bit_and (a / 2 / 2 ^ k) m * t) (pow-suc 2 k)))

mod-mul_two : (a n : ℕ) → a % (n * 2) ≡ a / 2 % n * 2 + a % 2
mod-mul_two a n = omega (
  arith,
  div-div-eq-div-mul a 2 n,
  mod-eq-sub-div-mul a (n * 2),
  div-mul-le_self a (n * 2),
  mod-eq-sub-div-mul (a / 2) n,
  div-mul-le_self (a / 2) n,
  ap (λ (t : ℕ). t * n) (div-div-eq-div-mul a 2 n),
  ap (λ (t : ℕ). a / t * n) (mul_comm 2 n),
)

-- A mask of `k` ones is the remainder by `2 ^ k`.
pub bit_and_ones : (k a : ℕ) → bit_and a (2 ^ k - 1) ≡ a % 2 ^ k
bit_and_ones zero a = omega (arith, bit_and-zero a a (omega arith))
bit_and_ones (suc k) a =
    let half : (2 ^ suc k - 1) / 2 ≡ 2 ^ k - 1 = omega (arith, pow-suc 2 k, one-le-pow k 2) in
    omega (
      arith,
      bit_and_halves a (2 ^ suc k - 1),
      ap (bit_and (a / 2)) half,
      bit_and_ones k (a / 2),
      pow-suc 2 k,
      one-le-pow k 2,
      mod-mul_two a (2 ^ k),
      ap (λ (t : ℕ). a % t) (pow-suc 2 k),
    )

module _ (f g : ℕ → ℕ) where
  -- `f` and `g` agree at every number below the bound, by evaluation.
  unfoldable pub agree : ℕ → Bool
  agree zero = true
  agree (suc n) = f n == g n && agree n

  pub agree→eq : (n : ℕ) → agree n ≡ true → (i : ℕ) → i < n → f i ≡ g i
  unfolding agree
  agree→eq zero e i h = absurd (omega arith)
  agree→eq (suc n) e i h = ground (arith, agree→eq n (ground arith) i)
