-- ===== src/Base/Bits.antt =====
-- `&` with a mask of low ones is a remainder, the fact that the hash tables' positions rest on.
use Prim.Native.Nat.{
  ℕ, zero, suc, ◌+◌, ◌-◌, ◌*◌, ◌/◌, ◌%◌, ◌^◌, ◌≤◌, ◌<◌, min, max, bit_and, bit_or, digits,
  bit_and-bitwise, bit_or-bitwise,
}
use mathlib.Core.Path.{◌≡◌, refl, sym, ap, ◌∙◌}
use native.Mathlib.Nat.{
  pow-suc, one-le-pow, div-add-mod', mul-add-mod_self_right, mod-eq_of_lt, mod-lt,
}
use mathlib.Core.Bool.{Bool, true, ◌&&◌}
use native.Mathlib.Omega.{arith}
use mathlib.Core.Logic.{◌⊎◌, inl, inr}
use chloride.Base.Tests.{ltb, Bool-cases}

-- the lowest digit of a remainder by an even number
mod_double : (a m : ℕ) → 0 < m → a % (m * 2) ≡ a / 2 % m * 2 + a % 2
mod_double a m h =
    let low : a / 2 % m * 2 + a % 2 < m * 2 = omega (arith, mod-lt (a / 2) h) in
    let split : a ≡ a / 2 / m * (m * 2) + (a / 2 % m * 2 + a % 2) =
      omega (arith, ap (λ (t : ℕ). t * 2) (div-add-mod' (a / 2) m)) in
    ap (λ (t : ℕ). t % (m * 2)) split
    ∙ mul-add-mod_self_right (a / 2 / m) (m * 2) (a / 2 % m * 2 + a % 2)
    ∙ mod-eq_of_lt low

-- the native operation means a recursion on digits, whose fuel is here any bound on the number
digits_mask : (fuel a k : ℕ) → a ≤ fuel → digits (λ b. zero) min fuel a (2 ^ k - 1) ≡ a % 2 ^ k
digits_mask zero zero k h = omega arith
digits_mask zero (suc a) k h = absurd (omega arith)
digits_mask (suc fuel) zero k h = omega arith
digits_mask (suc fuel) (suc a) zero h = omega (arith, digits_mask fuel (suc a / 2) 0 (omega arith))
digits_mask (suc fuel) (suc a) (suc k) h =
    let half : (2 ^ suc k - 1) / 2 ≡ 2 ^ k - 1 = omega (arith, pow-suc 2 k, one-le-pow k 2) in
    let ones : (2 ^ suc k - 1) % 2 ≡ 1 = omega (arith, pow-suc 2 k, one-le-pow k 2) in
    let power : 2 ^ suc k ≡ 2 ^ k * 2 = omega (arith, pow-suc 2 k) in
    rw (half, ones, power)
      (omega (
        arith,
        digits_mask fuel (suc a / 2) k (omega arith),
        mod_double (suc a) (2 ^ k) (one-le-pow k 2 (omega arith)),
      ))

-- `a & (2 ^ k - 1)`
pub bit_and_mask : (k a : ℕ) → bit_and a (2 ^ k - 1) ≡ a % 2 ^ k
bit_and_mask k a = bit_and-bitwise a (2 ^ k - 1) ∙ digits_mask a a k (omega arith)

-- one digit and those below it
digits_bit :
    (fuel a k : ℕ) → a ≤ fuel → digits (λ b. zero) min fuel a (2 ^ k) + a % 2 ^ k ≡ a % 2 ^ suc k
digits_bit zero zero k h = omega arith
digits_bit zero (suc a) k h = absurd (omega arith)
digits_bit (suc fuel) zero k h = omega arith
digits_bit (suc fuel) (suc a) zero h = omega (arith, digits_mask fuel (suc a / 2) 0 (omega arith))
digits_bit (suc fuel) (suc a) (suc k) h =
    let power : 2 ^ suc k ≡ 2 ^ k * 2 = omega (arith, pow-suc 2 k) in
    let double : 2 ^ suc (suc k) ≡ 2 ^ suc k * 2 = omega (arith, pow-suc 2 (suc k)) in
    let half : 2 ^ suc k / 2 ≡ 2 ^ k = omega arith in
    let even : 2 ^ suc k % 2 ≡ 0 = omega arith in
    let low =
      ap (λ (m : ℕ). suc a % m) power ∙ mod_double (suc a) (2 ^ k) (one-le-pow k 2 (omega arith)) in
    let high =
      ap (λ (m : ℕ). suc a % m) double
      ∙ mod_double (suc a) (2 ^ suc k) (one-le-pow (suc k) 2 (omega arith)) in
    rw (half, even) (omega (arith, digits_bit fuel (suc a / 2) k (omega arith), low, high))

-- `a & 2 ^ k` is what the digit adds to the remainder
pub bit_and_pow : (k a : ℕ) → bit_and a (2 ^ k) + a % 2 ^ k ≡ a % 2 ^ suc k
bit_and_pow k a =
    ap (λ (t : ℕ). t + a % 2 ^ k) (bit_and-bitwise a (2 ^ k)) ∙ digits_bit a a k (omega arith)

-- the remainder by a double
pub mod_halves : (q m : ℕ) → 0 < m → (q % (m * 2) ≡ q % m) ⊎ (q % (m * 2) ≡ q % m + m)
mod_halves q m pos =
    let r = q % (m * 2) in
    let small : r < m * 2 = mod-lt q (omega arith) in
    let split : q ≡ q / (m * 2) * (m * 2) + r = omega (arith, div-add-mod' q (m * 2)) in
    elim (Bool-cases (ltb r m)) [
      | inl low ↦
          let whole : q ≡ q / (m * 2) * 2 * m + r = grind arith in
          inl (
            sym (
              ap (λ (t : ℕ). t % m) whole
              ∙ mul-add-mod_self_right (q / (m * 2) * 2) m r
              ∙ mod-eq_of_lt (ground arith)))
      | inr high ↦
          let over : m ≤ r = ground arith in
          let whole : q ≡ (q / (m * 2) * 2 + 1) * m + (r - m) = grind arith in
          let rest : q % m ≡ r - m =
            ap (λ (t : ℕ). t % m) whole
            ∙ mul-add-mod_self_right (q / (m * 2) * 2 + 1) m (r - m)
            ∙ mod-eq_of_lt (omega arith) in
          inr (omega arith)
    ]

-- the same recursion for `|`: digits of `r` below those of a multiple of `2 ^ k`
digits_fields :
    (fuel a k q r : ℕ) → a ≡ q * 2 ^ k → r < 2 ^ k → a ≤ fuel → digits (λ b. b) max fuel a r ≡ a + r
digits_fields zero zero k q r e small h = omega arith
digits_fields zero (suc a) k q r e small h = absurd (omega arith)
digits_fields (suc fuel) zero k q r e small h = omega arith
digits_fields (suc fuel) (suc a) zero q r e small h = omega (
  arith,
  digits_fields fuel (suc a / 2) 0 (suc a / 2) (r / 2) (omega arith) (omega arith) (omega arith),
)
digits_fields (suc fuel) (suc a) (suc k) q r e small h =
    let even : suc a ≡ q * 2 ^ k * 2 = omega (arith, e, ap (λ (t : ℕ). q * t) (pow-suc 2 k)) in
    omega (
      arith,
      even,
      digits_fields fuel (suc a / 2) k q (r / 2) (omega (arith, even)) (omega (arith, pow-suc 2 k))
          (omega arith),
    )

-- `(q << k) | r` for a field `r` of `k` digits
pub bit_or_fields : (k q r : ℕ) → r < 2 ^ k → bit_or (q * 2 ^ k) r ≡ q * 2 ^ k + r
bit_or_fields k q r small =
    bit_or-bitwise (q * 2 ^ k) r
    ∙ digits_fields (q * 2 ^ k) (q * 2 ^ k) k q r refl small (omega arith)

-- a test of every number below a bound, by evaluation
unfoldable pub holds_below : ℕ → (ℕ → Bool) → Bool
holds_below zero test = true
holds_below (suc n) test = holds_below n test && test n

pub holds_below-lt :
    (n : ℕ) (test : ℕ → Bool) (x : ℕ) → holds_below n test ≡ true → x < n → test x ≡ true
unfolding holds_below
holds_below-lt zero test x h lt = absurd (omega arith)
holds_below-lt (suc n) test x h lt = ground (arith, holds_below-lt n test x)
