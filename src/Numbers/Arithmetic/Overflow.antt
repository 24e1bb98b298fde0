-- ===== src/Numbers/Arithmetic/Overflow.antt =====
-- The tests of overflow are exact.
use chloride.Base.{ℕ, suc, zero, ◌*◌, ◌/◌, ◌≡◌, true, false, not, ltb, leb, arith, refl, ◌≢◌}
use native.Mathlib.Nat.{le-div_iff_mul-le, mul_comm, mul-zero, zero-mul}
use chloride.Base.Int.{
  ℤ, pos, negsuc, neg_of, ◌+ℤ◌, ◌-ℤ◌, ◌*ℤ◌, neg_ℤ, fits_int64, quot, int64_min, int64_max, ltb_ℤ,
  -ℤ_parts, neg_ℤ_parts, one_part,
}
use chloride.Numbers.Arithmetic.{sum_overflows, difference_overflows, product_overflows}

pub sum_overflows-fits :
    (a b : ℤ)
    → fits_int64 a ≡ true
    → fits_int64 b ≡ true
    → fits_int64 (a +ℤ b) ≡ not (sum_overflows a b)
unfolding sum_overflows ◌+ℤ◌ ◌-ℤ◌
sum_overflows-fits a b ha hb = ground arith

-- The test of a difference is that of `neg_a + b`, so the one difference 2 ^ 63 escapes it.
pub difference_escapes :
    (a b : ℤ)
    → fits_int64 a ≡ true
    → fits_int64 b ≡ true
    → a -ℤ b ≡ pos 0x8000_0000_0000_0000
    → difference_overflows (neg_ℤ a) b ≡ false
unfolding difference_overflows
difference_escapes a b ha hb e = ground (
  arith,
  -ℤ_parts a b,
  -ℤ_parts int64_max (neg_ℤ a),
  -ℤ_parts int64_min (neg_ℤ a),
  neg_ℤ_parts a,
  one_part (a -ℤ b),
  one_part (int64_max -ℤ neg_ℤ a),
  one_part (int64_min -ℤ neg_ℤ a),
)

pub difference_overflows-fits :
    (a b : ℤ)
    → fits_int64 a ≡ true
    → fits_int64 b ≡ true
    → difference_overflows (neg_ℤ a) b ≡ false
    → a -ℤ b ≢ pos 0x8000_0000_0000_0000
    → fits_int64 (a -ℤ b) ≡ true
unfolding difference_overflows
difference_overflows-fits a b ha hb small other = ground (
  arith,
  -ℤ_parts a b,
  -ℤ_parts int64_max (neg_ℤ a),
  -ℤ_parts int64_min (neg_ℤ a),
  neg_ℤ_parts a,
  one_part (a -ℤ b),
  one_part (int64_max -ℤ neg_ℤ a),
  one_part (int64_min -ℤ neg_ℤ a),
)

-- a bound on a product and the bound that a quotient gives for one factor
div-lt : (a b m : ℕ) → ltb (m / suc b) a ≡ not (leb (a * suc b) m)
div-lt a b m = ground (arith, le-div_iff_mul-le {k = suc b} {x = a} {y = m} (omega arith))

div-lt_right : (a b m : ℕ) → ltb (m / suc a) b ≡ not (leb (suc a * b) m)
div-lt_right a b m = rw (mul_comm (suc a) b) (div-lt b a m)

ltb-neg_of : (b m : ℕ) → ltb_ℤ (negsuc b) (neg_of m) ≡ ltb m (suc b)
ltb-neg_of b zero = ground arith
ltb-neg_of b (suc m) = ground arith

pos-neg_of : (m : ℕ) → ltb_ℤ (pos 0) (neg_of m) ≡ false
pos-neg_of zero = refl
pos-neg_of (suc m) = ground arith

fits-neg_of : (m : ℕ) → fits_int64 (neg_of m) ≡ leb m 0x8000_0000_0000_0000
fits-neg_of zero = refl
fits-neg_of (suc m) = ground arith

fits-pos : (m : ℕ) → fits_int64 (pos m) ≡ leb m 0x7fff_ffff_ffff_ffff
fits-pos m = ground arith

pub product_overflows-fits : (a b : ℤ) → product_overflows a b ≡ not (fits_int64 (a *ℤ b))
unfolding product_overflows quot ◌*ℤ◌
product_overflows-fits (pos zero) (pos zero) = refl
product_overflows-fits (pos zero) (pos (suc b)) =
    ground (arith, pos-neg_of (0x8000_0000_0000_0000 / suc b), zero-mul (suc b))
product_overflows-fits (pos zero) (negsuc b) =
    ground (arith, fits-neg_of (0 * suc b), zero-mul (suc b))
product_overflows-fits (pos (suc a)) (pos zero) =
    ground (arith, pos-neg_of (0x8000_0000_0000_0000 / suc a), mul-zero (suc a))
product_overflows-fits (pos (suc a)) (pos (suc b)) =
    ground (arith, div-lt (suc a) b 0x7fff_ffff_ffff_ffff)
product_overflows-fits (pos (suc a)) (negsuc b) = ground (
  arith,
  ltb-neg_of b (0x8000_0000_0000_0000 / suc a),
  div-lt_right a (suc b) 0x8000_0000_0000_0000,
  fits-neg_of (suc a * suc b),
)
product_overflows-fits (negsuc a) (pos zero) =
    ground
      (arith, pos-neg_of (0x7fff_ffff_ffff_ffff / suc a), fits-neg_of (suc a * 0), mul-zero (suc a))
product_overflows-fits (negsuc a) (pos (suc b)) = ground (
  arith,
  ltb-neg_of a (0x8000_0000_0000_0000 / suc b),
  div-lt (suc a) b 0x8000_0000_0000_0000,
  fits-neg_of (suc a * suc b),
)
product_overflows-fits (negsuc a) (negsuc b) = ground (
  arith,
  ltb-neg_of b (0x7fff_ffff_ffff_ffff / suc a),
  div-lt_right a (suc b) 0x7fff_ffff_ffff_ffff,
)
