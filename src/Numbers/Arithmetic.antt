-- ===== src/Numbers/Arithmetic.antt =====
-- Negation, sums, differences and products of numbers, src/runtime/objects/number/number.c: a fast path
-- on int64_t, behind a test of overflow, and GMP for the rest. The instructions of the virtual machine
-- repeat the same code.
pub mod Overflow
pub mod Exact
use chloride.Base.{Bool, true, ◌&&◌, ◌||◌, if◌then◌else◌, not}
use chloride.Base.Int.{
  ℤ, pos, ◌+ℤ◌, ◌-ℤ◌, ◌*ℤ◌, neg_ℤ, eqb_ℤ, ltb_ℤ, checked, quot, int64_min, int64_max,
}
use chloride.Base.Run.{Run, ok, ◌>>=◌}
use chloride.Numbers.{
  Gmp, Number, int64, rational, NumberObject, new_number_object_from_int64, new_number_object,
  to_mpq, mpq_set_si64,
}

-- `gonna_overflow` of a sum
unfoldable pub sum_overflows : ℤ → ℤ → Bool
sum_overflows a b =
    (ltb_ℤ (pos 0) a && ltb_ℤ (pos 0) b && ltb_ℤ (int64_max -ℤ b) a)
    || (ltb_ℤ a (pos 0) && ltb_ℤ b (pos 0) && ltb_ℤ a (int64_min -ℤ b))

-- `gonna_overflow` of a difference, from `neg_a`
unfoldable pub difference_overflows : ℤ → ℤ → Bool
difference_overflows neg_a b =
    (ltb_ℤ (pos 0) neg_a && ltb_ℤ (pos 0) b && ltb_ℤ (int64_max -ℤ neg_a) b)
    || (ltb_ℤ neg_a (pos 0) && ltb_ℤ b (pos 0) && ltb_ℤ b (int64_min -ℤ neg_a))

-- `gonna_overflow` of a product
unfoldable pub product_overflows : ℤ → ℤ → Bool
product_overflows a b =
    if ltb_ℤ (pos 0) a
    then (if ltb_ℤ (pos 0) b then ltb_ℤ (quot int64_max b) a else ltb_ℤ b (quot int64_min a))
    else (if ltb_ℤ (pos 0) b
        then ltb_ℤ a (quot int64_min b)
        else not (eqb_ℤ a (pos 0)) && ltb_ℤ b (quot int64_max a))

module _ {Q : Type 0} (gmp : Gmp Q) where
  unfoldable pub negation : Number Q → Run (NumberObject Q)
  negation (int64 a) = checked (neg_ℤ a) >>= λ n. ok (new_number_object_from_int64 n)
  negation (rational q) = ok (new_number_object gmp (gmp.neg q))

  unfoldable pub add : Number Q → Number Q → Run (NumberObject Q)
  add (int64 a) (int64 b) =
      if not (sum_overflows a b)
      then (checked (a +ℤ b) >>= λ n. ok (new_number_object_from_int64 n))
      else ok (
          new_number_object gmp (gmp.add (mpq_set_si64 gmp a (pos 1)) (mpq_set_si64 gmp b (pos 1))))
  add (rational p) (rational q) = ok (new_number_object gmp (gmp.add p q))
  add a b = ok (new_number_object gmp (gmp.add (to_mpq gmp a) (to_mpq gmp b)))

  -- `neg_a` is computed first
  unfoldable pub subtract : Number Q → Number Q → Run (NumberObject Q)
  subtract (int64 a) (int64 b) = checked (neg_ℤ a) >>= λ neg_a.
      if not (difference_overflows neg_a b)
      then (checked (a -ℤ b) >>= λ n. ok (new_number_object_from_int64 n))
      else ok (
          new_number_object gmp (gmp.sub (mpq_set_si64 gmp a (pos 1)) (mpq_set_si64 gmp b (pos 1))))
  subtract (rational p) (rational q) = ok (new_number_object gmp (gmp.sub p q))
  subtract a b = ok (new_number_object gmp (gmp.sub (to_mpq gmp a) (to_mpq gmp b)))

  unfoldable pub multiply : Number Q → Number Q → Run (NumberObject Q)
  multiply (int64 a) (int64 b) =
      if not (product_overflows a b)
      then (checked (a *ℤ b) >>= λ n. ok (new_number_object_from_int64 n))
      else ok (
          new_number_object gmp (gmp.mul (mpq_set_si64 gmp a (pos 1)) (mpq_set_si64 gmp b (pos 1))))
  multiply (rational p) (rational q) = ok (new_number_object gmp (gmp.mul p q))
  multiply a b = ok (new_number_object gmp (gmp.mul (to_mpq gmp a) (to_mpq gmp b)))
