-- ===== src/Numbers/Compare.antt =====
-- Comparisons of numbers, src/runtime/objects/number/number.c. A rational number and an int64_t are
-- compared by mpq_cmp_ui, whose argument is an unsigned long: the int64_t is converted to it first.
pub mod Exact
use chloride.Base.{ℕ, ◌+◌, ◌-◌, Bool, not}
use chloride.Base.Int.{ℤ, pos, negsuc, ltb_ℤ, leb_ℤ, eqb_ℤ}
use chloride.Numbers.{Gmp, Number, int64, rational}

-- the conversion of an int64_t to unsigned long
unfoldable pub to_unsigned : ℤ → ℕ
to_unsigned (pos n) = n
to_unsigned (negsuc n) = 0xffff_ffff_ffff_ffff - n

module _ {Q : Type 0} (gmp : Gmp Q) where
  unfoldable pub equal : Number Q → Number Q → Bool
  equal (int64 a) (int64 b) = eqb_ℤ a b
  equal (rational p) (rational q) = eqb_ℤ (gmp.cmp p q) (pos 0)
  equal (int64 a) (rational q) = eqb_ℤ (gmp.cmp_ui q (to_unsigned a)) (pos 0)
  equal (rational p) (int64 b) = eqb_ℤ (gmp.cmp_ui p (to_unsigned b)) (pos 0)

  unfoldable pub not_equal : Number Q → Number Q → Bool
  not_equal (int64 a) (int64 b) = not (eqb_ℤ a b)
  not_equal (rational p) (rational q) = not (eqb_ℤ (gmp.cmp p q) (pos 0))
  not_equal (int64 a) (rational q) = not (eqb_ℤ (gmp.cmp_ui q (to_unsigned a)) (pos 0))
  not_equal (rational p) (int64 b) = not (eqb_ℤ (gmp.cmp_ui p (to_unsigned b)) (pos 0))

  unfoldable pub less_than : Number Q → Number Q → Bool
  less_than (int64 a) (int64 b) = ltb_ℤ a b
  less_than (rational p) (rational q) = ltb_ℤ (gmp.cmp p q) (pos 0)
  less_than (int64 a) (rational q) = ltb_ℤ (pos 0) (gmp.cmp_ui q (to_unsigned a))
  less_than (rational p) (int64 b) = ltb_ℤ (gmp.cmp_ui p (to_unsigned b)) (pos 0)

  unfoldable pub less_than_equal : Number Q → Number Q → Bool
  less_than_equal (int64 a) (int64 b) = leb_ℤ a b
  less_than_equal (rational p) (rational q) = leb_ℤ (gmp.cmp p q) (pos 0)
  less_than_equal (int64 a) (rational q) = leb_ℤ (pos 0) (gmp.cmp_ui q (to_unsigned a))
  less_than_equal (rational p) (int64 b) = leb_ℤ (gmp.cmp_ui p (to_unsigned b)) (pos 0)

  unfoldable pub greater_than : Number Q → Number Q → Bool
  greater_than (int64 a) (int64 b) = ltb_ℤ b a
  greater_than (rational p) (rational q) = ltb_ℤ (pos 0) (gmp.cmp p q)
  greater_than (int64 a) (rational q) = ltb_ℤ (gmp.cmp_ui q (to_unsigned a)) (pos 0)
  greater_than (rational p) (int64 b) = ltb_ℤ (pos 0) (gmp.cmp_ui p (to_unsigned b))

  unfoldable pub greater_than_equal : Number Q → Number Q → Bool
  greater_than_equal (int64 a) (int64 b) = leb_ℤ b a
  greater_than_equal (rational p) (rational q) = leb_ℤ (pos 0) (gmp.cmp p q)
  greater_than_equal (int64 a) (rational q) = leb_ℤ (gmp.cmp_ui q (to_unsigned a)) (pos 0)
  greater_than_equal (rational p) (int64 b) = leb_ℤ (pos 0) (gmp.cmp_ui p (to_unsigned b))
