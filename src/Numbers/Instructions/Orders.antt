-- ===== src/Numbers/Instructions/Orders.antt =====
-- DO_EQUAL up to DO_GREATER_THAN_EQUAL.
use chloride.Base.{ℕ, Bool, not, List, ◌≡◌}
use chloride.Base.Int.{ℤ, pos, ltb_ℤ, leb_ℤ, eqb_ℤ}
use chloride.Base.Run.{Run, ok}
use chloride.Numbers.{Gmp, Laws, Number, NumberObject, to_mpq}
use chloride.Numbers.Compare.{
  equal, not_equal, less_than, less_than_equal, greater_than, greater_than_equal,
}
use chloride.Numbers.Compare.Exact.{Comparable, compare-exact}
use chloride.Numbers.Divide.{returned}
use chloride.Numbers.Instructions.{
  Value, boolean, Machine, Function, comparison, equal_function, not_equal_function,
  less_than_function, less_than_equal_function, greater_than_function, greater_than_equal_function,
  do_equal, do_not_equal, do_less_than, do_less_than_equal, do_greater_than, do_greater_than_equal,
}
use chloride.Numbers.Instructions.Operands.{Operands, stored, binary-returned}

module _ {Q O : Type 0} (gmp : Gmp Q)
    (call : Function → List (Value Q O) → Machine Q O → Run (Value Q O × Machine Q O)) where
  comparison-stored :
      (test : Number Q → Number Q → Bool) (f : Function) (m : Machine Q O) (c : ℕ)
      (x y : NumberObject Q) (answer : Bool)
      → Operands m c x y
      → test x.as_number y.as_number ≡ answer
      → comparison gmp call test f m ≡ ok (stored m c (boolean answer))
  comparison-stored test f m c x y answer w e =
      binary-returned gmp call (λ s t. ok (returned (boolean (test s t)))) f m c x y
        (boolean answer) w (rw e)

  -- Where three registers follow and the first two hold numbers, and an int64_t beside a rational
  -- number is not negative, the six instructions of comparison leave in the third the answers that one
  -- comparison of the two rational numbers gives.
  pub do_comparison-stored :
      (laws : Laws gmp) (m : Machine Q O) (c : ℕ) (x y : NumberObject Q)
      → Operands m c x y
      → Comparable gmp x.as_number y.as_number
      → (d : ℤ) × (d ≡ gmp.cmp (to_mpq gmp x.as_number) (to_mpq gmp y.as_number))
        × (do_equal gmp call m ≡ ok (stored m c (boolean (eqb_ℤ d (pos 0)))))
        × (do_not_equal gmp call m ≡ ok (stored m c (boolean (not (eqb_ℤ d (pos 0))))))
        × (do_less_than gmp call m ≡ ok (stored m c (boolean (ltb_ℤ d (pos 0)))))
        × (do_less_than_equal gmp call m ≡ ok (stored m c (boolean (leb_ℤ d (pos 0)))))
        × (do_greater_than gmp call m ≡ ok (stored m c (boolean (ltb_ℤ (pos 0) d))))
        × (do_greater_than_equal gmp call m ≡ ok (stored m c (boolean (leb_ℤ (pos 0) d))))
  unfolding do_equal do_not_equal do_less_than do_less_than_equal do_greater_than
      do_greater_than_equal
  do_comparison-stored laws m c x y w h =
      let (d, same, e, ne, lt, le, gt, ge) = compare-exact gmp laws x.as_number y.as_number h in
      (
        d,
        same,
        comparison-stored (equal gmp) equal_function m c x y (eqb_ℤ d (pos 0)) w e,
        comparison-stored (not_equal gmp) not_equal_function m c x y (not (eqb_ℤ d (pos 0))) w ne,
        comparison-stored (less_than gmp) less_than_function m c x y (ltb_ℤ d (pos 0)) w lt,
        comparison-stored (less_than_equal gmp) less_than_equal_function m c x y (leb_ℤ d (pos 0)) w
            le,
        comparison-stored (greater_than gmp) greater_than_function m c x y (ltb_ℤ (pos 0) d) w gt,
        comparison-stored (greater_than_equal gmp) greater_than_equal_function m c x y
            (leb_ℤ (pos 0) d) w ge,
      )
