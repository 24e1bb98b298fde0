-- ===== src/Numbers/Instructions/Powers.antt =====
-- DO_EXPONENTIATION on two int64_t.
use chloride.Base.{ℕ, true, List, ◌≡◌, ◌≢◌, ◌⊎◌, inl, inr, arith}
use chloride.Base.Int.{ℤ, pos, fits_int64, ◌≤ℤ◌, ◌<ℤ◌}
use chloride.Base.Run.{Run}
use chloride.Numbers.{Gmp, Laws, int64, NumberObject}
use chloride.Numbers.Power.{exponent}
use chloride.Numbers.Power.Exact.{power_value, exponent-exact}
use chloride.Numbers.Instructions.{Value, Machine, Function, exponent_function, do_exponentiation}
use chloride.Numbers.Instructions.Operands.{Operands, Leaves, numeric-Leaves}

inside_domain : (a e : ℤ) → (a ≢ pos 0) ⊎ (pos 0 <ℤ e) → (a ≢ pos 0) ⊎ (pos 0 ≤ℤ e)
inside_domain a e (inl nonzero) = inl nonzero
inside_domain a e (inr positive) = inr (omega arith)

module _ {Q : Type 0} (gmp : Gmp Q) (laws : Laws gmp) where
  -- Where three registers follow and the first two hold the int64_t a and e, a not 0 or e positive,
  -- DO_EXPONENTIATION ends, within as many rounds as the exponent, and leaves a ^ e in the third, as a
  -- normal number: the integer power for e from 0 on, also where the fast path overflows, and its
  -- inverse for a negative e.
  pub do_exponentiation-Leaves :
      {O : Type 0}
      (call : Function → List (Value Q O) → Machine Q O → Run (Value Q O × Machine Q O))
      (m : Machine Q O) (c : ℕ) (x y : NumberObject Q) (a e : ℤ)
      → Operands m c x y
      → x.as_number ≡ int64 a
      → y.as_number ≡ int64 e
      → fits_int64 a ≡ true
      → (a ≢ pos 0) ⊎ (pos 0 <ℤ e)
      → Leaves gmp (do_exponentiation gmp call m) m c (power_value gmp a e)
  unfolding do_exponentiation
  do_exponentiation-Leaves call m c x y a e w ex ey ha inside =
      numeric-Leaves gmp call (exponent gmp) exponent_function m c x y (power_value gmp a e) w
        (rw (ex, ey) (exponent-exact gmp laws a e ha (inside_domain a e inside)))
