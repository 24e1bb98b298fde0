-- ===== src/Numbers/Power/Exact.antt =====
-- A power of two int64_t is exact, on the fast path and where it overflows.
use chloride.Base.{
  ℕ, zero, suc, ◌≡◌, ◌≢◌, Bool-cases, true, false, not, ◌&&◌, Option, none, some, refl, sym, ◌∙◌,
  arith, inl, inr, ◌⊎◌,
}
use chloride.Base.Int.{ℤ, pos, negsuc, ◌*ℤ◌, neg_ℤ, fits_int64, eqb_ℤ, eqb_ℤ→eq, leb_ℤ, ltb_ℤ, ◌≤ℤ◌}
use chloride.Base.Int.Laws.{*ℤ_comm, *ℤ_one, *ℤ_zero, mul-ne_zero}
use chloride.Base.Run.{ok, fault, Returns}
use chloride.Numbers.{
  Gmp, Laws, int64, NumberObject, new_number_object_from_int64, new_number_object, mpq_set_si64,
  to_mpq,
}
use chloride.Numbers.Built.{Represents, from_int64-Represents, new_number_object-Represents}
use chloride.Numbers.Divide.{returned}
use chloride.Numbers.Divide.Exact.{sgn-of_int64}
use chloride.Numbers.Power.{mpq_inv, mpq_pow_z, mpq_pow_q, exponent_rational, exponent, after_loop}
use chloride.Numbers.Power.Squaring.{power, Powered, power_loop-Returns, mpq_power_loop-whole}

one_mul : (a : ℤ) → pos 1 *ℤ a ≡ a
one_mul a = *ℤ_comm (pos 1) a ∙ *ℤ_one a

power-ne_zero : (a : ℤ) (n : ℕ) → eqb_ℤ a (pos 0) ≡ false → eqb_ℤ (power a n) (pos 0) ≡ false
unfolding power
power-ne_zero a zero h = refl
power-ne_zero a (suc n) h = mul-ne_zero (power a n) a (power-ne_zero a n h) h

power-zero : (n : ℕ) → power (pos 0) (suc n) ≡ pos 0
unfolding power
power-zero n = *ℤ_zero (power (pos 0) n)

module _ {Q : Type 0} (gmp : Gmp Q) where
  -- the value of a power of two integers
  abbrev pub power_value : ℤ → ℤ → Q
  power_value a (pos e) = gmp.canonical (power a e) (pos 1)
  power_value a (negsuc e) = gmp.inv (gmp.canonical (power a (suc e)) (pos 1))

module _ {Q : Type 0} (gmp : Gmp Q) (laws : Laws gmp) where
  pow_z-pos :
      (a : ℤ) (e : ℕ)
      → mpq_pow_z gmp (gmp.canonical a (pos 1)) (pos e) ≡ ok (gmp.canonical (power a e) (pos 1))
  unfolding mpq_pow_z
  pow_z-pos a e =
      let sign : ltb_ℤ (pos e) (pos 0) ≡ false = ground arith in
      rw (sign, mpq_power_loop-whole gmp laws e (pos 1) a e (omega arith), one_mul (power a e))

  pow_z-negsuc :
      (a : ℤ) (e : ℕ)
      → mpq_pow_z gmp (gmp.canonical a (pos 1)) (negsuc e)
        ≡ mpq_inv gmp (gmp.canonical (power a (suc e)) (pos 1))
  unfolding mpq_pow_z neg_ℤ
  pow_z-negsuc a e =
      let sign : ltb_ℤ (negsuc e) (pos 0) ≡ true = ground arith in
      rw (
        sign,
        mpq_power_loop-whole gmp laws (suc e) (pos 1) a (suc e) (omega arith),
        one_mul (power a (suc e)),
      )

  pow_q-whole :
      (a e : ℤ)
      → mpq_pow_q gmp (gmp.canonical a (pos 1)) (gmp.canonical e (pos 1))
        ≡ mpq_pow_z gmp (gmp.canonical a (pos 1)) e
  unfolding mpq_pow_q
  pow_q-whole a e = rw (laws.den_of e, laws.num_of e)

  fallback :
      (a : ℤ) (e : ℕ)
      → exponent_rational gmp (int64 a) (int64 (pos (suc e)))
        ≡ ok (returned (new_number_object gmp (gmp.canonical (power a (suc e)) (pos 1))))
  unfolding exponent_rational to_mpq mpq_set_si64
  fallback a e =
      let positive : leb_ℤ (gmp.sgn (gmp.canonical (pos (suc e)) (pos 1))) (pos 0) ≡ false =
        ground (arith, laws.sgn_pos e) in
      let unit : eqb_ℤ (gmp.den (gmp.canonical (pos (suc e)) (pos 1))) (pos 1) ≡ true =
        rw (laws.den_of (pos (suc e))) refl in
      let first : (eqb_ℤ (gmp.sgn (gmp.canonical a (pos 1))) (pos 0)
            && leb_ℤ (gmp.sgn (gmp.canonical (pos (suc e)) (pos 1))) (pos 0))
          ≡ false =
        ground arith in
      let second : (ltb_ℤ (gmp.sgn (gmp.canonical a (pos 1))) (pos 0)
            && not (eqb_ℤ (gmp.den (gmp.canonical (pos (suc e)) (pos 1))) (pos 1)))
          ≡ false =
        ground arith in
      rw (first, second, pow_q-whole a (pos (suc e)), pow_z-pos a (suc e))

  pub exponent-exact :
      (a e : ℤ)
      → fits_int64 a ≡ true
      → (a ≢ pos 0) ⊎ (pos 0 ≤ℤ e)
      → Returns
          (exponent gmp (int64 a) (int64 e))
          (λ u. (o : NumberObject Q) × (u ≡ returned o) × Represents gmp o (power_value gmp a e))
  unfolding exponent mpq_set_si64 mpq_inv
  exponent-exact a (pos e) ha inside =
      let sign : ltb_ℤ (pos e) (pos 0) ≡ false = ground arith in
      let (left, runs, powered) = power_loop-Returns e (pos 1) a e (omega arith) refl in
      rw (sign, runs) (after a e left powered)
    where
      after :
          (a : ℤ) (e : ℕ) (left : Option ℤ)
          → Powered (pos 1) a e left
          → Returns (after_loop gmp (int64 a) (int64 (pos e)) left) (λ u.
            (o : NumberObject Q) × (u ≡ returned o)
            × Represents gmp o (gmp.canonical (power a e) (pos 1)))
      after a e (some n) (value, fits) = (
        returned (new_number_object_from_int64 n),
        refl,
        (
          new_number_object_from_int64 n,
          refl,
          rw (sym (one_mul (power a e)), sym value) (from_int64-Represents gmp n fits),
        ),
      )
      after a zero none more = absurd (more refl)
      after a (suc e) none more =
          let q = gmp.canonical (power a (suc e)) (pos 1) in
          rw (fallback a e) (
            returned (new_number_object gmp q),
            refl,
            (new_number_object gmp q, refl, new_number_object-Represents gmp laws q),
          )
  exponent-exact a (negsuc e) ha (inr positive) = absurd (omega arith)
  exponent-exact a (negsuc e) ha (inl nonzero) =
      let sign : ltb_ℤ (negsuc e) (pos 0) ≡ true = ground arith in
      let other : eqb_ℤ a (pos 0) ≡ false = elim (Bool-cases (eqb_ℤ a (pos 0))) [
        | inl same ↦ absurd (nonzero (eqb_ℤ→eq a (pos 0) same))
        | inr apart ↦ apart
      ] in
      let base = sgn-of_int64 gmp laws (power a (suc e)) (power-ne_zero a (suc e) other) in
      let q = gmp.inv (gmp.canonical (power a (suc e)) (pos 1)) in
      rw (sign, pow_q-whole a (negsuc e), pow_z-negsuc a e, mpq_inv, base)
        (
          returned (new_number_object gmp q),
          refl,
          (new_number_object gmp q, refl, new_number_object-Represents gmp laws q),
        )

  -- zero to a negative power reaches the division by zero of mpq_inv
  pub exponent-zero : (e : ℕ) → exponent gmp (int64 (pos 0)) (int64 (negsuc e)) ≡ fault
  unfolding exponent mpq_set_si64 mpq_inv
  exponent-zero e =
      let sign : ltb_ℤ (negsuc e) (pos 0) ≡ true = ground arith in
      rw (
        sign,
        pow_q-whole (pos 0) (negsuc e),
        pow_z-negsuc (pos 0) e,
        power-zero e,
        mpq_inv,
        laws.sgn_zero,
      )
