-- ===== src/Numbers/Power.antt =====
-- Exponentiation of numbers by repeated squaring, src/runtime/objects/number/number.c: on int64_t with
-- the overflow test of the compiler (__builtin_mul_overflow), and on rational numbers.
--
-- The loops halve the exponent, so the fuel is the exponent itself; a fault of a loop means that the fuel
-- ran out.
pub mod Squaring
pub mod Exact
use chloride.Base.{
  ℕ, zero, suc, ◌/◌, bit_and, Bool, true, false, not, ◌&&◌, ◌==◌, Option, none, some, if◌then◌else◌,
}
use chloride.Base.Int.{ℤ, pos, negsuc, ◌*ℤ◌, neg_ℤ, eqb_ℤ, ltb_ℤ, leb_ℤ, fits_int64, pos_part}
use chloride.Base.Run.{Run, ok, fault, ◌>>=◌}
use chloride.Numbers.{
  Gmp, Number, int64, rational, NumberObject, new_number_object_from_int64, new_number_object,
  to_mpq, mpq_set_si64,
}
use chloride.Numbers.Divide.{Outcome, returned, raised, maths_error, returns}

-- __builtin_mul_overflow: the product, unless it leaves the range of int64_t
unfoldable pub mul_overflow : ℤ → ℤ → Option ℤ
mul_overflow a b = if fits_int64 (a *ℤ b) then some (a *ℤ b) else none

-- `if (e & 1)`, for an operation that can fail
abbrev pub when_odd {ℓ} : {A : Type ℓ} → ℕ → A → A → A
when_odd e yes_value no_value = if bit_and e 1 == 1 then yes_value else no_value

-- The loop on int64_t, for an exponent that is not negative; `none` is an overflow.
unfoldable pub power_loop : ℕ → ℤ → ℤ → ℕ → Run (Option ℤ)
power_loop zero result a e = if e == 0 then ok (some result) else fault
power_loop (suc fuel) result a e = elim (e == 0) [
  | true ↦ ok (some result)
  | false ↦ elim (when_odd e (mul_overflow result a) (some result)) [
    | none ↦ ok none
    | some next ↦ elim (if e / 2 == 0 then some a else mul_overflow a a) [
      | none ↦ ok none
      | some square ↦ power_loop fuel next square (e / 2)
    ]
  ]
]

module _ {Q : Type 0} (gmp : Gmp Q) where
  -- the loop of mpq_pow_z
  unfoldable pub mpq_power_loop : ℕ → Q → Q → ℕ → Run Q
  mpq_power_loop zero result tmp e = if e == 0 then ok result else fault
  mpq_power_loop (suc fuel) result tmp e = elim (e == 0) [
    | true ↦ ok result
    | false ↦ mpq_power_loop fuel (when_odd e (gmp.mul result tmp) result) (gmp.mul tmp tmp) (e / 2)
  ]

  -- mpq_inv, which ends the process on zero
  unfoldable pub mpq_inv : Q → Run Q
  mpq_inv q = if eqb_ℤ (gmp.sgn q) (pos 0) then fault else ok (gmp.inv q)

  unfoldable pub mpq_pow_z : Q → ℤ → Run Q
  mpq_pow_z base exp =
      let negative = ltb_ℤ exp (pos 0) in
      let e = pos_part (if negative then neg_ℤ exp else exp) in
      mpq_power_loop e (gmp.canonical (pos 1) (pos 1)) base e >>= λ result.
      if negative then mpq_inv result else ok result

  unfoldable pub mpq_pow_q : Q → Q → Run Q
  mpq_pow_q e n =
      if eqb_ℤ (gmp.den n) (pos 1)
      then mpq_pow_z e (gmp.num n)
      else ok (gmp.root e (gmp.num n) (gmp.den n))

  -- the part headed "GMP / rational path"
  unfoldable pub exponent_rational : Number Q → Number Q → Run (Outcome (NumberObject Q))
  exponent_rational base exp =
      let a = to_mpq gmp base in
      let b = to_mpq gmp exp in
      if eqb_ℤ (gmp.sgn a) (pos 0) && leb_ℤ (gmp.sgn b) (pos 0)
      then ok (raised maths_error)
      else if ltb_ℤ (gmp.sgn a) (pos 0) && not (eqb_ℤ (gmp.den b) (pos 1))
      then ok (raised maths_error)
      else returns (mpq_pow_q a b >>= λ r. ok (new_number_object gmp r))

  -- what follows the loop on int64_t
  abbrev pub after_loop : Number Q → Number Q → Option ℤ → Run (Outcome (NumberObject Q))
  after_loop base exp (some result) = ok (returned (new_number_object_from_int64 result))
  after_loop base exp none = exponent_rational base exp

  unfoldable pub exponent : Number Q → Number Q → Run (Outcome (NumberObject Q))
  exponent (int64 base) (int64 exp) =
      if ltb_ℤ exp (pos 0)
      then returns (
          mpq_pow_q (mpq_set_si64 gmp base (pos 1)) (mpq_set_si64 gmp exp (pos 1)) >>= λ r.
          ok (new_number_object gmp r))
      else (power_loop (pos_part exp) (pos 1) base (pos_part exp) >>= λ r.
          after_loop (int64 base) (int64 exp) r)
  exponent base exp = exponent_rational base exp
