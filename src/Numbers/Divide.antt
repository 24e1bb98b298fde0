-- ===== src/Numbers/Divide.antt =====
-- Division, floor division and modulo of numbers, src/runtime/objects/number/number.c. A zero divisor
-- raises a ZeroDivisionError where the code tests for it.
pub mod Quotient
pub mod Exact
pub mod Remainder
use chloride.Base.{if◌then◌else◌, Bool, ◌≡◌, false}
use chloride.Base.Int.{ℤ, pos, neg_ℤ, eqb_ℤ, ltb_ℤ, checked, quot, rem}
use chloride.Base.Run.{Run, ok, ◌>>=◌}
use chloride.Numbers.{
  Gmp, Number, int64, rational, NumberObject, new_number_object_from_int64, new_number_object,
  new_number_object_from_num_and_den, to_mpq, mpq_set_si64, mpq_div,
}

-- the classes of the errors that the modelled methods create
pub data Error : Type 0 where
  runtime_error zero_division_error maths_error index_error : Error

-- what a method leaves: its value, or the error it stored in `*err`
pub data Outcome {ℓ} (A : Type ℓ) : Type ℓ where
  returned : A → Outcome A
  raised : Error → Outcome A

-- a value that cannot be an error
abbrev pub returns {ℓ} : {A : Type ℓ} → Run A → Run (Outcome A)
returns r = r >>= λ a. ok (returned a)

module _ {Q : Type 0} (gmp : Gmp Q) where
  -- the quotient of mpq_div is canonical already
  unfoldable pub mpq_fdiv : Q → Q → Run Q
  mpq_fdiv a b =
      mpq_div gmp a b >>= λ tmp. ok (gmp.canonical (gmp.fdiv_q (gmp.num tmp) (gmp.den tmp)) (pos 1))

  unfoldable pub mpq_fmod : Q → Q → Run Q
  mpq_fmod a b = mpq_fdiv a b >>= λ q. ok (gmp.sub a (gmp.mul b q))

  -- what the three operations have in common: an int64_t divisor is tested, and a pair of int64_t
  -- takes the fast path
  abbrev pub divide_with :
      (ℤ → ℤ → Run (NumberObject Q))
      → (Q → Q → Run Q)
      → Number Q
      → Number Q
      → Run (Outcome (NumberObject Q))
  divide_with fast slow (int64 a) (int64 b) =
      if eqb_ℤ b (pos 0) then ok (raised zero_division_error) else returns (fast a b)
  divide_with fast slow (rational p) (int64 b) =
      if eqb_ℤ b (pos 0)
      then ok (raised zero_division_error)
      else returns (slow p (mpq_set_si64 gmp b (pos 1)) >>= λ q. ok (new_number_object gmp q))
  divide_with fast slow (int64 a) (rational q) =
      returns (slow (mpq_set_si64 gmp a (pos 1)) q >>= λ r. ok (new_number_object gmp r))
  divide_with fast slow (rational p) (rational q) =
      returns (slow p q >>= λ r. ok (new_number_object gmp r))

  unfoldable pub divide_int64 : ℤ → ℤ → Run (NumberObject Q)
  divide_int64 a b =
      if ltb_ℤ b (pos 0)
      then (checked (neg_ℤ a) >>= λ n.
          checked (neg_ℤ b) >>= λ d. new_number_object_from_num_and_den gmp n d)
      else new_number_object_from_num_and_den gmp a b

  unfoldable pub floor_divide_int64 : ℤ → ℤ → Run (NumberObject Q)
  floor_divide_int64 a b = checked (quot a b) >>= λ q. ok (new_number_object_from_int64 q)

  -- `a % b` is undefined where `a / b` is
  unfoldable pub modulo_int64 : ℤ → ℤ → Run (NumberObject Q)
  modulo_int64 a b = checked (quot a b) >>= λ q. ok (new_number_object_from_int64 (rem a b))

  unfoldable pub division : Number Q → Number Q → Run (Outcome (NumberObject Q))
  division = divide_with divide_int64 (mpq_div gmp)

  unfoldable pub floor_division : Number Q → Number Q → Run (Outcome (NumberObject Q))
  floor_division = divide_with floor_divide_int64 mpq_fdiv

  unfoldable pub modulo : Number Q → Number Q → Run (Outcome (NumberObject Q))
  modulo = divide_with modulo_int64 mpq_fmod
