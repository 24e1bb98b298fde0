-- ===== src/Numbers.antt =====
-- The numbers of the runtime, src/runtime/objects/number/number.c: how a number object is built. A
-- number is an int64_t (`is_int64`) or a rational number of GMP.
--
-- GMP and MPFR are no code of the repository: `Gmp` holds what the source calls of them, `Laws` what
-- it relies on. An mpz_t is here an integer of ℤ, so its comparisons, parity and range tests are those
-- of integers. mpq_init, mpq_clear and the copies of limbs (mpq_new_gc_from) hold no value of their own.
pub mod Arithmetic
pub mod Divide
pub mod Power
pub mod Compare
pub mod Instructions
pub mod Built
use chloride.Base.{
  ℕ, zero, suc, Bool, not, ◌&&◌, Option, none, some, if◌then◌else◌, ◌≡◌, ◌≢◌, true, false, ltb, ◌^◌,
  ◌<◌,
}
use chloride.Base.Int.{
  ℤ, pos, negsuc, pos_part, ◌+ℤ◌, ◌-ℤ◌, ◌*ℤ◌, neg_ℤ, eqb_ℤ, leb_ℤ, ltb_ℤ, fits_int64, checked, rem,
  quot,
}
use chloride.Base.Run.{Run, ok, fault, ◌>>=◌}

-- a sign, as -1, 0 or 1
abbrev pub sign_of : ℤ → ℤ
sign_of (pos zero) = pos 0
sign_of (pos (suc n)) = pos 1
sign_of (negsuc n) = negsuc 0

pub record Gmp (Q : Type 0) : Type 0 where
  -- mpq_set_num, mpq_set_den and mpq_canonicalize; the denominator is not zero
  pub canonical : ℤ → ℤ → Q
  -- mpq_numref and mpq_denref
  pub num : Q → ℤ
  pub den : Q → ℤ
  pub add : Q → Q → Q
  pub sub : Q → Q → Q
  pub mul : Q → Q → Q
  -- mpq_div and mpq_inv; a division by zero ends the process
  pub div : Q → Q → Q
  pub inv : Q → Q
  pub neg : Q → Q
  -- mpq_cmp, mpq_cmp_ui with the denominator 1, and mpq_sgn, as -1, 0 or 1
  pub cmp : Q → Q → ℤ
  pub cmp_ui : Q → ℕ → ℤ
  pub sgn : Q → ℤ
  -- mpz_fdiv_q
  pub fdiv_q : ℤ → ℤ → ℤ
  -- the MPFR part of mpq_pow_q: a power with the exponent p / q
  pub root : Q → ℤ → ℤ → Q

-- What the source relies on, of the numbers n / 1 and of the quotients of two integers.
pub record Laws {Q : Type 0} (gmp : Gmp Q) : Type 0 where
  pub num_of : (n : ℤ) → gmp.num (gmp.canonical n (pos 1)) ≡ n
  pub den_of : (n : ℤ) → gmp.den (gmp.canonical n (pos 1)) ≡ pos 1
  pub whole : (q : Q) → gmp.den q ≡ pos 1 → gmp.canonical (gmp.num q) (pos 1) ≡ q
  pub add_of :
      (m n : ℤ)
      → gmp.add (gmp.canonical m (pos 1)) (gmp.canonical n (pos 1)) ≡ gmp.canonical (m +ℤ n) (pos 1)
  pub sub_of :
      (m n : ℤ)
      → gmp.sub (gmp.canonical m (pos 1)) (gmp.canonical n (pos 1)) ≡ gmp.canonical (m -ℤ n) (pos 1)
  pub mul_of :
      (m n : ℤ)
      → gmp.mul (gmp.canonical m (pos 1)) (gmp.canonical n (pos 1)) ≡ gmp.canonical (m *ℤ n) (pos 1)
  pub neg_of : (n : ℤ) → gmp.neg (gmp.canonical n (pos 1)) ≡ gmp.canonical (neg_ℤ n) (pos 1)
  pub sgn_of : (q : Q) → eqb_ℤ (gmp.sgn q) (pos 0) ≡ true → q ≡ gmp.canonical (pos 0) (pos 1)
  pub sgn_pos : (n : ℕ) → ltb_ℤ (pos 0) (gmp.sgn (gmp.canonical (pos (suc n)) (pos 1))) ≡ true
  pub sgn_zero : gmp.sgn (gmp.canonical (pos 0) (pos 1)) ≡ pos 0
  -- comparisons: of two integers, with the operands in the other order, and with an unsigned integer
  pub cmp_of :
      (m n : ℤ) → gmp.cmp (gmp.canonical m (pos 1)) (gmp.canonical n (pos 1)) ≡ sign_of (m -ℤ n)
  pub cmp_swap : (p q : Q) → gmp.cmp p q ≡ neg_ℤ (gmp.cmp q p)
  pub cmp_ui_of : (q : Q) (n : ℕ) → gmp.cmp_ui q n ≡ gmp.cmp q (gmp.canonical (pos n) (pos 1))
  -- a quotient by a positive or a negative integer, and when it is an integer
  pub div_of :
      (m : ℤ) (d : ℕ)
      → gmp.div (gmp.canonical m (pos 1)) (gmp.canonical (pos (suc d)) (pos 1))
        ≡ gmp.canonical m (pos (suc d))
  pub div_of_neg :
      (m : ℤ) (d : ℕ)
      → gmp.div (gmp.canonical m (pos 1)) (gmp.canonical (negsuc d) (pos 1))
        ≡ gmp.canonical (neg_ℤ m) (pos (suc d))
  pub exact :
      (m : ℤ) (d : ℕ)
      → rem m (pos (suc d)) ≡ pos 0
      → gmp.canonical m (pos (suc d)) ≡ gmp.canonical (quot m (pos (suc d))) (pos 1)
  pub inexact :
      (m : ℤ) (d : ℕ)
      → rem m (pos (suc d)) ≢ pos 0
      → gmp.den (gmp.canonical m (pos (suc d))) ≢ pos 1

-- struct as_number: `is_int64` and the union `n`
pub data Number (Q : Type 0) : Type 0 where
  int64 : ℤ → Number Q
  rational : Q → Number Q

-- what the code reads of a number object
pub record NumberObject (Q : Type 0) : Type 0 where
  pub as_number : Number Q
  pub as_bool : Bool

-- The conversion of an integer to bool.
abbrev pub to_bool : ℤ → Bool
to_bool n = not (eqb_ℤ n (pos 0))

abbrev pub small_ints_min : ℤ
small_ints_min = negsuc 255

abbrev pub small_ints_max : ℤ
small_ints_max = pos 256

abbrev pub is_small : ℤ → Bool
is_small n = leb_ℤ small_ints_min n && leb_ℤ n small_ints_max

module _ {Q : Type 0} where
  -- the entry that init_small_ints writes at the index i
  unfoldable pub small_ints : ℕ → NumberObject Q
  small_ints i =
      let n = pos i +ℤ small_ints_min in record { as_number = int64 n; as_bool = to_bool n }

  unfoldable pub new_number_object_from_int64 : ℤ → NumberObject Q
  new_number_object_from_int64 i64 =
      if is_small i64
      then small_ints (pos_part (i64 -ℤ small_ints_min))
      else record { as_number = int64 i64; as_bool = to_bool i64 }

module _ {Q : Type 0} (gmp : Gmp Q) where
  -- mpz_set_si64 of both, on a platform whose long has 64 bits
  unfoldable pub mpq_set_si64 : ℤ → ℤ → Q
  mpq_set_si64 n d = gmp.canonical n d

  -- the int64_t that a number with the denominator 1 holds, if it is in the range
  unfoldable pub mpq_to_int64 : Q → Option ℤ
  mpq_to_int64 q =
      if not (eqb_ℤ (gmp.den q) (pos 1))
      then none
      else if not (fits_int64 (gmp.num q))
      then none
      else some (gmp.num q)

  abbrev pub from_mpq : Q → Option ℤ → NumberObject Q
  from_mpq number (some i64) =
      if is_small i64
      then small_ints (pos_part (i64 -ℤ small_ints_min))
      else record { as_number = int64 i64; as_bool = to_bool i64 }
  from_mpq number none = record {
    as_number = rational number;
    as_bool = not (eqb_ℤ (gmp.sgn number) (pos 0));
  }

  unfoldable pub new_number_object : Q → NumberObject Q
  new_number_object number = from_mpq number (mpq_to_int64 number)

  -- `n % d` and `n / d` are not computed for the denominator 0, which C leaves undefined
  unfoldable pub new_number_object_from_num_and_den : ℤ → ℤ → Run (NumberObject Q)
  new_number_object_from_num_and_den n d =
      if eqb_ℤ d (pos 1) && is_small n
      then ok (small_ints (pos_part (n -ℤ small_ints_min)))
      else if eqb_ℤ d (pos 0)
      then fault
      else if eqb_ℤ (rem n d) (pos 0)
      then (checked (quot n d) >>= λ m. ok (record { as_number = int64 m; as_bool = to_bool m }))
      else if eqb_ℤ d (pos 1)
      then ok (record { as_number = int64 n; as_bool = to_bool n })
      else ok (record { as_number = rational (mpq_set_si64 n d); as_bool = to_bool n })

  -- how the methods load an operand of either kind
  unfoldable pub to_mpq : Number Q → Q
  to_mpq (int64 n) = mpq_set_si64 n (pos 1)
  to_mpq (rational q) = q

  -- a division of GMP, which ends the process on a zero divisor
  unfoldable pub mpq_div : Q → Q → Run Q
  mpq_div a b = if eqb_ℤ (gmp.sgn b) (pos 0) then fault else ok (gmp.div a b)
