-- ===== src/Tests/Numbers.antt =====
-- Runs of the numbers, src/runtime/objects/number/number.c, with fractions in the place of GMP.
use chloride.Base.{ℕ, true, false, ◌≡◌, ◌⊎◌, inl, inr, refl, none, some, List, [], ◌∷◌, arith, not}
use chloride.Base.Int.{
  ℤ, pos, negsuc, ◌+ℤ◌, ◌-ℤ◌, ◌*ℤ◌, neg_ℤ, quot, rem, int64_max, eqb_ℤ, leb_ℤ, ltb_ℤ,
}
use chloride.Base.Run.{Run, ok, fault}
use chloride.Bytecode.{pop_byte}
use chloride.Numbers.{
  int64, rational, NumberObject, mpq_set_si64, to_mpq, new_number_object, mpq_to_int64,
  new_number_object_from_int64, new_number_object_from_num_and_den, small_ints, mpq_div,
}
use chloride.Numbers.Arithmetic.{
  add, subtract, multiply, sum_overflows, difference_overflows, product_overflows,
}
use chloride.Numbers.Arithmetic.Exact.{Overflows}
use chloride.Numbers.Divide.{
  returned, division, floor_division, modulo, divide_int64, floor_divide_int64, modulo_int64,
  mpq_fdiv, mpq_fmod,
}
use chloride.Numbers.Divide.Exact.{NegationOverflows}
use chloride.Numbers.Divide.Remainder.{object}
use chloride.Numbers.Built.{truth}
use chloride.Numbers.Compare.{equal, less_than, to_unsigned}
use chloride.Numbers.Power.{
  exponent, power_loop, mul_overflow, mpq_power_loop, mpq_inv, mpq_pow_z, mpq_pow_q,
  exponent_rational,
}
use chloride.Numbers.Power.Exact.{power_value}
use chloride.Numbers.Instructions.{
  Value, number, boolean, Machine, Function, do_addition, do_subtraction, do_multiplication,
  do_division, do_floor_division, do_modulo, do_exponentiation, do_equal, do_not_equal,
  do_less_than, do_less_than_equal, do_greater_than, do_greater_than_equal,
}
use chloride.Numbers.Instructions.Operands.{Operands, Leaves, stored}
use chloride.Numbers.Instructions.Sums.{do_arithmetic-Leaves}
use chloride.Numbers.Instructions.Quotients.{
  zero_division, IsFloor, do_division-cases, do_floor_division-modulo,
}
use chloride.Numbers.Instructions.Powers.{do_exponentiation-Leaves}
use chloride.Numbers.Instructions.Orders.{do_comparison-stored}
use chloride.Tests.Fractions.{
  Fraction, fractions, fractions-Laws, canonical, divide, compare_fractions, sign,
}

program : Unit {0}
unfolding ◌+ℤ◌ ◌-ℤ◌ ◌*ℤ◌ neg_ℤ quot rem pop_byte mpq_set_si64 to_mpq new_number_object mpq_to_int64
    new_number_object_from_int64 new_number_object_from_num_and_den small_ints mpq_div add subtract
    multiply sum_overflows difference_overflows product_overflows division floor_division modulo
    divide_int64 floor_divide_int64 modulo_int64 mpq_fdiv mpq_fmod equal less_than to_unsigned
    exponent power_loop mul_overflow mpq_power_loop mpq_inv mpq_pow_z mpq_pow_q exponent_rational
    canonical divide compare_fractions sign
program = tt

abbrev half : Fraction
half = record { num = pos 1; den = pos 2 }

-- 2 ^ 63 as a sum, which is no int64_t any more
large_sum :
    add fractions (int64 int64_max) (int64 (pos 1))
    ≡ ok (record {
      as_number = rational (record { num = pos 0x8000_0000_0000_0000; den = pos 1 });
      as_bool = true;
    })
unfolding program
large_sum = refl

half_and_half : add fractions (rational half) (rational half) ≡ ok (object (pos 1))
unfolding program
half_and_half = refl

seven_halves :
    division fractions (int64 (negsuc 6)) (int64 (negsuc 1))
    ≡ ok (
        returned
          (record { as_number = rational (record { num = pos 7; den = pos 2 }); as_bool = true }))
unfolding program
seven_halves = refl

-- -7 // 2 on the fast path, and with a rational divisor
floor_rounds_up :
    floor_division fractions (int64 (negsuc 6)) (int64 (pos 2)) ≡ ok (returned (object (negsuc 2)))
unfolding program
floor_rounds_up = refl

floor_rounds_down :
    floor_division fractions (rational (record { num = negsuc 6; den = pos 2 })) (int64 (pos 1))
    ≡ ok (returned (object (negsuc 3)))
unfolding program
floor_rounds_down = refl

two_to_ten : exponent fractions (int64 (pos 2)) (int64 (pos 10)) ≡ ok (returned (object (pos 1024)))
unfolding program
two_to_ten = refl

-- 2 ^ 64 leaves the fast path
two_to_sixty_four :
    exponent fractions (int64 (pos 2)) (int64 (pos 64))
    ≡ ok (
        returned (record {
          as_number = rational (record { num = pos 0x1_0000_0000_0000_0000; den = pos 1 });
          as_bool = true;
        }))
unfolding program
two_to_sixty_four = refl

-- 0 ^ -1 divides by zero inside GMP
zero_to_minus_one : exponent fractions (int64 (pos 0)) (int64 (negsuc 0)) ≡ fault
unfolding program
zero_to_minus_one = refl

-- 1 - (-(2 ^ 63 - 1)) overflows behind the test
escaped : subtract fractions (int64 (pos 1)) (int64 (negsuc 0x7fff_ffff_ffff_fffe)) ≡ fault
unfolding program
escaped = refl

-- -1 is not found to be less than 1 / 2, since it is compared as 2 ^ 64 - 1
minus_one_above_half : less_than fractions (int64 (negsuc 0)) (rational half) ≡ false
unfolding program
minus_one_above_half = refl

minus_one_equal :
    equal fractions
      (int64 (negsuc 0))
      (rational (record { num = pos 0xffff_ffff_ffff_ffff; den = pos 1 }))
    ≡ true
unfolding program
minus_one_equal = refl

abbrev call :
    Function
    → List (Value Fraction ℕ)
    → Machine Fraction ℕ
    → Run (Value Fraction ℕ × Machine Fraction ℕ)
call f args m = ok (boolean false, m)

-- a machine before an instruction on its first two registers
abbrev machine : NumberObject Fraction → NumberObject Fraction → Machine Fraction ℕ
machine x y = record {
  bytecode = some 0 ∷ some 1 ∷ some 2 ∷ [];
  ip = 0;
  registers = number x ∷ number y ∷ boolean false ∷ [];
  err = none;
}

machine-Operands : (x y : NumberObject Fraction) → Operands (machine x y) 2 x y
machine-Operands x y = record {
  a = 0;
  b = 1;
  code_a = refl;
  code_b = refl;
  code_c = refl;
  left = refl;
  right = refl;
  room = omega arith;
}

abbrev half_object : NumberObject Fraction
half_object = record { as_number = rational half; as_bool = true }

do_arithmetic-Leaves_example :
    Leaves fractions
      (do_addition fractions call (machine half_object (object (pos 3))))
      (machine half_object (object (pos 3)))
      2
      (fractions.add half (fractions.canonical (pos 3) (pos 1)))
    × Leaves fractions
        (do_multiplication fractions call (machine half_object (object (pos 3))))
        (machine half_object (object (pos 3)))
        2
        (fractions.mul half (fractions.canonical (pos 3) (pos 1)))
    × ((Overflows (rational half) (int64 (pos 3))
          × (do_subtraction fractions call (machine half_object (object (pos 3))) ≡ fault))
        ⊎ Leaves fractions
            (do_subtraction fractions call (machine half_object (object (pos 3))))
            (machine half_object (object (pos 3)))
            2
            (fractions.sub half (fractions.canonical (pos 3) (pos 1))))
unfolding program
do_arithmetic-Leaves_example =
    do_arithmetic-Leaves fractions fractions-Laws call (machine half_object (object (pos 3))) 2
      half_object (object (pos 3)) (machine-Operands half_object (object (pos 3))) refl refl

do_division-cases_example :
    ((truth fractions (rational half) ≡ false)
      × (do_division fractions call (machine (object (pos 3)) half_object)
          ≡ ok (zero_division (machine (object (pos 3)) half_object)))
      × (do_floor_division fractions call (machine (object (pos 3)) half_object)
          ≡ ok (zero_division (machine (object (pos 3)) half_object)))
      × (do_modulo fractions call (machine (object (pos 3)) half_object)
          ≡ ok (zero_division (machine (object (pos 3)) half_object))))
    ⊎ ((NegationOverflows (int64 (pos 3)) (rational half)
          × (do_division fractions call (machine (object (pos 3)) half_object) ≡ fault))
        ⊎ ((truth fractions (rational half) ≡ true)
            × Leaves fractions
                (do_division fractions call (machine (object (pos 3)) half_object))
                (machine (object (pos 3)) half_object)
                2
                (fractions.div (fractions.canonical (pos 3) (pos 1)) half)))
unfolding program
do_division-cases_example =
    do_division-cases fractions fractions-Laws call (machine (object (pos 3)) half_object) 2
      (object (pos 3)) half_object (machine-Operands (object (pos 3)) half_object) refl refl

do_floor_division-modulo_example :
    (q : ℤ) × (r : ℤ) × (do_floor_division fractions call
        (machine (object (negsuc 6)) (object (negsuc 1)))
      ≡ ok (stored (machine (object (negsuc 6)) (object (negsuc 1))) 2 (number (object q))))
    × (do_modulo fractions call (machine (object (negsuc 6)) (object (negsuc 1)))
        ≡ ok (stored (machine (object (negsuc 6)) (object (negsuc 1))) 2 (number (object r))))
    × IsFloor (negsuc 6) (negsuc 1) q r
do_floor_division-modulo_example =
    do_floor_division-modulo fractions call (machine (object (negsuc 6)) (object (negsuc 1))) 2
      (object (negsuc 6)) (object (negsuc 1)) (negsuc 6) (negsuc 1)
      (machine-Operands (object (negsuc 6)) (object (negsuc 1))) refl refl refl refl
      (λ h. ground arith) (inr (omega arith, omega arith))

do_exponentiation-Leaves_example :
    Leaves fractions
      (do_exponentiation fractions call (machine (object (negsuc 1)) (object (negsuc 2))))
      (machine (object (negsuc 1)) (object (negsuc 2)))
      2
      (power_value fractions (negsuc 1) (negsuc 2))
do_exponentiation-Leaves_example =
    do_exponentiation-Leaves fractions fractions-Laws call
      (machine (object (negsuc 1)) (object (negsuc 2))) 2 (object (negsuc 1)) (object (negsuc 2))
      (negsuc 1) (negsuc 2) (machine-Operands (object (negsuc 1)) (object (negsuc 2))) refl refl
      refl (inl (λ e. ground arith))

do_comparison-stored_example :
    (d : ℤ) × (d ≡ fractions.cmp half (fractions.canonical (pos 3) (pos 1)))
    × (do_equal fractions call (machine half_object (object (pos 3)))
        ≡ ok (stored (machine half_object (object (pos 3))) 2 (boolean (eqb_ℤ d (pos 0)))))
    × (do_not_equal fractions call (machine half_object (object (pos 3)))
        ≡ ok (stored (machine half_object (object (pos 3))) 2 (boolean (not (eqb_ℤ d (pos 0))))))
    × (do_less_than fractions call (machine half_object (object (pos 3)))
        ≡ ok (stored (machine half_object (object (pos 3))) 2 (boolean (ltb_ℤ d (pos 0)))))
    × (do_less_than_equal fractions call (machine half_object (object (pos 3)))
        ≡ ok (stored (machine half_object (object (pos 3))) 2 (boolean (leb_ℤ d (pos 0)))))
    × (do_greater_than fractions call (machine half_object (object (pos 3)))
        ≡ ok (stored (machine half_object (object (pos 3))) 2 (boolean (ltb_ℤ (pos 0) d))))
    × (do_greater_than_equal fractions call (machine half_object (object (pos 3)))
        ≡ ok (stored (machine half_object (object (pos 3))) 2 (boolean (leb_ℤ (pos 0) d))))
unfolding to_mpq mpq_set_si64
do_comparison-stored_example =
    do_comparison-stored fractions call fractions-Laws (machine half_object (object (pos 3))) 2
      half_object (object (pos 3)) (machine-Operands half_object (object (pos 3))) (omega arith)
