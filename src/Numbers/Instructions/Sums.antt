-- ===== src/Numbers/Instructions/Sums.antt =====
-- DO_ADDITION, DO_SUBTRACTION and DO_MULTIPLICATION are the arithmetic of rational numbers.
use chloride.Base.{ℕ, Bool-cases, List, ◌≡◌, ◌⊎◌, inl, inr}
use chloride.Base.Int.{pos, ◌-ℤ◌, int64_min, eqb_ℤ, eqb_ℤ→eq, eqb_ℤ→ne}
use chloride.Base.Run.{Run, fault}
use chloride.Numbers.{Gmp, Laws, Number, int64, rational, NumberObject, to_mpq}
use chloride.Numbers.Built.{IsNormal}
use chloride.Numbers.Arithmetic.{add, subtract, multiply}
use chloride.Numbers.Arithmetic.Exact.{
  Overflows, add-exact, multiply-exact, subtract-exact, subtract-Overflows,
}
use chloride.Numbers.Divide.{returns}
use chloride.Numbers.Instructions.{
  Value, Machine, Function, numeric, addition_function, subtraction_function, multiply_function,
  do_addition, do_subtraction, do_multiplication,
}
use chloride.Numbers.Instructions.Operands.{Operands, Leaves, plain-Leaves, binary-fault}

module _ {Q : Type 0} (gmp : Gmp Q) (laws : Laws gmp) where
  Overflows-cases : (a b : Number Q) → Overflows a b ⊎ (¬ Overflows a b)
  Overflows-cases (int64 a) (int64 b) = elim (Bool-cases (eqb_ℤ a int64_min)) [
    | inl lowest ↦ inl (inl (eqb_ℤ→eq a int64_min lowest))
    | inr other ↦ elim (Bool-cases (eqb_ℤ (a -ℤ b) (pos 0x8000_0000_0000_0000))) [
      | inl apart ↦ inl (inr (eqb_ℤ→eq (a -ℤ b) (pos 0x8000_0000_0000_0000) apart))
      | inr near ↦ inr (λ e. elim e [
        | inl lowest ↦ eqb_ℤ→ne a int64_min other lowest
        | inr apart ↦ eqb_ℤ→ne (a -ℤ b) (pos 0x8000_0000_0000_0000) near apart
      ])
    ]
  ]
  Overflows-cases (int64 a) (rational q) = inr (λ e. e)
  Overflows-cases (rational p) (int64 b) = inr (λ e. e)
  Overflows-cases (rational p) (rational q) = inr (λ e. e)

  -- Where three registers follow and the first two hold normal numbers, DO_ADDITION and
  -- DO_MULTIPLICATION leave the exact sum and product of the two rational numbers in the third, as a
  -- normal number, and so does DO_SUBTRACTION with the difference, unless both are int64_t and the
  -- first is INT64_MIN or the difference is 2 ^ 63: then it is a signed overflow.
  pub do_arithmetic-Leaves :
      {O : Type 0}
      (call : Function → List (Value Q O) → Machine Q O → Run (Value Q O × Machine Q O))
      (m : Machine Q O) (c : ℕ) (x y : NumberObject Q)
      → Operands m c x y
      → IsNormal gmp x.as_number
      → IsNormal gmp y.as_number
      → Leaves gmp
          (do_addition gmp call m)
          m
          c
          (gmp.add (to_mpq gmp x.as_number) (to_mpq gmp y.as_number))
        × Leaves gmp
            (do_multiplication gmp call m)
            m
            c
            (gmp.mul (to_mpq gmp x.as_number) (to_mpq gmp y.as_number))
        × ((Overflows x.as_number y.as_number × (do_subtraction gmp call m ≡ fault))
            ⊎ Leaves gmp
                (do_subtraction gmp call m)
                m
                c
                (gmp.sub (to_mpq gmp x.as_number) (to_mpq gmp y.as_number)))
  unfolding do_addition do_multiplication do_subtraction
  do_arithmetic-Leaves call m c x y w hx hy =
      let a = x.as_number in
      let b = y.as_number in
      (
        plain-Leaves gmp call (add gmp) addition_function m c x y
            (gmp.add (to_mpq gmp a) (to_mpq gmp b)) w (add-exact gmp laws a b hx hy),
        plain-Leaves gmp call (multiply gmp) multiply_function m c x y
            (gmp.mul (to_mpq gmp a) (to_mpq gmp b)) w (multiply-exact gmp laws a b hx hy),
        elim (Overflows-cases a b) [
          | inl over ↦ inl (
            over,
            binary-fault gmp call (λ s t. numeric (returns (subtract gmp s t))) subtraction_function
                m c x y w (rw (subtract-Overflows gmp laws a b hx hy over)),
          )
          | inr inside ↦ inr (
              plain-Leaves gmp call (subtract gmp) subtraction_function m c x y
                (gmp.sub (to_mpq gmp a) (to_mpq gmp b)) w
                (subtract-exact gmp laws a b hx hy inside))
        ],
      )
