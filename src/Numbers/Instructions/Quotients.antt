-- ===== src/Numbers/Instructions/Quotients.antt =====
-- DO_DIVISION, DO_FLOOR_DIVISION and DO_MODULO.
use chloride.Base.{ℕ, suc, Bool-cases, true, false, List, ◌≡◌, ◌<◌, ◌⊎◌, inl, inr, some, arith}
use chloride.Base.Int.{
  ℤ, pos, negsuc, int64_min, eqb_ℤ, eqb_ℤ→eq, eqb_ℤ→ne, ◌+ℤ◌, ◌*ℤ◌, ◌≤ℤ◌, ◌<ℤ◌, fits_int64,
  one_part,
}
use chloride.Base.Run.{Run, ok, fault}
use chloride.Numbers.{Gmp, Laws, Number, int64, rational, NumberObject, to_mpq, mpq_div}
use chloride.Numbers.Built.{IsNormal, truth}
use chloride.Numbers.Divide.{
  division, floor_division, modulo, zero_division_error, divide_int64, floor_divide_int64,
  modulo_int64, mpq_fdiv, mpq_fmod,
}
use chloride.Numbers.Divide.Exact.{
  NegationOverflows, division-exact, division-NegationOverflows, divide_with-zero,
}
use chloride.Numbers.Divide.Remainder.{QuotientOverflows, object, abs, floor_division-modulo}
use chloride.Numbers.Instructions.{
  Value, number, Machine, Function, numeric, divide_function, floor_divide_function,
  modulo_function, do_division, do_floor_division, do_modulo,
}
use chloride.Numbers.Instructions.Operands.{
  Operands, Leaves, stored, numeric-Leaves, binary-fault, binary-raised, binary-returned,
}

NegationOverflows-cases :
    {Q : Type 0} (a b : Number Q) → NegationOverflows a b ⊎ (¬ NegationOverflows a b)
NegationOverflows-cases (int64 a) (int64 (pos d)) = inr (λ e. e)
NegationOverflows-cases (int64 a) (int64 (negsuc d)) = elim (Bool-cases (eqb_ℤ a int64_min)) [
  | inl lowest ↦ inl (inl (eqb_ℤ→eq a int64_min lowest))
  | inr other ↦ elim (Bool-cases (eqb_ℤ (negsuc d) int64_min)) [
    | inl divisor ↦ inl (inr (eqb_ℤ→eq (negsuc d) int64_min divisor))
    | inr near ↦ inr (λ e. elim e [
      | inl lowest ↦ eqb_ℤ→ne a int64_min other lowest
      | inr divisor ↦ eqb_ℤ→ne (negsuc d) int64_min near divisor
    ])
  ]
]
NegationOverflows-cases (int64 a) (rational q) = inr (λ e. e)
NegationOverflows-cases (rational p) (int64 b) = inr (λ e. e)
NegationOverflows-cases (rational p) (rational q) = inr (λ e. e)

-- the machine behind an instruction that raised a ZeroDivisionError
abbrev pub zero_division : {Q O : Type 0} → Machine Q O → Machine Q O
zero_division m = record m { ip = suc (suc (suc m.ip)); err = some zero_division_error }

module _ {Q : Type 0} (gmp : Gmp Q) (laws : Laws gmp) where
  -- Where three registers follow and the first two hold normal numbers: a divisor that counts as false
  -- makes DO_DIVISION, DO_FLOOR_DIVISION and DO_MODULO raise a ZeroDivisionError and leave every
  -- register alone; otherwise DO_DIVISION leaves the exact quotient as a normal number in the third
  -- register, unless both are int64_t, the divisor is negative and one of them is INT64_MIN: then it is
  -- a signed overflow.
  pub do_division-cases :
      {O : Type 0}
      (call : Function → List (Value Q O) → Machine Q O → Run (Value Q O × Machine Q O))
      (m : Machine Q O) (c : ℕ) (x y : NumberObject Q)
      → Operands m c x y
      → IsNormal gmp x.as_number
      → IsNormal gmp y.as_number
      → ((truth gmp y.as_number ≡ false)
          × (do_division gmp call m ≡ ok (zero_division m))
          × (do_floor_division gmp call m ≡ ok (zero_division m))
          × (do_modulo gmp call m ≡ ok (zero_division m)))
        ⊎ ((NegationOverflows x.as_number y.as_number × (do_division gmp call m ≡ fault))
            ⊎ ((truth gmp y.as_number ≡ true)
                × Leaves gmp
                    (do_division gmp call m)
                    m
                    c
                    (gmp.div (to_mpq gmp x.as_number) (to_mpq gmp y.as_number))))
  unfolding do_division do_floor_division do_modulo division floor_division modulo
  do_division-cases call m c x y w hx hy =
      let a = x.as_number in
      let b = y.as_number in
      elim (Bool-cases (truth gmp b)) [
        | inl nonzero ↦ inr (elim (NegationOverflows-cases a b) [
          | inl over ↦ inl (
            over,
            binary-fault gmp call (λ s t. numeric (division gmp s t)) divide_function m c x y w
                (rw (division-NegationOverflows gmp laws a b hx over)),
          )
          | inr inside ↦ inr (
            nonzero,
            numeric-Leaves gmp call (division gmp) divide_function m c x y
                (gmp.div (to_mpq gmp a) (to_mpq gmp b)) w
                (division-exact gmp laws a b hx hy nonzero inside),
          )
        ])
        | inr no_value ↦ inl (
          no_value,
          binary-raised gmp call (λ s t. numeric (division gmp s t)) divide_function m c x y
              zero_division_error w
              (rw (divide_with-zero gmp laws (divide_int64 gmp) (mpq_div gmp) a b hy no_value)),
          binary-raised gmp call (λ s t. numeric (floor_division gmp s t)) floor_divide_function m c
              x y zero_division_error w
              (rw (
                divide_with-zero gmp laws (floor_divide_int64 gmp) (mpq_fdiv gmp) a b hy no_value)),
          binary-raised gmp call (λ s t. numeric (modulo gmp s t)) modulo_function m c x y
              zero_division_error w
              (rw (divide_with-zero gmp laws (modulo_int64 gmp) (mpq_fmod gmp) a b hy no_value)),
        )
      ]

-- Neither number is negative, or neither is positive.
abbrev pub OneSign : ℤ → ℤ → Type 0
OneSign a b = ((pos 0 ≤ℤ a) × (pos 0 ≤ℤ b)) ⊎ ((a ≤ℤ pos 0) × (b ≤ℤ pos 0))

-- q is the quotient of a and b that is rounded down, and r what is left.
abbrev pub IsFloor : (a b q r : ℤ) → Type 0
IsFloor a b q r = (q *ℤ b +ℤ r ≡ a) × (((pos 0 ≤ℤ r) × (r <ℤ b)) ⊎ ((b <ℤ r) × (r ≤ℤ pos 0)))

floor_sign :
    (a b r : ℤ)
    → OneSign a b
    → abs r < abs b
    → (pos 0 ≤ℤ a → pos 0 ≤ℤ r)
    → (a ≤ℤ pos 0 → r ≤ℤ pos 0)
    → ((pos 0 ≤ℤ r) × (r <ℤ b)) ⊎ ((b <ℤ r) × (r ≤ℤ pos 0))
floor_sign a b r (inl (ha, hb)) small above below =
    let up = above ha in inl (up, omega (arith, one_part r, one_part b))
floor_sign a b r (inr (ha, hb)) small above below =
    let down = below ha in inr (omega (arith, one_part r, one_part b), down)

module _ {Q : Type 0} (gmp : Gmp Q) where
  -- Where three registers follow and the first two hold the int64_t a and b of one sign, neither negative
  -- or neither positive, b not 0 and not -1 beside INT64_MIN, DO_FLOOR_DIVISION leaves an int64_t q and
  -- DO_MODULO an int64_t r such that q is the quotient rounded down: q * b + r is a, and r lies from 0
  -- on towards b, without b.
  pub do_floor_division-modulo :
      {O : Type 0}
      (call : Function → List (Value Q O) → Machine Q O → Run (Value Q O × Machine Q O))
      (m : Machine Q O) (c : ℕ) (x y : NumberObject Q) (a b : ℤ)
      → Operands m c x y
      → x.as_number ≡ int64 a
      → y.as_number ≡ int64 b
      → fits_int64 a ≡ true
      → eqb_ℤ b (pos 0) ≡ false
      → ¬ QuotientOverflows a b
      → OneSign a b
      → (q : ℤ) × (r : ℤ) × (do_floor_division gmp call m ≡ ok (stored m c (number (object q))))
        × (do_modulo gmp call m ≡ ok (stored m c (number (object r))))
        × IsFloor a b q r
  unfolding do_floor_division do_modulo
  do_floor_division-modulo call m c x y a b w ex ey ha nonzero inside sign =
      let (q, r, floor, rest, whole, small, above, below) =
        floor_division-modulo gmp a b ha nonzero inside in
      (
        q,
        r,
        binary-returned gmp call (λ s t. numeric (floor_division gmp s t)) floor_divide_function m c
            x y (number (object q)) w (rw (ex, ey, floor)),
        binary-returned gmp call (λ s t. numeric (modulo gmp s t)) modulo_function m c x y
            (number (object r)) w (rw (ex, ey, rest)),
        (whole, floor_sign a b r sign small above below),
      )
