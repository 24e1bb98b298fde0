-- ===== src/Numbers/Instructions.antt =====
-- The instructions of the virtual machine on numbers, src/runtime/runtime.c: DO_ADDITION up to
-- DO_GREATER_THAN_EQUAL and DO_NEGATION. Their blocks repeat the code of the methods in
-- objects/number/number.c, on the operands in two registers.
--
-- A value is a number object, ARGON_TRUE or ARGON_FALSE, or another object. What the code does with
-- other objects, a call of a method or of a built-in function (argon_call), is the parameter `call`.
pub mod Operands
pub mod Sums
pub mod Quotients
pub mod Powers
pub mod Orders
use chloride.Base.{
  ℕ, suc, Bool, ◌≡◌, ◌<◌, Option, none, some, List, [], ◌∷◌, get_elem?, get_or, set, length, ltb,
  if◌then◌else◌,
}
use chloride.Base.Run.{Run, ok, fault, ◌>>=◌}
use chloride.Bytecode.{pop_byte}
use chloride.Numbers.{Gmp, Number, NumberObject}
use chloride.Numbers.Arithmetic.{negation, add, subtract, multiply}
use chloride.Numbers.Divide.{
  Error, Outcome, returned, raised, returns, division, floor_division, modulo,
}
use chloride.Numbers.Power.{exponent}
use chloride.Numbers.Compare.{
  equal, not_equal, less_than, less_than_equal, greater_than, greater_than_equal,
}

pub data Value (Q O : Type 0) : Type 0 where
  number : NumberObject Q → Value Q O
  boolean : Bool → Value Q O
  object : O → Value Q O

-- the loaded bytecode, `ip`, `state->registers` and the class of the error in `err`
pub record Machine (Q O : Type 0) : Type 0 where
  pub bytecode : List (Option ℕ)
  pub ip : ℕ
  pub registers : List (Value Q O)
  pub err : Option Error

-- the built-in functions that take over where an operand is no number
pub data Function : Type 0 where
  addition_function subtraction_function multiply_function exponent_function : Function
  divide_function floor_divide_function modulo_function : Function
  equal_function not_equal_function less_than_function less_than_equal_function : Function
  greater_than_function greater_than_equal_function negation_method : Function

module _ {Q O : Type 0} where
  -- an access to a register behind the last is a fault
  abbrev pub read_register : Machine Q O → ℕ → Run (Value Q O)
  read_register m i = elim (get_elem? m.registers i) [ none ↦ fault | some v ↦ ok v ]

  abbrev pub write_register : Machine Q O → ℕ → Value Q O → Run (Machine Q O)
  write_register m i v =
      if ltb i (length m.registers)
      then ok (record m { registers = set m.registers i v })
      else fault

  -- the value of an operation goes to a register, an error to `err`
  abbrev pub finish : Machine Q O → ℕ → Outcome (Value Q O) → Run (Machine Q O)
  finish m i (returned v) = write_register m i v
  finish m i (raised e) = ok (record m { err = some e })

  abbrev pub numeric : Run (Outcome (NumberObject Q)) → Run (Outcome (Value Q O))
  numeric r = r >>= λ u. ok (value_of u)
    where
      value_of : Outcome (NumberObject Q) → Outcome (Value Q O)
      value_of (returned n) = returned (number n)
      value_of (raised e) = raised e

module _ {Q O : Type 0} (gmp : Gmp Q)
    (call : Function → List (Value Q O) → Machine Q O → Run (Value Q O × Machine Q O)) where
  -- two numbers are handled in place, other operands by the function
  abbrev pub dispatch :
      (Number Q → Number Q → Run (Outcome (Value Q O)))
      → Function
      → (m : Machine Q O) → (register_c : ℕ) → (value_a value_b : Value Q O) → Run (Machine Q O)
  dispatch op f m c (number x) (number y) = op x.as_number y.as_number >>= λ u. finish m c u
  dispatch op f m c a b = call f (a ∷ b ∷ []) m >>= λ r. write_register r.1 c r.0

  -- three registers follow the instruction
  unfoldable pub binary_instruction :
      (Number Q → Number Q → Run (Outcome (Value Q O))) → Function → Machine Q O → Run (Machine Q O)
  binary_instruction op f m = pop_byte m.bytecode m.ip >>= λ a. pop_byte m.bytecode a.1 >>= λ b.
      pop_byte m.bytecode b.1 >>= λ c. read_register m a.0 >>= λ value_a.
      read_register m b.0 >>= λ value_b. dispatch op f (record m { ip = c.1 }) c.0 value_a value_b

  unfoldable pub do_addition : Machine Q O → Run (Machine Q O)
  do_addition = binary_instruction (λ x y. numeric (returns (add gmp x y))) addition_function

  unfoldable pub do_subtraction : Machine Q O → Run (Machine Q O)
  do_subtraction =
      binary_instruction (λ x y. numeric (returns (subtract gmp x y))) subtraction_function

  unfoldable pub do_multiplication : Machine Q O → Run (Machine Q O)
  do_multiplication =
      binary_instruction (λ x y. numeric (returns (multiply gmp x y))) multiply_function

  unfoldable pub do_exponentiation : Machine Q O → Run (Machine Q O)
  do_exponentiation = binary_instruction (λ x y. numeric (exponent gmp x y)) exponent_function

  unfoldable pub do_division : Machine Q O → Run (Machine Q O)
  do_division = binary_instruction (λ x y. numeric (division gmp x y)) divide_function

  unfoldable pub do_floor_division : Machine Q O → Run (Machine Q O)
  do_floor_division =
      binary_instruction (λ x y. numeric (floor_division gmp x y)) floor_divide_function

  unfoldable pub do_modulo : Machine Q O → Run (Machine Q O)
  do_modulo = binary_instruction (λ x y. numeric (modulo gmp x y)) modulo_function

  -- a comparison leaves ARGON_TRUE or ARGON_FALSE
  abbrev pub comparison : (Number Q → Number Q → Bool) → Function → Machine Q O → Run (Machine Q O)
  comparison test f = binary_instruction (λ x y. ok (returned (boolean (test x y)))) f

  unfoldable pub do_equal : Machine Q O → Run (Machine Q O)
  do_equal = comparison (equal gmp) equal_function

  unfoldable pub do_not_equal : Machine Q O → Run (Machine Q O)
  do_not_equal = comparison (not_equal gmp) not_equal_function

  unfoldable pub do_less_than : Machine Q O → Run (Machine Q O)
  do_less_than = comparison (less_than gmp) less_than_function

  unfoldable pub do_greater_than : Machine Q O → Run (Machine Q O)
  do_greater_than = comparison (greater_than gmp) greater_than_function

  unfoldable pub do_less_than_equal : Machine Q O → Run (Machine Q O)
  do_less_than_equal = comparison (less_than_equal gmp) less_than_equal_function

  unfoldable pub do_greater_than_equal : Machine Q O → Run (Machine Q O)
  do_greater_than_equal = comparison (greater_than_equal gmp) greater_than_equal_function

  -- DO_NEGATION, on register 0
  abbrev pub negate : Machine Q O → Value Q O → Run (Machine Q O)
  negate m (number x) = negation gmp x.as_number >>= λ n. write_register m 0 (number n)
  negate m v = call negation_method (v ∷ []) m >>= λ r. ok r.1

  unfoldable pub do_negation : Machine Q O → Run (Machine Q O)
  do_negation m = read_register m 0 >>= λ v. negate m v
