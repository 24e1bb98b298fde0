-- ===== src/Translator/Operations.antt =====
-- Operations: translate_operation of src/translator/operation/operation.c.
use chloride.Base.{ℕ, Bool, true, false, Option, none, some, List, [], ◌∷◌, ◌++◌, if◌then◌else◌}
use chloride.Translator.Machine.{
  Action, pure, ◌>>=◌, ◌>>◌, panic, raise, check, emit, emit_hole, land_all, set_all_registers,
  take_register, give_register, keep_register, byte,
}
use chloride.Translator.Syntax.{
  Place, Token, token_and, token_or, token_plus, token_minus, token_star, token_caret, token_slash,
  token_floordiv, token_modulo, token_eq, token_ne, token_lt, token_gt, token_le, token_ge,
  token_not_in, token_in,
}
use chloride.Translator.Pieces.{copy, load_null, source_place}
use chloride.Translator.Opcodes.{
  op_bool, op_jump_if_false, op_addition, op_subtraction, op_multiplication, op_exponentiation,
  op_division, op_floor_division, op_modulo, op_equal, op_not_equal, op_less_than,
  op_less_than_equal, op_greater_than, op_greater_than_equal, op_not, op_in, op_not_in,
}

-- the switch of translate_operation
abbrev pub operation_code : Token → Option ℕ
operation_code token_plus = some op_addition
operation_code token_minus = some op_subtraction
operation_code token_star = some op_multiplication
operation_code token_caret = some op_exponentiation
operation_code token_slash = some op_division
operation_code token_floordiv = some op_floor_division
operation_code token_modulo = some op_modulo
operation_code token_eq = some op_equal
operation_code token_ne = some op_not_equal
operation_code token_lt = some op_less_than
operation_code token_gt = some op_greater_than
operation_code token_le = some op_less_than_equal
operation_code token_ge = some op_greater_than_equal
operation_code token_not_in = some op_not_in
operation_code token_in = some op_in
operation_code _ = none

-- the operands of `and` and `or`: where the first one starts, 0 for none, and the places of their jumps
unfoldable pub logic_operands : Bool → ℕ → List (Action ℕ) → Action (ℕ × List ℕ)
logic_operands is_or register_a [] = pure (0, [])
logic_operands is_or register_a (operand ∷ operands) = do
  position ← operand
  check
  emit (copy 0 register_a ++ byte op_bool ∷ (if is_or then byte op_not ∷ [] else []))
  emit (byte op_jump_if_false ∷ byte 0 ∷ [])
  jump ← emit_hole
  rest ← logic_operands is_or register_a operands
  pure (position, jump ∷ rest.1)

-- `and` and `or`; the register stays taken
unfoldable pub translate_logic : Bool → List (Action ℕ) → Action ℕ
translate_logic is_or operands = do
  register_a ← take_register
  keep_register
  set_all_registers
  logic ← logic_operands is_or register_a operands
  land_all logic.1
  emit (copy register_a 0 ++ load_null register_a)
  pure logic.0

-- the instruction of one operation; a token that is none of them is an error
unfoldable pub fold_step : Option ℕ → ℕ → ℕ → ℕ → Action Unit
fold_step none register_a register_b output = raise
fold_step (some op) register_a register_b output = do
  emit (byte op ∷ byte register_a ∷ byte register_b ∷ byte output ∷ [])
  pure tt

-- the last operation leaves its result in register 0, the others in the register of the left operand
abbrev pub fold_output : {A : Type 0} → List A → ℕ → ℕ
fold_output [] register_a = 0
fold_output (x ∷ xs) register_a = register_a

-- the other operands, each with the operation on what came before
unfoldable pub fold_operands : Token → ℕ → ℕ → List (Action ℕ) → Place → Action Unit
fold_operands type register_a register_b [] place = pure tt
fold_operands type register_a register_b (operand ∷ operands) place = do
  operand
  check
  emit (copy 0 register_b ++ source_place place)
  fold_step (operation_code type) register_a register_b (fold_output operands register_a)
  fold_operands type register_a register_b operands place

-- the arithmetic and comparing operations; darray_get of an empty list ends the process
unfoldable pub translate_fold : Token → List (Action ℕ) → Place → Action ℕ
translate_fold type [] place = panic
translate_fold type (operand ∷ operands) place = do
  register_a ← take_register
  register_b ← take_register
  set_all_registers
  first ← operand
  check
  emit (copy 0 register_a)
  fold_operands type register_a register_b operands place
  emit (load_null register_a ++ load_null register_b)
  give_register
  give_register
  pure first

-- translate_operation
unfoldable pub translate_operation : Token → List (Action ℕ) → Place → Action ℕ
translate_operation token_and operands place = translate_logic false operands
translate_operation token_or operands place = translate_logic true operands
translate_operation type operands place = translate_fold type operands place
