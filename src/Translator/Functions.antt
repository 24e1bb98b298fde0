-- ===== src/Translator/Functions.antt =====
-- Functions: translate_parsed_function of src/translator/function/function.c.
use chloride.Base.{ℕ, suc, Option, none, some, List, [], ◌∷◌, length}
use chloride.Translator.Machine.{
  JumpContext, Action, pure, ◌>>=◌, ◌>>◌, emit, constant, set_registers, set_all_registers,
  take_register, give_register, next, byte, code,
}
use chloride.Translator.Pieces.{copy}
use chloride.Translator.Opcodes.{
  op_load_function, op_set_function_parameter, op_set_function_positional_parameter,
  op_set_function_key_word_parameter, op_set_function_default_parameter,
}

-- what translate_parsed_function saves, and the count of kept registers, which are the function's own
pub record Saved : Type 0 where
  pub bytecode : List ℕ
  pub register_assignment : ℕ
  pub return_jump : JumpContext
  pub break_jump : JumpContext
  pub scope_depth : ℕ
  pub exception_handler_depth : ℕ
  pub kept : ℕ

abbrev pub null_jump : JumpContext
null_jump = record { positions = none; exception_handler_depth = 0; scope_depth = 0 }

-- its fresh bookkeeping for the body; continue_jump stays that of the code around
unfoldable pub begin_function : Action Saved
begin_function t =
    next
      (record {
        bytecode = t.bytecode;
        register_assignment = t.register_assignment;
        return_jump = t.return_jump;
        break_jump = t.break_jump;
        scope_depth = t.scope_depth;
        exception_handler_depth = t.exception_handler_depth;
        kept = t.kept;
      })
      (record t {
        bytecode = [];
        register_assignment = 1;
        return_jump = null_jump;
        break_jump = null_jump;
        scope_depth = 0;
        exception_handler_depth = 0;
        kept = 0;
      })

unfoldable pub end_function : Saved → Action Unit
end_function s t = next tt (record t {
  bytecode = s.bytecode;
  register_assignment = s.register_assignment;
  return_jump = s.return_jump;
  break_jump = s.break_jump;
  scope_depth = s.scope_depth;
  exception_handler_depth = s.exception_handler_depth;
  kept = s.kept;
})

-- the bytecode of the body becomes a constant: its offset and its length
unfoldable pub body_constant : (List ℕ → ℕ) → Action (ℕ × ℕ)
body_constant siphash t =
    (constant siphash t.bytecode >>= λ offset. pure (offset, length t.bytecode)) t

unfoldable pub function_parameters : (List ℕ → ℕ) → ℕ → List (List ℕ) → Action Unit
function_parameters siphash i [] = pure tt
function_parameters siphash i (name ∷ names) = do
  offset ← constant siphash name
  emit (
      byte op_set_function_parameter
      ∷ code i
      ∷ code offset
      ∷ code (length name)
      ∷ code (siphash name)
      ∷ [])
  function_parameters siphash (suc i) names

-- `*args` and `**kwargs` of a function
unfoldable pub rest_parameter : (List ℕ → ℕ) → ℕ → Option (List ℕ) → Action Unit
rest_parameter siphash op none = pure tt
rest_parameter siphash op (some name) = do
  offset ← constant siphash name
  emit (byte op ∷ code offset ∷ code (length name) ∷ code (siphash name) ∷ [])
  pure tt

unfoldable pub default_parameters : (List ℕ → ℕ) → ℕ → ℕ → List (List ℕ × Action ℕ) → Action Unit
default_parameters siphash func_register i [] = pure tt
default_parameters siphash func_register i ((name, value) ∷ parameters) = do
  value
  offset ← constant siphash name
  emit (
      byte op_set_function_default_parameter
      ∷ byte func_register
      ∷ code i
      ∷ code offset
      ∷ code (length name)
      ∷ code (siphash name)
      ∷ [])
  default_parameters siphash func_register (suc i) parameters

unfoldable pub with_defaults : (List ℕ → ℕ) → Option (List (List ℕ × Action ℕ)) → Action Unit
with_defaults siphash none = pure tt
with_defaults siphash (some parameters) = do
  func_register ← take_register
  set_all_registers
  emit (copy 0 func_register)
  default_parameters siphash func_register 0 parameters
  emit (copy func_register 0)
  give_register

abbrev pub count_defaults : {A : Type 0} → Option (List A) → ℕ
count_defaults none = 0
count_defaults (some xs) = length xs

-- what happens to the body happens between the two
unfoldable pub isolated : {A : Type 0} → Action A → Action A
isolated m = do saved ← begin_function; result ← m; end_function saved; pure result

-- the body of a function, translated on its own
unfoldable pub translate_body : (List ℕ → ℕ) → Action ℕ → Action (ℕ × ℕ)
translate_body siphash body = isolated (set_registers 1 >> body >> body_constant siphash)

-- translate_parsed_function
unfoldable pub translate_function :
    (List ℕ → ℕ)
    → List ℕ
    → List (List ℕ)
    → Option (List (List ℕ × Action ℕ))
    → Option (List ℕ)
    → Option (List ℕ)
    → Action ℕ
    → Action ℕ
translate_function siphash name parameters defaults v_parameter kw_parameter body = do
  offset_length ← translate_body siphash body
  start ← emit (byte op_load_function ∷ [])
  offset ← constant siphash name
  emit (
      code offset
      ∷ code (length name)
      ∷ code (offset_length.0)
      ∷ code (offset_length.1)
      ∷ code (length parameters)
      ∷ code (count_defaults defaults)
      ∷ [])
  function_parameters siphash 0 parameters
  rest_parameter siphash op_set_function_positional_parameter v_parameter
  rest_parameter siphash op_set_function_key_word_parameter kw_parameter
  with_defaults siphash defaults
  pure start
