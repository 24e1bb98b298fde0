-- ===== src/Translator/Control.antt =====
-- Control flow: if, while, for, try, dowrap, break, continue and return of src/translator, and the
-- conditional expression and throw of translate_parsed in src/translator/translator.c. What is
-- translated inside comes as an action, which the dispatch in Translator/Dispatch fills in.
use chloride.Base.{ℕ, ◌+◌, ◌-◌, ◌%◌, ◌^◌, Option, none, some, List, [], ◌∷◌, ◌++◌, replicate}
use chloride.Translator.Machine.{
  JumpContext, Action, pure, ◌>>=◌, ◌>>◌, raise, check, no_err, emit, emit_hole, here,
  set_instruction_code, land, land_all, set_registers, set_all_registers, take_register,
  give_register, enter_scope, leave_scope, get_break, set_break, get_return, set_return,
  get_continue, set_continue, open_break, open_return, continue_at, positions_of, fault, byte, code,
}
use chloride.Translator.Opcodes.{
  op_load_null, op_bool, op_jump_if_false, op_jump, op_new_scope, op_empty_scope, op_pop_scope,
  op_call, op_not, op_load_iter_method, op_load_next_method, op_for_loop_jump, op_throw,
  op_exception_catcher_push, op_exception_catcher_pop, op_load_is_instance_function,
  op_load_stopiteration_class, op_quiet_throw,
}
use chloride.Translator.Pieces.{copy, load_null, init_call, insert_arg, source_place}
use chloride.Translator.Syntax.{Place}

-- a difference of depths, in `uint64_t`
abbrev pub depth_minus : ℕ → ℕ → ℕ
depth_minus a b = (a + 2 ^ 64 - b) % 2 ^ 64

-- the loops of OP_POP_SCOPE and OP_EXCEPTION_CATCHER_POP up to some depths, and OP_JUMP
unfoldable pub unwind : ℕ → ℕ → Action ℕ
unwind scope_depth handler_depth t =
    emit
      (replicate (depth_minus t.scope_depth scope_depth) (byte op_pop_scope)
        ++ (replicate (depth_minus t.exception_handler_depth handler_depth)
              (byte op_exception_catcher_pop)
            ++ byte op_jump ∷ []))
      t

-- the jump at the end of break and return, and its entry in `positions`
unfoldable pub leave_loop : JumpContext → List ℕ → Action ℕ
leave_loop j ps = do
  first ← unwind j.scope_depth j.exception_handler_depth
  break_up ← emit_hole
  set_break (record j { positions = some (ps ++ break_up ∷ []) })
  pure first

-- translate_parsed_break
unfoldable pub translate_break : Action ℕ
translate_break = get_break >>= λ j. elim (j.positions) [ none ↦ raise | some ps ↦ leave_loop j ps ]

-- translate_parsed_continue
unfoldable pub translate_continue : Action ℕ
translate_continue = get_continue >>= λ j. elim (j.pos) [
  | none ↦ raise
  | some pos ↦ do
    first ← unwind j.scope_depth j.exception_handler_depth
    emit (code pos ∷ [])
    pure first
]

unfoldable pub leave_function : JumpContext → List ℕ → Action Unit
leave_function j ps = do
  unwind j.scope_depth j.exception_handler_depth
  return_up ← emit_hole
  set_return (record j { positions = some (ps ++ return_up ∷ []) })

-- `darray_push(NULL, …)`
unfoldable pub null_positions : Action Unit
null_positions t = fault

-- behind the value of a return
unfoldable pub jump_to_return : Action Unit
jump_to_return =
    get_return >>= λ j. elim (j.positions) [ none ↦ null_positions | some ps ↦ leave_function j ps ]

-- translate_parsed_return
unfoldable pub translate_return : Action ℕ → Action ℕ
translate_return value = get_return >>= λ j. elim (j.positions) [
  | none ↦ raise
  | some ps ↦ do first ← value; jump_to_return; pure first
]

-- translate_parsed_while
unfoldable pub translate_while : Action ℕ → Action ℕ → Action ℕ
translate_while condition content = do
  set_registers 1
  old_break_jump ← get_break
  open_break
  first ← emit (byte op_new_scope ∷ [])
  enter_scope
  start_of_loop ← condition
  check
  old_continue_jump ← get_continue
  continue_at start_of_loop
  emit (byte op_bool ∷ byte op_jump_if_false ∷ byte 0 ∷ [])
  jump_index ← emit_hole
  content
  emit (byte op_empty_scope ∷ byte op_jump ∷ code start_of_loop ∷ [])
  land jump_index
  emit (byte op_pop_scope ∷ [])
  break_jumps ← get_break
  land_all (positions_of break_jumps)
  set_break old_break_jump
  emit (load_null 0)
  set_continue old_continue_jump
  leave_scope
  pure first

-- the part of translate_parsed_for behind the loop, where StopIteration is told from other exceptions
unfoldable pub end_for : ℕ → ℕ → ℕ → Action Unit
end_for jump_index iterator_and_err_register break_skip = do
  handler ← emit (copy 0 iterator_and_err_register)
  set_instruction_code jump_index handler
  emit (
      byte op_load_is_instance_function
      ∷ (init_call 2
          ++ (copy iterator_and_err_register 0
              ++ (insert_arg 0
                  ++ byte op_load_stopiteration_class ∷ (insert_arg 1 ++ byte op_call ∷ [])))))
  emit (byte op_not ∷ byte op_jump_if_false ∷ byte 0 ∷ [])
  is_exception_type ← emit_hole
  emit (copy iterator_and_err_register 0 ++ byte op_quiet_throw ∷ [])
  land is_exception_type
  after ← emit (byte op_load_null ∷ [])
  set_instruction_code break_skip after
  emit (byte 0 ∷ [])
  pure tt

-- translate_parsed_for
unfoldable pub translate_for : Action ℕ → Action ℕ → Action ℕ → Action ℕ
translate_for value iterator content = do
  iterator_and_err_register ← take_register
  iterator_next_register ← take_register
  set_all_registers
  old_break_jump ← get_break
  open_break
  first ← emit (byte op_exception_catcher_push ∷ [])
  jump_index ← emit_hole
  emit (byte op_new_scope ∷ [])
  enter_scope
  iterator
  check
  emit (byte op_load_iter_method ∷ (init_call 0 ++ byte op_call ∷ copy 0 iterator_and_err_register))
  emit (byte op_load_next_method ∷ copy 0 iterator_next_register)
  start_of_loop ← emit (byte op_empty_scope ∷ [])
  emit (byte op_for_loop_jump ∷ byte iterator_and_err_register ∷ byte iterator_next_register ∷ [])
  old_continue_jump ← get_continue
  continue_at start_of_loop
  value
  check
  content
  emit (byte op_jump ∷ code start_of_loop ∷ [])
  break_jumps ← get_break
  land_all (positions_of break_jumps)
  set_break old_break_jump
  emit (byte op_jump ∷ [])
  break_skip ← emit_hole
  end_for jump_index iterator_and_err_register break_skip
  set_continue old_continue_jump
  leave_scope
  give_register
  give_register
  pure first

-- the body of one ParsedConditional: its place in `jump_after_body_positions`
unfoldable pub translate_branch : Option (Action ℕ) → Action ℕ → Action ℕ
translate_branch none content = do
  emit (byte op_new_scope ∷ [])
  enter_scope
  content
  emit (byte op_pop_scope ∷ byte op_jump ∷ [])
  after_body ← emit_hole
  leave_scope
  pure after_body
translate_branch (some condition) content = do
  emit (byte op_new_scope ∷ [])
  enter_scope
  condition
  check
  emit (byte op_bool ∷ byte op_jump_if_false ∷ byte 0 ∷ [])
  last_jump_index ← emit_hole
  content
  check
  emit (byte op_pop_scope ∷ byte op_jump ∷ [])
  after_body ← emit_hole
  land last_jump_index
  emit (byte op_pop_scope ∷ [])
  leave_scope
  pure after_body

unfoldable pub translate_branches : List (Option (Action ℕ) × Action ℕ) → Action (List ℕ)
translate_branches [] = pure []
translate_branches ((condition, content) ∷ branches) = do
  after_body ← translate_branch condition content
  after_bodies ← translate_branches branches
  pure (after_body ∷ after_bodies)

-- translate_parsed_if
unfoldable pub translate_if : List (Option (Action ℕ) × Action ℕ) → Action ℕ
translate_if branches = do
  first ← here
  set_registers 1
  after_bodies ← translate_branches branches
  land_all after_bodies
  emit (load_null 0)
  pure first

-- the loop of translate, which breaks off at an error
unfoldable pub translate_all : List (Action ℕ) → Action Unit
translate_all [] = pure tt
translate_all (statement ∷ statements) = statement >> check >> translate_all statements

-- `*err = translate(…)`
unfoldable pub translate : List (Action ℕ) → Action Unit
translate statements = no_err >> translate_all statements

-- the array of the return jumps, which the outermost dowrap of a function makes and sets
unfoldable pub end_returns : JumpContext → Action Unit
end_returns old_return_jump = elim (old_return_jump.positions) [
  | some ps ↦ pure tt
  | none ↦ do
    return_jumps ← get_return
    land_all (positions_of return_jumps)
    set_return old_return_jump
]

unfoldable pub begin_returns : JumpContext → Action Unit
begin_returns old_return_jump = elim (old_return_jump.positions) [
  | some ps ↦ pure tt
  | none ↦ open_return
]

-- translate_parsed_dowrap
unfoldable pub translate_do_wrap : List (Action ℕ) → Action ℕ
translate_do_wrap [] = do set_registers 1; first ← here; emit (load_null 0); pure first
translate_do_wrap (statement ∷ statements) = do
  set_registers 1
  first ← here
  old_return_jump ← get_return
  begin_returns old_return_jump
  enter_scope
  emit (byte op_new_scope ∷ [])
  translate (statement ∷ statements)
  check
  emit (load_null 0 ++ byte op_pop_scope ∷ [])
  end_returns old_return_jump
  leave_scope
  pure first

-- AST_THROW of translate_parsed
unfoldable pub translate_throw : Action ℕ → Place → Action ℕ
translate_throw value place = do
  first ← value
  emit (source_place place ++ byte op_throw ∷ [])
  pure first

-- AST_CONDITIONAL_EXCEPTION of translate_parsed
unfoldable pub translate_conditional : Action ℕ → Action ℕ → Action ℕ → Action ℕ
translate_conditional condition true_body false_body = do
  first ← condition
  emit (byte op_bool ∷ byte op_jump_if_false ∷ byte 0 ∷ [])
  jump_index ← emit_hole
  true_body
  emit (byte op_jump ∷ [])
  skip_index ← emit_hole
  false_start ← false_body
  set_instruction_code jump_index false_start
  land skip_index
  pure first
