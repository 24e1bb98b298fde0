-- ===== src/Translator/Calls.antt =====
-- Calls and what is made of them: access, item_access, call, assignment, delete, import, operation,
-- class and function of src/translator.
use chloride.Base.{
  ℕ, suc, Bool, true, false, Option, none, some, List, [], ◌∷◌, ◌++◌, length, ◌==◌, if◌then◌else◌,
}
use chloride.Translator.Machine.{
  Action, pure, ◌>>=◌, ◌>>◌, restoring_return, panic, check, emit, constant, set_registers,
  set_all_registers, take_register, give_register, enter_scope, leave_scope, get_break, set_break,
  get_return, set_return, close_break, close_return, byte,
}
use chloride.Translator.Opcodes.{
  op_identifier, op_delete_identifier, op_new_scope, op_pop_scope, op_set_key_word_arg, op_call,
  op_assign, op_addition, op_subtraction, op_load_getattribute_method, op_multiplication,
  op_exponentiation, op_division, op_floor_division, op_modulo, op_load_setattr_method,
  op_load_delattr_method, op_load_getitem_method, op_load_setitem_method, op_load_delitem_method,
  op_load_create_tuple, op_load_slice_class, op_unpack_key_word_args, op_unpack_args,
}
use chloride.Translator.Pieces.{
  copy, load_null, init_call, insert_arg, source_location, source_place, name_codes,
}
use chloride.Translator.Syntax.{
  Place, Token, token_assign, token_plus_assign, token_minus_assign, token_star_assign,
  token_caret_assign, token_slash_assign, token_floordiv_assign, token_modulo_assign,
}
use chloride.Translator.Values.{insert_args}

-- translate_access
unfoldable pub translate_access : Action ℕ → Action ℕ → Place → Action ℕ
translate_access to_access field place = do
  set_registers 1
  first ← to_access
  check
  emit (byte op_load_getattribute_method ∷ init_call 1)
  field
  check
  emit (insert_arg 0 ++ (source_place place ++ byte op_call ∷ []))
  pure first

-- one part of a subscript, null where it is left out
unfoldable pub translate_part : Option (Action ℕ) → Action Unit
translate_part none = do emit (load_null 0); pure tt
translate_part (some value) = do value; check

unfoldable pub translate_parts : Bool → ℕ → List (Option (Action ℕ)) → Action Unit
translate_parts single j [] = pure tt
translate_parts single j (p ∷ ps) = do
  translate_part p
  emit (if single then [] else insert_arg j)
  translate_parts single (suc j) ps

abbrev pub is_single : {A : Type 0} → List A → Bool
is_single xs = length xs == 1

unfoldable pub translate_subscript_loop : Bool → ℕ → List (List (Option (Action ℕ))) → Action Unit
translate_subscript_loop single i [] = pure tt
translate_subscript_loop single i (ps ∷ subscripts) = do
  emit (if is_single ps then [] else byte op_load_slice_class ∷ init_call (length ps))
  translate_parts (is_single ps) 0 ps
  emit (if is_single ps then [] else byte op_call ∷ [])
  emit (if single then [] else insert_arg i)
  translate_subscript_loop single (suc i) subscripts

-- the loops over the subscripts, which item_access.c, assignment.c and delete.c have alike
unfoldable pub translate_subscripts : List (List (Option (Action ℕ))) → Action Unit
translate_subscripts subscripts = do
  emit (
      if is_single subscripts
      then []
      else byte op_load_create_tuple ∷ init_call (length subscripts))
  translate_subscript_loop (is_single subscripts) 0 subscripts
  emit (if is_single subscripts then [] else byte op_call ∷ [])
  emit (insert_arg 0)
  pure tt

-- translate_item_access
unfoldable pub translate_item_access : Action ℕ → List (List (Option (Action ℕ))) → Place → Action ℕ
translate_item_access to_access subscripts place = do
  set_registers 1
  first ← to_access
  check
  emit (byte op_load_getitem_method ∷ init_call 1)
  translate_subscripts subscripts
  emit (source_place place ++ byte op_call ∷ [])
  pure first

-- the keyword arguments of a call
unfoldable pub key_word_args : (List ℕ → ℕ) → List (List ℕ × Action ℕ) → Action Unit
key_word_args siphash [] = pure tt
key_word_args siphash ((name, value) ∷ args) = do
  value
  check
  identifier_pos ← constant siphash name
  set_registers 1
  emit (byte op_set_key_word_arg ∷ name_codes siphash name identifier_pos)
  key_word_args siphash args

-- `*args` and `**kwargs`, whose error is not looked at
unfoldable pub unpack : Option (Action ℕ) → ℕ → Action Unit
unpack none op = pure tt
unpack (some value) op = do value; emit (byte op ∷ []); pure tt

-- translate_parsed_call
unfoldable pub translate_call :
    (List ℕ → ℕ)
    → Action ℕ
    → List (Action ℕ)
    → Option (Action ℕ)
    → List (List ℕ × Action ℕ)
    → Option (Action ℕ)
    → Place
    → Action ℕ
translate_call siphash to_call args v_arg kwargs kw_arg place = do
  set_registers 1
  first ← to_call
  check
  emit (init_call (length args) ++ byte op_new_scope ∷ [])
  enter_scope
  old_break_jump ← get_break
  close_break
  old_return_jump ← get_return
  close_return
  restoring_return old_return_jump (insert_args 0 args)
  unpack v_arg op_unpack_args
  restoring_return old_return_jump (key_word_args siphash kwargs)
  unpack kw_arg op_unpack_key_word_args
  set_return old_return_jump
  set_break old_break_jump
  emit (byte op_pop_scope ∷ [])
  leave_scope
  emit (source_location place.line place.column 1 ++ byte op_call ∷ [])
  pure first

-- add_assignment_operation
unfoldable pub add_assignment_operation : Token → ℕ → ℕ → ℕ → Action ℕ
add_assignment_operation type output a b = elim type [
  | token_plus_assign ↦ emit (byte op_addition ∷ byte a ∷ byte b ∷ byte output ∷ [])
  | token_minus_assign ↦ emit (byte op_subtraction ∷ byte a ∷ byte b ∷ byte output ∷ [])
  | token_star_assign ↦ emit (byte op_multiplication ∷ byte a ∷ byte b ∷ byte output ∷ [])
  | token_caret_assign ↦ emit (byte op_exponentiation ∷ byte a ∷ byte b ∷ byte output ∷ [])
  | token_slash_assign ↦ emit (byte op_division ∷ byte a ∷ byte b ∷ byte output ∷ [])
  | token_floordiv_assign ↦ emit (byte op_floor_division ∷ byte a ∷ byte b ∷ byte output ∷ [])
  | token_modulo_assign ↦ emit (byte op_modulo ∷ byte a ∷ byte b ∷ byte output ∷ [])
  | _ ↦ panic
]

abbrev pub is_plain : Token → Bool
is_plain token_assign = true
is_plain _ = false

-- what is assigned to: the cases of `assignment->to->type`
pub data Target : Type 0 where
  to_identifier : List ℕ → Target
  to_access : Action ℕ → Action ℕ → Target
  to_item : Action ℕ → List (List (Option (Action ℕ))) → Target
  to_other : Target

unfoldable pub assign_operation : (List ℕ → ℕ) → Token → List ℕ → ℕ → Place → Action Unit
assign_operation siphash type name identifier_pos place = do
  operation_register ← take_register
  set_all_registers
  emit (copy 0 operation_register ++ source_place place)
  emit (byte op_identifier ∷ name_codes siphash name identifier_pos)
  add_assignment_operation type 0 0 operation_register
  give_register

-- assignment to a name
unfoldable pub assign_identifier : (List ℕ → ℕ) → Token → List ℕ → Place → Action Unit
assign_identifier siphash type name place = do
  identifier_pos ← constant siphash name
  (if is_plain type then pure tt else assign_operation siphash type name identifier_pos place)
  emit (byte op_assign ∷ (name_codes siphash name identifier_pos ++ byte 0 ∷ []))
  pure tt

-- the compound assignment to a field or an item: its old value is fetched with `getter`
unfoldable pub compound : Token → ℕ → ℕ → ℕ → Place → Action Unit
compound type getter register_a to_access_register place = do
  access_register ← take_register
  set_all_registers
  emit (copy 0 access_register ++ (copy to_access_register 0 ++ source_place place))
  emit (
      byte getter
      ∷ (init_call 1 ++ (copy access_register 0 ++ (insert_arg 0 ++ byte op_call ∷ []))))
  add_assignment_operation type 0 0 register_a
  give_register
  give_register

-- the arguments of the setter, and the value in register 0: of a plain assignment, and of a compound one
unfoldable pub plain_member : ℕ → ℕ → Action Unit → Place → Action Unit
plain_member setter register_a member place = do
  emit (source_place place ++ byte setter ∷ init_call 2)
  member
  emit (copy register_a 0)
  pure tt

unfoldable pub compound_member : Token → ℕ → ℕ → ℕ → Action Unit → Place → Action Unit
compound_member type getter setter register_a member place = do
  to_access_register ← take_register
  emit (copy 0 to_access_register)
  emit (source_place place ++ byte setter ∷ init_call 2)
  member
  compound type getter register_a to_access_register place

-- the assignments to a field and to an item, which differ in the methods and in what is accessed
unfoldable pub assign_member : Token → ℕ → ℕ → Action ℕ → Action Unit → Place → Action Unit
assign_member type getter setter object member place = do
  register_a ← take_register
  set_all_registers
  emit (copy 0 register_a)
  object
  check
  (if is_plain type
      then plain_member setter register_a member place
      else compound_member type getter setter register_a member place)
  emit (insert_arg 1 ++ byte op_call ∷ [])
  give_register

-- the name of the field as the first argument
unfoldable pub field_name : Action ℕ → Action Unit
field_name field = do field; check; emit (insert_arg 0); pure tt

unfoldable pub assign_to : (List ℕ → ℕ) → Token → Target → Place → Action Unit
assign_to siphash type (to_identifier name) place = assign_identifier siphash type name place
assign_to siphash type (to_access object field) place =
    assign_member type op_load_getattribute_method op_load_setattr_method object (field_name field)
      place
assign_to siphash type (to_item object subscripts) place =
    assign_member type op_load_getitem_method op_load_setitem_method object
      (translate_subscripts subscripts) place
assign_to siphash type to_other place = panic

-- translate_parsed_assignment
unfoldable pub translate_assignment : (List ℕ → ℕ) → Token → Target → Action ℕ → Place → Action ℕ
translate_assignment siphash type target from place = do
  set_registers 1
  old_break_jump ← get_break
  close_break
  old_return_jump ← get_return
  close_return
  first ← from
  check
  assign_to siphash type target place
  set_return old_return_jump
  set_break old_break_jump
  pure first

unfoldable pub delete_member : ℕ → Action ℕ → Action Unit → Place → Action ℕ
delete_member op object member place = do
  first ← object
  check
  emit (source_place place ++ byte op ∷ init_call 1)
  member
  emit (byte op_call ∷ [])
  pure first

-- translate_parsed_delete; a name is located by its own place
unfoldable pub translate_delete : (List ℕ → ℕ) → Target → Place → Place → Action ℕ
translate_delete siphash (to_identifier name) name_place place = do
  identifier_pos ← constant siphash name
  set_registers 1
  first ← emit (source_location name_place.line name_place.column (length name))
  emit (byte op_delete_identifier ∷ name_codes siphash name identifier_pos)
  pure first
translate_delete siphash (to_access object field) name_place place =
    delete_member op_load_delattr_method object (field_name field) place
translate_delete siphash (to_item object subscripts) name_place place =
    delete_member op_load_delitem_method object (translate_subscripts subscripts) place
translate_delete siphash to_other name_place place = panic
