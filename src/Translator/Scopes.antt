-- ===== src/Translator/Scopes.antt =====
-- What declares names and opens scopes: declaration, import, class and try of src/translator.
use chloride.Base.{
  ℕ, Bool, true, false, Option, none, some, List, [], ◌∷◌, ◌++◌, ltb, if◌then◌else◌, length,
}
use chloride.Translator.Machine.{
  Action, pure, ◌>>=◌, ◌>>◌, check, emit, emit_hole, set_instruction_code, land, constant,
  set_registers, set_all_registers, take_register, give_register, enter_scope, leave_scope,
  enter_handler, leave_handler, get_break, set_break, get_return, set_return, close_break,
  close_return, byte, code,
}
use chloride.Translator.Syntax.{Place, Expose}
use chloride.Translator.Pieces.{
  copy, load_null, init_call, insert_arg, source_location, source_place, name_codes, declare_name,
}
use chloride.Translator.Opcodes.{
  op_jump_if_false, op_jump, op_new_scope, op_pop_scope, op_call, op_not, op_create_class,
  op_load_base_class, op_import, op_expose_all, op_expose, op_exception_catcher_push,
  op_exception_catcher_pop, op_load_is_instance_function, op_load_exception_class, op_quiet_throw,
}

-- one ParsedSingleDeclaration: the value, then its destructuring from register 0
unfoldable pub translate_single : Action ℕ → Action ℕ → Action ℕ
translate_single from destructure = do
  old_break_jump ← get_break
  close_break
  old_return_jump ← get_return
  close_return
  temp ← from
  check
  destructure
  set_return old_return_jump
  set_break old_break_jump
  pure temp

unfoldable pub translate_singles : List (Action ℕ × Action ℕ) → Action Unit
translate_singles [] = pure tt
translate_singles ((from, destructure) ∷ rest) =
    translate_single from destructure >> translate_singles rest

-- translate_parsed_declaration
unfoldable pub translate_declaration : List (Action ℕ × Action ℕ) → Action ℕ
translate_declaration [] = do set_registers 1; pure 0
translate_declaration ((from, destructure) ∷ rest) = do
  set_registers 1
  first ← translate_single from destructure
  translate_singles rest
  pure first

-- the declaration of an exposed name, by its other name if it has one
unfoldable pub expose_alias : (List ℕ → ℕ) → List ℕ → ℕ → Option (List ℕ) → Action Unit
expose_alias siphash name pos none = do emit (declare_name siphash name pos 0); pure tt
expose_alias siphash name pos (some alias) = do
  alias_pos ← constant siphash alias
  emit (declare_name siphash alias alias_pos 0)
  pure tt

unfoldable pub translate_exposes : (List ℕ → ℕ) → Bool → ℕ → List Expose → Action Unit
translate_exposes siphash is_first register_a [] = pure tt
translate_exposes siphash is_first register_a (e ∷ exposes) = do
  emit (if is_first then [] else copy register_a 0)
  pos ← constant siphash e.identifier
  emit (byte op_expose ∷ name_codes siphash e.identifier pos)
  expose_alias siphash e.identifier pos e.renamed
  translate_exposes siphash false register_a exposes

-- what an import exposes; more than one name needs the module in a register
unfoldable pub expose_names : (List ℕ → ℕ) → List Expose → Action Unit
expose_names siphash exposes =
    if ltb 1 (length exposes)
    then (do
      register_a ← take_register
      emit (copy 0 register_a)
      translate_exposes siphash true register_a exposes
      give_register)
    else translate_exposes siphash true 0 exposes

unfoldable pub declare_import : (List ℕ → ℕ) → Option (List ℕ) → Action Unit
declare_import siphash none = pure tt
declare_import siphash (some alias) = do
  as_pos ← constant siphash alias
  emit (declare_name siphash alias as_pos 0)
  pure tt

-- `expose_all`, or the names if there is a list of them
unfoldable pub expose_code : (List ℕ → ℕ) → Bool → Option (List Expose) → Action Unit
expose_code siphash true expose = do emit (byte op_expose_all ∷ []); pure tt
expose_code siphash false none = pure tt
expose_code siphash false (some exposes) = expose_names siphash exposes

-- translate_parsed_import
unfoldable pub translate_import :
    (List ℕ → ℕ) → Action ℕ → Option (List ℕ) → Bool → Option (List Expose) → Place → Action ℕ
translate_import siphash file renamed expose_all expose place = do
  first ← file
  check
  emit (source_place place ++ byte op_import ∷ [])
  declare_import siphash renamed
  expose_code siphash expose_all expose
  pure first

abbrev pub this_name : List ℕ
this_name = b't' ∷ b'h' ∷ b'i' ∷ b's' ∷ []

abbrev pub super_name : List ℕ
super_name = b's' ∷ b'u' ∷ b'p' ∷ b'e' ∷ b'r' ∷ []

unfoldable pub parent_code : Option (Action ℕ) → Action ℕ
parent_code none = emit (byte op_load_base_class ∷ [])
parent_code (some parent) = parent

-- translate_parsed_class
unfoldable pub translate_class :
    (List ℕ → ℕ) → List ℕ → Option (Action ℕ) → Action ℕ → Place → Action ℕ
translate_class siphash name parent body place = do
  parent_register ← take_register
  set_all_registers
  identifier_pos ← constant siphash name
  init_object_name_pos ← constant siphash this_name
  class_parent_pos ← constant siphash super_name
  first ← parent_code parent
  check
  emit (copy 0 parent_register ++ source_location place.line place.column (length name))
  emit (byte op_create_class ∷ code (length name) ∷ code identifier_pos ∷ [])
  emit (declare_name siphash name identifier_pos 0 ++ byte op_new_scope ∷ [])
  enter_scope
  emit (declare_name siphash super_name class_parent_pos parent_register)
  emit (load_null parent_register)
  emit (declare_name siphash this_name init_object_name_pos 0)
  body
  check
  emit (byte op_pop_scope ∷ load_null 0)
  give_register
  leave_scope
  pure first

unfoldable pub exception_class : Option (Action ℕ) → Action Unit
exception_class none = do emit (byte op_load_exception_class ∷ []); pure tt
exception_class (some type) = do type; check

unfoldable pub declare_exception : (List ℕ → ℕ) → ℕ → Option (List ℕ) → Action Unit
declare_exception siphash err_register none = pure tt
declare_exception siphash err_register (some name) = do
  emit (copy err_register 0)
  identifier_pos ← constant siphash name
  emit (declare_name siphash name identifier_pos 0)
  pure tt

-- the handler of translate_parsed_try up to the body of the catch
unfoldable pub begin_catch : ℕ → Option (Action ℕ) → Action Unit
begin_catch err_register type = do
  emit (
      copy 0 err_register
      ++ byte op_load_is_instance_function ∷ (init_call 2 ++ (copy err_register 0 ++ insert_arg 0)))
  exception_class type
  emit (insert_arg 1 ++ byte op_call ∷ byte op_not ∷ byte op_jump_if_false ∷ byte 0 ∷ [])
  is_exception_type ← emit_hole
  emit (copy err_register 0 ++ byte op_quiet_throw ∷ [])
  land is_exception_type

-- translate_parsed_try
unfoldable pub translate_try :
    (List ℕ → ℕ) → Action ℕ → Option (Action ℕ) → Option (List ℕ) → Action ℕ → Action ℕ
translate_try siphash try_body type exception_name catch_body = do
  err_register ← take_register
  set_all_registers
  enter_handler
  first ← emit (byte op_exception_catcher_push ∷ [])
  exception_jump_pos ← emit_hole
  enter_scope
  emit (byte op_new_scope ∷ [])
  try_body
  check
  leave_scope
  emit (byte op_pop_scope ∷ [])
  leave_handler
  emit (byte op_exception_catcher_pop ∷ byte op_jump ∷ [])
  done_pos ← emit_hole
  enter_scope
  handler ← emit (byte op_new_scope ∷ [])
  set_instruction_code exception_jump_pos handler
  begin_catch err_register type
  declare_exception siphash err_register exception_name
  catch_body
  check
  leave_scope
  emit (byte op_pop_scope ∷ [])
  land done_pos
  give_register
  pure first
