-- ===== src/Translator/Values.antt =====
-- Values: string, number, identifier, template of src/translator, and the cases of translate_parsed in
-- src/translator/translator.c for null, booleans, negation, tests, ranges, arrays and dictionaries.
use chloride.Base.{
  ℕ, suc, ◌+◌, Bool, true, false, Option, none, some, List, [], ◌∷◌, ◌++◌, length, if◌then◌else◌,
}
use chloride.Translator.Machine.{
  Action, pure, ◌>>=◌, ◌>>◌, check, emit, constant, set_registers, set_all_registers, take_register,
  give_register, enter_scope, leave_scope, byte, code,
}
use chloride.Translator.Opcodes.{
  op_identifier, op_bool, op_new_scope, op_pop_scope, op_call, op_load_bool, op_load_number, op_not,
  op_negation, op_create_dictionary, op_load_setitem_method, op_load_create_array,
  op_load_range_class, op_load_template_method, op_load_create_tuple, op_load_template,
  op_make_range_inclusive,
}
use chloride.Translator.Pieces.{
  copy, load_null, init_call, insert_arg, source_location, source_place, name_codes, load_string,
}
use chloride.Translator.Syntax.{Place, Number}

-- a `bool` as a byte
abbrev pub flag : Bool → ℕ
flag true = 1
flag false = 0

-- AST_NULL
unfoldable pub translate_null : Action ℕ
translate_null = do set_registers 1; emit (load_null 0)

-- AST_BOOLEAN
unfoldable pub translate_boolean : Bool → Action ℕ
translate_boolean b = do set_registers 1; emit (byte op_load_bool ∷ byte (flag b) ∷ [])

-- AST_NEGATION
unfoldable pub translate_negation : Action ℕ → Action ℕ
translate_negation value = do
  set_registers 1
  output ← value
  emit (byte op_negation ∷ [])
  pure output

-- AST_TO_BOOL
unfoldable pub translate_to_bool : Action ℕ → Bool → Action ℕ
translate_to_bool value invert = do
  first ← value
  emit (byte op_bool ∷ (if invert then byte op_not ∷ [] else []))
  pure first

-- AST_RANGE
unfoldable pub translate_range : Action ℕ → Action ℕ → Bool → Place → Action ℕ
translate_range start stop inclusive place = do
  first ← emit (byte op_load_range_class ∷ init_call 2)
  start
  check
  emit (insert_arg 0)
  stop
  check
  emit (insert_arg 1 ++ (source_place place ++ byte op_call ∷ []))
  emit (if inclusive then byte op_make_range_inclusive ∷ [] else [])
  pure first

-- the loops that insert one argument after another, from the i-th on
unfoldable pub insert_args : ℕ → List (Action ℕ) → Action Unit
insert_args i [] = pure tt
insert_args i (value ∷ values) = do value; check; emit (insert_arg i); insert_args (suc i) values

-- AST_ARRAY
unfoldable pub translate_array : List (Action ℕ) → Action ℕ
translate_array values = do
  first ← emit (byte op_load_create_array ∷ init_call (length values))
  insert_args 0 values
  emit (byte op_call ∷ [])
  pure first

-- the loop of AST_DICTIONARY; the first entry finds the method in register 0
unfoldable pub set_entries : Bool → ℕ → List (Action ℕ × Action ℕ) → Action Unit
set_entries is_first setitem_register [] = pure tt
set_entries is_first setitem_register ((key, value) ∷ entries) = do
  emit (if is_first then [] else copy setitem_register 0)
  emit (init_call 2)
  key
  check
  emit (insert_arg 0)
  value
  check
  emit (insert_arg 1 ++ byte op_call ∷ [])
  set_entries false setitem_register entries

-- AST_DICTIONARY
unfoldable pub translate_dictionary : List (Action ℕ × Action ℕ) → Action ℕ
translate_dictionary entries = do
  first ← emit (byte op_create_dictionary ∷ [])
  dictionary_register ← take_register
  emit (copy 0 dictionary_register ++ byte op_load_setitem_method ∷ [])
  setitem_register ← take_register
  set_all_registers
  emit (copy 0 setitem_register)
  set_entries true setitem_register entries
  emit (copy dictionary_register 0 ++ (load_null dictionary_register ++ load_null setitem_register))
  give_register
  give_register
  pure first

-- the denominator of a number that is no integer
unfoldable pub denominator_codes : (List ℕ → ℕ) → Number → Bool → Action Unit
denominator_codes siphash n true = pure tt
denominator_codes siphash n false = do
  denominator_pos ← constant siphash n.denominator
  emit (code (length n.denominator) ∷ code denominator_pos ∷ [])
  pure tt

-- a number that fits int64_t stands in the bytecode, another one in the constants
unfoldable pub number_codes : (List ℕ → ℕ) → Number → Option ℕ → Action Unit
number_codes siphash n (some i64) = do emit (byte 1 ∷ code i64 ∷ []); pure tt
number_codes siphash n none = do
  emit (byte 0 ∷ [])
  numerator_pos ← constant siphash n.numerator
  emit (
      code (length n.numerator)
      ∷ code numerator_pos
      ∷ byte (flag n.is_int)
      ∷ byte (flag n.is_negative)
      ∷ [])
  denominator_codes siphash n n.is_int

-- translate_parsed_number
unfoldable pub translate_number : (List ℕ → ℕ) → Number → ℕ → Action ℕ
translate_number siphash n to_register = do
  set_registers (to_register + 1)
  start ← emit (byte op_load_number ∷ byte to_register ∷ [])
  number_codes siphash n n.int64
  pure start

-- translate_parsed_string
unfoldable pub translate_string : (List ℕ → ℕ) → List ℕ → Action ℕ
translate_string siphash text = do
  string_pos ← constant siphash text
  set_registers 1
  emit (load_string siphash text string_pos)

-- translate_parsed_identifier
unfoldable pub translate_identifier : (List ℕ → ℕ) → List ℕ → Place → Action ℕ
translate_identifier siphash name place = do
  identifier_pos ← constant siphash name
  set_registers 1
  start ← emit (source_location place.line place.column (length name))
  emit (byte op_identifier ∷ name_codes siphash name identifier_pos)
  pure start

-- TemplateValue: a string or a value
pub data TemplatePart : Type 0 where
  template_string : List ℕ → TemplatePart
  template_value : Action ℕ → TemplatePart

abbrev pub is_string : TemplatePart → Bool
is_string (template_string text) = true
is_string (template_value value) = false

unfoldable pub template_part : (List ℕ → ℕ) → TemplatePart → Action Unit
template_part siphash (template_value value) = do value; check
template_part siphash (template_string text) = do
  string_pos ← constant siphash text
  emit (load_string siphash text string_pos)
  pure tt

unfoldable pub template_parts : (List ℕ → ℕ) → ℕ → List TemplatePart → Action Unit
template_parts siphash i [] = pure tt
template_parts siphash i (p ∷ ps) = do
  emit (
      byte op_load_create_tuple
      ∷ (init_call 2 ++ byte op_load_bool ∷ byte (flag (is_string p)) ∷ insert_arg 0))
  template_part siphash p
  emit (insert_arg 1 ++ byte op_call ∷ insert_arg i)
  template_parts siphash (suc i) ps

unfoldable pub templater_code : Option (Action ℕ) → Action ℕ
templater_code none = emit (byte op_load_template ∷ [])
templater_code (some templater) = do
  first ← templater
  check
  emit (byte op_load_template_method ∷ [])
  pure first

-- translate_parsed_template
unfoldable pub translate_template : (List ℕ → ℕ) → Option (Action ℕ) → List TemplatePart → Action ℕ
translate_template siphash templater parts = do
  set_registers 1
  first ← templater_code templater
  emit (init_call 1 ++ byte op_new_scope ∷ [])
  enter_scope
  emit (byte op_load_create_tuple ∷ init_call (length parts))
  template_parts siphash 0 parts
  emit (byte op_call ∷ (insert_arg 0 ++ byte op_call ∷ byte op_pop_scope ∷ []))
  leave_scope
  pure first
