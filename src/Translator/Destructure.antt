-- ===== src/Translator/Destructure.antt =====
-- Destructuring: translate_destructure of src/translator/destructure/destructure.c, with OP_DECLARE, the
-- only code it is called with. An inner destructuring is an action that takes the register of its value.
use chloride.Base.{
  ℕ, suc, Bool, true, false, Option, none, some, List, [], ◌∷◌, ◌++◌, length, ◌==◌, ltb,
  if◌then◌else◌,
}
use chloride.Translator.Machine.{
  Action, pure, ◌>>=◌, ◌>>◌, check, emit, emit_hole, here, land, constant, set_registers,
  set_all_registers, take_register, give_register, enter_handler, leave_handler, byte, code,
}
use chloride.Translator.Opcodes.{
  op_jump_if_false, op_jump, op_call, op_load_number, op_not, op_load_getitem_method,
  op_load_delitem_method, op_load_create_array, op_load_iter_method, op_load_next_method,
  op_exception_catcher_push, op_exception_catcher_pop, op_load_is_instance_function,
  op_load_stopiteration_class, op_quiet_throw, op_destructure_error, op_unpack_iterator,
  op_load_dictionary_class,
}
use chloride.Translator.Pieces.{
  copy, init_call, insert_arg, source_location, declare_name, load_string,
}

-- an inner destructuring, of the value in a register
abbrev pub Inner : Type 0
Inner = ℕ → Action ℕ

-- DESTRUCTURE_IDENTIFIER
unfoldable pub destructure_name : (List ℕ → ℕ) → List ℕ → ℕ → ℕ → ℕ → Action ℕ
destructure_name siphash name line column value_register = do
  emit (source_location line column (length name))
  identifier_pos ← constant siphash name
  emit (declare_name siphash name identifier_pos value_register)

-- the items of DESTRUCTURE_INDEX from the i-th on; the first one finds the method in register 0
unfoldable pub index_items : ℕ → ℕ → ℕ → List Inner → Action Unit
index_items counter_register next_register i [] = pure tt
index_items counter_register next_register i (item ∷ items) = do
  emit (byte op_load_number ∷ byte counter_register ∷ byte 1 ∷ code i ∷ [])
  emit (if i == 0 then [] else copy next_register 0)
  emit (init_call 0 ++ byte op_call ∷ [])
  item 0
  index_items counter_register next_register (suc i) items

-- `*rest` of DESTRUCTURE_INDEX, an array of what is left
unfoldable pub index_rest : ℕ → ℕ → Option Inner → Action Unit
index_rest iterator_register next_register none = pure tt
index_rest iterator_register next_register (some rest) = do
  emit (
      byte op_load_create_array
      ∷ (init_call 0
          ++ byte op_unpack_iterator
            ∷ byte iterator_register
            ∷ byte next_register
            ∷ byte op_call
            ∷ []))
  rest 0
  pure tt

-- more than one value is asked of the iterator
abbrev pub asks_again : {A B : Type 0} → List A → Option B → Bool
asks_again items (some rest) = true
asks_again items none = ltb 1 (length items)

-- the handler of DESTRUCTURE_INDEX, where StopIteration is told from other exceptions
unfoldable pub index_handler : ℕ → ℕ → ℕ → ℕ → Action Unit
index_handler iterator_register counter_register count jump_index = do
  land jump_index
  emit (
      copy 0 iterator_register
      ++ byte op_load_is_instance_function
        ∷ (init_call 2
            ++ (copy iterator_register 0
                ++ (insert_arg 0
                    ++ byte op_load_stopiteration_class ∷ (insert_arg 1 ++ byte op_call ∷ [])))))
  emit (byte op_not ∷ byte op_jump_if_false ∷ byte 0 ∷ [])
  is_stop_iteration ← emit_hole
  emit (copy iterator_register 0 ++ byte op_quiet_throw ∷ [])
  land is_stop_iteration
  emit (byte op_destructure_error ∷ code count ∷ byte counter_register ∷ [])
  pure tt

-- DESTRUCTURE_INDEX
unfoldable pub destructure_index : List Inner → Option Inner → ℕ → Action ℕ
destructure_index [] rest value_register = here
destructure_index (item ∷ items) rest value_register = do
  first ← here
  iterator_register ← take_register
  next_register ← take_register
  counter_register ← take_register
  emit (if value_register == 0 then [] else copy value_register 0)
  set_all_registers
  emit (
      byte op_load_iter_method
      ∷ (init_call 0 ++ byte op_call ∷ (copy 0 iterator_register ++ byte op_load_next_method ∷ [])))
  emit (if asks_again (item ∷ items) rest then copy 0 next_register else [])
  enter_handler
  emit (byte op_exception_catcher_push ∷ [])
  jump_index ← emit_hole
  index_items counter_register next_register 0 (item ∷ items)
  index_rest iterator_register next_register rest
  leave_handler
  emit (byte op_exception_catcher_pop ∷ byte op_jump ∷ [])
  skip_exception_handler ← emit_hole
  index_handler iterator_register counter_register (length (item ∷ items)) jump_index
  land skip_exception_handler
  give_register
  give_register
  give_register
  pure first

-- the key of an item: the shorthand of a name stands for its text
unfoldable pub key_name : (List ℕ → ℕ) → List ℕ → Action Unit
key_name siphash name = do
  key_string_pos ← constant siphash name
  set_registers 1
  emit (load_string siphash name key_string_pos)
  pure tt

unfoldable pub key_value : Action ℕ → Action Unit
key_value key = do key; check

-- with a `*rest` the key's value is kept in a register of its own, and that register comes back
unfoldable pub store_key : Bool → Action (List ℕ)
store_key false = pure []
store_key true = do
  key_register ← take_register
  set_all_registers
  emit (copy 0 key_register ++ copy key_register 0)
  pure (key_register ∷ [])

-- the items of DESTRUCTURE_KEY: the registers of their keys
unfoldable pub key_items : ℕ → Bool → List (Action Unit × Inner) → Action (List ℕ)
key_items dictionary_register has_rest [] = pure []
key_items dictionary_register has_rest ((key, item) ∷ items) = do
  emit (copy dictionary_register 0 ++ byte op_load_getitem_method ∷ init_call 1)
  key
  key_register ← store_key has_rest
  emit (insert_arg 0 ++ byte op_call ∷ [])
  item 0
  check
  key_registers ← key_items dictionary_register has_rest items
  pure (key_register ++ key_registers)

-- the keys are taken out of the copy
unfoldable pub delete_keys : ℕ → List ℕ → Action Unit
delete_keys rest_register [] = pure tt
delete_keys rest_register (key_register ∷ key_registers) = do
  emit (
      copy rest_register 0
      ++ byte op_load_delitem_method
        ∷ (init_call 1 ++ (copy key_register 0 ++ (insert_arg 0 ++ byte op_call ∷ []))))
  delete_keys rest_register key_registers

unfoldable pub give_registers : List ℕ → Action Unit
give_registers [] = pure tt
give_registers (r ∷ rs) = give_register >> give_registers rs

-- `*rest` of DESTRUCTURE_KEY; at an error two lots of registers are given back, but not the dictionary's
unfoldable pub key_rest : ℕ → List ℕ → Inner → Action Unit
key_rest dictionary_register key_registers rest = do
  rest_register ← take_register
  set_all_registers
  emit (
      byte op_load_dictionary_class
      ∷ (init_call 1
          ++ (copy dictionary_register 0 ++ (insert_arg 0 ++ byte op_call ∷ copy 0 rest_register))))
  delete_keys rest_register key_registers
  rest rest_register
  give_register
  give_registers key_registers
  check

-- the values of the keys, each destructured on its own, and then `*rest`
unfoldable pub key_parts : List (Action Unit × Inner) → Option Inner → ℕ → Action Unit
key_parts items none dictionary_register = do key_items dictionary_register false items; pure tt
key_parts items (some rest) dictionary_register = do
  key_registers ← key_items dictionary_register true items
  key_rest dictionary_register key_registers rest

-- `destructure->key.length || destructure->key.rest`
abbrev pub takes_nothing : {A B : Type 0} → List A → Option B → Bool
takes_nothing [] none = true
takes_nothing items rest = false

-- DESTRUCTURE_KEY
unfoldable pub destructure_key : List (Action Unit × Inner) → Option Inner → ℕ → Action ℕ
destructure_key items rest value_register = if takes_nothing items rest then here else do
  first ← here
  dictionary_register ← take_register
  set_all_registers
  emit (copy value_register dictionary_register)
  key_parts items rest dictionary_register
  give_register
  pure first
