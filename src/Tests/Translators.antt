-- ===== src/Tests/Translators.antt =====
-- Runs of the translator, and the witnesses of its properties.
use chloride.Base.{
  ℕ, ◌+◌, ◌<◌, ◌≡◌, ◌⊎◌, refl, Option, none, some, true, false, List, [], ◌∷◌, arith, length,
}
use chloride.Translator.Restore.Restored.{
  Restored, translate_parsed-Restored, translate_parsed-Grown,
}
use chloride.Base.{◌==◌, if◌then◌else◌}
use chloride.Translator.Constants.{
  ConstantArena, Pushed, Overread, arena_push, arena_append, same_bytes, arena_push-Pushed,
}
use chloride.Translator.Restore.Frame.{Grown}
use chloride.Base.Run.{Run, Returns}
use chloride.Translator.Holes.{emit_hole-emit}
use chloride.Translator.Machine.{emit_hole, ◌>>◌, byte, code}
use chloride.Bytecode.{uint64_to_bytes, bytes_from}
use chloride.Translator.Machine.{
  ◌>>=◌, Translated, init_translator, Outcome, pure, called, raise, check, no_err, encode, emit,
  here, set_instruction_code, land_all, constant, set_registers, set_all_registers, take_register,
  keep_register, enter_scope, leave_scope, get_break, set_break, get_return, set_return,
  get_continue, set_continue, open_break, open_return, continue_at, next, left, exit_failure, fault,
}
use chloride.Translator.Syntax.{
  Place, Parsed, Items, token_and, null, boolean, while_loop, do_wrap, break_loop, operation,
  no_items, item,
}
use chloride.Translator.Control.{
  unwind, leave_loop, translate_break, translate_while, translate_all, translate, end_returns,
  begin_returns, translate_do_wrap,
}
use chloride.Translator.Values.{translate_null, translate_boolean}
use chloride.Translator.Operations.{logic_operands, translate_logic, translate_operation}
use chloride.Translator.Dispatch.{translate_parsed, translate_program}

-- what is left behind, at the end or at an error
abbrev final : {A : Type 0} → Outcome A → Translated
final (next a u) = u
final (left u) = u
final exit_failure = init_translator
final fault = init_translator

abbrev somewhere : Place
somewhere = record { line = 1; column = 1; length = 1 }

abbrev some_hash : List ℕ → ℕ
some_hash bytes = 5 + length bytes

-- `while true do { break }`, then `true and null`
abbrev loop : Parsed
loop = while_loop (boolean true) (do_wrap (item (break_loop somewhere) no_items))

abbrev conjunction : Parsed
conjunction = operation token_and (item (boolean true) (item null no_items)) somewhere

abbrev looping : Items
looping = item loop (item conjunction no_items)

looping_errors : (final (translate_program some_hash looping init_translator)).errors ≡ 0
unfolding translate_program translate translate_all translate_parsed unwind leave_loop
    translate_break translate_while translate_do_wrap begin_returns end_returns translate_null
    translate_boolean translate_operation translate_logic logic_operands ◌>>=◌ pure called check
    no_err emit encode here set_instruction_code land_all constant set_registers set_all_registers
    take_register keep_register enter_scope leave_scope get_break set_break get_return set_return
    get_continue set_continue open_break open_return continue_at init_translator raise
    uint64_to_bytes bytes_from
looping_errors = refl

loop_run :
    translate_parsed some_hash loop init_translator
    ≡ next 0 (final (translate_parsed some_hash loop init_translator))
unfolding translate_program translate translate_all translate_parsed unwind leave_loop
    translate_break translate_while translate_do_wrap begin_returns end_returns translate_null
    translate_boolean translate_operation translate_logic logic_operands ◌>>=◌ pure called check
    no_err emit encode here set_instruction_code land_all constant set_registers set_all_registers
    take_register keep_register enter_scope leave_scope get_break set_break get_return set_return
    get_continue set_continue open_break open_return continue_at init_translator raise
    uint64_to_bytes bytes_from
loop_run = refl

loop_errors :
    (final (translate_parsed some_hash loop init_translator)).errors ≡ init_translator.errors
unfolding translate_program translate translate_all translate_parsed unwind leave_loop
    translate_break translate_while translate_do_wrap begin_returns end_returns translate_null
    translate_boolean translate_operation translate_logic logic_operands ◌>>=◌ pure called check
    no_err emit encode here set_instruction_code land_all constant set_registers set_all_registers
    take_register keep_register enter_scope leave_scope get_break set_break get_return set_return
    get_continue set_continue open_break open_return continue_at init_translator raise
    uint64_to_bytes bytes_from
loop_errors = refl

-- break closes the scope of the block and that of the loop, and jumps behind the loop, to 40; the test
-- that fails jumps to 39, where the loop's scope is closed
loop_bytes :
    (final (translate_parsed some_hash loop init_translator)).bytecode
    ≡ 14 ∷ 22 ∷ 1 ∷ 11 ∷ 12 ∷ 0 ∷ 39 ∷ 0 ∷ 0 ∷ 0 ∷ 0 ∷ 0 ∷ 0 ∷ 0 ∷ 14 ∷ 16 ∷ 16 ∷ 13 ∷ 40 ∷ 0 ∷ 0
      ∷ 0 ∷ 0 ∷ 0 ∷ 0 ∷ 0 ∷ 3 ∷ 0 ∷ 16 ∷ 15 ∷ 13 ∷ 1 ∷ 0 ∷ 0 ∷ 0 ∷ 0 ∷ 0 ∷ 0 ∷ 0 ∷ 16 ∷ 3 ∷ 0 ∷ []
unfolding translate_program translate translate_all translate_parsed unwind leave_loop
    translate_break translate_while translate_do_wrap begin_returns end_returns translate_null
    translate_boolean translate_operation translate_logic logic_operands ◌>>=◌ pure called check
    no_err emit encode here set_instruction_code land_all constant set_registers set_all_registers
    take_register keep_register enter_scope leave_scope get_break set_break get_return set_return
    get_continue set_continue open_break open_return continue_at init_translator raise
    uint64_to_bytes bytes_from
loop_bytes = refl

no_error_yet : init_translator.err ≡ false
unfolding init_translator
no_error_yet = refl

first_register : init_translator.register_assignment < 256
unfolding init_translator
first_register = omega arith

translate_parsed-Restored_example :
    Restored init_translator (final (translate_parsed some_hash loop init_translator))
translate_parsed-Restored_example =
    translate_parsed-Restored some_hash loop init_translator
      (final (translate_parsed some_hash loop init_translator)) 0 no_error_yet first_register
      loop_run loop_errors

-- `break` with no loop around it
abbrev stray : Items
stray = item (break_loop somewhere) no_items

stray_error : (final (translate_program some_hash stray init_translator)).errors ≡ 1
unfolding translate_program translate translate_all translate_parsed unwind leave_loop
    translate_break translate_while translate_do_wrap begin_returns end_returns translate_null
    translate_boolean translate_operation translate_logic logic_operands ◌>>=◌ pure called check
    no_err emit encode here set_instruction_code land_all constant set_registers set_all_registers
    take_register keep_register enter_scope leave_scope get_break set_break get_return set_return
    get_continue set_continue open_break open_return continue_at init_translator raise
    uint64_to_bytes bytes_from
stray_error = refl

translate_parsed-Grown_example :
    Grown init_translator (final (translate_parsed some_hash loop init_translator))
translate_parsed-Grown_example =
    translate_parsed-Grown some_hash loop init_translator
      (final (translate_parsed some_hash loop init_translator)) 0 loop_run

-- `ab` behind `cd`, which has the same hash: 7
abbrev one_constant : ConstantArena
one_constant = record {
  data_bytes = b'c' ∷ b'd' ∷ [];
  offsets = λ hash. if hash == 7 then 1 else 0;
}

arena_push-Pushed_example :
    (Overread some_hash one_constant (b'a' ∷ b'b' ∷ [])
      × (arena_push some_hash one_constant (b'a' ∷ b'b' ∷ []) ≡ Run.fault))
    ⊎ ((¬ Overread some_hash one_constant (b'a' ∷ b'b' ∷ []))
        × Returns
            (arena_push some_hash one_constant (b'a' ∷ b'b' ∷ []))
            (Pushed one_constant 7 (b'a' ∷ b'b' ∷ [])))
arena_push-Pushed_example = arena_push-Pushed some_hash one_constant (b'a' ∷ b'b' ∷ [])

abbrev offset_of : Run (ConstantArena × ℕ) → Option ℕ
offset_of (Run.ok r) = some r.1
offset_of Run.exit_failure = none
offset_of Run.fault = none

collision_offset : offset_of (arena_push some_hash one_constant (b'a' ∷ b'b' ∷ [])) ≡ some 2
unfolding arena_push arena_append same_bytes
collision_offset = refl

shared_offset : offset_of (arena_push some_hash one_constant (b'c' ∷ b'd' ∷ [])) ≡ some 0
unfolding arena_push arena_append same_bytes
shared_offset = refl

-- every string under the hash of `cd`: `cde` begins like it, `abc` does not
abbrev blind_hash : List ℕ → ℕ
blind_hash bytes = 7

overread : arena_push blind_hash one_constant (b'c' ∷ b'd' ∷ b'e' ∷ []) ≡ Run.fault
unfolding arena_push arena_append same_bytes
overread = refl

-- the block has 16 bytes
past_block :
    arena_push blind_hash one_constant
      (1 ∷ 2 ∷ 3 ∷ 4 ∷ 5 ∷ 6 ∷ 7 ∷ 8 ∷ 9 ∷ 10 ∷ 11 ∷ 12 ∷ 13 ∷ 14 ∷ 15 ∷ 16 ∷ 17 ∷ [])
    ≡ Run.fault
unfolding arena_push arena_append same_bytes
past_block = refl

longer_offset : offset_of (arena_push blind_hash one_constant (b'a' ∷ b'b' ∷ b'c' ∷ [])) ≡ some 2
unfolding arena_push arena_append same_bytes
longer_offset = refl

emit_hole-emit_example :
    (emit_hole >>= λ index. (emit (byte 16 ∷ []) >> set_instruction_code index 300)) init_translator
    ≡ (emit (code 300 ∷ byte 16 ∷ []) >> pure tt) init_translator
emit_hole-emit_example = emit_hole-emit 300 (byte 16 ∷ []) init_translator
