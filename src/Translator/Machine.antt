-- ===== src/Translator/Machine.antt =====
-- The state of a translation, Translated of src/arobject.h with the error that `err` points to, and the
-- steps that the files of src/translator are made of.
-- `bytecode` is the contents of the DArray that Bytecode is about: push_instruction_byte and
-- push_instruction_code add to its end, set_instruction_code writes over eight of its bytes, and a write
-- that does not lie inside it is a fault. The arrays that `break_jump.positions` and
-- `return_jump.positions` point to lie in the record: where a pointer is saved, it is NULL or another
-- array's until it is put back. The loops and the outermost dowrap patch the array that they made, which
-- is the one in the record when they do so, if no error was met and then lost. `errors` and `kept` are no part of the C state, they count what theorems
-- speak of: the errors that were created, also those that were overwritten later, and the registers that
-- the case of `and` and `or` in operation.c does not give back.
use chloride.Base.{
  ℕ, zero, suc, ◌+◌, ◌%◌, Bool, true, false, Option, none, some, List, [], ◌∷◌, ◌++◌, ltb, leb,
  if◌then◌else◌, length, take, drop,
}
use chloride.Base.Run.{Run}
use chloride.Bytecode.{uint64_to_bytes}
use chloride.Translator.Constants.{ConstantArena, arena_init, arena_push}

-- struct break_or_return_jump; `none` is a NULL
pub record JumpContext : Type 0 where
  pub positions : Option (List ℕ)
  pub exception_handler_depth : ℕ
  pub scope_depth : ℕ

-- struct continue_jump; `none` is a `pos` of -1
pub record ContinueJump : Type 0 where
  pub pos : Option ℕ
  pub exception_handler_depth : ℕ
  pub scope_depth : ℕ

pub record Translated : Type 0 where
  pub register_count : ℕ
  pub register_assignment : ℕ
  pub exception_handler_depth : ℕ
  pub scope_depth : ℕ
  pub continue_jump : ContinueJump
  pub return_jump : JumpContext
  pub break_jump : JumpContext
  pub bytecode : List ℕ
  pub constants : ConstantArena
  pub err : Bool
  pub errors : ℕ
  pub kept : ℕ

abbrev no_jump : JumpContext
no_jump = record { positions = none; exception_handler_depth = 0; scope_depth = 0 }

-- init_translator; the depths of the three jumps, which it does not set, are not read before they are
unfoldable pub init_translator : Translated
init_translator = record {
  register_count = 1;
  register_assignment = 1;
  exception_handler_depth = 0;
  scope_depth = 0;
  continue_jump = record { pos = none; exception_handler_depth = 0; scope_depth = 0 };
  return_jump = no_jump;
  break_jump = no_jump;
  bytecode = [];
  constants = arena_init;
  err = false;
  errors = 0;
  kept = 0;
}

-- the end of a step: the next one follows, the function returns, or the process ends
pub data Outcome (A : Type 0) : Type 0 where
  next : A → Translated → Outcome A
  left : Translated → Outcome A
  exit_failure fault : Outcome A

abbrev pub Action : Type 0 → Type 0
Action A = Translated → Outcome A

unfoldable pub pure : {A : Type 0} → A → Action A
pure a t = next a t

infixl 5 ◌>>=◌ ◌>>◌
unfoldable pub ◌>>=◌ : {A B : Type 0} → Action A → (A → Action B) → Action B
◌>>=◌ m k t = elim (m t) [
  | next a u ↦ k a u
  | left u ↦ left u
  | exit_failure ↦ exit_failure
  | fault ↦ fault
]

abbrev pub ◌>>◌ : {A B : Type 0} → Action A → Action B → Action B
m >> k = m >>= λ a. k

-- a call: a function that returned early has returned. Where C hands out a position all the same, here
-- it is 0: after an error no position is used, if a `dowrap` does not overwrite the error with its own.
unfoldable pub called : Action ℕ → Action ℕ
called m t = elim (m t) [
  | next a u ↦ next a u
  | left u ↦ next 0 u
  | exit_failure ↦ exit_failure
  | fault ↦ fault
]

-- where the error of a step is met by `translated->return_jump = …; return …;`
unfoldable pub restoring_return : JumpContext → Action Unit → Action Unit
restoring_return j m t = elim (m t) [
  | next a u ↦ next a u
  | left u ↦ left (record u { return_jump = j })
  | exit_failure ↦ exit_failure
  | fault ↦ fault
]

-- `exit(EXIT_FAILURE)` behind a message
unfoldable pub panic : {A : Type 0} → Action A
panic t = exit_failure

-- `*err = path_specific_create_err(…); return 0;`
unfoldable pub raise : {A : Type 0} → Action A
raise t = left (record t { err = true; errors = suc t.errors })

-- `if (is_error(err)) return …;`
unfoldable pub check : Action Unit
check t = if t.err then left t else next tt t

-- `*err = no_err`
unfoldable pub no_err : Action Unit
no_err t = next tt (record t { err = false })

-- push_instruction_byte and push_instruction_code, one after another
pub data Piece : Type 0 where
  byte code : ℕ → Piece

unfoldable pub encode : List Piece → List ℕ
encode [] = []
encode (byte b ∷ ps) = b % 256 ∷ encode ps
encode (code c ∷ ps) = uint64_to_bytes c ++ encode ps

-- the offset of the first piece comes back
unfoldable pub emit : List Piece → Action ℕ
emit ps t = next (length t.bytecode) (record t { bytecode = t.bytecode ++ encode ps })

-- `push_instruction_code(translated, 0)`, to be set later
abbrev pub emit_hole : Action ℕ
emit_hole = emit (code 0 ∷ [])

-- `translated->bytecode.size`
unfoldable pub here : Action ℕ
here t = next (length t.bytecode) t

abbrev pub patched : List ℕ → ℕ → ℕ → List ℕ
patched bytecode index value =
    take index bytecode ++ (uint64_to_bytes value ++ drop (index + 8) bytecode)

-- set_instruction_code
unfoldable pub set_instruction_code : ℕ → ℕ → Action Unit
set_instruction_code index value t =
    if leb (index + 8) (length t.bytecode)
    then next tt (record t { bytecode = patched t.bytecode index value })
    else fault

-- `set_instruction_code(translated, index, translated->bytecode.size)`
abbrev pub land : ℕ → Action Unit
land index = here >>= set_instruction_code index

-- the same for each of some positions
unfoldable pub land_all : List ℕ → Action Unit
land_all [] = pure tt
land_all (i ∷ is) = land i >> land_all is

-- arena_push
unfoldable pub constant : (List ℕ → ℕ) → List ℕ → Action ℕ
constant siphash bytes t = elim (arena_push siphash t.constants bytes) [
  | Run.ok (arena, offset) ↦ next offset (record t { constants = arena })
  | Run.exit_failure ↦ exit_failure
  | Run.fault ↦ fault
]

unfoldable pub set_registers : ℕ → Action Unit
set_registers count t =
    next tt (if ltb t.register_count count then record t { register_count = count } else t)

-- `set_registers(translated, translated->registerAssignment)`
unfoldable pub set_all_registers : Action Unit
set_all_registers t = set_registers t.register_assignment t

-- `translated->registerAssignment++` and `translated->registerAssignment -= n`, in `uint8_t`
unfoldable pub take_register : Action ℕ
take_register t =
    next t.register_assignment
      (record t { register_assignment = (t.register_assignment + 1) % 256 })

unfoldable pub give_register : Action Unit
give_register t = next tt (record t { register_assignment = (t.register_assignment + 255) % 256 })

unfoldable pub keep_register : Action Unit
keep_register t = next tt (record t { kept = suc t.kept })

-- `--` in `uint64_t`
abbrev pub lower : ℕ → ℕ
lower zero = 0xffff_ffff_ffff_ffff
lower (suc depth) = depth

-- `translated->scope_depth++` and `--`, and the same of `exception_handler_depth`: as many nested scopes as
-- `uint64_t` counts are more than the stack of the calls that translate them holds, so `++` does not wrap
unfoldable pub enter_scope : Action Unit
enter_scope t = next tt (record t { scope_depth = suc t.scope_depth })

unfoldable pub leave_scope : Action Unit
leave_scope t = next tt (record t { scope_depth = lower t.scope_depth })

unfoldable pub enter_handler : Action Unit
enter_handler t = next tt (record t { exception_handler_depth = suc t.exception_handler_depth })

unfoldable pub leave_handler : Action Unit
leave_handler t = next tt (record t { exception_handler_depth = lower t.exception_handler_depth })

-- the saved copies of the three jumps
unfoldable pub get_break : Action JumpContext
get_break t = next t.break_jump t

unfoldable pub set_break : JumpContext → Action Unit
set_break j t = next tt (record t { break_jump = j })

unfoldable pub get_return : Action JumpContext
get_return t = next t.return_jump t

unfoldable pub set_return : JumpContext → Action Unit
set_return j t = next tt (record t { return_jump = j })

unfoldable pub get_continue : Action ContinueJump
get_continue t = next t.continue_jump t

unfoldable pub set_continue : ContinueJump → Action Unit
set_continue j t = next tt (record t { continue_jump = j })

-- `positions = NULL` of the two
unfoldable pub close_break : Action Unit
close_break t = next tt (record t { break_jump = record t.break_jump { positions = none } })

unfoldable pub close_return : Action Unit
close_return t = next tt (record t { return_jump = record t.return_jump { positions = none } })

-- an empty array of positions, with the depths of this point
unfoldable pub open_break : Action Unit
open_break t = next tt (record t {
  break_jump = record {
    positions = some [];
    exception_handler_depth = t.exception_handler_depth;
    scope_depth = t.scope_depth;
  };
})

unfoldable pub open_return : Action Unit
open_return t = next tt (record t {
  return_jump = record {
    positions = some [];
    exception_handler_depth = t.exception_handler_depth;
    scope_depth = t.scope_depth;
  };
})

-- `(struct continue_jump){pos, translated->exception_handler_depth, translated->scope_depth}`
unfoldable pub continue_at : ℕ → Action Unit
continue_at start t = next tt (record t {
  continue_jump = record {
    pos = some start;
    exception_handler_depth = t.exception_handler_depth;
    scope_depth = t.scope_depth;
  };
})

abbrev pub positions_of : JumpContext → List ℕ
positions_of j = elim (j.positions) [ none ↦ [] | some ps ↦ ps ]
