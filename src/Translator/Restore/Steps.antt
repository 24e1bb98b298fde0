-- ===== src/Translator/Restore/Steps.antt =====
-- The steps of Translator/Machine that leave the frame as it is, and those that do not go on.
use chloride.Base.{
  ℕ, ◌+◌, ◌%◌, ◌≡◌, refl, sym, ap, ◌∙◌, Bool, true, false, List, [], inl, inr, arith, leb, ltb,
  if◌then◌else◌, length,
}
use mathlib.Core.List.{append-nil}
use chloride.Translator.Machine.{
  ContinueJump, Translated, pure, panic, raise, check, no_err, Piece, emit, here,
  set_instruction_code, constant, set_registers, set_all_registers, get_break, get_return, next,
  left, fault,
}
use chloride.Translator.Constants.{ConstantArena, Pushed, arena_push-Pushed}
use chloride.Translator.Restore.Frame.{
  Shape, shape, Frame, Holds, Grown, still, Post, Leads, Triple, Behaves, frame,
}

-- what a frame, an error and the count of errors are read from
record Core : Type 0 where
  err : Bool
  errors : ℕ
  scope_depth : ℕ
  exception_handler_depth : ℕ
  register_assignment : ℕ
  kept : ℕ
  continue_jump : ContinueJump
  break_shape : Shape
  return_shape : Shape

abbrev core : Translated → Core
core t = record {
  err = t.err;
  errors = t.errors;
  scope_depth = t.scope_depth;
  exception_handler_depth = t.exception_handler_depth;
  register_assignment = t.register_assignment;
  kept = t.kept;
  continue_jump = t.continue_jump;
  break_shape = shape t.break_jump;
  return_shape = shape t.return_jump;
}

core-Holds : (fr : Frame) (t u : Translated) → core u ≡ core t → Holds fr t → Holds fr u
core-Holds (frame s h r c b rt) t u e hold = record {
  no_error = ap (λ (x : Core). x.err) e ∙ hold.no_error;
  scope = ap (λ (x : Core). x.scope_depth) e ∙ hold.scope;
  handler = ap (λ (x : Core). x.exception_handler_depth) e ∙ hold.handler;
  registers =
      ap (λ (x : Core). x.register_assignment) e
      ∙ (hold.registers ∙ ap (λ (k : ℕ). (r + k) % 256) (ap (λ (x : Core). x.kept) (sym e)));
  continues = ap (λ (x : Core). x.continue_jump) e ∙ hold.continues;
  breaks = ap (λ (x : Core). x.break_shape) e ∙ hold.breaks;
  returns = ap (λ (x : Core). x.return_shape) e ∙ hold.returns;
}

core-Post :
    {A : Type 0} (fr : Frame) (t u : Translated) (a : A)
    → Grown t u
    → core u ≡ core t
    → Post fr (λ a. fr) t (next a u)
unfolding Post
core-Post fr t u a grown e = (grown, λ hold quiet. core-Holds fr t u e hold)

pub emit-Behaves : (ps : List Piece) → Behaves (emit ps)
unfolding emit
emit-Behaves ps = record { triple = λ fr. record { post = λ t. core-Post fr t _ _ still refl } }

pub here-Behaves : Behaves here
unfolding here
here-Behaves = record { triple = λ fr. record { post = λ t. core-Post fr t _ _ still refl } }

pub pure-Behaves : {A : Type 0} (a : A) → Behaves (pure a)
unfolding pure
pure-Behaves a = record { triple = λ fr. record { post = λ t. core-Post fr t _ _ still refl } }

pub pure-Leads : {A : Type 0} (a : A) (g : A → Frame) → Leads (g a) (pure a) g
unfolding pure Post
pure-Leads a g = record { post = λ t. (still, λ hold quiet. hold) }

constant-Grown :
    (hash : ℕ) (bytes : List ℕ) (t : Translated) (r : ConstantArena × ℕ)
    → Pushed t.constants hash bytes r
    → Grown t (record t { constants = r.0 })
constant-Grown hash bytes t r pushed = record {
  errors = omega arith;
  added = pushed.added;
  constants_stay = pushed.stays;
  registers = omega arith;
}

pub constant-Behaves : (siphash : List ℕ → ℕ) (bytes : List ℕ) → Behaves (constant siphash bytes)
unfolding constant Post
constant-Behaves siphash bytes = record {
  triple = λ fr. record {
    post = λ t. elim (arena_push-Pushed siphash t.constants bytes) [
      | inl (cut_off, run) ↦ rw (constant, run) tt
      | inr (whole, (r, run, pushed)) ↦
          rw (constant, run)
            (core-Post fr t _ r.1 (constant-Grown (siphash bytes) bytes t r pushed) refl)
    ];
  };
}

count-Grown :
    (count : ℕ) (t : Translated) (b : Bool)
    → ltb t.register_count count ≡ b
    → Grown t (if b then record t { register_count = count } else t)
count-Grown count t true e = record {
  errors = omega arith;
  added = [];
  constants_stay = sym (append-nil t.constants.data_bytes);
  registers = ground arith;
}
count-Grown count t false e = still

core-if : (b : Bool) (t u : Translated) → core u ≡ core t → core (if b then u else t) ≡ core t
core-if true t u e = e
core-if false t u e = refl

pub set_registers-Behaves : (count : ℕ) → Behaves (set_registers count)
unfolding set_registers
set_registers-Behaves count = record {
  triple = λ fr. record {
    post = λ t.
        core-Post fr t _ _ (count-Grown count t (ltb t.register_count count) refl)
          (core-if (ltb t.register_count count) t _ refl);
  };
}

pub set_all_registers-Behaves : Behaves set_all_registers
unfolding set_all_registers
set_all_registers-Behaves = record {
  triple =
      λ fr. record { post = λ t. ((set_registers-Behaves t.register_assignment).triple fr).post t };
}

set_code-Post :
    (fr : Frame) (t u : Translated) (b : Bool)
    → Grown t u
    → core u ≡ core t
    → Post fr (λ a. fr) t (if b then next tt u else fault)
unfolding Post
set_code-Post fr t u true grown e = core-Post fr t u tt grown e
set_code-Post fr t u false grown e = tt

pub set_instruction_code-Behaves : (index value : ℕ) → Behaves (set_instruction_code index value)
unfolding set_instruction_code
set_instruction_code-Behaves index value = record {
  triple = λ fr. record {
    post = λ t. set_code-Post fr t _ (leb (index + 8) (length t.bytecode)) still refl;
  };
}

check-Post :
    (fr : Frame) (t : Translated) (b : Bool)
    → t.err ≡ b
    → Post fr (λ a. fr) t (if b then left t else next tt t)
unfolding Post
check-Post (frame s h r c b rt) t true e =
    (still, λ hold quiet. absurd (ground (arith, hold.no_error)))
check-Post fr t false e = core-Post fr t t tt still refl

pub check-Behaves : Behaves check
unfolding check
check-Behaves = record { triple = λ fr. record { post = λ t. check-Post fr t t.err refl } }

no_err-Holds : (fr : Frame) (t : Translated) → Holds fr t → Holds fr (record t { err = false })
no_err-Holds (frame s h r c b rt) t hold = record {
  no_error = refl;
  scope = hold.scope;
  handler = hold.handler;
  registers = hold.registers;
  continues = hold.continues;
  breaks = hold.breaks;
  returns = hold.returns;
}

pub no_err-Behaves : Behaves no_err
unfolding no_err Post
no_err-Behaves = record {
  triple = λ fr. record { post = λ t. (still, λ hold quiet. no_err-Holds fr t hold) };
}

-- a jump that is only looked at
pub get_break-Behaves : Behaves get_break
unfolding get_break
get_break-Behaves = record { triple = λ fr. record { post = λ t. core-Post fr t _ _ still refl } }

pub get_return-Behaves : Behaves get_return
unfolding get_return
get_return-Behaves = record { triple = λ fr. record { post = λ t. core-Post fr t _ _ still refl } }

-- what does not go on
pub raise-Triple : {A : Type 0} {fr fr' : Frame} → Triple {A = A} fr raise fr'
unfolding raise Post
raise-Triple = record {
  post = λ t. (
    record {
      errors = omega arith;
      added = [];
      constants_stay = sym (append-nil t.constants.data_bytes);
      registers = omega arith;
    },
    λ hold quiet. omega arith,
  );
}

pub panic-Triple : {A : Type 0} {fr fr' : Frame} → Triple {A = A} fr panic fr'
unfolding panic Post
panic-Triple = record { post = λ t. tt }
