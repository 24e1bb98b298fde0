-- ===== src/Translator/Restore/Restored.antt =====
-- What Restore/Dispatch says of a run of translate_parsed, without triples.
use chloride.Base.{ℕ, ◌+◌, ◌*◌, ◌%◌, ◌<◌, ◌≡◌, refl, subst, false, List, arith}
use chloride.Translator.Machine.{Translated, Outcome, Action, next}
use chloride.Translator.Syntax.{Parsed}
use chloride.Translator.Dispatch.{translate_parsed}
use chloride.Translator.Restore.Frame.{Grown, shape, Frame, Holds, Post, Behaves, frame}
use chloride.Translator.Restore.Dispatch.{parsed-Behaves}

-- the same depths, the same jumps but for their positions, and the same registers but for those that
-- `and` and `or` keep
pub record Restored (t u : Translated) : Type 0 where
  pub no_error : u.err ≡ false
  pub scope : u.scope_depth ≡ t.scope_depth
  pub handler : u.exception_handler_depth ≡ t.exception_handler_depth
  pub registers : (u.register_assignment + t.kept) % 256 ≡ (t.register_assignment + u.kept) % 256
  pub continues : u.continue_jump ≡ t.continue_jump
  pub breaks : shape u.break_jump ≡ shape t.break_jump
  pub returns : shape u.return_jump ≡ shape t.return_jump

-- the frame that a state is in; 255 is -1 in uint8_t
abbrev frame_of : Translated → Frame
frame_of t =
    frame t.scope_depth t.exception_handler_depth (t.register_assignment + 255 * t.kept)
      t.continue_jump (shape t.break_jump) (shape t.return_jump)

frame_of-Holds :
    (t : Translated) → t.err ≡ false → t.register_assignment < 256 → Holds (frame_of t) t
frame_of-Holds t e small = record {
  no_error = e;
  scope = refl;
  handler = refl;
  registers = omega arith;
  continues = refl;
  breaks = refl;
  returns = refl;
}

frame_of-Restored :
    (t u : Translated) → t.register_assignment < 256 → Holds (frame_of t) u → Restored t u
frame_of-Restored t u small hold = record {
  no_error = hold.no_error;
  scope = hold.scope;
  handler = hold.handler;
  registers = omega (arith, hold.registers);
  continues = hold.continues;
  breaks = hold.breaks;
  returns = hold.returns;
}

Behaves-Restored :
    {A : Type 0} (m : Action A) (t u : Translated) (a : A)
    → Behaves m
    → t.err ≡ false
    → t.register_assignment < 256
    → m t ≡ next a u
    → u.errors ≡ t.errors
    → Restored t u
unfolding Post
Behaves-Restored {A = A} m t u a ok e small run quiet =
    let post =
      subst (λ (o : Outcome A). Post (frame_of t) (λ a. frame_of t) t o) run
        ((ok.triple (frame_of t)).post t) in
    frame_of-Restored t u small (post.1 (frame_of-Holds t e small) quiet)

-- If translate_parsed returns, started without an error and with registerAssignment in uint8_t, and no
-- error was created meanwhile, then scope_depth, exception_handler_depth and continue_jump are as before,
-- break_jump and return_jump are but for their positions, and registerAssignment is, modulo 256, but for
-- one register for each `and` or `or` that was translated outside of a function's body.
pub translate_parsed-Restored :
    (siphash : List ℕ → ℕ) (v : Parsed) (t u : Translated) (pos : ℕ)
    → t.err ≡ false
    → t.register_assignment < 256
    → translate_parsed siphash v t ≡ next pos u
    → u.errors ≡ t.errors
    → Restored t u
translate_parsed-Restored siphash v t u pos = Behaves-Restored _ t u pos (parsed-Behaves siphash v)

next-Grown :
    {A : Type 0} (fr : Frame) (g : A → Frame) (t u : Translated) (a : A)
    → Post fr g t (next a u)
    → Grown t u
unfolding Post
next-Grown fr g t u a p = p.0

-- When translate_parsed returns, in whatever state it was started and with errors on the way or without,
-- the constants it found stand where they stood, with new ones at most behind them, so that every offset
-- that was written into bytecode before stays right; registerCount has not fallen, and no error is lost
-- from the count.
pub translate_parsed-Grown :
    (siphash : List ℕ → ℕ) (v : Parsed) (t u : Translated) (pos : ℕ)
    → translate_parsed siphash v t ≡ next pos u
    → Grown t u
translate_parsed-Grown siphash v t u pos run =
    next-Grown (frame_of t) (λ a. frame_of t) t u pos
      (subst (λ (o : Outcome ℕ). Post (frame_of t) (λ a. frame_of t) t o) run
        (((parsed-Behaves siphash v).triple (frame_of t)).post t))
