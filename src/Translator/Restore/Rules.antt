-- ===== src/Translator/Restore/Rules.antt =====
-- The rules for calls and patches, and `steps`, the rules by which `search` proves a triple of a chain of
-- steps.
use chloride.Base.{ℕ, List, [], ◌∷◌}
use chloride.Translator.Machine.{
  JumpContext, Translated, Outcome, Action, ◌>>=◌, called, restoring_return, land, land_all, next,
  left, exit_failure, fault,
}
use chloride.Translator.Restore.Frame.{Frame, Post, Triple, Behaves, bind, same}
use chloride.Translator.Restore.Steps.{
  emit-Behaves, here-Behaves, pure-Behaves, constant-Behaves, set_registers-Behaves,
  set_all_registers-Behaves, set_instruction_code-Behaves, check-Behaves, get_break-Behaves,
  get_return-Behaves, raise-Triple, panic-Triple,
}
use chloride.Translator.Restore.Moves.{
  step-enter_scope, step-leave_scope, step-enter_handler, step-leave_handler, step-take_register,
  give_register-Triple, step-give_register, step-keep_register, step-open_break, step-open_return,
  step-close_break, step-close_return,
}
use chloride.Translator.Restore.Jumps.{
  step-get_break, step-get_return, step-get_continue, step-set_break, step-set_return,
  step-set_continue, step-continue_at,
}

-- what binds on an action that keeps every frame
pub bind-Behaves :
    {A B : Type 0} (m : Action A) (k : A → Action B)
    → Behaves m
    → ((a : A) → Behaves (k a))
    → Behaves (m >>= k)
bind-Behaves m k m-ok rest = record {
  triple = λ fr. bind m k (m-ok.triple fr) (λ a. (rest a).triple fr);
}

-- the last step
pub tail : {A : Type 0} {fr : Frame} (m : Action A) → Behaves m → Triple fr m fr
tail {fr = fr} m m-ok = m-ok.triple fr

called-Post :
    (fr : Frame) (t : Translated) (o : Outcome ℕ)
    → Post fr (λ a. fr) t o
    → Post fr
        (λ a. fr)
        t
        (elim o [
          | next a u ↦ next a u
          | left u ↦ next 0 u
          | exit_failure ↦ exit_failure
          | fault ↦ fault
        ])
unfolding Post
called-Post fr t (next a u) p = p
called-Post fr t (left u) (le, f) = (le, λ hold quiet. absurd (f hold quiet))
called-Post fr t exit_failure p = tt
called-Post fr t fault p = tt

pub called-Behaves : (m : Action ℕ) → Behaves m → Behaves (called m)
unfolding called
called-Behaves m m-ok = record {
  triple = λ fr. record { post = λ t. called-Post fr t (m t) ((m-ok.triple fr).post t) };
}

restoring-Post :
    (fr : Frame) (j : JumpContext) (t : Translated) (o : Outcome Unit)
    → Post fr (λ a. fr) t o
    → Post fr
        (λ a. fr)
        t
        (elim o [
          | next a u ↦ next a u
          | left u ↦ left (record u { return_jump = j })
          | exit_failure ↦ exit_failure
          | fault ↦ fault
        ])
unfolding Post
restoring-Post fr j t (next a u) p = p
restoring-Post fr j t (left u) p = p
restoring-Post fr j t exit_failure p = tt
restoring-Post fr j t fault p = tt

pub restoring-Behaves :
    (j : JumpContext) (m : Action Unit) → Behaves m → Behaves (restoring_return j m)
unfolding restoring_return
restoring-Behaves j m m-ok = record {
  triple = λ fr. record { post = λ t. restoring-Post fr j t (m t) ((m-ok.triple fr).post t) };
}

pub land-Behaves : (index : ℕ) → Behaves (land index)
land-Behaves index = bind-Behaves _ _ here-Behaves (λ a. set_instruction_code-Behaves index a)

pub land_all-Behaves : (is : List ℕ) → Behaves (land_all is)
unfolding land_all
land_all-Behaves [] = pure-Behaves tt
land_all-Behaves (i ∷ is) = bind-Behaves _ _ (land-Behaves i) (λ a. land_all-Behaves is)

-- the rules of the steps, the narrower ones first
pub ruleset steps = (
  step-enter_scope, step-leave_scope, step-enter_handler, step-leave_handler, step-take_register,
  step-give_register, step-keep_register, step-open_break, step-open_return, step-close_break,
  step-close_return, step-get_break, step-set_break, step-get_return, step-set_return,
  step-get_continue, step-set_continue, step-continue_at, same, tail, emit-Behaves, here-Behaves,
  pure-Behaves, constant-Behaves, set_registers-Behaves, set_all_registers-Behaves,
  set_instruction_code-Behaves, check-Behaves, land-Behaves, land_all-Behaves, give_register-Triple,
  raise-Triple, panic-Triple, get_break-Behaves, get_return-Behaves,
)
