-- ===== src/Translator/Restore/Functions.antt =====
-- translate_parsed_function restores what it changes, if what is translated inside does. The body is
-- translated in a frame of its own, so all that is asked of it is what is asked of any translation.
use chloride.Base.{ℕ, suc, refl, ◌∙◌, Option, none, some, List, [], ◌∷◌, length}
use chloride.Translator.Machine.{
  ◌>>=◌, ContinueJump, Translated, Outcome, Action, pure, next, left, exit_failure, fault,
}
use chloride.Translator.Functions.{
  null_jump, begin_function, end_function, body_constant, function_parameters, rest_parameter,
  default_parameters, with_defaults, isolated, translate_body, translate_function,
}
use chloride.Translator.Restore.Frame.{
  shape, Frame, Post, Behaves, bind, by_frame, Each, May, frame,
}
use chloride.Translator.Restore.Steps.{pure-Behaves, constant-Behaves, set_registers-Behaves}
use chloride.Translator.Restore.Rules.{steps}
use chloride.Translator.Restore.Calls.{IsNamed}

-- the state in which the body is translated, and the one behind it
abbrev inside : Translated → Translated
inside t = record t {
  bytecode = [];
  register_assignment = 1;
  return_jump = null_jump;
  break_jump = null_jump;
  scope_depth = 0;
  exception_handler_depth = 0;
  kept = 0;
}

abbrev outside : Translated → Translated → Translated
outside t u = record u {
  bytecode = t.bytecode;
  register_assignment = t.register_assignment;
  return_jump = t.return_jump;
  break_jump = t.break_jump;
  scope_depth = t.scope_depth;
  exception_handler_depth = t.exception_handler_depth;
  kept = t.kept;
}

abbrev inner : ContinueJump → Frame
inner c = frame 0 0 1 c (shape null_jump) (shape null_jump)

isolated-Post :
    {A : Type 0} (fr : Frame) (t : Translated) (o : Outcome A)
    → Post (inner t.continue_jump) (λ a. inner t.continue_jump) (inside t) o
    → Post fr
        (λ a. fr)
        t
        (elim o [
          | next a u ↦ next a (outside t u)
          | left u ↦ left u
          | exit_failure ↦ exit_failure
          | fault ↦ fault
        ])
unfolding Post
isolated-Post (frame s h r c b rt) t (next a u) (le, f) = (
  le,
  λ hold quiet.
      let res =
        f
          (record {
            no_error = hold.no_error;
            scope = refl;
            handler = refl;
            registers = refl;
            continues = refl;
            breaks = refl;
            returns = refl;
          })
          quiet in
      record {
        no_error = res.no_error;
        scope = hold.scope;
        handler = hold.handler;
        registers = hold.registers;
        continues = res.continues ∙ hold.continues;
        breaks = hold.breaks;
        returns = hold.returns;
      },
)
isolated-Post (frame s h r c b rt) t (left u) (le, f) = (
  le,
  λ hold quiet.
      f
        (record {
          no_error = hold.no_error;
          scope = refl;
          handler = refl;
          registers = refl;
          continues = refl;
          breaks = refl;
          returns = refl;
        })
        quiet,
)
isolated-Post fr t exit_failure p = tt
isolated-Post fr t fault p = tt

isolated-Behaves : {A : Type 0} {m : Action A} → Behaves m → Behaves (isolated m)
unfolding isolated begin_function end_function ◌>>=◌ pure
isolated-Behaves {m = m} ok = record {
  triple = λ fr. record {
    post = λ t.
        isolated-Post fr t (m (inside t)) ((ok.triple (inner t.continue_jump)).post (inside t));
  };
}

body_constant-Behaves : (siphash : List ℕ → ℕ) → Behaves (body_constant siphash)
unfolding body_constant
body_constant-Behaves siphash = record {
  triple = λ fr. record {
    post = λ t.
        (bind _ _ ((constant-Behaves siphash t.bytecode).triple fr)
            (λ offset. (pure-Behaves (offset, length t.bytecode)).triple fr)).post
          t;
  };
}

translate_body-Behaves :
    (siphash : List ℕ → ℕ) {body : Action ℕ} → Behaves body → Behaves (translate_body siphash body)
unfolding translate_body
translate_body-Behaves siphash ok = isolated-Behaves (
    by_frame (λ s h r c b rt.
      bind _ _ (bind _ _ ((set_registers-Behaves 1).triple _) (λ a. ok.triple _))
        (λ a. (body_constant-Behaves siphash).triple _)))

function_parameters-Behaves :
    (siphash : List ℕ → ℕ) (i : ℕ) (names : List (List ℕ))
    → Behaves (function_parameters siphash i names)
unfolding function_parameters
function_parameters-Behaves siphash i [] = pure-Behaves tt
function_parameters-Behaves siphash i (name ∷ names) =
    let rest = function_parameters-Behaves siphash (suc i) names in
    by_frame (λ s h r c b rt. search steps depth 10)

rest_parameter-Behaves :
    (siphash : List ℕ → ℕ) (op : ℕ) (o : Option (List ℕ)) → Behaves (rest_parameter siphash op o)
unfolding rest_parameter
rest_parameter-Behaves siphash op none = pure-Behaves tt
rest_parameter-Behaves siphash op (some name) = by_frame (λ s h r c b rt. search steps depth 10)

default_parameters-Behaves :
    (siphash : List ℕ → ℕ) (register i : ℕ) (ds : List (List ℕ × Action ℕ))
    → Each IsNamed ds
    → Behaves (default_parameters siphash register i ds)
unfolding default_parameters
default_parameters-Behaves siphash register i [] oks = pure-Behaves tt
default_parameters-Behaves siphash register i ((name, value) ∷ ds) (ok, oks) =
    let rest = default_parameters-Behaves siphash register (suc i) ds oks in
    by_frame (λ s h r c b rt. search steps depth 10)

with_defaults-Behaves :
    (siphash : List ℕ → ℕ) (o : Option (List (List ℕ × Action ℕ)))
    → May (Each IsNamed) o
    → Behaves (with_defaults siphash o)
unfolding with_defaults
with_defaults-Behaves siphash none oks = pure-Behaves tt
with_defaults-Behaves siphash (some ds) oks =
    by_frame (λ s h r c b rt. search (steps, default_parameters-Behaves) depth 20)

pub translate_function-Behaves :
    (siphash : List ℕ → ℕ) (name : List ℕ) (parameters : List (List ℕ))
    (defaults : Option (List (List ℕ × Action ℕ))) (v kw : Option (List ℕ)) {body : Action ℕ}
    → May (Each IsNamed) defaults
    → Behaves body
    → Behaves (translate_function siphash name parameters defaults v kw body)
unfolding translate_function
translate_function-Behaves siphash name parameters defaults v kw oks body-ok =
    let first = translate_body-Behaves siphash body-ok in
    let last = with_defaults-Behaves siphash defaults oks in
    by_frame
      (λ s h r c b rt. search (steps, function_parameters-Behaves, rest_parameter-Behaves) depth 20)
