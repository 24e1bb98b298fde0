-- ===== src/Translator/Restore/Control.antt =====
-- The functions of Translator/Control restore what they change, if what is translated inside does.
use chloride.Base.{ℕ, Option, none, some, List, [], ◌∷◌}
use chloride.Translator.Machine.{
  JumpContext, ContinueJump, Action, pure, ◌>>=◌, ◌>>◌, raise, emit, code,
}
use chloride.Translator.Syntax.{Place}
use chloride.Translator.Control.{
  unwind, leave_loop, translate_break, translate_continue, leave_function, null_positions,
  jump_to_return, translate_return, translate_while, end_for, translate_for, translate_branch,
  translate_branches, translate_if, translate_all, translate, end_returns, begin_returns,
  translate_do_wrap, translate_throw, translate_conditional,
}
use chloride.Translator.Restore.Frame.{
  Shape, shape, opened, Frame, Post, Triple, Behaves, bind, same, by_frame, Each, May, frame,
}
use chloride.Translator.Restore.Steps.{
  emit-Behaves, here-Behaves, pure-Behaves, set_registers-Behaves, check-Behaves, no_err-Behaves,
  get_return-Behaves, raise-Triple,
}
use chloride.Translator.Restore.Moves.{step-enter_scope, step-leave_scope, open_return-Triple}
use chloride.Translator.Restore.Jumps.{
  step-get_break, step-get_return, step-get_continue, set_return-Triple,
}
use chloride.Translator.Restore.Rules.{bind-Behaves, tail, steps}

pub translate_while-Behaves :
    {condition content : Action ℕ}
    → Behaves condition
    → Behaves content
    → Behaves (translate_while condition content)
unfolding translate_while
translate_while-Behaves condition-ok content-ok =
    by_frame (λ s h r c b rt. search steps depth 60 fits 3000)

end_for-Behaves : (a b c : ℕ) → Behaves (end_for a b c)
unfolding end_for
end_for-Behaves i j k = by_frame (λ s h r c b rt. search steps depth 60 fits 3000)

pub translate_for-Behaves :
    {value iterator content : Action ℕ}
    → Behaves value
    → Behaves iterator
    → Behaves content
    → Behaves (translate_for value iterator content)
unfolding translate_for
translate_for-Behaves value-ok iterator-ok content-ok =
    by_frame (λ s h r c b rt. search (steps, end_for-Behaves) depth 60 fits 3000)

translate_branch-Behaves :
    (condition : Option (Action ℕ)) {content : Action ℕ}
    → May Behaves condition
    → Behaves content
    → Behaves (translate_branch condition content)
unfolding translate_branch
translate_branch-Behaves none condition-ok content-ok =
    by_frame (λ s h r c b rt. search steps depth 60 fits 3000)
translate_branch-Behaves (some m) condition-ok content-ok =
    by_frame (λ s h r c b rt. search steps depth 60 fits 3000)

abbrev pub IsBranch : Option (Action ℕ) × Action ℕ → Type 0
IsBranch (condition, content) = May Behaves condition × Behaves content

translate_branches-Behaves :
    (branches : List (Option (Action ℕ) × Action ℕ))
    → Each IsBranch branches
    → Behaves (translate_branches branches)
unfolding translate_branches
translate_branches-Behaves [] oks = pure-Behaves []
translate_branches-Behaves ((m, k) ∷ branches) ((m-ok, k-ok), oks) =
    let first = translate_branch-Behaves m m-ok k-ok in
    let rest = translate_branches-Behaves branches oks in
    by_frame (λ s h r c b rt. search steps depth 20)

pub translate_if-Behaves :
    (branches : List (Option (Action ℕ) × Action ℕ))
    → Each IsBranch branches
    → Behaves (translate_if branches)
unfolding translate_if
translate_if-Behaves branches oks =
    let all = translate_branches-Behaves branches oks in
    by_frame (λ s h r c b rt. search steps depth 20)

translate_all-Behaves :
    (statements : List (Action ℕ)) → Each Behaves statements → Behaves (translate_all statements)
unfolding translate_all
translate_all-Behaves [] oks = pure-Behaves tt
translate_all-Behaves (m ∷ ms) (ok, oks) =
    let rest = translate_all-Behaves ms oks in
    by_frame (λ s h r c b rt. search (steps, bind-Behaves) depth 20)

pub translate-Behaves :
    (statements : List (Action ℕ)) → Each Behaves statements → Behaves (translate statements)
unfolding translate
translate-Behaves statements oks =
    let all = translate_all-Behaves statements oks in
    by_frame (λ s h r c b rt. search (steps, no_err-Behaves) depth 20)

pub translate_throw-Behaves :
    {value : Action ℕ} (place : Place) → Behaves value → Behaves (translate_throw value place)
unfolding translate_throw
translate_throw-Behaves place ok = by_frame (λ s h r c b rt. search steps depth 20)

pub translate_conditional-Behaves :
    {condition true_body false_body : Action ℕ}
    → Behaves condition
    → Behaves true_body
    → Behaves false_body
    → Behaves (translate_conditional condition true_body false_body)
unfolding translate_conditional
translate_conditional-Behaves condition-ok true-ok false-ok =
    by_frame (λ s h r c b rt. search steps depth 30)

unwind-Behaves : (a b : ℕ) → Behaves (unwind a b)
unfolding unwind
unwind-Behaves a b = record {
  triple = λ fr. record { post = λ t. ((emit-Behaves _).triple fr).post t };
}

abbrev jump : Option (List ℕ) → ℕ → ℕ → JumpContext
jump o h s = record { positions = o; exception_handler_depth = h; scope_depth = s }

leave_loop-Triple :
    (j : JumpContext) (ps : List ℕ) {s h r : ℕ} {c : ContinueJump} {rt : Shape}
    → Triple
        (frame s h r c (shape (record j { positions = some ps })) rt)
        (leave_loop j ps)
        (frame s h r c (shape (record j { positions = some ps })) rt)
unfolding leave_loop
leave_loop-Triple j ps = search (steps, unwind-Behaves) depth 20

break-Triple :
    (o : Option (List ℕ)) (x y : ℕ) {s h r : ℕ} {c : ContinueJump} {rt : Shape}
    → let j : JumpContext = jump o x y in
      Triple {A = ℕ}
        (frame s h r c (shape j) rt)
        (elim (j.positions) [ none ↦ raise | some ps ↦ leave_loop j ps ])
        (frame s h r c (shape j) rt)
break-Triple none x y = raise-Triple
break-Triple (some ps) x y = leave_loop-Triple _ ps

null_positions-Triple : {fr fr' : Frame} → Triple fr null_positions fr'
unfolding null_positions Post
null_positions-Triple = record { post = λ t. tt }

pub translate_break-Behaves : Behaves translate_break
unfolding translate_break
translate_break-Behaves = by_frame (λ s h r c b rt.
    step-get_break _ (λ j. break-Triple j.positions j.exception_handler_depth j.scope_depth))

continue-Triple :
    (o : Option ℕ) (x y : ℕ)
    → Behaves {A = ℕ} (elim o [
      | none ↦ raise
      | some pos ↦ do first ← unwind x y; emit (code pos ∷ []); pure first
    ])
continue-Triple none x y = record { triple = λ fr. raise-Triple }
continue-Triple (some pos) x y = by_frame (λ s h r c b rt. search (steps, unwind-Behaves) depth 20)

pub translate_continue-Behaves : Behaves translate_continue
unfolding translate_continue
translate_continue-Behaves = by_frame (λ s h r c b rt.
    step-get_continue _
      (λ j. (continue-Triple j.pos j.scope_depth j.exception_handler_depth).triple _))

leave_function-Triple :
    (j : JumpContext) (ps : List ℕ) {s h r : ℕ} {c : ContinueJump} {b : Shape}
    → Triple
        (frame s h r c b (shape (record j { positions = some ps })))
        (leave_function j ps)
        (frame s h r c b (shape (record j { positions = some ps })))
unfolding leave_function
leave_function-Triple j ps = search (steps, unwind-Behaves, set_return-Triple) depth 20

to_return-Triple :
    (o : Option (List ℕ)) (x y : ℕ) {s h r : ℕ} {c : ContinueJump} {b : Shape}
    → let j : JumpContext = jump o x y in
      Triple
        (frame s h r c b (shape j))
        (elim (j.positions) [ none ↦ null_positions | some ps ↦ leave_function j ps ])
        (frame s h r c b (shape j))
to_return-Triple none x y = null_positions-Triple
to_return-Triple (some ps) x y = leave_function-Triple _ ps

jump_to_return-Behaves : Behaves jump_to_return
unfolding jump_to_return
jump_to_return-Behaves = by_frame (λ s h r c b rt.
    step-get_return _ (λ j. to_return-Triple j.positions j.exception_handler_depth j.scope_depth))

return-Behaves :
    {value : Action ℕ} (o : Option (List ℕ))
    → Behaves value
    → Behaves {A = ℕ}
        (elim o [ none ↦ raise | some ps ↦ do first ← value; jump_to_return; pure first ])
return-Behaves none ok = record { triple = λ fr. raise-Triple }
return-Behaves (some ps) ok =
    by_frame (λ s h r c b rt. search (steps, jump_to_return-Behaves) depth 20)

pub translate_return-Behaves : {value : Action ℕ} → Behaves value → Behaves (translate_return value)
unfolding translate_return
translate_return-Behaves ok =
    by_frame
      (λ s h r c b rt. same _ _ get_return-Behaves (λ j. (return-Behaves j.positions ok).triple _))

-- the frame inside a dowrap: its own return jump, unless there is one already
abbrev begun : JumpContext → ℕ → ℕ → Shape
begun j h s = elim (j.positions) [ none ↦ opened h s | some ps ↦ shape j ]

begin_returns-Triple :
    (o : Option (List ℕ)) (x y : ℕ) {s h r : ℕ} {c : ContinueJump} {b : Shape}
    → let j : JumpContext = jump o x y in
      Triple (frame s h r c b (shape j)) (begin_returns j) (frame s h r c b (begun j h s))
unfolding begin_returns
begin_returns-Triple none x y = open_return-Triple
begin_returns-Triple (some ps) x y = search steps

end_returns-Triple :
    (s : ℕ) (o : Option (List ℕ)) (x y : ℕ) {h r s' : ℕ} {c : ContinueJump} {b : Shape}
    → let j : JumpContext = jump o x y in
      Triple (frame s' h r c b (begun j h s)) (end_returns j) (frame s' h r c b (shape j))
unfolding end_returns
end_returns-Triple s none x y = search (steps, set_return-Triple) depth 20
end_returns-Triple s (some ps) x y = search steps

pub translate_do_wrap-Behaves :
    (statements : List (Action ℕ))
    → Each Behaves statements
    → Behaves (translate_do_wrap statements)
unfolding translate_do_wrap
translate_do_wrap-Behaves [] oks = by_frame (λ s h r c b rt. search steps depth 20)
translate_do_wrap-Behaves (m ∷ ms) oks =
    let all = translate-Behaves (m ∷ ms) oks in
    by_frame (λ s h r c b rt. same _ _ (set_registers-Behaves 1) (λ a.
      same _ _ here-Behaves (λ first. step-get_return _ (λ j.
        bind _ _ (begin_returns-Triple j.positions j.exception_handler_depth j.scope_depth) (λ a.
          step-enter_scope _ (λ a. same _ _ (emit-Behaves _) (λ a. same _ _ all (λ a.
            same _ _ check-Behaves (λ a. same _ _ (emit-Behaves _) (λ a.
              bind _ _ (end_returns-Triple s j.positions j.exception_handler_depth j.scope_depth)
                (λ a. step-leave_scope _ (λ a. tail _ (pure-Behaves first)))))))))))))
