-- ===== src/Translator/Restore/Operations.antt =====
-- The functions of Translator/Operations restore what they change, if what is translated inside does.
use chloride.Base.{ℕ, Bool, true, false, Option, none, some, List, [], ◌∷◌}
use chloride.Translator.Machine.{Action}
use chloride.Translator.Syntax.{Place, Token, token_and, token_or}
use chloride.Translator.Operations.{
  logic_operands, translate_logic, fold_step, fold_operands, translate_fold, translate_operation,
}
use chloride.Translator.Restore.Frame.{Behaves, by_frame, Each}
use chloride.Translator.Restore.Steps.{pure-Behaves, raise-Triple, panic-Triple}
use chloride.Translator.Restore.Rules.{steps}

logic_operands-Behaves :
    (is_or : Bool) (register : ℕ) (ms : List (Action ℕ))
    → Each Behaves ms
    → Behaves (logic_operands is_or register ms)
unfolding logic_operands
logic_operands-Behaves is_or register [] oks = pure-Behaves (0, [])
logic_operands-Behaves is_or register (m ∷ ms) (ok, oks) =
    let rest = logic_operands-Behaves is_or register ms oks in
    by_frame (λ s h r c b rt. search steps depth 10)

translate_logic-Behaves :
    (is_or : Bool) (ms : List (Action ℕ)) → Each Behaves ms → Behaves (translate_logic is_or ms)
unfolding translate_logic
translate_logic-Behaves is_or ms oks =
    by_frame (λ s h r c b rt. search (steps, logic_operands-Behaves) depth 20)

fold_step-Behaves : (o : Option ℕ) (x y z : ℕ) → Behaves (fold_step o x y z)
unfolding fold_step
fold_step-Behaves none x y z = record { triple = λ fr. raise-Triple }
fold_step-Behaves (some op) x y z = by_frame (λ s h r c b rt. search steps depth 10)

fold_operands-Behaves :
    (type : Token) (x y : ℕ) (ms : List (Action ℕ)) (place : Place)
    → Each Behaves ms
    → Behaves (fold_operands type x y ms place)
unfolding fold_operands
fold_operands-Behaves type x y [] place oks = pure-Behaves tt
fold_operands-Behaves type x y (m ∷ ms) place (ok, oks) =
    let rest = fold_operands-Behaves type x y ms place oks in
    by_frame (λ s h r c b rt. search (steps, fold_step-Behaves) depth 10)

translate_fold-Behaves :
    (type : Token) (ms : List (Action ℕ)) (place : Place)
    → Each Behaves ms
    → Behaves (translate_fold type ms place)
unfolding translate_fold
translate_fold-Behaves type [] place oks = record { triple = λ fr. panic-Triple }
translate_fold-Behaves type (m ∷ ms) place (ok, oks) =
    by_frame (λ s h r c b rt. search (steps, fold_operands-Behaves) depth 20)

pub translate_operation-Behaves :
    (type : Token) (ms : List (Action ℕ)) (place : Place)
    → Each Behaves ms
    → Behaves (translate_operation type ms place)
unfolding translate_operation
translate_operation-Behaves token_and ms place oks = translate_logic-Behaves false ms oks
translate_operation-Behaves token_or ms place oks = translate_logic-Behaves true ms oks
translate_operation-Behaves _ ms place oks = translate_fold-Behaves _ ms place oks
