-- ===== src/Translator/Restore/Scopes.antt =====
-- The functions of Translator/Scopes restore what they change, if what is translated inside does.
use chloride.Base.{ℕ, Bool, true, false, Option, none, some, List, [], ◌∷◌, ltb, length}
use chloride.Translator.Machine.{Action}
use chloride.Translator.Syntax.{Place, Expose}
use chloride.Translator.Scopes.{
  translate_single, translate_singles, translate_declaration, expose_alias, translate_exposes,
  expose_names, declare_import, expose_code, translate_import, parent_code, translate_class,
  exception_class, declare_exception, begin_catch, translate_try,
}
use chloride.Translator.Restore.Frame.{Behaves, by_frame, Each, May, Both}
use chloride.Translator.Restore.Steps.{emit-Behaves, pure-Behaves}
use chloride.Translator.Restore.Rules.{steps}
use chloride.Translator.Restore.Calls.{if-Behaves}

translate_single-Behaves :
    {from destructure : Action ℕ}
    → Behaves from
    → Behaves destructure
    → Behaves (translate_single from destructure)
unfolding translate_single
translate_single-Behaves from-ok destructure-ok = by_frame (λ s h r c b rt. search steps depth 30)

translate_singles-Behaves :
    (ds : List (Action ℕ × Action ℕ)) → Each Both ds → Behaves (translate_singles ds)
unfolding translate_singles
translate_singles-Behaves [] oks = pure-Behaves tt
translate_singles-Behaves ((from, destructure) ∷ ds) ((from-ok, ok), oks) =
    let first = translate_single-Behaves from-ok ok in
    let rest = translate_singles-Behaves ds oks in by_frame (λ s h r c b rt. search steps depth 10)

pub translate_declaration-Behaves :
    (ds : List (Action ℕ × Action ℕ)) → Each Both ds → Behaves (translate_declaration ds)
unfolding translate_declaration
translate_declaration-Behaves [] oks = by_frame (λ s h r c b rt. search steps depth 10)
translate_declaration-Behaves ((from, destructure) ∷ ds) ((from-ok, ok), oks) =
    let first = translate_single-Behaves from-ok ok in
    let rest = translate_singles-Behaves ds oks in by_frame (λ s h r c b rt. search steps depth 10)

declare_import-Behaves :
    (siphash : List ℕ → ℕ) (o : Option (List ℕ)) → Behaves (declare_import siphash o)
unfolding declare_import
declare_import-Behaves siphash none = pure-Behaves tt
declare_import-Behaves siphash (some name) = by_frame (λ s h r c b rt. search steps depth 10)

expose_alias-Behaves :
    (siphash : List ℕ → ℕ) (name : List ℕ) (pos : ℕ) (o : Option (List ℕ))
    → Behaves (expose_alias siphash name pos o)
unfolding expose_alias
expose_alias-Behaves siphash name pos none = by_frame (λ s h r c b rt. search steps depth 10)
expose_alias-Behaves siphash name pos (some alias) =
    by_frame (λ s h r c b rt. search steps depth 10)

translate_exposes-Behaves :
    (siphash : List ℕ → ℕ) (is_first : Bool) (register : ℕ) (es : List Expose)
    → Behaves (translate_exposes siphash is_first register es)
unfolding translate_exposes
translate_exposes-Behaves siphash is_first register [] = pure-Behaves tt
translate_exposes-Behaves siphash is_first register (e ∷ es) =
    let rest = translate_exposes-Behaves siphash false register es in
    by_frame (λ s h r c b rt. search (steps, expose_alias-Behaves) depth 10)

expose_names-Behaves : (siphash : List ℕ → ℕ) (es : List Expose) → Behaves (expose_names siphash es)
unfolding expose_names
expose_names-Behaves siphash es =
    if-Behaves (ltb 1 (length es)) _ _
      (by_frame (λ s h r c b rt. search (steps, translate_exposes-Behaves) depth 10))
      (translate_exposes-Behaves siphash true 0 es)

expose-Behaves :
    (siphash : List ℕ → ℕ) (all : Bool) (o : Option (List Expose))
    → Behaves (expose_code siphash all o)
unfolding expose_code
expose-Behaves siphash true o = by_frame (λ s h r c b rt. search steps depth 10)
expose-Behaves siphash false none = pure-Behaves tt
expose-Behaves siphash false (some es) = expose_names-Behaves siphash es

pub translate_import-Behaves :
    (siphash : List ℕ → ℕ) {file : Action ℕ} (renamed : Option (List ℕ)) (all : Bool)
    (o : Option (List Expose)) (place : Place)
    → Behaves file
    → Behaves (translate_import siphash file renamed all o place)
unfolding translate_import
translate_import-Behaves siphash renamed all o place ok =
    by_frame (λ s h r c b rt. search (steps, declare_import-Behaves, expose-Behaves) depth 10)

parent_code-Behaves :
    (parent : Option (Action ℕ)) → May Behaves parent → Behaves (parent_code parent)
unfolding parent_code
parent_code-Behaves none ok = emit-Behaves _
parent_code-Behaves (some m) ok = ok

pub translate_class-Behaves :
    (siphash : List ℕ → ℕ) (name : List ℕ) (parent : Option (Action ℕ)) {body : Action ℕ}
    (place : Place)
    → May Behaves parent
    → Behaves body
    → Behaves (translate_class siphash name parent body place)
unfolding translate_class
translate_class-Behaves siphash name parent place parent-ok body-ok =
    let first = parent_code-Behaves parent parent-ok in
    by_frame (λ s h r c b rt. search steps depth 40 fits 3000)

exception_class-Behaves :
    (type : Option (Action ℕ)) → May Behaves type → Behaves (exception_class type)
unfolding exception_class
exception_class-Behaves none ok = by_frame (λ s h r c b rt. search steps depth 10)
exception_class-Behaves (some m) ok = by_frame (λ s h r c b rt. search steps depth 10)

declare_exception-Behaves :
    (siphash : List ℕ → ℕ) (register : ℕ) (o : Option (List ℕ))
    → Behaves (declare_exception siphash register o)
unfolding declare_exception
declare_exception-Behaves siphash register none = pure-Behaves tt
declare_exception-Behaves siphash register (some name) =
    by_frame (λ s h r c b rt. search steps depth 10)

begin_catch-Behaves :
    (register : ℕ) (type : Option (Action ℕ))
    → May Behaves type
    → Behaves (begin_catch register type)
unfolding begin_catch
begin_catch-Behaves register type ok =
    let first = exception_class-Behaves type ok in by_frame (λ s h r c b rt. search steps depth 20)

pub translate_try-Behaves :
    (siphash : List ℕ → ℕ) {try_body : Action ℕ} (type : Option (Action ℕ)) (name : Option (List ℕ))
    {catch_body : Action ℕ}
    → Behaves try_body
    → May Behaves type
    → Behaves catch_body
    → Behaves (translate_try siphash try_body type name catch_body)
unfolding translate_try
translate_try-Behaves siphash type name try-ok type-ok catch-ok = by_frame (λ s h r c b rt.
    search (steps, begin_catch-Behaves, declare_exception-Behaves) depth 50 fits 3000)
