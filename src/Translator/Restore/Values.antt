-- ===== src/Translator/Restore/Values.antt =====
-- The functions of Translator/Values restore what they change, if what is translated inside does.
use chloride.Base.{ℕ, suc, Bool, true, false, Option, none, some, List, [], ◌∷◌}
use chloride.Translator.Machine.{Action}
use chloride.Translator.Syntax.{Place, Number}
use chloride.Translator.Values.{
  translate_null, translate_boolean, translate_negation, translate_to_bool, translate_range,
  insert_args, translate_array, set_entries, translate_dictionary, denominator_codes, number_codes,
  translate_number, translate_string, translate_identifier, TemplatePart, template_part,
  template_parts, templater_code, translate_template, template_string, template_value,
}
use chloride.Translator.Restore.Frame.{Behaves, by_frame, Each, May, Both}
use chloride.Translator.Restore.Steps.{emit-Behaves, pure-Behaves}
use chloride.Translator.Restore.Rules.{steps}

pub translate_null-Behaves : Behaves translate_null
unfolding translate_null
translate_null-Behaves = by_frame (λ s h r c b rt. search steps)

pub translate_boolean-Behaves : (b : Bool) → Behaves (translate_boolean b)
unfolding translate_boolean
translate_boolean-Behaves b = by_frame (λ s h r c b rt. search steps)

pub translate_negation-Behaves :
    {value : Action ℕ} → Behaves value → Behaves (translate_negation value)
unfolding translate_negation
translate_negation-Behaves ok = by_frame (λ s h r c b rt. search steps depth 10)

pub translate_to_bool-Behaves :
    {value : Action ℕ} (invert : Bool) → Behaves value → Behaves (translate_to_bool value invert)
unfolding translate_to_bool
translate_to_bool-Behaves invert ok = by_frame (λ s h r c b rt. search steps depth 10)

pub translate_range-Behaves :
    {start stop : Action ℕ} (inclusive : Bool) (place : Place)
    → Behaves start
    → Behaves stop
    → Behaves (translate_range start stop inclusive place)
unfolding translate_range
translate_range-Behaves inclusive place start-ok stop-ok =
    by_frame (λ s h r c b rt. search steps depth 30)

pub insert_args-Behaves :
    (i : ℕ) (values : List (Action ℕ)) → Each Behaves values → Behaves (insert_args i values)
unfolding insert_args
insert_args-Behaves i [] oks = pure-Behaves tt
insert_args-Behaves i (m ∷ ms) (ok, oks) =
    let rest = insert_args-Behaves (suc i) ms oks in
    by_frame (λ s h r c b rt. search steps depth 20)

pub translate_array-Behaves :
    (values : List (Action ℕ)) → Each Behaves values → Behaves (translate_array values)
unfolding translate_array
translate_array-Behaves values oks =
    let all = insert_args-Behaves 0 values oks in by_frame (λ s h r c b rt. search steps depth 20)

set_entries-Behaves :
    (is_first : Bool) (register : ℕ) (entries : List (Action ℕ × Action ℕ))
    → Each Both entries
    → Behaves (set_entries is_first register entries)
unfolding set_entries
set_entries-Behaves is_first register [] oks = pure-Behaves tt
set_entries-Behaves is_first register ((key, value) ∷ entries) ((key-ok, value-ok), oks) =
    let rest = set_entries-Behaves false register entries oks in
    by_frame (λ s h r c b rt. search steps depth 30)

pub translate_dictionary-Behaves :
    (entries : List (Action ℕ × Action ℕ))
    → Each Both entries
    → Behaves (translate_dictionary entries)
unfolding translate_dictionary
translate_dictionary-Behaves entries oks =
    by_frame (λ s h r c b rt. search (steps, set_entries-Behaves) depth 30)

pub translate_string-Behaves :
    (siphash : List ℕ → ℕ) (text : List ℕ) → Behaves (translate_string siphash text)
unfolding translate_string
translate_string-Behaves siphash text = by_frame (λ s h r c b rt. search steps depth 10)

pub translate_identifier-Behaves :
    (siphash : List ℕ → ℕ) (name : List ℕ) (place : Place)
    → Behaves (translate_identifier siphash name place)
unfolding translate_identifier
translate_identifier-Behaves siphash name place = by_frame (λ s h r c b rt. search steps depth 20)

denominator_codes-Behaves :
    (siphash : List ℕ → ℕ) (n : Number) (is_int : Bool)
    → Behaves (denominator_codes siphash n is_int)
unfolding denominator_codes
denominator_codes-Behaves siphash n true = pure-Behaves tt
denominator_codes-Behaves siphash n false = by_frame (λ s h r c b rt. search steps depth 10)

number_codes-Behaves :
    (siphash : List ℕ → ℕ) (n : Number) (o : Option ℕ) → Behaves (number_codes siphash n o)
unfolding number_codes
number_codes-Behaves siphash n (some i64) = by_frame (λ s h r c b rt. search steps depth 10)
number_codes-Behaves siphash n none =
    by_frame (λ s h r c b rt. search (steps, denominator_codes-Behaves) depth 10)

pub translate_number-Behaves :
    (siphash : List ℕ → ℕ) (n : Number) (register : ℕ)
    → Behaves (translate_number siphash n register)
unfolding translate_number
translate_number-Behaves siphash n register =
    by_frame (λ s h r c b rt. search (steps, number_codes-Behaves) depth 10)

abbrev pub IsPart : TemplatePart → Type 0
IsPart (template_string text) = Unit
IsPart (template_value value) = Behaves value

template_part-Behaves :
    (siphash : List ℕ → ℕ) (p : TemplatePart) → IsPart p → Behaves (template_part siphash p)
unfolding template_part
template_part-Behaves siphash (template_value m) ok =
    by_frame (λ s h r c b rt. search steps depth 20)
template_part-Behaves siphash (template_string text) ok =
    by_frame (λ s h r c b rt. search steps depth 20)

template_parts-Behaves :
    (siphash : List ℕ → ℕ) (i : ℕ) (parts : List TemplatePart)
    → Each IsPart parts
    → Behaves (template_parts siphash i parts)
unfolding template_parts
template_parts-Behaves siphash i [] oks = pure-Behaves tt
template_parts-Behaves siphash i (p ∷ ps) (ok, oks) =
    let first = template_part-Behaves siphash p ok in
    let rest = template_parts-Behaves siphash (suc i) ps oks in
    by_frame (λ s h r c b rt. search steps depth 20)

templater_code-Behaves :
    (templater : Option (Action ℕ)) → May Behaves templater → Behaves (templater_code templater)
unfolding templater_code
templater_code-Behaves none ok = emit-Behaves _
templater_code-Behaves (some m) ok = by_frame (λ s h r c b rt. search steps depth 20)

pub translate_template-Behaves :
    (siphash : List ℕ → ℕ) (templater : Option (Action ℕ)) (parts : List TemplatePart)
    → May Behaves templater
    → Each IsPart parts
    → Behaves (translate_template siphash templater parts)
unfolding translate_template
translate_template-Behaves siphash templater parts templater-ok oks =
    let first = templater_code-Behaves templater templater-ok in
    let all = template_parts-Behaves siphash 0 parts oks in
    by_frame (λ s h r c b rt. search steps depth 30)
