-- ===== src/Translator/Restore/Calls.antt =====
-- The functions of Translator/Calls restore what they change, if what is translated inside does.
use chloride.Base.{ℕ, suc, Bool, true, false, Option, none, some, List, [], ◌∷◌, if◌then◌else◌}
use chloride.Translator.Machine.{ContinueJump, Action}
use chloride.Translator.Syntax.{
  Place, Token, token_plus_assign, token_minus_assign, token_star_assign, token_caret_assign,
  token_slash_assign, token_floordiv_assign, token_modulo_assign,
}
use chloride.Translator.Calls.{
  translate_access, translate_part, translate_parts, is_single, translate_subscript_loop,
  translate_subscripts, translate_item_access, key_word_args, unpack, translate_call,
  add_assignment_operation, Target, assign_operation, assign_identifier, compound, plain_member,
  compound_member, assign_member, field_name, assign_to, translate_assignment, delete_member,
  translate_delete, to_identifier, to_access, to_item, to_other,
}
use chloride.Translator.Restore.Frame.{Shape, Triple, Behaves, by_frame, Each, May, frame}
use chloride.Translator.Restore.Steps.{emit-Behaves, pure-Behaves, panic-Triple}
use chloride.Translator.Restore.Rules.{restoring-Behaves, steps}
use chloride.Translator.Restore.Values.{insert_args-Behaves}

pub if-Behaves :
    {A : Type 0} (b : Bool) (m k : Action A) → Behaves m → Behaves k → Behaves (if b then m else k)
if-Behaves true m k m-ok k-ok = m-ok
if-Behaves false m k m-ok k-ok = k-ok

pub translate_access-Behaves :
    {object field : Action ℕ} (place : Place)
    → Behaves object
    → Behaves field
    → Behaves (translate_access object field place)
unfolding translate_access
translate_access-Behaves place object-ok field-ok = by_frame (λ s h r c b rt. search steps depth 20)

translate_part-Behaves : (p : Option (Action ℕ)) → May Behaves p → Behaves (translate_part p)
unfolding translate_part
translate_part-Behaves none ok = by_frame (λ s h r c b rt. search steps depth 10)
translate_part-Behaves (some m) ok = by_frame (λ s h r c b rt. search steps depth 10)

translate_parts-Behaves :
    (single : Bool) (j : ℕ) (ps : List (Option (Action ℕ)))
    → Each (May Behaves) ps
    → Behaves (translate_parts single j ps)
unfolding translate_parts
translate_parts-Behaves single j [] oks = pure-Behaves tt
translate_parts-Behaves single j (p ∷ ps) (ok, oks) =
    let first = translate_part-Behaves p ok in
    let rest = translate_parts-Behaves single (suc j) ps oks in
    by_frame (λ s h r c b rt. search steps depth 20)

abbrev pub IsSubscripts : List (List (Option (Action ℕ))) → Type 0
IsSubscripts = Each (Each (May Behaves))

subscript_loop-Behaves :
    (single : Bool) (i : ℕ) (subscripts : List (List (Option (Action ℕ))))
    → IsSubscripts subscripts
    → Behaves (translate_subscript_loop single i subscripts)
unfolding translate_subscript_loop
subscript_loop-Behaves single i [] oks = pure-Behaves tt
subscript_loop-Behaves single i (ps ∷ subscripts) (ok, oks) =
    let first = translate_parts-Behaves (is_single ps) 0 ps ok in
    let rest = subscript_loop-Behaves single (suc i) subscripts oks in
    by_frame (λ s h r c b rt. search steps depth 20)

translate_subscripts-Behaves :
    (subscripts : List (List (Option (Action ℕ))))
    → IsSubscripts subscripts
    → Behaves (translate_subscripts subscripts)
unfolding translate_subscripts
translate_subscripts-Behaves subscripts oks =
    let all = subscript_loop-Behaves (is_single subscripts) 0 subscripts oks in
    by_frame (λ s h r c b rt. search steps depth 20)

pub translate_item_access-Behaves :
    {object : Action ℕ} (subscripts : List (List (Option (Action ℕ)))) (place : Place)
    → Behaves object
    → IsSubscripts subscripts
    → Behaves (translate_item_access object subscripts place)
unfolding translate_item_access
translate_item_access-Behaves subscripts place object-ok oks =
    let all = translate_subscripts-Behaves subscripts oks in
    by_frame (λ s h r c b rt. search steps depth 20)

abbrev pub IsNamed : List ℕ × Action ℕ → Type 0
IsNamed (name, value) = Behaves value

key_word_args-Behaves :
    (siphash : List ℕ → ℕ) (args : List (List ℕ × Action ℕ))
    → Each IsNamed args
    → Behaves (key_word_args siphash args)
unfolding key_word_args
key_word_args-Behaves siphash [] oks = pure-Behaves tt
key_word_args-Behaves siphash ((name, value) ∷ args) (ok, oks) =
    let rest = key_word_args-Behaves siphash args oks in
    by_frame (λ s h r c b rt. search steps depth 20)

unpack-Behaves :
    (value : Option (Action ℕ)) (op : ℕ) → May Behaves value → Behaves (unpack value op)
unfolding unpack
unpack-Behaves none op ok = pure-Behaves tt
unpack-Behaves (some m) op ok = by_frame (λ s h r c b rt. search steps depth 10)

pub translate_call-Behaves :
    (siphash : List ℕ → ℕ) {to_call : Action ℕ} (args : List (Action ℕ)) (v_arg : Option (Action ℕ))
    (kwargs : List (List ℕ × Action ℕ)) (kw_arg : Option (Action ℕ)) (place : Place)
    → Behaves to_call
    → Each Behaves args
    → May Behaves v_arg
    → Each IsNamed kwargs
    → May Behaves kw_arg
    → Behaves (translate_call siphash to_call args v_arg kwargs kw_arg place)
unfolding translate_call
translate_call-Behaves siphash args v_arg kwargs kw_arg place call-ok args-ok v-ok kwargs-ok kw-ok =
    let all = insert_args-Behaves 0 args args-ok in
    let named = key_word_args-Behaves siphash kwargs kwargs-ok in
    by_frame (λ s h r c b rt. search (steps, restoring-Behaves, unpack-Behaves) depth 40 fits 3000)

add_operation-Behaves :
    (type : Token) (output a b : ℕ) → Behaves (add_assignment_operation type output a b)
unfolding add_assignment_operation
add_operation-Behaves token_plus_assign output a b = emit-Behaves _
add_operation-Behaves token_minus_assign output a b = emit-Behaves _
add_operation-Behaves token_star_assign output a b = emit-Behaves _
add_operation-Behaves token_caret_assign output a b = emit-Behaves _
add_operation-Behaves token_slash_assign output a b = emit-Behaves _
add_operation-Behaves token_floordiv_assign output a b = emit-Behaves _
add_operation-Behaves token_modulo_assign output a b = emit-Behaves _
add_operation-Behaves _ output a b = record { triple = λ fr. panic-Triple }

assign_operation-Behaves :
    (siphash : List ℕ → ℕ) (type : Token) (name : List ℕ) (pos : ℕ) (place : Place)
    → Behaves (assign_operation siphash type name pos place)
unfolding assign_operation
assign_operation-Behaves siphash type name pos place =
    by_frame (λ s h r c b rt. search (steps, add_operation-Behaves) depth 20)

assign_identifier-Behaves :
    (siphash : List ℕ → ℕ) (type : Token) (name : List ℕ) (place : Place)
    → Behaves (assign_identifier siphash type name place)
unfolding assign_identifier
assign_identifier-Behaves siphash type name place =
    by_frame (λ s h r c b rt. search (steps, if-Behaves, assign_operation-Behaves) depth 20)

compound-Triple :
    (type : Token) (getter register_a register : ℕ) (place : Place) {s h r : ℕ} {c : ContinueJump}
    {b rt : Shape}
    → Triple
        (frame s h (suc r) c b rt)
        (compound type getter register_a register place)
        (frame s h r c b rt)
unfolding compound
compound-Triple type getter register_a register place =
    search (steps, add_operation-Behaves) depth 20

plain_member-Behaves :
    (setter register_a : ℕ) {member : Action Unit} (place : Place)
    → Behaves member
    → Behaves (plain_member setter register_a member place)
unfolding plain_member
plain_member-Behaves setter register_a place ok = by_frame (λ s h r c b rt. search steps depth 20)

compound_member-Behaves :
    (type : Token) (getter setter register_a : ℕ) {member : Action Unit} (place : Place)
    → Behaves member
    → Behaves (compound_member type getter setter register_a member place)
unfolding compound_member
compound_member-Behaves type getter setter register_a place ok =
    by_frame (λ s h r c b rt. search (steps, compound-Triple) depth 20)

assign_member-Behaves :
    (type : Token) (getter setter : ℕ) {object : Action ℕ} {member : Action Unit} (place : Place)
    → Behaves object
    → Behaves member
    → Behaves (assign_member type getter setter object member place)
unfolding assign_member
assign_member-Behaves type getter setter place object-ok member-ok = by_frame (λ s h r c b rt.
    search (steps, if-Behaves, plain_member-Behaves, compound_member-Behaves) depth 20)

field_name-Behaves : {field : Action ℕ} → Behaves field → Behaves (field_name field)
unfolding field_name
field_name-Behaves ok = by_frame (λ s h r c b rt. search steps depth 20)

abbrev pub IsTarget : Target → Type 0
IsTarget (to_identifier name) = Unit
IsTarget (to_access object field) = Behaves object × Behaves field
IsTarget (to_item object subscripts) = Behaves object × IsSubscripts subscripts
IsTarget to_other = Unit

assign_to-Behaves :
    (siphash : List ℕ → ℕ) (type : Token) (target : Target) (place : Place)
    → IsTarget target
    → Behaves (assign_to siphash type target place)
unfolding assign_to
assign_to-Behaves siphash type (to_identifier name) place ok =
    assign_identifier-Behaves siphash type name place
assign_to-Behaves siphash type (to_access object field) place (object-ok, field-ok) =
    assign_member-Behaves type _ _ place object-ok (field_name-Behaves field-ok)
assign_to-Behaves siphash type (to_item object subscripts) place (object-ok, oks) =
    assign_member-Behaves type _ _ place object-ok (translate_subscripts-Behaves subscripts oks)
assign_to-Behaves siphash type to_other place ok = record { triple = λ fr. panic-Triple }

pub translate_assignment-Behaves :
    (siphash : List ℕ → ℕ) (type : Token) (target : Target) {from : Action ℕ} (place : Place)
    → IsTarget target
    → Behaves from
    → Behaves (translate_assignment siphash type target from place)
unfolding translate_assignment
translate_assignment-Behaves siphash type target place target-ok from-ok =
    let rest = assign_to-Behaves siphash type target place target-ok in
    by_frame (λ s h r c b rt. search steps depth 30)

delete_member-Behaves :
    (op : ℕ) {object : Action ℕ} {member : Action Unit} (place : Place)
    → Behaves object
    → Behaves member
    → Behaves (delete_member op object member place)
unfolding delete_member
delete_member-Behaves op place object-ok member-ok =
    by_frame (λ s h r c b rt. search steps depth 20)

pub translate_delete-Behaves :
    (siphash : List ℕ → ℕ) (target : Target) (name_place place : Place)
    → IsTarget target
    → Behaves (translate_delete siphash target name_place place)
unfolding translate_delete
translate_delete-Behaves siphash (to_identifier name) name_place place ok =
    by_frame (λ s h r c b rt. search steps depth 20)
translate_delete-Behaves siphash (to_access object field) name_place place (object-ok, field-ok) =
    delete_member-Behaves _ place object-ok (field_name-Behaves field-ok)
translate_delete-Behaves siphash (to_item object subscripts) name_place place (object-ok, oks) =
    delete_member-Behaves _ place object-ok (translate_subscripts-Behaves subscripts oks)
translate_delete-Behaves siphash to_other name_place place ok = record {
  triple = λ fr. panic-Triple;
}
