-- ===== src/Translator/Dispatch.antt =====
-- translate_parsed and translate of src/translator/translator.c: each kind of parsed value goes to its
-- function, with the translations of its parts. `siphash` is siphash64_bytes with the fixed key.
use chloride.Base.{ℕ, true, false, Option, none, some, List, [], ◌∷◌}
use chloride.Translator.Machine.{Action, called, here}
use chloride.Translator.Syntax.{
  Parsed, Maybe, Items, Declarations, Defaults, Conditionals, Pieces, Subscript, Subscripts,
  Entries, Destructure, Destructures, Keys, string, declaration, number, null, boolean, negation,
  function, identifier, if_chain, for_loop, try_catch, while_loop, template, do_wrap, throw,
  conditional, return_value, delete, break_loop, continue_loop, call, access, item_access,
  operation, assign, class, to_bool, import, range, array, dictionary, absent, present, no_items,
  item, no_declarations, declare, no_defaults, default, no_conditionals, branch, no_pieces,
  text_piece, value_piece, no_parts, part, no_subscripts, subscript, no_entries, entry, nothing,
  plain_name, by_index, by_key, no_destructures, also, no_keys, key_item,
}
use chloride.Translator.Control.{
  translate_break, translate_continue, translate_return, translate_while, translate_for,
  translate_if, translate, translate_do_wrap, translate_throw, translate_conditional,
}
use chloride.Translator.Values.{
  translate_null, translate_boolean, translate_negation, translate_to_bool, translate_range,
  translate_array, translate_dictionary, translate_number, translate_string, translate_identifier,
  TemplatePart, translate_template, template_string, template_value,
}
use chloride.Translator.Calls.{
  translate_access, translate_item_access, translate_call, translate_assignment, translate_delete,
  to_identifier, to_access, to_item, to_other,
}
use chloride.Translator.Scopes.{
  translate_declaration, translate_import, translate_class, translate_try,
}
use chloride.Translator.Operations.{translate_operation}
use chloride.Translator.Functions.{translate_function}
use chloride.Translator.Destructure.{
  Inner, destructure_name, destructure_index, key_name, key_value, destructure_key,
}

unfoldable mutual
  pub translate_parsed : (List ℕ → ℕ) → Parsed → Action ℕ
  translate_parsed h (string text) = translate_string h text
  translate_parsed h (declaration ds) = called (translate_declaration (declarations_of h ds))
  translate_parsed h (number n) = translate_number h n 0
  translate_parsed h null = translate_null
  translate_parsed h (boolean b) = translate_boolean b
  translate_parsed h (negation v) = translate_negation (translate_parsed h v)
  translate_parsed h (function name ps defaults v kw body) =
      called (translate_function h name ps (defaults_of h defaults) v kw (translate_parsed h body))
  translate_parsed h (identifier name place) = translate_identifier h name place
  translate_parsed h (if_chain branches) = called (translate_if (conditionals_of h branches))
  translate_parsed h (for_loop value iterator content) = called (
      translate_for (translate_destructure h value 0) (translate_parsed h iterator)
        (translate_parsed h content))
  translate_parsed h (try_catch body type name handler) = called (
      translate_try h (translate_parsed h body) (maybe_of h type) name (translate_parsed h handler))
  translate_parsed h (while_loop condition content) =
      called (translate_while (translate_parsed h condition) (translate_parsed h content))
  translate_parsed h (template templater pieces) =
      called (translate_template h (maybe_of h templater) (pieces_of h pieces))
  translate_parsed h (do_wrap statements) = called (translate_do_wrap (items_of h statements))
  translate_parsed h (throw value place) = translate_throw (translate_parsed h value) place
  translate_parsed h (conditional condition true_body false_body) =
      translate_conditional (translate_parsed h condition) (translate_parsed h true_body)
        (translate_parsed h false_body)
  translate_parsed h (return_value value place) =
      called (translate_return (translate_parsed h value))
  translate_parsed h (delete (identifier name name_place) place) =
      called (translate_delete h (to_identifier name) name_place place)
  translate_parsed h (delete (access object field at) place) = called (
      translate_delete h (to_access (translate_parsed h object) (translate_parsed h field)) at
        place)
  translate_parsed h (delete (item_access object parts at) place) =
      called
        (translate_delete h (to_item (translate_parsed h object) (subscripts_of h parts)) at place)
  translate_parsed h (delete value place) = called (translate_delete h to_other place place)
  translate_parsed h (break_loop place) = called translate_break
  translate_parsed h (continue_loop place) = called translate_continue
  translate_parsed h (call to_call args v_arg kwargs kw_arg place) = called (
      translate_call h (translate_parsed h to_call) (items_of h args) (maybe_of h v_arg)
        (named_of h kwargs) (maybe_of h kw_arg) place)
  translate_parsed h (access object field place) =
      called (translate_access (translate_parsed h object) (translate_parsed h field) place)
  translate_parsed h (item_access object parts place) =
      called (translate_item_access (translate_parsed h object) (subscripts_of h parts) place)
  translate_parsed h (operation type operands place) =
      called (translate_operation type (items_of h operands) place)
  translate_parsed h (assign type (identifier name at) from place) =
      called (translate_assignment h type (to_identifier name) (translate_parsed h from) place)
  translate_parsed h (assign type (access object field at) from place) = called (
      translate_assignment h type (to_access (translate_parsed h object) (translate_parsed h field))
        (translate_parsed h from) place)
  translate_parsed h (assign type (item_access object parts at) from place) = called (
      translate_assignment h type (to_item (translate_parsed h object) (subscripts_of h parts))
        (translate_parsed h from) place)
  translate_parsed h (assign type to from place) =
      called (translate_assignment h type to_other (translate_parsed h from) place)
  translate_parsed h (class name parent body place) =
      called (translate_class h name (maybe_of h parent) (translate_parsed h body) place)
  translate_parsed h (to_bool value invert) = translate_to_bool (translate_parsed h value) invert
  translate_parsed h (import file renamed expose_all expose place) =
      called (translate_import h (translate_parsed h file) renamed expose_all expose place)
  translate_parsed h (range start stop inclusive place) =
      called (translate_range (translate_parsed h start) (translate_parsed h stop) inclusive place)
  translate_parsed h (array values) = called (translate_array (items_of h values))
  translate_parsed h (dictionary entries) = called (translate_dictionary (entries_of h entries))

  pub translate_destructure : (List ℕ → ℕ) → Destructure → ℕ → Action ℕ
  translate_destructure h nothing register = here
  translate_destructure h (plain_name name line column) register =
      destructure_name h name line column register
  translate_destructure h (by_index items rest) register =
      called (destructure_index (inners_of h items) (rest_of h rest) register)
  translate_destructure h (by_key keys rest) register =
      called (destructure_key (keys_of h keys) (rest_of h rest) register)

  pub rest_of : (List ℕ → ℕ) → Destructure → Option Inner
  rest_of h nothing = none
  rest_of h (plain_name name line column) = some (destructure_name h name line column)
  rest_of h (by_index items rest) =
      some (λ register. called (destructure_index (inners_of h items) (rest_of h rest) register))
  rest_of h (by_key keys rest) =
      some (λ register. called (destructure_key (keys_of h keys) (rest_of h rest) register))

  pub inners_of : (List ℕ → ℕ) → Destructures → List Inner
  inners_of h no_destructures = []
  inners_of h (also d ds) = translate_destructure h d ∷ inners_of h ds

  pub keys_of : (List ℕ → ℕ) → Keys → List (Action Unit × Inner)
  keys_of h no_keys = []
  keys_of h (key_item (identifier name place) d ks) =
      (key_name h name, translate_destructure h d) ∷ keys_of h ks
  keys_of h (key_item key d ks) =
      (key_value (translate_parsed h key), translate_destructure h d) ∷ keys_of h ks

  pub items_of : (List ℕ → ℕ) → Items → List (Action ℕ)
  items_of h no_items = []
  items_of h (item v vs) = translate_parsed h v ∷ items_of h vs

  pub maybe_of : (List ℕ → ℕ) → Maybe → Option (Action ℕ)
  maybe_of h absent = none
  maybe_of h (present v) = some (translate_parsed h v)

  pub declarations_of : (List ℕ → ℕ) → Declarations → List (Action ℕ × Action ℕ)
  declarations_of h no_declarations = []
  declarations_of h (declare d from ds) =
      (translate_parsed h from, translate_destructure h d 0) ∷ declarations_of h ds

  pub named_of : (List ℕ → ℕ) → Defaults → List (List ℕ × Action ℕ)
  named_of h (no_defaults is_null) = []
  named_of h (default name value ds) = (name, translate_parsed h value) ∷ named_of h ds

  pub defaults_of : (List ℕ → ℕ) → Defaults → Option (List (List ℕ × Action ℕ))
  defaults_of h (no_defaults true) = none
  defaults_of h (no_defaults false) = some []
  defaults_of h (default name value ds) = some ((name, translate_parsed h value) ∷ named_of h ds)

  pub conditionals_of : (List ℕ → ℕ) → Conditionals → List (Option (Action ℕ) × Action ℕ)
  conditionals_of h no_conditionals = []
  conditionals_of h (branch condition content bs) =
      (maybe_of h condition, translate_parsed h content) ∷ conditionals_of h bs

  pub pieces_of : (List ℕ → ℕ) → Pieces → List TemplatePart
  pieces_of h no_pieces = []
  pieces_of h (text_piece text ps) = template_string text ∷ pieces_of h ps
  pieces_of h (value_piece v ps) = template_value (translate_parsed h v) ∷ pieces_of h ps

  pub parts_of : (List ℕ → ℕ) → Subscript → List (Option (Action ℕ))
  parts_of h no_parts = []
  parts_of h (part v vs) = maybe_of h v ∷ parts_of h vs

  pub subscripts_of : (List ℕ → ℕ) → Subscripts → List (List (Option (Action ℕ)))
  subscripts_of h no_subscripts = []
  subscripts_of h (subscript ps ss) = parts_of h ps ∷ subscripts_of h ss

  pub entries_of : (List ℕ → ℕ) → Entries → List (Action ℕ × Action ℕ)
  entries_of h no_entries = []
  entries_of h (entry key value es) =
      (translate_parsed h key, translate_parsed h value) ∷ entries_of h es

-- translate, of a whole program: `left` is the error that it returns
unfoldable pub translate_program : (List ℕ → ℕ) → Items → Action Unit
translate_program siphash statements = translate (items_of siphash statements)
