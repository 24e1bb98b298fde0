-- ===== src/Translator/Restore/Dispatch.antt =====
-- translate_parsed, translate_destructure and translate, of any program, restore what they change.
use chloride.Base.{ℕ, true, false, List}
use chloride.Translator.Syntax.{
  Parsed, Maybe, Items, Declarations, Defaults, Conditionals, Pieces, Subscript, Subscripts,
  Entries, Destructure, Destructures, Keys, string, declaration, number, null, boolean, negation,
  function, identifier, if_chain, for_loop, try_catch, while_loop, template, do_wrap, throw,
  conditional, return_value, delete, break_loop, continue_loop, call, access, item_access,
  operation, assign, class, to_bool, import, range, array, dictionary, absent, present, no_items,
  item, no_declarations, declare, no_defaults, default, no_conditionals, branch, no_pieces,
  text_piece, value_piece, no_parts, part, no_subscripts, subscript, no_entries, entry, nothing,
  plain_name, by_index, by_key, no_destructures, also, no_keys, key_item,
}
use chloride.Translator.Calls.{to_identifier, to_access, to_item, to_other}
use chloride.Translator.Dispatch.{
  translate_parsed, translate_destructure, rest_of, inners_of, keys_of, items_of, maybe_of,
  declarations_of, named_of, defaults_of, conditionals_of, pieces_of, parts_of, subscripts_of,
  entries_of,
}
use chloride.Translator.Restore.Frame.{Behaves, Each, May, Both}
use chloride.Translator.Restore.Steps.{here-Behaves}
use chloride.Translator.Restore.Rules.{called-Behaves}
use chloride.Translator.Restore.Control.{
  translate_while-Behaves, translate_for-Behaves, IsBranch, translate_if-Behaves,
  translate_throw-Behaves, translate_conditional-Behaves, translate_break-Behaves,
  translate_continue-Behaves, translate_return-Behaves, translate_do_wrap-Behaves,
}
use chloride.Translator.Restore.Values.{
  translate_null-Behaves, translate_boolean-Behaves, translate_negation-Behaves,
  translate_to_bool-Behaves, translate_range-Behaves, translate_array-Behaves,
  translate_dictionary-Behaves, translate_string-Behaves, translate_identifier-Behaves,
  translate_number-Behaves, IsPart, translate_template-Behaves,
}
use chloride.Translator.Restore.Calls.{
  translate_access-Behaves, IsSubscripts, translate_item_access-Behaves, IsNamed,
  translate_call-Behaves, translate_assignment-Behaves, translate_delete-Behaves,
}
use chloride.Translator.Restore.Scopes.{
  translate_declaration-Behaves, translate_import-Behaves, translate_class-Behaves,
  translate_try-Behaves,
}
use chloride.Translator.Restore.Operations.{translate_operation-Behaves}
use chloride.Translator.Restore.Functions.{translate_function-Behaves}
use chloride.Translator.Restore.Destructure.{
  IsInner, destructure_name-Behaves, destructure_index-Behaves, key_name-Behaves, key_value-Behaves,
  IsKey, destructure_key-Behaves,
}

mutual
  unfolding translate_parsed

  pub parsed-Behaves : (h : List ℕ → ℕ) (v : Parsed) → Behaves (translate_parsed h v)
  parsed-Behaves h (string text) = translate_string-Behaves h text
  parsed-Behaves h (declaration ds) =
      called-Behaves _ (translate_declaration-Behaves _ (declarations-Each h ds))
  parsed-Behaves h (number n) = translate_number-Behaves h n 0
  parsed-Behaves h null = translate_null-Behaves
  parsed-Behaves h (boolean b) = translate_boolean-Behaves b
  parsed-Behaves h (negation v) = translate_negation-Behaves (parsed-Behaves h v)
  parsed-Behaves h (function name ps defaults v kw body) = called-Behaves _ (
      translate_function-Behaves h name ps _ v kw (defaults-May h defaults) (parsed-Behaves h body))
  parsed-Behaves h (identifier name place) = translate_identifier-Behaves h name place
  parsed-Behaves h (if_chain branches) =
      called-Behaves _ (translate_if-Behaves _ (conditionals-Each h branches))
  parsed-Behaves h (for_loop value iterator content) = called-Behaves _ (
      translate_for-Behaves (destructure-Behaves h value 0) (parsed-Behaves h iterator)
        (parsed-Behaves h content))
  parsed-Behaves h (try_catch body type name handler) = called-Behaves _ (
      translate_try-Behaves h _ name (parsed-Behaves h body) (maybe-May h type)
        (parsed-Behaves h handler))
  parsed-Behaves h (while_loop condition content) =
      called-Behaves _
        (translate_while-Behaves (parsed-Behaves h condition) (parsed-Behaves h content))
  parsed-Behaves h (template templater pieces) =
      called-Behaves _
        (translate_template-Behaves h _ _ (maybe-May h templater) (pieces-Each h pieces))
  parsed-Behaves h (do_wrap statements) =
      called-Behaves _ (translate_do_wrap-Behaves _ (items-Each h statements))
  parsed-Behaves h (throw value place) = translate_throw-Behaves place (parsed-Behaves h value)
  parsed-Behaves h (conditional condition true_body false_body) =
      translate_conditional-Behaves (parsed-Behaves h condition) (parsed-Behaves h true_body)
        (parsed-Behaves h false_body)
  parsed-Behaves h (return_value value place) =
      called-Behaves _ (translate_return-Behaves (parsed-Behaves h value))
  parsed-Behaves h (delete (identifier name name_place) place) =
      called-Behaves _ (translate_delete-Behaves h (to_identifier name) name_place place tt)
  parsed-Behaves h (delete (access object field at) place) = called-Behaves _ (
      translate_delete-Behaves h (to_access _ _) at place
        (parsed-Behaves h object, parsed-Behaves h field))
  parsed-Behaves h (delete (item_access object parts at) place) = called-Behaves _ (
      translate_delete-Behaves h (to_item _ _) at place
        (parsed-Behaves h object, subscripts-Each h parts))
  parsed-Behaves h (delete _ place) =
      called-Behaves _ (translate_delete-Behaves h to_other place place tt)
  parsed-Behaves h (break_loop place) = called-Behaves _ translate_break-Behaves
  parsed-Behaves h (continue_loop place) = called-Behaves _ translate_continue-Behaves
  parsed-Behaves h (call to_call args v_arg kwargs kw_arg place) = called-Behaves _ (
      translate_call-Behaves h _ _ _ _ place (parsed-Behaves h to_call) (items-Each h args)
        (maybe-May h v_arg) (arguments-Each h kwargs) (maybe-May h kw_arg))
  parsed-Behaves h (access object field place) =
      called-Behaves _
        (translate_access-Behaves place (parsed-Behaves h object) (parsed-Behaves h field))
  parsed-Behaves h (item_access object parts place) =
      called-Behaves _
        (translate_item_access-Behaves _ place (parsed-Behaves h object) (subscripts-Each h parts))
  parsed-Behaves h (operation type operands place) =
      called-Behaves _ (translate_operation-Behaves type _ place (items-Each h operands))
  parsed-Behaves h (assign type (identifier name at) from place) =
      called-Behaves _
        (translate_assignment-Behaves h type (to_identifier name) place tt (parsed-Behaves h from))
  parsed-Behaves h (assign type (access object field at) from place) = called-Behaves _ (
      translate_assignment-Behaves h type (to_access _ _) place
        (parsed-Behaves h object, parsed-Behaves h field) (parsed-Behaves h from))
  parsed-Behaves h (assign type (item_access object parts at) from place) = called-Behaves _ (
      translate_assignment-Behaves h type (to_item _ _) place
        (parsed-Behaves h object, subscripts-Each h parts) (parsed-Behaves h from))
  parsed-Behaves h (assign type _ from place) =
      called-Behaves _
        (translate_assignment-Behaves h type to_other place tt (parsed-Behaves h from))
  parsed-Behaves h (class name parent body place) =
      called-Behaves _
        (translate_class-Behaves h name _ place (maybe-May h parent) (parsed-Behaves h body))
  parsed-Behaves h (to_bool value invert) =
      translate_to_bool-Behaves invert (parsed-Behaves h value)
  parsed-Behaves h (import file renamed expose_all expose place) =
      called-Behaves _
        (translate_import-Behaves h renamed expose_all expose place (parsed-Behaves h file))
  parsed-Behaves h (range start stop inclusive place) =
      called-Behaves _
        (translate_range-Behaves inclusive place (parsed-Behaves h start) (parsed-Behaves h stop))
  parsed-Behaves h (array values) =
      called-Behaves _ (translate_array-Behaves _ (items-Each h values))
  parsed-Behaves h (dictionary entries) =
      called-Behaves _ (translate_dictionary-Behaves _ (entries-Each h entries))

  destructure-Behaves :
      (h : List ℕ → ℕ) (d : Destructure) (register : ℕ)
      → Behaves (translate_destructure h d register)
  destructure-Behaves h nothing register = here-Behaves
  destructure-Behaves h (plain_name name line column) register =
      destructure_name-Behaves h name line column register
  destructure-Behaves h (by_index items rest) register =
      called-Behaves _
        (destructure_index-Behaves _ _ register (inners-Each h items) (rest-May h rest))
  destructure-Behaves h (by_key keys rest) register =
      called-Behaves _ (destructure_key-Behaves _ _ register (keys-Each h keys) (rest-May h rest))

  rest-May : (h : List ℕ → ℕ) (d : Destructure) → May IsInner (rest_of h d)
  rest-May h nothing = tt
  rest-May h (plain_name name line column) = destructure_name-Behaves h name line column
  rest-May h (by_index items rest) = λ register.
      called-Behaves _
        (destructure_index-Behaves _ _ register (inners-Each h items) (rest-May h rest))
  rest-May h (by_key keys rest) = λ register.
      called-Behaves _ (destructure_key-Behaves _ _ register (keys-Each h keys) (rest-May h rest))

  inners-Each : (h : List ℕ → ℕ) (ds : Destructures) → Each IsInner (inners_of h ds)
  inners-Each h no_destructures = tt
  inners-Each h (also d ds) = (destructure-Behaves h d, inners-Each h ds)

  keys-Each : (h : List ℕ → ℕ) (ks : Keys) → Each IsKey (keys_of h ks)
  keys-Each h no_keys = tt
  keys-Each h (key_item (identifier name place) d ks) =
      ((key_name-Behaves h name, destructure-Behaves h d), keys-Each h ks)
  keys-Each h (key_item key d ks) =
      ((key_value-Behaves (parsed-Behaves h key), destructure-Behaves h d), keys-Each h ks)

  items-Each : (h : List ℕ → ℕ) (vs : Items) → Each Behaves (items_of h vs)
  items-Each h no_items = tt
  items-Each h (item v vs) = (parsed-Behaves h v, items-Each h vs)

  maybe-May : (h : List ℕ → ℕ) (v : Maybe) → May Behaves (maybe_of h v)
  maybe-May h absent = tt
  maybe-May h (present v) = parsed-Behaves h v

  declarations-Each : (h : List ℕ → ℕ) (ds : Declarations) → Each Both (declarations_of h ds)
  declarations-Each h no_declarations = tt
  declarations-Each h (declare d from ds) =
      ((parsed-Behaves h from, destructure-Behaves h d 0), declarations-Each h ds)

  arguments-Each : (h : List ℕ → ℕ) (ds : Defaults) → Each IsNamed (named_of h ds)
  arguments-Each h (no_defaults is_null) = tt
  arguments-Each h (default name value ds) = (parsed-Behaves h value, arguments-Each h ds)

  defaults-May : (h : List ℕ → ℕ) (ds : Defaults) → May (Each IsNamed) (defaults_of h ds)
  defaults-May h (no_defaults true) = tt
  defaults-May h (no_defaults false) = tt
  defaults-May h (default name value ds) = (parsed-Behaves h value, arguments-Each h ds)

  conditionals-Each : (h : List ℕ → ℕ) (bs : Conditionals) → Each IsBranch (conditionals_of h bs)
  conditionals-Each h no_conditionals = tt
  conditionals-Each h (branch condition content bs) =
      ((maybe-May h condition, parsed-Behaves h content), conditionals-Each h bs)

  pieces-Each : (h : List ℕ → ℕ) (ps : Pieces) → Each IsPart (pieces_of h ps)
  pieces-Each h no_pieces = tt
  pieces-Each h (text_piece text ps) = (tt, pieces-Each h ps)
  pieces-Each h (value_piece v ps) = (parsed-Behaves h v, pieces-Each h ps)

  parts-Each : (h : List ℕ → ℕ) (ps : Subscript) → Each (May Behaves) (parts_of h ps)
  parts-Each h no_parts = tt
  parts-Each h (part v vs) = (maybe-May h v, parts-Each h vs)

  subscripts-Each : (h : List ℕ → ℕ) (ss : Subscripts) → IsSubscripts (subscripts_of h ss)
  subscripts-Each h no_subscripts = tt
  subscripts-Each h (subscript ps ss) = (parts-Each h ps, subscripts-Each h ss)

  entries-Each : (h : List ℕ → ℕ) (es : Entries) → Each Both (entries_of h es)
  entries-Each h no_entries = tt
  entries-Each h (entry key value es) =
      ((parsed-Behaves h key, parsed-Behaves h value), entries-Each h es)
