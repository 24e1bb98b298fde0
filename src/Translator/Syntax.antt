-- ===== src/Translator/Syntax.antt =====
-- The parsed program, ParsedValue of src/parser/parser.h and the structures of the parser's headers
-- that its `data` points to. A `char *` name is its bytes, a NULL pointer `absent` or `none`, a DArray
-- of parsed values a list type of its own.
use chloride.Base.{ℕ, Bool, Option, List}

-- where a construct stands in its file: line, column and length
pub record Place : Type 0 where
  pub line : ℕ
  pub column : ℕ
  pub length : ℕ

-- ArTokenType, as far as the translator tells its values apart
pub data Token : Type 0 where
  token_and token_or token_plus token_minus token_star token_caret token_slash token_floordiv :
      Token
  token_modulo token_eq token_ne token_lt token_gt token_le token_ge token_not_in token_in : Token
  token_assign token_plus_assign token_minus_assign token_star_assign token_caret_assign : Token
  token_slash_assign token_floordiv_assign token_modulo_assign other_token : Token

-- what the GMP calls of translate_parsed_number answer for a number: mpq_to_int64, mpz_export of the
-- numerator and of the denominator, and the two comparisons
pub record Number : Type 0 where
  pub int64 : Option ℕ
  pub numerator : List ℕ
  pub denominator : List ℕ
  pub is_int : Bool
  pub is_negative : Bool

-- ParsedImportExpose
pub record Expose : Type 0 where
  pub identifier : List ℕ
  pub renamed : Option (List ℕ)

mutual
  pub data Parsed : Type 0 where
    string : List ℕ → Parsed
    declaration : Declarations → Parsed
    number : Number → Parsed
    null : Parsed
    boolean : Bool → Parsed
    negation : Parsed → Parsed
    function :
        (name : List ℕ)
        → (parameters : List (List ℕ)) → Defaults
        → (v_parameter : Option (List ℕ)) → (kw_parameter : Option (List ℕ)) → (body : Parsed)
        → Parsed
    identifier : (name : List ℕ) → Place → Parsed
    if_chain : Conditionals → Parsed
    for_loop : Destructure → (iterator : Parsed) → (content : Parsed) → Parsed
    try_catch :
        (try_body : Parsed)
        → (exception_type : Maybe) → (exception_name : Option (List ℕ)) → (catch_body : Parsed)
        → Parsed
    while_loop : (condition : Parsed) → (content : Parsed) → Parsed
    template : (templater : Maybe) → Pieces → Parsed
    do_wrap : Items → Parsed
    throw : (value : Parsed) → Place → Parsed
    conditional : (condition : Parsed) → (true_body : Parsed) → (false_body : Parsed) → Parsed
    return_value : (value : Parsed) → Place → Parsed
    delete : (value : Parsed) → Place → Parsed
    break_loop : Place → Parsed
    continue_loop : Place → Parsed
    call :
        (to_call : Parsed)
        → (args : Items) → (v_arg : Maybe) → (kwargs : Defaults) → (kw_arg : Maybe) → Place
        → Parsed
    access : (to_access : Parsed) → (field : Parsed) → Place → Parsed
    item_access : (to_access : Parsed) → Subscripts → Place → Parsed
    operation : Token → Items → Place → Parsed
    assign : Token → (to : Parsed) → (from : Parsed) → Place → Parsed
    class : (name : List ℕ) → (parent : Maybe) → (body : Parsed) → Place → Parsed
    to_bool : (value : Parsed) → (invert : Bool) → Parsed
    import :
        (file : Parsed)
        → (renamed : Option (List ℕ)) → (expose_all : Bool) → (expose : Option (List Expose))
        → Place
        → Parsed
    range : (start : Parsed) → (stop : Parsed) → (inclusive : Bool) → Place → Parsed
    array : Items → Parsed
    dictionary : Entries → Parsed

  -- a pointer to a parsed value
  pub data Maybe : Type 0 where
    absent : Maybe
    present : Parsed → Maybe

  pub data Items : Type 0 where
    no_items : Items
    item : Parsed → Items → Items

  -- ParsedSingleDeclaration
  pub data Declarations : Type 0 where
    no_declarations : Declarations
    declare : Destructure → (from : Parsed) → Declarations → Declarations

  -- struct default_value_parameter, of a function and of a call; `none` is a NULL list
  pub data Defaults : Type 0 where
    no_defaults : (is_null : Bool) → Defaults
    default : (name : List ℕ) → (value : Parsed) → Defaults → Defaults

  -- ParsedConditional
  pub data Conditionals : Type 0 where
    no_conditionals : Conditionals
    branch : (condition : Maybe) → (content : Parsed) → Conditionals → Conditionals

  -- TemplateValue
  pub data Pieces : Type 0 where
    no_pieces : Pieces
    text_piece : List ℕ → Pieces → Pieces
    value_piece : Parsed → Pieces → Pieces

  -- the parts of one subscript, and the subscripts
  pub data Subscript : Type 0 where
    no_parts : Subscript
    part : Maybe → Subscript → Subscript

  pub data Subscripts : Type 0 where
    no_subscripts : Subscripts
    subscript : Subscript → Subscripts → Subscripts

  -- ParsedDictionaryEntry
  pub data Entries : Type 0 where
    no_entries : Entries
    entry : (key : Parsed) → (value : Parsed) → Entries → Entries

  -- Destructure; `nothing` is a NULL pointer
  pub data Destructure : Type 0 where
    nothing : Destructure
    plain_name : List ℕ → (line : ℕ) → (column : ℕ) → Destructure
    by_index : Destructures → (rest : Destructure) → Destructure
    by_key : Keys → (rest : Destructure) → Destructure

  pub data Destructures : Type 0 where
    no_destructures : Destructures
    also : Destructure → Destructures → Destructures

  -- DestructureKeyItem
  pub data Keys : Type 0 where
    no_keys : Keys
    key_item : (key : Parsed) → Destructure → Keys → Keys
