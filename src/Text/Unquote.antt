-- ===== src/Text/Unquote.antt =====
-- parse_hex4 and unquote of src/parser/string/string.c, which read a string literal. `none` is the
-- NULL that the C function returns. The input is the bytes before its closing 0, none of them 0.
-- The decoding loop takes fuel, and running out of it is a fault.
pub mod Bounds
use chloride.Base.{
  ℕ, zero, suc, ◌+◌, ◌-◌, ◌*◌, ◌%◌, bit_or, Bool, true, false, ◌&&◌, Option, none, some, List, [],
  ◌∷◌, ◌++◌, ltb, leb, ◌==◌, if◌then◌else◌, length, get_or, drop,
}
use chloride.Base.Run.{Run, ok, fault, exit_failure}
use chloride.Text.Utf8.{utf8_encode}

abbrev pub backslash : ℕ
backslash = 92

-- the value of a hexadecimal digit, by the three ranges of parse_hex4
unfoldable pub hex_digit : ℕ → Option ℕ
hex_digit c =
    if leb b'0' c && leb c b'9'
    then some (c - b'0')
    else if leb b'a' c && leb c b'f'
    then some (c - b'a' + 10)
    else if leb b'A' c && leb c b'F'
    then some (c - b'A' + 10)
    else none

-- the loop of parse_hex4; the 0 behind the last byte is no digit
unfoldable pub hex_loop : ℕ → List ℕ → ℕ → Option ℕ
hex_loop zero cs val = some val
hex_loop (suc rounds) [] val = none
hex_loop (suc rounds) (c ∷ cs) val = elim (hex_digit c) [
  | none ↦ none
  | some d ↦ hex_loop rounds cs (bit_or (val * 16 % 65536) d)
]

unfoldable pub parse_hex4 : List ℕ → Option ℕ
parse_hex4 cs = hex_loop 4 cs 0

-- `code_unit1 >= 0xD800 && code_unit1 <= 0xDBFF`, and the range of the second unit
abbrev pub is_high : ℕ → Bool
is_high u = leb 0xD800 u && leb u 0xDBFF

abbrev pub is_low : ℕ → Bool
is_low u = leb 0xDC00 u && leb u 0xDFFF

-- the two units of a surrogate pair
unfoldable pub join_units : ℕ → ℕ → ℕ
join_units u v = 0x10000 + bit_or ((u - 0xD800) * 1024) (v - 0xDC00)

-- the second unit, `\uXXXX` at `src`
unfoldable pub second_unit : ℕ → List ℕ → Option (List ℕ × List ℕ)
second_unit u src =
    if leb 6 (length src) && get_or src 0 0 == backslash && get_or src 1 0 == b'u'
    then elim (parse_hex4 (drop 2 src)) [
      | none ↦ none
      | some v ↦ if is_low v then some (utf8_encode (join_units u v), drop 6 src) else none
    ]
    else none

-- case 'u', on the bytes behind the `u`: what is written, and what is left
unfoldable pub unicode_escape : List ℕ → Option (List ℕ × List ℕ)
unicode_escape src = if ltb (length src) 4 then none else elim (parse_hex4 src) [
  | none ↦ none
  | some u ↦
      if is_high u
      then second_unit u (drop 4 src)
      else if is_low u
      then none
      else some (utf8_encode u, drop 4 src)
]

-- the switch on the byte behind a backslash; an unknown one gives the quote if there is one
unfoldable pub escape : ℕ → Bool → List ℕ → Option (List ℕ × List ℕ)
escape quote is_quoted [] = none
escape quote is_quoted (c ∷ src) =
    if c == backslash
    then some (backslash ∷ [], src)
    else if c == b'/'
    then some (b'/' ∷ [], src)
    else if c == b'b'
    then some (8 ∷ [], src)
    else if c == b'f'
    then some (12 ∷ [], src)
    else if c == b'n'
    then some (10 ∷ [], src)
    else if c == b'r'
    then some (13 ∷ [], src)
    else if c == b't'
    then some (9 ∷ [], src)
    else if c == b'u'
    then unicode_escape src
    else if is_quoted
    then some (quote ∷ [], src)
    else none

abbrev pub written : List ℕ → Run (Option (List ℕ)) → Run (Option (List ℕ))
written out (ok (some rest)) = ok (some (out ++ rest))
written out (ok none) = ok none
written out exit_failure = exit_failure
written out fault = fault

-- `while (src < src_end)`: the bytes written
unfoldable pub decode : ℕ → ℕ → Bool → List ℕ → Run (Option (List ℕ))
decode fuel quote is_quoted [] = ok (some [])
decode zero quote is_quoted (c ∷ src) = fault
decode (suc fuel) quote is_quoted (c ∷ src) = elim (c == backslash) [
  | false ↦ written (c ∷ []) (decode fuel quote is_quoted src)
  | true ↦ elim (escape quote is_quoted src) [
    | none ↦ ok none
    | some (out, rest) ↦ written out (decode fuel quote is_quoted rest)
  ]
]

-- the search for the closing quote: the bytes before it
unfoldable pub closing : ℕ → List ℕ → Option (List ℕ)
closing quote [] = none
closing quote (c ∷ []) = if c == quote then some [] else none
closing quote (c ∷ d ∷ p) =
    let skip = closing quote p in
    let next = closing quote (d ∷ p) in
    if c == quote
    then some []
    else if c == backslash
    then elim skip [ none ↦ none | some body ↦ some (c ∷ d ∷ body) ]
    else elim next [ none ↦ none | some body ↦ some (c ∷ body) ]

-- the bytes from `src` to `src_end`
unfoldable pub literal_body : List ℕ → ℕ → Bool → Option (List ℕ)
literal_body input quote false = some input
literal_body [] quote true = none
literal_body (c ∷ p) quote true = if c == quote then closing quote p else none

-- unquote, with one round of the loop for each byte of the body
unfoldable pub unquote : List ℕ → ℕ → Bool → Run (Option (List ℕ))
unquote input quote is_quoted = elim (literal_body input quote is_quoted) [
  | none ↦ ok none
  | some body ↦ decode (length body) quote is_quoted body
]
