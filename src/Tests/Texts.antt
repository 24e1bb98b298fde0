-- ===== src/Tests/Texts.antt =====
-- Runs of the string literal code of src/parser/string/string.c and of the UTF-8 code of
-- src/runtime/objects/string/string.c.
use mathlib.Core.Option
use chloride.Base.{true, none, some, [], ◌∷◌, ◌≡◌, refl, inl, inr, arith, length, ◌≤◌}
use chloride.Base.Run.{ok, ◌>>=◌, Returns}
use chloride.Text.Utf8.{byte, utf8_encode, char_chr, char_ord, decode_utf8}
use chloride.Text.Utf8.Laws.{char_chr-utf8, char_ord-char_chr}
use chloride.Text.Unquote.{
  hex_digit, hex_loop, parse_hex4, join_units, second_unit, unicode_escape, escape, decode, closing,
  literal_body, unquote,
}
use chloride.Text.Unquote.Bounds.{FitsBody, unquote-FitsBody}
use chloride.Text.Quote.{unit_escape, simple, units, quote_step, quote_loop, c_quote_string}
use chloride.Text.Quote.Bounds.{c_quote_string-length}
use chloride.Text.Quote.Chunks.{IsScalar}
use chloride.Text.Quote.RoundTrip.{text, unquote-c_quote_string}

program : Unit {0}
unfolding byte utf8_encode char_chr char_ord decode_utf8 hex_digit hex_loop parse_hex4 join_units
    second_unit unicode_escape escape decode closing literal_body unquote unit_escape simple units
    quote_step quote_loop c_quote_string
program = tt

-- a quote, an escape and a surrogate pair
literal_read : unquote (b'"' ∷ 92 ∷ b'n' ∷ b'a' ∷ b'"' ∷ []) b'"' true ≡ ok (some (10 ∷ b'a' ∷ []))
unfolding program
literal_read = refl

-- an unknown escape in a quoted literal becomes the quote
unknown_escape : unquote (b'"' ∷ 92 ∷ b'x' ∷ b'"' ∷ []) b'"' true ≡ ok (some (b'"' ∷ []))
unfolding program
unknown_escape = refl

unclosed_literal : unquote (b'"' ∷ b'a' ∷ 92 ∷ b'"' ∷ []) b'"' true ≡ ok none
unfolding program
unclosed_literal = refl

-- a stray byte is printed as the code point of its value
stray_byte : c_quote_string (0xFF ∷ []) ≡ ok (34 ∷ 92 ∷ b'u' ∷ 48 ∷ 48 ∷ 70 ∷ 70 ∷ 34 ∷ [])
unfolding program
stray_byte = refl

char_chr-utf8_example : char_chr 0x1F600 ≡ some (0xF0 ∷ 0x9F ∷ 0x98 ∷ 0x80 ∷ [])
char_chr-utf8_example = char_chr-utf8 0x1F600

char_ord-char_chr_example : Option.bind (char_chr 0xE9) char_ord ≡ some 0xE9
char_ord-char_chr_example = char_ord-char_chr 0xE9

unquote-FitsBody_example :
    Returns
      (unquote (b'"' ∷ 92 ∷ b'n' ∷ b'"' ∷ []) b'"' true)
      (FitsBody (literal_body (b'"' ∷ 92 ∷ b'n' ∷ b'"' ∷ []) b'"' true))
unquote-FitsBody_example = unquote-FitsBody (b'"' ∷ 92 ∷ b'n' ∷ b'"' ∷ []) b'"' true

face : IsScalar 0x1F600
face = record { bounded = omega arith; no_surrogate = inr (omega arith) }

line_feed : IsScalar 10
line_feed = record { bounded = omega arith; no_surrogate = inl (omega arith) }

unquote-c_quote_string_example :
    (c_quote_string (text (10 ∷ 0x1F600 ∷ [])) >>= λ printed. unquote printed 34 true)
    ≡ ok (some (text (10 ∷ 0x1F600 ∷ [])))
unquote-c_quote_string_example = unquote-c_quote_string (10 ∷ 0x1F600 ∷ []) (line_feed, (face, tt))

-- a stray byte behind a letter
c_quote_string-length_example : Returns (c_quote_string (b'a' ∷ 0xFF ∷ [])) λ out. length out ≤ 26
c_quote_string-length_example = c_quote_string-length (b'a' ∷ 0xFF ∷ [])
