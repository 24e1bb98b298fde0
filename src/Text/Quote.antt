-- ===== src/Text/Quote.antt =====
-- c_quote_string of src/runtime/objects/string/string.c, which prints a string as a literal.
-- `isprint` is that of the C locale; `sprintf("\\u%04X")` is met only below 65536, where it prints
-- four digits. The loop takes fuel, and running out of it is a fault.
pub mod Chunks
pub mod Decoded
pub mod Closing
pub mod Bounds
pub mod RoundTrip
use chloride.Base.{
  ℕ, zero, suc, ◌+◌, ◌-◌, ◌/◌, ◌%◌, bit_and, Bool, ◌&&◌, Option, none, some, List, [], ◌∷◌, ◌++◌,
  ltb, leb, ◌==◌, if◌then◌else◌, length, drop,
}
use chloride.Base.Run.{Run, ok, fault, ◌>>=◌}
use chloride.Text.Unquote.{backslash}
use chloride.Text.Utf8.{decode_utf8}

abbrev pub double_quote : ℕ
double_quote = 34

abbrev pub is_print : ℕ → Bool
is_print c = leb 0x20 c && leb c 0x7E

abbrev pub hex_char : ℕ → ℕ
hex_char d = if ltb d 10 then 48 + d else 55 + d

-- `sprintf(&out[j], "\\u%04X", v)`
unfoldable pub unit_escape : ℕ → List ℕ
unit_escape v =
    backslash
    ∷ b'u'
    ∷ hex_char (v / 4096 % 16)
    ∷ hex_char (v / 256 % 16)
    ∷ hex_char (v / 16 % 16)
    ∷ hex_char (v % 16)
    ∷ []

-- the cases of the switch that need one byte alone, and the printable bytes
unfoldable pub simple : ℕ → Option (List ℕ)
simple c =
    if c == 10
    then some (backslash ∷ b'n' ∷ [])
    else if c == 9
    then some (backslash ∷ b't' ∷ [])
    else if c == 13
    then some (backslash ∷ b'r' ∷ [])
    else if c == backslash
    then some (backslash ∷ backslash ∷ [])
    else if c == double_quote
    then some (backslash ∷ double_quote ∷ [])
    else if is_print c && ltb c 0x80
    then some (c ∷ [])
    else none

-- a code point as one unit, or as a surrogate pair
unfoldable pub units : ℕ → List ℕ
units cp =
    if leb cp 0xFFFF
    then unit_escape cp
    else unit_escape (0xD800 + (cp - 0x10000) / 1024)
      ++ unit_escape (0xDC00 + bit_and (cp - 0x10000) 0x3FF)

-- one round of the loop: what is written, and how many bytes are consumed
unfoldable pub quote_step : List ℕ → List ℕ × ℕ
quote_step [] = ([], 0)
quote_step (c ∷ s) = elim (simple c) [
  | some out ↦ (out, 1)
  | none ↦ elim (decode_utf8 (c ∷ s)) [
    | none ↦ (unit_escape c, 1)
    | some (consumed, cp) ↦ (units cp, consumed)
  ]
]

unfoldable pub quote_loop : ℕ → List ℕ → Run (List ℕ)
quote_loop fuel [] = ok []
quote_loop zero (c ∷ s) = fault
quote_loop (suc fuel) (c ∷ s) =
    let (out, consumed) = quote_step (c ∷ s) in
    quote_loop fuel (drop consumed (c ∷ s)) >>= λ rest. ok (out ++ rest)

unfoldable pub c_quote_string : List ℕ → Run (List ℕ)
c_quote_string s = quote_loop (length s) s >>= λ body. ok (double_quote ∷ body ++ double_quote ∷ [])
