-- ===== src/Text/Utf8.antt =====
-- utf8_encode of src/parser/string/string.c; decode_utf8, char_chr and char_ord of
-- src/runtime/objects/string/string.c. Shifts are products and quotients by powers of 2, `& | ==`
-- are those of the source, and `byte` is the conversion to `char`.
pub mod Laws
use chloride.Base.{
  ℕ, zero, suc, ◌+◌, ◌*◌, ◌/◌, ◌%◌, bit_and, bit_or, Bool, true, false, ◌&&◌, Option, none, some,
  List, [], ◌∷◌, ltb, leb, ◌==◌, if◌then◌else◌, length, get_or,
}

unfoldable pub byte : ℕ → ℕ
byte n = n % 256

-- the bytes that utf8_encode writes; none for a number that is no code point
unfoldable pub utf8_encode : ℕ → List ℕ
unfolding byte
utf8_encode codepoint =
    if leb codepoint 0x7F
    then byte codepoint ∷ []
    else if leb codepoint 0x7FF
    then byte (bit_or 0xC0 (codepoint / 64)) ∷ byte (bit_or 0x80 (bit_and codepoint 0x3F)) ∷ []
    else if leb codepoint 0xFFFF
    then byte (bit_or 0xE0 (codepoint / 4096))
      ∷ byte (bit_or 0x80 (bit_and (codepoint / 64) 0x3F))
      ∷ byte (bit_or 0x80 (bit_and codepoint 0x3F))
      ∷ []
    else if leb codepoint 0x10FFFF
    then byte (bit_or 0xF0 (codepoint / 262144))
      ∷ byte (bit_or 0x80 (bit_and (codepoint / 4096) 0x3F))
      ∷ byte (bit_or 0x80 (bit_and (codepoint / 64) 0x3F))
      ∷ byte (bit_or 0x80 (bit_and codepoint 0x3F))
      ∷ []
    else []

-- char_chr; none for its NULL
unfoldable pub char_chr : ℕ → Option (List ℕ)
unfolding byte
char_chr codepoint =
    if ltb 0x10FFFF codepoint
    then none
    else some (
        if leb codepoint 0x7F
        then byte codepoint ∷ []
        else if leb codepoint 0x7FF
        then byte (bit_or 0xC0 (codepoint / 64)) ∷ byte (bit_or 0x80 (bit_and codepoint 0x3F)) ∷ []
        else if leb codepoint 0xFFFF
        then byte (bit_or 0xE0 (codepoint / 4096))
          ∷ byte (bit_or 0x80 (bit_and (codepoint / 64) 0x3F))
          ∷ byte (bit_or 0x80 (bit_and codepoint 0x3F))
          ∷ []
        else byte (bit_or 0xF0 (codepoint / 262144))
          ∷ byte (bit_or 0x80 (bit_and (codepoint / 4096) 0x3F))
          ∷ byte (bit_or 0x80 (bit_and (codepoint / 64) 0x3F))
          ∷ byte (bit_or 0x80 (bit_and codepoint 0x3F))
          ∷ [])

-- `((a & mask) << 6) | (b & 0x3F)` and its longer kin, as the two decoders write them
unfoldable pub join2 : ℕ → ℕ → ℕ
join2 a b = bit_or (bit_and a 0x1F * 64) (bit_and b 0x3F)

unfoldable pub join3 : ℕ → ℕ → ℕ → ℕ
join3 a b c = bit_or (bit_or (bit_and a 0x0F * 4096) (bit_and b 0x3F * 64)) (bit_and c 0x3F)

unfoldable pub join4 : ℕ → ℕ → ℕ → ℕ → ℕ
join4 a b c d =
    bit_or (bit_or (bit_or (bit_and a 0x07 * 262144) (bit_and b 0x3F * 4096)) (bit_and c 0x3F * 64))
      (bit_and d 0x3F)

-- decode_utf8: the bytes consumed and the code point; none for its 0
unfoldable pub decode_utf8 : List ℕ → Option (ℕ × ℕ)
unfolding join2 join3 join4
decode_utf8 [] = none
decode_utf8 (a ∷ s) =
    if ltb a 0x80
    then some (1, a)
    else if bit_and a 0xE0 == 0xC0 && leb 1 (length s)
    then some (2, join2 a (get_or s 0 0))
    else if bit_and a 0xF0 == 0xE0 && leb 2 (length s)
    then some (3, join3 a (get_or s 0 0) (get_or s 1 0))
    else if bit_and a 0xF8 == 0xF0 && leb 3 (length s)
    then some (4, join4 a (get_or s 0 0) (get_or s 1 0) (get_or s 2 0))
    else none

-- char_ord; none where it leaves `*valid` false
unfoldable pub char_ord : List ℕ → Option ℕ
unfolding join2 join3 join4
char_ord [] = none
char_ord (a ∷ s) =
    if ltb 3 (length s)
    then none
    else if ltb a 0x80 && length s == 0
    then some a
    else if a / 32 == 0x6 && length s == 1
    then some (join2 a (get_or s 0 0))
    else if a / 16 == 0xE && length s == 2
    then some (join3 a (get_or s 0 0) (get_or s 1 0))
    else if a / 8 == 0x1E && length s == 3
    then some (join4 a (get_or s 0 0) (get_or s 1 0) (get_or s 2 0))
    else none
