-- ===== src/Text/Quote/Chunks.antt =====
-- What c_quote_string writes for one code point, and what unquote makes of it.
use chloride.Base.{
  ℕ, suc, ◌+◌, ◌*◌, ◌/◌, ◌%◌, ◌≤◌, ◌<◌, ◌≡◌, ◌∙◌, ◌⊎◌, inl, inr, none, some, List, ◌∷◌, ◌++◌, arith,
  ltb, Bool-cases, Option-cases, length, drop,
}
use chloride.Base.Bits.{bit_or_fields}
use chloride.Text.Quote.{hex_char, unit_escape, simple, units, quote_step}
use chloride.Text.Unquote.{hex_digit, hex_loop, parse_hex4}
use chloride.Text.Utf8.{decode_utf8}
use chloride.Text.Utf8.Laws.{utf8, code_points, decode_utf8-utf8}

-- a code point that is no surrogate
pub record IsScalar (cp : ℕ) : Type 0 where
  pub bounded : cp < code_points
  pub no_surrogate : (cp < 0xD800) ⊎ (0xDFFF < cp)

hex_digit-hex_char : (d : ℕ) → d < 16 → hex_digit (hex_char d) ≡ some d
unfolding hex_digit
hex_digit-hex_char d h = ground arith

hex_loop-hex_char :
    (rounds : ℕ) (cs : List ℕ) (val d : ℕ)
    → val < 4096
    → d < 16
    → hex_loop (suc rounds) (hex_char d ∷ cs) val ≡ hex_loop rounds cs (val * 16 + d)
unfolding hex_loop
hex_loop-hex_char rounds cs val d small digit =
    let shifted : val * 16 % 65536 ≡ val * 16 = omega arith in
    let joined = bit_or_fields 4 val d digit in
    rw (hex_digit-hex_char d digit, hex_loop, shifted, joined)

parse_hex4-hex_chars :
    (a b c d : ℕ) (rest : List ℕ)
    → a < 16
    → b < 16
    → c < 16
    → d < 16
    → parse_hex4 (hex_char a ∷ hex_char b ∷ hex_char c ∷ hex_char d ∷ rest)
      ≡ some (((a * 16 + b) * 16 + c) * 16 + d)
unfolding parse_hex4 hex_loop
parse_hex4-hex_chars a b c d rest ha hb hc hd =
    hex_loop-hex_char 3 (hex_char b ∷ hex_char c ∷ hex_char d ∷ rest) 0 a (omega arith) ha
    ∙ hex_loop-hex_char 2 (hex_char c ∷ hex_char d ∷ rest) (0 * 16 + a) b (omega arith) hb
    ∙ hex_loop-hex_char 1 (hex_char d ∷ rest) ((0 * 16 + a) * 16 + b) c (omega arith) hc
    ∙ hex_loop-hex_char 0 rest (((0 * 16 + a) * 16 + b) * 16 + c) d (omega arith) hd
    ∙ ground arith

-- parse_hex4 reads back what the format `%04X` prints
pub parse_hex4-unit :
    (v : ℕ) (rest : List ℕ) → v < 65536 → parse_hex4 (drop 2 (unit_escape v) ++ rest) ≡ some v
unfolding unit_escape
parse_hex4-unit v rest h =
    parse_hex4-hex_chars (v / 4096 % 16) (v / 256 % 16) (v / 16 % 16) (v % 16) rest (omega arith)
      (omega arith) (omega arith) (omega arith)
    ∙ ground arith

abbrev pub chunk : ℕ → List ℕ
chunk cp = elim (simple cp) [ some out ↦ out | none ↦ units cp ]

simple-eq-none : (c : ℕ) → 128 ≤ c → simple c ≡ none
unfolding simple
simple-eq-none c h = ground arith

chunk-high : (cp : ℕ) → 128 ≤ cp → chunk cp ≡ units cp
chunk-high cp h = rw (simple-eq-none cp h, chunk)

step_high :
    (lead : ℕ) (s : List ℕ) (cp consumed : ℕ)
    → 128 ≤ lead
    → 128 ≤ cp
    → decode_utf8 (lead ∷ s) ≡ some (consumed, cp)
    → quote_step (lead ∷ s) ≡ (chunk cp, consumed)
unfolding quote_step
step_high lead s cp consumed high high' decoded =
    rw (simple-eq-none lead high, quote_step, decoded, chunk-high cp high')

step_low :
    (cp : ℕ) (s : List ℕ)
    → decode_utf8 (cp ∷ s) ≡ some (1, cp)
    → quote_step (cp ∷ s) ≡ (chunk cp, 1)
unfolding quote_step
step_low cp s decoded = elim (Option-cases (simple cp)) [
  | inl e ↦ rw (e, quote_step, decoded, chunk)
  | inr (out, e) ↦ rw (e, quote_step, chunk)
]

-- one round of c_quote_string on the bytes of a code point writes its chunk and consumes them
pub quote_step-utf8 :
    (cp : ℕ) (rest : List ℕ)
    → cp < code_points
    → quote_step (utf8 cp ++ rest) ≡ (chunk cp, length (utf8 cp))
quote_step-utf8 cp rest h =
    let decoded = decode_utf8-utf8 cp rest h in
    elim (Bool-cases (ltb cp 128)) [
      | inl one ↦ rw one (step_low cp rest (rw one at decoded))
      | inr more ↦ elim (Bool-cases (ltb cp 2048)) [
        | inl two ↦
            rw (more, two)
              (step_high (192 + cp / 64) _ cp 2 (omega arith) (ground arith)
                (rw (more, two) at decoded))
        | inr more' ↦ elim (Bool-cases (ltb cp 65536)) [
          | inl three ↦
              rw (more, more', three)
                (step_high (224 + cp / 4096) _ cp 3 (omega arith) (ground arith)
                  (rw (more, more', three) at decoded))
          | inr four ↦
              rw (more, more', four)
                (step_high (240 + cp / 262144) _ cp 4 (omega arith) (ground arith)
                  (rw (more, more', four) at decoded))
        ]
      ]
    ]
