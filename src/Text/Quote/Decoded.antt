-- ===== src/Text/Quote/Decoded.antt =====
-- What the loop of unquote (src/parser/string/string.c) makes of one chunk that c_quote_string
-- (src/runtime/objects/string/string.c) wrote.
use chloride.Base.{
  ℕ, suc, ◌+◌, ◌-◌, ◌/◌, ◌%◌, ◌≤◌, ◌<◌, bit_and, ◌≡◌, refl, ap, ◌∙◌, inl, inr, true, false, ◌&&◌,
  none, some, List, [], ◌∷◌, ◌++◌, arith, ltb, leb, ◌==◌, ==_iff, if◌then◌else◌, Bool-cases,
  Option-cases, length, drop,
}
use chloride.Base.Bits.{bit_and_mask, bit_or_fields}
use chloride.Text.Quote.{is_print, double_quote, unit_escape, simple, units}
use chloride.Text.Quote.Chunks.{IsScalar, chunk, parse_hex4-unit}
use chloride.Text.Unquote.{
  backslash, is_high, is_low, join_units, second_unit, unicode_escape, escape, written, decode,
}
use chloride.Text.Utf8.{utf8_encode}
use chloride.Text.Utf8.Laws.{utf8, code_points, utf8_encode-utf8}

encoded : (cp : ℕ) → cp < code_points → utf8_encode cp ≡ utf8 cp
encoded cp h = utf8_encode-utf8 cp ∙ ground arith

-- unicode_escape on one printed unit that is no surrogate
unicode_escape-unit :
    (cp : ℕ) (rest : List ℕ)
    → cp < 65536
    → is_high cp ≡ false
    → is_low cp ≡ false
    → unicode_escape (drop 2 (unit_escape cp) ++ rest) ≡ some (utf8_encode cp, rest)
unfolding unicode_escape unit_escape
unicode_escape-unit cp rest h high low =
    let long : ltb (suc (suc (suc (suc (length rest))))) 4 ≡ false = ground arith in
    rw (long, parse_hex4-unit cp rest h, unicode_escape, high, low)

second_unit-unit :
    (u v : ℕ) (rest : List ℕ)
    → v < 65536
    → is_low v ≡ true
    → second_unit u (unit_escape v ++ rest) ≡ some (utf8_encode (join_units u v), rest)
unfolding second_unit unit_escape
second_unit-unit u v rest h low =
    let long : leb 6 (suc (suc (suc (suc (suc (suc (length rest))))))) ≡ true = ground arith in
    rw (long, parse_hex4-unit v rest h, second_unit, low)

-- and on the two units of a surrogate pair
unicode_escape-pair :
    (u v : ℕ) (rest : List ℕ)
    → u < 65536
    → v < 65536
    → is_high u ≡ true
    → is_low v ≡ true
    → unicode_escape (drop 2 (unit_escape u) ++ unit_escape v ++ rest)
      ≡ some (utf8_encode (join_units u v), rest)
unfolding unicode_escape unit_escape
unicode_escape-pair u v rest h h' high low =
    let long : ltb (suc (suc (suc (suc (length (unit_escape v ++ rest)))))) 4 ≡ false =
      ground arith in
    rw (long, parse_hex4-unit u (unit_escape v ++ rest) h, unicode_escape, high)
      (second_unit-unit u v rest h' low)

abbrev high_unit : ℕ → ℕ
high_unit cp = 0xD800 + (cp - 0x10000) / 1024

abbrev low_unit : ℕ → ℕ
low_unit cp = 0xDC00 + bit_and (cp - 0x10000) 0x3FF

join_units-units :
    (cp : ℕ) → 0x10000 ≤ cp → cp < code_points → join_units (high_unit cp) (low_unit cp) ≡ cp
unfolding join_units
join_units-units cp lo hi =
    let low : bit_and (cp - 0x10000) 0x3FF ≡ (cp - 0x10000) % 1024 =
      bit_and_mask 10 (cp - 0x10000) in
    let fields = bit_or_fields 10 ((cp - 0x10000) / 1024) ((cp - 0x10000) % 1024) (omega arith) in
    let high_part : high_unit cp - 0xD800 ≡ (cp - 0x10000) / 1024 = omega arith in
    let low_part : 0xDC00 + (cp - 0x10000) % 1024 - 0xDC00 ≡ (cp - 0x10000) % 1024 = omega arith in
    rw (low, high_part, low_part, fields) (omega arith)

decode_unicode :
    (fuel : ℕ) (src out rest : List ℕ)
    → unicode_escape src ≡ some (out, rest)
    → decode (suc fuel) double_quote true (backslash ∷ b'u' ∷ src)
      ≡ written out (decode fuel double_quote true rest)
unfolding decode escape
decode_unicode fuel src out rest e = rw (e, decode, escape)

-- one round of unquote on what was printed for a scalar with no short form writes its bytes
decode-units :
    (fuel cp : ℕ) (rest : List ℕ)
    → IsScalar cp
    → decode (suc fuel) double_quote true (units cp ++ rest)
      ≡ written (utf8 cp) (decode fuel double_quote true rest)
unfolding units unit_escape
decode-units fuel cp rest s = elim (Bool-cases (leb cp 0xFFFF)) [
  | inl one ↦
      let small : cp < 65536 = ground arith in
      rw one (
        decode_unicode fuel (drop 2 (unit_escape cp) ++ rest) (utf8_encode cp) rest (
          unicode_escape-unit cp rest small (ground (arith, s.no_surrogate))
            (ground (arith, s.no_surrogate)))
        ∙ ap (λ out. written out (decode fuel double_quote true rest)) (encoded cp s.bounded))
  | inr two ↦
      let big : 65536 ≤ cp = ground arith in
      let low : bit_and (cp - 0x10000) 0x3FF ≡ (cp - 0x10000) % 1024 =
        bit_and_mask 10 (cp - 0x10000) in
      rw two (
        decode_unicode fuel
          (drop 2 (unit_escape (high_unit cp)) ++ unit_escape (low_unit cp) ++ rest)
          (utf8_encode (join_units (high_unit cp) (low_unit cp))) rest
          (unicode_escape-pair (high_unit cp) (low_unit cp) rest (omega (arith, s.bounded))
            (omega arith) (ground (arith, s.bounded)) (ground arith))
        ∙ ap (λ out. written out (decode fuel double_quote true rest))
            (ap utf8_encode (join_units-units cp big s.bounded) ∙ encoded cp s.bounded))
]

-- what decode-simple needs of each test in `simple`
short_case :
    (fuel cp k : ℕ) (lit out rest : List ℕ)
    → (cp == k) ≡ true
    → some lit ≡ some out
    → decode (suc fuel) double_quote true (lit ++ rest)
      ≡ written (k ∷ []) (decode fuel double_quote true rest)
    → decode (suc fuel) double_quote true (out ++ rest)
      ≡ written (cp ∷ []) (decode fuel double_quote true rest)
short_case fuel cp k lit out rest t e d =
    let same : lit ≡ out = cc in rw ((==_iff cp k).0 t, ← same) d

decode-simple :
    (fuel cp : ℕ) (out rest : List ℕ)
    → simple cp ≡ some out
    → decode (suc fuel) double_quote true (out ++ rest)
      ≡ written (cp ∷ []) (decode fuel double_quote true rest)
unfolding simple decode escape
decode-simple fuel cp out rest e = elim (Bool-cases (cp == 10)) [
  | inl t ↦ short_case fuel cp 10 (backslash ∷ b'n' ∷ []) out rest t (rw t at e) refl
  | inr a ↦ elim (Bool-cases (cp == 9)) [
    | inl t ↦ short_case fuel cp 9 (backslash ∷ b't' ∷ []) out rest t (rw (a, t) at e) refl
    | inr b ↦ elim (Bool-cases (cp == 13)) [
      | inl t ↦ short_case fuel cp 13 (backslash ∷ b'r' ∷ []) out rest t (rw (a, b, t) at e) refl
      | inr c ↦ elim (Bool-cases (cp == backslash)) [
        | inl t ↦
            short_case fuel cp backslash (backslash ∷ backslash ∷ []) out rest t
              (rw (a, b, c, t) at e) refl
        | inr d ↦ elim (Bool-cases (cp == double_quote)) [
          | inl t ↦
              short_case fuel cp double_quote (backslash ∷ double_quote ∷ []) out rest t
                (rw (a, b, c, d, t) at e) refl
          | inr q ↦ plain d (rw (a, b, c, d, q) at e)
        ]
      ]
    ]
  ]
]
  where
    plain :
        (cp == backslash) ≡ false
        → (if is_print cp && ltb cp 0x80 then some (cp ∷ []) else none) ≡ some out
        → decode (suc fuel) double_quote true (out ++ rest)
          ≡ written (cp ∷ []) (decode fuel double_quote true rest)
    plain d e' = let same : cp ∷ [] ≡ out = ground arith in rw (← same, d, decode)

utf8-low : (cp : ℕ) → cp < 128 → utf8 cp ≡ cp ∷ []
utf8-low cp h = ground arith

simple-lt : (cp : ℕ) (out : List ℕ) → simple cp ≡ some out → cp < 128
unfolding simple
simple-lt cp out e = ground arith

-- One round of unquote on what c_quote_string wrote for a scalar writes the scalar's bytes.
pub decode-chunk :
    (fuel cp : ℕ) (rest : List ℕ)
    → IsScalar cp
    → decode (suc fuel) double_quote true (chunk cp ++ rest)
      ≡ written (utf8 cp) (decode fuel double_quote true rest)
decode-chunk fuel cp rest s = elim (Option-cases (simple cp)) [
  | inl e ↦ rw (e, chunk) (decode-units fuel cp rest s)
  | inr (out, e) ↦
      rw (e, chunk, utf8-low cp (simple-lt cp out e)) (decode-simple fuel cp out rest e)
]
