-- ===== src/Text/Unquote/Bounds.antt =====
-- unquote of src/parser/string/string.c ends on every input, and its writes stay in the buffer of
-- `input_len + 1` bytes that it allocates.
use chloride.Base.{
  ℕ, zero, suc, ◌+◌, ◌≤◌, ◌≡◌, refl, inl, inr, Bool, Option, none, some, List, [], ◌∷◌, ◌++◌, arith,
  leb, ltb, ◌==◌, if◌then◌else◌, Bool-cases, if_case, ltb→le, get_or, ◌&&◌, length, drop,
  length-drop, length-append,
}
use chloride.Base.Run.{Run, ok, Returns}
use chloride.Text.Utf8.{utf8_encode}
use chloride.Text.Unquote.{
  is_high, is_low, join_units, parse_hex4, second_unit, unicode_escape, escape, written, decode,
  literal_body, unquote, backslash,
}

length-utf8_encode-le : (cp : ℕ) → length (utf8_encode cp) ≤ 4
unfolding utf8_encode
length-utf8_encode-le cp = ground arith

-- what an escape consumes makes room for what it writes
abbrev Shrinks : List ℕ → Option (List ℕ × List ℕ) → Type 0
Shrinks src none = Unit
Shrinks src (some (out, rest)) = length out + length rest ≤ length src

second_value-Shrinks :
    (u : ℕ) (src : List ℕ) (o : Option ℕ)
    → 6 ≤ length src
    → Shrinks src (elim o [
      | none ↦ none
      | some v ↦ if is_low v then some (utf8_encode (join_units u v), drop 6 src) else none
    ])
second_value-Shrinks u src none long = tt
second_value-Shrinks u src (some v) long =
    if_case (Shrinks src) (is_low v) _ _
      (λ low. omega (arith, length-utf8_encode-le (join_units u v), length-drop 6 src))
      (λ other. tt)

second_unit-Shrinks : (u : ℕ) (src : List ℕ) → Shrinks src (second_unit u src)
unfolding second_unit
second_unit-Shrinks u src =
    if_case (Shrinks src)
      (leb 6 (length src) && get_or src 0 0 == backslash && get_or src 1 0 == b'u') _ _
      (λ there. second_value-Shrinks u src (parse_hex4 (drop 2 src)) (ground arith)) (λ other. tt)

weaken :
    (xs ys : List ℕ) (o : Option (List ℕ × List ℕ))
    → length xs ≤ length ys
    → Shrinks xs o
    → Shrinks ys o
weaken xs ys none h s = tt
weaken xs ys (some (out, rest)) h s = omega arith

-- four digits were read, so the code point's bytes fit where `u` and the digits stood
first_value-Shrinks :
    (c : ℕ) (src : List ℕ) (o : Option ℕ)
    → 4 ≤ length src
    → Shrinks (c ∷ src) (elim o [
      | none ↦ none
      | some u ↦
          if is_high u
          then second_unit u (drop 4 src)
          else if is_low u
          then none
          else some (utf8_encode u, drop 4 src)
    ])
first_value-Shrinks c src none long = tt
first_value-Shrinks c src (some u) long =
    if_case (Shrinks (c ∷ src)) (is_high u) _ _
      (λ high.
        weaken (drop 4 src) (c ∷ src) (second_unit u (drop 4 src))
          (omega (arith, length-drop 4 src)) (second_unit-Shrinks u (drop 4 src)))
      (λ other.
        if_case (Shrinks (c ∷ src)) (is_low u) _ _ (λ low. tt)
          (λ plain. omega (arith, length-utf8_encode-le u, length-drop 4 src)))

unicode_escape-Shrinks : (c : ℕ) (src : List ℕ) → Shrinks (c ∷ src) (unicode_escape src)
unfolding unicode_escape
unicode_escape-Shrinks c src =
    if_case (Shrinks (c ∷ src)) (ltb (length src) 4) _ _ (λ short. tt)
      (λ long. first_value-Shrinks c src (parse_hex4 src) (ltb→le _ _ long))

escape-Shrinks :
    (quote : ℕ) (is_quoted : Bool) (src : List ℕ) → Shrinks src (escape quote is_quoted src)
unfolding escape
escape-Shrinks quote is_quoted [] = tt
escape-Shrinks quote is_quoted (c ∷ src) =
    let unicode = unicode_escape-Shrinks c src in ground arith

-- the result of the loop, when there is one, is no longer than what was read
abbrev pub Fits : ℕ → Option (List ℕ) → Type 0
Fits n none = Unit
Fits n (some out) = length out ≤ n

written-Fits :
    (out : List ℕ) (n m : ℕ) (r : Run (Option (List ℕ)))
    → length out + n ≤ m
    → Returns r (Fits n)
    → Returns (written out r) (Fits m)
written-Fits out n m r h (none, run, f) = (none, rw run, tt)
written-Fits out n m r h (some rest, run, f) =
    (some (out ++ rest), rw run, omega (arith, length-append out rest))

escape_rest-Fits :
    (fuel quote : ℕ) (is_quoted : Bool) (n : ℕ) (src : List ℕ) (o : Option (List ℕ × List ℕ))
    → length src ≤ n
    → Shrinks src o
    → ((rest : List ℕ)
        → length rest ≤ n
        → Returns (decode fuel quote is_quoted rest) (Fits (length rest)))
    → Returns
        (elim o [
          | none ↦ ok none
          | some (out, rest) ↦ written out (decode fuel quote is_quoted rest)
        ])
        (Fits (suc (length src)))
escape_rest-Fits fuel quote is_quoted n src none long small each = (none, refl, tt)
escape_rest-Fits fuel quote is_quoted n src (some (out, rest)) long small each =
    written-Fits out (length rest) (suc (length src)) _ (omega arith) (each rest (omega arith))

decode-Fits :
    (fuel quote : ℕ) (is_quoted : Bool) (src : List ℕ)
    → length src ≤ fuel
    → Returns (decode fuel quote is_quoted src) (Fits (length src))
unfolding decode
decode-Fits fuel quote is_quoted [] h = (some [], refl, omega arith)
decode-Fits zero quote is_quoted (c ∷ src) h = absurd (omega arith)
decode-Fits (suc fuel) quote is_quoted (c ∷ src) h = elim (Bool-cases (c == backslash)) [
  | inr plain ↦
      rw (plain, decode)
        (written-Fits (c ∷ []) (length src) (suc (length src)) _ (omega arith)
          (decode-Fits fuel quote is_quoted src (omega arith)))
  | inl escaped ↦
      rw (escaped, decode)
        (escape_rest-Fits fuel quote is_quoted fuel src (escape quote is_quoted src) (omega arith)
          (escape-Shrinks quote is_quoted src)
          (λ rest h'. decode-Fits fuel quote is_quoted rest h'))
]

-- what unquote returns for the bytes between its ends, if it finds both
abbrev pub FitsBody : Option (List ℕ) → Option (List ℕ) → Type 0
FitsBody none r = r ≡ none
FitsBody (some body) r = Fits (length body) r

-- unquote ends on every input, within one round for each byte of the body; it returns NULL if there
-- is no body, and never writes more than `input_len` bytes, so the closing 0 fits the buffer too.
pub unquote-FitsBody :
    (input : List ℕ) (quote : ℕ) (is_quoted : Bool)
    → Returns (unquote input quote is_quoted) (FitsBody (literal_body input quote is_quoted))
unfolding unquote
unquote-FitsBody input quote is_quoted = body (literal_body input quote is_quoted)
  where
    body :
        (o : Option (List ℕ))
        → Returns
            (elim o [ none ↦ ok none | some b ↦ decode (length b) quote is_quoted b ])
            (FitsBody o)
    body none = (none, refl, refl)
    body (some b) = decode-Fits (length b) quote is_quoted b (omega arith)
