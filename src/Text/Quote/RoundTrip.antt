-- ===== src/Text/Quote/RoundTrip.antt =====
-- c_quote_string (src/runtime/objects/string/string.c), then unquote (src/parser/string/string.c):
-- what the runtime prints as a literal the parser reads back.
use mathlib.Core.List.{append_assoc}
use chloride.Base.{
  ℕ, zero, suc, ◌≤◌, ◌<◌, ◌≡◌, refl, ap, ◌∙◌, true, some, List, [], ◌∷◌, ◌++◌, arith, length, drop,
  length-append,
}
use chloride.Base.Run.{ok, ◌>>=◌}
use chloride.Text.Quote.{
  double_quote, quote_step, quote_loop, c_quote_string, simple, units, unit_escape,
}
use chloride.Text.Quote.Chunks.{IsScalar, chunk, quote_step-utf8}
use chloride.Text.Quote.Closing.{prepended, closing-chunk}
use chloride.Text.Quote.Decoded.{decode-chunk}
use chloride.Text.Unquote.{decode, closing, unquote, literal_body}
use chloride.Text.Utf8.Laws.{utf8}

-- a text of Unicode scalars, and its bytes
abbrev pub AllScalar : List ℕ → Type 0
AllScalar [] = Unit
AllScalar (cp ∷ cps) = IsScalar cp × AllScalar cps

abbrev pub text : List ℕ → List ℕ
text [] = []
text (cp ∷ cps) = utf8 cp ++ text cps

abbrev quoted : List ℕ → List ℕ
quoted [] = []
quoted (cp ∷ cps) = chunk cp ++ quoted cps

drop-append : (xs ys : List ℕ) → drop (length xs) (xs ++ ys) ≡ ys
drop-append [] ys = refl
drop-append (x ∷ xs) ys = drop-append xs ys

utf8_pos : (cp : ℕ) → 0 < length (utf8 cp)
utf8_pos cp = ground arith

chunk_pos : (cp : ℕ) → 0 < length (chunk cp)
unfolding simple units unit_escape
chunk_pos cp = ground arith

quote_loop-step :
    (fuel : ℕ) (s out rest : List ℕ) (consumed : ℕ)
    → 0 < length s
    → quote_step s ≡ (out, consumed)
    → drop consumed s ≡ rest
    → quote_loop (suc fuel) s ≡ quote_loop fuel rest >>= λ r. ok (out ++ r)
unfolding quote_loop
quote_loop-step fuel [] out rest consumed some_byte e d = absurd (omega arith)
quote_loop-step fuel (c ∷ s) out rest consumed some_byte e d = rw (e, d)

quote_loop-nil : (n : ℕ) → quote_loop n [] ≡ ok []
unfolding quote_loop
quote_loop-nil zero = refl
quote_loop-nil (suc n) = refl

quote_loop-text :
    (fuel : ℕ) (cps : List ℕ)
    → AllScalar cps
    → length (text cps) ≤ fuel
    → quote_loop fuel (text cps) ≡ ok (quoted cps)
quote_loop-text fuel [] all h = quote_loop-nil fuel
quote_loop-text zero (cp ∷ cps) all h =
    absurd (omega (arith, utf8_pos cp, length-append (utf8 cp) (text cps)))
quote_loop-text (suc fuel) (cp ∷ cps) (s, all) h =
    let some_byte = utf8_pos cp in
    let total = length-append (utf8 cp) (text cps) in
    let first =
      quote_loop-step fuel (utf8 cp ++ text cps) (chunk cp) (text cps) (length (utf8 cp))
        (omega arith) (quote_step-utf8 cp (text cps) s.bounded)
        (drop-append (utf8 cp) (text cps)) in
    let rest = quote_loop-text fuel cps all (omega arith) in first ∙ rw rest

decode-quoted :
    (fuel : ℕ) (cps : List ℕ)
    → AllScalar cps
    → length (quoted cps) ≤ fuel
    → decode fuel double_quote true (quoted cps) ≡ ok (some (text cps))
unfolding decode
decode-quoted zero [] all h = refl
decode-quoted (suc fuel) [] all h = refl
decode-quoted zero (cp ∷ cps) all h =
    absurd (omega (arith, chunk_pos cp, length-append (chunk cp) (quoted cps)))
decode-quoted (suc fuel) (cp ∷ cps) (s, all) h =
    let total = length-append (chunk cp) (quoted cps) in
    let rest = decode-quoted fuel cps all (omega (arith, chunk_pos cp)) in
    decode-chunk fuel cp (quoted cps) s ∙ rw rest

closing-quoted :
    (cps : List ℕ) → closing double_quote (quoted cps ++ double_quote ∷ []) ≡ some (quoted cps)
unfolding closing
closing-quoted [] = refl
closing-quoted (cp ∷ cps) =
    ap (closing double_quote) (append_assoc (chunk cp) (quoted cps) (double_quote ∷ []))
    ∙ closing-chunk cp (quoted cps ++ double_quote ∷ [])
    ∙ ap (prepended (chunk cp)) (closing-quoted cps)

abbrev literal : List ℕ → List ℕ
literal cps = double_quote ∷ quoted cps ++ double_quote ∷ []

literal_body-literal :
    (cps : List ℕ) → literal_body (literal cps) double_quote true ≡ some (quoted cps)
unfolding literal_body
literal_body-literal cps = closing-quoted cps

unquote-literal :
    (cps : List ℕ) → AllScalar cps → unquote (literal cps) double_quote true ≡ ok (some (text cps))
unfolding unquote
unquote-literal cps all =
    rw (literal_body-literal cps, unquote)
      (decode-quoted (length (quoted cps)) cps all (omega arith))

c_quote_string-text : (cps : List ℕ) → AllScalar cps → c_quote_string (text cps) ≡ ok (literal cps)
unfolding c_quote_string
c_quote_string-text cps all = rw (quote_loop-text (length (text cps)) cps all (omega arith))

-- For every text of Unicode scalars, unquote of what c_quote_string prints for its UTF-8 bytes
-- returns just those bytes.
pub unquote-c_quote_string :
    (cps : List ℕ)
    → AllScalar cps
    → (c_quote_string (text cps) >>= λ printed. unquote printed double_quote true)
      ≡ ok (some (text cps))
unquote-c_quote_string cps all = rw (c_quote_string-text cps all) (unquote-literal cps all)
