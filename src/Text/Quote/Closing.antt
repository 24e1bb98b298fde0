-- ===== src/Text/Quote/Closing.antt =====
-- The search for the closing quote in unquote (src/parser/string/string.c) passes over every chunk
-- that c_quote_string wrote.
use mathlib.Core.List.{append_assoc}
use chloride.Base.{
  ℕ, ◌+◌, ◌-◌, ◌/◌, ◌%◌, ◌<◌, bit_and, ◌≡◌, refl, sym, ap, subst, get_or, ◌⊎◌, ◌∙◌, inl, inr, false,
  Option, none, some, List, [], ◌∷◌, ◌++◌, arith, leb, ◌==◌, Bool-cases, Option-cases,
}
use chloride.Text.Quote.{double_quote, hex_char, unit_escape, simple, units}
use chloride.Text.Quote.Chunks.{chunk}
use chloride.Text.Unquote.{backslash, closing}

abbrev pub prepended : List ℕ → Option (List ℕ) → Option (List ℕ)
prepended out none = none
prepended out (some body) = some (out ++ body)

closing_plain :
    (c : ℕ) (r : List ℕ)
    → (c == double_quote) ≡ false
    → (c == backslash) ≡ false
    → closing double_quote (c ∷ r) ≡ prepended (c ∷ []) (closing double_quote r)
unfolding closing
closing_plain c [] a b = rw a
closing_plain c (d ∷ r) a b = elim (Option-cases (closing double_quote (d ∷ r))) [
  | inl e ↦ rw (a, b, e, closing)
  | inr (body, e) ↦ rw (a, b, e, closing)
]

closing_escape :
    (d : ℕ) (r : List ℕ)
    → closing double_quote (backslash ∷ d ∷ r)
      ≡ prepended (backslash ∷ d ∷ []) (closing double_quote r)
unfolding closing
closing_escape d r = elim (Option-cases (closing double_quote r)) [
  | inl e ↦ rw (e, closing)
  | inr (body, e) ↦ rw (e, closing)
]

prepended-prepended :
    (a b : List ℕ) (o : Option (List ℕ)) → prepended a (prepended b o) ≡ prepended (a ++ b) o
prepended-prepended a b none = refl
prepended-prepended a b (some body) = ap some (sym (append_assoc a b body))

hex_char-plain :
    (d : ℕ) (r : List ℕ)
    → d < 16
    → closing double_quote (hex_char d ∷ r) ≡ prepended (hex_char d ∷ []) (closing double_quote r)
hex_char-plain d r h = closing_plain (hex_char d) r (ground arith) (ground arith)

closing-unit_escape :
    (v : ℕ) (r : List ℕ)
    → closing double_quote (unit_escape v ++ r) ≡ prepended (unit_escape v) (closing double_quote r)
unfolding unit_escape
closing-unit_escape v r =
    rw
      (
        closing_escape,
        hex_char-plain (v / 4096 % 16) _ (omega arith),
        hex_char-plain (v / 256 % 16) _ (omega arith),
        hex_char-plain (v / 16 % 16) _ (omega arith),
        hex_char-plain (v % 16) _ (omega arith),
      )
      (simp prepended-prepended)

closing-pair :
    (u v : ℕ) (r : List ℕ)
    → closing double_quote ((unit_escape u ++ unit_escape v) ++ r)
      ≡ prepended (unit_escape u ++ unit_escape v) (closing double_quote r)
closing-pair u v r =
    ap (closing double_quote) (append_assoc (unit_escape u) (unit_escape v) r)
    ∙ closing-unit_escape u (unit_escape v ++ r)
    ∙ ap (prepended (unit_escape u)) (closing-unit_escape v r)
    ∙ prepended-prepended (unit_escape u) (unit_escape v) (closing double_quote r)

closing-units :
    (cp : ℕ) (r : List ℕ)
    → closing double_quote (units cp ++ r) ≡ prepended (units cp) (closing double_quote r)
unfolding units
closing-units cp r = elim (Bool-cases (leb cp 0xFFFF)) [
  | inl one ↦ rw one (closing-unit_escape cp r)
  | inr two ↦
      rw two
        (closing-pair (0xD800 + (cp - 0x10000) / 1024) (0xDC00 + bit_and (cp - 0x10000) 0x3FF) r)
]

-- the short forms are an escaped byte or a plain one
simple-forms :
    (cp : ℕ) (out : List ℕ)
    → simple cp ≡ some out
    → (out ≡ backslash ∷ get_or out 1 0 ∷ [])
      ⊎ (out ≡ cp ∷ []) × ((cp == double_quote) ≡ false) × ((cp == backslash) ≡ false)
unfolding simple
simple-forms cp out e = ground arith

closing-simple :
    (cp : ℕ) (out r : List ℕ)
    → simple cp ≡ some out
    → closing double_quote (out ++ r) ≡ prepended out (closing double_quote r)
closing-simple cp out r e = elim (simple-forms cp out e) [
  | inl escaped ↦
      subst (λ t. closing double_quote (t ++ r) ≡ prepended t (closing double_quote r))
        (sym escaped) (closing_escape (get_or out 1 0) r)
  | inr (bare, a, b) ↦
      subst (λ t. closing double_quote (t ++ r) ≡ prepended t (closing double_quote r)) (sym bare)
        (closing_plain cp r a b)
]

-- the search passes over a chunk
pub closing-chunk :
    (cp : ℕ) (r : List ℕ)
    → closing double_quote (chunk cp ++ r) ≡ prepended (chunk cp) (closing double_quote r)
closing-chunk cp r = elim (Option-cases (simple cp)) [
  | inl e ↦ rw (e, chunk) (closing-units cp r)
  | inr (out, e) ↦ rw (e, chunk) (closing-simple cp out r e)
]
