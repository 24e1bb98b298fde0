-- ===== src/Text/Quote/Bounds.antt =====
-- c_quote_string (src/runtime/objects/string/string.c) ends on every input, and its writes stay in the
-- buffer of `2 + len * 12 + 1` bytes that it allocates.
use chloride.Base.{
  ℕ, zero, suc, ◌+◌, ◌-◌, ◌*◌, ◌/◌, ◌≤◌, ◌<◌, bit_and, ◌≡◌, refl, inl, inr, Bool-cases,
  Option-cases, some, List, [], ◌∷◌, ◌++◌, arith, length, length-append, drop, length-drop, leb,
}
use chloride.Base.Run.{Returns}
use chloride.Text.Quote.{
  double_quote, unit_escape, simple, units, quote_step, quote_loop, c_quote_string,
}
use chloride.Text.Utf8.{decode_utf8}

length-simple : (c : ℕ) (out : List ℕ) → simple c ≡ some out → length out ≤ 2
unfolding simple
length-simple c out e = ground arith

length-unit_escape : (v : ℕ) → length (unit_escape v) ≡ 6
unfolding unit_escape
length-unit_escape v = refl

length-pair : (u v : ℕ) → length (unit_escape u ++ unit_escape v) ≡ 12
unfolding unit_escape
length-pair u v = refl

length-units : (cp : ℕ) → length (units cp) ≤ 12
unfolding units
length-units cp = elim (Bool-cases (leb cp 0xFFFF)) [
  | inl one ↦ rw one (omega (arith, length-unit_escape cp))
  | inr two ↦ rw two (
      omega (
        arith,
        length-pair (0xD800 + (cp - 0x10000) / 1024) (0xDC00 + bit_and (cp - 0x10000) 0x3FF),
      ))
]

consumed_pos :
    (c : ℕ) (s : List ℕ) (consumed cp : ℕ)
    → decode_utf8 (c ∷ s) ≡ some (consumed, cp)
    → 0 < consumed
unfolding decode_utf8
consumed_pos c s consumed cp e = ground arith

-- a round writes at most twelve bytes and consumes at least one
quote_step_bounds :
    (c : ℕ) (s : List ℕ) → (length (quote_step (c ∷ s)).0 ≤ 12) × (0 < (quote_step (c ∷ s)).1)
unfolding quote_step
quote_step_bounds c s = elim (Option-cases (simple c)) [
  | inr (out, e) ↦ rw (e, quote_step) (omega (arith, length-simple c out e), omega arith)
  | inl special ↦ elim (Option-cases (decode_utf8 (c ∷ s))) [
    | inl stray ↦ rw (special, quote_step, stray) (omega (arith, length-unit_escape c), omega arith)
    | inr ((consumed, cp), e) ↦
        rw (special, quote_step, e) (length-units cp, consumed_pos c s consumed cp e)
  ]
]

quote_loop-length :
    (fuel : ℕ) (s : List ℕ)
    → length s ≤ fuel
    → Returns (quote_loop fuel s) λ out. length out ≤ 12 * length s
unfolding quote_loop
quote_loop-length zero [] h = ([], refl, omega arith)
quote_loop-length (suc fuel) [] h = ([], refl, omega arith)
quote_loop-length zero (c ∷ s) h = absurd (omega arith)
quote_loop-length (suc fuel) (c ∷ s) h =
    let (short, some_byte) = quote_step_bounds c s in
    let consumed = (quote_step (c ∷ s)).1 in
    let fewer = length-drop consumed (c ∷ s) in
    let (rest, run, bound) = quote_loop-length fuel (drop consumed (c ∷ s)) (omega arith) in
    (
      (quote_step (c ∷ s)).0 ++ rest,
      rw run,
      omega (arith, length-append (quote_step (c ∷ s)).0 rest),
    )

-- c_quote_string ends on every input, valid UTF-8 or not, and writes at most `2 + len * 12` bytes, so
-- that the closing 0 fits the buffer too.
pub c_quote_string-length :
    (s : List ℕ) → Returns (c_quote_string s) λ out. length out ≤ 2 + length s * 12
unfolding c_quote_string
c_quote_string-length s =
    let (body, run, bound) = quote_loop-length (length s) s (omega arith) in
    (
      double_quote ∷ body ++ double_quote ∷ [],
      rw run,
      omega (arith, length-append body (double_quote ∷ [])),
    )
