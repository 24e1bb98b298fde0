-- ===== src/Text/Utf8/Laws.antt =====
-- The encoders and decoders of UTF-8 in src/parser/string/string.c and
-- src/runtime/objects/string/string.c, against the arithmetic of the code.
use mathlib.Core.Option
use chloride.Base.{
  ℕ, ◌+◌, ◌*◌, ◌/◌, ◌%◌, ◌^◌, ◌≤◌, ◌<◌, bit_and, bit_or, ◌≡◌, refl, ◌∙◌, inl, inr, true, none, some,
  List, [], ◌∷◌, ◌++◌, arith, ltb, ltb→lt, ◌==◌, ==_iff, if◌then◌else◌, Bool-cases, length,
}
use chloride.Base.Bits.{bit_and_mask, bit_or_fields, holds_below, holds_below-lt}
use chloride.Text.Utf8.{byte, utf8_encode, char_chr, char_ord, decode_utf8, join2, join3, join4}

-- UTF-8 as the standard's table has it
abbrev pub utf8 : ℕ → List ℕ
utf8 cp =
    if ltb cp 128
    then cp ∷ []
    else if ltb cp 2048
    then (192 + cp / 64) ∷ (128 + cp % 64) ∷ []
    else if ltb cp 65536
    then (224 + cp / 4096) ∷ (128 + cp / 64 % 64) ∷ (128 + cp % 64) ∷ []
    else (240 + cp / 262144) ∷ (128 + cp / 4096 % 64) ∷ (128 + cp / 64 % 64) ∷ (128 + cp % 64) ∷ []

abbrev pub code_points : ℕ
code_points = 0x110000

continuation : (x : ℕ) → byte (bit_or 0x80 (bit_and x 0x3F)) ≡ 128 + x % 64
unfolding byte
continuation x =
    let low : bit_and x 0x3F ≡ x % 64 = bit_and_mask 6 x in
    let joined : bit_or 0x80 (x % 64) ≡ 128 + x % 64 = bit_or_fields 7 1 (x % 64) (omega arith) in
    rw (low, joined) (omega arith)

lead :
    (k q x : ℕ) → q * 2 ^ k + 2 ^ k ≤ 256 → x < 2 ^ k → byte (bit_or (q * 2 ^ k) x) ≡ q * 2 ^ k + x
unfolding byte
lead k q x whole small = rw (bit_or_fields k q x small) (omega arith)

-- utf8_encode writes the standard's bytes for every code point, and nothing for a greater number.
pub utf8_encode-utf8 : (cp : ℕ) → utf8_encode cp ≡ (if ltb cp code_points then utf8 cp else [])
unfolding utf8_encode
utf8_encode-utf8 cp =
    simp continuation
      (ground (arith, lead 6 3 (cp / 64), lead 4 14 (cp / 4096), lead 4 15 (cp / 262144)))

-- char_chr agrees with it, and answers NULL for every greater number.
pub char_chr-utf8 : (cp : ℕ) → char_chr cp ≡ (if ltb cp code_points then some (utf8 cp) else none)
unfolding char_chr
char_chr-utf8 cp =
    simp continuation
      (ground (arith, lead 6 3 (cp / 64), lead 4 14 (cp / 4096), lead 4 15 (cp / 262144)))

join2-eq : (a b : ℕ) → join2 a b ≡ a % 32 * 64 + b % 64
unfolding join2
join2-eq a b =
    let high : bit_and a 0x1F ≡ a % 32 = bit_and_mask 5 a in
    let low : bit_and b 0x3F ≡ b % 64 = bit_and_mask 6 b in
    rw (high, low) (bit_or_fields 6 (a % 32) (b % 64) (omega arith))

join3-eq : (a b c : ℕ) → join3 a b c ≡ a % 16 * 4096 + b % 64 * 64 + c % 64
unfolding join3
join3-eq a b c =
    let high : bit_and a 0x0F ≡ a % 16 = bit_and_mask 4 a in
    let mid : bit_and b 0x3F ≡ b % 64 = bit_and_mask 6 b in
    let low : bit_and c 0x3F ≡ c % 64 = bit_and_mask 6 c in
    let first : bit_or (a % 16 * 4096) (b % 64 * 64) ≡ (a % 16 * 64 + b % 64) * 64 =
      bit_or_fields 12 (a % 16) (b % 64 * 64) (omega arith) ∙ omega arith in
    rw (high, mid, low, first)
      (bit_or_fields 6 (a % 16 * 64 + b % 64) (c % 64) (omega arith) ∙ omega arith)

join4-eq : (a b c d : ℕ) → join4 a b c d ≡ a % 8 * 262144 + b % 64 * 4096 + c % 64 * 64 + d % 64
unfolding join4
join4-eq a b c d =
    let high : bit_and a 0x07 ≡ a % 8 = bit_and_mask 3 a in
    let mid : bit_and b 0x3F ≡ b % 64 = bit_and_mask 6 b in
    let mid' : bit_and c 0x3F ≡ c % 64 = bit_and_mask 6 c in
    let low : bit_and d 0x3F ≡ d % 64 = bit_and_mask 6 d in
    let first : bit_or (a % 8 * 262144) (b % 64 * 4096) ≡ (a % 8 * 64 + b % 64) * 4096 =
      bit_or_fields 18 (a % 8) (b % 64 * 4096) (omega arith) ∙ omega arith in
    let second : bit_or ((a % 8 * 64 + b % 64) * 4096) (c % 64 * 64)
        ≡ ((a % 8 * 64 + b % 64) * 64 + c % 64) * 64 =
      bit_or_fields 12 (a % 8 * 64 + b % 64) (c % 64 * 64) (omega arith) ∙ omega arith in
    rw (high, mid, mid', low, first, second)
      (bit_or_fields 6 ((a % 8 * 64 + b % 64) * 64 + c % 64) (d % 64) (omega arith) ∙ omega arith)

high3_table : holds_below 256 (λ a. bit_and a 0xE0 == a / 32 * 32) ≡ true
unfolding holds_below
high3_table = refl

high4_table : holds_below 256 (λ a. bit_and a 0xF0 == a / 16 * 16) ≡ true
unfolding holds_below
high4_table = refl

high5_table : holds_below 256 (λ a. bit_and a 0xF8 == a / 8 * 8) ≡ true
unfolding holds_below
high5_table = refl

-- the masks that test a leading byte
high_masks :
    (a : ℕ)
    → a < 256
    → (bit_and a 0xE0 ≡ a / 32 * 32) × (bit_and a 0xF0 ≡ a / 16 * 16) × (bit_and a 0xF8 ≡ a / 8 * 8)
high_masks a h = (
  (==_iff _ _).0 (holds_below-lt 256 (λ x. bit_and x 0xE0 == x / 32 * 32) a high3_table h),
  (==_iff _ _).0 (holds_below-lt 256 (λ x. bit_and x 0xF0 == x / 16 * 16) a high4_table h),
  (==_iff _ _).0 (holds_below-lt 256 (λ x. bit_and x 0xF8 == x / 8 * 8) a high5_table h),
)

-- decode_utf8 of a code point's bytes, whatever follows them, consumes just those bytes and returns
-- the code point.
pub decode_utf8-utf8 :
    (cp : ℕ) (rest : List ℕ)
    → cp < code_points
    → decode_utf8 (utf8 cp ++ rest) ≡ some (length (utf8 cp), cp)
unfolding decode_utf8
decode_utf8-utf8 cp rest h = elim (Bool-cases (ltb cp 128)) [
  | inl one ↦ rw one (rw one refl)
  | inr more ↦ elim (Bool-cases (ltb cp 2048)) [
    | inl two ↦
        rw (more, two)
          (ground (arith, high_masks (192 + cp / 64), join2-eq (192 + cp / 64) (128 + cp % 64)))
    | inr more' ↦ elim (Bool-cases (ltb cp 65536)) [
      | inl three ↦
          rw (more, more', three)
            (ground (
              arith,
              high_masks (224 + cp / 4096),
              join3-eq (224 + cp / 4096) (128 + cp / 64 % 64) (128 + cp % 64),
            ))
      | inr four ↦
          rw (more, more', four)
            (ground (
              arith,
              high_masks (240 + cp / 262144),
              join4-eq (240 + cp / 262144) (128 + cp / 4096 % 64) (128 + cp / 64 % 64)
                  (128 + cp % 64),
            ))
    ]
  ]
]

-- char_ord of the bytes of any code point is that code point, so it undoes char_chr.
pub char_ord-utf8 : (cp : ℕ) → cp < code_points → char_ord (utf8 cp) ≡ some cp
unfolding char_ord
char_ord-utf8 cp h = elim (Bool-cases (ltb cp 128)) [
  | inl one ↦ rw one (ground arith)
  | inr more ↦ elim (Bool-cases (ltb cp 2048)) [
    | inl two ↦ rw (more, two) (ground (arith, join2-eq (192 + cp / 64) (128 + cp % 64)))
    | inr more' ↦ elim (Bool-cases (ltb cp 65536)) [
      | inl three ↦
          rw (more, more', three)
            (ground (arith, join3-eq (224 + cp / 4096) (128 + cp / 64 % 64) (128 + cp % 64)))
      | inr four ↦
          rw (more, more', four)
            (ground (
              arith,
              join4-eq (240 + cp / 262144) (128 + cp / 4096 % 64) (128 + cp / 64 % 64)
                  (128 + cp % 64),
            ))
    ]
  ]
]

-- `ord(chr(cp))` is cp for every code point; for a greater number chr answers NULL.
pub char_ord-char_chr :
    (cp : ℕ) → Option.bind (char_chr cp) char_ord ≡ (if ltb cp code_points then some cp else none)
unfolding Option.bind
char_ord-char_chr cp = elim (Bool-cases (ltb cp code_points)) [
  | inl valid ↦ rw (char_chr-utf8, valid) (char_ord-utf8 cp (ltb→lt cp code_points valid))
  | inr over ↦ rw (char_chr-utf8, over)
]
