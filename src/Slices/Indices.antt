-- ===== src/Slices/Indices.antt =====
-- The number of items of a slice, as ARRAY_TYPE's `__getitem__` of src/runtime/objects/array/array.c
-- computes it from what slice_indices of src/runtime/objects/slice/slice.c left.
use chloride.Base.{
  ℕ, zero, suc, ◌+◌, ◌-◌, ◌*◌, ◌/◌, ◌≤◌, ◌<◌, ◌≡◌, Bool-cases, true, false, inl, inr, ltb, arith,
}
use native.Mathlib.Nat.{div-add-mod', mod-lt, le-div_iff_mul-le, div-le_self}
use chloride.Base.Int.{
  ℤ, pos, negsuc, pos_part, neg_part, ◌+ℤ◌, ◌-ℤ◌, neg_ℤ, quot, fits_int64, ltb_ℤ, +ℤ_parts,
  -ℤ_parts, eq_of_parts,
}
use chloride.Base.Run.{ok}
use chloride.Slices.{SliceIndices, slice_size}

-- an integer, as the number of the place before which it lies
abbrev pub pred : ℕ → ℤ
pred zero = negsuc 0
pred (suc n) = pos n

-- steps of suc k before a stop that lies d ahead
abbrev pub steps : ℕ → ℕ → ℕ
steps d k = (d + k) / suc k

pub steps-before : (d k j : ℕ) → j < steps d k → j * suc k < d
steps-before d k j h =
    let le : suc j * suc k ≤ d + k =
      (le-div_iff_mul-le {k = suc k} {x = suc j} {y = d + k} (omega arith)).0 h in
    grind arith

pub steps-past : (d k : ℕ) → d ≤ steps d k * suc k
steps-past d k =
    omega (arith, div-add-mod' (d + k) (suc k), mod-lt (d + k) {m = suc k} (omega arith))

-- what slice_indices leaves for an array of this length
pub data InRange (len : ℕ) : SliceIndices → Type 0 where
  upward :
      (a b k : ℕ)
      → a ≤ len
      → b ≤ len
      → InRange len (record { start = pos a; stop = pos b; step = pos (suc k) })
  downward :
      (a b k : ℕ)
      → a ≤ len
      → b ≤ len
      → InRange len (record { start = pred a; stop = pred b; step = negsuc k })

steps-none : (d k : ℕ) → d ≡ 0 → steps d k ≡ 0
steps-none d k h = elim (Bool-cases (ltb 0 (steps d k))) [
  | inl more ↦ let less : 0 * suc k < d = steps-before d k 0 (ground arith) in absurd (omega arith)
  | inr done ↦ ground arith
]

pred-lt : (a b : ℕ) → ltb_ℤ (pred b) (pred a) ≡ ltb b a
pred-lt zero zero = ground arith
pred-lt zero (suc b) = ground arith
pred-lt (suc a) zero = ground arith
pred-lt (suc a) (suc b) = ground arith

pub pred_parts : (a : ℕ) → pos_part (pred a) + 1 ≡ a + neg_part (pred a)
pred_parts zero = omega arith
pred_parts (suc a) = omega arith

less_one : (d k : ℕ) → pos (d + suc k) -ℤ pos 1 ≡ pos (d + k)
less_one d k =
    eq_of_parts (pos (d + suc k) -ℤ pos 1) (pos (d + k))
      (omega (arith, -ℤ_parts (pos (d + suc k)) (pos 1)))

-- the number of items
pub slice_size-up :
    (a b k : ℕ)
    → fits_int64 (pos (b + suc k)) ≡ true
    → slice_size (record { start = pos a; stop = pos b; step = pos (suc k) })
      ≡ ok (pos (steps (b - a) k))
unfolding slice_size quot
slice_size-up a b k room =
    let up : ltb_ℤ (pos 0) (pos (suc k)) ≡ true = ground arith in
    let not_down : ltb_ℤ (pos (suc k)) (pos 0) ≡ false = ground arith in
    elim (Bool-cases (ltb_ℤ (pos a) (pos b))) [
      | inl some_left ↦
          let less : a < b = ground arith in
          let span : pos b -ℤ pos a ≡ pos (b - a) =
            eq_of_parts (pos b -ℤ pos a) (pos (b - a)) (omega (arith, -ℤ_parts (pos b) (pos a))) in
          let more : pos (b - a) +ℤ pos (suc k) ≡ pos (b - a + suc k) =
            eq_of_parts (pos (b - a) +ℤ pos (suc k)) (pos (b - a + suc k))
              (omega (arith, +ℤ_parts (pos (b - a)) (pos (suc k)))) in
          let fits : fits_int64 (pos (b - a + k)) ≡ true = ground arith in
          let small : fits_int64 (pos (steps (b - a) k)) ≡ true =
            ground (arith, div-le_self (b - a + k) (suc k)) in
          let distance : fits_int64 (pos (b - a)) ≡ true = ground arith in
          let sum : fits_int64 (pos (b - a + suc k)) ≡ true = ground arith in
          rw (up, some_left, span, distance, more, sum, less_one (b - a) k, fits, small)
      | inr none_left ↦
          let nothing : b - a ≡ 0 = ground arith in
          rw (up, none_left, not_down, steps-none (b - a) k nothing)
    ]

pub slice_size-down :
    (a b k : ℕ)
    → fits_int64 (pos (a + suc k)) ≡ true
    → slice_size (record { start = pred a; stop = pred b; step = negsuc k })
      ≡ ok (pos (steps (a - b) k))
unfolding slice_size quot neg_ℤ
slice_size-down a b k room =
    let down : ltb_ℤ (negsuc k) (pos 0) ≡ true = ground arith in
    let not_up : ltb_ℤ (pos 0) (negsuc k) ≡ false = ground arith in
    elim (Bool-cases (ltb_ℤ (pred b) (pred a))) [
      | inl some_left ↦
          let less : b < a = ground (arith, pred-lt a b) in
          let span : pred a -ℤ pred b ≡ pos (a - b) =
            eq_of_parts (pred a -ℤ pred b) (pos (a - b))
              (omega (arith, pred_parts a, pred_parts b, -ℤ_parts (pred a) (pred b))) in
          let more : pos (a - b) -ℤ negsuc k ≡ pos (a - b + suc k) =
            eq_of_parts (pos (a - b) -ℤ negsuc k) (pos (a - b + suc k))
              (omega (arith, -ℤ_parts (pos (a - b)) (negsuc k))) in
          let divisor : fits_int64 (pos (suc k)) ≡ true = ground arith in
          let fits : fits_int64 (pos (a - b + k)) ≡ true = ground arith in
          let small : fits_int64 (pos (steps (a - b) k)) ≡ true =
            ground (arith, div-le_self (a - b + k) (suc k)) in
          let distance : fits_int64 (pos (a - b)) ≡ true = ground arith in
          let sum : fits_int64 (pos (a - b + suc k)) ≡ true = ground arith in
          rw (
            not_up,
            down,
            some_left,
            divisor,
            span,
            distance,
            more,
            sum,
            less_one (a - b) k,
            fits,
            small,
          )
      | inr none_left ↦
          let nothing : a - b ≡ 0 = ground (arith, pred-lt a b) in
          rw (not_up, down, none_left, steps-none (a - b) k nothing)
    ]
