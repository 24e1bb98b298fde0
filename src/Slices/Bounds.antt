-- ===== src/Slices/Bounds.antt =====
-- slice_indices of src/runtime/objects/slice/slice.c: its start, stop and step are what the fields of the
-- slice and the length determine.
use chloride.Base.{
  ℕ, zero, suc, ◌≤◌, ◌≡◌, ◌≢◌, ◌⊎◌, refl, sym, Bool-cases, true, false, inl, inr, ltb, arith,
}
use chloride.Base.Int.{
  ℤ, pos, negsuc, ◌+ℤ◌, ◌-ℤ◌, ◌≤ℤ◌, ◌<ℤ◌, fits_int64, ltb_ℤ, leb_ℤ, eqb_ℤ, +ℤ_parts, -ℤ_parts,
  one_part,
}
use chloride.Base.Run.{ok}
use chloride.Slices.{
  Field, null, no_int64, int64_field, Slice, SliceIndices, from_end, clamp_up, clamp_down, bound,
  bounds,
}
use chloride.Slices.Indices.{pred, InRange, upward, downward}

-- A field whose number is an int64_t.
abbrev pub FitsField : Field → Type 0
FitsField (int64_field n) = fits_int64 n ≡ true
FitsField f = Unit {0}

-- The position that a number names in an array of this length: a negative one counts from the end.
abbrev pub IsPosition : ℕ → ℤ → ℤ → Type 0
IsPosition len n m = ((pos 0 ≤ℤ n) × (m ≡ n)) ⊎ ((n <ℤ pos 0) × (m ≡ n +ℤ pos len))

-- The number from lo to hi that is next to m.
abbrev pub IsClamped : ℤ → ℤ → ℤ → ℤ → Type 0
IsClamped lo hi m x =
    ((m <ℤ lo) × (x ≡ lo)) ⊎ (((hi <ℤ m) × (x ≡ hi)) ⊎ ((lo ≤ℤ m) × (m ≤ℤ hi) × (x ≡ m)))

-- What a field stands for, as a bound from lo to hi.
abbrev pub IsBound : ℕ → (lo hi fallback : ℤ) → Field → ℤ → Type 0
IsBound len lo hi fallback null x = x ≡ fallback
IsBound len lo hi fallback no_int64 x = ¬ Unit {0}
IsBound len lo hi fallback (int64_field n) x = (m : ℤ) × IsPosition len n m × IsClamped lo hi m x

-- What stands for the step.
abbrev pub IsStep : Field → ℤ → Type 0
IsStep null c = c ≡ pos 1
IsStep no_int64 c = ¬ Unit {0}
IsStep (int64_field n) c = (c ≡ n) × (c ≢ pos 0)

-- What a slice of an array of this length stands for: with a positive step from the start, or 0, up to
-- the stop, or the length; with a negative one from the start, or the last item, down to the stop, or -1.
abbrev pub IsIndices : Slice → ℕ → SliceIndices → Type 0
IsIndices s len i =
    IsStep s.step i.step
    × (((pos 0 <ℤ i.step)
          × IsBound len (pos 0) (pos len) (pos 0) s.start i.start
          × IsBound len (pos 0) (pos len) (pos len) s.stop i.stop)
        ⊎ ((i.step <ℤ pos 0)
            × IsBound len (negsuc 0) (pos len -ℤ pos 1) (pos len -ℤ pos 1) s.start i.start
            × IsBound len (negsuc 0) (pos len -ℤ pos 1) (negsuc 0) s.stop i.stop))

from_end-ok :
    (m : ℤ) (len : ℕ)
    → fits_int64 m ≡ true
    → fits_int64 (pos len) ≡ true
    → (n : ℤ) × (from_end m (pos len) ≡ ok n) × IsPosition len m n
unfolding from_end
from_end-ok (pos m) len fits short = (pos m, ground arith, inl (omega arith, refl))
from_end-ok (negsuc m) len fits short =
    let within : fits_int64 (negsuc m +ℤ pos len) ≡ true =
      ground (arith, +ℤ_parts (negsuc m) (pos len), one_part (negsuc m +ℤ pos len)) in
    let negative : ltb_ℤ (negsuc m) (pos 0) ≡ true = ground arith in
    (negsuc m +ℤ pos len, rw (negative, within), inr (omega arith, refl))

clamp_up-IsClamped :
    (m : ℤ) (len : ℕ)
    → (a : ℕ) × (clamp_up m (pos len) ≡ pos a) × (a ≤ len) × IsClamped (pos 0) (pos len) m (pos a)
unfolding clamp_up
clamp_up-IsClamped (negsuc m) len = (0, ground arith, omega arith, inl (omega arith, refl))
clamp_up-IsClamped (pos m) len = elim (Bool-cases (ltb len m)) [
  | inl beyond ↦ (len, ground arith, omega arith, inr (inl (ground arith, refl)))
  | inr within ↦ (m, ground arith, ground arith, inr (inr (omega arith, ground arith, refl)))
]

pred-eq : (len : ℕ) → pos len -ℤ pos 1 ≡ pred len
unfolding ◌-ℤ◌
pred-eq zero = refl
pred-eq (suc n) = ground arith

clamp_down-IsClamped :
    (m : ℤ) (len : ℕ)
    → (a : ℕ) × (clamp_down m (pos len) ≡ pred a)
      × (a ≤ len)
      × IsClamped (negsuc 0) (pos len -ℤ pos 1) m (pred a)
unfolding clamp_down
clamp_down-IsClamped (negsuc zero) len = (
  0,
  ground arith,
  omega arith,
  inr (inr (omega arith, omega (arith, -ℤ_parts (pos len) (pos 1)), refl)),
)
clamp_down-IsClamped (negsuc (suc m)) len = (0, ground arith, omega arith, inl (omega arith, refl))
clamp_down-IsClamped (pos m) len = elim (Bool-cases (leb_ℤ (pos len) (pos m))) [
  | inl beyond ↦
      let above : ltb_ℤ (pos m) (negsuc 0) ≡ false = ground arith in
      (
        len,
        rw (above, beyond) (pred-eq len),
        omega arith,
        inr (inl (ground (arith, -ℤ_parts (pos len) (pos 1)), sym (pred-eq len))),
      )
  | inr within ↦
      let above : ltb_ℤ (pos m) (negsuc 0) ≡ false = ground arith in
      (
        suc m,
        rw (above, within),
        ground arith,
        inr (inr (omega arith, ground (arith, -ℤ_parts (pos len) (pos 1)), refl)),
      )
]

bound-up :
    (f : Field) (len fallback : ℕ)
    → f ≢ no_int64
    → FitsField f
    → fits_int64 (pos len) ≡ true
    → fallback ≤ len
    → (a : ℕ) × (bound f clamp_up (pos len) (pos fallback) ≡ ok (pos a))
      × (a ≤ len)
      × IsBound len (pos 0) (pos len) (pos fallback) f (pos a)
bound-up null len fallback number fits short h = (fallback, refl, h, refl)
bound-up no_int64 len fallback number fits short h = absurd (number refl)
bound-up (int64_field m) len fallback number fits short h =
    let (n, runs, place) = from_end-ok m len fits short in
    let (a, same, le, near) = clamp_up-IsClamped n len in (a, rw (runs, same), le, (n, place, near))

bound-down :
    (f : Field) (len fallback : ℕ)
    → f ≢ no_int64
    → FitsField f
    → fits_int64 (pos len) ≡ true
    → fallback ≤ len
    → (a : ℕ) × (bound f clamp_down (pos len) (pred fallback) ≡ ok (pred a))
      × (a ≤ len)
      × IsBound len (negsuc 0) (pos len -ℤ pos 1) (pred fallback) f (pred a)
bound-down null len fallback number fits short h = (fallback, refl, h, refl)
bound-down no_int64 len fallback number fits short h = absurd (number refl)
bound-down (int64_field m) len fallback number fits short h =
    let (n, runs, place) = from_end-ok m len fits short in
    let (a, same, le, near) = clamp_down-IsClamped n len in
    (a, rw (runs, same), le, (n, place, near))

pub bounds-IsIndices :
    (s : Slice) (len : ℕ) (step : ℤ)
    → s.start ≢ no_int64
    → s.stop ≢ no_int64
    → FitsField s.start
    → FitsField s.stop
    → fits_int64 (pos len) ≡ true
    → IsStep s.step step
    → eqb_ℤ step (pos 0) ≡ false
    → (i : SliceIndices) × (bounds s (pos len) step ≡ ok i)
      × (i.step ≡ step)
      × InRange len i
      × IsIndices s len i
unfolding bounds
bounds-IsIndices s len (pos zero) na nb fa fb short stepped nonzero = absurd (ground arith)
bounds-IsIndices s len (pos (suc k)) na nb fa fb short stepped nonzero =
    let (a, from, la, first) = bound-up s.start len 0 na fa short (omega arith) in
    let (b, to, lb, end) = bound-up s.stop len len nb fb short (omega arith) in
    let up : ltb_ℤ (pos 0) (pos (suc k)) ≡ true = ground arith in
    (
      record { start = pos a; stop = pos b; step = pos (suc k) },
      rw (up, from, to),
      refl,
      upward a b k la lb,
      (stepped, inl (omega arith, first, end)),
    )
bounds-IsIndices s len (negsuc k) na nb fa fb short stepped nonzero =
    let (a, from, la, first) = bound-down s.start len len na fa short (omega arith) in
    let (b, to, lb, end) = bound-down s.stop len 0 nb fb short (omega arith) in
    let down : ltb_ℤ (pos 0) (negsuc k) ≡ false = ground arith in
    (
      record { start = pred a; stop = pred b; step = negsuc k },
      rw (down, pred-eq len, from, to),
      refl,
      downward a b k la lb,
      (stepped, inr (omega arith, rw (pred-eq len) (rw (pred-eq len) at first), end)),
    )
