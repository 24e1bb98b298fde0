-- ===== src/Slices/Getitem.antt =====
-- ARRAY_TYPE's `__getitem__` with a slice.
use chloride.Base.{
  ℕ, ◌+◌, ◌≡◌, ◌⊎◌, ◌≢◌, refl, ap, ◌∙◌, Bool-cases, true, false, inl, inr, List, length, arith,
}
use chloride.Base.Int.{ℤ, pos, pos_part, neg_part, fits_int64, eqb_ℤ, eqb_ℤ→eq, eqb_ℤ→ne, int64_max}
use chloride.Base.Run.{ok, Returns, ◌>>=◌}
use chloride.Numbers.Divide.{Outcome, returned, raised, runtime_error}
use chloride.Ranges.{past}
use chloride.Slices.{
  Field, null, no_int64, int64_field, Slice, SliceIndices, slice_indices, getitem_slice, bounds,
  to_i64,
}
use chloride.Slices.Indices.{InRange}
use chloride.Slices.Bounds.{FitsField, IsStep, IsIndices, bounds-IsIndices}
use chloride.Slices.Picked.{index, Picked, slice_size-Visited, copy_items-Picked}

-- The fields that slice_indices refuses: no int64_t, or the step 0.
abbrev pub Refused : Slice → Type 0
Refused s =
    (s.start ≡ no_int64)
    ⊎ ((s.stop ≡ no_int64) ⊎ ((s.step ≡ no_int64) ⊎ (s.step ≡ int64_field (pos 0))))

-- A step whose size can be added to the length without leaving int64_t.
abbrev pub FitsStep : ℕ → Field → Type 0
FitsStep len (int64_field n) = fits_int64 (pos (len + (pos_part n + neg_part n))) ≡ true
FitsStep len f = fits_int64 (pos (len + 1)) ≡ true

null-no_int64 : null ≢ no_int64
null-no_int64 e = ground arith

int64_field-no_int64 : (n : ℤ) → int64_field n ≢ no_int64
int64_field-no_int64 n e = ground arith

converted :
    (f : Field) (fallback : ℤ)
    → ((f ≡ no_int64) × (to_i64 f fallback ≡ raised runtime_error))
      ⊎ ((n : ℤ) × (to_i64 f fallback ≡ returned n) × (f ≢ no_int64))
converted null fallback = inr (fallback, refl, null-no_int64)
converted no_int64 fallback = inl (refl, refl)
converted (int64_field n) fallback = inr (n, refl, int64_field-no_int64 n)

IsStep-cases :
    (len : ℕ) (f : Field)
    → FitsStep len f
    → (((f ≡ no_int64) × (to_i64 f (pos 1) ≡ raised runtime_error))
        ⊎ ((f ≡ int64_field (pos 0)) × (to_i64 f (pos 1) ≡ returned (pos 0))))
      ⊎ ((c : ℤ) × (to_i64 f (pos 1) ≡ returned c)
          × (fits_int64 (pos (len + (pos_part c + neg_part c))) ≡ true)
          × (eqb_ℤ c (pos 0) ≡ false)
          × IsStep f c)
IsStep-cases len null room = inr (pos 1, refl, ground arith, refl, refl)
IsStep-cases len no_int64 room = inl (inl (refl, refl))
IsStep-cases len (int64_field n) room = elim (Bool-cases (eqb_ℤ n (pos 0))) [
  | inl none_set ↦
      let same = eqb_ℤ→eq n (pos 0) none_set in
      inl (inr (ap int64_field same, ap (λ (m : ℤ). returned m) same))
  | inr some_set ↦ inr (n, refl, room, some_set, (refl, eqb_ℤ→ne n (pos 0) some_set))
]

module _ {ℓ} {A : Type ℓ} where
  -- what is taken of the array, for what the slice stands for
  abbrev pub Taken : List A → Slice → Outcome (List A) → Type ℓ
  Taken arr s r =
      (i : SliceIndices) × (xs : List A) × (slice_indices s (pos (length arr)) ≡ ok (returned i))
      × IsIndices s (length arr) i
      × InRange (length arr) i
      × (r ≡ returned xs)
      × Picked arr i 0 xs
      × (past false (index i (length xs)) i.stop i.step ≡ true)

  taken :
      (arr : List A) (s : Slice) (i : SliceIndices)
      → slice_indices s (pos (length arr)) ≡ ok (returned i)
      → IsIndices s (length arr) i
      → InRange (length arr) i
      → fits_int64 (pos (length arr + (pos_part i.step + neg_part i.step))) ≡ true
      → Returns (getitem_slice arr s) (Taken arr s)
  unfolding getitem_slice
  taken arr s i known meant range room =
      let (n, sized, all, end) = slice_size-Visited (length arr) i range room in
      let (xs, runs, (counted, picked)) =
        copy_items-Picked arr i 0 n (λ j h. all j (omega arith)) in
      rw (known, sized, runs)
        (returned xs, refl, (i, xs, refl, meant, range, refl, picked, rw counted end))

  with_step :
      (arr : List A) (s : Slice) (step : ℤ)
      → s.start ≢ no_int64
      → s.stop ≢ no_int64
      → FitsField s.start
      → FitsField s.stop
      → IsStep s.step step
      → fits_int64 (pos (length arr + (pos_part step + neg_part step))) ≡ true
      → eqb_ℤ step (pos 0) ≡ false
      → slice_indices s (pos (length arr))
        ≡ (bounds s (pos (length arr)) step >>= λ i. ok (returned i))
      → Returns (getitem_slice arr s) (Taken arr s)
  with_step arr s step na nb fa fb stepped room nonzero known =
      let short : fits_int64 (pos (length arr)) ≡ true = ground arith in
      let (i, runs, same, range, meant) =
        bounds-IsIndices s (length arr) step na nb fa fb short stepped nonzero in
      taken arr s i (known ∙ rw runs) meant range (rw same room)

  -- For a slice whose numbers are int64_t, and a step whose size, added to the length of the array, is
  -- an int64_t too, `__getitem__` ends normally and never leaves the array. It raises an error exactly if
  -- a field is no int64_t or the step is 0; else it returns the items at the indices from the start on in
  -- steps, as long as they lie before the stop. The step is 1 if it is null. For a positive step the start
  -- is 0 and the stop the length if they are null, and a number, a negative one counted from the end, is
  -- clamped to 0 and the length; for a negative step they are the last index and -1, and a number is
  -- clamped to -1 and the last index.
  pub getitem_slice-Taken :
      (arr : List A) (s : Slice)
      → FitsField s.start
      → FitsField s.stop
      → FitsStep (length arr) s.step
      → Returns
          (getitem_slice arr s)
          (λ r. (Refused s × (r ≡ raised runtime_error)) ⊎ Taken arr s r)
  unfolding getitem_slice slice_indices
  getitem_slice-Taken arr s fa fb room = elim (converted s.start (pos 0)) [
    | inl (bad, e) ↦
        rw (getitem_slice, slice_indices, e) (raised runtime_error, refl, inl (inl bad, refl))
    | inr (a, ea, na) ↦ elim (converted s.stop int64_max) [
      | inl (bad, e) ↦
          rw (getitem_slice, slice_indices, ea, e)
            (raised runtime_error, refl, inl (inr (inl bad), refl))
      | inr (b, eb, nb) ↦ elim (IsStep-cases (length arr) s.step room) [
        | inl (inl (bad, e)) ↦
            rw (getitem_slice, slice_indices, ea, eb, e)
              (raised runtime_error, refl, inl (inr (inr (inl bad)), refl))
        | inl (inr (none_set, e)) ↦
            rw (getitem_slice, slice_indices, ea, eb, e)
              (raised runtime_error, refl, inl (inr (inr (inr none_set)), refl))
        | inr (c, ec, fits, nonzero, stepped) ↦
            let (r, runs, picked) =
              with_step arr s c na nb fa fb stepped fits nonzero
                (rw (slice_indices, ea, eb, ec, nonzero)) in
            (r, runs, inr picked)
      ]
    ]
  ]
