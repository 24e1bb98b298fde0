-- ===== src/Slices.antt =====
-- Slices, src/runtime/objects/slice/slice.c: `__init__` and slice_indices, and what ARRAY_TYPE's
-- `__getitem__` of src/runtime/objects/array/array.c does with a slice and with an index.
pub mod Indices
pub mod Bounds
pub mod Picked
pub mod Getitem
use chloride.Base.{
  ℕ, zero, suc, ◌≡◌, Bool, ◌&&◌, ◌||◌, Option, none, some, List, [], ◌∷◌, length, get_elem?,
  if◌then◌else◌,
}
use chloride.Base.Int.{
  ℤ, pos, negsuc, pos_part, ◌+ℤ◌, ◌-ℤ◌, ◌*ℤ◌, neg_ℤ, quot, ltb_ℤ, leb_ℤ, eqb_ℤ, checked, int64_max,
}
use chloride.Base.Run.{Run, ok, exit_failure, ◌>>=◌}
use chloride.Numbers.Divide.{Outcome, returned, raised, runtime_error, index_error}

-- A field of a slice as slice_indices reads it: ARGON_NULL, an object for which argon_to_i64 reports an
-- error, or the int64_t that it returns.
pub data Field : Type 0 where
  null no_int64 : Field
  int64_field : ℤ → Field

pub record Slice : Type 0 where
  pub start : Field
  pub stop : Field
  pub step : Field

-- struct SliceIndices
pub record SliceIndices : Type 0 where
  pub start : ℤ
  pub stop : ℤ
  pub step : ℤ

-- `__init__`, on the arguments behind `self`
unfoldable pub init : List Field → Outcome Slice
init (b ∷ []) = returned (record { start = null; stop = b; step = null })
init (a ∷ b ∷ []) = returned (record { start = a; stop = b; step = null })
init (a ∷ b ∷ c ∷ []) = returned (record { start = a; stop = b; step = c })
init args = raised runtime_error

-- a field's number, or what stands for ARGON_NULL
abbrev pub to_i64 : Field → ℤ → Outcome ℤ
to_i64 null fallback = returned fallback
to_i64 no_int64 fallback = raised runtime_error
to_i64 (int64_field n) fallback = returned n

-- `if (n < 0) n += length;`
unfoldable pub from_end : ℤ → ℤ → Run ℤ
from_end n len = if ltb_ℤ n (pos 0) then checked (n +ℤ len) else ok n

-- the two nested conditional expressions, for a positive and for a negative step
unfoldable pub clamp_up : ℤ → ℤ → ℤ
clamp_up n len = if ltb_ℤ n (pos 0) then pos 0 else if ltb_ℤ len n then len else n

unfoldable pub clamp_down : ℤ → ℤ → ℤ
clamp_down n len = if ltb_ℤ n (negsuc 0) then negsuc 0 else if leb_ℤ len n then len -ℤ pos 1 else n

-- a bound that is ARGON_NULL, or a number that is clamped
abbrev pub bound : Field → (ℤ → ℤ → ℤ) → ℤ → ℤ → Run ℤ
bound (int64_field n) clamp len fallback = from_end n len >>= λ m. ok (clamp m len)
bound f clamp len fallback = ok fallback

-- slice_indices behind the conversions
unfoldable pub bounds : Slice → ℤ → ℤ → Run SliceIndices
bounds s len step =
    if ltb_ℤ (pos 0) step
    then (bound s.start clamp_up len (pos 0) >>= λ a.
        bound s.stop clamp_up len len >>= λ b. ok (record { start = a; stop = b; step = step }))
    else (bound s.start clamp_down len (len -ℤ pos 1) >>= λ a.
        bound s.stop clamp_down len (negsuc 0) >>= λ b.
        ok (record { start = a; stop = b; step = step }))

unfoldable pub slice_indices : Slice → ℤ → Run (Outcome SliceIndices)
slice_indices s len = elim (to_i64 s.start (pos 0)) [
  | raised e ↦ ok (raised e)
  | returned a ↦ elim (to_i64 s.stop int64_max) [
    | raised e ↦ ok (raised e)
    | returned b ↦ elim (to_i64 s.step (pos 1)) [
      | raised e ↦ ok (raised e)
      | returned c ↦
          if eqb_ℤ c (pos 0)
          then ok (raised runtime_error)
          else (bounds s len c >>= λ i. ok (returned i))
    ]
  ]
]

-- the number of items of a slice
unfoldable pub slice_size : SliceIndices → Run ℤ
slice_size i =
    if ltb_ℤ (pos 0) i.step && ltb_ℤ i.start i.stop
    then (checked (i.stop -ℤ i.start) >>= λ span. checked (span +ℤ i.step) >>= λ more.
        checked (more -ℤ pos 1) >>= λ n. checked (quot n i.step))
    else if ltb_ℤ i.step (pos 0) && ltb_ℤ i.stop i.start
    then (checked (neg_ℤ i.step) >>= λ d. checked (i.start -ℤ i.stop) >>= λ span.
        checked (span -ℤ i.step) >>= λ more. checked (more -ℤ pos 1) >>= λ n. checked (quot n d))
    else ok (pos 0)

module _ {ℓ} {A : Type ℓ} where
  -- darray_armem_get of an int64_t: a negative one is a uint64_t past every size
  abbrev pub get_at : List A → ℤ → Run A
  get_at arr (pos i) = elim (get_elem? arr i) [ none ↦ exit_failure | some x ↦ ok x ]
  get_at arr (negsuc i) = exit_failure

  -- the loop over the items, from the i-th on
  unfoldable pub copy_items : List A → ℤ → ℤ → ℕ → ℕ → Run (List A)
  copy_items arr start step i zero = ok []
  copy_items arr start step i (suc n) = get_at arr (start +ℤ pos i *ℤ step) >>= λ x.
      copy_items arr start step (suc i) n >>= λ xs. ok (x ∷ xs)

  -- the slice's part of `__getitem__`
  unfoldable pub getitem_slice : List A → Slice → Run (Outcome (List A))
  getitem_slice arr s = slice_indices s (pos (length arr)) >>= λ r. elim r [
    | raised e ↦ ok (raised e)
    | returned i ↦ slice_size i >>= λ n.
        copy_items arr i.start i.step 0 (pos_part n) >>= λ xs. ok (returned xs)
  ]

  -- its part for an index
  unfoldable pub getitem_index : List A → ℤ → Run (Outcome A)
  getitem_index arr n = from_end n (pos (length arr)) >>= λ i.
      if leb_ℤ (pos (length arr)) i || ltb_ℤ i (pos 0)
      then ok (raised index_error)
      else (get_at arr i >>= λ x. ok (returned x))
