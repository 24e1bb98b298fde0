-- ===== src/Ranges.antt =====
-- The iterator over a range, src/runtime/objects/iterator/range_iterator.c: `__init__`, `__iter__` and
-- `__next__`, on int64_t and on number objects. DO_MAKE_RANGE_INCLUSIVE of src/runtime/runtime.c sets
-- `inclusive`. What `__next__` leaves is the item and the iterator behind it, or StopIteration.
pub mod Ends
use chloride.Base.{
  ℕ, zero, suc, Bool, true, false, ◌&&◌, ◌||◌, Option, none, some, List, [], ◌∷◌, if◌then◌else◌,
}
use chloride.Base.Int.{ℤ, pos, ◌+ℤ◌, ltb_ℤ, leb_ℤ, eqb_ℤ, checked}
use chloride.Base.Run.{Run, ok, ◌>>=◌}
use chloride.Numbers.{
  Gmp, Number, int64, rational, NumberObject, small_ints, new_number_object_from_int64,
}
use chloride.Numbers.Arithmetic
use chloride.Numbers.Compare.{less_than, less_than_equal, greater_than, greater_than_equal}
use chloride.Numbers.Divide.{Outcome, returned, raised, runtime_error}
use chloride.Numbers.Instructions.{Value, number}

-- the unions `current`, `stop` and `step`, by `is_int64`
pub data Bounds (Q : Type 0) : Type 0 where
  int64_bounds : (current stop step : ℤ) → Bounds Q
  object_bounds : (current stop step : NumberObject Q) → Bounds Q

-- struct as_range_iterator
pub record RangeIterator (Q : Type 0) : Type 0 where
  pub inclusive : Bool
  pub bounds : Bounds Q

-- the test for StopIteration on int64_t
unfoldable pub past : Bool → ℤ → ℤ → ℤ → Bool
past inclusive current stop step =
    if inclusive
    then (ltb_ℤ (pos 0) step && ltb_ℤ stop current) || (ltb_ℤ step (pos 0) && ltb_ℤ current stop)
    else (ltb_ℤ (pos 0) step && leb_ℤ stop current) || (ltb_ℤ step (pos 0) && leb_ℤ current stop)

module _ {Q : Type 0} where
  abbrev pub exclusive : Bounds Q → Outcome (RangeIterator Q)
  exclusive b = returned (record { inclusive = false; bounds = b })

  -- the bounds, of one, two or three numbers; small_ints[256] is 0, small_ints[257] is 1
  abbrev pub bounds_of : List (NumberObject Q) → Outcome (RangeIterator Q)
  bounds_of (stop ∷ []) = elim stop.as_number [
    | int64 b ↦ exclusive (int64_bounds (pos 0) b (pos 1))
    | rational q ↦ exclusive (object_bounds (small_ints 256) stop (small_ints 257))
  ]
  bounds_of (start ∷ stop ∷ []) = elim start.as_number [
    | rational q ↦ exclusive (object_bounds start stop (small_ints 257))
    | int64 a ↦ elim stop.as_number [
      | rational q ↦ exclusive (object_bounds start stop (small_ints 257))
      | int64 b ↦ exclusive (int64_bounds a b (pos 1))
    ]
  ]
  bounds_of (start ∷ stop ∷ step ∷ []) = elim start.as_number [
    | rational q ↦ exclusive (object_bounds start stop step)
    | int64 a ↦ elim stop.as_number [
      | rational q ↦ exclusive (object_bounds start stop step)
      | int64 b ↦ elim step.as_number [
        | rational q ↦ exclusive (object_bounds start stop step)
        | int64 c ↦ if eqb_ℤ c (pos 0) then raised runtime_error else exclusive (int64_bounds a b c)
      ]
    ]
  ]
  bounds_of args = raised runtime_error

module _ {Q O : Type 0} where
  abbrev pub all_numbers : List (Value Q O) → Option (List (NumberObject Q))
  all_numbers [] = some []
  all_numbers (number x ∷ args) = elim (all_numbers args) [ none ↦ none | some xs ↦ some (x ∷ xs) ]
  all_numbers (v ∷ args) = none

  -- `__init__`, on the arguments behind `self`
  unfoldable pub init : List (Value Q O) → Outcome (RangeIterator Q)
  init args = elim (all_numbers args) [ none ↦ raised runtime_error | some xs ↦ bounds_of xs ]

module _ {Q : Type 0} where
  -- `__iter__` returns a copy
  unfoldable pub iter : RangeIterator Q → RangeIterator Q
  iter self = self

  unfoldable pub make_inclusive : RangeIterator Q → RangeIterator Q
  make_inclusive self = record self { inclusive = true }

module _ {Q : Type 0} (gmp : Gmp Q) where
  -- the test for StopIteration on number objects, which does not look at `inclusive`
  abbrev pub past_objects : Number Q → Number Q → Number Q → Bool
  past_objects current stop step =
      (greater_than gmp step (int64 (pos 0)) && greater_than_equal gmp current stop)
      || (less_than gmp step (int64 (pos 0)) && less_than_equal gmp current stop)

  -- `__next__`
  unfoldable pub next : RangeIterator Q → Run (Option (NumberObject Q × RangeIterator Q))
  next self = elim self.bounds [
    | int64_bounds current stop step ↦
        if past self.inclusive current stop step
        then ok none
        else (checked (current +ℤ step) >>= λ n. ok (
            some (
              new_number_object_from_int64 current,
              record self { bounds = int64_bounds n stop step },
            )))
    | object_bounds current stop step ↦
        if past_objects current.as_number stop.as_number step.as_number
        then ok none
        else (Arithmetic.add gmp current.as_number step.as_number >>= λ n.
            ok (some (current, record self { bounds = object_bounds n stop step })))
  ]

  -- the loop of `__setitem__` in objects/array/array.c that collects the items up to StopIteration: the
  -- items, and the iterator unless the fuel ran out
  unfoldable pub collect :
      ℕ → RangeIterator Q → Run (List (NumberObject Q) × Option (RangeIterator Q))
  collect zero self = ok ([], none)
  collect (suc fuel) self = next self >>= λ r. elim r [
    | none ↦ ok ([], some self)
    | some s ↦ collect fuel s.1 >>= λ q. ok (s.0 ∷ q.0, q.1)
  ]
