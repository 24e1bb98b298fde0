-- ===== src/Ranges/Ends.antt =====
-- A range of int64_t ends, and gives the numbers from its start on in steps.
use chloride.Base.{
  ℕ, zero, suc, ◌+◌, ◌-◌, ◌<◌, ◌≡◌, Bool, Bool-cases, true, false, some, List, [], ◌∷◌,
  if◌then◌else◌, inl, inr, ◌⊎◌, arith,
}
use chloride.Base.Int.{
  ℤ, pos, pos_part, neg_part, ◌+ℤ◌, ◌≤ℤ◌, ◌<ℤ◌, ltb_ℤ, eqb_ℤ, fits_int64, +ℤ_parts, one_part,
}
use chloride.Base.Run.{ok}
use chloride.Numbers.{Gmp, NumberObject, new_number_object_from_int64}
use chloride.Ranges.{RangeIterator, int64_bounds, past, next, collect}

-- how far the stop lies in the direction of the step, and one more
abbrev pub distance : ℤ → ℤ → ℤ → ℕ
distance current stop step =
    if ltb_ℤ (pos 0) step
    then suc (pos_part stop + neg_part current) - (neg_part stop + pos_part current)
    else suc (neg_part stop + pos_part current) - (pos_part stop + neg_part current)

-- n numbers from the current one on
unfoldable pub progression : {Q : Type 0} → ℕ → ℤ → ℤ → List (NumberObject Q)
progression zero current step = []
progression (suc n) current step =
    new_number_object_from_int64 current ∷ progression n (current +ℤ step) step

-- the number behind n steps
unfoldable pub after : ℕ → ℤ → ℤ → ℤ
after zero current step = current
after (suc n) current step = after n (current +ℤ step) step

abbrev pub range : {Q : Type 0} → Bool → ℤ → ℤ → ℤ → RangeIterator Q
range inclusive current stop step = record {
  inclusive = inclusive;
  bounds = int64_bounds current stop step;
}

next_fits :
    (inclusive : Bool) (current stop step : ℤ)
    → eqb_ℤ step (pos 0) ≡ false
    → fits_int64 current ≡ true
    → fits_int64 (stop +ℤ step) ≡ true
    → past inclusive current stop step ≡ false
    → fits_int64 (current +ℤ step) ≡ true
unfolding past
next_fits true current stop step nonzero fits last before = ground (
  arith,
  +ℤ_parts current step,
  +ℤ_parts stop step,
  one_part (current +ℤ step),
  one_part (stop +ℤ step),
)
next_fits false current stop step nonzero fits last before = ground (
  arith,
  +ℤ_parts current step,
  +ℤ_parts stop step,
  one_part (current +ℤ step),
  one_part (stop +ℤ step),
)

distance-lt :
    (inclusive : Bool) (current stop step : ℤ)
    → eqb_ℤ step (pos 0) ≡ false
    → past inclusive current stop step ≡ false
    → distance (current +ℤ step) stop step < distance current stop step
unfolding past
distance-lt true current stop step nonzero before =
    ground (arith, +ℤ_parts current step, one_part (current +ℤ step))
distance-lt false current stop step nonzero before =
    ground (arith, +ℤ_parts current step, one_part (current +ℤ step))

-- A number lies before the stop, in the direction of the step; an inclusive range reaches the stop.
abbrev pub Before : Bool → ℤ → ℤ → ℤ → Type 0
Before true current stop step =
    ((pos 0 <ℤ step) × (current ≤ℤ stop)) ⊎ ((step <ℤ pos 0) × (stop ≤ℤ current))
Before false current stop step =
    ((pos 0 <ℤ step) × (current <ℤ stop)) ⊎ ((step <ℤ pos 0) × (stop <ℤ current))

past-Before :
    (inclusive : Bool) (current stop step : ℤ)
    → eqb_ℤ step (pos 0) ≡ false
    → past inclusive current stop step ≡ false
    → Before inclusive current stop step
unfolding past
past-Before true current stop step nonzero before = ground arith
past-Before false current stop step nonzero before = ground arith

past-end :
    (inclusive : Bool) (current stop step : ℤ)
    → past inclusive current stop step ≡ true
    → ¬ Before inclusive current stop step
unfolding past
past-end true current stop step ended before = ground arith
past-end false current stop step ended before = ground arith

-- Every number of the progression lies before the stop.
abbrev pub AllBefore : Bool → ℕ → ℤ → ℤ → ℤ → Type 0
AllBefore inclusive zero current stop step = Unit {0}
AllBefore inclusive (suc n) current stop step =
    Before inclusive current stop step × AllBefore inclusive n (current +ℤ step) stop step

module _ {Q : Type 0} (gmp : Gmp Q) where
  -- From an int64_t range whose step is not 0 and whose stop can be left by one step without a signed
  -- overflow, calls of `__next__` end with StopIteration, within two calls more than the stop is away
  -- from the start. The items are the numbers from the start on in steps, all of them before the stop,
  -- which an inclusive range reaches, and the next one in the iterator is not.
  pub collect-progression :
      (fuel : ℕ) (inclusive : Bool) (current stop step : ℤ)
      → eqb_ℤ step (pos 0) ≡ false
      → fits_int64 current ≡ true
      → fits_int64 (stop +ℤ step) ≡ true
      → distance current stop step < fuel
      → (n : ℕ) × (collect gmp fuel (range inclusive current stop step)
          ≡ ok
              (progression n current step, some (range inclusive (after n current step) stop step)))
        × AllBefore inclusive n current stop step
        × (¬ Before inclusive (after n current step) stop step)
  unfolding collect next progression after
  collect-progression zero inclusive current stop step nonzero fits last less = absurd (omega arith)
  collect-progression (suc fuel) inclusive current stop step nonzero fits last less =
      elim (Bool-cases (past inclusive current stop step)) [
        | inl ended ↦ (0, rw (collect, ended), tt, past-end inclusive current stop step ended)
        | inr before ↦
            let onward = next_fits inclusive current stop step nonzero fits last before in
            let closer = distance-lt inclusive current stop step nonzero before in
            let (n, runs, all, end) =
              collect-progression fuel inclusive (current +ℤ step) stop step nonzero onward last
                (omega arith) in
            (
              suc n,
              rw (collect, before, onward, runs),
              (past-Before inclusive current stop step nonzero before, all),
              end,
            )
      ]
