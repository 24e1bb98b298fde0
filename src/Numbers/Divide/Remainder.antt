-- ===== src/Numbers/Divide/Remainder.antt =====
-- Floor division and modulo on int64_t are C's `/` and `%`: they fit together, and round towards zero.
use chloride.Base.{ℕ, zero, suc, ◌+◌, ◌/◌, ◌%◌, ◌≤◌, ◌<◌, ◌≡◌, ◌≢◌, true, false, arith, ap, refl}
use native.Mathlib.Nat.{div-le_self, div-lt_self, mod-lt, zero-mod}
use chloride.Base.Int.{
  ℤ, pos, negsuc, neg_of, ◌+ℤ◌, ◌*ℤ◌, ◌≤ℤ◌, fits_int64, int64_min, eqb_ℤ, quot, rem, pos_part,
  neg_part,
}
use chloride.Base.Int.Laws.{quot-rem}
use chloride.Base.Run.{ok}
use chloride.Numbers.{Gmp, int64, NumberObject, to_bool}
use chloride.Numbers.Built.{new_number_object_from_int64-eq}
use chloride.Numbers.Divide.{returned, floor_division, modulo, floor_divide_int64, modulo_int64}
use chloride.Numbers.Divide.Quotient.{fits-quot}

-- the one pair of int64_t whose quotient is no int64_t
abbrev pub QuotientOverflows : ℤ → ℤ → Type 0
QuotientOverflows a b = (a ≡ int64_min) × (b ≡ negsuc 0)

fits-quot_neg :
    (n : ℤ) (d : ℕ)
    → fits_int64 n ≡ true
    → ¬ QuotientOverflows n (negsuc d)
    → fits_int64 (quot n (negsuc d)) ≡ true
unfolding quot
fits-quot_neg (pos n) d h inside = fits-small (n / suc d) (div-le_self n (suc d))
  where
    fits-small : (m : ℕ) → m ≤ n → fits_int64 (neg_of m) ≡ true
    fits-small zero le = refl
    fits-small (suc m) le = ground arith
fits-quot_neg (negsuc n) zero h inside =
    let other : n ≢ 0x7fff_ffff_ffff_ffff = λ e. inside (ap negsuc e, refl) in
    ground (arith, div-le_self (suc n) 1)
fits-quot_neg (negsuc n) (suc d) h inside =
    ground (arith, div-lt_self {n = suc n} {k = suc (suc d)} (omega arith) (omega arith))

pub fits-quotient :
    (a b : ℤ)
    → fits_int64 a ≡ true
    → eqb_ℤ b (pos 0) ≡ false
    → ¬ QuotientOverflows a b
    → fits_int64 (quot a b) ≡ true
fits-quotient a (pos zero) ha nonzero inside = absurd (ground arith)
fits-quotient a (pos (suc d)) ha nonzero inside = fits-quot a d ha
fits-quotient a (negsuc d) ha nonzero inside = fits-quot_neg a d ha inside

-- the size of an integer
abbrev pub abs : ℤ → ℕ
abs a = pos_part a + neg_part a

-- a remainder is smaller than the divisor
pub rem-lt : (a b : ℤ) → eqb_ℤ b (pos 0) ≡ false → abs (rem a b) < abs b
unfolding rem
rem-lt (pos a) b h = let small : a % abs b < abs b = mod-lt a (ground arith) in omega (arith, small)
rem-lt (negsuc a) b h =
    let small : suc a % abs b < abs b = mod-lt (suc a) (ground arith) in
    rw (abs-neg_of (suc a % abs b)) small
  where
    abs-neg_of : (m : ℕ) → abs (neg_of m) ≡ m
    abs-neg_of zero = refl
    abs-neg_of (suc m) = omega arith

-- the sign of a remainder is the dividend's
pub rem-sign : (a b : ℤ) → (pos 0 ≤ℤ a → pos 0 ≤ℤ rem a b) × (a ≤ℤ pos 0 → rem a b ≤ℤ pos 0)
unfolding rem
rem-sign (pos zero) b = (λ h. omega arith, λ h. rw (zero-mod (abs b)) (omega arith))
rem-sign (pos (suc a)) b = (λ h. omega arith, λ h. absurd (omega arith))
rem-sign (negsuc a) b = (λ h. absurd (omega arith), λ h. neg_of-le (suc a % abs b))
  where
    neg_of-le : (m : ℕ) → neg_of m ≤ℤ pos 0
    neg_of-le zero = omega arith
    neg_of-le (suc m) = omega arith

-- the number object of an int64_t
abbrev pub object : {Q : Type 0} → ℤ → NumberObject Q
object n = record { as_number = int64 n; as_bool = to_bool n }

module _ {Q : Type 0} (gmp : Gmp Q) where
  pub floor_division-modulo :
      (a b : ℤ)
      → fits_int64 a ≡ true
      → eqb_ℤ b (pos 0) ≡ false
      → ¬ QuotientOverflows a b
      → (q : ℤ) × (r : ℤ) × (floor_division gmp (int64 a) (int64 b) ≡ ok (returned (object q)))
        × (modulo gmp (int64 a) (int64 b) ≡ ok (returned (object r)))
        × (q *ℤ b +ℤ r ≡ a)
        × (abs r < abs b)
        × (pos 0 ≤ℤ a → pos 0 ≤ℤ r)
        × (a ≤ℤ pos 0 → r ≤ℤ pos 0)
  unfolding floor_division modulo floor_divide_int64 modulo_int64
  floor_division-modulo a b ha nonzero inside =
      let fits = fits-quotient a b ha nonzero inside in
      let quotient = new_number_object_from_int64-eq {Q = Q} (quot a b) in
      let remainder = new_number_object_from_int64-eq {Q = Q} (rem a b) in
      (
        quot a b,
        rem a b,
        rw (nonzero, fits, quotient),
        rw (nonzero, fits, remainder),
        quot-rem a b,
        rem-lt a b nonzero,
        (rem-sign a b).0,
        (rem-sign a b).1,
      )
