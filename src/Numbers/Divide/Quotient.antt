-- ===== src/Numbers/Divide/Quotient.antt =====
-- The quotient of two integers, new_number_object_from_num_and_den, is a normal number.
use chloride.Base.{
  ℕ, zero, suc, ◌+◌, ◌/◌, ◌≤◌, ◌≡◌, ◌≢◌, Bool-cases, true, false, ◌&&◌, arith, inl, inr, sym, ap,
  ◌∙◌, refl,
}
use native.Mathlib.Nat.{div-le_self, zero-mod}
use chloride.Base.Int.{ℤ, pos, negsuc, neg_of, fits_int64, eqb_ℤ, quot, rem, eqb_ℤ→eq, eqb_ℤ→ne}
use chloride.Base.Run.{Returns}
use chloride.Numbers.{
  Gmp, Laws, int64, rational, mpq_set_si64, mpq_to_int64, to_mpq, to_bool, is_small,
  new_number_object_from_num_and_den,
}
use chloride.Numbers.Built.{Represents, small_ints-index}

-- the quotient by a positive integer is no larger than the dividend
pub fits-quot : (n : ℤ) (d : ℕ) → fits_int64 n ≡ true → fits_int64 (quot n (pos (suc d))) ≡ true
unfolding quot
fits-quot (pos n) d h = ground (arith, div-le_self n (suc d))
fits-quot (negsuc n) d h =
    let small : suc n / suc d ≤ suc n = div-le_self (suc n) (suc d) in
    fits-neg_of (suc n / suc d) (ground arith)
  where
    fits-neg_of : (m : ℕ) → m ≤ 0x8000_0000_0000_0000 → fits_int64 (neg_of m) ≡ true
    fits-neg_of zero h = refl
    fits-neg_of (suc m) h = ground arith

rem-zero : (d : ℕ) → rem (pos 0) (pos (suc d)) ≡ pos 0
unfolding rem
rem-zero d = ap pos (zero-mod (suc d + 0))

module _ {Q : Type 0} (gmp : Gmp Q) (laws : Laws gmp) where
  int64-Represents :
      (n : ℤ) (q : Q)
      → fits_int64 n ≡ true
      → gmp.canonical n (pos 1) ≡ q
      → Represents gmp (record { as_number = int64 n; as_bool = to_bool n }) q
  unfolding to_mpq mpq_set_si64
  int64-Represents n q h e = record { normal = h; value = e; flag = refl }

  -- a quotient that is no integer is not zero either
  inexact-Represents :
      (n : ℤ) (d : ℕ)
      → rem n (pos (suc d)) ≢ pos 0
      → Represents gmp
          (record { as_number = rational (gmp.canonical n (pos (suc d))); as_bool = to_bool n })
          (gmp.canonical n (pos (suc d)))
  unfolding to_mpq mpq_to_int64
  inexact-Represents n d h =
      let fraction = laws.inexact n d h in
      let q = gmp.canonical n (pos (suc d)) in
      record {
        normal = elim (Bool-cases (eqb_ℤ (gmp.den q) (pos 1))) [
          | inl unit ↦ absurd (fraction (eqb_ℤ→eq (gmp.den q) (pos 1) unit))
          | inr other ↦ rw other
        ];
        value = refl;
        flag = elim (Bool-cases (eqb_ℤ (gmp.sgn q) (pos 0))) [
          | inl none_left ↦
              absurd (fraction (ap gmp.den (laws.sgn_of q none_left) ∙ laws.den_of (pos 0)))
          | inr some_left ↦ elim (Bool-cases (eqb_ℤ n (pos 0))) [
            | inl zero_num ↦
                absurd (
                  h (
                    ap (λ (m : ℤ). rem m (pos (suc d))) (eqb_ℤ→eq n (pos 0) zero_num) ∙ rem-zero d))
            | inr num ↦ rw (num, some_left)
          ]
        ];
      }

  pub quotient-Represents :
      (n : ℤ) (d : ℕ)
      → fits_int64 n ≡ true
      → Returns
          (new_number_object_from_num_and_den gmp n (pos (suc d)))
          (λ o. Represents gmp o (gmp.canonical n (pos (suc d))))
  unfolding new_number_object_from_num_and_den mpq_set_si64
  quotient-Represents n d h =
      let q = gmp.canonical n (pos (suc d)) in
      let positive : eqb_ℤ (pos (suc d)) (pos 0) ≡ false = ground arith in
      elim (Bool-cases (eqb_ℤ (pos (suc d)) (pos 1) && is_small n)) [
        | inl shared ↦
            let unit : pos 1 ≡ pos (suc d) = sym (eqb_ℤ→eq (pos (suc d)) (pos 1) (ground arith)) in
            let small : is_small n ≡ true = ground arith in
            rw (shared, small_ints-index {Q = Q} n small)
              (_, refl, int64-Represents n q h (ap (gmp.canonical n) unit))
        | inr built ↦ elim (Bool-cases (eqb_ℤ (rem n (pos (suc d))) (pos 0))) [
          | inl whole ↦
              rw (built, positive, whole, fits-quot n d h)
                (
                  _,
                  refl,
                  int64-Represents (quot n (pos (suc d))) q (fits-quot n d h)
                      (sym (laws.exact n d (eqb_ℤ→eq (rem n (pos (suc d))) (pos 0) whole))),
                )
          | inr left ↦ elim (Bool-cases (eqb_ℤ (pos (suc d)) (pos 1))) [
            | inl unit ↦
                rw (built, positive, left, unit)
                  (
                    _,
                    refl,
                    int64-Represents n q h
                        (ap (gmp.canonical n) (sym (eqb_ℤ→eq (pos (suc d)) (pos 1) unit))),
                  )
            | inr many ↦
                rw (built, positive, left, many)
                  (_, refl, inexact-Represents n d (eqb_ℤ→ne (rem n (pos (suc d))) (pos 0) left))
          ]
        ]
      ]
