-- ===== src/Numbers/Divide/Exact.antt =====
-- Division is exact: of two int64_t, of two rational numbers and of both kinds.
use chloride.Base.{
  ℕ, zero, suc, ◌≡◌, Bool-cases, true, false, arith, inl, inr, sym, ap, ◌∙◌, refl, ◌⊎◌, none, some,
}
use chloride.Base.Int.{
  ℤ, pos, negsuc, neg_ℤ, fits_int64, int64_min, eqb_ℤ, ltb_ℤ, eqb_ℤ→eq, eqb_ℤ→ne,
}
use chloride.Base.Run.{Run, ok, fault, Returns, ◌>>=◌}
use chloride.Numbers.{
  Gmp, Laws, Number, int64, rational, NumberObject, new_number_object, mpq_set_si64, mpq_to_int64,
  to_mpq, new_number_object_from_num_and_den, mpq_div,
}
use chloride.Numbers.Built.{IsNormal, truth, Represents, new_number_object-Represents}
use chloride.Numbers.Arithmetic.Exact.{fits-neg}
use chloride.Numbers.Divide.Quotient.{quotient-Represents}
use chloride.Numbers.Divide.{
  returned, raised, returns, zero_division_error, divide_int64, division, divide_with,
}

negated_negsuc : (d : ℕ) → neg_ℤ (negsuc d) ≡ pos (suc d)
unfolding neg_ℤ
negated_negsuc d = refl

-- the operands whose negation, before a division by a negative number, is a signed overflow
abbrev pub NegationOverflows : {Q : Type 0} → Number Q → Number Q → Type 0
NegationOverflows (int64 a) (int64 (negsuc d)) = (a ≡ int64_min) ⊎ (negsuc d ≡ int64_min)
NegationOverflows a b = ⊥

module _ {Q : Type 0} (gmp : Gmp Q) (laws : Laws gmp) where
  -- a result of a fallible step
  returns-Returns :
      (r : Run (NumberObject Q)) (q : Q)
      → Returns r (λ o. Represents gmp o q)
      → Returns (returns r) (λ u. (o : NumberObject Q) × (u ≡ returned o) × Represents gmp o q)
  returns-Returns r q (o, e, holds) = rw e (returned o, refl, (o, refl, holds))

  -- a rational divisor that is not zero
  rational-Returns :
      (p q : Q)
      → eqb_ℤ (gmp.sgn q) (pos 0) ≡ false
      → Returns
          (mpq_div gmp p q >>= λ r. ok (new_number_object gmp r))
          (λ o. Represents gmp o (gmp.div p q))
  unfolding mpq_div
  rational-Returns p q h = rw h (
    new_number_object gmp (gmp.div p q),
    refl,
    new_number_object-Represents gmp laws (gmp.div p q),
  )

  pub sgn-of_int64 :
      (b : ℤ) → eqb_ℤ b (pos 0) ≡ false → eqb_ℤ (gmp.sgn (gmp.canonical b (pos 1))) (pos 0) ≡ false
  sgn-of_int64 b h = elim (Bool-cases (eqb_ℤ (gmp.sgn (gmp.canonical b (pos 1))) (pos 0))) [
    | inr other ↦ other
    | inl zero_sign ↦
        let same : b ≡ pos 0 =
          sym (laws.num_of b)
          ∙ ap gmp.num (laws.sgn_of (gmp.canonical b (pos 1)) zero_sign)
          ∙ laws.num_of (pos 0) in
        absurd (eqb_ℤ→ne b (pos 0) h same)
  ]

  pub division-exact :
      (a b : Number Q)
      → IsNormal gmp a
      → IsNormal gmp b
      → truth gmp b ≡ true
      → ¬ NegationOverflows a b
      → Returns (division gmp a b) (λ u.
        (o : NumberObject Q) × (u ≡ returned o)
        × Represents gmp o (gmp.div (to_mpq gmp a) (to_mpq gmp b)))
  unfolding division divide_int64 to_mpq mpq_set_si64
  division-exact (int64 a) (int64 (pos zero)) ha hb t inside = absurd (ground arith)
  division-exact (int64 a) (int64 (pos (suc d))) ha hb t inside =
      let nonzero : eqb_ℤ (pos (suc d)) (pos 0) ≡ false = ground arith in
      let positive : ltb_ℤ (pos (suc d)) (pos 0) ≡ false = ground arith in
      rw (nonzero, positive, laws.div_of a d)
        (returns-Returns (new_number_object_from_num_and_den gmp a (pos (suc d)))
          (gmp.canonical a (pos (suc d))) (quotient-Represents gmp laws a d ha))
  division-exact (int64 a) (int64 (negsuc d)) ha hb t inside =
      let negated = fits-neg a ha (λ e. inside (inl e)) in
      let divisor = fits-neg (negsuc d) hb (λ e. inside (inr e)) in
      let nonzero : eqb_ℤ (negsuc d) (pos 0) ≡ false = ground arith in
      let negative : ltb_ℤ (negsuc d) (pos 0) ≡ true = ground arith in
      let flipped : neg_ℤ (negsuc d) ≡ pos (suc d) = negated_negsuc d in
      rw (nonzero, negative, negated, divisor, flipped, laws.div_of_neg a d)
        (returns-Returns (new_number_object_from_num_and_den gmp (neg_ℤ a) (pos (suc d)))
          (gmp.canonical (neg_ℤ a) (pos (suc d)))
          (quotient-Represents gmp laws (neg_ℤ a) d negated))
  division-exact (int64 a) (rational q) ha hb t inside =
      returns-Returns
        (mpq_div gmp (gmp.canonical a (pos 1)) q >>= λ r. ok (new_number_object gmp r))
        (gmp.div (gmp.canonical a (pos 1)) q)
        (rational-Returns (gmp.canonical a (pos 1)) q (ground arith))
  division-exact (rational p) (int64 b) ha hb t inside =
      let nonzero : eqb_ℤ b (pos 0) ≡ false = ground arith in
      rw nonzero (
        returns-Returns
          (mpq_div gmp p (gmp.canonical b (pos 1)) >>= λ r. ok (new_number_object gmp r))
          (gmp.div p (gmp.canonical b (pos 1)))
          (rational-Returns p (gmp.canonical b (pos 1)) (sgn-of_int64 b nonzero)))
  division-exact (rational p) (rational q) ha hb t inside =
      returns-Returns (mpq_div gmp p q >>= λ r. ok (new_number_object gmp r)) (gmp.div p q)
        (rational-Returns p q (ground arith))

  -- a normal number that counts as false is the int64_t 0
  pub falsehood : (b : Number Q) → IsNormal gmp b → truth gmp b ≡ false → b ≡ int64 (pos 0)
  unfolding mpq_to_int64
  falsehood (int64 b) hb t = ap int64 (eqb_ℤ→eq b (pos 0) (ground arith))
  falsehood (rational q) hb t =
      let same = laws.sgn_of q (ground arith) in
      let unit = ap gmp.den same ∙ laws.den_of (pos 0) in
      let whole = ap gmp.num same ∙ laws.num_of (pos 0) in
      let bad : some (pos 0) ≡ none = rw (unit, whole) at hb in absurd (ground arith)

  pub divide_with-zero :
      (fast : ℤ → ℤ → Run (NumberObject Q)) (slow : Q → Q → Run Q) (a b : Number Q)
      → IsNormal gmp b
      → truth gmp b ≡ false
      → divide_with gmp fast slow a b ≡ ok (raised zero_division_error)
  divide_with-zero fast slow (int64 a) b hb t = rw (falsehood b hb t)
  divide_with-zero fast slow (rational p) b hb t = rw (falsehood b hb t)

  pub division-NegationOverflows :
      (a b : Number Q) → IsNormal gmp a → NegationOverflows a b → division gmp a b ≡ fault
  unfolding division divide_int64 neg_ℤ
  division-NegationOverflows (int64 a) (int64 (pos d)) ha never = elim never [ ]
  division-NegationOverflows (int64 a) (int64 (negsuc d)) ha over =
      let nonzero : eqb_ℤ (negsuc d) (pos 0) ≡ false = ground arith in
      let negative : ltb_ℤ (negsuc d) (pos 0) ≡ true = ground arith in
      rw (nonzero, negative)
        (elim over [
          | inl lowest ↦ rw lowest
          | inr lowest ↦ elim (Bool-cases (fits_int64 (neg_ℤ a))) [
            | inl negated ↦
                let large : fits_int64 (pos (suc d)) ≡ false = ground arith in rw (negated, large)
            | inr large ↦ rw large
          ]
        ])
  division-NegationOverflows (int64 a) (rational q) ha never = elim never [ ]
  division-NegationOverflows (rational p) (int64 b) ha never = elim never [ ]
  division-NegationOverflows (rational p) (rational q) ha never = elim never [ ]
