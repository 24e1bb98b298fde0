-- ===== src/Numbers/Arithmetic/Exact.antt =====
-- The arithmetic of numbers is that of GMP's rational numbers: the fast paths on int64_t change no
-- result, and what they return is normal.
use chloride.Base.{◌≡◌, ◌≢◌, Bool-cases, true, not, arith, inl, inr, sym, ap, ◌∙◌, refl, ◌⊎◌}
use chloride.Base.Int.{
  ℤ, pos, negsuc, ◌+ℤ◌, ◌-ℤ◌, ◌*ℤ◌, neg_ℤ, fits_int64, int64_min, neg_ℤ_parts, checked,
}
use chloride.Base.Run.{ok, fault, Returns, ◌>>=◌}
use chloride.Numbers.{
  Gmp, Laws, Number, int64, rational, new_number_object_from_int64, new_number_object, mpq_set_si64,
  to_mpq,
}
use chloride.Numbers.Arithmetic.{
  sum_overflows, difference_overflows, product_overflows, add, subtract, multiply,
}
use chloride.Numbers.Arithmetic.Overflow.{
  sum_overflows-fits, difference_escapes, difference_overflows-fits, product_overflows-fits,
}
use chloride.Numbers.Built.{
  IsNormal, Represents, from_int64-Represents, new_number_object-Represents,
}

pub fits-neg : (a : ℤ) → fits_int64 a ≡ true → a ≢ int64_min → fits_int64 (neg_ℤ a) ≡ true
fits-neg (pos n) h other = ground (arith, neg_ℤ_parts (pos n))
fits-neg (negsuc n) h other =
    let apart : n ≢ 0x7fff_ffff_ffff_ffff = λ e. other (ap negsuc e) in
    ground (arith, neg_ℤ_parts (negsuc n))

-- the operands on which the fast path of a difference leaves the range of int64_t
abbrev pub Overflows : {Q : Type 0} → Number Q → Number Q → Type 0
Overflows (int64 a) (int64 b) = (a ≡ int64_min) ⊎ (a -ℤ b ≡ pos 0x8000_0000_0000_0000)
Overflows a b = ⊥

module _ {Q : Type 0} (gmp : Gmp Q) (laws : Laws gmp) where
  -- a checked expression in the range, as a number object
  pub checked-Represents :
      (n : ℤ) (q : Q)
      → fits_int64 n ≡ true
      → gmp.canonical n (pos 1) ≡ q
      → Returns (checked n >>= λ m. ok (new_number_object_from_int64 m)) (λ o. Represents gmp o q)
  checked-Represents n q fits e =
      rw fits (new_number_object_from_int64 n, refl, rw (sym e) (from_int64-Represents gmp n fits))

  pub built-Returns : (q : Q) → Returns (ok (new_number_object gmp q)) (λ o. Represents gmp o q)
  built-Returns q = (new_number_object gmp q, refl, new_number_object-Represents gmp laws q)

  pub add-exact :
      (a b : Number Q)
      → IsNormal gmp a
      → IsNormal gmp b
      → Returns (add gmp a b) (λ o. Represents gmp o (gmp.add (to_mpq gmp a) (to_mpq gmp b)))
  unfolding add to_mpq mpq_set_si64
  add-exact (int64 a) (int64 b) ha hb = elim (Bool-cases (sum_overflows a b)) [
    | inl large ↦
        rw large (built-Returns (gmp.add (gmp.canonical a (pos 1)) (gmp.canonical b (pos 1))))
    | inr small ↦ rw small (
        checked-Represents (a +ℤ b) (gmp.add (gmp.canonical a (pos 1)) (gmp.canonical b (pos 1)))
          (sum_overflows-fits a b ha hb ∙ ap not small) (sym (laws.add_of a b)))
  ]
  add-exact (int64 a) (rational q) ha hb = built-Returns (gmp.add (gmp.canonical a (pos 1)) q)
  add-exact (rational p) (int64 b) ha hb = built-Returns (gmp.add p (gmp.canonical b (pos 1)))
  add-exact (rational p) (rational q) ha hb = built-Returns (gmp.add p q)

  pub multiply-exact :
      (a b : Number Q)
      → IsNormal gmp a
      → IsNormal gmp b
      → Returns (multiply gmp a b) (λ o. Represents gmp o (gmp.mul (to_mpq gmp a) (to_mpq gmp b)))
  unfolding multiply to_mpq mpq_set_si64
  multiply-exact (int64 a) (int64 b) ha hb = elim (Bool-cases (product_overflows a b)) [
    | inl large ↦
        rw large (built-Returns (gmp.mul (gmp.canonical a (pos 1)) (gmp.canonical b (pos 1))))
    | inr small ↦ rw small (
        checked-Represents (a *ℤ b) (gmp.mul (gmp.canonical a (pos 1)) (gmp.canonical b (pos 1)))
          (ground (arith, product_overflows-fits a b)) (sym (laws.mul_of a b)))
  ]
  multiply-exact (int64 a) (rational q) ha hb = built-Returns (gmp.mul (gmp.canonical a (pos 1)) q)
  multiply-exact (rational p) (int64 b) ha hb = built-Returns (gmp.mul p (gmp.canonical b (pos 1)))
  multiply-exact (rational p) (rational q) ha hb = built-Returns (gmp.mul p q)

  pub subtract-exact :
      (a b : Number Q)
      → IsNormal gmp a
      → IsNormal gmp b
      → ¬ Overflows a b
      → Returns (subtract gmp a b) (λ o. Represents gmp o (gmp.sub (to_mpq gmp a) (to_mpq gmp b)))
  unfolding subtract to_mpq mpq_set_si64
  subtract-exact (int64 a) (int64 b) ha hb inside =
      let other : a ≢ int64_min = λ e. inside (inl e) in
      let negated : fits_int64 (neg_ℤ a) ≡ true = fits-neg a ha other in
      rw negated (elim (Bool-cases (difference_overflows (neg_ℤ a) b)) [
        | inl large ↦
            rw large (built-Returns (gmp.sub (gmp.canonical a (pos 1)) (gmp.canonical b (pos 1))))
        | inr small ↦ rw small (
            checked-Represents (a -ℤ b)
              (gmp.sub (gmp.canonical a (pos 1)) (gmp.canonical b (pos 1)))
              (difference_overflows-fits a b ha hb small (λ e. inside (inr e)))
              (sym (laws.sub_of a b)))
      ])
  subtract-exact (int64 a) (rational q) ha hb inside =
      built-Returns (gmp.sub (gmp.canonical a (pos 1)) q)
  subtract-exact (rational p) (int64 b) ha hb inside =
      built-Returns (gmp.sub p (gmp.canonical b (pos 1)))
  subtract-exact (rational p) (rational q) ha hb inside = built-Returns (gmp.sub p q)

  pub subtract-Overflows :
      (a b : Number Q) → IsNormal gmp a → IsNormal gmp b → Overflows a b → subtract gmp a b ≡ fault
  unfolding subtract neg_ℤ
  subtract-Overflows (int64 a) (int64 b) ha hb (inl lowest) = rw lowest
  subtract-Overflows (int64 a) (int64 b) ha hb (inr apart) =
      elim (Bool-cases (fits_int64 (neg_ℤ a))) [
        | inl negated ↦ rw (negated, difference_escapes a b ha hb apart, apart)
        | inr large ↦ rw large
      ]
  subtract-Overflows (int64 a) (rational q) ha hb never = elim never [ ]
  subtract-Overflows (rational p) (int64 b) ha hb never = elim never [ ]
  subtract-Overflows (rational p) (rational q) ha hb never = elim never [ ]
