-- ===== src/Numbers/Compare/Exact.antt =====
-- The comparisons are those of the rational numbers, but for a negative int64_t beside a rational number.
use chloride.Base.{zero, suc, ◌≡◌, not, refl, sym, ap, ◌∙◌, arith}
use chloride.Base.Int.{
  ℤ, pos, negsuc, ◌-ℤ◌, neg_ℤ, ltb_ℤ, leb_ℤ, eqb_ℤ, ◌≤ℤ◌, neg_ℤ_parts, -ℤ_parts, one_part,
}
use chloride.Numbers.{Gmp, Laws, Number, int64, rational, mpq_set_si64, to_mpq, sign_of}
use chloride.Numbers.Compare.{
  to_unsigned, equal, not_equal, less_than, less_than_equal, greater_than, greater_than_equal,
}

-- the tests on a sign
sign_tests :
    (d : ℤ)
    → (eqb_ℤ (sign_of d) (pos 0) ≡ eqb_ℤ d (pos 0))
      × (ltb_ℤ (sign_of d) (pos 0) ≡ ltb_ℤ d (pos 0))
      × (ltb_ℤ (pos 0) (sign_of d) ≡ ltb_ℤ (pos 0) d)
sign_tests (pos zero) = (refl, refl, refl)
sign_tests (pos (suc n)) = (ground arith, ground arith, ground arith)
sign_tests (negsuc n) = (ground arith, ground arith, ground arith)

difference_tests :
    (a b : ℤ)
    → (eqb_ℤ (a -ℤ b) (pos 0) ≡ eqb_ℤ a b)
      × (ltb_ℤ (a -ℤ b) (pos 0) ≡ ltb_ℤ a b)
      × (ltb_ℤ (pos 0) (a -ℤ b) ≡ ltb_ℤ b a)
difference_tests a b = (
  ground (arith, -ℤ_parts a b, one_part (a -ℤ b)),
  ground (arith, -ℤ_parts a b, one_part (a -ℤ b)),
  ground (arith, -ℤ_parts a b, one_part (a -ℤ b)),
)

module _ {Q : Type 0} (gmp : Gmp Q) where
  -- Beside a rational number, an int64_t is not negative.
  abbrev pub Comparable : Number Q → Number Q → Type 0
  Comparable (int64 a) (rational q) = pos 0 ≤ℤ a
  Comparable (rational p) (int64 b) = pos 0 ≤ℤ b
  Comparable a b = Unit {0}

  pub compare-exact :
      (laws : Laws gmp) (a b : Number Q)
      → Comparable a b
      → (c : ℤ) × (c ≡ gmp.cmp (to_mpq gmp a) (to_mpq gmp b))
        × (equal gmp a b ≡ eqb_ℤ c (pos 0))
        × (not_equal gmp a b ≡ not (eqb_ℤ c (pos 0)))
        × (less_than gmp a b ≡ ltb_ℤ c (pos 0))
        × (less_than_equal gmp a b ≡ leb_ℤ c (pos 0))
        × (greater_than gmp a b ≡ ltb_ℤ (pos 0) c)
        × (greater_than_equal gmp a b ≡ leb_ℤ (pos 0) c)
  unfolding equal not_equal less_than less_than_equal greater_than greater_than_equal to_unsigned
      to_mpq mpq_set_si64
  compare-exact laws (int64 a) (int64 b) h =
      let tests = sign_tests (a -ℤ b) in
      let order = difference_tests a b in
      (
        sign_of (a -ℤ b),
        sym (laws.cmp_of a b),
        ground arith,
        ground arith,
        ground arith,
        ground arith,
        ground arith,
        ground arith,
      )
  compare-exact laws (rational p) (rational q) h =
      (gmp.cmp p q, refl, refl, refl, refl, refl, refl, refl)
  compare-exact laws (int64 (pos a)) (rational q) h =
      let c = gmp.cmp_ui q a in
      let swapped = laws.cmp_swap (gmp.canonical (pos a) (pos 1)) q in
      (
        neg_ℤ c,
        ap neg_ℤ (laws.cmp_ui_of q a) ∙ sym swapped,
        ground (arith, neg_ℤ_parts c),
        ground (arith, neg_ℤ_parts c),
        ground (arith, neg_ℤ_parts c),
        ground (arith, neg_ℤ_parts c),
        ground (arith, neg_ℤ_parts c),
        ground (arith, neg_ℤ_parts c),
      )
  compare-exact laws (int64 (negsuc a)) (rational q) h = absurd (omega arith)
  compare-exact laws (rational p) (int64 (pos b)) h =
      (gmp.cmp_ui p b, laws.cmp_ui_of p b, refl, refl, refl, refl, refl, refl)
  compare-exact laws (rational p) (int64 (negsuc b)) h = absurd (omega arith)
