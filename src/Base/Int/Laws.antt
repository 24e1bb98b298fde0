-- ===== src/Base/Int/Laws.antt =====
-- The laws of products and quotients of integers that powers and bounds rest on.
use Prim.Native.Nat.{ℕ, zero, suc, ◌+◌, ◌*◌, ◌/◌, ◌%◌}
use mathlib.Core.Path.{◌≡◌, refl, ap, ◌∙◌, sym}
use mathlib.Core.Bool.{false}
use native.Mathlib.Omega.{arith}
use native.Mathlib.Nat.{
  mul_assoc, mul_comm, mul-zero, mul-one, mul-pos, zero-add, add-zero, div-add-mod',
}
use chloride.Base.Int.{ℤ, eqb_ℤ, pos, negsuc, neg_of, pos_part, neg_part, ◌*ℤ◌, ◌+ℤ◌, quot, rem}

pub pos-mul-neg_of : (a m : ℕ) → pos a *ℤ neg_of m ≡ neg_of (a * m)
unfolding ◌*ℤ◌
pos-mul-neg_of a zero = rw mul-zero
pos-mul-neg_of a (suc m) = refl

pub negsuc-mul-neg_of : (a m : ℕ) → negsuc a *ℤ neg_of m ≡ pos (suc a * m)
unfolding ◌*ℤ◌
negsuc-mul-neg_of a zero = rw mul-zero
negsuc-mul-neg_of a (suc m) = refl

pub *ℤ_comm : (a b : ℤ) → a *ℤ b ≡ b *ℤ a
unfolding ◌*ℤ◌
*ℤ_comm (pos a) (pos b) = ap pos (mul_comm a b)
*ℤ_comm (pos a) (negsuc b) = ap neg_of (mul_comm a (suc b))
*ℤ_comm (negsuc a) (pos b) = ap neg_of (mul_comm (suc a) b)
*ℤ_comm (negsuc a) (negsuc b) = ap pos (mul_comm (suc a) (suc b))

neg_of-mul-pos : (m a : ℕ) → neg_of m *ℤ pos a ≡ neg_of (m * a)
neg_of-mul-pos m a = *ℤ_comm (neg_of m) (pos a) ∙ pos-mul-neg_of a m ∙ ap neg_of (mul_comm a m)

neg_of-mul-negsuc : (m a : ℕ) → neg_of m *ℤ negsuc a ≡ pos (m * suc a)
neg_of-mul-negsuc m a =
    *ℤ_comm (neg_of m) (negsuc a) ∙ negsuc-mul-neg_of a m ∙ ap pos (mul_comm (suc a) m)

pub *ℤ_assoc : (a b c : ℤ) → a *ℤ b *ℤ c ≡ a *ℤ (b *ℤ c)
unfolding ◌*ℤ◌
*ℤ_assoc (pos a) (pos b) (pos c) = ap pos (mul_assoc a b c)
*ℤ_assoc (pos a) (pos b) (negsuc c) =
    ap neg_of (mul_assoc a b (suc c)) ∙ sym (pos-mul-neg_of a (b * suc c))
*ℤ_assoc (pos a) (negsuc b) (pos c) =
    neg_of-mul-pos (a * suc b) c
    ∙ ap neg_of (mul_assoc a (suc b) c)
    ∙ sym (pos-mul-neg_of a (suc b * c))
*ℤ_assoc (pos a) (negsuc b) (negsuc c) =
    neg_of-mul-negsuc (a * suc b) c ∙ ap pos (mul_assoc a (suc b) (suc c))
*ℤ_assoc (negsuc a) (pos b) (pos c) =
    neg_of-mul-pos (suc a * b) c ∙ ap neg_of (mul_assoc (suc a) b c)
*ℤ_assoc (negsuc a) (pos b) (negsuc c) =
    neg_of-mul-negsuc (suc a * b) c
    ∙ ap pos (mul_assoc (suc a) b (suc c))
    ∙ sym (negsuc-mul-neg_of a (b * suc c))
*ℤ_assoc (negsuc a) (negsuc b) (pos c) =
    ap pos (mul_assoc (suc a) (suc b) c) ∙ sym (negsuc-mul-neg_of a (suc b * c))
*ℤ_assoc (negsuc a) (negsuc b) (negsuc c) = ap neg_of (mul_assoc (suc a) (suc b) (suc c))

pub *ℤ_one : (a : ℤ) → a *ℤ pos 1 ≡ a
unfolding ◌*ℤ◌
*ℤ_one (pos a) = rw mul-one
*ℤ_one (negsuc a) = rw mul-one

pos-add : (a b : ℕ) → pos a +ℤ pos b ≡ pos (a + b)
unfolding ◌+ℤ◌
pos-add a b = ground arith

neg_of-add : (a b : ℕ) → neg_of a +ℤ neg_of b ≡ neg_of (a + b)
unfolding ◌+ℤ◌
neg_of-add zero zero = ground arith
neg_of-add zero (suc b) = ground arith
neg_of-add (suc a) zero = ground arith
neg_of-add (suc a) (suc b) = ground arith

-- the quotient and the remainder make up the dividend
pub quot-rem : (a b : ℤ) → quot a b *ℤ b +ℤ rem a b ≡ a
unfolding quot rem ◌*ℤ◌
quot-rem (pos a) (pos b) = rw add-zero (pos-add (a / b * b) (a % b) ∙ ap pos (div-add-mod' a b))
quot-rem (pos a) (negsuc b) =
    rw (zero-add, neg_of-mul-negsuc)
      (pos-add (a / suc b * suc b) (a % suc b) ∙ ap pos (div-add-mod' a (suc b)))
quot-rem (negsuc a) (pos b) =
    rw (add-zero, neg_of-mul-pos)
      (neg_of-add (suc a / b * b) (suc a % b) ∙ ap neg_of (div-add-mod' (suc a) b))
quot-rem (negsuc a) (negsuc b) =
    rw zero-add (
      neg_of-add (suc a / suc b * suc b) (suc a % suc b) ∙ ap neg_of (div-add-mod' (suc a) (suc b)))

abs-neg_of : (m : ℕ) → pos_part (neg_of m) + neg_part (neg_of m) ≡ m
abs-neg_of zero = omega arith
abs-neg_of (suc m) = omega arith

-- a product is not zero if its factors are not
pub mul-ne_zero :
    (a b : ℤ) → eqb_ℤ a (pos 0) ≡ false → eqb_ℤ b (pos 0) ≡ false → eqb_ℤ (a *ℤ b) (pos 0) ≡ false
unfolding ◌*ℤ◌
mul-ne_zero (pos a) (pos b) ha hb =
    ground (arith, mul-pos {m = a} {n = b} (ground arith) (ground arith))
mul-ne_zero (pos a) (negsuc b) ha hb =
    ground
      (arith, mul-pos {m = a} {n = suc b} (ground arith) (ground arith), abs-neg_of (a * suc b))
mul-ne_zero (negsuc a) (pos b) ha hb =
    ground
      (arith, mul-pos {m = suc a} {n = b} (ground arith) (ground arith), abs-neg_of (suc a * b))
mul-ne_zero (negsuc a) (negsuc b) ha hb =
    ground (arith, mul-pos {m = suc a} {n = suc b} (ground arith) (ground arith))

pub *ℤ_zero : (a : ℤ) → a *ℤ pos 0 ≡ pos 0
unfolding ◌*ℤ◌
*ℤ_zero (pos a) = rw mul-zero
*ℤ_zero (negsuc a) = rw mul-zero
