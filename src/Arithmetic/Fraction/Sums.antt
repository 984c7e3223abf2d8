-- ===== src/Arithmetic/Fraction/Sums.antt =====
-- `+=`, `-=`, `*=` and `/=` of arithmetic/fraction.
use mai_fa_sp_4_sem.Base.{suc, ◌+◌, ◌*◌, ◌≡◌, ◌≢◌, sym, ◌∙◌, arith, lt→ltb, refl, ◌^◌}
use mai_fa_sp_4_sem.Base.Int.{ℤ, pos, negsuc, ◌+ℤ◌, ◌-ℤ◌, ◌*ℤ◌}
use mai_fa_sp_4_sem.Arithmetic.Digits.{base}
use mai_fa_sp_4_sem.Arithmetic.Fraction.{
  Fraction, abs, IsShort, product, plus_assign, minus_assign, multiply_assign, divide_assign,
}
use mai_fa_sp_4_sem.Arithmetic.Fraction.Lowest.{Lowest, abs_below, abs_above, optimise-Lowest}
use mai_fa_sp_4_sem.Arithmetic.Fraction.Unique.{fraction, product_nonzero}

abs-product : (x y : ℤ) → abs (x *ℤ y) ≡ abs x * abs y
unfolding ◌*ℤ◌
abs-product (pos n) (pos m) =
    abs_above (n * m + 0 * 0) (n * 0 + 0 * m) (ground arith) ∙ ground arith
abs-product (pos n) (negsuc m) =
    abs_below (n * 0 + 0 * suc m) (n * suc m + 0 * 0) (ground arith) ∙ ground arith
abs-product (negsuc n) (pos m) =
    abs_below (0 * m + suc n * 0) (0 * 0 + suc n * m) (ground arith) ∙ ground arith
abs-product (negsuc n) (negsuc m) =
    abs_above (0 * 0 + suc n * suc m) (0 * suc m + suc n * 0) (ground arith) ∙ ground arith

product_ℤ_nonzero : (x y : ℤ) → abs x ≢ 0 → abs y ≢ 0 → abs (x *ℤ y) ≢ 0
product_ℤ_nonzero x y h k e = product_nonzero (abs x) (abs y) h k (sym (abs-product x y) ∙ e)

product-IsShort : (long : ℤ → ℤ → ℤ) (x y : ℤ) → IsShort y → product long x y ≡ x *ℤ y
unfolding product
product-IsShort long x y h = rw (lt→ltb (abs y) (base ^ 32) h) refl

-- What the operations leave.
pub record Operations (long : ℤ → ℤ → ℤ) (f g : Fraction) : Type 0 where
  pub plus :
      Lowest
        (fraction
          (f.numerator *ℤ g.denominator +ℤ f.denominator *ℤ g.numerator)
          (f.denominator *ℤ g.denominator))
        (plus_assign long f g)
  pub minus :
      Lowest
        (fraction
          (f.numerator *ℤ g.denominator -ℤ f.denominator *ℤ g.numerator)
          (f.denominator *ℤ g.denominator))
        (minus_assign long f g)
  pub multiply :
      Lowest
        (fraction (f.numerator *ℤ g.numerator) (f.denominator *ℤ g.denominator))
        (multiply_assign long f g)
  pub divide :
      abs g.numerator ≢ 0
      → Lowest
          (fraction (f.numerator *ℤ g.denominator) (f.denominator *ℤ g.numerator))
          (divide_assign long f g)

-- On fractions whose denominators are not 0, and with a right operand of at most 32 digits above and
-- below, so that no product is by Karatsuba's rule, the operations throw nothing but a division by a
-- fraction with the numerator 0. They leave the lowest terms of the value that fractions have by the
-- rules of arithmetic.
pub plus_assign-Operations :
    (long : ℤ → ℤ → ℤ) (f g : Fraction)
    → abs f.denominator ≢ 0
    → abs g.denominator ≢ 0
    → IsShort g.numerator
    → IsShort g.denominator
    → Operations long f g
plus_assign-Operations long f g hf hg sn sd =
    let nonzero = product_ℤ_nonzero f.denominator g.denominator hf hg in
    let n_d = product-IsShort long f.numerator g.denominator sd in
    let d_n = product-IsShort long f.denominator g.numerator sn in
    let n_n = product-IsShort long f.numerator g.numerator sn in
    let d_d = product-IsShort long f.denominator g.denominator sd in
    record {
      plus = rw (n_d, d_n, d_d) (optimise-Lowest _ nonzero);
      minus = rw (n_d, d_n, d_d) (optimise-Lowest _ nonzero);
      multiply = rw (n_n, d_d) (optimise-Lowest _ nonzero);
      divide =
          λ h. rw (n_d, d_n) (optimise-Lowest _ (product_ℤ_nonzero f.denominator g.numerator hf h));
    }
