-- ===== src/Arithmetic/Fraction/Lowest.antt =====
-- `optimise` of arithmetic/fraction leaves a fraction in its lowest terms.
use Prim.Native.Nat.{◌∣◌}
use native.Mathlib.Nat.{
  div-mul_cancel, eq-one_of_dvd-one, mul-dvd-mul, dvd_refl, dvd_of_mul-dvd-mul_right,
}
use mai_fa_sp_4_sem.Base.{
  ℕ, suc, ◌+◌, ◌*◌, ◌/◌, ◌≡◌, ◌≢◌, refl, ap, sym, subst, ◌∙◌, Bool, true, false, not, ◌==◌, leb,
  Option, some, arith, Bool-cases, inl, inr, ==_iff,
}
use mai_fa_sp_4_sem.Base.Int.{ℤ, pos, negsuc, sub_ℕ, ◌-ℤ◌}
use mai_fa_sp_4_sem.Arithmetic.Fraction.{
  Fraction, abs, is_negative, gcd, quotient, positive, divided, optimise,
}
use mai_fa_sp_4_sem.Arithmetic.Fraction.Gcd.{gcd-IsGcd}

-- Of two signs just one is set.
abbrev pub differ : Bool → Bool → Bool
differ true b = not b
differ false b = b

-- A fraction in its lowest terms with the value of another: the numerator has no sign.
pub record Lowest (f : Fraction) (o : Option Fraction) : Type 0 where
  pub result : Fraction
  pub ends : o ≡ some result
  pub unsigned : is_negative result.numerator ≡ false
  pub nonzero : abs result.denominator ≢ 0
  pub coprime : (k : ℕ) → k ∣ abs result.numerator → k ∣ abs result.denominator → k ≡ 1
  pub same_value :
      abs f.numerator * abs result.denominator ≡ abs result.numerator * abs f.denominator
  pub same_sign :
      abs f.numerator ≢ 0
      → is_negative result.denominator
        ≡ differ (is_negative f.numerator) (is_negative f.denominator)
  pub zero_sign : abs f.numerator ≡ 0 → is_negative result.denominator ≡ false

pub abs_below : (a b : ℕ) → a ≡ 0 → abs (sub_ℕ a b) ≡ b
abs_below a b z = elim (Bool-cases (leb b a)) [
  | inl e ↦ rw e (ground (arith, e, z))
  | inr e ↦ rw e (ground (arith, e, z))
]

pub abs_above : (a b : ℕ) → b ≡ 0 → abs (sub_ℕ a b) ≡ a
abs_above a b z = elim (Bool-cases (leb b a)) [
  | inl e ↦ rw e (ground (arith, e, z))
  | inr e ↦ rw e (ground (arith, e, z))
]

sign_below : (a b : ℕ) → a ≡ 0 → b ≢ 0 → is_negative (sub_ℕ a b) ≡ true
sign_below a b z h = elim (Bool-cases (leb b a)) [
  | inl e ↦ absurd (h (ground (arith, e, z)))
  | inr e ↦ rw e refl
]

sign_above : (a b : ℕ) → b ≡ 0 → is_negative (sub_ℕ a b) ≡ false
sign_above a b z = elim (Bool-cases (leb b a)) [
  | inl e ↦ rw e refl
  | inr e ↦ absurd (ground (arith, e, z))
]

abs-opposite : (x : ℤ) → abs (pos 0 -ℤ x) ≡ abs x
unfolding ◌-ℤ◌
abs-opposite (pos n) = abs_below (0 + 0) (0 + n) (ground arith) ∙ ground arith
abs-opposite (negsuc n) = abs_above (0 + suc n) (0 + 0) (ground arith) ∙ ground arith

sign_opposite : (x : ℤ) → abs x ≢ 0 → is_negative (pos 0 -ℤ x) ≡ not (is_negative x)
unfolding ◌-ℤ◌
sign_opposite (pos n) h = sign_below (0 + 0) (0 + n) (ground arith) (λ e. h (ground (arith, e)))
sign_opposite (negsuc n) h = sign_above (0 + suc n) (0 + 0) (ground arith)

abs-quotient : (x : ℤ) (d : ℕ) → abs (quotient x d) ≡ abs x / d
abs-quotient (pos n) d = refl
abs-quotient (negsuc n) d = abs_below 0 (suc n / d) refl

sign_quotient :
    (x : ℤ) (d : ℕ) → abs (quotient x d) ≢ 0 → is_negative (quotient x d) ≡ is_negative x
sign_quotient (pos n) d h = refl
sign_quotient (negsuc n) d h =
    sign_below 0 (suc n / d) refl (λ e. h (abs_below 0 (suc n / d) refl ∙ e))

-- A common divisor of two quotients by the greatest common divisor is 1.
quotients_share_one :
    (a b g k : ℕ)
    → g ∣ a
    → g ∣ b
    → g ≢ 0
    → ((d : ℕ) → d ∣ a → d ∣ b → d ∣ g)
    → k ∣ a / g
    → k ∣ b / g
    → k ≡ 1
quotients_share_one a b g k ga gb g0 greatest ka kb =
    let scaled_a : k * g ∣ a =
      subst (λ x. k * g ∣ x) (div-mul_cancel g ga) (mul-dvd-mul k g ka (dvd_refl g)) in
    let scaled_b : k * g ∣ b =
      subst (λ x. k * g ∣ x) (div-mul_cancel g gb) (mul-dvd-mul k g kb (dvd_refl g)) in
    let small : k * g ∣ 1 * g =
      subst (λ x. k * g ∣ x) (ground arith) (greatest (k * g) scaled_a scaled_b) in
    eq-one_of_dvd-one (dvd_of_mul-dvd-mul_right k (ground (arith, g0)) small)

-- The sign moves to the denominator.
record Positive (f f' : Fraction) : Type 0 where
  unsigned : is_negative f'.numerator ≡ false
  same_numerator : abs f'.numerator ≡ abs f.numerator
  same_denominator : abs f'.denominator ≡ abs f.denominator
  sign : is_negative f'.denominator ≡ differ (is_negative f.numerator) (is_negative f.denominator)

positive-Positive : (f : Fraction) → abs f.denominator ≢ 0 → Positive f (positive f)
positive-Positive f h = elim (Bool-cases (is_negative f.numerator)) [
  | inl e ↦ rw e (record {
    unsigned = refl;
    same_numerator = refl;
    same_denominator = abs-opposite f.denominator;
    sign = rw e (sign_opposite f.denominator h);
  })
  | inr e ↦
      rw e
        (record { unsigned = e; same_numerator = refl; same_denominator = refl; sign = rw e refl })
]

abs_zero-sign : (x : ℤ) → abs x ≡ 0 → is_negative x ≡ false
abs_zero-sign (pos n) e = refl
abs_zero-sign (negsuc n) e = absurd (ground (arith, e))

-- A quotient by a divisor of a number that is not 0.
quotient_nonzero : (a g : ℕ) → g ∣ a → a ≢ 0 → a / g ≢ 0
quotient_nonzero a g h ne e = ne (sym (div-mul_cancel g h) ∙ ap (λ x. x * g) e ∙ ground arith)

divisor_nonzero : (a g : ℕ) → g ∣ a → a ≢ 0 → g ≢ 0
divisor_nonzero a g h ne e = ne (sym (div-mul_cancel g h) ∙ ap (λ x. a / g * x) e ∙ ground arith)

moved : (x y z : ℕ) → x * y * z ≡ x * (z * y)
moved x y z = grind arith

crossed : (a b g : ℕ) → g ∣ a → g ∣ b → a * (b / g) ≡ a / g * b
crossed a b g ha hb =
    ap (λ x. x * (b / g)) (sym (div-mul_cancel g ha))
    ∙ moved (a / g) g (b / g)
    ∙ ap (λ x. a / g * x) (div-mul_cancel g hb)

divided-Lowest :
    (f f' : Fraction)
    → Positive f f'
    → abs f.denominator ≢ 0
    → abs f.numerator ≢ 0
    → Lowest f (divided f' (gcd (abs f'.denominator + 1) (abs f'.numerator) (abs f'.denominator)))
divided-Lowest f f' p hd hn =
    let a = abs f'.numerator in
    let b = abs f'.denominator in
    let g = gcd-IsGcd (b + 1) a b (ground arith) in
    let n = quotient f'.numerator g.divisor in
    let d = quotient f'.denominator g.divisor in
    let hn' : abs f'.numerator ≢ 0 = λ e. hn (sym p.same_numerator ∙ e) in
    let hd' : abs f'.denominator ≢ 0 = λ e. hd (sym p.same_denominator ∙ e) in
    let en : abs n ≡ abs f'.numerator / g.divisor = abs-quotient f'.numerator g.divisor in
    let ed : abs d ≡ abs f'.denominator / g.divisor = abs-quotient f'.denominator g.divisor in
    let dn : abs n ≢ 0 = λ e. quotient_nonzero a g.divisor g.left hn' (sym en ∙ e) in
    let dd : abs d ≢ 0 = λ e. quotient_nonzero b g.divisor g.right hd' (sym ed ∙ e) in
    record {
      result = record { numerator = n; denominator = d };
      ends = rw g.ends refl;
      unsigned = sign_quotient f'.numerator g.divisor dn ∙ p.unsigned;
      nonzero = dd;
      coprime = λ k hk hk'.
          quotients_share_one a b g.divisor k g.left g.right
            (divisor_nonzero a g.divisor g.left hn') g.greatest (subst (λ x. k ∣ x) en hk)
            (subst (λ x. k ∣ x) ed hk');
      same_value =
          ap (λ x. abs f.numerator * x) ed
          ∙ ap (λ x. x * (abs f'.denominator / g.divisor)) (sym p.same_numerator)
          ∙ crossed a b g.divisor g.left g.right
          ∙ ap (λ x. abs f'.numerator / g.divisor * x) p.same_denominator
          ∙ ap (λ x. x * abs f.denominator) (sym en);
      same_sign = λ h. sign_quotient f'.denominator g.divisor dd ∙ p.sign;
      zero_sign = λ e. absurd (hn e);
    }

pub clash : (a : ℕ) → a ≡ 0 → (a == 0) ≡ false → ⊥
clash a q z = ground arith

-- `optimise` throws on a denominator of 0. Else its loop ends, and it leaves a fraction of the same
-- value whose denominator is not 0, whose numerator is not negative, and whose numerator and
-- denominator have no common divisor but 1.
pub optimise-Lowest : (f : Fraction) → abs f.denominator ≢ 0 → Lowest f (optimise f)
unfolding optimise
optimise-Lowest f h = elim (Bool-cases (abs f.denominator == 0)) [
  | inl e ↦ absurd (h ((==_iff (abs f.denominator) 0).0 e))
  | inr e ↦ elim (Bool-cases (abs f.numerator == 0)) [
    | inl z ↦
        let zero_numerator : abs f.numerator ≡ 0 = (==_iff (abs f.numerator) 0).0 z in
        rw (e, z)
          (record {
            result = record { numerator = f.numerator; denominator = pos 1 };
            ends = refl;
            unsigned = abs_zero-sign f.numerator zero_numerator;
            nonzero = λ q. ground (arith, q);
            coprime = λ k hk hk'. eq-one_of_dvd-one hk';
            same_value =
                ap (λ x. x * 1) zero_numerator
                ∙ sym (ap (λ x. x * abs f.denominator) zero_numerator ∙ ground arith);
            same_sign = λ ne. absurd (ne zero_numerator);
            zero_sign = λ q. refl;
          })
    | inr z ↦
        rw (e, z)
          (divided-Lowest f (positive f) (positive-Positive f h) h
            (λ q. clash (abs f.numerator) q z))
  ]
]
