-- ===== src/Arithmetic/Fraction/Unique.antt =====
-- Fractions in their lowest terms are equal if their values are: `==` of arithmetic/fraction.
use Prim.Native.Nat.{◌∣◌}
use native.Mathlib.Nat.{dvd_antisymm, dvd-mul_left, dvd-mul_right, mul-div_cancel}
use mathlib.Core.Option.{some-injective}
use mai_fa_sp_4_sem.Base.{
  ℕ, ◌+◌, ◌*◌, ◌/◌, ◌<◌, ◌≡◌, ◌≢◌, ap, sym, subst, ◌∙◌, ◌==◌, some, arith, Bool-cases, inl, inr,
  ==_iff, ◌↔◌,
}
use mai_fa_sp_4_sem.Base.Int.{ℤ, pos, negsuc}
use mai_fa_sp_4_sem.Arithmetic.Fraction.{Fraction, abs, is_negative, optimise}
use mai_fa_sp_4_sem.Arithmetic.Fraction.Gcd.{gcd-IsGcd}
use mai_fa_sp_4_sem.Arithmetic.Fraction.Lowest.{differ, clash, optimise-Lowest}

-- The abstract numbers without a common divisor but 1.
abbrev pub Coprime : ℕ → ℕ → Type 0
Coprime a b = (k : ℕ) → k ∣ a → k ∣ b → k ≡ 1

-- Euclid's lemma.
euclid : (k m n : ℕ) → Coprime k m → k ∣ m * n → k ∣ n
euclid k m n h d =
    let g = gcd-IsGcd (m + 1) k m (ground arith) in
    let one : g.divisor ≡ 1 = h g.divisor g.left g.right in
    subst (λ x. k ∣ x) (ap (λ x. x * n) one ∙ ground arith) (g.scaled n k (dvd-mul_right k n) d)

cancel : (a b c : ℕ) → b ≢ 0 → a * b ≡ c * b → a ≡ c
cancel a b c h e =
    let positive_b : 0 < b = ground (arith, h) in
    sym (mul-div_cancel a positive_b) ∙ ap (λ x. x / b) e ∙ mul-div_cancel c positive_b

-- Equal cross products of lowest terms.
crossed_equal :
    (a b c d : ℕ) → Coprime a b → Coprime c d → b ≢ 0 → a * d ≡ c * b → (a ≡ c) × (b ≡ d)
crossed_equal a b c d h k nonzero e =
    let b_d : b ∣ d =
      euclid b a d (λ j hb ha. h j ha hb) (subst (λ x. b ∣ x) (sym e) (dvd-mul_left b c)) in
    let d_b : d ∣ b =
      euclid d c b (λ j hd hc. k j hc hd) (subst (λ x. d ∣ x) e (dvd-mul_left d a)) in
    let same : b ≡ d = dvd_antisymm b_d d_b in
    (cancel a b c nonzero (ap (λ x. a * x) same ∙ e), same)

-- Two fractions of the same value: equal cross products, and equal signs unless they are 0.
pub record SameValue (f g : Fraction) : Type 0 where
  pub products : abs f.numerator * abs g.denominator ≡ abs g.numerator * abs f.denominator
  pub signs :
      abs f.numerator ≢ 0
      → differ (is_negative f.numerator) (is_negative f.denominator)
        ≡ differ (is_negative g.numerator) (is_negative g.denominator)

same_integer : (x y : ℤ) → abs x ≡ abs y → is_negative x ≡ is_negative y → x ≡ y
same_integer (pos n) (pos m) e s = ap pos e
same_integer (pos n) (negsuc m) e s = absurd (ground arith)
same_integer (negsuc n) (pos m) e s = absurd (ground arith)
same_integer (negsuc n) (negsuc m) e s = ap negsuc (ground arith)

-- A product of two numbers other than 0.
pub product_nonzero : (a b : ℕ) → a ≢ 0 → b ≢ 0 → a * b ≢ 0
product_nonzero a b h k e = h (cancel a b 0 k (e ∙ ground arith))

shuffle : (a b c d : ℕ) → a * b * (c * d) ≡ a * c * (b * d)
shuffle a b c d = grind arith

shuffle_twice : (n d' e' e : ℕ) → n * d' * (e' * e) ≡ n * e * (d' * e')
shuffle_twice n d' e' e = grind arith

shuffle_back : (m d d' e' : ℕ) → m * d * (d' * e') ≡ m * e' * (d * d')
shuffle_back m d d' e' = grind arith

shuffle_last : (m' e d d' : ℕ) → m' * e * (d * d') ≡ m' * d' * (d * e)
shuffle_last m' e d d' = grind arith

zero_times : (b d : ℕ) → 0 * b ≡ 0 * d
zero_times b d = ground arith

abbrev pub fraction : ℤ → ℤ → Fraction
fraction n d = record { numerator = n; denominator = d }

both : (f g : Fraction) → f.numerator ≡ g.numerator → f.denominator ≡ g.denominator → f ≡ g
both f g p q = ap (λ n. fraction n f.denominator) p ∙ ap (λ d. fraction g.numerator d) q

chained :
    (n d n' d' m e m' e' : ℕ)
    → d ≢ 0
    → e ≢ 0
    → n * d' ≡ n' * d
    → m * e' ≡ m' * e
    → n * e ≡ m * d
    → n' * e' ≡ m' * d'
chained n d n' d' m e m' e' hd he p q r =
    cancel (n' * e') (d * e) (m' * d') (product_nonzero d e hd he) (
      shuffle n' e' d e
      ∙ ap (λ x. x * (e' * e)) (sym p)
      ∙ shuffle_twice n d' e' e
      ∙ ap (λ x. x * (d' * e')) r
      ∙ shuffle_back m d d' e'
      ∙ ap (λ x. x * (d * d')) q
      ∙ shuffle_last m' e d d')

zero_product : (a b c d : ℕ) → a * b ≡ c * d → d ≢ 0 → a ≡ 0 → c ≡ 0
zero_product a b c d e h z = cancel c d 0 h (sym e ∙ ap (λ x. x * b) z ∙ zero_times b d)

swap_last : (a b c : ℕ) → a * b * c ≡ a * c * b
swap_last a b c = grind arith

-- Two fractions with one fraction in lowest terms have equal cross products.
crossed_back : (n d n' d' m e : ℕ) → d' ≢ 0 → n * d' ≡ n' * d → m * d' ≡ n' * e → n * e ≡ m * d
crossed_back n d n' d' m e h p q = cancel (n * e) d' (m * d) h (
    swap_last n e d'
    ∙ ap (λ x. x * e) p
    ∙ swap_last n' d e
    ∙ ap (λ x. x * d) (sym q)
    ∙ swap_last m d' d)

module _ (f g : Fraction) (hf : abs f.denominator ≢ 0) (hg : abs g.denominator ≢ 0) where
  optimise-same : SameValue f g → optimise f ≡ optimise g
  optimise-same same =
      let p = optimise-Lowest f hf in
      let q = optimise-Lowest g hg in
      let (numerators, denominators) =
        crossed_equal (abs p.result.numerator) (abs p.result.denominator) (abs q.result.numerator)
          (abs q.result.denominator) p.coprime q.coprime p.nonzero
          (chained (abs f.numerator) (abs f.denominator) (abs p.result.numerator)
            (abs p.result.denominator) (abs g.numerator) (abs g.denominator)
            (abs q.result.numerator) (abs q.result.denominator) hf hg p.same_value q.same_value
            same.products) in
      let signs : is_negative p.result.denominator ≡ is_negative q.result.denominator =
        elim (Bool-cases (abs f.numerator == 0)) [
          | inl e ↦
              let z : abs f.numerator ≡ 0 = (==_iff (abs f.numerator) 0).0 e in
              p.zero_sign z
              ∙ sym (
                  q.zero_sign (
                    zero_product (abs f.numerator) (abs g.denominator) (abs g.numerator)
                      (abs f.denominator) same.products hf z))
          | inr e ↦
              let hn : abs f.numerator ≢ 0 = λ z. clash (abs f.numerator) z e in
              p.same_sign hn
              ∙ same.signs hn
              ∙ sym (
                  q.same_sign (λ z. hn (
                    zero_product (abs g.numerator) (abs f.denominator) (abs f.numerator)
                      (abs g.denominator) (sym same.products) hg z)))
        ] in
      p.ends
      ∙ ap some (
          both p.result q.result
            (same_integer p.result.numerator q.result.numerator numerators
              (p.unsigned ∙ sym q.unsigned))
            (same_integer p.result.denominator q.result.denominator denominators signs))
      ∙ sym q.ends

  -- Equal results come from equal values.
  optimise-back : optimise f ≡ optimise g → SameValue f g
  optimise-back e =
      let p = optimise-Lowest f hf in
      let q = optimise-Lowest g hg in
      let same : p.result ≡ q.result = some-injective p.result q.result (sym p.ends ∙ e ∙ q.ends) in
      let products : abs f.numerator * abs g.denominator ≡ abs g.numerator * abs f.denominator =
        crossed_back (abs f.numerator) (abs f.denominator) (abs p.result.numerator)
          (abs p.result.denominator) (abs g.numerator) (abs g.denominator) p.nonzero p.same_value
          (subst (λ r. abs g.numerator * abs r.denominator ≡ abs r.numerator * abs g.denominator)
            (sym same) q.same_value) in
      record {
        products = products;
        signs = λ hn.
            sym (p.same_sign hn)
            ∙ ap (λ r. is_negative r.denominator) same
            ∙ q.same_sign (λ z. hn (
                zero_product (abs g.numerator) (abs f.denominator) (abs f.numerator)
                  (abs g.denominator) (sym products) hg z));
      }

-- On two fractions whose denominators are not 0, `optimise` gives the same result exactly if the two
-- have the same value, the sign included.
pub optimise-SameValue :
    (f g : Fraction)
    → abs f.denominator ≢ 0
    → abs g.denominator ≢ 0
    → (optimise f ≡ optimise g) ↔ SameValue f g
optimise-SameValue f g hf hg = (optimise-back f g hf hg, optimise-same f g hf hg)
