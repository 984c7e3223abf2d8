-- ===== src/Arithmetic/Fraction/Gcd.antt =====
-- `gcd` of arithmetic/fraction: Euclid's loop.
use Prim.Native.Nat.{◌∣◌}
use native.Mathlib.Nat.{
  mod-lt, dvd_refl, dvd-zero, dvd-mod_iff, dvd-add_iff_right, dvd-mul_right_of_dvd, div-add-mod,
}
use mai_fa_sp_4_sem.Base.{
  ℕ, zero, suc, ◌+◌, ◌*◌, ◌/◌, ap, ◌%◌, ◌<◌, ◌≡◌, refl, ◌∙◌, false, ◌==◌, Option, some, arith,
  Bool-cases, inl, inr, ==_iff, subst, sym,
}
use mai_fa_sp_4_sem.Arithmetic.Fraction.{gcd}

-- The greatest common divisor.
pub record IsGcd (a b : ℕ) (o : Option ℕ) : Type 0 where
  pub divisor : ℕ
  pub ends : o ≡ some divisor
  pub left : divisor ∣ a
  pub right : divisor ∣ b
  pub greatest : (d : ℕ) → d ∣ a → d ∣ b → d ∣ divisor
  pub scaled : (c d : ℕ) → d ∣ a * c → d ∣ b * c → d ∣ divisor * c

pub rest_less : (a b : ℕ) → (b == 0) ≡ false → a % b < b
rest_less a b e = mod-lt a (ground (arith, e))

spread : (b q r c : ℕ) → (b * q + r) * c ≡ b * c * q + r * c
spread b q r c = grind arith

split_multiple : (a b c : ℕ) → a * c ≡ b * c * (a / b) + a % b * c
split_multiple a b c = ap (λ x. x * c) (sym (div-add-mod a b)) ∙ spread b (a / b) (a % b) c

-- What divides two multiples divides that of the rest.
scaled_rest : (a b c d : ℕ) → d ∣ a * c → d ∣ b * c → d ∣ a % b * c
scaled_rest a b c d h k =
    (dvd-add_iff_right d (dvd-mul_right_of_dvd d k (a / b))).1
      (subst (λ x. d ∣ x) (split_multiple a b c) h)

pub gcd-IsGcd : (fuel a b : ℕ) → b < fuel → IsGcd a b (gcd fuel a b)
unfolding gcd
gcd-IsGcd zero a b lt = absurd (ground (arith))
gcd-IsGcd (suc fuel) a b lt = elim (Bool-cases (b == 0)) [
  | inl e ↦
      let z : b ≡ 0 = (==_iff b 0).0 e in
      record {
        divisor = a;
        ends = rw e refl;
        left = dvd_refl a;
        right = subst (λ x. a ∣ x) (sym z) (dvd-zero a);
        greatest = λ d h k. h;
        scaled = λ c d h k. h;
      }
  | inr e ↦
      let less = rest_less a b e in
      let inner = gcd-IsGcd fuel b (a % b) (ground (arith, less, lt)) in
      record {
        divisor = inner.divisor;
        ends = rw e inner.ends;
        left = (dvd-mod_iff inner.divisor inner.left).0 inner.right;
        right = inner.left;
        greatest = λ d h k. inner.greatest d k ((dvd-mod_iff d k).1 h);
        scaled = λ c d h k. inner.scaled c d k (scaled_rest a b c d h k);
      }
]
