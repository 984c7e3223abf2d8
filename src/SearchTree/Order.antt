-- ===== src/SearchTree/Order.antt =====
-- What the search trees use of their keys: `==` and the comparison, with the laws of an order.
use mai_fa_sp_4_sem.Base.{
  ℕ, ◌≡◌, Bool, true, false, ◌==◌, ltb, arith, Bool-cases, inl, inr, sym, subst,
}

pub record IsLawful {ℓ} {K : Type ℓ} (same less : K → K → Bool) : Type ℓ where
  pub same_refl : (a : K) → same a a ≡ true
  pub same_sound : (a b : K) → same a b ≡ true → a ≡ b
  pub less_irrefl : (a : K) → less a a ≡ false
  pub less_trans : (a b c : K) → less a b ≡ true → less b c ≡ true → less a c ≡ true
  pub less_total : (a b : K) → less a b ≡ false → less b a ≡ false → a ≡ b

pub record Keys {ℓ} (K : Type ℓ) : Type ℓ where
  pub same : K → K → Bool
  pub less : K → K → Bool
  pub lawful : IsLawful same less
  pub open lawful use *

pub numbers-IsLawful : IsLawful ◌==◌ ltb
numbers-IsLawful = ground arith

instance unfoldable pub numbers : Keys ℕ
numbers = record { same = ◌==◌; less = ltb; lawful = numbers-IsLawful }

pub clash : (b : Bool) → b ≡ true → b ≡ false → ⊥
clash b h k = ground arith

module _ {ℓ} {K : Type ℓ} ⦃o : Keys K⦄ where
  pub less_asym : (a b : K) → o.less a b ≡ true → o.less b a ≡ false
  less_asym a b h = elim (Bool-cases (o.less b a)) [
    | inl k ↦ absurd (ground (arith, o.less_trans a b a h k, o.less_irrefl a))
    | inr k ↦ k
  ]

  -- What is not above a key below a third is not above the third.
  pub not_less_trans : (a b c : K) → o.less b a ≡ false → o.less c b ≡ false → o.less c a ≡ false
  not_less_trans a b c h k = elim (Bool-cases (o.less c a)) [
    | inr d ↦ d
    | inl d ↦ elim (Bool-cases (o.less a b)) [
      | inl e ↦ absurd (ground (arith, o.less_trans c a b d e))
      | inr e ↦ subst (λ x. o.less c x ≡ false) (sym (o.less_total a b e h)) k
    ]
  ]

  pub other : (key k : K) → o.same key k ≡ false → (k ≡ key → ⊥)
  other key k e q =
      clash (o.same key k) (subst (λ x. o.same key x ≡ true) (sym q) (o.same_refl key)) e

  pub above : (key k : K) → o.same key k ≡ false → o.less key k ≡ false → o.less k key ≡ true
  above key k e b = elim (Bool-cases (o.less k key)) [
    | inl h ↦ h
    | inr h ↦ absurd (other key k e (sym (o.less_total key k b h)))
  ]
