-- ===== src/Arithmetic/BigInt/Value.antt =====
-- The integer that a `big_int` of arithmetic/big_integer stands for, and its one representation.
use Prim.Native.Nat.{compare, Ordering}
use mai_fa_sp_4_sem.Base.{
  ℕ, ◌+◌, ◌≤◌, ◌<◌, ◌≡◌, ◌≢◌, refl, sym, subst, ◌⊎◌, inl, Bool, true, false, if◌then◌else◌, List,
  [], ◌∷◌, length, arith,
}
use mai_fa_sp_4_sem.Base.Int.{ℤ, pos, pos_part, neg_part, sub_ℕ}
use mai_fa_sp_4_sem.Arithmetic.Digits.{strip, trim}
use mai_fa_sp_4_sem.Arithmetic.Digits.Value.{
  value, AllDigits, value-trim, trim-AllDigits, compare_digits-lem,
}
use mai_fa_sp_4_sem.Arithmetic.Digits.Product.{bound, value-lt-bound, bound-le}
use mai_fa_sp_4_sem.Arithmetic.BigInt.{BigInt, is_zero, optimise, spaceship}

-- The highest digit.
abbrev pub top : List ℕ → ℕ
top [] = 0
top (d ∷ []) = d
top (d ∷ e ∷ ds) = top (e ∷ ds)

abbrev pub signed : Bool → ℕ → ℤ
signed s n = if s then pos n else sub_ℕ 0 n

abbrev pub mag : BigInt → ℕ
mag a = value a.digits

abbrev pub to_ℤ : BigInt → ℤ
to_ℤ a = signed a.sign (mag a)

-- The one representation of an integer: digits in range, some digit, no zero on top of others, and
-- no negative zero.
pub record IsValid (a : BigInt) : Type 0 where
  pub digits : AllDigits a.digits
  pub some_digit : 0 < length a.digits
  pub no_zero : (length a.digits ≡ 1) ⊎ (top a.digits ≢ 0)
  pub one_zero : mag a ≡ 0 → a.sign ≡ true

strip-top : (ds : List ℕ) → (strip ds ≡ []) ⊎ (top (strip ds) ≢ 0)
unfolding strip
strip-top [] = inl refl
strip-top (d ∷ ds) = ground (arith, strip-top ds)

top-trim : (ds : List ℕ) → 0 < length ds → (length (trim ds) ≡ 1) ⊎ (top (trim ds) ≢ 0)
unfolding trim
top-trim [] h = absurd (omega arith)
top-trim (d ∷ ds) h = ground (arith, strip-top ds)

length-trim : (ds : List ℕ) → 0 < length ds → 0 < length (trim ds)
unfolding trim
length-trim [] h = h
length-trim (d ∷ ds) h = omega arith

pub top-zero : (ds : List ℕ) → value ds ≡ 0 → top ds ≡ 0
top-zero [] h = refl
top-zero (d ∷ []) h = omega arith
top-zero (d ∷ e ∷ ds) h = top-zero (e ∷ ds) (omega arith)

-- `is_zero` looks at the digits; on a valid number it decides whether it is zero.
pub is_zero_lem :
    (a : BigInt)
    → 0 < length a.digits
    → (length a.digits ≡ 1) ⊎ (top a.digits ≢ 0)
    → (is_zero a ≡ true) × (mag a ≡ 0) ⊎ (is_zero a ≡ false) × (mag a ≢ 0)
is_zero_lem a h k = ground (arith, top-zero a.digits)

digits-optimise : (a : BigInt) → (optimise a).digits ≡ trim a.digits
unfolding optimise
digits-optimise a = ground arith

module _ (a : BigInt) (h : AllDigits a.digits) (k : 0 < length a.digits) where
  decide :
      (is_zero (record a { digits = trim a.digits }) ≡ true) × (value (trim a.digits) ≡ 0)
      ⊎ (is_zero (record a { digits = trim a.digits }) ≡ false) × (value (trim a.digits) ≢ 0)
  decide =
      is_zero_lem (record a { digits = trim a.digits }) (length-trim a.digits k)
        (top-trim a.digits k)

  one_zero-optimise : mag (optimise a) ≡ 0 → (optimise a).sign ≡ true
  unfolding optimise
  one_zero-optimise = ground (arith, decide)

  pub optimise-IsValid : IsValid (optimise a)
  optimise-IsValid =
      let e = sym (digits-optimise a) in
      record {
        digits = subst AllDigits e (trim-AllDigits a.digits h);
        some_digit = subst (λ ds. 0 < length ds) e (length-trim a.digits k);
        no_zero = subst (λ ds. (length ds ≡ 1) ⊎ (top ds ≢ 0)) e (top-trim a.digits k);
        one_zero = one_zero-optimise;
      }

  pub to_ℤ-optimise : to_ℤ (optimise a) ≡ to_ℤ a
  unfolding optimise
  to_ℤ-optimise = ground (arith, value-trim a.digits, decide)

-- A number with a digit other than zero on top has at least the value of that place.
top-bound : (d : ℕ) (ds : List ℕ) → top (d ∷ ds) ≢ 0 → bound ds ≤ value (d ∷ ds)
top-bound d [] h = omega arith
top-bound d (e ∷ ds) h = omega (arith, top-bound e ds h)

shorter-lt :
    (as' bs : List ℕ) → AllDigits as' → top bs ≢ 0 → length as' < length bs → value as' < value bs
shorter-lt as' [] h k lt = absurd (omega arith)
shorter-lt as' (b ∷ bs) h k lt =
    omega (arith, value-lt-bound as' h, bound-le as' bs (omega arith), top-bound b bs k)

-- The order of the integers.
abbrev pub compare_ℤ : ℤ → ℤ → Ordering
compare_ℤ x y = compare (pos_part x + neg_part y) (pos_part y + neg_part x)

-- `<=>` on valid numbers is the order of the integers that they stand for.
pub spaceship-compare_ℤ :
    (a b : BigInt) → IsValid a → IsValid b → spaceship a b ≡ compare_ℤ (to_ℤ a) (to_ℤ b)
unfolding spaceship
spaceship-compare_ℤ a b h k = ground (
  arith,
  shorter-lt a.digits b.digits h.digits,
  shorter-lt b.digits a.digits k.digits,
  compare_digits-lem a.digits b.digits,
  compare_digits-lem b.digits a.digits,
)
