-- ===== src/Arithmetic/Digits/Value.antt =====
-- The number that a vector of digits stands for, and the sums, differences and orders that the
-- loops of arithmetic/big_integer/src/big_int.cpp compute.
use Prim.Native.Nat.{compare}
use mai_fa_sp_4_sem.Base.{
  ℕ, zero, suc, ◌+◌, ◌*◌, ◌/◌, ◌≤◌, ◌<◌, ◌≡◌, refl, List, [], ◌∷◌, length, arith,
}
use mai_fa_sp_4_sem.Arithmetic.Digits.{
  base, strip, trim, compare_digits, digit, rest, add_loop, sub_loop, shl_loop,
}

abbrev pub value : List ℕ → ℕ
value [] = 0
value (d ∷ ds) = d + base * value ds

abbrev pub AllDigits : List ℕ → Type 0
AllDigits [] = Unit {0}
AllDigits (d ∷ ds) = (d < base) × AllDigits ds

pub value-strip : (ds : List ℕ) → value (strip ds) ≡ value ds
unfolding strip
value-strip [] = refl
value-strip (d ∷ ds) = ground (arith, value-strip ds)

pub strip-AllDigits : (ds : List ℕ) → AllDigits ds → AllDigits (strip ds)
unfolding strip
strip-AllDigits [] h = tt
strip-AllDigits (d ∷ ds) h = ground (arith, strip-AllDigits ds)

pub value-trim : (ds : List ℕ) → value (trim ds) ≡ value ds
unfolding trim
value-trim [] = refl
value-trim (d ∷ ds) = ground (arith, value-strip ds)

pub trim-AllDigits : (ds : List ℕ) → AllDigits ds → AllDigits (trim ds)
unfolding trim
trim-AllDigits [] h = tt
trim-AllDigits (d ∷ ds) (h, hs) = (h, strip-AllDigits ds hs)

split : (ds : List ℕ) → value ds ≡ digit ds + base * value (rest ds)
split [] = omega arith
split (d ∷ ds) = refl

digits_split : (ds : List ℕ) → AllDigits ds → (digit ds < base) × AllDigits (rest ds)
digits_split [] h = (omega arith, tt)
digits_split (d ∷ ds) h = h

length-rest : (n : ℕ) (ds : List ℕ) → length ds ≤ suc n → length (rest ds) ≤ n
length-rest n [] h = omega arith
length-rest n (d ∷ ds) h = omega arith

pub value-add_loop :
    (n : ℕ) (as' bs : List ℕ) (carry : ℕ)
    → length as' ≤ n
    → length bs ≤ n
    → value (add_loop n as' bs carry) ≡ value as' + value bs + carry
unfolding add_loop
value-add_loop zero [] [] carry h k = ground arith
value-add_loop zero (a ∷ as') bs carry h k = absurd (omega arith)
value-add_loop zero [] (b ∷ bs) carry h k = absurd (omega arith)
value-add_loop (suc n) as' bs carry h k = omega (
  arith,
  split as',
  split bs,
  value-add_loop n (rest as') (rest bs) ((carry + digit as' + digit bs) / base)
      (length-rest n as' h) (length-rest n bs k),
)

pub add_loop-AllDigits :
    (n : ℕ) (as' bs : List ℕ) (carry : ℕ)
    → AllDigits as'
    → AllDigits bs
    → carry < 2
    → AllDigits (add_loop n as' bs carry)
unfolding add_loop
add_loop-AllDigits zero as' bs carry h k c = ground arith
add_loop-AllDigits (suc n) as' bs carry h k c =
    let (a, as'') = digits_split as' h in
    let (b, bs'') = digits_split bs k in
    (
      omega arith,
      add_loop-AllDigits n (rest as') (rest bs) ((carry + digit as' + digit bs) / base) as'' bs''
          (omega arith),
    )

pub value-sub_loop :
    (n : ℕ) (as' bs : List ℕ) (borrow : ℕ)
    → length as' ≤ n
    → length bs ≤ n
    → AllDigits as'
    → AllDigits bs
    → borrow < 2
    → value bs + borrow ≤ value as'
    → value (sub_loop n as' bs borrow) + (value bs + borrow) ≡ value as'
unfolding sub_loop
value-sub_loop zero [] [] borrow h k as'' bs'' c le = omega arith
value-sub_loop zero (a ∷ as') bs borrow h k as'' bs'' c le = absurd (omega arith)
value-sub_loop zero [] (b ∷ bs) borrow h k as'' bs'' c le = absurd (omega arith)
value-sub_loop (suc n) as' bs borrow h k as'' bs'' c le =
    let (a, as₁) = digits_split as' as'' in
    let (b, bs₁) = digits_split bs bs'' in
    ground (
      arith,
      split as',
      split bs,
      value-sub_loop n (rest as') (rest bs) 0 (length-rest n as' h) (length-rest n bs k) as₁ bs₁,
      value-sub_loop n (rest as') (rest bs) 1 (length-rest n as' h) (length-rest n bs k) as₁ bs₁,
    )

pub sub_loop-AllDigits :
    (n : ℕ) (as' bs : List ℕ) (borrow : ℕ)
    → AllDigits as'
    → AllDigits bs
    → AllDigits (sub_loop n as' bs borrow)
unfolding sub_loop
sub_loop-AllDigits zero as' bs borrow h k = tt
sub_loop-AllDigits (suc n) as' bs borrow h k =
    let (a, as₁) = digits_split as' h in
    let (b, bs₁) = digits_split bs k in
    ground (
      arith,
      sub_loop-AllDigits n (rest as') (rest bs) 0 as₁ bs₁,
      sub_loop-AllDigits n (rest as') (rest bs) 1 as₁ bs₁,
    )

pub compare_digits-lem :
    (as' bs : List ℕ)
    → length as' ≡ length bs
    → AllDigits as'
    → AllDigits bs
    → compare_digits as' bs ≡ compare (value as') (value bs)
unfolding compare_digits
compare_digits-lem [] [] e h k = refl
compare_digits-lem [] (b ∷ bs) e h k = absurd (omega arith)
compare_digits-lem (a ∷ as') [] e h k = absurd (omega arith)
compare_digits-lem (a ∷ as') (b ∷ bs) e (h, hs) (k, ks) =
    ground (arith, compare_digits-lem as' bs (omega arith) hs ks)

pub value-shl_loop :
    (factor : ℕ) (ds : List ℕ) (carry : ℕ)
    → value (shl_loop factor ds carry) ≡ value ds * factor + carry
unfolding shl_loop
value-shl_loop factor [] carry = ground arith
value-shl_loop factor (d ∷ ds) carry =
    grind (arith, value-shl_loop factor ds ((d * factor + carry) / base))
