-- ===== src/Arithmetic/BigInt/Print/Again.antt =====
-- A text of arithmetic/big_integer is read back as the number that it shows.
use mai_fa_sp_4_sem.Base.{
  ℕ, zero, suc, ◌+◌, ◌*◌, ◌≤◌, ◌<◌, ◌≡◌, ◌≢◌, refl, ap, sym, subst, ◌∙◌, ◌⊎◌, inl, inr, Bool, true,
  false, eqb, if◌then◌else◌, Option, some, List, [], ◌∷◌, arith,
}
use mai_fa_sp_4_sem.Base.Int.{pos}
use mai_fa_sp_4_sem.Arithmetic.Digits.{digit}
use mai_fa_sp_4_sem.Arithmetic.Digits.Value.{value}
use mai_fa_sp_4_sem.Arithmetic.BigInt.{BigInt, positive}
use mai_fa_sp_4_sem.Arithmetic.BigInt.Value.{signed, mag, to_ℤ, IsValid}
use mai_fa_sp_4_sem.Arithmetic.BigInt.Sums.{Is, zero_or_not, positive-IsValid}
use mai_fa_sp_4_sem.Arithmetic.BigInt.Division.Numbers.{of_number-Holds}
use mai_fa_sp_4_sem.Arithmetic.BigInt.Division.Quotient.{divide_assign-Divides}
use mai_fa_sp_4_sem.Arithmetic.BigInt.Parse.{valid_digit, parse}
use mai_fa_sp_4_sem.Arithmetic.BigInt.Parse.Horner.{
  horner, Reads, reads, Signed, minus, none_given, parse-horner,
}
use mai_fa_sp_4_sem.Arithmetic.BigInt.Print.{ten, print_loop, to_string}

abbrev StartsDigit : List ℕ → Type 0
StartsDigit [] = ⊥
StartsDigit (c ∷ cs) = b'0' ≤ c

digit-small : (ds : List ℕ) → value ds < 10 → digit ds ≡ value ds
digit-small [] h = refl
digit-small (d ∷ ds) h = omega arith

valid_digit-char : (d : ℕ) → d < 10 → valid_digit (b'0' + d) 10 ≡ some d
unfolding valid_digit
valid_digit-char d h = ground arith

positive_sign : (s : Bool) (n k : ℕ) → n ≢ 0 → signed s n ≡ pos k → s ≡ true
positive_sign s n k ne h = ground arith

-- What stands behind is read after the digit.
horner-digit :
    (n d m : ℕ) (res : List ℕ)
    → d < 10
    → n * 10 + d ≡ m
    → horner 10 n ((b'0' + d) ∷ res) ≡ horner 10 m res
unfolding horner
horner-digit n d m res lt e = rw (valid_digit-char d lt, horner) (ap (λ x. horner 10 x res) e)

starts_with : (n : ℕ) (res : List ℕ) → n ≡ 0 → (n ≢ 0) ⊎ StartsDigit res → StartsDigit res
starts_with n res e (inl ne) = absurd (ne e)
starts_with n res e (inr h) = h

not_negative :
    (s t : Bool) (q : BigInt)
    → s ≡ true
    → t ≡ true
    → Is q (signed (eqb s t) (mag q))
    → q.sign ≡ true
not_negative s t q hs ht (v, e) = ground (arith, v.one_zero)

-- The loop ends in the text of the number in front of what was there.
record Prints (tmp : BigInt) (res : List ℕ) (result : Option (List ℕ)) : Type 0 where
  text : List ℕ
  ends : result ≡ some text
  stands_for : horner 10 0 text ≡ horner 10 (mag tmp) res
  starts : StartsDigit text

print_loop-Prints :
    (fuel : ℕ) (tmp : BigInt) (res : List ℕ)
    → IsValid tmp
    → tmp.sign ≡ true
    → mag tmp < fuel
    → (mag tmp ≢ 0) ⊎ StartsDigit res
    → Prints tmp res (print_loop fuel tmp res)
unfolding print_loop
print_loop-Prints zero tmp res v s lt k = absurd (omega arith)
print_loop-Prints (suc fuel) tmp res v s lt k = elim (zero_or_not tmp v) [
  | inl (zero_tmp, e) ↦ rw zero_tmp (record {
    text = res;
    ends = refl;
    stands_for = ap (λ x. horner 10 x res) (sym e);
    starts = starts_with (mag tmp) res e k;
  })
  | inr (other, ne) ↦
      (let ten_holds = of_number-Holds 10 (omega arith) in
        let (q, r, divides, leaves, d) =
          divide_assign-Divides tmp ten v ten_holds.valid (omega (arith, ten_holds.size)) in
        let size = ten_holds.size in
        let small : mag r < 10 = omega (arith, d.small, size) in
        let sum : mag q * 10 + mag r ≡ mag tmp = grind (arith, d.sum, size) in
        let shown = digit-small r.digits small in
        let q_sign = not_negative tmp.sign ten.sign q s ten_holds.sign d.quotient in
        let p =
          print_loop-Prints fuel q ((b'0' + digit r.digits) ∷ res) d.quotient.0 q_sign
            (omega (arith, sum)) (inr (omega arith)) in
        rw (other, leaves, divides)
          (record {
            text = p.text;
            ends = p.ends;
            stands_for =
                p.stands_for
                ∙ horner-digit (mag q) (digit r.digits) (mag tmp) res (omega (arith, shown))
                    (omega (arith, shown, sum));
            starts = p.starts;
          }))
]

Reads-back :
    {sign : Bool} {o : Option BigInt} {n : ℕ}
    → Reads sign o (some n)
    → (b : BigInt) × (o ≡ some b) × Is b (signed sign n)
Reads-back (reads b n h) = (b, refl, h)

read_back :
    (text num : List ℕ) (sign : Bool) (n : ℕ)
    → Signed text sign num
    → horner 10 0 num ≡ some n
    → (b : BigInt) × (parse text 10 ≡ some b) × Is b (signed sign n)
read_back text num sign n h e = Reads-back (
    subst (Reads sign (parse text 10)) e
      (parse-horner text num sign 10 h (omega arith) (omega arith)))

Signed-digit : (text : List ℕ) → StartsDigit text → Signed text true text
Signed-digit [] h = absurd h
Signed-digit (c ∷ cs) h = none_given c cs (omega arith) (omega arith)

with_sign :
    (sign : Bool) (text : List ℕ)
    → StartsDigit text
    → Signed (if sign then text else b'-' ∷ text) sign text
with_sign true text h = Signed-digit text h
with_sign false text h = minus text

horner-nought : horner 10 0 (b'0' ∷ []) ≡ some 0
unfolding horner
horner-nought = horner-digit 0 0 0 [] (omega arith) refl

horner-done : (n : ℕ) → horner 10 n [] ≡ some n
unfolding horner
horner-done n = refl

-- On a valid number and a fuel above its absolute value `to_string` ends, and the constructor reads its text as the number.
pub parse-to_string :
    (fuel : ℕ) (a : BigInt)
    → IsValid a
    → mag a < fuel
    → (text : List ℕ) × (b : BigInt) × (to_string fuel a ≡ some text)
      × (parse text 10 ≡ some b)
      × Is b (to_ℤ a)
unfolding to_string
parse-to_string fuel a v lt = elim (zero_or_not a v) [
  | inl (zero_a, e) ↦
      (let nought = b'0' ∷ [] in
        let (b, read, is) =
          read_back nought nought true 0 (Signed-digit nought (omega arith)) horner-nought in
        rw zero_a (
          nought,
          b,
          refl,
          read,
          (is.0, is.1 ∙ ap (signed true) (sym e) ∙ ap (λ s. signed s (mag a)) (sym (v.one_zero e))),
        ))
  | inr (other, ne) ↦
      (let p = print_loop-Prints fuel (positive a) [] (positive-IsValid a v) refl lt (inl ne) in
        let text = if a.sign then p.text else b'-' ∷ p.text in
        let (b, read, is) =
          read_back text p.text a.sign (mag a) (with_sign a.sign p.text p.starts)
            (p.stands_for ∙ horner-done (mag a)) in
        rw (other, p.ends) (text, b, refl, read, is))
]
