-- ===== src/Arithmetic/Digits/Product.antt =====
-- The trivial multiplication of arithmetic/big_integer/src/big_int.cpp stays inside its vector and
-- computes the product.
use mai_fa_sp_4_sem.Base.{
  ℕ, zero, suc, ◌+◌, ◌*◌, ◌/◌, ◌%◌, ◌≤◌, ◌<◌, ◌≡◌, refl, Option, none, some, List, [], ◌∷◌, length,
  arith, ap, subst,
}
use mai_fa_sp_4_sem.Arithmetic.Digits.{base, mul_row, mul_rows}
use mai_fa_sp_4_sem.Arithmetic.Digits.Value.{value, AllDigits}

-- The least number that has more than the digits of the list.
abbrev pub bound : List ℕ → ℕ
bound [] = 1
bound (d ∷ ds) = base * bound ds

pub value-lt-bound : (ds : List ℕ) → AllDigits ds → value ds < bound ds
value-lt-bound [] h = omega arith
value-lt-bound (d ∷ ds) (h, hs) = omega (arith, value-lt-bound ds hs)

-- The result of a loop that stayed inside the vector: as many digits, and their value.
pub record Holds (result : Option (List ℕ)) (n v : ℕ) : Type 0 where
  pub digits : List ℕ
  pub inside : result ≡ some digits
  pub size : length digits ≡ n
  pub sum : value digits ≡ v
  pub bounded : AllDigits digits

-- One more digit in front.
Holds-cons :
    {result : Option (List ℕ)} {n v : ℕ} (d w : ℕ)
    → Holds result n v
    → d < base
    → d + base * v ≡ w
    → Holds (elim result [ none ↦ none | some l ↦ some (d ∷ l) ]) (suc n) w
Holds-cons d w row h e = record {
  digits = d ∷ row.digits;
  inside = rw row.inside refl;
  size = ap suc row.size;
  sum = omega (arith, row.sum);
  bounded = (h, row.bounded);
}

mul_row-Holds :
    (result : List ℕ) (d : ℕ) (bs : List ℕ) (carry : ℕ)
    → AllDigits result
    → length bs ≤ length result
    → value result + d * value bs + carry < bound result
    → Holds (mul_row result d bs carry) (length result) (value result + d * value bs + carry)
unfolding mul_row
mul_row-Holds result d [] zero h fits lt = record {
  digits = result;
  inside = refl;
  size = refl;
  sum = grind arith;
  bounded = h;
}
mul_row-Holds [] d [] (suc c) h fits lt = absurd (omega arith)
mul_row-Holds [] d (b ∷ bs) carry h fits lt = absurd (omega arith)
mul_row-Holds (r ∷ result) d [] (suc c) (h, hs) fits lt =
    Holds-cons ((r + suc c) % base) _
      (mul_row-Holds result d [] ((r + suc c) / base) hs (omega arith) (omega arith)) (omega arith)
      (grind arith)
mul_row-Holds (r ∷ result) d (b ∷ bs) carry (h, hs) fits lt =
    let prod = r + carry + d * b in
    let e : r + base * value result + d * (b + base * value bs) + carry
        ≡ prod + base * (value result + d * value bs) =
      grind arith in
    Holds-cons (prod % base) _
      (mul_row-Holds result d bs (prod / base) hs (omega arith) (omega arith)) (omega arith)
      (omega arith)

pub bound-positive : (xs : List ℕ) → 1 ≤ bound xs
bound-positive [] = omega arith
bound-positive (x ∷ xs) = omega (arith, bound-positive xs)

pub bound-le : (xs ys : List ℕ) → length xs ≤ length ys → bound xs ≤ bound ys
bound-le [] ys h = bound-positive ys
bound-le (x ∷ xs) [] h = absurd (omega arith)
bound-le (x ∷ xs) (y ∷ ys) h = omega (arith, bound-le xs ys (omega arith))

-- Behind row `i` the digits from `result[i]` on stay below the bound of the second factor.
row_lt : (v d b c : ℕ) → v < c → b < c → d < base → v + d * b < base * c
row_lt v d b c h k l = grind arith

-- The outer loop, once the first row has made `ds` of the result.
rows_behind :
    (as' bs ds : List ℕ) (result : Option (List ℕ)) (n w : ℕ)
    → result ≡ some ds
    → length ds ≡ suc n
    → AllDigits ds
    → ((es : List ℕ)
        → AllDigits es
        → length es ≡ n
        → base * value es ≤ value ds
        → Holds (mul_rows as' bs es) n (value es + value as' * value bs))
    → value ds + base * (value as' * value bs) ≡ w
    → Holds
        (elim result [
          | none ↦ none
          | some [] ↦ none
          | some (r ∷ result') ↦ elim (mul_rows as' bs result') [
            | none ↦ none
            | some l ↦ some (r ∷ l)
          ]
        ])
        (suc n)
        w
rows_behind as' bs [] result n w e size k rows v = absurd (omega arith)
rows_behind as' bs (d ∷ ds) result n w e size (h, hs) rows v =
    rw e (Holds-cons d w (rows ds hs (omega arith) (omega arith)) h (omega arith))

-- If there is room for the digits of both factors, the multiplication never writes outside of the
-- vector, and the result is the product.
pub mul_rows-Holds :
    (as' bs result : List ℕ)
    → AllDigits as'
    → AllDigits bs
    → AllDigits result
    → length result ≡ length as' + length bs
    → value result < bound bs
    → Holds (mul_rows as' bs result) (length result) (value result + value as' * value bs)
unfolding mul_rows
mul_rows-Holds [] bs result h k m fits lt = record {
  digits = result;
  inside = refl;
  size = refl;
  sum = grind arith;
  bounded = m;
}
mul_rows-Holds (a ∷ as') bs [] (h, hs) k m fits lt = absurd (omega arith)
mul_rows-Holds (a ∷ as') bs (r ∷ result) (h, hs) k m fits lt =
    let result' : List ℕ = r ∷ result in
    let low = value-lt-bound bs k in
    let top = row_lt (value result') a (value bs) (bound bs) lt low h in
    let row =
      mul_row-Holds result' a bs 0 m (omega arith)
        (omega (arith, bound-le (0 ∷ bs) result' (omega arith))) in
    rows_behind as' bs row.digits (mul_row result' a bs 0) (length result) _ row.inside row.size
      row.bounded
      (λ es es' size le.
        subst (λ n. Holds (mul_rows as' bs es) n (value es + value as' * value bs)) size
          (mul_rows-Holds as' bs es hs k es' (omega arith) (omega (arith, row.sum))))
      (grind (arith, row.sum))
