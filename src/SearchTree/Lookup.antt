-- ===== src/SearchTree/Lookup.antt =====
-- Lists of pairs with rising keys, as maps.
use mai_fa_sp_4_sem.Base.{
  ◌≡◌, ◌≢◌, refl, ap, sym, subst, ◌∙◌, true, false, Option, none, some, List, [], ◌∷◌, ◌++◌, arith,
  Bool-cases, inl, inr,
}
use mai_fa_sp_4_sem.SearchTree.Order.{Keys, clash, less_asym, above}
use mai_fa_sp_4_sem.SearchTree.Contents.{AllPairs, AllPairs-map, AllPairs-middle, Sorted, put}
use mai_fa_sp_4_sem.SearchTree.Insert.{AllPairs-put, Lacks, Finds, found, missing}

module _ {ℓ} {K : Type ℓ} ⦃o : Keys K⦄ where
  pub differ : (key k : K) → k ≢ key → o.same key k ≡ false
  differ key k ne = elim (Bool-cases (o.same key k)) [
    | inl e ↦ absurd (ne (sym (o.same_sound key k e)))
    | inr e ↦ e
  ]

  below_differ : (key k : K) → o.less k key ≡ true → o.same key k ≡ false
  below_differ key k e =
      differ key k (λ q.
        clash (o.less k key) e (subst (λ x. o.less x key ≡ false) (sym q) (o.less_irrefl key)))

module _ {ℓ κ} {K : Type ℓ} {V : Type κ} ⦃o : Keys K⦄ where
  -- Each key is below those behind it.
  abbrev pub Rising : List (K × V) → Type 0
  Rising [] = Unit
  Rising (x ∷ xs) = AllPairs (λ k. o.less x.0 k ≡ true) xs × Rising xs

  -- The value of the first pair with the key.
  unfoldable pub lookup : K → List (K × V) → Option V
  lookup key [] = none
  lookup key ((k, v) ∷ xs) = elim (o.same key k) [ true ↦ some v | false ↦ lookup key xs ]

  lookup-found :
      (key : K) (value : V) (xs ys : List (K × V))
      → Rising (xs ++ (key, value) ∷ ys)
      → lookup key (xs ++ (key, value) ∷ ys) ≡ some value
  unfolding lookup
  lookup-found key value [] ys h = rw (o.same_refl key, lookup) refl
  lookup-found key value ((k, v) ∷ xs) ys (p, h) =
      rw
        (below_differ key k (AllPairs-middle (λ x. o.less k x ≡ true) xs (key, value) ys p), lookup)
        (lookup-found key value xs ys h)

  lookup-Lacks : (key : K) (xs : List (K × V)) → Lacks key xs → lookup key xs ≡ none
  unfolding lookup
  lookup-Lacks key [] h = refl
  lookup-Lacks key ((k, v) ∷ xs) (p, h) = rw (differ key k p, lookup) (lookup-Lacks key xs h)

  pub Finds-lookup :
      (key : K) (xs : List (K × V)) (result : Option V)
      → Rising xs
      → Finds key xs result
      → result ≡ lookup key xs
  Finds-lookup key xs _ h (found as' bs value e) =
      sym (ap (lookup key) e ∙ lookup-found key value as' bs (subst Rising e h))
  Finds-lookup key xs _ h (missing k) = sym (lookup-Lacks key xs k)

  pub Rising-Sorted : (xs : List (K × V)) → Rising xs → Sorted xs
  Rising-Sorted [] h = tt
  Rising-Sorted (x ∷ xs) (p, h) = (
    AllPairs-map (λ k. o.less x.0 k ≡ true) (λ k. o.less k x.0 ≡ false) xs (λ k. less_asym x.0 k) p,
    Rising-Sorted xs h,
  )

  -- Another pair that is put in does not matter for a key.
  pub lookup-put_other :
      (key k : K) (v : V) (xs : List (K × V))
      → o.same key k ≡ false
      → lookup key (put k v xs) ≡ lookup key xs
  unfolding lookup put
  lookup-put_other key k v [] e = rw (e, lookup) refl
  lookup-put_other key k v ((k', v') ∷ xs) e = elim (Bool-cases (o.less k k')) [
    | inl b ↦ rw (b, put, e, lookup) refl
    | inr b ↦ elim (Bool-cases (o.same key k')) [
      | inl c ↦ rw (b, put, c, lookup) refl
      | inr c ↦ rw (b, put, c, lookup) (lookup-put_other key k v xs e)
    ]
  ]

  pub lookup-put_same :
      (key : K) (v : V) (xs : List (K × V)) → Lacks key xs → lookup key (put key v xs) ≡ some v
  unfolding lookup put
  lookup-put_same key v [] h = rw (o.same_refl key, lookup) refl
  lookup-put_same key v ((k', v') ∷ xs) (p, h) = elim (Bool-cases (o.less key k')) [
    | inl b ↦ rw (b, put, o.same_refl key, lookup) refl
    | inr b ↦ rw (b, put, differ key k' p, lookup) (lookup-put_same key v xs h)
  ]

  pub put-Rising :
      (key : K) (v : V) (xs : List (K × V)) → Lacks key xs → Rising xs → Rising (put key v xs)
  unfolding put
  put-Rising key v [] e h = (tt, tt)
  put-Rising key v ((k', v') ∷ xs) (ne, e) (p, h) = elim (Bool-cases (o.less key k')) [
    | inl b ↦
        rw (b, put)
          (
            (
              b,
              AllPairs-map (λ k. o.less k' k ≡ true) (λ k. o.less key k ≡ true) xs
                  (λ k q. o.less_trans key k' k b q) p,
            ),
            (p, h),
          )
    | inr b ↦
        rw (b, put)
          (
            AllPairs-put (λ k. o.less k' k ≡ true) key v xs (above key k' (differ key k' ne) b) p,
            put-Rising key v xs e h,
          )
  ]

  pub Finds-none :
      (key : K) (xs : List (K × V)) (r : Option V) → Finds key xs r → r ≡ none → Lacks key xs
  Finds-none key xs _ (found as' bs value e) q = absurd (ground arith)
  Finds-none key xs _ (missing h) q = h

  -- Two lists with the same keys.
  pub data SameKeys : List (K × V) → List (K × V) → Type (ℓ ⊔ κ) where
    both_end : SameKeys [] []
    both_go :
        (k : K) (v w : V) (xs ys : List (K × V))
        → SameKeys xs ys
        → SameKeys ((k, v) ∷ xs) ((k, w) ∷ ys)

  pub SameKeys-refl : (xs : List (K × V)) → SameKeys xs xs
  SameKeys-refl [] = both_end
  SameKeys-refl ((k, v) ∷ xs) = both_go k v v xs xs (SameKeys-refl xs)

  pub SameKeys-append :
      (xs ys zs ws : List (K × V))
      → SameKeys xs ys
      → SameKeys zs ws
      → SameKeys (xs ++ zs) (ys ++ ws)
  SameKeys-append _ _ zs ws both_end g = g
  SameKeys-append _ _ zs ws (both_go k v w xs ys h) g =
      both_go k v w (xs ++ zs) (ys ++ ws) (SameKeys-append xs ys zs ws h g)

  AllPairs-SameKeys :
      (P : K → Type 0) (xs ys : List (K × V)) → SameKeys xs ys → AllPairs P xs → AllPairs P ys
  AllPairs-SameKeys P _ _ both_end p = tt
  AllPairs-SameKeys P _ _ (both_go k v w xs ys h) (p, ps) = (p, AllPairs-SameKeys P xs ys h ps)

  pub Rising-SameKeys : (xs ys : List (K × V)) → SameKeys xs ys → Rising xs → Rising ys
  Rising-SameKeys _ _ both_end p = tt
  Rising-SameKeys _ _ (both_go k v w xs ys h) (p, ps) =
      (AllPairs-SameKeys (λ k'. o.less k k' ≡ true) xs ys h p, Rising-SameKeys xs ys h ps)
