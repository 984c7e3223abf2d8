-- ===== src/SearchTree/Insert.antt =====
-- Where `insert` of a search tree puts a pair, and what its search finds.
use mai_fa_sp_4_sem.Base.{
  ◌≡◌, ◌≢◌, refl, ap, sym, subst, ◌∙◌, true, false, Option, none, some, List, [], ◌∷◌, ◌++◌, length,
  ◌+◌, arith, append_assoc, append-nil, Bool-cases, inl, inr,
}
use mai_fa_sp_4_sem.SearchTree.Order.{Keys, clash, other, above, less_asym, not_less_trans}
use mai_fa_sp_4_sem.SearchTree.{
  Tree, leaf, node, Chain, root, left_of, right_of, plug, in_order, descend, go_to_node_with_key,
}
use mai_fa_sp_4_sem.SearchTree.Contents.{
  before, after, in_order-plug, AllPairs, AllPairs-append, AllPairs-front, AllPairs-map, Sorted,
  Sorted-back, put, AllPairs-not_above, Fits, put-Fits,
}

module _ {ℓ κ} {K : Type ℓ} {V : Type κ} ⦃o : Keys K⦄ where
  Fits-left :
      (key k : K) (v : V) (xs ys zs : List (K × V))
      → o.less key k ≡ true
      → Fits key xs ys
      → Fits key xs ((k, v) ∷ zs)
  unfolding put
  Fits-left key k v xs ys zs e h = record { front = h.front; back = λ value. rw (e, put) refl }

  Fits-right :
      (key k : K) (v : V) (xs ls rs ys : List (K × V))
      → o.less key k ≡ false
      → Sorted (xs ++ (ls ++ (k, v) ∷ rs) ++ ys)
      → Fits key xs ys
      → Fits key (xs ++ ls ++ (k, v) ∷ []) ys
  Fits-right key k v xs ls rs ys e s h = record {
    front =
        let s' : Sorted (ls ++ (k, v) ∷ (rs ++ ys)) =
          subst Sorted (append_assoc ls ((k, v) ∷ rs) ys) (
            Sorted-back xs ((ls ++ (k, v) ∷ rs) ++ ys)
              (subst Sorted (append_assoc xs (ls ++ (k, v) ∷ rs) ys) s)) in
        AllPairs-append (λ x. o.less key x ≡ false) (xs ++ ls) ((k, v) ∷ [])
          (AllPairs-append (λ x. o.less key x ≡ false) xs ls h.front
            (AllPairs-not_above ls (rs ++ ys) (k, v) key s' e))
          (e, tt);
    back = h.back;
  }

  -- No pair has the key.
  abbrev pub Lacks : K → List (K × V) → Type ℓ
  Lacks key xs = AllPairs (λ k. k ≢ key) xs

  -- A pair with the key and its value, or none.
  pub data Finds (key : K) (zs : List (K × V)) : Option V → Type (ℓ ⊔ κ) where
    found :
        (xs ys : List (K × V)) (value : V)
        → zs ≡ xs ++ (key, value) ∷ ys
        → Finds key zs (some value)
    missing : Lacks key zs → Finds key zs none

  Lacks-below :
      (key k : K) (xs ys : List (K × V)) (v : V)
      → o.less k key ≡ true
      → Sorted (xs ++ (k, v) ∷ ys)
      → Lacks key xs
  Lacks-below key k xs ys v e s =
      AllPairs-map (λ x. o.less k x ≡ false) (λ x. x ≢ key) xs
        (λ x b q. clash (o.less k key) e (subst (λ y. o.less k y ≡ false) q b))
        (AllPairs-not_above xs ys (k, v) k s (o.less_irrefl k))

  -- Keys behind a key above `key`, and in front of a key below it, are other keys.
  Lacks-above :
      (key k : K) (xs : List (K × V))
      → o.less key k ≡ true
      → AllPairs (λ x. o.less x k ≡ false) xs
      → Lacks key xs
  Lacks-above key k xs e h =
      AllPairs-map (λ x. o.less x k ≡ false) (λ x. x ≢ key) xs
        (λ x b q. clash (o.less key k) e (subst (λ y. o.less y k ≡ false) q b)) h

  Sorted-front : (xs ys : List (K × V)) → Sorted (xs ++ ys) → Sorted xs
  Sorted-front [] ys h = tt
  Sorted-front (x ∷ xs) ys (p, h) =
      (AllPairs-front (λ k. o.less k x.0 ≡ false) xs ys p, Sorted-front xs ys h)

  Finds-left :
      (key : K) (xs ys : List (K × V)) (result : Option V)
      → Lacks key ys
      → Finds key xs result
      → Finds key (xs ++ ys) result
  Finds-left key xs ys _ h (found as' bs value e) =
      found as' (bs ++ ys) value (ap (λ zs. zs ++ ys) e ∙ append_assoc as' ((key, value) ∷ bs) ys)
  Finds-left key xs ys _ h (missing k) = missing (AllPairs-append (λ x. x ≢ key) xs ys k h)

  Finds-right :
      (key : K) (xs ys : List (K × V)) (x : K × V) (result : Option V)
      → Lacks key xs
      → x.0 ≢ key
      → Finds key ys result
      → Finds key (xs ++ x ∷ ys) result
  Finds-right key xs ys x _ h ne (found as' bs value e) =
      found (xs ++ x ∷ as') bs value
        (ap (λ zs. xs ++ x ∷ zs) e ∙ sym (append_assoc xs (x ∷ as') ((key, value) ∷ bs)))
  Finds-right key xs ys x _ h ne (missing k) =
      missing (AllPairs-append (λ y. y ≢ key) xs (x ∷ ys) h (ne, k))

module _ {τ ℓ κ} {T : Type τ} {K : Type ℓ} {V : Type κ} ⦃o : Keys K⦄ where
  descend-Fits :
      (key : K) (t : Tree T K V) (p : Chain T K V)
      → Sorted (in_order (plug t p))
      → Fits key (before p) (after p)
      → let q = descend key t p in
        Fits key (before q) (after q) × (before q ++ after q ≡ in_order (plug t p))
  unfolding descend plug
  descend-Fits key leaf p s h =
      (h, sym (in_order-plug leaf p ∙ ap (λ zs. zs ++ after p) (append-nil (before p))))
  descend-Fits key (node c k v l r) p s h = elim (Bool-cases (o.less key k)) [
    | inl e ↦
        rw (e, descend)
          (descend-Fits key l (left_of c k v r p) s
            (Fits-left key k v (before p) (after p) (in_order r ++ after p) e h))
    | inr e ↦
        rw (e, descend)
          (descend-Fits key r (right_of c k v l p) s (
            Fits-right key k v (before p) (in_order l) (in_order r) (after p) e
              (subst Sorted (in_order-plug (node c k v l r) p) s) h))
  ]

  -- The new node hangs where its pair belongs in the order.
  pub descend-put :
      (key : K) (value : V) (t : Tree T K V)
      → Sorted (in_order t)
      → let q = descend key t root in
        before q ++ (key, value) ∷ after q ≡ put key value (in_order t)
  unfolding plug put
  descend-put key value t s =
      let (fits, whole) = descend-Fits key t root s (record { front = tt; back = λ value. refl }) in
      let q = descend key t root in
      sym (put-Fits key value (before q) (after q) fits) ∙ ap (put key value) whole

  -- The search on sorted pairs finds a pair with the key if there is one.
  pub go_to_node_with_key-Finds :
      (key : K) (t : Tree T K V)
      → Sorted (in_order t)
      → Finds key (in_order t) (go_to_node_with_key key t)
  unfolding go_to_node_with_key
  go_to_node_with_key-Finds key leaf s = missing tt
  go_to_node_with_key-Finds key (node c k v l r) s = elim (Bool-cases (o.same key k)) [
    | inl e ↦
        rw (e, go_to_node_with_key)
          (found (in_order l) (in_order r) v
            (ap (λ x. in_order l ++ (x, v) ∷ in_order r) (sym (o.same_sound key k e))))
    | inr e ↦ elim (Bool-cases (o.less key k)) [
      | inl b ↦
          rw (e, b, go_to_node_with_key)
            (Finds-left key (in_order l) ((k, v) ∷ in_order r) (go_to_node_with_key key l)
              (
                other key k e,
                Lacks-above key k (in_order r) b
                    (Sorted-back (in_order l) ((k, v) ∷ in_order r) s).0,
              )
              (go_to_node_with_key-Finds key l (Sorted-front (in_order l) ((k, v) ∷ in_order r) s)))
      | inr b ↦
          rw (e, b, go_to_node_with_key)
            (Finds-right key (in_order l) (in_order r) (k, v) (go_to_node_with_key key r)
              (Lacks-below key k (in_order l) (in_order r) v (above key k e b) s) (other key k e)
              (go_to_node_with_key-Finds key r
                (Sorted-back (in_order l) ((k, v) ∷ in_order r) s).1))
    ]
  ]

module _ {ℓ κ} {K : Type ℓ} {V : Type κ} ⦃o : Keys K⦄ where
  pub AllPairs-put :
      (P : K → Type 0) (key : K) (value : V) (xs : List (K × V))
      → P key
      → AllPairs P xs
      → AllPairs P (put key value xs)
  unfolding put
  AllPairs-put P key value [] p h = (p, tt)
  AllPairs-put P key value (x ∷ xs) p (q, h) = elim (Bool-cases (o.less key x.0)) [
    | inl e ↦ rw (e, put) (p, (q, h))
    | inr e ↦ rw (e, put) (q, AllPairs-put P key value xs p h)
  ]

  pub put-Sorted : (key : K) (value : V) (xs : List (K × V)) → Sorted xs → Sorted (put key value xs)
  unfolding put
  put-Sorted key value [] s = (tt, tt)
  put-Sorted key value (x ∷ xs) (p, s) = elim (Bool-cases (o.less key x.0)) [
    | inl e ↦
        rw (e, put)
          (
            (
              less_asym key x.0 e,
              AllPairs-map (λ k. o.less k x.0 ≡ false) (λ k. o.less k key ≡ false) xs
                  (λ k h. not_less_trans key x.0 k (less_asym key x.0 e) h) p,
            ),
            (p, s),
          )
    | inr e ↦
        rw (e, put)
          (AllPairs-put (λ k. o.less k x.0 ≡ false) key value xs e p, put-Sorted key value xs s)
  ]

  pub length-put :
      (key : K) (value : V) (xs : List (K × V)) → length (put key value xs) ≡ length xs + 1
  unfolding put
  length-put key value [] = refl
  length-put key value (x ∷ xs) = elim (Bool-cases (o.less key x.0)) [
    | inl e ↦ rw (e, put) (ground arith)
    | inr e ↦ rw (e, put) (ground (arith, length-put key value xs))
  ]

  -- Pairs put in one after the other.
  abbrev pub put_all : List (K × V) → List (K × V) → List (K × V)
  put_all [] xs = xs
  put_all ((key, value) ∷ rest) xs = put_all rest (put key value xs)
