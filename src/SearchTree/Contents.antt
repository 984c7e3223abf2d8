-- ===== src/SearchTree/Contents.antt =====
-- The pairs of a search tree in their order, around a place and through the rotations.
use mai_fa_sp_4_sem.Base.{
  ◌≡◌, refl, ap, sym, ◌∙◌, true, false, List, [], ◌∷◌, ◌++◌, append_assoc, append-nil,
}
use mai_fa_sp_4_sem.SearchTree.Order.{Keys, not_less_trans}
use mai_fa_sp_4_sem.SearchTree.{
  Tree, leaf, node, Chain, root, left_of, right_of, plug, in_order, small_left_rotation,
  small_right_rotation, big_left_rotation, big_right_rotation, double_left_rotation,
  double_right_rotation,
}

module _ {τ ℓ κ} {T : Type τ} {K : Type ℓ} {V : Type κ} where
  -- The pairs in front of a place and behind it.
  abbrev pub before : Chain T K V → List (K × V)
  before root = []
  before (left_of c k v r p) = before p
  before (right_of c k v l p) = before p ++ in_order l ++ (k, v) ∷ []

  abbrev pub after : Chain T K V → List (K × V)
  after root = []
  after (left_of c k v r p) = (k, v) ∷ in_order r ++ after p
  after (right_of c k v l p) = after p

  pub in_order-plug :
      (t : Tree T K V) (p : Chain T K V) → in_order (plug t p) ≡ before p ++ in_order t ++ after p
  unfolding plug
  in_order-plug t root = sym (append-nil (in_order t))
  in_order-plug t (left_of c k v r p) = in_order-plug (node c k v t r) p ∙ simp append_assoc
  in_order-plug t (right_of c k v l p) = in_order-plug (node c k v l t) p ∙ simp append_assoc

  -- A subtree in place of one with the same pairs.
  pub plug_same :
      (t u : Tree T K V) (p : Chain T K V)
      → in_order t ≡ in_order u
      → in_order (plug t p) ≡ in_order (plug u p)
  plug_same t u p e =
      in_order-plug t p ∙ ap (λ xs. before p ++ xs ++ after p) e ∙ sym (in_order-plug u p)

  pub in_order-small_left : (t : Tree T K V) → in_order (small_left_rotation t) ≡ in_order t
  unfolding small_left_rotation
  in_order-small_left leaf = refl
  in_order-small_left (node c k v l leaf) = refl
  in_order-small_left (node c k v l (node c' k' v' d e)) = simp append_assoc

  pub in_order-small_right : (t : Tree T K V) → in_order (small_right_rotation t) ≡ in_order t
  unfolding small_right_rotation
  in_order-small_right leaf = refl
  in_order-small_right (node c k v leaf r) = refl
  in_order-small_right (node c k v (node c' k' v' d e) r) = simp append_assoc

  -- No rotation changes the order of the pairs.
  pub in_order-big_left : (t : Tree T K V) → in_order (big_left_rotation t) ≡ in_order t
  unfolding big_left_rotation
  in_order-big_left leaf = refl
  in_order-big_left (node c k v l leaf) = refl
  in_order-big_left (node c k v l (node c' k' v' d e)) =
      in_order-small_left (node c k v l (small_right_rotation (node c' k' v' d e)))
      ∙ ap (λ xs. in_order l ++ (k, v) ∷ xs) (in_order-small_right (node c' k' v' d e))

  pub in_order-big_right : (t : Tree T K V) → in_order (big_right_rotation t) ≡ in_order t
  unfolding big_right_rotation
  in_order-big_right leaf = refl
  in_order-big_right (node c k v leaf r) = refl
  in_order-big_right (node c k v (node c' k' v' d e) r) =
      in_order-small_right (node c k v (small_left_rotation (node c' k' v' d e)) r)
      ∙ ap (λ xs. xs ++ (k, v) ∷ in_order r) (in_order-small_left (node c' k' v' d e))

  pub in_order-double_left : (t : Tree T K V) → in_order (double_left_rotation t) ≡ in_order t
  unfolding double_left_rotation
  in_order-double_left leaf = refl
  in_order-double_left (node c k v l leaf) = refl
  in_order-double_left (node c k v l (node c' k' v' d leaf)) = refl
  in_order-double_left (node c k v l (node c' k' v' d (node cs ks vs sl sr))) =
      let t = node c k v l (node c' k' v' d (node cs ks vs sl sr)) in
      in_order-small_left (small_left_rotation t) ∙ in_order-small_left t

  pub in_order-double_right : (t : Tree T K V) → in_order (double_right_rotation t) ≡ in_order t
  unfolding double_right_rotation
  in_order-double_right leaf = refl
  in_order-double_right (node c k v leaf r) = refl
  in_order-double_right (node c k v (node c' k' v' leaf e) r) = refl
  in_order-double_right (node c k v (node c' k' v' (node cs ks vs sl sr) e) r) =
      let t = node c k v (node c' k' v' (node cs ks vs sl sr) e) r in
      in_order-small_right (small_right_rotation t) ∙ in_order-small_right t

-- A statement on every pair of a list.
abbrev pub AllPairs {ℓ κ μ} : {K : Type ℓ} {V : Type κ} → (K → Type μ) → List (K × V) → Type μ
AllPairs P [] = Unit
AllPairs P (x ∷ xs) = P x.0 × AllPairs P xs

pub AllPairs-append {ℓ κ μ} :
    {K : Type ℓ} {V : Type κ} (P : K → Type μ) (xs ys : List (K × V))
    → AllPairs P xs
    → AllPairs P ys
    → AllPairs P (xs ++ ys)
AllPairs-append P [] ys h k = k
AllPairs-append P (x ∷ xs) ys (p, h) k = (p, AllPairs-append P xs ys h k)

pub AllPairs-back {ℓ κ μ} :
    {K : Type ℓ} {V : Type κ} (P : K → Type μ) (xs ys : List (K × V))
    → AllPairs P (xs ++ ys)
    → AllPairs P ys
AllPairs-back P [] ys h = h
AllPairs-back P (x ∷ xs) ys (p, h) = AllPairs-back P xs ys h

pub AllPairs-middle {ℓ κ μ} :
    {K : Type ℓ} {V : Type κ} (P : K → Type μ) (xs : List (K × V)) (x : K × V) (ys : List (K × V))
    → AllPairs P (xs ++ x ∷ ys)
    → P x.0
AllPairs-middle P [] x ys (p, h) = p
AllPairs-middle P (y ∷ xs) x ys (p, h) = AllPairs-middle P xs x ys h

pub AllPairs-front {ℓ κ μ} :
    {K : Type ℓ} {V : Type κ} (P : K → Type μ) (xs ys : List (K × V))
    → AllPairs P (xs ++ ys)
    → AllPairs P xs
AllPairs-front P [] ys h = tt
AllPairs-front P (x ∷ xs) ys (p, h) = (p, AllPairs-front P xs ys h)

pub AllPairs-map {ℓ κ μ ν} :
    {K : Type ℓ} {V : Type κ} (P : K → Type μ) (Q : K → Type ν) (xs : List (K × V))
    → ((k : K) → P k → Q k)
    → AllPairs P xs
    → AllPairs Q xs
AllPairs-map P Q [] f h = tt
AllPairs-map P Q (x ∷ xs) f (p, h) = (f x.0 p, AllPairs-map P Q xs f h)

module _ {ℓ κ} {K : Type ℓ} {V : Type κ} ⦃o : Keys K⦄ where
  -- No key is above one behind it.
  abbrev pub Sorted : List (K × V) → Type 0
  Sorted [] = Unit
  Sorted (x ∷ xs) = AllPairs (λ k. o.less k x.0 ≡ false) xs × Sorted xs

  -- A pair comes behind those whose keys are not above its own.
  unfoldable pub put : K → V → List (K × V) → List (K × V)
  put key value [] = (key, value) ∷ []
  put key value (x ∷ xs) = elim (o.less key x.0) [
    | true ↦ (key, value) ∷ x ∷ xs
    | false ↦ x ∷ put key value xs
  ]

  pub Sorted-back : (xs ys : List (K × V)) → Sorted (xs ++ ys) → Sorted ys
  Sorted-back [] ys h = h
  Sorted-back (x ∷ xs) ys (p, h) = Sorted-back xs ys h

  put-front :
      (key : K) (value : V) (xs ys : List (K × V))
      → AllPairs (λ k. o.less key k ≡ false) xs
      → put key value (xs ++ ys) ≡ xs ++ put key value ys
  unfolding put
  put-front key value [] ys h = refl
  put-front key value (x ∷ xs) ys (p, h) = rw p (ap (λ zs. x ∷ zs) (put-front key value xs ys h))

  -- Keys that are not above a key which is not above another are not above that one.
  pub AllPairs-not_above :
      (xs ys : List (K × V)) (x : K × V) (key : K)
      → Sorted (xs ++ x ∷ ys)
      → o.less key x.0 ≡ false
      → AllPairs (λ k. o.less key k ≡ false) xs
  AllPairs-not_above [] ys x key h k = tt
  AllPairs-not_above (y ∷ xs) ys x key (p, h) k = (
    not_less_trans y.0 x.0 key (AllPairs-back (λ k. o.less k y.0 ≡ false) xs (x ∷ ys) p).0 k,
    AllPairs-not_above xs ys x key h k,
  )

  -- The keys in front of a place are not above the key, and the first one behind it is.
  pub record Fits (key : K) (xs ys : List (K × V)) : Type (ℓ ⊔ κ) where
    pub front : AllPairs (λ k. o.less key k ≡ false) xs
    pub back : (value : V) → put key value ys ≡ (key, value) ∷ ys

  pub put-Fits :
      (key : K) (value : V) (xs ys : List (K × V))
      → Fits key xs ys
      → put key value (xs ++ ys) ≡ xs ++ (key, value) ∷ ys
  put-Fits key value xs ys h =
      put-front key value xs ys h.front ∙ ap (λ zs. xs ++ zs) (h.back value)
