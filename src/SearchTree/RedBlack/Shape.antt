-- ===== src/SearchTree/RedBlack/Shape.antt =====
-- The colours of the red-black tree.
use mai_fa_sp_4_sem.Base.{
  ℕ, zero, suc, ◌≡◌, refl, subst, ◌⊎◌, Bool, true, false, if◌then◌else◌, Option, some, arith,
  Bool-cases, inl, inr,
}
use mai_fa_sp_4_sem.SearchTree.{
  Tree, leaf, node, Chain, root, left_of, right_of, plug, small_left_rotation, small_right_rotation,
  descend,
}
use mai_fa_sp_4_sem.SearchTree.Order.{Keys}
use mai_fa_sp_4_sem.SearchTree.RedBlack.{Color, red, black, is_red, paint, finish, post_insert}

module _ {ℓ κ} {K : Type ℓ} {V : Type κ} where
  -- No red node has a red child, and each way down to a leaf has `n` black nodes.
  abbrev pub HasHeight : Tree Color K V → ℕ → Type 0
  HasHeight leaf n = n ≡ 0
  HasHeight (node red k v l r) n =
      (is_red l ≡ false) × (is_red r ≡ false) × HasHeight l n × HasHeight r n
  HasHeight (node black k v l r) zero = ⊥
  HasHeight (node black k v l r) (suc n) = HasHeight l n × HasHeight r n

  -- A red-black tree: besides, its root is black.
  abbrev pub IsRedBlack : Tree Color K V → Type 0
  IsRedBlack t = (is_red t ≡ false) × ((n : ℕ) × HasHeight t n)

  abbrev pub TopBlack : Chain Color K V → Type 0
  TopBlack root = ⊥
  TopBlack (left_of red k v s p) = ⊥
  TopBlack (right_of red k v s p) = ⊥
  TopBlack (left_of black k v s p) = Unit
  TopBlack (right_of black k v s p) = Unit

  -- The rest of a red-black tree around a subtree of `n` black nodes on each way.
  abbrev pub Around : Chain Color K V → ℕ → Type 0
  Around root n = Unit
  Around (left_of black k v s p) n = HasHeight s n × Around p (suc n)
  Around (right_of black k v s p) n = HasHeight s n × Around p (suc n)
  Around (left_of red k v s p) n = HasHeight s n × (is_red s ≡ false) × TopBlack p × Around p n
  Around (right_of red k v s p) n = HasHeight s n × (is_red s ≡ false) × TopBlack p × Around p n

  plug-HasHeight :
      (t : Tree Color K V) (p : Chain Color K V) (n : ℕ)
      → HasHeight t n
      → Around p n
      → (is_red t ≡ false) ⊎ TopBlack p
      → (m : ℕ) × HasHeight (plug t p) m
  unfolding plug
  plug-HasHeight t root n h a k = (n, h)
  plug-HasHeight t (left_of black x v s p) n h (hs, a) k =
      plug-HasHeight (node black x v t s) p (suc n) (h, hs) a (inl refl)
  plug-HasHeight t (right_of black x v s p) n h (hs, a) k =
      plug-HasHeight (node black x v s t) p (suc n) (hs, h) a (inl refl)
  plug-HasHeight t (left_of red x v s p) n h (hs, bs, top, a) (inl b) =
      plug-HasHeight (node red x v t s) p n (b, bs, h, hs) a (inr top)
  plug-HasHeight t (right_of red x v s p) n h (hs, bs, top, a) (inl b) =
      plug-HasHeight (node red x v s t) p n (bs, b, hs, h) a (inr top)
  plug-HasHeight t (left_of red x v s p) n h a (inr top) = absurd top
  plug-HasHeight t (right_of red x v s p) n h a (inr top) = absurd top

  paint-IsRedBlack : (t : Tree Color K V) (n : ℕ) → HasHeight t n → IsRedBlack (paint black t)
  paint-IsRedBlack leaf n h = (refl, (n, h))
  paint-IsRedBlack (node red k v l r) n (bl, br, hl, hr) = (refl, (suc n, (hl, hr)))
  paint-IsRedBlack (node black k v l r) n h = (refl, (n, h))

  -- A red root painted black counts once more.
  paint-HasHeight :
      (t : Tree Color K V) (n : ℕ)
      → is_red t ≡ true
      → HasHeight t n
      → HasHeight (paint black t) (suc n)
  paint-HasHeight leaf n r h = absurd (ground arith)
  paint-HasHeight (node red k v a b) n r (_, _, ha, hb) = (ha, hb)
  paint-HasHeight (node black k v a b) n r h = absurd (ground arith)

  paint-black : (t : Tree Color K V) → is_red (paint black t) ≡ false
  paint-black leaf = refl
  paint-black (node c k v l r) = refl

  -- The result of a repair is a red-black tree.
  Repaired : Option (Tree Color K V) → Type (ℓ ⊔ κ)
  Repaired o = (t : Tree Color K V) × (o ≡ some t) × IsRedBlack t

  finish-Repaired :
      (t : Tree Color K V) (p : Chain Color K V) (n : ℕ)
      → HasHeight t n
      → Around p n
      → (is_red t ≡ false) ⊎ TopBlack p
      → Repaired (finish t p)
  unfolding Repaired
  finish-Repaired t p n h a k =
      let (m, h') = plug-HasHeight t p n h a k in
      (paint black (plug t p), refl, paint-IsRedBlack (plug t p) m h')

  -- One test of the uncle, with both of its outcomes.
  either :
      (b : Bool) (o o' : Option (Tree Color K V))
      → (b ≡ true → Repaired o)
      → (b ≡ false → Repaired o')
      → Repaired (if b then o else o')
  either true o o' h k = h refl
  either false o o' h k = k refl

  -- From a red node whose parent may be red, the repair never follows a null pointer and ends in a
  -- red-black tree.
  pub post_insert-Repaired :
      (k : K) (v : V) (l r : Tree Color K V) (p : Chain Color K V) (n : ℕ)
      → HasHeight (node red k v l r) n
      → Around p n
      → (t : Tree Color K V) × (post_insert (node red k v l r) p ≡ some t) × IsRedBlack t
  unfolding post_insert plug Repaired small_left_rotation small_right_rotation
  post_insert-Repaired zk zv zl zr root n h a =
      (node black zk zv zl zr, refl, paint-IsRedBlack (node red zk zv zl zr) n h)
  post_insert-Repaired zk zv zl zr (left_of black k v s p) n h a =
      finish-Repaired (node red zk zv zl zr) (left_of black k v s p) n h a (inr tt)
  post_insert-Repaired zk zv zl zr (right_of black k v s p) n h a =
      finish-Repaired (node red zk zv zl zr) (right_of black k v s p) n h a (inr tt)
  post_insert-Repaired zk zv zl zr (left_of red k v s root) n h a = absurd a.2
  post_insert-Repaired zk zv zl zr (right_of red k v s root) n h a = absurd a.2
  post_insert-Repaired zk zv zl zr (left_of red k v s (left_of red gk gv uncle p)) n h a =
      absurd a.2
  post_insert-Repaired zk zv zl zr (left_of red k v s (right_of red gk gv uncle p)) n h a =
      absurd a.2
  post_insert-Repaired zk zv zl zr (right_of red k v s (left_of red gk gv uncle p)) n h a =
      absurd a.2
  post_insert-Repaired zk zv zl zr (right_of red k v s (right_of red gk gv uncle p)) n h a =
      absurd a.2
  post_insert-Repaired zk zv zl zr (left_of red k v s (left_of black gk gv uncle p)) n h
        (hs, bs, _, (hu, a)) =
      let z = node red zk zv zl zr in
      either (is_red uncle)
        (post_insert (node red gk gv (node black k v z s) (paint black uncle)) p) _
        (λ u.
          post_insert-Repaired gk gv (node black k v z s) (paint black uncle) p (suc n)
            (refl, paint-black uncle, (h, hs), paint-HasHeight uncle n u hu) a)
        (λ u.
          finish-Repaired (node black k v z (node red gk gv s uncle)) p (suc n) (h, (bs, u, hs, hu))
            a (inl refl))
  post_insert-Repaired zk zv zl zr (right_of red k v s (right_of black gk gv uncle p)) n h
        (hs, bs, _, (hu, a)) =
      let z = node red zk zv zl zr in
      either (is_red uncle)
        (post_insert (node red gk gv (paint black uncle) (node black k v s z)) p) _
        (λ u.
          post_insert-Repaired gk gv (paint black uncle) (node black k v s z) p (suc n)
            (paint-black uncle, refl, paint-HasHeight uncle n u hu, (hs, h)) a)
        (λ u.
          finish-Repaired (node black k v (node red gk gv uncle s) z) p (suc n) ((u, bs, hu, hs), h)
            a (inl refl))
  post_insert-Repaired zk zv zl zr (right_of red k v s (left_of black gk gv uncle p)) n h
        (hs, bs, _, (hu, a)) =
      let z = node red zk zv zl zr in
      either (is_red uncle)
        (post_insert (node red gk gv (node black k v s z) (paint black uncle)) p) _
        (λ u.
          post_insert-Repaired gk gv (node black k v s z) (paint black uncle) p (suc n)
            (refl, paint-black uncle, (hs, h), paint-HasHeight uncle n u hu) a)
        (λ u.
          finish-Repaired (node black zk zv (node red k v s zl) (node red gk gv zr uncle)) p (suc n)
            ((bs, h.0, hs, h.2), (h.1, u, h.3, hu)) a (inl refl))
  post_insert-Repaired zk zv zl zr (left_of red k v s (right_of black gk gv uncle p)) n h
        (hs, bs, _, (hu, a)) =
      let z = node red zk zv zl zr in
      either (is_red uncle)
        (post_insert (node red gk gv (paint black uncle) (node black k v z s)) p) _
        (λ u.
          post_insert-Repaired gk gv (paint black uncle) (node black k v z s) p (suc n)
            (paint-black uncle, refl, paint-HasHeight uncle n u hu, (h, hs)) a)
        (λ u.
          finish-Repaired (node black zk zv (node red gk gv uncle zl) (node red k v zr s)) p (suc n)
            ((u, h.0, hu, h.2), (h.1, bs, h.3, hs)) a (inl refl))

module _ {ℓ κ} {K : Type ℓ} {V : Type κ} ⦃o : Keys K⦄ where
  pub descend-Around :
      (key : K) (t : Tree Color K V) (p : Chain Color K V) (n : ℕ)
      → HasHeight t n
      → Around p n
      → (is_red t ≡ false) ⊎ TopBlack p
      → Around (descend key t p) 0
  unfolding descend
  descend-Around key leaf p n h a k = subst (Around p) h a
  descend-Around key (node red x v l r) p n (bl, br, hl, hr) a (inl k) = absurd (ground arith)
  descend-Around key (node red x v l r) p n (bl, br, hl, hr) a (inr top) =
      elim (Bool-cases (o.less key x)) [
        | inl e ↦
            rw (e, descend)
              (descend-Around key l (left_of red x v r p) n hl (hr, br, top, a) (inl bl))
        | inr e ↦
            rw (e, descend)
              (descend-Around key r (right_of red x v l p) n hr (hl, bl, top, a) (inl br))
      ]
  descend-Around key (node black x v l r) p zero h a k = absurd h
  descend-Around key (node black x v l r) p (suc n) (hl, hr) a k =
      elim (Bool-cases (o.less key x)) [
        | inl e ↦
            rw (e, descend) (descend-Around key l (left_of black x v r p) n hl (hr, a) (inr tt))
        | inr e ↦
            rw (e, descend) (descend-Around key r (right_of black x v l p) n hr (hl, a) (inr tt))
      ]
