-- ===== src/SearchTree/RedBlack/Assign.antt =====
-- A write through a node of the red-black tree keeps its colours.
use mai_fa_sp_4_sem.Base.{ℕ, zero, suc, ◌≡◌, refl, ◌∙◌, Bool-cases, inl, inr}
use mai_fa_sp_4_sem.SearchTree.{Tree, leaf, node, assign}
use mai_fa_sp_4_sem.SearchTree.Order.{Keys}
use mai_fa_sp_4_sem.SearchTree.RedBlack.{Color, red, black, is_red}
use mai_fa_sp_4_sem.SearchTree.RedBlack.Shape.{HasHeight, IsRedBlack}

module _ {ℓ κ} {K : Type ℓ} {V : Type κ} where
  color_alone :
      (c : Color) (k : K) (v w : V) (l l' r r' : Tree Color K V)
      → is_red (node c k w l' r') ≡ is_red (node c k v l r)
  color_alone red k v w l l' r r' = refl
  color_alone black k v w l l' r r' = refl

module _ {ℓ κ} {K : Type ℓ} {V : Type κ} ⦃o : Keys K⦄ where
  assign-is_red :
      (key : K) (value : V) (t : Tree Color K V) → is_red (assign key value t) ≡ is_red t
  unfolding assign
  assign-is_red key value leaf = refl
  assign-is_red key value (node c k v l r) = elim (Bool-cases (o.same key k)) [
    | inl e ↦ rw (e, assign) (color_alone c k v value l l r r)
    | inr e ↦ elim (Bool-cases (o.less key k)) [
      | inl b ↦ rw (e, b, assign) (color_alone c k v v l (assign key value l) r r)
      | inr b ↦ rw (e, b, assign) (color_alone c k v v l l r (assign key value r))
    ]
  ]

  assign-HasHeight :
      (key : K) (value : V) (t : Tree Color K V) (n : ℕ)
      → HasHeight t n
      → HasHeight (assign key value t) n
  unfolding assign
  assign-HasHeight key value leaf n h = h
  assign-HasHeight key value (node red k v l r) n (bl, br, hl, hr) =
      elim (Bool-cases (o.same key k)) [
        | inl e ↦ rw (e, assign) (bl, br, hl, hr)
        | inr e ↦ elim (Bool-cases (o.less key k)) [
          | inl b ↦
              rw (e, b, assign)
                (assign-is_red key value l ∙ bl, br, assign-HasHeight key value l n hl, hr)
          | inr b ↦
              rw (e, b, assign)
                (bl, assign-is_red key value r ∙ br, hl, assign-HasHeight key value r n hr)
        ]
      ]
  assign-HasHeight key value (node black k v l r) zero h = absurd h
  assign-HasHeight key value (node black k v l r) (suc n) (hl, hr) =
      elim (Bool-cases (o.same key k)) [
        | inl e ↦ rw (e, assign) (hl, hr)
        | inr e ↦ elim (Bool-cases (o.less key k)) [
          | inl b ↦ rw (e, b, assign) (assign-HasHeight key value l n hl, hr)
          | inr b ↦ rw (e, b, assign) (hl, assign-HasHeight key value r n hr)
        ]
      ]

  pub assign-IsRedBlack :
      (t : Tree Color K V) (key : K) (value : V) → IsRedBlack t → IsRedBlack (assign key value t)
  assign-IsRedBlack t key value (b, (n, h)) =
      (assign-is_red key value t ∙ b, (n, assign-HasHeight key value t n h))
