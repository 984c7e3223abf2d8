-- ===== src/SearchTree/Avl/Order.antt =====
-- The AVL tree keeps its pairs in their order.
use mai_fa_sp_4_sem.Base.{
  ℕ, ◌+◌, ◌≡◌, refl, ◌∙◌, Bool, true, false, if◌then◌else◌, some, ◌==◌, leb, Bool-cases, inl, inr,
}
use mai_fa_sp_4_sem.SearchTree.{
  Tree, leaf, node, Chain, root, left_of, right_of, plug, in_order, small_left_rotation,
  small_right_rotation, big_left_rotation, big_right_rotation,
}
use mai_fa_sp_4_sem.SearchTree.Contents.{
  in_order-small_left, in_order-small_right, in_order-big_left, in_order-big_right, plug_same,
}
use mai_fa_sp_4_sem.SearchTree.Avl.{
  height, recalculate_height, recalculate_children, rotate_left, rotate_right, rebalance, turn,
  post_insert,
}

module _ {ℓ κ} {K : Type ℓ} {V : Type κ} where
  in_order-recalculate : (t : Tree ℕ K V) → in_order (recalculate_height t) ≡ in_order t
  unfolding recalculate_height
  in_order-recalculate leaf = refl
  in_order-recalculate (node h k v l r) = refl

  in_order-children : (t : Tree ℕ K V) → in_order (recalculate_children t) ≡ in_order t
  in_order-children leaf = refl
  in_order-children (node h k v l r) = rw (in_order-recalculate l, in_order-recalculate r) refl

  one_of :
      (b : Bool) (t u w : Tree ℕ K V)
      → in_order t ≡ in_order w
      → in_order u ≡ in_order w
      → in_order (if b then t else u) ≡ in_order w
  one_of true t u w d e = d
  one_of false t u w d e = e

  in_order-rotate_left : (t : Tree ℕ K V) → in_order (rotate_left t) ≡ in_order t
  in_order-rotate_left leaf = refl
  in_order-rotate_left (node h k v l leaf) = refl
  in_order-rotate_left (node h k v l (node hr kr vr rl rr)) =
      let t = node h k v l (node hr kr vr rl rr) in
      one_of (leb (height rl) (height rr)) (small_left_rotation t) (big_left_rotation t) t
        (in_order-small_left t) (in_order-big_left t)

  in_order-rotate_right : (t : Tree ℕ K V) → in_order (rotate_right t) ≡ in_order t
  in_order-rotate_right leaf = refl
  in_order-rotate_right (node h k v leaf r) = refl
  in_order-rotate_right (node h k v (node hl kl vl ll lr) r) =
      let t = node h k v (node hl kl vl ll lr) r in
      one_of (leb (height lr) (height ll)) (small_right_rotation t) (big_right_rotation t) t
        (in_order-small_right t) (in_order-big_right t)

  -- A turn keeps the pairs of the node and those of its sibling.
  Same : Tree ℕ K V → Tree ℕ K V → Tree ℕ K V × Tree ℕ K V → Type (ℓ ⊔ κ)
  Same t s result = (in_order result.0 ≡ in_order t) × (in_order result.1 ≡ in_order s)

  rebalance-Same : (t s : Tree ℕ K V) → Same t s (rebalance t s)
  unfolding rebalance Same
  rebalance-Same leaf s = (refl, refl)
  rebalance-Same (node h k v l r) s = elim (Bool-cases (height r == height l + 2)) [
    | inl b ↦
        let t = node h k v l r in
        rw (b, rebalance) (in_order-children (rotate_left t) ∙ in_order-rotate_left t, refl)
    | inr b ↦ elim (Bool-cases (height l == height r + 2)) [
      | inl c ↦
          let t = node h k v l r in
          rw (b, c, rebalance) (in_order-children (rotate_right t) ∙ in_order-rotate_right t, refl)
      | inr c ↦ rw (b, c, rebalance) (in_order-recalculate (node h k v l r), in_order-recalculate s)
    ]
  ]

  turn-Same : (t s : Tree ℕ K V) → Same t s (turn t s)
  unfolding Same
  turn-Same t s =
      let inner = rebalance-Same (recalculate_height t) s in
      (
        in_order-recalculate (rebalance (recalculate_height t) s).0
            ∙ inner.0
            ∙ in_order-recalculate t,
        inner.1,
      )

  -- The loop of `post_insert` ends with the pairs in their order.
  pub post_insert-keeps :
      (t : Tree ℕ K V) (p : Chain ℕ K V)
      → (u : Tree ℕ K V) × (post_insert t p ≡ some u) × (in_order u ≡ in_order (plug t p))
  unfolding post_insert plug Same
  post_insert-keeps t root = ((turn t leaf).0, refl, (turn-Same t leaf).0)
  post_insert-keeps t (left_of h k v s p) =
      let (left, right) = turn-Same t s in
      let (u, e, kept) = post_insert-keeps (node h k v (turn t s).0 (turn t s).1) p in
      (
        u,
        e,
        kept
            ∙ plug_same (node h k v (turn t s).0 (turn t s).1) (node h k v t s) p
                (rw (left, right) refl),
      )
  post_insert-keeps t (right_of h k v s p) =
      let (right, left) = turn-Same t s in
      let (u, e, kept) = post_insert-keeps (node h k v (turn t s).1 (turn t s).0) p in
      (
        u,
        e,
        kept
            ∙ plug_same (node h k v (turn t s).1 (turn t s).0) (node h k v s t) p
                (rw (left, right) refl),
      )
