-- ===== src/SearchTree/Avl/Assign.antt =====
-- A write through a node of the AVL tree keeps its heights.
use mai_fa_sp_4_sem.Base.{ℕ, ◌≡◌, refl, Bool-cases, inl, inr}
use mai_fa_sp_4_sem.SearchTree.{Tree, leaf, node, assign}
use mai_fa_sp_4_sem.SearchTree.Order.{Keys}
use mai_fa_sp_4_sem.SearchTree.Avl.{height}
use mai_fa_sp_4_sem.SearchTree.Avl.Shape.{IsAvl}

module _ {ℓ κ} {K : Type ℓ} {V : Type κ} ⦃o : Keys K⦄ where
  height-assign : (t : Tree ℕ K V) (key : K) (value : V) → height (assign key value t) ≡ height t
  unfolding assign
  height-assign leaf key value = refl
  height-assign (node h k v l r) key value = elim (Bool-cases (o.same key k)) [
    | inl e ↦ rw (e, assign) refl
    | inr e ↦ elim (Bool-cases (o.less key k)) [
      | inl b ↦ rw (e, b, assign) refl
      | inr b ↦ rw (e, b, assign) refl
    ]
  ]

  pub assign-IsAvl : (t : Tree ℕ K V) (key : K) (value : V) → IsAvl t → IsAvl (assign key value t)
  unfolding assign
  assign-IsAvl leaf key value h = h
  assign-IsAvl (node h k v l r) key value (above, near, gl, gr) = elim (Bool-cases (o.same key k)) [
    | inl e ↦ rw (e, assign) (above, near, gl, gr)
    | inr e ↦ elim (Bool-cases (o.less key k)) [
      | inl b ↦
          rw (e, b, assign, height-assign l key value)
            (above, near, assign-IsAvl l key value gl, gr)
      | inr b ↦
          rw (e, b, assign, height-assign r key value)
            (above, near, gl, assign-IsAvl r key value gr)
    ]
  ]
