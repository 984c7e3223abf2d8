-- ===== src/SearchTree/Avl/Insert.antt =====
-- `post_insert`, `insert` and `insert_range` of the AVL tree.
use mathlib.Core.Option.{some-injective}
use mai_fa_sp_4_sem.Base.{
  ℕ, suc, ◌+◌, ◌≤◌, ◌≡◌, refl, ap, sym, ◌∙◌, ◌⊎◌, false, some, List, ◌==◌, arith, Bool-cases, inl,
  inr, ==_iff,
}
use mai_fa_sp_4_sem.SearchTree.{
  Tree, leaf, node, Chain, root, left_of, right_of, in_order, descend, Container,
}
use mai_fa_sp_4_sem.SearchTree.Order.{Keys}
use mai_fa_sp_4_sem.SearchTree.Derived.{
  Derived, IsValid, Inserts, insert-Inserts, Loads, insert_range-Loads,
}
use mai_fa_sp_4_sem.SearchTree.Assign.{IsMap, Assigns, insert_or_assign-Assigns}
use mai_fa_sp_4_sem.SearchTree.Avl.{max, height, recalculate_height, rebalance, turn, post_insert}
use mai_fa_sp_4_sem.SearchTree.Avl.Heights.{Near, Turned, climbs, Above-swap, swap}
use mai_fa_sp_4_sem.SearchTree.Avl.Assign.{assign-IsAvl}
use mai_fa_sp_4_sem.SearchTree.Avl.Order.{post_insert-keeps}
use mai_fa_sp_4_sem.SearchTree.Avl.Shape.{
  IsAvl, Around, recalculate_same, recalculate-Built, rotate_left-Repaired, rotate_right-Repaired,
}

near_one : (a b : ℕ) → Near 2 a b → (b == a + 2) ≡ false → (a == b + 2) ≡ false → Near 1 a b
near_one a b near p q = ground arith

module _ {ℓ κ} {K : Type ℓ} {V : Type κ} where
  -- What a turn leaves of a node and of its sibling.
  record Turns (a b : ℕ) (s : Tree ℕ K V) (result : Tree ℕ K V × Tree ℕ K V) : Type (ℓ ⊔ κ) where
    form : IsAvl result.0
    grown : Turned a b (height result.0)
    sibling : result.1 ≡ s

  turn-Turns :
      (h : ℕ) (k : K) (v : V) (l r s : Tree ℕ K V)
      → IsAvl l
      → IsAvl r
      → IsAvl s
      → Near 2 (height l) (height r)
      → Turns (height l) (height r) s (turn (node h k v l r) s)
  unfolding rebalance recalculate_height
  turn-Turns h k v l r s gl gr gs near =
      let m = suc (max (height l) (height r)) in
      elim (Bool-cases (height r == height l + 2)) [
        | inl b ↦
            let e : height r ≡ height l + 2 = (==_iff (height r) (height l + 2)).0 b in
            let (form, grown) = rotate_left-Repaired m k v l r gl gr e in
            rw (b, rebalance) (record { form = form; grown = inr (inr (e, grown)); sibling = refl })
        | inr b ↦ elim (Bool-cases (height l == height r + 2)) [
          | inl c ↦
              let e : height l ≡ height r + 2 = (==_iff (height l) (height r + 2)).0 c in
              let (form, grown) = rotate_right-Repaired m k v l r gl gr e in
              rw (b, c, rebalance)
                (record { form = form; grown = inr (inl (e, grown)); sibling = refl })
          | inr c ↦
              let one = near_one (height l) (height r) near b c in
              let (form, above) = recalculate-Built m k v l r gl gr one in
              rw (b, c, rebalance)
                (record { form = form; grown = inl (one, above); sibling = recalculate_same s gs })
        ]
      ]

  -- From a node above AVL trees whose heights differ by 2 at most, and which is to have the height `n`
  -- or one more, the loop ends in an AVL tree.
  pub post_insert-IsAvl :
      (h : ℕ) (k : K) (v : V) (l r : Tree ℕ K V) (p : Chain ℕ K V) (n : ℕ)
      → IsAvl l
      → IsAvl r
      → Near 2 (height l) (height r)
      → ((g : ℕ) → Turned (height l) (height r) g → (g ≡ n) ⊎ (g ≡ suc n))
      → Around p n
      → (t : Tree ℕ K V) × (post_insert (node h k v l r) p ≡ some t) × IsAvl t
  unfolding post_insert
  post_insert-IsAvl h k v l r root n gl gr near next a =
      let one = turn-Turns h k v l r leaf gl gr tt near in
      ((turn (node h k v l r) leaf).0, refl, one.form)
  post_insert-IsAvl h k v l r (left_of h' k' v' s p) n gl gr near next (above, close, gs, a) =
      let one = turn-Turns h k v l r s gl gr gs near in
      let t = (turn (node h k v l r) s).0 in
      let up = climbs h' n (height t) (height s) above close (next (height t) one.grown) in
      let result = post_insert-IsAvl h' k' v' t s p h' one.form gs up.near up.next a in
      rw one.sibling result
  post_insert-IsAvl h k v l r (right_of h' k' v' s p) n gl gr near next (above, close, gs, a) =
      let one = turn-Turns h k v l r s gl gr gs near in
      let t = (turn (node h k v l r) s).0 in
      let up =
        climbs h' n (height t) (height s) (Above-swap h' (height s) n above) (swap close)
          (next (height t) one.grown) in
      let result = post_insert-IsAvl h' k' v' s t p h' gs one.form (swap up.near) up.next_right a in
      rw one.sibling result

-- The heights around the place of a new node.
pub zero_near : 0 ≤ 0 + 2
zero_near = ground arith

pub first_turn : (g : ℕ) → Turned 0 0 g → (g ≡ 0) ⊎ (g ≡ 1)
first_turn g t = ground arith

module _ {ℓ κ} {K : Type ℓ} {V : Type κ} ⦃o : Keys K⦄ where
  pub descend-Around :
      (key : K) (t : Tree ℕ K V) (p : Chain ℕ K V)
      → IsAvl t
      → Around p (height t)
      → Around (descend key t p) 0
  unfolding descend
  descend-Around key leaf p h a = a
  descend-Around key (node n x v l r) p (above, near, gl, gr) a = elim (Bool-cases (o.less key x)) [
    | inl e ↦ rw (e, descend) (descend-Around key l (left_of n x v r p) gl (above, near, gr, a))
    | inr e ↦ rw (e, descend) (descend-Around key r (right_of n x v l p) gr (above, near, gl, a))
  ]

module _ {ℓ κ} (K : Type ℓ) (V : Type κ) ⦃o : Keys K⦄ where
  -- The AVL tree as a derived tree. A new node has the height 0 until the first turn.
  abbrev pub avl : Derived {0, ℓ, κ} ℕ K V
  avl = record {
    tag = 0;
    post_insert = post_insert;
    HasForm = IsAvl;
    repairs = λ t key value h.
        let z = node 0 key value leaf leaf in
        let chain = descend key t root in
        let (top, e, form) =
          post_insert-IsAvl 0 key value leaf leaf chain 0 tt tt (zero_near, zero_near) first_turn
            (descend-Around key t root h tt) in
        let (u, e', kept) = post_insert-keeps z chain in
        (top, e, form, ap in_order (some-injective top u (sym e ∙ e')) ∙ kept);
    assigns = assign-IsAvl;
  }

module _ {ℓ κ} {K : Type ℓ} {V : Type κ} ⦃o : Keys K⦄ where
  -- `insert` into an AVL tree in its order never follows a null pointer. It leaves an AVL tree in its
  -- order with its heights stored, in which the new pair stands behind all pairs whose keys are not
  -- above its own and in front of the others; `_size` counts it, unless the tree was empty.
  pub insert_avl :
      (t : Container ℕ K V) (key : K) (value : V)
      → IsValid (avl K V) t.top
      → Inserts (avl K V) t key value
  insert_avl = insert-Inserts (avl K V)

  -- `insert_range` into an AVL tree in its order never follows a null pointer. It leaves an AVL tree in
  -- its order, with the pairs put in one after the other.
  pub insert_range_avl :
      (list : List (K × V)) (t : Container ℕ K V) → IsValid (avl K V) t.top → Loads (avl K V) t list
  insert_range_avl = insert_range-Loads (avl K V)

  -- `insert_or_assign` into an AVL tree whose keys rise never follows a null pointer. It leaves an AVL
  -- tree whose keys rise, in which `go_to_node_with_key` finds the value at the key, and at each other
  -- key what it found before.
  pub insert_or_assign_avl :
      (t : Container ℕ K V) (key : K) (value : V)
      → IsMap (avl K V) t.top
      → Assigns (avl K V) t key value
  insert_or_assign_avl = insert_or_assign-Assigns (avl K V)
