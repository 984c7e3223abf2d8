-- ===== src/SearchTree.antt =====
-- associative_container/search_tree/binary_search_tree: search trees, by include/binary_search_tree.h.
mod Tests
pub mod Order
pub mod Contents
pub mod Insert
pub mod Derived
pub mod Lookup
pub mod Assign
pub mod Infix
pub mod Prefix
pub mod RedBlack
pub mod Avl
pub mod Splay
use mai_fa_sp_4_sem.Base.{ℕ, suc, ◌+◌, Bool, true, false, Option, none, some, List, [], ◌∷◌, ◌++◌}
use mai_fa_sp_4_sem.SearchTree.Order.{Keys}

-- `tag` is what the derived trees add to a node: a colour or a height.
pub data Tree {τ ℓ κ} (T : Type τ) (K : Type ℓ) (V : Type κ) : Type (τ ⊔ ℓ ⊔ κ) where
  leaf : Tree T K V
  node : T → K → V → Tree T K V → Tree T K V → Tree T K V

-- The chain of `parent` pointers of a node: the node is the left or the right child of a parent with
-- its tag, key, value and other child, which has a chain of its own.
pub data Chain {τ ℓ κ} (T : Type τ) (K : Type ℓ) (V : Type κ) : Type (τ ⊔ ℓ ⊔ κ) where
  root : Chain T K V
  left_of : T → K → V → Tree T K V → Chain T K V → Chain T K V
  right_of : T → K → V → Tree T K V → Chain T K V → Chain T K V

module _ {τ ℓ κ} {T : Type τ} {K : Type ℓ} {V : Type κ} where
  -- The whole tree around a subtree.
  unfoldable pub plug : Tree T K V → Chain T K V → Tree T K V
  plug t root = t
  plug t (left_of c k v r p) = plug (node c k v t r) p
  plug t (right_of c k v l p) = plug (node c k v l t) p

  -- The pairs in the order of the infix iterator.
  abbrev pub in_order : Tree T K V → List (K × V)
  in_order leaf = []
  in_order (node c k v l r) = in_order l ++ (k, v) ∷ in_order r

  unfoldable pub small_left_rotation : Tree T K V → Tree T K V
  small_left_rotation (node ca ka va b (node cc kc vc d e)) = node cc kc vc (node ca ka va b d) e
  small_left_rotation t = t

  unfoldable pub small_right_rotation : Tree T K V → Tree T K V
  small_right_rotation (node ca ka va (node cb kb vb d e) c) = node cb kb vb d (node ca ka va e c)
  small_right_rotation t = t

  unfoldable pub big_left_rotation : Tree T K V → Tree T K V
  big_left_rotation (node c k v l (node cr kr vr rl rr)) =
      small_left_rotation (node c k v l (small_right_rotation (node cr kr vr rl rr)))
  big_left_rotation t = t

  unfoldable pub big_right_rotation : Tree T K V → Tree T K V
  big_right_rotation (node c k v (node cl kl vl ll lr) r) =
      small_right_rotation (node c k v (small_left_rotation (node cl kl vl ll lr)) r)
  big_right_rotation t = t

  unfoldable pub double_left_rotation : Tree T K V → Tree T K V
  double_left_rotation (node c k v l (node cr kr vr rl (node cs ks vs sl sr))) =
      small_left_rotation
        (small_left_rotation (node c k v l (node cr kr vr rl (node cs ks vs sl sr))))
  double_left_rotation t = t

  unfoldable pub double_right_rotation : Tree T K V → Tree T K V
  double_right_rotation (node c k v (node cl kl vl (node cs ks vs sl sr) lr) r) =
      small_right_rotation
        (small_right_rotation (node c k v (node cl kl vl (node cs ks vs sl sr) lr) r))
  double_right_rotation t = t

-- A container: `_root`, here `top`, and `_size`.
pub record Container {τ ℓ κ} (T : Type τ) (K : Type ℓ) (V : Type κ) : Type (τ ⊔ ℓ ⊔ κ) where
  pub top : Tree T K V
  pub size : ℕ

module _ {τ ℓ κ} {T : Type τ} {K : Type ℓ} {V : Type κ} ⦃o : Keys K⦄ where
  -- The loop of `insert`: the chain of the new node. The last comparison is repeated in the source
  -- to hang the node on its side.
  unfoldable pub descend : K → Tree T K V → Chain T K V → Chain T K V
  descend key leaf p = p
  descend key (node c k v l r) p = elim (o.less key k) [
    | true ↦ descend key l (left_of c k v r p)
    | false ↦ descend key r (right_of c k v l p)
  ]

  -- `_size` after `insert`, which does not count the first node.
  abbrev pub counted : Container T K V → ℕ
  counted t = elim t.top [ leaf ↦ t.size | node c k v l r ↦ t.size + 1 ]

  -- `insert`, with the tag of a new node and the `post_insert` of the derived tree, which is `none`
  -- if it follows a null pointer.
  unfoldable pub insert :
      (Tree T K V → Chain T K V → Option (Tree T K V))
      → T
      → Container T K V
      → K
      → V
      → Option (Container T K V)
  insert post_insert c t key value =
      elim (post_insert (node c key value leaf leaf) (descend key t.top root)) [
        | none ↦ none
        | some top ↦ some (record { top = top; size = counted t })
      ]

  -- `insert_range`
  unfoldable pub insert_range :
      (Tree T K V → Chain T K V → Option (Tree T K V))
      → T
      → List (K × V)
      → Container T K V
      → Option (Container T K V)
  insert_range post_insert c [] t = some t
  insert_range post_insert c ((key, value) ∷ rest) t = elim (insert post_insert c t key value) [
    | none ↦ none
    | some t' ↦ insert_range post_insert c rest t'
  ]

  -- `go_to_node_with_key`: the value at the node.
  unfoldable pub go_to_node_with_key : K → Tree T K V → Option V
  go_to_node_with_key key leaf = none
  go_to_node_with_key key (node c k v l r) = elim (o.same key k) [
    | true ↦ some v
    | false ↦ elim (o.less key k) [
      | true ↦ go_to_node_with_key key l
      | false ↦ go_to_node_with_key key r
    ]
  ]

  -- A write through the node that `go_to_node_with_key` finds.
  unfoldable pub assign : K → V → Tree T K V → Tree T K V
  assign key value leaf = leaf
  assign key value (node c k v l r) = elim (o.same key k) [
    | true ↦ node c k value l r
    | false ↦ elim (o.less key k) [
      | true ↦ node c k v (assign key value l) r
      | false ↦ node c k v l (assign key value r)
    ]
  ]

  unfoldable pub insert_or_assign :
      (Tree T K V → Chain T K V → Option (Tree T K V))
      → T
      → Container T K V
      → K
      → V
      → Option (Container T K V)
  insert_or_assign post_insert c t key value = elim (go_to_node_with_key key t.top) [
    | none ↦ insert post_insert c t key value
    | some old ↦ some (record t { top = assign key value t.top })
  ]
