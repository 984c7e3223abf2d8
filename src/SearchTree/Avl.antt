-- ===== src/SearchTree/Avl.antt =====
-- associative_container/search_tree/binary_search_tree/AVL_tree/include/AVL_tree.h.
pub mod Heights
pub mod Shape
pub mod Assign
pub mod Order
pub mod Insert
use mai_fa_sp_4_sem.Base.{ℕ, suc, ◌+◌, Bool, true, false, if◌then◌else◌, Option, some, ◌==◌, leb}
use mai_fa_sp_4_sem.SearchTree.{
  Tree, leaf, node, Chain, root, left_of, right_of, small_left_rotation, small_right_rotation,
  big_left_rotation, big_right_rotation,
}

abbrev pub max : ℕ → ℕ → ℕ
max a b = if leb a b then b else a

module _ {ℓ κ} {K : Type ℓ} {V : Type κ} where
  -- The stored height, 0 for a null pointer.
  abbrev pub height : Tree ℕ K V → ℕ
  height leaf = 0
  height (node h k v l r) = h

  unfoldable pub recalculate_height : Tree ℕ K V → Tree ℕ K V
  recalculate_height leaf = leaf
  recalculate_height (node h k v l r) = node (suc (max (height l) (height r))) k v l r

  -- The two children of a node that a rotation moved up.
  abbrev pub recalculate_children : Tree ℕ K V → Tree ℕ K V
  recalculate_children leaf = leaf
  recalculate_children (node h k v l r) = node h k v (recalculate_height l) (recalculate_height r)

  -- The rotations for a right and for a left subtree that is higher by 2.
  abbrev pub rotate_left : Tree ℕ K V → Tree ℕ K V
  rotate_left leaf = leaf
  rotate_left (node h k v l leaf) = node h k v l leaf
  rotate_left (node h k v l (node hr kr vr rl rr)) =
      let t = node h k v l (node hr kr vr rl rr) in
      if leb (height rl) (height rr) then small_left_rotation t else big_left_rotation t

  abbrev pub rotate_right : Tree ℕ K V → Tree ℕ K V
  rotate_right leaf = leaf
  rotate_right (node h k v leaf r) = node h k v leaf r
  rotate_right (node h k v (node hl kl vl ll lr) r) =
      let t = node h k v (node hl kl vl ll lr) r in
      if leb (height lr) (height ll) then small_right_rotation t else big_right_rotation t

  -- `rebalance` of a node and of its sibling, a leaf if there is none.
  unfoldable pub rebalance : Tree ℕ K V → Tree ℕ K V → Tree ℕ K V × Tree ℕ K V
  rebalance leaf s = (leaf, s)
  rebalance (node h k v l r) s =
      let t = node h k v l r in
      if height r == height l + 2
      then (recalculate_children (rotate_left t), s)
      else if height l == height r + 2
      then (recalculate_children (rotate_right t), s)
      else (recalculate_height t, recalculate_height s)

  -- One turn of the loop of `post_insert`.
  abbrev pub turn : Tree ℕ K V → Tree ℕ K V → Tree ℕ K V × Tree ℕ K V
  turn t s = let (t', s') = rebalance (recalculate_height t) s in (recalculate_height t', s')

  unfoldable pub post_insert : Tree ℕ K V → Chain ℕ K V → Option (Tree ℕ K V)
  post_insert t root = some (turn t leaf).0
  post_insert t (left_of h k v s p) = post_insert (node h k v (turn t s).0 (turn t s).1) p
  post_insert t (right_of h k v s p) = post_insert (node h k v (turn t s).1 (turn t s).0) p
