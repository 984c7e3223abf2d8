-- ===== src/SearchTree/RedBlack.antt =====
-- associative_container/search_tree/binary_search_tree/red_black_tree/include/red_black_tree.h.
pub mod Order
pub mod Shape
pub mod Assign
pub mod Insert
pub mod Bounds
use mai_fa_sp_4_sem.Base.{Bool, true, false, if◌then◌else◌, Option, none, some}
use mai_fa_sp_4_sem.SearchTree.{
  Tree, leaf, node, Chain, root, left_of, right_of, plug, small_left_rotation, small_right_rotation,
}

pub data Color : Type 0 where
  red black : Color

module _ {ℓ κ} {K : Type ℓ} {V : Type κ} where
  abbrev pub is_red : Tree Color K V → Bool
  is_red leaf = false
  is_red (node red k v l r) = true
  is_red (node black k v l r) = false

  abbrev pub paint : Color → Tree Color K V → Tree Color K V
  paint color leaf = leaf
  paint color (node c k v l r) = node color k v l r

  -- The last line of `post_insert`, on the whole tree.
  abbrev pub finish : Tree Color K V → Chain Color K V → Option (Tree Color K V)
  finish t p = some (paint black (plug t p))

  -- `post_insert` from the node `z` up. A red parent without a parent is the null `grand`, which the
  -- source follows. After a rotation the parent of `z` is black, which ends the loop.
  unfoldable pub post_insert : Tree Color K V → Chain Color K V → Option (Tree Color K V)
  post_insert z root = finish z root
  post_insert z (left_of black k v s p) = finish z (left_of black k v s p)
  post_insert z (right_of black k v s p) = finish z (right_of black k v s p)
  post_insert z (left_of red k v s root) = none
  post_insert z (right_of red k v s root) = none
  post_insert z (left_of red k v s (left_of gc gk gv uncle p)) =
      let parent = node black k v z s in
      let higher = post_insert (node red gk gv parent (paint black uncle)) p in
      if is_red uncle then higher else finish (small_right_rotation (node red gk gv parent uncle)) p
  post_insert z (right_of red k v s (left_of gc gk gv uncle p)) =
      let higher = post_insert (node red gk gv (node black k v s z) (paint black uncle)) p in
      let parent = paint black (small_left_rotation (node red k v s z)) in
      if is_red uncle then higher else finish (small_right_rotation (node red gk gv parent uncle)) p
  post_insert z (right_of red k v s (right_of gc gk gv uncle p)) =
      let parent = node black k v s z in
      let higher = post_insert (node red gk gv (paint black uncle) parent) p in
      if is_red uncle then higher else finish (small_left_rotation (node red gk gv uncle parent)) p
  post_insert z (left_of red k v s (right_of gc gk gv uncle p)) =
      let higher = post_insert (node red gk gv (paint black uncle) (node black k v z s)) p in
      let parent = paint black (small_right_rotation (node red k v z s)) in
      if is_red uncle then higher else finish (small_left_rotation (node red gk gv uncle parent)) p
