-- ===== src/SearchTree/Infix.antt =====
-- The infix iterator of binary_search_tree.h.
pub mod Walk
use mai_fa_sp_4_sem.Base.{
  ℕ, zero, suc, ◌+◌, ◌≡◌, refl, ap, sym, subst, ◌∙◌, Option, none, some, List, [], ◌∷◌, ◌++◌,
  append_assoc, append-nil, length, arith, inl, inr,
}
use mai_fa_sp_4_sem.SearchTree.{Tree, leaf, node, Chain, root, left_of, right_of, plug, in_order}
use mai_fa_sp_4_sem.SearchTree.Contents.{before, after, in_order-plug}

-- A node of a tree: what is below it and its chain of parents.
pub record Place {τ ℓ κ} (T : Type τ) (K : Type ℓ) (V : Type κ) : Type (τ ⊔ ℓ ⊔ κ) where
  pub tag : T
  pub key : K
  pub value : V
  pub left : Tree T K V
  pub right : Tree T K V
  pub above : Chain T K V

module _ {τ ℓ κ} {T : Type τ} {K : Type ℓ} {V : Type κ} where
  abbrev pub at : T → K → V → Tree T K V → Tree T K V → Chain T K V → Place T K V
  at c k v l r p = record { tag = c; key = k; value = v; left = l; right = r; above = p }

  -- The loops `while (tmp->left_subtree)` and `while (tmp->right_subtree)`.
  unfoldable pub leftmost : T → K → V → Tree T K V → Tree T K V → Chain T K V → Place T K V
  leftmost c k v leaf r p = at c k v leaf r p
  leftmost c k v (node cl kl vl ll lr) r p = leftmost cl kl vl ll lr (left_of c k v r p)

  unfoldable pub rightmost : T → K → V → Tree T K V → Tree T K V → Chain T K V → Place T K V
  rightmost c k v l leaf p = at c k v l leaf p
  rightmost c k v l (node cr kr vr rl rr) p = rightmost cr kr vr rl rr (right_of c k v l p)

  -- The loops `while (tmp->parent)`, from a subtree to the first parent that it is on the left or on
  -- the right of.
  unfoldable pub up_left : Tree T K V → Chain T K V → Option (Place T K V)
  up_left t root = none
  up_left t (left_of c k v r p) = some (at c k v t r p)
  up_left t (right_of c k v l p) = up_left (node c k v l t) p

  unfoldable pub up_right : Tree T K V → Chain T K V → Option (Place T K V)
  up_right t root = none
  up_right t (right_of c k v l p) = some (at c k v l t p)
  up_right t (left_of c k v r p) = up_right (node c k v t r) p

  abbrev pub next_of : T → K → V → Tree T K V → Tree T K V → Chain T K V → Option (Place T K V)
  next_of c k v l (node cr kr vr rl rr) p = some (leftmost cr kr vr rl rr (right_of c k v l p))
  next_of c k v l leaf root = none
  next_of c k v l leaf (left_of cp kp vp rp p) = some (at cp kp vp (node c k v l leaf) rp p)
  next_of c k v l leaf (right_of cp kp vp lp p) =
      up_left (node c k v l leaf) (right_of cp kp vp lp p)

  unfoldable pub get_next_infix : Place T K V → Option (Place T K V)
  get_next_infix n = next_of n.tag n.key n.value n.left n.right n.above

  abbrev pub prev_of : T → K → V → Tree T K V → Tree T K V → Chain T K V → Option (Place T K V)
  prev_of c k v (node cl kl vl ll lr) r p = some (rightmost cl kl vl ll lr (left_of c k v r p))
  prev_of c k v leaf r root = none
  prev_of c k v leaf r (right_of cp kp vp lp p) = some (at cp kp vp lp (node c k v leaf r) p)
  prev_of c k v leaf r (left_of cp kp vp rp p) =
      up_right (node c k v leaf r) (left_of cp kp vp rp p)

  unfoldable pub get_prev_infix : Place T K V → Option (Place T K V)
  get_prev_infix n = prev_of n.tag n.key n.value n.left n.right n.above

  -- `begin_infix`
  unfoldable pub begin_infix : Tree T K V → Option (Place T K V)
  begin_infix leaf = none
  begin_infix (node c k v l r) = some (leftmost c k v l r root)

  -- The pairs that a loop from a place to `end_infix` passes.
  unfoldable pub passed : ℕ → Option (Place T K V) → List (K × V)
  passed zero o = []
  passed (suc fuel) none = []
  passed (suc fuel) (some n) = (n.key, n.value) ∷ passed fuel (get_next_infix n)
