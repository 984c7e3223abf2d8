-- ===== src/SearchTree/Prefix.antt =====
-- The prefix iterator of binary_search_tree.h.
pub mod Walk
use mai_fa_sp_4_sem.Base.{ℕ, zero, suc, Option, none, some, List, [], ◌∷◌, ◌++◌}
use mai_fa_sp_4_sem.SearchTree.{Tree, leaf, node, Chain, root, left_of, right_of}
use mai_fa_sp_4_sem.SearchTree.Infix.{Place, at}

-- A step of the iterator: to a node, to the end, or over the null parent.
pub data Step {τ ℓ κ} (T : Type τ) (K : Type ℓ) (V : Type κ) : Type (τ ⊔ ℓ ⊔ κ) where
  to : Place T K V → Step T K V
  at_end : Step T K V
  null_parent : Step T K V

module _ {τ ℓ κ} {T : Type τ} {K : Type ℓ} {V : Type κ} where
  -- Both loops upwards: to the right child of the first parent that has one and that the way comes
  -- to from the left.
  unfoldable pub up : Tree T K V → Chain T K V → Step T K V
  up t root = at_end
  up t (right_of c k v l p) = up (node c k v l t) p
  up t (left_of c k v leaf p) = up (node c k v t leaf) p
  up t (left_of c k v (node cr kr vr rl rr) p) = to (at cr kr vr rl rr (right_of c k v t p))

  abbrev pub next_of : T → K → V → Tree T K V → Tree T K V → Chain T K V → Step T K V
  next_of c k v (node cl kl vl ll lr) r p = to (at cl kl vl ll lr (left_of c k v r p))
  next_of c k v leaf (node cr kr vr rl rr) p = to (at cr kr vr rl rr (right_of c k v leaf p))
  next_of c k v leaf leaf root = null_parent
  next_of c k v leaf leaf (left_of cp kp vp r p) = up (node c k v leaf leaf) (left_of cp kp vp r p)
  next_of c k v leaf leaf (right_of cp kp vp l p) =
      up (node c k v leaf leaf) (right_of cp kp vp l p)

  unfoldable pub get_next_prefix : Place T K V → Step T K V
  get_next_prefix n = next_of n.tag n.key n.value n.left n.right n.above

  -- The loop downwards of `get_prev_prefix`: to the right while there is a right child, else to the
  -- left.
  unfoldable pub last : Tree T K V → Chain T K V → Option (Place T K V)
  last leaf p = none
  last (node c k v l (node cr kr vr rl rr)) p = last (node cr kr vr rl rr) (right_of c k v l p)
  last (node c k v (node cl kl vl ll lr) leaf) p = last (node cl kl vl ll lr) (left_of c k v leaf p)
  last (node c k v leaf leaf) p = some (at c k v leaf leaf p)

  abbrev pub prev_of : Tree T K V → Chain T K V → Option (Place T K V)
  prev_of t root = none
  prev_of t (left_of c k v r p) = some (at c k v t r p)
  prev_of t (right_of c k v leaf p) = some (at c k v leaf t p)
  prev_of t (right_of c k v (node cl kl vl ll lr) p) =
      last (node cl kl vl ll lr) (left_of c k v t p)

  unfoldable pub get_prev_prefix : Place T K V → Option (Place T K V)
  get_prev_prefix n = prev_of (node n.tag n.key n.value n.left n.right) n.above

  -- `begin_prefix`
  abbrev pub begin_prefix : Tree T K V → Step T K V
  begin_prefix leaf = at_end
  begin_prefix (node c k v l r) = to (at c k v l r root)

  -- The pairs that a loop from a step to the end passes, if no null pointer is followed.
  unfoldable pub passed : ℕ → Step T K V → Option (List (K × V))
  passed zero o = none
  passed (suc fuel) at_end = some []
  passed (suc fuel) null_parent = none
  passed (suc fuel) (to n) =
      let rest = passed fuel (get_next_prefix n) in
      elim rest [ none ↦ none | some xs ↦ some ((n.key, n.value) ∷ xs) ]

  -- The pairs of a tree, each in front of those below it.
  abbrev pub pre_order : Tree T K V → List (K × V)
  pre_order leaf = []
  pre_order (node c k v l r) = (k, v) ∷ pre_order l ++ pre_order r
