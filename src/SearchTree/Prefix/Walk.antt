-- ===== src/SearchTree/Prefix/Walk.antt =====
-- Where the prefix iterator stands, step for step.
use mai_fa_sp_4_sem.Base.{
  ℕ, zero, suc, ◌+◌, ◌<◌, ◌≡◌, ◌≢◌, refl, ap, sym, subst, Option, some, List, [], ◌∷◌, ◌++◌,
  append_assoc, append-nil, length, arith,
}
use mai_fa_sp_4_sem.SearchTree.{Tree, leaf, node, Chain, root, left_of, right_of}
use mai_fa_sp_4_sem.SearchTree.Infix.{Place, at}
use mai_fa_sp_4_sem.SearchTree.Prefix.{
  Step, to, at_end, null_parent, up, next_of, get_next_prefix, get_prev_prefix, last, begin_prefix,
  passed, pre_order,
}

module _ {τ ℓ κ} {T : Type τ} {K : Type ℓ} {V : Type κ} where
  -- The pairs behind a subtree.
  abbrev pub later : Chain T K V → List (K × V)
  later root = []
  later (left_of c k v r p) = pre_order r ++ later p
  later (right_of c k v l p) = later p

  -- Not the only node.
  abbrev pub Moves : Chain T K V → Tree T K V → Tree T K V → Type 0
  Moves (left_of c k v r p) l' r' = Unit
  Moves (right_of c k v l p) l' r' = Unit
  Moves root (node c k v ll lr) r' = Unit
  Moves root leaf (node c k v rl rr) = Unit
  Moves root leaf leaf = ⊥

  -- A step to the first of some pairs.
  abbrev pub Stands : List (K × V) → Step T K V → Type (ℓ ⊔ κ)
  Stands ys at_end = ys ≡ []
  Stands ys null_parent = ys ≢ ys
  Stands ys (to n) =
      ((n.key, n.value) ∷ (pre_order n.left ++ pre_order n.right) ++ later n.above ≡ ys)
      × Moves n.above n.left n.right

  up-Stands : (t : Tree T K V) (p : Chain T K V) → Stands (later p) (up t p)
  unfolding up
  up-Stands t root = refl
  up-Stands t (right_of c k v l p) = up-Stands (node c k v l t) p
  up-Stands t (left_of c k v leaf p) = up-Stands (node c k v t leaf) p
  up-Stands t (left_of c k v (node cr kr vr rl rr) p) = (refl, tt)

  next-Stands :
      (c : T) (k : K) (v : V) (l r : Tree T K V) (p : Chain T K V)
      → Moves p l r
      → Stands ((pre_order l ++ pre_order r) ++ later p) (next_of c k v l r p)
  next-Stands c k v (node cl kl vl ll lr) r p h =
      (sym (append_assoc (pre_order (node cl kl vl ll lr)) (pre_order r) (later p)), tt)
  next-Stands c k v leaf (node cr kr vr rl rr) p h = (refl, tt)
  next-Stands c k v leaf leaf root h = absurd h
  next-Stands c k v leaf leaf (left_of cp kp vp r p) h =
      up-Stands (node c k v leaf leaf) (left_of cp kp vp r p)
  next-Stands c k v leaf leaf (right_of cp kp vp l p) h =
      up-Stands (node c k v leaf leaf) (right_of cp kp vp l p)

  passed-Stands :
      (fuel : ℕ) (ys : List (K × V)) (s : Step T K V)
      → Stands ys s
      → length ys < fuel
      → passed fuel s ≡ some ys
  unfolding passed get_next_prefix
  passed-Stands zero ys s h lt = absurd (omega (arith, lt))
  passed-Stands (suc fuel) ys at_end h lt = ap some (sym h)
  passed-Stands (suc fuel) ys null_parent h lt = absurd (h refl)
  passed-Stands (suc fuel) ys (to n) (e, moves) lt =
      let later_pairs = (pre_order n.left ++ pre_order n.right) ++ later n.above in
      let rest : passed fuel (get_next_prefix n) ≡ some later_pairs =
        passed-Stands fuel later_pairs (get_next_prefix n)
          (next-Stands n.tag n.key n.value n.left n.right n.above moves)
          (ground (arith, lt, ap length e)) in
      rw rest (ap some e)

  more_Moves : (l r : Tree T K V) → pre_order l ++ pre_order r ≢ [] → Moves root l r
  more_Moves leaf leaf h = absurd (h refl)
  more_Moves leaf (node c k v rl rr) h = tt
  more_Moves (node c k v ll lr) r h = tt

  -- In a tree of a root and at least one child the steps from `begin_prefix` follow no null pointer,
  -- end after as many as there are pairs, and pass each node once, in front of those below it.
  pub passed-pre_order :
      (c : T) (k : K) (v : V) (l r : Tree T K V)
      → pre_order l ++ pre_order r ≢ []
      → passed (length (pre_order (node c k v l r)) + 1) (begin_prefix (node c k v l r))
        ≡ some (pre_order (node c k v l r))
  passed-pre_order c k v l r h =
      let t = node c k v l r in
      passed-Stands (length (pre_order t) + 1) (pre_order t) (begin_prefix t)
        (append-nil (pre_order t), more_Moves l r h) (omega arith)

  -- A step that does not reach a node, or the step back from it.
  abbrev pub Returns : Step T K V → Option (Place T K V) → Type (τ ⊔ ℓ ⊔ κ)
  Returns at_end n = Unit
  Returns null_parent n = Unit
  Returns (to m) n = get_prev_prefix m ≡ n

  up-Returns :
      (c : T) (k : K) (v : V) (l r : Tree T K V) (p : Chain T K V)
      → Returns (up (node c k v l r) p) (last (node c k v l r) p)
  unfolding up last get_prev_prefix
  up-Returns c k v l r root = tt
  up-Returns c k v l r (right_of cp kp vp lp p) = up-Returns cp kp vp lp (node c k v l r) p
  up-Returns c k v l r (left_of cp kp vp leaf p) = up-Returns cp kp vp (node c k v l r) leaf p
  up-Returns c k v l r (left_of cp kp vp (node cr kr vr rl rr) p) = refl

  next-Returns :
      (c : T) (k : K) (v : V) (l r : Tree T K V) (p : Chain T K V)
      → Returns (next_of c k v l r p) (some (at c k v l r p))
  unfolding last get_prev_prefix
  next-Returns c k v (node cl kl vl ll lr) r p = refl
  next-Returns c k v leaf (node cr kr vr rl rr) p = refl
  next-Returns c k v leaf leaf root = tt
  next-Returns c k v leaf leaf (left_of cp kp vp r p) =
      up-Returns c k v leaf leaf (left_of cp kp vp r p)
  next-Returns c k v leaf leaf (right_of cp kp vp l p) =
      up-Returns c k v leaf leaf (right_of cp kp vp l p)

  -- Where `++` reaches a node, `--` leads back.
  pub get_prev_prefix-get_next_prefix :
      (n m : Place T K V) → get_next_prefix n ≡ to m → get_prev_prefix m ≡ some n
  unfolding get_next_prefix
  get_prev_prefix-get_next_prefix n m e =
      subst (λ s. Returns s (some n)) e (next-Returns n.tag n.key n.value n.left n.right n.above)
