-- ===== src/SearchTree/Infix/Walk.antt =====
-- Where the infix iterator stands, step for step.
use mai_fa_sp_4_sem.Base.{◌≡◌, refl, ◌⊎◌, Option, none, some, List, [], ◌∷◌, ◌++◌, inl, inr}
use mai_fa_sp_4_sem.SearchTree.{Tree, leaf, node, Chain, root, left_of, right_of, in_order}
use mai_fa_sp_4_sem.SearchTree.Contents.{before, after}
use mai_fa_sp_4_sem.SearchTree.Infix.{
  Place, at, leftmost, rightmost, up_left, up_right, next_of, get_next_infix, get_prev_infix,
}

module _ {τ ℓ κ} {T : Type τ} {K : Type ℓ} {V : Type κ} where
  -- A place and the pairs in front of it and behind it, or the end.
  abbrev pub Stands : List (K × V) → List (K × V) → Option (Place T K V) → Type (ℓ ⊔ κ)
  Stands xs ys none = ys ≡ []
  Stands xs ys (some n) =
      (before n.above ++ in_order n.left ≡ xs)
      × ((n.key, n.value) ∷ in_order n.right ++ after n.above ≡ ys)

  prev-leftmost :
      (c : T) (k : K) (v : V) (l r : Tree T K V) (p : Chain T K V)
      → get_prev_infix (leftmost c k v l r p) ≡ up_right (node c k v l r) p
  unfolding get_prev_infix leftmost up_right
  prev-leftmost c k v leaf r root = refl
  prev-leftmost c k v leaf r (left_of cp kp vp rp p) = refl
  prev-leftmost c k v leaf r (right_of cp kp vp lp p) = refl
  prev-leftmost c k v (node cl kl vl ll lr) r p = prev-leftmost cl kl vl ll lr (left_of c k v r p)

  -- A step that ends, or the step back from it.
  abbrev pub Returns : Option (Place T K V) → Option (Place T K V) → Type (τ ⊔ ℓ ⊔ κ)
  Returns next n = (next ≡ none) ⊎ ((m : Place T K V) × ((next ≡ some m) × (get_prev_infix m ≡ n)))

  up_left-Returns :
      (c : T) (k : K) (v : V) (l r : Tree T K V) (p : Chain T K V)
      → Returns (up_left (node c k v l r) p) (some (rightmost c k v l r p))
  unfolding get_prev_infix rightmost up_left
  up_left-Returns c k v l r root = inl refl
  up_left-Returns c k v l r (left_of cp kp vp rp p) =
      inr (at cp kp vp (node c k v l r) rp p, (refl, refl))
  up_left-Returns c k v l r (right_of cp kp vp lp p) =
      up_left-Returns cp kp vp lp (node c k v l r) p

  next-Returns :
      (c : T) (k : K) (v : V) (l r : Tree T K V) (p : Chain T K V)
      → Returns (next_of c k v l r p) (some (at c k v l r p))
  unfolding up_right rightmost get_prev_infix
  next-Returns c k v l leaf root = inl refl
  next-Returns c k v l leaf (left_of cp kp vp rp p) =
      inr (at cp kp vp (node c k v l leaf) rp p, (refl, refl))
  next-Returns c k v l leaf (right_of cp kp vp lp p) =
      up_left-Returns c k v l leaf (right_of cp kp vp lp p)
  next-Returns c k v l (node cr kr vr rl rr) p = inr (
    leftmost cr kr vr rl rr (right_of c k v l p),
    (refl, prev-leftmost cr kr vr rl rr (right_of c k v l p)),
  )

  -- Where `++` does not reach the end, `--` leads back.
  pub get_prev_infix-get_next_infix :
      (n : Place T K V)
      → (get_next_infix n ≡ none)
        ⊎ ((m : Place T K V) × ((get_next_infix n ≡ some m) × (get_prev_infix m ≡ some n)))
  unfolding get_next_infix
  get_prev_infix-get_next_infix n = next-Returns n.tag n.key n.value n.left n.right n.above
