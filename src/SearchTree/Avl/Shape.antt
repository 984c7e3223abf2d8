-- ===== src/SearchTree/Avl/Shape.antt =====
-- The heights of the AVL tree.
use mai_fa_sp_4_sem.Base.{
  ℕ, suc, ◌+◌, ◌≡◌, refl, ap, ◌⊎◌, leb, arith, Bool-cases, inl, inr, leb→le, ◌<◌,
}
use mai_fa_sp_4_sem.SearchTree.{
  Tree, leaf, node, Chain, root, left_of, right_of, small_left_rotation, small_right_rotation,
  big_left_rotation, big_right_rotation,
}
use mai_fa_sp_4_sem.SearchTree.Avl.Heights.{
  Above, Near, max-Above, Above-same, Above-swap, one_rotation, two_rotations, leb→gt, swap,
}
use mai_fa_sp_4_sem.SearchTree.Avl.{
  max, height, recalculate_height, recalculate_children, rotate_left, rotate_right,
}

module _ {ℓ κ} {K : Type ℓ} {V : Type κ} where
  -- An AVL tree: the heights are stored, and those of two subtrees differ by one at most.
  abbrev pub IsAvl : Tree ℕ K V → Type 0
  IsAvl leaf = Unit
  IsAvl (node h k v l r) =
      Above h (height l) (height r) × Near 1 (height l) (height r) × IsAvl l × IsAvl r

  -- The rest of an AVL tree around a subtree of the height `n`.
  abbrev pub Around : Chain ℕ K V → ℕ → Type 0
  Around root n = Unit
  Around (left_of h k v s p) n = Above h n (height s) × Near 1 n (height s) × IsAvl s × Around p h
  Around (right_of h k v s p) n = Above h (height s) n × Near 1 (height s) n × IsAvl s × Around p h

  pub recalculate_same : (t : Tree ℕ K V) → IsAvl t → recalculate_height t ≡ t
  unfolding recalculate_height
  recalculate_same leaf h = refl
  recalculate_same (node h k v l r) (above, _, _, _) =
      ap (λ x. node x k v l r)
        (Above-same (suc (max (height l) (height r))) h (height l) (height r)
          (max-Above (height l) (height r)) above)

  -- A tree of AVL form whose height is that above two subtrees.
  abbrev pub Built : Tree ℕ K V → ℕ → ℕ → Type 0
  Built t a b = IsAvl t × Above (height t) a b

  pub recalculate-Built :
      (h : ℕ) (k : K) (v : V) (l r : Tree ℕ K V)
      → IsAvl l
      → IsAvl r
      → Near 1 (height l) (height r)
      → Built (recalculate_height (node h k v l r)) (height l) (height r)
  unfolding recalculate_height
  recalculate-Built h k v l r hl hr near =
      ((max-Above (height l) (height r), near, hl, hr), max-Above (height l) (height r))

  -- A repaired tree above a subtree of the height `hr` that was higher by 2.
  abbrev pub Repaired : Tree ℕ K V → ℕ → Type 0
  Repaired t hr = IsAvl t × ((height t ≡ hr) ⊎ (height t ≡ suc hr))

  twice_left :
      (h hr : ℕ) (k kr : K) (v vr : V) (l rl rr : Tree ℕ K V)
      → IsAvl l
      → IsAvl rl
      → IsAvl rr
      → Above hr (height rl) (height rr)
      → Near 1 (height rl) (height rr)
      → hr ≡ height l + 2
      → height rr < height rl
      → Repaired
          (recalculate_height
            (recalculate_children (big_left_rotation (node h k v l (node hr kr vr rl rr)))))
          hr
  unfolding small_left_rotation small_right_rotation big_left_rotation
  twice_left h hr k kr v vr l leaf rr gl gs grr above near e lt = absurd (ground arith)
  twice_left h hr k kr v vr l (node hs ks vs sl sr) rr gl (as', ns, gsl, gsr) grr above near e lt =
      let big =
        two_rotations (height l) (height sl) (height sr) hs (height rr) hr as' ns above near e lt in
      let a = recalculate_height (node h k v l sl) in
      let b = recalculate_height (node hr kr vr sr rr) in
      let (ga, ha) = recalculate-Built h k v l sl gl gsl big.low in
      let (gb, hb) = recalculate-Built hr kr vr sr rr gsr grr big.lower in
      let (gt, ht) = recalculate-Built hs ks vs a b ga gb (big.high (height a) (height b) ha hb) in
      (gt, inl (big.over (height a) (height b) _ ha hb ht))

  pub rotate_left-Repaired :
      (h : ℕ) (k : K) (v : V) (l r : Tree ℕ K V)
      → IsAvl l
      → IsAvl r
      → height r ≡ height l + 2
      → Repaired
          (recalculate_height (recalculate_children (rotate_left (node h k v l r))))
          (height r)
  unfolding small_left_rotation small_right_rotation big_left_rotation
  rotate_left-Repaired h k v l leaf gl gr e = absurd (ground arith)
  rotate_left-Repaired h k v l (node hr kr vr rl rr) gl (above, near, grl, grr) e =
      elim (Bool-cases (leb (height rl) (height rr))) [
        | inl b ↦
            let small =
              one_rotation (height l) (height rl) (height rr) hr above near e
                (leb→le (height rl) (height rr) b) in
            let (ga, ha) = recalculate-Built h k v l rl gl grl small.low in
            let a = recalculate_height (node h k v l rl) in
            let (gt, ht) = recalculate-Built hr kr vr a rr ga grr (small.high (height a) ha) in
            rw (b, recalculate_same rr grr) (gt, small.over (height a) _ ha ht)
        | inr b ↦ rw b (
            twice_left h hr k kr v vr l rl rr gl grl grr above near e
              (leb→gt (height rl) (height rr) b))
      ]

  twice_right :
      (h hl : ℕ) (k kl : K) (v vl : V) (ll lr r : Tree ℕ K V)
      → IsAvl ll
      → IsAvl lr
      → IsAvl r
      → Above hl (height lr) (height ll)
      → Near 1 (height lr) (height ll)
      → hl ≡ height r + 2
      → height ll < height lr
      → Repaired
          (recalculate_height
            (recalculate_children (big_right_rotation (node h k v (node hl kl vl ll lr) r))))
          hl
  unfolding small_left_rotation small_right_rotation big_right_rotation
  twice_right h hl k kl v vl ll leaf r gll gs gr above near e lt = absurd (ground arith)
  twice_right h hl k kl v vl ll (node hs ks vs sl sr) r gll (as', ns, gsl, gsr) gr above near e lt =
      let big =
        two_rotations (height r) (height sr) (height sl) hs (height ll) hl
          (Above-swap hs (height sl) (height sr) as') (swap ns) above near e lt in
      let a = recalculate_height (node hl kl vl ll sl) in
      let b = recalculate_height (node h k v sr r) in
      let (ga, ha) = recalculate-Built hl kl vl ll sl gll gsl (swap big.lower) in
      let (gb, hb) = recalculate-Built h k v sr r gsr gr (swap big.low) in
      let ha' = Above-swap (height a) (height ll) (height sl) ha in
      let hb' = Above-swap (height b) (height sr) (height r) hb in
      let (gt, ht) =
        recalculate-Built hs ks vs a b ga gb (swap (big.high (height b) (height a) hb' ha')) in
      (gt, inl (big.over (height b) (height a) _ hb' ha' (Above-swap _ (height a) (height b) ht)))

  pub rotate_right-Repaired :
      (h : ℕ) (k : K) (v : V) (l r : Tree ℕ K V)
      → IsAvl l
      → IsAvl r
      → height l ≡ height r + 2
      → Repaired
          (recalculate_height (recalculate_children (rotate_right (node h k v l r))))
          (height l)
  unfolding small_left_rotation small_right_rotation big_right_rotation
  rotate_right-Repaired h k v leaf r gl gr e = absurd (ground arith)
  rotate_right-Repaired h k v (node hl kl vl ll lr) r (above, near, gll, glr) gr e =
      let above' = Above-swap hl (height ll) (height lr) above in
      elim (Bool-cases (leb (height lr) (height ll))) [
        | inl b ↦
            let small =
              one_rotation (height r) (height lr) (height ll) hl above' (swap near) e
                (leb→le (height lr) (height ll) b) in
            let a = recalculate_height (node h k v lr r) in
            let (ga, ha) = recalculate-Built h k v lr r glr gr (swap small.low) in
            let ha' = Above-swap (height a) (height lr) (height r) ha in
            let (gt, ht) =
              recalculate-Built hl kl vl ll a gll ga (swap (small.high (height a) ha')) in
            rw (b, recalculate_same ll gll)
              (gt, small.over (height a) _ ha' (Above-swap _ (height ll) (height a) ht))
        | inr b ↦ rw b (
            twice_right h hl k kl v vl ll lr r gll glr gr above' (swap near) e
              (leb→gt (height lr) (height ll) b))
      ]
