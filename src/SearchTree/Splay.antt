-- ===== src/SearchTree/Splay.antt =====
-- associative_container/search_tree/binary_search_tree/splay_tree/include/splay_tree.h.
use mathlib.Core.Option.{some-injective}
use mai_fa_sp_4_sem.Base.{◌≡◌, refl, ap, sym, subst, ◌∙◌, Option, some}
use mai_fa_sp_4_sem.SearchTree.{
  Tree, leaf, node, Chain, root, left_of, right_of, plug, in_order, descend, Container, counted,
  insert, small_left_rotation, small_right_rotation, big_left_rotation, big_right_rotation,
  double_left_rotation, double_right_rotation,
}
use mai_fa_sp_4_sem.SearchTree.Order.{Keys}
use mai_fa_sp_4_sem.SearchTree.Contents.{
  plug_same, Sorted, put, in_order-small_left, in_order-small_right, in_order-big_left,
  in_order-big_right, in_order-double_left, in_order-double_right,
}
use mai_fa_sp_4_sem.SearchTree.Derived.{Derived, insert-Inserts}

module _ {τ ℓ κ} {T : Type τ} {K : Type ℓ} {V : Type κ} where
  -- The loop of `splay`, from `x` up. Each turn rotates at the parent or at its parent.
  unfoldable pub splay : Tree T K V → Chain T K V → Tree T K V
  splay x root = x
  splay x (left_of c k v s root) = small_right_rotation (node c k v x s)
  splay x (right_of c k v s root) = small_left_rotation (node c k v s x)
  splay x (left_of c k v s (left_of gc gk gv u p)) =
      splay (double_right_rotation (node gc gk gv (node c k v x s) u)) p
  splay x (right_of c k v s (right_of gc gk gv u p)) =
      splay (double_left_rotation (node gc gk gv u (node c k v s x))) p
  splay x (right_of c k v s (left_of gc gk gv u p)) =
      splay (big_right_rotation (node gc gk gv (node c k v s x) u)) p
  splay x (left_of c k v s (right_of gc gk gv u p)) =
      splay (big_left_rotation (node gc gk gv u (node c k v x s))) p

  abbrev pub post_insert : Tree T K V → Chain T K V → Option (Tree T K V)
  post_insert z p = some (splay z p)

  pub in_order-splay :
      (x : Tree T K V) (p : Chain T K V) → in_order (splay x p) ≡ in_order (plug x p)
  unfolding splay plug
  in_order-splay x root = refl
  in_order-splay x (left_of c k v s root) = in_order-small_right (node c k v x s)
  in_order-splay x (right_of c k v s root) = in_order-small_left (node c k v s x)
  in_order-splay x (left_of c k v s (left_of gc gk gv u p)) =
      let t = node gc gk gv (node c k v x s) u in
      in_order-splay (double_right_rotation t) p
      ∙ plug_same (double_right_rotation t) t p (in_order-double_right t)
  in_order-splay x (right_of c k v s (right_of gc gk gv u p)) =
      let t = node gc gk gv u (node c k v s x) in
      in_order-splay (double_left_rotation t) p
      ∙ plug_same (double_left_rotation t) t p (in_order-double_left t)
  in_order-splay x (right_of c k v s (left_of gc gk gv u p)) =
      let t = node gc gk gv (node c k v s x) u in
      in_order-splay (big_right_rotation t) p
      ∙ plug_same (big_right_rotation t) t p (in_order-big_right t)
  in_order-splay x (left_of c k v s (right_of gc gk gv u p)) =
      let t = node gc gk gv u (node c k v x s) in
      in_order-splay (big_left_rotation t) p
      ∙ plug_same (big_left_rotation t) t p (in_order-big_left t)

  -- A tree with this node at its root.
  abbrev pub Tops : T → K → V → Tree T K V → Type (τ ⊔ ℓ ⊔ κ)
  Tops c k v t = (l : Tree T K V) × ((r : Tree T K V) × (t ≡ node c k v l r))

  -- `splay` ends with the node at the root, and keeps the pairs in their order.
  pub splay-Tops :
      (c : T) (k : K) (v : V) (l r : Tree T K V) (p : Chain T K V)
      → Tops c k v (splay (node c k v l r) p)
  unfolding splay small_left_rotation small_right_rotation big_left_rotation big_right_rotation
      double_left_rotation double_right_rotation
  splay-Tops c k v l r root = (l, (r, refl))
  splay-Tops c k v l r (left_of _ y w s root) = (l, (node _ y w r s, refl))
  splay-Tops c k v l r (right_of _ y w s root) = (node _ y w s l, (r, refl))
  splay-Tops c k v l r (left_of d y w s (left_of gc gk gv u p)) =
      splay-Tops c k v l (node d y w r (node gc gk gv s u)) p
  splay-Tops c k v l r (right_of d y w s (right_of gc gk gv u p)) =
      splay-Tops c k v (node d y w (node gc gk gv u s) l) r p
  splay-Tops c k v l r (right_of d y w s (left_of gc gk gv u p)) =
      splay-Tops c k v (node d y w s l) (node gc gk gv r u) p
  splay-Tops c k v l r (left_of d y w s (right_of gc gk gv u p)) =
      splay-Tops c k v (node gc gk gv u l) (node d y w r s) p

module _ {ℓ κ} (K : Type ℓ) (V : Type κ) ⦃o : Keys K⦄ where
  -- The splay tree as a derived tree. Its nodes have no tag, its trees any form.
  abbrev pub splay_tree : Derived {0, ℓ, κ} Unit K V
  splay_tree = record {
    tag = tt;
    post_insert = post_insert;
    HasForm = λ t. Unit;
    repairs = λ t key value h.
        let z = node tt key value leaf leaf in
        (splay z (descend key t root), refl, tt, in_order-splay z (descend key t root));
    assigns = λ t key value h. tt;
  }

module _ {ℓ κ} {K : Type ℓ} {V : Type κ} ⦃o : Keys K⦄ where
  -- What `insert` leaves in a splay tree, with the new pair at the root.
  pub record Splays (t : Container {0, ℓ, κ} Unit K V) (key : K) (value : V) : Type (ℓ ⊔ κ) where
    pub result : Container {0, ℓ, κ} Unit K V
    pub ends : insert post_insert tt t key value ≡ some result
    pub tops : Tops tt key value result.top
    pub pairs : in_order result.top ≡ put key value (in_order t.top)
    pub sorted : Sorted (in_order result.top)

  -- `insert` into a splay tree in its order leaves a tree in its order with the new pair at its root,
  -- which stands behind all pairs whose keys are not above its own and in front of the others.
  pub insert_splay :
      (t : Container {0, ℓ, κ} Unit K V) (key : K) (value : V)
      → Sorted (in_order t.top)
      → Splays t key value
  unfolding insert
  insert_splay t key value s =
      let one = insert-Inserts (splay_tree K V) t key value (record { form = tt; sorted = s }) in
      let result : Container {0, ℓ, κ} Unit K V = record {
        top = splay (node tt key value leaf leaf) (descend key t.top root);
        size = counted t;
      } in
      let e : one.result ≡ result = sym (some-injective result one.result one.ends) in
      record {
        result = result;
        ends = refl;
        tops = splay-Tops tt key value leaf leaf (descend key t.top root);
        pairs = ap (λ u. in_order u.top) (sym e) ∙ one.pairs;
        sorted = subst (λ u. Sorted (in_order u.top)) e one.valid.sorted;
      }
