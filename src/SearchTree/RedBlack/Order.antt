-- ===== src/SearchTree/RedBlack/Order.antt =====
-- The red-black tree keeps its pairs in their order.
use mai_fa_sp_4_sem.Base.{
  ◌≡◌, refl, ap, sym, subst, ◌∙◌, Bool, true, false, if◌then◌else◌, Option, none, some, List, ◌∷◌,
  ◌++◌,
}
use mai_fa_sp_4_sem.SearchTree.{
  Tree, leaf, node, Chain, root, left_of, right_of, plug, in_order, small_left_rotation,
  small_right_rotation,
}
use mai_fa_sp_4_sem.SearchTree.Contents.{
  before, after, plug_same, in_order-plug, in_order-small_left, in_order-small_right,
}
use mai_fa_sp_4_sem.SearchTree.RedBlack.{Color, red, black, is_red, paint, finish, post_insert}

module _ {ℓ κ} {K : Type ℓ} {V : Type κ} where
  pub in_order-paint : (c : Color) (t : Tree Color K V) → in_order (paint c t) ≡ in_order t
  in_order-paint c leaf = refl
  in_order-paint c (node _ k v l r) = refl

  -- What the result of a repair, if there is one, has for its pairs.
  abbrev pub Keeps : List (K × V) → Option (Tree Color K V) → Type (ℓ ⊔ κ)
  Keeps xs none = Unit
  Keeps xs (some t) = in_order t ≡ xs

  finish-Keeps :
      (t u : Tree Color K V) (p : Chain Color K V)
      → in_order t ≡ in_order u
      → Keeps (in_order (plug u p)) (finish t p)
  finish-Keeps t u p e =
      in_order-paint black (plug t p)
      ∙ in_order-plug t p
      ∙ ap (λ xs. before p ++ xs ++ after p) e
      ∙ sym (in_order-plug u p)

  uncle_right :
      (k : K) (v : V) (parent uncle : Tree Color K V)
      → in_order (node red k v parent (paint black uncle)) ≡ in_order (node red k v parent uncle)
  uncle_right k v parent uncle =
      ap (λ xs. in_order parent ++ (k, v) ∷ xs) (in_order-paint black uncle)

  uncle_left :
      (k : K) (v : V) (parent uncle : Tree Color K V)
      → in_order (node red k v (paint black uncle) parent) ≡ in_order (node red k v uncle parent)
  uncle_left k v parent uncle =
      ap (λ xs. xs ++ (k, v) ∷ in_order parent) (in_order-paint black uncle)

  -- One test of the uncle, with both of its outcomes.
  either :
      (b : Bool) (xs ys : List (K × V)) (o : Option (Tree Color K V)) (t : Tree Color K V)
      → ys ≡ xs
      → Keeps ys o
      → Keeps xs (some t)
      → Keeps xs (if b then o else some t)
  either true xs ys o t e h k = subst (λ zs. Keeps zs o) e h
  either false xs ys o t e h k = k

  pub post_insert-Keeps :
      (z : Tree Color K V) (p : Chain Color K V) → Keeps (in_order (plug z p)) (post_insert z p)
  unfolding post_insert plug
  post_insert-Keeps z root = finish-Keeps z z root refl
  post_insert-Keeps z (left_of black k v s p) = finish-Keeps z z (left_of black k v s p) refl
  post_insert-Keeps z (right_of black k v s p) = finish-Keeps z z (right_of black k v s p) refl
  post_insert-Keeps z (left_of red k v s root) = tt
  post_insert-Keeps z (right_of red k v s root) = tt
  post_insert-Keeps z (left_of red k v s (left_of gc gk gv uncle p)) =
      let t = node gc gk gv (node red k v z s) uncle in
      let higher = node red gk gv (node black k v z s) (paint black uncle) in
      let lower = node red gk gv (node black k v z s) uncle in
      either (is_red uncle) (in_order (plug t p)) (in_order (plug higher p)) (post_insert higher p)
        (paint black (plug (small_right_rotation lower) p))
        (plug_same higher t p (uncle_right gk gv (node black k v z s) uncle))
        (post_insert-Keeps higher p)
        (finish-Keeps (small_right_rotation lower) t p (in_order-small_right lower))
  post_insert-Keeps z (right_of red k v s (left_of gc gk gv uncle p)) =
      let t = node gc gk gv (node red k v s z) uncle in
      let higher = node red gk gv (node black k v s z) (paint black uncle) in
      let parent = small_left_rotation (node red k v s z) in
      let lower = node red gk gv (paint black parent) uncle in
      either (is_red uncle) (in_order (plug t p)) (in_order (plug higher p)) (post_insert higher p)
        (paint black (plug (small_right_rotation lower) p))
        (plug_same higher t p (uncle_right gk gv (node black k v s z) uncle))
        (post_insert-Keeps higher p)
        (finish-Keeps (small_right_rotation lower) t p (
          in_order-small_right lower
          ∙ ap (λ xs. xs ++ (gk, gv) ∷ in_order uncle)
              (in_order-paint black parent ∙ in_order-small_left (node red k v s z))))
  post_insert-Keeps z (right_of red k v s (right_of gc gk gv uncle p)) =
      let t = node gc gk gv uncle (node red k v s z) in
      let higher = node red gk gv (paint black uncle) (node black k v s z) in
      let lower = node red gk gv uncle (node black k v s z) in
      either (is_red uncle) (in_order (plug t p)) (in_order (plug higher p)) (post_insert higher p)
        (paint black (plug (small_left_rotation lower) p))
        (plug_same higher t p (uncle_left gk gv (node black k v s z) uncle))
        (post_insert-Keeps higher p)
        (finish-Keeps (small_left_rotation lower) t p (in_order-small_left lower))
  post_insert-Keeps z (left_of red k v s (right_of gc gk gv uncle p)) =
      let t = node gc gk gv uncle (node red k v z s) in
      let higher = node red gk gv (paint black uncle) (node black k v z s) in
      let parent = small_right_rotation (node red k v z s) in
      let lower = node red gk gv uncle (paint black parent) in
      either (is_red uncle) (in_order (plug t p)) (in_order (plug higher p)) (post_insert higher p)
        (paint black (plug (small_left_rotation lower) p))
        (plug_same higher t p (uncle_left gk gv (node black k v z s) uncle))
        (post_insert-Keeps higher p)
        (finish-Keeps (small_left_rotation lower) t p (
          in_order-small_left lower
          ∙ ap (λ xs. in_order uncle ++ (gk, gv) ∷ xs)
              (in_order-paint black parent ∙ in_order-small_right (node red k v z s))))
