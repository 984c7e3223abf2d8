-- ===== src/SearchTree/RedBlack/Insert.antt =====
-- `insert` and `insert_range` of the red-black tree.
use mai_fa_sp_4_sem.Base.{refl, subst, inl, List}
use mai_fa_sp_4_sem.SearchTree.{leaf, node, root, plug, in_order, descend, Container}
use mai_fa_sp_4_sem.SearchTree.Order.{Keys}
use mai_fa_sp_4_sem.SearchTree.Derived.{
  Derived, IsValid, Inserts, insert-Inserts, Loads, insert_range-Loads,
}
use mai_fa_sp_4_sem.SearchTree.Assign.{IsMap, Assigns, insert_or_assign-Assigns}
use mai_fa_sp_4_sem.SearchTree.RedBlack.{Color, red, post_insert}
use mai_fa_sp_4_sem.SearchTree.RedBlack.Assign.{assign-IsRedBlack}
use mai_fa_sp_4_sem.SearchTree.RedBlack.Order.{Keeps, post_insert-Keeps}
use mai_fa_sp_4_sem.SearchTree.RedBlack.Shape.{IsRedBlack, descend-Around, post_insert-Repaired}

module _ {ℓ κ} (K : Type ℓ) (V : Type κ) ⦃o : Keys K⦄ where
  -- The red-black tree as a derived tree.
  abbrev pub red_black : Derived Color K V
  red_black = record {
    tag = red;
    post_insert = post_insert;
    HasForm = IsRedBlack;
    repairs = λ t key value h.
        let chain = descend key t root in
        let (n, height) = h.1 in
        let (top, e, form) =
          post_insert-Repaired key value leaf leaf chain 0 (refl, refl, refl, refl)
            (descend-Around key t root n height tt (inl h.0)) in
        (
          top,
          e,
          form,
          subst (Keeps (in_order (plug (node red key value leaf leaf) chain))) e
              (post_insert-Keeps (node red key value leaf leaf) chain),
        );
    assigns = assign-IsRedBlack;
  }

module _ {ℓ κ} {K : Type ℓ} {V : Type κ} ⦃o : Keys K⦄ where
  -- `insert` into a red-black tree in its order never follows a null pointer. It leaves a red-black
  -- tree in its order, in which the new pair stands behind all pairs whose keys are not above its own
  -- and in front of the others; `_size` counts it, unless the tree was empty.
  pub insert_red_black :
      (t : Container Color K V) (key : K) (value : V)
      → IsValid (red_black K V) t.top
      → Inserts (red_black K V) t key value
  insert_red_black = insert-Inserts (red_black K V)

  -- `insert_range` into a red-black tree in its order never follows a null pointer. It leaves a
  -- red-black tree in its order, with the pairs put in one after the other.
  pub insert_range_red_black :
      (list : List (K × V)) (t : Container Color K V)
      → IsValid (red_black K V) t.top
      → Loads (red_black K V) t list
  insert_range_red_black = insert_range-Loads (red_black K V)

  -- `insert_or_assign` into a red-black tree whose keys rise never follows a null pointer. It leaves a
  -- red-black tree whose keys rise, in which `go_to_node_with_key` finds the value at the key, and at
  -- each other key what it found before.
  pub insert_or_assign_red_black :
      (t : Container Color K V) (key : K) (value : V)
      → IsMap (red_black K V) t.top
      → Assigns (red_black K V) t key value
  insert_or_assign_red_black = insert_or_assign-Assigns (red_black K V)
