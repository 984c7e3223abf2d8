-- ===== src/SearchTree/Tests.antt =====
-- Runs of the search trees, and each theorem at such a run.
use mai_fa_sp_4_sem.Base.{◌⊎◌, none, ℕ, ◌≡◌, refl, some, List, [], ◌∷◌, arith}
use mai_fa_sp_4_sem.SearchTree.{
  root, left_of, leaf, node, plug, in_order, descend, Container, insert, insert_range,
  small_left_rotation, small_right_rotation, big_left_rotation, go_to_node_with_key,
}
use mai_fa_sp_4_sem.SearchTree.Order.{numbers}
use mai_fa_sp_4_sem.SearchTree.Contents.{Sorted}
use mai_fa_sp_4_sem.SearchTree.Insert.{Finds, go_to_node_with_key-Finds}
use mai_fa_sp_4_sem.SearchTree.Derived.{IsValid, Inserts}
use mai_fa_sp_4_sem.SearchTree.Assign.{IsMap, Assigns}
use mai_fa_sp_4_sem.SearchTree.Infix.{Place, at, get_next_infix, get_prev_infix, passed}
use mai_fa_sp_4_sem.SearchTree.Infix.Walk.{get_prev_infix-get_next_infix}
use mai_fa_sp_4_sem.SearchTree.RedBlack.{Color, red, black}
use mai_fa_sp_4_sem.SearchTree.RedBlack.Insert.{
  red_black, insert_red_black, insert_or_assign_red_black,
}
use mai_fa_sp_4_sem.SearchTree.RedBlack.Bounds.{IsShallow, insert_range-IsShallow}
use mai_fa_sp_4_sem.SearchTree.Avl.Insert.{avl, insert_avl}
use mai_fa_sp_4_sem.SearchTree.Splay.{Splays, insert_splay}
use mai_fa_sp_4_sem.SearchTree.RedBlack
use mai_fa_sp_4_sem.SearchTree.Avl
use mai_fa_sp_4_sem.SearchTree.Prefix
use mai_fa_sp_4_sem.SearchTree.Prefix.Walk.{passed-pre_order}

abbrev three_red_black : Container Color ℕ ℕ
three_red_black = record {
  top = node black 5 50 (node red 3 30 leaf leaf) (node red 8 80 leaf leaf);
  size = 2;
}

-- The red uncle is painted, and then the root.
insert_red_black_run :
    insert RedBlack.post_insert red three_red_black 4 40
    ≡ some (record {
      top =
          node black 5 50
            (node black 3 30 leaf (node red 4 40 leaf leaf))
            (node black 8 80 leaf leaf);
      size = 3;
    })
unfolding numbers insert descend RedBlack.post_insert plug
insert_red_black_run = refl

three-IsValid : IsValid (red_black ℕ ℕ) three_red_black.top
unfolding numbers
three-IsValid = record {
  form = (refl, (1, ((refl, refl, refl, refl), (refl, refl, refl, refl))));
  sorted = ((refl, (refl, tt)), ((refl, tt), (tt, tt)));
}

insert_red_black_example : Inserts (red_black ℕ ℕ) three_red_black 4 40
insert_red_black_example = insert_red_black three_red_black 4 40 three-IsValid

three-IsMap : IsMap (red_black ℕ ℕ) three_red_black.top
unfolding numbers
three-IsMap = record {
  form = (refl, (1, ((refl, refl, refl, refl), (refl, refl, refl, refl))));
  rising = ((refl, (refl, tt)), ((refl, tt), (tt, tt)));
}

insert_or_assign_red_black_example : Assigns (red_black ℕ ℕ) three_red_black 8 1
insert_or_assign_red_black_example = insert_or_assign_red_black three_red_black 8 1 three-IsMap

abbrev pairs : List (ℕ × ℕ)
pairs = (1, 10) ∷ (2, 20) ∷ (3, 30) ∷ (4, 40) ∷ []

-- Four pairs have the size 3.
abbrev four_red_black : Container Color ℕ ℕ
four_red_black = record {
  top =
      node black 2 20 (node black 1 10 leaf leaf) (node black 3 30 leaf (node red 4 40 leaf leaf));
  size = 3;
}

insert_range_run :
    insert_range RedBlack.post_insert red pairs (record { top = leaf; size = 0 })
    ≡ some four_red_black
unfolding numbers insert_range insert descend RedBlack.post_insert plug small_left_rotation
insert_range_run = refl

insert_range-IsShallow_example : IsShallow four_red_black.top 4
insert_range-IsShallow_example = insert_range-IsShallow pairs four_red_black insert_range_run

abbrev two_avl : Container ℕ ℕ ℕ
two_avl = record { top = node 2 5 50 leaf (node 1 8 80 leaf leaf); size = 1 }

-- Two rotations.
insert_avl_run :
    insert Avl.post_insert 0 two_avl 6 60
    ≡ some (record { top = node 2 6 60 (node 1 5 50 leaf leaf) (node 1 8 80 leaf leaf); size = 2 })
unfolding numbers insert descend Avl.post_insert Avl.rebalance Avl.recalculate_height
    big_left_rotation small_left_rotation small_right_rotation
insert_avl_run = refl

two-IsValid : IsValid (avl ℕ ℕ) two_avl.top
unfolding numbers
two-IsValid = record {
  form = (
    ground arith,
    (ground arith, ground arith),
    tt,
    (ground arith, (ground arith, ground arith), tt, tt),
  );
  sorted = ((refl, tt), (tt, tt));
}

insert_avl_example : Inserts (avl ℕ ℕ) two_avl 6 60
insert_avl_example = insert_avl two_avl 6 60 two-IsValid

abbrev three_splay : Container {0, 0, 0} Unit ℕ ℕ
three_splay = record {
  top = node tt 5 50 (node tt 3 30 (node tt 1 10 leaf leaf) leaf) leaf;
  size = 2;
}

three-Sorted : Sorted (in_order three_splay.top)
unfolding numbers
three-Sorted = ((refl, (refl, tt)), ((refl, tt), (tt, tt)))

insert_splay_example : Splays three_splay 2 20
insert_splay_example = insert_splay three_splay 2 20 three-Sorted

go_to_node_with_key-Finds_example :
    Finds 8 (in_order three_red_black.top) (go_to_node_with_key 8 three_red_black.top)
go_to_node_with_key-Finds_example =
    go_to_node_with_key-Finds 8 three_red_black.top three-IsValid.sorted

abbrev first_place : Place Color ℕ ℕ
first_place = at red 3 30 leaf leaf (left_of black 5 50 (node red 8 80 leaf leaf) root)

get_prev_infix-get_next_infix_example :
    (get_next_infix first_place ≡ none)
    ⊎ ((m : Place Color ℕ ℕ) × ((get_next_infix first_place ≡ some m)
          × (get_prev_infix m ≡ some first_place)))
get_prev_infix-get_next_infix_example = get_prev_infix-get_next_infix first_place

passed-pre_order_example :
    Prefix.passed 4 (Prefix.begin_prefix three_red_black.top)
    ≡ some ((5, 50) ∷ (3, 30) ∷ (8, 80) ∷ [])
passed-pre_order_example =
    passed-pre_order black 5 50 (node red 3 30 leaf leaf) (node red 8 80 leaf leaf) (ground arith)
