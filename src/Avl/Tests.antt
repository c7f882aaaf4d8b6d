-- ===== src/Avl/Tests.antt =====
-- lib/avltree.c on concrete trees, and the theorems applied to them.
use libvarlink.Prelude.{
  ℕ, ◌≡◌, refl, [], ◌∷◌, none, some, Result, ok, err, ◌>>=◌, OnOk, map_ok, arith,
}
use libvarlink.KeyOrder.{avl_tree_ptr_compare, ptr_order}
use libvarlink.Avl.{
  AvlError, key_exists, AvlTree, leaf, node, node_rotate_left, node_rotate_right, node_get_balance,
  node_rebalance, update_height, avl_tree_new, avl_tree_insert_subtree, avl_tree_insert, find_from,
  avl_tree_find_node, avl_tree_find, avl_tree_remove, take_out, predecessor, drop_last, unlink_from,
  rebalance_from, rightmost, leftmost, climb_right, avl_tree_first, avl_tree_node_next, collect,
  avl_tree_get_elements,
}
use libvarlink.Avl.Spec.{insert_sorted, remove_sorted, find_sorted}
use libvarlink.Avl.Sorted.{changed}
use libvarlink.Avl.Valid.{
  values, IsValid, insert-IsValid, values-insert, find-values, values-remove, remove-IsValid,
}
use libvarlink.Avl.MapLaws.{
  find-insert, find-remove, InsertOutcome, RemoveOutcome, insert-outcome, remove-outcome,
}
use libvarlink.Avl.Walk.{get_elements-to_list}

-- The keys are the values themselves.
abbrev self : ℕ → ℕ
self v = v

add : ℕ → AvlTree ℕ → Result AvlError (AvlTree ℕ)
unfolding avl_tree_insert avl_tree_insert_subtree node_rebalance node_get_balance node_rotate_left
    node_rotate_right update_height avl_tree_ptr_compare
add v tree = avl_tree_insert self tree v v

del : ℕ → AvlTree ℕ → Result AvlError (AvlTree ℕ)
unfolding avl_tree_remove avl_tree_find_node find_from take_out predecessor drop_last unlink_from
    rebalance_from rightmost node_rebalance node_get_balance node_rotate_left node_rotate_right
    update_height avl_tree_ptr_compare
del k tree = avl_tree_remove self tree k

-- 4 2 6 1 3 5, balanced.
abbrev six : AvlTree ℕ
six = record {
  root =
      node (node (node leaf 1 1 leaf) 2 2 (node leaf 3 1 leaf)) 4 3
        (node (node leaf 5 1 leaf) 6 2 leaf);
  n_elements = 6;
}

-- Ascending insertion is rotated into balance.
ascending :
    (do a ← add 1 avl_tree_new; b ← add 2 a; c ← add 3 b; d ← add 4 c; add 5 d)
    ≡ ok (record {
      root = node (node leaf 1 1 leaf) 2 3 (node (node leaf 3 1 leaf) 4 2 (node leaf 5 1 leaf));
      n_elements = 5;
    })
unfolding add avl_tree_new
ascending = refl

-- Removing the root lifts its predecessor.
remove_root :
    del 4 six
    ≡ ok (record {
      root = node (node (node leaf 1 1 leaf) 2 2 leaf) 3 3 (node (node leaf 5 1 leaf) 6 2 leaf);
      n_elements = 5;
    })
unfolding del
remove_root = refl

duplicate : add 5 six ≡ err key_exists
unfolding add
duplicate = refl

walked : avl_tree_get_elements six ≡ some (1 ∷ 2 ∷ 3 ∷ 4 ∷ 5 ∷ 6 ∷ [])
unfolding avl_tree_get_elements collect avl_tree_first avl_tree_node_next leftmost climb_right
walked = refl

six-IsValid : IsValid self six
unfolding avl_tree_ptr_compare
six-IsValid = record { balanced = omega arith; sorted = ground arith; counted = refl }

values-insert_example :
    map_ok (values self) (avl_tree_insert self six 7 7) ≡ insert_sorted self 7 7 (values self six)
values-insert_example = values-insert self six 7 7 six-IsValid

insert-IsValid_example : OnOk (IsValid self) (avl_tree_insert self six 7 7)
insert-IsValid_example = insert-IsValid self six 7 7 refl six-IsValid

find-values_example : avl_tree_find self six 5 ≡ find_sorted self 5 (values self six)
find-values_example = find-values self six 5 six-IsValid

values-remove_example :
    map_ok (values self) (avl_tree_remove self six 4) ≡ remove_sorted self 4 (values self six)
values-remove_example = values-remove self six 4 six-IsValid

remove-IsValid_example : OnOk (IsValid self) (avl_tree_remove self six 4)
remove-IsValid_example = remove-IsValid self six 4 six-IsValid

find-insert_example :
    OnOk
      (λ t. avl_tree_find self t 3 ≡ changed self 7 (some 7) 3 (avl_tree_find self six 3))
      (avl_tree_insert self six 7 7)
find-insert_example = find-insert self six 7 7 3 refl six-IsValid

find-remove_example :
    OnOk
      (λ t. avl_tree_find self t 3 ≡ changed self 4 none 3 (avl_tree_find self six 3))
      (avl_tree_remove self six 4)
find-remove_example = find-remove self six 4 3 six-IsValid

insert-outcome_example : InsertOutcome (avl_tree_find self six 5) (avl_tree_insert self six 5 5)
insert-outcome_example = insert-outcome self six 5 5 six-IsValid

remove-outcome_example : RemoveOutcome (avl_tree_find self six 9) (avl_tree_remove self six 9)
remove-outcome_example = remove-outcome self six 9 six-IsValid

get_elements-to_list_example : avl_tree_get_elements six ≡ some (1 ∷ 2 ∷ 3 ∷ 4 ∷ 5 ∷ 6 ∷ [])
get_elements-to_list_example = get_elements-to_list six refl
