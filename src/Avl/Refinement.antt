-- ===== src/Avl/Refinement.antt =====
-- lib/avltree.c: the tree behaves as the sorted sequence of its values.
use libvarlink.Prelude.{
  ◌≡◌, refl, sym, ap, ◌∙◌, inl, inr, ◌∷◌, ◌++◌, Result, ok, err, ◌>>=◌, map_ok, Ordering-cases,
}
use libvarlink.KeyOrder.{KeyOrder}
use libvarlink.Avl.{
  AvlError, Tree, leaf, node, node_rebalance, update_height, avl_tree_insert_subtree,
}
use libvarlink.Avl.InOrder.{to_list, to_list-rebalanced}
use libvarlink.Avl.Spec.{
  IsSorted, IsSorted-split, insert_sorted, insert_sorted_left, insert_sorted_right,
  insert_sorted_there,
}

module _ {ℓ κ} {K : Type κ} {V : Type ℓ} ⦃o : KeyOrder K⦄ (key : V → K) where
  rebalanced_left :
      (x : Result AvlError (Tree V)) (w : V) (r : Tree V)
      → map_ok to_list (x >>= λ l'. ok (node_rebalance (update_height l' w r)))
        ≡ map_ok (λ l. l ++ w ∷ to_list r) (map_ok to_list x)
  rebalanced_left (err e) w r = refl
  rebalanced_left (ok t) w r = ap ok (to_list-rebalanced t w r)

  rebalanced_right :
      (x : Result AvlError (Tree V)) (l : Tree V) (w : V)
      → map_ok to_list (x >>= λ r'. ok (node_rebalance (update_height l w r')))
        ≡ map_ok (λ r. to_list l ++ w ∷ r) (map_ok to_list x)
  rebalanced_right (err e) l w = refl
  rebalanced_right (ok t) l w = ap ok (to_list-rebalanced l w t)

  pub to_list-insert_subtree :
      (k : K) (v : V) (t : Tree V)
      → IsSorted key (to_list t)
      → map_ok to_list (avl_tree_insert_subtree key k v t) ≡ insert_sorted key k v (to_list t)
  unfolding avl_tree_insert_subtree
  to_list-insert_subtree k v leaf s = refl
  to_list-insert_subtree k v (node l w h r) s =
      let parts = IsSorted-split key (to_list l) w (to_list r) s in
      elim (Ordering-cases (o.cmp k (key w))) [
        | inl e ↦
            rw (e, avl_tree_insert_subtree)
              (rebalanced_left _ w r
                ∙ ap (map_ok (λ t. t ++ w ∷ to_list r)) (to_list-insert_subtree k v l parts.0)
                ∙ sym (insert_sorted_left key k v (to_list l) w (to_list r) e))
        | inr (inl e) ↦
            rw (e, avl_tree_insert_subtree)
              (sym (insert_sorted_there key k v (to_list l) w (to_list r) parts.1 e))
        | inr (inr e) ↦
            rw (e, avl_tree_insert_subtree)
              (rebalanced_right _ l w
                ∙ ap (map_ok (λ t. to_list l ++ w ∷ t)) (to_list-insert_subtree k v r parts.3)
                ∙ sym (insert_sorted_right key k v (to_list l) w (to_list r) parts.1 e))
      ]
