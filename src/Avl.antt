-- ===== src/Avl.antt =====
-- lib/avltree.c: the self-balancing search tree behind objects, types, interfaces and services.
--
-- A subtree is a `Tree` (NULL is `leaf`). A node pointer together with its chain of `parent`
-- pointers is a `Position`: the subtree at the node, and the frames from its parent up to the
-- root. So `node->parent` is the head of the frames, and a write to a child is seen from the root.
-- Allocation succeeds, and `free` leaves no trace. `unsigned long` counts and heights do not wrap:
-- they are bounded by the number of nodes in memory.
mod InOrder
mod Balance
pub mod Spec
mod Insert
mod Find
mod Remove
pub mod Sorted
mod Refinement
pub mod Valid
pub mod MapLaws
mod Walk
mod Tests
use Prim.Native.Nat.{Ordering}
use Prim.Native.Nat.Ordering.{lt, eq, gt}
use libvarlink.Prelude.{
  ℕ, zero, suc, ◌+◌, ◌-◌, List, [], ◌∷◌, ◌++◌, Option, none, some, max, if◌then◌else◌, Result, ok,
  err, ◌>>=◌,
}
use libvarlink.Prelude.Int.{ℤ, pos, negsuc, sub_ℕ, ltb_ℤ, leb_ℤ}
use libvarlink.KeyOrder.{KeyOrder}

-- AVL_ERROR_*
pub data AvlError : Type 0 where
  panic key_exists unknown_key : AvlError

-- `struct AVLTreeNode`: left, value, height, right.
pub data Tree {ℓ} (V : Type ℓ) : Type ℓ where
  leaf : Tree V
  node : Tree V → V → ℕ → Tree V → Tree V

-- A parent, as its child sees it: the child is its left one, or its right one.
pub data Frame {ℓ} (V : Type ℓ) : Type ℓ where
  left_of : V → ℕ → Tree V → Frame V
  right_of : Tree V → V → ℕ → Frame V

-- A node that is not NULL, and its parents, innermost first.
pub record Position {ℓ} (V : Type ℓ) : Type ℓ where
  pub left : Tree V
  pub value : V
  pub height : ℕ
  pub right : Tree V
  pub parents : List (Frame V)

-- `struct AVLTree`; the compare and free functions are arguments of the operations.
pub record AvlTree {ℓ} (V : Type ℓ) : Type ℓ where
  pub root : Tree V
  pub n_elements : ℕ

module _ {ℓ} {V : Type ℓ} where
  -- `node ? node->height : 0`
  abbrev pub height : Tree V → ℕ
  height leaf = 0
  height (node l v h r) = h

  -- A node without the child that is rotated up is never passed: C would read through NULL.
  unfoldable pub node_rotate_left : Tree V → Tree V
  node_rotate_left (node t1 a _ (node t2 b _ t3)) =
      let ha = 1 + max (height t1) (height t2) in
      node (node t1 a ha t2) b (1 + max ha (height t3)) t3
  node_rotate_left t = t

  unfoldable pub node_rotate_right : Tree V → Tree V
  node_rotate_right (node (node t1 b _ t2) a _ t3) =
      let ha = 1 + max (height t2) (height t3) in
      node t1 b (1 + max (height t1) ha) (node t2 a ha t3)
  node_rotate_right t = t

  unfoldable pub node_get_balance : Tree V → ℤ
  node_get_balance leaf = pos 0
  node_get_balance (node l v h r) = sub_ℕ (height r) (height l)

  unfoldable pub node_rebalance : Tree V → Tree V
  node_rebalance leaf = leaf
  node_rebalance (node l v h r) =
      let balance = node_get_balance (node l v h r) in
      if ltb_ℤ balance (negsuc 0)
      then (if leb_ℤ (node_get_balance l) (pos 0)
          then node_rotate_right (node l v h r)
          else node_rotate_right (node (node_rotate_left l) v h r))
      else if ltb_ℤ (pos 1) balance
      then (if leb_ℤ (pos 0) (node_get_balance r)
          then node_rotate_left (node l v h r)
          else node_rotate_left (node l v h (node_rotate_right r)))
      else node l v h r

  -- The height update in front of each rebalancing.
  unfoldable pub update_height : Tree V → V → Tree V → Tree V
  update_height l v r = node l v (1 + max (height l) (height r)) r

  unfoldable pub avl_tree_new : AvlTree V
  avl_tree_new = record { root = leaf; n_elements = 0 }

  -- `while (node->left) node = node->left`
  unfoldable pub leftmost : Tree V → V → ℕ → Tree V → List (Frame V) → Position V
  leftmost leaf v h r ps = record { left = leaf; value = v; height = h; right = r; parents = ps }
  leftmost (node ll lv lh lr) v h r ps = leftmost ll lv lh lr (left_of v h r ∷ ps)

  unfoldable pub rightmost : Tree V → V → ℕ → Tree V → List (Frame V) → Position V
  rightmost l v h leaf ps = record { left = l; value = v; height = h; right = leaf; parents = ps }
  rightmost l v h (node rl rv rh rr) ps = rightmost rl rv rh rr (right_of l v h ∷ ps)

  unfoldable pub avl_tree_first : AvlTree V → Option (Position V)
  avl_tree_first tree = elim tree.root [ leaf ↦ none | node l v h r ↦ some (leftmost l v h r []) ]

  unfoldable pub avl_tree_last : AvlTree V → Option (Position V)
  avl_tree_last tree = elim tree.root [ leaf ↦ none | node l v h r ↦ some (rightmost l v h r []) ]

  -- `while ((next = node->parent) && next->right == node) node = next`
  unfoldable pub climb_right : Tree V → List (Frame V) → Option (Position V)
  climb_right t [] = none
  climb_right t (left_of v h r ∷ ps) =
      some (record { left = t; value = v; height = h; right = r; parents = ps })
  climb_right t (right_of l v h ∷ ps) = climb_right (node l v h t) ps

  unfoldable pub climb_left : Tree V → List (Frame V) → Option (Position V)
  climb_left t [] = none
  climb_left t (right_of l v h ∷ ps) =
      some (record { left = l; value = v; height = h; right = t; parents = ps })
  climb_left t (left_of v h r ∷ ps) = climb_left (node t v h r) ps

  unfoldable pub avl_tree_node_next : Position V → Option (Position V)
  avl_tree_node_next p = elim p.right [
    | leaf ↦ climb_right (node p.left p.value p.height p.right) p.parents
    | node rl rv rh rr ↦ some (leftmost rl rv rh rr (right_of p.left p.value p.height ∷ p.parents))
  ]

  unfoldable pub avl_tree_node_previous : Position V → Option (Position V)
  avl_tree_node_previous p = elim p.left [
    | leaf ↦ climb_left (node p.left p.value p.height p.right) p.parents
    | node ll lv lh lr ↦ some (rightmost ll lv lh lr (left_of p.value p.height p.right ∷ p.parents))
  ]

  -- The loop of `avl_tree_get_elements`, on fuel.
  unfoldable pub collect : ℕ → Option (Position V) → Option (List V)
  collect fuel none = some []
  collect zero (some p) = none
  collect (suc fuel) (some p) = elim (collect fuel (avl_tree_node_next p)) [
    | none ↦ none
    | some vs ↦ some (p.value ∷ vs)
  ]

  -- `n_elements + 1` slots are allocated, the last one for the final NULL.
  unfoldable pub avl_tree_get_elements : AvlTree V → Option (List V)
  avl_tree_get_elements tree = collect tree.n_elements (avl_tree_first tree)

  -- Up the parents: recompute the height, rebalance, stop at the root.
  unfoldable pub rebalance_from : Tree V → V → Tree V → List (Frame V) → Tree V
  rebalance_from l v r [] = node_rebalance (update_height l v r)
  rebalance_from l v r (left_of w h s ∷ ps) =
      rebalance_from (node_rebalance (update_height l v r)) w s ps
  rebalance_from l v r (right_of s w h ∷ ps) =
      rebalance_from s w (node_rebalance (update_height l v r)) ps

  -- The node is unlinked from its parent, and the parent is `changed`. At the root nothing is.
  unfoldable pub unlink_from : List (Frame V) → Tree V
  unlink_from [] = leaf
  unlink_from (left_of w h r ∷ ps) = rebalance_from leaf w r ps
  unlink_from (right_of l w h ∷ ps) = rebalance_from l w leaf ps

  -- The last node below `node->left`, once its value has been moved into the node.
  unfoldable pub predecessor : Tree V → V → ℕ → Tree V → Position V → Position V
  predecessor ll lv lh lr p =
      let value = (rightmost ll lv lh lr []).value in
      rightmost ll lv lh lr (left_of value p.height p.right ∷ p.parents)

  -- `last` leaves the tree: its left child's value moves into it, or it is unlinked.
  unfoldable pub drop_last : Position V → Tree V
  drop_last last = elim last.left [
    | leaf ↦ unlink_from last.parents
    | node cl cv ch cr ↦ rebalance_from leaf cv last.right last.parents
  ]

  -- The body of `avl_tree_remove` on the node found.
  unfoldable pub take_out : Position V → Tree V
  take_out p = elim p.left [
    | leaf ↦ elim p.right [
      | leaf ↦ unlink_from p.parents
      | node rl rv rh rr ↦ rebalance_from leaf rv leaf p.parents
    ]
    | node ll lv lh lr ↦ drop_last (predecessor ll lv lh lr p)
  ]

module _ {ℓ κ} {K : Type κ} {V : Type ℓ} ⦃o : KeyOrder K⦄ (key : V → K) where
  -- `tree->compare(key, node->value)`
  abbrev pub compare_key : K → V → Ordering
  compare_key k v = o.cmp k (key v)

  unfoldable pub avl_tree_insert_subtree : K → V → Tree V → Result AvlError (Tree V)
  avl_tree_insert_subtree k v leaf = ok (node leaf v 1 leaf)
  avl_tree_insert_subtree k v (node l w h r) = elim (compare_key k w) [
    | eq ↦ err key_exists
    | lt ↦ do l' ← avl_tree_insert_subtree k v l; ok (node_rebalance (update_height l' w r))
    | gt ↦ do r' ← avl_tree_insert_subtree k v r; ok (node_rebalance (update_height l w r'))
  ]

  unfoldable pub avl_tree_insert : AvlTree V → K → V → Result AvlError (AvlTree V)
  avl_tree_insert tree k v = do
    root ← avl_tree_insert_subtree k v tree.root
    ok (record { root = root; n_elements = tree.n_elements + 1 })

  -- The loop of `avl_tree_find_node`, from a subtree and its parents.
  unfoldable pub find_from : K → Tree V → List (Frame V) → Option (Position V)
  find_from k leaf ps = none
  find_from k (node l v h r) ps = elim (compare_key k v) [
    | eq ↦ some (record { left = l; value = v; height = h; right = r; parents = ps })
    | lt ↦ find_from k l (left_of v h r ∷ ps)
    | gt ↦ find_from k r (right_of l v h ∷ ps)
  ]

  unfoldable pub avl_tree_find_node : AvlTree V → K → Option (Position V)
  avl_tree_find_node tree k = find_from k tree.root []

  unfoldable pub avl_tree_find : AvlTree V → K → Option V
  avl_tree_find tree k = elim (avl_tree_find_node tree k) [ none ↦ none | some p ↦ some p.value ]

  unfoldable pub avl_tree_remove : AvlTree V → K → Result AvlError (AvlTree V)
  avl_tree_remove tree k = elim (avl_tree_find_node tree k) [
    | none ↦ err unknown_key
    | some p ↦ ok (record { root = take_out p; n_elements = tree.n_elements - 1 })
  ]
