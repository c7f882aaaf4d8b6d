-- ===== src/Avl/Remove.antt =====
-- lib/avltree.c: `take_out`, the body of `avl_tree_remove`, keeps the balance and takes one value out.
use libvarlink.Prelude.{ℕ, ◌≤◌, ◌≡◌, refl, ap, ◌∙◌, List, [], ◌∷◌, ◌++◌, arith, append_assoc}
use libvarlink.Avl.{
  Tree, leaf, node, Frame, left_of, right_of, Position, height, rebalance_from, unlink_from,
  rightmost, predecessor, drop_last, take_out,
}
use libvarlink.Avl.InOrder.{
  to_list, before, after, to_list-rebalance_from, to_list-unlink_from, before-rightmost,
  after-rightmost, value-rightmost,
}
use libvarlink.Avl.Balance.{
  IsBalanced, Fits, climb_height, rebalance_lem, rebalance_from-IsBalanced,
}
use libvarlink.Avl.Find.{IsBalancedAt, rightmost-IsBalancedAt}

module _ {ℓ} {V : Type ℓ} where
  -- A balanced tree of height at most 0, and the subtrees of one of height at most 1, are empty.
  low_is_leaf : (t : Tree V) → IsBalanced t → height t ≤ 0 → t ≡ leaf
  low_is_leaf leaf b h = refl
  low_is_leaf (node l v n r) b h = absurd (omega arith)

  height_pos : (l : Tree V) (v : V) (h : ℕ) (r : Tree V) → IsBalanced (node l v h r) → 1 ≤ h
  height_pos l v h r b = omega arith

  -- A subtree of height 1 is cut off.
  unlink_from-IsBalanced : (ps : List (Frame V)) → Fits ps 1 → IsBalanced (unlink_from ps)
  unfolding unlink_from
  unlink_from-IsBalanced [] f = tt
  unlink_from-IsBalanced (left_of w h r ∷ ps) f =
      let up = rebalance_lem leaf w r tt f.0 (omega arith) (omega arith) in
      let fits =
        climb_height 0 1 (height r) h _ up.0.1 up.0.2 up.1 f.1 f.2 f.3 (omega arith)
          (omega arith) in
      rebalance_from-IsBalanced ps h leaf w r f.4 tt f.0 (omega arith) (omega arith) fits.0 fits.1
  unlink_from-IsBalanced (right_of l w h ∷ ps) f =
      let up = rebalance_lem l w leaf f.0 tt (omega arith) (omega arith) in
      let fits =
        climb_height 0 1 (height l) h _ (omega (arith, up.0.1)) (omega (arith, up.0.2))
          (λ e. up.1 (e.1, e.0) ∙ omega arith) (omega (arith, f.1)) f.2 f.3 (omega arith)
          (omega arith) in
      rebalance_from-IsBalanced ps h l w leaf f.4 f.0 tt (omega arith) (omega arith) fits.0 fits.1

  -- A node with one child of height 1 takes over the child's value.
  single-IsBalanced :
      (ps : List (Frame V)) (n : ℕ) (v : V)
      → n ≡ 2
      → Fits ps n
      → IsBalanced (rebalance_from leaf v leaf ps)
  single-IsBalanced ps n v e f =
      let up = rebalance_lem leaf v leaf tt tt (omega arith) (omega arith) in
      let one = up.1 (omega arith) in
      rebalance_from-IsBalanced ps n leaf v leaf f tt tt (omega arith) (omega arith)
        (omega (arith, one)) (omega (arith, one))

  drop_last-IsBalanced :
      (l : Tree V) (v : V) (h : ℕ) (r : Tree V) (ps : List (Frame V))
      → r ≡ leaf
      → IsBalanced (node l v h r)
      → Fits ps h
      → IsBalanced (drop_last (record { left = l; value = v; height = h; right = r; parents = ps }))
  unfolding drop_last
  drop_last-IsBalanced leaf v h r ps e b f =
      let one : h ≡ 1 = omega (arith, ap height e) in unlink_from-IsBalanced ps (rw one at f)
  drop_last-IsBalanced (node cl cv ch cr) v h r ps e b f =
      rw e (single-IsBalanced ps h cv (omega (arith, ap height e, height_pos cl cv ch cr b.0)) f)

  take_out_low :
      (v : V) (h : ℕ) (r : Tree V) (ps : List (Frame V))
      → IsBalanced (node leaf v h r)
      → Fits ps h
      → IsBalanced
          (take_out (record { left = leaf; value = v; height = h; right = r; parents = ps }))
  unfolding take_out
  take_out_low v h leaf ps b f =
      let one : h ≡ 1 = omega arith in unlink_from-IsBalanced ps (rw one at f)
  take_out_low v h (node rl rv rh rr) ps b f =
      single-IsBalanced ps h rv (omega (arith, height_pos rl rv rh rr b.1)) f

  take_out_high :
      (ll : Tree V) (lv : V) (lh : ℕ) (lr : Tree V) (v : V) (h : ℕ) (r : Tree V)
      (ps : List (Frame V))
      → IsBalanced (node (node ll lv lh lr) v h r)
      → Fits ps h
      → IsBalanced (
          take_out
            (record { left = node ll lv lh lr; value = v; height = h; right = r; parents = ps }))
  unfolding take_out predecessor
  take_out_high ll lv lh lr v h r ps b f =
      let up = left_of (rightmost ll lv lh lr []).value h r ∷ ps in
      let at = rightmost-IsBalancedAt ll lv lh lr up b.0 (b.1, b.2, b.3, b.4, f) in
      drop_last-IsBalanced _ _ _ _ _ (after-rightmost ll lv lh lr up).0 at.0 at.1

  take_out_split :
      (l : Tree V) (v : V) (h : ℕ) (r : Tree V) (ps : List (Frame V))
      → IsBalanced (node l v h r)
      → Fits ps h
      → IsBalanced (take_out (record { left = l; value = v; height = h; right = r; parents = ps }))
  take_out_split leaf v h r ps b f = take_out_low v h r ps b f
  take_out_split (node ll lv lh lr) v h r ps b f = take_out_high ll lv lh lr v h r ps b f

  pub take_out-IsBalanced : (p : Position V) → IsBalancedAt p → IsBalanced (take_out p)
  take_out-IsBalanced p b = take_out_split p.left p.value p.height p.right p.parents b.0 b.1

  -- A node of height at most 1 has no children.
  childless :
      (l : Tree V) (v : V) (h : ℕ) (r : Tree V)
      → IsBalanced (node l v h r)
      → h ≤ 1
      → (l ≡ leaf) × (r ≡ leaf)
  childless l v h r b e = (low_is_leaf l b.0 (omega arith), low_is_leaf r b.1 (omega arith))

  to_list-drop_last :
      (l : Tree V) (v : V) (h : ℕ) (r : Tree V) (ps : List (Frame V))
      → r ≡ leaf
      → IsBalanced (node l v h r)
      → to_list (drop_last (record { left = l; value = v; height = h; right = r; parents = ps }))
        ≡ before ps ++ (to_list l ++ after ps)
  unfolding drop_last
  to_list-drop_last leaf v h r ps e b = to_list-unlink_from ps
  to_list-drop_last (node cl cv ch cr) v h r ps e b =
      let none = childless cl cv ch cr b.0 (omega (arith, ap height e)) in
      rw (e, none.0, none.1) (to_list-rebalance_from ps leaf cv leaf)

  to_list-take_out_low :
      (v : V) (h : ℕ) (r : Tree V) (ps : List (Frame V))
      → IsBalanced (node leaf v h r)
      → to_list (take_out (record { left = leaf; value = v; height = h; right = r; parents = ps }))
        ≡ before ps ++ (to_list r ++ after ps)
  unfolding take_out
  to_list-take_out_low v h leaf ps b = to_list-unlink_from ps
  to_list-take_out_low v h (node rl rv rh rr) ps b =
      let none = childless rl rv rh rr b.1 (omega arith) in
      rw (none.0, none.1) (to_list-rebalance_from ps leaf rv leaf)

  -- The value that moved up stands where the last node was.
  move_up :
      (b l rest : List V) {x y : V} {whole : List V}
      → x ≡ y
      → b ++ (l ++ x ∷ []) ≡ whole
      → b ++ (l ++ y ∷ rest) ≡ whole ++ rest
  move_up b l rest e w = rw (← w, ← e) (simp append_assoc)

  to_list-take_out_high :
      (ll : Tree V) (lv : V) (lh : ℕ) (lr : Tree V) (v : V) (h : ℕ) (r : Tree V)
      (ps : List (Frame V))
      → IsBalanced (node (node ll lv lh lr) v h r)
      → Fits ps h
      → to_list (
          take_out
            (record { left = node ll lv lh lr; value = v; height = h; right = r; parents = ps }))
        ≡ before ps ++ (to_list (node ll lv lh lr) ++ (to_list r ++ after ps))
  unfolding take_out predecessor
  to_list-take_out_high ll lv lh lr v h r ps b f =
      let value = (rightmost ll lv lh lr []).value in
      let up = left_of value h r ∷ ps in
      let at = rightmost-IsBalancedAt ll lv lh lr up b.0 (b.1, b.2, b.3, b.4, f) in
      let last = rightmost ll lv lh lr up in
      let ends = after-rightmost ll lv lh lr up in
      to_list-drop_last last.left last.value last.height last.right last.parents ends.0 at.0
      ∙ ap (λ vs. before last.parents ++ (to_list last.left ++ vs)) ends.1
      ∙ move_up (before last.parents) (to_list last.left) _ (value-rightmost ll lv lh lr up [])
          (before-rightmost ll lv lh lr up)
      ∙ simp append_assoc

  to_list-take_out_split :
      (l : Tree V) (v : V) (h : ℕ) (r : Tree V) (ps : List (Frame V))
      → IsBalanced (node l v h r)
      → Fits ps h
      → to_list (take_out (record { left = l; value = v; height = h; right = r; parents = ps }))
        ≡ before ps ++ (to_list l ++ (to_list r ++ after ps))
  to_list-take_out_split leaf v h r ps b f = to_list-take_out_low v h r ps b
  to_list-take_out_split (node ll lv lh lr) v h r ps b f =
      to_list-take_out_high ll lv lh lr v h r ps b f

  -- Exactly the value at the position is gone.
  pub to_list-take_out :
      (p : Position V)
      → IsBalancedAt p
      → to_list (take_out p)
        ≡ before p.parents ++ (to_list p.left ++ (to_list p.right ++ after p.parents))
  to_list-take_out p b = to_list-take_out_split p.left p.value p.height p.right p.parents b.0 b.1
