-- ===== src/Avl/Walk.antt =====
-- lib/avltree.c: iteration. From a position, `avl_tree_node_next` goes through the values on its right.
use libvarlink.Prelude.{
  ℕ, zero, suc, ◌≤◌, ◌≡◌, refl, sym, ap, ◌∙◌, List, [], ◌∷◌, ◌++◌, Option, none, some, arith,
  append-nil, append_assoc, length,
}
use libvarlink.Avl.{
  Tree, leaf, node, Frame, left_of, right_of, Position, AvlTree, leftmost, avl_tree_first,
  climb_right, avl_tree_node_next, collect, avl_tree_get_elements,
}
use libvarlink.Avl.InOrder.{to_list, after}

module _ {ℓ} {V : Type ℓ} where
  -- The values that an iteration to the right has still to give, from a position or from the end.
  abbrev pub remaining : Option (Position V) → List V
  remaining none = []
  remaining (some p) = p.value ∷ (to_list p.right ++ after p.parents)

  remaining-leftmost :
      (l : Tree V) (v : V) (h : ℕ) (r : Tree V) (ps : List (Frame V))
      → remaining (some (leftmost l v h r ps)) ≡ to_list l ++ v ∷ (to_list r ++ after ps)
  unfolding leftmost
  remaining-leftmost leaf v h r ps = refl
  remaining-leftmost (node ll lv lh lr) v h r ps =
      remaining-leftmost ll lv lh lr (left_of v h r ∷ ps) ∙ simp append_assoc

  remaining-climb_right :
      (t : Tree V) (ps : List (Frame V)) → remaining (climb_right t ps) ≡ after ps
  unfolding climb_right
  remaining-climb_right t [] = refl
  remaining-climb_right t (left_of v h r ∷ ps) = refl
  remaining-climb_right t (right_of l v h ∷ ps) = remaining-climb_right (node l v h t) ps

  next_split :
      (l : Tree V) (v : V) (h : ℕ) (r : Tree V) (ps : List (Frame V))
      → remaining
          (avl_tree_node_next (record { left = l; value = v; height = h; right = r; parents = ps }))
        ≡ to_list r ++ after ps
  unfolding avl_tree_node_next
  next_split l v h leaf ps = remaining-climb_right (node l v h leaf) ps
  next_split l v h (node rl rv rh rr) ps =
      remaining-leftmost rl rv rh rr (right_of l v h ∷ ps) ∙ simp append_assoc

  -- One step to the right drops exactly the value stood at, and nothing else.
  pub remaining-next :
      (p : Position V) → remaining (some p) ≡ p.value ∷ remaining (avl_tree_node_next p)
  remaining-next p =
      ap (λ vs. p.value ∷ vs) (sym (next_split p.left p.value p.height p.right p.parents))

  first_split :
      (t : Tree V) (n : ℕ)
      → remaining (avl_tree_first (record { root = t; n_elements = n })) ≡ to_list t
  unfolding avl_tree_first
  first_split leaf n = refl
  first_split (node l v h r) n = remaining-leftmost l v h r [] ∙ simp append-nil

  -- The loop stops after exactly as many rounds as there are values left.
  pub collect-remaining :
      (fuel : ℕ) (p : Option (Position V))
      → length (remaining p) ≤ fuel
      → collect fuel p ≡ some (remaining p)
  unfolding collect
  collect-remaining zero none h = refl
  collect-remaining (suc fuel) none h = refl
  collect-remaining zero (some p) h = absurd (omega arith)
  collect-remaining (suc fuel) (some p) h =
      let step = remaining-next p in
      rw (collect-remaining fuel (avl_tree_node_next p) (omega (arith, ap length step)), collect)
        (ap some (sym step))

  -- Where the count is right, the array of `n_elements` slots gets all values in order, and no write is past its end.
  pub get_elements-to_list :
      (tree : AvlTree V)
      → tree.n_elements ≡ length (to_list tree.root)
      → avl_tree_get_elements tree ≡ some (to_list tree.root)
  unfolding avl_tree_get_elements
  get_elements-to_list tree n =
      let first = first_split tree.root tree.n_elements in
      collect-remaining tree.n_elements (avl_tree_first tree) (omega (arith, ap length first))
      ∙ ap some first
