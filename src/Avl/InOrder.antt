-- ===== src/Avl/InOrder.antt =====
-- lib/avltree.c: the values of a tree from left to right, and what rotations and climbs do to them.
use libvarlink.Prelude.{ℕ, ◌≡◌, refl, ◌∙◌, List, [], ◌∷◌, ◌++◌, arith, append-nil, append_assoc}
use libvarlink.Avl.{
  Tree, leaf, node, Frame, left_of, right_of, Position, node_rotate_left, node_rotate_right,
  node_rebalance, update_height, rebalance_from, unlink_from, rightmost,
}

module _ {ℓ} {V : Type ℓ} where
  abbrev pub to_list : Tree V → List V
  to_list leaf = []
  to_list (node l v h r) = to_list l ++ v ∷ to_list r

  -- What stands in the tree left and right of a subtree with these parents.
  abbrev pub before : List (Frame V) → List V
  before [] = []
  before (left_of v h r ∷ ps) = before ps
  before (right_of l v h ∷ ps) = before ps ++ to_list l ++ v ∷ []

  abbrev pub after : List (Frame V) → List V
  after [] = []
  after (left_of v h r ∷ ps) = v ∷ (to_list r ++ after ps)
  after (right_of l v h ∷ ps) = after ps

  pub to_list-node_rotate_left : (t : Tree V) → to_list (node_rotate_left t) ≡ to_list t
  unfolding node_rotate_left
  to_list-node_rotate_left (node t1 a ha (node t2 b hb t3)) = simp append_assoc
  to_list-node_rotate_left (node t1 a ha leaf) = refl
  to_list-node_rotate_left leaf = refl

  pub to_list-node_rotate_right : (t : Tree V) → to_list (node_rotate_right t) ≡ to_list t
  unfolding node_rotate_right
  to_list-node_rotate_right (node (node t1 b hb t2) a ha t3) = simp append_assoc
  to_list-node_rotate_right (node leaf a ha t3) = refl
  to_list-node_rotate_right leaf = refl

  to_list-node_rebalance : (t : Tree V) → to_list (node_rebalance t) ≡ to_list t
  unfolding node_rebalance
  to_list-node_rebalance leaf = refl
  to_list-node_rebalance (node l v h r) = ground (
    arith,
    to_list-node_rotate_left l,
    to_list-node_rotate_right r,
    to_list-node_rotate_left (node l v h r),
    to_list-node_rotate_right (node l v h r),
    to_list-node_rotate_right (node (node_rotate_left l) v h r),
    to_list-node_rotate_left (node l v h (node_rotate_right r)),
  )

  pub to_list-rebalanced :
      (l : Tree V) (v : V) (r : Tree V)
      → to_list (node_rebalance (update_height l v r)) ≡ to_list l ++ v ∷ to_list r
  unfolding update_height
  to_list-rebalanced l v r = to_list-node_rebalance (update_height l v r)

  pub to_list-rebalance_from :
      (ps : List (Frame V)) (l : Tree V) (v : V) (r : Tree V)
      → to_list (rebalance_from l v r ps) ≡ before ps ++ (to_list l ++ v ∷ (to_list r ++ after ps))
  unfolding rebalance_from
  to_list-rebalance_from [] l v r = to_list-rebalanced l v r ∙ simp append-nil
  to_list-rebalance_from (left_of w h s ∷ ps) l v r =
      to_list-rebalance_from ps (node_rebalance (update_height l v r)) w s
      ∙ simp (to_list-rebalanced, append_assoc)
  to_list-rebalance_from (right_of s w h ∷ ps) l v r =
      to_list-rebalance_from ps s w (node_rebalance (update_height l v r))
      ∙ simp (to_list-rebalanced, append_assoc)

  pub to_list-unlink_from : (ps : List (Frame V)) → to_list (unlink_from ps) ≡ before ps ++ after ps
  unfolding unlink_from
  to_list-unlink_from [] = refl
  to_list-unlink_from (left_of w h r ∷ ps) = to_list-rebalance_from ps leaf w r
  to_list-unlink_from (right_of l w h ∷ ps) = to_list-rebalance_from ps l w leaf ∙ simp append_assoc

  -- The whole tree, seen from a position.
  abbrev pub around : Position V → List V
  around p = before p.parents ++ (to_list p.left ++ p.value ∷ (to_list p.right ++ after p.parents))

  pub before-rightmost :
      (l : Tree V) (v : V) (h : ℕ) (r : Tree V) (ps : List (Frame V))
      → before (rightmost l v h r ps).parents
          ++ (to_list (rightmost l v h r ps).left ++ (rightmost l v h r ps).value ∷ [])
        ≡ before ps ++ (to_list l ++ v ∷ to_list r)
  unfolding rightmost
  before-rightmost l v h leaf ps = refl
  before-rightmost l v h (node rl rv rh rr) ps =
      before-rightmost rl rv rh rr (right_of l v h ∷ ps) ∙ simp append_assoc

  pub after-rightmost :
      (l : Tree V) (v : V) (h : ℕ) (r : Tree V) (ps : List (Frame V))
      → ((rightmost l v h r ps).right ≡ leaf) × (after (rightmost l v h r ps).parents ≡ after ps)
  unfolding rightmost
  after-rightmost l v h leaf ps = (refl, refl)
  after-rightmost l v h (node rl rv rh rr) ps = after-rightmost rl rv rh rr (right_of l v h ∷ ps)

  -- The parents passed on do not change the node that is reached.
  pub value-rightmost :
      (l : Tree V) (v : V) (h : ℕ) (r : Tree V) (ps qs : List (Frame V))
      → (rightmost l v h r ps).value ≡ (rightmost l v h r qs).value
  unfolding rightmost
  value-rightmost l v h leaf ps qs = refl
  value-rightmost l v h (node rl rv rh rr) ps qs =
      value-rightmost rl rv rh rr (right_of l v h ∷ ps) (right_of l v h ∷ qs)
