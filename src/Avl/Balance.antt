-- ===== src/Avl/Balance.antt =====
-- lib/avltree.c: stored heights are right and siblings differ by at most one, kept by each rebalancing.
use libvarlink.Prelude.{
  ℕ, ◌+◌, ◌≡◌, ◌≤◌, ◌<◌, ◌∙◌, ◌⊎◌, inl, inr, List, [], ◌∷◌, max, arith, ltb, leb, lt→ltb, le→ltb,
  leb→le, not_leb, Bool-cases,
}
use libvarlink.Prelude.Int.{pos, negsuc, ltb_ℤ, leb_ℤ}
use libvarlink.Avl.{
  Tree, leaf, node, Frame, left_of, right_of, height, node_rotate_left, node_rotate_right,
  node_get_balance, node_rebalance, update_height, rebalance_from,
}

-- The subtree of height `n` became one of height `t`; `s` is its sibling, `h` was the parent's
-- height and `u` is the new one.
pub climb_height :
    (t n s h u : ℕ)
    → max t s ≤ u
    → u ≤ 1 + max t s
    → ((t ≤ s + 1) × (s ≤ t + 1) → u ≡ 1 + max t s)
    → h ≡ 1 + max n s
    → n ≤ s + 1
    → s ≤ n + 1
    → t ≤ n
    → n ≤ t + 1
    → (u ≤ h) × (h ≤ u + 1)
climb_height t n s h u a b c d e f lo hi = grind arith

module _ {ℓ} {V : Type ℓ} where
  abbrev pub IsBalanced : Tree V → Type 0
  IsBalanced leaf = Unit
  IsBalanced (node l v h r) =
      IsBalanced l
      × IsBalanced r
      × (h ≡ 1 + max (height l) (height r))
      × (height l ≤ height r + 1)
      × (height r ≤ height l + 1)

  -- A node over balanced children that differ by at most two is rebalanced; the height is that of
  -- the higher child or one more, and one more where nothing had to be rotated.
  abbrev pub Rebalanced : Tree V → Tree V → Tree V → Type 0
  Rebalanced l r t =
      IsBalanced t
      × (max (height l) (height r) ≤ height t)
      × (height t ≤ 1 + max (height l) (height r))

  -- Single rotations.
  rotate_right_lem :
      (ll : Tree V) (lv : V) (lh : ℕ) (lr : Tree V) (v : V) (h : ℕ) (r : Tree V)
      → IsBalanced (node ll lv lh lr)
      → IsBalanced r
      → lh ≡ height r + 2
      → height lr ≤ height ll
      → Rebalanced (node ll lv lh lr) r (node_rotate_right (node (node ll lv lh lr) v h r))
  unfolding node_rotate_right
  rotate_right_lem ll lv lh lr v h r a b e f = ground arith

  rotate_left_lem :
      (l : Tree V) (v : V) (h : ℕ) (rl : Tree V) (rv : V) (rh : ℕ) (rr : Tree V)
      → IsBalanced l
      → IsBalanced (node rl rv rh rr)
      → rh ≡ height l + 2
      → height rl ≤ height rr
      → Rebalanced l (node rl rv rh rr) (node_rotate_left (node l v h (node rl rv rh rr)))
  unfolding node_rotate_left
  rotate_left_lem l v h rl rv rh rr a b e f = ground arith

  -- Double rotations.
  rotate_left_right_lem :
      (ll : Tree V) (lv : V) (lh : ℕ) (lr : Tree V) (v : V) (h : ℕ) (r : Tree V)
      → IsBalanced (node ll lv lh lr)
      → IsBalanced r
      → lh ≡ height r + 2
      → height ll < height lr
      → Rebalanced
          (node ll lv lh lr)
          r
          (node_rotate_right (node (node_rotate_left (node ll lv lh lr)) v h r))
  unfolding node_rotate_right node_rotate_left
  rotate_left_right_lem ll lv lh leaf v h r a b e f = absurd (omega arith)
  rotate_left_right_lem ll lv lh (node ml mv mh mr) v h r a b e f = ground arith

  rotate_right_left_lem :
      (l : Tree V) (v : V) (h : ℕ) (rl : Tree V) (rv : V) (rh : ℕ) (rr : Tree V)
      → IsBalanced l
      → IsBalanced (node rl rv rh rr)
      → rh ≡ height l + 2
      → height rr < height rl
      → Rebalanced l
          (node rl rv rh rr)
          (node_rotate_left (node l v h (node_rotate_right (node rl rv rh rr))))
  unfolding node_rotate_right node_rotate_left
  rotate_right_left_lem l v h leaf rv rh rr a b e f = absurd (omega arith)
  rotate_right_left_lem l v h (node ml mv mh mr) rv rh rr a b e f = ground arith

  -- The tests of `node_rebalance`, read as comparisons of heights.
  left_heavy :
      (l : Tree V) (v : V) (h : ℕ) (r : Tree V)
      → ltb_ℤ (node_get_balance (node l v h r)) (negsuc 0) ≡ ltb (height r + 1) (height l)
  unfolding node_get_balance
  left_heavy l v h r = ground arith

  right_heavy :
      (l : Tree V) (v : V) (h : ℕ) (r : Tree V)
      → ltb_ℤ (pos 1) (node_get_balance (node l v h r)) ≡ ltb (height l + 1) (height r)
  unfolding node_get_balance
  right_heavy l v h r = ground arith

  leans_left :
      (l : Tree V) (v : V) (h : ℕ) (r : Tree V)
      → leb_ℤ (node_get_balance (node l v h r)) (pos 0) ≡ leb (height r) (height l)
  unfolding node_get_balance
  leans_left l v h r = ground arith

  leans_right :
      (l : Tree V) (v : V) (h : ℕ) (r : Tree V)
      → leb_ℤ (pos 0) (node_get_balance (node l v h r)) ≡ leb (height l) (height r)
  unfolding node_get_balance
  leans_right l v h r = ground arith

  rebalance_left_high :
      (l : Tree V) (v : V) (h : ℕ) (r : Tree V)
      → IsBalanced l
      → IsBalanced r
      → height l ≡ height r + 2
      → Rebalanced l r (node_rebalance (node l v h r))
  unfolding node_rebalance
  rebalance_left_high leaf v h r a b e = absurd (omega arith)
  rebalance_left_high (node ll lv lh lr) v h r a b e =
      let test = left_heavy (node ll lv lh lr) v h r ∙ lt→ltb _ _ (omega arith) in
      elim (Bool-cases (leb (height lr) (height ll))) [
        | inl t ↦
            rw (test, leans_left ll lv lh lr ∙ t)
              (rotate_right_lem ll lv lh lr v h r a b e (leb→le _ _ t))
        | inr t ↦
            rw (test, leans_left ll lv lh lr ∙ t)
              (rotate_left_right_lem ll lv lh lr v h r a b e (not_leb _ _ t))
      ]

  rebalance_right_high :
      (l : Tree V) (v : V) (h : ℕ) (r : Tree V)
      → IsBalanced l
      → IsBalanced r
      → height r ≡ height l + 2
      → Rebalanced l r (node_rebalance (node l v h r))
  unfolding node_rebalance
  rebalance_right_high l v h leaf a b e = absurd (omega arith)
  rebalance_right_high l v h (node rl rv rh rr) a b e =
      let first = left_heavy l v h (node rl rv rh rr) ∙ le→ltb _ _ (omega arith) in
      let second = right_heavy l v h (node rl rv rh rr) ∙ lt→ltb _ _ (omega arith) in
      elim (Bool-cases (leb (height rl) (height rr))) [
        | inl t ↦
            rw (first, second, leans_right rl rv rh rr ∙ t)
              (rotate_left_lem l v h rl rv rh rr a b e (leb→le _ _ t))
        | inr t ↦
            rw (first, second, leans_right rl rv rh rr ∙ t)
              (rotate_right_left_lem l v h rl rv rh rr a b e (not_leb _ _ t))
      ]

  -- Nothing is rotated where the children differ by at most one.
  rebalance_even :
      (l : Tree V) (v : V) (r : Tree V)
      → height l ≤ height r + 1
      → height r ≤ height l + 1
      → node_rebalance (update_height l v r) ≡ update_height l v r
  unfolding node_rebalance update_height
  rebalance_even l v r a b =
      let h = 1 + max (height l) (height r) in
      rw (left_heavy l v h r ∙ le→ltb _ _ a, right_heavy l v h r ∙ le→ltb _ _ b)

  abbrev Even : Tree V → Tree V → Type 0
  Even l r = (height l ≤ height r + 1) × (height r ≤ height l + 1)

  skew_cases :
      (l r : Tree V)
      → height l ≤ height r + 2
      → height r ≤ height l + 2
      → Even l r ⊎ ((height l ≡ height r + 2) ⊎ (height r ≡ height l + 2))
  skew_cases l r a b = grind arith

  pub rebalance_lem :
      (l : Tree V) (v : V) (r : Tree V)
      → IsBalanced l
      → IsBalanced r
      → height l ≤ height r + 2
      → height r ≤ height l + 2
      → Rebalanced l r (node_rebalance (update_height l v r))
        × (Even l r → height (node_rebalance (update_height l v r)) ≡ 1 + max (height l) (height r))
  rebalance_lem l v r a b c d = elim (skew_cases l r c d) [
    | inl even ↦ rw (rebalance_even l v r even.0 even.1) (unfold update_height in ground arith)
    | inr (inl e) ↦
        (unfold update_height in rebalance_left_high l v _ r a b e, λ even. absurd (omega arith))
    | inr (inr e) ↦
        (unfold update_height in rebalance_right_high l v _ r a b e, λ even. absurd (omega arith))
  ]

  -- A balanced subtree of height `n` fits under these parents.
  abbrev pub Fits : List (Frame V) → ℕ → Type 0
  Fits [] n = Unit
  Fits (left_of v h r ∷ ps) n =
      IsBalanced r
      × (h ≡ 1 + max n (height r))
      × (n ≤ height r + 1)
      × (height r ≤ n + 1)
      × Fits ps h
  Fits (right_of l v h ∷ ps) n =
      IsBalanced l
      × (h ≡ 1 + max (height l) n)
      × (n ≤ height l + 1)
      × (height l ≤ n + 1)
      × Fits ps h

  -- A node whose subtree shrank by at most one is rebalanced up to the root.
  pub rebalance_from-IsBalanced :
      (ps : List (Frame V)) (n : ℕ) (l : Tree V) (v : V) (r : Tree V)
      → Fits ps n
      → IsBalanced l
      → IsBalanced r
      → height l ≤ height r + 2
      → height r ≤ height l + 2
      → height (node_rebalance (update_height l v r)) ≤ n
      → n ≤ height (node_rebalance (update_height l v r)) + 1
      → IsBalanced (rebalance_from l v r ps)
  unfolding rebalance_from
  rebalance_from-IsBalanced [] n l v r f a b c d lo hi = (rebalance_lem l v r a b c d).0.0
  rebalance_from-IsBalanced (left_of w h s ∷ ps) n l v r f a b c d lo hi =
      let t = node_rebalance (update_height l v r) in
      let tb = (rebalance_lem l v r a b c d).0.0 in
      let up = rebalance_lem t w s tb f.0 (omega arith) (omega arith) in
      let fits = climb_height _ n _ h _ up.0.1 up.0.2 up.1 f.1 f.2 f.3 lo hi in
      rebalance_from-IsBalanced ps h t w s f.4 tb f.0 (omega arith) (omega arith) fits.0 fits.1
  rebalance_from-IsBalanced (right_of s w h ∷ ps) n l v r f a b c d lo hi =
      let t = node_rebalance (update_height l v r) in
      let tb = (rebalance_lem l v r a b c d).0.0 in
      let up = rebalance_lem s w t f.0 tb (omega arith) (omega arith) in
      let fits =
        climb_height (height t) n (height s) h _ (omega (arith, up.0.1)) (omega (arith, up.0.2))
          (λ e. up.1 (e.1, e.0) ∙ omega arith) (omega (arith, f.1)) f.2 f.3 lo hi in
      rebalance_from-IsBalanced ps h s w t f.4 f.0 tb (omega arith) (omega arith) fits.0 fits.1
