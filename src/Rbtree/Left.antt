-- ===== src/Rbtree/Left.antt =====
-- `qp_rbtree_left_rotate` of src/core/qp_memory_core.c at any place of a tree.
use qphi.Common.{ℕ, ◌≡◌, ◌≢◌, sym, subst, ◌∷◌, ◌++◌, has-append, arith}
use qphi.Memory.Chain.{null}
use qphi.Rbtree.{Store, nil, parent, is_left, relink, left_rotate}
use qphi.Rbtree.Shape.{Shape, node, nodes, Stands}
use qphi.Rbtree.Trail.{Trail, top, in_left, in_right, trail_nodes}
use qphi.Rbtree.Rotate.{Turned, Linked}
use qphi.Rbtree.Focus.{Turned-Focus}
use qphi.Rbtree.Turn.{IsAt, apart_nodes, sides, below_top, below_top', other_side}

module _ (s : Store) (rb n p r : ℕ) (n_set : n ≢ null) (below : s.parent n ≡ p)
    (child : s.right n ≡ r) (r_n : r ≢ n) (p_n : p ≢ n) (p_r : p ≢ r) (mid_r : s.left r ≢ r)
    (mid_n : s.left r ≢ n) where
  abbrev rotated : Store
  rotated = left_rotate rb n s

  left_rotate-Turned :
      Turned s.left s.right s.parent rotated.left rotated.right rotated.parent (nil rb) p n r
  unfolding left_rotate relink is_left parent
  left_rotate-Turned = record {
    left_r = ground (arith, below, child);
    right_n = ground (arith, below, child);
    parent_r = ground (arith, below, child);
    parent_n = ground (arith, below, child);
    parent_mid = λ ne. ground (arith, below, child);
    lefts = λ b br bp. ground (arith, below, child);
    rights = λ b bn bp. ground (arith, below, child);
    parents = λ b br bn bm. ground (arith, below, child);
  }

module _ (s : Store) (rb p n r : ℕ) (a b d : Shape) where
  left_rotate-Linked :
      (c : Trail)
      → IsAt s rb p n c (node a n (node b r d))
      → Linked s.left s.right
          (left_rotate rb n s).left
          (left_rotate rb n s).right
          (s.root rb)
          ((left_rotate rb n s).root rb)
          p
          r
          c
  unfolding left_rotate relink is_left parent
  left_rotate-Linked top v =
      let f = apart_nodes s.left s.right s.parent (nil rb) (s.root rb) p n r top a b d v in
      ground (arith, v.hangs, v.stands)
  left_rotate-Linked (in_left e u up) v =
      let f =
        apart_nodes s.left s.right s.parent (nil rb) (s.root rb) p n r (in_left e u up) a b d v in
      let g = sides s.left s.right s.parent (nil rb) (s.root rb) p n r (in_left e u up) a b d v in
      ground (arith, v.hangs, v.stands, below_top e u up)
  left_rotate-Linked (in_right u e up) v =
      let f =
        apart_nodes s.left s.right s.parent (nil rb) (s.root rb) p n r (in_right u e up) a b d v in
      let g = sides s.left s.right s.parent (nil rb) (s.root rb) p n r (in_right u e up) a b d v in
      let o : s.left p ≢ n =
        other_side s.left s.right s.parent (nil rb) (s.root rb) p n (in_right u e up)
          (node a n (node b r d)) (s.left p) u v v.stands.1
          (ground (arith, has-append n (nodes a) (n ∷ (nodes b ++ r ∷ nodes d))))
          (subst (λ y. Stands s.left s.right s.parent (nil rb) y (s.left y) u) (sym v.hangs.0)
            v.hangs.4)
          (λ x i. ground (arith, has-append x (nodes u) (trail_nodes up))) in
      ground (arith, v.hangs, v.stands, below_top' e u up)

  -- `qp_rbtree_left_rotate` at a node with a right child, wherever it stands in the tree: the child
  -- takes its place and keeps the tree, and the node stands on its left.
  pub left_rotate-IsAt :
      (c : Trail)
      → IsAt s rb p n c (node a n (node b r d))
      → IsAt (left_rotate rb n s) rb p r c (node (node a n b) r d)
  left_rotate-IsAt c v =
      let f = apart_nodes s.left s.right s.parent (nil rb) (s.root rb) p n r c a b d v in
      Turned-Focus s.left s.right s.parent (left_rotate rb n s).left (left_rotate rb n s).right
        (left_rotate rb n s).parent (nil rb) (s.root rb) ((left_rotate rb n s).root rb) p n r c a b
        d (left_rotate-Turned s rb n p r v.stands.2 v.stands.3 v.stands.5.0 f.0 f.1 f.2 f.3 f.4)
        (left_rotate-Linked c v) v
