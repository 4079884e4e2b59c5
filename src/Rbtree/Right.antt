-- ===== src/Rbtree/Right.antt =====
-- `qp_rbtree_right_rotate` of src/core/qp_memory_core.c at any place of a tree: a left rotation with the
-- sides exchanged.
use qphi.Common.{ℕ, ◌≡◌, ◌≢◌, sym, subst, ◌∷◌, ◌++◌, has-append, arith}
use qphi.Memory.Chain.{null}
use qphi.Rbtree.{Store, nil, parent, is_left, relink, right_rotate}
use qphi.Rbtree.Shape.{Shape, node, nodes, Stands}
use qphi.Rbtree.Trail.{Trail, top, in_left, in_right, trail_nodes}
use qphi.Rbtree.Rotate.{Turned, Linked}
use qphi.Rbtree.Mirror.{mirror, mirror_trail}
use qphi.Rbtree.Focus.{Focus, Focus-mirror, Focus-unmirror, Turned-Focus}
use qphi.Rbtree.Turn.{IsAt, apart_nodes, sides, below_top, below_top', other_side}

module _ (s : Store) (rb n p r : ℕ) (n_set : n ≢ null) (below : s.parent n ≡ p)
    (child : s.left n ≡ r) (r_n : r ≢ n) (p_n : p ≢ n) (p_r : p ≢ r) (mid_r : s.right r ≢ r)
    (mid_n : s.right r ≢ n) where
  abbrev rotated : Store
  rotated = right_rotate rb n s

  right_rotate-Turned :
      Turned s.right s.left s.parent rotated.right rotated.left rotated.parent (nil rb) p n r
  unfolding right_rotate relink is_left parent
  right_rotate-Turned = record {
    left_r = ground (arith, below, child);
    right_n = ground (arith, below, child);
    parent_r = ground (arith, below, child);
    parent_n = ground (arith, below, child);
    parent_mid = λ ne. ground (arith, below, child);
    lefts = λ b br bp. ground (arith, below, child);
    rights = λ b bn bp. ground (arith, below, child);
    parents = λ b br bn bm. ground (arith, below, child);
  }

module _ (s : Store) (rb p n r : ℕ) (a b d : Shape) where
  right_rotate-Linked :
      (c : Trail)
      → Focus s.right s.left s.parent (nil rb) (s.root rb) p n c (node a n (node b r d))
      → Linked s.right s.left
          (right_rotate rb n s).right
          (right_rotate rb n s).left
          (s.root rb)
          ((right_rotate rb n s).root rb)
          p
          r
          c
  unfolding right_rotate relink is_left parent
  right_rotate-Linked top v =
      let f = apart_nodes s.right s.left s.parent (nil rb) (s.root rb) p n r top a b d v in
      ground (arith, v.hangs, v.stands)
  right_rotate-Linked (in_left e u up) v =
      let f =
        apart_nodes s.right s.left s.parent (nil rb) (s.root rb) p n r (in_left e u up) a b d v in
      let g = sides s.right s.left s.parent (nil rb) (s.root rb) p n r (in_left e u up) a b d v in
      let o : s.left p ≢ n =
        other_side s.right s.left s.parent (nil rb) (s.root rb) p n (in_left e u up)
          (node a n (node b r d)) (s.left p) u v v.stands.1
          (ground (arith, has-append n (nodes a) (n ∷ (nodes b ++ r ∷ nodes d))))
          (subst (λ y. Stands s.right s.left s.parent (nil rb) y (s.left y) u) (sym v.hangs.0)
            v.hangs.4)
          (λ x i. ground (arith, has-append x (nodes u) (trail_nodes up))) in
      ground (arith, v.hangs, v.stands, below_top e u up)
  right_rotate-Linked (in_right u e up) v =
      let f =
        apart_nodes s.right s.left s.parent (nil rb) (s.root rb) p n r (in_right u e up) a b d v in
      let g = sides s.right s.left s.parent (nil rb) (s.root rb) p n r (in_right u e up) a b d v in
      ground (arith, v.hangs, v.stands, below_top' e u up)

  pub mirrored :
      (c : Trail)
      → Focus s.right s.left s.parent (nil rb) (s.root rb) p n c (node a n (node b r d))
      → Focus
          (right_rotate rb n s).right
          (right_rotate rb n s).left
          (right_rotate rb n s).parent
          (nil rb)
          ((right_rotate rb n s).root rb)
          p
          r
          c
          (node (node a n b) r d)
  mirrored c v =
      let f = apart_nodes s.right s.left s.parent (nil rb) (s.root rb) p n r c a b d v in
      Turned-Focus s.right s.left s.parent (right_rotate rb n s).right (right_rotate rb n s).left
        (right_rotate rb n s).parent (nil rb) (s.root rb) ((right_rotate rb n s).root rb) p n r c a
        b d (right_rotate-Turned s rb n p r v.stands.2 v.stands.3 v.stands.5.0 f.0 f.1 f.2 f.3 f.4)
        (right_rotate-Linked c v) v

-- `qp_rbtree_right_rotate` at a node with a left child, wherever it stands in the tree: the child
-- takes its place and keeps the tree, and the node stands on its right.
pub right_rotate-IsAt :
    (s : Store) (rb p n r : ℕ) (a b d : Shape) (c : Trail)
    → IsAt s rb p n c (node (node d r b) n a)
    → IsAt (right_rotate rb n s) rb p r c (node d r (node b n a))
right_rotate-IsAt s rb p n r a b d c v =
    Focus-unmirror c (node d r (node b n a))
      (mirrored s rb p n r (mirror a) (mirror b) (mirror d) (mirror_trail c) (Focus-mirror v))
