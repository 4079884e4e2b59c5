-- ===== src/Rbtree/AdvanceRight.antt =====
-- A round of `qp_rbtree_insert_fix`, src/core/qp_memory_core.c, below a red parent on the right.
use qphi.Common.{
  ℕ, suc, ◌≡◌, ◌≢◌, inl, inr, refl, ◌∙◌, sym, ap, subst, true, false, ◌∷◌, ◌++◌, arith,
}
use qphi.Memory.Chain.{null}
use qphi.Rbtree.{Store, nil, red, black, left_rotate, right_rotate}
use qphi.Rbtree.Shape.{Shape, node, nodes}
use qphi.Rbtree.Trail.{Trail, in_left, in_right, plug}
use qphi.Rbtree.Turn.{IsAt}
use qphi.Rbtree.Climb.{nodes-plug, nodes_turn}
use qphi.Rbtree.Balance.{root_red, Balanced, head_black, Holds}
use qphi.Rbtree.Recolor.{recolored}
use qphi.Rbtree.Raise.{outer_right, right_rotate_kept}
use qphi.Rbtree.RightRounds.{
  parent_right_left, parent_right_right, red_round_right, outer_round_right, inner_round_right,
}
use qphi.Rbtree.Settle.{Pending}
use qphi.Rbtree.Insert.{turn}
use qphi.Rbtree.Round.{Round, depth, red_parent, black_parent, look, own}
use qphi.Rbtree.Straight.{straight_right}

-- A red uncle, whichever child the node is.
red_right :
    (s : Store) (rb n p g : ℕ) (up : Trail) (x y ul ur gr : Shape) (u h : ℕ)
    → gr ≡ node ul u ur
    → IsAt s rb g p (in_right gr g up) (node x p y)
    → n ≢ null
    → s.parent n ≡ p
    → Balanced s.color h x
    → Balanced s.color h y
    → s.color u ≡ red
    → Balanced s.color h gr
    → Holds s.color (suc h) up
    → s.color (nil rb) ≡ black
    → Round s rb n (suc (suc (depth up))) (plug up (node gr g (node x p y)))
red_right s rb n p g up x y ul ur gr u h gr_node v n_set np bx by u_red bu above sentinel =
    let moved =
      red_round_right s rb n p g u up x y ul ur h
        (subst (λ t. IsAt s rb g p (in_right t g up) (node x p y)) gr_node v) n_set np bx by u_red
        (subst (λ t. Balanced s.color h t) gr_node bu) above sentinel in
    record {
      next = g;
      store = record s { color = recolored p u g s.color };
      up = s.parent g;
      trail = up;
      l = node ul u ur;
      r = node x p y;
      h = suc h;
      round = moved.0;
      pending = moved.1;
      kept = ap (λ t. nodes (plug up (node t g (node x p y)))) (sym gr_node);
      keys = refl;
      near = inl (ground arith);
    }

-- The node is the right child of a red parent, which is a right child.
pub advance_right_right :
    (s : Store) (rb p g n : ℕ) (up : Trail) (l r pr gr : Shape) (h : ℕ)
    → Pending s rb p n (in_right pr p (in_right gr g up)) l r h
    → s.color p ≡ red
    → Round s rb n (suc (suc (depth up))) (plug (in_right pr p (in_right gr g up)) (node l n r))
advance_right_right s rb p g n up l r pr gr h v e =
    let below_p =
      red_parent s.color p (Balanced s.color h pr) (root_red s.color pr ≡ false)
        (head_black s.color (in_right gr g up) ≡ true) (Holds s.color h (in_right gr g up))
        (Holds s.color (suc h) (in_right gr g up)) e v.holds in
    let below_g =
      black_parent s.color g (Balanced s.color h gr) (Holds s.color (suc h) up)
        (root_red s.color gr ≡ false) (head_black s.color up ≡ true) (Holds s.color h up) below_p.2
        below_p.3 in
    let at_p = parent_right_right s rb p g n pr gr up (node l n r) v.at in
    elim (look s.color gr) [
      | inl (ul, u, ur, gr_node, u_red) ↦
          red_right s rb n p g up pr (node l n r) ul ur gr u h gr_node at_p v.at.stands.2
            v.at.stands.3 below_p.0 (own s rb p n (in_right pr p (in_right gr g up)) l r h v) u_red
            below_g.0 below_g.1 v.sentinel
      | inr calm ↦
          (let raised =
              outer_right s rb p g n up l r pr gr h v (below_p.1, below_p.0) (calm, below_g.0)
                below_g.1 in
            record {
              next = n;
              store = (turn (left_rotate rb) n s).1;
              up = p;
              trail = in_right (node gr g pr) p up;
              l = l;
              r = r;
              h = h;
              round =
                  outer_round_right s rb p g n up l r pr gr h v calm
                  ∙ ap (λ m. (m, (turn (left_rotate rb) n s).1)) raised.0;
              pending = raised.1;
              kept =
                  nodes-plug up (node (node gr g pr) p (node l n r))
                    (node gr g (node pr p (node l n r))) (nodes_turn gr g pr p (node l n r));
              keys = raised.3;
              near = inr raised.2;
            })
    ]

-- The node is the left child of a red parent, which is a right child.
pub advance_right_left :
    (s : Store) (rb p g n : ℕ) (up : Trail) (l r pl gr : Shape) (h : ℕ)
    → Pending s rb p n (in_left p pl (in_right gr g up)) l r h
    → s.color p ≡ red
    → Round s rb n (suc (suc (depth up))) (plug (in_left p pl (in_right gr g up)) (node l n r))
advance_right_left s rb p g n up l r pl gr h v e =
    let below_p =
      red_parent s.color p (Balanced s.color h pl) (root_red s.color pl ≡ false)
        (head_black s.color (in_right gr g up) ≡ true) (Holds s.color h (in_right gr g up))
        (Holds s.color (suc h) (in_right gr g up)) e v.holds in
    let below_g =
      black_parent s.color g (Balanced s.color h gr) (Holds s.color (suc h) up)
        (root_red s.color gr ≡ false) (head_black s.color up ≡ true) (Holds s.color h up) below_p.2
        below_p.3 in
    let at_p = parent_right_left s rb p g n pl gr up (node l n r) v.at in
    elim (look s.color gr) [
      | inl (ul, u, ur, gr_node, u_red) ↦
          red_right s rb n p g up (node l n r) pl ul ur gr u h gr_node at_p v.at.stands.2
            v.at.stands.3 (own s rb p n (in_left p pl (in_right gr g up)) l r h v) below_p.0 u_red
            below_g.0 below_g.1 v.sentinel
      | inr calm ↦
          (let t : Store = right_rotate rb p s in
            let kept = sym (right_rotate_kept rb p s).0 in
            let raised =
              outer_right t rb n g p up r pl l gr h
                (straight_right s rb p g n up l r pl gr h v e (below_p.1, below_p.0)
                  (below_p.2, below_p.3))
                (subst (λ f. (root_red f l ≡ false) × Balanced f h l) kept (v.calm_l, v.balanced_l))
                (subst (λ f. (root_red f gr ≡ false) × Balanced f h gr) kept (calm, below_g.0))
                (subst (λ f. Holds f (suc h) up) kept below_g.1) in
            record {
              next = p;
              store = (turn (left_rotate rb) p t).1;
              up = n;
              trail = in_right (node gr g l) n up;
              l = r;
              r = pl;
              h = h;
              round =
                  inner_round_right s rb p g n up l r pl gr h v calm
                  ∙ ap (λ m. (m, (turn (left_rotate rb) p t).1)) raised.0;
              pending = raised.1;
              kept =
                  nodes-plug up (node (node gr g l) n (node r p pl))
                    (node gr g (node (node l n r) p pl))
                    (nodes_turn gr g l n (node r p pl)
                      ∙ ap (λ xs. nodes gr ++ g ∷ xs) (sym (nodes_turn l n r p pl)));
              keys = raised.3 ∙ (right_rotate_kept rb p s).1;
              near = inr raised.2;
            })
    ]
