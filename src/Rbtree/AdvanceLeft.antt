-- ===== src/Rbtree/AdvanceLeft.antt =====
-- A round of `qp_rbtree_insert_fix`, src/core/qp_memory_core.c, below a red parent on the left.
use qphi.Common.{
  ℕ, suc, ◌≡◌, ◌≢◌, inl, inr, refl, ◌∙◌, sym, ap, subst, true, false, ◌∷◌, ◌++◌, arith,
}
use qphi.Memory.Chain.{null}
use qphi.Rbtree.{Store, nil, red, black, left_rotate, right_rotate}
use qphi.Rbtree.Shape.{Shape, node, nodes}
use qphi.Rbtree.Trail.{Trail, in_left, in_right, plug}
use qphi.Rbtree.Turn.{IsAt}
use qphi.Rbtree.Climb.{nodes-plug, nodes_turn}
use qphi.Rbtree.Balance.{root_red, Balanced, head_black, Holds}
use qphi.Rbtree.Recolor.{recolored}
use qphi.Rbtree.Raise.{outer_left, left_rotate_kept}
use qphi.Rbtree.LeftRounds.{
  parent_left_left, parent_left_right, red_round_left, outer_round_left, inner_round_left,
}
use qphi.Rbtree.Settle.{Pending}
use qphi.Rbtree.Insert.{turn}
use qphi.Rbtree.Round.{Round, depth, red_parent, black_parent, look, own}
use qphi.Rbtree.Straight.{straight_left}

-- A red uncle, whichever child the node is.
red_left :
    (s : Store) (rb n p g : ℕ) (up : Trail) (x y ul ur gr : Shape) (u h : ℕ)
    → gr ≡ node ul u ur
    → IsAt s rb g p (in_left g gr up) (node x p y)
    → n ≢ null
    → s.parent n ≡ p
    → Balanced s.color h x
    → Balanced s.color h y
    → s.color u ≡ red
    → Balanced s.color h gr
    → Holds s.color (suc h) up
    → s.color (nil rb) ≡ black
    → Round s rb n (suc (suc (depth up))) (plug up (node (node x p y) g gr))
red_left s rb n p g up x y ul ur gr u h gr_node v n_set np bx by u_red bu above sentinel =
    let moved =
      red_round_left s rb n p g u up x y ul ur h
        (subst (λ t. IsAt s rb g p (in_left g t up) (node x p y)) gr_node v) n_set np bx by u_red
        (subst (λ t. Balanced s.color h t) gr_node bu) above sentinel in
    record {
      next = g;
      store = record s { color = recolored p u g s.color };
      up = s.parent g;
      trail = up;
      l = node x p y;
      r = node ul u ur;
      h = suc h;
      round = moved.0;
      pending = moved.1;
      kept = ap (λ t. nodes (plug up (node (node x p y) g t))) (sym gr_node);
      keys = refl;
      near = inl (ground arith);
    }

-- The node is the left child of a red parent, which is a left child.
pub advance_left_left :
    (s : Store) (rb p g n : ℕ) (up : Trail) (l r pr gr : Shape) (h : ℕ)
    → Pending s rb p n (in_left p pr (in_left g gr up)) l r h
    → s.color p ≡ red
    → Round s rb n (suc (suc (depth up))) (plug (in_left p pr (in_left g gr up)) (node l n r))
advance_left_left s rb p g n up l r pr gr h v e =
    let below_p =
      red_parent s.color p (Balanced s.color h pr) (root_red s.color pr ≡ false)
        (head_black s.color (in_left g gr up) ≡ true) (Holds s.color h (in_left g gr up))
        (Holds s.color (suc h) (in_left g gr up)) e v.holds in
    let below_g =
      black_parent s.color g (Balanced s.color h gr) (Holds s.color (suc h) up)
        (root_red s.color gr ≡ false) (head_black s.color up ≡ true) (Holds s.color h up) below_p.2
        below_p.3 in
    let at_p = parent_left_left s rb p g n pr gr up (node l n r) v.at in
    elim (look s.color gr) [
      | inl (ul, u, ur, gr_node, u_red) ↦
          red_left s rb n p g up (node l n r) pr ul ur gr u h gr_node at_p v.at.stands.2
            v.at.stands.3 (own s rb p n (in_left p pr (in_left g gr up)) l r h v) below_p.0 u_red
            below_g.0 below_g.1 v.sentinel
      | inr calm ↦
          (let raised =
              outer_left s rb p g n up l r pr gr h v (below_p.1, below_p.0) (calm, below_g.0)
                below_g.1 in
            record {
              next = n;
              store = (turn (right_rotate rb) n s).1;
              up = p;
              trail = in_left p (node pr g gr) up;
              l = l;
              r = r;
              h = h;
              round =
                  outer_round_left s rb p g n up l r pr gr h v calm
                  ∙ ap (λ m. (m, (turn (right_rotate rb) n s).1)) raised.0;
              pending = raised.1;
              kept =
                  nodes-plug up (node (node l n r) p (node pr g gr))
                    (node (node (node l n r) p pr) g gr) (sym (nodes_turn (node l n r) p pr g gr));
              keys = raised.3;
              near = inr raised.2;
            })
    ]

-- The node is the right child of a red parent, which is a left child.
pub advance_left_right :
    (s : Store) (rb p g n : ℕ) (up : Trail) (l r pl gr : Shape) (h : ℕ)
    → Pending s rb p n (in_right pl p (in_left g gr up)) l r h
    → s.color p ≡ red
    → Round s rb n (suc (suc (depth up))) (plug (in_right pl p (in_left g gr up)) (node l n r))
advance_left_right s rb p g n up l r pl gr h v e =
    let below_p =
      red_parent s.color p (Balanced s.color h pl) (root_red s.color pl ≡ false)
        (head_black s.color (in_left g gr up) ≡ true) (Holds s.color h (in_left g gr up))
        (Holds s.color (suc h) (in_left g gr up)) e v.holds in
    let below_g =
      black_parent s.color g (Balanced s.color h gr) (Holds s.color (suc h) up)
        (root_red s.color gr ≡ false) (head_black s.color up ≡ true) (Holds s.color h up) below_p.2
        below_p.3 in
    let at_p = parent_left_right s rb p g n pl gr up (node l n r) v.at in
    elim (look s.color gr) [
      | inl (ul, u, ur, gr_node, u_red) ↦
          red_left s rb n p g up pl (node l n r) ul ur gr u h gr_node at_p v.at.stands.2
            v.at.stands.3 below_p.0 (own s rb p n (in_right pl p (in_left g gr up)) l r h v) u_red
            below_g.0 below_g.1 v.sentinel
      | inr calm ↦
          (let t : Store = left_rotate rb p s in
            let kept = sym (left_rotate_kept rb p s).0 in
            let raised =
              outer_left t rb n g p up pl l r gr h
                (straight_left s rb p g n up l r pl gr h v e (below_p.1, below_p.0)
                  (below_p.2, below_p.3))
                (subst (λ f. (root_red f r ≡ false) × Balanced f h r) kept (v.calm_r, v.balanced_r))
                (subst (λ f. (root_red f gr ≡ false) × Balanced f h gr) kept (calm, below_g.0))
                (subst (λ f. Holds f (suc h) up) kept below_g.1) in
            record {
              next = p;
              store = (turn (right_rotate rb) p t).1;
              up = n;
              trail = in_left n (node r g gr) up;
              l = pl;
              r = l;
              h = h;
              round =
                  inner_round_left s rb p g n up l r pl gr h v calm
                  ∙ ap (λ m. (m, (turn (right_rotate rb) p t).1)) raised.0;
              pending = raised.1;
              kept =
                  nodes-plug up (node (node pl p l) n (node r g gr))
                    (node (node pl p (node l n r)) g gr)
                    (sym (nodes_turn (node pl p l) n r g gr)
                      ∙ ap (λ xs. xs ++ g ∷ nodes gr) (nodes_turn pl p l n r));
              keys = raised.3 ∙ (left_rotate_kept rb p s).1;
              near = inr raised.2;
            })
    ]
