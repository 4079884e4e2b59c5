-- ===== src/Rbtree/RightRounds.antt =====
-- The rounds of `qp_rbtree_insert_fix`, src/core/qp_memory_core.c, where the parent of the node is red and
-- on the right.
use qphi.Common.{ℕ, suc, ◌≡◌, ◌≢◌, inr, ◌∙◌, sym, ap, subst, false, ◌∷◌, ◌++◌, has-append, arith}
use qphi.Memory.Chain.{null}
use qphi.Rbtree.{
  Store, nil, red, black, is_red, is_left, parent, grandpa, uncle, left_rotate, right_rotate,
}
use qphi.Rbtree.Shape.{Shape, node, nodes}
use qphi.Rbtree.Trail.{Trail, in_left, in_right, trail_nodes}
use qphi.Rbtree.Turn.{IsAt, other_side}
use qphi.Rbtree.Climb.{Focus-up_left, Focus-up_right}
use qphi.Rbtree.Balance.{root_red, Balanced, Holds}
use qphi.Rbtree.Recolor.{recolored, recolored-Pending_right, red_uncle}
use qphi.Rbtree.Settle.{Pending}
use qphi.Rbtree.LeftRounds.{calm_root}
use qphi.Rbtree.Insert.{insert_round, straighten_right, turn}

-- The left child of the grandparent is another one.
left_other :
    (s : Store) (rb p g : ℕ) (gl : Shape) (up : Trail) (x y : Shape)
    → IsAt s rb g p (in_right gl g up) (node x p y)
    → s.left g ≢ p
left_other s rb p g gl up x y v =
    other_side s.left s.right s.parent (nil rb) (s.root rb) g p (in_right gl g up) (node x p y)
      (s.left g) gl v v.stands.1 (ground (arith, has-append p (nodes x) (p ∷ nodes y))) v.hangs.4
      (λ x i. ground (arith, has-append x (nodes gl) (trail_nodes up)))

round_right :
    (s : Store) (rb n : ℕ)
    → is_red (uncle n s) s ≡ false
    → is_left (parent n s) s ≡ false
    → insert_round rb n s
      ≡ turn (left_rotate rb) (straighten_right rb n s).0 (straighten_right rb n s).1
unfolding insert_round
round_right s rb n calm side = ground arith

straighten_right_away :
    (s : Store) (rb n p : ℕ)
    → n ≢ null
    → s.parent n ≡ p
    → s.left p ≢ n
    → straighten_right rb n s ≡ (n, s)
unfolding straighten_right is_left parent
straighten_right_away s rb n p n_set np away = ground arith

straighten_right_inner :
    (s : Store) (rb n p : ℕ)
    → n ≢ null
    → s.parent n ≡ p
    → s.left p ≡ n
    → straighten_right rb n s ≡ (p, right_rotate rb p s)
unfolding straighten_right is_left parent
straighten_right_inner s rb n p n_set np side = ground arith

-- The place of a node below `g`, from that of its child.
pub parent_right_right :
    (s : Store) (rb p g n : ℕ) (pr gr : Shape) (up : Trail) (t : Shape)
    → IsAt s rb p n (in_right pr p (in_right gr g up)) t
    → IsAt s rb g p (in_right gr g up) (node pr p t)
parent_right_right s rb p g n pr gr up t v =
    subst (λ q. IsAt s rb q p (in_right gr g up) (node pr p t)) v.hangs.5.0
      (Focus-up_right s.left s.right s.parent (nil rb) (s.root rb) p n p pr (in_right gr g up) t v)

pub parent_right_left :
    (s : Store) (rb p g n : ℕ) (pl gr : Shape) (up : Trail) (t : Shape)
    → IsAt s rb p n (in_left p pl (in_right gr g up)) t
    → IsAt s rb g p (in_right gr g up) (node t p pl)
parent_right_left s rb p g n pl gr up t v =
    subst (λ q. IsAt s rb q p (in_right gr g up) (node t p pl)) v.hangs.5.0
      (Focus-up_left s.left s.right s.parent (nil rb) (s.root rb) p n p pl (in_right gr g up) t v)

-- With a red uncle the round goes on at the grandparent, whose children have become black.
pub red_round_right :
    (s : Store) (rb n p g u : ℕ) (up : Trail) (x y ul ur : Shape) (h : ℕ)
    → IsAt s rb g p (in_right (node ul u ur) g up) (node x p y)
    → n ≢ null
    → s.parent n ≡ p
    → Balanced s.color h x
    → Balanced s.color h y
    → s.color u ≡ red
    → Balanced s.color h (node ul u ur)
    → Holds s.color (suc h) up
    → s.color (nil rb) ≡ black
    → (insert_round rb n s ≡ (g, record s { color = recolored p u g s.color }))
      × Pending
          (record s { color = recolored p u g s.color })
          rb
          (s.parent g)
          g
          up
          (node ul u ur)
          (node x p y)
          (suc h)
red_round_right s rb n p g u up x y ul ur h v n_set np bx by u_red bu above sentinel =
    let at_g : IsAt s rb (s.parent g) g up (node (node ul u ur) g (node x p y)) =
      Focus-up_right s.left s.right s.parent (nil rb) (s.root rb) g p g (node ul u ur) up
        (node x p y) v in
    let other : p ≢ u = λ e. left_other s rb p g (node ul u ur) up x y v (v.hangs.4.0 ∙ sym e) in
    (
      red_uncle s rb n p g u n_set v.stands.2 v.hangs.4.2 v.hangs.3 np v.stands.3
          (inr (v.hangs.4.0, v.hangs.1, other)) u_red,
      recolored-Pending_right s rb (s.parent g) g p u up x y ul ur h bx by u_red bu above sentinel
          at_g,
    )

-- The parent is the child that the trail says.
pub parent_is_right :
    (s : Store) (n p g : ℕ)
    → s.left g ≢ p
    → s.parent n ≡ p
    → n ≢ null
    → p ≢ null
    → s.parent p ≡ g
    → (is_left (parent n s) s ≡ false) × (uncle n s ≡ s.left g)
unfolding is_left parent uncle grandpa
parent_is_right s n p g side np n_set p_set pg = ground arith

-- An outer node: the round turns the grandparent.
pub outer_round_right :
    (s : Store) (rb p g n : ℕ) (up : Trail) (l r pr gr : Shape) (h : ℕ)
    → Pending s rb p n (in_right pr p (in_right gr g up)) l r h
    → root_red s.color gr ≡ false
    → insert_round rb n s ≡ turn (left_rotate rb) n s
outer_round_right s rb p g n up l r pr gr h v calm =
    let at_p = parent_right_right s rb p g n pr gr up (node l n r) v.at in
    let away_p = left_other s rb p g gr up pr (node l n r) at_p in
    let known =
      parent_is_right s n p g away_p v.at.stands.3 v.at.stands.2 at_p.stands.2 at_p.stands.3 in
    let un : is_red (uncle n s) s ≡ false =
      subst (λ x. is_red x s ≡ false) (sym known.1)
        (calm_root s (nil rb) g (s.left g) gr at_p.hangs.4 calm v.sentinel) in
    let away : s.left p ≢ n =
      other_side s.left s.right s.parent (nil rb) (s.root rb) p n (in_right pr p (in_right gr g up))
        (node l n r) (s.left p) pr v.at v.at.stands.1
        (ground (arith, has-append n (nodes l) (n ∷ nodes r))) v.at.hangs.4
        (λ x i. ground (arith, has-append x (nodes pr) (g ∷ (nodes gr ++ trail_nodes up)))) in
    round_right s rb n un known.0
    ∙ ap (λ (w : ℕ × Store). turn (left_rotate rb) w.0 w.1)
        (straighten_right_away s rb n p v.at.stands.2 v.at.stands.3 away)

-- An inner node: the round rotates it to the outside, and turns the grandparent.
pub inner_round_right :
    (s : Store) (rb p g n : ℕ) (up : Trail) (l r pl gr : Shape) (h : ℕ)
    → Pending s rb p n (in_left p pl (in_right gr g up)) l r h
    → root_red s.color gr ≡ false
    → insert_round rb n s ≡ turn (left_rotate rb) p (right_rotate rb p s)
inner_round_right s rb p g n up l r pl gr h v calm =
    let at_p = parent_right_left s rb p g n pl gr up (node l n r) v.at in
    let away_p = left_other s rb p g gr up (node l n r) pl at_p in
    let known =
      parent_is_right s n p g away_p v.at.stands.3 v.at.stands.2 at_p.stands.2 at_p.stands.3 in
    let un : is_red (uncle n s) s ≡ false =
      subst (λ x. is_red x s ≡ false) (sym known.1)
        (calm_root s (nil rb) g (s.left g) gr at_p.hangs.4 calm v.sentinel) in
    round_right s rb n un known.0
    ∙ ap (λ (w : ℕ × Store). turn (left_rotate rb) w.0 w.1)
        (straighten_right_inner s rb n p v.at.stands.2 v.at.stands.3 v.at.hangs.1)
