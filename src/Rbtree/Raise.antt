-- ===== src/Rbtree/Raise.antt =====
-- The outer turn of `qp_rbtree_insert_fix`, src/core/qp_memory_core.c, on a store.
use qphi.Common.{
  ℕ, suc, ◌+◌, ◌≡◌, ◌≢◌, refl, ◌∙◌, sym, subst, true, false, [], ◌∷◌, ◌++◌, count, count-append,
  ◌≤◌, arith,
}
use qphi.Memory.Chain.{Field, null}
use qphi.Rbtree.{
  Store, nil, red, black, set_black, set_red, parent, grandpa, left_rotate, right_rotate, relink,
}
use qphi.Rbtree.Shape.{Shape, node, nodes}
use qphi.Rbtree.Trail.{Trail, in_left, in_right, trail_nodes}
use qphi.Rbtree.Turn.{IsAt}
use qphi.Rbtree.Left.{left_rotate-IsAt}
use qphi.Rbtree.Right.{right_rotate-IsAt}
use qphi.Rbtree.Climb.{Focus-up_left, Focus-up_right, Focus-down_left, Focus-down_right}
use qphi.Rbtree.Balance.{root_red, Balanced, head_black, Holds}
use qphi.Rbtree.Outer.{
  turned, turned_left, turned_right, turned-red, turned-Holds_left, turned-Holds_right,
}
use qphi.Rbtree.Settle.{Pending}
use qphi.Rbtree.Insert.{turn}

-- A rotation leaves the colors and the keys.
pub right_rotate_kept :
    (rb n : ℕ) (s : Store)
    → ((right_rotate rb n s).color ≡ s.color) × ((right_rotate rb n s).key ≡ s.key)
unfolding right_rotate relink
right_rotate_kept rb n s = ground arith

pub left_rotate_kept :
    (rb n : ℕ) (s : Store)
    → ((left_rotate rb n s).color ≡ s.color) × ((left_rotate rb n s).key ≡ s.key)
unfolding left_rotate relink
left_rotate_kept rb n s = ground arith

-- The other nodes keep their colors.
turned_else : (color : Field) (p g x : ℕ) → p ≢ x → g ≢ x → turned p g color x ≡ color x
turned_else color p g x xp xg = ground arith

-- What the turn is, when the parent is `p` and the grandparent `g`.
turn_lem :
    (rotate : ℕ → Store → Store) (s : Store) (n p g : ℕ)
    → n ≢ null
    → p ≢ null
    → s.parent n ≡ p
    → s.parent p ≡ g
    → turn rotate n s ≡ (n, rotate g (record s { color = turned p g s.color }))
unfolding turn set_black set_red parent grandpa
turn_lem rotate s n p g n_set p_set np pg = ground arith

-- The red node `n` is the left child of its red parent, the left child of `g`.
pub outer_left :
    (s : Store) (rb p g n : ℕ) (up : Trail) (l r pr gr : Shape) (h : ℕ)
    → Pending s rb p n (in_left p pr (in_left g gr up)) l r h
    → (root_red s.color pr ≡ false) × Balanced s.color h pr
    → (root_red s.color gr ≡ false) × Balanced s.color h gr
    → Holds s.color (suc h) up
    → ((turn (right_rotate rb) n s).0 ≡ n)
      × Pending (turn (right_rotate rb) n s).1 rb p n (in_left p (node pr g gr) up) l r h
      × (head_black (turn (right_rotate rb) n s).1.color (in_left p (node pr g gr) up) ≡ true)
      × ((turn (right_rotate rb) n s).1.key ≡ s.key)
outer_left s rb p g n up l r pr gr h v inner uncle_calm above =
    let pg : s.parent p ≡ g = v.at.hangs.5.0 in
    let np : s.parent n ≡ p = v.at.stands.3 in
    let e = turn_lem (right_rotate rb) s n p g v.at.stands.2 v.at.hangs.3 np pg in
    let total : (a : ℕ)
        → count a (trail_nodes up)
            + (count a (nodes l) + count a (n ∷ nodes r))
            + (count a (nodes pr) + count a (nodes gr))
            + count a (p ∷ g ∷ [])
          ≤ 1 =
      λ a. omega (
        arith,
        v.at.unique a,
        count-append a (nodes l) (n ∷ nodes r),
        count-append a (nodes pr) (g ∷ (nodes gr ++ trail_nodes up)),
        count-append a (nodes gr) (trail_nodes up),
      ) in
    let p_set : p ≢ null = v.at.hangs.3 in
    let g_set : g ≢ null = v.at.hangs.5.3 in
    let s2 : Store = record s { color = turned p g s.color } in
    let s3 : Store = right_rotate rb g s2 in
    let kept = right_rotate_kept rb g s2 in
    let at_p : IsAt s rb g p (in_left g gr up) (node (node l n r) p pr) =
      subst (λ q. IsAt s rb q p (in_left g gr up) (node (node l n r) p pr)) pg
        (Focus-up_left s.left s.right s.parent (nil rb) (s.root rb) p n p pr (in_left g gr up)
          (node l n r) v.at) in
    let at_g : IsAt s rb (s.parent g) g up (node (node (node l n r) p pr) g gr) =
      Focus-up_left s.left s.right s.parent (nil rb) (s.root rb) g p g gr up
        (node (node l n r) p pr) at_p in
    let at_g2 : IsAt s2 rb (s.parent g) g up (node (node (node l n r) p pr) g gr) = record {
      hangs = at_g.hangs;
      stands = at_g.stands;
      unique = at_g.unique;
    } in
    let at_p3 = right_rotate-IsAt s2 rb (s.parent g) g p gr pr (node l n r) up at_g2 in
    let at_n : IsAt s3 rb p (s3.left p) (in_left p (node pr g gr) up) (node l n r) =
      Focus-down_left s3.left s3.right s3.parent (nil rb) (s3.root rb) (s.parent g) p (node pr g gr)
        up (node l n r) at_p3 in
    let nodes_ok =
      turned-Holds_left s.color p g n up l r pr gr h p_set g_set total inner uncle_calm above in
    let left_ok =
      turned_left s.color p g n up l r pr gr h p_set g_set total (v.calm_l, v.balanced_l) in
    let right_ok =
      turned_right s.color p g n up l r pr gr h p_set g_set total (v.calm_r, v.balanced_r) in
    let colored : Pending s3 rb p n (in_left p (node pr g gr) up) l r h = record {
      at =
          subst (λ x. IsAt s3 rb p x (in_left p (node pr g gr) up) (node l n r)) at_n.stands.0 at_n;
      red_n =
          subst (λ f. f n ≡ red) (sym kept.0)
            (turned-red s.color p g n up l r pr gr h p_set g_set total v.red_n);
      calm_l = subst (λ f. root_red f l ≡ false) (sym kept.0) left_ok.0;
      calm_r = subst (λ f. root_red f r ≡ false) (sym kept.0) right_ok.0;
      balanced_l = subst (λ f. Balanced f h l) (sym kept.0) left_ok.1;
      balanced_r = subst (λ f. Balanced f h r) (sym kept.0) right_ok.1;
      holds = subst (λ f. Holds f h (in_left p (node pr g gr) up)) (sym kept.0) nodes_ok.0;
      sentinel =
          subst (λ f. f (nil rb) ≡ black) (sym kept.0)
            (turned_else s.color p g (nil rb) v.at.hangs.2 v.at.hangs.5.2 ∙ v.sentinel);
    } in
    subst
      (λ (w : ℕ × Store).
        (w.0 ≡ n)
        × Pending w.1 rb p n (in_left p (node pr g gr) up) l r h
        × (head_black w.1.color (in_left p (node pr g gr) up) ≡ true)
        × (w.1.key ≡ s.key))
      (sym e)
      (
        refl,
        colored,
        subst (λ f. head_black f (in_left p (node pr g gr) up) ≡ true) (sym kept.0) nodes_ok.1,
        kept.1,
      )

-- The red node `n` is the right child of its red parent, the right child of `g`.
pub outer_right :
    (s : Store) (rb p g n : ℕ) (up : Trail) (l r pr gr : Shape) (h : ℕ)
    → Pending s rb p n (in_right pr p (in_right gr g up)) l r h
    → (root_red s.color pr ≡ false) × Balanced s.color h pr
    → (root_red s.color gr ≡ false) × Balanced s.color h gr
    → Holds s.color (suc h) up
    → ((turn (left_rotate rb) n s).0 ≡ n)
      × Pending (turn (left_rotate rb) n s).1 rb p n (in_right (node gr g pr) p up) l r h
      × (head_black (turn (left_rotate rb) n s).1.color (in_right (node gr g pr) p up) ≡ true)
      × ((turn (left_rotate rb) n s).1.key ≡ s.key)
outer_right s rb p g n up l r pr gr h v inner uncle_calm above =
    let pg : s.parent p ≡ g = v.at.hangs.5.0 in
    let np : s.parent n ≡ p = v.at.stands.3 in
    let e = turn_lem (left_rotate rb) s n p g v.at.stands.2 v.at.hangs.3 np pg in
    let total : (a : ℕ)
        → count a (trail_nodes up)
            + (count a (nodes l) + count a (n ∷ nodes r))
            + (count a (nodes pr) + count a (nodes gr))
            + count a (p ∷ g ∷ [])
          ≤ 1 =
      λ a. omega (
        arith,
        v.at.unique a,
        count-append a (nodes l) (n ∷ nodes r),
        count-append a (nodes pr) (g ∷ (nodes gr ++ trail_nodes up)),
        count-append a (nodes gr) (trail_nodes up),
      ) in
    let p_set : p ≢ null = v.at.hangs.3 in
    let g_set : g ≢ null = v.at.hangs.5.3 in
    let s2 : Store = record s { color = turned p g s.color } in
    let s3 : Store = left_rotate rb g s2 in
    let kept = left_rotate_kept rb g s2 in
    let at_p : IsAt s rb g p (in_right gr g up) (node pr p (node l n r)) =
      subst (λ q. IsAt s rb q p (in_right gr g up) (node pr p (node l n r))) pg
        (Focus-up_right s.left s.right s.parent (nil rb) (s.root rb) p n p pr (in_right gr g up)
          (node l n r) v.at) in
    let at_g : IsAt s rb (s.parent g) g up (node gr g (node pr p (node l n r))) =
      Focus-up_right s.left s.right s.parent (nil rb) (s.root rb) g p g gr up
        (node pr p (node l n r)) at_p in
    let at_g2 : IsAt s2 rb (s.parent g) g up (node gr g (node pr p (node l n r))) = record {
      hangs = at_g.hangs;
      stands = at_g.stands;
      unique = at_g.unique;
    } in
    let at_p3 = left_rotate-IsAt s2 rb (s.parent g) g p gr pr (node l n r) up at_g2 in
    let at_n : IsAt s3 rb p (s3.right p) (in_right (node gr g pr) p up) (node l n r) =
      Focus-down_right s3.left s3.right s3.parent (nil rb) (s3.root rb) (s.parent g) p
        (node gr g pr) up (node l n r) at_p3 in
    let nodes_ok =
      turned-Holds_right s.color p g n up l r pr gr h p_set g_set total inner uncle_calm above in
    let left_ok =
      turned_left s.color p g n up l r pr gr h p_set g_set total (v.calm_l, v.balanced_l) in
    let right_ok =
      turned_right s.color p g n up l r pr gr h p_set g_set total (v.calm_r, v.balanced_r) in
    let colored : Pending s3 rb p n (in_right (node gr g pr) p up) l r h = record {
      at =
          subst (λ x. IsAt s3 rb p x (in_right (node gr g pr) p up) (node l n r)) at_n.stands.0
            at_n;
      red_n =
          subst (λ f. f n ≡ red) (sym kept.0)
            (turned-red s.color p g n up l r pr gr h p_set g_set total v.red_n);
      calm_l = subst (λ f. root_red f l ≡ false) (sym kept.0) left_ok.0;
      calm_r = subst (λ f. root_red f r ≡ false) (sym kept.0) right_ok.0;
      balanced_l = subst (λ f. Balanced f h l) (sym kept.0) left_ok.1;
      balanced_r = subst (λ f. Balanced f h r) (sym kept.0) right_ok.1;
      holds = subst (λ f. Holds f h (in_right (node gr g pr) p up)) (sym kept.0) nodes_ok.0;
      sentinel =
          subst (λ f. f (nil rb) ≡ black) (sym kept.0)
            (turned_else s.color p g (nil rb) v.at.hangs.2 v.at.hangs.5.2 ∙ v.sentinel);
    } in
    subst
      (λ (w : ℕ × Store).
        (w.0 ≡ n)
        × Pending w.1 rb p n (in_right (node gr g pr) p up) l r h
        × (head_black w.1.color (in_right (node gr g pr) p up) ≡ true)
        × (w.1.key ≡ s.key))
      (sym e)
      (
        refl,
        colored,
        subst (λ f. head_black f (in_right (node gr g pr) p up) ≡ true) (sym kept.0) nodes_ok.1,
        kept.1,
      )
