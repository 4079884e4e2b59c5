-- ===== src/Rbtree/Straight.antt =====
-- The inner rotation of `qp_rbtree_insert_fix`, src/core/qp_memory_core.c.
use qphi.Common.{ℕ, ◌≡◌, inl, sym, subst, true, false}
use qphi.Rbtree.{Store, nil, red, black, left_rotate, right_rotate}
use qphi.Rbtree.Shape.{Shape, node}
use qphi.Rbtree.Trail.{Trail, in_left, in_right}
use qphi.Rbtree.Turn.{IsAt}
use qphi.Rbtree.Left.{left_rotate-IsAt}
use qphi.Rbtree.Right.{right_rotate-IsAt}
use qphi.Rbtree.Climb.{Focus-down_left, Focus-down_right}
use qphi.Rbtree.Balance.{root_red, Balanced, head_black, Holds}
use qphi.Rbtree.Raise.{left_rotate_kept, right_rotate_kept}
use qphi.Rbtree.LeftRounds.{parent_left_right}
use qphi.Rbtree.RightRounds.{parent_right_left}
use qphi.Rbtree.Settle.{Pending}

-- A red node that is the inner child of its red parent: rotated, the parent is the outer child of it.
pub straight_left :
    (s : Store) (rb p g n : ℕ) (up : Trail) (l r pl gr : Shape) (h : ℕ)
    → Pending s rb p n (in_right pl p (in_left g gr up)) l r h
    → s.color p ≡ red
    → (root_red s.color pl ≡ false) × Balanced s.color h pl
    → (head_black s.color (in_left g gr up) ≡ true) × Holds s.color h (in_left g gr up)
    → Pending (left_rotate rb p s) rb n p (in_left n r (in_left g gr up)) pl l h
straight_left s rb p g n up l r pl gr h v e outer above =
    let t : Store = left_rotate rb p s in
    let kept = sym (left_rotate_kept rb p s).0 in
    let at_n : IsAt t rb g n (in_left g gr up) (node (node pl p l) n r) =
      left_rotate-IsAt s rb g p n pl l r (in_left g gr up)
        (parent_left_right s rb p g n pl gr up (node l n r) v.at) in
    let at_p =
      Focus-down_left t.left t.right t.parent (nil rb) (t.root rb) g n r (in_left g gr up)
        (node pl p l) at_n in
    record {
      at =
          subst (λ x. IsAt t rb n x (in_left n r (in_left g gr up)) (node pl p l)) at_p.stands.0
            at_p;
      red_n = subst (λ f. f p ≡ red) kept e;
      calm_l = subst (λ f. root_red f pl ≡ false) kept outer.0;
      calm_r = subst (λ f. root_red f l ≡ false) kept v.calm_l;
      balanced_l = subst (λ f. Balanced f h pl) kept outer.1;
      balanced_r = subst (λ f. Balanced f h l) kept v.balanced_l;
      holds =
          subst (λ f. Holds f h (in_left n r (in_left g gr up))) kept
            (v.balanced_r, inl (v.red_n, v.calm_r, above.0, above.1));
      sentinel = subst (λ f. f (nil rb) ≡ black) kept v.sentinel;
    }

pub straight_right :
    (s : Store) (rb p g n : ℕ) (up : Trail) (l r pr gl : Shape) (h : ℕ)
    → Pending s rb p n (in_left p pr (in_right gl g up)) l r h
    → s.color p ≡ red
    → (root_red s.color pr ≡ false) × Balanced s.color h pr
    → (head_black s.color (in_right gl g up) ≡ true) × Holds s.color h (in_right gl g up)
    → Pending (right_rotate rb p s) rb n p (in_right l n (in_right gl g up)) r pr h
straight_right s rb p g n up l r pr gl h v e outer above =
    let t : Store = right_rotate rb p s in
    let kept = sym (right_rotate_kept rb p s).0 in
    let at_n : IsAt t rb g n (in_right gl g up) (node l n (node r p pr)) =
      right_rotate-IsAt s rb g p n pr r l (in_right gl g up)
        (parent_right_left s rb p g n pr gl up (node l n r) v.at) in
    let at_p =
      Focus-down_right t.left t.right t.parent (nil rb) (t.root rb) g n l (in_right gl g up)
        (node r p pr) at_n in
    record {
      at =
          subst (λ x. IsAt t rb n x (in_right l n (in_right gl g up)) (node r p pr)) at_p.stands.0
            at_p;
      red_n = subst (λ f. f p ≡ red) kept e;
      calm_l = subst (λ f. root_red f r ≡ false) kept v.calm_r;
      calm_r = subst (λ f. root_red f pr ≡ false) kept outer.0;
      balanced_l = subst (λ f. Balanced f h r) kept v.balanced_r;
      balanced_r = subst (λ f. Balanced f h pr) kept outer.1;
      holds =
          subst (λ f. Holds f h (in_right l n (in_right gl g up))) kept
            (v.balanced_l, inl (v.red_n, v.calm_l, above.0, above.1));
      sentinel = subst (λ f. f (nil rb) ≡ black) kept v.sentinel;
    }
