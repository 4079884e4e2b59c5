-- ===== src/Rbtree/Settle.antt =====
-- The last round of `qp_rbtree_insert_fix`, src/core/qp_memory_core.c: the node is the root, or its
-- parent is black.
use qphi.Common.{
  ℕ, suc, ◌≡◌, ◌≢◌, ◌⊎◌, inl, inr, refl, true, false, ◌∷◌, has, has-append, Distinct, arith, ◌==◌,
  some,
}
use qphi.Memory.Chain.{Field}
use qphi.Memory.Ring.{has-ne}
use qphi.Memory.Queue.{Distinct-around}
use qphi.Rbtree.{Store, nil, red, black, paint, set_black, is_red, parent}
use qphi.Rbtree.Shape.{Shape, leaf, node, nodes, Stands}
use qphi.Rbtree.Trail.{Trail, top, in_left, in_right, plug, trail_nodes, Hangs-root}
use qphi.Rbtree.Focus.{Focus-Distinct}
use qphi.Rbtree.Turn.{IsAt, below_top, below_top'}
use qphi.Rbtree.Climb.{Focus-plug}
use qphi.Rbtree.Balance.{root_red, Balanced, head_black, Holds, Balanced-same, Balanced-plug}
use qphi.Rbtree.Insert.{insert_fix}

-- What the repair loop is in the middle of: the node `n` is red, and so may be its parent; all else is
-- balanced.
pub record Pending (s : Store) (rb p n : ℕ) (c : Trail) (l r : Shape) (h : ℕ) : Type 0 where
  pub at : IsAt s rb p n c (node l n r)
  pub red_n : s.color n ≡ red
  pub calm_l : root_red s.color l ≡ false
  pub calm_r : root_red s.color r ≡ false
  pub balanced_l : Balanced s.color h l
  pub balanced_r : Balanced s.color h r
  pub holds : Holds s.color h c
  pub sentinel : s.color (nil rb) ≡ black

-- The tree `t` of the store: its shape, its colors with a black root, and its nodes.
pub record IsRbtree (s : Store) (rb : ℕ) (t : Shape) : Type 0 where
  pub at : IsAt s rb (nil rb) (s.root rb) top t
  pub height : ℕ
  pub balanced : Balanced s.color height t
  pub black_root : root_red s.color t ≡ false
  pub sentinel : s.color (nil rb) ≡ black

-- The root of a balanced tree painted black.
paint-Balanced :
    (color lf rt pa : Field) (stop p x k : ℕ) (t : Shape)
    → Stands lf rt pa stop p x t
    → Distinct (nodes t)
    → Balanced color k t
    → ((j : ℕ) × Balanced (paint x black color) j t) × (root_red (paint x black color) t ≡ false)
paint-Balanced color lf rt pa stop p x k leaf v d b = ((k, b), refl)
paint-Balanced color lf rt pa stop p x k (node l a r) v d b =
    let around = Distinct-around a (nodes l) (nodes r) d in
    let same_l : (y : ℕ) → has y (nodes l) ≡ true → paint x black color y ≡ color y =
      λ y i. let ne = has-ne y a (nodes l) i around.2 in ground (arith, v.0) in
    let same_r : (y : ℕ) → has y (nodes r) ≡ true → paint x black color y ≡ color y =
      λ y i. let ne = has-ne y a (nodes r) i around.1.0 in ground (arith, v.0) in
    let now : paint x black color a ≡ black = ground (arith, v.0, v.2) in
    (
      elim b [
        | inl (c, rl, rr, bl, br) ↦ (
          suc k,
          inr (
            now,
            (
              k,
              refl,
              Balanced-same color (paint x black color) k l same_l bl,
              Balanced-same color (paint x black color) k r same_r br,
            ),
          ),
        )
        | inr (c, (j, e, bl, br)) ↦ (
          k,
          inr (
            now,
            (
              j,
              e,
              Balanced-same color (paint x black color) j l same_l bl,
              Balanced-same color (paint x black color) j r same_r br,
            ),
          ),
        )
      ],
      ground (arith, now),
    )

-- Painting the root black makes a balanced tree with a red root a red-black tree.
pub settle :
    (s : Store) (rb p n k : ℕ) (c : Trail) (t : Shape)
    → IsAt s rb p n c t
    → Balanced s.color k (plug c t)
    → s.color (nil rb) ≡ black
    → IsRbtree (set_black (s.root rb) s) rb (plug c t)
unfolding set_black
settle s rb p n k c t v b sentinel =
    let whole = Focus-plug s.left s.right s.parent (nil rb) (s.root rb) p n c t v in
    let painted =
      paint-Balanced s.color s.left s.right s.parent (nil rb) (nil rb) (s.root rb) k (plug c t)
        whole.stands (Focus-Distinct whole).1 b in
    record {
      at = record { hangs = whole.hangs; stands = whole.stands; unique = whole.unique };
      height = painted.0.0;
      balanced = painted.0.1;
      black_root = painted.1;
      sentinel = ground (arith, sentinel);
    }

-- Only at the top stands the root.
pub below_root :
    (s : Store) (rb p n : ℕ) (c : Trail) (l r : Shape)
    → IsAt s rb p n c (node l n r)
    → (c ≡ top) ⊎ (n ≢ s.root rb)
below_root s rb p n c l r v =
    elim (Hangs-root s.left s.right s.parent (nil rb) (s.root rb) p n c v.hangs) [
      | inl (_, _, e) ↦ inl e
      | inr (i, _) ↦ inr (λ e.
          has-ne (s.root rb) n (trail_nodes c) i
            ((Focus-Distinct v).2 n (ground (arith, has-append n (nodes l) (n ∷ nodes r)))) e)
    ]

-- The round that ends the loop.
pub insert_fix-last :
    (f : ℕ) (s : Store) (rb p n : ℕ) (c : Trail) (l r : Shape) (h : ℕ)
    → Pending s rb p n c l r h
    → (c ≡ top) ⊎ (head_black s.color c ≡ true)
    → (insert_fix (suc f) rb n s ≡ some (set_black (s.root rb) s))
      × IsRbtree (set_black (s.root rb) s) rb (plug c (node l n r))
unfolding insert_fix is_red parent
insert_fix-last f s rb p n top l r h v calm = (
  ground (arith, v.at.hangs),
  settle s rb p n h top (node l n r) v.at
      (inl (v.red_n, v.calm_l, v.calm_r, v.balanced_l, v.balanced_r)) v.sentinel,
)
insert_fix-last f s rb p n (in_left a u up) l r h v calm =
    let place = below_root s rb p n (in_left a u up) l r v.at in
    let hb : s.color a == black ≡ true = ground (arith, calm, below_top a u up) in
    let whole =
      Balanced-plug s.color h (in_left a u up) (node l n r)
        (inl (v.red_n, v.calm_l, v.calm_r, v.balanced_l, v.balanced_r)) (inr hb) v.holds in
    (
      ground (arith, place, below_top a u up, hb, v.at.hangs, v.at.stands),
      settle s rb p n whole.0 (in_left a u up) (node l n r) v.at whole.1 v.sentinel,
    )
insert_fix-last f s rb p n (in_right u a up) l r h v calm =
    let place = below_root s rb p n (in_right u a up) l r v.at in
    let hb : s.color a == black ≡ true = ground (arith, calm, below_top' a u up) in
    let whole =
      Balanced-plug s.color h (in_right u a up) (node l n r)
        (inl (v.red_n, v.calm_l, v.calm_r, v.balanced_l, v.balanced_r)) (inr hb) v.holds in
    (
      ground (arith, place, below_top' a u up, hb, v.at.hangs, v.at.stands),
      settle s rb p n whole.0 (in_right u a up) (node l n r) v.at whole.1 v.sentinel,
    )
