-- ===== src/Rbtree/Recolor.antt =====
-- The round of `qp_rbtree_insert_fix`, src/core/qp_memory_core.c, in which the uncle is red.
use qphi.Common.{
  ℕ, suc, ◌+◌, ◌≡◌, ◌≢◌, ◌⊎◌, inl, inr, refl, ◌∙◌, sym, true, false, List, [], ◌∷◌, ◌++◌, has,
  has-count, count, count-append, ◌≤◌, arith,
}
use qphi.Memory.Chain.{Field, null}
use qphi.Memory.Ring.{has-ne}
use qphi.Rbtree.{
  Store, nil, red, black, paint, set_black, set_red, is_red, is_left, parent, grandpa, uncle,
}
use qphi.Rbtree.Shape.{Shape, node, nodes}
use qphi.Rbtree.Trail.{Trail, trail_nodes}
use qphi.Rbtree.Turn.{IsAt}
use qphi.Rbtree.Balance.{root_red, Balanced, Holds, Balanced-same, Holds-same}
use qphi.Rbtree.Settle.{Pending}
use qphi.Rbtree.Insert.{recolor, insert_round}

-- The colors after the round.
abbrev pub recolored : (p u g : ℕ) → Field → Field
recolored p u g color = paint g red (paint u black (paint p black color))

-- `p` with the subtrees `x` and `y` is a child of `g`, whose other child `u` has `ul` and `ur`; above
-- is `up`, and no node is there twice. Painting `p`, `u` and `g` leaves the rest as it was.
module _ (color : Field) (p u g : ℕ) (up : Trail) (x y ul ur : Shape) (h : ℕ) (p_set : p ≢ null)
    (u_set : u ≢ null) (g_set : g ≢ null)
    (total : (a : ℕ)
      → count a (trail_nodes up)
          + (count a (nodes x) + count a (p ∷ nodes y))
          + (count a (nodes ul) + count a (u ∷ nodes ur))
          + count a (g ∷ [])
        ≤ 1) where
  apart : (p ≢ u) × (p ≢ g) × (u ≢ g)
  apart =
      let tp = total p in
      let tu = total u in (λ e. ground arith, λ e. ground arith, λ e. ground arith)

  recolored_lem :
      (recolored p u g color p ≡ black)
      × (recolored p u g color u ≡ black)
      × (recolored p u g color g ≡ red)
  recolored_lem = ground (arith, apart)

  -- A list without the three nodes keeps its colors.
  recolored_list :
      (xs : List ℕ)
      → ((a : ℕ) → (a ≡ p) ⊎ (a ≡ u) ⊎ (a ≡ g) → count a xs ≡ 0)
      → (y : ℕ) → has y xs ≡ true
      → recolored p u g color y ≡ color y
  recolored_list xs none_in y i =
      let y_p = has-ne y p xs i (has-count p xs (none_in p (inl refl))) in
      let y_u = has-ne y u xs i (has-count u xs (none_in u (inr (inl refl)))) in
      let y_g = has-ne y g xs i (has-count g xs (none_in g (inr (inr refl)))) in ground arith

  recolored-Balanced :
      (t : Shape)
      → ((a : ℕ) → (a ≡ p) ⊎ (a ≡ u) ⊎ (a ≡ g) → count a (nodes t) ≡ 0)
      → Balanced color h t
      → Balanced (recolored p u g color) h t
  recolored-Balanced t none_in =
      Balanced-same color (recolored p u g color) h t (recolored_list (nodes t) none_in)

  pub parent_side :
      Balanced color h x
      → Balanced color h y
      → Balanced (recolored p u g color) (suc h) (node x p y)
        × (root_red (recolored p u g color) (node x p y) ≡ false)
  parent_side bx by = (
    inr (
      recolored_lem.0,
      (
        h,
        refl,
        recolored-Balanced x (λ a k. let t = total a in ground arith) bx,
        recolored-Balanced y (λ a k. let t = total a in ground arith) by,
      ),
    ),
    ground (arith, recolored_lem),
  )

  pub uncle_side :
      color u ≡ red
      → Balanced color h (node ul u ur)
      → Balanced (recolored p u g color) (suc h) (node ul u ur)
        × (root_red (recolored p u g color) (node ul u ur) ≡ false)
  uncle_side u_red b = (
    elim b [
      | inl (c, rl, rr, bl, br) ↦ inr (
        recolored_lem.1,
        (
          h,
          refl,
          recolored-Balanced ul (λ a k. let t = total a in ground arith) bl,
          recolored-Balanced ur (λ a k. let t = total a in ground arith) br,
        ),
      )
      | inr (c, _) ↦ absurd (two_colors (sym u_red ∙ c))
    ],
    ground (arith, recolored_lem),
  )
    where
      two_colors : red ≡ black → ⊥
      two_colors e = ground arith

  pub rest_above : Holds color (suc h) up → Holds (recolored p u g color) (suc h) up
  rest_above =
      Holds-same color (recolored p u g color) (suc h) up
        (recolored_list (trail_nodes up) (λ a k. let t = total a in ground arith))

  pub red_above : recolored p u g color g ≡ red
  red_above = recolored_lem.2

-- The parent `p`, on the left of the grandparent `g`, and the uncle `u` become black, and `g` is red
-- in their place.
module _ (s : Store) (rb pg g p u : ℕ) (up : Trail) (x y ul ur : Shape) (h : ℕ)
    (bx : Balanced s.color h x) (by : Balanced s.color h y) (u_red : s.color u ≡ red)
    (bu : Balanced s.color h (node ul u ur)) (holds : Holds s.color (suc h) up)
    (sentinel : s.color (nil rb) ≡ black) where
  abbrev repainted : Store
  repainted = record s { color = recolored p u g s.color }

  pub recolored-Pending_left :
      IsAt s rb pg g up (node (node x p y) g (node ul u ur))
      → Pending repainted rb pg g up (node x p y) (node ul u ur) (suc h)
  recolored-Pending_left v =
      let total : (a : ℕ)
          → count a (trail_nodes up)
              + (count a (nodes x) + count a (p ∷ nodes y))
              + (count a (nodes ul) + count a (u ∷ nodes ur))
              + count a (g ∷ [])
            ≤ 1 =
        λ a. omega (
          arith,
          v.unique a,
          count-append a (nodes x ++ p ∷ nodes y) (g ∷ (nodes ul ++ u ∷ nodes ur)),
          count-append a (nodes x) (p ∷ nodes y),
          count-append a (nodes ul) (u ∷ nodes ur),
        ) in
      let p_set : p ≢ null = v.stands.4.2 in
      let u_set : u ≢ null = v.stands.5.2 in
      let g_set : g ≢ null = v.stands.2 in
      let ps = parent_side s.color p u g up x y ul ur h p_set u_set g_set total bx by in
      let us = uncle_side s.color p u g up x y ul ur h p_set u_set g_set total u_red bu in
      record {
        at = record { hangs = v.hangs; stands = v.stands; unique = v.unique };
        red_n = red_above s.color p u g up x y ul ur h p_set u_set g_set total;
        calm_l = ps.1;
        calm_r = us.1;
        balanced_l = ps.0;
        balanced_r = us.0;
        holds = rest_above s.color p u g up x y ul ur h p_set u_set g_set total holds;
        sentinel = ground (arith, sentinel, v.stands.1, v.stands.4.1, v.stands.5.1);
      }

  pub recolored-Pending_right :
      IsAt s rb pg g up (node (node ul u ur) g (node x p y))
      → Pending repainted rb pg g up (node ul u ur) (node x p y) (suc h)
  recolored-Pending_right v =
      let total : (a : ℕ)
          → count a (trail_nodes up)
              + (count a (nodes x) + count a (p ∷ nodes y))
              + (count a (nodes ul) + count a (u ∷ nodes ur))
              + count a (g ∷ [])
            ≤ 1 =
        λ a. omega (
          arith,
          v.unique a,
          count-append a (nodes ul ++ u ∷ nodes ur) (g ∷ (nodes x ++ p ∷ nodes y)),
          count-append a (nodes x) (p ∷ nodes y),
          count-append a (nodes ul) (u ∷ nodes ur),
        ) in
      let p_set : p ≢ null = v.stands.5.2 in
      let u_set : u ≢ null = v.stands.4.2 in
      let g_set : g ≢ null = v.stands.2 in
      let ps = parent_side s.color p u g up x y ul ur h p_set u_set g_set total bx by in
      let us = uncle_side s.color p u g up x y ul ur h p_set u_set g_set total u_red bu in
      record {
        at = record { hangs = v.hangs; stands = v.stands; unique = v.unique };
        red_n = red_above s.color p u g up x y ul ur h p_set u_set g_set total;
        calm_l = us.1;
        calm_r = ps.1;
        balanced_l = us.0;
        balanced_r = ps.0;
        holds = rest_above s.color p u g up x y ul ur h p_set u_set g_set total holds;
        sentinel = ground (arith, sentinel, v.stands.1, v.stands.4.1, v.stands.5.1);
      }

-- The round, where the parent and the uncle are the two children of the grandparent.
pub red_uncle :
    (s : Store) (rb n p g u : ℕ)
    → n ≢ null
    → p ≢ null
    → u ≢ null
    → g ≢ null
    → s.parent n ≡ p
    → s.parent p ≡ g
    → ((s.left g ≡ p) × (s.right g ≡ u)) ⊎ ((s.left g ≡ u) × (s.right g ≡ p) × (p ≢ u))
    → s.color u ≡ red
    → insert_round rb n s ≡ (g, record s { color = recolored p u g s.color })
unfolding insert_round is_red uncle grandpa parent is_left recolor set_black set_red
red_uncle s rb n p g u n_set p_set u_set g_set np pg sides ur = elim sides [
  | inl (a, b) ↦ ground arith
  | inr (a, b, c) ↦ ground arith
]
