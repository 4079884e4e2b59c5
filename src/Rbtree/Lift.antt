-- ===== src/Rbtree/Lift.antt =====
-- A red brother in `qp_rbtree_delete_fix`, src/core/qp_memory_core.c: it is rotated above the parent.
use qphi.Common.{
  ℕ, suc, ◌+◌, ◌≤◌, ◌≡◌, ◌≢◌, inl, inr, ◌∙◌, sym, subst, false, List, [], ◌∷◌, ◌++◌, has, count,
  count-append, arith,
}
use qphi.Memory.Chain.{Field, null}
use qphi.Rbtree.{Store, nil, red, black, paint, set_red, set_black, is_red, brother, parent}
use qphi.Rbtree.Shape.{Shape, node, nodes}
use qphi.Rbtree.Trail.{Trail, in_left, trail_nodes}
use qphi.Rbtree.Climb.{Focus-up_left, Focus-down_left}
use qphi.Rbtree.Balance.{root_red, Balanced, Holds}
use qphi.Rbtree.Repaint.{repaint-Balanced, repaint-Holds, repaint-root_red}
use qphi.Rbtree.Sides.{Side}
use qphi.Rbtree.Lacking.{At, Lacking, Lacking-set, link_lem, Stands-place, brother-far}
use qphi.Rbtree.Delete.{lift_brother}

-- The parent of a near child.
pub At-up :
    {rb : ℕ} (d : Side rb) (s : Store) (p x : ℕ) (u : Shape) (up : Trail) (t : Shape)
    → At d s p x (in_left p u up) t
    → At d s (s.parent p) p up (node t p u)
At-up {rb} d s p x u up t v =
    Focus-up_left (d.near s) (d.far s) s.parent (nil rb) (s.root rb) p x p u up t v

-- The rotation to the near side takes the subtree down with its parent.
pub to-At :
    {rb : ℕ} (d : Side rb) (s : Store) (p x : ℕ) (ul : Shape) (b : ℕ) (ur : Shape) (up : Trail)
    (t : Shape)
    → At d s p x (in_left p (node ul b ur) up) t
    → At d (d.to p s) p x (in_left p ul (in_left b ur up)) t
to-At {rb} d s p x ul b ur up t v =
    let s' : Store = d.to p s in
    let whole = d.to-Focus s (s.parent p) p b t ul ur up (At-up d s p x (node ul b ur) up t v) in
    let mid =
      Focus-down_left (d.near s') (d.far s') s'.parent (nil rb) (s'.root rb) (s.parent p) b ur up
        (node t p ul) whole in
    let mid_p : At d s' b p (in_left b ur up) (node t p ul) =
      subst (λ y. At d s' b y (in_left b ur up) (node t p ul)) mid.stands.0 mid in
    let low =
      Focus-down_left (d.near s') (d.far s') s'.parent (nil rb) (s'.root rb) b p ul
        (in_left b ur up) t mid_p in
    subst (λ y. At d s' p y (in_left p ul (in_left b ur up)) t)
      (Stands-place (d.near s) (d.far s) s.parent (d.near s') (d.far s') s'.parent (nil rb) p p x
        (d.near s' p) t v.stands low.stands)
      low

pub to-link :
    {rb : ℕ} (d : Side rb) (s : Store) (p x : ℕ) (ul : Shape) (b : ℕ) (ur : Shape) (up : Trail)
    (t : Shape)
    → At d s p x (in_left p (node ul b ur) up) t
    → s.parent x ≡ p
    → (d.to p s).parent x ≡ p
to-link {rb} d s p x ul b ur up t v l =
    let s' : Store = d.to p s in
    link_lem (d.near s') (d.far s') s.parent s'.parent (nil rb) p x t
      (to-At d s p x ul b ur up t v).stands
      (d.to_stop p s v.hangs.2 (λ e. v.hangs.4.1 (sym v.hangs.4.0 ∙ e))) l

-- What the lifting is.
lift_brother-red :
    (to : ℕ → Store → Store) (s : Store) (x p b : ℕ)
    → brother x s ≡ b
    → s.color b ≡ red
    → b ≢ null
    → x ≢ null
    → p ≢ null
    → s.parent x ≡ p
    → lift_brother to x s ≡ to p (record s { color = paint p red (paint b black s.color) })
unfolding lift_brother is_red set_black set_red parent
lift_brother-red to s x p b e c b_set x_set p_set l = ground arith

pub lift_brother-black :
    (to : ℕ → Store → Store) (s : Store) (x b : ℕ)
    → brother x s ≡ b
    → s.color b ≡ black
    → lift_brother to x s ≡ s
unfolding lift_brother is_red
lift_brother-black to s x b e c = ground arith

-- The colors of a red node below the trail.
red_far :
    (color : Field) (h p : ℕ) (ul : Shape) (b : ℕ) (ur : Shape) (up : Trail)
    → color b ≡ red
    → Holds color (suc h) (in_left p (node ul b ur) up)
    → (root_red color ul ≡ false)
      × (root_red color ur ≡ false)
      × Balanced color (suc h) ul
      × Balanced color (suc h) ur
      × (color p ≡ black)
      × Holds color (suc (suc h)) up
red_far color h p ul b ur up c (inl w, inr z) = (w.1, w.2, w.3, w.4, z.0, z.1)
red_far color h p ul b ur up c (inl w, inl z) = absurd (ground (arith, c, z.1))
red_far color h p ul b ur up c (inr w, z) = absurd (clash (sym c ∙ w.0))
  where
    clash : red ≡ black → ⊥
    clash e = ground arith

-- After the lifting the brother is black.
pub lifted :
    {rb : ℕ} (d : Side rb) (s : Store) (p x : ℕ) (ul : Shape) (b : ℕ) (ur : Shape) (up : Trail)
    (t : Shape) (h : ℕ)
    → Lacking d s p x (in_left p (node ul b ur) up) t h
    → s.color b ≡ red
    → (s' : Store) × (lift_brother d.to x s ≡ s')
      × Lacking d s' p x (in_left p ul (in_left b ur up)) t h
      × (root_red s'.color ul ≡ false)
      × (s'.color p ≡ red)
      × (s'.key ≡ s.key)
lifted {rb} d s p x ul b ur up t h v c =
    let ps : List ℕ = p ∷ b ∷ [] in
    let color' : Field = paint p red (paint b black s.color) in
    let s2 : Store = record s { color = color' } in
    let s3 : Store = d.to p s2 in
    let p_set : p ≢ null = v.at.hangs.3 in
    let b_set : b ≢ null = v.at.hangs.4.2 in
    let off : (y : ℕ) → has y ps ≡ false → color' y ≡ s.color y = λ y e. ground arith in
    let old = red_far s.color h p ul b ur up c v.holds in
    let total : (a : ℕ)
        → count a (nodes t)
            + count a (trail_nodes up)
            + count a (nodes ul)
            + count a (nodes ur)
            + count a ps
          ≤ 1 =
      λ a. omega (
        arith,
        v.at.unique a,
        count-append a (nodes ul ++ b ∷ nodes ur) (trail_nodes up),
        count-append a (nodes ul) (b ∷ nodes ur),
      ) in
    let painted : At d s2 p x (in_left p (node ul b ur) up) t =
      d.painted-Focus s color' p x (in_left p (node ul b ur) up) t v.at in
    let same = sym (d.to_kept p s2).0 in
    let p_b : p ≢ b = λ e. let k = total p in ground arith in
    let now : (color' p ≡ red) × (color' b ≡ black) = ground arith in
    let ul_calm : root_red color' ul ≡ false =
      repaint-root_red s.color color' ps off ul (λ a. omega (arith, total a)) ∙ old.0 in
    (
      s3,
      lift_brother-red d.to s x p b (brother-far d s p x ul b ur up t v.at v.link (Lacking-set v)) c
          b_set (Lacking-set v) p_set v.link,
      record {
        at = to-At d s2 p x ul b ur up t painted;
        link = to-link d s2 p x ul b ur up t painted v.link;
        stop_set = v.stop_set;
        balanced =
            subst (λ f. Balanced f h t) same
              (repaint-Balanced s.color color' ps off h t (λ a. omega (arith, total a)) v.balanced);
        holds =
            subst (λ f. Holds f (suc h) (in_left p ul (in_left b ur up))) same
              (
                repaint-Balanced s.color color' ps off (suc h) ul (λ a. omega (arith, total a))
                    old.2,
                inl (
                  now.0,
                  ul_calm,
                  ground (arith, now.1),
                  (
                    repaint-Balanced s.color color' ps off (suc h) ur (λ a. omega (arith, total a))
                        old.3,
                    inr (
                      now.1,
                      repaint-Holds s.color color' ps off (suc (suc h)) up
                          (λ a. omega (arith, total a)) old.5,
                    ),
                  ),
                ),
              );
        sentinel =
            subst (λ f. f (nil rb) ≡ black) same
              (off (nil rb) (ground (arith, v.at.hangs.2, v.at.hangs.4.1)) ∙ v.sentinel);
      },
      subst (λ f. root_red f ul ≡ false) same ul_calm,
      subst (λ f. f p ≡ red) same now.0,
      (d.to_kept p s2).1,
    )
