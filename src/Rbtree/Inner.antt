-- ===== src/Rbtree/Inner.antt =====
-- The turn of the brother in `qp_rbtree_delete_fix`, src/core/qp_memory_core.c: its near child is red and
-- the far one black.
use qphi.Common.{
  ℕ, suc, ◌+◌, ◌≤◌, ◌≡◌, ◌≢◌, inl, inr, refl, ◌∙◌, sym, subst, false, [], ◌∷◌, ◌++◌, has, count,
  count-append, arith, ◌==◌,
}
use qphi.Memory.Chain.{Field, null}
use qphi.Rbtree.{Store, nil, red, black, paint}
use qphi.Rbtree.Shape.{Shape, node, nodes}
use qphi.Rbtree.Trail.{Trail, in_left, in_right, trail_nodes}
use qphi.Rbtree.Climb.{Focus-down_left, Focus-down_right, Focus-up_right}
use qphi.Rbtree.Balance.{root_red, Balanced, Holds}
use qphi.Rbtree.Repaint.{repaint-Balanced, repaint-Holds, repaint-root_red, repaint-head_black}
use qphi.Rbtree.Sides.{Side}
use qphi.Rbtree.Lacking.{At, Lacking, Stands-place, link_lem}
use qphi.Rbtree.Lift.{At-up}
use qphi.Rbtree.Sink.{black_far}

-- The rotation of the brother away from the near side leaves the subtree where it stands.
off-At :
    {rb : ℕ} (d : Side rb) (s : Store) (p x : ℕ) (m : Shape) (e : ℕ) (n : Shape) (b : ℕ)
    (ur : Shape) (up : Trail) (t : Shape)
    → At d s p x (in_left p (node (node m e n) b ur) up) t
    → At d (d.off b s) p x (in_left p (node m e (node n b ur)) up) t
off-At {rb} d s p x m e n b ur up t v =
    let s' : Store = d.off b s in
    let at_b =
      Focus-down_right (d.near s) (d.far s) s.parent (nil rb) (s.root rb) (s.parent p) p t up
        (node (node m e n) b ur) (At-up d s p x (node (node m e n) b ur) up t v) in
    let at_b' : At d s p b (in_right t p up) (node (node m e n) b ur) =
      subst (λ y. At d s p y (in_right t p up) (node (node m e n) b ur)) at_b.stands.0 at_b in
    let at_e = d.off-Focus s p b e ur n m (in_right t p up) at_b' in
    let at_p =
      Focus-up_right (d.near s') (d.far s') s'.parent (nil rb) (s'.root rb) p e p t up
        (node m e (node n b ur)) at_e in
    let low =
      Focus-down_left (d.near s') (d.far s') s'.parent (nil rb) (s'.root rb) (s'.parent p) p
        (node m e (node n b ur)) up t at_p in
    subst (λ y. At d s' p y (in_left p (node m e (node n b ur)) up) t)
      (Stands-place (d.near s) (d.far s) s.parent (d.near s') (d.far s') s'.parent (nil rb) p p x
        (d.near s' p) t v.stands low.stands)
      low

abbrev pub inner : (e b : ℕ) → Field → Field
inner e b color = paint b red (paint e black color)

module _ {rb : ℕ} (d : Side rb) (s : Store) (p x : ℕ) (m : Shape) (e : ℕ) (n : Shape) (b : ℕ)
    (ur : Shape) (up : Trail) (t : Shape) (h : ℕ)
    (v : Lacking d s p x (in_left p (node (node m e n) b ur) up) t h) (b_black : s.color b ≡ black)
    (e_red : s.color e ≡ red) (ur_calm : root_red s.color ur ≡ false) where
  abbrev new_color : Field
  new_color = inner e b s.color

  abbrev painted : Store
  painted = record s { color = new_color }

  abbrev pub inner_store : Store
  inner_store = d.off b painted

  inner_total :
      (a : ℕ)
      → count a (nodes t)
          + count a (p ∷ trail_nodes up)
          + count a (nodes m)
          + count a (nodes n)
          + count a (nodes ur)
          + count a (e ∷ b ∷ [])
        ≤ 1
  inner_total a = omega (
    arith,
    v.at.unique a,
    count-append a ((nodes m ++ e ∷ nodes n) ++ b ∷ nodes ur) (trail_nodes up),
    count-append a (nodes m ++ e ∷ nodes n) (b ∷ nodes ur),
    count-append a (nodes m) (e ∷ nodes n),
  )

  inner_off : (y : ℕ) → has y (e ∷ b ∷ []) ≡ false → new_color y ≡ s.color y
  inner_off y i = ground arith

  inner_now : (new_color e ≡ black) × (new_color b ≡ red) × (new_color p ≡ s.color p)
  inner_now =
      let sets : (b ≢ null) × (e ≢ null) = (v.at.hangs.4.2, v.at.hangs.4.4.2) in
      let k = inner_total e in let j = inner_total p in ground arith

  inner_side :
      (h' : ℕ) (u : Shape)
      → ((a : ℕ) → count a (nodes u) + count a (e ∷ b ∷ []) ≤ 1)
      → Balanced s.color h' u
      → Balanced new_color h' u
  inner_side h' u = repaint-Balanced s.color new_color (e ∷ b ∷ []) inner_off h' u

  inner_calm :
      (u : Shape)
      → ((a : ℕ) → count a (nodes u) + count a (e ∷ b ∷ []) ≤ 1)
      → root_red s.color u ≡ false
      → root_red new_color u ≡ false
  inner_calm u apart c = repaint-root_red s.color new_color (e ∷ b ∷ []) inner_off u apart ∙ c

  inner_brother : Balanced new_color (suc h) (node m e (node n b ur))
  inner_brother =
      let far = black_far s.color h p (node m e n) b ur up b_black v.holds in
      elim far.0 [
        | inl (_, mc, nc, bm, bn) ↦ inr (
          inner_now.0,
          (
            h,
            refl,
            inner_side h m (λ a. omega (arith, inner_total a)) bm,
            inl (
              inner_now.1,
              inner_calm n (λ a. omega (arith, inner_total a)) nc,
              inner_calm ur (λ a. omega (arith, inner_total a)) ur_calm,
              inner_side h n (λ a. omega (arith, inner_total a)) bn,
              inner_side h ur (λ a. omega (arith, inner_total a)) far.1,
            ),
          ),
        )
        | inr w ↦ absurd (no_color s.color e e_red w.0)
      ]
    where
      no_color : (color : Field) (p : ℕ) → color p ≡ red → color p ≡ black → ⊥
      no_color color p e f = ground arith

  inner_above : (j : ℕ) → Holds s.color j up → Holds new_color j up
  inner_above j =
      repaint-Holds s.color new_color (e ∷ b ∷ []) inner_off j up
        (λ a. omega (arith, inner_total a))

  inner-Holds : Holds new_color (suc h) (in_left p (node m e (node n b ur)) up)
  inner-Holds =
      let far = black_far s.color h p (node m e n) b ur up b_black v.holds in
      (
        inner_brother,
        elim far.2 [
          | inl (p_red, hb, above) ↦ inl (
            inner_now.2 ∙ p_red,
            black_test new_color e inner_now.0,
            repaint-head_black s.color new_color (e ∷ b ∷ []) inner_off up
                  (λ a. omega (arith, inner_total a))
                ∙ hb,
            inner_above (suc h) above,
          )
          | inr (p_black, above) ↦ inr (inner_now.2 ∙ p_black, inner_above (suc (suc h)) above)
        ],
      )
    where
      black_test : (color : Field) (b : ℕ) → color b ≡ black → (color b == red) ≡ false
      black_test color b e = ground arith

  -- The near child is the brother now, black with a red far child.
  pub inner-Lacking :
      Lacking d inner_store p x (in_left p (node m e (node n b ur)) up) t h
      × (inner_store.color e ≡ black)
      × (inner_store.color b ≡ red)
      × (inner_store.key ≡ s.key)
  inner-Lacking =
      let same = sym (d.off_kept b painted).0 in
      let seen = d.painted-Focus s new_color p x (in_left p (node (node m e n) b ur) up) t v.at in
      let there = off-At d painted p x m e n b ur up t seen in
      (
        record {
          at = there;
          link =
              link_lem (d.near inner_store) (d.far inner_store) s.parent inner_store.parent (nil rb)
                p x t there.stands
                (d.off_stop b painted v.at.hangs.4.1
                  (λ z. v.at.hangs.4.4.1 (sym seen.hangs.4.4.0 ∙ z)))
                v.link;
          stop_set = v.stop_set;
          balanced =
              subst (λ c. Balanced c h t) same
                (inner_side h t (λ a. omega (arith, inner_total a)) v.balanced);
          holds =
              subst (λ c. Holds c (suc h) (in_left p (node m e (node n b ur)) up)) same inner-Holds;
          sentinel =
              subst (λ c. c (nil rb) ≡ black) same
                (inner_off (nil rb) (not_stop e b v.at.hangs.4.4.1 v.at.hangs.4.1) ∙ v.sentinel);
        },
        subst (λ c. c e ≡ black) same inner_now.0,
        subst (λ c. c b ≡ red) same inner_now.1,
        (d.off_kept b painted).1,
      )
    where
      not_stop : (e b : ℕ) → e ≢ nil rb → b ≢ nil rb → has (nil rb) (e ∷ b ∷ []) ≡ false
      not_stop e b i j = ground arith
