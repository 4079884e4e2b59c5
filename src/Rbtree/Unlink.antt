-- ===== src/Rbtree/Unlink.antt =====
-- Taking a node with one child at most out of its place in `qp_rbtree_delete`,
-- src/core/qp_memory_core.c: the child takes the place.
use qphi.Common.{
  ℕ, ◌+◌, ◌≤◌, ◌≡◌, ◌≢◌, inl, inr, refl, ◌∙◌, sym, subst, true, false, ◌++◌, has, has-append,
  Bool-cases, count, count-append, Distinct, Distinct-count, Distinct-parts, arith, ◌==◌,
  if◌then◌else◌,
}
use qphi.Memory.Chain.{Field, null, update}
use qphi.Memory.Ring.{has-ne}
use qphi.Rbtree.{Store, nil, parent, is_left}
use qphi.Rbtree.Shape.{Shape, nodes, Stands}
use qphi.Rbtree.Trail.{
  Trail, top, in_left, in_right, trail_nodes, Hangs, Same, Stands-Same, Stands-move, Hangs-Same,
  Stands-root, Hangs-stop,
}
use qphi.Rbtree.Focus.{Focus}
use qphi.Rbtree.Delete.{unlink}

-- The subtree `t` at `tmp` below `sub`, and what is above `sub`: the fields, before and after.
module _ (lf rt pa : Field) (stop root p sub tmp : ℕ) (t : Shape)
    (low : Stands lf rt pa stop sub tmp t) where
  tmp_away :
      (c : Trail)
      → Hangs lf rt pa stop root p sub c
      → ((a : ℕ) → count a (trail_nodes c) + count a (nodes t) ≤ 1)
      → (b : ℕ) → has b (trail_nodes c) ≡ true
      → (b ≢ tmp) × (has b (nodes t) ≡ false)
  tmp_away c v single b i =
      let parts = Distinct-parts (trail_nodes c) (nodes t) (
        Distinct-count (trail_nodes c ++ nodes t)
          (λ a. omega (arith, single a, count-append a (trail_nodes c) (nodes t)))) in
      (
        λ e. elim (Stands-root lf rt pa stop sub tmp t low) [
          | inl z ↦
              has-ne b stop (trail_nodes c) i (Hangs-stop lf rt pa stop root p sub c v)
                (sym (e ∙ z))
          | inr j ↦ has-ne b tmp (trail_nodes c) i (parts.2 tmp j) (sym e)
        ],
        elim (Bool-cases (has b (nodes t))) [
          | inl j ↦ absurd (clash (sym i ∙ parts.2 b j))
          | inr j ↦ j
        ],
      )
    where
      clash : true ≡ false → ⊥
      clash e = ground arith

  -- The subtree below its new parent.
  raised :
      (lf' rt' : Field)
      → Distinct (nodes t)
      → ((a : ℕ) → has a (nodes t) ≡ true → (lf' a ≡ lf a) × (rt' a ≡ rt a))
      → Stands lf' rt' (update pa tmp p) stop p tmp t
  raised lf' rt' d same =
      Stands-move lf rt pa lf' rt' (update pa tmp p) stop sub p tmp t d same
        (λ a i ne. ground arith) (λ ne. ground arith) low

  single-Distinct :
      (c : Trail) → ((a : ℕ) → count a (trail_nodes c) + count a (nodes t) ≤ 1) → Distinct (nodes t)
  single-Distinct c single = Distinct-count (nodes t) (λ a. omega (arith, single a))

  pub gone_top :
      Hangs lf rt pa stop root p sub top
      → ((a : ℕ) → count a (nodes t) ≤ 1)
      → Focus lf rt (update pa tmp p) stop tmp p tmp top t
  gone_top v single = record {
    hangs = (refl, v.1);
    stands = raised lf rt (Distinct-count (nodes t) single) (λ a i. (refl, refl));
    unique = λ a. omega (arith, single a);
  }

  pub gone_left :
      (u : Shape) (up : Trail)
      → Hangs lf rt pa stop root p sub (in_left p u up)
      → ((a : ℕ) → count a (trail_nodes (in_left p u up)) + count a (nodes t) ≤ 1)
      → Focus (update lf p tmp) rt (update pa tmp p) stop root p tmp (in_left p u up) t
  gone_left u up v single =
      let away = tmp_away (in_left p u up) v single in
      let p_in = away p (ground arith) in
      let d =
        (Distinct-parts (trail_nodes (in_left p u up)) (nodes t) (
          Distinct-count (trail_nodes (in_left p u up) ++ nodes t) (λ a.
            omega (arith, single a, count-append a (trail_nodes (in_left p u up)) (nodes t))))).0 in
      let same : (b : ℕ)
          → has b (nodes u ++ trail_nodes up) ≡ true
          → Same lf rt pa (update lf p tmp) rt (update pa tmp p) b =
        λ b i.
          let b_p = has-ne b p (nodes u ++ trail_nodes up) i d.0 in
          let b_t = (away b (ground (arith, i))).0 in ground arith in
      let pa_p : update pa tmp p p ≡ pa p = ground arith in
      record {
        hangs = (
          refl,
          ground arith,
          v.2,
          v.3,
          Stands-Same lf rt pa (update lf p tmp) rt (update pa tmp p) stop p (rt p) u
              (λ b i. same b (ground (arith, has-append b (nodes u) (trail_nodes up)))) v.4,
          subst (λ y. Hangs (update lf p tmp) rt (update pa tmp p) stop root y p up) (sym pa_p)
              (Hangs-Same lf rt pa (update lf p tmp) rt (update pa tmp p) stop root (pa p) p up
                (λ b i. same b (ground (arith, has-append b (nodes u) (trail_nodes up)))) v.5),
        );
        stands =
            raised (update lf p tmp) rt (single-Distinct (in_left p u up) single)
              (λ a i. let ne = has-ne a p (nodes t) i p_in.1 in (ground arith, refl));
        unique = single;
      }

  pub gone_right :
      (u : Shape) (up : Trail)
      → Hangs lf rt pa stop root p sub (in_right u p up)
      → ((a : ℕ) → count a (trail_nodes (in_right u p up)) + count a (nodes t) ≤ 1)
      → Focus lf (update rt p tmp) (update pa tmp p) stop root p tmp (in_right u p up) t
  gone_right u up v single =
      let away = tmp_away (in_right u p up) v single in
      let p_in = away p (ground arith) in
      let d =
        (Distinct-parts (trail_nodes (in_right u p up)) (nodes t) (
          Distinct-count (trail_nodes (in_right u p up) ++ nodes t) (λ a.
            omega
              (arith, single a, count-append a (trail_nodes (in_right u p up)) (nodes t))))).0 in
      let same : (b : ℕ)
          → has b (nodes u ++ trail_nodes up) ≡ true
          → Same lf rt pa lf (update rt p tmp) (update pa tmp p) b =
        λ b i.
          let b_p = has-ne b p (nodes u ++ trail_nodes up) i d.0 in
          let b_t = (away b (ground (arith, i))).0 in ground arith in
      let pa_p : update pa tmp p p ≡ pa p = ground arith in
      record {
        hangs = (
          refl,
          ground arith,
          v.2,
          v.3,
          Stands-Same lf rt pa lf (update rt p tmp) (update pa tmp p) stop p (lf p) u
              (λ b i. same b (ground (arith, has-append b (nodes u) (trail_nodes up)))) v.4,
          subst (λ y. Hangs lf (update rt p tmp) (update pa tmp p) stop root y p up) (sym pa_p)
              (Hangs-Same lf rt pa lf (update rt p tmp) (update pa tmp p) stop root (pa p) p up
                (λ b i. same b (ground (arith, has-append b (nodes u) (trail_nodes up)))) v.5),
        );
        stands =
            raised lf (update rt p tmp) (single-Distinct (in_right u p up) single)
              (λ a i. let ne = has-ne a p (nodes t) i p_in.1 in (refl, ground arith));
        unique = single;
      }

-- The key and the data that the node takes over.
abbrev pub taken_over : (n sub : ℕ) → Field → Field
taken_over n sub f = if n == sub then f else update f n (f sub)

-- What the assignments come to.
pub unlink_top :
    (rb n sub p tmp : ℕ) (s : Store)
    → (if nil rb == s.left sub then s.right sub else s.left sub) ≡ tmp
    → sub ≢ null
    → s.parent sub ≡ p
    → p ≡ nil rb
    → unlink rb n sub s ≡ (
      tmp,
      record s {
        parent = update s.parent tmp p;
        root = update s.root rb tmp;
        key = taken_over n sub s.key;
        node_data = taken_over n sub s.node_data;
      },
    )
unfolding unlink parent
unlink_top rb n sub p tmp s e set l stop = ground arith

pub unlink_left :
    (rb n sub p tmp : ℕ) (s : Store)
    → (if nil rb == s.left sub then s.right sub else s.left sub) ≡ tmp
    → sub ≢ null
    → s.parent sub ≡ p
    → p ≢ nil rb
    → s.left p ≡ sub
    → unlink rb n sub s ≡ (
      tmp,
      record s {
        parent = update s.parent tmp p;
        left = update s.left p tmp;
        key = taken_over n sub s.key;
        node_data = taken_over n sub s.node_data;
      },
    )
unfolding unlink parent is_left
unlink_left rb n sub p tmp s e set l stop side = ground arith

pub unlink_right :
    (rb n sub p tmp : ℕ) (s : Store)
    → (if nil rb == s.left sub then s.right sub else s.left sub) ≡ tmp
    → sub ≢ null
    → s.parent sub ≡ p
    → p ≢ nil rb
    → s.left p ≢ sub
    → unlink rb n sub s ≡ (
      tmp,
      record s {
        parent = update s.parent tmp p;
        right = update s.right p tmp;
        key = taken_over n sub s.key;
        node_data = taken_over n sub s.node_data;
      },
    )
unfolding unlink parent is_left
unlink_right rb n sub p tmp s e set l stop side = ground arith
