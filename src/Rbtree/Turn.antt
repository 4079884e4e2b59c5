-- ===== src/Rbtree/Turn.antt =====
-- What the nodes around a rotation in a tree of src/core/qp_memory_core.c are not.
use qphi.Common.{
  ℕ, ◌≡◌, ◌≢◌, ◌⊎◌, inl, inr, ◌∙◌, sym, true, false, ◌∷◌, ◌++◌, has, has-append, arith,
}
use qphi.Memory.Chain.{Field}
use qphi.Memory.Ring.{has-ne}
use qphi.Memory.Queue.{Distinct-around}
use qphi.Rbtree.{Store, nil}
use qphi.Rbtree.Shape.{Shape, node, nodes, Stands}
use qphi.Rbtree.Trail.{Trail, top, in_left, in_right, trail_nodes, Stands-root, Hangs-root}
use qphi.Rbtree.Focus.{Focus, Focus-Distinct, Focus-above}

-- The subtree `t` of the tree `rb` stands at `x` below `p`.
abbrev pub IsAt : Store → (rb p x : ℕ) → Trail → Shape → Type 0
IsAt s rb p x c t = Focus s.left s.right s.parent (nil rb) (s.root rb) p x c t

-- What the places of a rotation are not.
module _ (lf rt pa : Field) (stop root p n r : ℕ) (c : Trail) (a b d : Shape)
    (v : Focus lf rt pa stop root p n c (node a n (node b r d))) where
  pub apart_nodes : (r ≢ n) × (p ≢ n) × (p ≢ r) × (lf r ≢ r) × (lf r ≢ n)
  apart_nodes =
      let o = Distinct-around n (nodes a) (nodes b ++ r ∷ nodes d) (Focus-Distinct v).1 in
      let i = Distinct-around r (nodes b) (nodes d) o.1.1 in
      let r_in : has r (nodes b ++ r ∷ nodes d) ≡ true =
        ground (arith, has-append r (nodes b) (r ∷ nodes d)) in
      let n_b : has n (nodes b) ≡ false =
        ground (arith, o.1.0, has-append n (nodes b) (r ∷ nodes d)) in
      let n_r : n ≢ r = has-ne r n (nodes b ++ r ∷ nodes d) r_in o.1.0 in
      let above : (p ≢ n) × (p ≢ r) = ground (
        arith,
        Focus-above v,
        has-append p (nodes a) (n ∷ (nodes b ++ r ∷ nodes d)),
        has-append p (nodes b) (r ∷ nodes d),
      ) in
      let mid = Stands-root lf rt pa stop r (lf r) b v.stands.5.4 in
      (
        λ e. n_r (sym e),
        above.0,
        above.1,
        λ e. elim mid [
          | inl z ↦ v.stands.5.1 (sym e ∙ z)
          | inr z ↦ has-ne (lf r) r (nodes b) z i.2 (sym e)
        ],
        λ e. elim mid [
          | inl z ↦ v.stands.1 (sym e ∙ z)
          | inr z ↦ has-ne (lf r) n (nodes b) z n_b (sym e)
        ],
      )

  -- The node is the root only at the top, and is on the side that the trail says.
  pub sides : (c ≡ top) ⊎ (n ≢ root)
  sides = elim (Hangs-root lf rt pa stop root p n c v.hangs) [
    | inl (_, _, e) ↦ inl e
    | inr (i, _) ↦ inr (λ e.
        has-ne root n (trail_nodes c) i
          ((Focus-Distinct v).2 n
            (ground (arith, has-append n (nodes a) (n ∷ (nodes b ++ r ∷ nodes d)))))
          e)
  ]

pub below_top : (e : ℕ) (u : Shape) (up : Trail) → in_left e u up ≢ top
below_top e u up h = ground arith

pub below_top' : (e : ℕ) (u : Shape) (up : Trail) → in_right u e up ≢ top
below_top' e u up h = ground arith

-- The other child of the parent is another one.
pub other_side :
    (lf rt pa : Field) (stop root p n : ℕ) (c : Trail) (t : Shape) (q : ℕ) (u : Shape)
    → Focus lf rt pa stop root p n c t
    → n ≢ stop
    → has n (nodes t) ≡ true
    → Stands lf rt pa stop p q u
    → ((x : ℕ) → has x (nodes u) ≡ true → has x (trail_nodes c) ≡ true)
    → q ≢ n
other_side lf rt pa stop root p n c t q u v n_stop i w inside e =
    elim (Stands-root lf rt pa stop p q u w) [
      | inl z ↦ n_stop (sym e ∙ z)
      | inr z ↦ has-ne q n (trail_nodes c) (inside q z) ((Focus-Distinct v).2 n i) (sym e)
    ]
