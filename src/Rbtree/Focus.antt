-- ===== src/Rbtree/Focus.antt =====
-- A tree of src/core/qp_memory_core.c seen from a place in it, and the left rotation there.
use qphi.Common.{
  ℕ, ◌+◌, ◌≤◌, ◌≡◌, ◌≢◌, inl, inr, ◌∙◌, sym, subst, true, false, ◌∷◌, ◌++◌, has, has-append,
  Distinct, Distinct-parts, Distinct-count, count, count-append, arith, Bool-cases,
}
use qphi.Memory.Chain.{Field}
use qphi.Memory.Ring.{has-ne}
use qphi.Rbtree.Shape.{Shape, node, nodes, Stands}
use qphi.Rbtree.Trail.{Trail, trail_nodes, Hangs, Stands-root, Stands-stop, Hangs-root, Hangs-stop}
use qphi.Rbtree.Rotate.{Turned, Turned-Stands, Linked, Turned-Hangs}
use qphi.Rbtree.Mirror.{
  mirror-mirror, mirror_trail-mirror_trail, mirror, mirror_trail, count-mirror, count-mirror_trail,
  Stands-mirror, Hangs-mirror,
}

-- The subtree `t` stands at `x` in the place `c`, below `p`, and no node is in the tree twice.
pub record Focus (lf rt pa : Field) (stop root p x : ℕ) (c : Trail) (t : Shape) : Type 0 where
  pub hangs : Hangs lf rt pa stop root p x c
  pub stands : Stands lf rt pa stop p x t
  pub unique : (a : ℕ) → count a (trail_nodes c) + count a (nodes t) ≤ 1

pub Focus-Distinct :
    {lf rt pa : Field} {stop root p x : ℕ} {c : Trail} {t : Shape}
    → Focus lf rt pa stop root p x c t
    → Distinct (trail_nodes c)
      × Distinct (nodes t)
      × ((a : ℕ) → has a (nodes t) ≡ true → has a (trail_nodes c) ≡ false)
Focus-Distinct {lf} {rt} {pa} {stop} {root} {p} {x} {c} {t} v =
    Distinct-parts (trail_nodes c) (nodes t) (
      Distinct-count (trail_nodes c ++ nodes t)
        (λ a. omega (arith, v.unique a, count-append a (trail_nodes c) (nodes t))))

-- The place above a subtree is no node of it.
pub Focus-above :
    {lf rt pa : Field} {stop root p x : ℕ} {c : Trail} {t : Shape}
    → Focus lf rt pa stop root p x c t
    → has p (nodes t) ≡ false
Focus-above {lf} {rt} {pa} {stop} {root} {p} {x} {c} {t} v =
    elim (Hangs-root lf rt pa stop root p x c v.hangs) [
      | inl (_, e, _) ↦
          subst (λ y. has y (nodes t) ≡ false) (sym e) (Stands-stop lf rt pa stop p x t v.stands)
      | inr (_, i) ↦ elim (Bool-cases (has p (nodes t))) [
        | inl j ↦ absurd (let k = (Focus-Distinct v).2 p j in clash (sym i ∙ k))
        | inr j ↦ j
      ]
    ]
  where
    clash : true ≡ false → ⊥
    clash e = ground arith

pub Focus-mirror :
    {lf rt pa : Field} {stop root p x : ℕ} {c : Trail} {t : Shape}
    → Focus lf rt pa stop root p x c t
    → Focus rt lf pa stop root p x (mirror_trail c) (mirror t)
Focus-mirror {lf} {rt} {pa} {stop} {root} {p} {x} {c} {t} v = record {
  hangs = Hangs-mirror lf rt pa stop root p x c v.hangs;
  stands = Stands-mirror lf rt pa stop p x t v.stands;
  unique = λ a. omega (arith, v.unique a, count-mirror a t, count-mirror_trail a c);
}

-- Back from the exchanged sides.
pub Focus-unmirror :
    {lf rt pa : Field} {stop root p x : ℕ} (c : Trail) (t : Shape)
    → Focus rt lf pa stop root p x (mirror_trail c) (mirror t)
    → Focus lf rt pa stop root p x c t
Focus-unmirror {lf} {rt} {pa} {stop} {root} {p} {x} c t v =
    subst (λ c. Focus lf rt pa stop root p x c t) (mirror_trail-mirror_trail c)
      (subst (λ t. Focus lf rt pa stop root p x (mirror_trail (mirror_trail c)) t) (mirror-mirror t)
        (Focus-mirror v))

-- The tree after a left rotation at `n`.
pub Turned-Focus :
    (lf rt pa lf' rt' pa' : Field) (stop root root' p n r : ℕ) (c : Trail) (a b d : Shape)
    → Turned lf rt pa lf' rt' pa' stop p n r
    → Linked lf rt lf' rt' root root' p r c
    → Focus lf rt pa stop root p n c (node a n (node b r d))
    → Focus lf' rt' pa' stop root' p r c (node (node a n b) r d)
Turned-Focus lf rt pa lf' rt' pa' stop root root' p n r c a b d t link v =
    let (d1, d2, apart) = Focus-Distinct v in
    let here : Shape = node a n (node b r d) in
    let r_in : has r (nodes here) ≡ true = ground (
      arith,
      has-append r (nodes a) (n ∷ (nodes b ++ r ∷ nodes d)),
      has-append r (nodes b) (r ∷ nodes d),
    ) in
    let n_in : has n (nodes here) ≡ true =
      ground (arith, has-append n (nodes a) (n ∷ (nodes b ++ r ∷ nodes d))) in
    let away : (x : ℕ) → has x (trail_nodes c) ≡ true → (x ≢ n) × (x ≢ r) × (x ≢ lf r) = λ x i. (
      λ e. has-ne x n (trail_nodes c) i (apart n n_in) (sym e),
      λ e. has-ne x r (trail_nodes c) i (apart r r_in) (sym e),
      λ e. elim (Stands-root lf rt pa stop r (lf r) b v.stands.5.4) [
        | inl z ↦
            has-ne x stop (trail_nodes c) i (Hangs-stop lf rt pa stop root p n c v.hangs)
              (sym (e ∙ z))
        | inr z ↦
            has-ne x (lf r) (trail_nodes c) i
              (apart (lf r) (
                ground (
                  arith,
                  z,
                  has-append (lf r) (nodes a) (n ∷ (nodes b ++ r ∷ nodes d)),
                  has-append (lf r) (nodes b) (r ∷ nodes d),
                )))
              (sym e)
      ],
    ) in
    record {
      hangs = Turned-Hangs lf rt pa lf' rt' pa' stop root root' p n r t c link d1 away v.hangs;
      stands = Turned-Stands lf rt pa lf' rt' pa' stop p n r a b d t d2 (Focus-above v) v.stands;
      unique = λ x. omega (
        arith,
        v.unique x,
        count-append x (nodes a) (n ∷ (nodes b ++ r ∷ nodes d)),
        count-append x (nodes b) (r ∷ nodes d),
        count-append x (nodes a ++ n ∷ nodes b) (r ∷ nodes d),
        count-append x (nodes a) (n ∷ nodes b),
      );
    }
