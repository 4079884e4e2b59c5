-- ===== src/Rbtree/Trail.antt =====
-- A place in a tree of src/core/qp_memory_core.c: the nodes above it and what hangs on their other
-- sides, from the place up to the root. What the fields say of a tree does not change where they do
-- not.
use qphi.Common.{
  ℕ, ◌≡◌, ◌≢◌, ◌⊎◌, inl, inr, refl, ◌∙◌, sym, ap, subst, true, false, List, [], ◌∷◌, ◌++◌, has,
  has-append, Distinct, arith,
}
use qphi.Memory.Chain.{Field, null}
use qphi.Memory.Ring.{has-ne}
use qphi.Memory.Queue.{Distinct-around}
use qphi.Rbtree.Shape.{Shape, leaf, node, nodes, Stands}

pub data Trail : Type 0 where
  top : Trail
  in_left : ℕ → Shape → Trail → Trail
  in_right : Shape → ℕ → Trail → Trail

-- The whole tree, with `t` in the place.
abbrev pub plug : Trail → Shape → Shape
plug top t = t
plug (in_left a r up) t = plug up (node t a r)
plug (in_right l a up) t = plug up (node l a t)

abbrev pub trail_nodes : Trail → List ℕ
trail_nodes top = []
trail_nodes (in_left a r up) = a ∷ (nodes r ++ trail_nodes up)
trail_nodes (in_right l a up) = a ∷ (nodes l ++ trail_nodes up)

-- What the fields say of the nodes above the place, in which `x` stands below `p`.
abbrev pub Hangs : (left right parent : Field) → (stop root p x : ℕ) → Trail → Type 0
Hangs lf rt pa stop root p x top = (x ≡ root) × (p ≡ stop)
Hangs lf rt pa stop root p x (in_left a t up) =
    (p ≡ a)
    × (lf a ≡ x)
    × (a ≢ stop)
    × (a ≢ null)
    × Stands lf rt pa stop a (rt a) t
    × Hangs lf rt pa stop root (pa a) a up
Hangs lf rt pa stop root p x (in_right t a up) =
    (p ≡ a)
    × (rt a ≡ x)
    × (a ≢ stop)
    × (a ≢ null)
    × Stands lf rt pa stop a (lf a) t
    × Hangs lf rt pa stop root (pa a) a up

-- The fields agree at a node.
abbrev pub Same : (left right parent left' right' parent' : Field) → ℕ → Type 0
Same lf rt pa lf' rt' pa' a = (lf' a ≡ lf a) × (rt' a ≡ rt a) × (pa' a ≡ pa a)

module _ (lf rt pa lf' rt' pa' : Field) (stop : ℕ) where
  pub Stands-Same :
      (p x : ℕ) (t : Shape)
      → ((a : ℕ) → has a (nodes t) ≡ true → Same lf rt pa lf' rt' pa' a)
      → Stands lf rt pa stop p x t
      → Stands lf' rt' pa' stop p x t
  Stands-Same p x leaf same v = v
  Stands-Same p x (node l a r) same v =
      let here = same a (ground (arith, has-append a (nodes l) (a ∷ nodes r))) in
      let left_same : Stands lf' rt' pa' stop a (lf a) l =
        Stands-Same a (lf a) l
          (λ b i. same b (ground (arith, has-append b (nodes l) (a ∷ nodes r)))) v.4 in
      let right_same : Stands lf' rt' pa' stop a (rt a) r =
        Stands-Same a (rt a) r
          (λ b i. same b (ground (arith, has-append b (nodes l) (a ∷ nodes r)))) v.5 in
      (
        v.0,
        v.1,
        v.2,
        here.2 ∙ v.3,
        subst (λ y. Stands lf' rt' pa' stop a y l) (sym here.0) left_same,
        subst (λ y. Stands lf' rt' pa' stop a y r) (sym here.1) right_same,
      )

  -- The same subtree under another parent.
  pub Stands-move :
      (p q x : ℕ) (t : Shape)
      → Distinct (nodes t)
      → ((a : ℕ) → has a (nodes t) ≡ true → (lf' a ≡ lf a) × (rt' a ≡ rt a))
      → ((a : ℕ) → has a (nodes t) ≡ true → a ≢ x → pa' a ≡ pa a)
      → (x ≢ stop → pa' x ≡ q)
      → Stands lf rt pa stop p x t
      → Stands lf' rt' pa' stop q x t
  Stands-move p q x leaf d same rest moved v = v
  Stands-move p q x (node l a r) d same rest moved v =
      let around = Distinct-around a (nodes l) (nodes r) d in
      let here = same a (ground (arith, has-append a (nodes l) (a ∷ nodes r))) in
      let left_same : Stands lf' rt' pa' stop a (lf a) l =
        Stands-Same a (lf a) l
          (λ b i.
            let j : has b (nodes l ++ a ∷ nodes r) ≡ true =
              ground (arith, has-append b (nodes l) (a ∷ nodes r)) in
            let ne = has-ne b a (nodes l) i around.2 in
            ((same b j).0, (same b j).1, rest b j (λ e. ne (sym (e ∙ v.0)))))
          v.4 in
      let right_same : Stands lf' rt' pa' stop a (rt a) r =
        Stands-Same a (rt a) r
          (λ b i.
            let j : has b (nodes l ++ a ∷ nodes r) ≡ true =
              ground (arith, has-append b (nodes l) (a ∷ nodes r)) in
            let ne = has-ne b a (nodes r) i around.1.0 in
            ((same b j).0, (same b j).1, rest b j (λ e. ne (sym (e ∙ v.0)))))
          v.5 in
      (
        v.0,
        v.1,
        v.2,
        ap pa' (sym v.0) ∙ moved (λ e. v.1 (sym v.0 ∙ e)),
        subst (λ y. Stands lf' rt' pa' stop a y l) (sym here.0) left_same,
        subst (λ y. Stands lf' rt' pa' stop a y r) (sym here.1) right_same,
      )

  pub Hangs-Same :
      (root p x : ℕ) (c : Trail)
      → ((a : ℕ) → has a (trail_nodes c) ≡ true → Same lf rt pa lf' rt' pa' a)
      → Hangs lf rt pa stop root p x c
      → Hangs lf' rt' pa' stop root p x c
  Hangs-Same root p x top same v = v
  Hangs-Same root p x (in_left a t up) same v =
      let here = same a (ground arith) in
      (
        v.0,
        here.0 ∙ v.1,
        v.2,
        v.3,
        subst (λ y. Stands lf' rt' pa' stop a y t) (sym here.1)
            (Stands-Same a (rt a) t
              (λ b i. same b (ground (arith, has-append b (nodes t) (trail_nodes up)))) v.4),
        subst (λ y. Hangs lf' rt' pa' stop root y a up) (sym here.2)
            (Hangs-Same root (pa a) a up
              (λ b i. same b (ground (arith, has-append b (nodes t) (trail_nodes up)))) v.5),
      )
  Hangs-Same root p x (in_right t a up) same v =
      let here = same a (ground arith) in
      (
        v.0,
        here.1 ∙ v.1,
        v.2,
        v.3,
        subst (λ y. Stands lf' rt' pa' stop a y t) (sym here.0)
            (Stands-Same a (lf a) t
              (λ b i. same b (ground (arith, has-append b (nodes t) (trail_nodes up)))) v.4),
        subst (λ y. Hangs lf' rt' pa' stop root y a up) (sym here.2)
            (Hangs-Same root (pa a) a up
              (λ b i. same b (ground (arith, has-append b (nodes t) (trail_nodes up)))) v.5),
      )

-- No node of a shape is its sentinel.
pub Stands-stop :
    (lf rt pa : Field) (stop p x : ℕ) (t : Shape)
    → Stands lf rt pa stop p x t
    → has stop (nodes t) ≡ false
Stands-stop lf rt pa stop p x leaf v = refl
Stands-stop lf rt pa stop p x (node l a r) v = ground (
  arith,
  v,
  has-append stop (nodes l) (a ∷ nodes r),
  Stands-stop lf rt pa stop a (lf a) l v.4,
  Stands-stop lf rt pa stop a (rt a) r v.5,
)

-- What stands at an address is the sentinel or a node.
pub Stands-root :
    (lf rt pa : Field) (stop p x : ℕ) (t : Shape)
    → Stands lf rt pa stop p x t
    → (x ≡ stop) ⊎ (has x (nodes t) ≡ true)
Stands-root lf rt pa stop p x leaf v = inl v
Stands-root lf rt pa stop p x (node l a r) v =
    inr (ground (arith, v.0, has-append x (nodes l) (a ∷ nodes r)))

-- Below the root stands no root.
pub Hangs-root :
    (lf rt pa : Field) (stop root p x : ℕ) (c : Trail)
    → Hangs lf rt pa stop root p x c
    → (x ≡ root) × (p ≡ stop) × (c ≡ top)
      ⊎ (has root (trail_nodes c) ≡ true) × (has p (trail_nodes c) ≡ true)
Hangs-root lf rt pa stop root p x top v = inl (v.0, v.1, refl)
Hangs-root lf rt pa stop root p x (in_left a t up) v = inr (
  elim (Hangs-root lf rt pa stop root (pa a) a up v.5) [
    | inl (e, _, _) ↦ ground arith
    | inr (i, _) ↦ ground (arith, has-append root (nodes t) (trail_nodes up))
  ],
  ground (arith, v.0),
)
Hangs-root lf rt pa stop root p x (in_right t a up) v = inr (
  elim (Hangs-root lf rt pa stop root (pa a) a up v.5) [
    | inl (e, _, _) ↦ ground arith
    | inr (i, _) ↦ ground (arith, has-append root (nodes t) (trail_nodes up))
  ],
  ground (arith, v.0),
)

-- No node of a trail is the sentinel.
pub Hangs-stop :
    (lf rt pa : Field) (stop root p x : ℕ) (c : Trail)
    → Hangs lf rt pa stop root p x c
    → has stop (trail_nodes c) ≡ false
Hangs-stop lf rt pa stop root p x top v = refl
Hangs-stop lf rt pa stop root p x (in_left a t up) v = ground (
  arith,
  v.2,
  has-append stop (nodes t) (trail_nodes up),
  Stands-stop lf rt pa stop a (rt a) t v.4,
  Hangs-stop lf rt pa stop root (pa a) a up v.5,
)
Hangs-stop lf rt pa stop root p x (in_right t a up) v = ground (
  arith,
  v.2,
  has-append stop (nodes t) (trail_nodes up),
  Stands-stop lf rt pa stop a (lf a) t v.4,
  Hangs-stop lf rt pa stop root (pa a) a up v.5,
)
