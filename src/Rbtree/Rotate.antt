-- ===== src/Rbtree/Rotate.antt =====
-- A rotation in a tree of src/core/qp_memory_core.c: what it writes into the fields, and the shape
-- that this leaves. A right rotation is a left one with the sides exchanged.
use qphi.Common.{
  ℕ, ◌≡◌, ◌≢◌, inl, inr, refl, ◌∙◌, sym, ap, subst, true, false, List, ◌∷◌, ◌++◌, has, has-append,
  Distinct, arith, Bool-cases,
}
use qphi.Memory.Chain.{Field}
use qphi.Memory.Ring.{has-ne}
use qphi.Memory.Queue.{Distinct-around}
use qphi.Rbtree.Shape.{Shape, node, nodes, Stands}
use qphi.Rbtree.Trail.{
  Trail, top, in_left, in_right, trail_nodes, Hangs, Same, Stands-stop, Stands-Same, Stands-move,
  Hangs-Same, Stands-root,
}

-- What a left rotation at `n`, below `p` and above `r`, writes into the fields.
pub record Turned (lf rt pa lf' rt' pa' : Field) (stop p n r : ℕ) : Type 0 where
  pub left_r : lf' r ≡ n
  pub right_n : rt' n ≡ lf r
  pub parent_r : pa' r ≡ p
  pub parent_n : pa' n ≡ r
  pub parent_mid : lf r ≢ stop → pa' (lf r) ≡ n
  pub lefts : (b : ℕ) → b ≢ r → b ≢ p → lf' b ≡ lf b
  pub rights : (b : ℕ) → b ≢ n → b ≢ p → rt' b ≡ rt b
  pub parents : (b : ℕ) → b ≢ r → b ≢ n → b ≢ lf r → pa' b ≡ pa b

-- An element of one list is not in another that has none of it.
not_both :
    (x : ℕ) (xs ys : List ℕ)
    → has x ys ≡ true
    → (has x xs ≡ true → has x ys ≡ false)
    → has x xs ≡ false
not_both x xs ys i h = elim (Bool-cases (has x xs)) [
  | inl j ↦ absurd (let k = h j in clash (sym i ∙ k))
  | inr j ↦ j
]
  where
    clash : true ≡ false → ⊥
    clash e = ground arith

-- The subtree after the rotation.
pub Turned-Stands :
    (lf rt pa lf' rt' pa' : Field) (stop p n r : ℕ) (a b d : Shape)
    → Turned lf rt pa lf' rt' pa' stop p n r
    → Distinct (nodes (node a n (node b r d)))
    → has p (nodes (node a n (node b r d))) ≡ false
    → Stands lf rt pa stop p n (node a n (node b r d))
    → Stands lf' rt' pa' stop p r (node (node a n b) r d)
Turned-Stands lf rt pa lf' rt' pa' stop p n r a b d t distinct out v =
    let o = Distinct-around n (nodes a) (nodes b ++ r ∷ nodes d) distinct in
    let i = Distinct-around r (nodes b) (nodes d) o.1.1 in
    let r_in : has r (nodes b ++ r ∷ nodes d) ≡ true =
      ground (arith, has-append r (nodes b) (r ∷ nodes d)) in
    let n_r : n ≢ r = has-ne r n (nodes b ++ r ∷ nodes d) r_in o.1.0 in
    let p_out : (has p (nodes a) ≡ false)
        × (p ≢ n)
        × (has p (nodes b) ≡ false)
        × (p ≢ r)
        × (has p (nodes d) ≡ false) =
      ground (
        arith,
        out,
        has-append p (nodes a) (n ∷ (nodes b ++ r ∷ nodes d)),
        has-append p (nodes b) (r ∷ nodes d),
      ) in
    let not_mid : (x : ℕ) → has x (nodes b) ≡ false → x ≢ stop → x ≢ lf r = λ x no ne e.
      elim (Stands-root lf rt pa stop r (lf r) b v.5.4) [
        | inl z ↦ ne (e ∙ z)
        | inr z ↦ has-ne (lf r) x (nodes b) z no e
      ] in
    let in_a : (x : ℕ) → has x (nodes a) ≡ true → Same lf rt pa lf' rt' pa' x = λ x k.
      let x_p : x ≢ p = λ e. has-ne x p (nodes a) k p_out.0 (sym e) in
      let x_n : x ≢ n = λ e. has-ne x n (nodes a) k o.2 (sym e) in
      let x_r : x ≢ r = λ e. has-ne x r (nodes a) k (o.3 r r_in) (sym e) in
      let x_b : has x (nodes b) ≡ false =
        not_both x (nodes b) (nodes a) k
          (λ j. o.3 x (ground (arith, has-append x (nodes b) (r ∷ nodes d)))) in
      let x_stop : x ≢ stop =
        λ e. has-ne x stop (nodes a) k (Stands-stop lf rt pa stop n (lf n) a v.4) (sym e) in
      (t.lefts x x_r x_p, t.rights x x_n x_p, t.parents x x_r x_n (not_mid x x_b x_stop)) in
    let in_d : (x : ℕ) → has x (nodes d) ≡ true → Same lf rt pa lf' rt' pa' x = λ x k.
      let x_p : x ≢ p = λ e. has-ne x p (nodes d) k p_out.4 (sym e) in
      let x_n : x ≢ n = λ e.
        has-ne x n (nodes d) k (ground (arith, o.1.0, has-append n (nodes b) (r ∷ nodes d)))
          (sym e) in
      let x_r : x ≢ r = λ e. has-ne x r (nodes d) k i.1.0 (sym e) in
      let x_stop : x ≢ stop =
        λ e. has-ne x stop (nodes d) k (Stands-stop lf rt pa stop r (rt r) d v.5.5) (sym e) in
      (t.lefts x x_r x_p, t.rights x x_n x_p, t.parents x x_r x_n (not_mid x (i.3 x k) x_stop)) in
    let in_b : (x : ℕ) → has x (nodes b) ≡ true → (x ≢ p) × (x ≢ n) × (x ≢ r) = λ x k. (
      λ e. has-ne x p (nodes b) k p_out.2 (sym e),
      λ e.
          has-ne x n (nodes b) k (ground (arith, o.1.0, has-append n (nodes b) (r ∷ nodes d)))
            (sym e),
      λ e. has-ne x r (nodes b) k i.2 (sym e),
    ) in
    let moved_a : Stands lf' rt' pa' stop n (lf n) a =
      Stands-Same lf rt pa lf' rt' pa' stop n (lf n) a in_a v.4 in
    let moved_d : Stands lf' rt' pa' stop r (rt r) d =
      Stands-Same lf rt pa lf' rt' pa' stop r (rt r) d in_d v.5.5 in
    let moved_b : Stands lf' rt' pa' stop n (lf r) b =
      Stands-move lf rt pa lf' rt' pa' stop r n (lf r) b i.0
        (λ x k. let z = in_b x k in (t.lefts x z.2 z.0, t.rights x z.1 z.0))
        (λ x k ne. let z = in_b x k in t.parents x z.2 z.1 ne) t.parent_mid v.5.4 in
    (
      refl,
      v.5.1,
      v.5.2,
      t.parent_r,
      (
        t.left_r,
        v.1,
        v.2,
        t.parent_n,
        subst (λ y. Stands lf' rt' pa' stop n y a) (sym (t.lefts n n_r (λ e. p_out.1 (sym e))))
            moved_a,
        subst (λ y. Stands lf' rt' pa' stop n y b) (sym t.right_n) moved_b,
      ),
      subst (λ y. Stands lf' rt' pa' stop r y d)
          (sym (t.rights r (λ e. n_r (sym e)) (λ e. p_out.3 (sym e)))) moved_d,
    )

-- What the rotation writes above: the one that leads to the place leads to `r`.
abbrev pub Linked : (lf rt lf' rt' : Field) → (root root' p r : ℕ) → Trail → Type 0
Linked lf rt lf' rt' root root' p r top = root' ≡ r
Linked lf rt lf' rt' root root' p r (in_left a t up) = (lf' p ≡ r) × (rt' p ≡ rt p) × (root' ≡ root)
Linked lf rt lf' rt' root root' p r (in_right t a up) =
    (rt' p ≡ r) × (lf' p ≡ lf p) × (root' ≡ root)

-- The trail after the rotation.
module _ (lf rt pa lf' rt' pa' : Field) (stop root root' p n r : ℕ)
    (t : Turned lf rt pa lf' rt' pa' stop p n r) where
  kept : (b : ℕ) → b ≢ p → (b ≢ n) × (b ≢ r) × (b ≢ lf r) → Same lf rt pa lf' rt' pa' b
  kept b b_p (b_n, b_r, b_m) = (t.lefts b b_r b_p, t.rights b b_n b_p, t.parents b b_r b_n b_m)

  pub Turned-Hangs :
      (c : Trail)
      → Linked lf rt lf' rt' root root' p r c
      → Distinct (trail_nodes c)
      → ((b : ℕ) → has b (trail_nodes c) ≡ true → (b ≢ n) × (b ≢ r) × (b ≢ lf r))
      → Hangs lf rt pa stop root p n c
      → Hangs lf' rt' pa' stop root' p r c
  Turned-Hangs top link d away v = (sym link, v.1)
  Turned-Hangs (in_left a u up) link d away v =
      let a_away = away a (ground arith) in
      let rest : (b : ℕ) → has b (nodes u ++ trail_nodes up) ≡ true → Same lf rt pa lf' rt' pa' b =
        λ b i.
          kept b (λ e. has-ne b a (nodes u ++ trail_nodes up) i d.0 (sym (e ∙ v.0)))
            (away b (ground arith)) in
      let pa_a : pa' a ≡ pa a = t.parents a a_away.1 a_away.0 a_away.2 in
      (
        v.0,
        ap lf' (sym v.0) ∙ link.0,
        v.2,
        v.3,
        subst (λ y. Stands lf' rt' pa' stop a y u) (sym (ap rt' (sym v.0) ∙ link.1 ∙ ap rt v.0))
            (Stands-Same lf rt pa lf' rt' pa' stop a (rt a) u
              (λ b i. rest b (ground (arith, has-append b (nodes u) (trail_nodes up)))) v.4),
        subst (λ y. Hangs lf' rt' pa' stop y (pa' a) a up) (sym link.2)
            (subst (λ y. Hangs lf' rt' pa' stop root y a up) (sym pa_a)
              (Hangs-Same lf rt pa lf' rt' pa' stop root (pa a) a up
                (λ b i. rest b (ground (arith, has-append b (nodes u) (trail_nodes up)))) v.5)),
      )
  Turned-Hangs (in_right u a up) link d away v =
      let a_away = away a (ground arith) in
      let rest : (b : ℕ) → has b (nodes u ++ trail_nodes up) ≡ true → Same lf rt pa lf' rt' pa' b =
        λ b i.
          kept b (λ e. has-ne b a (nodes u ++ trail_nodes up) i d.0 (sym (e ∙ v.0)))
            (away b (ground arith)) in
      let pa_a : pa' a ≡ pa a = t.parents a a_away.1 a_away.0 a_away.2 in
      (
        v.0,
        ap rt' (sym v.0) ∙ link.0,
        v.2,
        v.3,
        subst (λ y. Stands lf' rt' pa' stop a y u) (sym (ap lf' (sym v.0) ∙ link.1 ∙ ap lf v.0))
            (Stands-Same lf rt pa lf' rt' pa' stop a (lf a) u
              (λ b i. rest b (ground (arith, has-append b (nodes u) (trail_nodes up)))) v.4),
        subst (λ y. Hangs lf' rt' pa' stop y (pa' a) a up) (sym link.2)
            (subst (λ y. Hangs lf' rt' pa' stop root y a up) (sym pa_a)
              (Hangs-Same lf rt pa lf' rt' pa' stop root (pa a) a up
                (λ b i. rest b (ground (arith, has-append b (nodes u) (trail_nodes up)))) v.5)),
      )
