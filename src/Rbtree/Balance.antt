-- ===== src/Rbtree/Balance.antt =====
-- The colors of a tree of src/core/qp_memory_core.c: no red node has a red child, and every way down
-- meets as many black nodes.
use qphi.Common.{
  ℕ, suc, ◌≡◌, ◌⊎◌, inl, inr, refl, ◌∙◌, Bool, true, false, ◌∷◌, has, has-append, arith, ◌==◌,
}
use qphi.Memory.Chain.{Field}
use qphi.Rbtree.{red, black}
use qphi.Rbtree.Shape.{Shape, leaf, node, nodes}
use qphi.Rbtree.Trail.{Trail, top, in_left, in_right, plug, trail_nodes}

abbrev pub root_red : Field → Shape → Bool
root_red color leaf = false
root_red color (node l a r) = color a == red

-- `h` black nodes on every way down, and no red node with a red child.
abbrev pub Balanced : Field → ℕ → Shape → Type 0
Balanced color h leaf = h ≡ 0
Balanced color h (node l a r) =
    (color a ≡ red)
      × (root_red color l ≡ false)
      × (root_red color r ≡ false)
      × Balanced color h l
      × Balanced color h r
    ⊎ (color a ≡ black) × ((k : ℕ) × (h ≡ suc k) × Balanced color k l × Balanced color k r)

abbrev pub head_black : Field → Trail → Bool
head_black color top = false
head_black color (in_left a t up) = color a == black
head_black color (in_right t a up) = color a == black

-- With a black subtree of height `h` in the place the tree is balanced, and a red node of the trail
-- has a black one above it.
abbrev pub Holds : Field → ℕ → Trail → Type 0
Holds color h top = Unit
Holds color h (in_left a t up) =
    Balanced color h t
    × ((color a ≡ red)
          × (root_red color t ≡ false)
          × (head_black color up ≡ true)
          × Holds color h up
        ⊎ (color a ≡ black) × Holds color (suc h) up)
Holds color h (in_right t a up) =
    Balanced color h t
    × ((color a ≡ red)
          × (root_red color t ≡ false)
          × (head_black color up ≡ true)
          × Holds color h up
        ⊎ (color a ≡ black) × Holds color (suc h) up)

module _ (color color' : Field) where
  pub root_red_same :
      (t : Shape)
      → ((a : ℕ) → has a (nodes t) ≡ true → color' a ≡ color a)
      → root_red color' t ≡ root_red color t
  root_red_same leaf same = refl
  root_red_same (node l a r) same = ground (arith, same a, has-append a (nodes l) (a ∷ nodes r))

  pub Balanced-same :
      (h : ℕ) (t : Shape)
      → ((a : ℕ) → has a (nodes t) ≡ true → color' a ≡ color a)
      → Balanced color h t
      → Balanced color' h t
  Balanced-same h leaf same v = v
  Balanced-same h (node l a r) same v =
      let sl : (b : ℕ) → has b (nodes l) ≡ true → color' b ≡ color b =
        λ b i. same b (ground (arith, has-append b (nodes l) (a ∷ nodes r))) in
      let sr : (b : ℕ) → has b (nodes r) ≡ true → color' b ≡ color b =
        λ b i. same b (ground (arith, has-append b (nodes l) (a ∷ nodes r))) in
      let e : color' a ≡ color a = same a (ground (arith, has-append a (nodes l) (a ∷ nodes r))) in
      elim v [
        | inl (c, rl, rr, vl, vr) ↦ inl (
          e ∙ c,
          root_red_same l sl ∙ rl,
          root_red_same r sr ∙ rr,
          Balanced-same h l sl vl,
          Balanced-same h r sr vr,
        )
        | inr (c, (k, hk, vl, vr)) ↦
            inr (e ∙ c, (k, hk, Balanced-same k l sl vl, Balanced-same k r sr vr))
      ]

  pub head_black_same :
      (c : Trail)
      → ((a : ℕ) → has a (trail_nodes c) ≡ true → color' a ≡ color a)
      → head_black color' c ≡ head_black color c
  head_black_same top same = refl
  head_black_same (in_left a t up) same = ground (arith, same a)
  head_black_same (in_right t a up) same = ground (arith, same a)

  pub Holds-same :
      (h : ℕ) (c : Trail)
      → ((a : ℕ) → has a (trail_nodes c) ≡ true → color' a ≡ color a)
      → Holds color h c
      → Holds color' h c
  Holds-same h top same v = v
  Holds-same h (in_left a t up) same v =
      let st : (b : ℕ) → has b (nodes t) ≡ true → color' b ≡ color b =
        λ b i. same b (ground (arith, has-append b (nodes t) (trail_nodes up))) in
      let su : (b : ℕ) → has b (trail_nodes up) ≡ true → color' b ≡ color b =
        λ b i. same b (ground (arith, has-append b (nodes t) (trail_nodes up))) in
      let e : color' a ≡ color a = same a (ground arith) in
      (
        Balanced-same h t st v.0,
        elim v.1 [
          | inl (c, rt, hb, w) ↦
              inl (e ∙ c, root_red_same t st ∙ rt, head_black_same up su ∙ hb, Holds-same h up su w)
          | inr (c, w) ↦ inr (e ∙ c, Holds-same (suc h) up su w)
        ],
      )
  Holds-same h (in_right t a up) same v =
      let st : (b : ℕ) → has b (nodes t) ≡ true → color' b ≡ color b =
        λ b i. same b (ground (arith, has-append b (nodes t) (trail_nodes up))) in
      let su : (b : ℕ) → has b (trail_nodes up) ≡ true → color' b ≡ color b =
        λ b i. same b (ground (arith, has-append b (nodes t) (trail_nodes up))) in
      let e : color' a ≡ color a = same a (ground arith) in
      (
        Balanced-same h t st v.0,
        elim v.1 [
          | inl (c, rt, hb, w) ↦
              inl (e ∙ c, root_red_same t st ∙ rt, head_black_same up su ∙ hb, Holds-same h up su w)
          | inr (c, w) ↦ inr (e ∙ c, Holds-same (suc h) up su w)
        ],
      )

-- A balanced subtree in the place, with no red node below a red one, makes a balanced tree.
pub Balanced-plug :
    (color : Field) (h : ℕ) (c : Trail) (t : Shape)
    → Balanced color h t
    → (root_red color t ≡ false) ⊎ (head_black color c ≡ true)
    → Holds color h c
    → (k : ℕ) × Balanced color k (plug c t)
Balanced-plug color h top t v calm w = (h, v)
Balanced-plug color h (in_left a u up) t v calm (b, inl (c, rt, hb, w)) =
    Balanced-plug color h up (node t a u) (inl (c, ground (arith, calm, c), rt, v, b)) (inr hb) w
Balanced-plug color h (in_left a u up) t v calm (b, inr (c, w)) =
    Balanced-plug color (suc h) up (node t a u) (inr (c, (h, refl, v, b))) (inl (ground arith)) w
Balanced-plug color h (in_right u a up) t v calm (b, inl (c, rt, hb, w)) =
    Balanced-plug color h up (node u a t) (inl (c, rt, ground (arith, calm, c), b, v)) (inr hb) w
Balanced-plug color h (in_right u a up) t v calm (b, inr (c, w)) =
    Balanced-plug color (suc h) up (node u a t) (inr (c, (h, refl, b, v))) (inl (ground arith)) w
