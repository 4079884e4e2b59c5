-- ===== src/Rbtree/Mirror.antt =====
-- A tree of src/core/qp_memory_core.c with its sides exchanged: what holds of the left sides and the
-- right ones holds of them the other way round.
use qphi.Common.{ℕ, ◌≡◌, refl, ap₂, ◌∷◌, count, count-append, arith}
use qphi.Memory.Chain.{Field}
use qphi.Rbtree.Shape.{Shape, leaf, node, nodes, Stands}
use qphi.Rbtree.Trail.{Trail, top, in_left, in_right, trail_nodes, Hangs}

abbrev pub mirror : Shape → Shape
mirror leaf = leaf
mirror (node l a r) = node (mirror r) a (mirror l)

abbrev pub mirror_trail : Trail → Trail
mirror_trail top = top
mirror_trail (in_left a t up) = in_right (mirror t) a (mirror_trail up)
mirror_trail (in_right t a up) = in_left a (mirror t) (mirror_trail up)

pub mirror-mirror : (t : Shape) → mirror (mirror t) ≡ t
mirror-mirror leaf = refl
mirror-mirror (node l a r) = ap₂ (λ l r. node l a r) (mirror-mirror l) (mirror-mirror r)

pub mirror_trail-mirror_trail : (c : Trail) → mirror_trail (mirror_trail c) ≡ c
mirror_trail-mirror_trail top = refl
mirror_trail-mirror_trail (in_left a t up) =
    ap₂ (λ t up. in_left a t up) (mirror-mirror t) (mirror_trail-mirror_trail up)
mirror_trail-mirror_trail (in_right t a up) =
    ap₂ (λ t up. in_right t a up) (mirror-mirror t) (mirror_trail-mirror_trail up)

pub count-mirror : (x : ℕ) (t : Shape) → count x (nodes (mirror t)) ≡ count x (nodes t)
count-mirror x leaf = refl
count-mirror x (node l a r) = omega (
  arith,
  count-append x (nodes (mirror r)) (a ∷ nodes (mirror l)),
  count-append x (nodes l) (a ∷ nodes r),
  count-mirror x l,
  count-mirror x r,
)

pub count-mirror_trail :
    (x : ℕ) (c : Trail) → count x (trail_nodes (mirror_trail c)) ≡ count x (trail_nodes c)
count-mirror_trail x top = refl
count-mirror_trail x (in_left a t up) = omega (
  arith,
  count-append x (nodes (mirror t)) (trail_nodes (mirror_trail up)),
  count-append x (nodes t) (trail_nodes up),
  count-mirror x t,
  count-mirror_trail x up,
)
count-mirror_trail x (in_right t a up) = omega (
  arith,
  count-append x (nodes (mirror t)) (trail_nodes (mirror_trail up)),
  count-append x (nodes t) (trail_nodes up),
  count-mirror x t,
  count-mirror_trail x up,
)

module _ (lf rt pa : Field) (stop : ℕ) where
  pub Stands-mirror :
      (p x : ℕ) (t : Shape) → Stands lf rt pa stop p x t → Stands rt lf pa stop p x (mirror t)
  Stands-mirror p x leaf v = v
  Stands-mirror p x (node l a r) v =
      (v.0, v.1, v.2, v.3, Stands-mirror a (rt a) r v.5, Stands-mirror a (lf a) l v.4)

  pub Hangs-mirror :
      (root p x : ℕ) (c : Trail)
      → Hangs lf rt pa stop root p x c
      → Hangs rt lf pa stop root p x (mirror_trail c)
  Hangs-mirror root p x top v = v
  Hangs-mirror root p x (in_left a t up) v =
      (v.0, v.1, v.2, v.3, Stands-mirror a (rt a) t v.4, Hangs-mirror root (pa a) a up v.5)
  Hangs-mirror root p x (in_right t a up) v =
      (v.0, v.1, v.2, v.3, Stands-mirror a (lf a) t v.4, Hangs-mirror root (pa a) a up v.5)
