-- ===== src/Rbtree/Round.antt =====
-- What a round leads to in `qp_rbtree_insert_fix`, src/core/qp_memory_core.c, below a red parent.
use qphi.Common.{
  ℕ, suc, ◌<◌, ◌≡◌, ◌⊎◌, inl, inr, refl, ◌∙◌, sym, true, false, arith, ◌==◌, ℕ_discrete,
}
use qphi.Memory.Chain.{Field}
use qphi.Rbtree.{Store, red, black}
use qphi.Rbtree.Shape.{Shape, leaf, node, nodes}
use qphi.Rbtree.Trail.{Trail, top, in_left, in_right, plug}
use qphi.Rbtree.Balance.{root_red, Balanced, head_black}
use qphi.Rbtree.Settle.{Pending}
use qphi.Rbtree.Insert.{insert_round}

abbrev pub depth : Trail → ℕ
depth top = 0
depth (in_left a t up) = suc (depth up)
depth (in_right t a up) = suc (depth up)

-- What a round at the node `n` leads to, from a place `deep` below the root of the tree `t`: the node
-- it goes on with is higher up, or it is below a black parent.
pub record Round (s : Store) (rb n deep : ℕ) (t : Shape) : Type 0 where
  pub next : ℕ
  pub store : Store
  pub up : ℕ
  pub trail : Trail
  pub l : Shape
  pub r : Shape
  pub h : ℕ
  pub round : insert_round rb n s ≡ (next, store)
  pub pending : Pending store rb up next trail l r h
  pub kept : nodes (plug trail (node l next r)) ≡ nodes t
  pub keys : store.key ≡ s.key
  pub near : (depth trail < deep) ⊎ (head_black store.color trail ≡ true)

-- Below a red node of the trail: its other subtree, and what is above it.
pub red_parent :
    (color : Field) (p : ℕ) (b k a q other : Type 0)
    → color p ≡ red
    → b × ((color p ≡ red) × k × a × q ⊎ (color p ≡ black) × other)
    → b × k × a × q
red_parent color p b k a q other e (v, inl w) = (v, w.1, w.2, w.3)
red_parent color p b k a q other e (v, inr w) = absurd (no_color (sym e ∙ w.0))
  where
    no_color : red ≡ black → ⊥
    no_color z = ground arith

-- Below a black one.
pub black_parent :
    (color : Field) (g : ℕ) (b k o1 o2 o3 : Type 0)
    → (color g == black) ≡ true
    → b × ((color g ≡ red) × o1 × o2 × o3 ⊎ (color g ≡ black) × k)
    → b × k
black_parent color g b k o1 o2 o3 e (v, inr w) = (v, w.1)
black_parent color g b k o1 o2 o3 e (v, inl w) = absurd (no_color color g e w.0)
  where
    no_color : (color : Field) (g : ℕ) → (color g == black) ≡ true → color g ≡ red → ⊥
    no_color color g b r = ground arith

-- The root of a subtree is red, and is a node, or it is not.
pub look :
    (color : Field) (t : Shape)
    → ((l : Shape) × (a : ℕ) × (r : Shape) × (t ≡ node l a r) × (color a ≡ red))
      ⊎ (root_red color t ≡ false)
look color leaf = inr refl
look color (node l a r) = elim (ℕ_discrete (color a) red) [
  | yes e ↦ inl (l, a, r, refl, e)
  | no ne ↦ inr (ground arith)
]

-- The node itself as a balanced tree.
pub own :
    (s : Store) (rb p n : ℕ) (c : Trail) (l r : Shape) (h : ℕ)
    → Pending s rb p n c l r h
    → Balanced s.color h (node l n r)
own s rb p n c l r h v = inl (v.red_n, v.calm_l, v.calm_r, v.balanced_l, v.balanced_r)
