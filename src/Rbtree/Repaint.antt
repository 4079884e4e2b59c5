-- ===== src/Rbtree/Repaint.antt =====
-- Painting a few nodes of a tree of src/core/qp_memory_core.c leaves the balance of the others.
use qphi.Common.{ℕ, ◌+◌, ◌≤◌, ◌≡◌, true, false, List, has, has-count, count, arith, ℕ_discrete}
use qphi.Memory.Chain.{Field}
use qphi.Rbtree.Shape.{Shape, nodes}
use qphi.Rbtree.Trail.{Trail, trail_nodes}
use qphi.Rbtree.Balance.{
  root_red, Balanced, head_black, Holds, root_red_same, Balanced-same, Holds-same, head_black_same,
}

-- The colors agree but at the nodes of `ps`.
module _ (color color' : Field) (ps : List ℕ)
    (off : (y : ℕ) → has y ps ≡ false → color' y ≡ color y) where
  outside :
      (xs : List ℕ)
      → ((a : ℕ) → count a xs + count a ps ≤ 1)
      → (y : ℕ) → has y xs ≡ true
      → color' y ≡ color y
  outside xs apart y i = elim (ℕ_discrete (count y ps) 0) [
    | yes e ↦ off y (has-count y ps e)
    | no ne ↦ absurd (clash y xs i (has-count y xs (omega (arith, apart y, ne))))
  ]
    where
      clash : (y : ℕ) (xs : List ℕ) → has y xs ≡ true → has y xs ≡ false → ⊥
      clash y xs i j = ground arith

  pub repaint-Balanced :
      (h : ℕ) (t : Shape)
      → ((a : ℕ) → count a (nodes t) + count a ps ≤ 1)
      → Balanced color h t
      → Balanced color' h t
  repaint-Balanced h t apart = Balanced-same color color' h t (outside (nodes t) apart)

  pub repaint-root_red :
      (t : Shape)
      → ((a : ℕ) → count a (nodes t) + count a ps ≤ 1)
      → root_red color' t ≡ root_red color t
  repaint-root_red t apart = root_red_same color color' t (outside (nodes t) apart)

  pub repaint-Holds :
      (h : ℕ) (c : Trail)
      → ((a : ℕ) → count a (trail_nodes c) + count a ps ≤ 1)
      → Holds color h c
      → Holds color' h c
  repaint-Holds h c apart = Holds-same color color' h c (outside (trail_nodes c) apart)

  pub repaint-head_black :
      (c : Trail)
      → ((a : ℕ) → count a (trail_nodes c) + count a ps ≤ 1)
      → head_black color' c ≡ head_black color c
  repaint-head_black c apart = head_black_same color color' c (outside (trail_nodes c) apart)
