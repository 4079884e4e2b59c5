-- ===== src/Rbtree/Outer.antt =====
-- The turn at the end of `qp_rbtree_insert_fix`, src/core/qp_memory_core.c: the red node and its red
-- parent are on the same side.
use qphi.Common.{
  ℕ, suc, ◌+◌, ◌≡◌, ◌≢◌, inl, inr, ◌∙◌, true, false, List, [], ◌∷◌, has, has-count, count, ◌≤◌,
  arith,
}
use qphi.Memory.Chain.{Field, null}
use qphi.Memory.Ring.{has-ne}
use qphi.Rbtree.{red, black, paint}
use qphi.Rbtree.Shape.{Shape, node, nodes}
use qphi.Rbtree.Trail.{Trail, in_left, in_right, trail_nodes}
use qphi.Rbtree.Balance.{
  root_red, Balanced, head_black, Holds, root_red_same, Balanced-same, Holds-same,
}

-- The colors after the turn.
abbrev pub turned : (p g : ℕ) → Field → Field
turned p g color = paint g red (paint p black color)

-- The node `n` with `l` and `r` is the outer child of `p`, whose other child is `pr`; `gr` is the
-- other child of the grandparent `g`.
module _ (color : Field) (p g n : ℕ) (up : Trail) (l r pr gr : Shape) (h : ℕ) (p_set : p ≢ null)
    (g_set : g ≢ null)
    (total : (a : ℕ)
      → count a (trail_nodes up)
          + (count a (nodes l) + count a (n ∷ nodes r))
          + (count a (nodes pr) + count a (nodes gr))
          + count a (p ∷ g ∷ [])
        ≤ 1) where
  two : (turned p g color p ≡ black) × (turned p g color g ≡ red)
  two = let tp = total p in ground arith

  turned_list :
      (xs : List ℕ)
      → count p xs ≡ 0
      → count g xs ≡ 0
      → (y : ℕ) → has y xs ≡ true
      → turned p g color y ≡ color y
  turned_list xs p_out g_out y i =
      let y_p = has-ne y p xs i (has-count p xs p_out) in
      let y_g = has-ne y g xs i (has-count g xs g_out) in ground arith

  turned-Balanced :
      (t : Shape)
      → count p (nodes t) ≡ 0
      → count g (nodes t) ≡ 0
      → (root_red color t ≡ false) × Balanced color h t
      → (root_red (turned p g color) t ≡ false) × Balanced (turned p g color) h t
  turned-Balanced t p_out g_out v =
      let same = turned_list (nodes t) p_out g_out in
      (
        root_red_same color (turned p g color) t same ∙ v.0,
        Balanced-same color (turned p g color) h t same v.1,
      )

  pub turned_left :
      (root_red color l ≡ false) × Balanced color h l
      → (root_red (turned p g color) l ≡ false) × Balanced (turned p g color) h l
  turned_left =
      turned-Balanced l (let t = total p in ground arith) (let t = total g in ground arith)

  pub turned_right :
      (root_red color r ≡ false) × Balanced color h r
      → (root_red (turned p g color) r ≡ false) × Balanced (turned p g color) h r
  turned_right =
      turned-Balanced r (let t = total p in ground arith) (let t = total g in ground arith)

  pub turned-red : color n ≡ red → turned p g color n ≡ red
  turned-red e = let t = total n in ground arith

  pub turned_inner :
      (root_red color pr ≡ false) × Balanced color h pr
      → (root_red (turned p g color) pr ≡ false) × Balanced (turned p g color) h pr
  turned_inner =
      turned-Balanced pr (let t = total p in ground arith) (let t = total g in ground arith)

  pub turned_uncle :
      (root_red color gr ≡ false) × Balanced color h gr
      → (root_red (turned p g color) gr ≡ false) × Balanced (turned p g color) h gr
  turned_uncle =
      turned-Balanced gr (let t = total p in ground arith) (let t = total g in ground arith)

  turned_above : Holds color (suc h) up → Holds (turned p g color) (suc h) up
  turned_above = Holds-same color (turned p g color) (suc h) up (
      turned_list (trail_nodes up) (let t = total p in ground arith)
        (let t = total g in ground arith))

  module _ (inner : (root_red color pr ≡ false) × Balanced color h pr)
      (uncle_calm : (root_red color gr ≡ false) × Balanced color h gr)
      (above : Holds color (suc h) up) where
    pub turned-Holds_left :
        Holds (turned p g color) h (in_left p (node pr g gr) up)
        × (head_black (turned p g color) (in_left p (node pr g gr) up) ≡ true)
    turned-Holds_left = (
      (
        inl (
          two.1,
          (turned_inner inner).0,
          (turned_uncle uncle_calm).0,
          (turned_inner inner).1,
          (turned_uncle uncle_calm).1,
        ),
        inr (two.0, turned_above above),
      ),
      ground (arith, two),
    )

    pub turned-Holds_right :
        Holds (turned p g color) h (in_right (node gr g pr) p up)
        × (head_black (turned p g color) (in_right (node gr g pr) p up) ≡ true)
    turned-Holds_right = (
      (
        inl (
          two.1,
          (turned_uncle uncle_calm).0,
          (turned_inner inner).0,
          (turned_uncle uncle_calm).1,
          (turned_inner inner).1,
        ),
        inr (two.0, turned_above above),
      ),
      ground (arith, two),
    )
