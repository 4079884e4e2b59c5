-- ===== src/Rbtree/Locate.antt =====
-- Where a node stands in a tree of src/core/qp_memory_core.c, and the least node below a place.
use qphi.Common.{
  ℕ, zero, suc, ◌+◌, ◌≤◌, ◌≡◌, ◌≢◌, ◌⊎◌, inl, inr, refl, ◌∙◌, sym, ap, subst, true, false, ◌∷◌, has,
  has-append, Bool-cases, arith, some, ℕ_discrete,
}
use qphi.Rbtree.{Store, nil}
use qphi.Rbtree.Shape.{Shape, leaf, node, nodes, height}
use qphi.Rbtree.Trail.{Trail, in_left, in_right, plug}
use qphi.Rbtree.Turn.{IsAt}
use qphi.Rbtree.Climb.{Focus-down_left, Focus-down_right}
use qphi.Rbtree.Balance.{root_red, Balanced, head_black, Holds}
use qphi.Rbtree.Round.{depth}
use qphi.Rbtree.Order.{before}
use qphi.Rbtree.Place.{Holds-down}
use qphi.Rbtree.Search.{min_loop}

-- The subtree `t` at `x`, and what is balanced around it.
pub record Standing (s : Store) (rb p x : ℕ) (c : Trail) (t : Shape) (h deep : ℕ) : Type 0 where
  pub at : IsAt s rb p x c t
  pub balanced : Balanced s.color h t
  pub calm : (root_red s.color t ≡ false) ⊎ (head_black s.color c ≡ true)
  pub holds : Holds s.color h c
  pub room : depth c + height t ≤ deep

-- The node `n` of the tree.
pub record Located (s : Store) (rb n : ℕ) (t : Shape) (deep : ℕ) : Type 0 where
  pub p : ℕ
  pub c : Trail
  pub l : Shape
  pub r : Shape
  pub h : ℕ
  pub standing : Standing s rb p n c (node l n r) h deep
  pub whole : plug c (node l n r) ≡ t

-- One step down.
pub go_left :
    (s : Store) (rb p x : ℕ) (c : Trail) (l : Shape) (a : ℕ) (r : Shape) (h deep : ℕ)
    → Standing s rb p x c (node l a r) h deep
    → (k : ℕ) × Standing s rb a (s.left a) (in_left a r c) l k deep
go_left s rb p x c l a r h deep v =
    let d = Holds-down s.color h c l a r v.balanced v.calm v.holds in
    let w = subst (λ y. IsAt s rb p y c (node l a r)) v.at.stands.0 v.at in
    (
      d.0,
      record {
        at = Focus-down_left s.left s.right s.parent (nil rb) (s.root rb) p a r c l w;
        balanced = d.1;
        calm = d.5;
        holds = d.2;
        room = omega (arith, v.room);
      },
    )

pub go_right :
    (s : Store) (rb p x : ℕ) (c : Trail) (l : Shape) (a : ℕ) (r : Shape) (h deep : ℕ)
    → Standing s rb p x c (node l a r) h deep
    → (k : ℕ) × Standing s rb a (s.right a) (in_right l a c) r k deep
go_right s rb p x c l a r h deep v =
    let d = Holds-down s.color h c l a r v.balanced v.calm v.holds in
    let w = subst (λ y. IsAt s rb p y c (node l a r)) v.at.stands.0 v.at in
    (
      d.0,
      record {
        at = Focus-down_right s.left s.right s.parent (nil rb) (s.root rb) p a l c r w;
        balanced = d.3;
        calm = d.6;
        holds = d.4;
        room = omega (arith, v.room);
      },
    )

-- Every node of the subtree is somewhere.
pub locate :
    (s : Store) (rb n p x : ℕ) (c : Trail) (t : Shape) (h deep : ℕ)
    → has n (nodes t) ≡ true
    → Standing s rb p x c t h deep
    → Located s rb n (plug c t) deep
locate s rb n p x c leaf h deep i v = absurd (ground (arith, i))
locate s rb n p x c (node l a r) h deep i v = elim (ℕ_discrete n a) [
  | yes e ↦
      (let x_n : x ≡ n = v.at.stands.0 ∙ sym e in
        let w = subst (λ y. Standing s rb p y c (node l a r) h deep) x_n v in
        record {
          p = p;
          c = c;
          l = l;
          r = r;
          h = h;
          standing = subst (λ b. Standing s rb p n c (node l b r) h deep) (sym e) w;
          whole = ap (λ b. plug c (node l b r)) e;
        })
  | no ne ↦ elim (Bool-cases (has n (nodes l))) [
    | inl j ↦
        (let (k, w) = go_left s rb p x c l a r h deep v in
          locate s rb n a (s.left a) (in_left a r c) l k deep j w)
    | inr j ↦
        (let (k, w) = go_right s rb p x c l a r h deep v in
          locate s rb n a (s.right a) (in_right l a c) r k deep
            (ground (arith, i, j, ne, has-append n (nodes l) (a ∷ nodes r))) w)
  ]
]

-- The least node of a subtree with a node, as `qp_rbtree_min` finds it.
pub record LeastAt (s : Store) (rb x : ℕ) (c : Trail) (t : Shape) (f deep : ℕ) : Type 0 where
  pub sub : ℕ
  pub p : ℕ
  pub trail : Trail
  pub r : Shape
  pub h : ℕ
  pub standing : Standing s rb p sub trail (node leaf sub r) h deep
  pub whole : plug trail (node leaf sub r) ≡ plug c t
  pub same_before : before trail ≡ before c
  pub loop : min_loop f rb x s ≡ some sub

min_loop-here : (f rb x : ℕ) (s : Store) → s.left x ≡ nil rb → min_loop (suc f) rb x s ≡ some x
unfolding min_loop
min_loop-here f rb x s e = ground (arith, e)

min_loop-step :
    (f rb x : ℕ) (s : Store)
    → s.left x ≢ nil rb
    → min_loop (suc f) rb x s ≡ min_loop f rb (s.left x) s
unfolding min_loop
min_loop-step f rb x s e = ground (arith, e)

pub least :
    (f : ℕ) (s : Store) (rb p x : ℕ) (c : Trail) (l : Shape) (a : ℕ) (r : Shape) (h deep : ℕ)
    → height (node l a r) ≤ f
    → Standing s rb p x c (node l a r) h deep
    → LeastAt s rb x c (node l a r) f deep
least zero s rb p x c l a r h deep enough v = absurd (omega (arith, enough))
least (suc f) s rb p x c leaf a r h deep enough v =
    let x_a = v.at.stands.0 in
    record {
      sub = a;
      p = p;
      trail = c;
      r = r;
      h = h;
      standing = subst (λ y. Standing s rb p y c (node leaf a r) h deep) x_a v;
      whole = refl;
      same_before = refl;
      loop = min_loop-here f rb x s (ap s.left x_a ∙ v.at.stands.4) ∙ ap (λ y. some y) x_a;
    }
least (suc f) s rb p x c (node l b m) a r h deep enough v =
    let (k, w) = go_left s rb p x c (node l b m) a r h deep v in
    let u = least f s rb a (s.left a) (in_left a r c) l b m k deep (omega (arith, enough)) w in
    let x_a = v.at.stands.0 in
    record {
      sub = u.sub;
      p = u.p;
      trail = u.trail;
      r = u.r;
      h = u.h;
      standing = u.standing;
      whole = u.whole;
      same_before = u.same_before;
      loop =
          min_loop-step f rb x s (λ e. w.at.stands.1 (sym w.at.stands.0 ∙ ap s.left (sym x_a) ∙ e))
          ∙ ap (λ y. min_loop f rb (s.left y) s) x_a
          ∙ u.loop;
    }
