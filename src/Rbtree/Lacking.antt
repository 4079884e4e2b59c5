-- ===== src/Rbtree/Lacking.antt =====
-- What the repair after a deletion is in the middle of in `qp_rbtree_delete_fix`,
-- src/core/qp_memory_core.c: the ways through one subtree lack a black node.
use qphi.Common.{
  ℕ, suc, ◌≡◌, ◌≢◌, inl, inr, ◌∙◌, sym, ap, true, not, ◌∷◌, ◌++◌, has, has-append, arith,
}
use qphi.Memory.Chain.{Field, null}
use qphi.Memory.Ring.{has-ne}
use qphi.Rbtree.{Store, nil, black, is_black, brother}
use qphi.Rbtree.Shape.{Shape, leaf, node, nodes, Stands}
use qphi.Rbtree.Trail.{Trail, in_left, trail_nodes, Stands-root}
use qphi.Rbtree.Focus.{Focus, Focus-Distinct}
use qphi.Rbtree.Balance.{root_red, Balanced, Holds}
use qphi.Rbtree.Sides.{Side}

abbrev pub At : {rb : ℕ} → Side rb → Store → (p x : ℕ) → Trail → Shape → Type 0
At {rb} d s p x c t = Focus (d.near s) (d.far s) s.parent (nil rb) (s.root rb) p x c t

-- The subtree `t` has `h` black nodes on every way, and its place is one for `suc h`. The sentinel,
-- where it is the subtree, has the parent too.
pub record Lacking {rb : ℕ} (d : Side rb) (s : Store) (p x : ℕ) (c : Trail) (t : Shape) (h : ℕ)
    : Type 0 where
  pub at : At d s p x c t
  pub link : s.parent x ≡ p
  pub stop_set : nil rb ≢ null
  pub balanced : Balanced s.color h t
  pub holds : Holds s.color (suc h) c
  pub sentinel : s.color (nil rb) ≡ black

-- A subtree does not stand at NULL.
pub Stands-set :
    (lf rt pa : Field) (stop p x : ℕ) (t : Shape)
    → Stands lf rt pa stop p x t
    → stop ≢ null
    → x ≢ null
Stands-set lf rt pa stop p x leaf v set e = set (sym v ∙ e)
Stands-set lf rt pa stop p x (node l a r) v set e = v.2 (sym v.0 ∙ e)

pub Lacking-set :
    {rb : ℕ} {d : Side rb} {s : Store} {p x : ℕ} {c : Trail} {t : Shape} {h : ℕ}
    → Lacking d s p x c t h
    → x ≢ null
Lacking-set {rb} {d} {s} {p} {x} {c} {t} v =
    Stands-set (d.near s) (d.far s) s.parent (nil rb) p x t v.at.stands v.stop_set

-- The colors as the tests read them.
pub is_black-root :
    (s : Store) (lf rt : Field) (stop p x h : ℕ) (t : Shape)
    → Stands lf rt s.parent stop p x t
    → Balanced s.color h t
    → s.color stop ≡ black
    → x ≢ null
    → is_black x s ≡ not (root_red s.color t)
unfolding is_black
is_black-root s lf rt stop p x h leaf v b e set = ground (arith, v, e)
is_black-root s lf rt stop p x h (node l a r) v b e set = ground (arith, v.0, b)

-- The same subtree stands at one place.
pub Stands-place :
    (lf rt pa lf' rt' pa' : Field) (stop p p' x x' : ℕ) (t : Shape)
    → Stands lf rt pa stop p x t
    → Stands lf' rt' pa' stop p' x' t
    → x' ≡ x
Stands-place lf rt pa lf' rt' pa' stop p p' x x' leaf v w = w ∙ sym v
Stands-place lf rt pa lf' rt' pa' stop p p' x x' (node l a r) v w = w.0 ∙ sym v.0

-- The link to the parent stays, where that of the sentinel does.
pub link_lem :
    (lf rt pa pa' : Field) (stop p x : ℕ) (t : Shape)
    → Stands lf rt pa' stop p x t
    → pa' stop ≡ pa stop
    → pa x ≡ p
    → pa' x ≡ p
link_lem lf rt pa pa' stop p x leaf v e l = ap pa' v ∙ e ∙ ap pa (sym v) ∙ l
link_lem lf rt pa pa' stop p x (node l a r) v e k = ap pa' v.0 ∙ v.3

-- The brother of a subtree on the near side is another one.
node_apart :
    {rb : ℕ} (d : Side rb) (s : Store) (p x : ℕ) (ul : Shape) (b : ℕ) (ur : Shape) (up : Trail)
    (t : Shape)
    → At d s p x (in_left p (node ul b ur) up) t
    → d.far s p ≢ x
node_apart {rb} d s p x ul b ur up t v e =
    elim (Stands-root (d.near s) (d.far s) s.parent (nil rb) p x t v.stands) [
      | inl z ↦ v.hangs.4.1 (sym v.hangs.4.0 ∙ e ∙ z)
      | inr i ↦
          has-ne b x (trail_nodes (in_left p (node ul b ur) up)) inside ((Focus-Distinct v).2 x i)
            (sym e ∙ v.hangs.4.0)
    ]
  where
    inside : has b (trail_nodes (in_left p (node ul b ur) up)) ≡ true
    inside = ground (
      arith,
      has-append b (nodes ul ++ b ∷ nodes ur) (trail_nodes up),
      has-append b (nodes ul) (b ∷ nodes ur),
    )

pub far-apart :
    {rb : ℕ} (d : Side rb) (s : Store) (p x : ℕ) (u : Shape) (up : Trail) (t : Shape) (h : ℕ)
    → Lacking d s p x (in_left p u up) t h
    → d.far s p ≢ x
far-apart d s p x leaf up t h v = absurd (omega (arith, v.holds.0))
far-apart d s p x (node ul b ur) up t h v = node_apart d s p x ul b ur up t v.at

pub brother-far :
    {rb : ℕ} (d : Side rb) (s : Store) (p x : ℕ) (ul : Shape) (b : ℕ) (ur : Shape) (up : Trail)
    (t : Shape)
    → At d s p x (in_left p (node ul b ur) up) t
    → s.parent x ≡ p
    → x ≢ null
    → brother x s ≡ b
brother-far d s p x ul b ur up t v l set =
    d.brother_lem s x p set l v.hangs.1 (node_apart d s p x ul b ur up t v) ∙ v.hangs.4.0
