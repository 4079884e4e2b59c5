-- ===== src/Rbtree/Remove.antt =====
-- The tree after a node has left its place in `qp_rbtree_delete`, src/core/qp_memory_core.c.
use qphi.Common.{
  ℕ, ◌+◌, ◌≡◌, ◌≢◌, ◌⊎◌, inl, inr, refl, sym, subst, [], ◌∷◌, has-append, count, count-append,
  arith, ◌==◌, if◌then◌else◌,
}
use qphi.Memory.Chain.{Field, update}
use qphi.Rbtree.{Store, nil}
use qphi.Rbtree.Shape.{Shape, leaf, node, nodes, Stands}
use qphi.Rbtree.Trail.{Trail, top, in_left, in_right, trail_nodes}
use qphi.Rbtree.Focus.{Focus}
use qphi.Rbtree.Turn.{IsAt, other_side}
use qphi.Rbtree.Unlink.{
  gone_top, gone_left, gone_right, taken_over, unlink_top, unlink_left, unlink_right,
}
use qphi.Rbtree.Delete.{unlink}

-- The one child that there may be.
abbrev pub rest : Shape → Shape → Shape
rest leaf r = r
rest (node a b c) r = node a b c

-- One of the children is the sentinel.
abbrev pub Single : Shape → Shape → Type 0
Single l r = (l ≡ leaf) ⊎ (r ≡ leaf)

count-rest :
    (a : ℕ) (l : Shape) (n : ℕ) (r : Shape)
    → Single l r
    → count a (nodes (node l n r)) ≡ count a (n ∷ []) + count a (nodes (rest l r))
count-rest a leaf n r one = omega arith
count-rest a (node x y z) n r (inr e) = omega (
  arith,
  subst (λ r. count a (nodes r) ≡ 0) (sym e) (omega arith),
  count-append a (nodes (node x y z)) (n ∷ nodes r),
)
count-rest a (node x y z) n r (inl e) = absurd (no_node x y z e)
  where
    no_node : (x : Shape) (y : ℕ) (z : Shape) → node x y z ≡ leaf → ⊥
    no_node x y z e = ground arith

-- Where the child stands.
child_at :
    (lf rt pa : Field) (stop p sub : ℕ) (l r : Shape)
    → Single l r
    → Stands lf rt pa stop p sub (node l sub r)
    → Stands lf rt pa stop sub (if stop == lf sub then rt sub else lf sub) (rest l r)
child_at lf rt pa stop p sub leaf r one v =
    subst (λ y. Stands lf rt pa stop sub y r) (ground (arith, v.4)) v.5
child_at lf rt pa stop p sub (node a b c) r one v =
    subst (λ y. Stands lf rt pa stop sub y (node a b c)) (ground (arith, v.4.0, v.4.1)) v.4

-- What is left behind `unlink`.
pub record Unlinked (s : Store) (rb n sub p : ℕ) (c : Trail) (t : Shape) : Type 0 where
  pub tmp : ℕ
  pub store : Store
  pub is : unlink rb n sub s ≡ (tmp, store)
  pub at : IsAt store rb p tmp c t
  pub link : store.parent tmp ≡ p
  pub colors : store.color ≡ s.color
  pub keys : store.key ≡ taken_over n sub s.key

update_at : (f : Field) (a v : ℕ) → update f a v a ≡ v
update_at f a v = ground arith

pub unlink-Unlinked :
    (s : Store) (rb n sub p : ℕ) (c : Trail) (l r : Shape)
    → Single l r
    → IsAt s rb p sub c (node l sub r)
    → Unlinked s rb n sub p c (rest l r)
unlink-Unlinked s rb n sub p top l r one v =
    let tmp = if nil rb == s.left sub then s.right sub else s.left sub in
    let low = child_at s.left s.right s.parent (nil rb) p sub l r one v.stands in
    let gone =
      gone_top s.left s.right s.parent (nil rb) (s.root rb) p sub tmp (rest l r) low v.hangs
        (λ a. omega (arith, v.unique a, count-rest a l sub r one)) in
    record {
      tmp = tmp;
      store = record s {
        parent = update s.parent tmp p;
        root = update s.root rb tmp;
        key = taken_over n sub s.key;
        node_data = taken_over n sub s.node_data;
      };
      is = unlink_top rb n sub p tmp s refl v.stands.2 v.stands.3 v.hangs.1;
      at =
          subst (λ y. Focus s.left s.right (update s.parent tmp p) (nil rb) y p tmp top (rest l r))
            (sym (update_at s.root rb tmp)) gone;
      link = update_at s.parent tmp p;
      colors = refl;
      keys = refl;
    }
unlink-Unlinked s rb n sub p (in_left a u up) l r one w =
    let v = subst (λ q. IsAt s rb q sub (in_left a u up) (node l sub r)) w.hangs.0 w in
    let tmp = if nil rb == s.left sub then s.right sub else s.left sub in
    let low = child_at s.left s.right s.parent (nil rb) a sub l r one v.stands in
    let gone =
      gone_left s.left s.right s.parent (nil rb) (s.root rb) a sub tmp (rest l r) low u up v.hangs
        (λ a. omega (arith, v.unique a, count-rest a l sub r one)) in
    subst (λ q. Unlinked s rb n sub q (in_left a u up) (rest l r)) (sym w.hangs.0)
      (record {
        tmp = tmp;
        store = record s {
          parent = update s.parent tmp a;
          left = update s.left a tmp;
          key = taken_over n sub s.key;
          node_data = taken_over n sub s.node_data;
        };
        is = unlink_left rb n sub a tmp s refl v.stands.2 v.stands.3 v.hangs.2 v.hangs.1;
        at = gone;
        link = update_at s.parent tmp a;
        colors = refl;
        keys = refl;
      })
unlink-Unlinked s rb n sub p (in_right u a up) l r one w =
    let v = subst (λ q. IsAt s rb q sub (in_right u a up) (node l sub r)) w.hangs.0 w in
    let tmp = if nil rb == s.left sub then s.right sub else s.left sub in
    let low = child_at s.left s.right s.parent (nil rb) a sub l r one v.stands in
    let gone =
      gone_right s.left s.right s.parent (nil rb) (s.root rb) a sub tmp (rest l r) low u up v.hangs
        (λ a. omega (arith, v.unique a, count-rest a l sub r one)) in
    let other : s.left a ≢ sub =
      other_side s.left s.right s.parent (nil rb) (s.root rb) a sub (in_right u a up) (node l sub r)
        (s.left a) u v v.stands.1 (ground (arith, has-append sub (nodes l) (sub ∷ nodes r)))
        v.hangs.4 (λ x i. ground (arith, has-append x (nodes u) (trail_nodes up))) in
    subst (λ q. Unlinked s rb n sub q (in_right u a up) (rest l r)) (sym w.hangs.0)
      (record {
        tmp = tmp;
        store = record s {
          parent = update s.parent tmp a;
          right = update s.right a tmp;
          key = taken_over n sub s.key;
          node_data = taken_over n sub s.node_data;
        };
        is = unlink_right rb n sub a tmp s refl v.stands.2 v.stands.3 v.hangs.2 other;
        at = gone;
        link = update_at s.parent tmp a;
        colors = refl;
        keys = refl;
      })
