-- ===== src/Rbtree/Hang.antt =====
-- Hanging the new node below its place in `qp_rbtree_insert`, src/core/qp_memory_core.c.
use qphi.Common.{
  ℕ, ◌<◌, ◌≡◌, ◌≢◌, refl, sym, subst, true, false, ◌++◌, has, has-append, count-has, arith,
}
use qphi.Memory.Chain.{Field, null, update}
use qphi.Memory.Ring.{has-ne}
use qphi.Rbtree.{Store, nil, red, set_red}
use qphi.Rbtree.Shape.{Shape, leaf, node, nodes, Stands}
use qphi.Rbtree.Trail.{Trail, in_left, in_right, trail_nodes, Hangs, Same, Stands-Same, Hangs-Same}
use qphi.Rbtree.Focus.{Focus, Focus-Distinct}
use qphi.Rbtree.Insert.{hang}

-- The new store, below `cur` on its left and on its right.
abbrev pub hung_left : (rb n cur : ℕ) → Store → Store
hung_left rb n cur s = record s {
  left = update (update s.left n (nil rb)) cur n;
  right = update s.right n (nil rb);
  parent = update s.parent n cur;
  color = update s.color n red;
}

abbrev pub hung_right : (rb n cur : ℕ) → Store → Store
hung_right rb n cur s = record s {
  left = update s.left n (nil rb);
  right = update (update s.right n (nil rb)) cur n;
  parent = update s.parent n cur;
  color = update s.color n red;
}

pub hang-hung_left :
    (rb n cur : ℕ) (s : Store)
    → s.key n < s.key cur
    → n ≢ null
    → s.left cur ≡ nil rb
    → hang rb n cur s ≡ hung_left rb n cur s
unfolding hang set_red
hang-hung_left rb n cur s lt n_set e = ground (arith, lt, e)

pub hang-hung_right :
    (rb n cur : ℕ) (s : Store)
    → s.key cur < s.key n
    → n ≢ null
    → s.right cur ≡ nil rb
    → hang rb n cur s ≡ hung_right rb n cur s
unfolding hang set_red
hang-hung_right rb n cur s lt n_set e = ground (arith, lt, e)

-- A new node in an empty place.
module _ (lf rt pa : Field) (stop root n : ℕ) (n_set : n ≢ null) (n_stop : n ≢ stop) where
  pub grown_left :
      (a : ℕ) (u : Shape) (up : Trail)
      → Focus lf rt pa stop root a stop (in_left a u up) leaf
      → has n (trail_nodes (in_left a u up)) ≡ false
      → Focus
          (update (update lf n stop) a n)
          (update rt n stop)
          (update pa n a)
          stop
          root
          a
          n
          (in_left a u up)
          (node leaf n leaf)
  grown_left a u up v out =
      let d = (Focus-Distinct v).0 in
      let same : (b : ℕ)
          → has b (nodes u ++ trail_nodes up) ≡ true
          → Same lf rt pa (update (update lf n stop) a n) (update rt n stop) (update pa n a) b =
        λ b i.
          let b_a = has-ne b a (nodes u ++ trail_nodes up) i d.0 in
          let b_n = has-ne b n (nodes u ++ trail_nodes up) i (ground (arith, out)) in
          ground arith in
      let n_a : n ≢ a = ground (arith, out) in
      let rt_a : update rt n stop a ≡ rt a = ground arith in
      let pa_a : update pa n a a ≡ pa a = ground arith in
      record {
        hangs = (
          refl,
          ground arith,
          v.hangs.2,
          v.hangs.3,
          subst
              (λ x.
                Stands (update (update lf n stop) a n) (update rt n stop) (update pa n a) stop a x
                  u)
              (sym rt_a)
              (Stands-Same lf rt pa (update (update lf n stop) a n) (update rt n stop)
                (update pa n a) stop a (rt a) u
                (λ b i. same b (ground (arith, has-append b (nodes u) (trail_nodes up))))
                v.hangs.4),
          subst
              (λ x.
                Hangs (update (update lf n stop) a n) (update rt n stop) (update pa n a) stop root x
                  a up)
              (sym pa_a)
              (Hangs-Same lf rt pa (update (update lf n stop) a n) (update rt n stop)
                (update pa n a) stop root (pa a) a up
                (λ b i. same b (ground (arith, has-append b (nodes u) (trail_nodes up))))
                v.hangs.5),
        );
        stands = (refl, n_stop, n_set, ground arith, ground arith, ground arith);
        unique = λ b. ground (arith, v.unique b, count-has n (trail_nodes (in_left a u up)) out);
      }

  pub grown_right :
      (a : ℕ) (u : Shape) (up : Trail)
      → Focus lf rt pa stop root a stop (in_right u a up) leaf
      → has n (trail_nodes (in_right u a up)) ≡ false
      → Focus
          (update lf n stop)
          (update (update rt n stop) a n)
          (update pa n a)
          stop
          root
          a
          n
          (in_right u a up)
          (node leaf n leaf)
  grown_right a u up v out =
      let d = (Focus-Distinct v).0 in
      let same : (b : ℕ)
          → has b (nodes u ++ trail_nodes up) ≡ true
          → Same lf rt pa (update lf n stop) (update (update rt n stop) a n) (update pa n a) b =
        λ b i.
          let b_a = has-ne b a (nodes u ++ trail_nodes up) i d.0 in
          let b_n = has-ne b n (nodes u ++ trail_nodes up) i (ground (arith, out)) in
          ground arith in
      let n_a : n ≢ a = ground (arith, out) in
      let lf_a : update lf n stop a ≡ lf a = ground arith in
      let pa_a : update pa n a a ≡ pa a = ground arith in
      record {
        hangs = (
          refl,
          ground arith,
          v.hangs.2,
          v.hangs.3,
          subst
              (λ x.
                Stands (update lf n stop) (update (update rt n stop) a n) (update pa n a) stop a x
                  u)
              (sym lf_a)
              (Stands-Same lf rt pa (update lf n stop) (update (update rt n stop) a n)
                (update pa n a) stop a (lf a) u
                (λ b i. same b (ground (arith, has-append b (nodes u) (trail_nodes up))))
                v.hangs.4),
          subst
              (λ x.
                Hangs (update lf n stop) (update (update rt n stop) a n) (update pa n a) stop root x
                  a up)
              (sym pa_a)
              (Hangs-Same lf rt pa (update lf n stop) (update (update rt n stop) a n)
                (update pa n a) stop root (pa a) a up
                (λ b i. same b (ground (arith, has-append b (nodes u) (trail_nodes up))))
                v.hangs.5),
        );
        stands = (refl, n_stop, n_set, ground arith, ground arith, ground arith);
        unique = λ b. ground (arith, v.unique b, count-has n (trail_nodes (in_right u a up)) out);
      }
