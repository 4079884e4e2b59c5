-- ===== src/Rbtree/Deletion.antt =====
-- `qp_rbtree_delete` of src/core/qp_memory_core.c as a whole.
use qphi.Common.{
  ℕ, suc, ◌<◌, ◌≤◌, ◌≡◌, ◌≢◌, inl, inr, refl, ◌∙◌, sym, ap, subst, true, false, has, count, arith,
  ◌==◌, Option, some,
}
use qphi.Memory.Chain.{Field, null}
use qphi.Rbtree.{Store, nil, red, black, is_black, is_empty}
use qphi.Rbtree.Shape.{Shape, leaf, node, nodes, height, IsOrdered}
use qphi.Rbtree.Trail.{top, plug}
use qphi.Rbtree.Balance.{root_red, Balanced, Holds}
use qphi.Rbtree.Order.{count-plug}
use qphi.Rbtree.Settle.{IsRbtree}
use qphi.Rbtree.Insertion.{filled_lem}
use qphi.Rbtree.Repair.{Repaired}
use qphi.Rbtree.Sides.{left_side}
use qphi.Rbtree.Sink.{At-Whole}
use qphi.Rbtree.DeleteFix.{IsRbtree-Whole}
use qphi.Rbtree.Mend.{delete_fix-Repaired}
use qphi.Rbtree.Remove.{rest, Unlinked, unlink-Unlinked}
use qphi.Rbtree.Locate.{locate}
use qphi.Rbtree.Subst.{Chosen, choose}
use qphi.Rbtree.Shed.{Shed, shed, Shed-Sorted}
use qphi.Rbtree.Delete.{delete_subst, unlink, delete_fix, delete}

-- The node is out of the tree `t` of `s`: a red-black tree with ordered keys, with one node less, which is
-- the returned one, and without the key of `n`.
pub record Deleted (result : Option (ℕ × Store)) (s : Store) (rb n : ℕ) (t : Shape) : Type 0 where
  pub sub : ℕ
  pub store : Store
  pub tree : Shape
  pub returned : result ≡ some (sub, store)
  pub valid : IsRbtree store rb tree
  pub ordered : IsOrdered store tree
  pub shed : Shed s.key store.key n sub (nodes t) (nodes tree)

Balanced-rest :
    (color : Field) (h : ℕ) (l r : Shape)
    → Balanced color h l
    → Balanced color h r
    → Balanced color h (rest l r)
Balanced-rest color h leaf r v w = w
Balanced-rest color h (node a b c) r v w = v

root_red-rest :
    (color : Field) (l r : Shape)
    → root_red color l ≡ false
    → root_red color r ≡ false
    → root_red color (rest l r) ≡ false
root_red-rest color leaf r v w = w
root_red-rest color (node a b c) r v w = v

module _ (f rb n sub tmp : ℕ) (s s1 : Store) (n_set : n ≢ null) (rb_set : rb ≢ null)
    (filled : is_empty rb s ≡ false) (chosen : delete_subst f rb n s ≡ some sub)
    (unlinked : unlink rb n sub s ≡ (tmp, s1)) where
  delete_red : is_black sub s1 ≡ false → delete f rb n s ≡ some (sub, s1)
  unfolding delete
  delete_red e = ground (arith, n_set, rb_set, filled, chosen, unlinked, e)

  delete_black :
      (s2 : Store)
      → is_black sub s1 ≡ true
      → delete_fix f rb tmp s1 ≡ some s2
      → delete f rb n s ≡ some (sub, s2)
  unfolding delete
  delete_black s2 e fixed = ground (arith, n_set, rb_set, filled, chosen, unlinked, e, fixed)

is_black-of : (a : ℕ) (s : Store) (v : ℕ) → a ≢ null → s.color a ≡ v → is_black a s ≡ (v == black)
unfolding is_black
is_black-of a s v set e = ground (arith, e)

black_is : (black == black) ≡ true
black_is = refl

red_is : (red == black) ≡ false
red_is = refl

module _ (f rb n : ℕ) (s : Store) (t : Shape) (deep : ℕ) (rb_set : rb ≢ null) (n_set : n ≢ null)
    (stop_set : nil rb ≢ null) (filled : is_empty rb s ≡ false)
    (sentinel : s.color (nil rb) ≡ black) (enough : deep < f) where
  -- A black node leaves a place that lacks one.
  deleted_black :
      (w : Chosen s rb n t deep (delete_subst f rb n s))
      → (u : Unlinked s rb n w.sub w.p w.c (rest w.l w.r)) → s.color w.sub ≡ black
      → (k : ℕ) → w.h ≡ suc k
      → Balanced s.color k (rest w.l w.r)
      → Repaired (delete_fix f rb u.tmp u.store) u.store rb (plug w.c (rest w.l w.r))
  deleted_black w u b k e v =
      let colors = u.colors in
      delete_fix-Repaired f u.store rb w.p u.tmp w.c (rest w.l w.r) k
        (record {
          at = record { hangs = u.at.hangs; stands = u.at.stands; unique = u.at.unique };
          link = u.link;
          stop_set = stop_set;
          balanced = subst (λ q. Balanced q k (rest w.l w.r)) (sym colors) v;
          holds =
              subst (λ q. Holds q (suc k) w.c) (sym colors)
                (subst (λ h. Holds s.color h w.c) e w.standing.holds);
          sentinel = ap (λ (q : Field). q (nil rb)) colors ∙ sentinel;
        })
        (omega (arith, enough, w.standing.room))

  -- A red one leaves a red-black tree.
  deleted_red :
      (w : Chosen s rb n t deep (delete_subst f rb n s))
      → (u : Unlinked s rb n w.sub w.p w.c (rest w.l w.r)) → root_red s.color (rest w.l w.r) ≡ false
      → Balanced s.color w.h (rest w.l w.r)
      → IsRbtree u.store rb (plug w.c (rest w.l w.r))
  deleted_red w u c v =
      let colors = u.colors in
      IsRbtree-Whole rb u.store (plug w.c (rest w.l w.r)) (
        At-Whole (left_side rb) u.store w.p u.tmp w.h w.c (rest w.l w.r)
          (record { hangs = u.at.hangs; stands = u.at.stands; unique = u.at.unique })
          (subst (λ q. Balanced q w.h (rest w.l w.r)) (sym colors) v)
          (inl (subst (λ q. root_red q (rest w.l w.r) ≡ false) (sym colors) c))
          (subst (λ q. Holds q w.h w.c) (sym colors) w.standing.holds)
          (ap (λ (q : Field). q (nil rb)) colors ∙ sentinel))

  deleted_lem :
      Chosen s rb n t deep (delete_subst f rb n s)
      → IsOrdered s t
      → Deleted (delete f rb n s) s rb n t
  deleted_lem w o =
      let u = unlink-Unlinked s rb n w.sub w.p w.c w.l w.r w.single w.standing.at in
      let sub_set : w.sub ≢ null = w.standing.at.stands.2 in
      let single : (a : ℕ) → count a (nodes (plug w.c (node w.l w.sub w.r))) ≤ 1 =
        λ a. omega (arith, w.standing.at.unique a, count-plug a w.c (node w.l w.sub w.r)) in
      let gone : Shed s.key u.store.key n w.sub (nodes t) (nodes (plug w.c (rest w.l w.r))) =
        subst (λ z. Shed s.key u.store.key n w.sub (nodes z) (nodes (plug w.c (rest w.l w.r))))
          w.whole
          (subst
            (λ q.
              Shed s.key q n w.sub (nodes (plug w.c (node w.l w.sub w.r)))
                (nodes (plug w.c (rest w.l w.r))))
            (sym u.keys) (shed s.key n w.sub w.c w.l w.r w.single single w.place)) in
      elim w.standing.balanced [
        | inl (c, rl, rr, vl, vr) ↦
            (let test =
                is_black-of w.sub u.store red sub_set (ap (λ (q : Field). q w.sub) u.colors ∙ c) in
              record {
                sub = w.sub;
                store = u.store;
                tree = plug w.c (rest w.l w.r);
                returned =
                    delete_red f rb n w.sub u.tmp s u.store n_set rb_set filled w.is u.is test;
                valid =
                    deleted_red w u (root_red-rest s.color w.l w.r rl rr)
                      (Balanced-rest s.color w.h w.l w.r vl vr);
                ordered = Shed-Sorted s.key u.store.key n w.sub t (plug w.c (rest w.l w.r)) gone o;
                shed = gone;
              })
        | inr (c, (k, hk, vl, vr)) ↦
            (let test =
                is_black-of w.sub u.store black sub_set
                  (ap (λ (q : Field). q w.sub) u.colors ∙ c) in
              let done = deleted_black w u c k hk (Balanced-rest s.color k w.l w.r vl vr) in
              let lost : Shed s.key done.store.key n w.sub (nodes t) (nodes done.tree) =
                subst (λ xs. Shed s.key done.store.key n w.sub (nodes t) xs) (sym done.kept)
                  (subst (λ q. Shed s.key q n w.sub (nodes t) (nodes (plug w.c (rest w.l w.r))))
                    (sym done.keys) gone) in
              record {
                sub = w.sub;
                store = done.store;
                tree = done.tree;
                returned =
                    delete_black f rb n w.sub u.tmp s u.store n_set rb_set filled w.is u.is
                      done.store test done.returned;
                valid = done.valid;
                ordered = Shed-Sorted s.key done.store.key n w.sub t done.tree lost o;
                shed = lost;
              })
      ]

nil_set : (rb : ℕ) → rb ≢ null → nil rb ≢ null
unfolding nil
nil_set rb set e = ground (arith, e)

-- `qp_rbtree_delete` of a node of a red-black tree with ordered keys, with more rounds than the tree is
-- high: it returns a node, and the tree is again a red-black tree with ordered keys. Its nodes from left to
-- right are the old ones without the returned one, and their keys the old ones without that of `n`.
pub delete-Deleted :
    (f rb n : ℕ) (s : Store) (t : Shape)
    → rb ≢ null
    → has n (nodes t) ≡ true
    → IsRbtree s rb t
    → IsOrdered s t
    → height t < f
    → Deleted (delete f rb n s) s rb n t
delete-Deleted f rb n s leaf rb_set i v o enough = absurd (ground (arith, i))
delete-Deleted f rb n s (node l a r) rb_set i v o enough =
    let found =
      locate s rb n (nil rb) (s.root rb) top (node l a r) v.height (height (node l a r)) i (record {
        at = v.at;
        balanced = v.balanced;
        calm = inl v.black_root;
        holds = tt;
        room = omega arith;
      }) in
    let filled = filled_lem rb s l a r v in
    let chosen =
      choose f s rb n found.p found.c found.l found.r found.h (height (node l a r)) filled
        (omega (arith, enough)) found.standing in
    deleted_lem f rb n s (node l a r) (height (node l a r)) rb_set found.standing.at.stands.2
      (nil_set rb rb_set) filled v.sentinel enough
      (subst (λ t. Chosen s rb n t (height (node l a r)) (delete_subst f rb n s)) found.whole
        chosen)
      o
