-- ===== src/Rbtree/Insertion.antt =====
-- `qp_rbtree_insert` of src/core/qp_memory_core.c as a whole.
use qphi.Common.{
  length, suc, ℕ, ◌<◌, ◌≡◌, ◌≢◌, ◌⊎◌, inl, inr, refl, ◌∙◌, sym, ap, subst, true, false, ◌||◌, List,
  ◌∷◌, has, Bool-cases, count, has-count, count-has, arith, ◌==◌, Option, some,
}
use qphi.Memory.Chain.{Field, null, update}
use qphi.Memory.Ring.{has-ne}
use qphi.Rbtree.{Store, nil, red, black, is_red, parent, is_empty, set_black}
use qphi.Rbtree.Shape.{Shape, leaf, node, nodes, IsOrdered, Sorted, height}
use qphi.Rbtree.Trail.{Trail, top, plug, trail_nodes}
use qphi.Rbtree.Turn.{IsAt}
use qphi.Rbtree.Balance.{root_red, root_red_same}
use qphi.Rbtree.Order.{count-plug, length-plug, grown-Sorted, Sorted-nodes}
use qphi.Rbtree.Settle.{IsRbtree}
use qphi.Rbtree.Place.{Arrived, IsTaken}
use qphi.Rbtree.Walk.{walk}
use qphi.Rbtree.Grow.{hang-Pending, parent_color, Pending-IsRbtree}
use qphi.Rbtree.Repair.{insert_fix-Repaired}
use qphi.Rbtree.Insert.{taken, below, insert_place, insert_fix, hang, insert}

-- The node is in the tree: a red-black tree with ordered keys, whose nodes are those of `t` and the
-- new one.
pub record Inserted (result : Option (ℕ × Store)) (s : Store) (rb n : ℕ) (t : Shape) : Type 0 where
  pub store : Store
  pub tree : Shape
  pub returned : result ≡ some (n, store)
  pub valid : IsRbtree store rb tree
  pub ordered : IsOrdered store tree
  pub members : (a : ℕ) → has a (nodes tree) ≡ ((a == n) || has a (nodes t))
  pub size : length (nodes tree) ≡ suc (length (nodes t))
  pub keys : store.key ≡ s.key

module _ (f rb n : ℕ) (s : Store) (n_set : n ≢ null) where
  insert_taken :
      is_empty rb s ≡ false
      → insert_place f rb (s.key n) (s.root rb) s ≡ some taken
      → insert f rb n s ≡ some (null, s)
  unfolding insert
  insert_taken e p = ground (arith, e, p)

  insert_calm :
      (cur : ℕ)
      → is_empty rb s ≡ false
      → insert_place f rb (s.key n) (s.root rb) s ≡ some (below cur)
      → is_red (parent n (hang rb n cur s)) (hang rb n cur s) ≡ false
      → insert f rb n s ≡ some (n, hang rb n cur s)
  unfolding insert
  insert_calm cur e p c = ground (arith, e, p, c)

  insert_repaired :
      (cur : ℕ) (s' : Store)
      → is_empty rb s ≡ false
      → insert_place f rb (s.key n) (s.root rb) s ≡ some (below cur)
      → is_red (parent n (hang rb n cur s)) (hang rb n cur s) ≡ true
      → insert_fix f rb n (hang rb n cur s) ≡ some s'
      → insert f rb n s ≡ some (n, s')
  unfolding insert
  insert_repaired cur s' e p c q = ground (arith, e, p, c, q)

-- The membership test of a list with one element more.
members_lem :
    (n : ℕ) (xs ys : List ℕ)
    → ((a : ℕ) → count a ys ≡ count a (n ∷ xs))
    → (a : ℕ) → has a ys ≡ ((a == n) || has a xs)
members_lem n xs ys e a = elim (Bool-cases (has a (n ∷ xs))) [
  | inl i ↦ elim (Bool-cases (has a ys)) [
    | inl j ↦ j ∙ sym i
    | inr j ↦ absurd (clash (sym i ∙ has-count a (n ∷ xs) (sym (e a) ∙ count-has a ys j)))
  ]
  | inr i ↦ has-count a ys (e a ∙ count-has a (n ∷ xs) i) ∙ sym i
]
  where
    clash : true ≡ false → ⊥
    clash z = ground arith

-- The nodes of the tree with the new node in an empty place.
grown_members :
    (c : Trail) (n a : ℕ)
    → has a (nodes (plug c (node leaf n leaf))) ≡ ((a == n) || has a (nodes (plug c leaf)))
grown_members c n =
    members_lem n (nodes (plug c leaf)) (nodes (plug c (node leaf n leaf)))
      (λ a. omega (arith, count-plug a c leaf, count-plug a c (node leaf n leaf)))

-- Painting a node that is not in a tree.
root_red-update :
    (color : Field) (n : ℕ) (t : Shape)
    → has n (nodes t) ≡ false
    → root_red (update color n red) t ≡ root_red color t
root_red-update color n t out =
    root_red_same color (update color n red) t
      (λ b i. let b_n = has-ne b n (nodes t) i out in ground arith)

-- The first node of an empty tree.
first_node :
    (f rb n : ℕ) (s : Store)
    → rb ≢ null
    → n ≢ null
    → n ≢ nil rb
    → IsRbtree s rb leaf
    → Inserted (insert f rb n s) s rb n leaf
unfolding insert is_empty set_black
first_node f rb n s rb_set n_set n_stop v = record {
  store = record s {
    left = update s.left n (nil rb);
    right = update s.right n (nil rb);
    parent = update s.parent n (nil rb);
    color = update s.color n black;
    root = update s.root rb n;
  };
  tree = node leaf n leaf;
  returned = ground (arith, v.at.stands);
  valid = record {
    at = record {
      hangs = (ground arith, refl);
      stands = (ground arith, n_stop, n_set, ground arith, ground arith, ground arith);
      unique = λ a. ground arith;
    };
    height = 1;
    balanced = inr (ground arith, (0, refl, refl, refl));
    black_root = ground arith;
    sentinel = ground (arith, v.sentinel);
  };
  ordered = (tt, tt, tt, tt);
  members = λ a. refl;
  size = refl;
  keys = refl;
}

module _ (f rb n : ℕ) (s : Store) (t : Shape) (n_set : n ≢ null) (n_stop : n ≢ nil rb)
    (fresh : has n (nodes t) ≡ false) (v : IsRbtree s rb t) (o : IsOrdered s t)
    (some_node : is_empty rb s ≡ false) where
  -- The node that the search has found a place for.
  arrived_lem :
      (deep : ℕ)
      → deep < f
      → Arrived s rb (s.key n) (insert_place f rb (s.key n) (s.root rb) s) t deep
      → Inserted (insert f rb n s) s rb n t
  arrived_lem deep enough w =
      let out : has n (trail_nodes w.trail) ≡ false = has-count n (trail_nodes w.trail) (
        omega (
          arith,
          count-plug n w.trail leaf,
          subst (λ u. count n (nodes u) ≡ 0) (sym w.whole) (count-has n (nodes t) fresh),
        )) in
      let grown =
        hang-Pending s rb n n_set n_stop v.sentinel w.cur w.trail w.inside w.at out w.between
          w.holds in
      let s1 : Store = hang rb n w.cur s in
      let bigger : Sorted s.key (plug w.trail (node leaf n leaf)) =
        grown-Sorted s.key w.trail n (subst (Sorted s.key) (sym w.whole) o) w.between in
      let members : (a : ℕ)
          → has a (nodes (plug w.trail (node leaf n leaf))) ≡ ((a == n) || has a (nodes t)) =
        λ a.
          subst
            (λ u. has a (nodes (plug w.trail (node leaf n leaf))) ≡ ((a == n) || has a (nodes u)))
            w.whole (grown_members w.trail n a) in
      let size : length (nodes (plug w.trail (node leaf n leaf))) ≡ suc (length (nodes t)) =
        subst (λ u. length (nodes (plug w.trail (node leaf n leaf))) ≡ suc (length (nodes u)))
          w.whole
          (omega (arith, length-plug w.trail leaf, length-plug w.trail (node leaf n leaf))) in
      elim (parent_color s1 rb w.cur n w.trail leaf leaf 0 w.inside grown.0) [
        | inl c ↦
            (let fixed =
                insert_fix-Repaired f s1 rb w.cur n w.trail leaf leaf 0 grown.0
                  (omega (arith, w.shallow, enough)) in
              record {
                store = fixed.store;
                tree = fixed.tree;
                returned =
                    insert_repaired f rb n s n_set w.cur fixed.store some_node w.returned c
                      fixed.returned;
                valid = fixed.valid;
                ordered =
                    subst (λ k. Sorted k fixed.tree) (sym (fixed.keys ∙ grown.1))
                      (Sorted-nodes s.key (plug w.trail (node leaf n leaf)) fixed.tree fixed.kept
                        bigger);
                members = λ a. ap (has a) fixed.kept ∙ members a;
                size = ap length fixed.kept ∙ size;
                keys = fixed.keys ∙ grown.1;
              })
        | inr (c, hb) ↦
            (let old : root_red s1.color (plug w.trail leaf) ≡ false =
                subst (λ k. root_red k (plug w.trail leaf) ≡ false) (sym grown.2)
                  (subst (λ u. root_red (update s.color n red) u ≡ false) (sym w.whole)
                    (root_red-update s.color n t fresh ∙ v.black_root)) in
              record {
                store = s1;
                tree = plug w.trail (node leaf n leaf);
                returned = insert_calm f rb n s n_set w.cur some_node w.returned c;
                valid = Pending-IsRbtree s1 rb w.cur n w.trail leaf leaf 0 w.inside grown.0 hb old;
                ordered =
                    subst (λ k. Sorted k (plug w.trail (node leaf n leaf))) (sym grown.1) bigger;
                members = members;
                size = size;
                keys = grown.1;
              })
      ]

-- A tree with a node is not empty.
pub filled_lem :
    (rb : ℕ) (s : Store) (l : Shape) (a : ℕ) (r : Shape)
    → IsRbtree s rb (node l a r)
    → is_empty rb s ≡ false
unfolding is_empty
filled_lem rb s l a r v = ground (arith, v.at.stands)

-- `qp_rbtree_insert` of a new node into a red-black tree with ordered keys, with more rounds than the
-- tree is high. If a node has the key it returns NULL and leaves the store. Otherwise it
-- returns the node, and the tree is again a red-black tree with ordered keys, with the old nodes and
-- the new one.
pub insert-Inserted :
    (f rb n : ℕ) (s : Store) (t : Shape)
    → rb ≢ null
    → n ≢ null
    → n ≢ nil rb
    → has n (nodes t) ≡ false
    → IsRbtree s rb t
    → IsOrdered s t
    → height t < f
    → (insert f rb n s ≡ some (null, s))
        × ((b : ℕ) × (has b (nodes t) ≡ true) × (s.key b ≡ s.key n))
      ⊎ Inserted (insert f rb n s) s rb n t
insert-Inserted f rb n s leaf rb_set n_set n_stop fresh v o enough =
    inr (first_node f rb n s rb_set n_set n_stop v)
insert-Inserted f rb n s (node l a r) rb_set n_set n_stop fresh v o enough =
    let filled : is_empty rb s ≡ false = filled_lem rb s l a r v in
    let root_a = v.at.stands.0 in
    let ends =
      walk s rb (s.key n) (height (node l a r)) f (nil rb) top l a r v.height
        (record {
          at = subst (λ x. IsAt s rb (nil rb) x top (node l a r)) root_a v.at;
          sorted = o;
          between = (tt, tt);
          balanced = v.balanced;
          calm = inl v.black_root;
          holds = tt;
          shallow = omega arith;
        })
        (omega (arith, enough)) in
    elim (subst
      (λ x.
        Arrived s rb (s.key n) (insert_place f rb (s.key n) x s) (node l a r) (height (node l a r))
        ⊎ IsTaken s (s.key n) (insert_place f rb (s.key n) x s) (node l a r))
      (sym root_a) ends) [
        | inl w ↦ inr (
            arrived_lem f rb n s (node l a r) n_set n_stop fresh v o filled (height (node l a r))
              enough w)
        | inr (e, b) ↦ inl (insert_taken f rb n s n_set filled e, b)
      ]
