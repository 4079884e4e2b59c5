-- ===== src/Rbtree/Session.antt =====
-- A tree of src/core/qp_memory_core.c from `qp_rbtree_init` through any number of insertions.
use qphi.Common.{
  All-has, has-append, ◌++◌, ℕ, ◌+◌, ◌<◌, ◌≡◌, ◌≢◌, ◌⊎◌, inl, inr, refl, ◌∙◌, sym, ap, subst, Bool,
  true, false, ◌||◌, List, [], ◌∷◌, All, has, Distinct, length, arith, ◌==◌, ℕ_discrete, Option,
  none, some,
}
use qphi.Memory.Chain.{null}
use qphi.Rbtree.{Store, nil, init, set_black}
use qphi.Rbtree.Shape.{Shape, leaf, nodes, IsOrdered}
use qphi.Rbtree.Settle.{IsRbtree}
use qphi.Rbtree.Order.{height-size}
use qphi.Rbtree.Insert.{insert}
use qphi.Rbtree.Insertion.{Inserted, insert-Inserted}

-- The insertion of each node of a list.
abbrev pub insert_all : (rounds rbtree : ℕ) → List ℕ → Store → Option Store
insert_all f rb [] s = some s
insert_all f rb (n ∷ ns) s = elim (insert f rb n s) [
  | none ↦ none
  | some r ↦ insert_all f rb ns r.1
]

-- The empty tree.
pub init-IsRbtree : (rb : ℕ) (s : Store) → rb ≢ null → IsRbtree (init rb s) rb leaf
unfolding init set_black nil
init-IsRbtree rb s set = record {
  at = record { hangs = (refl, ground arith); stands = ground arith; unique = λ a. omega arith };
  height = 0;
  balanced = refl;
  black_root = refl;
  sentinel = ground arith;
}

-- A node of the tree or of the list, and a key that a node of the tree has.
abbrev pub Given : Shape → List ℕ → ℕ → Type 0
Given t ns a = (has a ns || has a (nodes t)) ≡ true

abbrev pub HasKey : Store → Shape → ℕ → Type 0
HasKey s t a = (b : ℕ) × (has b (nodes t) ≡ true) × (s.key b ≡ s.key a)

-- After the insertions of `ns`: a red-black tree with ordered keys, with a node for each key of `t`
-- and of `ns`, and no other nodes.
pub record Built (result : Option Store) (s : Store) (rb : ℕ) (t : Shape) (ns : List ℕ)
    : Type 0 where
  pub store : Store
  pub tree : Shape
  pub returned : result ≡ some store
  pub valid : IsRbtree store rb tree
  pub ordered : IsOrdered store tree
  pub keys : store.key ≡ s.key
  pub only : All (Given t ns) (nodes tree)
  pub each : All (HasKey s tree) (ns ++ nodes t)

All-of {ℓ} : (P : ℕ → Type ℓ) (xs : List ℕ) → ((a : ℕ) → has a xs ≡ true → P a) → All P xs
All-of P [] h = tt
All-of P (x ∷ xs) h = (h x (ground arith), All-of P xs (λ a i. h a (ground (arith, i))))

only_at :
    {result : Option Store} {s : Store} {rb : ℕ} {t : Shape} {ns : List ℕ}
    (w : Built result s rb t ns) (a : ℕ)
    → has a (nodes w.tree) ≡ true
    → Given t ns a
only_at {result} {s} {rb} {t} {ns} w a i = All-has (Given t ns) a (nodes w.tree) w.only i

each_at :
    {result : Option Store} {s : Store} {rb : ℕ} {t : Shape} {ns : List ℕ}
    (w : Built result s rb t ns) (a : ℕ)
    → Given t ns a
    → HasKey s w.tree a
each_at {result} {s} {rb} {t} {ns} w a i =
    All-has (HasKey s w.tree) a (ns ++ nodes t) w.each (has-append a ns (nodes t) ∙ i)

each_of :
    (s : Store) (u t : Shape) (ns : List ℕ)
    → ((a : ℕ) → Given t ns a → HasKey s u a)
    → All (HasKey s u) (ns ++ nodes t)
each_of s u t ns h =
    All-of (HasKey s u) (ns ++ nodes t) (λ a i. h a (sym (has-append a ns (nodes t)) ∙ i))

-- What a node has to be for an insertion.
abbrev pub Fresh : (rb n : ℕ) → Type 0
Fresh rb n = (n ≢ null) × (n ≢ nil rb)

-- The nodes that come later are not in the tree with the new node.
later_out :
    (n : ℕ) (t u : Shape) (ns : List ℕ)
    → ((a : ℕ) → has a (nodes u) ≡ ((a == n) || has a (nodes t)))
    → has n ns ≡ false
    → All (λ m. has m (nodes t) ≡ false) ns
    → All (λ m. has m (nodes u) ≡ false) ns
later_out n t u [] members out v = tt
later_out n t u (m ∷ ns) members out v =
    let here = members m in
    (ground (arith, out, v.0), later_out n t u ns members (ground (arith, out)) v.1)

-- An element of a longer list.
has_cases :
    (a n : ℕ) (ns : List ℕ) (x : Bool)
    → (has a (n ∷ ns) || x) ≡ true
    → (a ≡ n) ⊎ ((has a ns || x) ≡ true)
has_cases a n ns x e = elim (ℕ_discrete a n) [ yes i ↦ inl i | no ne ↦ inr (ground (arith, e, ne)) ]

-- The insertion of a node whose key is there.
add_known :
    (f rb n : ℕ) (ns : List ℕ) (s : Store) (t : Shape) (b : ℕ)
    → insert f rb n s ≡ some (null, s)
    → has b (nodes t) ≡ true
    → s.key b ≡ s.key n
    → Built (insert_all f rb ns s) s rb t ns
    → Built (insert_all f rb (n ∷ ns) s) s rb t (n ∷ ns)
add_known f rb n ns s t b e i k w = record {
  store = w.store;
  tree = w.tree;
  returned = ap (go f rb ns) e ∙ w.returned;
  valid = w.valid;
  ordered = w.ordered;
  keys = w.keys;
  only =
      All-of (Given t (n ∷ ns)) (nodes w.tree) (λ a j. let o = only_at w a j in ground (arith, o));
  each = each_of s w.tree t (n ∷ ns) (λ a j. elim (has_cases a n ns (has a (nodes t)) j) [
    | inl a_n ↦
        (let (c, c_in, c_key) = each_at w b (ground (arith, i)) in
          (c, c_in, c_key ∙ k ∙ ap s.key (sym a_n)))
    | inr rest ↦ each_at w a rest
  ]);
}
  where
    go : (f rb : ℕ) → List ℕ → Option (ℕ × Store) → Option Store
    go f rb ns o = elim o [ none ↦ none | some r ↦ insert_all f rb ns r.1 ]

-- The insertion of a node with a new key.
add_fresh :
    (f rb n : ℕ) (ns : List ℕ) (s : Store) (t : Shape) (w : Inserted (insert f rb n s) s rb n t)
    → Built (insert_all f rb ns w.store) w.store rb w.tree ns
    → Built (insert_all f rb (n ∷ ns) s) s rb t (n ∷ ns)
add_fresh f rb n ns s t w r = record {
  store = r.store;
  tree = r.tree;
  returned = ap (go f rb ns) w.returned ∙ r.returned;
  valid = r.valid;
  ordered = r.ordered;
  keys = r.keys ∙ w.keys;
  only =
      All-of (Given t (n ∷ ns)) (nodes r.tree)
        (λ a j. let o = only_at r a j in let m = w.members a in ground (arith, o, m));
  each = each_of s r.tree t (n ∷ ns) (λ a j.
      let m = w.members a in
      let (c, c_in, c_key) = each_at r a (ground (arith, m, j)) in
      (c, c_in, subst (λ k. k c ≡ k a) w.keys c_key));
}
  where
    go : (f rb : ℕ) → List ℕ → Option (ℕ × Store) → Option Store
    go f rb ns o = elim o [ none ↦ none | some r ↦ insert_all f rb ns r.1 ]

-- The same for any red-black tree to begin with.
insert_all-Built :
    (f rb : ℕ) (ns : List ℕ) (s : Store) (t : Shape)
    → rb ≢ null
    → All (Fresh rb) ns
    → Distinct ns
    → All (λ n. has n (nodes t) ≡ false) ns
    → IsRbtree s rb t
    → IsOrdered s t
    → length ns + length (nodes t) < f
    → Built (insert_all f rb ns s) s rb t ns
insert_all-Built f rb [] s t set fresh d out v o enough = record {
  store = s;
  tree = t;
  returned = refl;
  valid = v;
  ordered = o;
  keys = refl;
  only = All-of (Given t []) (nodes t) (λ a i. i);
  each = each_of s t t [] (λ a i. (a, i, refl));
}
insert_all-Built f rb (n ∷ ns) s t set fresh d out v o enough =
    elim (insert-Inserted f rb n s t set fresh.0.0 fresh.0.1 out.0 v o
      (omega (arith, height-size t, enough))) [
        | inl (e, (b, i, k)) ↦
            add_known f rb n ns s t b e i k
              (insert_all-Built f rb ns s t set fresh.1 d.1 out.1 v o (omega (arith, enough)))
        | inr w ↦ add_fresh f rb n ns s t w (
            insert_all-Built f rb ns w.store w.tree set fresh.1 d.1
              (later_out n t w.tree ns w.members d.0 out.1) w.valid w.ordered
              (omega (arith, w.size, enough)))
      ]

none_yet : (ns : List ℕ) → All (λ n. has n (nodes leaf) ≡ false) ns
none_yet [] = tt
none_yet (n ∷ ns) = (refl, none_yet ns)

-- After `qp_rbtree_init`, different nodes are given to `qp_rbtree_insert` one after the other, with
-- more rounds than there are nodes. Every call returns, and they leave a red-black tree with ordered
-- keys, which has a node for each key of the list, and only nodes of the list.
pub insert_all-init :
    (f rb : ℕ) (ns : List ℕ) (s : Store)
    → rb ≢ null
    → All (Fresh rb) ns
    → Distinct ns
    → length ns < f
    → Built (insert_all f rb ns (init rb s)) (init rb s) rb leaf ns
insert_all-init f rb ns s set fresh d enough =
    insert_all-Built f rb ns (init rb s) leaf set fresh d (none_yet ns) (init-IsRbtree rb s set) tt
      (omega (arith, enough))
