-- ===== src/Rbtree/Forget.antt =====
-- What `qp_rbtree_find` returns after `qp_rbtree_delete`, src/core/qp_memory_core.c.
use qphi.Common.{
  count, count-append, has-count, length, length-append, ◌≤◌, false, Option, ℕ, ◌^◌, ◌<◌, ◌≡◌, ◌≢◌,
  ◌⊎◌, inl, inr, ◌∙◌, sym, ap, subst, true, List, [], ◌∷◌, ◌++◌, map, All, All-map, All-has, has,
  has-append, arith, some, ℕ_discrete, u32, Returns-some,
}
use qphi.Memory.Chain.{Field, null}
use qphi.Rbtree.{Store}
use qphi.Rbtree.Shape.{Shape, nodes, height, IsOrdered}
use qphi.Rbtree.Order.{height-size, Ascending, Sorted-Ascending, Ascending-parts}
use qphi.Rbtree.Lookup.{All-append, Found, find-Found}
use qphi.Rbtree.Search.{find}
use qphi.Rbtree.Delete.{delete}
use qphi.Rbtree.Keys.{head_tail}
use qphi.Rbtree.Shed.{Shed}
use qphi.Rbtree.Deletion.{Deleted, delete-Deleted}
use qphi.Rbtree.Settle.{IsRbtree}

-- Every key of the one list is one of the other.
has-map :
    (key key' : Field) (a : ℕ) (xs ys : List ℕ)
    → map key' xs ≡ map key ys
    → has a ys ≡ true
    → (b : ℕ) × (has b xs ≡ true) × (key' b ≡ key a)
has-map key key' a xs [] e i = absurd (ground (arith, i))
has-map key key' a [] (y ∷ ys) e i = absurd (ground (arith, e))
has-map key key' a (x ∷ xs) (y ∷ ys) e i =
    let (same, rest) = head_tail (key' x) (key y) (map key' xs) (map key ys) e in
    elim (ℕ_discrete a y) [
      | yes a_y ↦ (x, ground arith, same ∙ ap key (sym a_y))
      | no ne ↦
          (let (b, j, eq) = has-map key key' a xs ys rest (ground (arith, i, ne)) in
            (b, ground (arith, j), eq))
    ]

-- No other node has the key of `n`.
other_keys :
    (key : Field) (lower : List ℕ) (n : ℕ) (upper : List ℕ)
    → Ascending key (lower ++ n ∷ upper)
    → All (λ b. key b ≢ key n) (lower ++ upper)
other_keys key lower n upper v =
    let p = Ascending-parts key lower n upper v in
    All-append (λ b. key b ≢ key n) lower upper
      (All-map (λ b. key b < key n) (λ b. key b ≢ key n) lower (λ b lt e. omega (arith, lt, e)) p.0)
      (All-map (λ b. key n < key b) (λ b. key b ≢ key n) upper (λ b gt e. omega (arith, gt, e)) p.1)

stays :
    (a n : ℕ) (lower upper : List ℕ)
    → a ≢ n
    → has a (lower ++ n ∷ upper) ≡ true
    → has a (lower ++ upper) ≡ true
stays a n lower upper ne i =
    ground (arith, ne, i, has-append a lower (n ∷ upper), has-append a lower upper)

module _ (key key' : Field) (n sub : ℕ) (xs ys : List ℕ) (w : Shed key key' n sub xs ys) where
  -- The key of `n` is gone.
  gone_key : Ascending key xs → (r : ℕ) → has r ys ≡ true → key' r ≢ key n
  gone_key o r i e =
      let (b, j, same) = has-map key' key r (w.lower ++ w.upper) ys (sym w.keys) i in
      All-has (λ b. key b ≢ key n) b (w.lower ++ w.upper)
        (other_keys key w.lower n w.upper (subst (Ascending key) w.asked o)) j (same ∙ e)

  -- The others are there.
  kept_key : (a : ℕ) → a ≢ n → has a xs ≡ true → (b : ℕ) × (has b ys ≡ true) × (key' b ≡ key a)
  kept_key a ne i =
      has-map key key' a ys (w.lower ++ w.upper) w.keys
        (stays a n w.lower w.upper ne (subst (λ xs. has a xs ≡ true) w.asked i))

  -- What is there after the deletion was there before, and is not the node taken out.
  left_lem : (b : ℕ) → ((a : ℕ) → count a xs ≤ 1) → has b ys ≡ true → (has b xs ≡ true) × (b ≢ sub)
  left_lem b single i =
      let j : has b (w.front ++ w.back) ≡ true = subst (λ ys. has b ys ≡ true) w.left i in
      let one : count sub (w.front ++ sub ∷ w.back) ≤ 1 =
        subst (λ xs. count sub xs ≤ 1) w.taken (single sub) in
      (
        subst (λ xs. has b xs ≡ true) (sym w.taken)
            (ground (arith, j, has-append b w.front w.back, has-append b w.front (sub ∷ w.back))),
        λ e. not_there b sub w.front w.back e j one,
      )
    where
      not_there :
          (b sub : ℕ) (front back : List ℕ)
          → b ≡ sub
          → has b (front ++ back) ≡ true
          → count sub (front ++ sub ∷ back) ≤ 1
          → ⊥
      not_there b sub front back e j one =
          let here : has sub (front ++ back) ≡ true =
            subst (λ b. has b (front ++ back) ≡ true) e j in
          let away : has sub (front ++ back) ≡ false = has-count sub (front ++ back) (
            ground
              (arith, one, count-append sub front (sub ∷ back), count-append sub front back)) in
          clash (sym here ∙ away)
        where
          clash : true ≡ false → ⊥
          clash e = ground arith

-- What a search for the key of `a` returns in the store `s'`, where `n` was deleted and `sub` returned.
abbrev pub Answered : (result : Option ℕ) (s s' : Store) (n sub a : ℕ) → Shape → Type 0
Answered result s s' n sub a t =
    (a ≡ n) × (result ≡ some null)
    ⊎ (a ≢ n)
      × ((b : ℕ) × (result ≡ some b) × (has b (nodes t) ≡ true) × (b ≢ sub) × (s'.key b ≡ s.key a))

find-Deleted :
    (g rb n a : ℕ) (result : Option (ℕ × Store)) (s : Store) (t : Shape)
    (w : Deleted result s rb n t)
    → rb ≢ null
    → ((a : ℕ) → count a (nodes t) ≤ 1)
    → IsOrdered s t
    → has a (nodes t) ≡ true
    → s.key a < 2 ^ 32
    → length (nodes t) < g
    → Answered (find g rb (s.key a) w.store) s w.store n w.sub a t
find-Deleted g rb n a result s t w set single o i small enough =
    let whole : u32 (s.key a) ≡ s.key a = omega (arith, small) in
    let fewer : length (nodes w.tree) ≤ length (nodes t) = omega (
      arith,
      length-append w.shed.front (w.sub ∷ w.shed.back),
      length-append w.shed.front w.shed.back,
      ap length w.shed.taken,
      ap length w.shed.left,
    ) in
    let (r, is, found) =
      Returns-some (Found w.store (u32 (s.key a)) w.tree) (find g rb (s.key a) w.store) (
        find-Found g rb (s.key a) w.store w.tree set w.valid.at.stands w.ordered
          (omega (arith, height-size w.tree, fewer, enough))) in
    let ascending = Sorted-Ascending s.key t o in
    elim (ℕ_discrete a n) [
      | yes e ↦ elim found [
        | inl (r_null, none_has) ↦ inl (e, is ∙ ap (λ x. some x) r_null)
        | inr (j, k) ↦ absurd (
            gone_key s.key w.store.key n w.sub (nodes t) (nodes w.tree) w.shed ascending r j
              (k ∙ whole ∙ ap s.key e))
      ]
      | no ne ↦ elim found [
        | inl (r_null, none_has) ↦
            (let (b, j, k) =
                kept_key s.key w.store.key n w.sub (nodes t) (nodes w.tree) w.shed a ne i in
              absurd (
                All-has (λ b. w.store.key b ≢ u32 (s.key a)) b (nodes w.tree) none_has j
                  (k ∙ sym whole)))
        | inr (j, k) ↦
            (let (old, other) =
                left_lem s.key w.store.key n w.sub (nodes t) (nodes w.tree) w.shed r single j in
              inr (ne, (r, is, old, other, k ∙ whole)))
      ]
    ]

-- `qp_rbtree_delete` of a node of a red-black tree with ordered keys, with more rounds than the tree is high,
-- and then `qp_rbtree_find`, with more rounds than the tree had nodes: the deletion returns a node, and in the store that it leaves `qp_rbtree_find`
-- returns NULL for the key of the deleted node. For the key of each other node it returns a node that
-- has it, one of the tree's and not the returned one. The keys are below 2 ^ 32.
pub find-delete :
    (f g rb n a : ℕ) (s : Store) (t : Shape)
    → rb ≢ null
    → has n (nodes t) ≡ true
    → IsRbtree s rb t
    → IsOrdered s t
    → height t < f
    → has a (nodes t) ≡ true
    → s.key a < 2 ^ 32
    → length (nodes t) < g
    → (sub : ℕ) × (s' : Store) × (delete f rb n s ≡ some (sub, s'))
      × Answered (find g rb (s.key a) s') s s' n sub a t
find-delete f g rb n a s t set here v o deep i small enough =
    let w = delete-Deleted f rb n s t set here v o deep in
    (
      w.sub,
      w.store,
      w.returned,
      find-Deleted g rb n a (delete f rb n s) s t w set (λ a. omega (arith, v.at.unique a)) o i
          small enough,
    )
