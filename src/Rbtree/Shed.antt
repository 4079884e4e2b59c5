-- ===== src/Rbtree/Shed.antt =====
-- The nodes and the keys from left to right before and after `qp_rbtree_delete` of
-- src/core/qp_memory_core.c.
use qphi.Common.{
  ℕ, ◌≤◌, ◌≡◌, ◌≢◌, ◌⊎◌, inl, inr, refl, ◌∙◌, sym, ap, subst, false, List, [], ◌∷◌, ◌++◌, map, has,
  count, count-append, has-count, arith,
}
use qphi.Memory.Chain.{Field, update}
use qphi.Rbtree.Shape.{Shape, leaf, node, nodes, Sorted}
use qphi.Rbtree.Trail.{Trail, plug}
use qphi.Rbtree.Climb.{append_assoc}
use qphi.Rbtree.Order.{
  before, after, nil_append, nodes_around, Ascending, Sorted-Ascending, Ascending-Sorted,
}
use qphi.Rbtree.Keys.{Ascending-keys, Ascending-without, keys_shift}
use qphi.Rbtree.Unlink.{taken_over}
use qphi.Rbtree.Remove.{Single, rest}

-- The tree has lost the node `sub`, and the keys have lost that of `n`.
pub record Shed (key key' : Field) (n sub : ℕ) (before after : List ℕ) : Type 0 where
  pub front : List ℕ
  pub back : List ℕ
  pub lower : List ℕ
  pub upper : List ℕ
  pub taken : before ≡ front ++ sub ∷ back
  pub left : after ≡ front ++ back
  pub asked : before ≡ lower ++ n ∷ upper
  pub keys : map key' after ≡ map key (lower ++ upper)

nodes-rest : (l r : Shape) → Single l r → nodes (rest l r) ≡ nodes l ++ nodes r
nodes-rest leaf r one = refl
nodes-rest (node a b c) r (inr e) =
    sym (nil_append (nodes (node a b c))) ∙ ap (λ r. nodes (node a b c) ++ nodes r) (sym e)
nodes-rest (node a b c) r (inl e) = absurd (no_node e)
  where
    no_node : node a b c ≡ leaf → ⊥
    no_node e = ground arith

whole_list :
    (c : Trail) (l : Shape) (sub : ℕ) (r : Shape)
    → nodes (plug c (node l sub r)) ≡ (before c ++ nodes l) ++ sub ∷ (nodes r ++ after c)
whole_list c l sub r =
    nodes_around c (node l sub r)
    ∙ ap (λ xs. before c ++ xs) (append_assoc (nodes l) (sub ∷ nodes r) (after c))
    ∙ sym (append_assoc (before c) (nodes l) (sub ∷ (nodes r ++ after c)))

rest_list :
    (c : Trail) (l r : Shape)
    → Single l r
    → nodes (plug c (rest l r)) ≡ (before c ++ nodes l) ++ (nodes r ++ after c)
rest_list c l r one =
    nodes_around c (rest l r)
    ∙ ap (λ xs. before c ++ (xs ++ after c)) (nodes-rest l r one)
    ∙ ap (λ xs. before c ++ xs) (append_assoc (nodes l) (nodes r) (after c))
    ∙ sym (append_assoc (before c) (nodes l) (nodes r ++ after c))

-- The node before `sub` is `n`, and it is nowhere else.
alone :
    (n sub : ℕ) (xs lower back : List ℕ)
    → count n xs ≤ 1
    → xs ≡ lower ++ n ∷ (sub ∷ back)
    → (n ≢ sub) × (has n lower ≡ false) × (has n back ≡ false)
alone n sub xs lower back single e =
    let whole : count n (lower ++ n ∷ (sub ∷ back)) ≤ 1 = subst (λ xs. count n xs ≤ 1) e single in
    let split = count-append n lower (n ∷ (sub ∷ back)) in
    (
      (λ e. ground (arith, whole, split)),
      has-count n lower (ground (arith, whole, split)),
      has-count n back (ground (arith, whole, split)),
    )

taken_over_same : (n sub : ℕ) (key : Field) → sub ≡ n → taken_over n sub key ≡ key
taken_over_same n sub key e = ground arith

taken_over_other :
    (n sub : ℕ) (key : Field) → n ≢ sub → taken_over n sub key ≡ update key n (key sub)
taken_over_other n sub key e = ground arith

pub shed :
    (key : Field) (n sub : ℕ) (c : Trail) (l r : Shape)
    → Single l r
    → ((a : ℕ) → count a (nodes (plug c (node l sub r))) ≤ 1)
    → (sub ≡ n) ⊎ ((lower : List ℕ) × (before c ++ nodes l ≡ lower ++ n ∷ []))
    → Shed key
        (taken_over n sub key)
        n
        sub
        (nodes (plug c (node l sub r)))
        (nodes (plug c (rest l r)))
shed key n sub c l r one single (inl e) =
    let front = before c ++ nodes l in
    let back = nodes r ++ after c in
    record {
      front = front;
      back = back;
      lower = front;
      upper = back;
      taken = whole_list c l sub r;
      left = rest_list c l r one;
      asked = whole_list c l sub r ∙ ap (λ a. front ++ a ∷ back) e;
      keys =
          ap (λ k. map k (nodes (plug c (rest l r)))) (taken_over_same n sub key e)
          ∙ ap (map key) (rest_list c l r one);
    }
shed key n sub c l r one single (inr (lower, e)) =
    let front = before c ++ nodes l in
    let back = nodes r ++ after c in
    let asked : nodes (plug c (node l sub r)) ≡ lower ++ n ∷ (sub ∷ back) =
      whole_list c l sub r
      ∙ ap (λ xs. xs ++ sub ∷ back) e
      ∙ append_assoc lower (n ∷ []) (sub ∷ back) in
    let apart = alone n sub (nodes (plug c (node l sub r))) lower back (single n) asked in
    record {
      front = front;
      back = back;
      lower = lower;
      upper = sub ∷ back;
      taken = whole_list c l sub r;
      left = rest_list c l r one;
      asked = asked;
      keys =
          ap (λ k. map k (nodes (plug c (rest l r)))) (taken_over_other n sub key apart.0)
          ∙ ap (map (update key n (key sub)))
              (rest_list c l r one ∙ ap (λ xs. xs ++ back) e ∙ append_assoc lower (n ∷ []) back)
          ∙ keys_shift key n sub lower back apart.1 apart.2;
    }

-- What is left is in order.
pub Shed-Sorted :
    (key key' : Field) (n sub : ℕ) (t u : Shape)
    → Shed key key' n sub (nodes t) (nodes u)
    → Sorted key t
    → Sorted key' u
Shed-Sorted key key' n sub t u w o = Ascending-Sorted key' u (
    Ascending-keys key key' (w.lower ++ w.upper) (nodes u) (sym w.keys) (
      Ascending-without key w.lower n w.upper
        (subst (Ascending key) w.asked (Sorted-Ascending key t o))))
