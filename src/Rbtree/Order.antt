-- ===== src/Rbtree/Order.antt =====
-- The order of the keys in a tree of src/core/qp_memory_core.c, as that of the list of its nodes.
use qphi.Common.{
  length, length-append, ◌≤◌, ℕ, ◌+◌, ◌<◌, ◌≡◌, refl, ◌∙◌, sym, ap, subst, List, [], ◌∷◌, ◌++◌, All,
  All-map, count, count-append, arith,
}
use qphi.Memory.Chain.{Field}
use qphi.Rbtree.Shape.{height, Shape, leaf, node, nodes, Sorted}
use qphi.Rbtree.Trail.{Trail, top, in_left, in_right, plug, trail_nodes}
use qphi.Rbtree.Lookup.{All-append}
use qphi.Rbtree.Climb.{append_assoc}

-- Each node has a key below those after it.
abbrev pub Ascending : Field → List ℕ → Type 0
Ascending key [] = Unit
Ascending key (x ∷ xs) = All (λ b. key x < key b) xs × Ascending key xs

pub All-parts {ℓ} : (P : ℕ → Type ℓ) (xs ys : List ℕ) → All P (xs ++ ys) → All P xs × All P ys
All-parts P [] ys h = (tt, h)
All-parts P (x ∷ xs) ys h = let r = All-parts P xs ys h.1 in ((h.0, r.0), r.1)

Ascending-join :
    (key : Field) (xs : List ℕ) (a : ℕ) (ys : List ℕ)
    → All (λ b. key b < key a) xs
    → All (λ b. key a < key b) ys
    → Ascending key xs
    → Ascending key ys
    → Ascending key (xs ++ a ∷ ys)
Ascending-join key [] a ys lo hi v w = (hi, w)
Ascending-join key (x ∷ xs) a ys lo hi v w = (
  All-append (λ b. key x < key b) xs (a ∷ ys) v.0
      (
        lo.0,
        All-map (λ b. key a < key b) (λ b. key x < key b) ys (λ b h. omega (arith, lo.0, h)) hi,
      ),
  Ascending-join key xs a ys lo.1 hi v.1 w,
)

pub Ascending-parts :
    (key : Field) (xs : List ℕ) (a : ℕ) (ys : List ℕ)
    → Ascending key (xs ++ a ∷ ys)
    → All (λ b. key b < key a) xs
      × All (λ b. key a < key b) ys
      × Ascending key xs
      × Ascending key ys
Ascending-parts key [] a ys v = (tt, v.0, tt, v.1)
Ascending-parts key (x ∷ xs) a ys v =
    let r = Ascending-parts key xs a ys v.1 in
    let p = All-parts (λ b. key x < key b) xs (a ∷ ys) v.0 in ((p.1.0, r.0), r.1, (p.0, r.2), r.3)

pub Sorted-Ascending : (key : Field) (t : Shape) → Sorted key t → Ascending key (nodes t)
Sorted-Ascending key leaf v = tt
Sorted-Ascending key (node l a r) v =
    Ascending-join key (nodes l) a (nodes r) v.0 v.1 (Sorted-Ascending key l v.2)
      (Sorted-Ascending key r v.3)

pub Ascending-Sorted : (key : Field) (t : Shape) → Ascending key (nodes t) → Sorted key t
Ascending-Sorted key leaf v = tt
Ascending-Sorted key (node l a r) v =
    let p = Ascending-parts key (nodes l) a (nodes r) v in
    (p.0, p.1, Ascending-Sorted key l p.2, Ascending-Sorted key r p.3)

-- The nodes before a place and those after it.
abbrev pub before : Trail → List ℕ
before top = []
before (in_left a t up) = before up
before (in_right t a up) = before up ++ (nodes t ++ a ∷ [])

abbrev pub after : Trail → List ℕ
after top = []
after (in_left a t up) = a ∷ (nodes t ++ after up)
after (in_right t a up) = after up

pub nil_append : (xs : List ℕ) → xs ++ [] ≡ xs
nil_append [] = refl
nil_append (x ∷ xs) = ap (λ l. x ∷ l) (nil_append xs)

pub nodes_around : (c : Trail) (t : Shape) → nodes (plug c t) ≡ before c ++ (nodes t ++ after c)
nodes_around top t = sym (nil_append (nodes t))
nodes_around (in_left a u up) t =
    nodes_around up (node t a u)
    ∙ ap (λ l. before up ++ l) (append_assoc (nodes t) (a ∷ nodes u) (after up))
nodes_around (in_right u a up) t =
    nodes_around up (node u a t)
    ∙ ap (λ l. before up ++ l)
        (append_assoc (nodes u) (a ∷ nodes t) (after up)
          ∙ sym (append_assoc (nodes u) (a ∷ []) (nodes t ++ after up)))
    ∙ sym (append_assoc (before up) (nodes u ++ a ∷ []) (nodes t ++ after up))

Ascending-cut :
    (key : Field) (xs ys : List ℕ) → Ascending key (xs ++ ys) → Ascending key xs × Ascending key ys
Ascending-cut key [] ys v = (tt, v)
Ascending-cut key (x ∷ xs) ys v =
    let r = Ascending-cut key xs ys v.1 in
    (((All-parts (λ b. key x < key b) xs ys v.0).0, r.0), r.1)

-- The key `k` belongs to this place.
abbrev pub Between : Field → ℕ → Trail → Type 0
Between key k c = All (λ b. key b < k) (before c) × All (λ b. k < key b) (after c)

-- A node whose key belongs to an empty place keeps the order there.
pub grown-Sorted :
    (key : Field) (c : Trail) (n : ℕ)
    → Sorted key (plug c leaf)
    → Between key (key n) c
    → Sorted key (plug c (node leaf n leaf))
grown-Sorted key c n v w =
    let cut =
      Ascending-cut key (before c) (after c)
        (subst (Ascending key) (nodes_around c leaf) (Sorted-Ascending key (plug c leaf) v)) in
    Ascending-Sorted key (plug c (node leaf n leaf)) (
      subst (Ascending key) (sym (nodes_around c (node leaf n leaf)))
        (Ascending-join key (before c) n (after c) w.0 w.1 cut.0 cut.1))

-- A tree with the same nodes from left to right has the same order.
pub Sorted-nodes : (key : Field) (t u : Shape) → nodes u ≡ nodes t → Sorted key t → Sorted key u
Sorted-nodes key t u e v =
    Ascending-Sorted key u (subst (Ascending key) (sym e) (Sorted-Ascending key t v))

pub count-plug :
    (a : ℕ) (c : Trail) (t : Shape)
    → count a (nodes (plug c t)) ≡ count a (trail_nodes c) + count a (nodes t)
count-plug a top t = omega arith
count-plug a (in_left b u up) t = omega (
  arith,
  count-plug a up (node t b u),
  count-append a (nodes t) (b ∷ nodes u),
  count-append a (nodes u) (trail_nodes up),
)
count-plug a (in_right u b up) t = omega (
  arith,
  count-plug a up (node u b t),
  count-append a (nodes u) (b ∷ nodes t),
  count-append a (nodes u) (trail_nodes up),
)

pub length-plug :
    (c : Trail) (t : Shape) → length (nodes (plug c t)) ≡ length (trail_nodes c) + length (nodes t)
length-plug top t = omega arith
length-plug (in_left b u up) t = omega (
  arith,
  length-plug up (node t b u),
  length-append (nodes t) (b ∷ nodes u),
  length-append (nodes u) (trail_nodes up),
)
length-plug (in_right u b up) t = omega (
  arith,
  length-plug up (node u b t),
  length-append (nodes u) (b ∷ nodes t),
  length-append (nodes u) (trail_nodes up),
)

pub height-size : (t : Shape) → height t ≤ length (nodes t)
height-size leaf = omega arith
height-size (node l a r) =
    omega (arith, height-size l, height-size r, length-append (nodes l) (a ∷ nodes r))
