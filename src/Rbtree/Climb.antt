-- ===== src/Rbtree/Climb.antt =====
-- Moving the place in a tree of src/core/qp_memory_core.c up and down.
use qphi.Common.{ℕ, ◌≡◌, refl, sym, ap, subst, List, [], ◌∷◌, ◌++◌, count-append, arith}
use qphi.Memory.Chain.{Field}
use qphi.Rbtree.Shape.{Shape, node, nodes, Stands}
use qphi.Rbtree.Trail.{Trail, top, in_left, in_right, plug, trail_nodes, Hangs}
use qphi.Rbtree.Focus.{Focus}

module _ (lf rt pa : Field) (stop root : ℕ) where
  pub Focus-up_left :
      (p x a : ℕ) (u : Shape) (up : Trail) (t : Shape)
      → Focus lf rt pa stop root p x (in_left a u up) t
      → Focus lf rt pa stop root (pa a) a up (node t a u)
  Focus-up_left p x a u up t v = record {
    hangs = v.hangs.5;
    stands = (
      refl,
      v.hangs.2,
      v.hangs.3,
      refl,
      subst (λ y. Stands lf rt pa stop a y t) (sym v.hangs.1)
          (subst (λ q. Stands lf rt pa stop q x t) v.hangs.0 v.stands),
      v.hangs.4,
    );
    unique = λ b. omega (
      arith,
      v.unique b,
      count-append b (nodes t) (a ∷ nodes u),
      count-append b (nodes u) (trail_nodes up),
    );
  }

  pub Focus-up_right :
      (p x a : ℕ) (u : Shape) (up : Trail) (t : Shape)
      → Focus lf rt pa stop root p x (in_right u a up) t
      → Focus lf rt pa stop root (pa a) a up (node u a t)
  Focus-up_right p x a u up t v = record {
    hangs = v.hangs.5;
    stands = (
      refl,
      v.hangs.2,
      v.hangs.3,
      refl,
      v.hangs.4,
      subst (λ y. Stands lf rt pa stop a y t) (sym v.hangs.1)
          (subst (λ q. Stands lf rt pa stop q x t) v.hangs.0 v.stands),
    );
    unique = λ b. omega (
      arith,
      v.unique b,
      count-append b (nodes u) (a ∷ nodes t),
      count-append b (nodes u) (trail_nodes up),
    );
  }

  pub Focus-down_left :
      (p a : ℕ) (u : Shape) (up : Trail) (t : Shape)
      → Focus lf rt pa stop root p a up (node t a u)
      → Focus lf rt pa stop root a (lf a) (in_left a u up) t
  Focus-down_left p a u up t v = record {
    hangs = (
      refl,
      refl,
      v.stands.1,
      v.stands.2,
      v.stands.5,
      subst (λ q. Hangs lf rt pa stop root q a up) (sym v.stands.3) v.hangs,
    );
    stands = v.stands.4;
    unique = λ b. omega (
      arith,
      v.unique b,
      count-append b (nodes t) (a ∷ nodes u),
      count-append b (nodes u) (trail_nodes up),
    );
  }

  pub Focus-down_right :
      (p a : ℕ) (u : Shape) (up : Trail) (t : Shape)
      → Focus lf rt pa stop root p a up (node u a t)
      → Focus lf rt pa stop root a (rt a) (in_right u a up) t
  Focus-down_right p a u up t v = record {
    hangs = (
      refl,
      refl,
      v.stands.1,
      v.stands.2,
      v.stands.4,
      subst (λ q. Hangs lf rt pa stop root q a up) (sym v.stands.3) v.hangs,
    );
    stands = v.stands.5;
    unique = λ b. omega (
      arith,
      v.unique b,
      count-append b (nodes u) (a ∷ nodes t),
      count-append b (nodes u) (trail_nodes up),
    );
  }

  -- The whole tree.
  pub Focus-plug :
      (p x : ℕ) (c : Trail) (t : Shape)
      → Focus lf rt pa stop root p x c t
      → Focus lf rt pa stop root stop root top (plug c t)
  Focus-plug p x top t v =
      subst (λ q. Focus lf rt pa stop root q root top t) v.hangs.1
        (subst (λ y. Focus lf rt pa stop root p y top t) v.hangs.0 v)
  Focus-plug p x (in_left a u up) t v =
      Focus-plug (pa a) a up (node t a u) (Focus-up_left p x a u up t v)
  Focus-plug p x (in_right u a up) t v =
      Focus-plug (pa a) a up (node u a t) (Focus-up_right p x a u up t v)

-- The nodes of the whole tree are those around the place and those of the subtree.
pub nodes-plug : (c : Trail) (t u : Shape) → nodes t ≡ nodes u → nodes (plug c t) ≡ nodes (plug c u)
nodes-plug top t u e = e
nodes-plug (in_left a w up) t u e =
    nodes-plug up (node t a w) (node u a w) (ap (λ l. l ++ a ∷ nodes w) e)
nodes-plug (in_right w a up) t u e =
    nodes-plug up (node w a t) (node w a u) (ap (λ l. nodes w ++ a ∷ l) e)

pub append_assoc : (xs ys zs : List ℕ) → (xs ++ ys) ++ zs ≡ xs ++ (ys ++ zs)
append_assoc [] ys zs = refl
append_assoc (x ∷ xs) ys zs = ap (λ l. x ∷ l) (append_assoc xs ys zs)

pub nodes_turn :
    (a : Shape) (n : ℕ) (b : Shape) (r : ℕ) (d : Shape)
    → nodes (node (node a n b) r d) ≡ nodes (node a n (node b r d))
nodes_turn a n b r d = append_assoc (nodes a) (n ∷ nodes b) (r ∷ nodes d)
