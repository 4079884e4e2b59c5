-- ===== src/Rbtree/Place.antt =====
-- The search for the place of a new node in `qp_rbtree_insert`, src/core/qp_memory_core.c.
use qphi.Common.{
  ℕ, suc, ◌<◌, ◌≤◌, ◌≡◌, ◌≢◌, ◌⊎◌, inl, inr, sym, subst, true, false, [], ◌∷◌, ◌++◌, All, All-map,
  has, has-append, arith, ◌==◌, Option, some,
}
use qphi.Memory.Chain.{Field}
use qphi.Rbtree.{Store, nil, black}
use qphi.Rbtree.Shape.{Shape, leaf, node, nodes}
use qphi.Rbtree.Trail.{Trail, top, in_left, in_right, plug}
use qphi.Rbtree.Turn.{IsAt}
use qphi.Rbtree.Lookup.{All-append}
use qphi.Rbtree.Balance.{root_red, Balanced, head_black, Holds}
use qphi.Rbtree.Round.{depth}
use qphi.Rbtree.Order.{Between, before, after, nodes_around}
use qphi.Rbtree.Insert.{Place, taken, below, insert_place}

-- The search has found the empty place `trail` for the key `k` in the tree `t`.
pub record Arrived (s : Store) (rb k : ℕ) (result : Option Place) (t : Shape) (deep : ℕ)
    : Type 0 where
  pub cur : ℕ
  pub trail : Trail
  pub returned : result ≡ some (below cur)
  pub at : IsAt s rb cur (nil rb) trail leaf
  pub whole : plug trail leaf ≡ t
  pub between : Between s.key k trail
  pub holds : Holds s.color 0 trail
  pub shallow : depth trail ≤ deep
  pub inside : trail ≢ top

abbrev pub IsTaken : Store → (k : ℕ) → Option Place → Shape → Type 0
IsTaken s k result t = (result ≡ some taken) × ((b : ℕ) × (has b (nodes t) ≡ true) × (s.key b ≡ k))

-- In a balanced tree the trail goes on above the left child and above the right one.
pub Holds-down :
    (color : Field) (h : ℕ) (c : Trail) (l : Shape) (a : ℕ) (r : Shape)
    → Balanced color h (node l a r)
    → (root_red color (node l a r) ≡ false) ⊎ (head_black color c ≡ true)
    → Holds color h c
    → ((k : ℕ) × Balanced color k l
        × Holds color k (in_left a r c)
        × Balanced color k r
        × Holds color k (in_right l a c)
        × ((root_red color l ≡ false) ⊎ (color a == black ≡ true))
        × ((root_red color r ≡ false) ⊎ (color a == black ≡ true)))
Holds-down color h c l a r b calm v = elim b [
  | inl (e, rl, rr, bl, br) ↦
      (let hb : head_black color c ≡ true = ground (arith, calm, e) in
        (h, bl, (br, inl (e, rr, hb, v)), br, (bl, inl (e, rl, hb, v)), inl rl, inl rr))
  | inr (e, (k, hk, bl, br)) ↦
      (let w : Holds color (suc k) c = subst (λ h. Holds color h c) hk v in
        (
          k,
          bl,
          (br, inr (e, w)),
          br,
          (bl, inr (e, w)),
          inr (ground (arith, e)),
          inr (ground (arith, e)),
        ))
]

module _ (s : Store) (rb k : ℕ) where
  -- The round at a node, by the comparison of the keys.
  pub place_taken : (f x : ℕ) → k ≡ s.key x → insert_place (suc f) rb k x s ≡ some taken
  unfolding insert_place
  place_taken f x e = ground (arith, e)

  pub place_below_left :
      (f x : ℕ) → k < s.key x → s.left x ≡ nil rb → insert_place (suc f) rb k x s ≡ some (below x)
  unfolding insert_place
  place_below_left f x lt e = ground (arith, lt, e)

  pub place_left :
      (f x : ℕ)
      → k < s.key x
      → s.left x ≢ nil rb
      → insert_place (suc f) rb k x s ≡ insert_place f rb k (s.left x) s
  unfolding insert_place
  place_left f x lt e = ground (arith, lt, e)

  pub place_below_right :
      (f x : ℕ) → s.key x < k → s.right x ≡ nil rb → insert_place (suc f) rb k x s ≡ some (below x)
  unfolding insert_place
  place_below_right f x lt e = ground (arith, lt, e)

  pub place_right :
      (f x : ℕ)
      → s.key x < k
      → s.right x ≢ nil rb
      → insert_place (suc f) rb k x s ≡ insert_place f rb k (s.right x) s
  unfolding insert_place
  place_right f x lt e = ground (arith, lt, e)

  pub Between-left :
      (c : Trail) (a : ℕ) (r : Shape)
      → k < s.key a
      → All (λ b. s.key a < s.key b) (nodes r)
      → Between s.key k c
      → Between s.key k (in_left a r c)
  Between-left c a r lt above v = (
    v.0,
    (
      lt,
      All-append (λ b. k < s.key b) (nodes r) (after c)
          (All-map (λ b. s.key a < s.key b) (λ b. k < s.key b) (nodes r)
            (λ b h. omega (arith, lt, h)) above)
          v.1,
    ),
  )

  pub Between-right :
      (c : Trail) (a : ℕ) (l : Shape)
      → s.key a < k
      → All (λ b. s.key b < s.key a) (nodes l)
      → Between s.key k c
      → Between s.key k (in_right l a c)
  Between-right c a l lt lower v = (
    All-append (λ b. s.key b < k) (before c) (nodes l ++ a ∷ []) v.0
        (All-append (λ b. s.key b < k) (nodes l) (a ∷ [])
          (All-map (λ b. s.key b < s.key a) (λ b. s.key b < k) (nodes l)
            (λ b h. omega (arith, lt, h)) lower)
          (lt, tt)),
    v.1,
  )

  pub has-plug :
      (c : Trail) (l : Shape) (a : ℕ) (r : Shape) → has a (nodes (plug c (node l a r))) ≡ true
  has-plug c l a r =
      subst (λ xs. has a xs ≡ true) (sym (nodes_around c (node l a r)))
        (ground (
          arith,
          has-append a (before c) (nodes (node l a r) ++ after c),
          has-append a (nodes (node l a r)) (after c),
          has-append a (nodes l) (a ∷ nodes r),
        ))
