-- ===== src/Rbtree/Lookup.antt =====
-- What `qp_rbtree_find`, `qp_rbtree_min` and `qp_rbtree_max` of src/core/qp_memory_core.c return.
use qphi.Common.{
  ℕ, zero, suc, ◌<◌, ◌≤◌, ◌≡◌, ◌≢◌, ◌⊎◌, inl, refl, sym, true, List, [], ◌∷◌, ◌++◌, All, All-map,
  has, has-append, arith, ◌==◌, if◌then◌else◌, u32, some, Returns, subst, All-has,
}
use qphi.Memory.Chain.{null}
use qphi.Rbtree.{Store, nil, is_empty}
use qphi.Rbtree.Shape.{Shape, leaf, node, nodes, IsShape, IsOrdered, height, lookup, first, final}
use qphi.Rbtree.Trail.{Stands-stop}
use qphi.Rbtree.Search.{find_loop, find, min_loop, rbtree_min, max_loop, rbtree_max}

module _ (s : Store) (rb : ℕ) (set : rb ≢ null) where
  pub find_loop-lookup :
      (f k p x : ℕ) (t : Shape)
      → height t < f
      → IsShape s (nil rb) p x t
      → find_loop f rb k x s ≡ some (lookup s (nil rb) k t)
  unfolding find_loop
  find_loop-lookup zero k p x t h v = absurd (omega arith)
  find_loop-lookup (suc f) k p x leaf h v = ground arith
  find_loop-lookup (suc f) k p x (node l a r) h v = ground (
    arith,
    v,
    find_loop-lookup f k a (s.left a) l (omega arith),
    find_loop-lookup f k a (s.right a) r (omega arith),
  )

  min_loop-first :
      (f p x : ℕ) (l : Shape) (a : ℕ) (r : Shape)
      → height (node l a r) < f
      → IsShape s (nil rb) p x (node l a r)
      → min_loop f rb x s ≡ some (first (nil rb) (node l a r))
  unfolding min_loop
  min_loop-first zero p x l a r h v = absurd (omega arith)
  min_loop-first (suc f) p x leaf a r h v = ground (arith, v)
  min_loop-first (suc f) p x (node l b m) a r h v =
      ground (arith, v, min_loop-first f a (s.left a) l b m (omega arith))

  max_loop-final :
      (f p x : ℕ) (l : Shape) (a : ℕ) (r : Shape)
      → height (node l a r) < f
      → IsShape s (nil rb) p x (node l a r)
      → max_loop f rb x s ≡ some (final (nil rb) (node l a r))
  unfolding max_loop
  max_loop-final zero p x l a r h v = absurd (omega arith)
  max_loop-final (suc f) p x l a leaf h v = ground (arith, v)
  max_loop-final (suc f) p x l a (node m b r) h v =
      ground (arith, v, max_loop-final f a (s.right a) m b r (omega arith))

-- What a search for `k` returns: NULL if no node has that key, or a node that has it.
abbrev pub Found : Store → (k : ℕ) → Shape → ℕ → Type 0
Found s k t r =
    (r ≡ null) × All (λ b. s.key b ≢ k) (nodes t) ⊎ (has r (nodes t) ≡ true) × (s.key r ≡ k)

pub All-append {ℓ} : (P : ℕ → Type ℓ) (xs ys : List ℕ) → All P xs → All P ys → All P (xs ++ ys)
All-append P [] ys h k = k
All-append P (x ∷ xs) ys h k = (h.0, All-append P xs ys h.1 k)

-- The search in an ordered shape misses no node.
lookup-Found :
    (s : Store) (stop k : ℕ) (t : Shape)
    → IsOrdered s t
    → (lookup s stop k t ≡ stop) × All (λ b. s.key b ≢ k) (nodes t)
      ⊎ (has (lookup s stop k t) (nodes t) ≡ true) × (s.key (lookup s stop k t) ≡ k)
lookup-Found s stop k leaf o = inl (refl, tt)
lookup-Found s stop k (node l a r) o =
    let none_left : All (λ b. s.key b ≢ k) (nodes l)
        → k < s.key a
        → All (λ b. s.key b ≢ k) (nodes l ++ a ∷ nodes r) =
      λ no lt.
        All-append (λ b. s.key b ≢ k) (nodes l) (a ∷ nodes r) no
          (
            λ e. omega (arith, e),
            All-map (λ b. s.key a < s.key b) (λ b. s.key b ≢ k) (nodes r)
                (λ b gt e. omega (arith, e)) o.1,
          ) in
    let none_right : All (λ b. s.key b ≢ k) (nodes r)
        → s.key a < k
        → All (λ b. s.key b ≢ k) (nodes l ++ a ∷ nodes r) =
      λ no gt.
        All-append (λ b. s.key b ≢ k) (nodes l) (a ∷ nodes r)
          (All-map (λ b. s.key b < s.key a) (λ b. s.key b ≢ k) (nodes l)
            (λ b lt e. omega (arith, e)) o.0)
          (λ e. omega (arith, e), no) in
    ground (
      arith,
      none_left,
      none_right,
      lookup-Found s stop k l o.2,
      lookup-Found s stop k r o.3,
      has-append (lookup s stop k l) (nodes l) (a ∷ nodes r),
      has-append (lookup s stop k r) (nodes l) (a ∷ nodes r),
      has-append a (nodes l) (a ∷ nodes r),
    )

-- For every tree whose keys are ordered, given more rounds than the tree is high, `qp_rbtree_find`
-- returns a node with the key, taken modulo 2 ^ 32, or NULL exactly where no node has that key.
pub find-Found :
    (f rb k : ℕ) (s : Store) (t : Shape)
    → rb ≢ null
    → IsShape s (nil rb) (nil rb) (s.root rb) t
    → IsOrdered s t
    → height t < f
    → Returns (Found s (u32 k) t) (find f rb k s)
unfolding find
find-Found f rb k s t set v o h =
    let n = lookup s (nil rb) (u32 k) t in
    let e : find f rb k s ≡ some (if nil rb == n then null else n) =
      ground (arith, find_loop-lookup s rb set f (u32 k) (nil rb) (s.root rb) t h v) in
    subst (Returns (Found s (u32 k) t)) (sym e) (
      ground (
        arith,
        lookup-Found s (nil rb) (u32 k) t o,
        Stands-stop s.left s.right s.parent (nil rb) (nil rb) (s.root rb) t v,
      ))

-- A node of the least key, and one of the greatest.
abbrev pub Least : Store → Shape → ℕ → Type 0
Least s t r = (has r (nodes t) ≡ true) × All (λ b. s.key r ≤ s.key b) (nodes t)

abbrev pub Greatest : Store → Shape → ℕ → Type 0
Greatest s t r = (has r (nodes t) ≡ true) × All (λ b. s.key b ≤ s.key r) (nodes t)

first-Least :
    (s : Store) (stop : ℕ) (l : Shape) (a : ℕ) (r : Shape)
    → IsOrdered s (node l a r)
    → Least s (node l a r) (first stop (node l a r))
first-Least s stop leaf a r o = (
  ground arith,
  (
    omega arith,
    All-map (λ b. s.key a < s.key b) (λ b. s.key a ≤ s.key b) (nodes r) (λ b h. omega arith) o.1,
  ),
)
first-Least s stop (node l b m) a r o =
    let (found, least) = first-Least s stop l b m o.2 in
    let n = first stop (node l b m) in
    let below : s.key n < s.key a =
      All-has (λ c. s.key c < s.key a) n (nodes (node l b m)) o.0 found in
    (
      ground (arith, has-append n (nodes (node l b m)) (a ∷ nodes r)),
      All-append (λ c. s.key n ≤ s.key c) (nodes (node l b m)) (a ∷ nodes r) least
          (
            omega arith,
            All-map (λ c. s.key a < s.key c) (λ c. s.key n ≤ s.key c) (nodes r) (λ c h. omega arith)
                o.1,
          ),
    )

final-Greatest :
    (s : Store) (stop : ℕ) (l : Shape) (a : ℕ) (r : Shape)
    → IsOrdered s (node l a r)
    → Greatest s (node l a r) (final stop (node l a r))
final-Greatest s stop l a leaf o = (
  ground (arith, has-append a (nodes l) (a ∷ [])),
  All-append (λ b. s.key b ≤ s.key a) (nodes l) (a ∷ [])
      (All-map (λ b. s.key b < s.key a) (λ b. s.key b ≤ s.key a) (nodes l) (λ b h. omega arith) o.0)
      (omega arith, tt),
)
final-Greatest s stop l a (node m b r) o =
    let (found, greatest) = final-Greatest s stop m b r o.3 in
    let n = final stop (node m b r) in
    let above : s.key a < s.key n =
      All-has (λ c. s.key a < s.key c) n (nodes (node m b r)) o.1 found in
    (
      ground (arith, has-append n (nodes l) (a ∷ nodes (node m b r))),
      All-append (λ c. s.key c ≤ s.key n) (nodes l) (a ∷ nodes (node m b r))
          (All-map (λ c. s.key c < s.key a) (λ c. s.key c ≤ s.key n) (nodes l) (λ c h. omega arith)
            o.0)
          (omega arith, greatest),
    )

-- For every tree whose keys are ordered and that has a node, given more rounds than it is high,
-- `qp_rbtree_min` and `qp_rbtree_max` from the root return nodes with the least and greatest key.
pub min_max_lem :
    (f rb : ℕ) (s : Store) (l : Shape) (a : ℕ) (r : Shape)
    → rb ≢ null
    → IsShape s (nil rb) (nil rb) (s.root rb) (node l a r)
    → IsOrdered s (node l a r)
    → height (node l a r) < f
    → Returns (Least s (node l a r)) (rbtree_min f rb null s)
      × Returns (Greatest s (node l a r)) (rbtree_max f rb null s)
unfolding rbtree_min rbtree_max is_empty
min_max_lem f rb s l a r set v o h =
    let e : rbtree_min f rb null s ≡ some (first (nil rb) (node l a r)) =
      ground (arith, v, min_loop-first s rb set f (nil rb) (s.root rb) l a r h v) in
    let e' : rbtree_max f rb null s ≡ some (final (nil rb) (node l a r)) =
      ground (arith, v, max_loop-final s rb set f (nil rb) (s.root rb) l a r h v) in
    (
      subst (Returns (Least s (node l a r))) (sym e) (first-Least s (nil rb) l a r o),
      subst (Returns (Greatest s (node l a r))) (sym e') (final-Greatest s (nil rb) l a r o),
    )
