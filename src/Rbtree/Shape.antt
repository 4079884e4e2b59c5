-- ===== src/Rbtree/Shape.antt =====
-- The shape of a tree of src/core/qp_memory_core.c: which node stands where, as the fields say.
use qphi.Common.{ℕ, suc, ◌<◌, ◌≡◌, ◌≢◌, List, [], ◌∷◌, ◌++◌, All, max, ◌==◌, if◌then◌else◌, ltb}
use qphi.Memory.Chain.{Field, null}
use qphi.Rbtree.{Store}

pub data Shape : Type 0 where
  leaf : Shape
  node : Shape → ℕ → Shape → Shape

-- The nodes from left to right.
abbrev pub nodes : Shape → List ℕ
nodes leaf = []
nodes (node l a r) = nodes l ++ a ∷ nodes r

-- What the fields say of the subtree at `x`, whose parent is `p`; `stop` is the sentinel.
abbrev pub Stands : (left right parent : Field) → (stop p x : ℕ) → Shape → Type 0
Stands lf rt pa stop p x leaf = x ≡ stop
Stands lf rt pa stop p x (node l a r) =
    (x ≡ a)
    × (a ≢ stop)
    × (a ≢ null)
    × (pa a ≡ p)
    × Stands lf rt pa stop a (lf a) l
    × Stands lf rt pa stop a (rt a) r

abbrev pub IsShape : Store → (stop p x : ℕ) → Shape → Type 0
IsShape s = Stands s.left s.right s.parent

-- The keys grow from left to right.
abbrev pub Sorted : (key : Field) → Shape → Type 0
Sorted key leaf = Unit
Sorted key (node l a r) =
    All (λ b. key b < key a) (nodes l)
    × All (λ b. key a < key b) (nodes r)
    × Sorted key l
    × Sorted key r

abbrev pub IsOrdered : Store → Shape → Type 0
IsOrdered s = Sorted s.key

abbrev pub height : Shape → ℕ
height leaf = 0
height (node l a r) = suc (max (height l) (height r))

-- The node with the key `k`, or the sentinel.
abbrev pub lookup : Store → (stop k : ℕ) → Shape → ℕ
lookup s stop k leaf = stop
lookup s stop k (node l a r) =
    if k == s.key a then a else if ltb k (s.key a) then lookup s stop k l else lookup s stop k r

abbrev pub first : (stop : ℕ) → Shape → ℕ
first stop leaf = stop
first stop (node leaf a r) = a
first stop (node (node l b m) a r) = first stop (node l b m)

abbrev pub final : (stop : ℕ) → Shape → ℕ
final stop leaf = stop
final stop (node l a leaf) = a
final stop (node l a (node m b r)) = final stop (node m b r)
