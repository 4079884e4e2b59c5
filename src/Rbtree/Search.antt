-- ===== src/Rbtree/Search.antt =====
-- `qp_rbtree_find`, `qp_rbtree_min` and `qp_rbtree_max` of src/core/qp_memory_core.c. A loop takes a
-- number of rounds at most, and is `none` if they are not enough.
use qphi.Common.{ℕ, zero, suc, true, false, ◌==◌, if◌then◌else◌, Option, none, some, ltb, ◌||◌, u32}
use qphi.Memory.Chain.{null}
use qphi.Rbtree.{Store, nil, is_empty}

unfoldable pub find_loop : (rounds rbtree key node : ℕ) → Store → Option ℕ
unfolding nil
find_loop zero rb k n s = none
find_loop (suc f) rb k n s =
    if n == nil rb || k == s.key n then some n else elim (ltb k (s.key n)) [
      | true ↦ find_loop f rb k (s.left n) s
      | false ↦ find_loop f rb k (s.right n) s
    ]

-- The key that is looked for is a `qp_uint32_t`.
unfoldable pub find : (rounds rbtree key : ℕ) → Store → Option ℕ
unfolding nil find_loop
find f rb k s = elim (find_loop f rb (u32 k) (s.root rb) s) [
  | none ↦ none
  | some n ↦ some (if nil rb == n then null else n)
]

unfoldable pub min_loop : (rounds rbtree node : ℕ) → Store → Option ℕ
unfolding nil
min_loop zero rb n s = none
min_loop (suc f) rb n s = elim (s.left n == nil rb) [
  | true ↦ some n
  | false ↦ min_loop f rb (s.left n) s
]

unfoldable pub rbtree_min : (rounds rbtree node : ℕ) → Store → Option ℕ
unfolding is_empty min_loop
rbtree_min f rb n s =
    if is_empty rb s then some null else min_loop f rb (if n == null then s.root rb else n) s

unfoldable pub max_loop : (rounds rbtree node : ℕ) → Store → Option ℕ
unfolding nil
max_loop zero rb n s = none
max_loop (suc f) rb n s = elim (s.right n == nil rb) [
  | true ↦ some n
  | false ↦ max_loop f rb (s.right n) s
]

unfoldable pub rbtree_max : (rounds rbtree node : ℕ) → Store → Option ℕ
unfolding is_empty max_loop
rbtree_max f rb n s =
    if is_empty rb s then some null else max_loop f rb (if n == null then s.root rb else n) s
