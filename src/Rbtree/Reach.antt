-- ===== src/Rbtree/Reach.antt =====
-- How deep a tree of src/core/qp_memory_core.c is, and what `qp_rbtree_find` finds in it.
use qphi.Common.{
  ℕ, suc, ◌+◌, ◌*◌, ◌^◌, ◌<◌, ◌≤◌, ◌≡◌, ◌≢◌, inl, inr, ◌∙◌, sym, ap, subst, true, ◌||◌, ◌∷◌, ◌++◌,
  All-has, has, has-append, length, length-append, arith, ◌==◌, if◌then◌else◌, u32, Option, some,
  ◌⊎◌, false,
}
use qphi.Memory.Chain.{Field, null}
use qphi.Rbtree.{Store, nil}
use qphi.Rbtree.Shape.{Shape, leaf, node, nodes, IsOrdered, height, lookup}
use qphi.Rbtree.Trail.{Stands-stop}
use qphi.Rbtree.Balance.{root_red, Balanced}
use qphi.Rbtree.Settle.{IsRbtree}
use qphi.Rbtree.Lookup.{find_loop-lookup}
use qphi.Rbtree.Search.{find, find_loop}
use qphi.Memory.Ring.{has-ne}
use qphi.Rbtree.Insert.{insert}
use qphi.Rbtree.Insertion.{Inserted, insert-Inserted}
use qphi.Rbtree.Order.{height-size}

-- A way down has at most one red node for each black one, and one more at a red root.
Balanced-height :
    (color : Field) (h : ℕ) (t : Shape)
    → Balanced color h t
    → height t ≤ 2 * h + (if root_red color t then 1 else 0)
Balanced-height color h leaf v = omega (arith, v)
Balanced-height color h (node l a r) v = elim v [
  | inl (e, rl, rr, bl, br) ↦
      ground (arith, e, rl, rr, Balanced-height color h l bl, Balanced-height color h r br)
  | inr (e, (k, hk, bl, br)) ↦
      ground (arith, e, hk, Balanced-height color k l bl, Balanced-height color k r br)
]

-- A tree with `h` black nodes on every way has all of them.
Balanced-size :
    (color : Field) (h : ℕ) (t : Shape) → Balanced color h t → 2 ^ h ≤ suc (length (nodes t))
Balanced-size color h leaf v = subst (λ k. 2 ^ k ≤ 1) (sym v) (omega arith)
Balanced-size color h (node l a r) v = elim v [
  | inl (e, rl, rr, bl, br) ↦
      omega (arith, Balanced-size color h l bl, length-append (nodes l) (a ∷ nodes r))
  | inr (e, (k, hk, bl, br)) ↦
      subst (λ j. 2 ^ j ≤ suc (length (nodes l ++ a ∷ nodes r))) (sym hk)
        (omega (
          arith,
          Balanced-size color k l bl,
          Balanced-size color k r br,
          length-append (nodes l) (a ∷ nodes r),
        ))
]

-- A red-black tree is at most twice as high as it has black nodes on a way, and it has at least
-- 2 ^ that number of nodes, less one.
pub height_lem :
    (s : Store) (rb : ℕ) (t : Shape) (v : IsRbtree s rb t)
    → (height t ≤ 2 * v.height) × (2 ^ v.height ≤ suc (length (nodes t)))
height_lem s rb t v = (
  ground (arith, Balanced-height s.color v.height t v.balanced, v.black_root),
  Balanced-size s.color v.height t v.balanced,
)

-- The search in an ordered shape for the key of a node ends at it.
lookup-own :
    (s : Store) (stop a : ℕ) (t : Shape)
    → IsOrdered s t
    → has a (nodes t) ≡ true
    → lookup s stop (s.key a) t ≡ a
lookup-own s stop a leaf o i = ground arith
lookup-own s stop a (node l b r) o i =
    let lower = All-has (λ c. s.key c < s.key b) a (nodes l) o.0 in
    let upper = All-has (λ c. s.key b < s.key c) a (nodes r) o.1 in
    ground (
      arith,
      lower,
      upper,
      lookup-own s stop a l o.2,
      lookup-own s stop a r o.3,
      has-append a (nodes l) (b ∷ nodes r),
    )

-- In every red-black tree with ordered keys `qp_rbtree_find` returns each node for its key, if that
-- is below 2 ^ 32, in a number of rounds above the height.
pub find-own :
    (f rb a : ℕ) (s : Store) (t : Shape) (v : IsRbtree s rb t)
    → rb ≢ null
    → IsOrdered s t
    → has a (nodes t) ≡ true
    → s.key a < 2 ^ 32
    → height t < f
    → find f rb (s.key a) s ≡ some a
unfolding find
find-own f rb a s t v set o i small enough =
    let whole : u32 (s.key a) ≡ s.key a = omega (arith, small) in
    let found = lookup-own s (nil rb) a t o i in
    let at_a : find_loop f rb (u32 (s.key a)) (s.root rb) s ≡ some a =
      ap (λ k. find_loop f rb k (s.root rb) s) whole
      ∙ find_loop-lookup s rb set f (s.key a) (nil rb) (s.root rb) t (omega (arith, enough))
          v.at.stands
      ∙ ap (λ x. some x) found in
    let away : nil rb ≢ a =
      has-ne a (nil rb) (nodes t) i
        (Stands-stop s.left s.right s.parent (nil rb) (nil rb) (s.root rb) t v.at.stands) in
    ground (arith, at_a, away)

find-Inserted :
    (g rb n a : ℕ) (result : Option (ℕ × Store)) (s : Store) (t : Shape)
    (w : Inserted result s rb n t)
    → rb ≢ null
    → ((a == n) || has a (nodes t)) ≡ true
    → s.key a < 2 ^ 32
    → suc (length (nodes t)) < g
    → find g rb (s.key a) w.store ≡ some a
find-Inserted g rb n a result s t w set i small enough =
    subst (λ k. find g rb (k a) w.store ≡ some a) w.keys
      (find-own g rb a w.store w.tree w.valid set w.ordered (w.members a ∙ i)
        (subst (λ k. k a < 2 ^ 32) (sym w.keys) small)
        (omega (arith, height-size w.tree, w.size, enough)))

-- `qp_rbtree_insert` of a new node into a red-black tree with ordered keys, with more rounds than the tree
-- is high, and then `qp_rbtree_find`, with more rounds than nodes, the new one included. Either a node has the key, and the insertion returns NULL and leaves the
-- store. Or it returns the node, and in the store that it leaves `qp_rbtree_find` returns the new
-- node for its key, and each old node for its own, if the key is below 2 ^ 32.
pub find-insert :
    (f g rb n a : ℕ) (s : Store) (t : Shape)
    → rb ≢ null
    → n ≢ null
    → n ≢ nil rb
    → has n (nodes t) ≡ false
    → IsRbtree s rb t
    → IsOrdered s t
    → height t < f
    → ((a == n) || has a (nodes t)) ≡ true
    → s.key a < 2 ^ 32
    → suc (length (nodes t)) < g
    → (insert f rb n s ≡ some (null, s))
        × ((b : ℕ) × (has b (nodes t) ≡ true) × (s.key b ≡ s.key n))
      ⊎ ((s' : Store) × (insert f rb n s ≡ some (n, s')) × (find g rb (s.key a) s' ≡ some a))
find-insert f g rb n a s t set n_set n_stop fresh v o deep i small enough =
    elim (insert-Inserted f rb n s t set n_set n_stop fresh v o deep) [
      | inl refused ↦ inl refused
      | inr w ↦
          inr
            (w.store, w.returned, find-Inserted g rb n a (insert f rb n s) s t w set i small enough)
    ]
