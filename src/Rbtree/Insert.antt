-- ===== src/Rbtree/Insert.antt =====
-- `qp_rbtree_insert` and its repair loop, src/core/qp_memory_core.c.
use qphi.Common.{ℕ, zero, suc, true, false, ◌==◌, if◌then◌else◌, not, ◌&&◌, Option, none, some, ltb}
use qphi.Memory.Chain.{null}
use qphi.Rbtree.{
  Store, set_left, set_right, set_parent, set_root, set_red, set_black, is_red, parent, grandpa,
  is_left, is_right, uncle, nil, is_empty, left_rotate, right_rotate,
}

-- A red uncle: the colors of the three move up.
unfoldable pub recolor : ℕ → Store → ℕ × Store
unfolding uncle grandpa parent set_black set_red
recolor n s =
    let s1 = set_black (parent n s) s in
    let s2 = set_black (uncle n s1) s1 in let s3 = set_red (grandpa n s2) s2 in (grandpa n s3, s3)

-- An inner child is rotated to the outside of its parent.
unfoldable pub straighten_left : (rbtree node : ℕ) → Store → ℕ × Store
unfolding is_right parent left_rotate
straighten_left rb n s =
    if is_right n s then (parent n s, left_rotate rb (parent n s) s) else (n, s)

unfoldable pub straighten_right : (rbtree node : ℕ) → Store → ℕ × Store
unfolding is_left parent right_rotate
straighten_right rb n s =
    if is_left n s then (parent n s, right_rotate rb (parent n s) s) else (n, s)

-- The parent takes the place of the grandparent.
unfoldable pub turn : (rotate : ℕ → Store → Store) (node : ℕ) → Store → ℕ × Store
unfolding parent grandpa set_black set_red
turn rotate n s =
    let s1 = set_black (parent n s) s in
    let s2 = set_red (grandpa n s1) s1 in (n, rotate (grandpa n s2) s2)

-- One round of the loop: the node that it goes on with.
unfoldable pub insert_round : (rbtree node : ℕ) → Store → ℕ × Store
unfolding is_red uncle parent is_left recolor straighten_left straighten_right turn left_rotate
    right_rotate
insert_round rb n s =
    if is_red (uncle n s) s
    then recolor n s
    else if is_left (parent n s) s
    then turn (right_rotate rb) (straighten_left rb n s).0 (straighten_left rb n s).1
    else turn (left_rotate rb) (straighten_right rb n s).0 (straighten_right rb n s).1

unfoldable pub insert_fix : (rounds rbtree node : ℕ) → Store → Option Store
unfolding insert_round is_red parent set_black
insert_fix zero rb n s = none
insert_fix (suc f) rb n s = elim (not (n == s.root rb) && is_red (parent n s) s) [
  | true ↦ insert_fix f rb (insert_round rb n s).0 (insert_round rb n s).1
  | false ↦ some (set_black (s.root rb) s)
]

-- Where the search for a place ends: a node with the same key, or the parent of the place.
pub data Place : Type 0 where
  taken : Place
  below : ℕ → Place

unfoldable pub insert_place : (rounds rbtree key cur : ℕ) → Store → Option Place
unfolding nil
insert_place zero rb k cur s = none
insert_place (suc f) rb k cur s =
    if k == s.key cur
    then some taken
    else elim ((if ltb k (s.key cur) then s.left cur else s.right cur) == nil rb) [
      | true ↦ some (below cur)
      | false ↦ insert_place f rb k (if ltb k (s.key cur) then s.left cur else s.right cur) s
    ]

-- The assignments that hang the node below `cur`.
unfoldable pub hang : (rbtree node cur : ℕ) → Store → Store
unfolding nil set_red
hang rb n cur s =
    let s1 =
      if ltb (s.key n) (s.key cur)
      then set_left cur n (set_right n (nil rb) (set_left n (s.left cur) s))
      else set_right cur n (set_left n (nil rb) (set_right n (s.right cur) s)) in
    set_red n (set_parent n cur s1)

-- The node that is returned, NULL for a key that is there, and the store.
unfoldable pub insert : (rounds rbtree node : ℕ) → Store → Option (ℕ × Store)
unfolding is_empty set_black insert_place hang insert_fix is_red parent
insert f rb n s =
    if n == null
    then some (null, s)
    else if is_empty rb s
    then (let s1 = set_black n s in
        let s2 = set_left n (s1.root rb) s1 in
        let s3 = set_right n (s2.root rb) s2 in
        let s4 = set_parent n (s3.root rb) s3 in some (n, set_root rb n s4))
    else elim (insert_place f rb (s.key n) (s.root rb) s) [
      | none ↦ none
      | some taken ↦ some (null, s)
      | some (below cur) ↦
          (let s1 = hang rb n cur s in
            if is_red (parent n s1) s1
            then elim (insert_fix f rb n s1) [ none ↦ none | some s2 ↦ some (n, s2) ]
            else some (n, s1))
    ]
