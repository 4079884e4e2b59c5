-- ===== src/Rbtree/Delete.antt =====
-- `qp_rbtree_delete` and its repair loop, src/core/qp_memory_core.c.
use qphi.Common.{
  ℕ, zero, suc, true, false, ◌==◌, if◌then◌else◌, not, ◌&&◌, ◌||◌, Option, none, some,
}
use qphi.Memory.Chain.{null, update}
use qphi.Rbtree.{
  Store, set_left, set_right, set_parent, set_root, set_red, set_black, is_red, is_black, parent,
  is_left, brother, nil, is_empty, left_rotate, right_rotate,
}
use qphi.Rbtree.Search.{rbtree_min}

-- A brother that is red is rotated above its parent.
unfoldable pub lift_brother : (rotate : ℕ → Store → Store) (node : ℕ) → Store → Store
unfolding is_red brother set_black set_red parent
lift_brother rotate n s =
    if is_red (brother n s) s
    then (let s1 = set_black (brother n s) s in
        let s2 = set_red (parent n s1) s1 in rotate (parent n s2) s2)
    else s

-- The brother takes the color of the parent.
unfoldable pub hand_color : (node : ℕ) → Store → Store
unfolding is_black brother set_black set_red parent
hand_color n s =
    if is_black (parent n s) s then set_black (brother n s) s else set_red (brother n s) s

-- The turn behind it, with the child `far` of the brother; the loop ends at the root.
unfoldable pub end_turn :
    (rotate : ℕ → Store → Store) (far : Store → ℕ) (rbtree node : ℕ) → Store → ℕ × Store
unfolding set_black parent
end_turn rotate far rb n s =
    let s2 = set_black (parent n s) s in
    let s3 = set_black (far s2) s2 in let s4 = rotate (parent n s3) s3 in (s4.root rb, s4)

unfoldable pub last_turn :
    (rotate : ℕ → Store → Store) (far : Store → ℕ) (rbtree node : ℕ) → Store → ℕ × Store
unfolding hand_color end_turn
last_turn rotate far rb n s = end_turn rotate far rb n (hand_color n s)

-- A round of the loop, which the source writes out for each side: `near` and `far` read the child on
-- the side of the node and the other one, `to` rotates to that side and `off` away from it.
unfoldable pub delete_side :
    (to off : ℕ → Store → Store) (near far : Store → ℕ → ℕ) (rbtree node : ℕ) → Store → ℕ × Store
unfolding is_black brother set_black set_red parent lift_brother last_turn
delete_side to off near far rb n s =
    let s1 = lift_brother to n s in
    if is_black (near s1 (brother n s1)) s1 && is_black (far s1 (brother n s1)) s1
    then (let s2 = set_red (brother n s1) s1 in (parent n s2, s2))
    else (let s2 =
          if is_black (far s1 (brother n s1)) s1
          then (let t1 = set_black (near s1 (brother n s1)) s1 in
              let t2 = set_red (brother n t1) t1 in off (brother n t2) t2)
          else s1 in
        last_turn to (λ t. far t (brother n t)) rb n s2)

-- One round of the loop: the node that it goes on with.
unfoldable pub delete_round : (rbtree node : ℕ) → Store → ℕ × Store
unfolding is_left left_rotate right_rotate delete_side
delete_round rb n s =
    if is_left n s
    then delete_side (left_rotate rb) (right_rotate rb) (λ t. t.left) (λ t. t.right) rb n s
    else delete_side (right_rotate rb) (left_rotate rb) (λ t. t.right) (λ t. t.left) rb n s

unfoldable pub delete_fix : (rounds rbtree node : ℕ) → Store → Option Store
unfolding delete_round is_black set_black
delete_fix zero rb n s = none
delete_fix (suc f) rb n s = elim (not (n == s.root rb) && is_black n s) [
  | true ↦ delete_fix f rb (delete_round rb n s).0 (delete_round rb n s).1
  | false ↦ some (set_black n s)
]

-- The node to take out: `node` itself, or the least one behind it if it has both children.
unfoldable pub delete_subst : (rounds rbtree node : ℕ) → Store → Option ℕ
unfolding nil rbtree_min
delete_subst f rb n s =
    if nil rb == s.left n || nil rb == s.right n then some n else rbtree_min f rb (s.right n) s

-- `sub` leaves its place to its child, and its key and data to `node`.
unfoldable pub unlink : (rbtree node subst : ℕ) → Store → ℕ × Store
unfolding nil parent is_left
unlink rb n sub s =
    let tmp = if nil rb == s.left sub then s.right sub else s.left sub in
    let s1 = set_parent tmp (parent sub s) s in
    let s2 =
      if nil rb == parent sub s1
      then set_root rb tmp s1
      else if is_left sub s1
      then set_left (parent sub s1) tmp s1
      else set_right (parent sub s1) tmp s1 in
    (
      tmp,
      if n == sub then s2 else record s2 {
        key = update s2.key n (s2.key sub);
        node_data = update s2.node_data n (s2.node_data sub);
      },
    )

-- The node that was taken out, and the store.
unfoldable pub delete : (rounds rbtree node : ℕ) → Store → Option (ℕ × Store)
unfolding is_empty delete_subst unlink is_black delete_fix
delete f rb n s =
    if n == null || rb == null || is_empty rb s
    then some (null, s)
    else elim (delete_subst f rb n s) [
      | none ↦ none
      | some sub ↦
          (let (tmp, s1) = unlink rb n sub s in
            if is_black sub s1
            then elim (delete_fix f rb tmp s1) [ none ↦ none | some s2 ↦ some (sub, s2) ]
            else some (sub, s1))
    ]
