-- ===== src/Rbtree.antt =====
-- The red-black tree of src/core/qp_memory_core.c. The nodes' fields are functions of the address, and
-- a tree at the address `rb` has its sentinel behind its root, at `rb + 8`. This file has the
-- fields, the helpers and the rotations; each function is the source's sequence of assignments.
pub mod Shape
pub mod Trail
pub mod Rotate
pub mod Mirror
pub mod Focus
pub mod Turn
pub mod Left
pub mod Right
pub mod Balance
pub mod Climb
pub mod Settle
pub mod Recolor
pub mod Outer
pub mod Raise
pub mod LeftRounds
pub mod RightRounds
pub mod Straight
pub mod Round
pub mod AdvanceLeft
pub mod AdvanceRight
pub mod Repair
pub mod Order
pub mod Place
pub mod Walk
pub mod Hang
pub mod Grow
pub mod Insertion
pub mod Reach
pub mod Session
pub mod Search
pub mod Lookup
pub mod Insert
pub mod Delete
pub mod Sides
pub mod Repaint
pub mod Lacking
pub mod Lift
pub mod Sink
pub mod Spread
pub mod Inner
pub mod Rounds
pub mod Both
pub mod DeleteFix
pub mod Mend
pub mod Unlink
pub mod Remove
pub mod Locate
pub mod Keys
pub mod Subst
pub mod Shed
pub mod Deletion
pub mod Forget
mod Tests
use qphi.Common.{ℕ, ◌+◌, Bool, true, false, ◌==◌, if◌then◌else◌, not}
use qphi.Memory.Chain.{Field, null, update}

pub record Store : Type 0 where
  pub left : Field
  pub right : Field
  pub parent : Field
  pub node_data : Field
  pub key : Field
  pub color : Field
  pub root : Field

abbrev pub set_left : (node to : ℕ) → Store → Store
set_left n v s = record s { left = update s.left n v }

abbrev pub set_right : (node to : ℕ) → Store → Store
set_right n v s = record s { right = update s.right n v }

abbrev pub set_parent : (node to : ℕ) → Store → Store
set_parent n v s = record s { parent = update s.parent n v }

abbrev pub set_root : (rbtree to : ℕ) → Store → Store
set_root rb v s = record s { root = update s.root rb v }

abbrev pub red : ℕ
red = 1

abbrev pub black : ℕ
black = 0

abbrev pub paint : (node color : ℕ) → Field → Field
paint n c f = if n == null then f else update f n c

unfoldable pub set_red : ℕ → Store → Store
set_red n s = record s { color = paint n red s.color }

unfoldable pub set_black : ℕ → Store → Store
set_black n s = record s { color = paint n black s.color }

unfoldable pub is_red : ℕ → Store → Bool
is_red n s = if n == null then false else s.color n == red

unfoldable pub is_black : ℕ → Store → Bool
is_black n s = if n == null then false else s.color n == black

unfoldable pub parent : ℕ → Store → ℕ
parent n s = if n == null then null else s.parent n

unfoldable pub grandpa : ℕ → Store → ℕ
unfolding parent
grandpa n s = parent (parent n s) s

unfoldable pub is_left : ℕ → Store → Bool
unfolding parent
is_left n s = if n == null then false else n == s.left (parent n s)

unfoldable pub is_right : ℕ → Store → Bool
unfolding parent
is_right n s = if n == null then false else n == s.right (parent n s)

unfoldable pub uncle : ℕ → Store → ℕ
unfolding parent grandpa is_left
uncle n s =
    if n == null
    then null
    else if is_left (parent n s) s
    then s.right (grandpa n s)
    else s.left (grandpa n s)

unfoldable pub brother : ℕ → Store → ℕ
unfolding parent is_left
brother n s =
    if n == null then null else if is_left n s then s.right (parent n s) else s.left (parent n s)

unfoldable pub nil : ℕ → ℕ
nil rb = if rb == null then null else rb + 8

unfoldable pub is_empty : ℕ → Store → Bool
unfolding nil
is_empty rb s = if rb == null then false else s.root rb == nil rb

unfoldable pub init : ℕ → Store → Store
unfolding nil set_black
init rb s =
    if rb == null
    then s
    else (let s1 = set_left (nil rb) (nil rb) s in
        let s2 = set_right (nil rb) (nil rb) s1 in
        let s3 = set_parent (nil rb) (nil rb) s2 in
        let s4 = set_black (nil rb) s3 in set_root rb (nil rb) s4)

-- The child of the parent of `n`, or the root, becomes `to`.
unfoldable pub relink : (rbtree node to : ℕ) → Store → Store
unfolding parent is_left
relink rb n to s =
    if n == s.root rb
    then set_root rb to s
    else if is_left n s
    then set_left (parent n s) to s
    else set_right (parent n s) to s

unfoldable pub left_rotate : (rbtree node : ℕ) → Store → Store
unfolding relink parent nil
left_rotate rb n s =
    let r = s.right n in
    let s1 = set_parent r (parent n s) s in
    let s2 = relink rb n r s1 in
    let s3 = set_parent n r s2 in
    let s4 = set_right n (s3.left r) s3 in
    let s5 = if s4.left r == nil rb then s4 else set_parent (s4.left r) n s4 in set_left r n s5

unfoldable pub right_rotate : (rbtree node : ℕ) → Store → Store
unfolding relink parent nil
right_rotate rb n s =
    let l = s.left n in
    let s1 = set_parent l (parent n s) s in
    let s2 = relink rb n l s1 in
    let s3 = set_parent n l s2 in
    let s4 = set_left n (s3.right l) s3 in
    let s5 = if s4.right l == nil rb then s4 else set_parent (s4.right l) n s4 in set_right l n s5
