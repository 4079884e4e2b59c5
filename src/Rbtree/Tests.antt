-- ===== src/Rbtree/Tests.antt =====
-- The tree of src/core/qp_memory_core.c on a concrete store, and the theorems applied to it.
use qphi.Common.{
  [], ◌∷◌, All, ℕ, ◌≡◌, ◌≢◌, ◌⊎◌, inl, inr, refl, true, has, arith, some, Returns, u32,
}
use qphi.Memory.Chain.{null, update}
use qphi.Rbtree.{init, Store, nil, red, black, left_rotate}
use qphi.Rbtree.Shape.{Shape, leaf, node, nodes, IsShape, IsOrdered}
use qphi.Rbtree.Trail.{Trail, top, in_left, in_right}
use qphi.Rbtree.Turn.{IsAt}
use qphi.Rbtree.Left.{left_rotate-IsAt}
use qphi.Rbtree.Settle.{IsRbtree, Pending}
use qphi.Rbtree.Lookup.{Found, Least, Greatest, find-Found, min_max_lem}
use qphi.Rbtree.Search.{find, rbtree_min, rbtree_max}
use qphi.Rbtree.Insert.{insert, insert_fix}
use qphi.Rbtree.Repair.{Repaired, insert_fix-Repaired}
use qphi.Rbtree.Insertion.{Inserted, insert-Inserted}
use qphi.Rbtree.Session.{insert_all, Built, Fresh, insert_all-init}
use qphi.Rbtree.Reach.{find-insert}
use qphi.Rbtree.Delete.{delete, delete_fix}
use qphi.Rbtree.Sides.{left_side}
use qphi.Rbtree.Lacking.{Lacking}
use qphi.Rbtree.Mend.{delete_fix-Repaired}
use qphi.Rbtree.Deletion.{Deleted, delete-Deleted}
use qphi.Rbtree.Forget.{Answered, find-delete}

abbrev rb : ℕ
rb = 100

abbrev stop : ℕ
stop = 108

-- A black root with two red children; each node's key is its address.
abbrev three : Store
three = record {
  left = update (update (update (λ a. stop) 200 120) 120 stop) 300 stop;
  right = update (update (update (λ a. stop) 200 300) 120 stop) 300 stop;
  parent = update (update (update (λ a. stop) 120 200) 300 200) 200 stop;
  node_data = λ a. 0;
  key = λ a. a;
  color = update (update (λ a. black) 120 red) 300 red;
  root = λ a. 200;
}

abbrev tree : Shape
tree = node (node leaf 120 leaf) 200 (node leaf 300 leaf)

nil_lem : nil rb ≡ stop
unfolding nil
nil_lem = refl

at_root : IsAt three rb stop 200 top tree
unfolding nil
at_root = record {
  hangs = (refl, refl);
  stands = (
    refl,
    ground arith,
    ground arith,
    refl,
    (refl, ground arith, ground arith, refl, refl, refl),
    (refl, ground arith, ground arith, refl, refl, refl),
  );
  unique = λ a. ground arith;
}

tree-IsRbtree : IsRbtree three rb tree
unfolding nil
tree-IsRbtree = record {
  at = at_root;
  height = 1;
  balanced =
      inr (refl, (0, refl, inl (refl, refl, refl, refl, refl), inl (refl, refl, refl, refl, refl)));
  black_root = refl;
  sentinel = refl;
}

tree-IsOrdered : IsOrdered three tree
tree-IsOrdered = ((ground arith, tt), (ground arith, tt), (tt, tt, tt, tt), (tt, tt, tt, tt))

tree_stands : IsShape three (nil rb) (nil rb) 200 tree
unfolding nil
tree_stands = at_root.stands

find-Found_example : Returns (Found three (u32 300) tree) (find 3 rb 300 three)
find-Found_example =
    find-Found 3 rb 300 three tree (λ e. ground arith) tree_stands tree-IsOrdered (ground arith)

min_max_lem_example :
    Returns (Least three tree) (rbtree_min 3 rb null three)
    × Returns (Greatest three tree) (rbtree_max 3 rb null three)
min_max_lem_example =
    min_max_lem 3 rb three (node leaf 120 leaf) 200 (node leaf 300 leaf) (λ e. ground arith)
      tree_stands tree-IsOrdered (ground arith)

left_rotate-IsAt_example :
    IsAt
      (left_rotate rb 200 three)
      rb
      stop
      300
      top
      (node (node (node leaf 120 leaf) 200 leaf) 300 leaf)
left_rotate-IsAt_example =
    left_rotate-IsAt three rb stop 200 300 (node leaf 120 leaf) leaf leaf top at_root

insert-Inserted_example :
    (insert 3 rb 400 three ≡ some (null, three))
      × ((b : ℕ) × (has b (nodes tree) ≡ true) × (three.key b ≡ 400))
    ⊎ Inserted (insert 3 rb 400 three) three rb 400 tree
insert-Inserted_example =
    insert-Inserted 3 rb 400 three tree (λ e. ground arith) (λ e. ground arith) other refl
      tree-IsRbtree tree-IsOrdered (ground arith)
  where
    other : 400 ≢ nil rb
    other e = ground (arith, nil_lem)

-- A fourth node, red below a red one.
abbrev four : Store
four = record three {
  left = update three.left 400 stop;
  right = update (update three.right 400 stop) 300 400;
  parent = update three.parent 400 300;
  color = update three.color 400 red;
}

abbrev four_trail : Trail
four_trail = in_right leaf 300 (in_right (node leaf 120 leaf) 200 top)

four-Pending : Pending four rb 300 400 four_trail leaf leaf 0
unfolding nil
four-Pending = record {
  at = record {
    hangs = (
      refl,
      refl,
      ground arith,
      ground arith,
      refl,
      (
        refl,
        refl,
        ground arith,
        ground arith,
        (refl, ground arith, ground arith, refl, refl, refl),
        (refl, refl),
      ),
    );
    stands = (refl, ground arith, ground arith, refl, refl, refl);
    unique = λ a. ground arith;
  };
  red_n = refl;
  calm_l = refl;
  calm_r = refl;
  balanced_l = refl;
  balanced_r = refl;
  holds = (refl, inl (refl, refl, refl, (inl (refl, refl, refl, refl, refl), inr (refl, tt))));
  sentinel = refl;
}

insert_fix-Repaired_example :
    Repaired
      (insert_fix 3 rb 400 four)
      four
      rb
      (node (node leaf 120 leaf) 200 (node leaf 300 (node leaf 400 leaf)))
insert_fix-Repaired_example =
    insert_fix-Repaired 3 four rb 300 400 four_trail leaf leaf 0 four-Pending (ground arith)

-- No node yet.
abbrev blank : Store
blank = record three { root = λ a. stop }

-- One black node.
abbrev one : Store
one = record blank {
  left = update blank.left 200 stop;
  right = update blank.right 200 stop;
  parent = update blank.parent 200 stop;
  color = update blank.color 200 black;
  root = update blank.root rb 200;
}

insert-one : insert 1 rb 200 blank ≡ some (200, one)
unfolding insert nil
insert-one = refl

find-insert_example :
    (insert 3 rb 400 three ≡ some (null, three))
      × ((b : ℕ) × (has b (nodes tree) ≡ true) × (three.key b ≡ 400))
    ⊎ ((s : Store) × (insert 3 rb 400 three ≡ some (400, s)) × (find 5 rb 120 s ≡ some 120))
find-insert_example =
    find-insert 3 5 rb 400 120 three tree (λ e. ground arith) (λ e. ground arith) other refl
      tree-IsRbtree tree-IsOrdered (ground arith) refl (ground arith) (ground arith)
  where
    other : 400 ≢ nil rb
    other e = ground (arith, nil_lem)

Fresh-three : All (Fresh rb) (200 ∷ 120 ∷ 300 ∷ [])
unfolding nil
Fresh-three = (
  (ground arith, ground arith),
  ((ground arith, ground arith), ((ground arith, ground arith), tt)),
)

insert_all-init_example :
    Built
      (insert_all 4 rb (200 ∷ 120 ∷ 300 ∷ []) (init rb three))
      (init rb three)
      rb
      leaf
      (200 ∷ 120 ∷ 300 ∷ [])
insert_all-init_example =
    insert_all-init 4 rb (200 ∷ 120 ∷ 300 ∷ []) three (λ e. ground arith) Fresh-three
      (refl, (refl, (refl, tt))) (ground arith)

-- The least node behind the root leaves its place, and its key goes to the root.
delete-Deleted_example : Deleted (delete 3 rb 200 three) three rb 200 tree
delete-Deleted_example =
    delete-Deleted 3 rb 200 three tree (λ e. ground arith) refl tree-IsRbtree tree-IsOrdered
      (ground arith)

find-delete_example :
    (sub : ℕ) × (s : Store) × (delete 3 rb 200 three ≡ some (sub, s))
    × Answered (find 4 rb 300 s) three s 200 sub 300 tree
find-delete_example =
    find-delete 3 4 rb 200 300 three tree (λ e. ground arith) refl tree-IsRbtree tree-IsOrdered
      (ground arith) refl (ground arith) (ground arith)

-- A black root with a black child on the right and none on the left any more.
abbrev lame : Store
lame = record three {
  left = update three.left 200 stop;
  parent = update three.parent stop 200;
  color = λ a. black;
}

abbrev lame_trail : Trail
lame_trail = in_left 200 (node leaf 300 leaf) top

lame-Lacking : Lacking (left_side rb) lame 200 stop lame_trail leaf 0
unfolding nil
lame-Lacking = record {
  at = record {
    hangs = (
      refl,
      refl,
      ground arith,
      ground arith,
      (refl, ground arith, ground arith, refl, refl, refl),
      (refl, refl),
    );
    stands = refl;
    unique = λ a. ground arith;
  };
  link = refl;
  stop_set = λ e. ground arith;
  balanced = refl;
  holds = (inr (refl, (0, refl, refl, refl)), inr (refl, tt));
  sentinel = refl;
}

delete_fix-Repaired_example :
    Repaired (delete_fix 3 rb stop lame) lame rb (node leaf 200 (node leaf 300 leaf))
delete_fix-Repaired_example =
    delete_fix-Repaired 3 lame rb 200 stop lame_trail leaf 0 lame-Lacking (ground arith)
