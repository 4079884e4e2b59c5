-- ===== src/Rbtree/Sides.antt =====
-- The two sides of a tree of src/core/qp_memory_core.c: what the left one and the right one share, as
-- the repair after a deletion needs it.
use qphi.Common.{ℕ, ◌≡◌, ◌≢◌, arith}
use qphi.Memory.Chain.{Field, null}
use qphi.Rbtree.{Store, nil, parent, is_left, brother, relink, left_rotate, right_rotate}
use qphi.Rbtree.Shape.{Shape, node}
use qphi.Rbtree.Trail.{Trail}
use qphi.Rbtree.Focus.{Focus, Focus-mirror, Focus-unmirror}
use qphi.Rbtree.Mirror.{mirror, mirror_trail}
use qphi.Rbtree.Left.{left_rotate-IsAt}
use qphi.Rbtree.Right.{right_rotate-IsAt, mirrored}
use qphi.Rbtree.Raise.{left_rotate_kept, right_rotate_kept}

-- The fields of the side of a node and of the other one, the rotation to that side and the one away
-- from it, and what these do.
pub record Side (rb : ℕ) : Type 0 where
  pub near : Store → Field
  pub far : Store → Field
  pub to : ℕ → Store → Store
  pub off : ℕ → Store → Store
  pub painted-Focus :
      (s : Store) (f : Field) (p x : ℕ) (c : Trail) (t : Shape)
      → Focus (near s) (far s) s.parent (nil rb) (s.root rb) p x c t
      → Focus
          (near (record s { color = f }))
          (far (record s { color = f }))
          s.parent
          (nil rb)
          (s.root rb)
          p
          x
          c
          t
  pub to_kept : (n : ℕ) (s : Store) → ((to n s).color ≡ s.color) × ((to n s).key ≡ s.key)
  pub off_kept : (n : ℕ) (s : Store) → ((off n s).color ≡ s.color) × ((off n s).key ≡ s.key)
  pub to_stop :
      (n : ℕ) (s : Store)
      → n ≢ nil rb
      → far s n ≢ nil rb
      → (to n s).parent (nil rb) ≡ s.parent (nil rb)
  pub off_stop :
      (n : ℕ) (s : Store)
      → n ≢ nil rb
      → near s n ≢ nil rb
      → (off n s).parent (nil rb) ≡ s.parent (nil rb)
  pub to-Focus :
      (s : Store) (p n r : ℕ) (a b d : Shape) (c : Trail)
      → Focus (near s) (far s) s.parent (nil rb) (s.root rb) p n c (node a n (node b r d))
      → Focus
          (near (to n s))
          (far (to n s))
          (to n s).parent
          (nil rb)
          ((to n s).root rb)
          p
          r
          c
          (node (node a n b) r d)
  pub off-Focus :
      (s : Store) (p n r : ℕ) (a b d : Shape) (c : Trail)
      → Focus (near s) (far s) s.parent (nil rb) (s.root rb) p n c (node (node d r b) n a)
      → Focus
          (near (off n s))
          (far (off n s))
          (off n s).parent
          (nil rb)
          ((off n s).root rb)
          p
          r
          c
          (node d r (node b n a))
  pub brother_lem :
      (s : Store) (x p : ℕ)
      → x ≢ null
      → s.parent x ≡ p
      → near s p ≡ x
      → far s p ≢ x
      → brother x s ≡ far s p

pub left_stop :
    (rb n : ℕ) (s : Store)
    → n ≢ nil rb
    → s.right n ≢ nil rb
    → (left_rotate rb n s).parent (nil rb) ≡ s.parent (nil rb)
unfolding left_rotate relink
left_stop rb n s a b = ground arith

pub right_stop :
    (rb n : ℕ) (s : Store)
    → n ≢ nil rb
    → s.left n ≢ nil rb
    → (right_rotate rb n s).parent (nil rb) ≡ s.parent (nil rb)
unfolding right_rotate relink
right_stop rb n s a b = ground arith

pub left_brother :
    (s : Store) (x p : ℕ)
    → x ≢ null
    → s.parent x ≡ p
    → s.left p ≡ x
    → s.right p ≢ x
    → brother x s ≡ s.right p
unfolding brother is_left parent
left_brother s x p set e l r = ground arith

pub right_brother :
    (s : Store) (x p : ℕ)
    → x ≢ null
    → s.parent x ≡ p
    → s.right p ≡ x
    → s.left p ≢ x
    → brother x s ≡ s.left p
unfolding brother is_left parent
right_brother s x p set e l r = ground arith

-- A left rotation, read from the right.
pub mirrored_left :
    (rb : ℕ) (s : Store) (p n r : ℕ) (a b d : Shape) (c : Trail)
    → Focus s.right s.left s.parent (nil rb) (s.root rb) p n c (node (node d r b) n a)
    → Focus
        (left_rotate rb n s).right
        (left_rotate rb n s).left
        (left_rotate rb n s).parent
        (nil rb)
        ((left_rotate rb n s).root rb)
        p
        r
        c
        (node d r (node b n a))
mirrored_left rb s p n r a b d c v =
    Focus-unmirror c (node d r (node b n a)) (
      left_rotate-IsAt s rb p n r (mirror a) (mirror b) (mirror d) (mirror_trail c)
        (Focus-mirror v))

abbrev pub left_side : (rb : ℕ) → Side rb
left_side rb = record {
  near = λ s. s.left;
  far = λ s. s.right;
  to = left_rotate rb;
  off = right_rotate rb;
  painted-Focus = λ s f p x c t v. v;
  to_kept = left_rotate_kept rb;
  off_kept = right_rotate_kept rb;
  to_stop = left_stop rb;
  off_stop = right_stop rb;
  to-Focus = λ s p n r a b d c. left_rotate-IsAt s rb p n r a b d c;
  off-Focus = λ s p n r a b d c. right_rotate-IsAt s rb p n r a b d c;
  brother_lem = left_brother;
}

abbrev pub right_side : (rb : ℕ) → Side rb
right_side rb = record {
  near = λ s. s.right;
  far = λ s. s.left;
  to = right_rotate rb;
  off = left_rotate rb;
  painted-Focus = λ s f p x c t v. v;
  to_kept = right_rotate_kept rb;
  off_kept = left_rotate_kept rb;
  to_stop = right_stop rb;
  off_stop = left_stop rb;
  to-Focus = λ s p n r a b d c. mirrored s rb p n r a b d c;
  off-Focus = mirrored_left rb;
  brother_lem = right_brother;
}
