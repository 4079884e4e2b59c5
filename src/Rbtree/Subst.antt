-- ===== src/Rbtree/Subst.antt =====
-- The node that `qp_rbtree_delete` of src/core/qp_memory_core.c takes out of its place: the given one,
-- or the next one behind it.
use qphi.Common.{
  ℕ, ◌≤◌, ◌≡◌, ◌≢◌, ◌⊎◌, inl, inr, refl, ◌∙◌, sym, false, List, [], ◌∷◌, ◌++◌, arith, Option, some,
}
use qphi.Memory.Chain.{null}
use qphi.Rbtree.{Store, nil, is_empty}
use qphi.Rbtree.Shape.{Shape, leaf, node, nodes}
use qphi.Rbtree.Trail.{Trail, in_right, plug}
use qphi.Rbtree.Climb.{append_assoc}
use qphi.Rbtree.Order.{before, nil_append}
use qphi.Rbtree.Search.{min_loop, rbtree_min}
use qphi.Rbtree.Remove.{Single}
use qphi.Rbtree.Locate.{Standing, go_right, least}
use qphi.Rbtree.Delete.{delete_subst}

-- The node `sub` to take out for `n`, which is `n` or comes directly behind it.
pub record Chosen (s : Store) (rb n : ℕ) (t : Shape) (deep : ℕ) (chosen : Option ℕ) : Type 0 where
  pub sub : ℕ
  pub p : ℕ
  pub c : Trail
  pub l : Shape
  pub r : Shape
  pub h : ℕ
  pub standing : Standing s rb p sub c (node l sub r) h deep
  pub single : Single l r
  pub whole : plug c (node l sub r) ≡ t
  pub is : chosen ≡ some sub
  pub place : (sub ≡ n) ⊎ ((lower : List ℕ) × (before c ++ nodes l ≡ lower ++ n ∷ []))

subst_here :
    (f rb n : ℕ) (s : Store)
    → (s.left n ≡ nil rb) ⊎ (s.right n ≡ nil rb)
    → delete_subst f rb n s ≡ some n
unfolding delete_subst
subst_here f rb n s e = elim e [ inl e ↦ ground (arith, e) | inr e ↦ ground (arith, e) ]

subst_behind :
    (f rb n : ℕ) (s : Store)
    → is_empty rb s ≡ false
    → s.left n ≢ nil rb
    → s.right n ≢ nil rb
    → s.right n ≢ null
    → delete_subst f rb n s ≡ min_loop f rb (s.right n) s
unfolding delete_subst rbtree_min
subst_behind f rb n s e lne rne set = ground (arith, e, lne, rne, set)

pub choose :
    (f : ℕ) (s : Store) (rb n p : ℕ) (c : Trail) (l r : Shape) (h deep : ℕ)
    → is_empty rb s ≡ false
    → deep ≤ f
    → Standing s rb p n c (node l n r) h deep
    → Chosen s rb n (plug c (node l n r)) deep (delete_subst f rb n s)
choose f s rb n p c leaf r h deep filled enough v = record {
  sub = n;
  p = p;
  c = c;
  l = leaf;
  r = r;
  h = h;
  standing = v;
  single = inl refl;
  whole = refl;
  is = subst_here f rb n s (inl v.at.stands.4);
  place = inl refl;
}
choose f s rb n p c (node x y z) leaf h deep filled enough v = record {
  sub = n;
  p = p;
  c = c;
  l = node x y z;
  r = leaf;
  h = h;
  standing = v;
  single = inr refl;
  whole = refl;
  is = subst_here f rb n s (inr v.at.stands.5);
  place = inl refl;
}
choose f s rb n p c (node x y z) (node a b d) h deep filled enough v =
    let (k, w) = go_right s rb p n c (node x y z) n (node a b d) h deep v in
    let u =
      least f s rb n (s.right n) (in_right (node x y z) n c) a b d k deep
        (omega (arith, enough, v.room)) w in
    let right_b : s.right n ≡ b = w.at.stands.0 in
    let left_y : s.left n ≡ y = v.at.stands.4.0 in
    record {
      sub = u.sub;
      p = u.p;
      c = u.trail;
      l = leaf;
      r = u.r;
      h = u.h;
      standing = u.standing;
      single = inl refl;
      whole = u.whole;
      is =
          subst_behind f rb n s filled (λ e. v.at.stands.4.1 (sym left_y ∙ e))
            (λ e. w.at.stands.1 (sym right_b ∙ e)) (λ e. w.at.stands.2 (sym right_b ∙ e))
          ∙ u.loop;
      place = inr (
        before c ++ nodes (node x y z),
        nil_append (before u.trail)
            ∙ u.same_before
            ∙ sym (append_assoc (before c) (nodes (node x y z)) (n ∷ [])),
      );
    }
