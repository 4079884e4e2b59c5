-- ===== src/Rbtree/Repair.antt =====
-- The loop of `qp_rbtree_insert_fix`, src/core/qp_memory_core.c.
use qphi.Common.{
  ℕ, zero, suc, ◌<◌, ◌≡◌, ◌≢◌, ◌⊎◌, inl, inr, refl, ◌∙◌, ap, subst, true, not, ◌&&◌, arith, ◌==◌,
  Option, some,
}
use qphi.Memory.Chain.{Field, null}
use qphi.Rbtree.{Store, red}
use qphi.Rbtree.Shape.{Shape, node, nodes}
use qphi.Rbtree.Trail.{Trail, top, in_left, in_right, plug}
use qphi.Rbtree.Turn.{IsAt}
use qphi.Rbtree.Balance.{head_black}
use qphi.Rbtree.Settle.{Pending}
use qphi.Rbtree.Insert.{insert_round}
use qphi.Rbtree.{is_red, parent, set_black}
use qphi.Rbtree.Turn.{below_top, below_top'}
use qphi.Rbtree.Round.{Round, depth}
use qphi.Rbtree.AdvanceLeft.{advance_left_left, advance_left_right}
use qphi.Rbtree.AdvanceRight.{advance_right_left, advance_right_right}
use qphi.Rbtree.Settle.{IsRbtree, below_root, insert_fix-last}
use qphi.Rbtree.Insert.{insert_fix}

-- The result of the repair of `s`, whose tree is `t`: a red-black tree with the same nodes from left
-- to right and the same keys.
pub record Repaired (result : Option Store) (s : Store) (rb : ℕ) (t : Shape) : Type 0 where
  pub store : Store
  pub tree : Shape
  pub returned : result ≡ some store
  pub valid : IsRbtree store rb tree
  pub kept : nodes tree ≡ nodes t
  pub keys : store.key ≡ s.key

-- The loop's test holds, and the round leads on.
abbrev Continues : Store → (rb n : ℕ) → Trail → Shape → Type 0
Continues s rb n c t =
    ((not (n == s.root rb) && is_red (parent n s) s) ≡ true)
    × (0 < depth c)
    × Round s rb n (depth c) t

-- The test below a red parent.
continues_lem :
    (s : Store) (rb n p : ℕ)
    → n ≢ s.root rb
    → n ≢ null
    → p ≢ null
    → s.parent n ≡ p
    → s.color p ≡ red
    → (not (n == s.root rb) && is_red (parent n s) s) ≡ true
unfolding is_red parent
continues_lem s rb n p not_root n_set p_set np p_red = ground arith

not_root_left :
    (s : Store) (rb p n : ℕ) (a : ℕ) (u : Shape) (up : Trail) (l r : Shape)
    → IsAt s rb p n (in_left a u up) (node l n r)
    → n ≢ s.root rb
not_root_left s rb p n a u up l r v = elim (below_root s rb p n (in_left a u up) l r v) [
  | inl e ↦ absurd (below_top a u up e)
  | inr ne ↦ ne
]

not_root_right :
    (s : Store) (rb p n : ℕ) (a : ℕ) (u : Shape) (up : Trail) (l r : Shape)
    → IsAt s rb p n (in_right u a up) (node l n r)
    → n ≢ s.root rb
not_root_right s rb p n a u up l r v = elim (below_root s rb p n (in_right u a up) l r v) [
  | inl e ↦ absurd (below_top' a u up e)
  | inr ne ↦ ne
]

no_top : (color : Field) → head_black color top ≢ true
no_top color e = ground arith

-- A node that waits for repair is at the end of the loop, or a round leads on.
progress :
    (s : Store) (rb p n : ℕ) (c : Trail) (l r : Shape) (h : ℕ)
    → Pending s rb p n c l r h
    → ((c ≡ top) ⊎ (head_black s.color c ≡ true)) ⊎ Continues s rb n c (plug c (node l n r))
progress s rb p n top l r h v = inl (inl refl)
progress s rb p n (in_left a u top) l r h v = elim v.holds.1 [
  | inl w ↦ absurd (no_top s.color w.2)
  | inr w ↦ inl (inr (ground (arith, w.0)))
]
progress s rb p n (in_right u a top) l r h v = elim v.holds.1 [
  | inl w ↦ absurd (no_top s.color w.2)
  | inr w ↦ inl (inr (ground (arith, w.0)))
]
progress s rb p n (in_left a u (in_left g gr up)) l r h v = elim v.holds.1 [
  | inr w ↦ inl (inr (ground (arith, w.0)))
  | inl w ↦
      (let moved =
          subst (λ q. Pending s rb q n (in_left a u (in_left g gr up)) l r h) v.at.hangs.0 v in
        inr (
          continues_lem s rb n a (not_root_left s rb p n a u (in_left g gr up) l r v.at)
              moved.at.stands.2 moved.at.hangs.3 moved.at.stands.3 w.0,
          ground arith,
          advance_left_left s rb a g n up l r u gr h moved w.0,
        ))
]
progress s rb p n (in_left a u (in_right gr g up)) l r h v = elim v.holds.1 [
  | inr w ↦ inl (inr (ground (arith, w.0)))
  | inl w ↦
      (let moved =
          subst (λ q. Pending s rb q n (in_left a u (in_right gr g up)) l r h) v.at.hangs.0 v in
        inr (
          continues_lem s rb n a (not_root_left s rb p n a u (in_right gr g up) l r v.at)
              moved.at.stands.2 moved.at.hangs.3 moved.at.stands.3 w.0,
          ground arith,
          advance_right_left s rb a g n up l r u gr h moved w.0,
        ))
]
progress s rb p n (in_right u a (in_left g gr up)) l r h v = elim v.holds.1 [
  | inr w ↦ inl (inr (ground (arith, w.0)))
  | inl w ↦
      (let moved =
          subst (λ q. Pending s rb q n (in_right u a (in_left g gr up)) l r h) v.at.hangs.0 v in
        inr (
          continues_lem s rb n a (not_root_right s rb p n a u (in_left g gr up) l r v.at)
              moved.at.stands.2 moved.at.hangs.3 moved.at.stands.3 w.0,
          ground arith,
          advance_left_right s rb a g n up l r u gr h moved w.0,
        ))
]
progress s rb p n (in_right u a (in_right gr g up)) l r h v = elim v.holds.1 [
  | inr w ↦ inl (inr (ground (arith, w.0)))
  | inl w ↦
      (let moved =
          subst (λ q. Pending s rb q n (in_right u a (in_right gr g up)) l r h) v.at.hangs.0 v in
        inr (
          continues_lem s rb n a (not_root_right s rb p n a u (in_right gr g up) l r v.at)
              moved.at.stands.2 moved.at.hangs.3 moved.at.stands.3 w.0,
          ground arith,
          advance_right_right s rb a g n up l r u gr h moved w.0,
        ))
]

-- The loop's step.
insert_fix-step :
    (f : ℕ) (s : Store) (rb n : ℕ)
    → (not (n == s.root rb) && is_red (parent n s) s) ≡ true
    → insert_fix (suc f) rb n s ≡ insert_fix f rb (insert_round rb n s).0 (insert_round rb n s).1
unfolding insert_fix
insert_fix-step f s rb n e = ground (arith, e)

last_round :
    (f : ℕ) (s : Store) (rb p n : ℕ) (c : Trail) (l r : Shape) (h : ℕ)
    → 0 < f
    → Pending s rb p n c l r h
    → (c ≡ top) ⊎ (head_black s.color c ≡ true)
    → Repaired (insert_fix f rb n s) s rb (plug c (node l n r))
unfolding set_black
last_round zero s rb p n c l r h pos v calm = absurd (omega (arith, pos))
last_round (suc f) s rb p n c l r h pos v calm =
    let ended = insert_fix-last f s rb p n c l r h v calm in
    record {
      store = set_black (s.root rb) s;
      tree = plug c (node l n r);
      returned = ended.0;
      valid = ended.1;
      kept = refl;
      keys = refl;
    }

-- After the round.
through :
    (f : ℕ) (s : Store) (rb n : ℕ) (c : Trail) (t : Shape) (w : Round s rb n (depth c) t)
    → insert_fix (suc f) rb n s ≡ insert_fix f rb (insert_round rb n s).0 (insert_round rb n s).1
    → Repaired (insert_fix f rb w.next w.store) w.store rb (plug w.trail (node w.l w.next w.r))
    → Repaired (insert_fix (suc f) rb n s) s rb t
through f s rb n c t w step done = record {
  store = done.store;
  tree = done.tree;
  returned = step ∙ ap (λ (m : ℕ × Store). insert_fix f rb m.0 m.1) w.round ∙ done.returned;
  valid = done.valid;
  kept = done.kept ∙ w.kept;
  keys = done.keys ∙ w.keys;
}

-- `qp_rbtree_insert_fix` from a place where only the red node and its parent may be red together: with
-- more rounds than the place is deep it returns a red-black tree with the same nodes in the same
-- order and the same keys.
pub insert_fix-Repaired :
    (f : ℕ) (s : Store) (rb p n : ℕ) (c : Trail) (l r : Shape) (h : ℕ)
    → Pending s rb p n c l r h
    → depth c < f
    → Repaired (insert_fix f rb n s) s rb (plug c (node l n r))
insert_fix-Repaired zero s rb p n c l r h v enough = absurd (omega (arith, enough))
insert_fix-Repaired (suc f) s rb p n c l r h v enough = elim (progress s rb p n c l r h v) [
  | inl calm ↦ last_round (suc f) s rb p n c l r h (omega arith) v calm
  | inr (test, deep, w) ↦
      through f s rb n c (plug c (node l n r)) w (insert_fix-step f s rb n test) (elim w.near [
        | inl higher ↦
            insert_fix-Repaired f w.store rb w.up w.next w.trail w.l w.r w.h w.pending
              (omega (arith, higher, enough))
        | inr calm ↦
            last_round f w.store rb w.up w.next w.trail w.l w.r w.h (omega (arith, deep, enough))
              w.pending (inr calm)
      ])
]
