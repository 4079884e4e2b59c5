-- ===== src/Rbtree/Mend.antt =====
-- `qp_rbtree_delete_fix` of src/core/qp_memory_core.c as a whole.
use qphi.Common.{
  ℕ, zero, suc, ◌<◌, ◌≡◌, ◌≢◌, ◌⊎◌, inl, inr, refl, ◌∙◌, sym, ap, subst, true, false, not, ◌&&◌,
  arith, ◌==◌,
}
use qphi.Rbtree.{Store, set_black, is_black}
use qphi.Rbtree.Shape.{Shape, node, nodes}
use qphi.Rbtree.Trail.{Trail, top, in_left, in_right, plug}
use qphi.Rbtree.Turn.{below_top, below_top'}
use qphi.Rbtree.Round.{look, depth}
use qphi.Rbtree.Repair.{Repaired}
use qphi.Rbtree.Sides.{left_side}
use qphi.Rbtree.Lacking.{Lacking}
use qphi.Rbtree.Sink.{Whole, Over}
use qphi.Rbtree.DeleteFix.{
  goes_on, IsRbtree-Whole, delete_fix-stop, delete_fix-step, finish_red, finish_top, round_below,
}
use qphi.Rbtree.Delete.{delete_round, delete_fix}

top_cases : (c : Trail) → (c ≡ top) ⊎ (c ≢ top)
top_cases top = inl refl
top_cases (in_left a u up) = inr (below_top a u up)
top_cases (in_right u a up) = inr (below_top' a u up)

-- The loop ends at once.
mend_now :
    (f rb x : ℕ) (s : Store) (t : Shape)
    → (not (x == s.root rb) && is_black x s) ≡ false
    → Whole (left_side rb) (set_black x s) t
    → Repaired (delete_fix (suc f) rb x s) s rb t
unfolding set_black
mend_now f rb x s t test w = record {
  store = set_black x s;
  tree = t;
  returned = delete_fix-stop f rb x s test;
  valid = IsRbtree-Whole rb (set_black x s) t w;
  kept = refl;
  keys = refl;
}

-- The loop goes on from what a round leads to.
mend_after :
    (f rb x next : ℕ) (s store : Store) (t u : Shape)
    → (not (x == s.root rb) && is_black x s) ≡ true
    → delete_round rb x s ≡ (next, store)
    → nodes u ≡ nodes t
    → store.key ≡ s.key
    → Repaired (delete_fix f rb next store) store rb u
    → Repaired (delete_fix (suc f) rb x s) s rb t
mend_after f rb x next s store t u test is kept keys done = record {
  store = done.store;
  tree = done.tree;
  returned =
      delete_fix-step f rb x s test
      ∙ ap (λ (w : ℕ × Store). delete_fix f rb w.0 w.1) is
      ∙ done.returned;
  valid = done.valid;
  kept = done.kept ∙ kept;
  keys = done.keys ∙ keys;
}

mend-Over :
    (f rb x : ℕ) (s : Store) (t : Shape)
    → 0 < f
    → (not (x == s.root rb) && is_black x s) ≡ true
    → Over (left_side rb) (delete_round rb x s) s t
    → Repaired (delete_fix (suc f) rb x s) s rb t
mend-Over zero rb x s t pos test w = absurd (omega (arith, pos))
mend-Over (suc f) rb x s t pos test w =
    mend_after (suc f) rb x w.next s w.store t w.tree test w.is w.kept w.keys
      (mend_now f rb w.next w.store w.tree w.test w.whole)

top_test : (s : Store) (rb x : ℕ) → x ≡ s.root rb → (not (x == s.root rb) && is_black x s) ≡ false
top_test s rb x e = ground (arith, e)

red_test :
    (s : Store) (rb p x : ℕ) (c : Trail) (l : Shape) (a : ℕ) (r : Shape) (h : ℕ)
    → Lacking (left_side rb) s p x c (node l a r) h
    → s.color a ≡ 1
    → (not (x == s.root rb) && is_black x s) ≡ false
unfolding is_black
red_test s rb p x c l a r h v e = ground (arith, v.at.stands.0, e)

-- `qp_rbtree_delete_fix` from a place whose ways lack a black node, all else being balanced: with at
-- least two rounds more than the place is deep it returns a red-black tree with the same nodes in the same
-- order and the same keys.
pub delete_fix-Repaired :
    (f : ℕ) (s : Store) (rb p x : ℕ) (c : Trail) (t : Shape) (h : ℕ)
    → Lacking (left_side rb) s p x c t h
    → suc (depth c) < f
    → Repaired (delete_fix f rb x s) s rb (plug c t)
delete_fix-Repaired zero s rb p x c t h v enough = absurd (omega (arith, enough))
delete_fix-Repaired (suc f) s rb p x c t h v enough = elim (look s.color t) [
  | inl (l, a, r, e, a_red) ↦
      (let w = subst (λ u. Lacking (left_side rb) s p x c u h) e v in
        subst (λ u. Repaired (delete_fix (suc f) rb x s) s rb (plug c u)) (sym e)
          (mend_now f rb x s (plug c (node l a r)) (red_test s rb p x c l a r h w a_red)
            (finish_red rb s p x c l a r h w a_red)))
  | inr calm ↦ elim (top_cases c) [
    | inl e ↦
        (let w = subst (λ c. Lacking (left_side rb) s p x c t h) e v in
          subst (λ c. Repaired (delete_fix (suc f) rb x s) s rb (plug c t)) (sym e)
            (mend_now f rb x s t (top_test s rb x w.at.hangs.0) (finish_top rb s p x t h w calm)))
    | inr deep ↦
        (let test = goes_on rb s p x c t h v deep calm in
          elim (round_below rb s p x c t h deep v) [
            | inl w ↦
                mend_after f rb x w.next s w.store (plug c t) (plug w.trail w.tree) test w.is w.kept
                  w.keys
                  (delete_fix-Repaired f w.store rb w.up w.next w.trail w.tree w.h w.lacking
                    (omega (arith, w.near, enough)))
            | inr w ↦ mend-Over f rb x s (plug c t) (omega (arith, enough)) test w
          ])
  ]
]
