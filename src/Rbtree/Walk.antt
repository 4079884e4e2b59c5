-- ===== src/Rbtree/Walk.antt =====
-- The whole walk of the search for a place in `qp_rbtree_insert`, src/core/qp_memory_core.c.
use qphi.Common.{
  ℕ, zero, suc, ◌+◌, ◌<◌, ◌≤◌, ◌≡◌, ◌⊎◌, inl, inr, refl, ◌∙◌, sym, ap, subst, true, false, arith,
  Option, ℕ_discrete, dec_lt,
}
use qphi.Rbtree.{Store, nil}
use qphi.Rbtree.Shape.{Shape, leaf, node, Sorted, height}
use qphi.Rbtree.Trail.{Trail, in_left, in_right, plug}
use qphi.Rbtree.Turn.{IsAt, below_top, below_top'}
use qphi.Rbtree.Climb.{Focus-down_left, Focus-down_right}
use qphi.Rbtree.Balance.{root_red, Balanced, head_black, Holds}
use qphi.Rbtree.Round.{depth}
use qphi.Rbtree.Order.{Between}
use qphi.Rbtree.Place.{
  Arrived, IsTaken, Holds-down, place_taken, place_below_left, place_left, place_below_right,
  place_right, Between-left, Between-right, has-plug,
}
use qphi.Rbtree.Insert.{Place, insert_place}

module _ (s : Store) (rb k deep : ℕ) where
  abbrev pub Ends : (result : Option Place) → Shape → Type 0
  Ends result t = Arrived s rb k result t deep ⊎ IsTaken s k result t

  -- What the search is at a node.
  pub record Here (p : ℕ) (c : Trail) (l : Shape) (a : ℕ) (r : Shape) (h : ℕ) : Type 0 where
    pub at : IsAt s rb p a c (node l a r)
    pub sorted : Sorted s.key (node l a r)
    pub between : Between s.key k c
    pub balanced : Balanced s.color h (node l a r)
    pub calm : (root_red s.color (node l a r) ≡ false) ⊎ (head_black s.color c ≡ true)
    pub holds : Holds s.color h c
    pub shallow : depth c + height (node l a r) ≤ deep

  abbrev pub Walks : ℕ → Type 0
  Walks f =
      (p : ℕ) (c : Trail) (l : Shape) (a : ℕ) (r : Shape) (h : ℕ)
      → Here p c l a r h
      → height (node l a r) ≤ f
      → Ends (insert_place f rb k a s) (plug c (node l a r))

  go_left :
      (f : ℕ)
      → Walks f
      → (p : ℕ) (c : Trail) (l : Shape) (a : ℕ) (r : Shape) (h : ℕ) → Here p c l a r h
      → height (node l a r) ≤ suc f
      → k < s.key a
      → Ends (insert_place (suc f) rb k a s) (plug c (node l a r))
  go_left f rest p c leaf a r h v enough lt =
      let d = Holds-down s.color h c leaf a r v.balanced v.calm v.holds in
      let w = Focus-down_left s.left s.right s.parent (nil rb) (s.root rb) p a r c leaf v.at in
      inl (record {
        cur = a;
        trail = in_left a r c;
        returned = place_below_left s rb k f a lt w.stands;
        at = subst (λ x. IsAt s rb a x (in_left a r c) leaf) w.stands w;
        whole = refl;
        between = Between-left s rb k c a r lt v.sorted.1 v.between;
        holds = subst (λ j. Holds s.color j (in_left a r c)) d.1 d.2;
        shallow = omega (arith, v.shallow);
        inside = below_top a r c;
      })
  go_left f rest p c (node l b m) a r h v enough lt =
      let d = Holds-down s.color h c (node l b m) a r v.balanced v.calm v.holds in
      let w =
        Focus-down_left s.left s.right s.parent (nil rb) (s.root rb) p a r c (node l b m) v.at in
      let e = place_left s rb k f a lt (λ z. w.stands.1 (sym w.stands.0 ∙ z)) in
      subst (λ o. Ends o (plug c (node (node l b m) a r)))
        (sym (e ∙ ap (λ x. insert_place f rb k x s) w.stands.0))
        (rest a (in_left a r c) l b m d.0
          (record {
            at = subst (λ x. IsAt s rb a x (in_left a r c) (node l b m)) w.stands.0 w;
            sorted = v.sorted.2;
            between = Between-left s rb k c a r lt v.sorted.1 v.between;
            balanced = d.1;
            calm = d.5;
            holds = d.2;
            shallow = omega (arith, v.shallow);
          })
          (omega (arith, enough)))

  go_right :
      (f : ℕ)
      → Walks f
      → (p : ℕ) (c : Trail) (l : Shape) (a : ℕ) (r : Shape) (h : ℕ) → Here p c l a r h
      → height (node l a r) ≤ suc f
      → s.key a < k
      → Ends (insert_place (suc f) rb k a s) (plug c (node l a r))
  go_right f rest p c l a leaf h v enough lt =
      let d = Holds-down s.color h c l a leaf v.balanced v.calm v.holds in
      let w = Focus-down_right s.left s.right s.parent (nil rb) (s.root rb) p a l c leaf v.at in
      inl (record {
        cur = a;
        trail = in_right l a c;
        returned = place_below_right s rb k f a lt w.stands;
        at = subst (λ x. IsAt s rb a x (in_right l a c) leaf) w.stands w;
        whole = refl;
        between = Between-right s rb k c a l lt v.sorted.0 v.between;
        holds = subst (λ j. Holds s.color j (in_right l a c)) d.3 d.4;
        shallow = omega (arith, v.shallow);
        inside = below_top' a l c;
      })
  go_right f rest p c l a (node m b r) h v enough lt =
      let d = Holds-down s.color h c l a (node m b r) v.balanced v.calm v.holds in
      let w =
        Focus-down_right s.left s.right s.parent (nil rb) (s.root rb) p a l c (node m b r) v.at in
      let e = place_right s rb k f a lt (λ z. w.stands.1 (sym w.stands.0 ∙ z)) in
      subst (λ o. Ends o (plug c (node l a (node m b r))))
        (sym (e ∙ ap (λ x. insert_place f rb k x s) w.stands.0))
        (rest a (in_right l a c) m b r d.0
          (record {
            at = subst (λ x. IsAt s rb a x (in_right l a c) (node m b r)) w.stands.0 w;
            sorted = v.sorted.3;
            between = Between-right s rb k c a l lt v.sorted.0 v.between;
            balanced = d.3;
            calm = d.6;
            holds = d.4;
            shallow = omega (arith, v.shallow);
          })
          (omega (arith, enough)))

  pub walk : (f : ℕ) → Walks f
  walk zero p c l a r h v enough = absurd (omega (arith, enough))
  walk (suc f) p c l a r h v enough = elim (ℕ_discrete k (s.key a)) [
    | yes e ↦ inr (place_taken s rb k f a e, (a, has-plug s rb k c l a r, sym e))
    | no ne ↦ elim (dec_lt k (s.key a)) [
      | yes lt ↦ go_left f (walk f) p c l a r h v enough lt
      | no ge ↦ go_right f (walk f) p c l a r h v enough (omega (arith, ne, ge))
    ]
  ]
