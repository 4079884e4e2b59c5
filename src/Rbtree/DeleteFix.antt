-- ===== src/Rbtree/DeleteFix.antt =====
-- The loop of `qp_rbtree_delete_fix`, src/core/qp_memory_core.c.
use qphi.Common.{
  ℕ, suc, ◌≡◌, ◌≢◌, ◌⊎◌, inl, inr, refl, ◌∙◌, sym, ap, subst, true, false, not, ◌&&◌, [], ◌∷◌, has,
  count-append, arith, ◌==◌, some,
}
use qphi.Memory.Chain.{Field, null}
use qphi.Memory.Ring.{has-ne}
use qphi.Rbtree.{Store, nil, red, black, paint, set_black, is_black, is_left, parent}
use qphi.Rbtree.Shape.{Shape, node, nodes}
use qphi.Rbtree.Trail.{
  Trail, top, in_left, in_right, plug, trail_nodes, Stands-root, Hangs-root, Hangs-stop,
}
use qphi.Rbtree.Focus.{Focus-Distinct}
use qphi.Rbtree.Mirror.{mirror, mirror_trail}
use qphi.Rbtree.Balance.{root_red}
use qphi.Rbtree.Repaint.{repaint-Balanced, repaint-Holds}
use qphi.Rbtree.Settle.{IsRbtree}
use qphi.Rbtree.Round.{depth}
use qphi.Rbtree.Sides.{left_side, right_side}
use qphi.Rbtree.Lacking.{Lacking, Lacking-set, is_black-root, far-apart}
use qphi.Rbtree.Sink.{Whole, At-Whole, Over, Higher, side_round}
use qphi.Rbtree.Spread.{Whole-set_black}
use qphi.Rbtree.Rounds.{sink_round}
use qphi.Rbtree.Both.{
  depth-mirror, mirror-plug, nodes-exchange, Lacking-right, Lacking-left, Whole-left,
}
use qphi.Rbtree.Delete.{delete_round, delete_fix}

-- What a round of the loop leads to.
abbrev pub Rounded : (rb x : ℕ) → Store → Shape → ℕ → Type 0
Rounded rb x s t deep =
    Higher (left_side rb) (delete_round rb x s) s t deep
    ⊎ Over (left_side rb) (delete_round rb x s) s t

round_left :
    (rb x p : ℕ) (s : Store)
    → x ≢ null
    → s.parent x ≡ p
    → s.left p ≡ x
    → delete_round rb x s ≡ side_round (left_side rb) x s
unfolding delete_round is_left parent
round_left rb x p s set l e = ground arith

round_right :
    (rb x p : ℕ) (s : Store)
    → x ≢ null
    → s.parent x ≡ p
    → s.left p ≢ x
    → delete_round rb x s ≡ side_round (right_side rb) x s
unfolding delete_round is_left parent
round_right rb x p s set l e = ground arith

-- What the right side says, said of the left one.
Higher-left :
    (rb : ℕ) (result : ℕ × Store) (s : Store) (t : Shape) (deep : ℕ)
    → Higher (right_side rb) result s (mirror t) deep
    → Higher (left_side rb) result s t deep
Higher-left rb result s t deep w = record {
  next = w.next;
  store = w.store;
  up = w.up;
  trail = mirror_trail w.trail;
  tree = mirror w.tree;
  h = w.h;
  is = w.is;
  lacking = Lacking-left rb w.store w.up w.next w.trail w.tree w.h w.lacking;
  kept =
      ap nodes (sym (mirror-plug w.trail w.tree)) ∙ nodes-exchange (plug w.trail w.tree) t w.kept;
  keys = w.keys;
  near = omega (arith, w.near, depth-mirror w.trail);
}

Over-left :
    (rb : ℕ) (result : ℕ × Store) (s : Store) (t : Shape)
    → Over (right_side rb) result s (mirror t)
    → Over (left_side rb) result s t
Over-left rb result s t w = record {
  next = w.next;
  store = w.store;
  tree = mirror w.tree;
  is = w.is;
  test = w.test;
  whole = Whole-left rb (set_black w.next w.store) w.tree w.whole;
  kept = nodes-exchange w.tree t w.kept;
  keys = w.keys;
}

-- Every round below a parent.
pub round_below :
    (rb : ℕ) (s : Store) (p x : ℕ) (c : Trail) (t : Shape) (h : ℕ)
    → c ≢ top
    → Lacking (left_side rb) s p x c t h
    → Rounded rb x s (plug c t) (depth c)
round_below rb s p x top t h deep v = absurd (deep refl)
round_below rb s p x (in_left a u up) t h deep v =
    let moved : Lacking (left_side rb) s a x (in_left a u up) t h =
      subst (λ q. Lacking (left_side rb) s q x (in_left a u up) t h) v.at.hangs.0 v in
    let e = round_left rb x a s (Lacking-set moved) moved.link v.at.hangs.1 in
    subst
      (λ r.
        Higher (left_side rb) r s (plug (in_left a u up) t) (suc (depth up))
        ⊎ Over (left_side rb) r s (plug (in_left a u up) t))
      (sym e) (sink_round (left_side rb) s a x u up t h moved)
round_below rb s p x (in_right u a up) t h deep v =
    let moved : Lacking (left_side rb) s a x (in_right u a up) t h =
      subst (λ q. Lacking (left_side rb) s q x (in_right u a up) t h) v.at.hangs.0 v in
    let other = Lacking-right rb s a x (in_right u a up) t h moved in
    let e =
      round_right rb x a s (Lacking-set moved) moved.link
        (far-apart (right_side rb) s a x (mirror u) (mirror_trail up) (mirror t) h other) in
    let sunk = sink_round (right_side rb) s a x (mirror u) (mirror_trail up) (mirror t) h other in
    let tree : mirror (plug (in_right u a up) t)
        ≡ plug (in_left a (mirror u) (mirror_trail up)) (mirror t) =
      mirror-plug (in_right u a up) t in
    subst
      (λ r.
        Higher (left_side rb) r s (plug (in_right u a up) t) (suc (depth up))
        ⊎ Over (left_side rb) r s (plug (in_right u a up) t))
      (sym e)
      (elim sunk [
        | inl w ↦ inl (
            Higher-left rb (side_round (right_side rb) x s) s (plug (in_right u a up) t)
              (suc (depth up))
              (subst
                (λ k.
                  Higher (right_side rb) (side_round (right_side rb) x s) s
                    (mirror (plug (in_right u a up) t)) (suc k))
                (depth-mirror up)
                (subst
                  (λ z.
                    Higher (right_side rb) (side_round (right_side rb) x s) s z
                      (suc (depth (mirror_trail up))))
                  (sym tree) w)))
        | inr w ↦ inr (
            Over-left rb (side_round (right_side rb) x s) s (plug (in_right u a up) t)
              (subst (λ z. Over (right_side rb) (side_round (right_side rb) x s) s z) (sym tree) w))
      ])

-- Where the loop's test holds.
pub goes_on :
    (rb : ℕ) (s : Store) (p x : ℕ) (c : Trail) (t : Shape) (h : ℕ)
    → Lacking (left_side rb) s p x c t h
    → c ≢ top
    → root_red s.color t ≡ false
    → (not (x == s.root rb) && is_black x s) ≡ true
goes_on rb s p x c t h v deep calm =
    let b =
      is_black-root s s.left s.right (nil rb) p x h t v.at.stands v.balanced v.sentinel
        (Lacking-set v) in
    let away = root_away in ground (arith, b, calm, away)
  where
    root_away : x ≢ s.root rb
    root_away e = elim (Hangs-root s.left s.right s.parent (nil rb) (s.root rb) p x c v.at.hangs) [
      | inl (_, _, z) ↦ deep z
      | inr (i, _) ↦ elim (Stands-root s.left s.right s.parent (nil rb) p x t v.at.stands) [
        | inl z ↦
            has-ne (s.root rb) (nil rb) (trail_nodes c) i
              (Hangs-stop s.left s.right s.parent (nil rb) (s.root rb) p x c v.at.hangs) (sym z ∙ e)
        | inr j ↦ has-ne (s.root rb) x (trail_nodes c) i ((Focus-Distinct v.at).2 x j) e
      ]
    ]

pub IsRbtree-Whole : (rb : ℕ) (s : Store) (t : Shape) → Whole (left_side rb) s t → IsRbtree s rb t
IsRbtree-Whole rb s t w = record {
  at = w.at;
  height = w.height;
  balanced = w.balanced;
  black_root = w.black_root;
  sentinel = w.sentinel;
}

pub delete_fix-stop :
    (f rb x : ℕ) (s : Store)
    → (not (x == s.root rb) && is_black x s) ≡ false
    → delete_fix (suc f) rb x s ≡ some (set_black x s)
unfolding delete_fix
delete_fix-stop f rb x s e = ground (arith, e)

pub delete_fix-step :
    (f rb x : ℕ) (s : Store)
    → (not (x == s.root rb) && is_black x s) ≡ true
    → delete_fix (suc f) rb x s ≡ delete_fix f rb (delete_round rb x s).0 (delete_round rb x s).1
unfolding delete_fix
delete_fix-step f rb x s e = ground (arith, e)

-- A red root of the subtree takes the lack.
pub finish_red :
    (rb : ℕ) (s : Store) (p x : ℕ) (c : Trail) (l : Shape) (a : ℕ) (r : Shape) (h : ℕ)
    → Lacking (left_side rb) s p x c (node l a r) h
    → s.color a ≡ red
    → Whole (left_side rb) (set_black x s) (plug c (node l a r))
unfolding set_black
finish_red rb s p x c l a r h v e =
    let color' : Field = paint x black s.color in
    let x_set = Lacking-set v in
    let x_a : x ≡ a = v.at.stands.0 in
    let off : (y : ℕ) → has y (a ∷ []) ≡ false → color' y ≡ s.color y =
      λ y i. ground (arith, x_a) in
    let now : color' a ≡ black = ground (arith, x_a) in
    At-Whole (left_side rb) (record s { color = color' }) p x (suc h) c (node l a r)
      (record { hangs = v.at.hangs; stands = v.at.stands; unique = v.at.unique })
      (elim v.balanced [
        | inl w ↦ inr (
          now,
          (
            h,
            refl,
            repaint-Balanced s.color color' (a ∷ []) off h l
                (λ b. omega (arith, v.at.unique b, count-append b (nodes l) (a ∷ nodes r))) w.3,
            repaint-Balanced s.color color' (a ∷ []) off h r
                (λ b. omega (arith, v.at.unique b, count-append b (nodes l) (a ∷ nodes r))) w.4,
          ),
        )
        | inr w ↦ absurd (clash (sym e ∙ w.0))
      ])
      (inl (ground (arith, now)))
      (repaint-Holds s.color color' (a ∷ []) off (suc h) c
        (λ b. omega (arith, v.at.unique b, count-append b (nodes l) (a ∷ nodes r))) v.holds)
      (off (nil rb) (ground (arith, v.at.stands.1)) ∙ v.sentinel)
  where
    clash : red ≡ black → ⊥
    clash z = ground arith

-- The root itself may lack a node.
pub finish_top :
    (rb : ℕ) (s : Store) (p x : ℕ) (t : Shape) (h : ℕ)
    → Lacking (left_side rb) s p x top t h
    → root_red s.color t ≡ false
    → Whole (left_side rb) (set_black x s) t
finish_top rb s p x t h v calm =
    subst (λ y. Whole (left_side rb) (set_black y s) t) (sym v.at.hangs.0)
      (Whole-set_black (left_side rb) s t
        (At-Whole (left_side rb) s p x h top t v.at v.balanced (inl calm) tt v.sentinel))
