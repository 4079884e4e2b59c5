-- ===== src/Rbtree/Grow.antt =====
-- The tree with the new node in `qp_rbtree_insert`, src/core/qp_memory_core.c, before the repair.
use qphi.Common.{
  ℕ, ◌<◌, ◌≡◌, ◌≢◌, ◌⊎◌, inl, inr, refl, ◌∙◌, sym, ap, subst, true, false, [], ◌∷◌, ◌++◌, All-has,
  has, has-append, arith,
}
use qphi.Memory.Chain.{Field, null, update}
use qphi.Memory.Ring.{has-ne}
use qphi.Rbtree.{Store, nil, red, black, is_red, parent}
use qphi.Rbtree.Shape.{Shape, leaf, node, nodes}
use qphi.Rbtree.Trail.{Trail, top, in_left, in_right, plug, trail_nodes}
use qphi.Rbtree.Turn.{IsAt}
use qphi.Rbtree.Climb.{Focus-plug}
use qphi.Rbtree.Balance.{root_red, head_black, Holds, Holds-same, Balanced-plug}
use qphi.Rbtree.Order.{Between, before}
use qphi.Rbtree.Settle.{Pending, IsRbtree}
use qphi.Rbtree.Hang.{
  hung_left, hung_right, hang-hung_left, hang-hung_right, grown_left, grown_right,
}
use qphi.Rbtree.Insert.{hang}

module _ (s : Store) (rb n : ℕ) (n_set : n ≢ null) (n_stop : n ≢ nil rb)
    (sentinel : s.color (nil rb) ≡ black) where
  new_color : update s.color n red n ≡ red
  new_color = ground arith

  new_Holds :
      (c : Trail)
      → has n (trail_nodes c) ≡ false
      → Holds s.color 0 c
      → Holds (update s.color n red) 0 c
  new_Holds c out v =
      Holds-same s.color (update s.color n red) 0 c
        (λ b i. let b_n = has-ne b n (trail_nodes c) i out in ground arith) v

  still_black : update s.color n red (nil rb) ≡ black
  still_black = ground (arith, sentinel, n_stop)

  -- Hung below `cur`, on the side that the trail says.
  pub hang-Pending :
      (cur : ℕ) (c : Trail)
      → c ≢ top
      → IsAt s rb cur (nil rb) c leaf
      → has n (trail_nodes c) ≡ false
      → Between s.key (s.key n) c
      → Holds s.color 0 c
      → Pending (hang rb n cur s) rb cur n c leaf leaf 0
        × ((hang rb n cur s).key ≡ s.key)
        × ((hang rb n cur s).color ≡ update s.color n red)
  hang-Pending cur top deep v out w holds = absurd (deep refl)
  hang-Pending cur (in_left a u up) deep v out w holds =
      let at_a = subst (λ q. IsAt s rb q (nil rb) (in_left a u up) leaf) v.hangs.0 v in
      let e = ap (λ q. hang rb n q s) v.hangs.0 ∙ hang-hung_left rb n a s w.1.0 n_set v.hangs.1 in
      let grown =
        grown_left s.left s.right s.parent (nil rb) (s.root rb) n n_set n_stop a u up at_a out in
      subst
        (λ q.
          Pending q rb cur n (in_left a u up) leaf leaf 0
          × (q.key ≡ s.key)
          × (q.color ≡ update s.color n red))
        (sym e)
        (
          subst (λ q. Pending (hung_left rb n a s) rb q n (in_left a u up) leaf leaf 0)
              (sym v.hangs.0)
              (record {
                at = record { hangs = grown.hangs; stands = grown.stands; unique = grown.unique };
                red_n = new_color;
                calm_l = refl;
                calm_r = refl;
                balanced_l = refl;
                balanced_r = refl;
                holds = new_Holds (in_left a u up) out holds;
                sentinel = still_black;
              }),
          refl,
          refl,
        )
  hang-Pending cur (in_right u a up) deep v out w holds =
      let at_a = subst (λ q. IsAt s rb q (nil rb) (in_right u a up) leaf) v.hangs.0 v in
      let lower : s.key a < s.key n =
        All-has (λ b. s.key b < s.key n) a (before up ++ (nodes u ++ a ∷ [])) w.0
          (ground (
            arith,
            has-append a (before up) (nodes u ++ a ∷ []),
            has-append a (nodes u) (a ∷ []),
          )) in
      let e = ap (λ q. hang rb n q s) v.hangs.0 ∙ hang-hung_right rb n a s lower n_set v.hangs.1 in
      let grown =
        grown_right s.left s.right s.parent (nil rb) (s.root rb) n n_set n_stop a u up at_a out in
      subst
        (λ q.
          Pending q rb cur n (in_right u a up) leaf leaf 0
          × (q.key ≡ s.key)
          × (q.color ≡ update s.color n red))
        (sym e)
        (
          subst (λ q. Pending (hung_right rb n a s) rb q n (in_right u a up) leaf leaf 0)
              (sym v.hangs.0)
              (record {
                at = record { hangs = grown.hangs; stands = grown.stands; unique = grown.unique };
                red_n = new_color;
                calm_l = refl;
                calm_r = refl;
                balanced_l = refl;
                balanced_r = refl;
                holds = new_Holds (in_right u a up) out holds;
                sentinel = still_black;
              }),
          refl,
          refl,
        )

-- The root is the same, whatever stands in a place below it.
root_red-plug :
    (color : Field) (c : Trail) (t u : Shape)
    → c ≢ top
    → root_red color (plug c t) ≡ root_red color (plug c u)
root_red-plug color top t u deep = absurd (deep refl)
root_red-plug color (in_left a w top) t u deep = refl
root_red-plug color (in_right w a top) t u deep = refl
root_red-plug color (in_left a w (in_left b x up)) t u deep =
    root_red-plug color (in_left b x up) (node t a w) (node u a w) (λ e. ground arith)
root_red-plug color (in_left a w (in_right x b up)) t u deep =
    root_red-plug color (in_right x b up) (node t a w) (node u a w) (λ e. ground arith)
root_red-plug color (in_right w a (in_left b x up)) t u deep =
    root_red-plug color (in_left b x up) (node w a t) (node w a u) (λ e. ground arith)
root_red-plug color (in_right w a (in_right x b up)) t u deep =
    root_red-plug color (in_right x b up) (node w a t) (node w a u) (λ e. ground arith)

-- The color of the parent of a node that waits for repair.
pub parent_color :
    (s : Store) (rb p n : ℕ) (c : Trail) (l r : Shape) (h : ℕ)
    → c ≢ top
    → Pending s rb p n c l r h
    → (is_red (parent n s) s ≡ true)
      ⊎ (is_red (parent n s) s ≡ false) × (head_black s.color c ≡ true)
unfolding is_red parent
parent_color s rb p n top l r h deep v = absurd (deep refl)
parent_color s rb p n (in_left a u up) l r h deep v = elim v.holds.1 [
  | inl w ↦ inl (ground (arith, w.0, v.at.hangs.0, v.at.hangs.3, v.at.stands.2, v.at.stands.3))
  | inr w ↦ inr (
    ground (arith, w.0, v.at.hangs.0, v.at.hangs.3, v.at.stands.2, v.at.stands.3),
    ground (arith, w.0),
  )
]
parent_color s rb p n (in_right u a up) l r h deep v = elim v.holds.1 [
  | inl w ↦ inl (ground (arith, w.0, v.at.hangs.0, v.at.hangs.3, v.at.stands.2, v.at.stands.3))
  | inr w ↦ inr (
    ground (arith, w.0, v.at.hangs.0, v.at.hangs.3, v.at.stands.2, v.at.stands.3),
    ground (arith, w.0),
  )
]

-- Below a black parent the tree is one already.
pub Pending-IsRbtree :
    (s : Store) (rb p n : ℕ) (c : Trail) (l r : Shape) (h : ℕ)
    → c ≢ top
    → Pending s rb p n c l r h
    → head_black s.color c ≡ true
    → root_red s.color (plug c leaf) ≡ false
    → IsRbtree s rb (plug c (node l n r))
Pending-IsRbtree s rb p n c l r h deep v hb calm =
    let whole =
      Balanced-plug s.color h c (node l n r)
        (inl (v.red_n, v.calm_l, v.calm_r, v.balanced_l, v.balanced_r)) (inr hb) v.holds in
    record {
      at = Focus-plug s.left s.right s.parent (nil rb) (s.root rb) p n c (node l n r) v.at;
      height = whole.0;
      balanced = whole.1;
      black_root = root_red-plug s.color c (node l n r) leaf deep ∙ calm;
      sentinel = v.sentinel;
    }
