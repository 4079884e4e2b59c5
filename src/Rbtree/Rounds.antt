-- ===== src/Rbtree/Rounds.antt =====
-- A whole round of `qp_rbtree_delete_fix`, src/core/qp_memory_core.c, from one side.
use qphi.Common.{
  ℕ, suc, ◌≡◌, ◌≢◌, inl, inr, refl, ◌∙◌, sym, ap, subst, true, false, not, ◌∷◌, ◌++◌, arith,
  ℕ_discrete,
}
use qphi.Memory.Chain.{Field}
use qphi.Rbtree.{Store, red, black, paint, set_red, set_black, is_black, brother}
use qphi.Rbtree.Shape.{Shape, leaf, node, nodes}
use qphi.Rbtree.Trail.{Trail, in_left, plug}
use qphi.Rbtree.Climb.{nodes-plug, nodes_turn}
use qphi.Rbtree.Balance.{root_red}
use qphi.Rbtree.Round.{look, depth}
use qphi.Rbtree.Sides.{Side}
use qphi.Rbtree.Lacking.{Lacking, Lacking-set, brother-far}
use qphi.Rbtree.Lift.{lifted, lift_brother-black}
use qphi.Rbtree.Sink.{Ready, Sunk, side_round, Over, sink, near_test, far_test, brother_is}
use qphi.Rbtree.Spread.{spread-Over, brother-paint}
use qphi.Rbtree.Inner.{inner, inner_store, inner-Lacking}
use qphi.Rbtree.Delete.{lift_brother, delete_side, last_turn}

delete_side-turn :
    (to off : ℕ → Store → Store) (near far : Store → ℕ → ℕ) (rb x b : ℕ) (s s1 : Store)
    → lift_brother to x s ≡ s1
    → brother x s1 ≡ b
    → is_black (far s1 b) s1 ≡ false
    → delete_side to off near far rb x s ≡ last_turn to (λ q. far q (brother x q)) rb x s1
unfolding delete_side
delete_side-turn to off near far rb x b s s1 lift e f = ground arith

delete_side-inner :
    (to off : ℕ → Store → Store) (near far : Store → ℕ → ℕ) (rb x b e : ℕ) (s s1 : Store)
    → lift_brother to x s ≡ s1
    → brother x s1 ≡ b
    → near s1 b ≡ e
    → is_black e s1 ≡ false
    → is_black (far s1 b) s1 ≡ true
    → brother x (record s1 { color = paint e black s1.color }) ≡ b
    → brother x (record s1 { color = inner e b s1.color }) ≡ b
    → delete_side to off near far rb x s
      ≡ last_turn to
          (λ q. far q (brother x q))
          rb
          x
          (off b (record s1 { color = inner e b s1.color }))
unfolding delete_side set_black set_red
delete_side-inner to off near far rb x b e s s1 lift b_is e_is n f p q = ground arith

-- What a turn of the lifted store comes to.
Over-after :
    {rb : ℕ} (d : Side rb) (x : ℕ) (s s1 : Store) (t t0 : Shape) (deep : ℕ) (result : ℕ × Store)
    → side_round d x s ≡ result
    → nodes t ≡ nodes t0
    → s1.key ≡ s.key
    → Over d result s1 t
    → Sunk d x s t0 deep
Over-after {rb} d x s s1 t t0 deep result e same keys w = inr (record {
  next = w.next;
  store = w.store;
  tree = w.tree;
  is = e ∙ w.is;
  test = w.test;
  whole = w.whole;
  kept = w.kept ∙ same;
  keys = w.keys ∙ keys;
})

module _ {rb : ℕ} (d : Side rb) (s s1 : Store) (p x : ℕ) where
  -- A red far child.
  sink_turn :
      (ul : Shape) (b : ℕ) (m : Shape) (f : ℕ) (n : Shape) (up : Trail) (t : Shape) (h : ℕ)
      (t0 : Shape) (deep : ℕ)
      → Ready d s s1 p x ul b (node m f n) up t h t0 deep
      → s1.color f ≡ red
      → Sunk d x s t0 deep
  sink_turn ul b m f n up t h t0 deep v f_red =
      Over-after d x s s1 (plug (in_left p (node ul b (node m f n)) up) t) t0 deep
        (last_turn d.to (λ q. d.far q (brother x q)) rb x s1)
        (delete_side-turn d.to d.off d.near d.far rb x b s s1 v.lift
          (brother_is d s s1 p x ul b (node m f n) up t h t0 deep v)
          (far_test d s s1 p x ul b (node m f n) up t h t0 deep v
            ∙ ap not (red_root s1.color m f n f_red)))
        v.kept v.keys (spread-Over d s1 p x ul b m f n up t h v.lacking v.black_b f_red)
    where
      red_root :
          (color : Field) (m : Shape) (f : ℕ) (n : Shape)
          → color f ≡ red
          → root_red color (node m f n) ≡ true
      red_root color m f n e = ground arith

  -- A red near child and a black far one.
  sink_inner :
      (m : Shape) (e : ℕ) (n : Shape) (b : ℕ) (ur : Shape) (up : Trail) (t : Shape) (h : ℕ)
      (t0 : Shape) (deep : ℕ)
      → Ready d s s1 p x (node m e n) b ur up t h t0 deep
      → s1.color e ≡ red
      → root_red s1.color ur ≡ false
      → Sunk d x s t0 deep
  sink_inner m e n b ur up t h t0 deep v e_red calm =
      let s2 : Store = inner_store d s1 p x m e n b ur up t h v.lacking v.black_b e_red calm in
      let w = inner-Lacking d s1 p x m e n b ur up t h v.lacking v.black_b e_red calm in
      let b_is = brother_is d s s1 p x (node m e n) b ur up t h t0 deep v in
      let e_is : d.near s1 b ≡ e = v.lacking.at.hangs.4.4.0 in
      Over-after d x s s2 (plug (in_left p (node m e (node n b ur)) up) t) t0 deep
        (last_turn d.to (λ q. d.far q (brother x q)) rb x s2)
        (delete_side-inner d.to d.off d.near d.far rb x b e s s1 v.lift b_is e_is
          (subst (λ y. is_black y s1 ≡ false) e_is
            (near_test d s s1 p x (node m e n) b ur up t h t0 deep v
              ∙ ap not (red_root s1.color m e n e_red)))
          (far_test d s s1 p x (node m e n) b ur up t h t0 deep v ∙ ap not calm)
          (brother-paint s1 (paint e black s1.color) x ∙ b_is)
          (brother-paint s1 (inner e b s1.color) x ∙ b_is))
        (nodes-plug up (node t p (node m e (node n b ur))) (node t p (node (node m e n) b ur))
            (ap (λ xs. nodes t ++ p ∷ xs) (sym (nodes_turn m e n b ur)))
          ∙ v.kept)
        (w.3 ∙ v.keys) (spread-Over d s2 p x m e n b ur up t h w.0 w.1 w.2)
    where
      red_root :
          (color : Field) (m : Shape) (f : ℕ) (n : Shape)
          → color f ≡ red
          → root_red color (node m f n) ≡ true
      red_root color m f n e = ground arith

  -- A black brother.
  pub sink_black :
      (ul : Shape) (b : ℕ) (ur : Shape) (up : Trail) (t : Shape) (h : ℕ) (t0 : Shape) (deep : ℕ)
      → Ready d s s1 p x ul b ur up t h t0 deep
      → Sunk d x s t0 deep
  sink_black ul b ur up t h t0 deep v = elim (look s1.color ur) [
    | inl (m, f, n, e, f_red) ↦
        sink_turn ul b m f n up t h t0 deep
          (subst (λ u. Ready d s s1 p x ul b u up t h t0 deep) e v) f_red
    | inr ur_calm ↦ elim (look s1.color ul) [
      | inl (m, f, n, e, f_red) ↦
          sink_inner m f n b ur up t h t0 deep
            (subst (λ u. Ready d s s1 p x u b ur up t h t0 deep) e v) f_red ur_calm
      | inr ul_calm ↦ sink d s s1 p x ul b ur up t h t0 deep v ul_calm ur_calm
    ]
  ]

-- Behind the lifting of a red brother.
sink_lifted :
    {rb : ℕ} (d : Side rb) (s s1 : Store) (p x : ℕ) (ul : Shape) (b : ℕ) (ur : Shape) (up : Trail)
    (t : Shape) (h : ℕ)
    → lift_brother d.to x s ≡ s1
    → Lacking d s1 p x (in_left p ul (in_left b ur up)) t h
    → root_red s1.color ul ≡ false
    → s1.color p ≡ red
    → s1.key ≡ s.key
    → Sunk d x s (plug (in_left p (node ul b ur) up) t) (suc (depth up))
sink_lifted d s s1 p x leaf b ur up t h lift v calm p_red keys = absurd (omega (arith, v.holds.0))
sink_lifted d s s1 p x (node m e n) b ur up t h lift v calm p_red keys =
    sink_black d s s1 p x m e n (in_left b ur up) t h
      (plug (in_left p (node (node m e n) b ur) up) t) (suc (depth up))
      (record {
        lift = lift;
        lacking = v;
        black_b = ground (arith, v.holds.0, calm);
        kept =
            nodes-plug up (node (node t p (node m e n)) b ur) (node t p (node (node m e n) b ur))
              (nodes_turn t p (node m e n) b ur);
        keys = keys;
        room = inl p_red;
      })

-- Every round below a parent, from the near side.
pub sink_round :
    {rb : ℕ} (d : Side rb) (s : Store) (p x : ℕ) (u : Shape) (up : Trail) (t : Shape) (h : ℕ)
    → Lacking d s p x (in_left p u up) t h
    → Sunk d x s (plug (in_left p u up) t) (suc (depth up))
sink_round {rb} d s p x leaf up t h v = absurd (omega (arith, v.holds.0))
sink_round {rb} d s p x (node ul b ur) up t h v = elim (ℕ_discrete (s.color b) red) [
  | yes b_red ↦
      (let w = lifted d s p x ul b ur up t h v b_red in
        sink_lifted d s w.0 p x ul b ur up t h w.1 w.2 w.3 w.4 w.5)
  | no not_red ↦
      sink_black d s s p x ul b ur up t h (plug (in_left p (node ul b ur) up) t) (suc (depth up))
        (record {
          lift =
              lift_brother-black d.to s x b
                (brother-far d s p x ul b ur up t v.at v.link (Lacking-set v)) (b_black not_red);
          lacking = v;
          black_b = b_black not_red;
          kept = refl;
          keys = refl;
          room = inr (omega arith);
        })
]
  where
    b_black : s.color b ≢ red → s.color b ≡ black
    b_black ne = ground (arith, v.holds.0)
