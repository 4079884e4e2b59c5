-- ===== src/Rbtree/Spread.antt =====
-- The last turn of `qp_rbtree_delete_fix`, src/core/qp_memory_core.c: the brother is black and its far
-- child is red.
use qphi.Common.{
  ℕ, suc, ◌+◌, ◌≤◌, ◌≡◌, ◌≢◌, ◌⊎◌, inl, inr, refl, ◌∙◌, sym, ap, subst, true, false, [], ◌∷◌, ◌++◌,
  has, count, count-append, arith, ◌==◌,
}
use qphi.Memory.Chain.{Field, null}
use qphi.Rbtree.{
  Store, nil, red, black, paint, set_red, set_black, is_black, is_left, brother, parent,
}
use qphi.Rbtree.Shape.{Shape, leaf, node, nodes}
use qphi.Rbtree.Trail.{Trail, top, in_left, plug, trail_nodes}
use qphi.Rbtree.Climb.{nodes-plug, nodes_turn}
use qphi.Rbtree.Balance.{root_red, Balanced, head_black, Holds, Balanced-same, root_red_same}
use qphi.Rbtree.Repaint.{repaint-Balanced, repaint-Holds, repaint-head_black}
use qphi.Rbtree.Sides.{Side}
use qphi.Rbtree.Lacking.{Lacking, Lacking-set, brother-far}
use qphi.Rbtree.Lift.{At-up}
use qphi.Rbtree.Sink.{Whole, At-Whole, Over, black_far}
use qphi.Rbtree.Delete.{hand_color, end_turn, last_turn}
use qphi.Rbtree.LeftRounds.{parent_lem}

-- The last assignment changes nothing on a black root.
pub Whole-set_black :
    {rb : ℕ} (d : Side rb) (s : Store) (t : Shape)
    → Whole d s t
    → Whole d (set_black (s.root rb) s) t
unfolding set_black
Whole-set_black {rb} d s t v =
    let color' : Field = paint (s.root rb) black s.color in
    let same : (y : ℕ) → color' y ≡ s.color y = λ y. ground (arith, root_black t v) in
    record {
      at = d.painted-Focus s color' (nil rb) (s.root rb) top t v.at;
      height = v.height;
      balanced = Balanced-same s.color color' v.height t (λ y i. same y) v.balanced;
      black_root = root_red_same s.color color' t (λ y i. same y) ∙ v.black_root;
      sentinel = same (nil rb) ∙ v.sentinel;
    }
  where
    root_black : (t : Shape) → Whole d s t → s.color (s.root rb) ≡ black
    root_black leaf v = ap s.color v.at.stands ∙ v.sentinel
    root_black (node l a r) v = ground (arith, v.at.stands.0, v.balanced, v.black_root)

-- Painting leaves the brother.
pub brother-paint :
    (s : Store) (f : Field) (x : ℕ) → brother x (record s { color = f }) ≡ brother x s
unfolding brother is_left parent
brother-paint s f x = refl

-- The colors: the brother takes its parent's.
abbrev pub spread : (p b f k : ℕ) → Field → Field
spread p b f k color = paint f black (paint p black (paint b k color))

hand_color_lem :
    (x p b k : ℕ) (s : Store)
    → brother x s ≡ b
    → s.color p ≡ k
    → (k ≡ red) ⊎ (k ≡ black)
    → b ≢ null
    → p ≢ null
    → parent x s ≡ p
    → hand_color x s ≡ record s { color = paint b k s.color }
unfolding hand_color is_black set_black set_red
hand_color_lem x p b k s e p_k k_is b_set p_set l = ground arith

end_turn_lem :
    (to : ℕ → Store → Store) (far : Store → ℕ) (rb x p f : ℕ) (s : Store)
    → far (record s { color = paint p black s.color }) ≡ f
    → x ≢ null
    → s.parent x ≡ p
    → end_turn to far rb x s ≡ (
      (to p (record s { color = paint f black (paint p black s.color) })).root rb,
      to p (record s { color = paint f black (paint p black s.color) }),
    )
unfolding end_turn set_black
end_turn_lem to far rb x p f s far_is set l =
    let go : ℕ → ℕ × Store = λ q.
      let s4 : Store = to q (record s { color = paint f black (paint p black s.color) }) in
      (s4.root rb, s4) in
    ap (λ q. rest (set_black q s)) (parent_lem s x p set l)
    ∙ ap (λ g. last (set_black g (record s { color = paint p black s.color }))) far_is
    ∙ ap go (parent_lem (record s { color = paint f black (paint p black s.color) }) x p set l)
  where
    last : Store → ℕ × Store
    last t = let s4 : Store = to (parent x t) t in (s4.root rb, s4)

    rest : Store → ℕ × Store
    rest t = last (set_black (far t) t)

last_turn_lem :
    (to : ℕ → Store → Store) (far : Store → ℕ) (rb x p b f k : ℕ) (s : Store)
    → brother x s ≡ b
    → far (record s { color = paint p black (paint b k s.color) }) ≡ f
    → s.color p ≡ k
    → (k ≡ red) ⊎ (k ≡ black)
    → b ≢ null
    → p ≢ null
    → x ≢ null
    → s.parent x ≡ p
    → last_turn to far rb x s ≡ (
      (to p (record s { color = spread p b f k s.color })).root rb,
      to p (record s { color = spread p b f k s.color }),
    )
unfolding last_turn
last_turn_lem to far rb x p b f k s e far_is p_k k_is b_set p_set x_set l =
    ap (λ t. end_turn to far rb x t)
      (hand_color_lem x p b k s e p_k k_is b_set p_set (parent_lem s x p x_set l))
    ∙ end_turn_lem to far rb x p f (record s { color = paint b k s.color }) far_is x_set l

module _ {rb : ℕ} (d : Side rb) (s : Store) (p x : ℕ) (ul : Shape) (b : ℕ) (m : Shape) (f : ℕ)
    (n : Shape) (up : Trail) (t : Shape) (h : ℕ)
    (v : Lacking d s p x (in_left p (node ul b (node m f n)) up) t h) (b_black : s.color b ≡ black)
    (f_red : s.color f ≡ red) where
  abbrev new_color : Field
  new_color = spread p b f (s.color p) s.color

  abbrev painted : Store
  painted = record s { color = new_color }

  abbrev turned_store : Store
  turned_store = d.to p painted

  spread_total :
      (a : ℕ)
      → count a (nodes t)
          + count a (trail_nodes up)
          + count a (nodes ul)
          + count a (nodes m)
          + count a (nodes n)
          + count a (p ∷ b ∷ f ∷ [])
        ≤ 1
  spread_total a = omega (
    arith,
    v.at.unique a,
    count-append a (nodes ul ++ b ∷ (nodes m ++ f ∷ nodes n)) (trail_nodes up),
    count-append a (nodes ul) (b ∷ (nodes m ++ f ∷ nodes n)),
    count-append a (nodes m) (f ∷ nodes n),
  )

  sets : (p ≢ null) × (b ≢ null) × (f ≢ null)
  sets = (v.at.hangs.3, v.at.hangs.4.2, v.at.hangs.4.5.2)

  apart : (p ≢ b) × (p ≢ f) × (b ≢ f)
  apart = (
    λ e. let k = spread_total p in ground arith,
    λ e. let k = spread_total p in ground arith,
    λ e. let k = spread_total b in ground arith,
  )

  spread_off : (y : ℕ) → has y (p ∷ b ∷ f ∷ []) ≡ false → new_color y ≡ s.color y
  spread_off y e = ground arith

  spread_now : (new_color p ≡ black) × (new_color b ≡ s.color p) × (new_color f ≡ black)
  spread_now = ground (arith, sets, apart)

  spread_round :
      last_turn d.to (λ q. d.far q (brother x q)) rb x s ≡ (turned_store.root rb, turned_store)
  spread_round =
      let far = black_far s.color h p ul b (node m f n) up b_black v.holds in
      let b_is = brother-far d s p x ul b (node m f n) up t v.at v.link (Lacking-set v) in
      let mid : Field = paint p black (paint b (s.color p) s.color) in
      let seen = d.painted-Focus s mid p x (in_left p (node ul b (node m f n)) up) t v.at in
      last_turn_lem d.to (λ q. d.far q (brother x q)) rb x p b f (s.color p) s b_is
        (ap (d.far (record s { color = mid })) (brother-paint s mid x ∙ b_is) ∙ seen.hangs.4.5.0)
        refl (elim far.2 [ inl w ↦ inl w.0 | inr w ↦ inr w.0 ]) sets.1 sets.0 (Lacking-set v) v.link

  spread_side :
      (h' : ℕ) (u : Shape)
      → ((a : ℕ) → count a (nodes u) + count a (p ∷ b ∷ f ∷ []) ≤ 1)
      → Balanced s.color h' u
      → Balanced new_color h' u
  spread_side h' u = repaint-Balanced s.color new_color (p ∷ b ∷ f ∷ []) spread_off h' u

  -- The three nodes with the subtrees, in their new order.
  spread_parts : Balanced new_color (suc h) (node t p ul) × Balanced new_color (suc h) (node m f n)
  spread_parts =
      let far = black_far s.color h p ul b (node m f n) up b_black v.holds in
      (
        inr (
          spread_now.0,
          (
            h,
            refl,
            spread_side h t (λ a. omega (arith, spread_total a)) v.balanced,
            spread_side h ul (λ a. omega (arith, spread_total a)) far.0,
          ),
        ),
        elim far.1 [
          | inl w ↦ inr (
            spread_now.2,
            (
              h,
              refl,
              spread_side h m (λ a. omega (arith, spread_total a)) w.3,
              spread_side h n (λ a. omega (arith, spread_total a)) w.4,
            ),
          )
          | inr w ↦ absurd (no_color s.color f f_red w.0)
        ],
      )
    where
      no_color : (color : Field) (p : ℕ) → color p ≡ red → color p ≡ black → ⊥
      no_color color p e f = ground arith

  spread_above : (j : ℕ) → Holds s.color j up → Holds new_color j up
  spread_above j =
      repaint-Holds s.color new_color (p ∷ b ∷ f ∷ []) spread_off j up
        (λ a. omega (arith, spread_total a))

  spread-Whole : Whole d turned_store (plug up (node (node t p ul) b (node m f n)))
  spread-Whole =
      let far = black_far s.color h p ul b (node m f n) up b_black v.holds in
      let same = sym (d.to_kept p painted).0 in
      let seen = d.painted-Focus s new_color p x (in_left p (node ul b (node m f n)) up) t v.at in
      let turned =
        d.to-Focus painted (s.parent p) p b t ul (node m f n) up
          (At-up d painted p x (node ul b (node m f n)) up t seen) in
      let make : (j : ℕ)
          → Balanced new_color j (node (node t p ul) b (node m f n))
          → (root_red new_color (node (node t p ul) b (node m f n)) ≡ false)
            ⊎ (head_black new_color up ≡ true)
          → Holds new_color j up
          → Whole d turned_store (plug up (node (node t p ul) b (node m f n))) =
        λ j bal calm above.
          At-Whole d turned_store (s.parent p) b j up (node (node t p ul) b (node m f n)) turned
            (subst (λ c. Balanced c j (node (node t p ul) b (node m f n))) same bal)
            (subst
              (λ c.
                (root_red c (node (node t p ul) b (node m f n)) ≡ false) ⊎ (head_black c up ≡ true))
              same calm)
            (subst (λ c. Holds c j up) same above)
            (subst (λ c. c (nil rb) ≡ black) same
              (spread_off (nil rb) (not_stop p b f v.at.hangs.2 v.at.hangs.4.1 v.at.hangs.4.5.1)
                ∙ v.sentinel)) in
      elim far.2 [
        | inl (p_red, hb, above) ↦
            make (suc h)
              (inl (
                spread_now.1 ∙ p_red,
                black_test new_color p spread_now.0,
                black_test new_color f spread_now.2,
                spread_parts.0,
                spread_parts.1,
              ))
              (inr (
                repaint-head_black s.color new_color (p ∷ b ∷ f ∷ []) spread_off up
                  (λ a. omega (arith, spread_total a))
                ∙ hb))
              (spread_above (suc h) above)
        | inr (p_black, above) ↦
            make (suc (suc h))
              (inr (spread_now.1 ∙ p_black, (suc h, refl, spread_parts.0, spread_parts.1)))
              (inl (black_test new_color b (spread_now.1 ∙ p_black)))
              (spread_above (suc (suc h)) above)
      ]
    where
      black_test : (color : Field) (b : ℕ) → color b ≡ black → (color b == red) ≡ false
      black_test color b e = ground arith

      not_stop :
          (p b f : ℕ) → p ≢ nil rb → b ≢ nil rb → f ≢ nil rb → has (nil rb) (p ∷ b ∷ f ∷ []) ≡ false
      not_stop p b f i j k = ground arith

  -- The loop ends with a red-black tree.
  pub spread-Over :
      Over d
        (last_turn d.to (λ q. d.far q (brother x q)) rb x s)
        s
        (plug (in_left p (node ul b (node m f n)) up) t)
  spread-Over = record {
    next = turned_store.root rb;
    store = turned_store;
    tree = plug up (node (node t p ul) b (node m f n));
    is = spread_round;
    test = ground arith;
    whole =
        Whole-set_black d turned_store (plug up (node (node t p ul) b (node m f n))) spread-Whole;
    kept =
        nodes-plug up (node (node t p ul) b (node m f n)) (node t p (node ul b (node m f n)))
          (nodes_turn t p ul b (node m f n));
    keys = (d.to_kept p painted).1;
  }
