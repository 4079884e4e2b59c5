-- ===== src/Rbtree/Sink.antt =====
-- A round of `qp_rbtree_delete_fix`, src/core/qp_memory_core.c, in which the brother and its children
-- are black: the brother becomes red, and the parent is next.
use qphi.Common.{
  ℕ, suc, ◌+◌, ◌<◌, ◌≤◌, ◌≡◌, ◌≢◌, ◌⊎◌, inl, inr, refl, ◌∙◌, sym, ap, subst, true, false, not, ◌&&◌,
  List, [], ◌∷◌, ◌++◌, has, count, count-append, arith, ◌==◌,
}
use qphi.Memory.Chain.{Field, null}
use qphi.Rbtree.{Store, nil, red, black, paint, set_red, set_black, is_black, brother, parent}
use qphi.Rbtree.Shape.{Shape, node, nodes}
use qphi.Rbtree.Trail.{Trail, top, in_left, in_right, plug, trail_nodes}
use qphi.Rbtree.Climb.{Focus-plug}
use qphi.Rbtree.Balance.{root_red, Balanced, head_black, Holds, Balanced-plug}
use qphi.Rbtree.Repaint.{repaint-Balanced, repaint-Holds, repaint-root_red}
use qphi.Rbtree.Round.{depth}
use qphi.Rbtree.Sides.{Side}
use qphi.Rbtree.Lacking.{At, Lacking, Lacking-set, Stands-set, brother-far, is_black-root}
use qphi.Rbtree.Lift.{At-up}
use qphi.Rbtree.Delete.{lift_brother, delete_side}

-- A red-black tree, seen from one side.
pub record Whole {rb : ℕ} (d : Side rb) (s : Store) (t : Shape) : Type 0 where
  pub at : At d s (nil rb) (s.root rb) top t
  pub height : ℕ
  pub balanced : Balanced s.color height t
  pub black_root : root_red s.color t ≡ false
  pub sentinel : s.color (nil rb) ≡ black

-- The root of a tree is black.
crown :
    (color : Field) (h : ℕ) (c : Trail) (t : Shape)
    → (root_red color t ≡ false) ⊎ (head_black color c ≡ true)
    → Holds color h c
    → root_red color (plug c t) ≡ false
crown color h top t calm v = ground arith
crown color h (in_left a u up) t calm (b, inl (c, rt, hb, w)) =
    crown color h up (node t a u) (inr hb) w
crown color h (in_left a u up) t calm (b, inr (c, w)) =
    crown color (suc h) up (node t a u) (inl (ground (arith, c))) w
crown color h (in_right u a up) t calm (b, inl (c, rt, hb, w)) =
    crown color h up (node u a t) (inr hb) w
crown color h (in_right u a up) t calm (b, inr (c, w)) =
    crown color (suc h) up (node u a t) (inl (ground (arith, c))) w

-- A balanced subtree that its place fits makes the whole tree one.
pub At-Whole :
    {rb : ℕ} (d : Side rb) (s : Store) (p x h : ℕ) (c : Trail) (t : Shape)
    → At d s p x c t
    → Balanced s.color h t
    → (root_red s.color t ≡ false) ⊎ (head_black s.color c ≡ true)
    → Holds s.color h c
    → s.color (nil rb) ≡ black
    → Whole d s (plug c t)
At-Whole {rb} d s p x h c t v b calm holds sentinel =
    let whole = Balanced-plug s.color h c t b calm holds in
    record {
      at = Focus-plug (d.near s) (d.far s) s.parent (nil rb) (s.root rb) p x c t v;
      height = whole.0;
      balanced = whole.1;
      black_root = crown s.color h c t calm holds;
      sentinel = sentinel;
    }

-- The loop goes on higher up.
pub record Higher {rb : ℕ} (d : Side rb) (result : ℕ × Store) (s : Store) (t : Shape) (deep : ℕ)
    : Type 0 where
  pub next : ℕ
  pub store : Store
  pub up : ℕ
  pub trail : Trail
  pub tree : Shape
  pub h : ℕ
  pub is : result ≡ (next, store)
  pub lacking : Lacking d store up next trail tree h
  pub kept : nodes (plug trail tree) ≡ nodes t
  pub keys : store.key ≡ s.key
  pub near : depth trail < deep

-- The loop ends, and its last assignment makes a red-black tree.
pub record Over {rb : ℕ} (d : Side rb) (result : ℕ × Store) (s : Store) (t : Shape) : Type 0 where
  pub next : ℕ
  pub store : Store
  pub tree : Shape
  pub is : result ≡ (next, store)
  pub test : (not (next == store.root rb) && is_black next store) ≡ false
  pub whole : Whole d (set_black next store) tree
  pub kept : nodes tree ≡ nodes t
  pub keys : store.key ≡ s.key

-- The subtrees of a black brother, and what is above.
pub black_far :
    (color : Field) (h p : ℕ) (ul : Shape) (b : ℕ) (ur : Shape) (up : Trail)
    → color b ≡ black
    → Holds color (suc h) (in_left p (node ul b ur) up)
    → Balanced color h ul
      × Balanced color h ur
      × ((color p ≡ red) × (head_black color up ≡ true) × Holds color (suc h) up
          ⊎ (color p ≡ black) × Holds color (suc (suc h)) up)
black_far color h p ul b ur up c (inl w, z) = absurd (clash (sym c ∙ w.0))
  where
    clash : black ≡ red → ⊥
    clash e = ground arith
black_far color h p ul b ur up c (inr (_, (k, e, bl, br)), z) =
    let k_h : k ≡ h = omega (arith, e) in
    (
      subst (λ j. Balanced color j ul) k_h bl,
      subst (λ j. Balanced color j ur) k_h br,
      elim z [ inl w ↦ inl (w.0, w.2, w.3) | inr w ↦ inr w ],
    )

-- What the round is.
delete_side-sink :
    (to off : ℕ → Store → Store) (near far : Store → ℕ → ℕ) (rb x p b : ℕ) (s s1 : Store)
    → lift_brother to x s ≡ s1
    → brother x s1 ≡ b
    → is_black (near s1 b) s1 ≡ true
    → is_black (far s1 b) s1 ≡ true
    → b ≢ null
    → x ≢ null
    → s1.parent x ≡ p
    → delete_side to off near far rb x s ≡ (p, record s1 { color = paint b red s1.color })
unfolding delete_side set_red parent
delete_side-sink to off near far rb x p b s s1 lift e n f b_set x_set l = ground arith

-- The round behind the lifting of the brother: `s1` is the store now, `t0` the tree before.
pub record Ready {rb : ℕ} (d : Side rb) (s s1 : Store) (p x : ℕ) (ul : Shape) (b : ℕ) (ur : Shape)
    (up : Trail) (t : Shape) (h : ℕ) (t0 : Shape) (deep : ℕ) : Type 0 where
  pub lift : lift_brother d.to x s ≡ s1
  pub lacking : Lacking d s1 p x (in_left p (node ul b ur) up) t h
  pub black_b : s1.color b ≡ black
  pub kept : nodes (plug (in_left p (node ul b ur) up) t) ≡ nodes t0
  pub keys : s1.key ≡ s.key
  pub room : (s1.color p ≡ red) ⊎ (depth up < deep)

-- The round of one side.
abbrev pub side_round : {rb : ℕ} → Side rb → ℕ → Store → ℕ × Store
side_round {rb} d x s = delete_side d.to d.off d.near d.far rb x s

abbrev pub Sunk : {rb : ℕ} → Side rb → ℕ → Store → Shape → ℕ → Type 0
Sunk {rb} d x s t0 deep = Higher d (side_round d x s) s t0 deep ⊎ Over d (side_round d x s) s t0

-- A red node ends the loop.
red_test :
    (s : Store) (rb p : ℕ)
    → p ≢ null
    → s.color p ≡ red
    → (not (p == s.root rb) && is_black p s) ≡ false
unfolding is_black
red_test s rb p set e = ground (arith, e)

module _ {rb : ℕ} (d : Side rb) (s s1 : Store) (p x : ℕ) (ul : Shape) (b : ℕ) (ur : Shape)
    (up : Trail) (t : Shape) (h : ℕ) (t0 : Shape) (deep : ℕ)
    (v : Ready d s s1 p x ul b ur up t h t0 deep) where
  abbrev u : Shape
  u = node ul b ur

  -- The painted nodes are no others.
  pub sink_total :
      (a : ℕ)
      → count a (nodes t)
          + count a (trail_nodes up)
          + count a (nodes ul)
          + count a (nodes ur)
          + count a (p ∷ b ∷ [])
        ≤ 1
  sink_total a = omega (
    arith,
    v.lacking.at.unique a,
    count-append a (nodes ul ++ b ∷ nodes ur) (trail_nodes up),
    count-append a (nodes ul) (b ∷ nodes ur),
  )

  -- The colors of the brother's children.
  pub near_test : is_black (d.near s1 b) s1 ≡ not (root_red s1.color ul)
  near_test =
      is_black-root s1 (d.near s1) (d.far s1) (nil rb) b (d.near s1 b) h ul v.lacking.at.hangs.4.4
        (black_far s1.color h p ul b ur up v.black_b v.lacking.holds).0 v.lacking.sentinel
        (Stands-set (d.near s1) (d.far s1) s1.parent (nil rb) b (d.near s1 b) ul
          v.lacking.at.hangs.4.4 v.lacking.stop_set)

  pub far_test : is_black (d.far s1 b) s1 ≡ not (root_red s1.color ur)
  far_test =
      is_black-root s1 (d.near s1) (d.far s1) (nil rb) b (d.far s1 b) h ur v.lacking.at.hangs.4.5
        (black_far s1.color h p ul b ur up v.black_b v.lacking.holds).1 v.lacking.sentinel
        (Stands-set (d.near s1) (d.far s1) s1.parent (nil rb) b (d.far s1 b) ur
          v.lacking.at.hangs.4.5 v.lacking.stop_set)

  pub brother_is : brother x s1 ≡ b
  brother_is = brother-far d s1 p x ul b ur up t v.lacking.at v.lacking.link (Lacking-set v.lacking)

  abbrev sunk : Store
  sunk = record s1 { color = paint b red s1.color }

  -- The new colors.
  sunk_off : (y : ℕ) → has y (p ∷ b ∷ []) ≡ false → paint b red s1.color y ≡ s1.color y
  sunk_off y e = ground arith

  sunk_now : (paint b red s1.color b ≡ red) × (paint b red s1.color p ≡ s1.color p)
  sunk_now = let b_set : b ≢ null = v.lacking.at.hangs.4.2 in let k = sink_total p in ground arith

  stop_apart : (p ≢ nil rb) × (b ≢ nil rb)
  stop_apart = (v.lacking.at.hangs.2, v.lacking.at.hangs.4.1)

  sunk_sentinel : sunk.color (nil rb) ≡ black
  sunk_sentinel = sunk_off (nil rb) (ground (arith, stop_apart)) ∙ v.lacking.sentinel

  sunk_brother :
      root_red s1.color ul ≡ false → root_red s1.color ur ≡ false → Balanced sunk.color h u
  sunk_brother ul_calm ur_calm =
      let far = black_far s1.color h p ul b ur up v.black_b v.lacking.holds in
      let ps : List ℕ = p ∷ b ∷ [] in
      inl (
        sunk_now.0,
        repaint-root_red s1.color sunk.color ps sunk_off ul (λ a. omega (arith, sink_total a))
            ∙ ul_calm,
        repaint-root_red s1.color sunk.color ps sunk_off ur (λ a. omega (arith, sink_total a))
            ∙ ur_calm,
        repaint-Balanced s1.color sunk.color ps sunk_off h ul (λ a. omega (arith, sink_total a))
            far.0,
        repaint-Balanced s1.color sunk.color ps sunk_off h ur (λ a. omega (arith, sink_total a))
            far.1,
      )

  sunk_low : Balanced sunk.color h t
  sunk_low =
      repaint-Balanced s1.color sunk.color (p ∷ b ∷ []) sunk_off h t
        (λ a. omega (arith, sink_total a)) v.lacking.balanced

  sunk_above : (j : ℕ) → Holds s1.color j up → Holds sunk.color j up
  sunk_above j =
      repaint-Holds s1.color sunk.color (p ∷ b ∷ []) sunk_off j up
        (λ a. omega (arith, sink_total a))

  sunk-At : At d sunk (s1.parent p) p up (node t p u)
  sunk-At =
      d.painted-Focus s1 sunk.color (s1.parent p) p up (node t p u)
        (At-up d s1 p x u up t v.lacking.at)

  sunk_round :
      root_red s1.color ul ≡ false → root_red s1.color ur ≡ false → side_round d x s ≡ (p, sunk)
  sunk_round ul_calm ur_calm =
      delete_side-sink d.to d.off d.near d.far rb x p b s s1 v.lift brother_is
        (near_test ∙ ap not ul_calm) (far_test ∙ ap not ur_calm) v.lacking.at.hangs.4.2
        (Lacking-set v.lacking) v.lacking.link

  -- Below a black parent the lack goes up.
  sink-Higher :
      root_red s1.color ul ≡ false
      → root_red s1.color ur ≡ false
      → s1.color p ≡ black
      → Holds s1.color (suc (suc h)) up
      → depth up < deep
      → Higher d (side_round d x s) s t0 deep
  sink-Higher ul_calm ur_calm p_black above room = record {
    next = p;
    store = sunk;
    up = s1.parent p;
    trail = up;
    tree = node t p u;
    h = suc h;
    is = sunk_round ul_calm ur_calm;
    lacking = record {
      at = sunk-At;
      link = refl;
      stop_set = v.lacking.stop_set;
      balanced = inr (sunk_now.1 ∙ p_black, (h, refl, sunk_low, sunk_brother ul_calm ur_calm));
      holds = sunk_above (suc (suc h)) above;
      sentinel = sunk_sentinel;
    };
    kept = v.kept;
    keys = v.keys;
    near = room;
  }

  -- A red parent takes the lack away.
  sink-Over :
      root_red s1.color ul ≡ false
      → root_red s1.color ur ≡ false
      → s1.color p ≡ red
      → Holds s1.color (suc h) up
      → Over d (side_round d x s) s t0
  unfolding set_black
  sink-Over ul_calm ur_calm p_red above =
      let color' : Field = paint p black sunk.color in
      let p_set : p ≢ null = v.lacking.at.hangs.3 in
      let off : (y : ℕ) → has y (p ∷ []) ≡ false → color' y ≡ sunk.color y = λ y e. ground arith in
      let now : color' p ≡ black = ground arith in
      record {
        next = p;
        store = sunk;
        tree = plug up (node t p u);
        is = sunk_round ul_calm ur_calm;
        test = red_test sunk rb p p_set (sunk_now.1 ∙ p_red);
        whole =
            At-Whole d (record sunk { color = color' }) (s1.parent p) p (suc h) up (node t p u)
              (d.painted-Focus sunk color' (s1.parent p) p up (node t p u) sunk-At)
              (inr (
                now,
                (
                  h,
                  refl,
                  repaint-Balanced sunk.color color' (p ∷ []) off h t
                      (λ a. omega (arith, sink_total a)) sunk_low,
                  repaint-Balanced sunk.color color' (p ∷ []) off h u
                      (λ a. omega (arith, sink_total a, count-append a (nodes ul) (b ∷ nodes ur)))
                      (sunk_brother ul_calm ur_calm),
                ),
              ))
              (inl (ground (arith, now)))
              (repaint-Holds sunk.color color' (p ∷ []) off (suc h) up
                (λ a. omega (arith, sink_total a)) (sunk_above (suc h) above))
              (off (nil rb) (ground (arith, stop_apart)) ∙ sunk_sentinel);
        kept = v.kept;
        keys = v.keys;
      }

  pub sink : root_red s1.color ul ≡ false → root_red s1.color ur ≡ false → Sunk d x s t0 deep
  sink ul_calm ur_calm = elim (black_far s1.color h p ul b ur up v.black_b v.lacking.holds).2 [
    | inl (p_red, _, above) ↦ inr (sink-Over ul_calm ur_calm p_red above)
    | inr (p_black, above) ↦ elim v.room [
      | inl p_red ↦ absurd (no_color s1.color p p_red p_black)
      | inr room ↦ inl (sink-Higher ul_calm ur_calm p_black above room)
    ]
  ]
    where
      no_color : (color : Field) (p : ℕ) → color p ≡ red → color p ≡ black → ⊥
      no_color color p e f = ground arith
