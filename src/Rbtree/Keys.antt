-- ===== src/Rbtree/Keys.antt =====
-- The keys from left to right in a tree of src/core/qp_memory_core.c, after `qp_rbtree_delete` has
-- taken out a node and has put its key where another one was.
use qphi.Common.{
  ℕ, ◌<◌, ◌≡◌, ◌≢◌, refl, ◌∙◌, sym, ap, subst, List, [], ◌∷◌, ◌++◌, map, All, has, false, arith,
}
use qphi.Memory.Chain.{Field, update}
use qphi.Rbtree.Order.{Ascending, All-parts}
use qphi.Rbtree.Lookup.{All-append}

no_cons : (x : ℕ) (xs : List ℕ) → [] ≡ x ∷ xs → ⊥
no_cons x xs e = ground arith

pub head_tail : (x y : ℕ) (xs ys : List ℕ) → x ∷ xs ≡ y ∷ ys → (x ≡ y) × (xs ≡ ys)
head_tail x y xs ys e = (ground arith, ground arith)

-- The order is one of the keys.
All-map_same :
    (key key' : Field) (v : ℕ) (xs ys : List ℕ)
    → map key xs ≡ map key' ys
    → All (λ b. v < key b) xs
    → All (λ b. v < key' b) ys
All-map_same key key' v [] [] e w = tt
All-map_same key key' v [] (y ∷ ys) e w = absurd (no_cons (key' y) (map key' ys) e)
All-map_same key key' v (x ∷ xs) [] e w = absurd (no_cons (key x) (map key xs) (sym e))
All-map_same key key' v (x ∷ xs) (y ∷ ys) e w =
    let (i, j) = head_tail (key x) (key' y) (map key xs) (map key' ys) e in
    (subst (λ k. v < k) i w.0, All-map_same key key' v xs ys j w.1)

pub Ascending-keys :
    (key key' : Field) (xs ys : List ℕ)
    → map key xs ≡ map key' ys
    → Ascending key xs
    → Ascending key' ys
Ascending-keys key key' [] [] e w = tt
Ascending-keys key key' [] (y ∷ ys) e w = absurd (no_cons (key' y) (map key' ys) e)
Ascending-keys key key' (x ∷ xs) [] e w = absurd (no_cons (key x) (map key xs) (sym e))
Ascending-keys key key' (x ∷ xs) (y ∷ ys) e w =
    let (i, j) = head_tail (key x) (key' y) (map key xs) (map key' ys) e in
    (
      subst (λ k. All (λ b. k < key' b) ys) i (All-map_same key key' (key x) xs ys j w.0),
      Ascending-keys key key' xs ys j w.1,
    )

-- An element less.
pub Ascending-without :
    (key : Field) (xs : List ℕ) (a : ℕ) (ys : List ℕ)
    → Ascending key (xs ++ a ∷ ys)
    → Ascending key (xs ++ ys)
Ascending-without key [] a ys v = v.1
Ascending-without key (x ∷ xs) a ys v =
    let p = All-parts (λ b. key x < key b) xs (a ∷ ys) v.0 in
    (All-append (λ b. key x < key b) xs ys p.0 p.1.1, Ascending-without key xs a ys v.1)

-- The keys of nodes that an assignment leaves alone.
pub map-update :
    (key : Field) (n v : ℕ) (xs : List ℕ) → has n xs ≡ false → map (update key n v) xs ≡ map key xs
map-update key n v [] out = refl
map-update key n v (x ∷ xs) out =
    let away : x ≢ n = λ e. ground (arith, out) in
    let same : update key n v x ≡ key x = ground arith in
    ap (λ k. k ∷ map (update key n v) xs) same
    ∙ ap (λ l. key x ∷ l) (map-update key n v xs (ground (arith, out)))

pub map-append : (f : Field) (xs ys : List ℕ) → map f (xs ++ ys) ≡ map f xs ++ map f ys
map-append f [] ys = refl
map-append f (x ∷ xs) ys = ap (λ l. f x ∷ l) (map-append f xs ys)

-- `n` before `sub`: the key of `sub` at `n` takes its place among the keys.
pub keys_shift :
    (key : Field) (n sub : ℕ) (lower back : List ℕ)
    → has n lower ≡ false
    → has n back ≡ false
    → map (update key n (key sub)) (lower ++ n ∷ back) ≡ map key (lower ++ sub ∷ back)
keys_shift key n sub lower back lo hi =
    let now : update key n (key sub) n ≡ key sub = ground arith in
    map-append (update key n (key sub)) lower (n ∷ back)
    ∙ ap (λ l. l ++ map (update key n (key sub)) (n ∷ back)) (map-update key n (key sub) lower lo)
    ∙ ap (λ l. map key lower ++ l)
        (ap (λ k. k ∷ map (update key n (key sub)) back) now
          ∙ ap (λ l. key sub ∷ l) (map-update key n (key sub) back hi))
    ∙ sym (map-append key lower (sub ∷ back))
