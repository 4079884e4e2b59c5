-- ===== src/Pool/Apart.antt =====
-- The blocks that a client has after any calls of `qp_pool_alloc` and `qp_pool_free`,
-- src/core/qp_pool_core.c.
use qphi.Common.{
  ℕ, ◌+◌, ◌-◌, ◌≤◌, ◌≡◌, ◌≢◌, ◌⊎◌, inl, inr, refl, ◌∙◌, sym, ap, subst, true, false, List, [], ◌∷◌,
  All, has, erase, Distinct, map, arith, ◌==◌, if◌then◌else◌, Bool-cases, ℕ_discrete, leb,
}
use qphi.Memory.Chain.{null}
use qphi.Pool.{Memory, elm_size, pool_alloc, pool_free}
use qphi.Pool.Invariant.{Elements, IsPool}
use qphi.Pool.Blocks.{take_top, take_block, give_block, alloc_refines, free_refines, used-disjoint}
use qphi.Pool.Session.{Call, take, give, esize-alloc, esize-free}

-- The memory after a call, and the blocks that the client then has by what the calls returned.
unfoldable pub client : ℕ → Call → Memory → List ℕ → Memory × List ℕ
client p (take size) m held =
    let (ptr, m') = pool_alloc p size m in (m', if ptr == null then held else ptr ∷ held)
client p (give ptr) m held = ((pool_free p ptr m).1, erase ptr held)

unfoldable pub hold : ℕ → List Call → Memory → List ℕ → List ℕ
unfolding client
hold p [] m held = held
hold p (c ∷ calls) m held = hold p calls (client p c m held).0 (client p c m held).1

-- The client gives back only blocks that it has.
abbrev pub Owned : Call → List ℕ → Type 0
Owned (take size) held = Unit
Owned (give ptr) held = has ptr held ≡ true

unfoldable pub Legal : ℕ → List Call → Memory → List ℕ → Type 0
unfolding client
Legal p [] m held = Unit
Legal p (c ∷ calls) m held =
    Owned c held × Legal p calls (client p c m held).0 (client p c m held).1

-- No two blocks of `esize` bytes at these addresses have a byte in common.
abbrev pub Separate : (esize : ℕ) → List ℕ → Type 0
Separate esize [] = Unit
Separate esize (x ∷ xs) = All (λ y. (x + esize ≤ y) ⊎ (y + esize ≤ x)) xs × Separate esize xs

-- The blocks of elements.
abbrev pub blocks : List ℕ → List ℕ
blocks = map (λ e. e + elm_size)

erase-blocks :
    (ptr : ℕ) (xs : List ℕ)
    → elm_size ≤ ptr
    → erase ptr (blocks xs) ≡ blocks (erase (ptr - elm_size) xs)
erase-blocks ptr [] le = refl
erase-blocks ptr (x ∷ xs) le = elim (ℕ_discrete ptr (x + elm_size)) [
  | yes e ↦ ground (arith, e)
  | no ne ↦
      (let ih = erase-blocks ptr xs le in
        let other : ptr - elm_size ≢ x = λ e. ne (omega (arith, e, le)) in
        ground (arith, ne, other, ih))
]

has-blocks :
    (ptr : ℕ) (xs : List ℕ)
    → has ptr (blocks xs) ≡ true
    → (elm_size ≤ ptr) × (has (ptr - elm_size) xs ≡ true)
has-blocks ptr [] i = absurd (ground (arith, i))
has-blocks ptr (x ∷ xs) i = elim (ℕ_discrete ptr (x + elm_size)) [
  | yes e ↦ (omega (arith, e), ground (arith, e))
  | no ne ↦ (let (le, j) = has-blocks ptr xs (ground (arith, i, ne)) in (le, ground (arith, j)))
]

-- What a pool holds is apart.
used-Separate :
    (m : Memory) (p : ℕ) (free used xs : List ℕ)
    → IsPool m p (record { free = free; used = used })
    → ((x : ℕ) → has x xs ≡ true → has x used ≡ true)
    → Distinct xs
    → Separate (m.pool p).esize (blocks xs)
used-Separate m p free used [] v within d = tt
used-Separate m p free used (x ∷ xs) v within d = (
  others xs (λ y i. within y (ground (arith, i))) d.0,
  used-Separate m p free used xs v (λ y i. within y (ground (arith, i))) d.1,
)
  where
    others :
        (ys : List ℕ)
        → ((y : ℕ) → has y ys ≡ true → has y used ≡ true)
        → has x ys ≡ false
        → All
            (λ y. (x + elm_size + (m.pool p).esize ≤ y) ⊎ (y + (m.pool p).esize ≤ x + elm_size))
            (blocks ys)
    others [] within' out = tt
    others (y ∷ ys) within' out = (
      (let ne : x ≢ y = λ e. ground (arith, out, e) in
          elim (used-disjoint m p x y (record { free = free; used = used }) v
            (within x (ground arith)) (within' y (ground arith)) ne) [
              | inl le ↦ inl (omega (arith, le))
              | inr le ↦ inr (omega (arith, le))
            ]),
      others ys (λ z i. within' z (ground (arith, i))) (ground (arith, out)),
    )

-- The client's list follows the stack of free elements.
take-blocks :
    (esize size : ℕ) (b : Elements)
    → (let (ptr, b') = take_block esize size b in
        (if ptr == null then blocks b.used else ptr ∷ blocks b.used) ≡ blocks b'.used)
unfolding take_block take_top
take-blocks esize size b = elim (Bool-cases (leb size esize)) [
  | inl fits ↦ rw fits (go b.free)
  | inr big ↦ rw big refl
]
  where
    go :
        (free : List ℕ)
        → (let (ptr, b') = take_top free b.used in
            (if ptr == null then blocks b.used else ptr ∷ blocks b.used) ≡ blocks b'.used)
    go [] = refl
    go (e ∷ free) = ground arith

-- For every sequence of calls on a pool that holds `b`, in which the client gives back only blocks that it
-- has at that moment: of the blocks that the calls have left with the client, and those that it had, no
-- two overlap, each counted with the size of the pool's blocks.
pub hold-Separate :
    (calls : List Call) (p : ℕ) (m : Memory) (b : Elements)
    → IsPool m p b
    → Legal p calls m (blocks b.used)
    → Separate (m.pool p).esize (hold p calls m (blocks b.used))
unfolding hold client Legal give_block
hold-Separate [] p m b v legal = used-Separate m p b.free b.used b.used v (λ x i. i) v.used_distinct
hold-Separate (take size ∷ calls) p m b v legal =
    let (same, after) = alloc_refines m p size b v in
    let b' = (take_block (m.pool p).esize size b).1 in
    let m' = (pool_alloc p size m).1 in
    let held : (if (pool_alloc p size m).0 == null
          then blocks b.used
          else (pool_alloc p size m).0 ∷ blocks b.used)
        ≡ blocks b'.used =
      ap (λ ptr. if ptr == null then blocks b.used else ptr ∷ blocks b.used) same
      ∙ take-blocks (m.pool p).esize size b in
    subst (λ e. Separate e (hold p (take size ∷ calls) m (blocks b.used))) (esize-alloc p size m)
      (subst (λ xs. Separate (m'.pool p).esize (hold p calls m' xs)) (sym held)
        (hold-Separate calls p m' b' after (subst (λ xs. Legal p calls m' xs) held legal.1)))
hold-Separate (give ptr ∷ calls) p m b v legal =
    let (behind, mine) = has-blocks ptr b.used legal.0 in
    let (good, after) = free_refines m p ptr b v behind mine in
    let m' = (pool_free p ptr m).1 in
    let held : erase ptr (blocks b.used) ≡ blocks (erase (ptr - elm_size) b.used) =
      erase-blocks ptr b.used behind in
    subst (λ e. Separate e (hold p (give ptr ∷ calls) m (blocks b.used))) (esize-free p ptr m)
      (subst (λ xs. Separate (m'.pool p).esize (hold p calls m' xs)) (sym held)
        (hold-Separate calls p m' (give_block ptr b) after
          (subst (λ xs. Legal p calls m' xs) held legal.1)))
