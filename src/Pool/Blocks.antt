-- ===== src/Pool/Blocks.antt =====
-- `qp_pool_alloc` and `qp_pool_free` against a stack of free elements.
use qphi.Common.{
  ℕ, ◌⊎◌, ◌%◌, ◌+◌, ◌-◌, ◌*◌, ◌^◌, ◌≤◌, ◌≡◌, ◌≢◌, refl, Bool-cases, inl, inr, true, false, List, [],
  ◌∷◌, All-erase, has, Apart-cons, Apart-erase, has-Apart, has-erase, has-erase_self,
  Distinct-erase, length-erase, erase, arith, leb, if◌then◌else◌, All-has, dec_lt,
}
use qphi.Memory.Chain.{
  null, Chain-hop, list_pop-tail, list_push-cons, list_is_empty-cons, list_pop, list_push, update,
  update_self,
}
use qphi.Pool.{Memory, elm_size, success, pool_alloc, pool_free, pool_available, pool_belong_to}
use qphi.Pool.Invariant.{room_of, IsElement, IsElement-bounds, Elements, IsPool}

-- The specification: the free elements are a stack, and a block goes back to its top.
unfoldable pub take_top : (free used : List ℕ) → ℕ × Elements
take_top [] used = (null, record { free = []; used = used })
take_top (e ∷ free) used = (e + elm_size, record { free = free; used = e ∷ used })

unfoldable pub take_block : (esize size : ℕ) → Elements → ℕ × Elements
unfolding take_top
take_block esize size b = if leb size esize then take_top b.free b.used else (null, b)

unfoldable pub give_block : ℕ → Elements → Elements
give_block ptr b = record { free = (ptr - elm_size) ∷ b.free; used = erase (ptr - elm_size) b.used }

module _ (m : Memory) (p : ℕ) where
  alloc-null : (size : ℕ) → leb size (m.pool p).esize ≡ false → pool_alloc p size m ≡ (null, m)
  unfolding pool_alloc
  alloc-null size big = rw big

  alloc-empty :
      (size : ℕ) (used : List ℕ)
      → IsPool m p (record { free = []; used = used })
      → pool_alloc p size m ≡ (null, m)
  unfolding pool_alloc pool_available
  alloc-empty size used v = ground (arith, v.counted)

  -- the memory after the element `e` was taken
  taken : (e : ℕ) → Memory
  taken e = record m {
    next = update (list_pop p m.next) e null;
    pool = update m.pool p (record (m.pool p) { nfree = (m.pool p).nfree - 1 });
  }

  alloc-cons :
      (size e : ℕ) (free used : List ℕ)
      → IsPool m p (record { free = e ∷ free; used = used })
      → leb size (m.pool p).esize ≡ true
      → (pool_alloc p size m ≡ (e + elm_size, taken e))
        × IsPool (taken e) p (record { free = free; used = e ∷ used })
  unfolding pool_alloc pool_available taken
  alloc-cons size e free used v fits =
      let (set, ne, in_memory) = IsElement-bounds v.placed v.free_ok.0 in
      let first = (list_is_empty-cons m.next p v.placed.set e free v.free_outside v.chain).1 in
      (
        rw (fits, first) (ground (arith, v.counted)),
        rw update_self (record {
          placed = v.placed;
          inited = v.inited;
          chain =
              Chain-hop (list_pop p m.next) _ p p p e free
                (list_pop-tail m.next p v.placed.set e free v.free_outside v.chain) (ground arith)
                v.free_distinct.0 (ground arith);
          counted = ground (arith, v.counted);
          total = ground (arith, v.total);
          free_ok = v.free_ok.1;
          used_ok = (v.free_ok.0, v.used_ok);
          free_distinct = v.free_distinct.1;
          used_distinct = (v.apart.0, v.used_distinct);
          apart = Apart-cons free used e v.free_distinct.0 v.apart.1;
          free_outside = ground (arith, v.free_outside);
          used_outside = ground (arith, v.used_outside);
        }),
      )

  -- the memory after the element `e` was given back
  given : (e : ℕ) → Memory
  given e = record m {
    next = list_push p e m.next;
    pool = update m.pool p (record (m.pool p) { nfree = (m.pool p).nfree + 1 });
  }

  free-used :
      (e : ℕ) (free used : List ℕ)
      → IsPool m p (record { free = free; used = used })
      → has e used ≡ true
      → (pool_free p (e + elm_size) m ≡ (success, given e))
        × IsPool (given e) p (record { free = e ∷ free; used = erase e used })
  unfolding pool_free pool_belong_to given
  free-used e free used v held =
      let el = All-has (IsElement m.root (room_of (m.pool p)) p) e used v.used_ok held in
      let (set, ne, in_memory) = IsElement-bounds v.placed el in
      let fresh = has-Apart free used e v.apart held in
      let home : (e + elm_size + 2 ^ 64 - elm_size) % 2 ^ 64 ≡ e =
        omega (arith, in_memory, v.placed.wide) in
      let few : (m.pool p).nsize ≤ (m.pool p).nsize * ((m.pool p).esize + elm_size) = grind arith in
      let small : ((m.pool p).nfree + 1) % 2 ^ 64 ≡ (m.pool p).nfree + 1 =
        omega (arith, v.counted, v.total, length-erase e used held, v.placed.ends, few) in
      (
        rw (home, small, el.owner) (ground arith),
        rw update_self (record {
          placed = v.placed;
          inited = v.inited;
          chain = list_push-cons m.next p v.placed.set e free set ne fresh v.free_outside v.chain;
          counted = ground (arith, v.counted);
          total = ground (arith, v.total, length-erase e used);
          free_ok = (el, v.free_ok);
          used_ok = All-erase (IsElement m.root (room_of (m.pool p)) p) e used v.used_ok;
          free_distinct = (fresh, v.free_distinct);
          used_distinct = Distinct-erase e used v.used_distinct;
          apart = (has-erase_self e used v.used_distinct, Apart-erase free used e v.apart);
          free_outside = ground (arith, v.free_outside);
          used_outside = has-erase p e used v.used_outside;
        }),
      )

-- `qp_pool_alloc` on a pool that holds `b` returns the block that the stack of free elements gives,
-- NULL if the size is larger than the pool's blocks or no element is free, and leaves the pool
-- holding what the stack leaves.
pub alloc_refines :
    (m : Memory) (p size : ℕ) (b : Elements)
    → IsPool m p b
    → let (ptr, m') = pool_alloc p size m in
      let (ptr', b') = take_block (m.pool p).esize size b in (ptr ≡ ptr') × IsPool m' p b'
unfolding take_block
alloc_refines m p size b v = elim (Bool-cases (leb size (m.pool p).esize)) [
  | inl fits ↦ rw fits (go b.free b.used v fits)
  | inr big ↦ rw (big, alloc-null m p size big) (refl, v)
]
  where
    go :
        (free used : List ℕ)
        → IsPool m p (record { free = free; used = used })
        → leb size (m.pool p).esize ≡ true
        → ((pool_alloc p size m).0 ≡ (take_top free used).0)
          × IsPool (pool_alloc p size m).1 p (take_top free used).1
    go [] used v fits = rw (alloc-empty m p size used v) (refl, v)
    go (e ∷ free) used v fits =
        let (call, after) = alloc-cons m p size e free used v fits in rw call (refl, after)

-- `qp_pool_free` of a block that the client has from the pool succeeds, and puts its element on top
-- of the free ones.
pub free_refines :
    (m : Memory) (p ptr : ℕ) (b : Elements)
    → IsPool m p b
    → elm_size ≤ ptr
    → has (ptr - elm_size) b.used ≡ true
    → let (s, m') = pool_free p ptr m in (s ≡ success) × IsPool m' p (give_block ptr b)
unfolding give_block
free_refines m p ptr b v behind held =
    let (call, after) = free-used m p (ptr - elm_size) b.free b.used v held in
    let e : ptr - elm_size + elm_size ≡ ptr = omega arith in rw (rw e at call) (refl, after)

-- The blocks that a client has from one pool do not overlap: of two different elements one bucket
-- ends before the other begins.
pub used-disjoint :
    (m : Memory) (p d e : ℕ) (b : Elements)
    → IsPool m p b
    → has d b.used ≡ true
    → has e b.used ≡ true
    → d ≢ e
    → (d + ((m.pool p).esize + elm_size) ≤ e) ⊎ (e + ((m.pool p).esize + elm_size) ≤ d)
used-disjoint m p d e b v hd he ne =
    let d_ok = All-has (IsElement m.root (room_of (m.pool p)) p) d b.used v.used_ok hd in
    let e_ok = All-has (IsElement m.root (room_of (m.pool p)) p) e b.used v.used_ok he in
    apart d_ok.index e_ok.index ((m.pool p).room) ((m.pool p).esize + elm_size) d_ok.place
      e_ok.place
  where
    apart :
        (i j room bucket : ℕ)
        → d ≡ room + i * bucket
        → e ≡ room + j * bucket
        → (d + bucket ≤ e) ⊎ (e + bucket ≤ d)
    apart i j room bucket di ej = elim (dec_lt i j) [
      | yes lt ↦ let h : i * bucket + bucket ≤ j * bucket = grind arith in inl (omega arith)
      | no ge ↦ elim (dec_lt j i) [
        | yes gt ↦ let h : j * bucket + bucket ≤ i * bucket = grind arith in inr (omega arith)
        | no le ↦ let same : i ≡ j = omega arith in absurd (ne (rw (di, ej, same)))
      ]
    ]
