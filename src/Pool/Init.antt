-- ===== src/Pool/Init.antt =====
-- `qp_pool_init`: the pool that it makes, and what it does when the allocator fails.
use qphi.Common.{
  ℕ, ==-self, sym, ◌∙◌, Bool, zero, suc, ◌+◌, ◌*◌, ◌^◌, ◌≤◌, ◌<◌, ◌≡◌, ◌≢◌, refl, true, false, List,
  [], ◌∷◌, All, All-map, has, Distinct, Apart-nil, length, arith, u64, if◌then◌else◌, ◌==◌, ap,
}
use qphi.Memory.Chain.{Field, null, IsList, update, update_self, list_push, list_push-cons}
use qphi.Pool.{
  Memory, zeroed, set_pool, set_next, PoolInfo, elm_size, pool_create, init_loop, pool_init,
  pool_destroy, pool_is_inited, pool_is_alloced,
}
use qphi.Pool.Invariant.{Room, IsElement, IsElement-bounds, IsPlaced, IsPool}

-- the elements of the first `n` buckets, the last one first
abbrev pub elements : (room bucket n : ℕ) → List ℕ
elements room bucket zero = []
elements room bucket (suc n) = (room + n * bucket) ∷ elements room bucket n

length-elements : (room bucket n : ℕ) → length (elements room bucket n) ≡ n
length-elements room bucket zero = refl
length-elements room bucket (suc n) = ap suc (length-elements room bucket n)

has-elements :
    (room bucket n a : ℕ)
    → ((i : ℕ) → i < n → room + i * bucket ≢ a)
    → has a (elements room bucket n) ≡ false
has-elements room bucket zero a out = refl
has-elements room bucket (suc n) a out =
    ground (arith, out n (omega arith), has-elements room bucket n a (λ i h. out i (omega arith)))

has-elements_next :
    (room bucket n : ℕ) → 0 < bucket → has (room + n * bucket) (elements room bucket n) ≡ false
has-elements_next room bucket n pos =
    has-elements room bucket n (room + n * bucket)
      λ i h e. let p : i * bucket + bucket ≤ n * bucket = grind arith in absurd (omega arith)

Distinct-elements : (room bucket n : ℕ) → 0 < bucket → Distinct (elements room bucket n)
Distinct-elements room bucket zero pos = tt
Distinct-elements room bucket (suc n) pos =
    (has-elements_next room bucket n pos, Distinct-elements room bucket n pos)

-- what the loop has done after `n` rounds
record Filled (m m' : Memory) (r : Room) (p n : ℕ) : Type 0 where
  chain : IsList m'.next p (elements r.room r.bucket n)
  owned : All (IsElement m'.root r p) (elements r.room r.bucket n)
  pools : m'.pool ≡ m.pool
  freed : m'.freed ≡ m.freed

IsElement-update :
    (root : Field) (r : Room) (p a : ℕ) (xs : List ℕ)
    → All (IsElement root r p) xs
    → All (IsElement (update root a p) r p) xs
IsElement-update root r p a xs h =
    All-map (IsElement root r p) (IsElement (update root a p) r p) xs
      (λ e el. record {
        index = el.index;
        in_room = el.in_room;
        place = el.place;
        owner = ground (arith, el.owner);
      })
      h

module _ (r : Room) (p : ℕ) (at : IsPlaced r p) (m : Memory) where
  -- one round
  round-Filled :
      (n : ℕ) (m' : Memory)
      → n < r.nsize
      → Filled m m' r p n
      → Filled m
          (record m' {
            root = update m'.root (r.room + n * r.bucket) p;
            next = list_push p (r.room + n * r.bucket) m'.next;
          })
          r
          p
          (suc n)
  round-Filled n m' lt f =
      let el : IsElement (update m'.root (r.room + n * r.bucket) p) r p (r.room + n * r.bucket) =
        record { index = n; in_room = lt; place = refl; owner = update_self m'.root _ p } in
      let (set, ne, in_memory) = IsElement-bounds at el in
      record {
        chain =
            list_push-cons m'.next p at.set (r.room + n * r.bucket) (elements r.room r.bucket n) set
              ne (has-elements_next r.room r.bucket n (omega (arith, at.wide)))
              (has-elements r.room r.bucket n p (λ i h. at.outside i (omega arith))) f.chain;
        owned = (el, IsElement-update m'.root r p _ (elements r.room r.bucket n) f.owned);
        pools = f.pools;
        freed = f.freed;
      }

  init_loop-Filled :
      (rounds n offset : ℕ) (m' : Memory)
      → n + rounds ≡ r.nsize
      → offset ≡ n * r.bucket
      → Filled m m' r p n
      → Filled m (init_loop rounds r.room offset r.bucket p m') r p r.nsize
  unfolding init_loop
  init_loop-Filled zero n offset m' sum here f = let e : n ≡ r.nsize = omega arith in rw e at f
  init_loop-Filled (suc rounds) n offset m' sum here f =
      init_loop-Filled rounds (suc n) (u64 (offset + r.bucket)) _ (omega arith) next
        (rw here (round-Filled n m' (omega arith) f))
    where
      next : u64 (offset + r.bucket) ≡ suc n * r.bucket
      next =
          let lt : n < r.nsize = omega arith in
          let h : n * r.bucket + r.bucket ≤ r.nsize * r.bucket = grind arith in
          omega (arith, h, here, at.ends)

-- the fields that `qp_pool_init` gives a pool
abbrev filled_info : (room elmsize count info_node : ℕ) → Bool → PoolInfo
filled_info room elmsize count info_node alloced = record {
  room = room;
  info_node = info_node;
  nsize = count;
  esize = elmsize;
  nfree = count;
  is_inited = true;
  is_alloced = alloced;
}

module _ (p at elmsize count info_node : ℕ) (alloced : Bool) where
  -- The loop turns a pool with these fields and no element into one that holds all of them.
  init_loop-IsPool :
      (m : Memory)
      → IsPlaced (record { room = at; nsize = count; bucket = elmsize + elm_size }) p
      → IsList m.next p []
      → m.pool p ≡ filled_info at elmsize count info_node alloced
      → let m' = init_loop count at 0 (elmsize + elm_size) p m in
        IsPool m' p (record { free = elements at (elmsize + elm_size) count; used = [] })
        × (m'.freed ≡ m.freed)
  init_loop-IsPool m placed empty info =
      let bucket : ℕ = elmsize + elm_size in
      let f =
        init_loop-Filled (record { room = at; nsize = count; bucket = bucket }) p placed m count 0 0
          m (omega arith) (omega arith)
          (record { chain = empty; owned = tt; pools = refl; freed = refl }) in
      let info' : (init_loop count at 0 bucket p m).pool p ≡ _ = ap (λ f. f p) f.pools ∙ info in
      (
        rw info' (record {
          placed = placed;
          inited = refl;
          chain = f.chain;
          counted = sym (length-elements at bucket count);
          total = omega (arith, length-elements at bucket count);
          free_ok = f.owned;
          used_ok = tt;
          free_distinct = Distinct-elements at bucket count (omega arith);
          used_distinct = tt;
          apart = Apart-nil (elements at bucket count);
          free_outside = has-elements at bucket count p placed.outside;
          used_outside = refl;
        }),
        f.freed,
      )

-- the memory that `qp_pool_create` leaves
abbrev created : (pool p : ℕ) → Memory → Memory
created pool p m =
    set_next (update (update m.next p null) p p)
      (set_pool p (record zeroed { is_alloced = pool == null; is_inited = true }) m)

created-empty : (pool p : ℕ) (m : Memory) → IsList (created pool p m).next p []
created-empty pool p m = update_self (update m.next p null) p p

abbrev chosen : (pool fresh : ℕ) → ℕ
chosen pool fresh = if pool == null then fresh else pool

create-eq :
    (pool fresh p : ℕ) (m : Memory)
    → chosen pool fresh ≡ p
    → p ≢ null
    → pool_create pool fresh m ≡ (p, created pool p m)
unfolding pool_create
create-eq pool fresh p m is_p set =
    let p_set : (p == null) ≡ false = ground (arith, set) in rw is_p (rw p_set)

-- Where the allocator gives a room that does not overlap the pool and whose size does not wrap,
-- `qp_pool_init` returns the pool (the caller's, or one that it allocated), holding all `count`
-- elements of the room as free ones, the last bucket on top, and frees nothing.
pub pool_init-IsPool :
    (pool elmsize count fresh p at : ℕ) (room : ℕ → ℕ) (m : Memory)
    → chosen pool fresh ≡ p
    → room (count * (elmsize + elm_size)) ≡ at
    → elmsize + elm_size < 2 ^ 64
    → IsPlaced (record { room = at; nsize = count; bucket = elmsize + elm_size }) p
    → let (p', m') = pool_init pool elmsize count fresh room m in
      (p' ≡ p)
      × IsPool m' p (record { free = elements at (elmsize + elm_size) count; used = [] })
      × (m'.freed ≡ m.freed)
unfolding pool_init
pool_init-IsPool pool elmsize count fresh p at room m is_p is_at small placed =
    let bucket_is : u64 (elmsize + elm_size) ≡ elmsize + elm_size = omega arith in
    let asked : u64 ((elmsize + elm_size) * count) ≡ count * (elmsize + elm_size) =
      omega (arith, placed.ends) in
    let p_set : (p == null) ≡ false = ground (arith, placed.set) in
    let at_set : (at == null) ≡ false = ground (arith, placed.room_set) in
    let m2 = set_pool p (filled_info at elmsize count null (pool == null)) (created pool p m) in
    let (v, kept) =
      init_loop-IsPool p at elmsize count null (pool == null) m2 placed (created-empty pool p m)
        (update_self (created pool p m).pool p _) in
    rw (create-eq pool fresh p m is_p placed.set, p_set, bucket_is, asked, is_at, at_set, ==-self p)
      (refl, v, kept)

-- When the allocator gives no room, `qp_pool_init` returns NULL and leaves the pool as one that is
-- not initialised. It frees the pool once if it allocated it, and frees nothing otherwise.
pub pool_init-no_room :
    (pool elmsize count fresh p : ℕ) (m : Memory)
    → chosen pool fresh ≡ p
    → p ≢ null
    → let (p', m') = pool_init pool elmsize count fresh (λ _. null) m in
      (p' ≡ null)
      × ((m'.pool p).is_inited ≡ false)
      × (m'.freed ≡ (if pool == null then fresh ∷ m.freed else m.freed))
unfolding pool_init pool_destroy pool_is_inited pool_is_alloced
pool_init-no_room pool elmsize count fresh p m is_p set =
    let p_set : (p == null) ≡ false = ground (arith, set) in
    rw (create-eq pool fresh p m is_p set, p_set, ==-self p) (ground (arith, is_p, set))
