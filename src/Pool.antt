-- ===== src/Pool.antt =====
-- src/core/qp_pool_core.c: the pool of equal blocks, and the manager of pools. This file has the
-- memory that they share and the functions of the pool.
--
-- A `struct qp_pool_s` begins with its list head `free`, so the head's address is the pool's. An
-- element of the room begins with its list node; `sizeof(struct qp_pool_elm_s)` is 16, and the
-- block that a client gets begins behind it.
pub mod Invariant
pub mod Init
pub mod Blocks
pub mod Session
pub mod Apart
pub mod Queries
pub mod Destroy
mod Tests
use qphi.Common.{
  ℕ, zero, suc, ◌+◌, ◌-◌, ◌*◌, ◌%◌, ◌^◌, Bool, true, false, ◌&&◌, ◌||◌, not, List, [], ◌∷◌, ltb,
  leb, ◌==◌, if◌then◌else◌, u64,
}
use qphi.Memory.Chain.{Field, null, update, list_init, list_first, list_push, list_pop}

-- QP_SUCCESS and QP_ERROR
pub data Status : Type 0 where
  success error : Status

-- `struct qp_pool_s` without its list head
pub record PoolInfo : Type 0 where
  pub room : ℕ
  pub info_node : ℕ
  pub nsize : ℕ
  pub esize : ℕ
  pub nfree : ℕ
  pub is_inited : Bool
  pub is_alloced : Bool

abbrev pub zeroed : PoolInfo
zeroed = record {
  room = null;
  info_node = null;
  nsize = 0;
  esize = 0;
  nfree = 0;
  is_inited = false;
  is_alloced = false;
}

-- The fields of the list nodes, the `root` of the elements, the pools by their addresses, and the
-- addresses given to `qp_free`, the last one first.
pub record Memory : Type 0 where
  pub next : Field
  pub root : Field
  pub pool : ℕ → PoolInfo
  pub freed : List ℕ

abbrev pub elm_size : ℕ
elm_size = 16

abbrev pub set_pool : ℕ → PoolInfo → Memory → Memory
set_pool p info m = record m { pool = update m.pool p info }

abbrev pub set_next : Field → Memory → Memory
set_next next m = record m { next = next }

unfoldable pub pool_is_inited : ℕ → Memory → Bool
pool_is_inited p m = if p == null then false else (m.pool p).is_inited

unfoldable pub pool_is_alloced : ℕ → Memory → Bool
pool_is_alloced p m = if p == null then false else (m.pool p).is_alloced

-- `fresh` is what `qp_alloc(sizeof(struct qp_pool_s))` returns, if it is called.
unfoldable pub pool_create : (pool fresh : ℕ) → Memory → ℕ × Memory
unfolding list_init
pool_create pool fresh m =
    let own = pool == null in
    let p = if own then fresh else pool in
    if p == null then (null, m) else (
      p,
      set_next (list_init p (update m.next p null))
          (set_pool p (record zeroed { is_alloced = own; is_inited = true }) m),
    )

-- the loop of `qp_pool_init`, with `rounds` elements still to go
unfoldable pub init_loop : (rounds room offset bucket pool : ℕ) → Memory → Memory
init_loop zero room offset bucket pool m = m
init_loop (suc rounds) room offset bucket pool m =
    let element = room + offset in
    init_loop rounds room (u64 (offset + bucket)) bucket pool
      (record m { root = update m.root element pool; next = list_push pool element m.next })

unfoldable pub pool_destroy : (pool : ℕ) (force : Bool) → Memory → Status × Memory
unfolding pool_is_inited pool_is_alloced
pool_destroy pool force m =
    let info = m.pool pool in
    if pool_is_inited pool m
    then if not force && not (info.nfree == info.nsize)
      then (error, m)
      else (let freed = if info.room == null then m.freed else info.room ∷ m.freed in
          (
            success,
            record m {
              pool = update m.pool pool (record info { room = null; is_inited = false });
              freed = if pool_is_alloced pool m then pool ∷ freed else freed;
            },
          ))
    else (error, m)

-- `room` is what `qp_alloc` returns for the room, by the size it is asked for.
unfoldable pub pool_init : (pool elmsize count fresh : ℕ) → (room : ℕ → ℕ) → Memory → ℕ × Memory
unfolding pool_create init_loop pool_destroy
pool_init pool elmsize count fresh room m =
    let (p, m1) = pool_create pool fresh m in
    if p == null
    then (null, m1)
    else (let bucket = u64 (elmsize + elm_size) in
        let at = room (u64 (bucket * count)) in
        let m2 =
          set_pool p
            (record (m1.pool p) { esize = elmsize; nsize = count; nfree = count; room = at }) m1 in
        if at == null
        then (null, (pool_destroy p true m2).1)
        else (p, init_loop count at 0 bucket p m2))

unfoldable pub pool_available : ℕ → Memory → ℕ
pool_available p m = (m.pool p).nfree

unfoldable pub pool_used : ℕ → Memory → ℕ
pool_used p m = u64 ((m.pool p).nsize + 2 ^ 64 - (m.pool p).nfree)

unfoldable pub pool_to_array : (pool index : ℕ) → Memory → ℕ
unfolding pool_is_inited
pool_to_array p index m =
    if pool_is_inited p m
    then (m.pool p).room + u64 (index * u64 ((m.pool p).esize + elm_size)) + elm_size
    else null

unfoldable pub pool_belong_to : ℕ → ℕ
pool_belong_to ptr = u64 (ptr + 2 ^ 64 - elm_size)

unfoldable pub pool_alloc : (pool size : ℕ) → Memory → ℕ × Memory
unfolding list_first
pool_alloc p size m =
    if leb size (m.pool p).esize && ltb 0 (pool_available p m)
    then (let node = list_first p m.next in
        if node == null then (null, m) else (
          node + elm_size,
          record m {
            next = update (list_pop p m.next) node null;
            pool = update m.pool p (record (m.pool p) { nfree = (m.pool p).nfree - 1 });
          },
        ))
    else (null, m)

unfoldable pub pool_free : (pool ptr : ℕ) → Memory → Status × Memory
unfolding pool_belong_to
pool_free p ptr m =
    let element = pool_belong_to ptr in
    if not (m.root element == p) then (error, m) else (
      success,
      record m {
        next = list_push p element m.next;
        pool = update m.pool p (record (m.pool p) { nfree = u64 ((m.pool p).nfree + 1) });
      },
    )
