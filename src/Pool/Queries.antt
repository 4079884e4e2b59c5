-- ===== src/Pool/Queries.antt =====
-- `qp_pool_available`, `qp_pool_used` and `qp_pool_to_array` on a pool.
use qphi.Common.{ℕ, ◌+◌, ◌*◌, ◌<◌, ◌≤◌, ◌≡◌, length, arith}
use qphi.Pool.{
  Memory, elm_size, pool_available, pool_used, pool_to_array, pool_is_inited, pool_belong_to,
}
use qphi.Pool.Invariant.{Elements, IsPool}

-- A pool that holds `b` counts as many blocks available as it has free, and as many used as the client
-- has.
pub pool_used_lem :
    (m : Memory) (p : ℕ) (b : Elements)
    → IsPool m p b
    → (pool_available p m ≡ length b.free) × (pool_used p m ≡ length b.used)
unfolding pool_available pool_used
pool_used_lem m p b v =
    let info = m.pool p in
    let h : info.nsize ≤ info.nsize * (info.esize + elm_size) = grind (arith, v.placed.wide) in
    (v.counted, ground (arith, v.counted, v.total, v.placed.ends, h))

-- The block that `qp_pool_to_array` gives for an index below the pool's size belongs to the element at
-- that place of the room.
pub pool_belong_to-pool_to_array :
    (m : Memory) (p index : ℕ) (b : Elements)
    → IsPool m p b
    → index < (m.pool p).nsize
    → pool_belong_to (pool_to_array p index m)
      ≡ (m.pool p).room + index * ((m.pool p).esize + elm_size)
unfolding pool_belong_to pool_to_array pool_is_inited
pool_belong_to-pool_to_array m p index b v small =
    let info = m.pool p in
    let bucket = info.esize + elm_size in
    let h : index * bucket + bucket ≤ info.nsize * bucket = grind (arith, small) in
    let h1 : info.nsize ≤ info.nsize * bucket = grind (arith, v.placed.wide) in
    ground (arith, v.inited, v.placed.set, v.placed.ends, h, h1)
