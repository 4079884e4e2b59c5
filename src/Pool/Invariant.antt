-- ===== src/Pool/Invariant.antt =====
-- What a pool in use looks like: which blocks are free, in the order of the free list, and which a
-- client has.
use qphi.Common.{
  ℕ, ◌+◌, ◌*◌, ◌^◌, ◌≤◌, ◌<◌, ◌≡◌, ◌≢◌, true, false, List, All, has, Distinct, Apart, length, arith,
}
use qphi.Memory.Chain.{Field, null, IsList}
use qphi.Pool.{Memory, PoolInfo, elm_size}

-- The room of a pool: `nsize` buckets of `bucket` bytes from `room` on.
pub record Room : Type 0 where
  pub room : ℕ
  pub nsize : ℕ
  pub bucket : ℕ

abbrev pub room_of : PoolInfo → Room
room_of info = record { room = info.room; nsize = info.nsize; bucket = info.esize + elm_size }

-- An element is the start of one of the buckets, and leads back to its pool.
pub record IsElement (root : Field) (r : Room) (p : ℕ) (e : ℕ) : Type 0 where
  pub index : ℕ
  pub in_room : index < r.nsize
  pub place : e ≡ r.room + index * r.bucket
  pub owner : root e ≡ p

-- The room and the pool itself do not overlap, and the room ends below the end of memory.
pub record IsPlaced (r : Room) (p : ℕ) : Type 0 where
  pub set : p ≢ null
  pub room_set : r.room ≢ null
  pub wide : elm_size ≤ r.bucket
  pub ends : r.room + r.nsize * r.bucket < 2 ^ 64
  pub outside : (i : ℕ) → i < r.nsize → r.room + i * r.bucket ≢ p

-- The elements of a pool: the free ones, first to be handed out first, and those handed out.
pub record Elements : Type 0 where
  pub free : List ℕ
  pub used : List ℕ

pub record Holds (next root : Field) (info : PoolInfo) (p : ℕ) (b : Elements) : Type 0 where
  pub placed : IsPlaced (room_of info) p
  pub inited : info.is_inited ≡ true
  pub chain : IsList next p b.free
  pub counted : info.nfree ≡ length b.free
  pub total : length b.free + length b.used ≡ info.nsize
  pub free_ok : All (IsElement root (room_of info) p) b.free
  pub used_ok : All (IsElement root (room_of info) p) b.used
  pub free_distinct : Distinct b.free
  pub used_distinct : Distinct b.used
  pub apart : Apart b.free b.used
  pub free_outside : has p b.free ≡ false
  pub used_outside : has p b.used ≡ false

-- The pool at `p` holds the elements `b`.
abbrev pub IsPool : Memory → ℕ → Elements → Type 0
IsPool m p b = Holds m.next m.root (m.pool p) p b

-- An element is not NULL, is not the pool, and its bucket ends below the end of memory.
pub IsElement-bounds :
    {root : Field} {r : Room} {p e : ℕ}
    → IsPlaced r p
    → IsElement root r p e
    → (e ≢ null) × (e ≢ p) × (e + r.bucket < 2 ^ 64)
IsElement-bounds {root} {r} {p} {e} at el = (
  ground (arith, at.room_set, el.place),
  ground (arith, at.outside el.index el.in_room, el.place),
  let h : el.index * r.bucket + r.bucket ≤ r.nsize * r.bucket = grind (arith, el.in_room) in
      omega (arith, h, at.ends, el.place),
)
