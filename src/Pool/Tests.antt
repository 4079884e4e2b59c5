-- ===== src/Pool/Tests.antt =====
-- A pool of two blocks of 8 bytes at work, and the theorems of the pool at it.
use qphi.Common.{length, ◌*◌, ◌+◌, ◌≡◌, ◌≢◌, ◌⊎◌, refl, true, false, List, [], ◌∷◌, arith, Bool}
use qphi.Memory.Chain.{null}
use qphi.Pool.{
  Memory, zeroed, Status, success, error, elm_size, pool_init, pool_alloc, pool_free, pool_destroy,
  pool_available, pool_used, pool_to_array, pool_belong_to,
}
use qphi.Pool.Invariant.{Elements, IsPlaced, IsPool}
use qphi.Pool.Init.{pool_init-IsPool, pool_init-no_room}
use qphi.Pool.Blocks.{take_block, give_block, alloc_refines, free_refines}
use qphi.Pool.Apart.{hold, Separate, Legal, blocks, hold-Separate}
use qphi.Pool.Queries.{pool_used_lem, pool_belong_to-pool_to_array}
use qphi.Pool.Session.{Call, take, give, Reply, block, done, run, expect, run_refines}
use qphi.Pool.Destroy.{released, pool_destroy_lem}

abbrev blank : Memory
blank = record { next = λ _. null; root = λ _. null; pool = λ _. zeroed; freed = [] }

placed : IsPlaced (record { room = 100; nsize = 2; bucket = 24 }) 10
placed = record {
  set = omega arith;
  room_set = omega arith;
  wide = omega arith;
  ends = omega arith;
  outside = λ i h. omega arith;
}

-- the pool at 10, its room at 100
abbrev ready : Memory
ready = (pool_init 10 8 2 0 (λ _. 100) blank).1

abbrev both : Elements
both = record { free = 124 ∷ 100 ∷ []; used = [] }

abbrev one_out : Elements
one_out = record { free = 100 ∷ []; used = 124 ∷ [] }

pool_init-IsPool_example :
    ((pool_init 10 8 2 0 (λ _. 100) blank).0 ≡ 10) × IsPool ready 10 both × (ready.freed ≡ [])
pool_init-IsPool_example =
    pool_init-IsPool 10 8 2 0 10 100 (λ _. 100) blank refl refl (omega arith) placed

pool_init-no_room_example :
    ((pool_init null 8 2 10 (λ _. null) blank).0 ≡ null)
    × (((pool_init null 8 2 10 (λ _. null) blank).1.pool 10).is_inited ≡ false)
    × ((pool_init null 8 2 10 (λ _. null) blank).1.freed ≡ 10 ∷ [])
pool_init-no_room_example = pool_init-no_room null 8 2 10 10 blank refl (omega arith)

ready-IsPool : IsPool ready 10 both
ready-IsPool = pool_init-IsPool_example.1

ready_esize : (ready.pool 10).esize ≡ 8
unfolding pool_init
ready_esize = refl

alloc_refines_example :
    let (ptr, m') = pool_alloc 10 8 ready in
    let (ptr', b') = take_block (ready.pool 10).esize 8 both in (ptr ≡ ptr') × IsPool m' 10 b'
alloc_refines_example = alloc_refines ready 10 8 both ready-IsPool

abbrev taken : Memory
taken = (pool_alloc 10 8 ready).1

taken-IsPool : IsPool taken 10 one_out
unfolding take_block pool_init
taken-IsPool = (alloc_refines ready 10 8 both ready-IsPool).1

free_refines_example :
    let (s, m') = pool_free 10 140 taken in (s ≡ success) × IsPool m' 10 (give_block 140 one_out)
free_refines_example = free_refines taken 10 140 one_out taken-IsPool (omega arith) refl

abbrev script : List Call
script = take 8 ∷ take 9 ∷ take 1 ∷ take 1 ∷ give 140 ∷ take 8 ∷ []

abbrev answers : List Reply
answers = block 140 ∷ block null ∷ block 116 ∷ block null ∷ done success ∷ block 140 ∷ []

run_refines_example : run 10 script ready ≡ answers
unfolding expect take_block give_block
run_refines_example = run_refines script 10 8 ready both answers ready-IsPool ready_esize refl

-- A block is taken, given back and taken again, and then another one.
abbrev again : List Call
again = take 8 ∷ give 140 ∷ take 8 ∷ take 8 ∷ []

again-Legal : Legal 10 again ready (blocks both.used)
unfolding Legal qphi.Pool.Apart.client pool_alloc pool_free pool_init qphi.Pool.pool_available
    qphi.Pool.pool_belong_to qphi.Memory.Chain.list_push
again-Legal = (tt, (refl, (tt, (tt, tt))))

hold-Separate_example : Separate (ready.pool 10).esize (hold 10 again ready (blocks both.used))
hold-Separate_example = hold-Separate again 10 ready both ready-IsPool again-Legal

pool_destroy_lem_example :
    ((◌≡◌ {A = Bool} false false)
      × (one_out.used ≢ [])
      × (pool_destroy 10 false taken ≡ (error, taken)))
    ⊎ (((◌≡◌ {A = Bool} false true) ⊎ (one_out.used ≡ []))
        × (let (s, m') = pool_destroy 10 false taken in
            (s ≡ success) × (m'.freed ≡ released 10 taken) × ((m'.pool 10).is_inited ≡ false)))
pool_destroy_lem_example = pool_destroy_lem taken 10 one_out false taken-IsPool

pool_used_lem_example :
    (pool_available 10 taken ≡ length one_out.free) × (pool_used 10 taken ≡ length one_out.used)
pool_used_lem_example = pool_used_lem taken 10 one_out taken-IsPool

pool_belong_to-pool_to_array_example :
    pool_belong_to (pool_to_array 10 1 taken)
    ≡ (taken.pool 10).room + 1 * ((taken.pool 10).esize + elm_size)
unfolding pool_alloc pool_init qphi.Pool.pool_available qphi.Memory.Chain.list_push
pool_belong_to-pool_to_array_example =
    pool_belong_to-pool_to_array taken 10 1 one_out taken-IsPool (omega arith)
