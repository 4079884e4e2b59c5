-- ===== src/Lock.antt =====
-- The spin lock of src/core/qp_ipc_core.c: `qp_lock_lock`, `qp_lock_trylock` and `qp_lock_unlock` on a
-- lock that was made with `spin` set. Each access to the lock's fields is a step, and the threads'
-- steps interleave. The pauses between two tries of the compare-and-swap change nothing and are none.
use qphi.Common.{
  ℕ, zero, suc, ◌+◌, ◌-◌, ◌^◌, Bool, true, false, not, List, [], ◌∷◌, ◌==◌, u64, if◌then◌else◌,
}
use qphi.Memory.Chain.{update}
pub mod Invariant
pub mod Moves
pub mod Exclusion
pub mod Recursive
pub mod Own
pub mod Other
pub mod Progress
mod Tests

pub record Lock : Type 0 where
  pub spin : ℕ
  pub hold_thread : ℕ
  pub hold_process : ℕ
  pub hold_counter : ℕ

-- Where a thread stands; the argument says whether the call is `qp_lock_trylock`.
pub data Phase : Type 0 where
  ready : Phase
  counter_test : Bool → Phase
  thread_test : Bool → Phase
  process_test : Bool → Phase
  count_again : Phase
  take : Bool → Phase
  set_thread : Phase
  set_process : Phase
  count_first : Phase
  unlock_counter_test : Phase
  unlock_thread_test : Phase
  unlock_process_test : Phase
  uncount : Phase
  left_test : Phase
  clear_thread : Phase
  clear_process : Phase
  release : Phase

pub data Status : Type 0 where
  success : Status
  error : Status

-- `status` is what the last call returned, and `depth` how many calls that took the lock succeeded,
-- less those that gave it back. `mine` is set from a successful compare-and-swap to the one that
-- undoes it; no step reads `depth` or `mine`.
pub record Thread : Type 0 where
  pub phase : Phase
  pub status : Status
  pub depth : ℕ
  pub mine : Bool

abbrev pub at : Phase → Thread → Thread
at p th = record th { phase = p }

abbrev pub took : Thread → Thread
took th = record th { phase = ready; status = success; depth = th.depth + 1 }

abbrev pub gave : Thread → Thread
gave th = record th { phase = ready; status = success; depth = th.depth - 1 }

abbrev pub failed : Thread → Thread
failed th = record th { phase = ready; status = error }

-- One step of the thread whose `pthread_self()` is `me` and whose `getpid()` is `pid`.
unfoldable pub advance : (me pid : ℕ) → Phase → Lock → Thread → Lock × Thread
advance me pid ready l th = (l, th)
advance me pid (counter_test try) l th =
    (l, at (if l.hold_counter == 0 then take try else thread_test try) th)
advance me pid (thread_test try) l th =
    (l, at (if l.hold_thread == me then process_test try else take try) th)
advance me pid (process_test try) l th =
    (l, at (if l.hold_process == pid then count_again else take try) th)
advance me pid count_again l th = (record l { hold_counter = u64 (l.hold_counter + 1) }, took th)
advance me pid (take try) l th =
    if l.spin == 0
    then (record l { spin = 1 }, record th { phase = set_thread; mine = true })
    else (l, if try then failed th else th)
advance me pid set_thread l th = (record l { hold_thread = me }, at set_process th)
advance me pid set_process l th = (record l { hold_process = pid }, at count_first th)
advance me pid count_first l th = (record l { hold_counter = u64 (l.hold_counter + 1) }, took th)
advance me pid unlock_counter_test l th =
    (l, if l.hold_counter == 0 then failed th else at unlock_thread_test th)
advance me pid unlock_thread_test l th =
    (l, if l.hold_thread == me then at unlock_process_test th else failed th)
advance me pid unlock_process_test l th =
    (l, if l.hold_process == pid then at uncount th else failed th)
advance me pid uncount l th =
    (record l { hold_counter = u64 (l.hold_counter + 2 ^ 64 - 1) }, at left_test th)
advance me pid left_test l th = (l, if l.hold_counter == 0 then at clear_thread th else gave th)
advance me pid clear_thread l th = (record l { hold_thread = 0 }, at clear_process th)
advance me pid clear_process l th = (record l { hold_process = 0 }, at release th)
advance me pid release l th =
    if l.spin == 1
    then (record l { spin = 0 }, record (gave th) { mine = false })
    else (l, failed th)

-- The calls that a thread can make.
pub data Call : Type 0 where
  lock : Call
  trylock : Call
  unlock : Call

unfoldable pub enter : Call → Phase
enter lock = counter_test false
enter trylock = counter_test true
enter unlock = unlock_counter_test

-- A call begins only when the one before has returned.
unfoldable pub begin_call : Call → Phase → Thread → Thread
unfolding enter
begin_call c ready th = at (enter c) th
begin_call c _ th = th

pub record World : Type 0 where
  pub held : Lock
  pub threads : ℕ → Thread

pub data Event : Type 0 where
  call : ℕ → Call → Event
  run : ℕ → Event

-- What an event does to the world: thread `t` begins a call, or takes one step.
unfoldable pub happen : (me pid : ℕ → ℕ) → Event → World → World
unfolding advance begin_call
happen me pid (call t c) w = record w {
  threads = update w.threads t (begin_call c (w.threads t).phase (w.threads t));
}
happen me pid (run t) w =
    let (l, th) = advance (me t) (pid t) (w.threads t).phase w.held (w.threads t) in
    record { held = l; threads = update w.threads t th }

unfoldable pub happen_all : (me pid : ℕ → ℕ) → List Event → World → World
unfolding happen
happen_all me pid [] w = w
happen_all me pid (e ∷ es) w = happen_all me pid es (happen me pid e w)

-- The lock as `qp_lock_create` leaves it, and threads that have called nothing.
abbrev pub fresh : World
fresh = record {
  held = record { spin = 0; hold_thread = 0; hold_process = 0; hold_counter = 0 };
  threads = λ t. record { phase = ready; status = success; depth = 0; mine = false };
}
