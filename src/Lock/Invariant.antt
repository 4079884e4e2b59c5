-- ===== src/Lock/Invariant.antt =====
-- What a thread of src/core/qp_ipc_core.c knows of the lock in each phase of a call, and that its own
-- steps keep it.
use qphi.Common.{
  ℕ, ◌+◌, ◌^◌, ◌<◌, ◌≤◌, ◌≡◌, ◌≢◌, ◌⊎◌, refl, sym, ap, subst, ◌∙◌, true, false, arith,
  if◌then◌else◌,
}
use qphi.Lock.{
  Lock, Phase, Status, Thread, advance, ready, counter_test, thread_test, process_test, count_again,
  take, set_thread, set_process, count_first, unlock_counter_test, unlock_thread_test,
  unlock_process_test, uncount, left_test, clear_thread, clear_process, release, Call, lock,
  trylock, unlock, begin_call, enter, at,
}

-- The phases of a thread that does not have the lock.
abbrev pub Outside : Phase → Type 0
Outside ready = Unit
Outside (counter_test try) = Unit
Outside (thread_test try) = Unit
Outside (take try) = Unit
Outside unlock_counter_test = Unit
Outside unlock_thread_test = Unit
Outside _ = ⊥

-- The lock says that the thread `me` of the process `pid` holds it `depth` times.
pub record IsHeld (me pid depth : ℕ) (l : Lock) : Type 0 where
  pub thread : l.hold_thread ≡ me
  pub process : l.hold_process ≡ pid
  pub counter : l.hold_counter ≡ depth
  pub positive : 0 < depth

-- What the thread that has the lock knows of its fields.
abbrev pub Inside : (me pid : ℕ) → Phase → ℕ → Lock → Type 0
Inside me pid (take try) depth l = ⊥
Inside me pid set_thread depth l = (l.hold_counter ≡ 0) × (depth ≡ 0)
Inside me pid set_process depth l = (l.hold_counter ≡ 0) × (depth ≡ 0) × (l.hold_thread ≡ me)
Inside me pid count_first depth l =
    (l.hold_counter ≡ 0) × (depth ≡ 0) × (l.hold_thread ≡ me) × (l.hold_process ≡ pid)
Inside me pid left_test depth l =
    (l.hold_counter + 1 ≡ depth) × (l.hold_thread ≡ me) × (l.hold_process ≡ pid)
Inside me pid clear_thread depth l = (l.hold_counter ≡ 0) × (depth ≡ 1)
Inside me pid clear_process depth l = (l.hold_counter ≡ 0) × (depth ≡ 1) × (l.hold_thread ≡ 0)
Inside me pid release depth l = (l.hold_counter ≡ 0) × (depth ≡ 1) × (l.hold_thread ≡ 0)
Inside me pid _ depth l = IsHeld me pid depth l

abbrev pub Local : (me pid : ℕ) → Lock → Thread → Type 0
Local me pid l th =
    if th.mine then Inside me pid th.phase th.depth l else Outside th.phase × (th.depth ≡ 0)

-- A step of a thread that has the lock: the lock stays its own, or is free.
pub record Keeps (me pid : ℕ) (l l' : Lock) (th' : Thread) : Type 0 where
  pub known : Local me pid l' th'
  pub counter : l'.hold_counter ≤ l.hold_counter + 1
  pub thread : (l'.hold_thread ≡ l.hold_thread) ⊎ (l'.hold_thread ≡ me) ⊎ (l'.hold_thread ≡ 0)
  pub spin :
      (th'.mine ≡ true) × (l'.spin ≡ 1)
      ⊎ (th'.mine ≡ false) × (l'.spin ≡ 0) × (l'.hold_counter ≡ 0) × (l'.hold_thread ≡ 0)

module _ (me pid : ℕ) (l : Lock) (taken : l.spin ≡ 1) (small : l.hold_counter + 1 < 2 ^ 64) where
  Inside-step :
      (p : Phase) (depth : ℕ) (status : Status)
      → Inside me pid p depth l
      → Keeps me pid l
          (advance me pid p l (record { phase = p; status = status; depth = depth; mine = true })).0
          (advance me pid p l (record { phase = p; status = status; depth = depth; mine = true })).1
  unfolding advance
  Inside-step ready depth status h = ground arith
  Inside-step (counter_test try) depth status h = ground arith
  Inside-step (thread_test try) depth status h = ground arith
  Inside-step (process_test try) depth status h = ground arith
  Inside-step count_again depth status h = ground arith
  Inside-step (take try) depth status h = absurd h
  Inside-step set_thread depth status h = ground arith
  Inside-step set_process depth status h = ground arith
  Inside-step count_first depth status h = ground arith
  Inside-step unlock_counter_test depth status h = ground arith
  Inside-step unlock_thread_test depth status h = ground arith
  Inside-step unlock_process_test depth status h = ground arith
  Inside-step uncount depth status h = ground arith
  Inside-step left_test depth status h = ground arith
  Inside-step clear_thread depth status h = ground arith
  Inside-step clear_process depth status h = ground arith
  Inside-step release depth status h = ground arith

-- A step of a thread that does not have the lock: the lock is as it was, or was free and is its own.
pub record Leaves (me pid : ℕ) (l l' : Lock) (th' : Thread) : Type 0 where
  pub known : Local me pid l' th'
  pub counter : l'.hold_counter ≡ l.hold_counter
  pub thread : l'.hold_thread ≡ l.hold_thread
  pub spin : (th'.mine ≡ true) × (l.spin ≡ 0) × (l'.spin ≡ 1) ⊎ (th'.mine ≡ false) × (l' ≡ l)

module _ (me pid : ℕ) (l : Lock) (other : l.hold_thread ≢ me)
    (free : (l.hold_counter ≡ 0) ⊎ (l.spin ≢ 0)) where
  Outside-step :
      (p : Phase) (status : Status)
      → Outside p
      → Leaves me pid l
          (advance me pid p l (record { phase = p; status = status; depth = 0; mine = false })).0
          (advance me pid p l (record { phase = p; status = status; depth = 0; mine = false })).1
  unfolding advance
  Outside-step ready status h = ground arith
  Outside-step (counter_test try) status h = ground arith
  Outside-step (thread_test try) status h = ground arith
  Outside-step (take try) status h = ground arith
  Outside-step unlock_counter_test status h = ground arith
  Outside-step unlock_thread_test status h = ground arith
  Outside-step (process_test try) status h = absurd h
  Outside-step count_again status h = absurd h
  Outside-step set_thread status h = absurd h
  Outside-step set_process status h = absurd h
  Outside-step count_first status h = absurd h
  Outside-step unlock_process_test status h = absurd h
  Outside-step uncount status h = absurd h
  Outside-step left_test status h = absurd h
  Outside-step clear_thread status h = absurd h
  Outside-step clear_process status h = absurd h
  Outside-step release status h = absurd h

-- Beginning a call changes nothing but the phase.
pub begin_call-Local :
    (me pid : ℕ) (l : Lock) (c : Call) (p : Phase) (th : Thread)
    → Local me pid l (at p th)
    → Local me pid l (begin_call c p (at p th)) × ((begin_call c p (at p th)).mine ≡ th.mine)
unfolding begin_call enter
begin_call-Local me pid l c ready th h = begin_ready c
  where
    begin_ready :
        (c : Call)
        → Local me pid l (begin_call c ready (at ready th))
          × ((begin_call c ready (at ready th)).mine ≡ th.mine)
    begin_ready lock = (h, refl)
    begin_ready trylock = (h, refl)
    begin_ready unlock = (h, refl)
begin_call-Local me pid l c _ th h = (h, refl)

-- A step by a thread that has the lock, and by one that has not.
pub advance-Keeps :
    (me pid : ℕ) (l : Lock) (th : Thread)
    → l.spin ≡ 1
    → l.hold_counter + 1 < 2 ^ 64
    → th.mine ≡ true
    → Local me pid l th
    → Keeps me pid l (advance me pid th.phase l th).0 (advance me pid th.phase l th).1
advance-Keeps me pid l th taken small mine h =
    let e : record th { mine = true } ≡ th = ap (λ b. record th { mine = b }) (sym mine) in
    subst (λ x. Keeps me pid l (advance me pid x.phase l x).0 (advance me pid x.phase l x).1) e
      (Inside-step me pid l taken small th.phase th.depth th.status
        (subst (λ x. Local me pid l x) (sym e) h))

pub advance-Leaves :
    (me pid : ℕ) (l : Lock) (th : Thread)
    → l.hold_thread ≢ me
    → (l.hold_counter ≡ 0) ⊎ (l.spin ≢ 0)
    → th.mine ≡ false
    → Local me pid l th
    → Leaves me pid l (advance me pid th.phase l th).0 (advance me pid th.phase l th).1
advance-Leaves me pid l th other free quiet h =
    let e : record th { mine = false } ≡ th = ap (λ b. record th { mine = b }) (sym quiet) in
    let o : Outside th.phase × (th.depth ≡ 0) = subst (λ x. Local me pid l x) (sym e) h in
    let f : record th { mine = false; depth = 0 } ≡ th =
      ap (λ d. record th { mine = false; depth = d }) (sym o.1) ∙ e in
    subst (λ x. Leaves me pid l (advance me pid x.phase l x).0 (advance me pid x.phase l x).1) f
      (Outside-step me pid l other free th.phase th.status o.0)
