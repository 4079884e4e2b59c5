-- ===== src/Lock/Tests.antt =====
-- The spin lock of src/core/qp_ipc_core.c in concrete runs.
use qphi.Common.{ℕ, ◌+◌, ◌≡◌, refl, false, List, [], ◌∷◌, arith}
use qphi.Lock.{
  success, error, Event, call, run, lock, trylock, happen_all, fresh, begin_call, enter,
}
use qphi.Lock.Invariant.{IsHeld}
use qphi.Lock.Exclusion.{happen_all-exclusive, happen_all-counter}
use qphi.Lock.Recursive.{holder, lock_of, calling, Returned, and_eight, alone}
use qphi.Lock.Progress.{call_refines}

-- Each thread's identity is its number and one; all are of one process.
abbrev me : ℕ → ℕ
me t = t + 1

abbrev pid : ℕ → ℕ
pid t = 7

-- The thread 3 takes the lock while the thread 4 tries for it.
abbrev race : List Event
race = call 3 lock ∷ call 4 trylock ∷ run 3 ∷ run 4 ∷ run 3 ∷ run 4 ∷ run 3 ∷ run 3 ∷ run 3 ∷ []

abbrev first : ℕ
first = 3

race_test : ((happen_all me pid race fresh).threads 3).depth ≡ 1
unfolding happen_all begin_call enter
race_test = refl

refused_test : ((happen_all me pid race fresh).threads 4).status ≡ error
unfolding happen_all begin_call enter
refused_test = refl

happen_all-exclusive_example : first ≡ first
unfolding happen_all begin_call enter
happen_all-exclusive_example =
    happen_all-exclusive me pid race first first (λ t u e. omega (arith, e))
      (λ t e. omega (arith, e)) (omega arith) (omega arith) (omega arith)

happen_all-counter_example : IsHeld 4 7 1 (happen_all me pid race fresh).held
unfolding happen_all begin_call enter
happen_all-counter_example =
    happen_all-counter me pid race 3 (λ t u e. omega (arith, e)) (λ t e. omega (arith, e))
      (omega arith) refl (omega arith)

call_refines_example :
    Returned error
      (lock_of (holder 4 7 1))
      (alone (and_eight 2) 5 7 (lock_of (holder 4 7 1)) (calling trylock success 0 false))
call_refines_example = call_refines 5 7 2 trylock (holder 4 7 1) success 0 false (omega arith)
