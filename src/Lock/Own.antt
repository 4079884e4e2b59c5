-- ===== src/Lock/Own.antt =====
-- The calls of the thread that has the spin lock of src/core/qp_ipc_core.c.
use qphi.Common.{
  ℕ, zero, suc, ◌+◌, ◌-◌, ◌^◌, ◌<◌, ◌≡◌, sym, subst, ◌∙◌, Bool, true, false, some, arith, ==-self,
}
use qphi.Lock.{
  Thread, Status, Call, Phase, lock, trylock, unlock, advance, enter, ready, counter_test,
  thread_test, process_test, count_again, unlock_counter_test, unlock_thread_test,
  unlock_process_test, uncount, left_test, success,
}
use qphi.Lock.Recursive.{
  alone, nobody, holder, lock_of, own, expected, calling, Returned, Meets, returned, next,
}

module _ (me pid : ℕ) where
  module _ (n k : ℕ) (try : Bool) (s : Status) (d : ℕ) (b : Bool) where
    abbrev phased : Phase → Thread
    phased p = record { phase = p; status = s; depth = d; mine = b }

    -- The tests of a call that takes the lock, by the holder.
    enters_own :
        alone (suc (suc (suc n))) me pid (lock_of (holder me pid k)) (phased (counter_test try))
        ≡ alone n me pid (lock_of (holder me pid k)) (phased count_again)
    unfolding advance
    enters_own =
        let l = lock_of (holder me pid k) in
        next me pid (suc (suc n)) l l (phased (counter_test try)) (phased (thread_test try))
          (ground arith)
        ∙ next me pid (suc n) l l (phased (thread_test try)) (phased (process_test try))
            (ground arith)
        ∙ next me pid n l l (phased (process_test try)) (phased count_again) (ground arith)

    -- The tests of an unlock by the holder, and its count.
    leaves_own :
        k + 1 < 2 ^ 64
        → alone
            (suc (suc (suc (suc n))))
            me
            pid
            (lock_of (holder me pid k))
            (phased unlock_counter_test)
          ≡ alone n me pid
              (record (lock_of (holder me pid k)) { hold_counter = k })
              (phased left_test)
    unfolding advance
    leaves_own small =
        let l = lock_of (holder me pid k) in
        next me pid (suc (suc (suc n))) l l (phased unlock_counter_test) (phased unlock_thread_test)
          (ground arith)
        ∙ next me pid (suc (suc n)) l l (phased unlock_thread_test) (phased unlock_process_test)
            (ground arith)
        ∙ next me pid (suc n) l l (phased unlock_process_test) (phased uncount) (ground arith)
        ∙ next me pid n l (record l { hold_counter = k }) (phased uncount) (phased left_test)
            (ground arith)

  -- The holder's calls.
  call-own :
      (c : Call) (n k : ℕ) (s : Status) (d : ℕ) (b : Bool)
      → k + 2 < 2 ^ 64
      → Meets n me pid
          (lock_of (holder me pid k))
          (calling c s d b)
          (some (success, own c (holder me pid k)))
  unfolding alone advance enter
  call-own lock n k s d b small =
      subst (Returned success (lock_of (holder me pid (k + 1))))
        (sym (
          enters_own (suc (suc (suc (suc (suc n))))) k false s d b
          ∙ next me pid (suc (suc (suc (suc n)))) (lock_of (holder me pid k))
              (lock_of (holder me pid (k + 1)))
              (record { phase = count_again; status = s; depth = d; mine = b })
              (record { phase = ready; status = success; depth = d + 1; mine = b }) (ground arith)))
        (returned me pid (suc (suc (suc (suc n)))) (lock_of (holder me pid (k + 1))) success (d + 1)
          b)
  call-own trylock n k s d b small =
      subst (Returned success (lock_of (holder me pid (k + 1))))
        (sym (
          enters_own (suc (suc (suc (suc (suc n))))) k true s d b
          ∙ next me pid (suc (suc (suc (suc n)))) (lock_of (holder me pid k))
              (lock_of (holder me pid (k + 1)))
              (record { phase = count_again; status = s; depth = d; mine = b })
              (record { phase = ready; status = success; depth = d + 1; mine = b }) (ground arith)))
        (returned me pid (suc (suc (suc (suc n)))) (lock_of (holder me pid (k + 1))) success (d + 1)
          b)
  call-own unlock n zero s d b small =
      subst (Returned success (lock_of nobody))
        (sym (leaves_own (suc (suc (suc (suc n)))) 0 false s d b (omega arith)))
        (returned me pid n (lock_of nobody) success (d - 1) false)
  call-own unlock n (suc k) s d b small =
      subst (Returned success (lock_of (holder me pid k)))
        (sym (
          leaves_own (suc (suc (suc (suc n)))) (suc k) false s d b (omega arith)
          ∙ next me pid (suc (suc (suc n)))
              (record (lock_of (holder me pid (suc k))) { hold_counter = suc k })
              (lock_of (holder me pid k))
              (record { phase = left_test; status = s; depth = d; mine = b })
              (record { phase = ready; status = success; depth = d - 1; mine = b }) (ground arith)))
        (returned me pid (suc (suc (suc n))) (lock_of (holder me pid k)) success (d - 1) b)

  pub call-own_expected :
      (c : Call) (n k : ℕ) (s : Status) (d : ℕ) (b : Bool)
      → k + 2 < 2 ^ 64
      → Meets n me pid
          (lock_of (holder me pid k))
          (calling c s d b)
          (expected me pid c (holder me pid k))
  call-own_expected lock n k s d b small =
      rw (==-self me, ==-self pid) (call-own lock n k s d b small)
  call-own_expected trylock n k s d b small =
      rw (==-self me, ==-self pid) (call-own trylock n k s d b small)
  call-own_expected unlock n k s d b small =
      rw (==-self me, ==-self pid) (call-own unlock n k s d b small)
