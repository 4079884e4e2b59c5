-- ===== src/Lock/Other.antt =====
-- The calls of a thread while another has the spin lock of src/core/qp_ipc_core.c.
use qphi.Common.{
  ℕ, zero, suc, ◌≡◌, refl, sym, subst, ◌∙◌, inl, inr, Bool, true, false, ◌&&◌, arith, ◌==◌,
  Bool-cases,
}
use qphi.Lock.{
  Thread, Status, Call, Phase, lock, trylock, unlock, advance, enter, ready, counter_test,
  thread_test, process_test, count_again, take, set_thread, set_process, count_first,
  unlock_counter_test, unlock_thread_test, unlock_process_test, uncount, left_test, clear_thread,
  clear_process, release, error,
}
use qphi.Lock.Recursive.{
  alone, holder, lock_of, expected, calling, and_eight, Returned, Waits, Meets, returned, next,
}

module _ (me pid : ℕ) where
  -- A call by another thread.
  module _ (t p k : ℕ) (other : (t == me && p == pid) ≡ false) (s : Status) (d : ℕ) (b : Bool) where
    -- A waiting thread reads the process only if it found its own identity.
    Stuck : Phase → Type 0
    Stuck (counter_test try) = try ≡ false
    Stuck (thread_test try) = try ≡ false
    Stuck (process_test try) = (try ≡ false) × (t ≡ me)
    Stuck (take try) = try ≡ false
    Stuck _ = ⊥

    Stuck-moves :
        (ph : Phase)
        → Stuck ph
        → (ph' : Phase) × Stuck ph'
          × (advance me pid ph
                (lock_of (holder t p k))
                (record { phase = ph; status = s; depth = d; mine = b })
              ≡ (lock_of (holder t p k), record { phase = ph'; status = s; depth = d; mine = b }))
    unfolding advance Stuck
    Stuck-moves (counter_test try) h = (thread_test try, h, ground arith)
    Stuck-moves (thread_test try) h = elim (Bool-cases (t == me)) [
      | inl e ↦ (process_test try, (h, ground arith), ground arith)
      | inr e ↦ (take try, h, ground arith)
    ]
    Stuck-moves (process_test try) h = (take try, h.0, ground arith)
    Stuck-moves (take try) h = (take try, h, ground arith)
    Stuck-moves ready h = absurd h
    Stuck-moves count_again h = absurd h
    Stuck-moves set_thread h = absurd h
    Stuck-moves set_process h = absurd h
    Stuck-moves count_first h = absurd h
    Stuck-moves unlock_counter_test h = absurd h
    Stuck-moves unlock_thread_test h = absurd h
    Stuck-moves unlock_process_test h = absurd h
    Stuck-moves uncount h = absurd h
    Stuck-moves left_test h = absurd h
    Stuck-moves clear_thread h = absurd h
    Stuck-moves clear_process h = absurd h
    Stuck-moves release h = absurd h

    Waits-from :
        (n : ℕ) (ph : Phase)
        → Stuck ph
        → Waits (lock_of (holder t p k)) (
            alone n me pid
              (lock_of (holder t p k))
              (record { phase = ph; status = s; depth = d; mine = b }))
    unfolding alone Stuck
    Waits-from zero ph h = (refl, λ e. subst Stuck e h)
    Waits-from (suc n) ph h =
        let (ph', h', e) = Stuck-moves ph h in
        subst (Waits (lock_of (holder t p k)))
          (sym (
            next me pid n (lock_of (holder t p k)) (lock_of (holder t p k))
              (record { phase = ph; status = s; depth = d; mine = b })
              (record { phase = ph'; status = s; depth = d; mine = b }) e))
          (Waits-from n ph' h')

    abbrev standing : Phase → Thread
    standing ph = record { phase = ph; status = s; depth = d; mine = b }

    abbrev refused : Thread
    refused = record { phase = ready; status = error; depth = d; mine = b }

    -- One step that leaves the lock as it is.
    stand :
        (n : ℕ) (th th' : Thread)
        → advance me pid th.phase (lock_of (holder t p k)) th ≡ (lock_of (holder t p k), th')
        → alone (suc n) me pid (lock_of (holder t p k)) th
          ≡ alone n me pid (lock_of (holder t p k)) th'
    stand n th th' e = next me pid n (lock_of (holder t p k)) (lock_of (holder t p k)) th th' e

    refuses :
        (n m : ℕ) (th : Thread)
        → alone (and_eight n) me pid (lock_of (holder t p k)) th
          ≡ alone m me pid (lock_of (holder t p k)) refused
        → Returned error
            (lock_of (holder t p k))
            (alone (and_eight n) me pid (lock_of (holder t p k)) th)
    refuses n m th e =
        subst (Returned error (lock_of (holder t p k))) (sym e)
          (returned me pid m (lock_of (holder t p k)) error d b)

    trylock_refused :
        (n : ℕ)
        → Returned error
            (lock_of (holder t p k))
            (alone (and_eight n) me pid (lock_of (holder t p k)) (calling trylock s d b))
    unfolding enter advance
    trylock_refused n = elim (Bool-cases (t == me)) [
      | inr e ↦ refuses n (suc (suc (suc (suc (suc n))))) (calling trylock s d b) (
          stand _ _ (standing (thread_test true)) (ground arith)
          ∙ stand _ _ (standing (take true)) (ground arith)
          ∙ stand _ _ refused refl)
      | inl e ↦ refuses n (suc (suc (suc (suc n)))) (calling trylock s d b) (
          stand _ _ (standing (thread_test true)) (ground arith)
          ∙ stand _ _ (standing (process_test true)) (ground arith)
          ∙ stand _ _ (standing (take true)) (ground arith)
          ∙ stand _ _ refused refl)
    ]

    unlock_refused :
        (n : ℕ)
        → Returned error
            (lock_of (holder t p k))
            (alone (and_eight n) me pid (lock_of (holder t p k)) (calling unlock s d b))
    unfolding enter advance
    unlock_refused n = elim (Bool-cases (t == me)) [
      | inr e ↦ refuses n (suc (suc (suc (suc (suc (suc n)))))) (calling unlock s d b) (
          stand _ _ (standing unlock_thread_test) (ground arith) ∙ stand _ _ refused (ground arith))
      | inl e ↦ refuses n (suc (suc (suc (suc (suc n))))) (calling unlock s d b) (
          stand _ _ (standing unlock_thread_test) (ground arith)
          ∙ stand _ _ (standing unlock_process_test) (ground arith)
          ∙ stand _ _ refused (ground arith))
    ]

    pub call-other :
        (c : Call) (n : ℕ)
        → Meets n me pid
            (lock_of (holder t p k))
            (calling c s d b)
            (expected me pid c (holder t p k))
    unfolding Stuck enter
    call-other lock n = rw other (Waits-from n (counter_test false) refl)
    call-other trylock n = rw other (trylock_refused n)
    call-other unlock n = rw other (unlock_refused n)
