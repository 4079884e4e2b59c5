-- ===== src/Lock/Progress.antt =====
-- The spin lock of src/core/qp_ipc_core.c when no other thread is in the way: each call does what a
-- recursive lock is to do.
use qphi.Common.{ℕ, ◌+◌, ◌^◌, ◌<◌, ◌≡◌, subst, inl, inr, Bool, ◌&&◌, arith, ◌==◌, Bool-cases}
use qphi.Lock.{Status, Call}
use qphi.Lock.Recursive.{
  Holder, nobody, holder, lock_of, times, expected, calling, Meets, call-nobody,
}
use qphi.Lock.Own.{call-own_expected}
use qphi.Lock.Other.{call-other}

-- A call by a thread that no other disturbs does what a recursive lock is to do, whoever holds it how
-- often, as long as the counter does not wrap. Where the call is to return, it has returned after
-- eight steps, with the status and the holder that `expected` gives: a free lock is taken, the holder's
-- count goes up and down, its last unlock frees the lock, and trylock and unlock by another thread are
-- refused. Where it is to wait, lock of another's lock, it goes on for any number of steps and the
-- lock stays as it was.
pub call_refines :
    (me pid n : ℕ) (c : Call) (h : Holder) (s : Status) (d : ℕ) (b : Bool)
    → times h + 1 < 2 ^ 64
    → Meets n me pid (lock_of h) (calling c s d b) (expected me pid c h)
call_refines me pid n c nobody s d b small = call-nobody me pid c n s d b
call_refines me pid n c (holder t p k) s d b small = elim (Bool-cases (t == me && p == pid)) [
  | inr other ↦ call-other me pid t p k other s d b c n
  | inl same ↦
      let e : me ≡ t = ground arith in
      let f : pid ≡ p = ground arith in
      subst
        (λ t.
          Meets n me pid (lock_of (holder t p k)) (calling c s d b)
            (expected me pid c (holder t p k)))
        e
        (subst
          (λ p.
            Meets n me pid (lock_of (holder me p k)) (calling c s d b)
              (expected me pid c (holder me p k)))
          f (call-own_expected me pid c n k s d b (omega arith)))
]
