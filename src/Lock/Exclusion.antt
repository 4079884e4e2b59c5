-- ===== src/Lock/Exclusion.antt =====
-- Mutual exclusion of the spin lock of src/core/qp_ipc_core.c, under every interleaving.
use qphi.Common.{
  ℕ, suc, ◌+◌, ◌^◌, ◌<◌, ◌≡◌, ◌≢◌, inl, inr, refl, sym, subst, true, false, List, [], ◌∷◌, arith,
  length, if◌then◌else◌, Bool-cases,
}
use qphi.Lock.{Lock, Thread, World, Event, happen, happen_all, fresh, ready}
use qphi.Lock.Invariant.{Local, IsHeld, Inside, Outside}
use qphi.Lock.Moves.{IsFair, clash, happen-IsFair}

ready-IsHeld :
    (me pid : ℕ) (l : Lock) (th : Thread)
    → th.mine ≡ true
    → th.phase ≡ ready
    → Local me pid l th
    → IsHeld me pid th.depth l
ready-IsHeld me pid l th m idle k =
    subst (λ p. Inside me pid p th.depth l) idle
      (subst
        (λ b. if b then Inside me pid th.phase th.depth l else Outside th.phase × (th.depth ≡ 0)) m
        k)

module _ (me pid : ℕ → ℕ) (distinct : (t u : ℕ) → me t ≡ me u → t ≡ u)
    (set : (t : ℕ) → me t ≢ 0) where
  fresh-IsFair : IsFair me pid 0 fresh
  fresh-IsFair = record {
    known = λ t. (tt, refl);
    only = λ t u m. absurd (clash (sym m));
    taken = λ t m. absurd (clash (sym m));
    free = λ z. refl;
    owner = λ t e. absurd (set t (sym e));
    counter = omega arith;
  }

  happen_all-IsFair :
      (es : List Event) (n : ℕ) (w : World)
      → n + length es < 2 ^ 64
      → IsFair me pid n w
      → IsFair me pid (n + length es) (happen_all me pid es w)
  unfolding happen_all
  happen_all-IsFair [] n w small fair = subst (λ k. IsFair me pid k w) (omega arith) fair
  happen_all-IsFair (e ∷ es) n w small fair =
      subst (λ k. IsFair me pid k (happen_all me pid es (happen me pid e w))) (omega arith)
        (happen_all-IsFair es (suc n) (happen me pid e w) (omega arith)
          (happen-IsFair me pid distinct set e n w (omega arith) fair))

  -- A thread for which more calls took the lock than gave it back has it.
  depth-mine :
      (n : ℕ) (w : World) (t : ℕ)
      → IsFair me pid n w
      → 0 < (w.threads t).depth
      → (w.threads t).mine ≡ true
  depth-mine n w t fair deep = elim (Bool-cases (w.threads t).mine) [
    | inl m ↦ m
    | inr m ↦ absurd (let k = fair.known t in no_depth m k)
  ]
    where
      no_depth : (w.threads t).mine ≡ false → Local (me t) (pid t) w.held (w.threads t) → ⊥
      no_depth m k = ground arith

-- For every sequence of fewer than 2 ^ 64 calls and steps of threads with different identities that
-- are not 0, in whatever order the threads' steps come, no two threads have the spin lock: if two have
-- each had more successful locks and trylocks than successful unlocks, they are one.
pub happen_all-exclusive :
    (me pid : ℕ → ℕ) (es : List Event) (t u : ℕ)
    → ((t u : ℕ) → me t ≡ me u → t ≡ u)
    → ((t : ℕ) → me t ≢ 0)
    → length es < 2 ^ 64
    → 0 < ((happen_all me pid es fresh).threads t).depth
    → 0 < ((happen_all me pid es fresh).threads u).depth
    → t ≡ u
happen_all-exclusive me pid es t u distinct set small deep_t deep_u =
    let w = happen_all me pid es fresh in
    let fair : IsFair me pid (0 + length es) w =
      happen_all-IsFair me pid distinct set es 0 fresh (omega arith)
        (fresh-IsFair me pid distinct set) in
    fair.only t u (depth-mine me pid distinct set (0 + length es) w t fair deep_t)
      (depth-mine me pid distinct set (0 + length es) w u fair deep_u)

-- For every sequence of fewer than 2 ^ 64 calls and steps of threads with different identities that
-- are not 0, while a thread that has the lock is in no call, the lock names this thread and its
-- process, and its counter is how often the thread has it.
pub happen_all-counter :
    (me pid : ℕ → ℕ) (es : List Event) (t : ℕ)
    → ((t u : ℕ) → me t ≡ me u → t ≡ u)
    → ((t : ℕ) → me t ≢ 0)
    → length es < 2 ^ 64
    → ((happen_all me pid es fresh).threads t).phase ≡ ready
    → 0 < ((happen_all me pid es fresh).threads t).depth
    → IsHeld
        (me t)
        (pid t)
        ((happen_all me pid es fresh).threads t).depth
        (happen_all me pid es fresh).held
happen_all-counter me pid es t distinct set small idle deep =
    let w = happen_all me pid es fresh in
    let fair : IsFair me pid (0 + length es) w =
      happen_all-IsFair me pid distinct set es 0 fresh (omega arith)
        (fresh-IsFair me pid distinct set) in
    let m = depth-mine me pid distinct set (0 + length es) w t fair deep in
    let k = fair.known t in ready-IsHeld (me t) (pid t) w.held (w.threads t) m idle k
