-- ===== src/Lock/Recursive.antt =====
-- What a call on the spin lock of src/core/qp_ipc_core.c is to do when no other thread is in the way:
-- that of a recursive lock.
use qphi.Common.{
  ℕ, zero, suc, ◌+◌, ◌≡◌, ◌≢◌, refl, ap, Bool, false, ◌&&◌, Option, none, some, arith,
  if◌then◌else◌, ◌==◌,
}
use qphi.Lock.{
  Lock, Thread, Status, Call, lock, trylock, unlock, advance, enter, ready, take, success, error,
}

-- The thread's own steps, with no other thread's between them.
unfoldable pub alone : (steps me pid : ℕ) → Lock → Thread → Lock × Thread
unfolding advance
alone zero me pid l th = (l, th)
alone (suc n) me pid l th = let (l', th') = advance me pid th.phase l th in alone n me pid l' th'

-- A recursive lock: nobody has it, or a thread of a process has it `more` times and once.
pub data Holder : Type 0 where
  nobody : Holder
  holder : (thread process more : ℕ) → Holder

abbrev pub lock_of : Holder → Lock
lock_of nobody = record { spin = 0; hold_thread = 0; hold_process = 0; hold_counter = 0 }
lock_of (holder t p k) = record {
  spin = 1;
  hold_thread = t;
  hold_process = p;
  hold_counter = k + 1;
}

abbrev pub times : Holder → ℕ
times nobody = 0
times (holder t p k) = k + 1

abbrev pub again : Holder → Holder
again nobody = nobody
again (holder t p k) = holder t p (k + 1)

abbrev pub back : Holder → Holder
back nobody = nobody
back (holder t p zero) = nobody
back (holder t p (suc k)) = holder t p k

abbrev pub is_holder : (me pid : ℕ) → Holder → Bool
is_holder me pid nobody = false
is_holder me pid (holder t p k) = t == me && p == pid

-- What a call is to return and leave; `none` if it is to wait.
abbrev pub expected : (me pid : ℕ) → Call → Holder → Option (Status × Holder)
expected me pid lock nobody = some (success, holder me pid 0)
expected me pid trylock nobody = some (success, holder me pid 0)
expected me pid unlock nobody = some (error, nobody)
expected me pid lock (holder t p k) =
    if is_holder me pid (holder t p k) then some (success, again (holder t p k)) else none
expected me pid trylock (holder t p k) =
    if is_holder me pid (holder t p k)
    then some (success, again (holder t p k))
    else some (error, holder t p k)
expected me pid unlock (holder t p k) =
    if is_holder me pid (holder t p k)
    then some (success, back (holder t p k))
    else some (error, holder t p k)

-- What the holder's call leaves.
abbrev pub own : Call → Holder → Holder
own lock h = again h
own trylock h = again h
own unlock h = back h

abbrev pub calling : Call → (status : Status) (depth : ℕ) (mine : Bool) → Thread
calling c s d b = record { phase = enter c; status = s; depth = d; mine = b }

abbrev pub and_eight : ℕ → ℕ
and_eight n = suc (suc (suc (suc (suc (suc (suc (suc n)))))))

-- What steps of a call led to: what was expected and a return, or, if it is to wait, no return and
-- the lock as it was.
abbrev pub Returned : Status → Lock → Lock × Thread → Type 0
Returned s l r = (r.0 ≡ l) × (r.1.phase ≡ ready) × (r.1.status ≡ s)

abbrev pub Waits : Lock → Lock × Thread → Type 0
Waits l r = (r.0 ≡ l) × (r.1.phase ≢ ready)

-- After `n` steps a call that is to wait waits, and after eight more any other has returned.
abbrev pub Meets : (n me pid : ℕ) (l : Lock) (th : Thread) → Option (Status × Holder) → Type 0
Meets n me pid l th none = Waits l (alone n me pid l th)
Meets n me pid l th (some (s, h)) = Returned s (lock_of h) (alone (and_eight n) me pid l th)

module _ (me pid : ℕ) where
  -- A thread that has returned takes no step.
  pub returned :
      (n : ℕ) (l : Lock) (s : Status) (d : ℕ) (b : Bool)
      → let th : Thread = record { phase = ready; status = s; depth = d; mine = b } in
        Returned s l (alone n me pid l th)
  unfolding alone advance
  returned zero l s d b = (refl, refl, refl)
  returned (suc n) l s d b = returned n l s d b

  -- A thread that tries for a lock that is taken goes on trying.
  trying :
      (n t p k : ℕ) (s : Status) (d : ℕ) (b : Bool)
      → let th : Thread = record { phase = take false; status = s; depth = d; mine = b } in
        Waits (lock_of (holder t p k)) (alone n me pid (lock_of (holder t p k)) th)
  unfolding alone advance
  trying zero t p k s d b = (refl, λ e. ground arith)
  trying (suc n) t p k s d b = trying n t p k s d b

  pub call-nobody :
      (c : Call) (n : ℕ) (s : Status) (d : ℕ) (b : Bool)
      → Meets n me pid (lock_of nobody) (calling c s d b) (expected me pid c nobody)
  unfolding alone advance enter
  call-nobody lock n s d b = returned (suc (suc (suc n))) _ _ _ _
  call-nobody trylock n s d b = returned (suc (suc (suc n))) _ _ _ _
  call-nobody unlock n s d b = returned (suc (suc (suc (suc (suc (suc (suc n))))))) _ _ _ _

  -- Two steps in the middle of a call whose outcome is known.
  pub next :
      (n : ℕ) (l l' : Lock) (th th' : Thread)
      → advance me pid th.phase l th ≡ (l', th')
      → alone (suc n) me pid l th ≡ alone n me pid l' th'
  unfolding alone
  next n l l' th th' e = ap (λ r. alone n me pid r.0 r.1) e
