-- ===== src/Io/Transfer.antt =====
-- `qp_fd_writen` and `qp_fd_readn`. The kernel's answers to `write` and `read` are a list: what the
-- call returned, and whether `errno` was then one of EINTR, EAGAIN and EWOULDBLOCK. A loop that has
-- used up the answers is still in a call, `none`.
use qphi.Common.{
  ℕ, zero, suc, ◌+◌, ◌-◌, ◌≤◌, ◌≡◌, ◌⊎◌, Bool, true, false, Option, none, some, List, [], ◌∷◌, ◌++◌,
  take, drop, length, ltb, if◌then◌else◌, ℤ, pos, negsuc, pos_part, to_int, minus_one,
}

pub record Answer : Type 0 where
  pub ret : ℤ
  pub again : Bool

-- `ret` is an `int`, so what the call returns is narrowed. `rest` are the bytes from `vptr` on, `out`
-- those that the kernel has taken.
unfoldable pub writen_loop :
    List Answer → (nbytes ndone : ℕ) → (rest out : List ℕ) → Option (ℕ × List ℕ)
writen_loop [] nbytes ndone rest out = if ltb ndone nbytes then none else some (ndone, out)
writen_loop (a ∷ answers) nbytes ndone rest out =
    if ltb ndone nbytes
    then elim (to_int a.ret) [
      | pos zero ↦ some (ndone, out)
      | pos (suc k) ↦
          writen_loop answers nbytes (ndone + suc k) (drop (suc k) rest)
            (out ++ take (pos_part a.ret) rest)
      | negsuc _ ↦ if a.again then writen_loop answers nbytes ndone rest out else some (ndone, out)
    ]
    else some (ndone, out)

unfoldable pub writen : List Answer → List ℕ → Option (ℕ × List ℕ)
unfolding writen_loop
writen answers bytes = writen_loop answers (length bytes) 0 bytes []

-- `stream` are the bytes that the kernel will deliver, `buf` those that stand in the buffer. The test
-- is on `nbytes`, which the loop does not change.
unfoldable pub readn_loop :
    List Answer → (nbytes ndone : ℕ) → (stream buf : List ℕ) → Option (ℕ × List ℕ)
readn_loop [] nbytes ndone stream buf = if ltb 0 nbytes then none else some (ndone, buf)
readn_loop (a ∷ answers) nbytes ndone stream buf =
    if ltb 0 nbytes
    then elim (to_int a.ret) [
      | pos zero ↦ some (ndone, buf)
      | pos (suc k) ↦
          readn_loop answers nbytes (ndone + suc k) (drop (pos_part a.ret) stream)
            (buf ++ take (pos_part a.ret) stream)
      | negsuc _ ↦ if a.again then readn_loop answers nbytes ndone stream buf else some (ndone, buf)
    ]
    else some (ndone, buf)

unfoldable pub readn : List Answer → (nbytes : ℕ) → List ℕ → Option (ℕ × List ℕ)
unfolding readn_loop
readn answers nbytes stream = readn_loop answers nbytes 0 stream []

-- The kernel's side: each call returns -1, or at most what it was asked for, which is `room`, and
-- at most 0x7ffff000.
abbrev pub Honest : (room : ℕ) → List Answer → Type 0
Honest room [] = Unit
Honest room (a ∷ answers) =
    (a.ret ≡ minus_one) × Honest room answers
    ⊎ (n : ℕ) × (a.ret ≡ pos n) × (n ≤ room) × (n ≤ 0x7ffff000) × Honest (room - n) answers

-- The answers that do not let the loop stop early: each is a retry or takes a byte.
abbrev pub Goes : List Answer → Type 0
Goes [] = Unit
Goes (a ∷ answers) =
    ((a.ret ≡ minus_one) × (a.again ≡ true) ⊎ (n : ℕ) × (a.ret ≡ pos (suc n))) × Goes answers

-- The bytes that the answers move.
abbrev pub moved : List Answer → ℕ
moved [] = 0
moved (a ∷ answers) = pos_part a.ret + moved answers

-- An answer on which a loop gives up: the end of a file, or an error that is no retry.
abbrev pub Stops : Answer → Type 0
Stops a = (a.ret ≡ pos 0) ⊎ (a.ret ≡ minus_one) × (a.again ≡ false)

-- The answers are enough to end a loop that asks for `room` bytes: they move them all, or one stops it.
abbrev pub Ends : (room : ℕ) → List Answer → Type 0
Ends room [] = room ≡ 0
Ends room (a ∷ answers) = Stops a ⊎ Ends (room - pos_part a.ret) answers
