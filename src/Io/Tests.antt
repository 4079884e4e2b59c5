-- ===== src/Io/Tests.antt =====
-- The transfers and the life of a descriptor of src/core/qp_io_core.c, at concrete answers of the kernel.
use qphi.Common.{
  ℕ, ◌≡◌, inl, inr, refl, true, false, none, some, List, [], ◌∷◌, ◌++◌, arith, pos, minus_one,
  Returns, ◌==◌, if◌then◌else◌,
}
use qphi.Io.Transfer.{Answer, writen, readn, Honest, Goes}
use qphi.Io.Delivery.{writen-all, writen-prefix, Prefix}
use qphi.Io.Reading.{readn-all, end_of_file}
use qphi.Memory.Chain.{null}
use qphi.Io.Fd.{
  World, cleared, socket, success, fd_create, fd_init, fd_close, fd_destroy, fd_set_no_block,
  fd_set_block,
}
use qphi.Io.Life.{fd_close-once, fd_destroy_lem, fd_destroy-fd_init, fd_set_block-fd_set_no_block}

abbrev message : List ℕ
message = 10 ∷ 20 ∷ 30 ∷ []

abbrev interrupted : Answer
interrupted = record { ret = minus_one; again = true }

abbrev took_two : Answer
took_two = record { ret = pos 2; again = false }

abbrev took_one : Answer
took_one = record { ret = pos 1; again = false }

-- Two bytes, a signal, one byte.
abbrev broken_up : List Answer
broken_up = took_two ∷ interrupted ∷ took_one ∷ []

broken_up-Honest : Honest 3 broken_up
broken_up-Honest =
    inr (2, refl, omega arith, omega arith, inl (refl, inr (1, refl, omega arith, omega arith, tt)))

broken_up-Goes : Goes broken_up
broken_up-Goes = (inr (1, refl), (inl (refl, refl), (inr (0, refl), tt)))

-- The kernel takes one byte a call, and then fails.
abbrev failing : List Answer
failing = took_one ∷ record { ret = minus_one; again = false } ∷ []

fail_test : writen failing message ≡ some (1, 10 ∷ [])
unfolding writen
fail_test = refl

writen-all_example : writen broken_up message ≡ some (3, message)
writen-all_example = writen-all broken_up message broken_up-Honest broken_up-Goes (omega arith)

-- One byte, then an error.
failing-Honest : Honest 3 failing
failing-Honest = inr (1, refl, omega arith, omega arith, inl (refl, tt))

writen-prefix_example : Returns (Prefix message) (writen failing message)
writen-prefix_example = writen-prefix failing message failing-Honest (inr (inl (inr (refl, refl))))

abbrev stream : List ℕ
stream = 7 ∷ 8 ∷ 9 ∷ 10 ∷ 11 ∷ []

readn-all_example :
    (readn broken_up 3 stream ≡ none)
    × (readn (broken_up ++ end_of_file ∷ []) 3 stream ≡ some (3, 7 ∷ 8 ∷ 9 ∷ []))
readn-all_example =
    readn-all broken_up 3 stream (omega arith) broken_up-Honest broken_up-Goes (omega arith)

-- The descriptor at 10 has the number 5 and the request block 30; the one at 11 has neither.
abbrev two_fds : World
two_fds = record {
  fds = λ p. if p == 10 then record (cleared true) { fd = pos 5; aio = 30 } else cleared false;
  closed = [];
  freed = [];
}

fd_close-once_example :
    ((fd_close 10 (pos 0) two_fds).1.closed ≡ pos 5 ∷ [])
    × ((fd_close 10 (pos 0) two_fds).0 ≡ pos 0)
    × (fd_close 10 (pos 0) (fd_close 10 (pos 0) two_fds).1
        ≡ (minus_one, (fd_close 10 (pos 0) two_fds).1))
fd_close-once_example = fd_close-once 10 (pos 0) (pos 0) two_fds (λ e. omega (arith, e))

fd_destroy_lem_example :
    ((fd_destroy 10 (pos 0) two_fds).0 ≡ success)
    × ((fd_destroy 10 (pos 0) two_fds).1.closed ≡ pos 5 ∷ [])
    × ((fd_destroy 10 (pos 0) two_fds).1.freed ≡ 10 ∷ 30 ∷ [])
    × ((fd_destroy 10 (pos 0) two_fds).1.fds 10 ≡ record (cleared true) { is_inited = false })
fd_destroy_lem_example = fd_destroy_lem 10 (pos 0) two_fds (λ e. omega (arith, e))

fd_destroy-fd_init_example :
    ((fd_init null socket true 40 50 two_fds).0 ≡ 40)
    × ((fd_destroy 40 (pos 0) (fd_init null socket true 40 50 two_fds).1).0 ≡ success)
    × ((fd_destroy 40 (pos 0) (fd_init null socket true 40 50 two_fds).1).1.closed ≡ [])
    × ((fd_destroy 40 (pos 0) (fd_init null socket true 40 50 two_fds).1).1.freed ≡ 40 ∷ 50 ∷ [])
unfolding fd_init fd_create
fd_destroy-fd_init_example =
    fd_destroy-fd_init socket true 40 50 (pos 0) two_fds (λ e. omega (arith, e))

fd_set_block-fd_set_no_block_example :
    ((fd_set_no_block 11 (pos 0) two_fds).0 ≡ success)
    × (((fd_set_no_block 11 (pos 0) two_fds).1.fds 11).is_noblock ≡ true)
    × ((fd_set_block 11 (pos 0) (fd_set_no_block 11 (pos 0) two_fds).1).0 ≡ success)
    × ((fd_set_block 11 (pos 0) (fd_set_no_block 11 (pos 0) two_fds).1).1.fds 11 ≡ two_fds.fds 11)
fd_set_block-fd_set_no_block_example =
    fd_set_block-fd_set_no_block 11 (pos 0) two_fds (λ e. omega (arith, e)) refl
