-- ===== src/Io/Life.antt =====
-- What closing and destroying a descriptor of src/core/qp_io_core.c releases.
use qphi.Common.{
  ℕ, ◌≡◌, ◌≢◌, Bool, false, List, [], ◌∷◌, ◌++◌, ◌==◌, if◌then◌else◌, ℤ, minus_one, is_minus_one,
  is_zero, pos, arith,
}
use qphi.Memory.Chain.{null}
use qphi.Io.Fd.{
  FdType, unknow, FdInfo, World, fd_create, fd_init, fd_is_inited, fd_is_alloced, fd_is_noblock,
  fd_is_valid, fd_close, success, error, free_block, fd_destroy, fd_set_no_block, fd_set_block,
}

-- What the descriptor at `p` owns: its number, and its request block and itself if they were allocated.
abbrev pub number_of : FdInfo → List ℤ
number_of info = if is_minus_one info.fd then [] else info.fd ∷ []

abbrev pub blocks_of : ℕ → FdInfo → List ℕ
blocks_of p info =
    (if info.is_alloced then p ∷ [] else []) ++ (if info.aio == null then [] else info.aio ∷ [])

-- `qp_fd_close` returns what `close` returns and closes a valid descriptor's number. Another
-- `qp_fd_close` returns -1 and closes nothing, whatever the kernel answered to the first.
pub fd_close-once :
    (p : ℕ) (answer again : ℤ) (w : World)
    → p ≢ null
    → let (r, w1) = fd_close p answer w in
      (w1.closed ≡ number_of (w.fds p) ++ w.closed)
      × (r ≡ (if is_minus_one (w.fds p).fd then minus_one else answer))
      × (fd_close p again w1 ≡ (minus_one, w1))
unfolding fd_close fd_is_valid
fd_close-once p answer again w set = ground arith

-- `qp_fd_destroy` of an initialised descriptor succeeds and releases what it owns, each once: the
-- number, the request block and the structure. The structure is left as not initialised, not valid
-- and in blocking mode. On any other descriptor it refuses and changes nothing.
pub fd_destroy_lem :
    (p : ℕ) (answer : ℤ) (w : World)
    → p ≢ null
    → let (s, w1) = fd_destroy p answer w in
      if (w.fds p).is_inited
      then (s ≡ success)
        × (w1.closed ≡ number_of (w.fds p) ++ w.closed)
        × (w1.freed ≡ blocks_of p (w.fds p) ++ w.freed)
        × (w1.fds p ≡ record {
          fd = minus_one;
          type = unknow;
          aio = null;
          is_inited = false;
          is_alloced = (w.fds p).is_alloced;
          is_noblock = false;
        })
      else (s ≡ error) × (w1 ≡ w)
unfolding fd_destroy fd_close fd_is_valid fd_is_inited fd_is_alloced free_block
fd_destroy_lem p answer w set = ground arith

-- A descriptor that `qp_fd_init` allocated, whatever its type and whether it has a request block, is
-- released by `qp_fd_destroy` without a leak: the structure and the block, if the allocator gave one,
-- are freed once each, and nothing is closed.
pub fd_destroy-fd_init :
    (type : FdType) (aio : Bool) (fresh block : ℕ) (answer : ℤ) (w : World)
    → fresh ≢ null
    → let (q, w1) = fd_init null type aio fresh block w in
      let (s, w2) = fd_destroy q answer w1 in
      (q ≡ fresh)
      × (s ≡ success)
      × (w2.closed ≡ w.closed)
      × (w2.freed
          ≡ fresh ∷ ((if aio then (if block == null then [] else block ∷ []) else []) ++ w.freed))
unfolding fd_init fd_create fd_destroy fd_close fd_is_valid fd_is_inited fd_is_alloced free_block
fd_destroy-fd_init type aio fresh block answer w set = ground arith

-- On a descriptor in blocking mode: without a request block, `qp_fd_setNoBlock` succeeds and sets the
-- mode exactly if the kernel's answer is 0, and then `qp_fd_setBlock` with the answer 0 succeeds and
-- gives back the fields as they were; with a request block both refuse and change nothing.
pub fd_set_block-fd_set_no_block :
    (p : ℕ) (answer : ℤ) (w : World)
    → p ≢ null
    → (w.fds p).is_noblock ≡ false
    → let (s, w1) = fd_set_no_block p answer w in
      let (t, w2) = fd_set_block p (pos 0) w1 in
      if (w.fds p).aio == null
      then (s ≡ (if is_zero answer then success else error))
        × ((w1.fds p).is_noblock ≡ is_zero answer)
        × (t ≡ success)
        × (w2.fds p ≡ w.fds p)
      else (s ≡ error) × (t ≡ error) × (w1 ≡ w) × (w2 ≡ w)
unfolding fd_set_block fd_set_no_block fd_is_noblock
fd_set_block-fd_set_no_block p answer w set blocking = ground arith
