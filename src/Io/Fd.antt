-- ===== src/Io/Fd.antt =====
-- The life of a descriptor, src/core/qp_io_core.c: `qp_fd_create` to `qp_fd_close`. What the kernel and
-- the allocator answer is given to each call.
use qphi.Common.{
  ℕ, Bool, true, false, ◌||◌, not, List, ◌∷◌, ◌==◌, if◌then◌else◌, ℤ, minus_one, is_minus_one,
  is_zero,
}
use qphi.Memory.Chain.{null, update}

pub data FdType : Type 0 where
  unknow : FdType
  file : FdType
  socket : FdType
  event : FdType

-- `aio` is the address of the request block, or 0.
pub record FdInfo : Type 0 where
  pub fd : ℤ
  pub type : FdType
  pub aio : ℕ
  pub is_inited : Bool
  pub is_alloced : Bool
  pub is_noblock : Bool

-- The descriptors' fields by address, the numbers given to `close`, and the addresses given to `free`.
pub record World : Type 0 where
  pub fds : ℕ → FdInfo
  pub closed : List ℤ
  pub freed : List ℕ

abbrev pub set_fd : ℕ → FdInfo → World → World
set_fd p info w = record w { fds = update w.fds p info }

-- The memory after `memset`, with the two fields that are set, and initialised.
abbrev pub cleared : (is_alloced : Bool) → FdInfo
cleared alloced = record {
  fd = minus_one;
  type = unknow;
  aio = null;
  is_inited = true;
  is_alloced = alloced;
  is_noblock = false;
}

-- `fresh` is what the allocator returns, 0 for a failure.
unfoldable pub fd_create : (fd fresh : ℕ) → World → ℕ × World
fd_create p fresh w =
    if p == null
    then (if fresh == null then (null, w) else (fresh, set_fd fresh (cleared true) w))
    else (p, set_fd p (cleared false) w)

unfoldable pub fd_init : (fd : ℕ) → FdType → (aio : Bool) → (fresh block : ℕ) → World → ℕ × World
unfolding fd_create
fd_init p type aio fresh block w =
    let (q, w1) = fd_create p fresh w in
    if q == null then (null, w1) else (
      q,
      set_fd q (record (w1.fds q) { aio = if aio then block else (w1.fds q).aio; type = type }) w1,
    )

unfoldable pub fd_is_inited : ℕ → World → Bool
fd_is_inited p w = if p == null then false else (w.fds p).is_inited

unfoldable pub fd_is_alloced : ℕ → World → Bool
fd_is_alloced p w = if p == null then false else (w.fds p).is_alloced

unfoldable pub fd_is_noblock : ℕ → World → Bool
fd_is_noblock p w = if p == null then false else (w.fds p).is_noblock

unfoldable pub fd_is_valid : ℕ → World → Bool
fd_is_valid p w = if p == null then false else not (is_minus_one (w.fds p).fd)

-- `answer` is what `close` returns.
unfoldable pub fd_close : (fd : ℕ) (answer : ℤ) → World → ℤ × World
unfolding fd_is_valid
fd_close p answer w =
    if fd_is_valid p w
    then (
      answer,
      record w {
        fds = update w.fds p (record (w.fds p) { fd = minus_one });
        closed = (w.fds p).fd ∷ w.closed;
      },
    )
    else (minus_one, w)

pub data Status : Type 0 where
  success : Status
  error : Status

unfoldable pub free_block : ℕ → World → World
free_block p w = if (w.fds p).aio == null then w else record w {
  fds = update w.fds p (record (w.fds p) { aio = null });
  freed = (w.fds p).aio ∷ w.freed;
}

unfoldable pub fd_destroy : (fd : ℕ) (answer : ℤ) → World → Status × World
unfolding fd_is_inited fd_close free_block fd_is_alloced
fd_destroy p answer w =
    if fd_is_inited p w
    then (let w1 = (fd_close p answer w).1 in
        let w2 = free_block p (set_fd p (record (w1.fds p) { type = unknow }) w1) in
        let w3 = set_fd p (record (w2.fds p) { is_noblock = false; is_inited = false }) w2 in
        (success, if fd_is_alloced p w3 then record w3 { freed = p ∷ w3.freed } else w3))
    else (error, w)

-- `answer` is what the setting `fcntl` returns.
unfoldable pub fd_set_no_block : (fd : ℕ) (answer : ℤ) → World → Status × World
unfolding fd_is_noblock
fd_set_no_block p answer w =
    if p == null || not ((w.fds p).aio == null)
    then (error, w)
    else if fd_is_noblock p w
    then (success, w)
    else if is_zero answer
    then (success, set_fd p (record (w.fds p) { is_noblock = true }) w)
    else (error, w)

unfoldable pub fd_set_block : (fd : ℕ) (answer : ℤ) → World → Status × World
unfolding fd_is_noblock
fd_set_block p answer w =
    if p == null || not ((w.fds p).aio == null)
    then (error, w)
    else if not (fd_is_noblock p w)
    then (success, w)
    else if is_zero answer
    then (success, set_fd p (record (w.fds p) { is_noblock = false }) w)
    else (error, w)
