-- ===== src/Lib.antt =====
-- QPHi, a C library for network programs: models of its core, with the theorems that make it correct.
--
-- The program. src/core/ has memory (a singly linked list and a doubly linked queue that are threaded
-- through the objects, a red-black tree), a pool of blocks of one size on the list, a manager of
-- pools, file descriptors, and locks. src/qp_tiny_stack.c parses network frames, one file of
-- src/qp_tiny_stack/ for each protocol. On these stand files, sockets, processes and the event loop.
--
-- The models.
-- * Common has what they share: the library's names, tests on numbers, lists measured by native
--   numbers, lists as sets, signed integers, and computations that may fault.
-- * Memory.Chain models `qp_list_t` of src/core/qp_memory_core.h. Addresses are numbers and the field
--   `next` is a function of them. An operation takes the field and returns it changed.
-- * Memory.Ring models `qp_queue_t` of the same header, with the fields `prev` and `next`; each function
--   is the source's sequence of assignments.
-- * Rbtree models `qp_rbtree_t` of src/core/qp_memory_core.c. Store has the fields of all nodes and the
--   root of each tree, as functions of the address; the tree at `rb` has its sentinel at `rb + 8`.
--   Each function is that of the same name behind `qp_rbtree_`, and one part of a long one has a
--   name of its own. Rbtree.Shape has the tree that the fields describe, Rbtree.Trail what is above a
--   place in it, Rbtree.Balance the rules of the colors, and IsRbtree of Rbtree.Settle all of them.
--   The repair after a deletion has a round for each side of the parent; Rbtree.Sides has what the two
--   share, with the fields `left` and `right` exchanged.
-- * Pool models `qp_pool_t` of src/core/qp_pool_core.c. Its memory is the fields `next` and `root` of
--   the elements, the pool's own fields by address, and the addresses that were given to `free`.
--   `pool_create` to `pool_free` are the functions qp_pool_create to qp_pool_free. What the allocator
--   returns is a parameter: the address of a new pool, and the address of a room by its size, 0 for a
--   failure. `size_t` is 64 bits wide. Pool.Invariant says when a memory holds a pool.
-- * File models the buffers of src/qp_file.c, `file_close`, `flush`, `track`, `write` and `read` being
--   the functions of the same names behind `qp_file_`. The kernel's answers to `write` and `read` are
--   a list, and a call that has used them up still waits. A memcpy that leaves a buffer, takes NULL or
--   copies between two ranges that overlap is a fault. A call with NULL for the file, which the source
--   refuses, is left out.
-- * TinyStack models the parser: `datalink_…`, `network_…` and `transmit_…` are the functions of the
--   same names behind `qp_stack_`, and `parse` is qp_stack_parse. A frame is the list of its bytes,
--   and a read behind its end is a fault, `none`. `len` is the caller's and may differ. A pointer into
--   the frame is an offset. The host is little-endian.
-- * Lock models qp_lock_lock, qp_lock_trylock and qp_lock_unlock of src/core/qp_ipc_core.c on a spin
--   lock. `advance` is one step of a thread, an access to one field of the lock, and `happen_all` runs
--   a sequence of calls and steps of any threads. The steps are sequentially consistent. A thread's
--   identity and process are the parameters `me` and `pid`. Lock.Recursive says what a call is to do.
-- * Io.Fd models qp_fd_create to qp_fd_close of src/core/qp_io_core.c. Each call is given what the
--   kernel or the allocator answers, and the world keeps what was closed and what was freed.
-- * Io.Transfer models qp_fd_writen and qp_fd_readn of src/core/qp_io_core.c. The kernel's answers are
--   a list; a loop that has used them up is still in a call, `none`.
--
-- Loops. The loop of `parse` runs once for each layer up to the level, at most three times, and its
-- fuel is that number. The loop of `pool_init` runs once for each element. The transfers' loops use
-- one answer of the kernel in each round, and Ends in Io.Transfer says which lists of answers are
-- enough. So do those of a file, and their theorems say how many answers are. The tree's loops are
-- given a number of rounds, and `none` says that they were not enough; one round more than the tree is
-- high is.
--
-- A call on the lock is run for eight of its own steps, the number that the longest one, the last
-- unlock, takes.
--
-- Not modelled: the vendored libraries under deps/, the tests, and what only calls the system. The
-- manager, locks on a mutex, the opening of files and locks on them, processes, sockets and events have
-- no model yet.
pub mod Common
pub mod Memory
pub mod Pool
pub mod Lock
pub mod Rbtree
pub mod Io
pub mod File
pub mod TinyStack
