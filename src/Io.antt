-- ===== src/Io.antt =====
-- File descriptors, src/core/qp_io_core.c: this module has the transfers in full, `qp_fd_writen` and
-- `qp_fd_readn`, and `Fd` the life of a descriptor.
pub mod Transfer
pub mod Delivery
pub mod Reading
pub mod Fd
pub mod Life
mod Tests
