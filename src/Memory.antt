-- ===== src/Memory.antt =====
-- The intrusive containers of src/core/qp_memory_core.h, over stores that give each address the
-- value of the field there: 0 is NULL.
pub mod Chain
pub mod Ring
pub mod Queue
pub mod Divide
mod Tests
