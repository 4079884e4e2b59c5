-- ===== src/TinyStack.antt =====
-- The frame parser, src/qp_tiny_stack.c and src/qp_tiny_stack/: this file has its data, and the
-- children its layers. A frame is the memory behind `frame`, a byte at each offset; a read past its
-- end is a fault, `none`. Pointers into the frame are offsets, NULL is `none`.
mod Protos
pub mod Layers
pub mod Bounds
pub mod Classify
pub mod Codes
mod Tests
pub mod Datalink
pub mod Network
pub mod Transmit
pub mod Parse
pub use Protos.*
