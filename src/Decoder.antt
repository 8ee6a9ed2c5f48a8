-- ===== src/Decoder.antt =====
-- The trace decoder (tools/ibs_decoder/ibs_decoder.c) and the unions of include/ibs-uapi.h.
pub mod Parse
pub mod Work
pub mod Stream
pub mod Program
pub mod Fields
pub mod Header
pub mod Entry
pub mod Aligned
mod Tests
