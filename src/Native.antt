-- ===== src/Native.antt =====
-- kairos_quant/native_capture.py: the bounded capture of source bytes and derived events.
pub mod Text
pub mod State
pub mod Calls
pub mod Capture
pub mod Budget
pub mod Bounded
pub mod Lineage
pub mod Stored
