-- ===== src/Tape.antt =====
-- kairos_quant/simulation_book.py: the tape recorder of top-N books. The state and the operations
-- stand in the children; this module passes them on.
pub mod Book
pub mod State
pub mod Ops
pub mod Capture
pub mod Invariant
pub mod Captures
pub mod Traces
pub mod Safety
