-- ===== src/Snapshot.antt =====
-- kairos_quant/snapshot.py: the streaming indicators and the builder of market snapshots.
pub mod Streaming
pub mod Averages
pub mod Warm
pub mod Builder
pub mod Flat
