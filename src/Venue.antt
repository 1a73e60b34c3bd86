-- ===== src/Venue.antt =====
-- The comparison of the two venues and the gate before an entry: kairos_quant/venue_comparison.py,
-- kairos_quant/runtime_venue_gate.py and kairos_quant/venue_poll.py.
pub mod Book
pub mod Quality
pub mod Admission
pub mod Parsing
pub mod Mapping
pub mod Compare
pub mod Rounds
pub mod Qualified
pub mod Verdict
pub mod Counts
pub mod Poll
pub mod Outcome
