-- ===== src/Replay.antt =====
-- The replay of candles: kairos_quant/candles.py, the series of kairos_quant/indicators.py that it
-- reads, and kairos_quant/replay.py.
pub mod Candle
pub mod Series
pub mod Points
pub mod Causal
pub mod Lengths
pub mod Streams
