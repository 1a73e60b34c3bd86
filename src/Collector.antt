-- ===== src/Collector.antt =====
-- kairos_quant/collectors/binance_ws.py: the Binance collector. `Kline` has the bars and their
-- validation, `Bars` the path of one symbol's bars from REST to the queue that the service
-- publishes; the other children prove what that path promises.
pub mod Kline
pub mod Bars
pub mod Sound
pub mod Finality
pub mod Publish
pub mod Life
pub mod Latch
pub mod Gap
