-- ===== src/Lib.antt =====
-- The quant scouts of Kairos (kairos_quant/): they read public Binance market data, keep the closed
-- one-minute bars and the order books of five symbols, and publish bars and snapshots to a bus.
--
-- How the parts work together. The collector (kairos_quant/collectors/binance_ws.py) receives bars by
-- WebSocket and REST; a bar becomes final when two REST responses agree on it, and the service
-- publishes it and then acknowledges it. A simulation recorder (kairos_quant/simulation_book.py) writes
-- the order books into a bounded tape of hash-linked frames, with the book checks of
-- kairos_quant/orderbook.py. A repair (kairos_quant/long_gap_recovery.py) fills long gaps in the published
-- bars while the consumers are stopped.
-- The service builds a snapshot of a symbol from its closed bars and its book (kairos_quant/snapshot.py),
-- which takes the bias of kairos_quant/bias.py. Before an entry, a gate compares the books of two venues
-- (kairos_quant/runtime_venue_gate.py). A capture keeps the source bytes and the events derived from them
-- within a budget (kairos_quant/native_capture.py). A replay (kairos_quant/replay.py) derives the bias at
-- each candle of a series.
--
-- Where each part is modelled.
--   OrderBook      kairos_quant/orderbook.py, function by function; OrderBook/Order proves the
--                  normalisation.
--   Tape           kairos_quant/simulation_book.py. Tape/State is the recorder's state, Tape/Ops and
--                  Tape/Capture its methods, each a state-passing function that returns or raises;
--                  the clock reading of a call is an argument. Tape/Invariant, Captures, Traces and
--                  Safety are the proofs.
--   Collector      kairos_quant/collectors/binance_ws.py, the bars of one symbol. Collector/Kline is
--                  ClosedKline with _valid_closed_kline and _make_closed_kline, Collector/Bars the
--                  dicts of the collector at the symbol and the methods over them
--                  (_observe_rest_closed_kline, _append_authoritative_kline, restore_closed_kline,
--                  the end of _on_kline, acknowledge_closed_klines, drain_closed_klines),
--                  Collector/Life their sequences. The other children are proofs.
--   Recovery       kairos_quant/long_gap_recovery.py. Recovery/Contract has what it takes from
--                  elsewhere, Recovery/Status is RecoveryStatus and the state of a run, Recovery/Page
--                  parse_page, Recovery/Symbol recover_symbol, and Recovery/Lease load_anchor and
--                  _recover_with_lease, which kairos_quant/controlled_runtime_data_recovery.py repeats
--                  word for word. Recovery/Runs is the profiles and the limits of a run of either
--                  program, and Recovery/Writer their run_recovery with the writer that it opens and
--                  closes. The other children are proofs.
--   Venue          Venue/Book, Compare and Rounds are kairos_quant/venue_comparison.py, Venue/Quality is
--                  kairos_quant/runtime_venue_gate.py and Venue/Poll kairos_quant/venue_poll.py. The
--                  other children are proofs.
--   Native         kairos_quant/native_capture.py. Native/Text is its tests of text, Native/State the
--                  state of a session and its budgets, Native/Calls the arguments of the captures and
--                  their checks, Native/Capture its methods. The other children are proofs.
--   Snapshot       kairos_quant/snapshot.py. Snapshot/Streaming is the streaming indicators,
--                  Snapshot/Builder the builder of a snapshot. The other children are proofs.
--   Replay         Replay/Candle is kairos_quant/candles.py, Replay/Series the ema, rsi, macd and
--                  atr of kairos_quant/indicators.py, Replay/Points kairos_quant/replay.py;
--                  The other children are proofs.
--   Bias           kairos_quant/bias.py.
--   Prelude        shared names, lists, dicts keyed by numbers, results, and Floats the type of floats.
--   Examples       the definitions run, and the theorems applied, at concrete inputs.
--
-- Parameters. Python's floats, the event and frame contracts of kairos_core, hashes, text methods,
-- the REST endpoint, the durable writer and the clock are arguments, and so are regular expressions,
-- codecs, numpy's mean and NaN, the sinks of the capture, the parsers of URLs and JSON and the
-- platform; the laws that a proof needs of them are named records (IsOrdered, IsExact, IsContract,
-- IsDurable, IsSink). Integers are unbounded, as in Python; what may be no integer or no text in a call is
-- said so in its argument's type.
--
-- Fuel. promote_pending has one round for each held bar, and recover_loop one round for each minute up
-- to the deadline; both are proved to be enough.
--
-- Not modelled: the tasks, sockets and reconnects, the bus, SQL, the other streams of the collector,
-- native replay, the service, its settings and its producer lease, and the command line, HTTP and report
-- files of the venue comparison.
pub mod Prelude
pub mod Floats
pub mod OrderBook
pub mod Bias
pub mod Tape
pub mod Venue
pub mod Snapshot
pub mod Native
pub mod Collector
pub mod Recovery
pub mod Replay
pub mod Examples
