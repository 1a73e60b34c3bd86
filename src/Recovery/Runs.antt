-- ===== src/Recovery/Runs.antt =====
-- `run_recovery` and `_run_recovery` of kairos_quant/long_gap_recovery.py and of
-- kairos_quant/controlled_runtime_data_recovery.py: the profiles and the checks before a run. Times are numbers of milliseconds since the epoch.
use kairos_quant_scouts.Prelude.{
  ℕ, ◌%◌, Bool, true, false, not, ◌&&◌, ◌||◌, Option, none, some, List, [], ◌∷◌, String, str_eq,
  ◌==◌,
}
use kairos_quant_scouts.Prelude.Int.{ℤ, pos, pos_part, ltb_ℤ, max_ℤ, ◌-ℤ◌}
use kairos_quant_scouts.Prelude.Text.{one_of}
use kairos_quant_scouts.Floats.{Floats}
use kairos_quant_scouts.Tape.State.{PyInt, int, other}
use kairos_quant_scouts.Collector.Kline.{one_minute_ms}
use kairos_quant_scouts.Recovery.Contract.{Contract, Outside}
use kairos_quant_scouts.Recovery.Lease.{recovered_symbols}

-- Which of the two programs runs.
pub data Profile : Type 0 where
  long_gap controlled_runtime : Profile

-- `RECOVERY_SCHEMA_VERSIONS`
abbrev pub recovery_schema_versions : List String
recovery_schema_versions =
    "001_audit_and_idempotency.sql" ∷ "002_durable_runtime.sql" ∷ "003_execution_effect_journal.sql"
    ∷ "004_execution_recovery_delay.sql" ∷ "005_source_state_and_usage.sql"
    ∷ "006_paper_trade_lifecycle.sql" ∷ "007_execution_runtime_health.sql"
    ∷ "008_public_execution_events.sql" ∷ "009_paper_canary_arms.sql"
    ∷ "010_runtime_compensation_reserve.sql" ∷ "011_execution_mutation_budget.sql"
    ∷ "012_outbox_producer_order.sql" ∷ []

-- `CONTROLLED_RUNTIME_SCHEMA_VERSIONS`
abbrev pub controlled_runtime_schema_versions : List String
controlled_runtime_schema_versions =
    "001_audit_and_idempotency.sql" ∷ "002_durable_runtime.sql" ∷ "003_execution_effect_journal.sql"
    ∷ "004_execution_recovery_delay.sql" ∷ "005_source_state_and_usage.sql"
    ∷ "006_paper_trade_lifecycle.sql" ∷ "007_execution_runtime_health.sql"
    ∷ "008_public_execution_events.sql" ∷ "009_paper_canary_arms.sql"
    ∷ "010_runtime_compensation_reserve.sql" ∷ "011_execution_mutation_budget.sql"
    ∷ "012_outbox_producer_order.sql" ∷ "013_campaign_source_budgets.sql"
    ∷ "014_bounded_canary_sessions.sql" ∷ "015_canary_dispatch_claims.sql"
    ∷ "016_global_canary_session_guard.sql" ∷ "018_offline_outbox_reconciliation.sql"
    ∷ "026_operator_control.sql" ∷ "028_news_processing.sql" ∷ []

-- `QuantSettings`, as far as it is read; the delay is `int(kline_finality_delay_s * 1_000)`.
pub record Settings : Type 0 where
  pub environment : String
  pub bus_backend : String
  pub service_name : String
  pub symbols : List String
  pub binance_rest_base : String
  pub finality_delay_ms : ℤ

-- The database, its writer and the clock. `build`, `start` and `close` say whether they returned; a
-- read gives nothing if it raised.
pub record Platform {fl : Floats} {ct : Contract fl} (out : Outside ct) : Type 0 where
  pub blank : String → Bool
  pub settings : out.W → Option Settings × out.W
  pub now_ms : out.W → ℤ
  pub migration_names : List String
  pub build : Profile → List String → out.W → Bool × out.W
  pub start : out.W → Bool × out.W
  pub close : out.W → Bool × out.W
  -- the row of the two actors, if there is one
  pub identity : out.W → Option (Option (String × String)) × out.W
  pub verify_access : out.W → Bool × out.W

-- `set(xs) <= set(ys)`
unfoldable pub all_of : List String → List String → Bool
all_of [] ys = true
all_of (x ∷ xs) ys = one_of x ys && all_of xs ys

unfoldable pub same_names : List String → List String → Bool
same_names [] [] = true
same_names (x ∷ xs) (y ∷ ys) = str_eq x y && same_names xs ys
same_names _ _ = false

abbrev pub maximum_run : ℕ
maximum_run = 150_000

-- `1 <= n <= m`
unfoldable pub between : ℤ → ℤ → Bool
between n m = ltb_ℤ (pos 0) n && not (ltb_ℤ m n)

-- the check of the append limit
unfoldable pub bad_limit : Option PyInt → ℤ → Bool
unfolding between
bad_limit none maximum_bars = false
bad_limit (some other) maximum_bars = true
bad_limit (some (int n)) maximum_bars = not (between n (pos maximum_run)) || ltb_ℤ maximum_bars n

unfoldable pub wrong_settings : Settings → Bool
unfolding all_of
wrong_settings s =
    not (str_eq s.environment "paper")
    || not (str_eq s.bus_backend "redis")
    || not (str_eq s.service_name "kairos-quant-scouts")
    || not (all_of s.symbols recovered_symbols && all_of recovered_symbols s.symbols)
    || not (str_eq s.binance_rest_base "https://fapi.binance.com")

-- `end_exclusive % MINUTE or end_exclusive > now - finality_ms`
unfoldable pub bad_end : ℕ → ℤ → Settings → Bool
bad_end end_exclusive now s =
    not (end_exclusive % one_minute_ms == 0)
    || ltb_ℤ (now -ℤ max_ℤ (pos 5_000) s.finality_delay_ms) (pos end_exclusive)

-- A limit that passed its check, as the number it is.
unfoldable pub limit_number : Option PyInt → Option ℕ
limit_number none = none
limit_number (some other) = none
limit_number (some (int n)) = some (pos_part n)

unfoldable pub schema_versions : Profile → List String
schema_versions long_gap = recovery_schema_versions
schema_versions controlled_runtime = controlled_runtime_schema_versions
