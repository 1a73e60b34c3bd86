-- ===== src/Examples/Runs.antt =====
-- A recovery run over the contract, the venue and the writer of Examples/Repairs.
use kairos_quant_scouts.Prelude.{◌≡◌, refl, true, false, none, some}
use kairos_quant_scouts.Prelude.Int.{pos}
use kairos_quant_scouts.Prelude.Result.{err}
use kairos_quant_scouts.Prelude.Triple.{After}
use kairos_quant_scouts.Tape.State.{int}
use kairos_quant_scouts.Examples.Repairs.{outside, start}
use kairos_quant_scouts.Recovery.Status.{Phase, operation_failed, Run, Recovery, at_phase}
use kairos_quant_scouts.Recovery.Lease.{recovered_symbols}
use kairos_quant_scouts.Recovery.Runs.{
  long_gap, Settings, Platform, controlled_runtime_schema_versions,
}
use kairos_quant_scouts.Recovery.Writer.{with_writer, run_recovery}
use kairos_quant_scouts.Recovery.Reported.{IsNoted, IsDone, run_recovery-IsDone, with_writer-first}

abbrev settings : Settings
settings = record {
  environment = "paper";
  bus_backend = "redis";
  service_name = "kairos-quant-scouts";
  symbols = recovered_symbols;
  binance_rest_base = "https://fapi.binance.com";
  finality_delay_ms = pos 2_000;
}

-- A writer that starts, and cannot be closed.
abbrev platform : Platform outside
platform = record {
  blank = λ s. false;
  settings = λ w. (some settings, w);
  now_ms = λ w. pos 1_000_000;
  migration_names = controlled_runtime_schema_versions;
  build = λ p versions w. (true, w);
  start = λ w. (true, w);
  close = λ w. (false, w);
  identity = λ w. (some (some ("kairos_runtime", "kairos_runtime")), w);
  verify_access = λ w. (true, w);
}

run_recovery-IsDone_example :
    After
      (λ u t. IsDone outside t)
      (λ e t. IsNoted outside t)
      (run_recovery outside platform long_gap 420_000 (pos 10) (some (int (pos 5))) "kairos" start)
run_recovery-IsDone_example =
    run_recovery-IsDone outside platform long_gap 420_000 (pos 10) (some (int (pos 5))) "kairos"
      start

abbrev begun : Run outside
begun = at_phase outside Phase.offline_writer_start none none none start

abbrev broken : Recovery outside (Unit {0})
broken s = (err operation_failed, at_phase outside Phase.restore_read none none none s)

with_writer-first_example :
    ((with_writer outside platform broken start).0 ≡ err operation_failed)
    × ((with_writer outside platform broken start).1.status.first_failure_phase
        ≡ some Phase.restore_read)
unfolding at_phase
with_writer-first_example =
    with_writer-first outside platform broken start begun
      (at_phase outside Phase.restore_read none none none start) operation_failed refl refl
