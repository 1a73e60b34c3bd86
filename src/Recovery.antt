-- ===== src/Recovery.antt =====
-- kairos_quant/long_gap_recovery.py: the offline repair of missing bars, which
-- kairos_quant/controlled_runtime_data_recovery.py runs under another schema profile. `Contract` is what
-- it takes from elsewhere, `Status` the status it reports, `Page` a REST page, `Symbol` the repair of one
-- symbol, `Lease` that of all, `Runs` the profiles and limits of a run and `Writer` the run of either program
-- with the writer that it opens and closes; the other children prove what they promise.
pub mod Contract
pub mod Status
pub mod Page
pub mod Symbol
pub mod Publishing
pub mod Repair
pub mod Complete
pub mod Lease
pub mod Budget
pub mod Runs
pub mod Writer
pub mod Reported
pub mod Reread
