-- ===== src/Reserve/Tests.antt =====
-- Checks of the reserve loop at concrete inputs.
use zcash_faucet.Base.{true, some}
use zcash_faucet.Reserve.Decide.{ReserveLevels, HarvestQuery}

abbrev levels : ReserveLevels
levels = record { low_zat = 100; target_zat = 300 }

abbrev backlog : HarvestQuery
backlog = record {
  spendable_known = true;
  known_remaining_utxos = some 25;
  min_utxos = 20;
  last_sweep_moved = true;
  ms_since_last_harvest = some 10;
  interval_ms = 3_600_000;
}
