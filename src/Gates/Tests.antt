-- ===== src/Gates/Tests.antt =====
-- Checks of the gates at concrete inputs.
use zcash_faucet.Base.{some}
use zcash_faucet.Gates.Ctaz.{RecencyStatus}

abbrev fresh_reply : RecencyStatus
fresh_reply = record {
  now_utc = some 1_000;
  my_height = some 50;
  my_round = some 8;
  my_locked_round = some 7;
  finalizers = some 4;
}
