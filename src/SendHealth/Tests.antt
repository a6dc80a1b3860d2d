-- ===== src/SendHealth/Tests.antt =====
-- Checks of the verdict at concrete inputs.
use zcash_faucet.Base.{ℕ, ◌≡◌, ◌↔◌, false, some, List, [], ◌∷◌, keep}
use zcash_faucet.Network.{taz}
use zcash_faucet.SendHealth.{
  SendRecord, SendOutcome, failed, degraded, tally, is_live, read_send_health,
}
use zcash_faucet.SendHealth.Verdict.{IsDead, read_send_health-degraded_iff}

abbrev at_time : SendOutcome → ℕ → SendRecord
at_time o t = record { outcome = o; at = t; network = some taz; unanswered = false }

abbrev two_failed : List SendRecord
two_failed = at_time failed 1_000 ∷ at_time failed 2_000 ∷ []

read_send_health-degraded_iff_example :
    ((read_send_health 900_000 3_000 two_failed taz).state ≡ degraded)
    ↔ IsDead (tally (keep (is_live 900_000 3_000 taz) two_failed))
read_send_health-degraded_iff_example = read_send_health-degraded_iff 900_000 3_000 two_failed taz
