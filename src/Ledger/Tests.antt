-- ===== src/Ledger/Tests.antt =====
-- Checks of the ledger at concrete inputs.
use zcash_faucet.Base.{
  ℕ, ◌≤◌, ◌≡◌, refl, total, true, false, String, Option, none, some, List, [], ◌∷◌, arith, leb,
}
use zcash_faucet.Network.{taz}
use zcash_faucet.Ledger.{
  Claim, Ledger, ReserveParams, sent, reserve, admits, purge, retention_seconds, address_free,
  ip_free, subnet_free, cap_free,
}
use zcash_faucet.Ledger.Calls.{
  ReserveOpts, Refusal, cooldown, address, address_claimed, reserve_params, reserve_claim, frees_at,
  why_blocked, spend_challenge, challenge_already_spent,
}
use zcash_faucet.Ledger.Limits.{Policy, Visit, claim_opts, by_address, usage}
use zcash_faucet.Ledger.Steps.{State, empty_ledger, reserves, starts, next}
use zcash_faucet.Ledger.Safety.{Reach-usage-le}
use zcash_faucet.Ledger.Diagnosis.{Explains, reserve_claim-Explains}
use zcash_faucet.Ledger.Retry.{address_retry_exact, cap_retry_short}
use zcash_faucet.Ledger.Retention.{admits-purge}
use zcash_faucet.Ledger.Challenges.{burn_all, spend_once}

abbrev own_name : String → String
own_name a = a

abbrev policy : Policy
policy = record {
  cooldown = 86_400;
  lease = 600;
  ip_daily_max = 2;
  subnet_daily_max = 5;
  daily_cap = λ n. 150;
}

abbrev visit : Visit
visit = record {
  address = "a";
  ip_hash = some "ip";
  subnet_hash = none;
  amount_zat = 100;
  network = taz;
}

abbrev one_claim : State
one_claim = record {
  ledger = (reserve_claim own_name 600 (claim_opts policy visit 1_000) empty_ledger).0;
  clock = 1_000;
}

Reach-usage-le_example : usage policy 1_000 (by_address "a" taz) one_claim.ledger.claims ≤ 1
Reach-usage-le_example =
    Reach-usage-le own_name policy {s = one_claim} (by_address "a" taz)
      (next (starts 1_000) (reserves visit refl)) tt

abbrev again : ReserveOpts
again = claim_opts policy visit 1_500

abbrev again_params : ReserveParams
again_params = reserve_params own_name 600 again

abbrev too_soon : Refusal
too_soon = record {
  kind = cooldown;
  scope = some address;
  reason = address_claimed;
  retry_after_seconds = some 100;
}

reserve_claim-Explains_example :
    Explains again_params (purge 86_400 600 1_500 one_claim.ledger.claims) too_soon
unfolding reserve_claim reserve admits address_free ip_free subnet_free cap_free purge
    retention_seconds total why_blocked
reserve_claim-Explains_example =
    reserve_claim-Explains own_name 600 again one_claim.ledger
      (reserve_claim own_name 600 again one_claim.ledger).0 too_soon (omega arith) refl

abbrev row : ℕ → ℕ → Claim
row id created_at = record {
  id = id;
  address_hash = "b";
  ip_hash = "ip";
  subnet_hash = "";
  amount_zat = 70;
  txid = none;
  status = sent;
  created_at = created_at;
  network = taz;
}

address_retry_exact_example :
    address_free (record again_params { now = 1_600 }) one_claim.ledger.claims ≡ leb 1_600 1_600
unfolding reserve_claim reserve admits address_free ip_free subnet_free cap_free purge
    retention_seconds total why_blocked
address_retry_exact_example =
    address_retry_exact again_params true false one_claim.ledger.claims 1_600 100 (omega arith)
      (omega arith) refl refl

-- Two claims of one connection, whose second ends last.
abbrev two_rows : List Claim
two_rows = row 1 900 ∷ row 2 1_000 ∷ []

-- The same rows for a connection that is not known: the cap of 150 is what they leave no room in.
abbrev unknown_client : ReserveParams
unknown_client = record again_params { ip_hash = "" }

cap_retry_short_example : admits (record unknown_client { now = 87_300 }) two_rows ≡ false
unfolding total why_blocked frees_at admits address_free ip_free subnet_free cap_free
cap_retry_short_example =
    cap_retry_short unknown_client false false two_rows 85_800 (omega arith) refl refl refl refl
      refl (omega arith)

admits-purge_example :
    admits (record again_params { now = 200_000 }) (purge 86_400 600 190_000 two_rows)
    ≡ admits (record again_params { now = 200_000 }) two_rows
admits-purge_example =
    admits-purge (record again_params { now = 200_000 }) two_rows 190_000 (omega arith)

abbrev reserved_ledger : Ledger
reserved_ledger = (reserve again_params empty_ledger).0

spend_once_example :
    ((spend_challenge "p" 100 90 (burn_all [] (spend_challenge "p" 100 10 empty_ledger).0)).1
      ≡ false)
    × (challenge_already_spent "p" (burn_all [] (spend_challenge "p" 100 10 empty_ledger).0) ≡ true)
unfolding spend_challenge
spend_once_example = spend_once "p" 100 10 90 [] empty_ledger refl tt (omega arith)

abbrev empty_txid : Option String
empty_txid = some ""
