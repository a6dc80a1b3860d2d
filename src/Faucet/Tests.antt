-- ===== src/Faucet/Tests.antt =====
-- Checks of the claim handler at concrete inputs.
use zcash_faucet.Base.{
  ℕ, ◌≡◌, refl, inr, total, true, false, String, none, some, List, [], ◌∷◌, arith,
}
use zcash_faucet.Base.Int.{pos}
use zcash_faucet.Network.{taz, parse_network}
use zcash_faucet.Ledger.{
  ReserveParams, reserve, admits, purge, retention_seconds, address_free, ip_free, subnet_free,
  cap_free,
}
use zcash_faucet.Ledger.Calls.{reserve_claim, spend_challenge, challenge_already_spent}
use zcash_faucet.Ledger.Steps.{empty_ledger}
use zcash_faucet.SendHealth.{
  failed, window_for, judge, tally, read_send_health, send_health_blocks_serving,
}
use zcash_faucet.Pow.Gate.{Attempts, verify_solution}
use zcash_faucet.Gates.Chain.{chain_freshness, may_build_transaction}
use zcash_faucet.Gates.WalletLag.{wallet_lag_freshness, may_build_from_wallet}
use zcash_faucet.Gates.Ctaz.{can_serve_ctaz, unverifiable_reading, from_nowhere}
use zcash_faucet.Gates.Expiry.{IsUnexpired}
use zcash_faucet.Faucet.{
  Config, World, Body, Site, Response, broadcast, past_deadline, recipient_refused,
}
use zcash_faucet.Faucet.Guards.{read_request, guards}
use zcash_faucet.Faucet.Payout.{conclude, refusal_error, reserve_and_send, post}
use zcash_faucet.Faucet.Ours.{CostsAnAttempt, solution_in, post-refused_early}
use zcash_faucet.Faucet.Cleared.{may_have_moved, post-IsUnexpired, Covers, post-solvent}
use zcash_faucet.Faucet.Between.{post_all, post_all-once}
use zcash_faucet.Faucet.Released.{conclude-released, conclude-blameless}

abbrev own_name : String → String
own_name a = a

abbrev config : Config
config = record {
  drip_zatoshi = 100;
  min_reserve_zatoshi = 50;
  daily_cap_zatoshi = 1_000;
  cooldown_seconds = 86_400;
  subnet_daily_max = 5;
  ip_daily_max = 3;
  crosslink_enabled = false;
  crosslink_expected_zat = 7;
  crosslink_daily_cap_zatoshi = 70;
  challenge_is_pow = true;
  sender_is_zallet = true;
  shield_max_lag = pos 5;
  wallet_max_lag = pos 500;
  send_task_deadline_ms = 60_000;
  pending_lease = 600;
  pow = record {
    base_bits = 14;
    max_bits = 22;
    escalate_bits = 2;
    ttl_seconds = 600;
    window_ms = 600_000;
  };
}

abbrev morning : World
morning = record {
  now = 1_000_000;
  now_ms = 1_000_000_000;
  ip_hash = some "ip";
  subnet_hash = none;
  address_valid = true;
  draining = false;
  verified_ms = 1_000_000_500;
  balance = some 400;
  node = some (record { height = some 4_279_770; node_height = some 4_279_780 });
  external_tip = some 4_279_783;
  ctaz_node = record {
    reading = unverifiable_reading;
    blocks = none;
    tip = none;
    source = from_nowhere;
  };
  spent_at = 1_000_001;
  reply = past_deadline;
  settled_ms = 1_000_060_000;
  settled_day = "2026-01-01";
}

abbrev noon : World
noon = record morning {
  now = 1_010_000;
  now_ms = 1_010_000_000;
  verified_ms = 1_010_000_500;
  spent_at = 1_010_001;
  reply = broadcast (some "abc");
}

abbrev asking : String → Body
asking sig = record {
  address = "utest1";
  network = none;
  pow = some (record {
    seed = "seed";
    difficulty = 14;
    exp = 1_020_000;
    sig = sig;
    signature_ok = true;
    zero_bits = 15;
  });
}

abbrev no_attempts : Attempts
no_attempts = record { per_ip = []; per_subnet = []; global = [] }

abbrev new_site : Site
new_site = record { ledger = empty_ledger; send_log = []; attempts = no_attempts }

abbrev first_claim : Site × Response
first_claim = post own_name config morning (some (asking "p1")) new_site

moved : may_have_moved first_claim.1 ≡ true
unfolding post read_request parse_network guards verify_solution send_health_blocks_serving
    read_send_health judge tally window_for challenge_already_spent chain_freshness
    may_build_transaction wallet_lag_freshness may_build_from_wallet can_serve_ctaz spend_challenge
    reserve_and_send reserve_claim reserve admits address_free ip_free subnet_free cap_free purge
    retention_seconds refusal_error conclude total
moved = refl

-- A claim of somebody else in between.
abbrev neighbour : List (World × Body)
neighbour = (noon, record (asking "p3") { address = "utest2" }) ∷ []

post_all-once_example :
    may_have_moved
      (post own_name config noon
        (some (asking "p2"))
        (post_all own_name config neighbour first_claim.0)).1
    ≡ false
unfolding read_request
post_all-once_example =
    post_all-once own_name config morning noon (asking "p1") (asking "p2") taz new_site neighbour
      refl refl refl tt refl (omega arith) (omega arith) (omega arith) moved

post-IsUnexpired_example : IsUnexpired (some 4_279_770) (some 4_279_783)
unfolding read_request
post-IsUnexpired_example =
    post-IsUnexpired own_name config morning (asking "p1") new_site refl refl moved

post-solvent_example :
    (false ≡ false)
    × Covers 150 (some 400)
    × (send_health_blocks_serving (read_send_health (window_for 60_000) 1_000_000_000 [] taz)
        ≡ false)
unfolding read_request
post-solvent_example = post-solvent own_name config morning (asking "p1") new_site refl moved

-- The node stands thirteen blocks behind the network.
abbrev lagging : World
lagging = record morning { external_tip = some 4_279_793 }

post-refused_early_example :
    CostsAnAttempt config lagging
      (solution_in (some (asking "p1")))
      new_site
      (post own_name config lagging (some (asking "p1")) new_site)
unfolding post read_request guards verify_solution send_health_blocks_serving read_send_health judge
    tally window_for challenge_already_spent chain_freshness may_build_transaction
    wallet_lag_freshness may_build_from_wallet can_serve_ctaz total
post-refused_early_example =
    post-refused_early own_name config lagging (some (asking "p1")) new_site refl

abbrev claim_at : ℕ → ReserveParams
claim_at now = record {
  address_hash = "utest1";
  ip_hash = "ip";
  subnet_hash = "";
  amount_zat = 100;
  now = now;
  cooldown_seconds = 86_400;
  daily_cap_zat = 1_000;
  subnet_daily_max = 5;
  ip_daily_max = 3;
  network = taz;
  lease = 600;
}

abbrev reserved_site : Site
reserved_site = record {
  ledger = (reserve (claim_at 1_000_000) empty_ledger).0;
  send_log = [];
  attempts = no_attempts;
}

conclude-released_example :
    admits
      (claim_at 1_000_030)
      (conclude config morning taz 1 recipient_refused reserved_site).0.ledger.claims
    ≡ admits (claim_at 1_000_030) []
unfolding reserve admits address_free ip_free subnet_free cap_free total
conclude-released_example =
    conclude-released config morning recipient_refused (claim_at 1_000_000) (claim_at 1_000_030) 1
      new_site reserved_site refl tt refl

abbrev failed_once : Site
failed_once = record {
  ledger = empty_ledger;
  send_log =
      record { outcome = failed; at = 1_000_000_000; network = some taz; unanswered = false } ∷ [];
  attempts = no_attempts;
}

conclude-blameless_example :
    (read_send_health
      (window_for 60_000)
      1_000_070_000
      (conclude config morning taz 1 recipient_refused failed_once).0.send_log
      taz).state
    ≡ (read_send_health (window_for 60_000) 1_000_070_000 failed_once.send_log taz).state
conclude-blameless_example =
    conclude-blameless config morning taz taz 1 1_000_070_000 recipient_refused failed_once
      (inr refl) (omega arith)
