-- ===== src/Status/Tests.antt =====
-- Checks of what the faucet says of itself at concrete inputs.
use zcash_faucet.Base.{
  ℕ, ◌+◌, ◌<◌, ◌≡◌, refl, true, false, none, some, List, [], ◌∷◌, All, arith, count_if,
}
use zcash_faucet.Base.Int.{pos}
use zcash_faucet.Status.Box.{DriftReport, IntegrityReport, published}
use zcash_faucet.Status.Failures.{Failure, no_failures, timeout, http, claim, same_kind, record_all}
use zcash_faucet.Status.Failures.Counted.{said, on_path, record_all-said}
use zcash_faucet.Status.Heartbeat.{Heartbeat, public_miner_view, reading_for}
use zcash_faucet.Status.Heartbeat.Published.{with_operator, public_miner_view-withholds}
use zcash_faucet.Gates.Chain.{chain_freshness, may_build_transaction}
use zcash_faucet.Gates.WalletLag.{wallet_lag_freshness, may_build_from_wallet}
use zcash_faucet.Status.Node.{NodeStatus, NodeSettings, get_node_status}
use zcash_faucet.Status.Ready.{ReadinessInputs, readiness_reason, base_phase}
use zcash_faucet.Status.Ready.Agree.{Readings, inputs_of, base_phase-ready}
use zcash_faucet.Status.Progress.{Poll, tip_progress, sample_of, tip_progress-stalled}

abbrev beat : Heartbeat
beat = record {
  schema = some 1;
  written_at = some 100_000;
  stale_after_seconds = some 30;
  template_stale_after_seconds = some 60;
  mode = none;
  last_template_at = some 90_000;
  last_template_height = some 4000;
  last_error_stage = none;
  consecutive_errors = some 0;
  solved_count = some 3;
  submitted_accepted = some 2;
  submitted_rejected = some 1;
  last_solved_at = none;
  node_lag = some 0;
  waiting_since = none;
  waiting_reason = none;
  last_reject_reason = none;
  abandoned_count = none;
  last_abandoned_at = none;
}

public_miner_view-withholds_example :
    public_miner_view
      (reading_for (some (with_operator beat (some "high-hash") (some 7) none)) 110_000)
    ≡ public_miner_view (reading_for (some beat) 110_000)
public_miner_view-withholds_example =
    public_miner_view-withholds beat 110_000 (some "high-hash") (some 7) none

abbrev audits : DriftReport
audits = record {
  config = record { rc = 0; findings = 0; unverified = 0 };
  access = record { rc = 0; findings = 0; unverified = 0 };
  at = 1000;
}

abbrev report : IntegrityReport
report = record {
  expected = 40;
  present = 39;
  not_enabled = 0;
  at = some 1000;
  readable = true;
  drift_field = published audits;
}

abbrev polls : List Poll
polls =
    record { height = 500; external_height = none; now = 1_000_000 }
    ∷ record { height = 500; external_height = none; now = 300_000 }
    ∷ record { height = 499; external_height = none; now = 100_000 }
    ∷ []

abbrev last_poll : Poll
last_poll = record { height = 500; external_height = some 900; now = 1_500_000 }

tip_progress-stalled_example :
    All (λ (q : Poll). 1_500_000 < q.now + 1_200_000 → q.height ≡ last_poll.height) polls
unfolding tip_progress sample_of
tip_progress-stalled_example =
    tip_progress-stalled 1_200_000 last_poll polls (omega arith) (omega arith) refl

abbrev timeouts : List Failure
timeouts =
    record { kind = timeout; scope = claim; now = 100_000 }
    ∷ record { kind = timeout; scope = claim; now = 110_000 }
    ∷ record { kind = http; scope = claim; now = 120_000 }
    ∷ record { kind = timeout; scope = claim; now = 170_000 }
    ∷ []

record_all-said_example :
    (said timeout claim timeouts no_failures
        + ((record_all timeouts no_failures).paths timeout claim).since_last_log
      ≡ (no_failures.paths timeout claim).since_last_log
        + count_if (on_path timeout claim) timeouts)
    × ((record_all timeouts no_failures).counts timeout
        ≡ no_failures.counts timeout
          + count_if (λ (e : Failure). same_kind e.kind timeout) timeouts)
record_all-said_example = record_all-said timeout claim timeouts no_failures

abbrev settings : NodeSettings
settings = record {
  freeze_blocks = 200;
  tip_stall_ms = 1_200_000;
  shield_max_lag = pos 5;
  wallet_max_lag = pos 5;
}

-- The wallet at 4000 of 4002 blocks, the network at 4003.
abbrev current_node : NodeStatus
unfolding get_node_status
current_node = (get_node_status settings none 4000 4002 (some 4003) 1_000_000).0

abbrev readings : Readings
unfolding get_node_status
readings = record {
  sender_zallet = true;
  backend_reachable = true;
  node = some current_node;
  balance_zat = some 500_000;
  sends_degraded = false;
  sends_block = false;
  ledger_blocks = false;
  floor_zat = 100_000;
}

base_phase-ready_example : readiness_reason (inputs_of readings) ≡ none
unfolding get_node_status base_phase tip_progress may_build_transaction chain_freshness
    may_build_from_wallet wallet_lag_freshness
base_phase-ready_example = base_phase-ready readings refl refl refl refl

abbrev inputs : ReadinessInputs
unfolding get_node_status
inputs = record {
  ledger_blocks = false;
  backend_reachable = true;
  node = some ((get_node_status settings none 3900 4002 (some 4003) 1_000_000).0);
  node_expected = true;
  balance_zat = some 500_000;
  sends_block = false;
  floor_zat = 100_000;
}

abbrev node_tip : ℕ
node_tip = 4002
