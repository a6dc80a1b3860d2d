-- ===== src/Status/Cache/Tests.antt =====
-- Checks of the cache of the node's status at concrete inputs.
use zcash_faucet.Base.{ℕ, ◌+◌, ◌≤◌, ◌≡◌, refl, true, false, none, some, List, [], ◌∷◌, arith}
use zcash_faucet.Base.Int.{pos}
use zcash_faucet.Gates.Chain.{chain_freshness, may_build_transaction, shield_max_lag_blocks}
use zcash_faucet.Status.Node.{NodeStatus}
use zcash_faucet.Status.Cache.{
  Cell, Event, cold, judged_again, cached_node_status, node_status_for_page, run,
}
use zcash_faucet.Status.Cache.Served.{
  IsServed, IsAnswered, run-IsServed, cached_node_status-safe, node_status_for_page-IsAnswered,
}

abbrev status_at : ℕ → NodeStatus
status_at n = record {
  ready = true;
  height = n;
  node_height = n;
  external_height = some n;
  frozen = false;
  behind = false;
  tip_stalled_ms = some 0;
  network_quiet = false;
  shield = chain_freshness (pos 5) (some n) (some n);
  can_build_tx = true;
}

-- A cold page, its read, a page while it is served, a read that fails, and a page once it is spent.
abbrev visits : List Event
visits =
    Event.page 1000 none
    ∷ Event.answered 2000 (some (status_at 4002))
    ∷ Event.page 6000 (some 4003)
    ∷ Event.answered 9000 none
    ∷ Event.page 30_000 (some 4004)
    ∷ []

abbrev IsSound : ℕ → NodeStatus → Type 0
IsSound at s = (s.node_height ≡ 4002) × (2000 ≤ at)

run-IsServed_example :
    IsServed IsSound
      (pos 5)
      (some 4003)
      8000
      (cached_node_status (pos 5) (some 4003) 8000 (run (pos 5) visits cold))
run-IsServed_example =
    run-IsServed IsSound (pos 5) visits (some 4003) 8000
      (tt, ((refl, omega arith), (tt, (tt, (tt, tt)))))

abbrev warm : Cell
warm = record { status = some (status_at 4002); at = 2000; inflight = false }

cached_node_status-safe_example : (e : ℕ) × (some 4003 ≡ some e) × (e ≤ 4002 + 10)
unfolding cached_node_status chain_freshness may_build_transaction
cached_node_status-safe_example =
    cached_node_status-safe (pos 5) (some 4003) 8000 warm
      (judged_again (shield_max_lag_blocks (pos 5)) (some 4003) (status_at 4002)) refl refl

-- A page whose cache is spent.
node_status_for_page-IsAnswered_example :
    IsAnswered
      (pos 5)
      (some 4004)
      30_000
      31_000
      warm
      (status_at 4004)
      (node_status_for_page (pos 5) (some 4004) 30_000 warm)
      (cached_node_status (pos 5) (some 4004) 30_000 warm)
node_status_for_page-IsAnswered_example =
    node_status_for_page-IsAnswered (pos 5) (some 4004) (some 4004) 30_000 31_000 warm
      (status_at 4004) (omega arith) (omega arith)
