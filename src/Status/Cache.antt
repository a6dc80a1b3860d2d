-- ===== src/Status/Cache.antt =====
-- src/lib/zcash/nodeStatusCache.ts: the node's status, read behind the page and served from memory.
-- A read begins in one step and its answer arrives in a later one. The reference tip, against
-- which what is served is judged again, is that of `referenceTip` at the time of serving.
pub mod Served
mod Tests
use zcash_faucet.Base.{
  ℕ, ◌-◌, Bool, true, false, ◌||◌, Option, none, some, List, [], ◌∷◌, ltb, ◌==◌, if◌then◌else◌,
}
use zcash_faucet.Base.Int.{ℤ}
use zcash_faucet.Gates.Chain.{ChainGate, chain_freshness, may_build_transaction}
use zcash_faucet.Status.Node.{NodeStatus}

-- `inflight` is whether the promise of a read is kept.
pub record Cell : Type 0 where
  pub status : Option NodeStatus
  pub at : ℕ
  pub inflight : Bool

abbrev pub refresh_after_ms : ℕ
refresh_after_ms = 2000

abbrev pub node_status_max_age_ms : ℕ
node_status_max_age_ms = 15_000

abbrev pub cold : Cell
cold = record { status = none; at = 0; inflight = false }

-- `refresh` up to its read: the cell, and whether the node is asked.
unfoldable pub refresh : Cell → Cell × Bool
refresh c = if c.inflight then (c, false) else (record c { inflight = true }, true)

-- `refresh` behind its read; none is a read that failed or threw.
unfoldable pub finish_refresh : Option NodeStatus → ℕ → Cell → Cell
finish_refresh none now c = record c { inflight = false }
finish_refresh (some s) now c = record { status = some s; at = now; inflight = false }

abbrev pub judged_again : ℤ → Option ℕ → NodeStatus → NodeStatus
judged_again max_lag external s =
    let shield : ChainGate = chain_freshness max_lag (some s.node_height) external in
    record s { shield = shield; can_build_tx = may_build_transaction shield }

abbrev pub is_spent : ℕ → Cell → Bool
is_spent now c = (c.at == 0) || ltb node_status_max_age_ms (now - c.at)

unfoldable pub cached_node_status : ℤ → Option ℕ → ℕ → Cell → Option NodeStatus
cached_node_status max_lag external now c =
    if is_spent now c
    then none
    else elim c.status [ none ↦ none | some s ↦ some (judged_again max_lag external s) ]

unfoldable pub cached_node_status_age_ms : ℕ → Cell → Option ℕ
cached_node_status_age_ms now c =
    if c.at == 0
    then none
    else if ltb node_status_max_age_ms (now - c.at)
    then none
    else some (now - c.at)

abbrev pub is_ageing : ℕ → Cell → Bool
is_ageing now c = (c.at == 0) || ltb refresh_after_ms (now - c.at)

-- `nodeStatusForPage` up to its answer, which is `cached_node_status` of the cell at the end.
pub record Visit : Type 0 where
  pub cell : Cell
  pub asks : Bool
  pub awaits : Bool

abbrev pub visited : Cell × Bool → Bool → Visit
visited (c, asks) awaits = record { cell = c; asks = asks; awaits = awaits }

-- Of what there is to serve.
abbrev pub page_visit : ℕ → Cell → Option NodeStatus → Visit
page_visit now c none = visited (refresh c) true
page_visit now c (some s) =
    if is_ageing now c
    then visited (refresh c) false
    else record { cell = c; asks = false; awaits = false }

unfoldable pub node_status_for_page : ℤ → Option ℕ → ℕ → Cell → Visit
node_status_for_page max_lag external now c =
    page_visit now c (cached_node_status max_lag external now c)

-- A page, at a time and with the reference tip known at it, and the end of a read.
pub data Event : Type 0 where
  page : ℕ → Option ℕ → Event
  answered : ℕ → Option NodeStatus → Event

-- One event, and whether it asks the node.
unfoldable pub step : ℤ → Event → Cell → Cell × Bool
unfolding node_status_for_page finish_refresh
step max_lag (page now external) c =
    let v = node_status_for_page max_lag external now c in (v.cell, v.asks)
step max_lag (answered now s) c = (finish_refresh s now c, false)

unfoldable pub run : ℤ → List Event → Cell → Cell
run max_lag [] c = c
run max_lag (e ∷ es) c = run max_lag es (step max_lag e c).0
