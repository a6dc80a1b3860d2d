-- ===== src/Status/Cache/Served.antt =====
-- What is served was read, is young, and is judged by the tip of the moment.
use zcash_faucet.Base.{
  ℕ, ◌+◌, ◌-◌, ◌≤◌, ◌<◌, ◌≡◌, refl, sym, ap, subst, ◌∙◌, Bool, true, false, not, ◌||◌, inl, inr,
  Option, none, some, List, [], ◌∷◌, ltb, ◌==◌, arith, All, Bool-cases, Option-cases,
}
use zcash_faucet.Base.Int.{ℤ}
use zcash_faucet.Gates.Chain.{shield_max_lag_blocks}
use zcash_faucet.Gates.Expiry.{chain-safe}
use zcash_faucet.Status.Node.{NodeStatus}
use zcash_faucet.Status.Cache.{
  Cell, Event, Visit, node_status_max_age_ms, cold, refresh, finish_refresh, judged_again,
  cached_node_status, page_visit, node_status_for_page, step, run,
}

young : (at now : ℕ) → ((at == 0) || ltb 15_000 (now - at)) ≡ false → now ≤ at + 15_000
young at now e = ground arith

module _ (P : ℕ → NodeStatus → Type 0) (max_lag : ℤ) where
  -- A read that ends in the event with a status has the property, at the event's time.
  abbrev pub IsReport : Event → Type 0
  IsReport (Event.answered now (some s)) = P now s
  IsReport _ = Unit

  abbrev Held : Cell → Type 0
  Held c = elim c.status [ none ↦ Unit | some s ↦ P c.at s ]

  step-Held : (e : Event) (c : Cell) → Held c → IsReport e → Held (step max_lag e c).0
  unfolding step node_status_for_page finish_refresh refresh
  step-Held (Event.page now external) c ok r =
      ground (arith, Option-cases (cached_node_status max_lag external now c))
  step-Held (Event.answered now none) c ok r = ok
  step-Held (Event.answered now (some s)) c ok r = r

  run-Held : (es : List Event) (c : Cell) → Held c → All IsReport es → Held (run max_lag es c)
  unfolding run
  run-Held [] c ok r = ok
  run-Held (e ∷ es) c ok (r, rs) = run-Held es (step max_lag e c).0 (step-Held e c ok r) rs

  -- A status that is served at a time, beside a reference tip: one that a read gave at most fifteen
  -- seconds before, but for its verdict on building, which is that of the tip.
  abbrev pub IsServed : Option ℕ → ℕ → Option NodeStatus → Type 0
  IsServed external now none = Unit
  IsServed external now (some r) =
      (at : ℕ) × (s : NodeStatus) × P at s
      × (now ≤ at + node_status_max_age_ms)
      × (r ≡ judged_again max_lag external s)

  fields-IsServed :
      (status : Option NodeStatus) (at : ℕ) (inflight : Bool) (external : Option ℕ) (now : ℕ)
      → Held (record { status = status; at = at; inflight = inflight })
      → IsServed external now (
          cached_node_status max_lag external now
            (record { status = status; at = at; inflight = inflight }))
  unfolding cached_node_status
  fields-IsServed none at inflight external now ok =
      elim (Bool-cases ((at == 0) || ltb node_status_max_age_ms (now - at))) [
        | inl e ↦ rw e tt
        | inr e ↦ rw e tt
      ]
  fields-IsServed (some s) at inflight external now ok =
      elim (Bool-cases ((at == 0) || ltb node_status_max_age_ms (now - at))) [
        | inl e ↦ rw e tt
        | inr e ↦ rw e (at, s, ok, young at now e, refl)
      ]

  cached_node_status-IsServed :
      (external : Option ℕ) (now : ℕ) (c : Cell)
      → Held c
      → IsServed external now (cached_node_status max_lag external now c)
  cached_node_status-IsServed external now c ok =
      fields-IsServed c.status c.at c.inflight external now ok

  -- Whatever holds of every status that a read gives, at the time at which the read ends, holds of
  -- the status that is served after any run of pages and reads from a cold start, at a time at most
  -- fifteen seconds before, but for the verdict on building a transaction: that one is of the node
  -- height that was read and the reference tip known when it is served.
  pub run-IsServed :
      (es : List Event) (external : Option ℕ) (now : ℕ)
      → All IsReport es
      → IsServed external now (cached_node_status max_lag external now (run max_lag es cold))
  run-IsServed es external now r =
      cached_node_status-IsServed external now (run max_lag es cold) (run-Held es cold tt r)

judged_again_of :
    (max_lag : ℤ) (external : Option ℕ) (now : ℕ) (c : Cell) (s : NodeStatus)
    → cached_node_status max_lag external now c ≡ some s
    → (r : NodeStatus) × (s ≡ judged_again max_lag external r)
unfolding cached_node_status
judged_again_of max_lag external now c s e =
    elim (Bool-cases ((c.at == 0) || ltb node_status_max_age_ms (now - c.at))) [
      | inl spent ↦ ground (arith, e, spent)
      | inr young ↦ elim (Option-cases c.status) [
        | inl n ↦ ground (arith, e, young, n)
        | inr (r, k) ↦ (r, ground (arith, e, young, k))
      ]
    ]

clearance :
    (configured : ℤ) (external : Option ℕ) (r : NodeStatus)
    → (judged_again (shield_max_lag_blocks configured) external r).can_build_tx ≡ true
    → (e : ℕ) × (external ≡ some e) × (e ≤ r.node_height + 10)
clearance configured external r ok =
    let (n, e, same, known, le) = chain-safe configured (some r.node_height) external ok in
    (e, known, ground (arith, same, le))

-- Whatever lag is configured, a status that is served with a clearance to build has a node height
-- that the reference tip known at that moment exceeds by ten blocks at most.
pub cached_node_status-safe :
    (configured : ℤ) (external : Option ℕ) (now : ℕ) (c : Cell) (s : NodeStatus)
    → cached_node_status (shield_max_lag_blocks configured) external now c ≡ some s
    → s.can_build_tx ≡ true
    → (e : ℕ) × (external ≡ some e) × (e ≤ s.node_height + 10)
cached_node_status-safe configured external now c s e ok =
    let (r, same) = judged_again_of (shield_max_lag_blocks configured) external now c s e in
    let (top, known, le) =
      clearance configured external r (sym (ap (λ x. x.can_build_tx) same) ∙ ok) in
    (top, known, subst (λ x. top ≤ x.node_height + 10) (sym same) le)

-- A visit of a page to a cell, of what is served from it: it waits for nothing, or it waits for
-- the read under way, which is its own unless there was one, and a status from that read is served.
abbrev pub IsAnswered :
    ℤ → Option ℕ → ℕ → ℕ → Cell → NodeStatus → Visit → Option NodeStatus → Type 0
IsAnswered max_lag later now at c s v (some r) = v.awaits ≡ false
IsAnswered max_lag later now at c s v none =
    (v.awaits ≡ true)
    × (v.cell.inflight ≡ true)
    × (v.asks ≡ not c.inflight)
    × (cached_node_status max_lag later now (finish_refresh (some s) at v.cell)
        ≡ some (judged_again max_lag later s))

started : (c : Cell) → ((refresh c).0.inflight ≡ true) × ((refresh c).1 ≡ not c.inflight)
unfolding refresh
started c = ground arith

no_wait : (now : ℕ) (c : Cell) (r : NodeStatus) → (page_visit now c (some r)).awaits ≡ false
no_wait now c r = ground arith

serves_read :
    (max_lag : ℤ) (later : Option ℕ) (now at : ℕ) (c : Cell) (s : NodeStatus)
    → 0 < at
    → now ≤ at + node_status_max_age_ms
    → cached_node_status max_lag later now (finish_refresh (some s) at c)
      ≡ some (judged_again max_lag later s)
unfolding cached_node_status finish_refresh
serves_read max_lag later now at c s pos le =
    let open_now : ((at == 0) || ltb node_status_max_age_ms (now - at)) ≡ false =
      ground (arith, pos, le) in
    rw open_now refl

fresh_start :
    (max_lag : ℤ) (later : Option ℕ) (now at : ℕ) (c : Cell) (s : NodeStatus)
    → 0 < at
    → now ≤ at + node_status_max_age_ms
    → IsAnswered max_lag later now at c s (page_visit now c none) none
fresh_start max_lag later now at c s pos le =
    let (flying, asked) = started c in
    (refl, flying, asked, serves_read max_lag later now at (page_visit now c none).cell s pos le)

-- A page that finds something to serve does not wait. One that finds nothing waits for a read, of
-- which at most one is under way; and when that read ends with a status, at a time after 0 and at
-- most fifteen seconds before the page's, the page serves it, judged again.
pub node_status_for_page-IsAnswered :
    (max_lag : ℤ) (external later : Option ℕ) (now at : ℕ) (c : Cell) (s : NodeStatus)
    → 0 < at
    → now ≤ at + node_status_max_age_ms
    → IsAnswered max_lag later now at c s
        (node_status_for_page max_lag external now c)
        (cached_node_status max_lag external now c)
unfolding node_status_for_page
node_status_for_page-IsAnswered max_lag external later now at c s pos le =
    elim (Option-cases (cached_node_status max_lag external now c)) [
      | inl n ↦ rw n (fresh_start max_lag later now at c s pos le)
      | inr (r, k) ↦ rw k (no_wait now c r)
    ]
