-- ===== src/SendHealth/Verdict.antt =====
-- When the wallet is called degraded, stated without the ladder.
use mathlib.Core.List.{append-nil}
use zcash_faucet.Base.{
  ℕ, ◌+◌, ◌≤◌, ◌<◌, ◌≡◌, ◌↔◌, ◌⊎◌, Bool, true, false, List, [], ◌∷◌, ◌++◌, total-snoc, total_mono,
  arith, keep, if◌then◌else◌, one_if,
}
use zcash_faucet.Network.{Network}
use zcash_faucet.SendHealth.{
  SendRecord, ok, failed, unknown, refused, SendHealth, degraded, Tally, tally, judge, failing,
  held_back, is_live, has_outcome, is_unanswered, read_send_health,
}

-- Nothing succeeded, and two sends failed or three did not end well; or something succeeded and,
-- of at least three decided sends, as many failed as succeeded.
abbrev pub IsDead : Tally → Type 0
IsDead t =
    ((t.oks ≡ 0) × ((2 ≤ failing t) ⊎ (3 ≤ held_back t + failing t)))
    ⊎ ((0 < t.oks) × (3 ≤ t.oks + failing t) × (t.oks ≤ failing t))

judge-degraded_iff : (window : ℕ) (t : Tally) → ((judge window t).state ≡ degraded) ↔ IsDead t
unfolding judge
judge-degraded_iff window t = (λ h. ground arith, λ h. ground arith)

-- The wallet of a network is degraded exactly when, of that network's sends in the window, either
-- none succeeded and at least two failed or at least three failed or are unresolved, or one
-- succeeded and at least half of three or more decided sends failed. A lost reply is a failure.
pub read_send_health-degraded_iff :
    (window now : ℕ) (records : List SendRecord) (n : Network)
    → ((read_send_health window now records n).state ≡ degraded)
      ↔ IsDead (tally (keep (is_live window now n) records))
unfolding read_send_health
read_send_health-degraded_iff window now records n =
    judge-degraded_iff window (tally (keep (is_live window now n) records))

keep-snoc :
    (p : SendRecord → Bool) (rs : List SendRecord) (r : SendRecord)
    → keep p (rs ++ r ∷ []) ≡ keep p rs ++ (if p r then r ∷ [] else [])
keep-snoc p [] r = ground arith
keep-snoc p (s ∷ rs) r = ground (arith, keep-snoc p rs r)

-- What one more live record adds to each count.
record Added (t u : Tally) (r : SendRecord) : Type 0 where
  oks : u.oks ≡ t.oks + one_if (has_outcome ok r)
  fails : u.fails ≡ t.fails + one_if (has_outcome failed r)
  unknowns : u.unknowns ≡ t.unknowns + one_if (has_outcome unknown r)
  lost : u.lost ≡ t.lost + one_if (is_unanswered r)

tally-Added : (rs : List SendRecord) (r : SendRecord) → Added (tally rs) (tally (rs ++ r ∷ [])) r
unfolding tally
tally-Added rs r = record {
  oks = total-snoc _ rs r;
  fails = total-snoc _ rs r;
  unknowns = total-snoc _ rs r;
  lost = total-snoc _ rs r;
}

lost-le-unknowns : (rs : List SendRecord) → (tally rs).lost ≤ (tally rs).unknowns
unfolding tally
lost-le-unknowns rs =
    total_mono (λ r. one_if (is_unanswered r)) (λ r. one_if (has_outcome unknown r)) rs
      λ r. ground arith

module _ (window now : ℕ) (n : Network) (rs : List SendRecord) (r : SendRecord) where
  abbrev before : SendHealth
  before = read_send_health window now rs n

  abbrev after : SendHealth
  after = read_send_health window now (rs ++ r ∷ []) n

  after-eq :
      is_live window now n r ≡ true
      → after ≡ judge window (tally (keep (is_live window now n) rs ++ r ∷ []))
  unfolding read_send_health
  after-eq live = rw (keep-snoc (is_live window now n) rs r, live)

  -- A record that is out of the window, or of another network, changes nothing of the verdict.
  pub read_send_health-append_other : is_live window now n r ≡ false → after ≡ before
  unfolding read_send_health
  read_send_health-append_other dead = rw (keep-snoc (is_live window now n) rs r, dead, append-nil)

  -- A refused recipient leaves the verdict, and so does an unresolved send whose opid is known
  -- once some send has succeeded.
  pub read_send_health-append_held_back :
      is_live window now n r ≡ true
      → (r.outcome ≡ refused)
        ⊎ ((r.outcome ≡ unknown) × (r.unanswered ≡ false) × (0 < before.ok_count))
      → after.state ≡ before.state
  unfolding read_send_health judge
  read_send_health-append_held_back live o = ground (
    arith,
    after-eq live,
    tally-Added (keep (is_live window now n) rs) r,
    lost-le-unknowns (keep (is_live window now n) rs),
  )
