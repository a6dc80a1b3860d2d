-- ===== src/Status/Progress.antt =====
-- src/lib/zcash/tipProgress.ts: is our own node's tip still moving? Times are milliseconds.
use zcash_faucet.Base.{
  ℕ, ◌+◌, ◌-◌, ◌≤◌, ◌<◌, ◌≡◌, refl, sym, subst, ◌∙◌, Bool, true, false, not, ◌&&◌, inl, inr, Option,
  none, some, List, [], ◌∷◌, leb, ◌==◌, if◌then◌else◌, arith, All, Bool-cases, Option-cases,
}

pub record TipSample : Type 0 where
  pub height : ℕ
  pub at : ℕ
  pub external_height : Option ℕ

pub record TipProgress : Type 0 where
  pub stalled : Bool
  pub stalled_ms : Option ℕ
  pub network_quiet : Bool
  pub next : TipSample

abbrev pub same_known : Option ℕ → Option ℕ → Bool
same_known (some a) (some b) = a == b
same_known _ _ = false

abbrev moved : ℕ → Option ℕ → ℕ → Option ℕ → TipProgress
moved height external_height now stalled_ms = record {
  stalled = false;
  stalled_ms = stalled_ms;
  network_quiet = false;
  next = record { height = height; at = now; external_height = external_height };
}

abbrev unmoved : ℕ → TipSample → Option ℕ → ℕ → TipProgress
unmoved tip_stall_ms prev external_height now = record {
  stalled =
      leb tip_stall_ms (now - prev.at) && not (same_known external_height prev.external_height);
  stalled_ms = some (now - prev.at);
  network_quiet = same_known external_height prev.external_height;
  next = prev;
}

-- `tipProgress`, with TIP_STALL_MS as configured.
unfoldable pub tip_progress : ℕ → Option TipSample → ℕ → Option ℕ → ℕ → TipProgress
tip_progress tip_stall_ms none height external_height now = moved height external_height now none
tip_progress tip_stall_ms (some prev) height external_height now =
    if height == prev.height
    then unmoved tip_stall_ms prev external_height now
    else moved height external_height now (some 0)

-- The polls of a process, newest first, and the sample that is kept behind them.
pub record Poll : Type 0 where
  pub height : ℕ
  pub external_height : Option ℕ
  pub now : ℕ

unfoldable pub sample_of : ℕ → List Poll → Option TipSample
unfolding tip_progress
sample_of tip_stall_ms [] = none
sample_of tip_stall_ms (p ∷ older) = some (
    (tip_progress tip_stall_ms (sample_of tip_stall_ms older) p.height p.external_height
      p.now).next)

abbrev pub InOrder : List Poll → Type 0
InOrder [] = Unit
InOrder (p ∷ older) = All (λ (q : Poll). q.now ≤ p.now) older × InOrder older

abbrev Steady : TipSample → List Poll → Type 0
Steady s = All (λ (q : Poll). s.at < q.now → q.height ≡ s.height)

before :
    (s : TipSample) (now : ℕ) (older : List Poll)
    → All (λ (q : Poll). q.now ≤ now) older
    → now ≤ s.at
    → Steady s older
before s now [] a le = tt
before s now (q ∷ older) (a, b) le = (λ lt. absurd (omega arith), before s now older b le)

sampled : Poll → TipSample
sampled p = record { height = p.height; at = p.now; external_height = p.external_height }

next_same :
    (stall : ℕ) (prev : TipSample) (p : Poll)
    → (p.height == prev.height) ≡ true
    → (tip_progress stall (some prev) p.height p.external_height p.now).next ≡ prev
unfolding tip_progress
next_same stall prev p e = rw e refl

next_moved :
    (stall : ℕ) (prev : TipSample) (p : Poll)
    → (p.height == prev.height) ≡ false
    → (tip_progress stall (some prev) p.height p.external_height p.now).next ≡ sampled p
unfolding tip_progress sampled
next_moved stall prev p e = rw e refl

sampled_steady :
    (p : Poll) (older : List Poll)
    → All (λ (q : Poll). q.now ≤ p.now) older
    → Steady (sampled p) (p ∷ older)
unfolding sampled
sampled_steady p older order =
    (λ lt. absurd (omega arith), before (sampled p) p.now older order (omega arith))

next_steady :
    (stall : ℕ) (prev : Option TipSample) (p : Poll) (older : List Poll)
    → All (λ (q : Poll). q.now ≤ p.now) older
    → ((s : TipSample) → prev ≡ some s → Steady s older)
    → Steady ((tip_progress stall prev p.height p.external_height p.now).next) (p ∷ older)
unfolding tip_progress sampled
next_steady stall none p older order ih = sampled_steady p older order
next_steady stall (some prev) p older order ih = elim (Bool-cases (p.height == prev.height)) [
  | inl same ↦
      subst (λ (s : TipSample). Steady s (p ∷ older)) (sym (next_same stall prev p same))
        (λ lt. ground arith, ih prev refl)
  | inr other ↦
      subst (λ (s : TipSample). Steady s (p ∷ older)) (sym (next_moved stall prev p other))
        (sampled_steady p older order)
]

sample_steady :
    (stall : ℕ) (polls : List Poll) (s : TipSample)
    → InOrder polls
    → sample_of stall polls ≡ some s
    → Steady s polls
unfolding sample_of
sample_steady stall [] s order e = cc
sample_steady stall (p ∷ older) s (order, orders) e =
    let next : TipSample =
      (tip_progress stall (sample_of stall older) p.height p.external_height p.now).next in
    let steady : Steady next (p ∷ older) =
      next_steady stall (sample_of stall older) p older order
        (λ t et. sample_steady stall older t orders et) in
    subst (λ (t : TipSample). Steady t (p ∷ older)) (some_inj next s e) steady
  where
    some_inj : (a b : TipSample) → some a ≡ some b → a ≡ b
    some_inj a b e = cc

steady_window :
    (s : TipSample) (stall now height : ℕ) (older : List Poll)
    → Steady s older
    → s.height ≡ height
    → 1 ≤ stall
    → stall ≤ now - s.at
    → All (λ (q : Poll). now < q.now + stall → q.height ≡ height) older
steady_window s stall now height [] a e h0 h = tt
steady_window s stall now height (q ∷ older) (a, b) e h0 h =
    (λ lt. a (omega arith) ∙ e, steady_window s stall now height older b e h0 h)

-- With a stall time that is not 0, and polls in order of time, a poll that calls our tip stalled has seen no other height since the stall time before it.
pub tip_progress-stalled :
    (stall : ℕ) (p : Poll) (older : List Poll)
    → 1 ≤ stall
    → InOrder (p ∷ older)
    → (tip_progress stall (sample_of stall older) p.height p.external_height p.now).stalled ≡ true
    → All (λ (q : Poll). p.now < q.now + stall → q.height ≡ p.height) older
unfolding tip_progress
tip_progress-stalled stall p older some_time (order, orders) e =
    elim (Option-cases (sample_of stall older)) [
      | inl first ↦ absurd (ground arith)
      | inr (s, es) ↦
          steady_window s stall p.now p.height older (sample_steady stall older s orders es)
            (ground arith) some_time (ground arith)
    ]
