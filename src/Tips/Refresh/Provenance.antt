-- ===== src/Tips/Refresh/Provenance.antt =====
-- Every height that is read was answered by a server, within the age that is allowed.
use zcash_faucet.Base.{
  ℕ, ◌+◌, ◌-◌, ◌≤◌, ◌≡◌, ◌≢◌, refl, false, ◌||◌, inl, inr, String, Option, none, some, List, [],
  ◌∷◌, ltb, ◌==◌, arith, All, Bool-cases,
}
use zcash_faucet.Tips.Fetch.{References}
use zcash_faucet.Tips.Refresh.{
  TipState, TipCache, TipReading, TipSource, Event, max_age_ms, reading_for, refresh, kick_if_stale,
  get_external_tip_reading, keep_tip, next_cache, finish_refresh, step, run, cold,
}

young : (at now : ℕ) → ((at == 0) || ltb max_age_ms (now - at)) ≡ false → now ≤ at + max_age_ms
young at now e = ground arith

module _ (P : ℕ → ℕ → Type 0) where
  abbrev pub Answers : ℕ → References → Type 0
  Answers now both =
      (elim both.hosh [ none ↦ Unit | some h ↦ P h now ])
      × (elim both.direct [ none ↦ Unit | some (h, host) ↦ P h now ])

  -- Every answer that arrives in the event has the property, at the event's time.
  abbrev pub IsReport : Event → Type 0
  IsReport (Event.answered now both) = Answers now both
  IsReport _ = Unit

  abbrev Cached : TipCache → Type 0
  Cached c = elim c.height [ none ↦ Unit | some h ↦ P h c.at × (c.source ≢ TipSource.from_none) ]

  keep_tip-Cached :
      (h now : ℕ) (source : TipSource) (host : Option String) (c : TipCache)
      → source ≢ TipSource.from_none
      → Cached c
      → P h now
      → Cached (keep_tip h now source host c)
  keep_tip-Cached h now source host c named ok p = elim (Bool-cases (ltb 0 h)) [
    | inl e ↦ rw e (p, named)
    | inr e ↦ rw e ok
  ]

  next_cache-Cached :
      (hosh : Option ℕ) (direct : Option (ℕ × String)) (now : ℕ) (c : TipCache)
      → Cached c
      → Answers now (record { hosh = hosh; direct = direct })
      → Cached (next_cache (record { hosh = hosh; direct = direct }) now c)
  next_cache-Cached none none now c ok (a, b) = ok
  next_cache-Cached none (some (h, host)) now c ok (a, b) =
      keep_tip-Cached h now TipSource.from_direct (some host) c (λ e. cc) ok b
  next_cache-Cached (some h) direct now c ok (a, b) =
      keep_tip-Cached h now TipSource.from_aggregate none c (λ e. cc) ok a

  step-Cached : (e : Event) (s : TipState) → Cached s.cache → IsReport e → Cached (step e s).0.cache
  unfolding step kick_if_stale get_external_tip_reading refresh finish_refresh
  step-Cached (Event.references_read now) s ok r = ground arith
  step-Cached (Event.tip_read now) s ok r = ground arith
  step-Cached (Event.warmed now) s ok r = ground arith
  step-Cached (Event.answered now both) s ok r =
      next_cache-Cached both.hosh both.direct now s.cache ok r

  run-Cached :
      (es : List Event) (s : TipState) → Cached s.cache → All IsReport es → Cached (run es s).cache
  unfolding run
  run-Cached [] s ok r = ok
  run-Cached (e ∷ es) s ok (r, rs) = run-Cached es (step e s).0 (step-Cached e s ok r) rs

  -- A reading at a time: with a height, it names its source, and the property holds of the height
  -- at a time that is at most five minutes before; without one, it names nothing.
  abbrev pub IsAnswered : ℕ → TipReading → Type 0
  IsAnswered now r = elim r.height [
    | none ↦ (r.source ≡ TipSource.from_none) × (r.host ≡ none)
    | some h ↦ (r.source ≢ TipSource.from_none) × ((at : ℕ) × P h at × (now ≤ at + max_age_ms))
  ]

  reading_of :
      (height : Option ℕ) (at : ℕ) (source : TipSource) (host : Option String) (now : ℕ)
      → Cached (record { height = height; at = at; source = source; host = host })
      → IsAnswered now
          (reading_for (record { height = height; at = at; source = source; host = host }) now)
  unfolding reading_for
  reading_of none at source host now ok =
      elim (Bool-cases ((at == 0) || ltb max_age_ms (now - at))) [
        | inl e ↦ rw e (refl, refl)
        | inr e ↦ rw e (refl, refl)
      ]
  reading_of (some h) at source host now (p, named) =
      elim (Bool-cases ((at == 0) || ltb max_age_ms (now - at))) [
        | inl e ↦ rw e (refl, refl)
        | inr e ↦ rw e (named, (at, p, young at now e))
      ]

  reading_for-IsAnswered : (c : TipCache) (now : ℕ) → Cached c → IsAnswered now (reading_for c now)
  reading_for-IsAnswered c now ok = reading_of c.height c.at c.source c.host now ok

  -- Whatever holds of every height that a server answers, at the time at which it arrives, holds
  -- of the tip that is read after any run from a cold start, at a time at most five minutes
  -- before; a reading with no such height carries no source and no host.
  pub run-IsAnswered :
      (es : List Event) (now : ℕ)
      → All IsReport es
      → IsAnswered now (reading_for (run es cold).cache now)
  run-IsAnswered es now r = reading_for-IsAnswered (run es cold).cache now (run-Cached es cold tt r)
