-- ===== src/RateLimit/Refines.antt =====
-- The limiter against its abstract view: a window for each key, that nothing sweeps and that no
-- table bounds. The table forgets the windows that have rolled over, and no verdict shows it.
use zcash_faucet.Base.{
  ℕ, ◌+◌, ◌≤◌, ◌<◌, ◌≡◌, refl, sym, ◌∙◌, ap, ap₂, subst, subst₂, false, not, ◌||◌, inl, inr, String,
  Option, none, some, List, [], ◌∷◌, length, leb, ltb, str_eq, arith, Bool-cases, Option-cases,
}
use zcash_faucet.Base.Map.{
  lookup, is_some, insert, lookup-insert, length-insert, lookup-keep_values_none,
  length-keep_values-le,
}
use zcash_faucet.RateLimit.{
  RateLimiter, RateLimitVerdict, Window, max_tracked_keys, rolled_over, sweep, check_swept, check,
}
use zcash_faucet.RateLimit.Bound.{IsValid, opened, check-IsValid}
use zcash_faucet.RateLimit.Quota.{sweep-lookup, sweep-gone}
use zcash_faucet.RateLimit.Spec.{
  Windows, live, set_key, spec_live, spec_check, verdicts, spec_verdicts,
}

-- The table holds what the abstract view does, up to windows that have rolled over.
abbrev pub Holds : ℕ → RateLimiter → Windows → Type 0
Holds at l f =
    (k : String) → live l.window_seconds at (lookup k l.windows) ≡ live l.window_seconds at (f k)

live-later : (ws at u : ℕ) (o : Option Window) → at ≤ u → live ws u (live ws at o) ≡ live ws u o
live-later ws at u none le = refl
live-later ws at u (some w) le = ground arith

Holds-later : (at u : ℕ) (l : RateLimiter) (f : Windows) → at ≤ u → Holds at l f → Holds u l f
Holds-later at u l f le h k =
    sym (live-later l.window_seconds at u (lookup k l.windows) le)
    ∙ ap (live l.window_seconds u) (h k)
    ∙ live-later l.window_seconds at u (f k) le

live-none : (ws at : ℕ) (o : Option Window) → is_some o ≡ false → live ws at o ≡ none
live-none ws at none e = refl
live-none ws at (some w) e = cc

sweep_none :
    (l : RateLimiter) (at : ℕ) (k : String)
    → is_some (lookup k l.windows) ≡ false
    → is_some (lookup k (sweep l at).windows) ≡ false
unfolding sweep
sweep_none l at k e =
    lookup-keep_values_none k (λ (w : Window). not (rolled_over l.window_seconds at w)) l.windows e

live-sweep :
    (l : RateLimiter) (at : ℕ) (k : String)
    → IsValid l
    → live l.window_seconds at (lookup k (sweep l at).windows)
      ≡ live l.window_seconds at (lookup k l.windows)
live-sweep l at k v = elim (Option-cases (lookup k l.windows)) [
  | inl e ↦
      live-none l.window_seconds at (lookup k (sweep l at).windows)
        (sweep_none l at k (ap is_some e))
      ∙ sym (live-none l.window_seconds at (lookup k l.windows) (ap is_some e))
  | inr (w, e) ↦ elim (Bool-cases (rolled_over l.window_seconds at w)) [
    | inl over ↦
        live-none l.window_seconds at (lookup k (sweep l at).windows)
          (sweep-gone l k at w.started_at w.count v e (ground arith))
        ∙ sym (rw e (rw over refl))
    | inr runs ↦
        ap (live l.window_seconds at)
          (sweep-lookup l k at w.started_at w.count (e, ground arith) ∙ sym e)
  ]
]

Holds-swept :
    (l : RateLimiter) (at : ℕ) (f : Windows) → IsValid l → Holds at l f → Holds at (sweep l at) f
unfolding sweep
Holds-swept l at f v h k = live-sweep l at k v ∙ h k

-- The same window is set on both sides.
Holds-set :
    (ws at : ℕ) (windows : List (String × Window)) (f : Windows) (key : String) (w : Window)
    → ((k : String) → live ws at (lookup k windows) ≡ live ws at (f k))
    → (k : String) → live ws at (lookup k (insert key w windows)) ≡ live ws at (set_key key w f k)
Holds-set ws at windows f key w h k = elim (Bool-cases (str_eq key k)) [
  | inl same ↦ rw (lookup-insert key k w windows) (rw same refl)
  | inr other ↦ rw (lookup-insert key k w windows) (rw other (h k))
]

abbrev Step : ℕ → RateLimiter → RateLimiter × RateLimitVerdict → Windows × RateLimitVerdict → Type 0
Step at l r s =
    (r.1 ≡ s.1)
    × Holds at r.0 s.0
    × (r.0.window_seconds ≡ l.window_seconds)
    × (r.0.max_count ≡ l.max_count)
    × (length r.0.windows ≤ length l.windows + 1)

Step-live :
    (l : RateLimiter) (f : Windows) (key : String) (at : ℕ)
    → length l.windows < max_tracked_keys
    → Holds at l f
    → Step at l (check_swept l key at) (
        spec_live l.window_seconds l.max_count key at f
          (live l.window_seconds at (lookup key l.windows)))
unfolding check_swept
Step-live l f key at room h =
    let full : leb max_tracked_keys (length l.windows) ≡ false = ground arith in
    elim (Option-cases (lookup key l.windows)) [
      | inl e ↦
          rw (e, check_swept)
            (rw full (
              refl,
              Holds-set l.window_seconds at l.windows f key (opened at 1) h,
              refl,
              refl,
              ground (arith, length-insert key (opened at 1) l.windows),
            ))
      | inr (w, e) ↦
          rw (e, check_swept)
            (elim (Bool-cases (rolled_over l.window_seconds at w)) [
              | inl over ↦ rw over (
                refl,
                Holds-set l.window_seconds at l.windows f key (opened at 1) h,
                refl,
                refl,
                ground (arith, length-insert key (opened at 1) l.windows),
              )
              | inr runs ↦ rw runs (elim (Bool-cases (ltb w.count l.max_count)) [
                | inl under ↦ rw under (
                  refl,
                  Holds-set l.window_seconds at l.windows f key (opened w.started_at (w.count + 1))
                      h,
                  refl,
                  refl,
                  ground (arith, length-insert key (opened w.started_at (w.count + 1)) l.windows),
                )
                | inr over ↦ rw over (refl, h, refl, refl, omega arith)
              ])
            ])
    ]

sweep-le : (l : RateLimiter) (at : ℕ) → length (sweep l at).windows ≤ length l.windows
unfolding sweep
sweep-le l at =
    length-keep_values-le (λ (w : Window). not (rolled_over l.window_seconds at w)) l.windows

-- From a table that holds the abstract view, a check answers as the abstract one.
Step-held :
    (l : RateLimiter) (f : Windows) (key : String) (at : ℕ)
    → length l.windows < max_tracked_keys
    → Holds at l f
    → Step at l (check_swept l key at) (spec_check l.window_seconds l.max_count key at f)
Step-held l f key at room h =
    subst
      (λ (o : Option Window).
        Step at l (check_swept l key at) (spec_live l.window_seconds l.max_count key at f o))
      (h key) (Step-live l f key at room h)

Step-swept :
    (l : RateLimiter) (f : Windows) (key : String) (at : ℕ)
    → IsValid l
    → length l.windows < max_tracked_keys
    → Holds at l f
    → Step at l (check_swept (sweep l at) key at) (spec_check l.window_seconds l.max_count key at f)
unfolding sweep
Step-swept l f key at v room h =
    let s =
      Step-held (sweep l at) f key at (omega (arith, sweep-le l at)) (Holds-swept l at f v h) in
    (s.0, s.1, s.2, s.3, omega (arith, s.4, sweep-le l at))

Step-check :
    (l : RateLimiter) (f : Windows) (key : String) (at : ℕ)
    → IsValid l
    → length l.windows < max_tracked_keys
    → Holds at l f
    → Step at l (check l key at) (spec_check l.window_seconds l.max_count key at f)
unfolding check
Step-check l f key at v room h =
    elim (Bool-cases (leb l.next_sweep at || ltb max_tracked_keys (length l.windows))) [
      | inl due ↦ rw due (Step-swept l f key at v room h)
      | inr early ↦ rw early (Step-held l f key at room h)
    ]

-- The calls are in order of time, from `at` on.
abbrev pub InOrder : ℕ → List (String × ℕ) → Type 0
InOrder at [] = Unit
InOrder at ((key, u) ∷ calls) = (at ≤ u) × InOrder u calls

verdicts-held :
    (calls : List (String × ℕ)) (l : RateLimiter) (f : Windows) (at ws mc : ℕ)
    → IsValid l
    → l.window_seconds ≡ ws
    → l.max_count ≡ mc
    → InOrder at calls
    → length l.windows + length calls ≤ max_tracked_keys
    → Holds at l f
    → verdicts calls l ≡ spec_verdicts ws mc calls f
unfolding verdicts spec_verdicts
verdicts-held [] l f at ws mc v ew em order room h = refl
verdicts-held ((key, u) ∷ calls) l f at ws mc v ew em (le, order) room h =
    let s = Step-check l f key u v (omega arith) (Holds-later at u l f le h) in
    let s' : Step u l (check l key u) (spec_check ws mc key u f) =
      subst₂ (λ (a b : ℕ). Step u l (check l key u) (spec_check a b key u f)) ew em s in
    ap₂ (λ (a : RateLimitVerdict) (b : List RateLimitVerdict). a ∷ b) s'.0
      (verdicts-held calls (check l key u).0 (spec_check ws mc key u f).0 u ws mc
        (check-IsValid l key u v) (s'.2 ∙ ew) (s'.3 ∙ em) order (omega (arith, s'.4)) s'.1)

-- As long as the table has room for the calls, in order of time, every verdict of the limiter is
-- that of a limiter which never sweeps and keeps a window for every key: neither the sweep nor the
-- table's representation shows.
pub verdicts-refine :
    (calls : List (String × ℕ)) (l : RateLimiter) (at : ℕ)
    → IsValid l
    → InOrder at calls
    → length l.windows + length calls ≤ max_tracked_keys
    → verdicts calls l ≡ spec_verdicts l.window_seconds l.max_count calls (λ k. lookup k l.windows)
verdicts-refine calls l at v order room =
    verdicts-held calls l (λ k. lookup k l.windows) at l.window_seconds l.max_count v refl refl
      order room (λ k. refl)
