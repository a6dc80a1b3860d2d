-- ===== src/Tips/Expiry/Stamp.antt =====
-- The tip that is stamped, and what the absence of a warning says of it.
use zcash_faucet.Base.{
  ℕ, ◌-◌, max, min, ◌≤◌, ◌≡◌, ◌≢◌, refl, true, inl, inr, String, Option, none, some, List, [], ◌∷◌,
  length, any, ◌==◌, arith, All, Option-cases,
}
use zcash_faucet.Base.Int.{ℤ, pos, ◌≤ℤ◌, lebℤ}
use zcash_faucet.Tips.Fetch.{max_height}
use zcash_faucet.Tips.Expiry.{
  EndpointTip, ExpiryTip, Note, usable, min_height, spread_of, summarize, disagreement, ask_all,
  tip_for_expiry,
}

max_height-none : (hs : List ℕ) → max_height hs ≡ none → hs ≡ []
max_height-none [] e = refl
max_height-none (h ∷ hs) e = ground (arith, Option-cases (max_height hs))

module _ {A : Type 0} where
  All-map : {P Q : A → Type 0} (xs : List A) → ((x : A) → P x → Q x) → All P xs → All Q xs
  All-map [] f ps = tt
  All-map (x ∷ xs) f (p, ps) = (f x p, All-map xs f ps)

All-below :
    (hs : List ℕ) (top : ℕ) → ((m : ℕ) → max_height hs ≡ some m → m ≤ top) → All (λ h. h ≤ top) hs
All-below [] top f = tt
All-below (h ∷ hs) top f = (
  elim (Option-cases (max_height hs)) [
    | inl n ↦ f h (ground (arith, n))
    | inr (m, s) ↦ ground (arith, s, f (max h m) (ground (arith, s)))
  ],
  All-below hs top (λ m s. ground (arith, s, f (max h m) (ground (arith, s)))),
)

max_height-among :
    (hs : List ℕ) (top : ℕ) → max_height hs ≡ some top → any (λ h. h == top) hs ≡ true
max_height-among [] top e = cc
max_height-among (h ∷ hs) top e =
    ground (arith, Option-cases (max_height hs), max_height-among hs top)

All-above :
    (hs : List ℕ) (low : ℕ) → ((m : ℕ) → min_height hs ≡ some m → low ≤ m) → All (λ h. low ≤ h) hs
All-above [] low f = tt
All-above (h ∷ hs) low f = (
  elim (Option-cases (min_height hs)) [
    | inl n ↦ f h (ground (arith, n))
    | inr (m, s) ↦ ground (arith, s, f (min h m) (ground (arith, s)))
  ],
  All-above hs low (λ m s. ground (arith, s, f (min h m) (ground (arith, s)))),
)

min_height-none : (hs : List ℕ) (top : ℕ) → max_height hs ≡ some top → min_height hs ≢ none
min_height-none [] top e n = cc
min_height-none (h ∷ hs) top e n = ground (arith, Option-cases (min_height hs))

-- Of the heights that the servers answered: none when nothing is stamped; else the height that is
-- stamped is the greatest of them.
abbrev pub IsStamp : List ℕ → Option ℕ → Type 0
IsStamp hs none = hs ≡ []
IsStamp hs (some top) = All (λ h. h ≤ top) hs × (any (λ h. h == top) hs ≡ true)

abbrev pub stamped : Option ExpiryTip → Option ℕ
stamped none = none
stamped (some tip) = tip.height

abbrev pub IsNear : List ℕ → ℤ → Option ℕ → Type 0
IsNear hs max_lag none = Unit
IsNear hs max_lag (some top) = (2 ≤ length hs) × All (λ h. pos (top - h) ≤ℤ max_lag) hs

abbrev pub IsTold : List ℕ → ℤ → Option ℕ → Option Note → Type 0
IsTold hs max_lag stamp none = IsNear hs max_lag stamp
IsTold hs max_lag stamp (some (Note.only_one host)) = length hs ≡ 1
IsTold hs max_lag stamp (some (Note.spread_out spread top behind)) = 2 ≤ length hs

max_height-IsStamp : (hs : List ℕ) (stamp : Option ℕ) → max_height hs ≡ stamp → IsStamp hs stamp
max_height-IsStamp hs none e = max_height-none hs e
max_height-IsStamp hs (some top) e =
    (All-below hs top (λ m s. ground (arith, e, s)), max_height-among hs top e)

le-IsNear : (top low h : ℕ) (z : ℤ) → lebℤ (pos (top - low)) z ≡ true → low ≤ h → pos (top - h) ≤ℤ z
le-IsNear top low h z e le = ground (arith, e, le)

min_height-IsNear :
    (hs : List ℕ) (max_lag : ℤ) (top low : ℕ)
    → max_height hs ≡ some top
    → min_height hs ≡ some low
    → lebℤ (pos (top - low)) max_lag ≡ true
    → All (λ h. pos (top - h) ≤ℤ max_lag) hs
min_height-IsNear hs max_lag top low e f ok =
    All-map hs (λ h le. le-IsNear top low h max_lag ok le)
      (All-above hs low (λ m s. ground (arith, f, s)))

answered_pos : (hs : List ℕ) (top : ℕ) → max_height hs ≡ some top → 1 ≤ length hs
answered_pos [] top e = cc
answered_pos (h ∷ hs) top e = omega arith

quiet_budget :
    (rs : List EndpointTip) (max_lag : ℤ) (top low : ℕ)
    → max_height (usable rs) ≡ some top
    → min_height (usable rs) ≡ some low
    → disagreement max_lag (summarize rs) ≡ none
    → (2 ≤ length (usable rs)) × (lebℤ (pos (top - low)) max_lag ≡ true)
unfolding disagreement summarize
quiet_budget rs max_lag top low e f q =
    let some_one = answered_pos (usable rs) top e in ground (arith, e, f, q, some_one)

disagreement-IsNear :
    (rs : List EndpointTip) (max_lag : ℤ) (stamp : Option ℕ)
    → max_height (usable rs) ≡ stamp
    → disagreement max_lag (summarize rs) ≡ none
    → IsNear (usable rs) max_lag stamp
disagreement-IsNear rs max_lag none e q = tt
disagreement-IsNear rs max_lag (some top) e q = elim (Option-cases (min_height (usable rs))) [
  | inl n ↦ elim (min_height-none (usable rs) top e n) [ ]
  | inr (low, f) ↦
      let (two, ok) = quiet_budget rs max_lag top low e f q in
      (two, min_height-IsNear (usable rs) max_lag top low e f ok)
]

stamp_eq :
    (ask_one : String → Option ℕ) (max_lag : ℤ) (endpoints : List String)
    → max_height (usable (ask_all ask_one endpoints))
      ≡ stamped (tip_for_expiry ask_one max_lag endpoints).1
unfolding tip_for_expiry summarize
stamp_eq ask_one max_lag endpoints =
    ground (arith, Option-cases (max_height (usable (ask_all ask_one endpoints))))

disagreement-IsTold :
    (rs : List EndpointTip) (max_lag : ℤ) (stamp : Option ℕ) (note : Option Note)
    → max_height (usable rs) ≡ stamp
    → disagreement max_lag (summarize rs) ≡ note
    → IsTold (usable rs) max_lag stamp note
unfolding disagreement summarize
disagreement-IsTold rs max_lag stamp none e q = disagreement-IsNear rs max_lag stamp e q
disagreement-IsTold rs max_lag stamp (some (Note.only_one host)) e q =
    ground (arith, q, Option-cases (spread_of (usable rs)))
disagreement-IsTold rs max_lag stamp (some (Note.spread_out spread top behind)) e q =
    ground (arith, q, Option-cases (spread_of (usable rs)))

-- Whatever the servers answer, `tipForExpiry` fails only when none answers a usable height, and
-- else stamps the greatest of the usable heights. It says that one server answered only when one
-- did, that they are spread out only when two or more did, and nothing only when none answered, or
-- when two or more did and each is behind the stamped height by the lag allowed at most.
pub tip_for_expiry-IsStamp :
    (ask_one : String → Option ℕ) (max_lag : ℤ) (endpoints : List String)
    → let answers : List ℕ = usable (ask_all ask_one endpoints) in
      let (note, tip) = tip_for_expiry ask_one max_lag endpoints in
      IsStamp answers (stamped tip) × IsTold answers max_lag (stamped tip) note
unfolding tip_for_expiry
tip_for_expiry-IsStamp ask_one max_lag endpoints =
    let rs = ask_all ask_one endpoints in
    let e = stamp_eq ask_one max_lag endpoints in
    (
      max_height-IsStamp (usable rs) (stamped (tip_for_expiry ask_one max_lag endpoints).1) e,
      disagreement-IsTold rs max_lag (stamped (tip_for_expiry ask_one max_lag endpoints).1)
          (disagreement max_lag (summarize rs)) e refl,
    )
