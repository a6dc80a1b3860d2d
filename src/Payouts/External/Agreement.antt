-- ===== src/Payouts/External/Agreement.antt =====
-- A verdict of the sources together rests on evidence about this very transaction.
use zcash_faucet.Base.{
  ℕ, zero, suc, ◌≤◌, ◌≡◌, ◌⊎◌, refl, sym, subst, ◌∙◌, Bool, true, false, ◌&&◌, inl, inr, String,
  Option, none, some, List, [], ◌∷◌, length, any, keep, leb, ◌==◌, if◌then◌else◌, arith, All,
  Bool-cases,
}
use zcash_faucet.Payouts.External.{
  ExternalState, ExternalSighting, ExternalVerdict, Reply, ask_one_source, is_confirmed, is_absent,
  same_height, disagree, settle, confirm_externally, ask_all,
}
use zcash_faucet.Payouts.External.Source.{
  Evidence, Denial, confirmed-Evidence, absent-Denial, Denial-absent, Evidence-confirmed,
}

-- The sightings behind a verdict: what each says if it confirms, and if it denies.
abbrev Sound : ExternalVerdict → List ExternalSighting → Type 0
Sound v sightings = elim v.state [
  | ExternalState.confirmed ↦
      (1 ≤ length (keep is_confirmed sightings))
      × All (λ s. (is_absent s ≡ false) × (is_confirmed s ≡ true → s.height ≡ v.height)) sightings
  | ExternalState.absent ↦ (2 ≤ length sightings) × All (λ s. is_absent s ≡ true) sightings
  | ExternalState.cannot_verify ↦ Unit
]

none_absent :
    (xs : List ExternalSighting)
    → length (keep is_absent xs) ≡ 0
    → All (λ s. is_absent s ≡ false) xs
none_absent [] h = tt
none_absent (x ∷ xs) h = ground (arith, none_absent xs)

length-keep : (xs : List ExternalSighting) → length (keep is_absent xs) ≤ length xs
length-keep [] = omega arith
length-keep (x ∷ xs) = ground (arith, length-keep xs)

each_denies :
    (xs : List ExternalSighting)
    → length (keep is_absent xs) ≡ length xs
    → All (λ s. is_absent s ≡ true) xs
each_denies [] h = tt
each_denies (x ∷ xs) h = ground (arith, each_denies xs, length-keep xs)

same_height→eq : (a b : Option ℕ) → same_height a b ≡ true → b ≡ a
same_height→eq none none e = refl
same_height→eq (some a) (some b) e = ground arith
same_height→eq none (some b) e = cc
same_height→eq (some a) none e = cc

agreed :
    (h : Option ℕ) (rest : List ExternalSighting)
    → any (λ t. elim (same_height h t.height) [ true ↦ false | false ↦ true ]) rest ≡ false
    → All (λ (t : ExternalSighting). t.height ≡ h) rest
agreed h [] e = tt
agreed h (t ∷ rest) e = ground (arith, same_height→eq h t.height, agreed h rest)

from_kept :
    (h : Option ℕ) (xs : List ExternalSighting)
    → All (λ (t : ExternalSighting). t.height ≡ h) (keep is_confirmed xs)
    → All (λ s. is_absent s ≡ false) xs
    → All (λ s. (is_absent s ≡ false) × (is_confirmed s ≡ true → s.height ≡ h)) xs
from_kept h [] a b = tt
from_kept h (x ∷ xs) a (b, bs) = elim (Bool-cases (is_confirmed x)) [
  | inl e ↦
      let kept : All (λ (t : ExternalSighting). t.height ≡ h) (x ∷ keep is_confirmed xs) =
        subst
          (λ (t : Bool).
            All (λ (u : ExternalSighting). u.height ≡ h)
              (if t then x ∷ keep is_confirmed xs else keep is_confirmed xs))
          e a in
      ((b, λ c. kept.0), from_kept h xs kept.1 bs)
  | inr e ↦
      let kept : All (λ (t : ExternalSighting). t.height ≡ h) (keep is_confirmed xs) =
        subst
          (λ (t : Bool).
            All (λ (u : ExternalSighting). u.height ≡ h)
              (if t then x ∷ keep is_confirmed xs else keep is_confirmed xs))
          e a in
      ((b, λ c. ground arith), from_kept h xs kept bs)
]

settled :
    (kept xs : List ExternalSighting) (n asked : ℕ)
    → keep is_confirmed xs ≡ kept
    → length (keep is_absent xs) ≡ n
    → length xs ≡ asked
    → Sound (settle kept n asked) xs
settled [] xs n asked ek en ea = elim (Bool-cases (leb 2 n && (n == asked))) [
  | inl e ↦ rw e (ground arith, each_denies xs (ground arith))
  | inr e ↦ rw e tt
]
settled (s ∷ rest) xs (suc n) asked ek en ea = tt
settled (s ∷ rest) xs zero asked ek en ea = elim (Bool-cases (disagree (s ∷ rest))) [
  | inl e ↦ rw e tt
  | inr e ↦ rw e (
    rw ek (omega arith),
    from_kept s.height xs (rw ek (refl, agreed s.height rest e)) (none_absent xs en),
  )
]

-- Some element has the property.
abbrev pub Exists : {A : Type 0} → (A → Type 0) → List A → Type 0
Exists P [] = ⊥
Exists P (x ∷ xs) = P x ⊎ Exists P xs

-- The source gives evidence for the height, or neither evidence for any height nor a denial.
abbrev pub Agrees : String → Option ℕ → Reply → Type 0
Agrees txid h reply =
    Evidence txid h reply ⊎ (¬ ((k : Option ℕ) × Evidence txid k reply) × ¬ Denial txid reply)

-- What a verdict on the replies means: of one that confirms at a height, a source gives evidence
-- for that height, and no source gives evidence for another or denies; of one that is absent,
-- there are two sources at least, and every one denies.
abbrev pub IsSupported : String → ExternalVerdict → List (String × Reply) → Type 0
IsSupported txid v replies = elim v.state [
  | ExternalState.confirmed ↦
      Exists (λ r. Evidence txid v.height r.1) replies × All (λ r. Agrees txid v.height r.1) replies
  | ExternalState.absent ↦ (2 ≤ length replies) × All (λ r. Denial txid r.1) replies
  | ExternalState.cannot_verify ↦ Unit
]

length-ask :
    (form : Bool) (txid : String) (rs : List (String × Reply))
    → length (ask_all form txid rs) ≡ length rs
length-ask form txid [] = refl
length-ask form txid (r ∷ rs) = omega (arith, length-ask form txid rs)

none_asked :
    (txid : String) (rs : List (String × Reply))
    → length (keep is_confirmed (ask_all false txid rs)) ≡ 0
unfolding ask_one_source
none_asked txid [] = refl
none_asked txid (r ∷ rs) = none_asked txid rs

-- What is known of a sighting behind a confirmation.
abbrev Fits : Option ℕ → ExternalSighting → Type 0
Fits h s = (is_absent s ≡ false) × (is_confirmed s ≡ true → s.height ≡ h)

Fits-Evidence :
    (txid org : String) (h : Option ℕ) (reply : Reply)
    → Fits h (ask_one_source true txid org reply)
    → is_confirmed (ask_one_source true txid org reply) ≡ true
    → Evidence txid h reply
Fits-Evidence txid org h reply (a, b) c =
    subst (λ (t : Option ℕ). Evidence txid t reply) (b c) (confirmed-Evidence true txid org reply c)

reply-Agrees :
    (txid org : String) (h : Option ℕ) (reply : Reply)
    → Fits h (ask_one_source true txid org reply)
    → Agrees txid h reply
reply-Agrees txid org h reply fits =
    elim (Bool-cases (is_confirmed (ask_one_source true txid org reply))) [
      | inl c ↦ inl (Fits-Evidence txid org h reply fits c)
      | inr c ↦ inr (
        λ (k, e). cc (sym (Evidence-confirmed txid org k reply e) ∙ c),
        λ d. cc (sym (Denial-absent txid org reply d) ∙ fits.0),
      )
    ]

replies-Agrees :
    (txid : String) (h : Option ℕ) (rs : List (String × Reply))
    → All (Fits h) (ask_all true txid rs)
    → All (λ r. Agrees txid h r.1) rs
replies-Agrees txid h [] a = tt
replies-Agrees txid h ((org, reply) ∷ rs) (a, more) =
    (reply-Agrees txid org h reply a, replies-Agrees txid h rs more)

some-Evidence :
    (txid : String) (h : Option ℕ) (rs : List (String × Reply))
    → 1 ≤ length (keep is_confirmed (ask_all true txid rs))
    → All (Fits h) (ask_all true txid rs)
    → Exists (λ r. Evidence txid h r.1) rs
some-Evidence txid h [] one a = omega (arith, one)
some-Evidence txid h ((org, reply) ∷ rs) one (a, more) =
    elim (Bool-cases (is_confirmed (ask_one_source true txid org reply))) [
      | inl c ↦ inl (Fits-Evidence txid org h reply a c)
      | inr c ↦ inr (some-Evidence txid h rs (ground (arith, one, c)) more)
    ]

lift_absent :
    (form : Bool) (txid : String) (rs : List (String × Reply))
    → All (λ s. is_absent s ≡ true) (ask_all form txid rs)
    → All (λ r. Denial txid r.1) rs
lift_absent form txid [] a = tt
lift_absent form txid ((org, reply) ∷ rs) (a, more) =
    (absent-Denial form txid org reply a, lift_absent form txid rs more)

lifted :
    (form : Bool) (txid : String) (state : ExternalState) (h : Option ℕ)
    (rs : List (String × Reply))
    → Sound (record { state = state; height = h }) (ask_all form txid rs)
    → IsSupported txid (record { state = state; height = h }) rs
lifted false txid ExternalState.confirmed h rs (a, b) =
    absurd (omega (arith, a, none_asked txid rs))
lifted true txid ExternalState.confirmed h rs (a, b) =
    (some-Evidence txid h rs a b, replies-Agrees txid h rs b)
lifted form txid ExternalState.absent h rs (a, b) =
    (omega (arith, length-ask form txid rs), lift_absent form txid rs b)
lifted form txid ExternalState.cannot_verify h rs a = tt

-- Whatever the sources reply, the verdict on a payout is supported. If it confirms at a height,
-- some source names this transaction and the height as that at which it is mined, and no source
-- gives another, or expressly denies the transaction while it names no height for it. If it is
-- absent, there are two sources at least, and every one expressly denies it. An error, a redirect
-- or an empty body never counts as either.
pub confirm_externally-IsSupported :
    (form : Bool) (txid : String) (replies : List (String × Reply))
    → IsSupported txid (confirm_externally (ask_all form txid replies)) replies
unfolding confirm_externally
confirm_externally-IsSupported form txid replies =
    let seen = ask_all form txid replies in
    let v = settle (keep is_confirmed seen) (length (keep is_absent seen)) (length seen) in
    lifted form txid v.state v.height replies (
      settled (keep is_confirmed seen) seen (length (keep is_absent seen)) (length seen) refl refl
        refl)
