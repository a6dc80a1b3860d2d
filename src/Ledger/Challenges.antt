-- ===== src/Ledger/Challenges.antt =====
-- A proof of work is spent once: the insert into `used_challenges` is the mutex.
use zcash_faucet.Base.{
  ℕ, ◌≤◌, ◌≡◌, Bool, true, false, not, ◌&&◌, ◌||◌, String, str_eq, eq_refl, List, [], ◌∷◌, ◌++◌,
  arith, All, any, keep, ltb,
}
use zcash_faucet.Ledger.{Ledger, UsedChallenge}
use zcash_faucet.Ledger.Calls.{spent_before, spend_challenge, challenge_already_spent}

-- One burn: the signature, its expiry and the time of the call.
pub record Burn : Type 0 where
  pub sig : String
  pub exp : ℕ
  pub at : ℕ

abbrev pub burn_all : List Burn → Ledger → Ledger
burn_all [] l = l
burn_all (b ∷ bs) l = burn_all bs (spend_challenge b.sig b.exp b.at l).0

-- The row of this signature is there, and does not expire before `exp`.
abbrev holds_sig : String → ℕ → List UsedChallenge → Bool
holds_sig sig exp = any λ u. str_eq u.sig sig && not (ltb u.exp exp)

holds_sig-keep :
    (sig : String) (exp at : ℕ) (us : List UsedChallenge)
    → at ≤ exp
    → holds_sig sig exp us ≡ true
    → holds_sig sig exp (keep (λ u. not (ltb u.exp at)) us) ≡ true
holds_sig-keep sig exp at [] le h = h
holds_sig-keep sig exp at (u ∷ us) le h = ground (arith, holds_sig-keep sig exp at us le)

holds_sig-append :
    (sig : String) (exp : ℕ) (us : List UsedChallenge) (u : UsedChallenge)
    → holds_sig sig exp (us ++ u ∷ []) ≡ (holds_sig sig exp us || holds_sig sig exp (u ∷ []))
holds_sig-append sig exp [] u = ground arith
holds_sig-append sig exp (v ∷ us) u = ground (arith, holds_sig-append sig exp us u)

spent_before_of_holds :
    (sig : String) (exp : ℕ) (us : List UsedChallenge)
    → holds_sig sig exp us ≡ true
    → spent_before sig us ≡ true
spent_before_of_holds sig exp [] h = h
spent_before_of_holds sig exp (u ∷ us) h = ground (arith, spent_before_of_holds sig exp us)

spend-holds_sig :
    (sig s : String) (exp e at : ℕ) (l : Ledger)
    → at ≤ exp
    → holds_sig sig exp l.used ≡ true
    → holds_sig sig exp (spend_challenge s e at l).0.used ≡ true
unfolding spend_challenge
spend-holds_sig sig s exp e at l le h = ground (
  arith,
  holds_sig-keep sig exp at l.used le h,
  holds_sig-append sig exp (keep (λ (u : UsedChallenge). not (ltb u.exp at)) l.used)
      (record { sig = s; exp = e }),
)

burn_all-holds_sig :
    (sig : String) (exp : ℕ) (bs : List Burn) (l : Ledger)
    → All (λ b. b.at ≤ exp) bs
    → holds_sig sig exp l.used ≡ true
    → holds_sig sig exp (burn_all bs l).used ≡ true
burn_all-holds_sig sig exp [] l le h = h
burn_all-holds_sig sig exp (b ∷ bs) l (le, les) h =
    burn_all-holds_sig sig exp bs (spend_challenge b.sig b.exp b.at l).0 les
      (spend-holds_sig sig b.sig exp b.exp b.at l le h)

won-holds_sig :
    (sig : String) (exp now : ℕ) (l : Ledger)
    → (spend_challenge sig exp now l).1 ≡ true
    → holds_sig sig exp (spend_challenge sig exp now l).0.used ≡ true
unfolding spend_challenge
won-holds_sig sig exp now l won = ground (
  arith,
  eq_refl sig,
  holds_sig-append sig exp (keep (λ (u : UsedChallenge). not (ltb u.exp now)) l.used)
      (record { sig = sig; exp = exp }),
)

lost_of_holds :
    (sig : String) (exp e at : ℕ) (l : Ledger)
    → at ≤ exp
    → holds_sig sig exp l.used ≡ true
    → ((spend_challenge sig e at l).1 ≡ false) × (challenge_already_spent sig l ≡ true)
unfolding spend_challenge challenge_already_spent
lost_of_holds sig exp e at l le h = ground (
  arith,
  spent_before_of_holds sig exp l.used h,
  spent_before_of_holds sig exp (keep (λ (u : UsedChallenge). not (ltb u.exp at)) l.used)
      (holds_sig-keep sig exp at l.used le h),
)

-- Once a caller has burnt a challenge, and whatever is burnt after it, every further attempt made
-- before the challenge expires is told that it was spent, by the lookup and by the insert.
pub spend_once :
    (sig : String) (exp now later : ℕ) (bs : List Burn) (l : Ledger)
    → (spend_challenge sig exp now l).1 ≡ true
    → All (λ b. b.at ≤ exp) bs
    → later ≤ exp
    → ((spend_challenge sig exp later (burn_all bs (spend_challenge sig exp now l).0)).1 ≡ false)
      × (challenge_already_spent sig (burn_all bs (spend_challenge sig exp now l).0) ≡ true)
spend_once sig exp now later bs l won les le =
    lost_of_holds sig exp exp later (burn_all bs (spend_challenge sig exp now l).0) le (
      burn_all-holds_sig sig exp bs (spend_challenge sig exp now l).0 les
        (won-holds_sig sig exp now l won))
