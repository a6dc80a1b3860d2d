-- ===== src/Pow/Verified.antt =====
-- src/lib/pow.ts: what a verdict says, and what an unsigned solution cannot do.
use zcash_faucet.Base.{
  ℕ, ◌+◌, ◌/◌, ◌≤◌, ◌≡◌, ◌↔◌, ◌⊎◌, Bool, true, false, String, Option, some, arith,
}
use zcash_faucet.Ledger.{Ledger}
use zcash_faucet.Ledger.Calls.{truthy, spend_challenge}
use zcash_faucet.Pow.Gate.{
  PowConfig, Attempts, Solution, Verdict, verified, too_easy, already_used, record_request,
  verify_solution,
}

module _ (c : PowConfig) (s : Solution) (ip_hash : String) (subnet_hash : Option String)
    (now_ms : ℕ) (a : Attempts) (l : Ledger) where
  -- A solution is verified and burnt exactly when it has a seed, has not expired, claims a
  -- difficulty that could have been issued, carries our signature for this client, does the work,
  -- and its challenge was not burnt before.
  pub verify_solution-verified_iff :
      ((verify_solution c s ip_hash subnet_hash true now_ms a l).verdict ≡ verified) ↔ (
        (truthy (some s.seed) ≡ true)
        × (now_ms / 1_000 ≤ s.exp)
        × (c.base_bits ≤ s.difficulty + 1)
        × (s.difficulty ≤ c.max_bits)
        × (s.signature_ok ≡ true)
        × (s.difficulty ≤ s.zero_bits)
        × ((spend_challenge s.sig s.exp (now_ms / 1_000) l).1 ≡ true))
  unfolding verify_solution
  verify_solution-verified_iff = ground arith

  -- A solution without our signature changes nothing: it escalates nobody's difficulty and burns
  -- no challenge.
  pub verify_solution-unsigned :
      (spend : Bool)
      → s.signature_ok ≡ false
      → ((verify_solution c s ip_hash subnet_hash spend now_ms a l).attempts ≡ a)
        × ((verify_solution c s ip_hash subnet_hash spend now_ms a l).ledger ≡ l)
  unfolding verify_solution
  verify_solution-unsigned spend bad = ground arith

  -- Without the burn the attempts are as they were, or one of this client's is counted, of a
  -- solution that is signed for it.
  pub verify_solution-attempts :
      let first = verify_solution c s ip_hash subnet_hash false now_ms a l in
      (first.attempts ≡ a)
      ⊎ ((s.signature_ok ≡ true) × (first.attempts ≡ record_request c ip_hash subnet_hash now_ms a))
  unfolding verify_solution
  verify_solution-attempts = ground arith

  -- The attempts after a verdict: one more of this client when the solution was signed for it, and
  -- none when it was turned away before its signature was believed.
  abbrev pub counted : Verdict → Attempts
  counted verified = record_request c ip_hash subnet_hash now_ms a
  counted too_easy = record_request c ip_hash subnet_hash now_ms a
  counted already_used = record_request c ip_hash subnet_hash now_ms a
  counted _ = a

  -- The verdict once a verified solution is burnt.
  abbrev pub after_burn : Verdict → Ledger × Bool → Verdict × Ledger
  after_burn verified (burnt, true) = (verified, burnt)
  after_burn verified (burnt, false) = (already_used, burnt)
  after_burn v burnt = (v, l)
