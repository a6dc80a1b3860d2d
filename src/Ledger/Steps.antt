-- ===== src/Ledger/Steps.antt =====
-- The ledger over time, as a step relation: requests reserve claims, sends settle, proofs are
-- burnt and the clock advances, in any order. Every request reads the clock of its step.
use zcash_faucet.Base.{ℕ, ◌≤◌, ◌≡◌, Bool, String, Option, some, All, []}
use zcash_faucet.Network.{Network}
use zcash_faucet.Ledger.{Ledger}
use zcash_faucet.Ledger.Calls.{Ending, reserve_claim, finalize_claim, spend_challenge}
use zcash_faucet.Ledger.Limits.{Policy, Visit, claim_opts}
use zcash_faucet.Ledger.Totals.{IsOpen}

pub record State : Type 0 where
  pub ledger : Ledger
  pub clock : ℕ

abbrev pub empty_ledger : Ledger
empty_ledger = record { claims = []; next_id = 1; used = []; drip_days = [] }

module _ (fingerprint_address : String → String) (p : Policy) where
  pub data Step (s : State) (s' : State) : Type 0 where
    reserves :
        (v : Visit)
        → s' ≡ record {
          ledger = (reserve_claim fingerprint_address p.lease (claim_opts p v s.clock) s.ledger).0;
          clock = s.clock;
        }
        → Step s s'
    -- A send settles while the lease of its claim runs: the lease outlasts a full send queue.
    settles :
        (id : ℕ) (e : Ending) (txid : Option String) (no_txid : Bool) (day : String) (n : Network)
        → All (IsOpen p.lease s.clock id) s.ledger.claims
        → finalize_claim id e txid no_txid day n s.ledger ≡ some s'.ledger
        → s'.clock ≡ s.clock
        → Step s s'
    burns :
        (sig : String) (exp : ℕ)
        → s' ≡ record { ledger = (spend_challenge sig exp s.clock s.ledger).0; clock = s.clock }
        → Step s s'
    waits : s.clock ≤ s'.clock → s'.ledger ≡ s.ledger → Step s s'

  -- Reached from the empty ledger.
  pub data Reach : State → Type 0 where
    starts : (now : ℕ) → Reach (record { ledger = empty_ledger; clock = now })
    next : {s t : State} → Reach s → Step s t → Reach t
