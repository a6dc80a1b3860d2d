-- ===== src/Ledger/Drips.antt =====
-- The drip counter counts each claim that is settled as sent, and refuses one without a txid.
use zcash_faucet.Base.{
  ℕ, ◌+◌, ◌≡◌, ◌↔◌, ◌⊎◌, eq_iff, Bool, true, false, ◌&&◌, String, str_eq, Option, none, some, List,
  [], ◌∷◌, arith, total, if◌then◌else◌, one_if,
}
use zcash_faucet.Network.{Network, same_network}
use zcash_faucet.Ledger.Safety.{same_network-eq}
use zcash_faucet.Ledger.{DripDay, Ledger}
use zcash_faucet.Ledger.Calls.{Ending, as_sent, as_failed, bump, finalize_claim}

-- `SUM(sent)` over the days of a network: `allTime` of DRIP_TOTALS_SQL.
pub all_time : Network → List DripDay → ℕ
all_time n = total (λ d. if same_network d.network n then d.sent else 0)

-- The count of one day on a network.
pub sent_on : Network → String → List DripDay → ℕ
sent_on n day = total (λ d. if same_network d.network n && str_eq d.day day then d.sent else 0)

all_time-bump :
    (n m : Network) (day : String) (ds : List DripDay)
    → all_time m (bump n day ds) ≡ all_time m ds + one_if (same_network n m)
unfolding all_time bump total
all_time-bump n m day [] = ground arith
all_time-bump n m day (d ∷ ds) =
    ground (arith, same_network-eq d.network n, all_time-bump n m day ds)

sent_on-bump :
    (n m : Network) (day on : String) (ds : List DripDay)
    → sent_on m on (bump n day ds) ≡ sent_on m on ds + one_if (same_network n m && str_eq day on)
unfolding sent_on bump total
sent_on-bump n m day on [] = ground arith
sent_on-bump n m day on (d ∷ ds) =
    ground (arith, same_network-eq d.network n, eq_iff d.day day, sent_on-bump n m day on ds)

abbrev pub is_sent : Ending → Bool
is_sent as_sent = true
is_sent as_failed = false

-- A claim that is settled as sent adds one to its day on its network, and one to the network's
-- total; nothing else of the counter changes, and a failed claim changes nothing of it.
pub finalize_claim-counts :
    (id : ℕ) (e : Ending) (txid : Option String) (no_txid : Bool) (day on : String) (n m : Network)
    (l l' : Ledger)
    → finalize_claim id e txid no_txid day n l ≡ some l'
    → (sent_on m on l'.drip_days
        ≡ sent_on m on l.drip_days + one_if (is_sent e && (same_network n m && str_eq day on)))
      × (all_time m l'.drip_days ≡ all_time m l.drip_days + one_if (is_sent e && same_network n m))
unfolding finalize_claim
finalize_claim-counts id e txid no_txid day on n m l l' f =
    ground (arith, sent_on-bump n m day on l.drip_days, all_time-bump n m day l.drip_days)

-- `finalize_claim` throws exactly when a sent claim carries neither a txid that is not empty nor
-- a reason for its absence.
pub finalize_claim-throws_iff :
    (id : ℕ) (e : Ending) (txid : Option String) (no_txid : Bool) (day : String) (n : Network)
    (l : Ledger)
    → (finalize_claim id e txid no_txid day n l ≡ none)
      ↔ ((e ≡ as_sent) × ((txid ≡ none) ⊎ (txid ≡ some "")) × (no_txid ≡ false))
unfolding finalize_claim
finalize_claim-throws_iff id as_sent none no_txid day n l = ground arith
finalize_claim-throws_iff id as_sent (some t) no_txid day n l = ground (arith, eq_iff t "")
finalize_claim-throws_iff id as_failed txid no_txid day n l = ground arith
