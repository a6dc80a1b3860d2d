-- ===== src/Faucet/Outcome.antt =====
-- src/app/api/faucet/route.ts: how the claim is left by each end of the send.
use zcash_faucet.Base.{
  ℕ, Bool, true, ◌||◌, String, eq_iff, Option, none, some, ◌≡◌, refl, ap, arith,
}
use Prim.Native.String.{◌++◌ as str_append, len}
use text.Mathlib.TextPositions.{len-append}
use zcash_faucet.Network.{Network}
use zcash_faucet.Ledger.{sent, set_status}
use zcash_faucet.Ledger.Calls.{truthy, or_null, finalize_claim}
use zcash_faucet.Faucet.{
  Config, World, Site, SendReply, broadcast, outcome_unknown, past_deadline, queue_full,
  recipient_refused, send_failed,
}
use zcash_faucet.Faucet.Payout.{has_no_txid, conclude}
use zcash_faucet.Faucet.Cleared.{may_have_moved}

-- What the handler records of a send that it does not take back.
abbrev pub recorded : SendReply → Option String
recorded (broadcast txid) = txid
recorded (outcome_unknown opid) = some (str_append "unknown:" opid)
recorded past_deadline = some "unknown:deadline"
recorded _ = none

-- The sender names a transaction on the network that has transaction ids.
abbrev pub names_txid : Network → SendReply → Bool
names_txid n (broadcast txid) = truthy txid || has_no_txid n
names_txid n _ = true

marker-truthy : (opid : String) → truthy (some (str_append "unknown:" opid)) ≡ true
marker-truthy opid = ground (
  arith,
  eq_iff (str_append "unknown:" opid) "",
  len-append "unknown:" opid,
  λ (e : str_append "unknown:" opid ≡ ""). ap len e,
)

pub conclude-set_status :
    (cfg : Config) (w : World) (n : Network) (id : ℕ) (reply : SendReply) (s : Site)
    → names_txid n reply ≡ true
    → may_have_moved (conclude cfg w n id reply s).1 ≡ true
    → (conclude cfg w n id reply s).0.ledger.claims
      ≡ set_status id sent (or_null (recorded reply)) s.ledger.claims
unfolding conclude finalize_claim
conclude-set_status cfg w n id (broadcast txid) s named m = ground arith
conclude-set_status cfg w n id (outcome_unknown opid) s named m = ground (arith, marker-truthy opid)
conclude-set_status cfg w n id past_deadline s named m = refl
conclude-set_status cfg w n id queue_full s named m = ground arith
conclude-set_status cfg w n id recipient_refused s named m = ground arith
conclude-set_status cfg w n id send_failed s named m = ground arith
