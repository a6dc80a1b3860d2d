-- ===== src/Faucet/Released.antt =====
-- src/app/api/faucet/route.ts: what the ends of a send that moved nothing leave behind.
use zcash_faucet.Base.{
  ℕ, ◌≤◌, Bool, true, false, Option, none, some, List, ◌∷◌, [], ◌++◌, ◌≡◌, refl, ap, ◌∙◌, arith,
  ◌⊎◌, inl, inr, Bool-cases,
}
use zcash_faucet.Network.{Network}
use zcash_faucet.Ledger.{Ledger, ReserveParams, reserve, admits}
use zcash_faucet.Ledger.Calls.{finalize_claim, as_failed}
use zcash_faucet.Ledger.Release.{IsFresh, reserve-finalize_failed}
use zcash_faucet.SendHealth.{window_for, read_send_health, is_live, SendHealthState, SendRecord}
use zcash_faucet.SendHealth as SendHealth
use zcash_faucet.SendHealth.Verdict.{
  read_send_health-append_held_back, read_send_health-append_other,
}
use zcash_faucet.SendHealth.Log.{read_send_health-record_send}
use zcash_faucet.Faucet.{
  Config, World, Site, SendReply, broadcast, outcome_unknown, past_deadline, queue_full,
  recipient_refused, send_failed,
}
use zcash_faucet.Faucet.Payout.{conclude}

-- The ends after which the wallet is known to have sent nothing.
abbrev pub sent_nothing : SendReply → Bool
sent_nothing queue_full = true
sent_nothing recipient_refused = true
sent_nothing send_failed = true
sent_nothing _ = false

abbrev settled_failed : World → Network → ℕ → Ledger → Option Ledger
settled_failed w n id l = finalize_claim id as_failed none false w.settled_day n l

conclude-settled_failed :
    (cfg : Config) (w : World) (n : Network) (id : ℕ) (reply : SendReply) (s : Site)
    → sent_nothing reply ≡ true
    → settled_failed w n id s.ledger ≡ some (conclude cfg w n id reply s).0.ledger
unfolding conclude finalize_claim
conclude-settled_failed cfg w n id reply s nothing = ground arith

-- When a reserved claim's send ends with the queue full, the recipient refused or the send failed,
-- every claim, from anybody and at any time, is admitted or refused as if it had not been made.
pub conclude-released :
    (cfg : Config) (w : World) (reply : SendReply) (o next : ReserveParams) (id : ℕ) (s s' : Site)
    → sent_nothing reply ≡ true
    → IsFresh s.ledger.next_id s.ledger.claims
    → reserve o s.ledger ≡ (s'.ledger, some id)
    → admits next (conclude cfg w o.network id reply s').0.ledger.claims
      ≡ admits next s.ledger.claims
conclude-released cfg w reply o next id s s' nothing fresh r =
    reserve-finalize_failed o next s.ledger s'.ledger
      (conclude cfg w o.network id reply s').0.ledger id w.settled_day fresh r
      (conclude-settled_failed cfg w o.network id reply s' nothing)

append-state :
    (window now : ℕ) (m : Network) (log : List SendRecord) (r : SendRecord)
    → r.outcome ≡ SendHealth.refused
    → (read_send_health window now (log ++ r ∷ []) m).state
      ≡ (read_send_health window now log m).state
append-state window now m log r is = elim (Bool-cases (is_live window now m r)) [
  | inl live ↦ read_send_health-append_held_back window now m log r live (inl is)
  | inr dead ↦ ap (λ h. h.state) (read_send_health-append_other window now m log r dead)
]

-- A claim that ends with a full queue, or with the refusal of its recipient that the sender knows
-- for one, leaves the state of every network's verdict as it was, from the claim's end on.
pub conclude-blameless :
    (cfg : Config) (w : World) (n m : Network) (id later : ℕ) (reply : SendReply) (s : Site)
    → (reply ≡ queue_full) ⊎ (reply ≡ recipient_refused)
    → w.settled_ms ≤ later
    → (read_send_health
        (window_for cfg.send_task_deadline_ms)
        later
        (conclude cfg w n id reply s).0.send_log
        m).state
      ≡ (read_send_health (window_for cfg.send_task_deadline_ms) later s.send_log m).state
unfolding conclude
conclude-blameless cfg w n m id later queue_full s either le = refl
conclude-blameless cfg w n m id later recipient_refused s either le =
    ap (λ h. h.state)
      (read_send_health-record_send (window_for cfg.send_task_deadline_ms) w.settled_ms later
        SendHealth.refused n m false s.send_log le)
    ∙ append-state (window_for cfg.send_task_deadline_ms) later m s.send_log _ refl
conclude-blameless cfg w n m id later (broadcast txid) s either le = ground arith
conclude-blameless cfg w n m id later (outcome_unknown opid) s either le = ground arith
conclude-blameless cfg w n m id later past_deadline s either le = ground arith
conclude-blameless cfg w n m id later send_failed s either le = ground arith
