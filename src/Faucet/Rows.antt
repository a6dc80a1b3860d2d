-- ===== src/Faucet/Rows.antt =====
-- src/app/api/faucet/route.ts: whatever ends a send, it changes the claim's own row alone.
use zcash_faucet.Base.{
  ℕ, ◌+◌, Bool, String, Option, List, [], ◌∷◌, ◌++◌, ◌≡◌, ap, ◌∙◌, arith, inl, inr, Bool-cases,
}
use zcash_faucet.Network.{Network}
use zcash_faucet.Ledger.{Ledger, Claim, set_status}
use zcash_faucet.Ledger.Calls.{Ending, status_of, or_null, lacks_txid, finalize_claim}
use zcash_faucet.Ledger.Release.{IsFresh, set_status-snoc}
use zcash_faucet.Faucet.{
  Config, World, Site, SendReply, broadcast, outcome_unknown, past_deadline, queue_full,
  recipient_refused, send_failed,
}
use zcash_faucet.Faucet.Payout.{settle, conclude}

-- The ledger of the given rows, and one more with the given id.
abbrev pub EndsIn : List Claim → ℕ → ℕ → Ledger → Type 0
EndsIn cs id next l =
    (row : Claim) × (row.id ≡ id) × (l.claims ≡ cs ++ row ∷ []) × (l.next_id ≡ next)

settle-EndsIn :
    (w : World) (n : Network) (id next : ℕ) (e : Ending) (txid : Option String) (no_txid : Bool)
    (cs : List Claim) (l : Ledger)
    → IsFresh id cs
    → EndsIn cs id next l
    → EndsIn cs id next (settle w n id e txid no_txid l)
unfolding finalize_claim
settle-EndsIn w n id next e txid no_txid cs l fresh (row, is, rows, same) =
    elim (Bool-cases (lacks_txid e txid no_txid)) [
      | inl lacks ↦ rw lacks (row, is, rows, same)
      | inr has ↦ rw has (
        record row { status = status_of e; txid = or_null txid },
        is,
        ap (set_status id (status_of e) (or_null txid)) rows
            ∙ set_status-snoc id (status_of e) (or_null txid) cs row fresh is,
        same,
      )
    ]

pub conclude-EndsIn :
    (cfg : Config) (w : World) (n : Network) (id next : ℕ) (reply : SendReply) (cs : List Claim)
    (s : Site)
    → IsFresh id cs
    → EndsIn cs id next s.ledger
    → EndsIn cs id next (conclude cfg w n id reply s).0.ledger
unfolding conclude
conclude-EndsIn cfg w n id next (broadcast txid) cs s fresh e =
    settle-EndsIn w n id next _ _ _ cs s.ledger fresh e
conclude-EndsIn cfg w n id next (outcome_unknown opid) cs s fresh e =
    settle-EndsIn w n id next _ _ _ cs s.ledger fresh e
conclude-EndsIn cfg w n id next past_deadline cs s fresh e =
    settle-EndsIn w n id next _ _ _ cs s.ledger fresh e
conclude-EndsIn cfg w n id next queue_full cs s fresh e =
    settle-EndsIn w n id next _ _ _ cs s.ledger fresh e
conclude-EndsIn cfg w n id next recipient_refused cs s fresh e =
    settle-EndsIn w n id next _ _ _ cs s.ledger fresh e
conclude-EndsIn cfg w n id next send_failed cs s fresh e =
    settle-EndsIn w n id next _ _ _ cs s.ledger fresh e

pub IsFresh-snoc :
    (id : ℕ) (cs : List Claim) (row : Claim)
    → IsFresh id cs
    → row.id ≡ id
    → IsFresh (id + 1) (cs ++ row ∷ [])
IsFresh-snoc id [] row h is = omega (arith, is)
IsFresh-snoc id (c ∷ cs) row (h, hs) is = (omega (arith, h), IsFresh-snoc id cs row hs is)
