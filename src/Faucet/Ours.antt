-- ===== src/Faucet/Ours.antt =====
-- src/app/api/faucet/route.ts: a refusal in front of the reservation costs the visitor an attempt at
-- most, which raises the difficulty of the next challenge.
use zcash_faucet.Base.{
  ℕ, Bool, true, false, String, Option, none, some, ◌≡◌, refl, sym, ap, ◌∙◌, Bool-cases, arith, ◌⊎◌,
  inl, inr,
}
use zcash_faucet.Network.{Network}
use zcash_faucet.Ledger.{Ledger}
use zcash_faucet.Ledger.Calls.{ReserveResult, reserved, refused, reserve_claim}
use zcash_faucet.Faucet.{
  Config, World, Body, Site, SendReply, broadcast, outcome_unknown, past_deadline, queue_full,
  recipient_refused, send_failed, Gate, bad_body, bad_address, bad_network, ctaz_disabled,
  draining_gate, send_health, pow_required, pow_failed, empty, freshness, wallet_lag,
  ctaz_readiness, ApiError, Response, api_error, paid,
}
use zcash_faucet.Pow.Gate.{Solution, Attempts, record_request}
use zcash_faucet.Pow.Verified.{verify_solution-attempts}
use zcash_faucet.Faucet.Guards.{
  read_request, guards, checked, client_of, drain_guard, sends_guard, sends_fail, proof_attempts,
  attempts_after,
}
use zcash_faucet.Faucet.Payout.{
  claim_of, conclude, refusal_error, after_reservation, reserve_and_send, spend_for, after_spend,
  after_guards, after_request, post,
}

-- The gates of steps 1 to 3.6, the replay lookup aside: it shares its gate with the insert.
abbrev pub is_early : Gate → Bool
is_early bad_body = true
is_early bad_address = true
is_early bad_network = true
is_early ctaz_disabled = true
is_early draining_gate = true
is_early send_health = true
is_early pow_required = true
is_early pow_failed = true
is_early empty = true
is_early freshness = true
is_early wallet_lag = true
is_early ctaz_readiness = true
is_early _ = false

abbrev pub refused_early : Response → Bool
refused_early (api_error e) = is_early e.gate
refused_early (paid txid n) = false

conclude-late :
    (cfg : Config) (w : World) (n : Network) (id : ℕ) (reply : SendReply) (s : Site)
    → refused_early (conclude cfg w n id reply s).1 ≡ false
unfolding conclude
conclude-late cfg w n id (broadcast txid) s = refl
conclude-late cfg w n id (outcome_unknown opid) s = refl
conclude-late cfg w n id past_deadline s = refl
conclude-late cfg w n id queue_full s = refl
conclude-late cfg w n id recipient_refused s = refl
conclude-late cfg w n id send_failed s = refl

after_reservation-late :
    (cfg : Config) (w : World) (n : Network) (s : Site) (r : Ledger × ReserveResult)
    → refused_early (after_reservation cfg w n s r).1 ≡ false
unfolding refusal_error
after_reservation-late cfg w n s (l, refused r) = ground arith
after_reservation-late cfg w n s (l, reserved id) =
    conclude-late cfg w n id w.reply (record s { ledger = l })

after_spend-late :
    (fingerprint_address : String → String) (cfg : Config) (w : World) (b : Body) (n : Network)
    (s : Site) (r : Ledger × Bool)
    → refused_early (after_spend fingerprint_address cfg w b n s r).1 ≡ false
unfolding reserve_and_send
after_spend-late fingerprint_address cfg w b n s (l, true) =
    after_reservation-late cfg w n (record s { ledger = l })
      (reserve_claim fingerprint_address cfg.pending_lease (claim_of cfg w b n) l)
after_spend-late fingerprint_address cfg w b n s (l, false) = refl

abbrev pub is_behind : Gate → Bool
is_behind pow_failed = true
is_behind empty = true
is_behind freshness = true
is_behind wallet_lag = true
is_behind ctaz_readiness = true
is_behind _ = false

-- The gates that are asked after the proof is verified, with that of the proof itself.
abbrev pub refused_behind : Response → Bool
refused_behind (api_error e) = is_behind e.gate
refused_behind (paid txid n) = false

-- The attempts with one more of this client's.
abbrev pub counted : Config → World → Site → Site
counted cfg w s = record s {
  attempts = record_request cfg.pow (client_of w) w.subnet_hash w.verified_ms s.attempts;
}

abbrev pub solution_in : Option Body → Option Solution
solution_in none = none
solution_in (some b) = b.pow

-- What a claim leaves: all as it was; or, refused by the proof's gate or one behind it,
-- one attempt counted, of a solution that is signed for this client.
abbrev pub CostsAnAttempt : Config → World → Option Solution → Site → Site × Response → Type 0
CostsAnAttempt cfg w given s r =
    (r.0 ≡ s)
    ⊎ ((refused_behind r.1 ≡ true)
        × ((p : Solution) × (given ≡ some p) × (p.signature_ok ≡ true))
        × (r.0 ≡ counted cfg w s))

abbrev Tried : Config → World → Body → Network → Site → Type 0
Tried cfg w b n s =
    (checked cfg w b n s ≡ s)
    ⊎ ((drain_guard w ≡ none)
        × (sends_guard cfg w n s ≡ none)
        × ((p : Solution) × (b.pow ≡ some p) × (p.signature_ok ≡ true))
        × (checked cfg w b n s ≡ counted cfg w s))

-- What step 2 makes of the attempts when it is reached.
proof_attempts-cases :
    (cfg : Config) (w : World) (s : Site) (o : Option Solution)
    → (proof_attempts cfg w s o ≡ s.attempts)
      ⊎ (((p : Solution) × (o ≡ some p) × (p.signature_ok ≡ true))
          × (proof_attempts cfg w s o ≡ (counted cfg w s).attempts))
proof_attempts-cases cfg w s none = inl refl
proof_attempts-cases cfg w s (some p) =
    elim (verify_solution-attempts cfg.pow p (client_of w) w.subnet_hash w.verified_ms s.attempts
      s.ledger) [ inl same ↦ inl same | inr (signed, grown) ↦ inr ((p, refl, signed), grown) ]

attempts_kept :
    (cfg : Config) (w : World) (b : Body) (n : Network) (s : Site)
    → (w.draining ≡ true) ⊎ ((sends_fail cfg w n s ≡ true) ⊎ (cfg.challenge_is_pow ≡ false))
    → attempts_after cfg w b n s ≡ s.attempts
unfolding attempts_after
attempts_kept cfg w b n s early = ground (arith, early)

attempts_tried :
    (cfg : Config) (w : World) (b : Body) (n : Network) (s : Site)
    → w.draining ≡ false
    → sends_fail cfg w n s ≡ false
    → cfg.challenge_is_pow ≡ true
    → attempts_after cfg w b n s ≡ proof_attempts cfg w s b.pow
unfolding attempts_after
attempts_tried cfg w b n s calm sound asked = ground (arith, calm, sound, asked)

abbrev with_attempts : Site → Attempts → Site
with_attempts s a = record s { attempts = a }

checked-Tried : (cfg : Config) (w : World) (b : Body) (n : Network) (s : Site) → Tried cfg w b n s
checked-Tried cfg w b n s = elim (Bool-cases w.draining) [
  | inl drains ↦ inl (ap (with_attempts s) (attempts_kept cfg w b n s (inl drains)))
  | inr calm ↦ elim (Bool-cases (sends_fail cfg w n s)) [
    | inl fails ↦ inl (ap (with_attempts s) (attempts_kept cfg w b n s (inr (inl fails))))
    | inr sound ↦ elim (Bool-cases cfg.challenge_is_pow) [
      | inr free ↦ inl (ap (with_attempts s) (attempts_kept cfg w b n s (inr (inr free))))
      | inl asked ↦
          let here = attempts_tried cfg w b n s calm sound asked in
          elim (proof_attempts-cases cfg w s b.pow) [
            | inl same ↦ inl (ap (with_attempts s) (here ∙ same))
            | inr (signed, grown) ↦ inr (
              ground (arith, calm),
              ground (arith, sound),
              signed,
              ap (with_attempts s) (here ∙ grown),
            )
          ]
    ]
  ]
]

guards-behind :
    (cfg : Config) (w : World) (b : Body) (n : Network) (s : Site) (p : Solution) (e : ApiError)
    → drain_guard w ≡ none
    → sends_guard cfg w n s ≡ none
    → b.pow ≡ some p
    → guards cfg w b n s ≡ some e
    → is_early e.gate ≡ true
    → is_behind e.gate ≡ true
unfolding guards
guards-behind cfg w b n s p e calm sound given g early =
    ground (arith, calm, sound, given, g, early)

after_guards-early :
    (fingerprint_address : String → String) (cfg : Config) (w : World) (b : Body) (n : Network)
    (s s' : Site) (o : Option ApiError)
    → guards cfg w b n s ≡ o
    → refused_early (after_guards fingerprint_address cfg w b n s' o).1 ≡ true
    → checked cfg w b n s ≡ s'
    → Tried cfg w b n s
    → CostsAnAttempt cfg w b.pow s (after_guards fingerprint_address cfg w b n s' o)
after_guards-early fingerprint_address cfg w b n s s' none g early same tried = absurd (
    cc (
      sym (after_spend-late fingerprint_address cfg w b n s' (spend_for cfg w b.pow s'.ledger))
      ∙ early))
after_guards-early fingerprint_address cfg w b n s s' (some e) g early same (inl kept) =
    inl (sym same ∙ kept)
after_guards-early fingerprint_address cfg w b n s s' (some e) g early same
      (inr (calm, sound, (p, given, signed), grown)) =
    inr
      (guards-behind cfg w b n s p e calm sound given g early, (p, given, signed), sym same ∙ grown)

after_request-early :
    (fingerprint_address : String → String) (cfg : Config) (w : World) (b : Body) (s : Site)
    (r : ApiError ⊎ Network)
    → refused_early (after_request fingerprint_address cfg w b s r).1 ≡ true
    → CostsAnAttempt cfg w b.pow s (after_request fingerprint_address cfg w b s r)
after_request-early fingerprint_address cfg w b s (inl e) early = inl refl
after_request-early fingerprint_address cfg w b s (inr n) early =
    after_guards-early fingerprint_address cfg w b n s (checked cfg w b n s) (guards cfg w b n s)
      refl early refl (checked-Tried cfg w b n s)

-- A claim that is refused for its request, for the state of the faucet, its wallet or its nodes, or
-- for want of a valid proof of work leaves no claim row, no counted drip, no burnt challenge and no
-- record of a send. Everything is as it was, but that a refusal by the proof's gate or one behind
-- it may have counted one attempt, of a solution that is signed for this client.
pub post-refused_early :
    (fingerprint_address : String → String) (cfg : Config) (w : World) (request : Option Body)
    (s : Site)
    → refused_early (post fingerprint_address cfg w request s).1 ≡ true
    → CostsAnAttempt cfg w (solution_in request) s (post fingerprint_address cfg w request s)
unfolding post
post-refused_early fingerprint_address cfg w none s early = inl refl
post-refused_early fingerprint_address cfg w (some b) s early =
    after_request-early fingerprint_address cfg w b s (read_request cfg w b) early
