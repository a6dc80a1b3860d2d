-- ===== src/Faucet/Once.antt =====
-- src/app/api/faucet/route.ts: a claim that may have been paid blocks its address, and a blocked
-- address is not paid.
use zcash_faucet.Base.{
  ℕ, ◌+◌, ◌<◌, Bool, true, false, ◌||◌, String, eq_refl, Option, none, some, List, [], ◌∷◌, ◌++◌,
  ◌≡◌, refl, sym, ap, subst, subst₂, ◌∙◌, arith, inr, any,
}
use zcash_faucet.Network.{Network}
use zcash_faucet.Ledger.{
  Ledger, Claim, sent, ReserveParams, address_row, admits, purge, new_claim, set_status,
}
use zcash_faucet.Ledger.Calls.{or_null, reserve_params, spend_challenge}
use zcash_faucet.Ledger.Diagnosis.{reserve_claim_grants, reserve_claim_refuses}
use zcash_faucet.Ledger.Release.{IsFresh, IsFresh-purge, set_status-snoc, any-snoc}
use zcash_faucet.Ledger.Retention.{blocked-not_admitted}
use zcash_faucet.Faucet.{Config, World, Body, Site, ApiError, Response}
use zcash_faucet.Faucet.Guards.{read_request, checked, guards}
use zcash_faucet.Pow.Gate.{Solution}
use zcash_faucet.Faucet.Payout.{
  claim_of, conclude, refusal_error, after_reservation, reserve_and_send, spend_for, after_spend,
  after_guards, after_request, post,
}
use zcash_faucet.Faucet.Outcome.{recorded, names_txid, conclude-set_status}
use zcash_faucet.Faucet.Cleared.{may_have_moved, guards-none}

-- Somebody at this address, on this network, is blocked at time `t`.
abbrev pub IsBlocked : Config → String → Network → ℕ → Ledger → Type 0
IsBlocked cfg address_hash n t l =
    any (address_row address_hash n cfg.cooldown_seconds cfg.pending_lease t) l.claims ≡ true

pub spend_for-claims :
    (cfg : Config) (w : World) (p : Option Solution) (l : Ledger)
    → ((spend_for cfg w p l).0.claims ≡ l.claims) × ((spend_for cfg w p l).0.next_id ≡ l.next_id)
unfolding spend_challenge
spend_for-claims cfg w none l = ground arith
spend_for-claims cfg w (some p) l = ground arith

module _ (fingerprint_address : String → String) (cfg : Config) (w : World) (b : Body)
    (n : Network) where
  abbrev asked : ReserveParams
  asked = reserve_params fingerprint_address cfg.pending_lease (claim_of cfg w b n)

  abbrev row_at : ℕ → Claim → Bool
  row_at = address_row (fingerprint_address b.address) n cfg.cooldown_seconds cfg.pending_lease

  abbrev settled : ℕ → Claim
  settled id = record (new_claim asked id) { status = sent; txid = or_null (recorded w.reply) }

  settled-row_at :
      (x : Bool) (id t : ℕ) → t < w.now + cfg.cooldown_seconds → (x || row_at t (settled id)) ≡ true
  settled-row_at x id t soon = ground (arith, eq_refl (fingerprint_address b.address))

  -- A granted claim whose send is not taken back blocks its address until the cooldown ends.
  conclude-IsBlocked :
      (s : Site) (cs : List Claim) (id t : ℕ)
      → IsFresh id cs
      → s.ledger.claims ≡ cs ++ new_claim asked id ∷ []
      → names_txid n w.reply ≡ true
      → may_have_moved (conclude cfg w n id w.reply s).1 ≡ true
      → t < w.now + cfg.cooldown_seconds
      → IsBlocked cfg (fingerprint_address b.address) n t (conclude cfg w n id w.reply s).0.ledger
  conclude-IsBlocked s cs id t fresh is named m soon =
      ap (any (row_at t)) (conclude-set_status cfg w n id w.reply s named m)
      ∙ ap (λ ds. any (row_at t) (set_status id sent (or_null (recorded w.reply)) ds)) is
      ∙ ap (any (row_at t))
          (set_status-snoc id sent (or_null (recorded w.reply)) cs (new_claim asked id) fresh refl)
      ∙ any-snoc (row_at t) cs (settled id)
      ∙ settled-row_at (any (row_at t) cs) id t soon

  -- An answer after which coins may be on their way leaves the address blocked.
  abbrev Leaves : ℕ → Site × Response → Type 0
  Leaves t r =
      may_have_moved r.1 ≡ true → IsBlocked cfg (fingerprint_address b.address) n t r.0.ledger

  Leaves-reservation :
      (s : Site) (t : ℕ) (r : Bool)
      → IsFresh s.ledger.next_id s.ledger.claims
      → admits asked (purge cfg.cooldown_seconds cfg.pending_lease w.now s.ledger.claims) ≡ r
      → names_txid n w.reply ≡ true
      → t < w.now + cfg.cooldown_seconds
      → Leaves t (reserve_and_send fingerprint_address cfg w b n s)
  unfolding reserve_and_send refusal_error
  Leaves-reservation s t true fresh free named soon =
      subst (λ r. Leaves t (after_reservation cfg w n s r))
        (sym (
          reserve_claim_grants fingerprint_address cfg.pending_lease (claim_of cfg w b n) s.ledger
            free))
        (λ m.
          conclude-IsBlocked _ (purge cfg.cooldown_seconds cfg.pending_lease w.now s.ledger.claims)
            s.ledger.next_id t
            (IsFresh-purge s.ledger.next_id cfg.cooldown_seconds cfg.pending_lease w.now
              s.ledger.claims fresh)
            refl named m soon)
  Leaves-reservation s t false fresh full named soon =
      subst (λ r. Leaves t (after_reservation cfg w n s r))
        (sym (
          reserve_claim_refuses fingerprint_address cfg.pending_lease (claim_of cfg w b n) s.ledger
            full))
        (λ m. ground arith)

  Leaves-spend :
      (s : Site) (t : ℕ) (r : Ledger × Bool)
      → r.0.claims ≡ s.ledger.claims
      → r.0.next_id ≡ s.ledger.next_id
      → IsFresh s.ledger.next_id s.ledger.claims
      → names_txid n w.reply ≡ true
      → t < w.now + cfg.cooldown_seconds
      → Leaves t (after_spend fingerprint_address cfg w b n s r)
  Leaves-spend s t (l, true) cs ids fresh named soon =
      Leaves-reservation (record s { ledger = l }) t _ (subst₂ IsFresh (sym ids) (sym cs) fresh)
        refl named soon
  Leaves-spend s t (l, false) cs ids fresh named soon = λ m. ground arith

  Leaves-guards :
      (s : Site) (t : ℕ) (o : Option ApiError)
      → guards cfg w b n s ≡ o
      → IsFresh s.ledger.next_id s.ledger.claims
      → names_txid n w.reply ≡ true
      → t < w.now + cfg.cooldown_seconds
      → Leaves t (after_guards fingerprint_address cfg w b n (checked cfg w b n s) o)
  Leaves-guards s t none g fresh named soon =
      Leaves-spend (checked cfg w b n s) t (spend_for cfg w b.pow s.ledger)
        (spend_for-claims cfg w b.pow s.ledger).0 (spend_for-claims cfg w b.pow s.ledger).1 fresh
        named soon
  Leaves-guards s t (some e) g fresh named soon = λ m.
      absurd
        (cc (sym (guards-none fingerprint_address cfg w b n s (checked cfg w b n s) (some e) g m)))

  pub post-Leaves :
      (s : Site) (t : ℕ)
      → read_request cfg w b ≡ inr n
      → IsFresh s.ledger.next_id s.ledger.claims
      → names_txid n w.reply ≡ true
      → t < w.now + cfg.cooldown_seconds
      → Leaves t (post fingerprint_address cfg w (some b) s)
  unfolding post
  post-Leaves s t r fresh named soon =
      subst (λ o. Leaves t (after_request fingerprint_address cfg w b s o)) (sym r)
        (Leaves-guards s t (guards cfg w b n s) refl fresh named soon)

  -- The reservation of a blocked address fails.
  abbrev pub Unmoved : Site × Response → Type 0
  Unmoved r = may_have_moved r.1 ≡ false

  Unmoved-reservation :
      (s : Site)
      → IsBlocked cfg (fingerprint_address b.address) n w.now s.ledger
      → Unmoved (reserve_and_send fingerprint_address cfg w b n s)
  unfolding reserve_and_send refusal_error
  Unmoved-reservation s blocked =
      subst (λ r. Unmoved (after_reservation cfg w n s r))
        (sym (
          reserve_claim_refuses fingerprint_address cfg.pending_lease (claim_of cfg w b n) s.ledger
            (blocked-not_admitted asked s.ledger.claims blocked)))
        (ground arith)

  Unmoved-spend :
      (s : Site) (r : Ledger × Bool)
      → r.0.claims ≡ s.ledger.claims
      → IsBlocked cfg (fingerprint_address b.address) n w.now s.ledger
      → Unmoved (after_spend fingerprint_address cfg w b n s r)
  Unmoved-spend s (l, true) cs blocked =
      Unmoved-reservation (record s { ledger = l }) (ap (any (row_at w.now)) cs ∙ blocked)
  Unmoved-spend s (l, false) cs blocked = refl

  Unmoved-guards :
      (s : Site) (o : Option ApiError)
      → guards cfg w b n s ≡ o
      → IsBlocked cfg (fingerprint_address b.address) n w.now s.ledger
      → Unmoved (after_guards fingerprint_address cfg w b n (checked cfg w b n s) o)
  Unmoved-guards s none g blocked =
      Unmoved-spend (checked cfg w b n s) (spend_for cfg w b.pow s.ledger)
        (spend_for-claims cfg w b.pow s.ledger).0 blocked
  Unmoved-guards s (some e) g blocked =
      ground (arith, guards-none fingerprint_address cfg w b n s (checked cfg w b n s) (some e) g)

  pub post-Unmoved :
      (s : Site)
      → read_request cfg w b ≡ inr n
      → IsBlocked cfg (fingerprint_address b.address) n w.now s.ledger
      → Unmoved (post fingerprint_address cfg w (some b) s)
  unfolding post
  post-Unmoved s r blocked =
      subst (λ o. Unmoved (after_request fingerprint_address cfg w b s o)) (sym r)
        (Unmoved-guards s (guards cfg w b n s) refl blocked)
