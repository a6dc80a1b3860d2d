-- ===== src/Faucet/Between.antt =====
-- src/app/api/faucet/route.ts: what other claims cannot undo. A claim leaves the rows of all others
-- as they are, so an address that is blocked stays so through whatever claims come in between.
use zcash_faucet.Base.{
  ℕ, ◌+◌, ◌≤◌, ◌<◌, Bool, true, false, ◌||◌, String, Option, none, some, List, [], ◌∷◌, ◌++◌, ◌≡◌,
  refl, sym, ap, subst, subst₂, ◌∙◌, ◌⊎◌, inl, inr, any, All,
}
use zcash_faucet.Network.{Network}
use zcash_faucet.Ledger.{Ledger, Claim, ReserveParams, address_row, admits, purge, new_claim}
use zcash_faucet.Ledger.Calls.{reserve_params}
use zcash_faucet.Ledger.Diagnosis.{reserve_claim_grants, reserve_claim_refuses}
use zcash_faucet.Ledger.Release.{IsFresh, IsFresh-purge, any-snoc}
use zcash_faucet.Ledger.Retention.{any-purge}
use zcash_faucet.Faucet.{Config, World, Body, Site, ApiError}
use zcash_faucet.Faucet.Guards.{read_request, checked, guards}
use zcash_faucet.Faucet.Payout.{
  claim_of, conclude, after_reservation, reserve_and_send, spend_for, after_spend, after_guards,
  after_request, post,
}
use zcash_faucet.Faucet.Outcome.{names_txid}
use zcash_faucet.Faucet.Cleared.{may_have_moved}
use zcash_faucet.Faucet.Rows.{EndsIn, conclude-EndsIn, IsFresh-snoc}
use zcash_faucet.Faucet.Once.{IsBlocked, spend_for-claims, post-Leaves, post-Unmoved}

module _ (fingerprint_address : String → String) (cfg : Config) (a : String) (m : Network)
    (t : ℕ) where
  -- From fresh ids: the ids stay fresh, and whom the rows block at `t` they still block.
  Keeps : Ledger → Ledger → Type 0
  Keeps l l' = IsFresh l'.next_id l'.claims × (IsBlocked cfg a m t l → IsBlocked cfg a m t l')

  module _ (w : World) (b : Body) (n : Network) (past : w.now ≤ t) where
    abbrev asked : ReserveParams
    asked = reserve_params fingerprint_address cfg.pending_lease (claim_of cfg w b n)

    abbrev kept : Ledger → List Claim
    kept l = purge cfg.cooldown_seconds cfg.pending_lease w.now l.claims

    abbrev granted : Site → Site
    granted s = record s {
      ledger = record s.ledger {
        claims = kept s.ledger ++ new_claim asked s.ledger.next_id ∷ [];
        next_id = s.ledger.next_id + 1;
      };
    }

    kept-IsFresh : (l : Ledger) → IsFresh l.next_id l.claims → IsFresh l.next_id (kept l)
    kept-IsFresh l fresh =
        IsFresh-purge l.next_id cfg.cooldown_seconds cfg.pending_lease w.now l.claims fresh

    kept-blocked :
        (l : Ledger)
        → any (address_row a m cfg.cooldown_seconds cfg.pending_lease t) (kept l)
          ≡ any (address_row a m cfg.cooldown_seconds cfg.pending_lease t) l.claims
    kept-blocked l = any-purge a m cfg.cooldown_seconds cfg.pending_lease w.now t l.claims past

    EndsIn-Keeps :
        (l l' : Ledger)
        → IsFresh l.next_id l.claims
        → EndsIn (kept l) l.next_id (l.next_id + 1) l'
        → Keeps l l'
    unfolding Keeps
    EndsIn-Keeps l l' fresh (row, is, rows, same) = (
      subst₂ IsFresh (sym same) (sym rows)
          (IsFresh-snoc l.next_id (kept l) row (kept-IsFresh l fresh) is),
      λ blocked.
          ap (any p) rows
          ∙ any-snoc p (kept l) row
          ∙ ap (λ x. x || p row) (kept-blocked l ∙ blocked),
    )
      where
        p : Claim → Bool
        p = address_row a m cfg.cooldown_seconds cfg.pending_lease t

    reservation-Keeps :
        (s : Site) (r : Bool)
        → IsFresh s.ledger.next_id s.ledger.claims
        → admits asked (kept s.ledger) ≡ r
        → Keeps s.ledger (reserve_and_send fingerprint_address cfg w b n s).0.ledger
    unfolding reserve_and_send Keeps
    reservation-Keeps s true fresh free =
        subst (λ r. Keeps s.ledger (after_reservation cfg w n s r).0.ledger)
          (sym (
            reserve_claim_grants fingerprint_address cfg.pending_lease (claim_of cfg w b n) s.ledger
              free))
          (EndsIn-Keeps s.ledger (conclude cfg w n s.ledger.next_id w.reply (granted s)).0.ledger
            fresh
            (conclude-EndsIn cfg w n s.ledger.next_id (s.ledger.next_id + 1) w.reply (kept s.ledger)
              (granted s) (kept-IsFresh s.ledger fresh)
              (new_claim asked s.ledger.next_id, refl, refl, refl)))
    reservation-Keeps s false fresh full =
        subst (λ r. Keeps s.ledger (after_reservation cfg w n s r).0.ledger)
          (sym (
            reserve_claim_refuses fingerprint_address cfg.pending_lease (claim_of cfg w b n)
              s.ledger full))
          (kept-IsFresh s.ledger fresh, λ blocked. kept-blocked s.ledger ∙ blocked)

    spend-Keeps :
        (s : Site) (r : Ledger × Bool)
        → r.0.claims ≡ s.ledger.claims
        → r.0.next_id ≡ s.ledger.next_id
        → IsFresh s.ledger.next_id s.ledger.claims
        → Keeps s.ledger (after_spend fingerprint_address cfg w b n s r).0.ledger
    unfolding Keeps
    spend-Keeps s (l, true) cs ids fresh =
        let (fresh', blocks) =
          reservation-Keeps (record s { ledger = l }) _ (subst₂ IsFresh (sym ids) (sym cs) fresh)
            refl in
        (fresh', λ blocked. blocks (ap (any _) cs ∙ blocked))
    spend-Keeps s (l, false) cs ids fresh =
        (subst₂ IsFresh (sym ids) (sym cs) fresh, λ blocked. ap (any _) cs ∙ blocked)

    guards-Keeps :
        (s : Site) (o : Option ApiError)
        → IsFresh s.ledger.next_id s.ledger.claims
        → Keeps s.ledger (after_guards fingerprint_address cfg w b n s o).0.ledger
    unfolding Keeps
    guards-Keeps s none fresh =
        spend-Keeps s (spend_for cfg w b.pow s.ledger) (spend_for-claims cfg w b.pow s.ledger).0
          (spend_for-claims cfg w b.pow s.ledger).1 fresh
    guards-Keeps s (some e) fresh = (fresh, λ blocked. blocked)

  request-Keeps :
      (w : World) (b : Body) (s : Site) (r : ApiError ⊎ Network)
      → w.now ≤ t
      → IsFresh s.ledger.next_id s.ledger.claims
      → Keeps s.ledger (after_request fingerprint_address cfg w b s r).0.ledger
  unfolding Keeps
  request-Keeps w b s (inl e) past fresh = (fresh, λ blocked. blocked)
  request-Keeps w b s (inr n) past fresh =
      guards-Keeps w b n past (checked cfg w b n s) (guards cfg w b n s) fresh

  post-Keeps :
      (w : World) (b : Body) (s : Site)
      → w.now ≤ t
      → IsFresh s.ledger.next_id s.ledger.claims
      → Keeps s.ledger (post fingerprint_address cfg w (some b) s).0.ledger
  unfolding post
  post-Keeps w b s past fresh = request-Keeps w b s (read_request cfg w b) past fresh

-- The claims of any clients, one after another.
abbrev pub post_all : (String → String) → Config → List (World × Body) → Site → Site
post_all fingerprint_address cfg [] s = s
post_all fingerprint_address cfg ((w, b) ∷ cs) s =
    post_all fingerprint_address cfg cs (post fingerprint_address cfg w (some b) s).0

module _ (fingerprint_address : String → String) (cfg : Config) (a : String) (m : Network)
    (t : ℕ) where
  post_all-IsBlocked :
      (cs : List (World × Body)) (s : Site)
      → All (λ c. c.0.now ≤ t) cs
      → IsFresh s.ledger.next_id s.ledger.claims
      → IsBlocked cfg a m t s.ledger
      → IsBlocked cfg a m t (post_all fingerprint_address cfg cs s).ledger
  unfolding Keeps
  post_all-IsBlocked [] s past fresh blocked = blocked
  post_all-IsBlocked ((w, b) ∷ cs) s (now, past) fresh blocked =
      let (fresh', blocks) = post-Keeps fingerprint_address cfg a m t w b s now fresh in
      post_all-IsBlocked cs (post fingerprint_address cfg w (some b) s).0 past fresh'
        (blocks blocked)

-- After a claim is answered in a way after which coins may be on their way, a lost send included,
-- and after whatever claims of whatever clients, the next claim of the same address on the same
-- network that comes before the cooldown has passed is not paid and not sent, provided that the
-- claims come in the order of their clocks, that a TAZ sender names its transaction, and that the
-- ids of the ledger's rows are below its next id.
pub post_all-once :
    (fingerprint_address : String → String) (cfg : Config) (w w' : World) (b b' : Body)
    (n : Network) (s : Site) (between : List (World × Body))
    → read_request cfg w b ≡ inr n
    → read_request cfg w' b' ≡ inr n
    → b'.address ≡ b.address
    → IsFresh s.ledger.next_id s.ledger.claims
    → names_txid n w.reply ≡ true
    → w.now ≤ w'.now
    → w'.now < w.now + cfg.cooldown_seconds
    → All (λ c. c.0.now ≤ w'.now) between
    → may_have_moved (post fingerprint_address cfg w (some b) s).1 ≡ true
    → may_have_moved
        (post fingerprint_address cfg w' (some b') (
          post_all fingerprint_address cfg between (post fingerprint_address cfg w (some b) s).0)).1
      ≡ false
unfolding Keeps
post_all-once fingerprint_address cfg w w' b b' n s between r r' same fresh named after soon past
      m =
    post-Unmoved fingerprint_address cfg w' b' n
      (post_all fingerprint_address cfg between (post fingerprint_address cfg w (some b) s).0) r'
      (subst
        (λ a.
          IsBlocked cfg (fingerprint_address a) n w'.now
            (post_all fingerprint_address cfg between
              (post fingerprint_address cfg w (some b) s).0).ledger)
        (sym same)
        (post_all-IsBlocked fingerprint_address cfg (fingerprint_address b.address) n w'.now between
          (post fingerprint_address cfg w (some b) s).0 past
          (post-Keeps fingerprint_address cfg (fingerprint_address b.address) n w'.now w b s after
            fresh).0
          (post-Leaves fingerprint_address cfg w b n s w'.now r fresh named soon m)))
