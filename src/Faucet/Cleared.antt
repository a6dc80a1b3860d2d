-- ===== src/Faucet/Cleared.antt =====
-- src/app/api/faucet/route.ts: what a payout implies about the faucet's own condition.
use zcash_faucet.Base.{
  ℕ, ◌+◌, ◌≤◌, Bool, true, false, not, String, Option, none, some, ◌≡◌, refl, sym, ap, ◌∙◌, arith,
  inr,
}
use zcash_faucet.Network.{Network, taz}
use zcash_faucet.SendHealth.{window_for, read_send_health, send_health_blocks_serving}
use zcash_faucet.Gates.Chain.{may_build_transaction}
use zcash_faucet.Gates.WalletLag.{may_build_from_wallet}
use zcash_faucet.Gates.Expiry.{IsUnexpired, gates-IsUnexpired}
use zcash_faucet.Faucet.{
  Config, World, Body, Site, Gate, send_unknown, ApiError, Response, api_error, paid,
}
use zcash_faucet.Faucet.Guards.{
  short_of, chain_gate, wallet_gate, read_request, checked, guards, scanned_height, tip_height,
}
use zcash_faucet.Faucet.Payout.{after_guards, after_request, post}

-- The answers after which coins may be on their way.
abbrev is_send_unknown : Gate → Bool
is_send_unknown send_unknown = true
is_send_unknown _ = false

abbrev pub may_have_moved : Response → Bool
may_have_moved (api_error e) = is_send_unknown e.gate
may_have_moved (paid txid n) = true

abbrev is_known : Option ApiError → Bool
is_known none = true
is_known (some e) = not (is_send_unknown e.gate)

guards-is_known :
    (cfg : Config) (w : World) (b : Body) (n : Network) (s : Site)
    → is_known (guards cfg w b n s) ≡ true
unfolding guards
guards-is_known cfg w b n s = ground arith

pub guards-none :
    (fingerprint_address : String → String) (cfg : Config) (w : World) (b : Body) (n : Network)
    (s s' : Site) (o : Option ApiError)
    → guards cfg w b n s ≡ o
    → may_have_moved (after_guards fingerprint_address cfg w b n s' o).1 ≡ true
    → o ≡ none
guards-none fingerprint_address cfg w b n s s' none g p = refl
guards-none fingerprint_address cfg w b n s s' (some e) g p =
    ground (arith, guards-is_known cfg w b n s, g)

-- What passing the guards says on TAZ.
guards-cleared :
    (cfg : Config) (w : World) (b : Body) (s : Site)
    → guards cfg w b taz s ≡ none
    → (w.draining ≡ false)
      × (short_of (cfg.drip_zatoshi + cfg.min_reserve_zatoshi) w.balance ≡ false)
      × (send_health_blocks_serving
            (read_send_health (window_for cfg.send_task_deadline_ms) w.now_ms s.send_log taz)
          ≡ false)
      × (cfg.sender_is_zallet ≡ true
          → (may_build_transaction (chain_gate cfg w) ≡ true)
            × (may_build_from_wallet (wallet_gate cfg w) ≡ true))
unfolding guards
guards-cleared cfg w b s g = ground arith

-- A TAZ claim after whose answer coins may be on their way passed every guard.
post-guards :
    (fingerprint_address : String → String) (cfg : Config) (w : World) (b : Body) (n : Network)
    (s : Site)
    → read_request cfg w b ≡ inr n
    → may_have_moved (post fingerprint_address cfg w (some b) s).1 ≡ true
    → guards cfg w b n s ≡ none
unfolding post
post-guards fingerprint_address cfg w b n s r m =
    guards-none fingerprint_address cfg w b n s (checked cfg w b n s) (guards cfg w b n s) refl
      (ap (λ o. may_have_moved (after_request fingerprint_address cfg w b s o).1) (sym r) ∙ m)

-- When a TAZ claim of a faucet that pays through zallet is answered in a way after which coins may
-- be on their way, the wallet's scanned height and the reference tip were both read, and the
-- expiry of a transaction stamped at that height was more than nine blocks above the tip.
pub post-IsUnexpired :
    (fingerprint_address : String → String) (cfg : Config) (w : World) (b : Body) (s : Site)
    → cfg.sender_is_zallet ≡ true
    → read_request cfg w b ≡ inr taz
    → may_have_moved (post fingerprint_address cfg w (some b) s).1 ≡ true
    → IsUnexpired (scanned_height w.node) w.external_tip
post-IsUnexpired fingerprint_address cfg w b s z r m =
    let gates =
      (guards-cleared cfg w b s (post-guards fingerprint_address cfg w b taz s r m)).3 z in
    gates-IsUnexpired cfg.shield_max_lag cfg.wallet_max_lag (scanned_height w.node)
      (tip_height w.node) w.external_tip gates.0 gates.1

-- A balance that could be read is no less than the floor.
abbrev pub Covers : ℕ → Option ℕ → Type 0
Covers floor none = Unit
Covers floor (some balance) = floor ≤ balance

short_of-Covers :
    (floor : ℕ) (balance : Option ℕ) → short_of floor balance ≡ false → Covers floor balance
short_of-Covers floor none e = tt
short_of-Covers floor (some balance) e = ground arith

-- When a TAZ claim is answered in a way after which coins may be on their way, the process was not
-- draining, the verdict on recent TAZ sends was not degraded, and the balance, when it could be
-- read, covered the drip and the reserve floor together.
pub post-solvent :
    (fingerprint_address : String → String) (cfg : Config) (w : World) (b : Body) (s : Site)
    → read_request cfg w b ≡ inr taz
    → may_have_moved (post fingerprint_address cfg w (some b) s).1 ≡ true
    → (w.draining ≡ false)
      × Covers (cfg.drip_zatoshi + cfg.min_reserve_zatoshi) w.balance
      × (send_health_blocks_serving
            (read_send_health (window_for cfg.send_task_deadline_ms) w.now_ms s.send_log taz)
          ≡ false)
post-solvent fingerprint_address cfg w b s r m =
    let (running, enough, sound, gates) =
      guards-cleared cfg w b s (post-guards fingerprint_address cfg w b taz s r m) in
    (running, short_of-Covers (cfg.drip_zatoshi + cfg.min_reserve_zatoshi) w.balance enough, sound)
