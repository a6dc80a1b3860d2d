-- ===== src/Faucet/Payout.antt =====
-- src/app/api/faucet/route.ts, steps 3.9 to 5: the proof is burnt, the claim reserved, the send
-- queued and its outcome settled; and the handler that all the steps make up.
use zcash_faucet.Base.{
  ℕ, ◌+◌, Bool, true, false, String, str_eq, Option, none, some, List, if◌then◌else◌, ◌⊎◌, inl, inr,
}
use Prim.Native.String.{◌++◌ as str_append}
use zcash_faucet.Network.{Network, taz, ctaz}
use zcash_faucet.Ledger.{Ledger}
use zcash_faucet.Ledger.Calls.{
  Refusal, Kind, cap, subnet, ReserveResult, reserved, refused, ReserveOpts, reserve_claim, Ending,
  as_sent, as_failed, finalize_claim, spend_challenge,
}
use zcash_faucet.SendHealth.{SendOutcome, ok, failed, unknown, SendRecord, window_for, record_send}
use zcash_faucet.SendHealth as SendHealth
use zcash_faucet.Pow.Gate.{Solution}
use zcash_faucet.Faucet.{
  Config, Body, World, Site, SendReply, broadcast, outcome_unknown, past_deadline, queue_full,
  recipient_refused, send_failed, bad_body, challenge_spent, daily_cap, cooldown, send_unknown,
  busy, recipient, send_failed_gate, busy_kind, recipient_kind, of_refusal, ApiError, Response,
  api_error, paid,
}
use zcash_faucet.Faucet.Guards.{plain, read_request, checked, guards}

-- The policy of the network, and the call of `reserveClaim`.
abbrev pub amount_for : Config → Network → ℕ
amount_for cfg taz = cfg.drip_zatoshi
amount_for cfg ctaz = cfg.crosslink_expected_zat

abbrev pub daily_cap_for : Config → Network → ℕ
daily_cap_for cfg taz = cfg.daily_cap_zatoshi
daily_cap_for cfg ctaz = cfg.crosslink_daily_cap_zatoshi

abbrev pub claim_of : Config → World → Body → Network → ReserveOpts
claim_of cfg w b n = record {
  address = b.address;
  ip_hash = w.ip_hash;
  subnet_hash = w.subnet_hash;
  amount_zat = amount_for cfg n;
  now = w.now;
  cooldown_seconds = cfg.cooldown_seconds;
  daily_cap_zat = daily_cap_for cfg n;
  subnet_daily_max = cfg.subnet_daily_max;
  ip_daily_max = cfg.ip_daily_max;
  network = n;
}

-- A measured wait is also said as a time; the hour of the subnet rule is not.
abbrev clock_time : World → Kind → Option ℕ → Option ℕ
clock_time w subnet retry = none
clock_time w kind none = none
clock_time w kind (some seconds) = some (w.now + seconds)

abbrev is_cap : Kind → Bool
is_cap cap = true
is_cap _ = false

unfoldable pub refusal_error : World → Refusal → ApiError
refusal_error w r = record {
  status = if is_cap r.kind then 503 else 429;
  gate = if is_cap r.kind then daily_cap else cooldown;
  kind = some (of_refusal r.kind);
  scope = r.scope;
  retry_after_seconds = r.retry_after_seconds;
  next_at = clock_time w r.kind r.retry_after_seconds;
}

-- A `finalizeClaim` that throws is caught and logged: the ledger stays as it was.
abbrev pub or_unchanged : Ledger → Option Ledger → Ledger
or_unchanged l none = l
or_unchanged l (some l') = l'

-- The claim as settled, and what is put in the log of sends.
abbrev pub settle : World → Network → ℕ → Ending → Option String → Bool → Ledger → Ledger
settle w n id e txid no_txid l = or_unchanged l (finalize_claim id e txid no_txid w.settled_day n l)

abbrev pub log_send :
    Config → World → Network → SendOutcome → Bool → List SendRecord → List SendRecord
log_send cfg w n outcome unanswered log =
    record_send (window_for cfg.send_task_deadline_ms) outcome n w.settled_ms unanswered log

-- `sender.name === "crosslink"` of the sender that `getSenderFor` gives.
abbrev pub has_no_txid : Network → Bool
has_no_txid taz = false
has_no_txid ctaz = true

abbrev unresolved : Config → World → Network → ℕ → Bool → String → Site → Site × Response
unresolved cfg w n id unanswered marker s = (
  record s {
    ledger = settle w n id as_sent (some marker) false s.ledger;
    send_log = log_send cfg w n unknown unanswered s.send_log;
  },
  api_error (plain 504 send_unknown),
)

abbrev released : World → Network → ℕ → Site → Site
released w n id s = record s { ledger = settle w n id as_failed none false s.ledger }

-- Step 5: how the handler answers each end of the send.
unfoldable pub conclude : Config → World → Network → ℕ → SendReply → Site → Site × Response
conclude cfg w n id (broadcast txid) s = (
  record s {
    ledger = settle w n id as_sent txid (has_no_txid n) s.ledger;
    send_log = log_send cfg w n ok false s.send_log;
  },
  paid txid n,
)
conclude cfg w n id (outcome_unknown opid) s =
    unresolved cfg w n id (str_eq opid "no-opid") (str_append "unknown:" opid) s
conclude cfg w n id past_deadline s = unresolved cfg w n id false "unknown:deadline" s
conclude cfg w n id queue_full s =
    (released w n id s, api_error (record (plain 503 busy) { kind = some busy_kind }))
conclude cfg w n id recipient_refused s = (
  record (released w n id s) { send_log = log_send cfg w n SendHealth.refused false s.send_log },
  api_error (record (plain 400 recipient) { kind = some recipient_kind }),
)
conclude cfg w n id send_failed s = (
  record (released w n id s) { send_log = log_send cfg w n failed false s.send_log },
  api_error (plain 502 send_failed_gate),
)

-- What follows the reservation.
abbrev pub after_reservation :
    Config → World → Network → Site → Ledger × ReserveResult → Site × Response
after_reservation cfg w n s (l, refused r) =
    (record s { ledger = l }, api_error (refusal_error w r))
after_reservation cfg w n s (l, reserved id) = conclude cfg w n id w.reply (record s { ledger = l })

-- Step 4.
unfoldable pub reserve_and_send :
    (String → String) → Config → World → Body → Network → Site → Site × Response
reserve_and_send fingerprint_address cfg w b n s =
    after_reservation cfg w n s
      (reserve_claim fingerprint_address cfg.pending_lease (claim_of cfg w b n) s.ledger)

-- Step 3.9: `spendVerifiedSolution`.
abbrev pub spend_for : Config → World → Option Solution → Ledger → Ledger × Bool
spend_for cfg w none l = (l, true)
spend_for cfg w (some p) l =
    if cfg.challenge_is_pow then spend_challenge p.sig p.exp w.spent_at l else (l, true)

abbrev pub after_spend :
    (String → String) → Config → World → Body → Network → Site → Ledger × Bool → Site × Response
after_spend fingerprint_address cfg w b n s (l, true) =
    reserve_and_send fingerprint_address cfg w b n (record s { ledger = l })
after_spend fingerprint_address cfg w b n s (l, false) =
    (record s { ledger = l }, api_error (plain 403 challenge_spent))

abbrev pub after_guards :
    (String → String) → Config → World → Body → Network → Site → Option ApiError → Site × Response
after_guards fingerprint_address cfg w b n s (some e) = (s, api_error e)
after_guards fingerprint_address cfg w b n s none =
    after_spend fingerprint_address cfg w b n s (spend_for cfg w b.pow s.ledger)

abbrev pub after_request :
    (String → String) → Config → World → Body → Site → ApiError ⊎ Network → Site × Response
after_request fingerprint_address cfg w b s (inl e) = (s, api_error e)
after_request fingerprint_address cfg w b s (inr n) =
    after_guards fingerprint_address cfg w b n (checked cfg w b n s) (guards cfg w b n s)

-- `POST`; `none` is a body that the schema refuses.
unfoldable pub post : (String → String) → Config → World → Option Body → Site → Site × Response
post fingerprint_address cfg w none s = (s, api_error (plain 400 bad_body))
post fingerprint_address cfg w (some b) s =
    after_request fingerprint_address cfg w b s (read_request cfg w b)
