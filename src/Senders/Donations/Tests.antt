-- ===== src/Senders/Donations/Tests.antt =====
-- Checks of the donations' tally at a concrete history.
use zcash_faucet.Base.{
  ℕ, ◌≡◌, refl, false, not, String, Option, none, some, List, [], ◌∷◌, length, total, keep, map,
}
use zcash_faucet.Tips.Fetch.{max_height}
use zcash_faucet.Senders.Donations.{
  WalletOutput, WalletTx, JsonValue, tally_donations, add_outputs, add_output, add_txs, add_tx,
}
use zcash_faucet.Senders.Donations.Pages.{Batch, rows, donations}
use zcash_faucet.Senders.Donations.Pages.Complete.{take, drop, IsTallied, donations-IsTallied}
use zcash_faucet.Senders.Donations.Attribution.{receipts, tally_donations_attributed}

abbrev paid : String → Option String → ℕ → WalletOutput
paid pool from value = record {
  pool = some pool;
  from_account = from;
  value = JsonValue.number (some value);
  is_change = false;
}

-- A donation, a drip's change, mining income, and a donation that is not mined yet.
abbrev history : List WalletTx
history =
    record {
      mined_height = some 4000;
      expired_unmined = false;
      sent_note_count = none;
      outputs = some (paid "orchard" none 700 ∷ paid "transparent" none 90 ∷ []);
    }
    ∷ record {
      mined_height = some 4010;
      expired_unmined = false;
      sent_note_count = some 1;
      outputs = some (paid "orchard" (some "ours") 5000 ∷ []);
    }
    ∷ record {
      mined_height = none;
      expired_unmined = false;
      sent_note_count = some 0;
      outputs = some (paid "sapling" none 30 ∷ []);
    }
    ∷ []

one_donation : (tally_donations history).zat ≡ 700
unfolding tally_donations add_txs add_tx add_outputs add_output
one_donation = refl

tally_donations_attributed_example :
    (let rs = receipts history in
      let t = tally_donations history in
      (t.count ≡ length (keep (λ r. r.shielded) rs))
      × (t.zat ≡ total (λ r. r.value) (keep (λ r. r.shielded) rs))
      × (t.last_height ≡ max_height (map (λ r. r.height) (keep (λ r. r.shielded) rs)))
      × (t.unattributed_count ≡ length (keep (λ r. not r.shielded) rs))
      × (t.unattributed_zat ≡ total (λ r. r.value) (keep (λ r. not r.shielded) rs)))
tally_donations_attributed_example = tally_donations_attributed history

abbrev wallet_rows : ℕ → ℕ → Batch
wallet_rows offset limit = rows (take limit (drop offset history))

donations-IsTallied_example : IsTallied history (donations wallet_rows)
donations-IsTallied_example = donations-IsTallied wallet_rows history (λ offset limit. refl)
