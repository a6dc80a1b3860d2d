-- ===== src/Senders/Donations/Pages.antt =====
-- src/lib/zcash/zalletsend.ts, `donations`: the account's history read page by page, up to a cap.
-- What the wallet answers to z_listtransactions at an offset is a parameter.
pub mod Complete
use zcash_faucet.Base.{
  ℕ, zero, suc, ◌+◌, ◌*◌, Bool, true, false, Option, none, some, List, [], ◌++◌, length, ltb,
  if◌then◌else◌,
}
use zcash_faucet.Senders.Donations.{WalletTx, DonationTally, tally_donations}

-- A call that throws, an answer that is no array, and the rows of an answer.
pub data Batch : Type 0 where
  threw no_array : Batch
  rows : List WalletTx → Batch

abbrev pub donation_page : ℕ
donation_page = 500

abbrev pub donation_max_pages : ℕ
donation_max_pages = 20

abbrev pub behind : List WalletTx → Option (List WalletTx × Bool) → Option (List WalletTx × Bool)
behind txs none = none
behind txs (some (more, complete)) = some (txs ++ more, complete)

-- A page, with what the pages behind it come to.
abbrev pub read_page : Batch → Option (List WalletTx × Bool) → Option (List WalletTx × Bool)
read_page threw later = none
read_page no_array later = some ([], true)
read_page (rows batch) later =
    if ltb (length batch) donation_page then some (batch, true) else behind batch later

-- The loop, of the pages left and the page next; none is the exception passed on.
unfoldable pub read_pages : (ℕ → ℕ → Batch) → ℕ → ℕ → Option (List WalletTx × Bool)
read_pages list zero page = some ([], false)
read_pages list (suc left) page =
    let later = read_pages list left (page + 1) in
    read_page (list (page * donation_page) donation_page) later

abbrev pub tallied : Option (List WalletTx × Bool) → Option (DonationTally × Bool)
tallied none = none
tallied (some (txs, complete)) = some (tally_donations txs, complete)

unfoldable pub donations : (ℕ → ℕ → Batch) → Option (DonationTally × Bool)
donations list = tallied (read_pages list donation_max_pages 0)
