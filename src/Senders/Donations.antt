-- ===== src/Senders/Donations.antt =====
-- src/lib/zcash/donations.ts: the account's history told apart from the faucet's own money. Names
-- of pools are in lower case; a text that is a value is the number it spells once trimmed, or none.
pub mod Attribution
pub mod Pages
mod Tests
use zcash_faucet.Base.{
  ℕ, ◌+◌, Bool, true, false, ◌||◌, String, Option, none, some, List, [], ◌∷◌, any, ltb, leb, ◌==◌,
  str_eq, if◌then◌else◌,
}

abbrev pub donation_pools : List String
donation_pools = "ironwood" ∷ "orchard" ∷ "sapling" ∷ []

-- A number that is no natural number is `number none`.
pub data JsonValue : Type 0 where
  absent : JsonValue
  number text : Option ℕ → JsonValue

pub record WalletOutput : Type 0 where
  pub pool : Option String
  pub from_account : Option String
  pub value : JsonValue
  pub is_change : Bool

pub record WalletTx : Type 0 where
  pub mined_height : Option ℕ
  pub expired_unmined : Bool
  pub sent_note_count : Option ℕ
  pub outputs : Option (List WalletOutput)

pub record DonationTally : Type 0 where
  pub count : ℕ
  pub zat : ℕ
  pub last_height : Option ℕ
  pub unattributed_count : ℕ
  pub unattributed_zat : ℕ

-- Number.MAX_SAFE_INTEGER.
abbrev pub max_safe_integer : ℕ
max_safe_integer = 9_007_199_254_740_991

abbrev pub zat_of : JsonValue → Option ℕ
zat_of JsonValue.absent = none
zat_of (JsonValue.number none) = none
zat_of (JsonValue.number (some n)) = if leb n max_safe_integer then some n else none
zat_of (JsonValue.text digits) = digits

-- A name that is there and is not empty.
abbrev pub is_named : Option String → Bool
is_named none = false
is_named (some name) = if str_eq name "" then false else true

abbrev pub is_shielded : WalletOutput → Bool
is_shielded out = elim out.pool [ none ↦ false | some name ↦ any (str_eq name) donation_pools ]

abbrev pub later : Option ℕ → ℕ → Option ℕ
later none height = some height
later (some last) height = if ltb last height then some height else some last

-- A value that an output adds.
abbrev pub add_value : ℕ → WalletOutput → ℕ → DonationTally → DonationTally
add_value height out value t =
    if is_shielded out
    then record t {
      count = t.count + 1;
      zat = t.zat + value;
      last_height = later t.last_height height;
    }
    else record t {
      unattributed_count = t.unattributed_count + 1;
      unattributed_zat = t.unattributed_zat + value;
    }

unfoldable pub add_output : ℕ → WalletOutput → DonationTally → DonationTally
add_output height out t =
    if is_named out.from_account || out.is_change then t else (elim (zat_of out.value) [
      | none ↦ t
      | some value ↦ if value == 0 then t else add_value height out value t
    ])

unfoldable pub add_outputs : ℕ → List WalletOutput → DonationTally → DonationTally
add_outputs height [] t = t
add_outputs height (out ∷ rest) t = add_outputs height rest (add_output height out t)

abbrev pub spends_notes : Option ℕ → Bool
spends_notes none = false
spends_notes (some n) = ltb 0 n

abbrev pub outputs_of : Option (List WalletOutput) → List WalletOutput
outputs_of none = []
outputs_of (some outs) = outs

unfoldable pub add_tx : WalletTx → DonationTally → DonationTally
unfolding add_outputs
add_tx tx t = elim tx.mined_height [
  | none ↦ t
  | some height ↦
      if tx.expired_unmined || spends_notes tx.sent_note_count
      then t
      else add_outputs height (outputs_of tx.outputs) t
]

unfoldable pub add_txs : List WalletTx → DonationTally → DonationTally
add_txs [] t = t
add_txs (tx ∷ rest) t = add_txs rest (add_tx tx t)

abbrev pub no_donations : DonationTally
no_donations = record {
  count = 0;
  zat = 0;
  last_height = none;
  unattributed_count = 0;
  unattributed_zat = 0;
}

unfoldable pub tally_donations : List WalletTx → DonationTally
tally_donations txs = add_txs txs no_donations
