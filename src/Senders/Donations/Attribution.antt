-- ===== src/Senders/Donations/Attribution.antt =====
-- The tally, described by the receipts of the history.
use zcash_faucet.Base.{
  ℕ, ◌+◌, ◌≡◌, refl, sym, ap, ◌∙◌, Bool, true, false, not, ◌||◌, ◌==◌, inl, inr, Option, none, some,
  List, [], ◌∷◌, ◌++◌, length, total, keep, map, arith, Bool-cases, Option-cases, if◌then◌else◌,
}
use zcash_faucet.Tips.Fetch.{max_height}
use zcash_faucet.Senders.Donations.{
  WalletOutput, WalletTx, DonationTally, zat_of, is_named, is_shielded, later, add_output,
  add_outputs, spends_notes, outputs_of, add_tx, add_txs, no_donations, tally_donations,
}

-- What came from outside: the height of the transaction, whether the pool is shielded, the value.
pub record Receipt : Type 0 where
  pub height : ℕ
  pub shielded : Bool
  pub value : ℕ

abbrev pub receipt_of : ℕ → WalletOutput → List Receipt
receipt_of height out =
    if is_named out.from_account || out.is_change then [] else (elim (zat_of out.value) [
      | none ↦ []
      | some value ↦
          if value == 0
          then []
          else record { height = height; shielded = is_shielded out; value = value } ∷ []
    ])

abbrev pub receipts_in : ℕ → List WalletOutput → List Receipt
receipts_in height [] = []
receipts_in height (out ∷ rest) = receipt_of height out ++ receipts_in height rest

abbrev pub receipts_of : WalletTx → List Receipt
receipts_of tx = elim tx.mined_height [
  | none ↦ []
  | some height ↦
      if tx.expired_unmined || spends_notes tx.sent_note_count
      then []
      else receipts_in height (outputs_of tx.outputs)
]

abbrev pub receipts : List WalletTx → List Receipt
receipts [] = []
receipts (tx ∷ rest) = receipts_of tx ++ receipts rest

abbrev add_receipt : Receipt → DonationTally → DonationTally
add_receipt r t =
    if r.shielded
    then record t {
      count = t.count + 1;
      zat = t.zat + r.value;
      last_height = later t.last_height r.height;
    }
    else record t {
      unattributed_count = t.unattributed_count + 1;
      unattributed_zat = t.unattributed_zat + r.value;
    }

unfoldable add_receipts : List Receipt → DonationTally → DonationTally
add_receipts [] t = t
add_receipts (r ∷ rest) t = add_receipts rest (add_receipt r t)

add_receipts-append :
    (xs ys : List Receipt) (t : DonationTally)
    → add_receipts (xs ++ ys) t ≡ add_receipts ys (add_receipts xs t)
unfolding add_receipts
add_receipts-append [] ys t = refl
add_receipts-append (x ∷ xs) ys t = add_receipts-append xs ys (add_receipt x t)

output_receipts :
    (height : ℕ) (out : WalletOutput) (t : DonationTally)
    → add_output height out t ≡ add_receipts (receipt_of height out) t
unfolding add_output add_receipts
output_receipts height out t = ground (
  arith,
  Bool-cases (is_named out.from_account),
  Bool-cases out.is_change,
  Option-cases (zat_of out.value),
  Bool-cases (is_shielded out),
)

outputs_receipts :
    (height : ℕ) (outs : List WalletOutput) (t : DonationTally)
    → add_outputs height outs t ≡ add_receipts (receipts_in height outs) t
unfolding add_outputs add_receipts
outputs_receipts height [] t = refl
outputs_receipts height (out ∷ rest) t =
    outputs_receipts height rest (add_output height out t)
    ∙ ap (add_receipts (receipts_in height rest)) (output_receipts height out t)
    ∙ sym (add_receipts-append (receipt_of height out) (receipts_in height rest) t)

tx_receipts : (tx : WalletTx) (t : DonationTally) → add_tx tx t ≡ add_receipts (receipts_of tx) t
unfolding add_tx add_receipts
tx_receipts tx t = elim (Option-cases tx.mined_height) [
  | inl e ↦ rw e refl
  | inr (height, e) ↦
      rw e (elim (Bool-cases (tx.expired_unmined || spends_notes tx.sent_note_count)) [
        | inl skip ↦ rw skip refl
        | inr ok ↦ rw ok (outputs_receipts height (outputs_of tx.outputs) t)
      ])
]

txs_receipts :
    (txs : List WalletTx) (t : DonationTally) → add_txs txs t ≡ add_receipts (receipts txs) t
unfolding add_txs add_receipts
txs_receipts [] t = refl
txs_receipts (tx ∷ rest) t =
    txs_receipts rest (add_tx tx t)
    ∙ ap (add_receipts (receipts rest)) (tx_receipts tx t)
    ∙ sym (add_receipts-append (receipts_of tx) (receipts rest) t)

abbrev shielded_of : List Receipt → List Receipt
shielded_of = keep (λ r. r.shielded)

-- The greatest height, beside one that is known already.
abbrev latest : Option ℕ → List ℕ → Option ℕ
latest last hs = max_height (elim last [ none ↦ hs | some h ↦ h ∷ hs ])

latest-later :
    (last : Option ℕ) (h : ℕ) (hs : List ℕ) → latest (later last h) hs ≡ latest last (h ∷ hs)
latest-later none h hs = refl
latest-later (some l) h hs = ground (arith, Option-cases (max_height hs))

-- A tally that has counted some receipts on top of another.
abbrev IsTallyOf : List Receipt → DonationTally → DonationTally → Type 0
IsTallyOf rs t u =
    (u.count ≡ t.count + length (shielded_of rs))
    × (u.zat ≡ t.zat + total (λ r. r.value) (shielded_of rs))
    × (u.last_height ≡ latest t.last_height (map (λ r. r.height) (shielded_of rs)))
    × (u.unattributed_count ≡ t.unattributed_count + length (keep (λ r. not r.shielded) rs))
    × (u.unattributed_zat
        ≡ t.unattributed_zat + total (λ r. r.value) (keep (λ r. not r.shielded) rs))

latest_nil : (last : Option ℕ) → last ≡ latest last []
latest_nil none = refl
latest_nil (some l) = refl

count_more :
    (height : ℕ) (shielded : Bool) (value : ℕ) (rs : List Receipt) (t u : DonationTally)
    → let r : Receipt = record { height = height; shielded = shielded; value = value } in
      IsTallyOf rs (add_receipt r t) u → IsTallyOf (r ∷ rs) t u
unfolding total
count_more height true value rs t u (n, z, l, un, uz) = (
  omega (arith, n),
  omega (arith, z),
  l ∙ latest-later t.last_height height (map (λ r. r.height) (shielded_of rs)),
  un,
  uz,
)
count_more height false value rs t u (n, z, l, un, uz) =
    (n, z, l, omega (arith, un), omega (arith, uz))

counted : (rs : List Receipt) (t : DonationTally) → IsTallyOf rs t (add_receipts rs t)
unfolding add_receipts total
counted [] t = (omega arith, omega arith, latest_nil t.last_height, omega arith, omega arith)
counted (r ∷ rs) t =
    count_more r.height r.shielded r.value rs t (add_receipts rs (add_receipt r t))
      (counted rs (add_receipt r t))

-- The tally of any history, described by its receipts, the outputs of a value above 0 in mined
-- transactions that spend no note of the account, without those that the account funded or took as
-- change: it counts and sums the receipts in shielded pools, names the greatest height among them,
-- and counts and sums the others apart.
pub tally_donations_attributed :
    (txs : List WalletTx)
    → let rs : List Receipt = receipts txs in
      let t = tally_donations txs in
      (t.count ≡ length (keep (λ r. r.shielded) rs))
      × (t.zat ≡ total (λ r. r.value) (keep (λ r. r.shielded) rs))
      × (t.last_height ≡ max_height (map (λ r. r.height) (keep (λ r. r.shielded) rs)))
      × (t.unattributed_count ≡ length (keep (λ r. not r.shielded) rs))
      × (t.unattributed_zat ≡ total (λ r. r.value) (keep (λ r. not r.shielded) rs))
unfolding tally_donations
tally_donations_attributed txs = rw (txs_receipts txs no_donations) (
    let (n, z, l, un, uz) = counted (receipts txs) no_donations in
    (omega (arith, n), omega (arith, z), l, omega (arith, un), omega (arith, uz)))
