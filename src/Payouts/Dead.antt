-- ===== src/Payouts/Dead.antt =====
-- src/lib/zcash/payoutDead.ts: a payout that can never be mined.
use zcash_faucet.Base.{
  ℕ, ◌+◌, ◌≤◌, ◌<◌, ◌≡◌, ◌↔◌, Bool, true, false, ◌⊎◌, inl, inr, Option, none, some, leb, ltb, ◌==◌,
  if◌then◌else◌, arith, Bool-cases,
}

pub data PayoutFate : Type 0 where
  mined dead pending cannot_tell : PayoutFate

pub record PayoutFacts : Type 0 where
  pub known_by_wallet : Option Bool
  pub confirmations : Option ℕ
  pub expiry_height : Option ℕ
  pub tip : Option ℕ

abbrev confirmed : Option ℕ → Bool
confirmed none = false
confirmed (some n) = ltb 0 n

abbrev fate_by_expiry : Option ℕ → Option ℕ → PayoutFate
fate_by_expiry none expiry = cannot_tell
fate_by_expiry (some tip) none = cannot_tell
fate_by_expiry (some tip) (some expiry) =
    if expiry == 0 then pending else if leb expiry tip then dead else pending

abbrev unmined_fate : PayoutFacts → PayoutFate
unmined_fate f = elim f.known_by_wallet [
  | none ↦ cannot_tell
  | some known ↦ elim known [ false ↦ cannot_tell | true ↦ fate_by_expiry f.tip f.expiry_height ]
]

-- `classifyPayout`, its fate.
unfoldable pub classify_payout : PayoutFacts → PayoutFate
classify_payout f = if confirmed f.confirmations then mined else unmined_fate f

unfoldable pub should_alarm : PayoutFate → Bool
should_alarm dead = true
should_alarm _ = false

-- The rule of the network: a block may hold a transaction up to its expiry height, 0 being none.
abbrev pub MayHold : ℕ → ℕ → Type 0
MayHold block expiry = (expiry ≡ 0) ⊎ (block ≤ expiry)

abbrev pub alarming : Option Bool → Option ℕ → ℕ → ℕ → Bool
alarming known confirmations tip expiry = should_alarm (
    classify_payout (record {
      known_by_wallet = known;
      confirmations = confirmations;
      expiry_height = some expiry;
      tip = some tip;
    }))

-- Of a payout that the wallet knows and that is in no block up to our tip, the alarm is raised
-- exactly when no block after the tip may hold it.
pub should_alarm_iff :
    (tip expiry : ℕ)
    → (alarming (some true) none tip expiry ≡ true)
      ↔ ((block : ℕ) → tip < block → MayHold block expiry → ⊥)
unfolding classify_payout should_alarm
should_alarm_iff tip expiry = (
  λ e block later m. elim m [ inl z ↦ ground arith | inr le ↦ ground arith ],
  λ h. elim (Bool-cases (expiry == 0)) [
    | inl never ↦ absurd (h (tip + 1) (omega arith) (inl (ground arith)))
    | inr some_day ↦ elim (Bool-cases (leb expiry tip)) [
      | inl over ↦ ground arith
      | inr early ↦ absurd (h (tip + 1) (omega arith) (inr (ground arith)))
    ]
  ],
)
