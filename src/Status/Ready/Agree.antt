-- ===== src/Status/Ready/Agree.antt =====
-- The page and /api/ready, on the same readings.
use zcash_faucet.Base.{
  ℕ, ◌≡◌, refl, sym, subst, subst₂, Bool, true, false, not, inl, inr, Option, none, some, ltb,
  if◌then◌else◌, arith, Bool-cases, Option-cases,
}
use zcash_faucet.Base.Map.{is_some}
use zcash_faucet.Gates.Chain.{
  ChainGate, ChainFreshness, safe, unsafe, unverifiable, may_build_transaction,
}
use zcash_faucet.Network.{taz}
use zcash_faucet.Status.Node.{NodeStatus, NodeSettings, get_node_status}
use zcash_faucet.Status.Progress.{TipSample}
use zcash_faucet.Status.Ready.{
  ReadinessInputs, Status, Phase, is_unsafe, node_reason, readiness_reason, FaultReason, node_fault,
  fault_reason, funded_phase, base_phase, node_unready,
}

-- One set of readings, as /api/status and /api/ready make them.
pub record Readings : Type 0 where
  pub sender_zallet : Bool
  pub backend_reachable : Bool
  pub node : Option NodeStatus
  pub balance_zat : Option ℕ
  pub sends_degraded : Bool
  pub sends_block : Bool
  pub ledger_blocks : Bool
  pub floor_zat : ℕ

abbrev pub is_below : Option ℕ → ℕ → Bool
is_below none floor = false
is_below (some balance) floor = ltb balance floor

-- The reply of /api/status.
abbrev pub status_of : Readings → Status
status_of r = record {
  sender_zallet = r.sender_zallet;
  balance_zat = r.balance_zat;
  is_empty = is_below r.balance_zat r.floor_zat;
  sends_degraded = r.sends_degraded;
  backend_reachable = r.backend_reachable;
  node = r.node;
  ctaz_servable = none;
}

-- What /api/ready asks `readinessReason`.
abbrev pub inputs_of : Readings → ReadinessInputs
inputs_of r = record {
  ledger_blocks = r.ledger_blocks;
  backend_reachable = r.backend_reachable;
  node = r.node;
  node_expected = r.sender_zallet;
  balance_zat = r.balance_zat;
  sends_block = r.sends_block;
  floor_zat = r.floor_zat;
}

-- The flag is the send gate's verdict, as `getNodeStatus` sets it.
abbrev pub IsGated : Option NodeStatus → Type 0
IsGated none = Unit
IsGated (some n) = n.can_build_tx ≡ may_build_transaction n.shield

pub get_node_status-IsGated :
    (s : NodeSettings) (last_tip : Option TipSample) (w n : ℕ) (external : Option ℕ) (now : ℕ)
    → IsGated (some (get_node_status s last_tip w n external now).0)
unfolding get_node_status
get_node_status-IsGated s last_tip w n external now = refl

not_unsafe : (g : ChainGate) → may_build_transaction g ≡ true → is_unsafe g ≡ false
unfolding may_build_transaction
not_unsafe g e = by_state g.state refl
  where
    by_state : (state : ChainFreshness) → g.state ≡ state → is_unsafe g ≡ false
    by_state safe eq = rw eq refl
    by_state unsafe eq = absurd (ground arith)
    by_state unverifiable eq = rw eq refl

node_clear :
    (n : NodeStatus) (balance : Option ℕ)
    → n.can_build_tx ≡ may_build_transaction n.shield
    → node_fault n balance ≡ none
    → node_unready (some n) ≡ false
    → node_reason n ≡ none
node_clear n balance gated e r = elim (Bool-cases n.frozen) [
  | inl frozen ↦ absurd (ground arith)
  | inr moving ↦ elim (Bool-cases n.can_build_tx) [
    | inr no_build ↦ absurd (ground arith)
    | inl build ↦ ground (arith, not_unsafe n.shield)
  ]
]

abbrev readings_of : Bool → Bool → NodeStatus → ℕ → ℕ → Readings
readings_of zallet degraded n balance floor = record {
  sender_zallet = zallet;
  backend_reachable = true;
  node = some n;
  balance_zat = some balance;
  sends_degraded = degraded;
  sends_block = false;
  ledger_blocks = false;
  floor_zat = floor;
}

funded_fault :
    (n : NodeStatus) (balance : ℕ) (zallet degraded : Bool) (floor : ℕ) (f : FaultReason)
    → node_fault n (some balance) ≡ some f
    → base_phase (some (status_of (readings_of zallet degraded n balance floor))) taz ≡ Phase.ready
    → ⊥
unfolding base_phase fault_reason
funded_fault n balance zallet degraded floor f ef e = differ (
    subst
      (λ (o : Option FaultReason).
        (if is_some o
          then Phase.fault
          else if not n.ready
          then Phase.syncing
          else funded_phase (status_of (readings_of zallet degraded n balance floor)) balance)
        ≡ Phase.ready)
      ef e)
  where
    differ : Phase.fault ≡ Phase.ready → ⊥
    differ p = absurd cc

funded :
    (n : NodeStatus) (balance : ℕ) (zallet degraded : Bool) (floor : ℕ)
    → node_fault n (some balance) ≡ none
    → n.ready ≡ true
    → base_phase (some (status_of (readings_of zallet degraded n balance floor))) taz ≡ Phase.ready
    → ltb balance floor ≡ false
unfolding base_phase fault_reason
funded n balance zallet degraded floor ef settled e =
    let calm : funded_phase (status_of (readings_of zallet degraded n balance floor)) balance
        ≡ Phase.ready =
      subst₂
        (λ (o : Option FaultReason) (b : Bool).
          (if is_some o
            then Phase.fault
            else if not b
            then Phase.syncing
            else funded_phase (status_of (readings_of zallet degraded n balance floor)) balance)
          ≡ Phase.ready)
        ef settled e in
    not_below calm
  where
    not_below :
        funded_phase (status_of (readings_of zallet degraded n balance floor)) balance ≡ Phase.ready
        → ltb balance floor ≡ false
    not_below calm = ground arith

ready_by :
    (zallet backend degraded : Bool) (floor : ℕ) (reading : Option NodeStatus) (balance : Option ℕ)
    → IsGated reading
    → (let r : Readings = record {
      sender_zallet = zallet;
      backend_reachable = backend;
      node = reading;
      balance_zat = balance;
      sends_degraded = degraded;
      sends_block = false;
      ledger_blocks = false;
      floor_zat = floor;
    } in
        base_phase (some (status_of r)) taz ≡ Phase.ready → readiness_reason (inputs_of r) ≡ none)
unfolding base_phase readiness_reason fault_reason
ready_by zallet false degraded floor reading balance gated e = cc
ready_by zallet true degraded floor none none gated e = ground arith
ready_by zallet true degraded floor none (some balance) gated e = ground arith
ready_by zallet true degraded floor (some n) none gated e =
    elim (Bool-cases (is_some (node_fault n none))) [ inl f ↦ ground arith | inr c ↦ ground arith ]
ready_by zallet true degraded floor (some n) (some balance) gated e =
    elim (Option-cases (node_fault n (some balance))) [
      | inr (f, ef) ↦ absurd (funded_fault n balance zallet degraded floor f ef e)
      | inl ef ↦ elim (Bool-cases n.ready) [
        | inr unready ↦ absurd (ground arith)
        | inl settled ↦
            let clear : node_reason n ≡ none =
              node_clear n (some balance) gated ef (rw settled refl) in
            rw clear (rw (funded n balance zallet degraded floor ef settled e) refl)
      ]
    ]

-- When the page invites a claim in TAZ, /api/ready on the same readings has no reason to refuse
-- but the ledger and the sends of another network: with the ledger answering and no send verdict
-- that blocks, it has none.
pub base_phase-ready :
    (r : Readings)
    → IsGated r.node
    → r.ledger_blocks ≡ false
    → r.sends_block ≡ false
    → base_phase (some (status_of r)) taz ≡ Phase.ready
    → readiness_reason (inputs_of r) ≡ none
unfolding base_phase readiness_reason fault_reason
base_phase-ready r gated ledger sends e =
    subst₂
      (λ (lb sb : Bool).
        readiness_reason (inputs_of (record r { ledger_blocks = lb; sends_block = sb })) ≡ none)
      (sym ledger) (sym sends)
      (ready_by r.sender_zallet r.backend_reachable r.sends_degraded r.floor_zat r.node
        r.balance_zat gated e)
