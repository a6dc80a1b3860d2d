-- ===== src/Payouts/Identity.antt =====
-- src/lib/zcash/chainIdentity.ts: do our node and an independent source follow the same chain?
use zcash_faucet.Base.{
  ℕ, ◌-◌, ◌≡◌, refl, Bool, true, false, String, Option, none, some, min, str_eq, ltb, if◌then◌else◌,
  arith, eq_iff,
}

pub data IdentityState : Type 0 where
  same_chain different_rules forked cannot_verify : IdentityState

-- The hashes in lower case.
pub record IdentityFacts : Type 0 where
  pub our_branch_id : Option String
  pub their_branch_id : Option String
  pub compared_at_height : Option ℕ
  pub our_hash_at_height : Option String
  pub their_hash_at_height : Option String

abbrev pub compare_depth_blocks : ℕ
compare_depth_blocks = 20

unfoldable pub comparison_height : Option ℕ → Option ℕ → Option ℕ
comparison_height none their_tip = none
comparison_height (some our_tip) none = none
comparison_height (some our_tip) (some their_tip) =
    if ltb compare_depth_blocks (min our_tip their_tip)
    then some (min our_tip their_tip - compare_depth_blocks)
    else none

abbrev compare_hashes : Option String → Option String → IdentityState
compare_hashes none theirs = cannot_verify
compare_hashes (some ours) none = cannot_verify
compare_hashes (some ours) (some theirs) = if str_eq ours theirs then same_chain else forked

abbrev compare_history : Option ℕ → Option String → Option String → IdentityState
compare_history none ours theirs = cannot_verify
compare_history (some height) ours theirs = compare_hashes ours theirs

abbrev classify_by : Option String → Option String → IdentityState → IdentityState
classify_by none theirs history = cannot_verify
classify_by (some ours) none history = cannot_verify
classify_by (some ours) (some theirs) history =
    if str_eq ours theirs then history else different_rules

-- `classifyChainIdentity`, its state.
unfoldable pub classify_chain_identity : IdentityFacts → IdentityState
classify_chain_identity f =
    classify_by f.our_branch_id f.their_branch_id
      (compare_history f.compared_at_height f.our_hash_at_height f.their_hash_at_height)

unfoldable pub is_chain_problem : IdentityState → Bool
is_chain_problem forked = true
is_chain_problem different_rules = true
is_chain_problem _ = false

-- The facts as the other side sees them.
abbrev pub swap : IdentityFacts → IdentityFacts
swap f = record {
  our_branch_id = f.their_branch_id;
  their_branch_id = f.our_branch_id;
  compared_at_height = f.compared_at_height;
  our_hash_at_height = f.their_hash_at_height;
  their_hash_at_height = f.our_hash_at_height;
}

str_eq_comm : (s t : String) → str_eq s t ≡ str_eq t s
str_eq_comm s t = ground (arith, eq_iff s t, eq_iff t s)

hashes_comm : (s t : Option String) → compare_hashes s t ≡ compare_hashes t s
hashes_comm none none = refl
hashes_comm none (some t) = refl
hashes_comm (some s) none = refl
hashes_comm (some s) (some t) = rw (str_eq_comm s t) refl

history_comm : (h : Option ℕ) (s t : Option String) → compare_history h s t ≡ compare_history h t s
history_comm none s t = refl
history_comm (some h) s t = hashes_comm s t

by_comm :
    (s t : Option String) (history : IdentityState)
    → classify_by s t history ≡ classify_by t s history
by_comm none none h = refl
by_comm none (some t) h = refl
by_comm (some s) none h = refl
by_comm (some s) (some t) h = rw (str_eq_comm s t) refl

-- The verdict does not depend on which of the two sides is ours.
pub classify_chain_identity-swap :
    (f : IdentityFacts) → classify_chain_identity (swap f) ≡ classify_chain_identity f
unfolding classify_chain_identity
classify_chain_identity-swap f =
    rw (history_comm f.compared_at_height f.our_hash_at_height f.their_hash_at_height) (
      by_comm f.their_branch_id f.our_branch_id
        (compare_history f.compared_at_height f.their_hash_at_height f.our_hash_at_height))
