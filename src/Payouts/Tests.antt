-- ===== src/Payouts/Tests.antt =====
-- Checks of the verdicts on payouts at concrete inputs.
use zcash_faucet.Base.{true, String, none, some, List, [], ◌∷◌}
use zcash_faucet.Payouts.External.{Reply, answer, http_refused, ask_all, confirm_externally}
use zcash_faucet.Payouts.External.Agreement.{IsSupported, confirm_externally-IsSupported}
use zcash_faucet.Payouts.Identity.{IdentityFacts}

abbrev split : IdentityFacts
split = record {
  our_branch_id = some "c8e71055";
  their_branch_id = some "c8e71055";
  compared_at_height = some 100;
  our_hash_at_height = some "aa";
  their_hash_at_height = some "bb";
}

abbrev replies : List (String × Reply)
replies =
    ("one", answer (record { echoed = some "ab"; height = some 90; found = none; status = "" }))
    ∷ ("two", http_refused)
    ∷ []

confirm_externally-IsSupported_example :
    IsSupported "ab" (confirm_externally (ask_all true "ab" replies)) replies
confirm_externally-IsSupported_example = confirm_externally-IsSupported true "ab" replies
