-- ===== src/Pow/Gate.antt =====
-- src/lib/pow.ts: the attempts that escalate the difficulty, and the verification of a solution.
-- Attempts are in milliseconds, a challenge's life in seconds. The hash, the signature and the
-- seed come from a crypto library: what they say of a solution is an input.
use zcash_faucet.Base.{
  ℕ, ◌+◌, ◌*◌, ◌/◌, max, min, Bool, true, false, not, ◌||◌, String, Option, none, some, List, [],
  ◌∷◌, ◌++◌, length, ltb, leb, if◌then◌else◌,
}
use zcash_faucet.Base.Map.{lookup, insert, keep_values}
use zcash_faucet.Ledger.{Ledger}
use zcash_faucet.Ledger.Calls.{truthy, spend_challenge}
use zcash_faucet.Pow.Budget.{slow_browser_hashes_per_sec, solvable_ceiling_bits}

-- `config.pow`, and REQ_WINDOW_MS.
pub record PowConfig : Type 0 where
  pub base_bits : ℕ
  pub max_bits : ℕ
  pub escalate_bits : ℕ
  pub ttl_seconds : ℕ
  pub window_ms : ℕ

pub record Attempts : Type 0 where
  pub per_ip : List (String × List ℕ)
  pub per_subnet : List (String × List ℕ)
  pub global : List ℕ

-- `while (list.length && list[0] < now - REQ_WINDOW_MS) list.shift()`.
unfoldable pub prune : ℕ → ℕ → List ℕ → List ℕ
prune window_ms now [] = []
prune window_ms now (t ∷ ts) =
    let rest = prune window_ms now ts in if ltb (t + window_ms) now then rest else t ∷ ts

abbrev pub or_no_attempts : Option (List ℕ) → List ℕ
or_no_attempts none = []
or_no_attempts (some ts) = ts

abbrev pub attempts_of : String → List (String × List ℕ) → List ℕ
attempts_of key m = or_no_attempts (lookup key m)

abbrev pub range_of : Option String → Attempts → List ℕ
range_of none a = []
range_of (some subnet) a = if truthy (some subnet) then attempts_of subnet a.per_subnet else []

-- `Math.max(n, Math.round((n * REQ_WINDOW_MS) / 600_000))`.
abbrev pub per_hour : ℕ → ℕ → ℕ
per_hour window_ms n = max n ((2 * (n * window_ms) + 600_000) / 1_200_000)

abbrev pub pressure_of : ℕ → ℕ → ℕ
pressure_of window_ms requests =
    if leb (per_hour window_ms 60) requests
    then 3
    else if leb (per_hour window_ms 25) requests
    then 2
    else if leb (per_hour window_ms 10) requests
    then 1
    else 0

abbrev pub solvable_ceiling : PowConfig → ℕ
solvable_ceiling c = solvable_ceiling_bits c.base_bits c.ttl_seconds slow_browser_hashes_per_sec

-- The lists that this prunes stay pruned in the code; here every reading prunes its own.
unfoldable pub difficulty_for : PowConfig → Attempts → String → Option String → ℕ → ℕ
unfolding prune
difficulty_for c a ip_hash subnet_hash now =
    let mine = prune c.window_ms now (attempts_of ip_hash a.per_ip) in
    let range = prune c.window_ms now (range_of subnet_hash a) in
    let repeats = max (length mine) (length range) in
    let pressure = pressure_of c.window_ms (length (prune c.window_ms now a.global)) in
    min (min c.max_bits (solvable_ceiling c)) (c.base_bits + repeats * c.escalate_bits + pressure)

abbrev record_subnet :
    PowConfig → Option String → ℕ → List (String × List ℕ) → List (String × List ℕ)
record_subnet c none now m = m
record_subnet c (some subnet) now m =
    if truthy (some subnet)
    then insert subnet (prune c.window_ms now (attempts_of subnet m) ++ now ∷ []) m
    else m

abbrev is_empty : List ℕ → Bool
is_empty [] = true
is_empty (t ∷ ts) = false

abbrev pruned_value : PowConfig → ℕ → List (String × List ℕ) → List (String × List ℕ)
pruned_value c now [] = []
pruned_value c now ((k, ts) ∷ m) = (k, prune c.window_ms now ts) ∷ pruned_value c now m

-- The cleanup of a table of more than 5000 clients.
abbrev clean : PowConfig → ℕ → List (String × List ℕ) → List (String × List ℕ)
clean c now m =
    if ltb 5_000 (length m) then keep_values (λ ts. not (is_empty ts)) (pruned_value c now m) else m

unfoldable pub record_request : PowConfig → String → Option String → ℕ → Attempts → Attempts
unfolding prune
record_request c ip_hash subnet_hash now a = record {
  per_subnet = record_subnet c subnet_hash now a.per_subnet;
  per_ip = clean c now (insert ip_hash (attempts_of ip_hash a.per_ip ++ now ∷ []) a.per_ip);
  global = a.global ++ now ∷ [];
}

-- A solution, with what the crypto library says of it: whether its signature is ours for this
-- client, and the leading zero bits of its digest.
pub record Solution : Type 0 where
  pub seed : String
  pub difficulty : ℕ
  pub exp : ℕ
  pub sig : String
  pub signature_ok : Bool
  pub zero_bits : ℕ

pub data Verdict : Type 0 where
  verified : Verdict
  missing expired bad_difficulty bad_signature too_easy already_used : Verdict

-- `{ attempts; ledger }` after the call, and the verdict.
pub record Outcome : Type 0 where
  pub attempts : Attempts
  pub ledger : Ledger
  pub verdict : Verdict

abbrev burnt : Attempts → Ledger × Bool → Outcome
burnt a (l, true) = record { attempts = a; ledger = l; verdict = verified }
burnt a (l, false) = record { attempts = a; ledger = l; verdict = already_used }

abbrev stopped : Attempts → Ledger → Verdict → Outcome
stopped a l v = record { attempts = a; ledger = l; verdict = v }

-- What follows the signature: the attempt is counted, the digest is judged, the challenge burnt.
abbrev judge_work : Solution → Bool → ℕ → Attempts → Ledger → Outcome
judge_work s spend now a l =
    if ltb s.zero_bits s.difficulty
    then stopped a l too_easy
    else if spend
    then burnt a (spend_challenge s.sig s.exp now l)
    else stopped a l verified

-- `verifySolution` at `now_ms`.
unfoldable pub verify_solution :
    PowConfig → Solution → String → Option String → Bool → ℕ → Attempts → Ledger → Outcome
verify_solution c s ip_hash subnet_hash spend now_ms a l =
    if not (truthy (some s.seed))
    then stopped a l missing
    else if ltb s.exp (now_ms / 1_000)
    then stopped a l expired
    else if ltb (s.difficulty + 1) c.base_bits || ltb c.max_bits s.difficulty
    then stopped a l bad_difficulty
    else if not s.signature_ok
    then stopped a l bad_signature
    else judge_work s spend (now_ms / 1_000) (record_request c ip_hash subnet_hash now_ms a) l

-- `spendVerifiedSolution`: the burn of a solution that was verified before.
unfoldable pub spend_verified_solution : Solution → ℕ → Ledger → Ledger × Bool
unfolding spend_challenge
spend_verified_solution s now_ms l = spend_challenge s.sig s.exp (now_ms / 1_000) l
