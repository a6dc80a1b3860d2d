-- ===== src/Payouts/External.antt =====
-- src/lib/zcash/payoutExternal.ts: did others see a payout? The reply of a source is a parameter:
-- how the request ended, with the fields of a JSON object already read by their types. Transaction
-- ids are in lower case.
pub mod Agreement
pub mod Source
use zcash_faucet.Base.{
  ℕ, zero, suc, Bool, true, false, ◌&&◌, ◌||◌, String, Option, none, some, List, [], ◌∷◌, length,
  any, keep, ltb, leb, ◌==◌, if◌then◌else◌, str_eq, map,
}

pub data ExternalState : Type 0 where
  confirmed absent cannot_verify : ExternalState

pub record ExternalSighting : Type 0 where
  pub state : ExternalState
  pub height : Option ℕ
  pub source : String

-- The fields of an answer: `txid` or else `hash`, `blockHeight` or else `height`, `found` when it
-- is a Boolean, and `status` in lower case, empty when it is no text.
pub record Answer : Type 0 where
  pub echoed : Option String
  pub height : Option ℕ
  pub found : Option Bool
  pub status : String

-- How a request ends: no answer, a status other than success, a body that is not a JSON object, or
-- one.
pub data Reply : Type 0 where
  no_answer http_refused not_an_object : Reply
  answer : Answer → Reply

unverifiable : String → ExternalSighting
unverifiable org = record { state = cannot_verify; height = none; source = org }

abbrev pub is_mined : Option ℕ → Bool
is_mined none = false
is_mined (some h) = ltb 0 h

abbrev says_missing : Answer → Bool
says_missing a =
    (elim a.found [ none ↦ false | some found ↦ elim found [ true ↦ false | false ↦ true ] ])
    || (str_eq a.status "not_found" || (str_eq a.status "notfound" || str_eq a.status "unknown"))

abbrev judge_missing : String → Answer → ExternalSighting
judge_missing org a =
    if says_missing a
    then record { state = absent; height = none; source = org }
    else unverifiable org

abbrev judge : String → String → Answer → ExternalSighting
judge txid org a = elim a.echoed [
  | none ↦ judge_missing org a
  | some echo ↦
      if str_eq echo txid
      then (if is_mined a.height
          then record { state = confirmed; height = a.height; source = org }
          else judge_missing org a)
      else unverifiable org
]

-- `askOneSource` behind its fetch; the flag says whether the id has the form of one.
unfoldable pub ask_one_source : Bool → String → String → Reply → ExternalSighting
unfolding unverifiable
ask_one_source false txid org reply = unverifiable org
ask_one_source true txid org (answer a) = judge txid org a
ask_one_source true txid org _ = unverifiable org

pub record ExternalVerdict : Type 0 where
  pub state : ExternalState
  pub height : Option ℕ

abbrev pub is_confirmed : ExternalSighting → Bool
is_confirmed s = elim s.state [ confirmed ↦ true | absent ↦ false | cannot_verify ↦ false ]

abbrev pub is_absent : ExternalSighting → Bool
is_absent s = elim s.state [ confirmed ↦ false | absent ↦ true | cannot_verify ↦ false ]

abbrev pub same_height : Option ℕ → Option ℕ → Bool
same_height none none = true
same_height (some a) (some b) = a == b
same_height _ _ = false

-- `heights.size > 1`: some height differs from the first.
abbrev pub disagree : List ExternalSighting → Bool
disagree [] = false
disagree (s ∷ rest) =
    any (λ t. elim (same_height s.height t.height) [ true ↦ false | false ↦ true ]) rest

abbrev unsettled : ExternalVerdict
unsettled = record { state = cannot_verify; height = none }

abbrev settle : List ExternalSighting → ℕ → ℕ → ExternalVerdict
settle (s ∷ rest) zero asked =
    if disagree (s ∷ rest) then unsettled else record { state = confirmed; height = s.height }
settle (s ∷ rest) (suc n) asked = unsettled
settle [] absent_count asked =
    if leb 2 absent_count && (absent_count == asked)
    then record { state = absent; height = none }
    else unsettled

-- `confirmExternally` behind its requests.
unfoldable pub confirm_externally : List ExternalSighting → ExternalVerdict
confirm_externally sightings =
    settle (keep is_confirmed sightings) (length (keep is_absent sightings)) (length sightings)

-- `Promise.all` over the sources, by their organisations and replies.
abbrev pub ask_all : Bool → String → List (String × Reply) → List ExternalSighting
ask_all form txid [] = []
ask_all form txid ((org, reply) ∷ rest) =
    ask_one_source form txid org reply ∷ ask_all form txid rest
