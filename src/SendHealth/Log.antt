-- ===== src/SendHealth/Log.antt =====
-- Trimming the log on every write changes no later verdict, and bounds the log by the window.
use zcash_faucet.Base.{ℕ, ◌+◌, ◌≤◌, ◌≡◌, refl, Bool, some, List, [], ◌∷◌, ◌++◌, arith, All, keep}
use zcash_faucet.Network.{Network}
use zcash_faucet.SendHealth.{SendRecord, SendOutcome, is_live, read_send_health, trim, record_send}

keep-trim :
    (window now later : ℕ) (n : Network) (rs : List SendRecord)
    → now ≤ later
    → keep (is_live window later n) (trim window now rs) ≡ keep (is_live window later n) rs
unfolding trim
keep-trim window now later n [] h = refl
keep-trim window now later n (r ∷ rs) h = ground (arith, keep-trim window now later n rs)

-- The log with the new record and without the trimmed ones gives, at any later time and for any
-- network, the verdict of the whole log with the new record.
pub read_send_health-record_send :
    (window now later : ℕ) (o : SendOutcome) (paid n : Network) (lost : Bool)
    (log : List SendRecord)
    → now ≤ later
    → read_send_health window later (record_send window o paid now lost log) n
      ≡ read_send_health window later
          (log ++ record { outcome = o; at = now; network = some paid; unanswered = lost } ∷ [])
          n
unfolding read_send_health record_send
read_send_health-record_send window now later o paid n lost log h = rw (
    keep-trim window now later n
      (log ++ record { outcome = o; at = now; network = some paid; unanswered = lost } ∷ []) h)

-- Oldest first.
abbrev pub IsOrdered : ℕ → List SendRecord → Type 0
IsOrdered t [] = Unit
IsOrdered t (r ∷ rs) = (t ≤ r.at) × IsOrdered r.at rs

ordered-recent :
    (window now t : ℕ) (rs : List SendRecord)
    → now ≤ t + window
    → IsOrdered t rs
    → All (λ r. now ≤ r.at + window) rs
ordered-recent window now t [] h o = tt
ordered-recent window now t (r ∷ rs) h (le, o) =
    (omega arith, ordered-recent window now r.at rs (omega arith) o)

trim-recent :
    (window now t : ℕ) (rs : List SendRecord)
    → IsOrdered t rs
    → All (λ r. now ≤ r.at + window) (trim window now rs)
unfolding trim
trim-recent window now t [] o = tt
trim-recent window now t (r ∷ rs) (le, o) =
    ground (arith, trim-recent window now r.at rs o, ordered-recent window now r.at rs)

IsOrdered-snoc :
    (t now : ℕ) (rs : List SendRecord) (r : SendRecord)
    → IsOrdered t rs
    → All (λ s. s.at ≤ now) rs
    → t ≤ now
    → r.at ≡ now
    → IsOrdered t (rs ++ r ∷ [])
IsOrdered-snoc t now [] r o h le e = omega arith
IsOrdered-snoc t now (s ∷ rs) r (a, o) (b, h) le e = (a, IsOrdered-snoc s.at now rs r o h b e)

-- After a write, the log of a clock that does not go back holds nothing older than the window.
pub record_send-recent :
    (window now : ℕ) (o : SendOutcome) (paid : Network) (lost : Bool) (log : List SendRecord)
    → IsOrdered 0 log
    → All (λ r. r.at ≤ now) log
    → All (λ r. now ≤ r.at + window) (record_send window o paid now lost log)
unfolding record_send
record_send-recent window now o paid lost log ordered past =
    trim-recent window now 0 _ (IsOrdered-snoc 0 now log _ ordered past (omega arith) refl)
