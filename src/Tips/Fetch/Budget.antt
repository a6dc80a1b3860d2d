-- ===== src/Tips/Fetch/Budget.antt =====
-- The time that the servers are given: never more than the total, and a fair share for each.
use native.Mathlib.Decide.{dec_le}
use native.Mathlib.Nat.{le-div_iff_mul-le, mul-le-mul_right, div-mul-le_self}
use zcash_faucet.Base.{
  ℕ, ◌+◌, ◌-◌, ◌*◌, ◌≤◌, ◌<◌, ◌≡◌, refl, true, false, inl, inr, String, List, [], ◌∷◌, ◌++◌, length,
  leb, arith, Option-cases,
}
use zcash_faucet.Base.Map.{is_some}
use zcash_faucet.Tips.Fetch.{Dial, share_of, positive, ask_legs, fetch_direct_tip}

-- The client gives up on a server by its deadline.
abbrev pub IsTimely : Dial → Type 0
IsTimely dial = (leg : String) (timeout now : ℕ) → (dial leg timeout now).1 ≤ timeout

share_of_times : (n k : ℕ) → share_of n k * (k + 1) ≤ n + k
share_of_times n k = div-mul-le_self (n + k) (k + 1)

share-le : (n k : ℕ) → share_of n k ≤ n
share-le n k = elim (dec_le 1 (share_of n k)) [
  | yes some_time ↦
      omega (arith, share_of_times n k, mul-le-mul_right {m = 1} {n = share_of n k} k some_time)
  | no none_left ↦ omega arith
]

-- What one share leaves is as much for each leg behind it.
share_leaves : (q k n : ℕ) → q * (k + 1) ≤ n → q * k ≤ n - share_of n k
share_leaves q k n h = elim (dec_le (share_of n k) q) [
  | yes small ↦ omega arith
  | no large ↦
      omega
        (arith, share_of_times n k, mul-le-mul_right {m = q + 1} {n = share_of n k} k (omega arith))
]

share_least : (q k n : ℕ) → q * (k + 1) ≤ n → q ≤ share_of n k
share_least q k n h =
    (le-div_iff_mul-le {k = k + 1} {x = q} {y = n + k} (omega arith)).1 (omega arith)

ask_legs_time :
    (dial : Dial) (ends_at : ℕ) (legs : List String) (now : ℕ)
    → IsTimely dial
    → now ≤ ends_at
    → (ask_legs dial ends_at legs now).1 ≤ ends_at
unfolding ask_legs
ask_legs_time dial ends_at [] now t le = le
ask_legs_time dial ends_at (leg ∷ legs) now t le =
    let took : ℕ = (dial leg (share_of (ends_at - now) (length legs)) now).1 in
    ground (
      arith,
      t leg (share_of (ends_at - now) (length legs)) now,
      share-le (ends_at - now) (length legs),
      Option-cases (positive (dial leg (share_of (ends_at - now) (length legs)) now).0),
      ask_legs_time dial ends_at legs (now + took) t,
    )

-- However the servers hang, the fetch ends within its budget.
pub fetch_direct_tip_time :
    (dial : Dial) (total_ms : ℕ) (legs : List String) (now : ℕ)
    → IsTimely dial
    → (fetch_direct_tip dial total_ms legs now).1 ≤ now + total_ms
fetch_direct_tip_time dial total_ms legs now t =
    ask_legs_time dial (now + total_ms) legs now t (omega arith)

-- The server answers a height whenever it is given this many milliseconds.
abbrev pub Answers : Dial → ℕ → String → Type 0
Answers dial q leg =
    (timeout now : ℕ) → q ≤ timeout → is_some (positive (dial leg timeout now).0) ≡ true

open_still : (ends_at now q n : ℕ) → 1 ≤ q → q * (n + 1) ≤ ends_at - now → leb ends_at now ≡ false
open_still ends_at now q n h fits = lt→leb_not ends_at now (omega arith)
  where
    lt→leb_not : (a b : ℕ) → b < a → leb a b ≡ false
    lt→leb_not a b lt = ground arith

ask_legs_answer :
    (dial : Dial) (ends_at q : ℕ) (legs behind : List String) (leg : String) (now : ℕ)
    → IsTimely dial
    → Answers dial q leg
    → 1 ≤ q
    → q * length (legs ++ (leg ∷ behind)) ≤ ends_at - now
    → is_some ((ask_legs dial ends_at (legs ++ (leg ∷ behind)) now).0) ≡ true
unfolding ask_legs
ask_legs_answer dial ends_at q [] behind leg now t answers h fits =
    let share : ℕ = share_of (ends_at - now) (length behind) in
    let said : is_some (positive (dial leg share now).0) ≡ true =
      answers share now (share_least q (length behind) (ends_at - now) (omega arith)) in
    rw (open_still ends_at now q (length behind) h (omega arith))
      (elim (Option-cases (positive (dial leg share now).0)) [
        | inl e ↦ cc
        | inr (height, e) ↦ rw e refl
      ])
ask_legs_answer dial ends_at q (l ∷ legs) behind leg now t answers h fits =
    let n : ℕ = length (legs ++ (leg ∷ behind)) in
    let share : ℕ = share_of (ends_at - now) n in
    let took : ℕ = (dial l share now).1 in
    let left : q * n ≤ ends_at - (now + took) =
      omega (arith, t l share now, share_leaves q n (ends_at - now) (omega arith)) in
    rw (open_still ends_at now q n h (omega arith))
      (elim (Option-cases (positive (dial l share now).0)) [
        | inl e ↦
            rw e (ask_legs_answer dial ends_at q legs behind leg (now + took) t answers h left)
        | inr (height, e) ↦ rw e refl
      ])

-- If the dials keep their deadlines, one of the servers answers whenever it is given q ms, and the
-- total is q ms for each server, then the fetch has an answer, whatever the servers before it do:
-- a server that hangs spends its own share and no other's.
pub fetch_direct_tip-answer :
    (dial : Dial) (total_ms q : ℕ) (legs behind : List String) (leg : String) (now : ℕ)
    → IsTimely dial
    → Answers dial q leg
    → 1 ≤ q
    → q * length (legs ++ (leg ∷ behind)) ≤ total_ms
    → is_some ((fetch_direct_tip dial total_ms (legs ++ (leg ∷ behind)) now).0) ≡ true
fetch_direct_tip-answer dial total_ms q legs behind leg now t answers h fits =
    ask_legs_answer dial (now + total_ms) q legs behind leg now t answers h (omega arith)
