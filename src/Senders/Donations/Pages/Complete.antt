-- ===== src/Senders/Donations/Pages/Complete.antt =====
-- What is tallied of a history.
use zcash_faucet.Base.{
  ℕ, zero, suc, ◌+◌, ◌*◌, ◌≤◌, ◌<◌, ◌≡◌, refl, sym, ap, subst, ◌∙◌, Bool, true, false, inl, inr,
  Option, none, some, List, [], ◌∷◌, ◌++◌, length, ltb, arith, Bool-cases, ltb→lt, if◌then◌else◌,
}
use zcash_faucet.Senders.Donations.{WalletTx, DonationTally, tally_donations}
use zcash_faucet.Senders.Donations.Pages.{
  Batch, rows, donation_page, donation_max_pages, behind, read_page, read_pages, tallied, donations,
}

module _ {A : Type 0} where
  abbrev pub take : ℕ → List A → List A
  take zero xs = []
  take (suc n) [] = []
  take (suc n) (x ∷ xs) = x ∷ take n xs

  abbrev pub drop : ℕ → List A → List A
  drop zero xs = xs
  drop (suc n) [] = []
  drop (suc n) (x ∷ xs) = drop n xs

  take-short : (n : ℕ) (xs : List A) → length (take n xs) < n → take n xs ≡ xs
  take-short zero xs lt = ground (arith, lt)
  take-short (suc n) [] lt = refl
  take-short (suc n) (x ∷ xs) lt = ap (λ ys. x ∷ ys) (take-short n xs (omega (arith, lt)))

  length-take-le : (n : ℕ) (xs : List A) → length (take n xs) ≤ n
  length-take-le zero xs = omega arith
  length-take-le (suc n) [] = omega arith
  length-take-le (suc n) (x ∷ xs) = omega (arith, length-take-le n xs)

  take-drop : (n : ℕ) (xs : List A) → take n xs ++ drop n xs ≡ xs
  take-drop zero xs = refl
  take-drop (suc n) [] = refl
  take-drop (suc n) (x ∷ xs) = ap (λ ys. x ∷ ys) (take-drop n xs)

  abbrev nothing : List A
  nothing = []

  drop-nil : (n : ℕ) → drop n nothing ≡ []
  drop-nil zero = refl
  drop-nil (suc n) = refl

  drop-drop : (m n : ℕ) (xs : List A) → drop n (drop m xs) ≡ drop (m + n) xs
  drop-drop zero n xs = ap (λ k. drop k xs) (omega arith)
  drop-drop (suc m) n [] = drop-nil n ∙ sym (drop-nil (suc m + n))
  drop-drop (suc m) n (x ∷ xs) =
      let same : suc (m + n) ≡ suc m + n = omega arith in
      drop-drop m n xs ∙ ap (λ k. drop k (x ∷ xs)) same

  append_assoc : (xs ys zs : List A) → (xs ++ ys) ++ zs ≡ xs ++ (ys ++ zs)
  append_assoc [] ys zs = refl
  append_assoc (x ∷ xs) ys zs = ap (λ l. x ∷ l) (append_assoc xs ys zs)

  length-append : (xs ys : List A) → length (xs ++ ys) ≡ length xs + length ys
  length-append [] ys = omega arith
  length-append (x ∷ xs) ys = omega (arith, length-append xs ys)

-- The wallet holds the history and answers at an offset with the rows from there on, to a limit.
abbrev pub IsHistory : (ℕ → ℕ → Batch) → List WalletTx → Type 0
IsHistory list h = (offset limit : ℕ) → list offset limit ≡ rows (take limit (drop offset h))

-- What has been read of a history, beside whether it is complete: all of it, or the first
-- transactions up to the limit.
abbrev IsRead : List WalletTx → ℕ → Option (List WalletTx × Bool) → Type 0
IsRead h limit none = true ≡ false
IsRead h limit (some (txs, true)) = (txs ≡ h) × (length h < limit)
IsRead h limit (some (txs, false)) =
    (rest : List WalletTx) × (txs ++ rest ≡ h) × (length txs ≡ limit)

length-split : (p : ℕ) (h : List WalletTx) → length h ≡ length (take p h) + length (drop p h)
length-split p h = ap length (sym (take-drop p h)) ∙ length-append (take p h) (drop p h)

behind-IsRead :
    (p : ℕ) (h : List WalletTx) (limit : ℕ) (later : Option (List WalletTx × Bool))
    → length (take p h) ≡ p
    → IsRead (drop p h) limit later
    → IsRead h (limit + p) (behind (take p h) later)
behind-IsRead p h limit none full r = r
behind-IsRead p h limit (some (txs, true)) full (same, lt) =
    (ap (λ l. take p h ++ l) same ∙ take-drop p h, omega (arith, length-split p h, full, lt))
behind-IsRead p h limit (some (txs, false)) full (rest, same, long) = (
  rest,
  append_assoc (take p h) txs rest ∙ ap (λ l. take p h ++ l) same ∙ take-drop p h,
  omega (arith, length-append (take p h) txs, full, long),
)

page_next :
    (page : ℕ) (h : List WalletTx) → drop 500 (drop (page * 500) h) ≡ drop ((page + 1) * 500) h
page_next page h =
    let same : page * 500 + 500 ≡ (page + 1) * 500 = omega arith in
    drop-drop (page * 500) 500 h ∙ ap (λ k. drop k h) same

one_page :
    (p : ℕ) (ys : List WalletTx) (limit : ℕ) (later : Option (List WalletTx × Bool))
    → IsRead (drop p ys) limit later
    → IsRead ys
        (limit + p)
        (if ltb (length (take p ys)) p then some (take p ys, true) else behind (take p ys) later)
one_page p ys limit later r = elim (Bool-cases (ltb (length (take p ys)) p)) [
  | inl e ↦
      let short = take-short p ys (ltb→lt (length (take p ys)) p e) in
      rw e (short, omega (arith, ap length short, ltb→lt (length (take p ys)) p e))
  | inr e ↦ rw e (behind-IsRead p ys limit later (ground (arith, e, length-take-le p ys)) r)
]

read_pages-IsRead :
    (list : ℕ → ℕ → Batch) (h : List WalletTx) (left page : ℕ)
    → IsHistory list h
    → IsRead (drop (page * donation_page) h) (left * donation_page) (read_pages list left page)
unfolding read_pages
read_pages-IsRead list h zero page held = (drop (page * donation_page) h, refl, omega arith)
read_pages-IsRead list h (suc left) page held =
    let ys : List WalletTx = drop (page * donation_page) h in
    let later = read_pages list left (page + 1) in
    let rest : IsRead (drop donation_page ys) (left * donation_page) later =
      rw (page_next page h) (read_pages-IsRead list h left (page + 1) held) in
    let more : suc left * donation_page ≡ left * donation_page + donation_page = omega arith in
    subst (λ b. IsRead ys (suc left * donation_page) (read_page b later))
      (sym (held (page * donation_page) donation_page))
      (subst (λ k. IsRead ys k (read_page (rows (take donation_page ys)) later)) (sym more)
        (one_page donation_page ys (left * donation_page) later rest))

-- The tally of a history beside whether it is complete, as `donations` gives it: of all of it when
-- it is shorter than the cap, else of as many transactions as the cap, from its start on.
abbrev pub IsTallied : List WalletTx → Option (DonationTally × Bool) → Type 0
IsTallied h none = true ≡ false
IsTallied h (some (t, true)) =
    (t ≡ tally_donations h) × (length h < donation_max_pages * donation_page)
IsTallied h (some (t, false)) =
    (txs rest : List WalletTx) × (txs ++ rest ≡ h)
    × (length txs ≡ donation_max_pages * donation_page)
    × (t ≡ tally_donations txs)

tallied-IsTallied :
    (h : List WalletTx) (read : Option (List WalletTx × Bool))
    → IsRead h (donation_max_pages * donation_page) read
    → IsTallied h (tallied read)
tallied-IsTallied h none r = r
tallied-IsTallied h (some (txs, true)) (same, lt) = (ap tally_donations same, lt)
tallied-IsTallied h (some (txs, false)) (rest, same, long) = (txs, rest, same, long, refl)

-- From a wallet that answers every page of a history, `donations` gives a tally: marked complete,
-- it is that of the whole history, which is shorter than the cap of pages; marked incomplete, it
-- is that of the first transactions, as many as the cap.
pub donations-IsTallied :
    (list : ℕ → ℕ → Batch) (h : List WalletTx) → IsHistory list h → IsTallied h (donations list)
unfolding donations
donations-IsTallied list h held =
    tallied-IsTallied h (read_pages list donation_max_pages 0)
      (read_pages-IsRead list h donation_max_pages 0 held)
