-- ===== src/Payouts/External/Source.antt =====
-- What one source's reply says of a transaction, apart from the code's reading of it, and that the
-- reading is faithful.
use zcash_faucet.Base.{
  ℕ, ◌≡◌, ◌⊎◌, refl, ap, ◌∙◌, Bool, true, false, inl, inr, String, Option, none, some, arith,
  eq_iff, eq_refl, Option-cases,
}
use zcash_faucet.Payouts.External.{
  Answer, Reply, no_answer, http_refused, not_an_object, answer, is_mined, says_missing,
  ask_one_source, is_confirmed, is_absent,
}

-- The source names the transaction that was asked about and the height at which it is mined.
abbrev pub Evidence : String → Option ℕ → Reply → Type 0
Evidence txid height (answer a) =
    (a.echoed ≡ some txid) × (a.height ≡ height) × (is_mined height ≡ true)
Evidence txid height _ = ⊥

-- The source says in so many words that it knows no such transaction.
abbrev pub Expressly : Answer → Type 0
Expressly a =
    (a.found ≡ some false)
    ⊎ ((a.status ≡ "not_found") ⊎ ((a.status ≡ "notfound") ⊎ (a.status ≡ "unknown")))

-- The answer is about this transaction, or names none, and gives no height at which it is mined.
abbrev pub Unmined : String → Answer → Type 0
Unmined txid a = (a.echoed ≡ none) ⊎ ((a.echoed ≡ some txid) × (is_mined a.height ≡ false))

-- The source denies the transaction that was asked about.
abbrev pub Denial : String → Reply → Type 0
Denial txid (answer a) = Expressly a × Unmined txid a
Denial txid _ = ⊥

pub confirmed-Evidence :
    (form : Bool) (txid org : String) (reply : Reply)
    → is_confirmed (ask_one_source form txid org reply) ≡ true
    → Evidence txid (ask_one_source form txid org reply).height reply
unfolding ask_one_source
confirmed-Evidence false txid org reply e = cc
confirmed-Evidence true txid org no_answer e = cc
confirmed-Evidence true txid org http_refused e = cc
confirmed-Evidence true txid org not_an_object e = cc
confirmed-Evidence true txid org (answer a) e = elim (Option-cases a.echoed) [
  | inl none_there ↦ ground arith
  | inr (echo, there) ↦ ground (arith, eq_iff echo txid)
]

says_missing-Expressly : (a : Answer) → says_missing a ≡ true → Expressly a
says_missing-Expressly a e = ground (
  arith,
  eq_iff a.status "not_found",
  eq_iff a.status "notfound",
  eq_iff a.status "unknown",
  Option-cases a.found,
)

Expressly-says_missing : (a : Answer) → Expressly a → says_missing a ≡ true
Expressly-says_missing a (inl unfound) = rw unfound refl
Expressly-says_missing a (inr (inl said)) = rw said (ground arith)
Expressly-says_missing a (inr (inr (inl said))) = rw said (ground arith)
Expressly-says_missing a (inr (inr (inr said))) = rw said (ground arith)

pub absent-Denial :
    (form : Bool) (txid org : String) (reply : Reply)
    → is_absent (ask_one_source form txid org reply) ≡ true
    → Denial txid reply
unfolding ask_one_source
absent-Denial false txid org reply e = cc
absent-Denial true txid org no_answer e = cc
absent-Denial true txid org http_refused e = cc
absent-Denial true txid org not_an_object e = cc
absent-Denial true txid org (answer a) e = elim (Option-cases a.echoed) [
  | inl unnamed ↦ (says_missing-Expressly a (ground (arith, unnamed, e)), inl unnamed)
  | inr (echo, named) ↦
      let same : echo ≡ txid = ground (arith, eq_iff echo txid, named, e) in
      let unmined : is_mined a.height ≡ false = ground (arith, named, e) in
      (
        says_missing-Expressly a (ground (arith, named, unmined, e)),
        inr (named ∙ ap some same, unmined),
      )
]

pub Denial-absent :
    (txid org : String) (reply : Reply)
    → Denial txid reply
    → is_absent (ask_one_source true txid org reply) ≡ true
unfolding ask_one_source
Denial-absent txid org (answer a) (said, inl unnamed) =
    rw (unnamed, Expressly-says_missing a said) refl
Denial-absent txid org (answer a) (said, inr (named, unmined)) =
    rw (named, eq_refl txid, unmined, Expressly-says_missing a said) refl
Denial-absent txid org no_answer d = absurd d
Denial-absent txid org http_refused d = absurd d
Denial-absent txid org not_an_object d = absurd d

pub Evidence-confirmed :
    (txid org : String) (h : Option ℕ) (reply : Reply)
    → Evidence txid h reply
    → is_confirmed (ask_one_source true txid org reply) ≡ true
unfolding ask_one_source
Evidence-confirmed txid org h (answer a) (echo, same, mined) =
    rw (echo, eq_refl txid, same, mined) refl
Evidence-confirmed txid org h no_answer d = absurd d
Evidence-confirmed txid org h http_refused d = absurd d
Evidence-confirmed txid org h not_an_object d = absurd d
