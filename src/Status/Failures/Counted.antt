-- ===== src/Status/Failures/Counted.antt =====
-- The lines of the log leave no failure out.
use zcash_faucet.Base.{
  ℕ, ◌+◌, ◌-◌, ◌≡◌, refl, ap, ap₂, Bool, true, ◌&&◌, ◌||◌, inl, inr, Option, none, some, List, [],
  ◌∷◌, leb, ◌==◌, if◌then◌else◌, one_if, count_if, total, arith, Bool-cases,
}
use zcash_faucet.Status.Failures.{
  NodeStatusFailureKind, NodeStatusScope, timeout, http, parse, network, claim, page, same_kind,
  same_scope, PathCounts, Failures, Failure, Line, record_on_path, record_node_status_failure,
  record_all,
}

abbrev pub on_path : NodeStatusFailureKind → NodeStatusScope → Failure → Bool
on_path kind scope e = same_kind e.kind kind && same_scope e.scope scope

abbrev told : Option Line → ℕ
told none = 0
told (some line) = line.since_last

-- The failures that the lines on a path account for.
unfoldable pub said : NodeStatusFailureKind → NodeStatusScope → List Failure → Failures → ℕ
unfolding record_node_status_failure
said kind scope [] f = 0
said kind scope (e ∷ es) f =
    let (after, line) = record_node_status_failure e.kind e.scope e.now f in
    (if on_path kind scope e then told line else 0) + said kind scope es after

path_counted :
    (now : ℕ) (c : PathCounts)
    → ((record_on_path now c).0.count ≡ c.count + 1)
      × (told (record_on_path now c).1 + (record_on_path now c).0.since_last_log
          ≡ c.since_last_log + 1)
unfolding record_on_path
path_counted now c = elim (Bool-cases (c.count == 0 || leb 60_000 (now - c.last_logged_at))) [
  | inl e ↦ rw e (refl, omega arith)
  | inr e ↦ rw e (refl, omega arith)
]

same_kind→eq : (a b : NodeStatusFailureKind) → same_kind a b ≡ true → a ≡ b
same_kind→eq timeout timeout e = refl
same_kind→eq http http e = refl
same_kind→eq parse parse e = refl
same_kind→eq network network e = refl
same_kind→eq timeout http e = cc
same_kind→eq timeout parse e = cc
same_kind→eq timeout network e = cc
same_kind→eq http timeout e = cc
same_kind→eq http parse e = cc
same_kind→eq http network e = cc
same_kind→eq parse timeout e = cc
same_kind→eq parse http e = cc
same_kind→eq parse network e = cc
same_kind→eq network timeout e = cc
same_kind→eq network http e = cc
same_kind→eq network parse e = cc

same_scope→eq : (a b : NodeStatusScope) → same_scope a b ≡ true → a ≡ b
same_scope→eq claim claim e = refl
same_scope→eq page page e = refl
same_scope→eq claim page e = cc
same_scope→eq page claim e = cc

one_counted :
    (kind : NodeStatusFailureKind) (scope : NodeStatusScope) (e : Failure) (f : Failures)
    → (let r = record_node_status_failure e.kind e.scope e.now f in
        ((if on_path kind scope e then told r.1 else 0) + (r.0.paths kind scope).since_last_log
          ≡ (f.paths kind scope).since_last_log + one_if (on_path kind scope e))
        × (r.0.counts kind ≡ f.counts kind + one_if (same_kind e.kind kind)))
unfolding record_node_status_failure
one_counted kind scope e f = elim (Bool-cases (same_kind e.kind kind)) [
  | inr other ↦ rw other (omega arith, omega arith)
  | inl alike ↦ elim (Bool-cases (same_scope e.scope scope)) [
    | inr other ↦ rw alike (rw other (omega arith, omega arith))
    | inl here ↦
        let path : f.paths e.kind e.scope ≡ f.paths kind scope =
          ap₂ (λ k s. f.paths k s) (same_kind→eq e.kind kind alike)
            (same_scope→eq e.scope scope here) in
        rw alike (
          rw here (
            omega (
              arith,
              (path_counted e.now (f.paths e.kind e.scope)).1,
              ap (λ (c : PathCounts). c.since_last_log) path,
            ),
            omega arith,
          ))
  ]
]

-- Over any run of failures and for each kind and path, the lines of the log account for all that
-- were recorded but those still pending, which the next line of the path will name; and the count
-- of a kind grows by exactly its failures, on every path.
pub record_all-said :
    (kind : NodeStatusFailureKind) (scope : NodeStatusScope) (es : List Failure) (f : Failures)
    → (said kind scope es f + ((record_all es f).paths kind scope).since_last_log
        ≡ (f.paths kind scope).since_last_log + count_if (on_path kind scope) es)
      × ((record_all es f).counts kind
          ≡ f.counts kind + count_if (λ (e : Failure). same_kind e.kind kind) es)
unfolding record_all said total
record_all-said kind scope [] f = (omega arith, omega arith)
record_all-said kind scope (e ∷ es) f =
    let after = (record_node_status_failure e.kind e.scope e.now f).0 in
    let here = one_counted kind scope e f in
    let rest = record_all-said kind scope es after in
    (omega (arith, here.0, rest.0), omega (arith, here.1, rest.1))
