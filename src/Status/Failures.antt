-- ===== src/Status/Failures.antt =====
-- src/lib/zcash/nodeStatusFailure.ts: the failed reads of the node's status, counted and said once
-- a minute for each kind and purpose, and the times of the reads in buckets. Times are milliseconds.
pub mod Counted
use zcash_faucet.Base.{
  ℕ, zero, suc, ◌+◌, ◌-◌, ◌/◌, max, min, Bool, true, false, not, ◌&&◌, ◌||◌, String, Option, none,
  some, List, [], ◌∷◌, leb, ltb, ◌==◌, if◌then◌else◌, str_eq,
}

pub data NodeStatusFailureKind : Type 0 where
  timeout http parse network : NodeStatusFailureKind

pub data NodeStatusScope : Type 0 where
  claim page : NodeStatusScope

-- `classifyNodeStatusError`, by the error's name.
unfoldable pub classify_node_status_error : String → NodeStatusFailureKind
classify_node_status_error name =
    if str_eq name "TimeoutError" || str_eq name "AbortError"
    then timeout
    else if str_eq name "SyntaxError"
    then parse
    else network

abbrev pub same_kind : NodeStatusFailureKind → NodeStatusFailureKind → Bool
same_kind timeout timeout = true
same_kind http http = true
same_kind parse parse = true
same_kind network network = true
same_kind _ _ = false

abbrev pub same_scope : NodeStatusScope → NodeStatusScope → Bool
same_scope claim claim = true
same_scope page page = true
same_scope _ _ = false

abbrev pub throttle_ms : ℕ
throttle_ms = 60_000

-- What is kept under the key of a kind and a scope: 0 stands for a key that is not there.
pub record PathCounts : Type 0 where
  pub last_logged_at : ℕ
  pub since_last_log : ℕ
  pub count : ℕ

-- The module's tables: `counts`, and those under a key.
pub record Failures : Type 0 where
  pub counts : NodeStatusFailureKind → ℕ
  pub paths : NodeStatusFailureKind → NodeStatusScope → PathCounts

-- `resetNodeStatusFailures`, and a process that has just started.
abbrev pub no_failures : Failures
no_failures = record {
  counts = λ kind. 0;
  paths = λ kind scope. record { last_logged_at = 0; since_last_log = 0; count = 0 };
}

-- A line of the log: the failures since the last one, and since the start on this path.
pub record Line : Type 0 where
  pub first : Bool
  pub since_last : ℕ
  pub since_start : ℕ

-- `recordNodeStatusFailure` under its own key.
unfoldable pub record_on_path : ℕ → PathCounts → PathCounts × Option Line
record_on_path now c =
    let first : Bool = c.count == 0 in
    if first || leb throttle_ms (now - c.last_logged_at)
    then (
      record { last_logged_at = now; since_last_log = 0; count = c.count + 1 },
      some (record { first = first; since_last = c.since_last_log + 1; since_start = c.count + 1 }),
    )
    else (record c { since_last_log = c.since_last_log + 1; count = c.count + 1 }, none)

unfoldable pub record_node_status_failure :
    NodeStatusFailureKind → NodeStatusScope → ℕ → Failures → Failures × Option Line
unfolding record_on_path
record_node_status_failure kind scope now f =
    let (path, line) = record_on_path now (f.paths kind scope) in
    (
      record {
        counts = λ k. if same_kind kind k then f.counts k + 1 else f.counts k;
        paths = λ k s. if same_kind kind k && same_scope scope s then path else f.paths k s;
      },
      line,
    )

-- A failure of a kind on a path at a time.
pub record Failure : Type 0 where
  pub kind : NodeStatusFailureKind
  pub scope : NodeStatusScope
  pub now : ℕ

unfoldable pub record_all : List Failure → Failures → Failures
unfolding record_node_status_failure
record_all [] f = f
record_all (e ∷ es) f = record_all es (record_node_status_failure e.kind e.scope e.now f).0
