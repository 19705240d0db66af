-- ===== src/Guards/RateLimit.antt =====
-- lib/rate-limit.js: the sliding window. Times are milliseconds.
pub mod Window
use pdexplorer.Prelude.{
  ℕ, ◌+◌, ◌-◌, ◌/◌, min, max, Bool, true, false, Option, none, some, List, [], ◌∷◌, ◌++◌, length,
  ltb, leb, filter_by, if◌then◌else◌,
}

-- `t > now - windowMs`
abbrev pub recent : ℕ → ℕ → ℕ → Bool
recent window_ms now t = ltb now (t + window_ms)

-- `Math.min(...kept)`, where none is Infinity.
unfoldable pub oldest : List ℕ → Option ℕ
oldest [] = none
oldest (t ∷ ts) = elim (oldest ts) [ none ↦ some t | some u ↦ some (min t u) ]

-- `retry_after_ms` is none for Infinity.
pub record Verdict : Type 0 where
  pub allowed : Bool
  pub remaining : ℕ
  pub retry_after_ms : Option ℕ
  pub kept : List ℕ

abbrev pub retry_after : ℕ → ℕ → Option ℕ → Option ℕ
retry_after window_ms now none = none
retry_after window_ms now (some t) = some (t + window_ms - now)

unfoldable pub check_window : List ℕ → ℕ → ℕ → ℕ → Verdict
check_window hits now window_ms limit =
    let kept = filter_by (recent window_ms now) hits in
    if leb limit (length kept)
    then record {
      allowed = false;
      remaining = 0;
      retry_after_ms = retry_after window_ms now (oldest kept);
      kept = kept;
    }
    else record {
      allowed = true;
      remaining = limit - (length kept + 1);
      retry_after_ms = some 0;
      kept = kept ++ now ∷ [];
    }

-- `Number(workers) || 1` for a number of workers.
unfoldable pub per_worker_limit : ℕ → ℕ → ℕ
per_worker_limit advertised_limit workers = max 1 (advertised_limit / max 1 workers)
