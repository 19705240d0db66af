-- ===== src/Indexer/Gaps.antt =====
-- lib/gap-scheduling.js: which hole of the block table the gap-fill pass repairs in a tick.
pub mod Fair
use pdexplorer.Prelude.{
  ℕ, zero, suc, ◌+◌, ◌-◌, ◌%◌, Bool, true, false, ◌&&◌, Option, none, some, List, [], ◌∷◌,
  filter_by, length, ltb, leb, ◌==◌, if◌then◌else◌,
}

-- A row of `getBlockGaps`; none is null.
pub record Gap : Type 0 where
  pub gap_start : Option ℕ
  pub gap_end : Option ℕ

abbrev default_max_gap_attempts : ℕ
default_max_gap_attempts = 5

-- `gapKey`: the text of `gapStart`, which is "null" for null.
abbrev pub gap_key : Gap → Option ℕ
gap_key g = g.gap_start

abbrev pub key_eq : Option ℕ → Option ℕ → Bool
key_eq none none = true
key_eq none (some _) = false
key_eq (some _) none = false
key_eq (some a) (some b) = a == b

-- The map of consecutive failures, as `attempts.get(key) || 0`.
abbrev pub Attempts : Type 0
Attempts = Option ℕ → ℕ

abbrev is_some : Option ℕ → Bool
is_some none = false
is_some (some _) = true

abbrev pub is_gap : Gap → Bool
is_gap g = is_some g.gap_start && is_some g.gap_end

abbrev pub is_live : Attempts → ℕ → Gap → Bool
is_live attempts max_attempts g = ltb (attempts (gap_key g)) max_attempts

pub last_or : Gap → List Gap → Gap
last_or g [] = g
last_or g (h ∷ hs) = last_or h hs

unfoldable pub choose_gap : List Gap → Attempts → ℕ → ℕ → Option Gap
unfolding last_or
choose_gap gaps attempts tick max_attempts =
    elim (filter_by (is_live attempts max_attempts) (filter_by is_gap gaps)) [
      | [] ↦ none
      | g ∷ gs ↦ some (if tick % 2 == 0 then g else last_or g gs)
    ]

abbrev pub set_attempts : Attempts → Option ℕ → ℕ → Attempts
set_attempts attempts key n k = if key_eq k key then n else attempts k

-- `recordAttempt`: progress forgets the failures of a gap.
unfoldable pub record_attempt : Attempts → Option Gap → ℕ → Attempts
record_attempt attempts none filled = attempts
record_attempt attempts (some g) filled =
    if ltb 0 filled
    then set_attempts attempts (gap_key g) 0
    else set_attempts attempts (gap_key g) (attempts (gap_key g) + 1)

-- `lastResetAt || 0`
unfoldable pub should_retire : Option ℕ → ℕ → ℕ → Bool
should_retire none now cooldown_ms = leb cooldown_ms now
should_retire (some last_reset_at) now cooldown_ms = leb (last_reset_at + cooldown_ms) now

unfoldable pub exhausted_gap_count : List Gap → Attempts → ℕ → ℕ
exhausted_gap_count gaps attempts max_attempts =
    length (filter_by (λ g. is_some g.gap_start && leb max_attempts (attempts (gap_key g))) gaps)
