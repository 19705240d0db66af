-- ===== src/Guards/SqliteRetry.antt =====
-- lib/sqlite-errors.js: which failures of SQLite are tried again, and how often.
pub mod Attempts
use pdexplorer.Prelude.{
  ℕ, zero, suc, ◌+◌, ◌*◌, ◌^◌, ◌-◌, min, Bool, true, false, not, ◌&&◌, ◌||◌, Option, none, some,
  List, [], ◌∷◌, ◌++◌, any, ◌==◌, if◌then◌else◌,
}
use pdexplorer.Prelude.Text.{Text, codes, includes, is_empty}

-- An error as the code reads it: its fields as texts, which are empty where they are missing, and
-- `String(err)`.
pub record SqliteError : Type 0 where
  pub code : Text
  pub errcode : Text
  pub message : Text
  pub as_text : Text

abbrev pub transient : List Text
transient =
    codes "SQLITE_BUSY"
    ∷ codes "SQLITE_LOCKED"
    ∷ codes "SQLITE_PROTOCOL"
    ∷ codes "SQLITE_INTERRUPT"
    ∷ codes "database is locked"
    ∷ codes "database table is locked"
    ∷ codes "cannot start a transaction within a transaction"
    ∷ []

abbrev pub fatal : List Text
fatal =
    codes "SQLITE_CORRUPT"
    ∷ codes "SQLITE_NOTADB"
    ∷ codes "SQLITE_CANTOPEN"
    ∷ codes "SQLITE_READONLY"
    ∷ codes "SQLITE_FULL"
    ∷ codes "SQLITE_IOERR"
    ∷ codes "SQLITE_PERM"
    ∷ codes "EACCES"
    ∷ codes "ENOENT"
    ∷ codes "ENOSPC"
    ∷ []

abbrev or_else : Text → Text → Text
or_else s t = if is_empty s then t else s

unfoldable pub haystack : Option SqliteError → Text
haystack none = []
haystack (some e) = e.code ++ b' ' ∷ (e.errcode ++ b' ' ∷ or_else e.message e.as_text)

unfoldable pub is_fatal_sqlite_error : Option SqliteError → Bool
is_fatal_sqlite_error err = any (includes (haystack err)) fatal

unfoldable pub is_transient_sqlite_error : Option SqliteError → Bool
is_transient_sqlite_error none = false
is_transient_sqlite_error (some e) =
    if is_fatal_sqlite_error (some e) then false else any (includes (haystack (some e))) transient

-- What one call of the function does, by the number of the attempt.
pub data Result (A : Type 0) : Type 0 where
  returned : A → Result A
  thrown : Option SqliteError → Result A

-- The outcome, and the delays slept through. `undefined_thrown` is the last line, with no attempt made.
pub data Outcome (A : Type 0) : Type 0 where
  done : A → Outcome A
  failed : Option SqliteError → Outcome A
  undefined_thrown : Outcome A

pub record Run (A : Type 0) : Type 0 where
  pub outcome : Outcome A
  pub sleeps : List ℕ

module _ {A : Type 0} (retryable : Option SqliteError → Bool) (base_delay_ms max_delay_ms : ℕ)
    (attempt : ℕ → Result A) where
  abbrev pub delay : ℕ → ℕ
  delay i = min (base_delay_ms * 2 ^ (i - 1)) max_delay_ms

  -- The loop from attempt `i` on, with `left` attempts left.
  unfoldable pub retry_loop : ℕ → ℕ → List ℕ → Run A
  retry_loop zero i sleeps = record { outcome = undefined_thrown; sleeps = sleeps }
  retry_loop (suc left) i sleeps = elim (attempt i) [
    | returned a ↦ record { outcome = done a; sleeps = sleeps }
    | thrown e ↦ elim (not (retryable e) || left == 0) [
      | true ↦ record { outcome = failed e; sleeps = sleeps }
      | false ↦ retry_loop left (i + 1) (sleeps ++ delay i ∷ [])
    ]
  ]

unfoldable pub retry_transient : {A : Type 0} → ℕ → ℕ → ℕ → (ℕ → Result A) → Run A
retry_transient attempts base_delay_ms max_delay_ms attempt =
    retry_loop is_transient_sqlite_error base_delay_ms max_delay_ms attempt attempts 1 []
