-- ===== src/Tests/Guards.antt =====
-- Runs of the retries at the start of the database.
use pdexplorer.Prelude.{ℕ, ◌≡◌, refl, true, some, [], ltb, if◌then◌else◌}
use pdexplorer.Prelude.Text.{codes}
use pdexplorer.Guards.SqliteRetry.{
  SqliteError, Result, returned, thrown, haystack, is_fatal_sqlite_error, is_transient_sqlite_error,
}

abbrev busy : SqliteError
busy = record {
  code = codes "SQLITE_BUSY";
  errcode = [];
  message = codes "database is locked";
  as_text = [];
}

abbrev third_time : ℕ → Result ℕ
third_time n = if ltb n 3 then thrown (some busy) else returned 7

busy_again : is_transient_sqlite_error (some busy) ≡ true
unfolding is_transient_sqlite_error is_fatal_sqlite_error haystack
busy_again = refl
