-- ===== src/Indexer/ScanQueue/Rows.antt =====
-- The rows of `scan_failures` by their primary key, and its uniqueness.

use pdexplorer.Prelude.{
  ℕ, ◌≡◌, refl, inl, inr, Bool, true, false, ◌&&◌, Option, none, some, List, [], ◌∷◌, String,
  str_eq, eq_iff, ◌==◌, arith, Bool-cases, if◌then◌else◌, ap, ◌∙◌,
}
use pdexplorer.Indexer.ScanQueue.{
  Failure, has_key, row_at, upsert, update_where, clear_scan_failure,
}

-- No two rows have one key.
abbrev pub IsKeyed : List Failure → Type 0
IsKeyed [] = Unit
IsKeyed (r ∷ rs) = (row_at r.indexer r.block rs ≡ none) × IsKeyed rs

-- An update that leaves the key alone.
abbrev pub KeepsKey : (Failure → Failure) → Type 0
KeepsKey change = (r : Failure) → ((change r).indexer ≡ r.indexer) × ((change r).block ≡ r.block)

pub has_key-eq :
    (i : String) (b : ℕ) (r : Failure) → has_key i b r ≡ true → (r.indexer ≡ i) × (r.block ≡ b)
has_key-eq i b r h = ground (arith, eq_iff r.indexer i)

pub has_key_self : (r : Failure) → has_key r.indexer r.block r ≡ true
has_key_self r = ground (arith, eq_iff r.indexer r.indexer)

-- One row decides for two keys as the keys are equal or not.
has_key_trans :
    (i j : String) (b c : ℕ) (r : Failure)
    → has_key i b r ≡ true
    → has_key j c r ≡ (str_eq i j && (b == c))
has_key_trans i j b c r h = ground (arith, eq_iff r.indexer i, eq_iff r.indexer j, eq_iff i j)

has_key-change :
    (change : Failure → Failure) (i : String) (b : ℕ) (r : Failure)
    → KeepsKey change
    → has_key i b (change r) ≡ has_key i b r
has_key-change change i b r keeps = rw ((keeps r).0, (keeps r).1)

-- What an upsert leaves at a key: the update of the row there, or the new row.
abbrev pub upserted : Failure → (Failure → Failure) → Option Failure → Option Failure
upserted new change none = some new
upserted new change (some r) = some (change r)

pub row_at-upsert :
    (new : Failure) (change : Failure → Failure) (i : String) (b : ℕ) (table : List Failure)
    → KeepsKey change
    → row_at i b (upsert new change table) ≡ (
        if str_eq new.indexer i && (new.block == b)
        then upserted new change (row_at i b table)
        else row_at i b table)
unfolding row_at upsert
row_at-upsert new change i b [] keeps = ground arith
row_at-upsert new change i b (r ∷ rs) keeps = elim (Bool-cases (has_key new.indexer new.block r)) [
  | inl e ↦
      ground
        (arith, e, has_key-change change i b r keeps, has_key_trans new.indexer i new.block b r e)
  | inr e ↦ ground (
    arith,
    e,
    row_at-upsert new change i b rs keeps,
    eq_iff r.indexer i,
    eq_iff r.indexer new.indexer,
    eq_iff new.indexer i,
  )
]

pub upsert-IsKeyed :
    (new : Failure) (change : Failure → Failure) (table : List Failure)
    → KeepsKey change
    → IsKeyed table
    → IsKeyed (upsert new change table)
unfolding row_at upsert
upsert-IsKeyed new change [] keeps k = (refl, tt)
upsert-IsKeyed new change (r ∷ rs) keeps k = elim (Bool-cases (has_key new.indexer new.block r)) [
  | inl e ↦ rw e (rw ((keeps r).0, (keeps r).1) k.0, k.1)
  | inr e ↦ rw e (other e, upsert-IsKeyed new change rs keeps k.1)
]
  where
    other :
        has_key new.indexer new.block r ≡ false
        → row_at r.indexer r.block (upsert new change rs) ≡ none
    other e = ground (
      arith,
      e,
      k.0,
      row_at-upsert new change r.indexer r.block rs keeps,
      eq_iff r.indexer new.indexer,
      eq_iff new.indexer r.indexer,
    )

abbrev pub updated : (Failure → Bool) → (Failure → Failure) → Option Failure → Option Failure
updated p change none = none
updated p change (some r) = some (if p r then change r else r)

pub row_at-update_where :
    (p : Failure → Bool) (change : Failure → Failure) (i : String) (b : ℕ) (table : List Failure)
    → KeepsKey change
    → row_at i b (update_where p change table).0 ≡ updated p change (row_at i b table)
unfolding row_at update_where
row_at-update_where p change i b [] keeps = refl
row_at-update_where p change i b (r ∷ rs) keeps =
    ground (arith, row_at-update_where p change i b rs keeps, has_key-change change i b r keeps)

pub update_where-IsKeyed :
    (p : Failure → Bool) (change : Failure → Failure) (table : List Failure)
    → KeepsKey change
    → IsKeyed table
    → IsKeyed (update_where p change table).0
unfolding row_at update_where
update_where-IsKeyed p change [] keeps k = tt
update_where-IsKeyed p change (r ∷ rs) keeps k = elim (Bool-cases (p r)) [
  | inl e ↦ rw e (rw ((keeps r).0, (keeps r).1) same, update_where-IsKeyed p change rs keeps k.1)
  | inr e ↦ rw e (same, update_where-IsKeyed p change rs keeps k.1)
]
  where
    same : row_at r.indexer r.block (update_where p change rs).0 ≡ none
    same = row_at-update_where p change r.indexer r.block rs keeps ∙ ap (updated p change) k.0

pub row_at-clear :
    (i j : String) (b c : ℕ) (table : List Failure)
    → row_at j c (clear_scan_failure i b table)
      ≡ (if str_eq i j && (b == c) then none else row_at j c table)
unfolding row_at clear_scan_failure
row_at-clear i j b c [] = ground arith
row_at-clear i j b c (r ∷ rs) =
    ground (arith, row_at-clear i j b c rs, eq_iff r.indexer i, eq_iff r.indexer j, eq_iff i j)

pub clear-IsKeyed :
    (i : String) (b : ℕ) (table : List Failure)
    → IsKeyed table
    → IsKeyed (clear_scan_failure i b table)
unfolding clear_scan_failure
clear-IsKeyed i b [] k = tt
clear-IsKeyed i b (r ∷ rs) k =
    ground (arith, clear-IsKeyed i b rs, row_at-clear i r.indexer b r.block rs)
