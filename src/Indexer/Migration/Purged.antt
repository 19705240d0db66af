-- ===== src/Indexer/Migration/Purged.antt =====
-- A delete by ranges of heights, on one table, for any test of a row.
use pdexplorer.Prelude.{
  ℕ, ◌+◌, ◌≤◌, ◌≡◌, refl, Bool, true, not, ◌&&◌, List, [], ◌∷◌, ltb, filter_by, all, arith,
}
use pdexplorer.Indexer.Migration.{Row, is_in_range, highest}

module _ (doomed : Row → Bool) where
  -- The rows that are to stay.
  abbrev pub kept : List Row → List Row
  kept rs = filter_by (λ r. not (doomed r)) rs

  abbrev pub purged : ℕ → ℕ → List Row → List Row
  purged from to rs = filter_by (λ r. not (doomed r && is_in_range from to r)) rs

  -- No row below a height is doomed.
  abbrev pub is_clean : ℕ → List Row → Bool
  is_clean c rs = all (λ r. not (doomed r && ltb r.block c)) rs

  pub purged-is_clean :
      (from to : ℕ) (rs : List Row)
      → is_clean from rs ≡ true
      → is_clean (to + 1) (purged from to rs) ≡ true
  purged-is_clean from to [] h = refl
  purged-is_clean from to (r ∷ rs) h = ground (arith, purged-is_clean from to rs)

  -- Whatever the range, a purge takes only doomed rows.
  pub kept-purged : (from to : ℕ) (rs : List Row) → kept (purged from to rs) ≡ kept rs
  kept-purged from to [] = refl
  kept-purged from to (r ∷ rs) = ground (arith, kept-purged from to rs)

  pub purged-below :
      (from to hi : ℕ) (rs : List Row) → highest rs ≤ hi → highest (purged from to rs) ≤ hi
  purged-below from to hi [] h = h
  purged-below from to hi (r ∷ rs) h = ground (arith, purged-below from to hi rs)

  -- A table that is clean above its highest row has no doomed row.
  pub clean-kept :
      (c : ℕ) (rs : List Row) → is_clean c rs ≡ true → highest rs + 1 ≤ c → kept rs ≡ rs
  clean-kept c [] h k = refl
  clean-kept c (r ∷ rs) h k = ground (arith, clean-kept c rs)

  pub purged-clean :
      (c from to : ℕ) (rs : List Row) → is_clean c rs ≡ true → is_clean c (purged from to rs) ≡ true
  purged-clean c from to [] h = refl
  purged-clean c from to (r ∷ rs) h = ground (arith, purged-clean c from to rs)
