-- ===== src/Indexer/Reorg/Hashes.antt =====
-- `hashesDiffer` of lib/reorg.js: when a stored hash is evidence of a fork.
use pdexplorer.Prelude.{
  ◌≡◌, ◌≢◌, ◌↔◌, true, false, ◌||◌, Option, [], ◌∷◌, arith, not, if◌then◌else◌,
}
use pdexplorer.Prelude.Text.{Text, text_eq, is_empty}
use pdexplorer.Indexer.Reorg.{hashes_differ, is_zero_hash, clean}

text_eq_iff : (a b : Text) → (text_eq a b ≡ true) ↔ (a ≡ b)
text_eq_iff [] [] = ground arith
text_eq_iff [] (b ∷ t) = ground arith
text_eq_iff (a ∷ s) [] = ground arith
text_eq_iff (a ∷ s) (b ∷ t) = ground (arith, text_eq_iff s t)

-- A hash that says something: it is there, not blank, and not all zeros.
abbrev pub IsKnown : Option Text → Type 0
IsKnown h = (clean h ≢ []) × (is_zero_hash (clean h) ≡ false)

-- A repair is asked for exactly when both hashes are known and they are different texts up to case
-- and surrounding white space.
pub hashes_differ_iff :
    (stored canonical : Option Text)
    → (hashes_differ stored canonical ≡ true)
      ↔ (IsKnown stored × IsKnown canonical × (clean stored ≢ clean canonical))
unfolding hashes_differ
hashes_differ_iff stored canonical = by_texts (clean stored) (clean canonical)
  where
    by_texts :
        (a b : Text)
        → ((if is_empty a || is_empty b
              then false
              else (if is_zero_hash a || is_zero_hash b then false else not (text_eq a b)))
            ≡ true)
          ↔ (((a ≢ []) × (is_zero_hash a ≡ false))
              × ((b ≢ []) × (is_zero_hash b ≡ false))
              × (a ≢ b))
    by_texts [] b = ground arith
    by_texts (x ∷ a) [] = ground arith
    by_texts (x ∷ a) (y ∷ b) = ground (arith, text_eq_iff (x ∷ a) (y ∷ b))
