-- ===== src/Indexer/BlockGaps/Reach.antt =====
-- Which rows a slice of the scan lists, and which of them the slices above it have listed.
use pdexplorer.Prelude.{
  ℕ, zero, suc, ◌+◌, ◌≤◌, ◌≡◌, refl, ap, sym, ◌∙◌, Bool, true, false, not, ◌&&◌, inl, inr, List, [],
  ◌∷◌, ◌++◌, leb, take, filter_by, All, All-In, In, Bool-cases, arith,
}
use pdexplorer.Indexer.BlockGaps.{GapRow, is_seen}
use pdexplorer.Indexer.BlockGaps.Falling.{Under, Falling}

-- Rows that a slice below `top` does not see first, and rows that it lists.
abbrev pub reaches : ℕ → GapRow → Bool
reaches top g = leb top (g.gap_end + 1)

abbrev pub below : ℕ → GapRow → Bool
below top g = leb g.gap_start top

abbrev pub is_fresh : ℕ → GapRow → Bool
is_fresh top g = not (reaches top g)

module _ (top : ℕ) where
  none_reaches :
      (g : GapRow) (xs : List GapRow)
      → All (Under g) xs
      → g.gap_start ≤ g.gap_end
      → reaches top g ≡ false
      → filter_by (reaches top) xs ≡ []
  none_reaches g [] a l h = refl
  none_reaches g (x ∷ xs) a l h = ground (arith, a.0, l, h, none_reaches g xs a.1 l h)

  -- In falling order those that reach `top` come first.
  pub reaches-first :
      (xs : List GapRow)
      → Falling xs
      → xs ≡ filter_by (reaches top) xs ++ filter_by (is_fresh top) xs
  reaches-first [] f = refl
  reaches-first (x ∷ xs) f = ground (arith, none_reaches x xs f.1 f.0, reaches-first xs f.2)

  pub cut_take :
      (n k : ℕ) (xs : List GapRow)
      → Falling xs
      → n ≤ k
      → take n (
          filter_by (reaches top) xs
          ++ filter_by (is_fresh top) (take k (filter_by (below top) xs)))
        ≡ take n xs
  cut_take zero k xs f l = refl
  cut_take (suc n) zero xs f l = absurd (omega arith)
  cut_take (suc n) (suc k) [] f l = refl
  cut_take (suc n) (suc k) (x ∷ xs) f l = elim (Bool-cases (reaches top x)) [
    | inl e ↦ elim (Bool-cases (below top x)) [
      | inl b ↦ rw (e, b, e) (ap (x ∷◌) (cut_take n k xs f.2 (omega arith)))
      | inr b ↦ rw (e, b) (ap (x ∷◌) (cut_take n (suc k) xs f.2 (omega arith)))
    ]
    | inr e ↦
        let b : below top x ≡ true = ground (arith, e, f.0) in
        let no : filter_by (reaches top) xs ≡ [] = none_reaches x xs f.1 f.0 e in
        let rest : List GapRow = filter_by (is_fresh top) (take k (filter_by (below top) xs)) in
        rw (e, b, no, e)
          (ap (x ∷◌) (ap (λ t. take n (t ++ rest)) (sym no) ∙ cut_take n k xs f.2 (omega arith)))
  ]

  not_seen :
      (g : GapRow) (xs : List GapRow)
      → Falling xs
      → All (Under g) xs
      → g.gap_start ≤ g.gap_end
      → is_seen (filter_by (reaches top) xs) g ≡ false
  not_seen g [] f a l = refl
  not_seen g (x ∷ xs) f a l = ground (arith, a.0, not_seen g xs f.2 a.1 l)

  pub seen_reaches :
      (g : GapRow) (xs : List GapRow)
      → Falling xs
      → In g xs
      → is_seen (filter_by (reaches top) xs) g ≡ reaches top g
  seen_reaches g [] f m = elim m [ ]
  seen_reaches g (x ∷ xs) f (inl e) = rw e (ground (arith, not_seen x xs f.2 f.1 f.0))
  seen_reaches g (x ∷ xs) f (inr m) =
      ground (arith, All-In (Under x) g xs f.1 m, seen_reaches g xs f.2 m)

pub filter_by-filter_by :
    (p q r : GapRow → Bool) (xs : List GapRow)
    → ((g : GapRow) → p g ≡ (q g && r g))
    → filter_by p xs ≡ filter_by r (filter_by q xs)
filter_by-filter_by p q r [] h = refl
filter_by-filter_by p q r (x ∷ xs) h = ground (arith, h x, filter_by-filter_by p q r xs h)
