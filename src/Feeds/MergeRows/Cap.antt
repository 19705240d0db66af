-- ===== src/Feeds/MergeRows/Cap.antt =====
-- A row that is newer than a poll, under a cap on the rows that are held.
use pdexplorer.Prelude.{
  zero, suc, ap, ◌<◌, ◌==◌, take, length, All-In, Bool-cases, ℕ, ◌≡◌, refl, ◌⊎◌, inl, inr, Bool,
  true, false, Option, none, some, List, [], ◌∷◌, ◌++◌, map, any, All, filter_by, arith, In,
}
use pdexplorer.Prelude.Int.{ℤ}
use pdexplorer.Prelude.Sort.{IsSorted, sort_by-IsSorted}
use pdexplorer.Prelude.Text.{Text, text_eq}
use pdexplorer.Feeds.MergeRows.{
  in_order, known_as, newest_of, oldest_of, row_order, ranks, is_kept, merge_ranked, merge_rows,
}
use pdexplorer.Feeds.MergeRows.Poll.{
  RankAtMost, RankAtLeast, merge_ranked-In, newest-is_kept, merge_rows_cut,
}

-- The order of two ranks that are there.
in_order-total : (x y : Option ℤ) (a b : Bool) → in_order x y a b ≡ false → in_order y x b a ≡ true
in_order-total none y a b h = absurd (ground (arith, h))
in_order-total (some x) none a b h = absurd (ground (arith, h))
in_order-total (some x) (some y) a b h = ground (arith, h)

in_order_trans :
    (x y z : ℤ) (a b c : Bool)
    → in_order (some x) (some y) a b ≡ true
    → in_order (some y) (some z) b c ≡ true
    → in_order (some x) (some z) a c ≡ true
in_order_trans x y z a b c h k = ground (arith, h, k)

in_order_le :
    (o : Option ℤ) (r x : ℤ) (a b : Bool)
    → o ≡ some x
    → in_order o (some r) a b ≡ true
    → RankAtLeast r o
in_order_le o r x a b e h = rw e (ground (arith, rw e at h))

-- Of a sorted list, a cut keeps an element, or is full of those that may stand before it.
cut_sorted :
    {A : Type 0} (before : A → A → Bool) (n : ℕ) (xs : List A) (x : A)
    → IsSorted before xs
    → In x xs
    → In x (take n xs) ⊎ ((length (take n xs) ≡ n) × All (λ y. before y x ≡ true) (take n xs))
cut_sorted before zero xs x s m = inr (refl, tt)
cut_sorted before (suc n) [] x s m = elim m [ ]
cut_sorted before (suc n) (y ∷ xs) x s (inl e) = inl (inl e)
cut_sorted before (suc n) (y ∷ xs) x s (inr m) = elim (cut_sorted before n xs x s.1 m) [
  | inl i ↦ inl (inr i)
  | inr (l, a) ↦ inr (ap suc l, (All-In (λ z. before y z ≡ true) x xs s.0 m, a))
]

module _ {A : Type 0} (key_of : A → Text) (rank_of : A → Option ℤ) (identity_of : A → Option Text)
    (unconfirmed : A → Bool) (ranked : (x : A) → (z : ℤ) × (rank_of x ≡ some z)) where
  abbrev order : A → A → Bool
  order = row_order key_of rank_of identity_of unconfirmed

  order-total : (x y : A) → order x y ≡ false → order y x ≡ true
  order-total x y h = in_order-total (rank_of x) (rank_of y) (unconfirmed x) (unconfirmed y) h

  order_trans : (x y z : A) → order x y ≡ true → order y z ≡ true → order x z ≡ true
  order_trans x y z h k =
      let (a, e) = ranked x in
      let (b, f) = ranked y in
      let (c, g) = ranked z in
      rw (e, g)
        (in_order_trans a b c (unconfirmed x) (unconfirmed y) (unconfirmed z) (rw (e, f) at h)
          (rw (f, g) at k))

  All-RankAtLeast :
      (row : A) (r : ℤ) (xs : List A)
      → rank_of row ≡ some r
      → All (λ y. order y row ≡ true) xs
      → All (λ y. RankAtLeast r (rank_of y)) xs
  All-RankAtLeast row r [] e a = tt
  All-RankAtLeast row r (x ∷ xs) e a =
      let (z, f) = ranked x in
      (
        in_order_le (rank_of x) r z (unconfirmed x) (unconfirmed row) f (rw e at a.0),
        All-RankAtLeast row r xs e a.1,
      )

  first_rank :
      (s : A) (ss : List A)
      → (z : ℤ) × (zs : List ℤ) × (ranks key_of rank_of identity_of unconfirmed (s ∷ ss) ≡ z ∷ zs)
  unfolding ranks
  first_rank s ss =
      let (z, f) = ranked s in (z, ranks key_of rank_of identity_of unconfirmed ss, rw f refl)

  merged-IsSorted :
      (mine snapshot : List A) (newest oldest : ℤ)
      → IsSorted order
          (merge_ranked key_of rank_of identity_of unconfirmed mine snapshot newest oldest)
  unfolding merge_ranked
  merged-IsSorted mine snapshot newest oldest = sort_by-IsSorted order order-total order_trans (
      snapshot
      ++ filter_by (is_kept key_of rank_of identity_of unconfirmed snapshot newest oldest) mine)

  -- Where every row has a rank and the snapshot is not empty, for any cap (0 is none): a row that the
  -- browser holds, that is as new as every row of the snapshot, and that the snapshot holds under no key
  -- and no identity, stays, unless the cap is full of rows that are at least as new.
  pub merge_rows_keeps :
      (mine ss : List A) (s row : A) (r : ℤ) (cap : ℕ)
      → In row mine
      → rank_of row ≡ some r
      → All (λ x. RankAtMost (rank_of x) r) (s ∷ ss)
      → any (text_eq (key_of row)) (map key_of (s ∷ ss)) ≡ false
      → known_as (identity_of row) (map identity_of (s ∷ ss)) ≡ false
      → let after = merge_rows key_of rank_of identity_of unconfirmed mine (s ∷ ss) cap in
        In row after
        ⊎ ((0 < cap) × (length after ≡ cap) × All (λ x. RankAtLeast r (rank_of x)) after)
  merge_rows_keeps mine ss s row r cap m e a k i =
      let (z, zs, eq) = first_rank s ss in
      let lo = oldest_of z zs in
      let hi = newest_of z zs in
      let all = merge_ranked key_of rank_of identity_of unconfirmed mine (s ∷ ss) hi lo in
      let kept = newest-is_kept key_of rank_of identity_of unconfirmed ss s row r z zs e a k i eq in
      let inside : In row all =
        (merge_ranked-In key_of rank_of identity_of unconfirmed mine (s ∷ ss) hi lo row).1
          (inr (m, kept)) in
      rw (merge_rows_cut key_of rank_of identity_of unconfirmed mine ss s cap z zs eq)
        (elim (Bool-cases (cap == 0)) [
          | inl whole ↦ rw whole (inl inside)
          | inr cut ↦
              elim (cut_sorted order cap all row (merged-IsSorted mine (s ∷ ss) hi lo) inside) [
                | inl stays ↦ rw cut (inl stays)
                | inr (full, newer) ↦
                    rw cut (
                      inr (ground (arith, cut), full, All-RankAtLeast row r (take cap all) e newer))
              ]
        ])
