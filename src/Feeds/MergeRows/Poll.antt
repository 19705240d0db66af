-- ===== src/Feeds/MergeRows/Poll.antt =====
-- What a poll keeps and what it drops.
use pdexplorer.Prelude.{
  ℕ, ◌≡◌, refl, ◌⊎◌, ◌↔◌, inl, inr, Bool, true, false, Option, none, some, List, [], ◌∷◌, ◌++◌, map,
  any, All, filter_by, arith, List-cases, In, In-append, In-append_left, In-append_right,
  In-filter_by, filter_by-In,
}
use pdexplorer.Prelude.Int.{ℤ, ◌≤ℤ◌, max_ℤ}
use pdexplorer.Prelude.Sort.{sort_by, sort_by-In}
use pdexplorer.Prelude.Text.{Text, text_eq}
use pdexplorer.Feeds.MergeRows.{
  capped, known_as, newest_of, oldest_of, row_order, ranks, is_kept, merge_ranked, merge_rows,
}

abbrev pub RankAtMost : Option ℤ → ℤ → Type 0
RankAtMost none r = Unit
RankAtMost (some z) r = z ≤ℤ r

abbrev pub RankAtLeast : ℤ → Option ℤ → Type 0
RankAtLeast r none = ⊥
RankAtLeast r (some z) = r ≤ℤ z

newest_of_le : (z : ℤ) (zs : List ℤ) (r : ℤ) → z ≤ℤ r → All (λ w. w ≤ℤ r) zs → newest_of z zs ≤ℤ r
unfolding newest_of
newest_of_le z [] r h a = h
newest_of_le z (w ∷ ws) r h a = newest_of_le (max_ℤ z w) ws r (ground (arith, a.0)) a.1

module _ {A : Type 0} (key_of : A → Text) (rank_of : A → Option ℤ) (identity_of : A → Option Text)
    (unconfirmed : A → Bool) where
  pub merge_ranked-In :
      (mine snapshot : List A) (newest oldest : ℤ) (row : A)
      → In row (merge_ranked key_of rank_of identity_of unconfirmed mine snapshot newest oldest) ↔ (
          In row snapshot
          ⊎ (In row mine
              × (is_kept key_of rank_of identity_of unconfirmed snapshot newest oldest row ≡ true)))
  unfolding merge_ranked
  merge_ranked-In mine snapshot newest oldest row = (to, from)
    where
      kept : A → Bool
      kept = is_kept key_of rank_of identity_of unconfirmed snapshot newest oldest

      order : A → A → Bool
      order = row_order key_of rank_of identity_of unconfirmed

      to :
          In row (sort_by order (snapshot ++ filter_by kept mine))
          → In row snapshot ⊎ (In row mine × (kept row ≡ true))
      to m =
          elim (In-append row snapshot (filter_by kept mine)
            ((sort_by-In order row (snapshot ++ filter_by kept mine)).0 m)) [
              | inl s ↦ inl s
              | inr k ↦ inr (filter_by-In kept row mine k)
            ]

      from :
          In row snapshot ⊎ (In row mine × (kept row ≡ true))
          → In row (sort_by order (snapshot ++ filter_by kept mine))
      from (inl s) =
          (sort_by-In order row (snapshot ++ filter_by kept mine)).1
            (In-append_left row snapshot (filter_by kept mine) s)
      from (inr (m, k)) =
          (sort_by-In order row (snapshot ++ filter_by kept mine)).1
            (In-append_right row snapshot (filter_by kept mine) (In-filter_by kept row mine m k))

  abbrev merged : List A → List A → ℕ → List A
  merged = merge_rows key_of rank_of identity_of unconfirmed

  merge_rows_unranked :
      (mine ss : List A) (s : A)
      → ranks key_of rank_of identity_of unconfirmed (s ∷ ss) ≡ []
      → merged mine (s ∷ ss) 0 ≡ s ∷ ss
  unfolding merge_rows
  merge_rows_unranked mine ss s e = ground (arith, e)

  merge_rows_ranked :
      (mine ss : List A) (s : A) (z : ℤ) (zs : List ℤ)
      → ranks key_of rank_of identity_of unconfirmed (s ∷ ss) ≡ z ∷ zs
      → merged mine (s ∷ ss) 0
        ≡ merge_ranked key_of rank_of identity_of unconfirmed mine
            (s ∷ ss)
            (newest_of z zs)
            (oldest_of z zs)
  unfolding merge_rows
  merge_rows_ranked mine ss s z zs e = ground (arith, e)

  merge_rows_empty : (mine : List A) → merged mine [] 0 ≡ mine
  unfolding merge_rows
  merge_rows_empty mine = refl

  -- With no cap, a second poll with the same snapshot adds and drops no row, no row of the snapshot is
  -- missing, and none comes from elsewhere; an empty snapshot changes nothing at all.
  pub merge_rows_stable :
      (mine snapshot : List A) (row : A)
      → (In row (merged (merged mine snapshot 0) snapshot 0) ↔ In row (merged mine snapshot 0))
        × (In row snapshot → In row (merged mine snapshot 0))
        × (In row (merged mine snapshot 0) → In row snapshot ⊎ In row mine)
        × (merged mine [] 0 ≡ mine)
  merge_rows_stable mine [] row =
      ground (arith, merge_rows_empty mine, merge_rows_empty (merged mine [] 0))
  merge_rows_stable mine (s ∷ ss) row =
      elim (List-cases (ranks key_of rank_of identity_of unconfirmed (s ∷ ss))) [
        | inl e ↦ ground (
          arith,
          merge_rows_unranked mine ss s e,
          merge_rows_unranked (merged mine (s ∷ ss) 0) ss s e,
          merge_rows_empty mine,
        )
        | inr (z, zs, e) ↦ rw (merge_rows_ranked mine ss s z zs e) (
            rw
              (merge_rows_ranked
                (merge_ranked key_of rank_of identity_of unconfirmed mine (s ∷ ss) (newest_of z zs)
                  (oldest_of z zs))
                ss s z zs e)
              (ground (
                arith,
                merge_rows_empty mine,
                merge_ranked-In mine (s ∷ ss) (newest_of z zs) (oldest_of z zs) row,
                merge_ranked-In
                    (merge_ranked key_of rank_of identity_of unconfirmed mine (s ∷ ss)
                      (newest_of z zs) (oldest_of z zs))
                    (s ∷ ss) (newest_of z zs) (oldest_of z zs) row,
              )))
      ]

  ranks-All :
      (snapshot : List A) (r : ℤ)
      → All (λ x. RankAtMost (rank_of x) r) snapshot
      → All (λ w. w ≤ℤ r) (ranks key_of rank_of identity_of unconfirmed snapshot)
  unfolding ranks
  ranks-All [] r a = tt
  ranks-All (x ∷ xs) r a = ground (arith, a.0, ranks-All xs r a.1)

  -- A row that the snapshot holds under no key and no identity, and that is as new as all of it, is kept.
  pub newest-is_kept :
      (ss : List A) (s row : A) (r z : ℤ) (zs : List ℤ)
      → rank_of row ≡ some r
      → All (λ x. RankAtMost (rank_of x) r) (s ∷ ss)
      → any (text_eq (key_of row)) (map key_of (s ∷ ss)) ≡ false
      → known_as (identity_of row) (map identity_of (s ∷ ss)) ≡ false
      → ranks key_of rank_of identity_of unconfirmed (s ∷ ss) ≡ z ∷ zs
      → is_kept key_of rank_of identity_of unconfirmed
          (s ∷ ss)
          (newest_of z zs)
          (oldest_of z zs)
          row
        ≡ true
  unfolding is_kept
  newest-is_kept ss s row r z zs e a k i eq =
      let at_most : (z ≤ℤ r) × All (λ w. w ≤ℤ r) zs = rw eq at (ranks-All (s ∷ ss) r a) in
      let le : newest_of z zs ≤ℤ r = newest_of_le z zs r at_most.0 at_most.1 in
      rw (k, i, e) (ground (arith, le))

  pub merge_rows_cut :
      (mine ss : List A) (s : A) (cap : ℕ) (z : ℤ) (zs : List ℤ)
      → ranks key_of rank_of identity_of unconfirmed (s ∷ ss) ≡ z ∷ zs
      → merged mine (s ∷ ss) cap
        ≡ capped cap (
            merge_ranked key_of rank_of identity_of unconfirmed mine
              (s ∷ ss)
              (newest_of z zs)
              (oldest_of z zs))
  unfolding merge_rows
  merge_rows_cut mine ss s cap z zs e = ground (arith, e)
