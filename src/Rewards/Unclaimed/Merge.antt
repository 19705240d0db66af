-- ===== src/Rewards/Unclaimed/Merge.antt =====
-- When the stored list of what is owed is replaced, and by what.
use pdexplorer.Prelude.{
  ℕ, ◌<◌, Bool, true, inl, inr, ◌⊎◌, ◌↔◌, ◌≡◌, some, List, [], ◌∷◌, ◌++◌, In, In-append,
  In-append_left, In-append_right, filter_by-In, In-filter_by, filter_by, any, length, arith, ◌==◌,
  ==_iff,
}
use pdexplorer.Rewards.Unclaimed.{Row, distinct, merge_unclaimed}

any_era : (n : ℕ) (es : List ℕ) → (any (n ==◌) es ≡ true) ↔ In n es
any_era n [] = ground arith
any_era n (e ∷ es) = ground (arith, any_era n es, ==_iff n e)

merge_unclaimed-rows :
    (existing computed : List Row) (empty : List ℕ) (scanned : ℕ) (rows : List Row)
    → merge_unclaimed existing computed empty scanned ≡ some rows
    → (rows ≡ filter_by (λ r. any (r.row_era ==◌) empty) existing ++ computed)
      × ((scanned ≡ 0) ⊎ (length (distinct empty) < scanned))
unfolding merge_unclaimed
merge_unclaimed-rows existing computed empty scanned rows h = ground (arith, h)

-- A list that is written has exactly the rows that were computed and the stored rows of the eras whose
-- read came back empty; where eras were scanned, some era was read.
pub merge_unclaimed_lem :
    (existing computed : List Row) (empty : List ℕ) (scanned : ℕ) (rows : List Row)
    → merge_unclaimed existing computed empty scanned ≡ some rows
    → ((r : Row) → In r rows ↔ ((In r existing × In r.row_era empty) ⊎ In r computed))
      × ((scanned ≡ 0) ⊎ (length (distinct empty) < scanned))
merge_unclaimed_lem existing computed empty scanned rows h =
    let (same, some_read) = merge_unclaimed-rows existing computed empty scanned rows h in
    let p : Row → Bool = λ r. any (r.row_era ==◌) empty in
    let kept = filter_by p existing in
    (
      λ r. rw same (
        (λ i. elim (In-append r kept computed i) [
          | inl l ↦
              let (j, k) = filter_by-In p r existing l in inl (j, (any_era r.row_era empty).0 k)
          | inr c ↦ inr c
        ]),
        (λ i. elim i [
          | inl (j, k) ↦
              In-append_left r kept computed
                (In-filter_by p r existing j ((any_era r.row_era empty).1 k))
          | inr c ↦ In-append_right r kept computed c
        ]),
      ),
      some_read,
    )
