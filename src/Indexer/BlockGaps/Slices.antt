-- ===== src/Indexer/BlockGaps/Slices.antt =====
-- `scanGapsYielding` of server.js against one call of `getBlockGaps`.
use pdexplorer.Prelude.{
  ℕ, zero, suc, ◌+◌, ◌-◌, ◌≤◌, ◌<◌, max, ◌≡◌, refl, ap, sym, ◌∙◌, not, ◌&&◌, inl, inr, some, List,
  [], ◌∷◌, ◌++◌, ltb, length, take, take-all, length-take, filter_by, filter_by-In, take-In,
  take-append_le, subst, All, In, Bool-cases, arith,
}
use pdexplorer.Prelude.Sort.{sort_by, insert_by}
use pdexplorer.Indexer.BlockGaps.{
  GapRow, holes, descending, get_block_gaps, is_seen, add_part, scan_loop, scan_gaps_yielding,
  starts_later,
}
use pdexplorer.Indexer.BlockGaps.Window.{filter_by-same, Ascending, meets, get_block_gaps_lem}
use pdexplorer.Indexer.BlockGaps.Falling.{
  Under, Falling, holes-Falling, filter_by-Falling, take-Falling, is_new, add_part_lem,
}
use pdexplorer.Indexer.BlockGaps.Reach.{
  reaches, below, is_fresh, reaches-first, cut_take, seen_reaches, filter_by-filter_by,
}

all_new : (xs : List GapRow) → filter_by (is_new []) xs ≡ xs
all_new [] = refl
all_new (x ∷ xs) = ap (x ∷◌) (all_new xs)

module _ (blocks : List ℕ) (ascending : Ascending blocks) (limit until : ℕ) where
  -- The holes that meet the heights from `lo` to `until`, from the top.
  abbrev found : ℕ → List GapRow
  found lo = filter_by (meets lo until) (descending (holes blocks))

  found-Falling : (lo : ℕ) → Falling (found lo)
  found-Falling lo =
      filter_by-Falling (meets lo until) (descending (holes blocks))
        (holes-Falling blocks ascending)

  found-reaches : (lo top : ℕ) → lo ≤ top → found top ≡ filter_by (reaches top) (found lo)
  found-reaches lo top l =
      filter_by-filter_by (meets top until) (meets lo until) (reaches top)
        (descending (holes blocks)) (λ g. ground (arith, l))

  slice-below :
      (lo top : ℕ)
      → lo < top
      → top ≤ until
      → get_block_gaps blocks limit (some lo) (some (top - 1))
        ≡ take limit (filter_by (below top) (found lo))
  slice-below lo top l m =
      get_block_gaps_lem blocks limit lo (top - 1) ascending
      ∙ ap (take limit) (
          filter_by-filter_by (meets lo (top - 1)) (meets lo until) (below top)
            (descending (holes blocks)) (λ g. ground (arith, l, m)))

  -- A slice makes the list of the holes above `top` that of those above `lo`.
  add_slice :
      (lo top : ℕ)
      → lo < top
      → top ≤ until
      → length (found top) < limit
      → add_part limit (found top) (get_block_gaps blocks limit (some lo) (some (top - 1)))
        ≡ take limit (found lo)
  add_slice lo top l m h =
      let part : List GapRow = take limit (filter_by (below top) (found lo)) in
      let fall : Falling part =
        take-Falling limit (filter_by (below top) (found lo))
          (filter_by-Falling (below top) (found lo) (found-Falling lo)) in
      let same : found top ≡ filter_by (reaches top) (found lo) =
        found-reaches lo top (omega (arith, l)) in
      let new : (g : GapRow) → In g part → is_new (found top) g ≡ is_fresh top g = (λ g i. ap not (
        ap (λ t. is_seen t g) same
        ∙ seen_reaches top g (found lo) (found-Falling lo)
            (filter_by-In (below top) g (found lo) (take-In limit g _ i)).0)) in
      ap (add_part limit (found top)) (slice-below lo top l m)
      ∙ add_part_lem limit (found top) part h fall
      ∙ ap (λ t. take limit (found top ++ t))
          (filter_by-same (is_new (found top)) (is_fresh top) part new)
      ∙ ap (λ t. take limit (t ++ filter_by (is_fresh top) part)) same
      ∙ cut_take top limit limit (found lo) (found-Falling lo) (omega arith)

  take-found :
      (lo top : ℕ)
      → lo ≤ top
      → limit ≤ length (found top)
      → take limit (found top) ≡ take limit (found lo)
  take-found lo top l h =
      let same : found top ≡ filter_by (reaches top) (found lo) = found-reaches lo top l in
      let enough : limit ≤ length (filter_by (reaches top) (found lo)) =
        subst (λ t. limit ≤ length t) same h in
      ap (take limit) same
      ∙ sym (
          take-append_le limit (filter_by (reaches top) (found lo))
            (filter_by (is_fresh top) (found lo)) enough)
      ∙ ap (take limit) (sym (reaches-first top (found lo) (found-Falling lo)))

  module _ (since slice : ℕ) (positive : 1 ≤ slice) where
    scan_loop_lem :
        (fuel top : ℕ)
        → since ≤ top
        → top ≤ until
        → top ≤ since + fuel
        → scan_loop blocks limit since slice fuel top (take limit (found top))
          ≡ take limit (found since)
    scan_loop_lem zero top a b c = (let same : top ≡ since = omega arith in rw same refl)
    scan_loop_lem (suc fuel) top a b c = elim (Bool-cases (ltb since top)) [
      | inr e ↦ (let same : top ≡ since = ground (arith, a, e) in rw (e, same) refl)
      | inl e ↦ elim (Bool-cases (ltb (length (take limit (found top))) limit)) [
        | inr full ↦
            rw (e, full)
              (take-found since top a (ground (arith, full, length-take limit (found top))))
        | inl more ↦
            let short : length (found top) < limit =
              ground (arith, more, length-take limit (found top)) in
            let lo : ℕ = max since (top - slice) in
            rw (e, more)
              (ap
                  (λ t.
                    scan_loop blocks limit since slice fuel lo
                      (add_part limit t (get_block_gaps blocks limit (some lo) (some (top - 1)))))
                  (take-all limit (found top) (omega (arith, short)))
                ∙ ap (scan_loop blocks limit since slice fuel lo)
                    (add_slice lo top (ground (arith, e, positive)) b short)
                ∙ scan_loop_lem fuel lo (omega arith) (omega (arith, a, b))
                    (ground (arith, e, c, positive)))
      ]
    ]

    -- The first slice may reach holes that go on above `until`.
    first_slice :
        (lo : ℕ)
        → 0 < limit
        → add_part limit [] (get_block_gaps blocks limit (some lo) (some until))
          ≡ take limit (found lo)
    first_slice lo h =
        let part : List GapRow = take limit (found lo) in
        ap (add_part limit []) (get_block_gaps_lem blocks limit lo until ascending)
        ∙ add_part_lem limit [] part h (take-Falling limit (found lo) (found-Falling lo))
        ∙ ap (take limit) (all_new part)
        ∙ take-all limit part (omega (arith, length-take limit (found lo)))

    scan_from_top :
        since ≤ until
        → scan_loop blocks limit since slice (suc until) (suc until) [] ≡ take limit (found since)
    scan_from_top a = elim (Bool-cases (ltb since (suc until) && ltb 0 limit)) [
      | inr e ↦ (let same : limit ≡ 0 = ground (arith, e, a) in rw (e, same) refl)
      | inl e ↦
          let lo : ℕ = max since (suc until - slice) in
          let last : suc until - 1 ≡ until = omega arith in
          rw (e, last)
            (ap (scan_loop blocks limit since slice until lo) (first_slice lo (ground (arith, e)))
              ∙ scan_loop_lem until lo (omega arith) (omega (arith, a, positive))
                  (omega (arith, a, positive)))
    ]

insert_by-first :
    (g : GapRow) (xs : List GapRow)
    → All (Under g) xs
    → g.gap_start ≤ g.gap_end
    → insert_by starts_later g xs ≡ g ∷ xs
insert_by-first g [] a l = refl
insert_by-first g (x ∷ xs) a l = ground (arith, a.0, l)

sort_by-Falling : (xs : List GapRow) → Falling xs → sort_by starts_later xs ≡ xs
sort_by-Falling [] f = refl
sort_by-Falling (x ∷ xs) f =
    ap (insert_by starts_later x) (sort_by-Falling xs f.2) ∙ insert_by-first x xs f.1 f.0

-- In a table of ascending heights, for a slice of at least one height, any limit, and bounds of
-- which the lower is not above the upper: the scan in slices returns the same rows in the same order
-- as one call of `getBlockGaps` for the whole range.
pub scan_gaps_yielding-whole :
    (blocks : List ℕ) (limit since until slice : ℕ)
    → Ascending blocks
    → 1 ≤ slice
    → since ≤ until
    → scan_gaps_yielding blocks limit since until slice
      ≡ get_block_gaps blocks limit (some since) (some until)
unfolding scan_gaps_yielding
scan_gaps_yielding-whole blocks limit since until slice s p a =
    let rows : List GapRow = found blocks s limit until since in
    ap (sort_by starts_later) (scan_from_top blocks s limit until since slice p a)
    ∙ sort_by-Falling (take limit rows)
        (take-Falling limit rows (found-Falling blocks s limit until since))
    ∙ sym (get_block_gaps_lem blocks limit since until s)
