-- ===== src/Indexer/BlockGaps/Missing.antt =====
-- The repair candidates of server.js: the rows of the edges with those of the scan.
use pdexplorer.Prelude.{
  ℕ, ◌-◌, ◌≤◌, ◌<◌, ◌≡◌, refl, ◌∙◌, true, ◌↔◌, inl, inr, some, List, [], ◌∷◌, ◌++◌, ltb, length,
  length-append, take-all, subst, filter_by, filter_by-In, In-filter_by, length-filter_by-le, In,
  In-append, In-append_left, In-append_right, Bool-cases, ltb→lt, arith,
}
use pdexplorer.Indexer.BlockGaps.{
  GapRow, gap_row, holes_from, descending, prefix_gap, suffix_gap, get_edge_gaps,
  scan_gaps_yielding,
}
use pdexplorer.Indexer.BlockGaps.Snap.{max_stored-le}
use pdexplorer.Indexer.BlockGaps.Window.{
  AscendingFrom, Ascending, meets, IsHole, holes_from-IsHole, get_block_gaps_lem,
}
use pdexplorer.Indexer.BlockGaps.Slices.{scan_gaps_yielding-whole}
use pdexplorer.Indexer.BlockGaps.Edges.{
  IsListed, IsListed-append, IsListed-left, IsListed-right, edges_lem, inner_sides,
  min_stored-first, prefix_lists, prefix_missing, stored_bounds, suffix_lists, suffix_missing,
}

holes_from-lists :
    (h a c : ℕ) (r : List ℕ)
    → AscendingFrom a r
    → a < h
    → (In h r → ⊥)
    → In c r
    → h < c
    → IsListed h (holes_from a r)
holes_from-lists h a c [] s l n m k = elim m [ ]
holes_from-lists h a c (b ∷ r) s l n m k = elim (Bool-cases (ltb h b)) [
  | inl e ↦
      let gap : ltb 1 (b - a) ≡ true = ground (arith, e, l) in
      rw gap (gap_row a b, inl refl, omega (arith, l), ground (arith, e))
  | inr e ↦
      let ne : h ≡ b → ⊥ = (λ p. n (inl p)) in
      let above : b < h = ground (arith, e, ne) in
      let later : In c r = ground (arith, m, k, above) in
      let (g, i, p, q) = holes_from-lists h b c r s.1 above (λ j. n (inr j)) later k in
      (g, ground (arith, i), p, q)
]

In-descending : (g : GapRow) (xs : List GapRow) → In g xs ↔ In g (descending xs)
In-descending g xs = (there xs, back xs)
  where
    there : (xs : List GapRow) → In g xs → In g (descending xs)
    there (x ∷ xs) (inl e) = In-append_right g (descending xs) (x ∷ []) (inl e)
    there (x ∷ xs) (inr m) = In-append_left g (descending xs) (x ∷ []) (there xs m)
    there [] m = m

    back : (xs : List GapRow) → In g (descending xs) → In g xs
    back [] m = m
    back (x ∷ xs) m = elim (In-append g (descending xs) (x ∷ []) m) [
      | inl i ↦ inr (back xs i)
      | inr (inl e) ↦ inl e
      | inr (inr n) ↦ elim n [ ]
    ]

length-holes_from : (a : ℕ) (r : List ℕ) → length (descending (holes_from a r)) ≤ length r
length-holes_from a [] = omega arith
length-holes_from a (b ∷ r) =
    ground
      (arith, length-holes_from b r, length-append (descending (holes_from b r)) (gap_row a b ∷ []))

module _ (a : ℕ) (r : List ℕ) (ascending : AscendingFrom a r) (oldest latest slice limit : ℕ)
    (start : 0 < oldest) (p : 1 ≤ slice) (q : oldest ≤ latest)
    (enough : length (a ∷ r) ≤ limit) where
  rows_whole :
      scan_gaps_yielding (a ∷ r) limit oldest latest slice
      ≡ filter_by (meets oldest latest) (descending (holes_from a r))
  rows_whole =
      scan_gaps_yielding-whole (a ∷ r) limit oldest latest slice ascending p q
      ∙ get_block_gaps_lem (a ∷ r) limit oldest latest ascending
      ∙ take-all limit (filter_by (meets oldest latest) (descending (holes_from a r))) (
          omega (
            arith,
            enough,
            length-holes_from a r,
            length-filter_by-le (meets oldest latest) (descending (holes_from a r)),
          ))

  scan_lists :
      (h c : ℕ)
      → a < h
      → (In h r → ⊥)
      → In c r
      → h < c
      → oldest ≤ h
      → h ≤ latest
      → IsListed h (scan_gaps_yielding (a ∷ r) limit oldest latest slice)
  scan_lists h c l n m k lo hi =
      let (g, i, b, e) = holes_from-lists h a c r ascending l n m k in
      rw rows_whole (
        g,
        In-filter_by (meets oldest latest) g (descending (holes_from a r))
            ((In-descending g (holes_from a r)).0 i) (ground (arith, b, e, lo, hi)),
        b,
        e,
      )

  scan_lists_missing :
      (h : ℕ) → IsListed h (scan_gaps_yielding (a ∷ r) limit oldest latest slice) → In h (a ∷ r) → ⊥
  scan_lists_missing h (g, i, b, e) m =
      let j : In g (filter_by (meets oldest latest) (descending (holes_from a r))) =
        subst (In g) rows_whole i in
      let k : In g (holes_from a r) =
        (In-descending g (holes_from a r)).1 (filter_by-In (meets oldest latest) g _ j).0 in
      let hole : IsHole (a ∷ r) g = holes_from-IsHole a r g ascending k in
      ground (arith, hole.4 h m, b, e)

-- For a table with rows, of ascending heights, claimed bounds of which the lower is positive and not
-- above the upper, slices of at least one height, and a limit of at least the number of rows: the
-- rows of `getEdgeGaps` and of the scan hold every height in the bounds that is not stored, and of
-- those in the bounds no other.
pub gaps-missing :
    (a : ℕ) (r : List ℕ) (oldest latest slice limit h : ℕ)
    → Ascending (a ∷ r)
    → 0 < oldest
    → 1 ≤ slice
    → length (a ∷ r) ≤ limit
    → oldest ≤ h
    → h ≤ latest
    → IsListed h (
        get_edge_gaps (a ∷ r) (some oldest) (some latest)
        ++ scan_gaps_yielding (a ∷ r) limit oldest latest slice)
      ↔ (¬ In h (a ∷ r))
gaps-missing a r oldest latest slice limit h s o p enough q1 q2 =
    let (hi, f, _) = max_stored-le (a ∷ r) a (inl refl) in
    let before = prefix_gap (some oldest) a in
    let after = suffix_gap (some latest) hi in
    let rows = scan_gaps_yielding (a ∷ r) limit oldest latest slice in
    let le : oldest ≤ latest = omega (arith, q1, q2) in
    rw (edges_lem (a ∷ r) a hi oldest latest (min_stored-first a r s) f) (
      (λ l m. elim (IsListed-append h (before ++ after) rows l) [
        | inl k ↦ elim (IsListed-append h before after k) [
          | inl (g, i, b, e) ↦
              ground (arith, prefix_missing a oldest h g i e, (stored_bounds a hi h r s f m).0)
          | inr (g, i, b, e) ↦
              ground (arith, suffix_missing hi latest h g i b, (stored_bounds a hi h r s f m).1)
        ]
        | inr k ↦ scan_lists_missing a r s oldest latest slice limit o p le enough h k m
      ]),
      λ n. elim (Bool-cases (ltb h a)) [
        | inl c ↦
            IsListed-left h (before ++ after) rows
              (IsListed-left h before after (prefix_lists a oldest h o q1 (ltb→lt h a c)))
        | inr c ↦ elim (Bool-cases (ltb hi h)) [
          | inl d ↦
              IsListed-left h (before ++ after) rows
                (IsListed-right h before after (suffix_lists hi latest h q2 (ltb→lt hi h d)))
          | inr d ↦
              let (u, v, w) = inner_sides a hi h r f n (ground (arith, c)) (ground (arith, d)) in
              IsListed-right h (before ++ after) rows (
                scan_lists a r s oldest latest slice limit o p le enough h hi u (λ j. n (inr j)) v w
                  q1 q2)
        ]
      ],
    )
