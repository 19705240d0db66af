-- ===== src/Indexer/BlockGaps/Edges.antt =====
-- What `getEdgeGaps` lists, and the heights between the first and the last row.
use pdexplorer.Prelude.{
  ℕ, ◌+◌, ◌-◌, ◌≤◌, ◌<◌, ◌≡◌, refl, ap, sym, ◌∙◌, true, ◌&&◌, ◌⊎◌, inl, inr, some, List, ◌∷◌, ◌++◌,
  ltb, subst, In, In-append, In-append_left, In-append_right, arith,
}
use pdexplorer.Indexer.BlockGaps.{
  GapRow, min_stored, max_stored, prefix_gap, suffix_gap, get_edge_gaps,
}
use pdexplorer.Indexer.BlockGaps.Snap.{min_stored-le, min_stored-In, max_stored-le, max_stored-In}
use pdexplorer.Indexer.BlockGaps.Window.{AscendingFrom, AscendingFrom-lt}

-- The height is in the gap of some row.
abbrev pub IsListed : ℕ → List GapRow → Type 0
IsListed h rows = (g : GapRow) × In g rows × (g.gap_start ≤ h) × h ≤ g.gap_end

pub edges_lem :
    (blocks : List ℕ) (lo hi oldest latest : ℕ)
    → min_stored blocks ≡ some lo
    → max_stored blocks ≡ some hi
    → get_edge_gaps blocks (some oldest) (some latest)
      ≡ prefix_gap (some oldest) lo ++ suffix_gap (some latest) hi
unfolding get_edge_gaps
edges_lem blocks lo hi oldest latest e f = rw (e, f, get_edge_gaps) refl

pub prefix_missing :
    (lo oldest h : ℕ) (g : GapRow) → In g (prefix_gap (some oldest) lo) → h ≤ g.gap_end → h < lo
prefix_missing lo oldest h g i e = ground (arith, i, e)

pub suffix_missing :
    (hi latest h : ℕ) (g : GapRow) → In g (suffix_gap (some latest) hi) → g.gap_start ≤ h → hi < h
suffix_missing hi latest h g i b = ground (arith, i, b)

pub prefix_lists :
    (lo oldest h : ℕ) → 0 < oldest → oldest ≤ h → h < lo → IsListed h (prefix_gap (some oldest) lo)
prefix_lists lo oldest h s p l =
    let e : (ltb 0 oldest && ltb oldest lo) ≡ true = ground (arith, s, p, l) in
    rw e (
      record { gap_start = oldest; gap_end = lo - 1; gap_size = lo - oldest },
      inl refl,
      p,
      omega (arith, l),
    )

pub suffix_lists :
    (hi latest h : ℕ) → h ≤ latest → hi < h → IsListed h (suffix_gap (some latest) hi)
suffix_lists hi latest h q l =
    let e : ltb hi latest ≡ true = ground (arith, q, l) in
    rw e (
      record { gap_start = hi + 1; gap_end = latest; gap_size = latest - hi },
      inl refl,
      omega (arith, l),
      q,
    )

pub IsListed-left : (h : ℕ) (xs ys : List GapRow) → IsListed h xs → IsListed h (xs ++ ys)
IsListed-left h xs ys (g, i, b, e) = (g, In-append_left g xs ys i, b, e)

pub IsListed-right : (h : ℕ) (xs ys : List GapRow) → IsListed h ys → IsListed h (xs ++ ys)
IsListed-right h xs ys (g, i, b, e) = (g, In-append_right g xs ys i, b, e)

pub IsListed-append :
    (h : ℕ) (xs ys : List GapRow) → IsListed h (xs ++ ys) → IsListed h xs ⊎ IsListed h ys
IsListed-append h xs ys (g, i, b, e) = elim (In-append g xs ys i) [
  | inl j ↦ inl (g, j, b, e)
  | inr j ↦ inr (g, j, b, e)
]

pub min_stored-first : (a : ℕ) (r : List ℕ) → AscendingFrom a r → min_stored (a ∷ r) ≡ some a
min_stored-first a r s =
    let (lo, e, l) = min_stored-le (a ∷ r) a (inl refl) in
    let first : lo ≡ a = elim (min_stored-In (a ∷ r) lo e) [
      | inl p ↦ p
      | inr m ↦ absurd (omega (arith, l, AscendingFrom-lt a lo r s m))
    ] in
    e ∙ ap some first

pub stored_bounds :
    (a hi h : ℕ) (r : List ℕ)
    → AscendingFrom a r
    → max_stored (a ∷ r) ≡ some hi
    → In h (a ∷ r)
    → (a ≤ h) × (h ≤ hi)
stored_bounds a hi h r s f m =
    let (k, e, l) = max_stored-le (a ∷ r) h m in
    (ground (arith, m, AscendingFrom-lt a h r s), ground (arith, l, sym e ∙ f))

-- A height that is not stored, above the first row and not above the last, has rows on both sides.
pub inner_sides :
    (a hi h : ℕ) (r : List ℕ)
    → max_stored (a ∷ r) ≡ some hi
    → (In h (a ∷ r) → ⊥)
    → a ≤ h
    → h ≤ hi
    → (a < h) × In hi r × (h < hi)
inner_sides a hi h r f n l k =
    let ne : h ≡ a → ⊥ = (λ p. n (inl p)) in
    let last : In hi (a ∷ r) = max_stored-In (a ∷ r) hi f in
    let ne2 : h ≡ hi → ⊥ = (λ p. n (subst (λ x. In x (a ∷ r)) (sym p) last)) in
    (ground (arith, ne, l), ground (arith, ne, l, k, last), ground (arith, ne2, k))
