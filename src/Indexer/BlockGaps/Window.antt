-- ===== src/Indexer/BlockGaps/Window.antt =====
-- What `getBlockGaps` lists between two bounds, in terms of the holes of the whole table.
use pdexplorer.Prelude.{
  ℕ, ◌+◌, ◌-◌, ◌≤◌, ◌<◌, ◌≡◌, refl, ap, sym, ◌∙◌, Bool, true, ◌&&◌, ◌⊎◌, inl, inr, some, List, [],
  ◌∷◌, ◌++◌, ltb, leb, take, filter_by, In, arith,
}
use mathlib.Core.List.{append-nil}
use pdexplorer.Indexer.BlockGaps.{
  GapRow, gap_row, holes, holes_from, snap_since, snap_until, descending, get_block_gaps,
}
use pdexplorer.Indexer.BlockGaps.Snap.{snap_since_lem, snap_until_lem}

abbrev pub AscendingFrom : ℕ → List ℕ → Type 0
AscendingFrom a [] = Unit
AscendingFrom a (b ∷ r) = (a < b) × AscendingFrom b r

abbrev pub Ascending : List ℕ → Type 0
Ascending [] = Unit
Ascending (a ∷ r) = AscendingFrom a r

-- The hole lies between stored heights in `lo` to `hi`.
abbrev pub is_inside : ℕ → ℕ → GapRow → Bool
is_inside lo hi g = ltb lo g.gap_start && ltb g.gap_end hi

-- The stored heights around the hole reach into `lo` to `hi`.
abbrev pub meets : ℕ → ℕ → GapRow → Bool
meets lo hi g = leb lo (g.gap_end + 1) && leb g.gap_start (hi + 1)

abbrev between : ℕ → ℕ → ℕ → Bool
between lo hi n = leb lo n && leb n hi

past : (lo hi b : ℕ) (r : List ℕ) → AscendingFrom b r → hi < b → filter_by (between lo hi) r ≡ []
past lo hi b [] s h = refl
past lo hi b (c ∷ r) s h = ground (arith, past lo hi c r s.1)

holes-between :
    (lo hi a : ℕ) (r : List ℕ)
    → AscendingFrom a r
    → filter_by (is_inside lo hi) (holes_from a r) ≡ holes (filter_by (between lo hi) (a ∷ r))
holes-between lo hi a [] s = ground arith
holes-between lo hi a (b ∷ r) s =
    ground (arith, s.0, holes-between lo hi b r s.1, past lo hi b r s.1)

-- A row of a hole: stored heights on both sides of it, and none in it.
abbrev pub IsHole : List ℕ → GapRow → Type 0
IsHole blocks g =
    (0 < g.gap_start)
    × (g.gap_start ≤ g.gap_end)
    × In (g.gap_start - 1) blocks
    × In (g.gap_end + 1) blocks
    × ((c : ℕ) → In c blocks → (c < g.gap_start) ⊎ (g.gap_end < c))

pub AscendingFrom-lt : (a c : ℕ) (r : List ℕ) → AscendingFrom a r → In c r → a < c
AscendingFrom-lt a c [] s m = elim m [ ]
AscendingFrom-lt a c (b ∷ r) s m = ground (arith, s, m, AscendingFrom-lt b c r s.1)

gap_row-IsHole :
    (a b : ℕ) (r : List ℕ)
    → AscendingFrom a (b ∷ r)
    → ltb 1 (b - a) ≡ true
    → IsHole (a ∷ b ∷ r) (gap_row a b)
gap_row-IsHole a b r s h = (
  omega arith,
  ground arith,
  inl (omega arith),
  inr (inl (ground arith)),
  λ c m. ground (arith, s.0, m, AscendingFrom-lt b c r s.1),
)

IsHole-cons :
    (a b : ℕ) (r : List ℕ) (g : GapRow)
    → a < b
    → AscendingFrom b r
    → IsHole (b ∷ r) g
    → IsHole (a ∷ b ∷ r) g
IsHole-cons a b r g l s (p, q, i, j, k) = (
  p,
  q,
  inr i,
  inr j,
  λ c m. elim m [
    | inl e ↦ ground (arith, l, AscendingFrom-lt b (g.gap_start - 1) r s, i)
    | inr n ↦ k c n
  ],
)

pub holes_from-IsHole :
    (a : ℕ) (r : List ℕ) (g : GapRow) → AscendingFrom a r → In g (holes_from a r) → IsHole (a ∷ r) g
holes_from-IsHole a [] g s m = elim m [ ]
holes_from-IsHole a (b ∷ r) g s m = ground (
  arith,
  m,
  s.0,
  gap_row-IsHole a b r s,
  IsHole-cons a b r g s.0 s.1,
  holes_from-IsHole b r g s.1,
)

-- A hole lies between the rows that the bounds are moved to just if it meets the bounds.
is_inside-snap :
    (blocks : List ℕ) (since until : ℕ) (g : GapRow)
    → IsHole blocks g
    → is_inside (snap_since blocks since) (snap_until blocks until) g ≡ meets since until g
is_inside-snap blocks since until g (p, q, i, j, k) =
    let low : ltb (snap_since blocks since) g.gap_start ≡ leb since (g.gap_end + 1) =
      elim (snap_since_lem blocks since) [
        | inl (e, all_above) ↦ ground (arith, p, q, e, all_above (g.gap_start - 1) i)
        | inr (m, l, top) ↦
            ground (arith, p, q, l, k (snap_since blocks since) m, top (g.gap_end + 1) j)
      ] in
    let high : ltb g.gap_end (snap_until blocks until) ≡ leb g.gap_start (until + 1) =
      elim (snap_until_lem blocks until) [
        | inl (e, all_below) ↦ ground (arith, p, q, e, all_below (g.gap_end + 1) j)
        | inr (m, l, bottom) ↦
            ground (arith, p, q, l, k (snap_until blocks until) m, bottom (g.gap_start - 1) i)
      ] in
    rw (low, high) refl

filter_by-append :
    (p : GapRow → Bool) (xs ys : List GapRow)
    → filter_by p (xs ++ ys) ≡ filter_by p xs ++ filter_by p ys
filter_by-append p [] ys = refl
filter_by-append p (x ∷ xs) ys = ground (arith, filter_by-append p xs ys)

filter_by-descending :
    (p : GapRow → Bool) (xs : List GapRow)
    → filter_by p (descending xs) ≡ descending (filter_by p xs)
filter_by-descending p [] = refl
filter_by-descending p (g ∷ xs) = ground (
  arith,
  filter_by-append p (descending xs) (g ∷ []),
  filter_by-descending p xs,
  append-nil (descending (filter_by p xs)),
)

pub filter_by-same :
    (p q : GapRow → Bool) (xs : List GapRow)
    → ((g : GapRow) → In g xs → p g ≡ q g)
    → filter_by p xs ≡ filter_by q xs
filter_by-same p q [] h = refl
filter_by-same p q (g ∷ xs) h = rw (h g (inl refl), filter_by-same p q xs (λ a i. h a (inr i))) refl

filter_by-twice :
    (lo hi : ℕ) (xs : List ℕ)
    → filter_by (λ n. leb n hi) (filter_by (λ n. leb lo n) xs) ≡ filter_by (between lo hi) xs
filter_by-twice lo hi [] = refl
filter_by-twice lo hi (x ∷ xs) = ground (arith, filter_by-twice lo hi xs)

-- Between two bounds, `getBlockGaps` lists the highest of the holes that meet them, from the top.
pub get_block_gaps_lem :
    (blocks : List ℕ) (limit since until : ℕ)
    → Ascending blocks
    → get_block_gaps blocks limit (some since) (some until)
      ≡ take limit (filter_by (meets since until) (descending (holes blocks)))
unfolding get_block_gaps
get_block_gaps_lem [] limit since until s = refl
get_block_gaps_lem (a ∷ r) limit since until s =
    let lo : ℕ = snap_since (a ∷ r) since in
    let hi : ℕ = snap_until (a ∷ r) until in
    let inner : holes (filter_by (between lo hi) (a ∷ r))
        ≡ filter_by (meets since until) (holes_from a r) =
      sym (holes-between lo hi a r s)
      ∙ filter_by-same (is_inside lo hi) (meets since until) (holes_from a r)
          (λ g i. is_inside-snap (a ∷ r) since until g (holes_from-IsHole a r g s i)) in
    ap (λ t. take limit (descending (holes t))) (filter_by-twice lo hi (a ∷ r))
    ∙ ap (λ t. take limit (descending t)) inner
    ∙ ap (take limit) (sym (filter_by-descending (meets since until) (holes_from a r)))
