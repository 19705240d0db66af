-- ===== src/Indexer/SkipTail/Bound.antt =====
-- `addTail` of lib/skip-tail.js: the bounding loop loses no height and ends within the bound.
use pdexplorer.Prelude.{
  ℕ, zero, suc, ◌+◌, ◌-◌, ◌≤◌, ◌<◌, ◌≡◌, refl, inl, inr, List, [], ◌∷◌, ◌++◌, arith, ltb,
  Bool-cases, Option, none, some, Option-cases, length,
}
use pdexplorer.Indexer.SkipTail.{
  Range, RawRange, normalize_ranges, normalize_tail, read_ranges, read_range, merge_at,
  closest_from, bound_tail, add_tail, max_tail_ranges,
}
use pdexplorer.Indexer.SkipTail.Coverage.{
  Covers, IsNormal, IsOrdered, Separated, normalize_ranges-Covers, normalize_ranges-IsNormal,
  read_ranges-IsOrdered,
}

-- The index is one that has a successor, or the one that was best before.
closest_from-lt :
    (i at : ℕ) (best : Option ℕ) (rs : List Range) (n : ℕ)
    → at + 1 < n
    → i + length rs ≤ n
    → closest_from i at best rs + 1 < n
unfolding closest_from
closest_from-lt i at best [] n h k = h
closest_from-lt i at best (a ∷ []) n h k = h
closest_from-lt i at none (a ∷ b ∷ rs) n h k =
    closest_from-lt (suc i) i _ (b ∷ rs) n (omega arith) (omega arith)
closest_from-lt i at (some g) (a ∷ b ∷ rs) n h k = elim (Bool-cases (ltb (b.lo - a.hi) g)) [
  | inl e ↦ rw e (closest_from-lt (suc i) i _ (b ∷ rs) n (omega arith) (omega arith))
  | inr e ↦ rw e (closest_from-lt (suc i) at _ (b ∷ rs) n h (omega arith))
]

length-merge_at :
    (i : ℕ) (rs : List Range) → i + 1 < length rs → length (merge_at i rs) + 1 ≡ length rs
unfolding merge_at
length-merge_at zero [] h = absurd (omega arith)
length-merge_at zero (a ∷ []) h = absurd (omega arith)
length-merge_at zero (a ∷ b ∷ rs) h = omega arith
length-merge_at (suc i) [] h = absurd (omega arith)
length-merge_at (suc i) (a ∷ rs) h = omega (arith, length-merge_at i rs)

merge_at-Separated : (b i : ℕ) (rs : List Range) → Separated b rs → Separated b (merge_at i rs)
unfolding merge_at
merge_at-Separated b zero [] s = tt
merge_at-Separated b zero (x ∷ []) s = s
merge_at-Separated b zero (x ∷ y ∷ rs) s = ground arith
merge_at-Separated b (suc i) [] s = tt
merge_at-Separated b (suc i) (x ∷ rs) s = (s.0, s.1, merge_at-Separated (x.hi + 2) i rs s.2)

merge_at-Covers :
    (b i : ℕ) (rs : List Range) (h : ℕ)
    → Separated b rs
    → i + 1 < length rs
    → Covers rs h
    → Covers (merge_at i rs) h
unfolding merge_at
merge_at-Covers b zero [] h s l c = c
merge_at-Covers b zero (x ∷ []) h s l c = absurd (omega arith)
merge_at-Covers b zero (x ∷ y ∷ rs) h s l c = ground arith
merge_at-Covers b (suc i) [] h s l c = c
merge_at-Covers b (suc i) (x ∷ rs) h s l c = ground (arith, merge_at-Covers (x.hi + 2) i rs h)

-- The loop ends by its test when the fuel is the length of the ledger.
length-bound_tail :
    (fuel : ℕ) (rs : List Range)
    → length rs ≤ fuel + max_tail_ranges
    → length (bound_tail fuel rs) ≤ max_tail_ranges
unfolding bound_tail
length-bound_tail zero rs h = omega arith
length-bound_tail (suc fuel) rs h = ground (
  arith,
  closest_from-lt 0 0 none rs (length rs),
  length-merge_at (closest_from 0 0 none rs) rs,
  length-bound_tail fuel (merge_at (closest_from 0 0 none rs) rs),
)

bound_tail-Separated :
    (b fuel : ℕ) (rs : List Range) → Separated b rs → Separated b (bound_tail fuel rs)
unfolding bound_tail
bound_tail-Separated b zero rs s = s
bound_tail-Separated b (suc fuel) rs s = ground (
  arith,
  merge_at-Separated b (closest_from 0 0 none rs) rs,
  bound_tail-Separated b fuel (merge_at (closest_from 0 0 none rs) rs),
)

bound_tail-Covers :
    (b fuel : ℕ) (rs : List Range) (h : ℕ)
    → Separated b rs
    → Covers rs h
    → Covers (bound_tail fuel rs) h
unfolding bound_tail
bound_tail-Covers b zero rs h s c = c
bound_tail-Covers b (suc fuel) rs h s c = ground (
  arith,
  closest_from-lt 0 0 none rs (length rs),
  merge_at-Separated b (closest_from 0 0 none rs) rs,
  merge_at-Covers b (closest_from 0 0 none rs) rs h,
  bound_tail-Covers b fuel (merge_at (closest_from 0 0 none rs) rs) h,
)

bound_tail-small :
    (fuel : ℕ) (rs : List Range) → length rs ≤ max_tail_ranges → bound_tail fuel rs ≡ rs
unfolding bound_tail
bound_tail-small zero rs h = refl
bound_tail-small (suc fuel) rs h = ground arith

-- `none`: the span is dropped; otherwise the ledger with the span in front of the bounding loop.
spanned : List RawRange → Range → List Range
spanned ranges s = normalize_ranges (read_ranges ranges ++ s ∷ [])

spanned-IsNormal :
    (ranges : List RawRange) (r : RawRange) (s : Range)
    → read_range r ≡ some s
    → IsNormal (spanned ranges s)
unfolding spanned
spanned-IsNormal ranges r s e =
    normalize_ranges-IsNormal _ (All-append_one (read_ranges ranges) (read_ranges-IsOrdered ranges))
  where
    in_order : s.lo ≤ s.hi
    in_order = unfold read_range in ground arith

    All-append_one : (xs : List Range) → IsOrdered xs → IsOrdered (xs ++ s ∷ [])
    All-append_one [] o = (in_order, tt)
    All-append_one (x ∷ xs) o = (o.0, All-append_one xs o.1)

pub read_ranges-append_one :
    (ranges : List RawRange) (r : RawRange) (s : Range)
    → read_range r ≡ some s
    → read_ranges (ranges ++ r ∷ []) ≡ read_ranges ranges ++ s ∷ []
unfolding read_ranges
read_ranges-append_one [] r s e = ground arith
read_ranges-append_one (x ∷ ranges) r s e = ground (arith, read_ranges-append_one ranges r s e)

read_ranges-append_none :
    (ranges : List RawRange) (r : RawRange)
    → read_range r ≡ none
    → read_ranges (ranges ++ r ∷ []) ≡ read_ranges ranges
unfolding read_ranges
read_ranges-append_none [] r e = ground arith
read_ranges-append_none (x ∷ ranges) r e = ground (arith, read_ranges-append_none ranges r e)

add_tail-none :
    (ranges : List RawRange) (r : RawRange)
    → read_range r ≡ none
    → add_tail ranges r ≡ normalize_tail ranges
unfolding add_tail
add_tail-none ranges r e = ground arith

add_tail-some :
    (ranges : List RawRange) (r : RawRange) (s : Range)
    → read_range r ≡ some s
    → add_tail ranges r ≡ bound_tail (length (spanned ranges s)) (spanned ranges s)
unfolding add_tail spanned
add_tail-some ranges r s e = ground arith

-- No height of the stored ranges or of the new span is lost, and the result is in normal form.
pub add_tail-Covers :
    (ranges : List RawRange) (span : RawRange)
    → ((h : ℕ) → Covers (read_ranges (ranges ++ span ∷ [])) h → Covers (add_tail ranges span) h)
      × IsNormal (add_tail ranges span)
unfolding normalize_tail spanned
add_tail-Covers ranges span = elim (Option-cases (read_range span)) [
  | inl e ↦
      rw (read_ranges-append_none ranges span e, add_tail-none ranges span e)
        (
          λ h c. (normalize_ranges-Covers (read_ranges ranges) h).1 c,
          normalize_ranges-IsNormal _ (read_ranges-IsOrdered ranges),
        )
  | inr (s, e) ↦
      rw (read_ranges-append_one ranges span s e, add_tail-some ranges span s e)
        (
          λ h c.
              bound_tail-Covers 0 _ _ h (spanned-IsNormal ranges span s e)
                ((normalize_ranges-Covers (read_ranges ranges ++ s ∷ []) h).1 c),
          bound_tail-Separated 0 _ _ (spanned-IsNormal ranges span s e),
        )
]

-- With a valid span the ledger has at most `MAX_TAIL_RANGES` ranges, and it is the exact normal form
-- of what was given wherever that fits.
pub add_tail-bounded :
    (ranges : List RawRange) (span : RawRange) (s : Range)
    → read_range span ≡ some s
    → (length (add_tail ranges span) ≤ max_tail_ranges)
      × (length (normalize_tail (ranges ++ span ∷ [])) ≤ max_tail_ranges
          → add_tail ranges span ≡ normalize_tail (ranges ++ span ∷ []))
unfolding normalize_tail spanned
add_tail-bounded ranges span s e =
    rw (read_ranges-append_one ranges span s e, add_tail-some ranges span s e)
      (length-bound_tail _ _ (omega arith), λ h. bound_tail-small _ _ h)
