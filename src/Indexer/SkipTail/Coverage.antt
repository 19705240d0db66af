-- ===== src/Indexer/SkipTail/Coverage.antt =====
-- `normalizeTail` of lib/skip-tail.js: the heights of a ledger, and its normal form.
use pdexplorer.Prelude.{ℕ, ◌+◌, ◌≤◌, ◌≡◌, refl, ◌⊎◌, ◌↔◌, List, [], ◌∷◌, ◌++◌, arith, All, max, map}
use pdexplorer.Prelude.Sort.{insert_by, sort_by}
use pdexplorer.Indexer.SkipTail.{
  Range, RawRange, to_raw, lo_leb, merge_into, coalesce, normalize_ranges, read_ranges, read_range,
}

-- `h` lies in a range of the ledger.
abbrev pub Covers : List Range → ℕ → Type 0
Covers [] h = ⊥
Covers (r ∷ rs) h = ((r.lo ≤ h) × (h ≤ r.hi)) ⊎ Covers rs h

-- Every range is in order, and a gap of at least one height lies between two; `b` is a lower bound.
abbrev pub Separated : ℕ → List Range → Type 0
Separated b [] = Unit
Separated b (r ∷ rs) = (b ≤ r.lo) × (r.lo ≤ r.hi) × Separated (r.hi + 2) rs

abbrev pub IsNormal : List Range → Type 0
IsNormal rs = Separated 0 rs

abbrev pub IsOrdered : List Range → Type 0
IsOrdered rs = All (λ r. r.lo ≤ r.hi) rs

abbrev Ascending : ℕ → List Range → Type 0
Ascending b [] = Unit
Ascending b (r ∷ rs) = (b ≤ r.lo) × Ascending r.lo rs

pub Covers-append : (xs ys : List Range) (h : ℕ) → Covers (xs ++ ys) h ↔ (Covers xs h ⊎ Covers ys h)
Covers-append [] ys h = ground arith
Covers-append (x ∷ xs) ys h = ground (arith, Covers-append xs ys h)

insert_by-Covers :
    (r : Range) (rs : List Range) (h : ℕ) → Covers (insert_by lo_leb r rs) h ↔ Covers (r ∷ rs) h
insert_by-Covers r [] h = ground arith
insert_by-Covers r (x ∷ rs) h = ground (arith, insert_by-Covers r rs h)

sort_by-Covers : (rs : List Range) (h : ℕ) → Covers (sort_by lo_leb rs) h ↔ Covers rs h
sort_by-Covers [] h = ground arith
sort_by-Covers (r ∷ rs) h =
    ground (arith, insert_by-Covers r (sort_by lo_leb rs) h, sort_by-Covers rs h)

insert_by-Ascending :
    (b : ℕ) (r : Range) (rs : List Range)
    → b ≤ r.lo
    → Ascending b rs
    → Ascending b (insert_by lo_leb r rs)
insert_by-Ascending b r [] h s = omega arith
insert_by-Ascending b r (x ∷ rs) h s = ground (arith, insert_by-Ascending x.lo r rs)

sort_by-Ascending : (rs : List Range) → Ascending 0 (sort_by lo_leb rs)
sort_by-Ascending [] = tt
sort_by-Ascending (r ∷ rs) =
    insert_by-Ascending 0 r (sort_by lo_leb rs) (omega arith) (sort_by-Ascending rs)

insert_by-IsOrdered :
    (r : Range) (rs : List Range) → r.lo ≤ r.hi → IsOrdered rs → IsOrdered (insert_by lo_leb r rs)
insert_by-IsOrdered r [] h s = ground arith
insert_by-IsOrdered r (x ∷ rs) h s = ground (arith, insert_by-IsOrdered r rs)

sort_by-IsOrdered : (rs : List Range) → IsOrdered rs → IsOrdered (sort_by lo_leb rs)
sort_by-IsOrdered [] s = tt
sort_by-IsOrdered (r ∷ rs) s =
    insert_by-IsOrdered r (sort_by lo_leb rs) s.0 (sort_by-IsOrdered rs s.1)

abbrev joined : Range → Range → Range
joined a b = record { lo = a.lo; hi = max a.hi b.hi }

Ascending-weaken : (b c : ℕ) (rs : List Range) → c ≤ b → Ascending b rs → Ascending c rs
Ascending-weaken b c [] h s = tt
Ascending-weaken b c (r ∷ rs) h s = (omega arith, s.1)

merge_into-Covers :
    (last : Range) (rs : List Range) (h : ℕ)
    → Ascending last.lo rs
    → Covers (merge_into last rs) h ↔ Covers (last ∷ rs) h
unfolding merge_into
merge_into-Covers last [] h s = ground arith
merge_into-Covers last (r ∷ rs) h s = ground (
  arith,
  merge_into-Covers (joined last r) rs h,
  merge_into-Covers r rs h,
  Ascending-weaken r.lo last.lo rs,
)

merge_into-Separated :
    (b : ℕ) (last : Range) (rs : List Range)
    → b ≤ last.lo
    → last.lo ≤ last.hi
    → Ascending last.lo rs
    → IsOrdered rs
    → Separated b (merge_into last rs)
unfolding merge_into
merge_into-Separated b last [] hb hl s o = omega arith
merge_into-Separated b last (r ∷ rs) hb hl s o = ground (
  arith,
  merge_into-Separated b (joined last r) rs,
  merge_into-Separated (last.hi + 2) r rs,
  Ascending-weaken r.lo last.lo rs,
)

coalesce-Covers : (rs : List Range) (h : ℕ) → Ascending 0 rs → Covers (coalesce rs) h ↔ Covers rs h
unfolding coalesce
coalesce-Covers [] h s = ground arith
coalesce-Covers (r ∷ rs) h s = merge_into-Covers r rs h s.1

coalesce-IsNormal : (rs : List Range) → Ascending 0 rs → IsOrdered rs → IsNormal (coalesce rs)
unfolding coalesce
coalesce-IsNormal [] s o = tt
coalesce-IsNormal (r ∷ rs) s o = merge_into-Separated 0 r rs (omega arith) o.0 s.1 o.1

pub normalize_ranges-Covers :
    (rs : List Range) (h : ℕ) → Covers (normalize_ranges rs) h ↔ Covers rs h
unfolding normalize_ranges
normalize_ranges-Covers rs h =
    ground
      (arith, coalesce-Covers (sort_by lo_leb rs) h (sort_by-Ascending rs), sort_by-Covers rs h)

pub normalize_ranges-IsNormal : (rs : List Range) → IsOrdered rs → IsNormal (normalize_ranges rs)
unfolding normalize_ranges
normalize_ranges-IsNormal rs o =
    coalesce-IsNormal (sort_by lo_leb rs) (sort_by-Ascending rs) (sort_by-IsOrdered rs o)

pub read_ranges-IsOrdered : (raw : List RawRange) → IsOrdered (read_ranges raw)
unfolding read_ranges read_range
read_ranges-IsOrdered [] = tt
read_ranges-IsOrdered (r ∷ raw) = ground (arith, read_ranges-IsOrdered raw)

-- A ledger that is written and read again is unchanged.
pub read_ranges-to_raw : (rs : List Range) → IsOrdered rs → read_ranges (map to_raw rs) ≡ rs
unfolding read_ranges read_range
read_ranges-to_raw [] o = refl
read_ranges-to_raw (r ∷ rs) o = ground (arith, read_ranges-to_raw rs)

pub IsOrdered-Separated : (b : ℕ) (rs : List Range) → Separated b rs → IsOrdered rs
IsOrdered-Separated b [] s = tt
IsOrdered-Separated b (r ∷ rs) s = (s.1, IsOrdered-Separated (r.hi + 2) rs s.2)

insert_by-first :
    (b : ℕ) (r : Range) (rs : List Range)
    → Separated b rs
    → r.lo ≤ b
    → insert_by lo_leb r rs ≡ r ∷ rs
insert_by-first b r [] s h = refl
insert_by-first b r (x ∷ rs) s h = ground arith

sort_by_self : (b : ℕ) (rs : List Range) → Separated b rs → sort_by lo_leb rs ≡ rs
sort_by_self b [] s = refl
sort_by_self b (r ∷ rs) s =
    ground (arith, sort_by_self (r.hi + 2) rs s.2, insert_by-first (r.hi + 2) r rs s.2)

merge_into_self : (r : Range) (rs : List Range) → Separated (r.hi + 2) rs → merge_into r rs ≡ r ∷ rs
unfolding merge_into
merge_into_self r [] s = refl
merge_into_self r (x ∷ rs) s = ground (arith, merge_into_self x rs)

-- A normal ledger is its own normal form.
pub normalize_ranges_self : (rs : List Range) → IsNormal rs → normalize_ranges rs ≡ rs
unfolding normalize_ranges coalesce
normalize_ranges_self [] s = refl
normalize_ranges_self (r ∷ rs) s = rw (sort_by_self 0 (r ∷ rs) s) (merge_into_self r rs s.2)
