-- ===== src/Indexer/SkipTail/Take.antt =====
-- `takeFromTail` and `tailSize` of lib/skip-tail.js: draining loses and invents no height.
use pdexplorer.Prelude.{
  ℕ, zero, suc, ◌+◌, ◌-◌, ◌≤◌, ◌<◌, ◌≡◌, refl, ◌⊎◌, inl, inr, ◌↔◌, List, [], ◌∷◌, ◌++◌, arith, leb,
  min, Bool-cases, length, length-append, In,
}
use mathlib.Core.List.{append_assoc, append-nil}
use pdexplorer.Prelude.Int.{pos}
use pdexplorer.Prelude.Js.{int}
use pdexplorer.Indexer.SkipTail.{
  Range, RawRange, Taken, range_from, take_step, take_loop, take_from_tail, size_of, tail_size,
  normalize_tail, none_taken, read_ranges,
}
use pdexplorer.Indexer.SkipTail.Coverage.{
  Covers, Covers-append, IsNormal, IsOrdered, Separated, IsOrdered-Separated,
  normalize_ranges-Covers, normalize_ranges-IsNormal, read_ranges-IsOrdered,
}

length-range_from : (lo k : ℕ) → length (range_from lo k) ≡ k
unfolding range_from
length-range_from lo zero = refl
length-range_from lo (suc k) = omega (arith, length-range_from (lo + 1) k)

pub range_from-In : (lo k h : ℕ) → In h (range_from lo k) ↔ ((lo ≤ h) × (h < lo + k))
unfolding range_from
range_from-In lo zero h = ground arith
range_from-In lo (suc k) h = ground (arith, range_from-In (lo + 1) k h)

In-append_iff : (h : ℕ) (xs ys : List ℕ) → In h (xs ++ ys) ↔ (In h xs ⊎ In h ys)
In-append_iff h [] ys = ground arith
In-append_iff h (x ∷ xs) ys = ground (arith, In-append_iff h xs ys)

size_of-append : (xs ys : List Range) → size_of (xs ++ ys) ≡ size_of xs + size_of ys
unfolding size_of
size_of-append [] ys = omega arith
size_of-append (x ∷ xs) ys = omega (arith, size_of-append xs ys)

-- What a partial result accounts for.
abbrev pub Holds : Taken → ℕ → Type 0
Holds t h = In h t.heights ⊎ Covers t.rest h

take_step-Holds :
    (n : ℕ) (t : Taken) (r : Range) (h : ℕ)
    → r.lo ≤ r.hi
    → Holds (take_step n t r) h ↔ (Holds t h ⊎ ((r.lo ≤ h) × (h ≤ r.hi)))
unfolding take_step
take_step-Holds n t r h o = ground (
  arith,
  In-append_iff h t.heights (range_from r.lo (r.hi + 1 - r.lo)),
  In-append_iff h t.heights (range_from r.lo (n - length t.heights)),
  range_from-In r.lo (r.hi + 1 - r.lo) h,
  range_from-In r.lo (n - length t.heights) h,
  Covers-append t.rest (r ∷ []) h,
  Covers-append t.rest (record { lo = r.lo + (n - length t.heights); hi = r.hi } ∷ []) h,
)

take_loop-Holds :
    (n : ℕ) (t : Taken) (rs : List Range) (h : ℕ)
    → IsOrdered rs
    → Holds (take_loop n t rs) h ↔ (Holds t h ⊎ Covers rs h)
unfolding take_loop
take_loop-Holds n t [] h o = ground arith
take_loop-Holds n t (r ∷ rs) h o =
    ground (arith, take_step-Holds n t r h o.0, take_loop-Holds n (take_step n t r) rs h o.1)

-- The heights owed before and after a round.
take_step-size :
    (n : ℕ) (t : Taken) (r : Range)
    → r.lo ≤ r.hi
    → length t.heights ≤ n
    → (length (take_step n t r).heights ≡ min n (length t.heights + (r.hi + 1 - r.lo)))
      × (length (take_step n t r).heights + size_of (take_step n t r).rest
          ≡ length t.heights + size_of t.rest + (r.hi + 1 - r.lo))
unfolding take_step size_of
take_step-size n t r o h = ground (
  arith,
  length-append t.heights (range_from r.lo (r.hi + 1 - r.lo)),
  length-append t.heights (range_from r.lo (n - length t.heights)),
  length-range_from r.lo (r.hi + 1 - r.lo),
  length-range_from r.lo (n - length t.heights),
  size_of-append t.rest (r ∷ []),
  size_of-append t.rest (record { lo = r.lo + (n - length t.heights); hi = r.hi } ∷ []),
)

take_loop-size :
    (n : ℕ) (t : Taken) (rs : List Range)
    → IsOrdered rs
    → length t.heights ≤ n
    → (length (take_loop n t rs).heights ≡ min n (length t.heights + size_of rs))
      × (length (take_loop n t rs).heights + size_of (take_loop n t rs).rest
          ≡ length t.heights + size_of t.rest + size_of rs)
unfolding take_loop size_of
take_loop-size n t [] o h = omega arith
take_loop-size n t (r ∷ rs) o h =
    ground (arith, take_step-size n t r o.0 h, take_loop-size n (take_step n t r) rs o.1)

pub normal : (raw : List RawRange) → IsNormal (normalize_tail raw)
unfolding normalize_tail
normal raw = normalize_ranges-IsNormal (read_ranges raw) (read_ranges-IsOrdered raw)

-- A drain of at most `n` heights, `n` positive: the heights taken and the ranges kept hold exactly
-- the heights of the ledger.
pub take_from_tail-conserves :
    (raw : List RawRange) (n h : ℕ)
    → Holds (take_from_tail raw (int (pos n))) h ↔ Covers (read_ranges raw) h
unfolding take_from_tail normalize_tail
take_from_tail-conserves raw n h = ground (
  arith,
  normalize_ranges-Covers (read_ranges raw) h,
  take_loop-Holds n (none_taken []) (normalize_tail raw) h (IsOrdered-Separated 0 _ (normal raw)),
)

-- A drain takes as many heights as are owed, up to the limit, and what is owed falls by as many.
pub take_from_tail-size :
    (raw : List RawRange) (n : ℕ)
    → (length (take_from_tail raw (int (pos n))).heights ≡ min n (tail_size raw))
      × (length (take_from_tail raw (int (pos n))).heights
            + size_of (take_from_tail raw (int (pos n))).rest
          ≡ tail_size raw)
unfolding take_from_tail tail_size size_of
take_from_tail-size raw n = ground (
  arith,
  take_loop-size n (none_taken []) (normalize_tail raw) (IsOrdered-Separated 0 _ (normal raw)),
)

Separated-weaken : (b c : ℕ) (rs : List Range) → c ≤ b → Separated b rs → Separated c rs
Separated-weaken b c [] h s = tt
Separated-weaken b c (r ∷ rs) h s = (omega arith, s.1, s.2)

Separated-remove :
    (b : ℕ) (xs : List Range) (r : Range) (rs : List Range)
    → Separated b (xs ++ r ∷ rs)
    → Separated b (xs ++ rs)
Separated-remove b [] r rs s = Separated-weaken (r.hi + 2) b rs (omega arith) s.2
Separated-remove b (x ∷ xs) r rs s = (s.0, s.1, Separated-remove (x.hi + 2) xs r rs s.2)

-- The front of a range may be cut off.
Separated-cut :
    (b : ℕ) (xs : List Range) (r : Range) (rs : List Range) (lo : ℕ)
    → r.lo ≤ lo
    → lo ≤ r.hi
    → Separated b (xs ++ r ∷ rs)
    → Separated b (xs ++ record { lo = lo; hi = r.hi } ∷ rs)
Separated-cut b [] r rs lo h k s = (omega arith, k, s.2)
Separated-cut b (x ∷ xs) r rs lo h k s = (s.0, s.1, Separated-cut (x.hi + 2) xs r rs lo h k s.2)

take_step-Separated :
    (n : ℕ) (t : Taken) (r : Range) (rs : List Range)
    → Separated 0 (t.rest ++ r ∷ rs)
    → r.lo ≤ r.hi
    → Separated 0 ((take_step n t r).rest ++ rs)
unfolding take_step
take_step-Separated n t r rs s o = elim (Bool-cases (leb n (length t.heights))) [
  | inl e ↦ rw (e, append_assoc) s
  | inr e ↦ elim (Bool-cases (leb (r.hi + 1 - r.lo) (n - length t.heights))) [
    | inl f ↦ rw (e, f) (Separated-remove 0 t.rest r rs s)
    | inr f ↦
        rw (e, f, append_assoc)
          (Separated-cut 0 t.rest r rs (r.lo + (n - length t.heights)) (omega arith) (ground arith)
            s)
  ]
]

take_loop-Separated :
    (n : ℕ) (t : Taken) (rs : List Range)
    → IsOrdered rs
    → Separated 0 (t.rest ++ rs)
    → Separated 0 (take_loop n t rs).rest
unfolding take_loop
take_loop-Separated n t [] o s = rw append-nil at s
take_loop-Separated n t (r ∷ rs) o s =
    take_loop-Separated n (take_step n t r) rs o.1 (take_step-Separated n t r rs s o.0)

-- What a drain leaves is in normal form.
pub take_from_tail-IsNormal :
    (raw : List RawRange) (n : ℕ) → IsNormal (take_from_tail raw (int (pos n))).rest
unfolding take_from_tail
take_from_tail-IsNormal raw n = ground (
  arith,
  normal raw,
  take_loop-Separated n (none_taken []) (normalize_tail raw) (IsOrdered-Separated 0 _ (normal raw))
      (normal raw),
)
