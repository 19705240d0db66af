-- ===== src/Indexer/BlockGaps/Falling.antt =====
-- Rows of holes from the top: their order, and what the inner loop of the scan makes of them.
use pdexplorer.Prelude.{
  ℕ, zero, suc, ◌+◌, ◌-◌, ◌≤◌, ◌<◌, ◌≡◌, refl, ap, sym, ◌∙◌, Bool, not, inl, inr, List, [], ◌∷◌,
  ◌++◌, ltb, leb, length, take, take-all, leb→le, filter_by, All, Bool-cases, arith,
}
use mathlib.Core.List.{append_assoc, append-nil}
use pdexplorer.Indexer.BlockGaps.{GapRow, gap_row, holes_from, holes, descending, is_seen, add_part}
use pdexplorer.Indexer.BlockGaps.Window.{AscendingFrom, Ascending}

-- `h` lies below `g`, with a stored height between them.
abbrev pub Under : GapRow → GapRow → Type 0
Under g h = (h.gap_start ≤ h.gap_end) × (h.gap_end + 1 < g.gap_start)

abbrev pub Falling : List GapRow → Type 0
Falling [] = Unit
Falling (g ∷ r) = (g.gap_start ≤ g.gap_end) × All (Under g) r × Falling r

All-append_one :
    (P : GapRow → Type 0) (xs : List GapRow) (g : GapRow) → All P xs → P g → All P (xs ++ (g ∷ []))
All-append_one P [] g h p = (p, tt)
All-append_one P (x ∷ xs) g h p = (h.0, All-append_one P xs g h.1 p)

Falling-append_one :
    (xs : List GapRow) (g : GapRow)
    → Falling xs
    → All (λ (h : GapRow). g.gap_end + 1 < h.gap_start) xs
    → g.gap_start ≤ g.gap_end
    → Falling (xs ++ (g ∷ []))
Falling-append_one [] g f a l = (l, tt, tt)
Falling-append_one (x ∷ xs) g f a l =
    (f.0, All-append_one (Under x) xs g f.1 (l, a.0), Falling-append_one xs g f.2 a.1 l)

All-higher :
    (a b : ℕ) (xs : List GapRow)
    → a ≤ b
    → All (λ (h : GapRow). b < h.gap_start) xs
    → All (λ (h : GapRow). a < h.gap_start) xs
All-higher a b [] l h = tt
All-higher a b (x ∷ xs) l h = (omega (arith, h.0), All-higher a b xs l h.1)

holes_from-higher :
    (a : ℕ) (r : List ℕ)
    → AscendingFrom a r
    → All (λ (h : GapRow). a < h.gap_start) (descending (holes_from a r))
holes_from-higher a [] s = tt
holes_from-higher a (b ∷ r) s = elim (Bool-cases (ltb 1 (b - a))) [
  | inl e ↦ rw e (
      All-append_one (λ (h : GapRow). a < h.gap_start) (descending (holes_from b r)) (gap_row a b)
        (All-higher a b (descending (holes_from b r)) (omega (arith, s.0))
          (holes_from-higher b r s.1))
        (omega arith))
  | inr e ↦ rw e (
      All-higher a b (descending (holes_from b r)) (omega (arith, s.0)) (holes_from-higher b r s.1))
]

holes_from-Falling :
    (a : ℕ) (r : List ℕ) → AscendingFrom a r → Falling (descending (holes_from a r))
holes_from-Falling a [] s = tt
holes_from-Falling a (b ∷ r) s = elim (Bool-cases (ltb 1 (b - a))) [
  | inl e ↦ rw e (
      Falling-append_one (descending (holes_from b r)) (gap_row a b) (holes_from-Falling b r s.1)
        (All-higher (b - 1 + 1) b (descending (holes_from b r)) (omega (arith, s.0))
          (holes_from-higher b r s.1))
        (ground (arith, e)))
  | inr e ↦ rw e (holes_from-Falling b r s.1)
]

pub holes-Falling : (blocks : List ℕ) → Ascending blocks → Falling (descending (holes blocks))
holes-Falling [] s = tt
holes-Falling (a ∷ r) s = holes_from-Falling a r s

module _ (p : GapRow → Bool) where
  All-filter_by : (P : GapRow → Type 0) (xs : List GapRow) → All P xs → All P (filter_by p xs)
  All-filter_by P [] h = tt
  All-filter_by P (x ∷ xs) h = elim (Bool-cases (p x)) [
    | inl e ↦ rw e (h.0, All-filter_by P xs h.1)
    | inr e ↦ rw e (All-filter_by P xs h.1)
  ]

  pub filter_by-Falling : (xs : List GapRow) → Falling xs → Falling (filter_by p xs)
  filter_by-Falling [] f = tt
  filter_by-Falling (x ∷ xs) f = elim (Bool-cases (p x)) [
    | inl e ↦ rw e (f.0, All-filter_by (Under x) xs f.1, filter_by-Falling xs f.2)
    | inr e ↦ rw e (filter_by-Falling xs f.2)
  ]

All-take : (P : GapRow → Type 0) (n : ℕ) (xs : List GapRow) → All P xs → All P (take n xs)
All-take P zero xs h = tt
All-take P (suc n) [] h = tt
All-take P (suc n) (x ∷ xs) h = (h.0, All-take P n xs h.1)

pub take-Falling : (n : ℕ) (xs : List GapRow) → Falling xs → Falling (take n xs)
take-Falling zero xs f = tt
take-Falling (suc n) [] f = tt
take-Falling (suc n) (x ∷ xs) f = (f.0, All-take (Under x) n xs f.1, take-Falling n xs f.2)

abbrev pub is_new : List GapRow → GapRow → Bool
is_new out g = not (is_seen out g)

is_seen-append :
    (out : List GapRow) (g h : GapRow) → Under g h → is_seen (out ++ (g ∷ [])) h ≡ is_seen out h
is_seen-append [] g h u = ground (arith, u)
is_seen-append (x ∷ out) g h u = ground (arith, is_seen-append out g h u)

is_new-append :
    (out part : List GapRow) (g : GapRow)
    → All (Under g) part
    → filter_by (is_new (out ++ (g ∷ []))) part ≡ filter_by (is_new out) part
is_new-append out [] g a = refl
is_new-append out (h ∷ part) g a =
    rw (is_seen-append out g h a.0, is_new-append out part g a.1) refl

take-full :
    (n : ℕ) (xs ys : List GapRow) (g : GapRow)
    → length xs < n
    → n ≤ length (xs ++ (g ∷ []))
    → take n (xs ++ (g ∷ ys)) ≡ xs ++ (g ∷ [])
take-full zero xs ys g l m = absurd (omega arith)
take-full (suc zero) [] ys g l m = refl
take-full (suc (suc n)) [] ys g l m = absurd (omega arith)
take-full (suc n) (x ∷ xs) ys g l m = ap (x ∷◌) (take-full n xs ys g (omega arith) (omega arith))

-- The inner loop appends the rows that were not seen, up to the limit.
pub add_part_lem :
    (limit : ℕ) (out part : List GapRow)
    → length out < limit
    → Falling part
    → add_part limit out part ≡ take limit (out ++ filter_by (is_new out) part)
add_part_lem limit out [] l f = rw (append-nil out, take-all limit out (omega arith)) refl
add_part_lem limit out (g ∷ part) l f = elim (Bool-cases (is_seen out g)) [
  | inl e ↦ rw e (add_part_lem limit out part l f.2)
  | inr e ↦ elim (Bool-cases (leb limit (length (out ++ (g ∷ []))))) [
    | inl full ↦
        rw (e, full) (sym (take-full limit out (filter_by (is_new out) part) g l (leb→le _ _ full)))
    | inr more ↦
        rw (e, more)
          (add_part_lem limit (out ++ (g ∷ [])) part (ground (arith, more)) f.2
            ∙ ap (λ t. take limit ((out ++ (g ∷ [])) ++ t)) (is_new-append out part g f.1)
            ∙ ap (take limit) (append_assoc out (g ∷ []) (filter_by (is_new out) part)))
  ]
]
