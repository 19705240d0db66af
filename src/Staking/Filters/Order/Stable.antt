-- ===== src/Staking/Filters/Order/Stable.antt =====
-- The sort of the validators: what it keeps, and in which order.
use mathlib.Core.List.{Perm}
use pdexplorer.Prelude.{
  ℕ, suc, Bool, true, false, Option, none, some, List, [], ◌∷◌, map, ◌≡◌, refl, ap, arith,
}
use pdexplorer.Prelude.Sort.{sort_by-Perm, IsSorted, sort_by-IsSorted}
use pdexplorer.Prelude.Text.{Text}
use pdexplorer.Staking.Filters.{Filters}
use pdexplorer.Staking.Filters.Pass.{Validator}
use pdexplorer.Staking.Filters.Order.{
  Placed, leb_text, key_leb, goes_before, placed, sorted_rows, is_descending,
}

leb_text_total : (s t : Text) → leb_text s t ≡ false → leb_text t s ≡ true
unfolding leb_text
leb_text_total [] t h = absurd (ground (arith, h))
leb_text_total (a ∷ s) [] h = refl
leb_text_total (a ∷ s) (b ∷ t) h = ground (arith, h, leb_text_total s t)

leb_text_trans : (s t u : Text) → leb_text s t ≡ true → leb_text t u ≡ true → leb_text s u ≡ true
unfolding leb_text
leb_text_trans [] t u h k = refl
leb_text_trans (a ∷ s) [] u h k = absurd (ground (arith, h))
leb_text_trans (a ∷ s) (b ∷ t) [] h k = absurd (ground (arith, k))
leb_text_trans (a ∷ s) (b ∷ t) (c ∷ u) h k = ground (arith, h, k, leb_text_trans s t u)

key_leb_total :
    (d : Bool) (x : Option Text) (t : ℕ) (y : Option Text) (u : ℕ)
    → key_leb d x t y u ≡ false
    → key_leb d y u x t ≡ true
key_leb_total d none t none u h = ground (arith, h)
key_leb_total d none t (some b) u h = refl
key_leb_total d (some a) t none u h = absurd (ground (arith, h))
key_leb_total true (some a) t (some b) u h = leb_text_total b a h
key_leb_total false (some a) t (some b) u h = leb_text_total a b h

key_leb_trans :
    (d : Bool) (x : Option Text) (t : ℕ) (y : Option Text) (u : ℕ) (z : Option Text) (w : ℕ)
    → key_leb d x t y u ≡ true
    → key_leb d y u z w ≡ true
    → key_leb d x t z w ≡ true
key_leb_trans d none t none u none w h k = ground (arith, h, k)
key_leb_trans d none t none u (some c) w h k = absurd (ground (arith, k))
key_leb_trans d none t (some b) u z w h k = absurd (ground (arith, h))
key_leb_trans d (some a) t none u none w h k = refl
key_leb_trans d (some a) t none u (some c) w h k = absurd (ground (arith, k))
key_leb_trans d (some a) t (some b) u none w h k = refl
key_leb_trans true (some a) t (some b) u (some c) w h k = leb_text_trans c b a k h
key_leb_trans false (some a) t (some b) u (some c) w h k = leb_text_trans a b c h k

goes_before_total : (d : Bool) (a b : Placed) → goes_before d a b ≡ false → goes_before d b a ≡ true
unfolding goes_before
goes_before_total d a b h =
    ground
      (arith, h, key_leb_total d a.key a.tie b.key b.tie, key_leb_total d b.key b.tie a.key a.tie)

goes_before_trans :
    (d : Bool) (a b c : Placed)
    → goes_before d a b ≡ true
    → goes_before d b c ≡ true
    → goes_before d a c ≡ true
unfolding goes_before
goes_before_trans d a b c h k = ground (
  arith,
  h,
  k,
  key_leb_total d a.key a.tie b.key b.tie,
  key_leb_total d b.key b.tie c.key c.tie,
  key_leb_trans d c.key c.tie a.key a.tie b.key b.tie,
  key_leb_trans d b.key b.tie c.key c.tie a.key a.tie,
  key_leb_trans d a.key a.tie b.key b.tie c.key c.tie,
)

map-placed : (s : Filters) (i : ℕ) (vs : List Validator) → map (λ p. p.row) (placed s i vs) ≡ vs
unfolding placed
map-placed s i [] = refl
map-placed s i (v ∷ vs) = ap (v ∷◌) (map-placed s (suc i) vs)

-- The sort rearranges the list, and its rows stand in the order of the comparison, which looks at the
-- places in the list that came in where the keys are equal.
pub sort_validators_lem :
    (s : Filters) (vs : List Validator)
    → Perm (sorted_rows s vs) (placed s 0 vs)
      × (map (λ p. p.row) (placed s 0 vs) ≡ vs)
      × IsSorted (goes_before (is_descending s.sort)) (sorted_rows s vs)
unfolding sorted_rows
sort_validators_lem s vs =
    let before = goes_before (is_descending s.sort) in
    (
      sort_by-Perm before (placed s 0 vs),
      map-placed s 0 vs,
      sort_by-IsSorted before (goes_before_total (is_descending s.sort))
          (goes_before_trans (is_descending s.sort)) (placed s 0 vs),
    )
