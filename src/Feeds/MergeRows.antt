-- ===== src/Feeds/MergeRows.antt =====
-- lib/merge-rows.js: a REST snapshot folded into the rows that the browser holds.
pub mod Poll
pub mod Cap
use pdexplorer.Prelude.{
  ℕ, Bool, true, false, not, ◌&&◌, ◌||◌, Option, none, some, List, [], ◌∷◌, ◌++◌, map, any, take,
  filter_by, ◌==◌, if◌then◌else◌,
}
use pdexplorer.Prelude.Int.{ℤ, leb_ℤ, ltb_ℤ, min_ℤ, max_ℤ}
use pdexplorer.Prelude.Js.{JsValue, undefined, null, blank, nan, int}
use pdexplorer.Prelude.Sort.{sort_by}
use pdexplorer.Prelude.Text.{Text, text_eq, is_empty}

-- `list.slice(0, cap)` where the cap is not 0, else a copy.
abbrev pub capped {ℓ} : {A : Type ℓ} → ℕ → List A → List A
capped cap rows = if cap == 0 then rows else take cap rows

-- `Math.max(...ranks)` and `Math.min(...ranks)`
unfoldable pub newest_of : ℤ → List ℤ → ℤ
newest_of z [] = z
newest_of z (w ∷ ws) = newest_of (max_ℤ z w) ws

unfoldable pub oldest_of : ℤ → List ℤ → ℤ
oldest_of z [] = z
oldest_of z (w ∷ ws) = oldest_of (min_ℤ z w) ws

abbrev pub finite : Option ℤ → List ℤ → List ℤ
finite none zs = zs
finite (some z) zs = z ∷ zs

abbrev pub boundary : Option ℤ → ℤ → ℤ → Bool
boundary none newest oldest = false
boundary (some z) newest oldest = leb_ℤ newest z || leb_ℤ z oldest

-- A null identity is never in the set.
abbrev pub known_as : Option Text → List (Option Text) → Bool
known_as none ids = false
known_as (some id) [] = false
known_as (some id) (none ∷ ids) = known_as (some id) ids
known_as (some id) (some other ∷ ids) = text_eq id other || known_as (some id) ids

-- The comparison of two ranks, then of the two flags; where a rank is NaN the two count as equal.
abbrev pub in_order : Option ℤ → Option ℤ → Bool → Bool → Bool
in_order none b ua ub = true
in_order (some a) none ua ub = true
in_order (some a) (some b) ua ub =
    if ltb_ℤ b a then true else if ltb_ℤ a b then false else (ua || not ub)

-- `identity_of` gives null everywhere where the caller passes none.
module _ {A : Type 0} (key_of : A → Text) (rank_of : A → Option ℤ) (identity_of : A → Option Text)
    (unconfirmed : A → Bool) where
  unfoldable pub ranks : List A → List ℤ
  ranks [] = []
  ranks (x ∷ xs) = finite (rank_of x) (ranks xs)

  unfoldable pub is_kept : List A → ℤ → ℤ → A → Bool
  is_kept snapshot newest oldest row =
      not (any (text_eq (key_of row)) (map key_of snapshot))
      && (not (known_as (identity_of row) (map identity_of snapshot))
          && boundary (rank_of row) newest oldest)

  abbrev pub row_order : A → A → Bool
  row_order a b = in_order (rank_of a) (rank_of b) (unconfirmed a) (unconfirmed b)

  unfoldable pub merge_ranked : List A → List A → ℤ → ℤ → List A
  merge_ranked mine snapshot newest oldest =
      sort_by row_order (snapshot ++ filter_by (is_kept snapshot newest oldest) mine)

  unfoldable pub merge_rows : List A → List A → ℕ → List A
  merge_rows mine [] cap = capped cap mine
  merge_rows mine (s ∷ ss) cap = elim (ranks (s ∷ ss)) [
    | [] ↦ capped cap (s ∷ ss)
    | z ∷ zs ↦ capped cap (merge_ranked mine (s ∷ ss) (newest_of z zs) (oldest_of z zs))
  ]
