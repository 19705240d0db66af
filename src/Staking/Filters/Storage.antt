-- ===== src/Staking/Filters/Storage.antt =====
-- How the state of the filters is kept: loadFilters and saveFilters.
use pdexplorer.Prelude.{
  ℕ, ◌*◌, ◌^◌, ◌≤◌, Bool, true, false, inl, inr, Option-cases, Option, none, some, String, ◌≡◌,
  refl, sym, ap, ◌∙◌, arith,
}
use pdexplorer.Prelude.Int.{ℤ, pos, negsuc}
use pdexplorer.Staking.Filters.{
  unit, Status, active, waiting, all_statuses, Identity, any_identity, has, verified, Reliability,
  unset, no_miss, from_90, from_100, AprWindow, eras_7, eras_28, eras_84, Sort, apr, commission,
  total_stake, self_stake, reliability, name, Filters, Raw, bool, text, number, RawFilters,
  undefined, null, status_or, identity_or, reliability_or, sort_or, clamp, clamp_or, window_of,
  number_of, sanitize_filters, default_filters,
}

-- The texts and numbers of a state, as its object has them.
abbrev pub status_text : Status → String
status_text active = "active"
status_text waiting = "waiting"
status_text all_statuses = "all"

abbrev pub identity_text : Identity → String
identity_text any_identity = "any"
identity_text has = "has"
identity_text verified = "verified"

abbrev pub reliability_text : Reliability → String
reliability_text unset = ""
reliability_text no_miss = "nomiss"
reliability_text from_90 = "90"
reliability_text from_100 = "100"

abbrev pub window_eras : AprWindow → ℕ
window_eras eras_7 = 7
window_eras eras_28 = 28
window_eras eras_84 = 84

abbrev pub sort_text : Sort → String
sort_text apr = "apr"
sort_text commission = "commission"
sort_text total_stake = "totalStake"
sort_text self_stake = "selfStake"
sort_text reliability = "reliability"
sort_text name = "name"

abbrev pub natural : ℕ → Raw
natural n = number (some (pos n))

unfoldable pub raw_of : Filters → RawFilters
raw_of f = record {
  raw_status = text (status_text f.status);
  raw_max_commission = natural f.max_commission;
  raw_no_recent_raise = bool f.no_recent_raise;
  raw_identity = text (identity_text f.identity);
  raw_not_blocked = bool f.not_blocked;
  raw_reliability = text (reliability_text f.reliable);
  raw_single_page = bool f.single_page;
  raw_min_self_stake = natural f.min_self_stake;
  raw_no_slash = bool f.no_slash;
  raw_spread = bool f.spread;
  raw_apr_window = natural (window_eras f.apr_window * unit);
  raw_sort = text (sort_text f.sort);
}

-- What JSON can say: every value but NaN and the infinities, for which it writes null.
abbrev pub IsPlain : Raw → Type 0
IsPlain undefined = Unit
IsPlain null = Unit
IsPlain (bool b) = Unit
IsPlain (text s) = Unit
IsPlain (number none) = ⊥
IsPlain (number (some z)) = Unit

abbrev pub ArePlain : RawFilters → Type 0
ArePlain r =
    IsPlain r.raw_status
    × IsPlain r.raw_max_commission
    × IsPlain r.raw_no_recent_raise
    × IsPlain r.raw_identity
    × IsPlain r.raw_not_blocked
    × IsPlain r.raw_reliability
    × IsPlain r.raw_single_page
    × IsPlain r.raw_min_self_stake
    × IsPlain r.raw_no_slash
    × IsPlain r.raw_spread
    × IsPlain r.raw_apr_window
    × IsPlain r.raw_sort

raw_of-ArePlain : (f : Filters) → ArePlain (raw_of f)
unfolding raw_of
raw_of-ArePlain f = (tt, tt, tt, tt, tt, tt, tt, tt, tt, tt, tt, tt)

-- The bounds that the two numbers of a state keep to.
abbrev pub InBounds : Filters → Type 0
InBounds f = (f.max_commission ≤ 100 * unit) × (f.min_self_stake ≤ 10 ^ 12 * unit)

status_or-text : (s d : Status) → status_or (text (status_text s)) d ≡ s
unfolding status_or
status_or-text active d = refl
status_or-text waiting d = refl
status_or-text all_statuses d = refl

identity_or-text : (s d : Identity) → identity_or (text (identity_text s)) d ≡ s
unfolding identity_or
identity_or-text any_identity d = refl
identity_or-text has d = refl
identity_or-text verified d = refl

reliability_or-text : (s d : Reliability) → reliability_or (text (reliability_text s)) d ≡ s
unfolding reliability_or
reliability_or-text unset d = refl
reliability_or-text no_miss d = refl
reliability_or-text from_90 d = refl
reliability_or-text from_100 d = refl

sort_or-text : (s d : Sort) → sort_or (text (sort_text s)) d ≡ s
unfolding sort_or
sort_or-text apr d = refl
sort_or-text commission d = refl
sort_or-text total_stake d = refl
sort_or-text self_stake d = refl
sort_or-text reliability d = refl
sort_or-text name d = refl

window_of-eras : (w d : AprWindow) → window_of (some (pos (window_eras w * unit))) d ≡ w
window_of-eras eras_7 d = refl
window_of-eras eras_28 d = refl
window_of-eras eras_84 d = refl

clamp_le : (hi : ℕ) (z : ℤ) → clamp hi z ≤ hi
clamp_le hi (pos m) = ground arith
clamp_le hi (negsuc m) = omega arith

clamp_self : (hi m : ℕ) → m ≤ hi → clamp hi (pos m) ≡ m
clamp_self hi m h = ground arith

clamp_or_le : (o : Option ℤ) (hi d : ℕ) → d ≤ hi → clamp_or o hi d ≤ hi
clamp_or_le none hi d h = h
clamp_or_le (some z) hi d h = clamp_le hi z

-- The platform's `Number` of a text.
module _ (to_number : String → Option ℤ) where
  -- Whatever was read, the numbers of the state are in bounds.
  sanitize_filters-InBounds : (o : Option RawFilters) → InBounds (sanitize_filters to_number o)
  unfolding sanitize_filters default_filters
  sanitize_filters-InBounds none = (omega arith, omega arith)
  sanitize_filters-InBounds (some r) = (
    clamp_or_le (number_of to_number r.raw_max_commission) (100 * unit) (99 * unit) (omega arith),
    clamp_or_le (number_of to_number r.raw_min_self_stake) (10 ^ 12 * unit) 0 (omega arith),
  )

  -- A state whose numbers are in bounds reads back as itself.
  pub sanitize_filters-raw_of :
      (f : Filters) → InBounds f → sanitize_filters to_number (some (raw_of f)) ≡ f
  unfolding sanitize_filters raw_of
  sanitize_filters-raw_of f (c, m) =
      rw
        (
          status_or-text f.status active,
          identity_or-text f.identity any_identity,
          reliability_or-text f.reliable unset,
          sort_or-text f.sort apr,
          window_of-eras f.apr_window eras_28,
          clamp_self (100 * unit) f.max_commission c,
          clamp_self (10 ^ 12 * unit) f.min_self_stake m,
        )
        refl

-- The texts of an object in storage, and the storage under one key: what reading finds, where it does
-- not throw, and the storage after a write, where that does not throw. A page without storage is one
-- that finds nothing.
module _ {Json Store : Type 0} (to_number : String → Option ℤ) (stringify : RawFilters → Json)
    (parse : Json → Option (Option RawFilters)) (get_item : Store → Option (Option Json))
    (set_item : Json → Store → Option Store) where
  abbrev parsed_filters : Option (Option RawFilters) → Filters
  parsed_filters none = sanitize_filters to_number none
  parsed_filters (some r) = sanitize_filters to_number r

  abbrev found_filters : Option (Option Json) → Filters
  found_filters none = sanitize_filters to_number none
  found_filters (some none) = sanitize_filters to_number none
  found_filters (some (some j)) = parsed_filters (parse j)

  unfoldable pub load_filters : Store → Filters
  load_filters st = found_filters (get_item st)

  abbrev written : Store → Option Store → Store × Bool
  written st none = (st, false)
  written st (some after) = (after, true)

  -- The storage after it, and whether it says that the state is kept.
  unfoldable pub save_filters : RawFilters → Store → Store × Bool
  save_filters state st =
      written st (set_item (stringify (raw_of (sanitize_filters to_number (some state)))) st)

  -- With a storage that gives back what was put in, and a JSON that gives back an object without NaN and
  -- infinities: where `saveFilters` says that the state is kept, `loadFilters` finds the state that was
  -- saved, made valid.
  pub load-save_filters :
      ((r : RawFilters) → ArePlain r → parse (stringify r) ≡ some (some r))
      → ((j : Json) (st after : Store)
          → set_item j st ≡ some after
          → get_item after ≡ some (some j))
      → (state : RawFilters) (st : Store) → (save_filters state st).1 ≡ true
      → load_filters (save_filters state st).0 ≡ sanitize_filters to_number (some state)
  unfolding load_filters save_filters
  load-save_filters parsed kept state st h =
      let saved = sanitize_filters to_number (some state) in
      let j = stringify (raw_of saved) in
      let back =
        sanitize_filters-raw_of to_number saved
          (sanitize_filters-InBounds to_number (some state)) in
      elim (Option-cases (set_item j st)) [
        | inl e ↦ absurd (ground (arith, sym (ap (λ o. (written st o).1) e) ∙ h))
        | inr (after, e) ↦
            ap (λ o. found_filters (get_item (written st o).0)) e
            ∙ ap found_filters (kept j st after e)
            ∙ ap parsed_filters (parsed (raw_of saved) (raw_of-ArePlain saved))
            ∙ back
      ]
