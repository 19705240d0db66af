-- ===== src/Staking/Commission.antt =====
-- lib/commission-history.js: whether a validator moved its commission, and which way. A commission is
-- in units of 10^-7 percentage points, the parts of a Perbill. A row that is missing from the list, and
-- `Number` of a list or an object, are left out.
pub mod Range
pub mod Evidence
use pdexplorer.Prelude.{
  ℕ, zero, suc, ◌+◌, ◌-◌, ◌*◌, ◌^◌, Bool, true, false, not, ◌&&◌, ◌||◌, Option, none, some, List,
  [], ◌∷◌, ltb, leb, ◌==◌, length, if◌then◌else◌,
}
use pdexplorer.Prelude.Int.{ℤ, pos, pos_part, neg_part, ◌+ℤ◌, ◌-ℤ◌, ltb_ℤ, leb_ℤ, min_ℤ, max_ℤ}
use pdexplorer.Prelude.Js.{JsValue, undefined, null, blank, nan, int, number}
use pdexplorer.Prelude.Sort.{sort_by}

abbrev pub commission_epsilon : ℕ
commission_epsilon = 10 ^ 5

-- A row of the history. A Boolean in the place of a number does not come from the database.
pub record HistoryRow : Type 0 where
  pub row_era : JsValue
  pub row_commission : JsValue
  pub row_stake : JsValue

pub record Point : Type 0 where
  pub era : ℤ
  pub rate : ℤ

abbrev pub is_real_number : JsValue → Option ℤ
is_real_number undefined = none
is_real_number null = none
is_real_number blank = none
is_real_number nan = none
is_real_number (int z) = some z

abbrev is_positive : Option ℤ → Bool
is_positive none = false
is_positive (some z) = ltb_ℤ (pos 0) z

unfoldable pub was_elected_in_era : HistoryRow → Bool
was_elected_in_era r = elim r.row_stake [
  | undefined ↦ true
  | null ↦ true
  | blank ↦ is_positive (number blank)
  | nan ↦ is_positive (number nan)
  | int z ↦ is_positive (number (int z))
]

abbrev pub point_from : Option ℤ → Option ℤ → Bool → Option Point
point_from none c elected = none
point_from (some e) none elected = none
point_from (some e) (some c) elected = if elected then some (record { era = e; rate = c }) else none

-- The point of a row that counts.
unfoldable pub point_of : HistoryRow → Option Point
point_of r =
    point_from (is_real_number r.row_era) (is_real_number r.row_commission) (was_elected_in_era r)

abbrev pub cons_some : Option Point → List Point → List Point
cons_some none ps = ps
cons_some (some p) ps = p ∷ ps

abbrev pub points : List HistoryRow → List Point
points [] = []
points (r ∷ rs) = cons_some (point_of r) (points rs)

abbrev pub earlier : Point → Point → Bool
earlier a b = leb_ℤ a.era b.era

unfoldable pub series_of : List HistoryRow → List Point
series_of rows = sort_by earlier (points rows)

pub record RateChange : Type 0 where
  pub change_era : ℤ
  pub from_rate : ℤ
  pub to_rate : ℤ
  pub earliest_era : ℤ
  pub certain : Bool

-- The variables of the loop.
pub record Walk : Type 0 where
  pub changes : ℕ
  pub raises : ℕ
  pub cuts : ℕ
  pub gaps : ℕ
  pub last_change : Option RateChange

abbrev pub start : Walk
start = record { changes = 0; raises = 0; cuts = 0; gaps = 0; last_change = none }

-- `Math.abs(a - b)`
abbrev pub distance : ℤ → ℤ → ℕ
distance a b =
    let x = pos_part a + neg_part b in let y = pos_part b + neg_part a in (x - y) + (y - x)

abbrev pub change_between : Point → Point → RateChange
change_between p q = record {
  change_era = q.era;
  from_rate = p.rate;
  to_rate = q.rate;
  earliest_era = p.era +ℤ pos 1;
  certain = leb_ℤ q.era (p.era +ℤ pos 1) && leb_ℤ (p.era +ℤ pos 1) q.era;
}

-- The loop's body at two points that follow each other.
unfoldable pub walk_step : Point → Point → Walk → Walk
walk_step p q w =
    let gaps = if ltb_ℤ (p.era +ℤ pos 1) q.era then suc w.gaps else w.gaps in
    if ltb (distance q.rate p.rate) commission_epsilon then record w { gaps = gaps } else record {
      changes = suc w.changes;
      raises = (if ltb_ℤ p.rate q.rate then suc w.raises else w.raises);
      cuts = (if ltb_ℤ p.rate q.rate then w.cuts else suc w.cuts);
      gaps = gaps;
      last_change = some (change_between p q);
    }

abbrev pub walk : Point → List Point → Walk → Walk
walk p [] w = w
walk p (q ∷ qs) w = walk q qs (walk_step p q w)

abbrev pub last_point : Point → List Point → Point
last_point p [] = p
last_point p (q ∷ qs) = last_point q qs

abbrev pub least : ℤ → List Point → ℤ
least z [] = z
least z (p ∷ ps) = least (min_ℤ z p.rate) ps

abbrev pub greatest : ℤ → List Point → ℤ
greatest z [] = z
greatest z (p ∷ ps) = greatest (max_ℤ z p.rate) ps

pub data Volatility : Type 0 where
  unknown stable moved volatile : Volatility

unfoldable pub classify_volatility : ℕ → ℕ → ℤ → ℤ → Volatility
classify_volatility tracked changes lo hi =
    if ltb tracked 3
    then unknown
    else if changes == 0
    then stable
    else if leb 2 changes || leb_ℤ (lo +ℤ pos (5 * 10 ^ 7)) hi
    then volatile
    else moved

pub record Figures : Type 0 where
  pub era_span : ℤ
  pub current : ℤ
  pub lowest : ℤ
  pub highest : ℤ

-- `figures` are the fields that are null, or 0 for the span, where nothing is tracked.
pub record Summary : Type 0 where
  pub eras_tracked : ℕ
  pub figures : Option Figures
  pub moves : Walk
  pub volatility : Volatility

abbrev pub summarize_series : List Point → Summary
summarize_series [] = record {
  eras_tracked = 0;
  figures = none;
  moves = start;
  volatility = unknown;
}
summarize_series (p ∷ ps) =
    let w = walk p ps start in
    let lo = least p.rate ps in
    let hi = greatest p.rate ps in
    record {
      eras_tracked = suc (length ps);
      figures = some (record {
        era_span = (last_point p ps).era -ℤ p.era +ℤ pos 1;
        current = (last_point p ps).rate;
        lowest = lo;
        highest = hi;
      });
      moves = w;
      volatility = classify_volatility (suc (length ps)) w.changes lo hi;
    }

unfoldable pub summarize_commission_history : List HistoryRow → Summary
summarize_commission_history rows = summarize_series (series_of rows)

abbrev pub is_unknown : Volatility → Bool
is_unknown v = elim v [ unknown ↦ true | _ ↦ false ]

abbrev pub is_recent : RateChange → Volatility → Option ℤ → ℤ → Bool
is_recent c v none within = false
is_recent c v (some now) within =
    if leb_ℤ c.to_rate c.from_rate || is_unknown v
    then false
    else leb_ℤ now (c.earliest_era +ℤ within)

abbrev pub recent_change : Option RateChange → Volatility → Option ℤ → ℤ → Bool
recent_change none v now within = false
recent_change (some c) v now within = is_recent c v now within

unfoldable pub raised_recently : Summary → JsValue → ℤ → Bool
raised_recently s current_era within =
    recent_change s.moves.last_change s.volatility (is_real_number current_era) within

abbrev ahead : Option ℤ → Option Figures → Bool
ahead none f = false
ahead (some live) none = false
ahead (some live) (some f) = leb_ℤ (f.current +ℤ pos commission_epsilon) live

unfoldable pub pending_raise : Summary → JsValue → Bool
pending_raise s live = ahead (is_real_number live) s.figures
