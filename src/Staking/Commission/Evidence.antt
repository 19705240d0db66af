-- ===== src/Staking/Commission/Evidence.antt =====
-- What the badge of a recent raise rests on.
use pdexplorer.Prelude.{
  ℕ, ◌≤◌, ◌<◌, Bool, true, false, ◌||◌, inl, inr, ◌⊎◌, ◌≡◌, ◌∙◌, refl, sym, ap, subst, Option, none,
  some, List, [], ◌∷◌, arith, All, All-In, In, length, ltb, Bool-cases, Option-cases, if◌then◌else◌,
}
use pdexplorer.Prelude.Int.{ℤ, pos, ◌+ℤ◌, ◌≤ℤ◌, ◌<ℤ◌, leb_ℤ}
use pdexplorer.Prelude.Js.{JsValue, undefined, null, blank, nan, int}
use pdexplorer.Prelude.Sort.{IsSorted, sort_by-In, sort_by-IsSorted}
use pdexplorer.Staking.Commission.{
  HistoryRow, Point, RateChange, points, point_of, cons_some, earlier, was_elected_in_era,
  is_real_number, Walk, start, walk_step, walk, distance, commission_epsilon, change_between,
  Summary, summarize_series, series_of, summarize_commission_history, raised_recently, is_unknown,
  is_recent, recent_change, Volatility,
}
use pdexplorer.Staking.Commission.Range.{summarize_commission_history-volatility}

-- The row is one of an era in which the validator was elected, with the era and the commission of the
-- point.
abbrev pub Shows : HistoryRow → Point → Type 0
Shows r p =
    (r.row_era ≡ int p.era) × (r.row_commission ≡ int p.rate) × (was_elected_in_era r ≡ true)

point_of-Shows : (r : HistoryRow) (p : Point) → point_of r ≡ some p → Shows r p
unfolding point_of
point_of-Shows r p h = ground (arith, h)

cons_some-In :
    (o : Option Point) (p : Point) (ps : List Point)
    → In p (cons_some o ps)
    → (o ≡ some p) ⊎ In p ps
cons_some-In none p ps m = inr m
cons_some-In (some q) p ps (inl e) = inl (ap some (sym e))
cons_some-In (some q) p ps (inr m) = inr m

points-Shows :
    (rows : List HistoryRow) (p : Point)
    → In p (points rows)
    → (r : HistoryRow) × In r rows × Shows r p
points-Shows [] p m = elim m [ ]
points-Shows (r ∷ rs) p m = elim (cons_some-In (point_of r) p (points rs) m) [
  | inl e ↦ (r, inl refl, point_of-Shows r p e)
  | inr k ↦ let (s, inside, shows) = points-Shows rs p k in (s, inr inside, shows)
]

-- The second point comes after the first, and none between them.
abbrev pub Consecutive : List Point → Point → Point → Type 0
Consecutive ps p q =
    (p.era ≤ℤ q.era) × ((x : Point) → In x ps → (x.era ≤ℤ p.era) ⊎ (q.era ≤ℤ x.era))

-- A change that the loop has seen, between two points of the series.
abbrev Seen : List Point → Option RateChange → Type 0
Seen ps o =
    (c : RateChange)
    → o ≡ some c
    → (p : Point) × (q : Point) × In p ps
      × In q ps
      × (c ≡ change_between p q)
      × (commission_epsilon ≤ distance q.rate p.rate)
      × Consecutive ps p q

walk_step_last :
    (p q : Point) (w : Walk) (b : Bool)
    → ltb (distance q.rate p.rate) commission_epsilon ≡ b
    → (walk_step p q w).last_change ≡ (if b then w.last_change else some (change_between p q))
unfolding walk_step
walk_step_last p q w b h = ground (arith, h)

walk_step-Seen :
    (all : List Point) (p q : Point) (w : Walk)
    → In p all
    → In q all
    → Consecutive all p q
    → Seen all w.last_change
    → Seen all (walk_step p q w).last_change
walk_step-Seen all p q w mp mq next seen c h =
    elim (Bool-cases (ltb (distance q.rate p.rate) commission_epsilon)) [
      | inl e ↦ seen c (sym (walk_step_last p q w true e) ∙ h)
      | inr e ↦
          let same =
            ap (λ o. elim o [ none ↦ c | some d ↦ d ]) (sym (walk_step_last p q w false e) ∙ h) in
          (p, q, mp, mq, sym same, ground (arith, e), next)
    ]

ltb_of : (a b : ℤ) → leb_ℤ a b ≡ false → b <ℤ a
ltb_of a b h = ground (arith, h)

leb_of : (a b : ℤ) → leb_ℤ a b ≡ true → a ≤ℤ b
leb_of a b h = ground (arith, h)

gap_after :
    (p q : Point) (qs : List Point) (x : Point)
    → All (λ y. earlier q y ≡ true) qs
    → (x.era ≤ℤ p.era) ⊎ In x (q ∷ qs)
    → (x.era ≤ℤ p.era) ⊎ (q.era ≤ℤ x.era)
gap_after p q qs x a (inl before) = inl before
gap_after p q qs x a (inr (inl e)) = inr (rw e (ground arith))
gap_after p q qs x a (inr (inr m)) =
    inr (leb_of q.era x.era (All-In (λ y. earlier q y ≡ true) x qs a m))

passed :
    (p q : Point) (qs : List Point) (x : Point)
    → p.era ≤ℤ q.era
    → (x.era ≤ℤ p.era) ⊎ In x (q ∷ qs)
    → (x.era ≤ℤ q.era) ⊎ In x qs
passed p q qs x le (inl before) = inl (ground (arith, le, before))
passed p q qs x le (inr (inl e)) = inl (rw e (ground arith))
passed p q qs x le (inr (inr m)) = inr m

walk-Seen :
    (all : List Point) (p : Point) (ps : List Point) (w : Walk)
    → In p all
    → ((q : Point) → In q ps → In q all)
    → IsSorted earlier (p ∷ ps)
    → ((x : Point) → In x all → (x.era ≤ℤ p.era) ⊎ In x ps)
    → Seen all w.last_change
    → Seen all (walk p ps w).last_change
walk-Seen all p [] w mp sub sorted split seen = seen
walk-Seen all p (q ∷ qs) w mp sub sorted split seen =
    let le : p.era ≤ℤ q.era = leb_of p.era q.era sorted.0.0 in
    let next : Consecutive all p q = (le, λ x m. gap_after p q qs x sorted.1.0 (split x m)) in
    walk-Seen all q qs (walk_step p q w) (sub q (inl refl)) (λ r m. sub r (inr m)) sorted.1
      (λ x m. passed p q qs x le (split x m))
      (walk_step-Seen all p q w mp (sub q (inl refl)) next seen)

first_passed :
    (p : Point) (ps : List Point) (x : Point) → In x (p ∷ ps) → (x.era ≤ℤ p.era) ⊎ In x ps
first_passed p ps x (inl e) = inl (rw e (ground arith))
first_passed p ps x (inr m) = inr m

earlier-total : (p q : Point) → earlier p q ≡ false → earlier q p ≡ true
earlier-total p q h = ground (arith, h)

earlier_trans : (p q r : Point) → earlier p q ≡ true → earlier q r ≡ true → earlier p r ≡ true
earlier_trans p q r h k = ground (arith, h, k)

series-Seen :
    (ps : List Point) → IsSorted earlier ps → Seen ps (summarize_series ps).moves.last_change
series-Seen [] sorted c h = absurd (ground (arith, h))
series-Seen (p ∷ ps) sorted c h =
    walk-Seen (p ∷ ps) p ps start (inl refl) (λ q m. inr m) sorted (λ x m. first_passed p ps x m)
      (λ d k. absurd (ground (arith, k))) c h

summary-Seen :
    (rows : List HistoryRow)
    → Seen (points rows) (summarize_commission_history rows).moves.last_change
unfolding summarize_commission_history series_of
summary-Seen rows c h =
    let (p, q, mp, mq, same, far, (le, free)) =
      series-Seen (series_of rows)
        (sort_by-IsSorted earlier earlier-total earlier_trans (points rows)) c h in
    (
      p,
      q,
      (sort_by-In earlier p (points rows)).0 mp,
      (sort_by-In earlier q (points rows)).0 mq,
      same,
      far,
      (le, λ x m. free x ((sort_by-In earlier x (points rows)).1 m)),
    )

recent_tests :
    (cut thin near : Bool)
    → (if cut || thin then false else near) ≡ true
    → (cut ≡ false) × (thin ≡ false) × (near ≡ true)
recent_tests cut thin near h = ground (arith, h)

recent_from :
    (c : RateChange) (v : Volatility) (now : JsValue) (within : ℤ)
    → is_recent c v (is_real_number now) within ≡ true
    → (z : ℤ) × (now ≡ int z)
      × (c.from_rate <ℤ c.to_rate)
      × (z ≤ℤ c.earliest_era +ℤ within)
      × (is_unknown v ≡ false)
recent_from c v (int z) within h =
    let (raised, known, near) =
      recent_tests (leb_ℤ c.to_rate c.from_rate) (is_unknown v) (leb_ℤ z (c.earliest_era +ℤ within))
        h in
    (z, refl, ltb_of c.to_rate c.from_rate raised, leb_of z (c.earliest_era +ℤ within) near, known)
recent_from c v undefined within h = absurd (ground (arith, h))
recent_from c v null within h = absurd (ground (arith, h))
recent_from c v blank within h = absurd (ground (arith, h))
recent_from c v nan within h = absurd (ground (arith, h))

raised_recently_from :
    (s : Summary) (now : JsValue) (within : ℤ)
    → raised_recently s now within ≡ true
    → (c : RateChange) × (z : ℤ) × (s.moves.last_change ≡ some c)
      × (now ≡ int z)
      × (c.from_rate <ℤ c.to_rate)
      × (z ≤ℤ c.earliest_era +ℤ within)
      × (is_unknown s.volatility ≡ false)
unfolding raised_recently
raised_recently_from s now within h = elim (Option-cases s.moves.last_change) [
  | inl e ↦ absurd (
      ground
        (arith, sym (ap (λ o. recent_change o s.volatility (is_real_number now) within) e) ∙ h))
  | inr (c, e) ↦
      let (z, at, raised, near, known) =
        recent_from c s.volatility now within
          (sym (ap (λ o. recent_change o s.volatility (is_real_number now) within) e) ∙ h) in
      (c, z, e, at, raised, near, known)
]

raise_by : (a b : ℤ) → a <ℤ b → commission_epsilon ≤ distance b a → a +ℤ pos commission_epsilon ≤ℤ b
raise_by a b h k = ground arith

enough : (n : ℕ) → ¬ (n < 3) → 3 ≤ n
enough n h = omega arith

-- The badge of a recent raise rests on two rows of eras in which the validator was elected: the era of
-- the second is not before that of the first, and no such row has an era between them; the commission
-- of the second is higher by at least the least move, and the current era is a number at most the limit
-- after the first era in which the raise can have happened, the one after the first row's. At least three eras are tracked.
pub raised_recently_lem :
    (rows : List HistoryRow) (now : JsValue) (within : ℤ)
    → raised_recently (summarize_commission_history rows) now within ≡ true
    → (z : ℤ) × (r : HistoryRow) × (p : Point) × (s : HistoryRow) × (q : Point) × (now ≡ int z)
      × (In r rows × Shows r p)
      × (In s rows × Shows s q)
      × Consecutive (points rows) p q
      × (p.rate +ℤ pos commission_epsilon ≤ℤ q.rate)
      × (z ≤ℤ p.era +ℤ pos 1 +ℤ within)
      × (3 ≤ length (points rows))
raised_recently_lem rows now within h =
    let (c, z, last, at, raised, near, known) =
      raised_recently_from (summarize_commission_history rows) now within h in
    let (p, q, mp, mq, same, far, next) = summary-Seen rows c last in
    let (r, old, shows_p) = points-Shows rows p mp in
    let (s, new, shows_q) = points-Shows rows q mq in
    let up = subst (λ d. d.from_rate <ℤ d.to_rate) same raised in
    let soon = subst (λ d. z ≤ℤ d.earliest_era +ℤ within) same near in
    let (short, long) = (summarize_commission_history-volatility rows).0 in
    (
      z,
      r,
      p,
      s,
      q,
      at,
      (old, shows_p),
      (new, shows_q),
      next,
      raise_by p.rate q.rate up far,
      soon,
      enough (length (points rows)) (λ few. ground (arith, sym (ap is_unknown (long few)) ∙ known)),
    )
