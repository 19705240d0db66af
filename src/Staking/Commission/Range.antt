-- ===== src/Staking/Commission/Range.antt =====
-- What the figures of a summary say of the rows.
use pdexplorer.Prelude.{
  ℕ, suc, ◌+◌, ◌-◌, ◌≤◌, ◌<◌, inl, inr, ◌↔◌, ◌≡◌, refl, sym, ap, none, some, List, [], ◌∷◌, All,
  All-In, In, arith, length,
}
use pdexplorer.Prelude.Int.{ℤ, ◌≤ℤ◌, min_ℤ, max_ℤ}
use pdexplorer.Prelude.Sort.{sort_by-In, length-sort_by}
use pdexplorer.Staking.Commission.{
  Point, HistoryRow, points, earlier, Walk, start, walk_step, walk, distance, commission_epsilon,
  last_point, least, greatest, unknown, stable, classify_volatility, Figures, summarize_series,
  series_of, summarize_commission_history,
}

-- Every move is a raise or a cut, and there are fewer moves, and fewer gaps, than points.
abbrev Tallied : ℕ → Walk → Type 0
Tallied n w = (w.changes ≡ w.raises + w.cuts) × (w.changes ≤ n) × (w.gaps ≤ n)

walk_step-Tallied :
    (n : ℕ) (p q : Point) (w : Walk) → Tallied n w → Tallied (suc n) (walk_step p q w)
unfolding walk_step
walk_step-Tallied n p q w h = ground (arith, h)

walk-Tallied :
    (n : ℕ) (p : Point) (ps : List Point) (w : Walk)
    → Tallied n w
    → Tallied (n + length ps) (walk p ps w)
walk-Tallied n p [] w h = ground (arith, h)
walk-Tallied n p (q ∷ qs) w h =
    ground (arith, walk-Tallied (suc n) q qs (walk_step p q w) (walk_step-Tallied n p q w h))

le_trans_ℤ : (a b c : ℤ) → a ≤ℤ b → b ≤ℤ c → a ≤ℤ c
le_trans_ℤ a b c h k = omega arith

min_ℤ_le : (a b : ℤ) → (min_ℤ a b ≤ℤ a) × (min_ℤ a b ≤ℤ b)
min_ℤ_le a b = ground arith

max_ℤ_ge : (a b : ℤ) → (a ≤ℤ max_ℤ a b) × (b ≤ℤ max_ℤ a b)
max_ℤ_ge a b = ground arith

least_le : (z : ℤ) (ps : List Point) → (least z ps ≤ℤ z) × All (λ p. least z ps ≤ℤ p.rate) ps
least_le z [] = (omega arith, tt)
least_le z (q ∷ qs) =
    let (below, rest) = least_le (min_ℤ z q.rate) qs in
    let (left, right) = min_ℤ_le z q.rate in
    let m = min_ℤ z q.rate in
    let l = least m qs in (le_trans_ℤ l m z below left, (le_trans_ℤ l m q.rate below right, rest))

greatest_ge :
    (z : ℤ) (ps : List Point) → (z ≤ℤ greatest z ps) × All (λ p. p.rate ≤ℤ greatest z ps) ps
greatest_ge z [] = (omega arith, tt)
greatest_ge z (q ∷ qs) =
    let (above, rest) = greatest_ge (max_ℤ z q.rate) qs in
    let (left, right) = max_ℤ_ge z q.rate in
    let m = max_ℤ z q.rate in
    let g = greatest m qs in
    (le_trans_ℤ z m g left above, (le_trans_ℤ q.rate m g right above, rest))

last_point-In : (p : Point) (ps : List Point) → In (last_point p ps) (p ∷ ps)
last_point-In p [] = inl refl
last_point-In p (q ∷ qs) = inr (last_point-In q qs)

-- No two points that follow each other differ by a commission that counts as a move.
abbrev pub Steady : Point → List Point → Type 0
Steady p [] = Unit
Steady p (q ∷ qs) = (distance q.rate p.rate < commission_epsilon) × Steady q qs

walk_step_changes :
    (p q : Point) (w : Walk)
    → ((walk_step p q w).changes ≡ 0)
      ↔ ((w.changes ≡ 0) × (distance q.rate p.rate < commission_epsilon))
unfolding walk_step
walk_step_changes p q w = ground arith

walk_changes :
    (p : Point) (ps : List Point) (w : Walk)
    → ((walk p ps w).changes ≡ 0) ↔ ((w.changes ≡ 0) × Steady p ps)
walk_changes p [] w = ground arith
walk_changes p (q ∷ qs) w =
    ground (arith, walk_step_changes p q w, walk_changes q qs (walk_step p q w))

-- Between the lowest and the highest commission of a summary.
abbrev pub Within : Figures → ℤ → Type 0
Within f z = (f.lowest ≤ℤ z) × (z ≤ℤ f.highest)

series-Within :
    (ps : List Point) (f : Figures) (p : Point)
    → (summarize_series ps).figures ≡ some f
    → In p ps
    → Within f p.rate × Within f f.current
series-Within [] f p h m = elim m [ ]
series-Within (q ∷ qs) f p h m =
    let (lo, los) = least_le q.rate qs in
    let (hi, his) = greatest_ge q.rate qs in
    let at : (r : Point)
        → In r (q ∷ qs)
        → (least q.rate qs ≤ℤ r.rate) × (r.rate ≤ℤ greatest q.rate qs) =
      λ r k. (
        All-In (λ x. least q.rate qs ≤ℤ x.rate) r (q ∷ qs) (lo, los) k,
        All-In (λ x. x.rate ≤ℤ greatest q.rate qs) r (q ∷ qs) (hi, his) k,
      ) in
    let same = ap (λ o. elim o [ none ↦ f | some g ↦ g ]) h in
    rw (sym same) (at p m, at (last_point q qs) (last_point-In q qs))

-- The commission of every row that counts, and the current one, lie between the lowest and the highest
-- of the summary.
pub summarize_commission_history-Within :
    (rows : List HistoryRow) (f : Figures) (p : Point)
    → (summarize_commission_history rows).figures ≡ some f
    → In p (points rows)
    → Within f p.rate × Within f f.current
unfolding summarize_commission_history series_of
summarize_commission_history-Within rows f p h m =
    series-Within (series_of rows) f p h ((sort_by-In earlier p (points rows)).1 m)

-- The tally of a series, and what its volatility rests on.
abbrev pub Settled : List Point → Type 0
Settled [] = Unit
Settled (p ∷ ps) = Steady p ps

series_counts :
    (ps : List Point)
    → ((summarize_series ps).eras_tracked ≡ length ps)
      × ((summarize_series ps).moves.changes
          ≡ (summarize_series ps).moves.raises + (summarize_series ps).moves.cuts)
      × ((summarize_series ps).moves.changes ≤ length ps - 1)
      × ((summarize_series ps).moves.gaps ≤ length ps - 1)
series_counts [] = (refl, refl, omega arith, omega arith)
series_counts (p ∷ ps) = ground (arith, walk-Tallied 0 p ps start (refl, omega arith, omega arith))

-- As many eras are tracked as rows count, every move is a raise or a cut, and there are fewer moves, and
-- fewer gaps, than tracked eras.
pub summarize_commission_history-tally :
    (rows : List HistoryRow)
    → ((summarize_commission_history rows).eras_tracked ≡ length (points rows))
      × ((summarize_commission_history rows).moves.changes
          ≡ (summarize_commission_history rows).moves.raises
            + (summarize_commission_history rows).moves.cuts)
      × ((summarize_commission_history rows).moves.changes ≤ length (points rows) - 1)
      × ((summarize_commission_history rows).moves.gaps ≤ length (points rows) - 1)
unfolding summarize_commission_history series_of
summarize_commission_history-tally rows =
    ground (arith, series_counts (series_of rows), length-sort_by earlier (points rows))

classify_volatility_iff :
    (n c : ℕ) (lo hi : ℤ)
    → (classify_volatility n c lo hi ≡ unknown ↔ n < 3)
      × (classify_volatility n c lo hi ≡ stable ↔ (3 ≤ n) × (c ≡ 0))
unfolding classify_volatility
classify_volatility_iff n c lo hi = ground arith

series_volatility :
    (ps : List Point)
    → ((summarize_series ps).volatility ≡ unknown ↔ length ps < 3)
      × ((summarize_series ps).volatility ≡ stable ↔ (3 ≤ length ps) × Settled ps)
series_volatility [] = ground arith
series_volatility (p ∷ ps) =
    let w = walk p ps start in
    ground (
      arith,
      walk_changes p ps start,
      classify_volatility_iff (suc (length ps)) w.changes (least p.rate ps) (greatest p.rate ps),
    )

-- The volatility is unknown exactly for a history of fewer than three eras that count, and stable
-- exactly for one of at least three in which no era differs from the one tracked before it by a
-- commission that counts as a move.
pub summarize_commission_history-volatility :
    (rows : List HistoryRow)
    → ((summarize_commission_history rows).volatility ≡ unknown ↔ length (points rows) < 3)
      × ((summarize_commission_history rows).volatility ≡ stable
          ↔ (3 ≤ length (points rows)) × Settled (series_of rows))
unfolding summarize_commission_history series_of
summarize_commission_history-volatility rows =
    rw (sym (length-sort_by earlier (points rows))) (series_volatility (series_of rows))
