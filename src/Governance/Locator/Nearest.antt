-- ===== src/Governance/Locator/Nearest.antt =====
-- The hints for the search of a motion.
use pdexplorer.Prelude.{
  ℕ, ◌≤◌, ◌<◌, inl, inr, ◌≡◌, ◌∙◌, sym, ap, Option, none, some, List, [], ◌∷◌, In, arith,
}
use pdexplorer.Governance.Locator.{KnownRow, Hints, hint_step, neighbours}

-- A hint on the near side of a motion's index, and no farther from it than `i`.
abbrev pub NearBelow : ℕ → Option (ℕ × ℕ) → ℕ → Type 0
NearBelow index none i = ⊥
NearBelow index (some p) i = (p.0 < index) × (i ≤ p.0)

abbrev pub NearAbove : ℕ → Option (ℕ × ℕ) → ℕ → Type 0
NearAbove index none i = ⊥
NearAbove index (some p) i = (index < p.0) × (p.0 ≤ i)

abbrev Below : ℕ → Option (ℕ × ℕ) → Type 0
Below index none = Unit
Below index (some p) = p.0 < index

abbrev Above : ℕ → Option (ℕ × ℕ) → Type 0
Above index none = Unit
Above index (some p) = index < p.0

module _ (index : ℕ) where
  -- Each hint lies on its side of the index.
  abbrev Sided : Hints → Type 0
  Sided h = Below index h.below × Above index h.above

  hint_step-Sided : (i : ℕ) (o : Option ℕ) (h : Hints) → Sided h → Sided (hint_step index i o h)
  hint_step-Sided i none h s = s
  hint_step-Sided i (some b) h s = ground (arith, s)

  new_below :
      (i b : ℕ) (h : Hints)
      → i < index
      → Sided h
      → NearBelow index (hint_step index i (some b) h).below i
  new_below i b h k s = ground (arith, k, s)

  new_above :
      (i b : ℕ) (h : Hints)
      → index < i
      → Sided h
      → NearAbove index (hint_step index i (some b) h).above i
  new_above i b h k s = ground (arith, k, s)

  kept_below :
      (i j : ℕ) (o : Option ℕ) (h : Hints)
      → NearBelow index h.below j
      → NearBelow index (hint_step index i o h).below j
  kept_below i j none h n = n
  kept_below i j (some b) h n = ground (arith, n)

  kept_above :
      (i j : ℕ) (o : Option ℕ) (h : Hints)
      → NearAbove index h.above j
      → NearAbove index (hint_step index i o h).above j
  kept_above i j none h n = n
  kept_above i j (some b) h n = ground (arith, n)

  all_below :
      (j : ℕ) (rows : List KnownRow) (h : Hints)
      → NearBelow index h.below j
      → NearBelow index (neighbours index rows h).below j
  unfolding neighbours
  all_below j [] h n = n
  all_below j (r ∷ rs) h n =
      all_below j rs (hint_step index r.known_index r.known_block h)
        (kept_below r.known_index j r.known_block h n)

  all_above :
      (j : ℕ) (rows : List KnownRow) (h : Hints)
      → NearAbove index h.above j
      → NearAbove index (neighbours index rows h).above j
  unfolding neighbours
  all_above j [] h n = n
  all_above j (r ∷ rs) h n =
      all_above j rs (hint_step index r.known_index r.known_block h)
        (kept_above r.known_index j r.known_block h n)

  neighbours-below :
      (rows : List KnownRow) (h : Hints) (r : KnownRow) (b : ℕ)
      → Sided h
      → In r rows
      → r.known_block ≡ some b
      → r.known_index < index
      → NearBelow index (neighbours index rows h).below r.known_index
  unfolding neighbours
  neighbours-below [] h r b s m e k = elim m [ ]
  neighbours-below (x ∷ xs) h r b s (inl same) e k =
      let known = ap (λ y. y.known_block) (sym same) ∙ e in
      let at = ap (λ y. y.known_index) same in
      all_below r.known_index xs (hint_step index x.known_index x.known_block h)
        (rw (known, sym at) (new_below r.known_index b h k s))
  neighbours-below (x ∷ xs) h r b s (inr m) e k =
      neighbours-below xs (hint_step index x.known_index x.known_block h) r b
        (hint_step-Sided x.known_index x.known_block h s) m e k

  neighbours-above :
      (rows : List KnownRow) (h : Hints) (r : KnownRow) (b : ℕ)
      → Sided h
      → In r rows
      → r.known_block ≡ some b
      → index < r.known_index
      → NearAbove index (neighbours index rows h).above r.known_index
  unfolding neighbours
  neighbours-above [] h r b s m e k = elim m [ ]
  neighbours-above (x ∷ xs) h r b s (inl same) e k =
      let known = ap (λ y. y.known_block) (sym same) ∙ e in
      let at = ap (λ y. y.known_index) same in
      all_above r.known_index xs (hint_step index x.known_index x.known_block h)
        (rw (known, sym at) (new_above r.known_index b h k s))
  neighbours-above (x ∷ xs) h r b s (inr m) e k =
      neighbours-above xs (hint_step index x.known_index x.known_block h) r b
        (hint_step-Sided x.known_index x.known_block h s) m e k

-- From no hints, and for two rows with known blocks on either side of the index: the loop ends with a hint
-- on each side, and neither row is nearer to the index than the hint of its side.
pub neighbours_nearest :
    (index : ℕ) (rows : List KnownRow) (r s : KnownRow) (b c : ℕ)
    → In r rows
    → In s rows
    → r.known_block ≡ some b
    → s.known_block ≡ some c
    → r.known_index < index
    → index < s.known_index
    → NearBelow index
        (neighbours index rows (record { below = none; above = none })).below
        r.known_index
      × NearAbove index
          (neighbours index rows (record { below = none; above = none })).above
          s.known_index
neighbours_nearest index rows r s b c mr ms er es kr ks =
    let h : Hints = record { below = none; above = none } in
    (
      neighbours-below index rows h r b (tt, tt) mr er kr,
      neighbours-above index rows h s c (tt, tt) ms es ks,
    )
