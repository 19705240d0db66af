-- ===== src/Governance/Motions/Outcome.antt =====
-- What the events of a motion make of it.
use pdexplorer.Prelude.{
  ℕ, ◌≤◌, true, false, some, Option-cases, Bool-cases, List, [], ◌∷◌, inl, inr, ◌⊎◌, ◌≡◌, ◌∙◌, refl,
  ap, ltb, In, find, find-In, find-none, arith, if◌then◌else◌,
}
use pdexplorer.Governance.Motions.{
  Motion, MotionEvent, event_rank, highest_rank, latest_block, is_closed, event_or, decided,
  outcome_of,
}

-- The first of the greatest, by a measure.
pick_of : (MotionEvent → ℕ) → MotionEvent → List MotionEvent → MotionEvent
pick_of f top [] = top
pick_of f top (e ∷ es) = pick_of f (if ltb (f top) (f e) then e else top) es

chosen :
    (f : MotionEvent → ℕ) (top e : MotionEvent)
    → (f top ≤ f (if ltb (f top) (f e) then e else top))
      × (f e ≤ f (if ltb (f top) (f e) then e else top))
      × (((if ltb (f top) (f e) then e else top) ≡ top)
          ⊎ ((if ltb (f top) (f e) then e else top) ≡ e))
chosen f top e = elim (Bool-cases (ltb (f top) (f e))) [
  | inl h ↦ rw h (ground (arith, h), omega arith, inr refl)
  | inr h ↦ rw h (omega arith, ground (arith, h), inl refl)
]

pick_of_greatest :
    (f : MotionEvent → ℕ) (top : MotionEvent) (es : List MotionEvent)
    → In (pick_of f top es) (top ∷ es)
      × (f top ≤ f (pick_of f top es))
      × ((x : MotionEvent) → In x es → f x ≤ f (pick_of f top es))
unfolding pick_of
pick_of_greatest f top [] = (inl refl, omega arith, λ x m. elim m [ ])
pick_of_greatest f top (e ∷ es) =
    let n = if ltb (f top) (f e) then e else top in
    let (up, over, which) = chosen f top e in
    let (inside, above, rest) = pick_of_greatest f n es in
    (
      elim inside [
        | inl same ↦ elim which [ inl t ↦ inl (same ∙ t) | inr u ↦ inr (inl (same ∙ u)) ]
        | inr i ↦ inr (inr i)
      ],
      omega (arith, up, above),
      λ x m. elim m [ inl same ↦ rw same omega (arith, over, above) | inr i ↦ rest x i ],
    )

highest_rank_pick :
    (top : MotionEvent) (es : List MotionEvent)
    → highest_rank top es ≡ pick_of (λ e. event_rank e.kind) top es
unfolding pick_of
highest_rank_pick top [] = refl
highest_rank_pick top (e ∷ es) =
    highest_rank_pick (if ltb (event_rank top.kind) (event_rank e.kind) then e else top) es

latest_block_pick :
    (top : MotionEvent) (es : List MotionEvent)
    → latest_block top es ≡ pick_of (λ e. e.block) top es
unfolding pick_of
latest_block_pick top [] = refl
latest_block_pick top (e ∷ es) = latest_block_pick (if ltb top.block e.block then e else top) es

-- The greatest of a list that is not empty.
pick_of-all :
    (f : MotionEvent → ℕ) (top : MotionEvent) (es : List MotionEvent) (x : MotionEvent)
    → In x (top ∷ es)
    → f x ≤ f (pick_of f top es)
pick_of-all f top es x (inl e) = rw e (pick_of_greatest f top es).1
pick_of-all f top es x (inr i) = (pick_of_greatest f top es).2 x i

-- An outcome is decided by one of its events, of which none has a higher rank; its block and time are
-- those of one of its events, a close where there is one, else one that no event has a later block than.
pub outcome_of-decided :
    (m : Motion) (evs : List MotionEvent) (x : MotionEvent)
    → In x evs
    → (top : MotionEvent) × (r : MotionEvent) × (In top evs
        × ((outcome_of m evs).status ≡ decided top.kind)
        × (event_rank x.kind ≤ event_rank top.kind))
      × (In r evs
          × ((outcome_of m evs).resolved_block ≡ some r.block)
          × ((outcome_of m evs).resolved_at ≡ r.event_at))
      × ((is_closed r ≡ true) ⊎ ((is_closed x ≡ false) × (x.block ≤ r.block)))
unfolding outcome_of
outcome_of-decided m [] x i = elim i [ ]
outcome_of-decided m (e ∷ es) x i =
    let top = pick_of (λ y. event_rank y.kind) e es in
    let late = pick_of (λ y. y.block) e es in
    let ranked = (pick_of_greatest (λ y. event_rank y.kind) e es).0 in
    let timed = (pick_of_greatest (λ y. y.block) e es).0 in
    let decided_by : In top (e ∷ es)
        × (decided (highest_rank e es).kind ≡ decided top.kind)
        × (event_rank x.kind ≤ event_rank top.kind) =
      (
        ranked,
        ap (λ y. decided y.kind) (highest_rank_pick e es),
        pick_of-all (λ y. event_rank y.kind) e es x i,
      ) in
    elim (Option-cases (find is_closed (e ∷ es))) [
      | inl h ↦
          let last = ap (λ o. event_or o (latest_block e es)) h ∙ latest_block_pick e es in
          (
            top,
            late,
            decided_by,
            (timed, ap (λ y. some y.block) last, ap (λ y. y.event_at) last),
            inr (find-none is_closed x (e ∷ es) h i, pick_of-all (λ y. y.block) e es x i),
          )
      | inr (c, h) ↦
          let last = ap (λ o. event_or o (latest_block e es)) h in
          let (inside, close) = find-In is_closed c (e ∷ es) h in
          (
            top,
            c,
            decided_by,
            (inside, ap (λ y. some y.block) last, ap (λ y. y.event_at) last),
            inl close,
          )
    ]
