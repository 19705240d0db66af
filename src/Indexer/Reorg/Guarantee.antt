-- ===== src/Indexer/Reorg/Guarantee.antt =====
-- The guarantee of the finality sweep, for one tick and for any sequence of ticks.
use pdexplorer.Prelude.{
  ◌≡◌, refl, ◌⊎◌, inl, inr, Bool, true, false, ◌&&◌, Option, none, some, List, [], ◌∷◌, ◌++◌, arith,
  Bool-cases, Option-cases, All, In, In-append_left, In-append_right, if◌then◌else◌,
}
use pdexplorer.Prelude.Int.{ℤ, pos, ◌≤ℤ◌, ◌<ℤ◌, ◌+ℤ◌, leb_ℤ, ltb_ℤ}
use pdexplorer.Prelude.Js.{JsValue, int}
use pdexplorer.Indexer.Reorg.{
  Plan, num, plan_from, plan_reorg_sweep, heights_to_verify, Progress, within_sweep, verify_loop,
  Tick, SweepState, settle, reorg_sweep, stored_value,
}
use pdexplorer.Indexer.Reorg.Sweep.{
  heights-In, heights-SweepAsc, finished-checked, mark-checked, mark-within, le_refl_ℤ, le_trans_ℤ,
}

-- Between two marks every stored height was checked, and the mark did not go back.
abbrev pub Advances : (ℤ → Bool) → ℤ → SweepState → Type 0
Advances have v st =
    (v' : ℤ) × (st.verified ≡ int v')
    × (v ≤ℤ v')
    × ((h : ℤ) → v <ℤ h → h ≤ℤ v' → have h ≡ true → In h st.checked)

-- The sweep of a plan starts right above the mark, or it is empty.
abbrev Follows : Plan → ℤ → Type 0
Follows plan v = (plan.sweep_from ≡ v +ℤ pos 1) ⊎ (plan.sweep_to <ℤ plan.sweep_from)

no_between : (v h : ℤ) → v <ℤ h → ¬ (h ≤ℤ v)
no_between v h p q = omega arith

module _ (completes have : ℤ → Bool) (plan : Plan) (st : SweepState) (v : ℤ)
    (again : plan.first_run ≡ false) (at_v : st.verified ≡ int v) (follows : Follows plan v) where
  heights : List ℤ
  heights = heights_to_verify plan have

  progress : Progress
  unfolding heights
  progress = verify_loop completes plan heights none []

  in_sweep :
      (h u : ℤ)
      → v <ℤ h
      → h ≤ℤ u
      → u ≤ℤ plan.sweep_to
      → plan.sweep_from ≤ℤ u
      → within_sweep plan h ≡ true
  in_sweep h u lt le to from = elim follows [
    | inl e ↦ rw e (above e)
    | inr e ↦ absurd (omega arith)
  ]
    where
      above : plan.sweep_from ≡ v +ℤ pos 1 → (leb_ℤ (v +ℤ pos 1) h && leb_ℤ h plan.sweep_to) ≡ true
      above e = ground arith

  v_le : (u : ℤ) → u ≤ℤ plan.sweep_to → plan.sweep_from ≤ℤ u → v ≤ℤ u
  v_le u to from = elim follows [ inl e ↦ below u (rw e at from) | inr e ↦ absurd (omega arith) ]
    where
      below : (x : ℤ) → v +ℤ pos 1 ≤ℤ x → v ≤ℤ x
      below x p = ground arith

  settled : SweepState
  unfolding progress
  settled = settle plan progress st

  at_mark :
      (progress.finished && leb_ℤ plan.sweep_from plan.sweep_to) ≡ false
      → (u : ℤ) → progress.verified_up_to ≡ some u
      → (◌≡◌ {A = Option ℤ} none (some u)) ⊎ (within_sweep plan u ≡ true)
      → Advances have v settled
  unfolding settled settle
  at_mark part u e (inl n) = absurd (cc)
  at_mark part u e (inr w) = (
    u,
    ground arith,
    v_le u (ground arith) (ground arith),
    λ h lt le held.
        let inside = in_sweep h u lt le (ground arith) (ground arith) in
        In-append_right h st.checked progress.checked (
          mark-checked plan completes heights none [] plan.sweep_from u h
            (heights-SweepAsc plan have) tt e (heights-In plan have h held inside) inside le),
  )

  settle-Advances : Advances have v settled
  unfolding settled settle
  settle-Advances = elim (Bool-cases (progress.finished && leb_ℤ plan.sweep_from plan.sweep_to)) [
    | inl whole ↦ (
      plan.sweep_to,
      ground arith,
      v_le plan.sweep_to (le_refl_ℤ plan.sweep_to) (ground arith),
      λ h lt le held. In-append_right h st.checked progress.checked (
          finished-checked plan completes heights none [] h (ground arith) (
            heights-In plan have h held
              (in_sweep h plan.sweep_to lt le (le_refl_ℤ plan.sweep_to) (ground arith)))),
    )
    | inr part ↦ elim (Option-cases progress.verified_up_to) [
      | inl e ↦ (v, ground arith, le_refl_ℤ v, λ h lt le held. absurd (no_between v h lt le))
      | inr (u, e) ↦
          at_mark part u e (mark-within plan completes heights none [] u (unfold progress in e))
    ]
  ]

-- The three kinds of plan over a mark `v`.
plan-Follows :
    (v : ℤ) (finalized head sweep_max tail_max : JsValue)
    → let plan = plan_reorg_sweep (int v) finalized head sweep_max tail_max in
      (plan.first_run ≡ false) × Follows plan v
unfolding plan_reorg_sweep plan_from
plan-Follows v finalized head sweep_max tail_max = elim (Option-cases (num finalized)) [
  | inl e ↦ rw (e, plan_reorg_sweep) (refl, inr (omega arith))
  | inr (fin, e) ↦ elim (Bool-cases (ltb_ℤ fin (pos 0))) [
    | inl neg ↦ rw (e, neg, plan_reorg_sweep) (refl, inr (omega arith))
    | inr ok ↦ rw (e, ok, plan_reorg_sweep) (refl, inl refl)
  ]
]

reorg_sweep_up :
    (sweep_max tail_max : JsValue) (t : Tick) (st : SweepState) (v : ℤ)
    → t.ready ≡ true
    → st.verified ≡ int v
    → let plan = plan_reorg_sweep (int v) t.finalized t.head sweep_max tail_max in
      reorg_sweep sweep_max tail_max t st
      ≡ settle plan (verify_loop t.completes plan (heights_to_verify plan t.have) none []) st
unfolding reorg_sweep
reorg_sweep_up sweep_max tail_max t st v up e =
    ground (arith, up, e, (plan-Follows v t.finalized t.head sweep_max tail_max).0)

-- From a stored mark of verified heights, one tick moves the mark up or leaves it, and every
-- stored height that it passes was checked, also where the node is down, gives no finalized
-- height, or fails half way.
pub reorg_sweep-Advances :
    (sweep_max tail_max : JsValue) (t : Tick) (st : SweepState) (v : ℤ)
    → st.verified ≡ int v
    → Advances t.have v (reorg_sweep sweep_max tail_max t st)
unfolding reorg_sweep
reorg_sweep-Advances sweep_max tail_max t st v e = elim (Bool-cases t.ready) [
  | inr down ↦ rw down (v, e, le_refl_ℤ v, λ h lt le held. absurd (no_between v h lt le))
  | inl up ↦ rw (reorg_sweep_up sweep_max tail_max t st v up e) (
      unfold settled progress heights in
      settle-Advances t.completes t.have plan st v follows.0 e follows.1)
]
  where
    plan : Plan
    plan = plan_reorg_sweep (int v) t.finalized t.head sweep_max tail_max

    follows : (plan.first_run ≡ false) × Follows plan v
    follows = plan-Follows v t.finalized t.head sweep_max tail_max

-- The ticks of a run, in order.
pub sweeps : JsValue → JsValue → List Tick → SweepState → SweepState
sweeps sweep_max tail_max [] st = st
sweeps sweep_max tail_max (t ∷ ts) st =
    sweeps sweep_max tail_max ts (reorg_sweep sweep_max tail_max t st)

reorg_sweep-kept :
    (sweep_max tail_max : JsValue) (t : Tick) (st : SweepState) (h : ℤ)
    → In h st.checked
    → In h (reorg_sweep sweep_max tail_max t st).checked
unfolding reorg_sweep settle
reorg_sweep-kept sweep_max tail_max t st h m = elim (Bool-cases t.ready) [
  | inr down ↦ rw down m
  | inl up ↦ rw up (kept (plan_reorg_sweep st.verified t.finalized t.head sweep_max tail_max))
]
  where
    kept :
        (plan : Plan)
        → In h (
            (if plan.first_run
              then record st { verified = stored_value st.verified plan.adopt }
              else st).checked
            ++ (verify_loop t.completes plan (heights_to_verify plan t.have) none []).checked)
    kept plan = elim (Bool-cases plan.first_run) [
      | inl f ↦ rw f (In-append_left h st.checked _ m)
      | inr f ↦ rw f (In-append_left h st.checked _ m)
    ]

sweeps-kept :
    (sweep_max tail_max : JsValue) (ts : List Tick) (st : SweepState) (h : ℤ)
    → In h st.checked
    → In h (sweeps sweep_max tail_max ts st).checked
unfolding sweeps
sweeps-kept sweep_max tail_max [] st h m = m
sweeps-kept sweep_max tail_max (t ∷ ts) st h m =
    sweeps-kept sweep_max tail_max ts _ h (reorg_sweep-kept sweep_max tail_max t st h m)

-- From a stored mark of verified heights, over any run of ticks the mark does not go back, and
-- every height between its two ends that was stored throughout was checked in some tick of the
-- run.
pub sweeps-Advances :
    (sweep_max tail_max : JsValue) (ts : List Tick) (st : SweepState) (v : ℤ)
    → st.verified ≡ int v
    → (v' : ℤ) × ((sweeps sweep_max tail_max ts st).verified ≡ int v')
      × (v ≤ℤ v')
      × ((h : ℤ)
          → v <ℤ h
          → h ≤ℤ v'
          → All (λ (t : Tick). t.have h ≡ true) ts
          → In h (sweeps sweep_max tail_max ts st).checked)
unfolding sweeps
sweeps-Advances sweep_max tail_max [] st v e =
    (v, e, le_refl_ℤ v, λ h lt le held. absurd (no_between v h lt le))
sweeps-Advances sweep_max tail_max (t ∷ ts) st v e =
    let next = reorg_sweep sweep_max tail_max t st in
    let (m, em, lem, checked) = reorg_sweep-Advances sweep_max tail_max t st v e in
    let (v', e', le', later) = sweeps-Advances sweep_max tail_max ts next m em in
    (
      v',
      e',
      le_trans_ℤ v m v' lem le',
      λ h lt le held. elim (Bool-cases (leb_ℤ h m)) [
        | inl a ↦ sweeps-kept sweep_max tail_max ts next h (checked h lt (ground arith) held.0)
        | inr b ↦ later h (ground arith) le held.1
      ],
    )
