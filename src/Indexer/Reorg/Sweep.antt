-- ===== src/Indexer/Reorg/Sweep.antt =====
-- The finality sweep over any ticks: no stored height is passed by the watermark unchecked.
use pdexplorer.Prelude.{
  ℕ, zero, suc, ◌≡◌, ◌⊎◌, inl, inr, Bool, true, ◌&&◌, ◌||◌, Option, none, some, List, [], ◌∷◌, ◌++◌,
  filter_by, arith, Bool-cases, In, In-append_left, In-append_right, In-filter_by, if◌then◌else◌,
}
use pdexplorer.Prelude.Int.{ℤ, pos, ◌≤ℤ◌, ◌<ℤ◌, ◌+ℤ◌, ltb_ℤ, eq_of_parts}
use pdexplorer.Indexer.Reorg.{Plan, count_up, rounds, heights_to_verify, within_sweep, verify_loop}

count_up-In : (k : ℕ) (n h : ℤ) → n ≤ℤ h → h <ℤ n +ℤ pos k → In h (count_up k n)
unfolding count_up
count_up-In zero n h lo hi = absurd (ground arith)
count_up-In (suc k) n h lo hi = elim (Bool-cases (ltb_ℤ n h)) [
  | inl e ↦ inr (count_up-In k (n +ℤ pos 1) h (ground arith) (ground arith))
  | inr e ↦ inl (eq_of_parts h n (ground arith))
]

-- What a step in the ascending order gives.
succ_le : (a n h : ℤ) → a ≤ℤ n → n +ℤ pos 1 ≤ℤ h → a ≤ℤ h
succ_le a n h p q = ground arith

not_le_of_succ : (n h : ℤ) → n +ℤ pos 1 ≤ℤ h → ¬ (h ≤ℤ n)
not_le_of_succ n h p q = ground arith

pub le_refl_ℤ : (a : ℤ) → a ≤ℤ a
le_refl_ℤ a = omega arith

pub le_trans_ℤ : (a b c : ℤ) → a ≤ℤ b → b ≤ℤ c → a ≤ℤ c
le_trans_ℤ a b c p q = omega arith

le_succ_ℤ : (a n : ℤ) → a ≤ℤ n → a ≤ℤ n +ℤ pos 1
le_succ_ℤ a n p = ground arith

in_rounds : (from to h : ℤ) → from ≤ℤ h → h ≤ℤ to → h <ℤ from +ℤ pos (rounds from to)
in_rounds from to h p q = ground arith

module _ (plan : Plan) where
  -- The heights of the sweep come in ascending order, from `lo` upwards.
  abbrev pub SweepAsc : ℤ → List ℤ → Type 0
  SweepAsc lo [] = Unit
  SweepAsc lo (n ∷ ns) =
      (within_sweep plan n ≡ true → lo ≤ℤ n)
      × SweepAsc (if within_sweep plan n then n +ℤ pos 1 else lo) ns

  SweepAsc-le :
      (lo : ℤ) (ns : List ℤ) (h : ℤ)
      → SweepAsc lo ns
      → In h ns
      → within_sweep plan h ≡ true
      → lo ≤ℤ h
  SweepAsc-le lo [] h s m w = elim m [ ]
  SweepAsc-le lo (n ∷ ns) h s (inl e) w = rw e (s.0 (rw e at w))
  SweepAsc-le lo (n ∷ ns) h s (inr m) w = elim (Bool-cases (within_sweep plan n)) [
    | inl e ↦ succ_le lo n h (s.0 e) (SweepAsc-le (n +ℤ pos 1) ns h (rw e at s.1) m w)
    | inr e ↦ SweepAsc-le lo ns h (rw e at s.1) m w
  ]

  -- Every completed height is past the mark, or is the mark.
  abbrev pub Below : Option ℤ → ℤ → Type 0
  Below none lo = Unit
  Below (some u) lo = u +ℤ pos 1 ≤ℤ lo

  module _ (completes : ℤ → Bool) where
    checked-kept :
        (ns : List ℤ) (up_to : Option ℤ) (checked : List ℤ) (h : ℤ)
        → In h checked
        → In h (verify_loop completes plan ns up_to checked).checked
    unfolding verify_loop
    checked-kept [] up_to checked h m = m
    checked-kept (n ∷ ns) up_to checked h m = elim (Bool-cases (completes n)) [
      | inl e ↦
          rw (e, verify_loop)
            (checked-kept ns _ (checked ++ n ∷ []) h (In-append_left h checked (n ∷ []) m))
      | inr e ↦ rw (e, verify_loop) m
    ]

    -- A loop that ends has checked every height.
    pub finished-checked :
        (ns : List ℤ) (up_to : Option ℤ) (checked : List ℤ) (h : ℤ)
        → (verify_loop completes plan ns up_to checked).finished ≡ true
        → In h ns
        → In h (verify_loop completes plan ns up_to checked).checked
    unfolding verify_loop
    finished-checked [] up_to checked h f m = elim m [ ]
    finished-checked (n ∷ ns) up_to checked h f (inl same) = elim (Bool-cases (completes n)) [
      | inl e ↦
          rw (e, verify_loop)
            (checked-kept ns _ (checked ++ n ∷ []) h
              (In-append_right h checked (n ∷ []) (inl same)))
      | inr e ↦ absurd (ground arith)
    ]
    finished-checked (n ∷ ns) up_to checked h f (inr m) = elim (Bool-cases (completes n)) [
      | inl e ↦
          rw (e, verify_loop)
            (finished-checked ns _ (checked ++ n ∷ []) h (rw (e, verify_loop) at f) m)
      | inr e ↦ absurd (ground arith)
    ]

    -- Up to the mark that a loop leaves, the heights of the sweep were checked.
    pub mark-checked :
        (ns : List ℤ) (up_to : Option ℤ) (checked : List ℤ) (lo u h : ℤ)
        → SweepAsc lo ns
        → Below up_to lo
        → (verify_loop completes plan ns up_to checked).verified_up_to ≡ some u
        → In h ns
        → within_sweep plan h ≡ true
        → h ≤ℤ u
        → In h (verify_loop completes plan ns up_to checked).checked
    unfolding verify_loop
    mark-checked [] up_to checked lo u h s b e m w le = elim m [ ]
    mark-checked (n ∷ ns) up_to checked lo u h s b e m w le = elim (Bool-cases (completes n)) [
      | inl c ↦
          rw (c, verify_loop)
            (elim m [
              | inl same ↦
                  checked-kept ns next (checked ++ n ∷ []) h
                    (In-append_right h checked (n ∷ []) (inl same))
              | inr m' ↦
                  mark-checked ns next (checked ++ n ∷ []) next_lo u h s.1 next_below
                    (rw (c, verify_loop) at e) m' w le
            ])
      | inr c ↦
          let at_mark : up_to ≡ some u = rw (c, verify_loop) at e in
          let below : u +ℤ pos 1 ≤ℤ lo = rw at_mark at b in
          absurd (
            not_le_of_succ u h
              (le_trans_ℤ (u +ℤ pos 1) lo h below (SweepAsc-le lo (n ∷ ns) h s m w)) le)
    ]
      where
        next : Option ℤ
        next = if within_sweep plan n then some n else up_to

        next_lo : ℤ
        next_lo = if within_sweep plan n then n +ℤ pos 1 else lo

        next_below : Below next next_lo
        next_below = elim (Bool-cases (within_sweep plan n)) [
          | inl d ↦ rw d (le_refl_ℤ (n +ℤ pos 1))
          | inr d ↦ rw d b
        ]

    -- The mark is the one before the loop, or a height of the sweep.
    pub mark-within :
        (ns : List ℤ) (up_to : Option ℤ) (checked : List ℤ) (u : ℤ)
        → (verify_loop completes plan ns up_to checked).verified_up_to ≡ some u
        → (up_to ≡ some u) ⊎ (within_sweep plan u ≡ true)
    unfolding verify_loop
    mark-within [] up_to checked u e = inl e
    mark-within (n ∷ ns) up_to checked u e = elim (Bool-cases (completes n)) [
      | inl c ↦ ground (
        arith,
        mark-within ns (if within_sweep plan n then some n else up_to) (checked ++ n ∷ []) u
            (rw (c, verify_loop) at e),
      )
      | inr c ↦ inl (rw (c, verify_loop) at e)
    ]

-- The heights that a plan names are in ascending order within the sweep.
SweepAsc-append :
    (plan : Plan) (xs ys : List ℤ) (lo : ℤ)
    → SweepAsc plan lo xs
    → ((b : ℤ) → SweepAsc plan b ys)
    → SweepAsc plan lo (xs ++ ys)
SweepAsc-append plan [] ys lo s t = t lo
SweepAsc-append plan (x ∷ xs) ys lo s t = (s.0, SweepAsc-append plan xs ys _ s.1 t)

SweepAsc-count_up :
    (plan : Plan) (have : ℤ → Bool) (k : ℕ) (n lo : ℤ)
    → lo ≤ℤ n
    → SweepAsc plan lo (filter_by have (count_up k n))
unfolding count_up
SweepAsc-count_up plan have zero n lo h = tt
SweepAsc-count_up plan have (suc k) n lo h = elim (Bool-cases (have n)) [
  | inl e ↦ rw e (
    (λ _. h),
    elim (Bool-cases (within_sweep plan n)) [
      | inl w ↦
          rw w (SweepAsc-count_up plan have k (n +ℤ pos 1) (n +ℤ pos 1) (le_refl_ℤ (n +ℤ pos 1)))
      | inr w ↦ rw w (SweepAsc-count_up plan have k (n +ℤ pos 1) lo (le_succ_ℤ lo n h))
    ],
  )
  | inr e ↦ rw e (SweepAsc-count_up plan have k (n +ℤ pos 1) lo (le_succ_ℤ lo n h))
]

SweepAsc-outside :
    (plan : Plan) (have : ℤ → Bool) (xs : List ℤ) (lo : ℤ)
    → SweepAsc plan lo
        (filter_by (λ n. have n && (ltb_ℤ n plan.sweep_from || ltb_ℤ plan.sweep_to n)) xs)
SweepAsc-outside plan have [] lo = tt
SweepAsc-outside plan have (x ∷ xs) lo =
    elim (Bool-cases (have x && (ltb_ℤ x plan.sweep_from || ltb_ℤ plan.sweep_to x))) [
      | inl e ↦ rw e ((λ w. absurd (ground arith)), SweepAsc-outside plan have xs _)
      | inr e ↦ rw e (SweepAsc-outside plan have xs lo)
    ]

pub heights-SweepAsc :
    (plan : Plan) (have : ℤ → Bool) → SweepAsc plan plan.sweep_from (heights_to_verify plan have)
unfolding heights_to_verify
heights-SweepAsc plan have =
    SweepAsc-append plan _ _ plan.sweep_from
      (SweepAsc-count_up plan have (rounds plan.sweep_from plan.sweep_to) plan.sweep_from
        plan.sweep_from (le_refl_ℤ plan.sweep_from))
      (SweepAsc-outside plan have (count_up (rounds plan.tail_from plan.tail_to) plan.tail_from))

-- A stored height of the sweep is on the list.
pub heights-In :
    (plan : Plan) (have : ℤ → Bool) (h : ℤ)
    → have h ≡ true
    → within_sweep plan h ≡ true
    → In h (heights_to_verify plan have)
unfolding heights_to_verify
heights-In plan have h e w = In-append_left h _ _ (
    In-filter_by have h _
      (count_up-In (rounds plan.sweep_from plan.sweep_to) plan.sweep_from h (ground arith)
        (in_rounds plan.sweep_from plan.sweep_to h (ground arith) (ground arith)))
      e)
