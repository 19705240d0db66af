-- ===== src/Rewards/Dedup/Reconcile.antt =====
-- No payout is counted twice, and none is dropped without a claim that accounts for it.
use pdexplorer.Prelude.{
  ◌+◌, ◌≡◌, refl, subst, ap, ◌∙◌, ◌≢◌, ◌⊎◌, ◌↔◌, inl, inr, Bool, true, false, Option, none, some,
  List, [], ◌∷◌, length, In, arith, Bool-cases, Option-cases,
}
use pdexplorer.Prelude.Int.{ℤ, ◌+ℤ◌}
use pdexplorer.Prelude.Js.{number}
use pdexplorer.Prelude.Text.{Text, text_eq}
use pdexplorer.Rewards.Dedup.{
  Reward, era_of, eq_ℤ, ClaimedIndex, add_claimed, build_claimed_index, is_claimed,
  filter_unclaimed, amount_of, sum_amounts, summarize_rewards,
}

text_eq_iff : (a b : Text) → (text_eq a b ≡ true) ↔ (a ≡ b)
text_eq_iff [] [] = ground arith
text_eq_iff [] (b ∷ t) = ground arith
text_eq_iff (a ∷ s) [] = ground arith
text_eq_iff (a ∷ s) (b ∷ t) = ground (arith, text_eq_iff s t)

-- The claimed row accounts for the pair of an era and a validator.
abbrev pub Accounts : Reward → ℤ → Text → Type 0
Accounts row era validator =
    (era_of row.era ≡ some era) × ((row.validator ≡ []) ⊎ (row.validator ≡ validator))

abbrev AccountedBy : List Reward → ℤ → Text → Type 0
AccountedBy claimed era validator = (row : Reward) × In row claimed × Accounts row era validator

eq_ℤ_iff : (a b : ℤ) → (eq_ℤ a b ≡ true) ↔ (a ≡ b)
eq_ℤ_iff a b = ground arith

is_claimed-add :
    (row_era : Option ℤ) (name : Text) (index : ClaimedIndex) (era : ℤ) (validator : Text)
    → (is_claimed (some era) validator (add_claimed row_era name index) ≡ true) ↔ (
        (is_claimed (some era) validator index ≡ true)
        ⊎ ((row_era ≡ some era) × ((name ≡ []) ⊎ (name ≡ validator))))
is_claimed-add none name index era validator = ground arith
is_claimed-add (some e) [] index era validator = ground (arith, eq_ℤ_iff era e)
is_claimed-add (some e) (c ∷ name) index era validator =
    ground (arith, eq_ℤ_iff era e, text_eq_iff validator (c ∷ name))

AccountedBy-cons :
    (row : Reward) (rows : List Reward) (era : ℤ) (validator : Text)
    → AccountedBy (row ∷ rows) era validator
      ↔ (AccountedBy rows era validator ⊎ Accounts row era validator)
AccountedBy-cons row rows era validator = (to, from)
  where
    to :
        AccountedBy (row ∷ rows) era validator
        → AccountedBy rows era validator ⊎ Accounts row era validator
    to (r, inl e, a) = inr (subst (λ x. Accounts x era validator) e a)
    to (r, inr m, a) = inl (r, m, a)

    from :
        AccountedBy rows era validator ⊎ Accounts row era validator
        → AccountedBy (row ∷ rows) era validator
    from (inl (r, m, a)) = (r, inr m, a)
    from (inr a) = (row, inl refl, a)

is_claimed_iff :
    (claimed : List Reward) (era : ℤ) (validator : Text)
    → (is_claimed (some era) validator (build_claimed_index claimed) ≡ true)
      ↔ AccountedBy claimed era validator
unfolding build_claimed_index
is_claimed_iff [] era validator = ((λ h. absurd (ground arith)), (λ (r, m, a). elim m [ ]))
is_claimed_iff (row ∷ rows) era validator =
    let step =
      is_claimed-add (era_of row.era) row.validator (build_claimed_index rows) era validator in
    let ih = is_claimed_iff rows era validator in
    let cons = AccountedBy-cons row rows era validator in
    (
      (λ h. cons.1 (elim (step.0 h) [ inl old ↦ inl (ih.0 old) | inr new ↦ inr new ])),
      (λ a. step.1 (elim (cons.0 a) [ inl old ↦ inl (ih.1 old) | inr new ↦ inr new ])),
    )

-- The test of `filterUnclaimed` on a row.
abbrev accounted : ClaimedIndex → Reward → Bool
accounted index u = is_claimed (era_of u.era) u.validator index

filter_unclaimed-In :
    (rows : List Reward) (index : ClaimedIndex) (u : Reward)
    → (In u (filter_unclaimed rows index).kept
        → In u rows × (is_claimed (era_of u.era) u.validator index ≡ false))
      × (In u (filter_unclaimed rows index).suppressed
          → In u rows × (is_claimed (era_of u.era) u.validator index ≡ true))
unfolding filter_unclaimed
filter_unclaimed-In [] index u = ((λ m. elim m [ ]), (λ m. elim m [ ]))
filter_unclaimed-In (row ∷ rows) index u =
    let (in_kept, in_suppressed) = filter_unclaimed-In rows index u in
    elim (Bool-cases (is_claimed (era_of row.era) row.validator index)) [
      | inl e ↦ rw e (
        (λ m. (inr (in_kept m).0, (in_kept m).1)),
        (λ m. elim m [
          | inl same ↦ (inl same, ap (accounted index) same ∙ e)
          | inr old ↦ (inr (in_suppressed old).0, (in_suppressed old).1)
        ]),
      )
      | inr e ↦ rw e (
        (λ m. elim m [
          | inl same ↦ (inl same, ap (accounted index) same ∙ e)
          | inr old ↦ (inr (in_kept old).0, (in_kept old).1)
        ]),
        (λ m. (inr (in_suppressed m).0, (in_suppressed m).1)),
      )
    ]

add_shift : (a b c d : ℤ) → b +ℤ c ≡ d → (a +ℤ b) +ℤ c ≡ a +ℤ d
add_shift a b c d h = ground (arith, h)

add_shift_right : (a b c d : ℤ) → b +ℤ c ≡ d → b +ℤ (a +ℤ c) ≡ a +ℤ d
add_shift_right a b c d h = ground (arith, h)

filter_unclaimed-sum :
    (rows : List Reward) (index : ClaimedIndex)
    → (sum_amounts (filter_unclaimed rows index).kept
          +ℤ sum_amounts (filter_unclaimed rows index).suppressed
        ≡ sum_amounts rows)
      × (length (filter_unclaimed rows index).kept + length (filter_unclaimed rows index).suppressed
          ≡ length rows)
unfolding filter_unclaimed sum_amounts
filter_unclaimed-sum [] index = (refl, omega arith)
filter_unclaimed-sum (row ∷ rows) index =
    let (sums, counts) = filter_unclaimed-sum rows index in
    let amount : ℤ = amount_of (number row.amount) in
    elim (Bool-cases (is_claimed (era_of row.era) row.validator index)) [
      | inl e ↦ rw e (add_shift_right amount _ _ _ sums, omega (arith, counts))
      | inr e ↦ rw e (add_shift amount _ _ _ sums, omega (arith, counts))
    ]

-- No payout is counted both as received and as owed: where a claimed row and an unclaimed row that is
-- shown are of one era, the claimed row names a validator, and another one.
pub summarize_rewards_disjoint :
    (claimed unclaimed : List Reward) (c u : Reward) (era : ℤ)
    → In c claimed
    → In u (summarize_rewards claimed unclaimed).unclaimed
    → era_of c.era ≡ some era
    → era_of u.era ≡ some era
    → (c.validator ≢ []) × (c.validator ≢ u.validator)
unfolding summarize_rewards
summarize_rewards_disjoint claimed unclaimed c u era mc mu ec eu =
    ((λ e. clash (inl e)), (λ e. clash (inr e)))
  where
    shown : is_claimed (some era) u.validator (build_claimed_index claimed) ≡ false
    shown = rw eu at ((filter_unclaimed-In unclaimed (build_claimed_index claimed) u).0 mu).1

    clash : (c.validator ≡ []) ⊎ (c.validator ≡ u.validator) → ⊥
    clash a =
        (let hit : is_claimed (some era) u.validator (build_claimed_index claimed) ≡ true =
            (is_claimed_iff claimed era u.validator).1 (c, mc, (ec, a)) in
          ground (arith, hit, shown))

-- The amounts and the numbers of the rows shown and of those suppressed add up to what was given, and the
-- total is short of everything by the suppressed rows.
pub summarize_rewards_conserves :
    (claimed unclaimed : List Reward)
    → ((summarize_rewards claimed unclaimed).unclaimed_total
          +ℤ sum_amounts (summarize_rewards claimed unclaimed).suppressed_rows
        ≡ sum_amounts unclaimed)
      × ((summarize_rewards claimed unclaimed).unclaimed_count
            + (summarize_rewards claimed unclaimed).reconciled_count
          ≡ length unclaimed)
      × ((summarize_rewards claimed unclaimed).total_amount
            +ℤ sum_amounts (summarize_rewards claimed unclaimed).suppressed_rows
          ≡ sum_amounts claimed +ℤ sum_amounts unclaimed)
unfolding summarize_rewards
summarize_rewards_conserves claimed unclaimed =
    let (sums, counts) = filter_unclaimed-sum unclaimed (build_claimed_index claimed) in
    (sums, counts, add_shift (sum_amounts claimed) _ _ _ sums)

-- A row is suppressed only where a claimed row of its era accounts for it, by its validator or because
-- that row names none.
pub summarize_rewards_accounted :
    (claimed unclaimed : List Reward) (u : Reward)
    → In u (summarize_rewards claimed unclaimed).suppressed_rows
    → (era : ℤ) × (era_of u.era ≡ some era)
      × ((c : Reward) × In c claimed × Accounts c era u.validator)
unfolding summarize_rewards
summarize_rewards_accounted claimed unclaimed u m = elim (Option-cases (era_of u.era)) [
  | inl e ↦ absurd (ground (arith, rw e at hit))
  | inr (era, e) ↦ (era, e, (is_claimed_iff claimed era u.validator).0 (rw e at hit))
]
  where
    hit : is_claimed (era_of u.era) u.validator (build_claimed_index claimed) ≡ true
    hit = ((filter_unclaimed-In unclaimed (build_claimed_index claimed) u).1 m).1
