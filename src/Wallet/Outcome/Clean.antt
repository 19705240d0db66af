-- ===== src/Wallet/Outcome/Clean.antt =====
-- When a transaction that is in a block counts as a success.
use pdexplorer.Prelude.{
  ℕ, ◌<◌, Bool, true, false, not, ◌&&◌, Bool-cases, inl, inr, ◌⊎◌, ◌↔◌, ◌≡◌, ◌∙◌, refl, Option,
  none, some, List, [], ◌∷◌, String, str_eq, eq_iff, any, All, arith, ltb, ◌==◌, if◌then◌else◌,
}
use pdexplorer.Wallet.Outcome.{
  DispatchError, RunResult, result_ok, result_err, ChainEvent, EventKind, extrinsic_failed,
  item_failed, item_completed, batch_interrupted, executed_call, approval_recorded, approved_motion,
  disapproved_motion, withdrawn_bond, payout_started, fee_paid, reserved_bond, cleared_identity,
  proposed_spend, unrelated, kind_of, Executed, not_executed, ran_ok, ran_err, Gathered, nothing,
  on_result, on_kind, gather, gather_all, Tone, tone_ok, tone_warn, tone_error, judge_run, partly,
  failure, key_or, judge_batch, judge, evaluate_events,
}

abbrev pub is_err : Option RunResult → Bool
is_err none = false
is_err (some result_ok) = false
is_err (some (result_err x)) = true

-- The event says that something failed: the whole call, an item of a batch, the rest of a batch, or
-- the call that a motion or a multisig ran.
abbrev pub is_failure : EventKind → ChainEvent → Bool
is_failure extrinsic_failed e = true
is_failure item_failed e = true
is_failure batch_interrupted e = true
is_failure executed_call e = is_err e.result
is_failure item_completed e = false
is_failure approval_recorded e = false
is_failure approved_motion e = false
is_failure disapproved_motion e = false
is_failure withdrawn_bond e = false
is_failure payout_started e = false
is_failure fee_paid e = false
is_failure reserved_bond e = false
is_failure cleared_identity e = false
is_failure proposed_spend e = false
is_failure unrelated e = false

abbrev pub has_error : Option DispatchError → Bool
has_error none = false
has_error (some x) = true

-- A failed call carries its error.
abbrev pub carries : EventKind → ChainEvent → Bool
carries k e = elim k [ extrinsic_failed ↦ has_error e.error | _ ↦ true ]

abbrev ran_fine : Executed → Bool
ran_fine not_executed = true
ran_fine ran_ok = true
ran_fine ran_err = false

abbrev is_missing : Option (ℕ × Option DispatchError) → Bool
is_missing none = true
is_missing (some i) = false

abbrev is_clean : Gathered → Bool
is_clean g =
    not (has_error g.extrinsic_err)
    && (is_missing g.interrupted && (g.failed_items == 0 && ran_fine g.executed))

on_result-clean :
    (r : Option RunResult) (g : Gathered)
    → is_clean (on_result r g) ≡ (is_clean g && not (is_err r))
on_result-clean none g = ground arith
on_result-clean (some result_ok) g = ground arith
on_result-clean (some (result_err x)) g = ground arith

on_kind-clean :
    (k : EventKind) (e : ChainEvent) (g : Gathered)
    → carries k e ≡ true
    → is_clean (on_kind k e g) ≡ (is_clean g && not (is_failure k e))
unfolding on_kind
on_kind-clean extrinsic_failed e g c = ground (arith, c)
on_kind-clean item_failed e g c = ground arith
on_kind-clean batch_interrupted e g c = ground arith
on_kind-clean executed_call e g c = on_result-clean e.result g
on_kind-clean item_completed e g c = ground arith
on_kind-clean approval_recorded e g c = ground arith
on_kind-clean approved_motion e g c = ground arith
on_kind-clean disapproved_motion e g c = ground arith
on_kind-clean withdrawn_bond e g c = ground arith
on_kind-clean payout_started e g c = ground arith
on_kind-clean fee_paid e g c = ground arith
on_kind-clean reserved_bond e g c = ground arith
on_kind-clean cleared_identity e g c = ground arith
on_kind-clean proposed_spend e g c = ground arith
on_kind-clean unrelated e g c = ground arith

gather-clean :
    (e : ChainEvent) (g : Gathered)
    → carries (kind_of e) e ≡ true
    → is_clean (gather e g) ≡ (is_clean g && not (is_failure (kind_of e) e))
unfolding gather
gather-clean e g c = elim (Bool-cases (str_eq e.section "multisig")) [
  | inl h ↦ rw h (on_kind-clean (kind_of e) e (record g { has_multisig = true }) c)
  | inr h ↦ rw h (on_kind-clean (kind_of e) e g c)
]

gather_all-clean :
    (es : List ChainEvent) (g : Gathered)
    → All (λ e. carries (kind_of e) e ≡ true) es
    → is_clean (gather_all g es) ≡ (is_clean g && not (any (λ e. is_failure (kind_of e) e) es))
gather_all-clean [] g c = ground arith
gather_all-clean (e ∷ es) g (c, cs) =
    ground (arith, gather_all-clean es (gather e g) cs, gather-clean e g c)

abbrev is_fine : Tone → Bool
is_fine tone_ok = true
is_fine tone_warn = false
is_fine tone_error = false

judge_run_fine : (r : Executed) (g : Gathered) → is_fine (judge_run r g).tone ≡ ran_fine r
judge_run_fine not_executed g = refl
judge_run_fine ran_ok g = refl
judge_run_fine ran_err g = refl

items_fine :
    (z w : Bool) (r : Executed) (g : Gathered) (k : String × String)
    → is_fine (if z then judge_run r g else if w then partly g else failure k g).tone
      ≡ (z && ran_fine r)
items_fine true w r g k = judge_run_fine r g
items_fine false true r g k = refl
items_fine false false r g k = refl

batch_fine :
    (i : Option (ℕ × Option DispatchError)) (b : Bool) (g : Gathered)
    → is_fine (judge_batch i b g).tone
      ≡ (is_missing i && (g.failed_items == 0 && ran_fine g.executed))
batch_fine none b g =
    items_fine (g.failed_items == 0) (b && ltb 0 g.completed_items) g.executed g
      (key_or g.item_err ("utility", "ItemFailed"))
batch_fine (some i) b g = refl

judge_fine :
    (x : Option DispatchError) (b : Bool) (g : Gathered)
    → is_fine (judge x b g).tone ≡ (
        not (has_error x)
        && (is_missing g.interrupted && (g.failed_items == 0 && ran_fine g.executed)))
judge_fine none b g = batch_fine g.interrupted b g
judge_fine (some x) b g = refl

judge_ok :
    (b : Bool) (g : Gathered)
    → (judge g.extrinsic_err b g).is_ok ≡ true
    → ((judge g.extrinsic_err b g).tone ≡ tone_ok) ⊎ ((b ≡ true) × (0 < g.completed_items))
judge_ok b g h = ground (arith, h)

plain : (t : Tone) (b : Bool) → is_fine t ≡ not b → (t ≡ tone_ok) ↔ (b ≡ false)
plain tone_ok b h = ground (arith, h)
plain tone_warn b h = ground (arith, h)
plain tone_error b h = ground (arith, h)

-- Where every failed call carries its error: a transaction is shown as a plain success exactly where no
-- event says that the call, an item of a batch, the rest of a batch, or the call that a motion or a
-- multisig ran failed. One that is not a failure and no plain success is a batch of payouts of which
-- some completed.
pub evaluate_events_clean :
    (events : List ChainEvent) (action_key : String)
    → All (λ e. carries (kind_of e) e ≡ true) events
    → (((evaluate_events events action_key).tone ≡ tone_ok)
        ↔ (any (λ e. is_failure (kind_of e) e) events ≡ false))
      × (((evaluate_events events action_key).is_ok ≡ false)
          ⊎ (((evaluate_events events action_key).tone ≡ tone_ok)
              ⊎ ((action_key ≡ "staking.payout")
                  × (0 < (gather_all nothing events).completed_items))))
unfolding evaluate_events
evaluate_events_clean events action_key c =
    let g = gather_all nothing events in
    let b = str_eq action_key "staking.payout" in
    let fine = judge_fine g.extrinsic_err b g ∙ gather_all-clean events nothing c in
    (
      plain (judge g.extrinsic_err b g).tone (any (λ e. is_failure (kind_of e) e) events) fine,
      elim (Bool-cases (judge g.extrinsic_err b g).is_ok) [
        | inr e ↦ inl e
        | inl e ↦ elim (judge_ok b g e) [
          | inl t ↦ inr (inl t)
          | inr (p, n) ↦ inr (inr ((eq_iff action_key "staking.payout").0 p, n))
        ]
      ],
    )
