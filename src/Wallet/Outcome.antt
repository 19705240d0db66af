-- ===== src/Wallet/Outcome.antt =====
-- lib/tx-status.js: what the events of a block say happened to a transaction (evaluateEvents), with the
-- key of a dispatch error (decodeDispatchError). The texts are left out.
pub mod Clean
use pdexplorer.Prelude.{
  ℕ, suc, ◌+◌, Bool, true, false, not, ◌&&◌, ◌||◌, Option, none, some, List, [], ◌∷◌, String,
  str_eq, ltb, leb, ◌==◌, if◌then◌else◌,
}

-- An error as polkadot-js gives it; `module_error` has what the registry finds for it, if it finds it,
-- and `other_error` its type where that is a word of letters, else Other.
pub data DispatchError : Type 0 where
  module_error : Option (String × String) → DispatchError
  token_error arithmetic_error transactional_error other_error : String → DispatchError
  bad_origin : DispatchError

-- The key of an error: its two parts, which a full stop joins.
unfoldable pub decode_dispatch_error : DispatchError → String × String
decode_dispatch_error (module_error none) = ("module", "Unknown")
decode_dispatch_error (module_error (some k)) = k
decode_dispatch_error (token_error t) = ("token", t)
decode_dispatch_error (arithmetic_error t) = ("arithmetic", t)
decode_dispatch_error bad_origin = ("system", "BadOrigin")
decode_dispatch_error (transactional_error t) = ("transactional", t)
decode_dispatch_error (other_error t) = ("system", t)

pub data RunResult : Type 0 where
  result_ok : RunResult
  result_err : DispatchError → RunResult

-- An event: the dispatch error among its data, the number and the texts of its first two data, and the
-- first of its data that is a result. A record without an event is left out.
pub record ChainEvent : Type 0 where
  pub section : String
  pub method : String
  pub error : Option DispatchError
  pub number_0 : ℕ
  pub text_0 : Option String
  pub text_1 : Option String
  pub result : Option RunResult

unfoldable pub is_collective : String → Bool
is_collective s =
    str_eq s "council"
    || str_eq s "technicalCommittee"
    || str_eq s "councilCollective"
    || str_eq s "generalCouncil"

pub data EventKind : Type 0 where
  extrinsic_failed item_failed item_completed batch_interrupted executed_call approval_recorded :
      EventKind
  approved_motion disapproved_motion withdrawn_bond payout_started fee_paid reserved_bond
        cleared_identity :
      EventKind
  proposed_spend unrelated : EventKind

abbrev is_event : String → String → ChainEvent → Bool
is_event s m e = str_eq e.section s && str_eq e.method m

-- The chain of tests in the loop.
unfoldable pub kind_of : ChainEvent → EventKind
kind_of e =
    if is_event "system" "ExtrinsicFailed" e
    then extrinsic_failed
    else if is_event "utility" "ItemFailed" e
    then item_failed
    else if is_event "utility" "ItemCompleted" e
    then item_completed
    else if is_event "utility" "BatchInterrupted" e
    then batch_interrupted
    else if (is_collective e.section
          && (str_eq e.method "Executed" || str_eq e.method "MemberExecuted"))
        || is_event "multisig" "MultisigExecuted" e
    then executed_call
    else if is_event "multisig" "NewMultisig" e || is_event "multisig" "MultisigApproval" e
    then approval_recorded
    else if is_collective e.section && str_eq e.method "Approved"
    then approved_motion
    else if is_collective e.section && str_eq e.method "Disapproved"
    then disapproved_motion
    else if is_event "staking" "Withdrawn" e
    then withdrawn_bond
    else if is_event "staking" "PayoutStarted" e
    then payout_started
    else if is_event "transactionPayment" "TransactionFeePaid" e
    then fee_paid
    else if is_event "balances" "Reserved" e
    then reserved_bond
    else if is_event "identity" "IdentityCleared" e
    then cleared_identity
    else if is_event "treasury" "Proposed" e
    then proposed_spend
    else unrelated

pub data Executed : Type 0 where
  not_executed ran_ok ran_err : Executed

-- What the loop has gathered.
pub record Gathered : Type 0 where
  pub extrinsic_err : Option DispatchError
  pub item_err : Option DispatchError
  pub interrupted : Option (ℕ × Option DispatchError)
  pub exec_err : Option DispatchError
  pub failed_items : ℕ
  pub completed_items : ℕ
  pub executed : Executed
  pub is_recorded : Bool
  pub has_multisig : Bool
  pub is_approved : Bool
  pub is_disapproved : Bool
  pub withdrawn : Option String
  pub payouts_started : ℕ
  pub fee : Option String
  pub reserved : Option String
  pub unreserved : Option String
  pub proposal_index : Option String

abbrev pub nothing : Gathered
nothing = record {
  extrinsic_err = none;
  item_err = none;
  interrupted = none;
  exec_err = none;
  failed_items = 0;
  completed_items = 0;
  executed = not_executed;
  is_recorded = false;
  has_multisig = false;
  is_approved = false;
  is_disapproved = false;
  withdrawn = none;
  payouts_started = 0;
  fee = none;
  reserved = none;
  unreserved = none;
  proposal_index = none;
}

abbrev or_error : Option DispatchError → Option DispatchError → Option DispatchError
or_error none e = e
or_error (some x) e = some x

-- `if (out.executed !== 'err') out.executed = 'ok'`
abbrev pub run_fine : Executed → Executed
run_fine not_executed = ran_ok
run_fine ran_ok = ran_ok
run_fine ran_err = ran_err

abbrev pub on_result : Option RunResult → Gathered → Gathered
on_result none g = record g { executed = run_fine g.executed }
on_result (some result_ok) g = record g { executed = run_fine g.executed }
on_result (some (result_err x)) g = record g {
  executed = ran_err;
  exec_err = or_error g.exec_err (some x);
}

unfoldable pub on_kind : EventKind → ChainEvent → Gathered → Gathered
on_kind extrinsic_failed e g = record g { extrinsic_err = e.error }
on_kind item_failed e g = record g {
  failed_items = suc g.failed_items;
  item_err = or_error g.item_err e.error;
}
on_kind item_completed e g = record g { completed_items = suc g.completed_items }
on_kind batch_interrupted e g = record g { interrupted = some (e.number_0, e.error) }
on_kind executed_call e g = on_result e.result g
on_kind approval_recorded e g = record g { is_recorded = true }
on_kind approved_motion e g = record g { is_approved = true }
on_kind disapproved_motion e g = record g { is_disapproved = true }
on_kind withdrawn_bond e g = record g { withdrawn = e.text_1 }
on_kind payout_started e g = record g { payouts_started = suc g.payouts_started }
on_kind fee_paid e g = record g { fee = e.text_1 }
on_kind reserved_bond e g = record g { reserved = e.text_1 }
on_kind cleared_identity e g = record g { unreserved = e.text_1 }
on_kind proposed_spend e g = record g { proposal_index = e.text_0 }
on_kind unrelated e g = g

unfoldable pub gather : ChainEvent → Gathered → Gathered
gather e g =
    on_kind (kind_of e) e
      (if str_eq e.section "multisig" then record g { has_multisig = true } else g)

abbrev pub gather_all : Gathered → List ChainEvent → Gathered
gather_all g [] = g
gather_all g (e ∷ es) = gather_all (gather e g) es

pub data Tone : Type 0 where
  tone_ok tone_warn tone_error : Tone

-- What `evaluateEvents` returns, without the texts.
pub record Evaluation : Type 0 where
  pub is_ok : Bool
  pub tone : Tone
  pub key : Option (String × String)
  pub gathered : Gathered

abbrev pub key_or : Option DispatchError → String × String → String × String
key_or none k = k
key_or (some x) k = decode_dispatch_error x

abbrev pub failure : String × String → Gathered → Evaluation
failure k g = record { is_ok = false; tone = tone_error; key = some k; gathered = g }

abbrev pub success : Gathered → Evaluation
success g = record { is_ok = true; tone = tone_ok; key = none; gathered = g }

abbrev pub judge_run : Executed → Gathered → Evaluation
judge_run not_executed g = success g
judge_run ran_ok g = success g
judge_run ran_err g = failure (key_or g.exec_err ("collective", "Executed")) g

abbrev pub partly : Gathered → Evaluation
partly g = record {
  is_ok = true;
  tone = tone_warn;
  key = some (key_or g.item_err ("utility", "ItemFailed"));
  gathered = g;
}

abbrev pub judge_items : Bool → Gathered → Evaluation
judge_items is_payout g =
    if g.failed_items == 0
    then judge_run g.executed g
    else if is_payout && ltb 0 g.completed_items
    then partly g
    else failure (key_or g.item_err ("utility", "ItemFailed")) g

abbrev pub judge_batch : Option (ℕ × Option DispatchError) → Bool → Gathered → Evaluation
judge_batch none is_payout g = judge_items is_payout g
judge_batch (some i) is_payout g = failure (key_or i.1 ("utility", "BatchInterrupted")) g

abbrev pub judge : Option DispatchError → Bool → Gathered → Evaluation
judge none is_payout g = judge_batch g.interrupted is_payout g
judge (some x) is_payout g = failure (decode_dispatch_error x) g

unfoldable pub evaluate_events : List ChainEvent → String → Evaluation
evaluate_events events action_key =
    let g = gather_all nothing events in
    judge g.extrinsic_err (str_eq action_key "staking.payout") g
