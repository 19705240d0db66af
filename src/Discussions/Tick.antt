-- ===== src/Discussions/Tick.antt =====
-- The part of a democracy tick that reconciles threads (`syncData` of server.js): proposals, then
-- referenda, then the external proposal, with the mark of each kind in the key-value store.
-- `as_value` is what a reference key is as a value of JavaScript.
pub mod Stale
use pdexplorer.Prelude.{ℕ, Bool, Option, none, some, List, [], ◌∷◌, String, map, if◌then◌else◌}
use pdexplorer.Prelude.Int.{ℤ, pos, max_ℤ}
use pdexplorer.Prelude.Js.{JsValue, int}
use pdexplorer.Discussions.Table.{Kind, proposal, external, referendum, same_kind, Thread, Threads}
use pdexplorer.Discussions.Trust.{
  Trust, is_trusted, finite_block, block_or_0, proposal_read_trusted, referendum_read_trusted,
  external_read_trusted,
}
use pdexplorer.Discussions.Reconcile.{Board, RefRead, reconcile_gov_threads}

-- What the tick has read of the chain. Without `external` the runtime has no external proposals, or
-- the hash of the one that is queued could not be read.
pub record DemocracyRead : Type 0 where
  pub current_block : JsValue
  pub public_prop_count : JsValue
  pub referendum_count : JsValue
  pub proposals : List RefRead
  pub referenda : List RefRead
  pub external_items : Option (List RefRead)

-- `getThreadRefKeys`, each as a value.
unfoldable pub get_thread_ref_keys : (String → JsValue) → Kind → Threads → List JsValue
get_thread_ref_keys as_value kind [] = []
get_thread_ref_keys as_value kind (t ∷ ts) =
    let rest = get_thread_ref_keys as_value kind ts in
    if same_kind t.kind kind then as_value t.ref_key ∷ rest else rest

-- `threadHighWater`: a mark that was never stored is 0, as a blank one is.
unfoldable pub thread_high_water : Kind → Board → ℤ
thread_high_water kind b = block_or_0 (finite_block (b.high_water kind))

-- The highest mark of the kinds of democracy.
unfoldable pub democracy_high_water : Board → ℤ
democracy_high_water b =
    max_ℤ (max_ℤ (thread_high_water proposal b) (thread_high_water external b))
      (thread_high_water referendum b)

abbrev pub no_reason : String → Option String
no_reason id = none

module _ (as_value : String → JsValue) where
  unfoldable pub referendum_trust : DemocracyRead → Board → Trust
  referendum_trust d b =
      referendum_read_trusted d.referendum_count d.current_block (int (democracy_high_water b))
        (get_thread_ref_keys as_value referendum b.threads)

  unfoldable pub external_trust : DemocracyRead → Board → Trust
  external_trust d b =
      let ref_trust = referendum_trust d b in
      if is_trusted ref_trust
      then external_read_trusted d.current_block (int (democracy_high_water b))
      else ref_trust

  unfoldable pub proposal_trust : DemocracyRead → Board → Trust
  proposal_trust d b =
      proposal_read_trusted d.public_prop_count d.current_block (int (thread_high_water proposal b))
        (get_thread_ref_keys as_value proposal b.threads)

  -- `launched` words the close of an external proposal.
  unfoldable pub democracy_tick : ℕ → (String → Option String) → DemocracyRead → Board → Board
  democracy_tick now launched d b =
      let ref_trust = referendum_trust d b in
      let ext_trust = external_trust d b in
      let b1 =
        reconcile_gov_threads now proposal d.proposals (proposal_trust d b) d.current_block
          no_reason b in
      let b2 =
        reconcile_gov_threads now referendum d.referenda ref_trust d.current_block no_reason b1 in
      elim d.external_items [
        | none ↦ b2
        | some its ↦ reconcile_gov_threads now external its ext_trust d.current_block launched b2
      ]
