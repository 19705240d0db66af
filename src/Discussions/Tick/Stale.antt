-- ===== src/Discussions/Tick/Stale.antt =====
-- A tick on a node that is behind a trusted read of any kind of democracy.
use pdexplorer.Prelude.{
  ℕ, ◌≡◌, refl, ◌∙◌, ap, true, false, Option, some, List, String, map, Bool-cases, Option-cases,
  inl, inr, arith,
}
use pdexplorer.Prelude.Int.{ℤ, ◌<ℤ◌}
use pdexplorer.Prelude.Js.{JsValue, int}
use pdexplorer.Discussions.Table.{
  Kind, proposal, external, referendum, same_kind, Thread, get_thread,
}
use pdexplorer.Discussions.Table.Standings.{Standing, standing, standing_of, UniqueIds}
use pdexplorer.Discussions.Trust.{
  Trust, is_trusted, block_check, count_check, referendum_read_trusted,
}
use pdexplorer.Discussions.Reconcile.{
  Board, RefRead, Item, is_active, no_changes, reconcile_gov_threads, reconcile_threads,
  reconcile_referendum_threads,
}
use pdexplorer.Discussions.Reconcile.Exact.{standing-keep_items, reconcile_threads_exact}
use pdexplorer.Discussions.Reconcile.Referenda.{standing-read_referenda, evolved_untrusted}
use pdexplorer.Discussions.Tick.{
  DemocracyRead, democracy_high_water, get_thread_ref_keys, referendum_trust, external_trust,
  proposal_trust, democracy_tick, no_reason,
}

abbrev pub items_of : List RefRead → List Item
items_of rs = map (λ (r : RefRead). r.item) rs

-- A read that is not trusted keeps the standing of each thread that there is, and every mark.
module _ (now : ℕ) (kind : Kind) (rs : List RefRead) (trust : Trust) (current : JsValue)
    (close_reason : String → Option String) (b : Board) where
  abbrev after : Board
  after = reconcile_gov_threads now kind rs trust current close_reason b

  untrusted-threads :
      (j : String) (s : Standing)
      → is_trusted trust ≡ false
      → standing j b.threads ≡ some s
      → standing j after.threads ≡ some s
  unfolding reconcile_gov_threads reconcile_threads reconcile_referendum_threads
  untrusted-threads j s no_trust was = elim (Bool-cases (same_kind kind referendum)) [
    | inl e ↦
        rw (no_trust, e)
          (standing-read_referenda now false rs j b.threads (no_changes true)
            ∙ rw was (evolved_untrusted j rs s))
    | inr e ↦
        rw (no_trust, e)
          (standing-keep_items now kind false (items_of rs) j b.threads (no_changes true)
            ∙ rw was (ground arith))
  ]

  untrusted-high_water : is_trusted trust ≡ false → after.high_water ≡ b.high_water
  unfolding reconcile_gov_threads
  untrusted-high_water no_trust = rw no_trust

  -- A reconcile of a kind leaves the marks of the others.
  other-high_water : (k : Kind) → same_kind k kind ≡ false → after.high_water k ≡ b.high_water k
  unfolding reconcile_gov_threads
  other-high_water k other = elim (Bool-cases (is_trusted trust)) [
    | inl e ↦ rw (e, other)
    | inr e ↦ rw e
  ]

block_check-behind : (c h : ℤ) → c <ℤ h → is_trusted (block_check (int c) (int h)) ≡ false
unfolding block_check
block_check-behind c h lt = ground arith

count_check-behind :
    (count : JsValue) (c h : ℤ) (keys : List JsValue)
    → c <ℤ h
    → is_trusted (count_check count (int c) (int h) keys) ≡ false
unfolding count_check
count_check-behind count c h keys lt = rw (block_check-behind c h lt) (block_check-behind c h lt)

module _ (as_value : String → JsValue) (d : DemocracyRead) (b : Board) (c : ℤ)
    (at : d.current_block ≡ int c) (lt : c <ℤ democracy_high_water b) where
  referendum-behind : is_trusted (referendum_trust as_value d b) ≡ false
  unfolding referendum_trust referendum_read_trusted
  referendum-behind = rw at (
      count_check-behind d.referendum_count c (democracy_high_water b)
        (get_thread_ref_keys as_value referendum b.threads) lt)

  external-behind : is_trusted (external_trust as_value d b) ≡ false
  unfolding external_trust
  external-behind = rw referendum-behind referendum-behind

  -- The reconcile of the proposals leaves a thread of another kind that is not on their list.
  proposals-keep :
      (now : ℕ) (j : String) (t : Thread)
      → UniqueIds b.threads
      → get_thread j b.threads ≡ some t
      → same_kind t.kind proposal ≡ false
      → is_active (items_of d.proposals) j ≡ false
      → standing j
          (reconcile_gov_threads now proposal d.proposals
            (proposal_trust as_value d b)
            d.current_block
            no_reason
            b).threads
        ≡ some (standing_of t)
  unfolding reconcile_gov_threads
  proposals-keep now j t u is other inactive =
      let trust = is_trusted (proposal_trust as_value d b) in
      elim (Bool-cases trust) [
        | inl e ↦ rw e (
            reconcile_threads_exact now proposal (items_of d.proposals) true no_reason b.threads u j
            ∙ rw (is, inactive, other))
        | inr e ↦ rw e (
            reconcile_threads_exact now proposal (items_of d.proposals) false no_reason b.threads u
              j
            ∙ rw (is, inactive))
      ]

  module _ (now : ℕ) (launched : String → Option String) where
    abbrev b1 : Board
    b1 =
        reconcile_gov_threads now proposal d.proposals (proposal_trust as_value d b) d.current_block
          no_reason b

    abbrev b2 : Board
    b2 =
        reconcile_gov_threads now referendum d.referenda (referendum_trust as_value d b)
          d.current_block no_reason b1

    tick-standing :
        (j : String) (s : Standing)
        → standing j b1.threads ≡ some s
        → standing j (democracy_tick as_value now launched d b).threads ≡ some s
    unfolding democracy_tick referendum_trust proposal_trust external_trust
    tick-standing j s was =
        let s2 : standing j b2.threads ≡ some s =
          untrusted-threads now referendum d.referenda (referendum_trust as_value d b)
            d.current_block no_reason b1 j s referendum-behind was in
        elim (Option-cases d.external_items) [
          | inl e ↦ rw e s2
          | inr (its, e) ↦ rw e (
              untrusted-threads now external its (external_trust as_value d b) d.current_block
                launched b2 j s external-behind s2)
        ]

    tick-high_water :
        (k : Kind)
        → same_kind k proposal ≡ false
        → (democracy_tick as_value now launched d b).high_water k ≡ b.high_water k
    unfolding democracy_tick referendum_trust proposal_trust external_trust
    tick-high_water k other =
        let m1 : b1.high_water k ≡ b.high_water k =
          other-high_water now proposal d.proposals (proposal_trust as_value d b) d.current_block
            no_reason b k other in
        let m2 : b2.high_water k ≡ b.high_water k =
          ap (λ (f : Kind → JsValue). f k)
            (untrusted-high_water now referendum d.referenda (referendum_trust as_value d b)
              d.current_block no_reason b1 referendum-behind)
          ∙ m1 in
        elim (Option-cases d.external_items) [
          | inl e ↦ rw e m2
          | inr (its, e) ↦ rw e (
              ap (λ (f : Kind → JsValue). f k)
                (untrusted-high_water now external its (external_trust as_value d b) d.current_block
                  launched b2 external-behind)
              ∙ m2)
        ]

-- On a node whose block is below the mark of any kind of democracy, whatever it lists and counts, a
-- tick changes the standing of no thread of another kind than a proposal that is not on the list of
-- proposals: it closes no thread of a referendum or of an external proposal, and moves the mark of
-- neither.
pub stale_tick_keeps :
    (as_value : String → JsValue) (now : ℕ) (launched : String → Option String) (d : DemocracyRead)
    (b : Board) (c : ℤ) (j : String) (t : Thread)
    → d.current_block ≡ int c
    → c <ℤ democracy_high_water b
    → UniqueIds b.threads
    → get_thread j b.threads ≡ some t
    → same_kind t.kind proposal ≡ false
    → is_active (items_of d.proposals) j ≡ false
    → (standing j (democracy_tick as_value now launched d b).threads ≡ some (standing_of t))
      × ((democracy_tick as_value now launched d b).high_water referendum ≡ b.high_water referendum)
      × ((democracy_tick as_value now launched d b).high_water external ≡ b.high_water external)
stale_tick_keeps as_value now launched d b c j t at lt u is other inactive = (
  tick-standing as_value d b c at lt now launched j (standing_of t)
      (proposals-keep as_value d b c at lt now j t u is other inactive),
  tick-high_water as_value d b c at lt now launched referendum refl,
  tick-high_water as_value d b c at lt now launched external refl,
)
