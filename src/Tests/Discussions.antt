-- ===== src/Tests/Discussions.antt =====
-- Runs of the reconcile of threads, and its theorems at concrete threads.
use pdexplorer.Prelude.{◌≡◌, refl, arith, true, false, none, some, [], ◌∷◌, String, map}
use pdexplorer.Prelude.Int.{pos}
use pdexplorer.Prelude.Js.{JsValue, int}
use pdexplorer.Discussions.Table.{
  motion, external, referendum, Threads, opened, closed, get_thread, new_thread,
  create_thread_if_missing, close_thread, reopen_thread, get_open_thread_ids,
}
use pdexplorer.Discussions.Table.Standings.{standing, standing_of, UniqueIds}
use pdexplorer.Discussions.Reconcile.{
  Item, RefRead, passed, Board, reason_for, keep_items, keep_item, annotate, self_heal,
  is_auto_close_text, close_missing, close_one, reconcile_threads, read_referenda, read_referendum,
  read_state, end_referendum, reconcile_referendum_threads, is_launched_reason, is_active,
}
use pdexplorer.Discussions.Reconcile.Exact.{reconcile_threads_exact, settled}
use pdexplorer.Discussions.Reconcile.Referenda.{ClosedBy, referendum_closed_evidence}
use pdexplorer.Discussions.Tick.{
  DemocracyRead, democracy_tick, no_reason, democracy_high_water, thread_high_water,
}
use pdexplorer.Discussions.Trust.{finite_block}
use pdexplorer.Discussions.Tick.Stale.{stale_tick_keeps}

abbrev item : String → Item
item id = record {
  id = id;
  ref_key = "1";
  title = none;
  proposal_hash = none;
  title_decoded = false;
}

abbrev seen : RefRead
seen = record { item = item "r-1"; state = passed }

-- A motion that was closed by a lagging node, one that is open, and an open referendum.
abbrev threads : Threads
threads =
    record (new_thread 1 motion "m-1" "a" none) {
      status = closed;
      closed_reason = some "Council motion concluded.";
    }
    ∷ new_thread 2 motion "m-2" "b" none
    ∷ new_thread 3 referendum "r-1" "1" none
    ∷ []

threads-UniqueIds : UniqueIds threads
unfolding get_thread
threads-UniqueIds = (refl, (refl, (refl, tt)))

healed :
    map standing_of (reconcile_threads 9 motion (item "m-1" ∷ []) true no_reason threads).0
    ≡ (opened, none) ∷ (closed, some "Council motion concluded.") ∷ (opened, none) ∷ []
unfolding reconcile_threads keep_items keep_item annotate self_heal is_auto_close_text close_missing
    close_one create_thread_if_missing close_thread reopen_thread get_open_thread_ids get_thread
healed = refl

launched : is_launched_reason "External proposal launched as referendum #36." ≡ true
unfolding is_launched_reason
launched = refl

not_launched : is_launched_reason "External proposal launched as referendum #." ≡ false
unfolding is_launched_reason
not_launched = refl

reconcile_threads_exact_example :
    standing "m-2" (reconcile_threads 9 motion (item "m-1" ∷ []) true no_reason threads).0
    ≡ settled motion true
        (is_active (item "m-1" ∷ []) "m-2")
        (reason_for motion no_reason "m-2")
        (get_thread "m-2" threads)
reconcile_threads_exact_example =
    reconcile_threads_exact 9 motion (item "m-1" ∷ []) true no_reason threads threads-UniqueIds
      "m-2"

ended :
    standing "r-1" (reconcile_referendum_threads 9 (seen ∷ []) true threads).0
    ≡ some (closed, some "Referendum passed.")
unfolding reconcile_referendum_threads read_referenda read_referendum read_state end_referendum
    close_thread get_thread
ended = refl

was_open : standing "r-1" threads ≡ some (opened, none)
unfolding get_thread
was_open = refl

referendum_closed_evidence_example : ClosedBy true "r-1" (some "Referendum passed.") (seen ∷ [])
referendum_closed_evidence_example =
    referendum_closed_evidence 9 (seen ∷ []) true threads "r-1" none "Referendum passed." was_open
      ended

abbrev board : Board
board = record { threads = threads; high_water = λ k. int (pos 100) }

-- A node at block 90, which has not seen the referendum that the board has a thread for.
abbrev lagging : DemocracyRead
lagging = record {
  current_block = int (pos 90);
  public_prop_count = int (pos 0);
  referendum_count = int (pos 0);
  proposals = [];
  referenda = seen ∷ [];
  external_items = some [];
}

abbrev as_value : String → JsValue
as_value key = int (pos 1)

is_there : get_thread "r-1" threads ≡ some (new_thread 3 referendum "r-1" "1" none)
unfolding get_thread
is_there = refl

stale_tick_keeps_example :
    (standing "r-1" (democracy_tick as_value 9 no_reason lagging board).threads
      ≡ some (opened, none))
    × ((democracy_tick as_value 9 no_reason lagging board).high_water referendum ≡ int (pos 100))
    × ((democracy_tick as_value 9 no_reason lagging board).high_water external ≡ int (pos 100))
unfolding democracy_high_water thread_high_water finite_block
stale_tick_keeps_example =
    stale_tick_keeps as_value 9 no_reason lagging board (pos 90) "r-1"
      (new_thread 3 referendum "r-1" "1" none) refl (omega arith) threads-UniqueIds is_there refl
      refl
