-- ===== src/Tests/Heights.antt =====
-- Runs of the watermark, the finality sweep and the gap rotation.
use pdexplorer.Prelude.{◌≡◌, refl, true, some, Option, List, [], ◌∷◌, arith, length, ◌*◌, In, All}
use pdexplorer.Prelude.Int.{ℤ, pos, ◌≤ℤ◌, ◌<ℤ◌, leb_ℤ}
use pdexplorer.Prelude.Js.{int, undefined, null}
use pdexplorer.Indexer.Watermark.{read_head_seen, ScanState}
use pdexplorer.Indexer.Watermark.Trust.{read_head_seen_lem}
use pdexplorer.Indexer.Reorg.{Tick, SweepState}
use pdexplorer.Indexer.Reorg.Guarantee.{sweeps, sweeps-Advances}
use pdexplorer.Indexer.Gaps.{Gap, exhausted_gap_count}
use pdexplorer.Indexer.Gaps.Fair.{fruitless, fruitless-exhausts}

-- The check of height 8 fails in the first tick.
abbrev fails_at_8 : Tick
fails_at_8 = record {
  ready = true;
  finalized = int (pos 9);
  head = int (pos 11);
  have = λ _. true;
  completes = λ n. leb_ℤ n (pos 7);
}

abbrev all_well : Tick
all_well = record fails_at_8 { completes = λ _. true }

abbrev at_5 : SweepState
at_5 = record { verified = int (pos 5); checked = [] }

abbrev ticks : List Tick
ticks = fails_at_8 ∷ all_well ∷ []

sweeps-Advances_example :
    (v : ℤ) × ((sweeps undefined undefined ticks at_5).verified ≡ int v)
    × (pos 5 ≤ℤ v)
    × ((h : ℤ)
        → pos 5 <ℤ h
        → h ≤ℤ v
        → All (λ (t : Tick). t.have h ≡ true) ticks
        → In h (sweeps undefined undefined ticks at_5).checked)
sweeps-Advances_example = sweeps-Advances undefined undefined ticks at_5 (pos 5) refl

read_head_seen_lem_example :
    (read_head_seen (some (record { head_seen = int (pos 9); latest_scanned_block = null }))
      ≡ pos 9)
    × (read_head_seen (some (record { head_seen = undefined; latest_scanned_block = int (pos 9) }))
        ≡ pos 9)
    × ((s : Option ScanState) → pos 0 ≤ℤ read_head_seen s)
read_head_seen_lem_example = read_head_seen_lem 9 null (omega arith)

abbrev gaps : List Gap
gaps =
    record { gap_start = some 90; gap_end = some 95 }
    ∷ record { gap_start = some 10; gap_end = some 12 }
    ∷ []

fruitless-exhausts_example :
    exhausted_gap_count gaps (fruitless gaps 5 (length gaps * 5) 0 (λ _. 0)) 5 ≡ 2
fruitless-exhausts_example =
    fruitless-exhausts gaps 5 0 (λ _. 0) (refl, ((refl, tt), (refl, (tt, tt))))
