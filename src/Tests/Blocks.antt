-- ===== src/Tests/Blocks.antt =====
-- Runs of the gap scans, over a table with three holes.
use pdexplorer.Prelude.{ℕ, ◌≡◌, refl, some, ◌↔◌, List, [], ◌∷◌, ◌++◌, In, arith}
use pdexplorer.Indexer.BlockGaps.{get_block_gaps, get_edge_gaps, scan_gaps_yielding, gap_row}
use pdexplorer.Indexer.BlockGaps.Window.{Ascending}
use pdexplorer.Indexer.BlockGaps.Slices.{scan_gaps_yielding-whole}
use pdexplorer.Indexer.BlockGaps.Edges.{IsListed}
use pdexplorer.Indexer.BlockGaps.Missing.{gaps-missing}

abbrev stored : List ℕ
stored = 3 ∷ 4 ∷ 9 ∷ 10 ∷ 15 ∷ []

stored-Ascending : Ascending stored
stored-Ascending = (omega arith, (omega arith, (omega arith, (omega arith, tt))))

-- The hole from 5 to 8 lies across two slices and is listed once.
in_slices : scan_gaps_yielding stored 5 4 12 3 ≡ gap_row 10 15 ∷ gap_row 4 9 ∷ []
unfolding scan_gaps_yielding get_block_gaps
in_slices = refl

-- Both edges of the range from 1 to 17 are missing.
edges :
    get_edge_gaps stored (some 1) (some 17)
    ≡ record { gap_start = 1; gap_end = 2; gap_size = 2 }
      ∷ record { gap_start = 16; gap_end = 17; gap_size = 2 }
      ∷ []
unfolding get_edge_gaps
edges = refl

scan_gaps_yielding-whole_example :
    scan_gaps_yielding stored 2 1 17 4 ≡ get_block_gaps stored 2 (some 1) (some 17)
scan_gaps_yielding-whole_example =
    scan_gaps_yielding-whole stored 2 1 17 4 stored-Ascending (omega arith) (omega arith)

gaps-missing_example :
    IsListed 6 (get_edge_gaps stored (some 1) (some 17) ++ scan_gaps_yielding stored 5 1 17 4)
    ↔ (¬ In 6 stored)
gaps-missing_example =
    gaps-missing 3 (4 ∷ 9 ∷ 10 ∷ 15 ∷ []) 1 17 4 5 6 stored-Ascending (omega arith) (omega arith)
      (omega arith) (omega arith) (omega arith)
