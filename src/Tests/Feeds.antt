-- ===== src/Tests/Feeds.antt =====
-- Runs of the pages, of the merge of a poll, of the rate limiter and of the block locator.
use pdexplorer.Prelude.{
  ◌⊎◌, ◌<◌, length, All, inr, ℕ, ◌+◌, ◌≤◌, ◌≡◌, refl, inl, Bool, true, false, Option, none, some,
  List, [], ◌∷◌, In, leb, ltb, arith, if◌then◌else◌,
}
use pdexplorer.Prelude.Int.{ℤ, pos}
use pdexplorer.Prelude.Text.{Text}
use pdexplorer.Feeds.TxPage.{BlockRows}
use pdexplorer.Feeds.TxPage.Pages.{all_pages, all_pages_complete}
use pdexplorer.Feeds.MergeRows.{ranks, merge_rows, merge_ranked, is_kept, newest_of, oldest_of}
use pdexplorer.Feeds.MergeRows.Poll.{RankAtLeast}
use pdexplorer.Feeds.MergeRows.Cap.{merge_rows_keeps}
use pdexplorer.Guards.RateLimit.{check_window}
use pdexplorer.Guards.RateLimit.Window.{granted, within, window_bound, retry_after_lem}
use pdexplorer.Governance.Locator.{find_proposal_block}
use pdexplorer.Governance.Locator.Bisection.{IsMonotone, find_proposal_block_first}

abbrev blocks : List (BlockRows ℕ)
blocks =
    record { block_number = 9; transactions = 91 ∷ 92 ∷ 93 ∷ [] }
    ∷ record { block_number = 7; transactions = [] }
    ∷ record { block_number = 4; transactions = 41 ∷ [] }
    ∷ []

all_pages_complete_example : all_pages 2 2 none blocks ≡ 91 ∷ 92 ∷ 93 ∷ 41 ∷ []
all_pages_complete_example =
    all_pages_complete 2 2 10 none blocks (omega arith, (omega arith, (omega arith, tt))) tt
      (omega arith)

-- A row is its height here.
abbrev name : ℕ → Text
name n = n ∷ []

abbrev height_of : ℕ → Option ℤ
height_of n = some (pos n)

abbrev nameless : ℕ → Option Text
nameless _ = none

abbrev confirmed : ℕ → Bool
confirmed _ = false

abbrev merge : List ℕ → List ℕ → ℕ → List ℕ
merge = merge_rows name height_of nameless confirmed

all_ranked : (n : ℕ) → (z : ℤ) × (height_of n ≡ some z)
all_ranked n = (pos n, refl)

-- The third row is as new as the snapshot; the cap of two is full of rows that are newer.
cut_at_two : merge (8 ∷ 7 ∷ 6 ∷ []) (5 ∷ 4 ∷ []) 2 ≡ 8 ∷ 7 ∷ []
unfolding merge_rows merge_ranked is_kept ranks newest_of oldest_of
cut_at_two = refl

merge_rows_keeps_example :
    In {A = ℕ} 6 (merge (8 ∷ 7 ∷ 6 ∷ []) (5 ∷ 4 ∷ []) 2)
    ⊎ ((0 < 2)
        × (length (merge (8 ∷ 7 ∷ 6 ∷ []) (5 ∷ 4 ∷ []) 2) ≡ 2)
        × All (λ x. RankAtLeast (pos 6) (height_of x)) (merge (8 ∷ 7 ∷ 6 ∷ []) (5 ∷ 4 ∷ []) 2))
merge_rows_keeps_example =
    merge_rows_keeps name height_of nameless confirmed all_ranked (8 ∷ 7 ∷ 6 ∷ []) (4 ∷ []) 5 6
      (pos 6) 2 (inr (inr (inl refl))) refl (omega arith, (omega arith, tt)) refl refl

window_bound_example : within 60 100 (granted 60 2 [] (10 ∷ 50 ∷ 55 ∷ 80 ∷ [])) ≤ 2
window_bound_example =
    window_bound 60 100 2 (10 ∷ 50 ∷ 55 ∷ 80 ∷ [])
      (omega arith, (omega arith, (omega arith, (omega arith, tt))))

is_refused : (check_window (50 ∷ 55 ∷ []) 80 60 2).allowed ≡ false
unfolding check_window
is_refused = refl

retry_after_lem_example :
    (wait : ℕ) × ((check_window (50 ∷ 55 ∷ []) 80 60 2).retry_after_ms ≡ some wait)
    × ((check_window (check_window (50 ∷ 55 ∷ []) 80 60 2).kept (80 + wait) 60 2).allowed ≡ true)
    × ((n : ℕ)
        → n < 80 + wait
        → (check_window (check_window (50 ∷ 55 ∷ []) 80 60 2).kept n 60 2).allowed ≡ false)
retry_after_lem_example =
    retry_after_lem 60 80 2 (50 ∷ 55 ∷ []) (omega arith) (omega arith) is_refused

-- The third motion was proposed in block 6.
abbrev counts : ℕ → ℕ
counts b = if leb 6 b then 3 else 2

counts-IsMonotone : IsMonotone counts
counts-IsMonotone a b h = ground arith

find_proposal_block_first_example :
    (b : ℕ) × (find_proposal_block 2 (λ b. some (counts b)) 9 (some 7) (some 3) ≡ some b)
    × (b ≤ 9)
    × (2 < counts b)
    × ((c : ℕ) → c < b → counts c ≤ 2)
find_proposal_block_first_example =
    find_proposal_block_first (λ b. some (counts b)) counts 9 2 (some 7) (some 3) (λ b h. refl)
      (omega arith) counts-IsMonotone (omega arith) (omega arith)

abbrev is_open : ℕ → Bool
is_open b = ltb b 8
