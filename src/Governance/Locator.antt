-- ===== src/Governance/Locator.antt =====
-- lib/collective-motions.js: the block locator, which finds motions that the crawler missed, by
-- bisection over the chain's state. A state that the node does not give is none.
pub mod Bisection
pub mod Nearest
use pdexplorer.Prelude.{
  ℕ, zero, suc, ◌+◌, ◌-◌, ◌/◌, Bool, true, false, not, ◌&&◌, Option, none, some, List, [], ◌∷◌, any,
  ltb, leb, ◌==◌, if◌then◌else◌,
}

-- The loop that both searches share: `test mid` says whether the answer is at or below `mid`. `probes`
-- is how many times it may still look.
unfoldable pub bisect : (ℕ → Option Bool) → ℕ → ℕ → ℕ → Option ℕ
bisect test zero lo hi = if leb (hi - lo) 1 then some hi else none
bisect test (suc probes) lo hi =
    let mid = (lo + hi) / 2 in
    elim (leb (hi - lo) 1) [
      | true ↦ some hi
      | false ↦ elim (test mid) [
        | none ↦ none
        | some below ↦ elim below [
          | true ↦ bisect test probes lo mid
          | false ↦ bisect test probes mid hi
        ]
      ]
    ]

abbrev pub reached : ℕ → Option ℕ → Option Bool
reached target none = none
reached target (some c) = some (leb target c)

abbrev pub says : Bool → Option Bool → Bool
says b none = false
says b (some c) = if b then c else not c

-- A hint is used where it brackets the answer.
abbrev pub low_end : (ℕ → Option Bool) → ℕ → Option ℕ → ℕ
low_end test head none = 0
low_end test head (some b) = if ltb b head && says false (test b) then b else 0

abbrev pub high_end : (ℕ → Option Bool) → ℕ → ℕ → Option ℕ → ℕ
high_end test head lo none = head
high_end test head lo (some b) = if ltb lo b && (leb b head && says true (test b)) then b else head

unfoldable pub find_between : (ℕ → Option Bool) → ℕ → ℕ → ℕ → Option ℕ
find_between test head lo hi =
    if hi == head && not (says true (test head))
    then none
    else if lo == 0 && not (says false (test 0))
    then some 0
    else bisect test 64 lo hi

unfoldable pub find_proposal_block : ℕ → (ℕ → Option ℕ) → ℕ → Option ℕ → Option ℕ → Option ℕ
find_proposal_block index count_at head lo hi =
    let test : ℕ → Option Bool = λ b. reached (index + 1) (count_at b) in
    let low = low_end test head lo in find_between test head low (high_end test head low hi)

abbrev pub gone : Option Bool → Option Bool
gone none = none
gone (some is_open) = some (not is_open)

unfoldable pub find_close_block : ℕ → (ℕ → Option Bool) → ℕ → Option ℕ
find_close_block proposed_block is_open_at until = elim (leb until proposed_block) [
  | true ↦ none
  | false ↦ elim (is_open_at proposed_block) [
    | none ↦ none
    | some is_open ↦ elim is_open [
      | false ↦ some proposed_block
      | true ↦
          if says false (is_open_at until)
          then bisect (λ b. gone (is_open_at b)) 64 proposed_block until
          else none
    ]
  ]
]

-- `for (i = from; i < from + n; i++)`
unfoldable pub missing_from : List ℕ → ℕ → ℕ → List ℕ
missing_from known i zero = []
missing_from known i (suc n) =
    let rest = missing_from known (i + 1) n in if any (◌== i) known then rest else i ∷ rest

unfoldable pub missing_indices : List ℕ → ℕ → List ℕ
unfolding missing_from
missing_indices known proposal_count = missing_from known 0 proposal_count

-- A row that is known, with the block of its proposal where that is known too.
pub record KnownRow : Type 0 where
  pub known_index : ℕ
  pub known_block : Option ℕ

-- The best rows so far below and above the index: the variables of the loop, each with its block.
pub record Hints : Type 0 where
  pub below : Option (ℕ × ℕ)
  pub above : Option (ℕ × ℕ)

abbrev pub closer_below : Option (ℕ × ℕ) → ℕ → Bool
closer_below none i = true
closer_below (some p) i = ltb p.0 i

abbrev pub closer_above : Option (ℕ × ℕ) → ℕ → Bool
closer_above none i = true
closer_above (some p) i = ltb i p.0

abbrev pub hint_step : ℕ → ℕ → Option ℕ → Hints → Hints
hint_step index i none h = h
hint_step index i (some b) h = record {
  below = (if ltb i index && closer_below h.below i then some (i, b) else h.below);
  above = (if ltb index i && closer_above h.above i then some (i, b) else h.above);
}

unfoldable pub neighbours : ℕ → List KnownRow → Hints → Hints
neighbours index [] h = h
neighbours index (r ∷ rs) h = neighbours index rs (hint_step index r.known_index r.known_block h)

abbrev block_of : Option (ℕ × ℕ) → Option ℕ
block_of none = none
block_of (some p) = some p.1

-- The blocks of the nearest known motions on either side.
unfoldable pub neighbour_hints : ℕ → List KnownRow → Option ℕ × Option ℕ
neighbour_hints index rows =
    let h = neighbours index rows (record { below = none; above = none }) in
    (block_of h.below, block_of h.above)
