-- ===== src/Feeds/TxPage.antt =====
-- lib/tx-paging.js, `planTxPage`: a page of transfers and where the next one starts.
pub mod Rounds
pub mod Complete
pub mod Pages
use pdexplorer.Prelude.{
  ℕ, ◌+◌, Bool, true, false, Option, none, some, List, [], ◌∷◌, ◌++◌, drop, length, ltb, leb, ◌==◌,
  if◌then◌else◌,
}
use pdexplorer.Prelude.Sort.{sort_by}

-- A scanned block with its transfers.
pub record BlockRows (A : Type 0) : Type 0 where
  pub block_number : ℕ
  pub transactions : List A

-- Rows of one block that the caller has; `count` of them.
pub record Resume : Type 0 where
  pub block : ℕ
  pub count : ℕ

pub record TxPage (A : Type 0) : Type 0 where
  pub emitted : List A
  pub next_before_block : Option ℕ
  pub resume_in_block : Option Resume
  pub resume_required : Bool
  pub exhausted : Bool

abbrev pub start_at : Option Resume → ℕ → ℕ
start_at none n = 0
start_at (some s) n = if n == s.block then s.count else 0

module _ {A : Type 0} where
  -- The inner loop from index `k`, whose rows from there on are given.
  unfoldable pub emit_rows : ℕ → List A → ℕ → List A → List A × ℕ
  emit_rows cap [] k emitted = (emitted, k)
  emit_rows cap (t ∷ ts) k emitted = elim (ltb (length emitted) cap) [
    | true ↦ emit_rows cap ts (k + 1) (emitted ++ t ∷ [])
    | false ↦ (emitted, k)
  ]

  -- What is returned once the loop over the blocks has ended.
  abbrev pub page_of : ℕ → List A → Option ℕ → Option Resume → TxPage A
  page_of cap emitted last_fully_drained none = record {
    emitted = emitted;
    next_before_block = last_fully_drained;
    resume_in_block = none;
    resume_required = false;
    exhausted = ltb (length emitted) cap;
  }
  page_of cap emitted last_fully_drained (some r) = record {
    emitted = emitted;
    next_before_block = some (r.block + 1);
    resume_in_block = some r;
    resume_required = true;
    exhausted = false;
  }

  -- One round of the loop over the blocks, once the inner loop has ended; `continue` is the rest.
  unfoldable pub after_block :
      ℕ → BlockRows A → Option ℕ → List A × ℕ → (List A → TxPage A) → TxPage A
  after_block cap b last (emitted, k) continue = elim (ltb k (length b.transactions)) [
    | true ↦ page_of cap emitted last (some (record { block = b.block_number; count = k }))
    | false ↦ elim (leb cap (length emitted)) [
      | true ↦ page_of cap emitted (some b.block_number) none
      | false ↦ continue emitted
    ]
  ]

  unfoldable pub page_loop : ℕ → Option Resume → List (BlockRows A) → List A → Option ℕ → TxPage A
  page_loop cap skip [] emitted last = page_of cap emitted last none
  page_loop cap skip (b ∷ rows) emitted last =
      let start = start_at skip b.block_number in
      after_block cap b last (emit_rows cap (drop start b.transactions) start emitted)
        (λ emitted'. page_loop cap skip rows emitted' (some b.block_number))

  abbrev pub newest_first : BlockRows A → BlockRows A → Bool
  newest_first a b = leb b.block_number a.block_number

  unfoldable pub plan_tx_page : List (BlockRows A) → ℕ → Option Resume → TxPage A
  plan_tx_page blocks limit skip = page_loop limit skip (sort_by newest_first blocks) [] none
