-- ===== src/Feeds/TxPage/Rounds.antt =====
-- The rounds of `planTxPage`: what the loop over the blocks does with one of them.
use pdexplorer.Prelude.{
  ℕ, zero, suc, ◌+◌, ◌≤◌, ◌<◌, ◌≡◌, refl, ap, Option, none, some, List, [], ◌∷◌, ◌++◌, take, drop,
  length, min, length-append, length-drop, take-all, filter_by, ltb, arith,
}
use mathlib.Core.List.{append_assoc, append-nil}
use pdexplorer.Feeds.TxPage.{
  BlockRows, Resume, start_at, emit_rows, page_of, page_loop, after_block,
}

-- A page that is asked for with `skip` begins at the block of `skip`.
abbrev pub Fits : Option Resume → ℕ → Type 0
Fits none n = Unit
Fits (some s) n = n ≤ s.block + 1

module _ {A : Type 0} where
  -- What the caller has not received yet, in the order of the pages.
  abbrev pub pending : Option Resume → List (BlockRows A) → List A
  pending skip [] = []
  pending skip (b ∷ rows) = drop (start_at skip b.block_number) b.transactions ++ pending skip rows

  -- Below `n`, with one block in a row.
  abbrev pub Descending : ℕ → List (BlockRows A) → Type 0
  Descending n [] = Unit
  Descending n (b ∷ rows) = (b.block_number < n) × Descending b.block_number rows

  -- The rows from which the next page is made.
  abbrev pub below : Option ℕ → List (BlockRows A) → List (BlockRows A)
  below none rows = []
  below (some n) rows = filter_by (λ (b : BlockRows A). ltb b.block_number n) rows

  pub drop-append_le :
      (n : ℕ) (xs ys : List A) → n ≤ length xs → drop n (xs ++ ys) ≡ drop n xs ++ ys
  drop-append_le zero xs ys h = refl
  drop-append_le (suc n) [] ys h = absurd (omega arith)
  drop-append_le (suc n) (x ∷ xs) ys h = drop-append_le n xs ys (omega arith)

  pub take-append_ge :
      (n m : ℕ) (xs ys : List A) → n ≡ length xs + m → take n (xs ++ ys) ≡ xs ++ take m ys
  take-append_ge n m [] ys h = (let same : n ≡ m = omega arith in rw same refl)
  take-append_ge zero m (x ∷ xs) ys h = absurd (omega arith)
  take-append_ge (suc n) m (x ∷ xs) ys h = ap (x ∷◌) (take-append_ge n m xs ys (omega arith))

  pub drop-append_ge :
      (n m : ℕ) (xs ys : List A) → n ≡ length xs + m → drop n (xs ++ ys) ≡ drop m ys
  drop-append_ge n m [] ys h = (let same : n ≡ m = omega arith in rw same refl)
  drop-append_ge zero m (x ∷ xs) ys h = absurd (omega arith)
  drop-append_ge (suc n) m (x ∷ xs) ys h = drop-append_ge n m xs ys (omega arith)

  pub drop-nil : (n : ℕ) → drop {A = A} n [] ≡ []
  drop-nil zero = refl
  drop-nil (suc n) = refl

  pub drop-drop : (m n k : ℕ) (xs : List A) → k ≡ m + n → drop n (drop m xs) ≡ drop k xs
  drop-drop zero n k xs h = (let same : k ≡ n = omega arith in rw same refl)
  drop-drop (suc m) n zero xs h = absurd (omega arith)
  drop-drop (suc m) n (suc k) [] h = drop-nil n
  drop-drop (suc m) n (suc k) (x ∷ xs) h = drop-drop m n k xs (omega arith)

  emit_rows_lem :
      (cap k room : ℕ) (rest emitted : List A)
      → length emitted + room ≡ cap
      → emit_rows cap rest k emitted ≡ (emitted ++ take room rest, k + min room (length rest))
  unfolding emit_rows
  emit_rows_lem cap k zero [] emitted h = ground (arith, append-nil emitted)
  emit_rows_lem cap k (suc room) [] emitted h = ground (arith, append-nil emitted)
  emit_rows_lem cap k zero (t ∷ ts) emitted h = ground (arith, append-nil emitted)
  emit_rows_lem cap k (suc room) (t ∷ ts) emitted h = ground (
    arith,
    append_assoc emitted (t ∷ []) (take room ts),
    length-append emitted (t ∷ []),
    emit_rows_lem cap (k + 1) room ts (emitted ++ t ∷ []),
  )

  pub filter_by-below :
      (m n : ℕ) (rows : List (BlockRows A)) → Descending m rows → m ≤ n → below (some n) rows ≡ rows
  filter_by-below m n [] d h = refl
  filter_by-below m n (b ∷ rows) d h = ground (arith, filter_by-below b.block_number n rows d.1)

  -- Blocks below the one of `skip` are served whole.
  pub pending-below :
      (skip : Option Resume) (n : ℕ) (rows : List (BlockRows A))
      → Descending n rows
      → Fits skip (n + 1)
      → pending skip rows ≡ pending none rows
  pending-below skip n [] d h = refl
  pending-below none n (b ∷ rows) d h = refl
  pending-below (some s) n (b ∷ rows) d h =
      ground (arith, pending-below (some s) b.block_number rows d.1)

  module _ (cap : ℕ) (skip : Option Resume) (b : BlockRows A) (rows : List (BlockRows A))
      (emitted : List A) (last : Option ℕ) where
    abbrev pub start : ℕ
    start = start_at skip b.block_number

    abbrev pub rest : List A
    rest = drop start b.transactions

    -- The block has more rows than the page has room for.
    pub page_loop_full :
        (room : ℕ)
        → length emitted + room ≡ cap
        → room < length rest
        → page_loop cap skip (b ∷ rows) emitted last
          ≡ page_of cap
              (emitted ++ take room rest)
              last
              (some (record { block = b.block_number; count = start + room }))
    unfolding page_loop
    page_loop_full room h more =
        rw (emit_rows_lem cap start room rest emitted h)
          (unfold after_block in ground (arith, length-drop start b.transactions))

    -- The block fills the page exactly.
    pub page_loop_stop :
        (room : ℕ)
        → length emitted + room ≡ cap
        → room ≡ length rest
        → page_loop cap skip (b ∷ rows) emitted last
          ≡ page_of cap (emitted ++ rest) (some b.block_number) none
    unfolding page_loop
    page_loop_stop room h same = rw (emit_rows_lem cap start room rest emitted h) (
        unfold after_block in
        ground
          (arith, length-drop start b.transactions, take-all room rest, length-append emitted rest))

    -- The page has room beyond the block.
    pub page_loop_next :
        (room m : ℕ)
        → length emitted + room ≡ cap
        → room ≡ length rest + suc m
        → page_loop cap skip (b ∷ rows) emitted last
          ≡ page_loop cap skip rows (emitted ++ rest) (some b.block_number)
    unfolding page_loop
    page_loop_next room m h same = rw (emit_rows_lem cap start room rest emitted h) (
        rw (take-all room rest (omega arith)) (
          unfold after_block in
          ground (arith, length-drop start b.transactions, length-append emitted rest)))
