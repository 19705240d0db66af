-- ===== src/Feeds/TxPage/Pages.antt =====
-- Following the pages of `planTxPage` to the end.
use pdexplorer.Prelude.{
  ℕ, zero, suc, ◌+◌, ◌*◌, ◌≤◌, ◌≡◌, refl, inl, inr, Option, none, some, List, [], ◌∷◌, ◌++◌, take,
  drop, length, length-append, length-drop, take-append-drop, ltb, arith, Bool-cases,
}
use pdexplorer.Prelude.Sort.{sort_by, insert_by}
use pdexplorer.Feeds.TxPage.{BlockRows, Resume, start_at, page_loop, newest_first, plan_tx_page}
use pdexplorer.Feeds.TxPage.Rounds.{
  pending, Descending, below, Fits, filter_by-below, page_loop_full, page_loop_stop, page_loop_next,
}
use pdexplorer.Feeds.TxPage.Complete.{full, stop, next, meets, page_loop-takes, page_loop-leaves}

-- The cursor of a page fits its offset.
abbrev FitsCursor : Option ℕ → Option Resume → Type 0
FitsCursor none r = Unit
FitsCursor (some m) r = Fits r m

Fits-zero : (skip : Option Resume) → Fits skip 0
Fits-zero none = tt
Fits-zero (some s) = omega arith

module _ {A : Type 0} where
  page_loop-FitsCursor :
      (cap room : ℕ) (skip : Option Resume) (rows : List (BlockRows A)) (emitted : List A)
      (last : Option ℕ)
      → length emitted + room ≡ cap
      → FitsCursor
          (page_loop cap skip rows emitted last).next_before_block
          (page_loop cap skip rows emitted last).resume_in_block
  unfolding page_loop
  page_loop-FitsCursor cap room skip [] emitted none h = tt
  page_loop-FitsCursor cap room skip [] emitted (some k) h = tt
  page_loop-FitsCursor cap room skip (b ∷ rows) emitted last h =
      let rest : List A = drop (start_at skip b.block_number) b.transactions in
      elim (meets room (length rest)) [
        | full more ↦ rw (page_loop_full cap skip b rows emitted last room h more) (omega arith)
        | stop same ↦ rw (page_loop_stop cap skip b rows emitted last room h same) tt
        | next m same ↦ rw (page_loop_next cap skip b rows emitted last room m h same) (
            page_loop-FitsCursor cap (suc m) skip rows (emitted ++ rest) (some b.block_number)
              (omega (arith, length-append emitted rest)))
      ]

  insert_by_first :
      (b : BlockRows A) (rows : List (BlockRows A))
      → Descending b.block_number rows
      → insert_by newest_first b rows ≡ b ∷ rows
  insert_by_first b [] d = refl
  insert_by_first b (x ∷ rows) d = ground arith

  sort_by_self :
      (n : ℕ) (rows : List (BlockRows A)) → Descending n rows → sort_by newest_first rows ≡ rows
  sort_by_self n [] d = refl
  sort_by_self n (b ∷ rows) d =
      rw (sort_by_self b.block_number rows d.1) (insert_by_first b rows d.1)

  -- Over blocks in descending order a page returns the rows that come first, up to the limit, and its
  -- cursor leads to all the others.
  pub plan_tx_page_lem :
      (n limit : ℕ) (skip : Option Resume) (rows : List (BlockRows A))
      → Descending n rows
      → Fits skip n
      → ((plan_tx_page rows limit skip).emitted ≡ take limit (pending skip rows))
        × (pending
              (plan_tx_page rows limit skip).resume_in_block
              (below (plan_tx_page rows limit skip).next_before_block rows)
            ≡ drop limit (pending skip rows))
  unfolding plan_tx_page
  plan_tx_page_lem n limit skip rows d f = rw (sort_by_self n rows d) (
    page_loop-takes limit limit skip rows [] none (omega arith),
    (page_loop-leaves limit limit n skip rows [] none d f tt (omega arith)).0,
  )

  plan-FitsCursor :
      (n limit : ℕ) (skip : Option Resume) (rows : List (BlockRows A))
      → Descending n rows
      → FitsCursor
          (plan_tx_page rows limit skip).next_before_block
          (plan_tx_page rows limit skip).resume_in_block
  unfolding plan_tx_page
  plan-FitsCursor n limit skip rows d =
      rw (sort_by_self n rows d) (page_loop-FitsCursor limit limit skip rows [] none (omega arith))

  -- The caller's loop: `pages` requests, each with the cursor of the one before.
  pub all_pages : ℕ → ℕ → Option Resume → List (BlockRows A) → List A
  all_pages zero limit skip rows = []
  all_pages (suc pages) limit skip rows =
      let page = plan_tx_page rows limit skip in
      page.emitted ++ all_pages pages limit page.resume_in_block (below page.next_before_block rows)

  below-Descending :
      (m n : ℕ) (rows : List (BlockRows A)) → Descending n rows → Descending m (below (some m) rows)
  below-Descending m n [] d = tt
  below-Descending m n (b ∷ rows) d = elim (Bool-cases (ltb b.block_number m)) [
    | inl e ↦ rw (e, filter_by-below b.block_number m rows d.1 (ground arith)) (ground arith, d.1)
    | inr e ↦ rw e (below-Descending m b.block_number rows d.1)
  ]

  nil_of_length : (xs : List A) → length xs ≡ 0 → [] ≡ xs
  nil_of_length [] h = refl
  nil_of_length (x ∷ xs) h = absurd (omega arith)

  next_page :
      (pages limit : ℕ) (skip : Option Resume) (rows : List (BlockRows A)) (cursor : Option ℕ)
      → ((m : ℕ) → Descending m (below (some m) rows))
      → FitsCursor cursor skip
      → ((m : ℕ) (rest : List (BlockRows A))
          → Descending m rest
          → Fits skip m
          → length (pending skip rest) ≤ pages * limit
          → all_pages pages limit skip rest ≡ pending skip rest)
      → length (pending skip (below cursor rows)) ≤ pages * limit
      → all_pages pages limit skip (below cursor rows) ≡ pending skip (below cursor rows)
  next_page pages limit skip rows none d f ih h = ih 0 [] tt (Fits-zero skip) (omega arith)
  next_page pages limit skip rows (some m) d f ih h = ih m (below (some m) rows) (d m) f h

  -- Over blocks in descending order, as many requests as the rows need at the limit, each with the
  -- cursor and the offset of the page before, return every row that was still to come, each once and
  -- in order.
  pub all_pages_complete :
      (pages limit n : ℕ) (skip : Option Resume) (rows : List (BlockRows A))
      → Descending n rows
      → Fits skip n
      → length (pending skip rows) ≤ pages * limit
      → all_pages pages limit skip rows ≡ pending skip rows
  unfolding all_pages
  all_pages_complete zero limit n skip rows d f h = nil_of_length (pending skip rows) (omega arith)
  all_pages_complete (suc pages) limit n skip rows d f h =
      let page = plan_tx_page rows limit skip in
      let (taken, left) = plan_tx_page_lem n limit skip rows d f in
      let onward =
        next_page pages limit page.resume_in_block rows page.next_before_block
          (λ m. below-Descending m n rows d) (plan-FitsCursor n limit skip rows d)
          (λ m rest d' f'. all_pages_complete pages limit m page.resume_in_block rest d' f')
          (rw left (grind (arith, length-drop limit (pending skip rows)))) in
      rw (onward, taken, left) (take-append-drop limit (pending skip rows))
