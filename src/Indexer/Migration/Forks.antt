-- ===== src/Indexer/Migration/Forks.antt =====
-- The delete of fork rows, however often it is cut off.
use pdexplorer.Prelude.{
  ℕ, zero, suc, ◌+◌, ◌≤◌, ◌<◌, ◌≡◌, refl, sym, ◌∙◌, Bool, true, Option, none, some, List, [], ◌∷◌,
  ltb, leb, Bool-cases, Option-cases, inl, inr, arith,
}
use pdexplorer.Indexer.Migration.{
  Row, Block, Table, events, transactions, staking_rewards, Tables, Migration, is_fork, highest,
  lowest, min_of, or_0, top, bottom, resume_at, resume_from, end_of, Stop, rolled_back, committed,
  handed_over, delete_range, chunk_step, chunks, delete_forks, stopped, cut_off, cut_runs,
}
use pdexplorer.Indexer.Migration.Purged.{
  kept, purged, is_clean, purged-is_clean, kept-purged, purged-below, clean-kept, purged-clean,
}
use pdexplorer.Indexer.Migration.Bounds.{
  highest-top, AtLeast, min_of-bottom, lowest-first, lowest-both,
}

module _ (blocks : List Block) where
  abbrev pub fork : Row → Bool
  fork r = is_fork blocks r

  lowest-clean : (c : ℕ) (rs : List Row) → AtLeast c (lowest rs) → is_clean fork c rs ≡ true
  lowest-clean c [] h = refl
  lowest-clean c (r ∷ rs) h = elim (Option-cases (lowest rs)) [
    | inl e ↦
        let rest : is_clean fork c rs ≡ true = lowest-clean c rs (rw e tt) in
        let first : c ≤ r.block = lowest-first c r rs e h in ground (arith, rest, first)
    | inr (n, e) ↦
        let both : (c ≤ r.block) × (c ≤ n) = lowest-both c r rs n e h in
        let rest : is_clean fork c rs ≡ true = lowest-clean c rs (rw e both.1) in
        ground (arith, rest, both)
  ]

  abbrev pub Clean : ℕ → Tables → Type 0
  Clean c t = (k : Table) → is_clean fork c (t k) ≡ true

  -- Below the stored cursor there is no fork row.
  abbrev pub IsSound : Migration → Type 0
  IsSound m = Clean (or_0 m.cursor) m.tables

  module _ (reads : ℕ → Bool) (chunk_blocks hi : ℕ) where
    pub chunks-Clean :
        (n c : ℕ) (m : Migration)
        → Clean c m.tables
        → Clean
            (chunks blocks reads n chunk_blocks hi c m).0
            (chunks blocks reads n chunk_blocks hi c m).1.tables
    unfolding chunks chunk_step delete_range
    chunks-Clean zero c m h = h
    chunks-Clean (suc n) c m h = elim (Bool-cases (leb c hi)) [
      | inl e ↦
          let to = end_of chunk_blocks hi c in
          rw e (
            chunks-Clean n (to + 1) (chunk_step blocks reads c to m)
              (λ k. purged-is_clean fork c to (m.tables k) (h k)))
      | inr e ↦ rw e h
    ]

    chunks-IsSound :
        (n c : ℕ) (m : Migration)
        → Clean c m.tables
        → IsSound m
        → IsSound (chunks blocks reads n chunk_blocks hi c m).1
    unfolding chunks chunk_step delete_range
    chunks-IsSound zero c m h s = s
    chunks-IsSound (suc n) c m h s = elim (Bool-cases (leb c hi)) [
      | inl e ↦
          let to = end_of chunk_blocks hi c in
          let clean : (k : Table) → is_clean fork (to + 1) (purged fork c to (m.tables k)) ≡ true =
            λ k. purged-is_clean fork c to (m.tables k) (h k) in
          rw e (chunks-IsSound n (to + 1) (chunk_step blocks reads c to m) clean clean)
      | inr e ↦ rw e s
    ]

    chunks-kept :
        (n c : ℕ) (m : Migration) (k : Table)
        → kept fork ((chunks blocks reads n chunk_blocks hi c m).1.tables k)
          ≡ kept fork (m.tables k)
    unfolding chunks chunk_step delete_range
    chunks-kept zero c m k = refl
    chunks-kept (suc n) c m k = elim (Bool-cases (leb c hi)) [
      | inl e ↦
          let to = end_of chunk_blocks hi c in
          rw e (
            chunks-kept n (to + 1) (chunk_step blocks reads c to m) k
            ∙ kept-purged fork c to (m.tables k))
      | inr e ↦ rw e
    ]

    pub chunks-below :
        (n c : ℕ) (m : Migration) (k : Table)
        → highest (m.tables k) ≤ hi
        → highest ((chunks blocks reads n chunk_blocks hi c m).1.tables k) ≤ hi
    unfolding chunks chunk_step delete_range
    chunks-below zero c m k h = h
    chunks-below (suc n) c m k h = elim (Bool-cases (leb c hi)) [
      | inl e ↦
          let to = end_of chunk_blocks hi c in
          rw e (
            chunks-below n (to + 1) (chunk_step blocks reads c to m) k
              (purged-below fork c to hi (m.tables k) h))
      | inr e ↦ rw e h
    ]

    -- Enough rounds take the cursor past the top.
    pub chunks-end :
        (n c : ℕ) (m : Migration)
        → 0 < chunk_blocks
        → hi < c + n
        → hi < (chunks blocks reads n chunk_blocks hi c m).0
    unfolding chunks
    chunks-end zero c m p h = omega arith
    chunks-end (suc n) c m p h = elim (Bool-cases (leb c hi)) [
      | inl e ↦
          let to = end_of chunk_blocks hi c in
          rw e (chunks-end n (to + 1) (chunk_step blocks reads c to m) p (ground arith))
      | inr e ↦ rw e (ground arith)
    ]

  least-clean :
      (t : Tables) (k : Table)
      → is_clean fork
          (or_0 (
            min_of
              (lowest (t events))
              (min_of (lowest (t transactions)) (lowest (t staking_rewards)))))
          (t k)
        ≡ true
  least-clean t events =
      lowest-clean _ (t events)
        (min_of-bottom (lowest (t events)) (lowest (t transactions)) (lowest (t staking_rewards))).0
  least-clean t transactions =
      lowest-clean _ (t transactions)
        (min_of-bottom (lowest (t events)) (lowest (t transactions)) (lowest (t staking_rewards))).1
  least-clean t staking_rewards =
      lowest-clean _ (t staking_rewards)
        (min_of-bottom (lowest (t events)) (lowest (t transactions)) (lowest (t staking_rewards))).2

  bottom-Clean : (t : Tables) → Clean (bottom t) t
  unfolding bottom
  bottom-Clean t k = least-clean t k

  from-Clean :
      (saved : Option ℕ) (t : Tables)
      → Clean (or_0 saved) t
      → Clean (resume_from saved (bottom t)) t
  from-Clean none t s k = bottom-Clean t k
  from-Clean (some c) t s k = elim (Bool-cases (ltb (bottom t) c)) [
    | inl e ↦ rw e (s k)
    | inr e ↦ rw e (bottom-Clean t k)
  ]

  pub resume-Clean : (m : Migration) → IsSound m → Clean (resume_at m) m.tables
  unfolding resume_at
  resume-Clean m s = from-Clean m.cursor m.tables s

  -- However a run is cut off, what it leaves is sound, and it has taken only fork rows.
  module _ (reads : ℕ → Bool) (chunk_blocks : ℕ) where
    stopped-IsSound :
        (stop : Stop) (from to : ℕ) (m : Migration)
        → IsSound m
        → IsSound (stopped blocks reads stop from to m)
    unfolding delete_range chunk_step
    stopped-IsSound rolled_back from to m s k = s k
    stopped-IsSound committed from to m s k =
        purged-clean fork (or_0 m.cursor) from to (m.tables k) (s k)
    stopped-IsSound handed_over from to m s k =
        purged-clean fork (or_0 m.cursor) from to (m.tables k) (s k)

    stopped-kept :
        (stop : Stop) (from to : ℕ) (m : Migration) (k : Table)
        → kept fork ((stopped blocks reads stop from to m).tables k) ≡ kept fork (m.tables k)
    unfolding delete_range chunk_step
    stopped-kept rolled_back from to m k = refl
    stopped-kept committed from to m k = kept-purged fork from to (m.tables k)
    stopped-kept handed_over from to m k = kept-purged fork from to (m.tables k)

    cut_off-IsSound :
        (rounds : ℕ) (stop : Stop) (m : Migration)
        → IsSound m
        → IsSound (cut_off blocks reads chunk_blocks rounds stop m)
    unfolding cut_off
    cut_off-IsSound rounds stop m s =
        let hi = top m.tables in
        let st = chunks blocks reads rounds chunk_blocks hi (resume_at m) m in
        let sound =
          chunks-IsSound reads chunk_blocks hi rounds (resume_at m) m (resume-Clean m s) s in
        elim (Bool-cases (leb st.0 hi)) [
          | inl e ↦ rw e (stopped-IsSound stop st.0 (end_of chunk_blocks hi st.0) st.1 sound)
          | inr e ↦ rw e sound
        ]

    cut_off-kept :
        (rounds : ℕ) (stop : Stop) (m : Migration) (k : Table)
        → kept fork ((cut_off blocks reads chunk_blocks rounds stop m).tables k)
          ≡ kept fork (m.tables k)
    unfolding cut_off
    cut_off-kept rounds stop m k =
        let hi = top m.tables in
        let st = chunks blocks reads rounds chunk_blocks hi (resume_at m) m in
        let same = chunks-kept reads chunk_blocks hi rounds (resume_at m) m k in
        elim (Bool-cases (leb st.0 hi)) [
          | inl e ↦ rw e (stopped-kept stop st.0 (end_of chunk_blocks hi st.0) st.1 k ∙ same)
          | inr e ↦ rw e same
        ]

    delete_forks-kept :
        (m : Migration) (k : Table)
        → 0 < chunk_blocks
        → IsSound m
        → (delete_forks blocks reads chunk_blocks m).tables k ≡ kept fork (m.tables k)
    unfolding delete_forks
    delete_forks-kept m k p s =
        let hi = top m.tables in
        let st = chunks blocks reads (suc hi) chunk_blocks hi (resume_at m) m in
        let clean =
          chunks-Clean reads chunk_blocks hi (suc hi) (resume_at m) m (resume-Clean m s) in
        let below =
          chunks-below reads chunk_blocks hi (suc hi) (resume_at m) m k (highest-top m.tables k) in
        let past = chunks-end reads chunk_blocks hi (suc hi) (resume_at m) m p (omega arith) in
        sym (clean-kept fork st.0 (st.1.tables k) (clean k) (omega arith))
        ∙ chunks-kept reads chunk_blocks hi (suc hi) (resume_at m) m k

-- The same along a row of such runs.
module _ (blocks : List Block) (chunk_blocks : ℕ) where
  cut_runs-IsSound :
      (runs : List ((ℕ → Bool) × ℕ × Stop)) (m : Migration)
      → IsSound blocks m
      → IsSound blocks (cut_runs blocks chunk_blocks runs m)
  unfolding cut_runs
  cut_runs-IsSound [] m s = s
  cut_runs-IsSound ((reads, n, stop) ∷ runs) m s =
      cut_runs-IsSound runs (cut_off blocks reads chunk_blocks n stop m)
        (cut_off-IsSound blocks reads chunk_blocks n stop m s)

  cut_runs-kept :
      (runs : List ((ℕ → Bool) × ℕ × Stop)) (m : Migration) (k : Table)
      → kept (is_fork blocks) ((cut_runs blocks chunk_blocks runs m).tables k)
        ≡ kept (is_fork blocks) (m.tables k)
  unfolding cut_runs
  cut_runs-kept [] m k = refl
  cut_runs-kept ((reads, n, stop) ∷ runs) m k =
      cut_runs-kept runs (cut_off blocks reads chunk_blocks n stop m) k
      ∙ cut_off-kept blocks reads chunk_blocks n stop m k

-- With chunks of at least one block, and below a stored cursor no fork row (as at the start, where no
-- cursor is stored): after any number of runs that were cut off, each after any number of chunks and
-- at any point of the next, a run that ends leaves in each table the rows that are no fork rows, and
-- only these, in their order; whether or not the heights of a chunk could be read in any of the runs.
pub resumed_exact :
    (blocks : List Block) (reads : ℕ → Bool) (chunk_blocks : ℕ)
    (runs : List ((ℕ → Bool) × ℕ × Stop)) (m : Migration) (k : Table)
    → 0 < chunk_blocks
    → IsSound blocks m
    → (delete_forks blocks reads chunk_blocks (cut_runs blocks chunk_blocks runs m)).tables k
      ≡ kept (is_fork blocks) (m.tables k)
resumed_exact blocks reads chunk_blocks runs m k p s =
    let m' = cut_runs blocks chunk_blocks runs m in
    delete_forks-kept blocks reads chunk_blocks m' k p
      (cut_runs-IsSound blocks chunk_blocks runs m s)
    ∙ cut_runs-kept blocks chunk_blocks runs m k
