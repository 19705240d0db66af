-- ===== src/Indexer/Migration/Handover.antt =====
-- The heights that are handed over for a new scan.
use pdexplorer.Prelude.{
  ℕ, zero, suc, ◌+◌, ◌≤◌, ◌<◌, ◌≡◌, refl, ◌∙◌, Bool, true, false, ◌&&◌, ◌||◌, List, [], ◌∷◌, ◌++◌,
  leb, ◌==◌, any, take-all, length, length-append, subst, ==_iff, filter_by, Bool-cases, inl, inr,
  arith,
}
use pdexplorer.Indexer.Migration.{
  Row, Block, Table, events, transactions, staking_rewards, Tables, Migration, is_fork, is_in_range,
  heights, fork_rows, touched, touched_limit, delete_range, chunk_step, chunks, end_of, top,
  resume_at, delete_forks, highest,
}
use pdexplorer.Indexer.Migration.Purged.{purged, is_clean}
use pdexplorer.Indexer.Migration.Bounds.{highest-top}
use pdexplorer.Indexer.Migration.Forks.{
  IsSound, chunks-Clean, chunks-end, chunks-below, resume-Clean,
}

-- A height is in a list.
abbrev pub has : ℕ → List ℕ → Bool
has h xs = any (h ==◌) xs

has-append : (h : ℕ) (xs ys : List ℕ) → has h (xs ++ ys) ≡ (has h xs || has h ys)
has-append h [] ys = refl
has-append h (x ∷ xs) ys = ground (arith, has-append h xs ys)

abbrev pub at_height : ℕ → List Row → Bool
at_height h rs = any (λ (r : Row). r.block == h) rs

has_absorbs : (a b c : Bool) → (b ≡ true → a ≡ true) → (a || c) ≡ (a || (b || c))
has_absorbs true b c h = refl
has_absorbs false true c h = absurd (ground (arith, h refl))
has_absorbs false false c h = refl

has-heights :
    (h : ℕ) (rs : List Row) (seen : List ℕ)
    → has h (heights rs seen) ≡ (has h seen || at_height h rs)
unfolding heights
has-heights h [] seen = ground arith
has-heights h (r ∷ rs) seen = elim (Bool-cases (any (r.block ==◌) seen)) [
  | inl e ↦
      let there : (r.block == h) ≡ true → has h seen ≡ true =
        λ s. subst (λ b. has b seen ≡ true) ((==_iff r.block h).0 s) e in
      rw e (has-heights h rs seen ∙ has_absorbs (has h seen) (r.block == h) (at_height h rs) there)
  | inr e ↦ rw e (
      has-heights h rs (seen ++ (r.block ∷ []))
      ∙ rw (has-append h seen (r.block ∷ [])) (ground arith))
]

length-heights :
    (rs : List Row) (seen : List ℕ) → length (heights rs seen) ≤ length seen + length rs
unfolding heights
length-heights [] seen = omega arith
length-heights (r ∷ rs) seen = elim (Bool-cases (any (r.block ==◌) seen)) [
  | inl e ↦ rw e (omega (arith, length-heights rs seen))
  | inr e ↦ rw e (
      omega
        (arith, length-heights rs (seen ++ (r.block ∷ [])), length-append {0} seen (r.block ∷ [])))
]

or_false : (a b c : Bool) → b ≡ false → (a || b) ≡ c → a ≡ c
or_false a b c h k = ground arith

module _ (fork : Row → Bool) where
  abbrev pub count : List Row → ℕ
  count rs = length (filter_by fork rs)

  -- A fork row stands at the height.
  abbrev pub stands_at : ℕ → List Row → Bool
  stands_at h rs = any (λ r. fork r && r.block == h) rs

  count-purged : (from to : ℕ) (rs : List Row) → count (purged fork from to rs) ≤ count rs
  count-purged from to [] = omega arith
  count-purged from to (r ∷ rs) = ground (arith, count-purged from to rs)

  count-range :
      (from to : ℕ) (rs : List Row)
      → length (filter_by (λ r. fork r && is_in_range from to r) rs) ≤ count rs
  count-range from to [] = omega arith
  count-range from to (r ∷ rs) = ground (arith, count-range from to rs)

  -- A fork row is in the range, or stays after its purge.
  stands_at-split :
      (h from to : ℕ) (rs : List Row)
      → stands_at h rs ≡ (
          at_height h (filter_by (λ r. fork r && is_in_range from to r) rs)
          || stands_at h (purged fork from to rs))
  stands_at-split h from to [] = refl
  stands_at-split h from to (r ∷ rs) = ground (arith, stands_at-split h from to rs)

  clean-stands_at :
      (c h : ℕ) (rs : List Row)
      → is_clean fork c rs ≡ true
      → highest rs + 1 ≤ c
      → stands_at h rs ≡ false
  clean-stands_at c h [] k l = refl
  clean-stands_at c h (r ∷ rs) k l = ground (arith, clean-stands_at c h rs)

module _ (blocks : List Block) where
  abbrev fork : Row → Bool
  fork r = is_fork blocks r

  -- The fork rows of all tables, and whether one stands at a height.
  abbrev pub fork_count : Tables → ℕ
  fork_count t =
      count fork (t events) + (count fork (t transactions) + count fork (t staking_rewards))

  abbrev pub has_fork_at : ℕ → Tables → Bool
  has_fork_at h t =
      stands_at fork h (t events)
      || (stands_at fork h (t transactions) || stands_at fork h (t staking_rewards))

module _ (blocks : List Block) (reads : ℕ → Bool) (all_read : (n : ℕ) → reads n ≡ true) where
  abbrev rows_in : ℕ → ℕ → List Row → List Row
  rows_in from to rs = fork_rows blocks from to rs

  has-touched :
      (h from to : ℕ) (t : Tables)
      → fork_count blocks t ≤ touched_limit
      → has h (touched blocks reads from to t) ≡ (
          at_height h (rows_in from to (t events))
          || (at_height h (rows_in from to (t transactions))
              || at_height h (rows_in from to (t staking_rewards))))
  unfolding touched
  has-touched h from to t small =
      let e = rows_in from to (t events) in
      let x = rows_in from to (t transactions) in
      let r = rows_in from to (t staking_rewards) in
      rw (all_read from) (
        rw
          (take-all touched_limit (heights r (heights x (heights e []))) (
            omega (
              arith,
              length-heights r (heights x (heights e [])),
              length-heights x (heights e []),
              length-heights e [],
              count-range (is_fork blocks) from to (t events),
              count-range (is_fork blocks) from to (t transactions),
              count-range (is_fork blocks) from to (t staking_rewards),
            )))
          (has-heights h r (heights x (heights e []))
            ∙ rw (has-heights h x (heights e [])) (rw (has-heights h e []) (ground arith))))

  -- A chunk hands over the heights of the rows that it deletes.
  step-handed :
      (h from to : ℕ) (m : Migration)
      → fork_count blocks m.tables ≤ touched_limit
      → (has h (chunk_step blocks reads from to m).handed
          || has_fork_at blocks h (chunk_step blocks reads from to m).tables)
        ≡ (has h m.handed || has_fork_at blocks h m.tables)
  unfolding chunk_step delete_range
  step-handed h from to m small =
      rw (has-append h m.handed (touched blocks reads from to m.tables)) (
        rw (has-touched h from to m.tables small) (
          ground (
            arith,
            stands_at-split (is_fork blocks) h from to (m.tables events),
            stands_at-split (is_fork blocks) h from to (m.tables transactions),
            stands_at-split (is_fork blocks) h from to (m.tables staking_rewards),
          )))

  step-count :
      (from to : ℕ) (m : Migration)
      → fork_count blocks (chunk_step blocks reads from to m).tables ≤ fork_count blocks m.tables
  unfolding chunk_step delete_range
  step-count from to m = omega (
    arith,
    count-purged (is_fork blocks) from to (m.tables events),
    count-purged (is_fork blocks) from to (m.tables transactions),
    count-purged (is_fork blocks) from to (m.tables staking_rewards),
  )

  chunks-handed :
      (chunk_blocks hi n c h : ℕ) (m : Migration)
      → fork_count blocks m.tables ≤ touched_limit
      → let m' = (chunks blocks reads n chunk_blocks hi c m).1 in
        (has h m'.handed || has_fork_at blocks h m'.tables)
        ≡ (has h m.handed || has_fork_at blocks h m.tables)
  unfolding chunks
  chunks-handed chunk_blocks hi zero c h m small = refl
  chunks-handed chunk_blocks hi (suc n) c h m small = elim (Bool-cases (leb c hi)) [
    | inl e ↦
        let to = end_of chunk_blocks hi c in
        let m' = chunk_step blocks reads c to m in
        rw e (
          chunks-handed chunk_blocks hi n (to + 1) h m' (omega (arith, step-count c to m))
          ∙ step-handed h c to m small)
    | inr e ↦ rw e
  ]

  -- After the last chunk no fork row stands anywhere.
  none-left :
      (chunk_blocks h : ℕ) (m : Migration)
      → 0 < chunk_blocks
      → IsSound blocks m
      → has_fork_at blocks h (delete_forks blocks reads chunk_blocks m).tables ≡ false
  unfolding delete_forks
  none-left chunk_blocks h m p s =
      let hi = top m.tables in
      let st = chunks blocks reads (suc hi) chunk_blocks hi (resume_at m) m in
      let clean =
        chunks-Clean blocks reads chunk_blocks hi (suc hi) (resume_at m) m
          (resume-Clean blocks m s) in
      let below = λ (k : Table).
        chunks-below blocks reads chunk_blocks hi (suc hi) (resume_at m) m k
          (highest-top m.tables k) in
      let past = chunks-end blocks reads chunk_blocks hi (suc hi) (resume_at m) m p (omega arith) in
      let gone = λ (k : Table).
        clean-stands_at (is_fork blocks) st.0 h (st.1.tables k) (clean k)
          (omega (arith, below k)) in
      ground (arith, gone events, gone transactions, gone staking_rewards)

-- A run that is not cut off, with chunks of at least one block, where the heights of every chunk can
-- be read, with at most 5000 fork rows, and none below the stored cursor: the heights that it hands over for a new scan are those at which it found a fork
-- row in any of the three tables, and no other.
pub handed_exact :
    (blocks : List Block) (reads : ℕ → Bool) (chunk_blocks h : ℕ) (m : Migration)
    → ((n : ℕ) → reads n ≡ true)
    → 0 < chunk_blocks
    → IsSound blocks m
    → fork_count blocks m.tables ≤ touched_limit
    → has h (delete_forks blocks reads chunk_blocks m).handed
      ≡ (has h m.handed || has_fork_at blocks h m.tables)
unfolding delete_forks
handed_exact blocks reads chunk_blocks h m ok p s small =
    or_false _ _ _ (none-left blocks reads ok chunk_blocks h m p s) (
      chunks-handed blocks reads ok chunk_blocks (top m.tables) (suc (top m.tables)) (resume_at m) h
        m small)
