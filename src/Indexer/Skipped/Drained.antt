-- ===== src/Indexer/Skipped/Drained.antt =====
-- A drain moves heights from the ledger to the queue and loses none; enough drains empty the ledger.
use pdexplorer.Prelude.{
  ℕ, zero, suc, ◌+◌, ◌-◌, ◌*◌, ◌≤◌, ◌≡◌, inl, inr, ◌↔◌, true, Option, List, [], ◌∷◌, map, String,
  arith, min, length, List-cases,
}
use pdexplorer.Prelude.Int.{pos}
use pdexplorer.Prelude.Js.{int}
use pdexplorer.Indexer.SkipTail.{
  Range, RawRange, Taken, to_raw, normalize_tail, take_from_tail, read_ranges, size_of, tail_size,
}
use pdexplorer.Indexer.SkipTail.Coverage.{
  Covers, IsNormal, IsOrdered, IsOrdered-Separated, read_ranges-to_raw, normalize_ranges_self,
  normalize_ranges-Covers,
}
use pdexplorer.Indexer.SkipTail.Take.{
  Holds, take_from_tail-conserves, take_from_tail-size, normal, take_from_tail-IsNormal,
}
use pdexplorer.Indexer.Skipped.{SkipState, set_tail, queue_all, drain_skip_tail}
use pdexplorer.Indexer.Skipped.Owed.{Owed, has_row, queue_all-has_row, set_tail_self}

normalize_tail-Covers :
    (raw : List RawRange) (h : ℕ) → Covers (normalize_tail raw) h ↔ Covers (read_ranges raw) h
unfolding normalize_tail
normalize_tail-Covers raw h = normalize_ranges-Covers (read_ranges raw) h

-- A ledger in normal form is read back as it was written.
normalize_tail-to_raw : (rs : List Range) → IsNormal rs → normalize_tail (map to_raw rs) ≡ rs
unfolding normalize_tail
normalize_tail-to_raw rs s =
    rw (read_ranges-to_raw rs (IsOrdered-Separated 0 rs s)) (normalize_ranges_self rs s)

-- A ledger that owes nothing covers nothing.
size_of-zero : (rs : List Range) (h : ℕ) → IsOrdered rs → size_of rs ≡ 0 → ¬ Covers rs h
unfolding size_of
size_of-zero [] h o z c = c
size_of-zero (r ∷ rs) h o z c = omega arith

module _ (drain_max now : ℕ) (i : String) (reason : Option (List ℕ)) where
  -- What a drain takes out of the ledger of `i`.
  taken : SkipState → Taken
  taken st = take_from_tail (map to_raw (normalize_tail (st.tails i))) (int (pos drain_max))

  reread :
      (st : SkipState)
      → read_ranges (map to_raw (normalize_tail (st.tails i))) ≡ normalize_tail (st.tails i)
  reread st = read_ranges-to_raw _ (IsOrdered-Separated 0 _ (normal (st.tails i)))

  taken-Holds : (st : SkipState) (h : ℕ) → Holds (taken st) h ↔ Covers (read_ranges (st.tails i)) h
  unfolding taken
  taken-Holds st h = ground (
    arith,
    reread st,
    take_from_tail-conserves (map to_raw (normalize_tail (st.tails i))) drain_max h,
    normalize_tail-Covers (st.tails i) h,
  )

  -- With something in the ledger a drain queues what it takes and keeps the rest.
  drained : SkipState → SkipState
  drained st = record {
    failures = queue_all now i reason (taken st).heights st.failures;
    tails = set_tail i (taken st).rest st.tails;
  }

  drain_none :
      (st : SkipState)
      → normalize_tail (st.tails i) ≡ []
      → drain_skip_tail drain_max now i reason st ≡ (st, 0)
  unfolding drain_skip_tail
  drain_none st e = ground arith

  drain_some :
      (st : SkipState) (r : Range) (rs : List Range)
      → normalize_tail (st.tails i) ≡ r ∷ rs
      → drain_skip_tail drain_max now i reason st ≡ (drained st, length (taken st).heights)
  unfolding drain_skip_tail drained taken
  drain_some st r rs e = ground arith

  reread_rest : (st : SkipState) → read_ranges ((drained st).tails i) ≡ (taken st).rest
  unfolding drained taken
  reread_rest st = rw (set_tail_self i (taken st).rest st.tails) (
      read_ranges-to_raw _ (
        IsOrdered-Separated 0 _
          (take_from_tail-IsNormal (map to_raw (normalize_tail (st.tails i))) drain_max)))

  -- A drain of any size neither forgets a height that is owed nor invents one.
  pub drain_skip_tail-Owed :
      (st : SkipState) (h : ℕ)
      → Owed i h (drain_skip_tail drain_max now i reason st).0 ↔ Owed i h st
  drain_skip_tail-Owed st h = elim (List-cases (normalize_tail (st.tails i))) [
    | inl e ↦ rw (drain_none st e) ((λ o. o), (λ o. o))
    | inr (r, rs, e) ↦ rw (drain_some st r rs e) (
        unfold drained in
        ground (
          arith,
          queue_all-has_row now i reason (taken st).heights st.failures h,
          reread_rest st,
          taken-Holds st h,
        ))
  ]

  rest-normal : (st : SkipState) → normalize_tail ((drained st).tails i) ≡ (taken st).rest
  unfolding drained taken
  rest-normal st = rw (set_tail_self i (taken st).rest st.tails) (
      normalize_tail-to_raw _
        (take_from_tail-IsNormal (map to_raw (normalize_tail (st.tails i))) drain_max))

  taken-size :
      (st : SkipState)
      → (length (taken st).heights ≡ min drain_max (tail_size (st.tails i)))
        × (length (taken st).heights + size_of (taken st).rest ≡ tail_size (st.tails i))
  unfolding taken tail_size
  taken-size st =
      let same = normalize_tail-to_raw (normalize_tail (st.tails i)) (normal (st.tails i)) in
      rw same at (take_from_tail-size (map to_raw (normalize_tail (st.tails i))) drain_max)

  -- A drain takes as many heights as are owed, up to its limit, and the ledger owes as many fewer.
  pub drain_skip_tail-size :
      (st : SkipState)
      → ((drain_skip_tail drain_max now i reason st).1 ≡ min drain_max (tail_size (st.tails i)))
        × (tail_size ((drain_skip_tail drain_max now i reason st).0.tails i)
              + (drain_skip_tail drain_max now i reason st).1
            ≡ tail_size (st.tails i))
  unfolding tail_size size_of
  drain_skip_tail-size st = elim (List-cases (normalize_tail (st.tails i))) [
    | inl e ↦ rw (drain_none st e, e) (omega arith)
    | inr (r, rs, e) ↦ rw (drain_some st r rs e) (ground (arith, rest-normal st, taken-size st))
  ]

  -- The drains of `k` ticks.
  pub drains : ℕ → SkipState → SkipState
  drains zero st = st
  drains (suc k) st = drains k (drain_skip_tail drain_max now i reason st).0

  drains-Owed : (k : ℕ) (st : SkipState) (h : ℕ) → Owed i h (drains k st) ↔ Owed i h st
  unfolding drains
  drains-Owed zero st h = ((λ o. o), (λ o. o))
  drains-Owed (suc k) st h =
      let next = (drain_skip_tail drain_max now i reason st).0 in
      (
        (λ o. (drain_skip_tail-Owed st h).0 ((drains-Owed k next h).0 o)),
        (λ o. (drains-Owed k next h).1 ((drain_skip_tail-Owed st h).1 o)),
      )

  drains-size :
      (k : ℕ) (st : SkipState)
      → tail_size ((drains k st).tails i) ≡ tail_size (st.tails i) - k * drain_max
  unfolding drains
  drains-size zero st = omega arith
  drains-size (suc k) st =
      omega (
        arith,
        drains-size k (drain_skip_tail drain_max now i reason st).0,
        drain_skip_tail-size st,
      )

  -- After as many ticks as the ledger of skipped heights needs at the set number a tick, every
  -- height that was owed has a row in the retry queue.
  pub drains-queued :
      (k : ℕ) (st : SkipState) (h : ℕ)
      → tail_size (st.tails i) ≤ k * drain_max
      → Owed i h st
      → has_row i h (drains k st).failures ≡ true
  drains-queued k st h enough o = elim ((drains-Owed k st h).1 o) [
    | inl row ↦ row
    | inr c ↦ absurd (
        size_of-zero (normalize_tail ((drains k st).tails i)) h
          (IsOrdered-Separated 0 _ (normal ((drains k st).tails i)))
          (unfold tail_size in omega (arith, drains-size k st))
          ((normalize_tail-Covers ((drains k st).tails i) h).1 c))
  ]
