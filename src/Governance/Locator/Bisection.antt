-- ===== src/Governance/Locator/Bisection.antt =====
-- The locator finds the first block, whatever hints it is given.
use pdexplorer.Prelude.{
  ℕ, zero, suc, ◌+◌, ◌-◌, ◌/◌, ◌^◌, ◌≤◌, ◌<◌, ◌≡◌, refl, ap, ◌∙◌, ◌↔◌, inl, inr, Bool, true, false,
  not, Option, none, some, List, [], ◌∷◌, any, In, ltb, leb, ◌==◌, arith, Bool-cases, if◌then◌else◌,
}
use pdexplorer.Governance.Locator.{
  bisect, reached, low_end, high_end, find_between, find_proposal_block, gone, find_close_block,
  missing_from, missing_indices,
}

-- How far `n` probes reach: 2 ^ n.
abbrev span : ℕ → ℕ
span zero = 1
span (suc n) = span n + span n

module _ (test : ℕ → Option Bool) (holds : ℕ → Bool) (top : ℕ)
    (answers : (b : ℕ) → b ≤ top → test b ≡ some (holds b)) where
  -- With enough probes the loop ends between a height where the test fails and the next.
  bisect_lem :
      (probes lo hi : ℕ)
      → lo < hi
      → hi ≤ top
      → hi ≤ lo + span probes
      → holds lo ≡ false
      → holds hi ≡ true
      → (b : ℕ) × (bisect test probes lo hi ≡ some (suc b))
        × (lo ≤ b)
        × (b < hi)
        × (holds b ≡ false)
        × (holds (suc b) ≡ true)
  unfolding bisect
  bisect_lem zero lo hi lt le fuel low high =
      let same : hi ≡ suc lo = omega arith in
      (lo, ground (arith, same), omega arith, omega arith, low, rw same at high)
  bisect_lem (suc probes) lo hi lt le fuel low high = elim (Bool-cases (leb (hi - lo) 1)) [
    | inl e ↦
        (let same : hi ≡ suc lo = ground arith in
          (lo, rw (e, bisect) (ap some same), omega arith, omega arith, low, rw same at high))
    | inr e ↦
        (let far : lo + 2 ≤ hi = ground arith in
          elim (Bool-cases (holds mid)) [
            | inl h ↦
                (let (b, found, above, below, before, after) =
                    bisect_lem probes lo mid (omega arith) (omega arith) (omega arith) low h in
                  (
                    b,
                    rw (e, answers mid (omega arith), h, bisect) found,
                    above,
                    omega arith,
                    before,
                    after,
                  ))
            | inr h ↦
                (let (b, found, above, below, before, after) =
                    bisect_lem probes mid hi (omega arith) le (omega arith) h high in
                  (
                    b,
                    rw (e, answers mid (omega arith), h, bisect) found,
                    omega arith,
                    below,
                    before,
                    after,
                  ))
          ])
  ]
    where
      mid : ℕ
      mid = (lo + hi) / 2

  -- The ends of the search bracket the answer, whatever the hints.
  low_end_lem :
      (lo : Option ℕ)
      → 0 < top
      → holds 0 ≡ false
      → (low_end test top lo < top) × (holds (low_end test top lo) ≡ false)
  low_end_lem none pos_top first = (pos_top, first)
  low_end_lem (some b) pos_top first = elim (Bool-cases (ltb b top)) [
    | inr e ↦ rw e (pos_top, first)
    | inl e ↦ rw (e, answers b (ground arith)) (hinted (holds b) refl (ground arith))
  ]
    where
      hinted :
          (h : Bool)
          → holds b ≡ h
          → b < top
          → ((if not h then b else 0) < top) × (holds (if not h then b else 0) ≡ false)
      hinted true e lt = (pos_top, first)
      hinted false e lt = (lt, e)

  high_end_lem :
      (lo : ℕ) (hi : Option ℕ)
      → lo < top
      → holds top ≡ true
      → (lo < high_end test top lo hi)
        × (high_end test top lo hi ≤ top)
        × (holds (high_end test top lo hi) ≡ true)
  high_end_lem lo none lt last = (lt, omega arith, last)
  high_end_lem lo (some b) lt last = elim (Bool-cases (leb b top)) [
    | inr e ↦ rw e (ground (arith, last))
    | inl e ↦ rw (e, answers b (ground arith)) (ground (arith, last))
  ]

  find_between_searches :
      (lo hi : ℕ)
      → holds 0 ≡ false
      → holds top ≡ true
      → find_between test top lo hi ≡ bisect test 64 lo hi
  unfolding find_between
  find_between_searches lo hi first last =
      rw (answers top (omega arith), answers 0 (omega arith), first, last) (ground arith)

abbrev pub IsMonotone : (ℕ → ℕ) → Type 0
IsMonotone count = (a b : ℕ) → a ≤ b → count a ≤ count b

module _ (count_at : ℕ → Option ℕ) (count : ℕ → ℕ) (head : ℕ) where
  reads :
      (index : ℕ)
      → ((b : ℕ) → b ≤ head → count_at b ≡ some (count b))
      → (b : ℕ) → b ≤ head
      → reached (index + 1) (count_at b) ≡ some (leb (index + 1) (count b))
  reads index answers b le = rw (answers b le) refl

  -- On a node that answers at every height up to the head, below 2^64, and with a count of proposals
  -- that never falls: the search for a motion that was proposed after genesis ends within its 64
  -- probes, and gives the first block that holds the motion, whatever the two hints are.
  pub find_proposal_block_first :
      (index : ℕ) (lo hi : Option ℕ)
      → ((b : ℕ) → b ≤ head → count_at b ≡ some (count b))
      → head < 2 ^ 64
      → IsMonotone count
      → count 0 ≤ index
      → index < count head
      → (b : ℕ) × (find_proposal_block index count_at head lo hi ≡ some b)
        × (b ≤ head)
        × (index < count b)
        × ((c : ℕ) → c < b → count c ≤ index)
  unfolding find_proposal_block
  find_proposal_block_first index lo hi answers small mono first last =
      let low = low_end test head lo in
      let high = high_end test head low hi in
      let (low_lt, low_no) =
        low_end_lem test holds head (reads index answers) lo positive (ground arith) in
      let (lt, le, yes_high) =
        high_end_lem test holds head (reads index answers) low hi low_lt (ground arith) in
      let (b, found, above, below, before, after) =
        bisect_lem test holds head (reads index answers) 64 low high lt le (omega arith) low_no
          yes_high in
      (
        suc b,
        find_between_searches test holds head (reads index answers) low high (ground arith)
              (ground arith)
            ∙ found,
        omega arith,
        ground (arith, after),
        λ c h. ground (arith, before, mono c b (omega arith)),
      )
    where
      test : ℕ → Option Bool
      test b = reached (index + 1) (count_at b)

      holds : ℕ → Bool
      holds b = leb (index + 1) (count b)

      positive : 0 < head
      positive = elim (Bool-cases (head == 0)) [
        | inl e ↦ absurd (let same : head ≡ 0 = ground arith in omega (arith, ap count same))
        | inr e ↦ ground arith
      ]

module _ (is_open_at : ℕ → Option Bool) (proposed_block until : ℕ) where
  -- On a node that answers for every block up to the end, below 2^64, where the motion is open at
  -- its proposal and gone at the end: the search for the block that closed it ends within its 64
  -- probes, at a block where the motion is gone and before which it was open.
  pub find_close_block_lem :
      (is_open : ℕ → Bool)
      → ((b : ℕ) → b ≤ until → is_open_at b ≡ some (is_open b))
      → proposed_block < until
      → until < 2 ^ 64
      → is_open proposed_block ≡ true
      → is_open until ≡ false
      → (b : ℕ) × (find_close_block proposed_block is_open_at until ≡ some (suc b))
        × (proposed_block ≤ b)
        × (b < until)
        × (is_open b ≡ true)
        × (is_open (suc b) ≡ false)
  unfolding find_close_block
  find_close_block_lem is_open answers lt small opened closed =
      let (b, found, above, below, before, after) =
        bisect_lem test holds until reads_open 64 proposed_block until lt (omega arith)
          (omega arith) (rw opened refl) (rw closed refl) in
      (b, searches ∙ found, above, below, ground (arith, before), ground (arith, after))
    where
      test : ℕ → Option Bool
      test b = gone (is_open_at b)

      holds : ℕ → Bool
      holds b = not (is_open b)

      reads_open : (b : ℕ) → b ≤ until → gone (is_open_at b) ≡ some (not (is_open b))
      reads_open b le = rw (answers b le) refl

      searches :
          find_close_block proposed_block is_open_at until
          ≡ bisect (λ b. gone (is_open_at b)) 64 proposed_block until
      searches = ground (
        arith,
        lt,
        answers proposed_block (omega arith),
        opened,
        answers until (omega arith),
        closed,
      )

module _ (known : List ℕ) where
  missing_from-In :
      (i n k : ℕ)
      → In k (missing_from known i n) ↔ ((i ≤ k) × (k < i + n) × (any (◌== k) known ≡ false))
  unfolding missing_from
  missing_from-In i zero k = ground arith
  missing_from-In i (suc n) k = ground (arith, missing_from-In (i + 1) n k)

  any-In : (k : ℕ) (ks : List ℕ) → (any (◌== k) ks ≡ true) ↔ In k ks
  any-In k [] = ground arith
  any-In k (x ∷ ks) = ground (arith, any-In k ks)

  -- The missing indices are those below the count of the chain that are not known.
  pub missing_indices-In :
      (proposal_count k : ℕ)
      → In k (missing_indices known proposal_count) ↔ ((k < proposal_count) × ¬ In k known)
  unfolding missing_indices
  missing_indices-In proposal_count k =
      ground (arith, missing_from-In 0 proposal_count k, any-In k known)
