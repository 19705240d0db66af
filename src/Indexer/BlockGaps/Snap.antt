-- ===== src/Indexer/BlockGaps/Snap.antt =====
-- The stored rows to which `getBlockGaps` moves its bounds.
use pdexplorer.Prelude.{
  ℕ, ◌≤◌, ◌<◌, ◌≡◌, ◌⊎◌, inl, inr, some, List, [], ◌∷◌, max, ltb, filter_by, filter_by-In, In,
  In-filter_by, Option-cases, arith, if◌then◌else◌,
}
use pdexplorer.Indexer.BlockGaps.{max_stored, min_stored, snap_since, snap_until}

pub max_stored-In : (xs : List ℕ) (m : ℕ) → max_stored xs ≡ some m → In m xs
max_stored-In [] m h = ground (arith, h)
max_stored-In (x ∷ xs) m h = elim (Option-cases (max_stored xs)) [
  | inl e ↦ ground (arith, h, e)
  | inr (k, e) ↦ ground (arith, h, e, max_stored-In xs k e)
]

pub max_stored-le : (xs : List ℕ) (c : ℕ) → In c xs → (m : ℕ) × (max_stored xs ≡ some m) × c ≤ m
max_stored-le [] c i = elim i [ ]
max_stored-le (x ∷ xs) c (inl e) = elim (Option-cases (max_stored xs)) [
  | inl n ↦ (x, ground (arith, n), ground (arith, e))
  | inr (k, n) ↦ (max x k, ground (arith, n), ground (arith, e))
]
max_stored-le (x ∷ xs) c (inr i) =
    let (k, n, l) = max_stored-le xs c i in (max x k, ground (arith, n), ground (arith, l))

pub min_stored-In : (xs : List ℕ) (m : ℕ) → min_stored xs ≡ some m → In m xs
min_stored-In [] m h = ground (arith, h)
min_stored-In (x ∷ xs) m h = elim (Option-cases (min_stored xs)) [
  | inl e ↦ ground (arith, h, e)
  | inr (k, e) ↦ ground (arith, h, e, min_stored-In xs k e)
]

pub min_stored-le : (xs : List ℕ) (c : ℕ) → In c xs → (m : ℕ) × (min_stored xs ≡ some m) × m ≤ c
min_stored-le [] c i = elim i [ ]
min_stored-le (x ∷ xs) c (inl e) = elim (Option-cases (min_stored xs)) [
  | inl n ↦ (x, ground (arith, n), ground (arith, e))
  | inr (k, n) ↦ (if ltb x k then x else k, ground (arith, n), ground (arith, e))
]
min_stored-le (x ∷ xs) c (inr i) =
    let (k, n, l) = min_stored-le xs c i in
    (if ltb x k then x else k, ground (arith, n), ground (arith, l))

pub snap_since_lem :
    (blocks : List ℕ) (since : ℕ)
    → ((snap_since blocks since ≡ since) × ((c : ℕ) → In c blocks → since ≤ c))
      ⊎ (In (snap_since blocks since) blocks
          × (snap_since blocks since < since)
          × ((c : ℕ) → In c blocks → c < since → c ≤ snap_since blocks since))
snap_since_lem blocks since =
    let low : List ℕ = filter_by (λ n. ltb n since) blocks in
    let put : (c : ℕ) → In c blocks → c < since → In c low =
      (λ c i l. In-filter_by (λ n. ltb n since) c blocks i (ground arith)) in
    elim (Option-cases (max_stored low)) [
      | inl e ↦ inl (ground (arith, e), λ c i. ground (arith, e, put c i, max_stored-le low c))
      | inr (m, e) ↦
          let (i, l) = filter_by-In (λ n. ltb n since) m blocks (max_stored-In low m e) in
          inr (
            ground (arith, e, i),
            ground (arith, e, l),
            λ c j h. ground (arith, e, max_stored-le low c (put c j h)),
          )
    ]

pub snap_until_lem :
    (blocks : List ℕ) (until : ℕ)
    → ((snap_until blocks until ≡ until) × ((c : ℕ) → In c blocks → c ≤ until))
      ⊎ (In (snap_until blocks until) blocks
          × (until < snap_until blocks until)
          × ((c : ℕ) → In c blocks → until < c → snap_until blocks until ≤ c))
snap_until_lem blocks until =
    let high : List ℕ = filter_by (λ n. ltb until n) blocks in
    let put : (c : ℕ) → In c blocks → until < c → In c high =
      (λ c i l. In-filter_by (λ n. ltb until n) c blocks i (ground arith)) in
    elim (Option-cases (min_stored high)) [
      | inl e ↦ inl (ground (arith, e), λ c i. ground (arith, e, put c i, min_stored-le high c))
      | inr (m, e) ↦
          let (i, l) = filter_by-In (λ n. ltb until n) m blocks (min_stored-In high m e) in
          inr (
            ground (arith, e, i),
            ground (arith, e, l),
            λ c j h. ground (arith, e, min_stored-le high c (put c j h)),
          )
    ]
