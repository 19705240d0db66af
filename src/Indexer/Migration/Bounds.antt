-- ===== src/Indexer/Migration/Bounds.antt =====
-- The bounds of the chunk walk, over the three tables.
use pdexplorer.Prelude.{ℕ, ◌≤◌, ◌≡◌, Option, none, some, List, ◌∷◌, min, arith}
use pdexplorer.Indexer.Migration.{
  Row, Table, events, transactions, staking_rewards, Tables, highest, lowest, min_of, or_0, top,
}

pub highest-top : (t : Tables) (k : Table) → highest (t k) ≤ top t
unfolding top
highest-top t events = omega arith
highest-top t transactions = omega arith
highest-top t staking_rewards = omega arith

abbrev pub AtLeast : ℕ → Option ℕ → Type 0
AtLeast c none = Unit
AtLeast c (some n) = c ≤ n

pub min_of-bottom :
    (a b c : Option ℕ)
    → AtLeast (or_0 (min_of a (min_of b c))) a
      × AtLeast (or_0 (min_of a (min_of b c))) b
      × AtLeast (or_0 (min_of a (min_of b c))) c
min_of-bottom none none none = ground arith
min_of-bottom none none (some c) = ground arith
min_of-bottom none (some b) none = ground arith
min_of-bottom none (some b) (some c) = ground arith
min_of-bottom (some a) none none = ground arith
min_of-bottom (some a) none (some c) = ground arith
min_of-bottom (some a) (some b) none = ground arith
min_of-bottom (some a) (some b) (some c) = ground arith

pub lowest-first :
    (c : ℕ) (r : Row) (rs : List Row) → lowest rs ≡ none → AtLeast c (lowest (r ∷ rs)) → c ≤ r.block
lowest-first c r rs e h = rw e at h

pub lowest-both :
    (c : ℕ) (r : Row) (rs : List Row) (n : ℕ)
    → lowest rs ≡ some n
    → AtLeast c (lowest (r ∷ rs))
    → (c ≤ r.block) × (c ≤ n)
lowest-both c r rs n e h = let k : c ≤ min r.block n = rw e at h in omega arith
