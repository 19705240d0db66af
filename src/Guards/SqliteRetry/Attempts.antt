-- ===== src/Guards/SqliteRetry/Attempts.antt =====
-- How the retries end, and how long they wait.
use pdexplorer.Prelude.{
  ℕ, zero, suc, ◌+◌, ◌-◌, ◌≤◌, ◌<◌, ◌≡◌, refl, subst, ◌⊎◌, inl, inr, Bool, true, false, not, ◌||◌,
  Option, none, some, List, [], ◌∷◌, ◌++◌, length, length-append, arith, Bool-cases, All, ◌==◌,
}
use pdexplorer.Guards.SqliteRetry.{
  SqliteError, Result, returned, thrown, done, failed, Run, delay, retry_loop, retry_transient,
  is_fatal_sqlite_error, is_transient_sqlite_error,
}

-- A failure that looks both contended and structural is not tried again.
pub fatal_wins :
    (err : Option SqliteError)
    → is_fatal_sqlite_error err ≡ true
    → is_transient_sqlite_error err ≡ false
unfolding is_transient_sqlite_error
fatal_wins none h = refl
fatal_wins (some e) h = rw h refl

module _ {A : Type 0} (retryable : Option SqliteError → Bool) (base_delay_ms max_delay_ms : ℕ)
    (attempt : ℕ → Result A) where
  -- A failure that is tried again.
  abbrev pub Again : Result A → Type 0
  Again (returned a) = ⊥
  Again (thrown e) = retryable e ≡ true

  All-append_one :
      (n : ℕ) (xs : List ℕ)
      → All (λ x. x ≤ max_delay_ms) xs
      → n ≤ max_delay_ms
      → All (λ x. x ≤ max_delay_ms) (xs ++ n ∷ [])
  All-append_one n [] a h = (h, tt)
  All-append_one n (x ∷ xs) a h = (a.0, All-append_one n xs a.1 h)

  abbrev run : ℕ → ℕ → List ℕ → Run A
  run = retry_loop retryable base_delay_ms max_delay_ms attempt

  abbrev wait : ℕ → ℕ
  wait = delay retryable base_delay_ms max_delay_ms attempt

  Result-cases :
      (r : Result A) → ((a : A) × (r ≡ returned a)) ⊎ ((e : Option SqliteError) × (r ≡ thrown e))
  Result-cases (returned a) = inl (a, refl)
  Result-cases (thrown e) = inr (e, refl)

  loop_returned :
      (left i : ℕ) (sleeps : List ℕ) {a : A}
      → attempt i ≡ returned a
      → run (suc left) i sleeps ≡ record { outcome = done a; sleeps = sleeps }
  unfolding retry_loop
  loop_returned left i sleeps h = ground (arith, h)

  loop_failed :
      (left i : ℕ) (sleeps : List ℕ) {e : Option SqliteError}
      → attempt i ≡ thrown e
      → (not (retryable e) || left == 0) ≡ true
      → run (suc left) i sleeps ≡ record { outcome = failed e; sleeps = sleeps }
  unfolding retry_loop
  loop_failed left i sleeps h stop = ground (arith, h, stop)

  loop_again :
      (left i : ℕ) (sleeps : List ℕ) {e : Option SqliteError}
      → attempt i ≡ thrown e
      → (not (retryable e) || left == 0) ≡ false
      → run (suc left) i sleeps ≡ run left (i + 1) (sleeps ++ wait i ∷ [])
  unfolding retry_loop
  loop_again left i sleeps h on = ground (arith, h, on)

  -- Each wait is at most the longest, and there are fewer waits than attempts.
  retry_loop-sleeps :
      (left i : ℕ) (sleeps : List ℕ)
      → All (λ x. x ≤ max_delay_ms) sleeps
      → All (λ x. x ≤ max_delay_ms) (run left i sleeps).sleeps
        × (length (run left i sleeps).sleeps ≤ length sleeps + (left - 1))
  retry_loop-sleeps zero i sleeps a = unfold retry_loop in (a, omega arith)
  retry_loop-sleeps (suc left) i sleeps a = elim (Result-cases (attempt i)) [
    | inl (x, h) ↦ rw (loop_returned left i sleeps h) (a, omega arith)
    | inr (e, h) ↦ elim (Bool-cases (not (retryable e) || left == 0)) [
      | inl stop ↦ rw (loop_failed left i sleeps h stop) (a, omega arith)
      | inr on ↦
          (let (short, few) =
              retry_loop-sleeps left (i + 1) (sleeps ++ wait i ∷ [])
                (All-append_one (wait i) sleeps a (omega arith)) in
            let more : 0 < left = ground arith in
            rw (loop_again left i sleeps h on)
              (short, omega (arith, length-append sleeps (wait i ∷ []), few)))
    ]
  ]

  -- The first attempt that returns ends the loop, where all before it failed in a way that is tried again.
  retry_loop-done :
      (k left i : ℕ) (sleeps : List ℕ) (a : A)
      → k < left
      → ((j : ℕ) → j < k → Again (attempt (i + j)))
      → attempt (i + k) ≡ returned a
      → ((run left i sleeps).outcome ≡ done a)
        × (length (run left i sleeps).sleeps ≡ length sleeps + k)
  retry_loop-done k zero i sleeps a lt again e = absurd (omega arith)
  retry_loop-done zero (suc left) i sleeps a lt again e =
      let now : attempt i ≡ returned a = (let same : i + 0 ≡ i = omega arith in rw same at e) in
      rw (loop_returned left i sleeps now) (refl, omega arith)
  retry_loop-done (suc k) (suc left) i sleeps a lt again e = elim (Result-cases (attempt i)) [
    | inl (x, h) ↦ absurd (subst Again h first)
    | inr (err, h) ↦
        (let (ends, count) =
            retry_loop-done k left (i + 1) (sleeps ++ wait i ∷ []) a (omega arith)
              (λ j lt'. subst (λ n. Again (attempt n)) (omega arith) (again (suc j) (omega arith)))
              (subst (λ n. attempt n ≡ returned a) (omega arith) e) in
          let retried : retryable err ≡ true = subst Again h first in
          rw (loop_again left i sleeps h (ground (arith, retried, lt)))
            (ends, omega (arith, count, length-append sleeps (wait i ∷ []))))
  ]
    where
      first : Again (attempt i)
      first = subst (λ n. Again (attempt n)) (omega arith) (again 0 (omega arith))

-- Of at most `attempts` tries, the first that returns gives the result, where every try before it
-- failed in a way that a later one could survive; there were as many waits as failures.
pub retry_transient_returns :
    {A : Type 0} (attempts base_delay_ms max_delay_ms : ℕ) (attempt : ℕ → Result A) (k : ℕ) (a : A)
    → k < attempts
    → ((j : ℕ)
        → j < k
        → Again is_transient_sqlite_error base_delay_ms max_delay_ms attempt (attempt (1 + j)))
    → attempt (1 + k) ≡ returned a
    → ((retry_transient attempts base_delay_ms max_delay_ms attempt).outcome ≡ done a)
      × (length (retry_transient attempts base_delay_ms max_delay_ms attempt).sleeps ≡ k)
unfolding retry_transient
retry_transient_returns attempts base_delay_ms max_delay_ms attempt k a lt again e =
    let (ends, count) =
      retry_loop-done is_transient_sqlite_error base_delay_ms max_delay_ms attempt k attempts 1 [] a
        lt again e in
    (ends, omega (arith, count))

-- Whatever the tries do, there are fewer waits than attempts, and none is longer than the longest.
pub retry_transient-sleeps :
    {A : Type 0} (attempts base_delay_ms max_delay_ms : ℕ) (attempt : ℕ → Result A)
    → All
        (λ x. x ≤ max_delay_ms)
        (retry_transient attempts base_delay_ms max_delay_ms attempt).sleeps
      × (length (retry_transient attempts base_delay_ms max_delay_ms attempt).sleeps ≤ attempts - 1)
unfolding retry_transient
retry_transient-sleeps attempts base_delay_ms max_delay_ms attempt =
    let (short, few) =
      retry_loop-sleeps is_transient_sqlite_error base_delay_ms max_delay_ms attempt attempts 1 []
        tt in
    (short, omega (arith, few))
