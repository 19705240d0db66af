-- ===== src/Guards/RateLimit/Window.antt =====
-- The limiter keeps its advertised limit in every window.
use pdexplorer.Prelude.{
  ℕ, ◌+◌, ◌-◌, ◌≤◌, ◌<◌, ◌≡◌, refl, ◌⊎◌, ◌↔◌, inl, inr, Bool, true, false, filter_by-In, some, List,
  [], ◌∷◌, ◌++◌, length, length-append, length-filter_by-le, leb, All, In, filter_by, arith,
  Bool-cases, if◌then◌else◌,
}
use pdexplorer.Guards.RateLimit.{recent, oldest, retry_after, check_window}

-- The times of the hits that are let through, from the stored hits on.
abbrev pub granted : ℕ → ℕ → List ℕ → List ℕ → List ℕ
granted window_ms limit hits [] = []
granted window_ms limit hits (t ∷ ts) =
    let v = check_window hits t window_ms limit in
    let rest = granted window_ms limit v.kept ts in if v.allowed then t ∷ rest else rest

module _ (window_ms now : ℕ) where
  -- The hits that lie in the window that ends now.
  abbrev pub within : List ℕ → ℕ
  within ts = length (filter_by (recent window_ms now) ts)

  within-append : (xs ys : List ℕ) → within (xs ++ ys) ≡ within xs + within ys
  within-append [] ys = omega arith
  within-append (x ∷ xs) ys = ground (arith, within-append xs ys)

  -- What an earlier check has pruned lies outside the window.
  within-pruned :
      (t : ℕ) (ts : List ℕ) → t ≤ now → within (filter_by (recent window_ms t) ts) ≡ within ts
  within-pruned t [] h = refl
  within-pruned t (u ∷ ts) h = ground (arith, within-pruned t ts h)

  granted-within :
      (limit : ℕ) (hits ts : List ℕ)
      → length hits ≤ limit
      → All (λ t. t ≤ now) ts
      → within hits + within (granted window_ms limit hits ts) ≤ limit
  unfolding check_window
  granted-within limit hits [] h a = omega (arith, length-filter_by-le (recent window_ms now) hits)
  granted-within limit hits (t ∷ ts) h a = ground (
    arith,
    a.0,
    within-pruned t hits a.0,
    within-append (filter_by (recent window_ms t) hits) (t ∷ []),
    length-append (filter_by (recent window_ms t) hits) (t ∷ []),
    length-filter_by-le (recent window_ms t) hits,
    granted-within limit (filter_by (recent window_ms t) hits) ts,
    granted-within limit (filter_by (recent window_ms t) hits ++ t ∷ []) ts,
    a.1,
  )

  -- However the hits come, at most `limit` of those that are let through up to a moment lie in the
  -- window that ends at it.
  pub window_bound :
      (limit : ℕ) (ts : List ℕ)
      → All (λ t. t ≤ now) ts
      → within (granted window_ms limit [] ts) ≤ limit
  window_bound limit ts a = omega (arith, granted-within limit [] ts (omega arith) a)

filter_by-length-lt :
    (p : ℕ → Bool) (t : ℕ) (ts : List ℕ)
    → In t ts
    → p t ≡ false
    → length (filter_by p ts) < length ts
filter_by-length-lt p t [] m h = elim m [ ]
filter_by-length-lt p t (u ∷ ts) (inl e) h =
    (let off : p u ≡ false = rw e at h in ground (arith, length-filter_by-le p ts))
filter_by-length-lt p t (u ∷ ts) (inr m) h = ground (arith, filter_by-length-lt p t ts m h)

filter_by-length-All :
    (p : ℕ → Bool) (ts : List ℕ) → All (λ u. p u ≡ true) ts → length (filter_by p ts) ≡ length ts
filter_by-length-All p [] a = refl
filter_by-length-All p (u ∷ ts) a = ground (arith, a.0, filter_by-length-All p ts a.1)

All-le : (s t : ℕ) (ts : List ℕ) → s ≤ t → All (λ u. t ≤ u) ts → All (λ u. s ≤ u) ts
All-le s t [] h a = tt
All-le s t (u ∷ ts) h a = (omega (arith, a.0), All-le s t ts h a.1)

oldest_cases :
    (ts : List ℕ) → (ts ≡ []) ⊎ ((t : ℕ) × (oldest ts ≡ some t) × In t ts × All (λ u. t ≤ u) ts)
unfolding oldest
oldest_cases [] = inl refl
oldest_cases (x ∷ ts) = elim (oldest_cases ts) [
  | inl e ↦ inr (x, rw e refl, inl refl, (omega arith, rw e tt))
  | inr (t, e, m, a) ↦ elim (Bool-cases (leb x t)) [
    | inl le ↦ inr (x, rw e (ground arith), inl refl, (omega arith, All-le x t ts (ground arith) a))
    | inr gt ↦ inr (t, rw e (ground arith), inr m, (ground arith, a))
  ]
]

All-recent :
    (window_ms t n : ℕ) (ts : List ℕ)
    → n < t + window_ms
    → All (λ u. t ≤ u) ts
    → All (λ u. recent window_ms n u ≡ true) ts
All-recent window_ms t n [] h a = tt
All-recent window_ms t n (u ∷ ts) h a = (ground (arith, a.0), All-recent window_ms t n ts h a.1)

allowed_iff :
    (hits : List ℕ) (now window_ms limit : ℕ)
    → ((check_window hits now window_ms limit).allowed ≡ true)
      ↔ (length (filter_by (recent window_ms now) hits) < limit)
unfolding check_window
allowed_iff hits now window_ms limit = ground arith

check_window_refused :
    (hits : List ℕ) (now window_ms limit : ℕ)
    → (check_window hits now window_ms limit).allowed ≡ false
    → ((check_window hits now window_ms limit).kept ≡ filter_by (recent window_ms now) hits)
      × ((check_window hits now window_ms limit).retry_after_ms
          ≡ retry_after window_ms now (oldest (filter_by (recent window_ms now) hits)))
      × (limit ≤ length (filter_by (recent window_ms now) hits))
unfolding check_window
check_window_refused hits now window_ms limit h = ground (arith, h)

-- A hit that is refused, where the limit is positive and no more hits than that are stored, is told
-- a wait. With no other hit in between, a try after that wait is let through, and every try before it
-- is refused.
pub retry_after_lem :
    (window_ms now limit : ℕ) (hits : List ℕ)
    → 1 ≤ limit
    → length hits ≤ limit
    → (check_window hits now window_ms limit).allowed ≡ false
    → (wait : ℕ) × ((check_window hits now window_ms limit).retry_after_ms ≡ some wait)
      × ((check_window
            (check_window hits now window_ms limit).kept
            (now + wait)
            window_ms
            limit).allowed
          ≡ true)
      × ((n : ℕ)
          → n < now + wait
          → (check_window (check_window hits now window_ms limit).kept n window_ms limit).allowed
            ≡ false)
retry_after_lem window_ms now limit hits one stored refused =
    elim (oldest_cases (filter_by (recent window_ms now) hits)) [
      | inl e ↦ absurd (none_kept e)
      | inr (t, e, m, a) ↦
          (let live : now < t + window_ms =
              ground (arith, (filter_by-In (recent window_ms now) t hits m).1) in
            let (same, told, many) = check_window_refused hits now window_ms limit refused in
            let kept : List ℕ = filter_by (recent window_ms now) hits in
            let wait : ℕ = t + window_ms - now in
            (
              wait,
              rw (told, e) refl,
              rw same (
                  (allowed_iff kept (now + wait) window_ms limit).1 (
                    omega (
                      arith,
                      filter_by-length-lt (recent window_ms (now + wait)) t kept m
                          (ground (arith, live)),
                      length-filter_by-le (recent window_ms now) hits,
                    ))),
              λ n lt. rw same (full n t (ground (arith, live)) a),
            ))
    ]
  where
    full :
        (n t : ℕ)
        → n < t + window_ms
        → All (λ u. t ≤ u) (filter_by (recent window_ms now) hits)
        → (check_window (filter_by (recent window_ms now) hits) n window_ms limit).allowed ≡ false
    full n t h a = ground (
      arith,
      allowed_iff (filter_by (recent window_ms now) hits) n window_ms limit,
      filter_by-length-All (recent window_ms n) (filter_by (recent window_ms now) hits)
          (All-recent window_ms t n _ h a),
      (check_window_refused hits now window_ms limit refused).2,
    )

    none_kept : filter_by (recent window_ms now) hits ≡ [] → ⊥
    none_kept e =
        (let few : limit ≤ 0 =
            rw e at ((check_window_refused hits now window_ms limit refused).2) in
          omega arith)
