-- ===== src/Indexer/Gaps/Fair.antt =====
-- The rotation over the gaps does not starve one: with no progress at all each is tried as often as
-- the cap allows, and then all are reported as exhausted.
use pdexplorer.Prelude.{
  ℕ, zero, suc, ◌+◌, ◌-◌, ◌*◌, ◌%◌, ◌≤◌, ◌<◌, ◌≡◌, refl, sym, ap, subst, ◌⊎◌, inl, inr, ◌↔◌, true,
  false, Option, none, some, List, [], ◌∷◌, filter_by, length, ◌==◌, arith, Bool-cases,
  Option-cases, List-cases, In, filter_by-In, In-filter_by, All, if◌then◌else◌,
}
use pdexplorer.Indexer.Gaps.{
  Gap, gap_key, key_eq, Attempts, is_gap, is_live, last_or, choose_gap, set_attempts,
  record_attempt, exhausted_gap_count,
}

last_or-In : (g : Gap) (gs : List Gap) {h : Gap} → last_or g gs ≡ h → In h (g ∷ gs)
unfolding last_or
last_or-In g [] e = inl (sym e)
last_or-In g (x ∷ xs) e = inr (last_or-In x xs e)

-- The gap that is chosen is one of the list, with both ends, and has attempts left.
pub choose_gap-In :
    (gaps : List Gap) (attempts : Attempts) (tick max_attempts : ℕ) {g : Gap}
    → choose_gap gaps attempts tick max_attempts ≡ some g
    → In g gaps × (is_gap g ≡ true) × (attempts (gap_key g) < max_attempts)
unfolding choose_gap
choose_gap-In gaps attempts tick max_attempts {g} e = elim (List-cases live) [
  | inl none_live ↦ absurd (ground arith)
  | inr (x, xs, eq) ↦
      let chosen : In g (x ∷ xs) = pick x xs (ground arith) in
      let (valid, fresh) =
        filter_by-In (is_live attempts max_attempts) g (filter_by is_gap gaps)
          (subst (In g) (sym eq) chosen) in
      let (held, both) = filter_by-In is_gap g gaps valid in (held, both, ground arith)
]
  where
    live : List Gap
    live = filter_by (is_live attempts max_attempts) (filter_by is_gap gaps)

    pick :
        (x : Gap) (xs : List Gap) → (if tick % 2 == 0 then x else last_or x xs) ≡ g → In g (x ∷ xs)
    pick x xs h = elim (Bool-cases (tick % 2 == 0)) [
      | inl b ↦ inl (ground arith)
      | inr b ↦ last_or-In x xs (ground arith)
    ]

-- Nothing is chosen only when no gap with both ends has attempts left.
pub choose_gap-none :
    (gaps : List Gap) (attempts : Attempts) (tick max_attempts : ℕ) (g : Gap)
    → choose_gap gaps attempts tick max_attempts ≡ none
    → In g gaps
    → is_gap g ≡ true
    → max_attempts ≤ attempts (gap_key g)
unfolding choose_gap
choose_gap-none gaps attempts tick max_attempts g e m b = elim (List-cases live) [
  | inr (x, xs, eq) ↦ absurd (ground arith)
  | inl empty ↦ elim (Bool-cases (is_live attempts max_attempts g)) [
    | inl l ↦ absurd (
        rw empty at (
          In-filter_by (is_live attempts max_attempts) g (filter_by is_gap gaps)
            (In-filter_by is_gap g gaps m b) l))
    | inr d ↦ ground arith
  ]
]
  where
    live : List Gap
    live = filter_by (is_live attempts max_attempts) (filter_by is_gap gaps)

-- The attempts that are left to the gaps of a list.
remaining : Attempts → ℕ → List Gap → ℕ
remaining attempts max_attempts [] = 0
remaining attempts max_attempts (g ∷ gs) =
    (max_attempts - attempts (gap_key g)) + remaining attempts max_attempts gs

-- Every gap has both ends, and no two start at one height.
abbrev pub AreGaps : List Gap → Type 0
AreGaps [] = Unit
AreGaps (g ∷ gs) =
    (is_gap g ≡ true) × (All (λ h. key_eq (gap_key h) (gap_key g) ≡ false) gs × AreGaps gs)

key_eq_iff : (a b : Option ℕ) → (key_eq a b ≡ true) ↔ (a ≡ b)
key_eq_iff none none = ground arith
key_eq_iff none (some b) = ground arith
key_eq_iff (some a) none = ground arith
key_eq_iff (some a) (some b) = ground arith

remaining-other :
    (attempts : Attempts) (max_attempts n : ℕ) (key : Option ℕ) (gs : List Gap)
    → All (λ h. key_eq (gap_key h) key ≡ false) gs
    → remaining (set_attempts attempts key n) max_attempts gs ≡ remaining attempts max_attempts gs
unfolding remaining
remaining-other attempts max_attempts n key [] a = refl
remaining-other attempts max_attempts n key (g ∷ gs) a =
    ground (arith, a.0, remaining-other attempts max_attempts n key gs a.1)

-- A gap of the list starts at this key.
abbrev HasKey : Option ℕ → List Gap → Type 0
HasKey key [] = ⊥
HasKey key (x ∷ xs) = (key ≡ gap_key x) ⊎ HasKey key xs

In-HasKey : (g : Gap) (gs : List Gap) → In g gs → HasKey (gap_key g) gs
In-HasKey g [] m = elim m [ ]
In-HasKey g (x ∷ xs) (inl e) = inl (ap gap_key e)
In-HasKey g (x ∷ xs) (inr m) = inr (In-HasKey g xs m)

key_eq-HasKey :
    (key other : Option ℕ) (gs : List Gap)
    → All (λ h. key_eq (gap_key h) other ≡ false) gs
    → HasKey key gs
    → key_eq other key ≡ false
key_eq-HasKey key other [] a m = elim m [ ]
key_eq-HasKey key other (h ∷ gs) a (inl e) =
    rw e (ground (arith, a.0, key_eq_iff (gap_key h) other, key_eq_iff other (gap_key h)))
key_eq-HasKey key other (h ∷ gs) a (inr m) = key_eq-HasKey key other gs a.1 m

remaining-attempt :
    (attempts : Attempts) (max_attempts : ℕ) (key : Option ℕ) (gs : List Gap)
    → AreGaps gs
    → HasKey key gs
    → attempts key < max_attempts
    → remaining (set_attempts attempts key (attempts key + 1)) max_attempts gs + 1
      ≡ remaining attempts max_attempts gs
unfolding remaining
remaining-attempt attempts max_attempts key [] a m lt = elim m [ ]
remaining-attempt attempts max_attempts key (x ∷ gs) a (inl e) lt = ground (
  arith,
  e,
  key_eq_iff key (gap_key x),
  remaining-other attempts max_attempts (attempts key + 1) key gs
      (subst (λ k. All (λ h. key_eq (gap_key h) k ≡ false) gs) (sym e) a.1.0),
)
remaining-attempt attempts max_attempts key (x ∷ gs) a (inr m) lt = ground (
  arith,
  key_eq-HasKey key (gap_key x) gs a.1.0 m,
  remaining-attempt attempts max_attempts key gs a.1.1 m lt,
)

-- `ticks` repairs that fill nothing, from the count `tick` on.
abbrev pub fruitless : List Gap → ℕ → ℕ → ℕ → Attempts → Attempts
fruitless gaps max_attempts zero tick attempts = attempts
fruitless gaps max_attempts (suc ticks) tick attempts =
    fruitless gaps max_attempts ticks (suc tick)
      (record_attempt attempts (choose_gap gaps attempts tick max_attempts) 0)

remaining_spent :
    (attempts : Attempts) (max_attempts : ℕ) (gs : List Gap)
    → ((g : Gap) → In g gs → max_attempts ≤ attempts (gap_key g))
    → remaining attempts max_attempts gs ≡ 0
unfolding remaining
remaining_spent attempts max_attempts [] h = refl
remaining_spent attempts max_attempts (g ∷ gs) h =
    ground (arith, h g (inl refl), remaining_spent attempts max_attempts gs (λ x m. h x (inr m)))

AreGaps-In : (g : Gap) (gs : List Gap) → AreGaps gs → In g gs → is_gap g ≡ true
AreGaps-In g [] a m = elim m [ ]
AreGaps-In g (x ∷ xs) a (inl e) = rw e a.0
AreGaps-In g (x ∷ xs) a (inr m) = AreGaps-In g xs a.1.1 m

remaining-step :
    (gaps : List Gap) (attempts : Attempts) (tick max_attempts n : ℕ)
    → AreGaps gaps
    → remaining attempts max_attempts gaps ≤ suc n
    → remaining
        (record_attempt attempts (choose_gap gaps attempts tick max_attempts) 0)
        max_attempts
        gaps
      ≤ n
unfolding record_attempt
remaining-step gaps attempts tick max_attempts n a le =
    elim (Option-cases (choose_gap gaps attempts tick max_attempts)) [
      | inl e ↦
          (let none_left : remaining attempts max_attempts gaps ≡ 0 =
              remaining_spent attempts max_attempts gaps (λ g m.
                choose_gap-none gaps attempts tick max_attempts g e m (AreGaps-In g gaps a m)) in
            rw e (omega arith))
      | inr (g, e) ↦
          (let (m, both, lt) = choose_gap-In gaps attempts tick max_attempts e in
            rw e (
              ground (
                arith,
                remaining-attempt attempts max_attempts (gap_key g) gaps a (In-HasKey g gaps m) lt,
              )))
    ]

all_tried :
    (attempts : Attempts) (max_attempts : ℕ) (gs : List Gap)
    → AreGaps gs
    → remaining attempts max_attempts gs ≡ 0
    → exhausted_gap_count gs attempts max_attempts ≡ length gs
unfolding remaining exhausted_gap_count
all_tried attempts max_attempts [] a e = refl
all_tried attempts max_attempts (g ∷ gs) a e =
    ground (arith, a.0, all_tried attempts max_attempts gs a.1.1)

remaining-fruitless :
    (gaps : List Gap) (max_attempts ticks tick : ℕ) (attempts : Attempts)
    → AreGaps gaps
    → remaining attempts max_attempts gaps ≤ ticks
    → remaining (fruitless gaps max_attempts ticks tick attempts) max_attempts gaps ≡ 0
remaining-fruitless gaps max_attempts zero tick attempts a le = omega arith
remaining-fruitless gaps max_attempts (suc ticks) tick attempts a le =
    remaining-fruitless gaps max_attempts ticks (suc tick)
      (record_attempt attempts (choose_gap gaps attempts tick max_attempts) 0) a
      (remaining-step gaps attempts tick max_attempts ticks a le)

remaining_le :
    (attempts : Attempts) (max_attempts : ℕ) (gs : List Gap)
    → remaining attempts max_attempts gs ≤ length gs * max_attempts
unfolding remaining
remaining_le attempts max_attempts [] = omega arith
remaining_le attempts max_attempts (g ∷ gs) = grind (arith, remaining_le attempts max_attempts gs)

-- Over a list of gaps with both ends and different starts, and with no progress at all: from any
-- record of attempts, maxAttempts ticks for each gap exhaust every gap of the list, the oldest as
-- well as the newest, and the status counts them all.
pub fruitless-exhausts :
    (gaps : List Gap) (max_attempts tick : ℕ) (attempts : Attempts)
    → AreGaps gaps
    → exhausted_gap_count gaps
        (fruitless gaps max_attempts (length gaps * max_attempts) tick attempts)
        max_attempts
      ≡ length gaps
fruitless-exhausts gaps max_attempts tick attempts a =
    all_tried (fruitless gaps max_attempts (length gaps * max_attempts) tick attempts) max_attempts
      gaps a
      (remaining-fruitless gaps max_attempts (length gaps * max_attempts) tick attempts a
        (remaining_le attempts max_attempts gaps))
