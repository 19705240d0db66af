-- ===== src/Wallet/LiveRuntime/Follow.antt =====
-- The subscription to the runtime version, in every order of its events.
use pdexplorer.Prelude.{
  ℕ, ◌+◌, ◌≤◌, Bool, true, false, ◌||◌, Bool-cases, inl, inr, ◌≡◌, ◌∙◌, refl, sym, ap, Option, List,
  [], ◌∷◌, any, arith, if◌then◌else◌,
}
use pdexplorer.Wallet.LiveRuntime.{
  Following, follow_from, FollowEvent, version, answered, stop, same_spec, follow_step,
  follow_runtime_version,
}

abbrev pub count : Bool → ℕ
count b = if b then 1 else 0

abbrev pub gives_function : FollowEvent → Bool
gives_function (version s) = false
gives_function (answered b) = b
gives_function stop = false

abbrev pub is_answer : FollowEvent → Bool
is_answer (version s) = false
is_answer (answered b) = true
is_answer stop = false

abbrev pub is_stop : FollowEvent → Bool
is_stop (version s) = false
is_stop (answered b) = false
is_stop stop = true

abbrev pub count_of : (FollowEvent → Bool) → List FollowEvent → ℕ
count_of p [] = 0
count_of p (ev ∷ evs) = count (p ev) + count_of p evs

-- A subscription that is stopped holds nothing.
abbrev LetGo : Following → Type 0
LetGo f = f.stopped ≡ true → f.held ≡ false

follow_step-LetGo : (ev : FollowEvent) (f : Following) → LetGo f → LetGo (follow_step ev f)
unfolding follow_step
follow_step-LetGo (version s) f h = ground (arith, h)
follow_step-LetGo (answered b) f h = ground (arith, h)
follow_step-LetGo stop f h = ground (arith, h)

-- The functions called and held are those that were given, where the one that is held is not replaced.
follow_step-count :
    (ev : FollowEvent) (f : Following)
    → (is_answer ev ≡ true → f.held ≡ false)
    → LetGo f
    → (follow_step ev f).unsubscribed + count (follow_step ev f).held
      ≡ f.unsubscribed + count f.held + count (gives_function ev)
unfolding follow_step
follow_step-count (version s) f h g = ground (arith, h, g)
follow_step-count (answered b) f h g = ground (arith, h, g)
follow_step-count stop f h g = ground (arith, h, g)

follow_step-stopped :
    (ev : FollowEvent) (f : Following) → (follow_step ev f).stopped ≡ (f.stopped || is_stop ev)
unfolding follow_step
follow_step-stopped (version s) f = ground arith
follow_step-stopped (answered b) f = ground arith
follow_step-stopped stop f = ground arith

follow_step-held :
    (ev : FollowEvent) (f : Following)
    → count (follow_step ev f).held ≤ count f.held + count (is_answer ev)
unfolding follow_step
follow_step-held (version s) f = ground arith
follow_step-held (answered b) f = ground arith
follow_step-held stop f = ground arith

only : (b c : Bool) → count b + count c ≤ 1 → c ≡ true → b ≡ false
only true true h e = absurd (omega (arith, h))
only false c h e = refl
only true false h e = absurd (ground (arith, e))

or_assoc : (a b c : Bool) → ((a || b) || c) ≡ (a || (b || c))
or_assoc a b c = ground arith

follow_all :
    (f : Following) (evs : List FollowEvent)
    → LetGo f
    → count f.held + count_of is_answer evs ≤ 1
    → ((follow_runtime_version f evs).unsubscribed + count (follow_runtime_version f evs).held
        ≡ f.unsubscribed + count f.held + count_of gives_function evs)
      × ((follow_runtime_version f evs).stopped ≡ (f.stopped || any is_stop evs))
      × LetGo (follow_runtime_version f evs)
follow_all f [] g once = (omega arith, ground arith, g)
follow_all f (ev ∷ evs) g once =
    let one = follow_step-held ev f in
    let total = follow_step-count ev f (only f.held (is_answer ev) (omega (arith, once))) g in
    let (counted, ended, let_go) =
      follow_all (follow_step ev f) evs (follow_step-LetGo ev f g) (omega (arith, one, once)) in
    (
      omega (arith, total, counted),
      ended
          ∙ ap (λ b. b || any is_stop evs) (follow_step-stopped ev f)
          ∙ or_assoc f.stopped (is_stop ev) (any is_stop evs),
      let_go,
    )

-- Where the node answers the request once at most: after a stop, in whichever order it came, nothing is
-- held, and the function to unsubscribe was called exactly where the node gave one.
pub unsubscribes_once :
    (spec : Option ℕ) (evs : List FollowEvent)
    → count_of is_answer evs ≤ 1
    → any is_stop evs ≡ true
    → ((follow_runtime_version (follow_from spec) evs).held ≡ false)
      × ((follow_runtime_version (follow_from spec) evs).unsubscribed ≡ count_of gives_function evs)
unsubscribes_once spec evs once stops =
    let (counted, ended, let_go) =
      follow_all (follow_from spec) evs (λ h. refl) (omega (arith, once)) in
    let free = let_go (ended ∙ stops) in (free, omega (arith, counted, ap count free))

-- The spec before the newest notification.
abbrev newest : Option ℕ → List (Option ℕ) → Option ℕ
newest start [] = start
newest start (a ∷ r) = a

-- Each spec in the list differs from the one before it.
abbrev pub Changing : Option ℕ → List (Option ℕ) → Type 0
Changing start [] = Unit
Changing start (a ∷ r) = (same_spec a (newest start r) ≡ false) × Changing start r

abbrev Tracks : Option ℕ → Following → Type 0
Tracks start f = (f.last_spec ≡ newest start f.notified) × Changing start f.notified

follow_step-Tracks :
    (start : Option ℕ) (ev : FollowEvent) (f : Following)
    → Tracks start f
    → Tracks start (follow_step ev f)
unfolding follow_step
follow_step-Tracks start (version s) f (same, ch) =
    elim (Bool-cases (f.stopped || same_spec s f.last_spec)) [
      | inl e ↦ rw e (same, ch)
      | inr e ↦ rw e (refl, (ap (same_spec s) (sym same) ∙ ground (arith, e), ch))
    ]
follow_step-Tracks start (answered b) f h = ground (arith, h)
follow_step-Tracks start stop f h = ground (arith, h)

follow-Tracks :
    (start : Option ℕ) (f : Following) (evs : List FollowEvent)
    → Tracks start f
    → Tracks start (follow_runtime_version f evs)
follow-Tracks start f [] h = h
follow-Tracks start f (ev ∷ evs) h =
    follow-Tracks start (follow_step ev f) evs (follow_step-Tracks start ev f h)

-- A listener hears a spec only where it differs from the one that it heard before, or that the api had.
pub notified-Changing :
    (spec : Option ℕ) (evs : List FollowEvent)
    → Changing spec (follow_runtime_version (follow_from spec) evs).notified
notified-Changing spec evs = (follow-Tracks spec (follow_from spec) evs (refl, tt)).1
