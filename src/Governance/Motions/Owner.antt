-- ===== src/Governance/Motions/Owner.antt =====
-- The motion that an event is attributed to.
use pdexplorer.Prelude.{
  Bool, true, false, Option, none, some, Bool-cases, List, [], ◌∷◌, String, str_eq, eq_iff, inl,
  inr, ◌⊎◌, ◌↔◌, ◌≡◌, ◌∙◌, refl, sym, ap, ◌==◌, In, All-In, filter_by, filter_by-In, In-filter_by,
  arith,
}
use pdexplorer.Prelude.Sort.{IsSorted, sort_by-IsSorted, sort_by-In}
use pdexplorer.Governance.Motions.{
  Motion, MotionEvent, event_rank, proposed_before, before_event, at_or_before, is_none,
  last_before, with_hash, owner_of,
}

proposed_before_total : (a b : Motion) → proposed_before a b ≡ false → proposed_before b a ≡ true
unfolding proposed_before
proposed_before_total a b h = ground (arith, h)

proposed_before_trans :
    (a b c : Motion)
    → proposed_before a b ≡ true
    → proposed_before b c ≡ true
    → proposed_before a c ≡ true
unfolding proposed_before
proposed_before_trans a b c h k = ground (arith, h, k)

proposed_before_self : (a : Motion) → proposed_before a a ≡ true
unfolding proposed_before
proposed_before_self a = ground arith

-- A motion proposed before one that lies at or before the event has no known block, or lies there too.
proposed_before-at :
    (a b : Motion) (ev : MotionEvent)
    → proposed_before a b ≡ true
    → at_or_before b ev ≡ true
    → at_or_before a ev ≡ true
unfolding proposed_before before_event
proposed_before-at a b ev h k = ground (arith, h, k)

at_or_before-known :
    (m : Motion) (ev : MotionEvent) → at_or_before m ev ≡ true → is_none m.proposed_block ≡ false
at_or_before-known m ev h = ground (arith, h)

some_at :
    (m o : Motion) (ms : List Motion) (ev : MotionEvent)
    → at_or_before m ev ≡ true
    → some m ≡ some o
    → In o (m ∷ ms) × (at_or_before o ev ≡ true)
some_at m o ms ev b e =
    let same : m ≡ o = ap (λ x. elim x [ none ↦ m | some y ↦ y ]) e in
    (inl (sym same), ap (λ y. at_or_before y ev) (sym same) ∙ b)

last_before_step :
    (owner : Option Motion) (m : Motion) (ms : List Motion) (ev : MotionEvent)
    → at_or_before m ev ≡ true
    → last_before owner (m ∷ ms) ev ≡ last_before (some m) ms ev
unfolding last_before
last_before_step owner m ms ev h = rw (at_or_before-known m ev h, h, last_before) refl

last_before_unknown :
    (owner : Option Motion) (m : Motion) (ms : List Motion) (ev : MotionEvent)
    → is_none m.proposed_block ≡ true
    → last_before owner (m ∷ ms) ev ≡ last_before owner ms ev
unfolding last_before
last_before_unknown owner m ms ev h = rw (h, last_before) refl

last_before_stop :
    (owner : Option Motion) (m : Motion) (ms : List Motion) (ev : MotionEvent)
    → is_none m.proposed_block ≡ false
    → at_or_before m ev ≡ false
    → last_before owner (m ∷ ms) ev ≡ owner
unfolding last_before
last_before_stop owner m ms ev h k = rw (h, k, last_before) refl

-- What the loop ends with is what it started with, or a motion of the list at or before the event.
last_before_from :
    (owner : Option Motion) (ms : List Motion) (ev : MotionEvent) (o : Motion)
    → last_before owner ms ev ≡ some o
    → (owner ≡ some o) ⊎ (In o ms × (at_or_before o ev ≡ true))
unfolding last_before
last_before_from owner [] ev o h = inl h
last_before_from owner (m ∷ ms) ev o h = elim (Bool-cases (is_none m.proposed_block)) [
  | inl u ↦ elim (last_before_from owner ms ev o (sym (last_before_unknown owner m ms ev u) ∙ h)) [
    | inl e ↦ inl e
    | inr (i, b) ↦ inr (inr i, b)
  ]
  | inr u ↦ elim (Bool-cases (at_or_before m ev)) [
    | inl b ↦
        elim (last_before_from (some m) ms ev o (sym (last_before_step owner m ms ev b) ∙ h)) [
          | inl e ↦ inr (some_at m o ms ev b e)
          | inr (i, c) ↦ inr (inr i, c)
        ]
    | inr b ↦ inl (sym (last_before_stop owner m ms ev u b) ∙ h)
  ]
]

later : (o x y : Motion) (ys : List Motion) → (o ≡ x) ⊎ In o ys → (o ≡ x) ⊎ In o (y ∷ ys)
later o x y ys (inl e) = inl e
later o x y ys (inr i) = inr (inr i)

last_before-some :
    (x : Motion) (xs : List Motion) (ev : MotionEvent)
    → (o : Motion) × (last_before (some x) xs ev ≡ some o) × ((o ≡ x) ⊎ In o xs)
unfolding last_before
last_before-some x [] ev = (x, refl, inl refl)
last_before-some x (y ∷ ys) ev = elim (Bool-cases (is_none y.proposed_block)) [
  | inl u ↦
      let (o, found, inside) = last_before-some x ys ev in
      (o, last_before_unknown (some x) y ys ev u ∙ found, later o x y ys inside)
  | inr u ↦ elim (Bool-cases (at_or_before y ev)) [
    | inl b ↦
        let (o, found, inside) = last_before-some y ys ev in
        (o, last_before_step (some x) y ys ev b ∙ found, inr inside)
    | inr b ↦ (x, last_before_stop (some x) y ys ev u b, inl refl)
  ]
]

-- In a sorted list the loop finds a motion that no motion at or before the event comes after.
last_before_latest :
    (owner : Option Motion) (ms : List Motion) (ev : MotionEvent) (m : Motion)
    → IsSorted proposed_before ms
    → In m ms
    → at_or_before m ev ≡ true
    → (o : Motion) × (last_before owner ms ev ≡ some o) × (proposed_before m o ≡ true)
last_before_latest owner [] ev m s i b = elim i [ ]
last_before_latest owner (x ∷ xs) ev m s (inl e) b =
    let at = ap (λ y. at_or_before y ev) (sym e) ∙ b in
    let (o, found, inside) = last_before-some x xs ev in
    let first : proposed_before m o ≡ true = elim inside [
      | inl same ↦ rw (e, same) (proposed_before_self x)
      | inr i ↦ rw e (All-In (λ y. proposed_before x y ≡ true) o xs s.0 i)
    ] in
    (o, last_before_step owner x xs ev at ∙ found, first)
last_before_latest owner (x ∷ xs) ev m s (inr i) b =
    let at = proposed_before-at x m ev (All-In (λ y. proposed_before x y ≡ true) m xs s.0 i) b in
    let (o, found, after) = last_before_latest (some x) xs ev m s.1 i b in
    (o, last_before_step owner x xs ev at ∙ found, after)

with_hash-In :
    (motions : List Motion) (h : String) (m : Motion)
    → In m (with_hash h motions) ↔ (In m motions × (m.motion_hash ≡ h))
unfolding with_hash
with_hash-In motions h m =
    let p : Motion → Bool = λ n. str_eq n.motion_hash h in
    let (to, from) = sort_by-In proposed_before m (filter_by p motions) in
    let (as_path, as_test) = eq_iff m.motion_hash h in
    (
      (λ i. let (j, k) = filter_by-In p m motions (to i) in (j, as_path k)),
      (λ (j, k). from (In-filter_by p m motions j (as_test k))),
    )

with_hash-IsSorted :
    (motions : List Motion) (h : String) → IsSorted proposed_before (with_hash h motions)
unfolding with_hash
with_hash-IsSorted motions h =
    sort_by-IsSorted proposed_before proposed_before_total proposed_before_trans
      (filter_by (λ n. str_eq n.motion_hash h) motions)

owner_of_found :
    (motions : List Motion) (ev : MotionEvent) (o : Motion)
    → (event_rank ev.kind == 0) ≡ false
    → last_before none (with_hash ev.event_hash motions) ev ≡ some o
    → owner_of motions ev ≡ some o
unfolding owner_of
owner_of_found motions ev o h k = rw (h, k) refl

-- An event of a known kind for whose hash some motion was proposed at or before it is attributed to
-- one: the last of the motions of its hash that were proposed at or before the event.
pub owner_of_latest :
    (motions : List Motion) (ev : MotionEvent) (m : Motion)
    → (event_rank ev.kind == 0) ≡ false
    → In m motions
    → m.motion_hash ≡ ev.event_hash
    → at_or_before m ev ≡ true
    → (o : Motion) × (owner_of motions ev ≡ some o)
      × In o motions
      × (o.motion_hash ≡ ev.event_hash)
      × (at_or_before o ev ≡ true)
      × (proposed_before m o ≡ true)
owner_of_latest motions ev m kind i h b =
    let list = with_hash ev.event_hash motions in
    let listed = (with_hash-In motions ev.event_hash m).1 (i, h) in
    let (o, found, after) =
      last_before_latest none list ev m (with_hash-IsSorted motions ev.event_hash) listed b in
    elim (last_before_from none list ev o found) [
      | inl e ↦ absurd (ground (arith, e))
      | inr (j, c) ↦
          let (inside, hash) = (with_hash-In motions ev.event_hash o).0 j in
          (o, owner_of_found motions ev o kind found, inside, hash, c, after)
    ]
