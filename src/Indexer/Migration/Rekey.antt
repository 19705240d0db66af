-- ===== src/Indexer/Migration/Rekey.antt =====
-- What the rewrite of the keys makes of each row.
use pdexplorer.Prelude.{
  ℕ, ◌≡◌, refl, sym, subst, ◌∙◌, ◌⊎◌, inl, inr, Bool, true, false, not, Option, none, some, List,
  [], ◌∷◌, ◌++◌, Bool-cases, In, In-append_left, In-append_right, In-filter_by, arith,
}
use pdexplorer.Prelude.Text.{Text, codes, text_eq}
use pdexplorer.Indexer.Migration.{Row, like, zero_x, has_hash}
use pdexplorer.Indexer.Migration.Rewrite.{
  rekeyed, is_taken, updated, update_or_ignore, rekey, slot_of, tx_key, reward_key, has_index,
  is_legacy_tx, is_legacy_reward,
}

text_eq-eq : (s t : Text) → text_eq s t ≡ true → s ≡ t
text_eq-eq [] [] h = refl
text_eq-eq [] (b ∷ t) h = absurd (ground (arith, h))
text_eq-eq (a ∷ s) [] h = absurd (ground (arith, h))
text_eq-eq (a ∷ s) (b ∷ t) h = ground (arith, h, text_eq-eq s t)

-- A row has the key, and does not match.
abbrev pub Settled : (Row → Bool) → Text → List Row → Type 0
Settled matches k rs = (x : Row) × In x rs × (x.key ≡ k) × (matches x ≡ false)

taken-row :
    (matches : Row → Bool) (new_key : Row → Text) (k : Text) (rs : List Row)
    → is_taken matches new_key k rs ≡ true
    → (x : Row) × In x rs × (x.key ≡ k)
taken-row matches new_key k [] h = absurd (ground (arith, h))
taken-row matches new_key k (r ∷ rs) h = elim (Bool-cases (text_eq r.key k)) [
  | inl e ↦ (r, inl refl, text_eq-eq r.key k e)
  | inr e ↦ let (x, m, same) = taken-row matches new_key k rs (rw e at h) in (x, inr m, same)
]

module _ (matches : Row → Bool) (new_key : Row → Text)
    (fresh : (r x : Row) → matches r ≡ true → x.key ≡ new_key r → matches x ≡ false) where
  abbrev pass : List Row → List Row → List Row
  pass rs done = update_or_ignore matches new_key rs done

  abbrev next : List Row → Row → List Row → List Row
  next done r rs = done ++ (updated matches new_key done r rs ∷ [])

  done-pass : (x : Row) (rs done : List Row) → In x done → In x (pass rs done)
  unfolding update_or_ignore
  done-pass x [] done m = m
  done-pass x (r ∷ rs) done m = done-pass x rs (next done r rs) (In-append_left x done _ m)

  updated-other :
      (done : List Row) (r : Row) (rs : List Row)
      → matches r ≡ false
      → updated matches new_key done r rs ≡ r
  updated-other done r rs h = rw h

  updated-pass :
      (done : List Row) (r : Row) (rs : List Row)
      → In (updated matches new_key done r rs) (pass rs (next done r rs))
  updated-pass done r rs =
      done-pass (updated matches new_key done r rs) rs (next done r rs)
        (In-append_right (updated matches new_key done r rs) done _ (inl refl))

  other-pass : (x : Row) (rs done : List Row) → In x rs → matches x ≡ false → In x (pass rs done)
  unfolding update_or_ignore
  other-pass x [] done m h = elim m [ ]
  other-pass x (r ∷ rs) done (inl e) h =
      subst (λ y. In y (pass rs (next done r rs)))
        (updated-other done r rs (subst (λ y. matches y ≡ false) e h) ∙ sym e)
        (updated-pass done r rs)
  other-pass x (r ∷ rs) done (inr m) h = other-pass x rs (next done r rs) m h

  -- The row in turn gets the key, unless a row has it.
  turn :
      (r : Row) (rs done : List Row)
      → matches r ≡ true
      → Settled matches (new_key r) (pass rs (next done r rs))
  turn r rs done h = elim (Bool-cases (is_taken matches new_key (new_key r) done)) [
    | inl e ↦
        let (x, m, same) = taken-row matches new_key (new_key r) done e in
        (x, done-pass x rs (next done r rs) (In-append_left x done _ m), same, fresh r x h same)
    | inr e ↦ elim (Bool-cases (is_taken matches new_key (new_key r) rs)) [
      | inl f ↦
          let (x, m, same) = taken-row matches new_key (new_key r) rs f in
          (x, other-pass x rs (next done r rs) m (fresh r x h same), same, fresh r x h same)
      | inr f ↦
          let new : updated matches new_key done r rs ≡ rekeyed matches new_key r = rw (h, e, f) in
          (
            rekeyed matches new_key r,
            subst (λ y. In y (pass rs (next done r rs))) new (updated-pass done r rs),
            refl,
            fresh r (rekeyed matches new_key r) h refl,
          )
    ]
  ]

  matched-pass :
      (r : Row) (rs done : List Row)
      → In r rs
      → matches r ≡ true
      → Settled matches (new_key r) (pass rs done)
  unfolding update_or_ignore
  matched-pass r [] done m h = elim m [ ]
  matched-pass r (q ∷ rs) done (inl e) h =
      subst (λ y. Settled matches (new_key y) (pass rs (next done q rs))) (sym e)
        (turn q rs done (subst (λ y. matches y ≡ true) e h))
  matched-pass r (q ∷ rs) done (inr m) h = matched-pass r rs (next done q rs) m h

  -- Every row that matches leaves a row with its new key, and every other row stays as it is.
  pub rekey_lem :
      (r : Row) (rs : List Row)
      → In r rs
      → ((matches r ≡ false) × In r (rekey matches new_key rs))
        ⊎ ((matches r ≡ true) × Settled matches (new_key r) (rekey matches new_key rs))
  unfolding rekey
  rekey_lem r rs m = elim (Bool-cases (matches r)) [
    | inl e ↦
        let (x, n, same, other) = matched-pass r rs [] m e in
        inr (e, (x, In-filter_by (λ y. not (matches y)) x (pass rs []) n (rw other), same, other))
    | inr e ↦
        inl (e, In-filter_by (λ y. not (matches y)) r (pass rs []) (other-pass r rs [] m e) (rw e))
  ]

-- A hash that begins with 0x begins so with a text after it.
like-append : (h rest : Text) → like h zero_x ≡ true → like (h ++ rest) zero_x ≡ true
unfolding like
like-append [] rest h = absurd (ground (arith, h))
like-append (a ∷ []) rest h = absurd (ground (arith, h))
like-append (a ∷ b ∷ t) rest h = h

module _ (digits : ℕ → Text) where
  pub tx_slot-like :
      (hash : Option Text) (index : Option ℕ)
      → has_hash hash ≡ true
      → has_index index ≡ true
      → like (slot_of digits (codes "event-") hash index) (codes "event-0x") ≡ true
  unfolding like
  tx_slot-like none index h k = absurd (ground (arith, h))
  tx_slot-like (some t) none h k = absurd (ground (arith, k))
  tx_slot-like (some t) (some i) h k = like-append t (codes "-" ++ digits i) h

  pub reward_slot-like :
      (hash : Option Text) (index : Option ℕ)
      → has_hash hash ≡ true
      → has_index index ≡ true
      → like (slot_of digits [] hash index) zero_x ≡ true
  reward_slot-like none index h k = absurd (ground (arith, h))
  reward_slot-like (some t) none h k = absurd (ground (arith, k))
  reward_slot-like (some t) (some i) h k = like-append t (codes "-" ++ digits i) h

  pub fresh_tx :
      (r x : Row) → is_legacy_tx r ≡ true → x.key ≡ tx_key digits r → is_legacy_tx x ≡ false
  unfolding is_legacy_tx
  fresh_tx r x h e =
      let new : like x.key (codes "event-0x") ≡ true =
        subst (λ k. like k (codes "event-0x") ≡ true) (sym e)
          (tx_slot-like r.block_hash r.event_index (ground (arith, h)) (ground (arith, h))) in
      ground (arith, new)

  pub fresh_reward :
      (r x : Row)
      → is_legacy_reward r ≡ true
      → x.key ≡ reward_key digits r
      → is_legacy_reward x ≡ false
  unfolding is_legacy_reward
  fresh_reward r x h e =
      let new : like x.key zero_x ≡ true =
        subst (λ k. like k zero_x ≡ true) (sym e)
          (reward_slot-like r.block_hash r.event_index (ground (arith, h)) (ground (arith, h))) in
      ground (arith, new)
