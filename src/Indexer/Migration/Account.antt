-- ===== src/Indexer/Migration/Account.antt =====
-- Which event each row stands for after the rewrite of the keys.
use pdexplorer.Prelude.{
  ℕ, ◌≡◌, refl, sym, ap, subst, ◌∙◌, ◌⊎◌, inl, inr, Bool, true, false, ◌||◌, not, Option, none,
  some, List, [], ◌∷◌, ◌++◌, any, ◌==◌, Bool-cases, In, In-append, filter_by-In, arith,
}
use pdexplorer.Prelude.Text.{Text, codes}
use pdexplorer.Indexer.Migration.{Row, like, zero_x, has_hash}
use pdexplorer.Indexer.Migration.Rewrite.{
  is_taken, updated, update_or_ignore, rekey, slot_key, slot_of, tx_key, reward_key, has_index,
  is_legacy_tx, is_legacy_reward, rewrite_transactions, rewrite_rewards,
}
use pdexplorer.Indexer.Migration.Rekey.{
  rekey_lem, tx_slot-like, reward_slot-like, fresh_tx, fresh_reward,
}

-- The code unit of `-`.
abbrev dash : ℕ
dash = 45

-- The text of an integer, as SQLite makes it: no two have one text, and none has a dash in it.
pub record Decimal (digits : ℕ → Text) : Type 0 where
  pub one_text : (a b : ℕ) → digits a ≡ digits b → a ≡ b
  pub no_dash : (a : ℕ) → any (dash ==◌) (digits a) ≡ false

abbrev tail_of : Text → Text
tail_of [] = []
tail_of (a ∷ s) = s

cancel_prefix : (p s t : Text) → p ++ s ≡ p ++ t → s ≡ t
cancel_prefix [] s t e = e
cancel_prefix (a ∷ p) s t e = cancel_prefix p s t (ap tail_of e)

has_dash : (h d : Text) → any (dash ==◌) (h ++ (dash ∷ d)) ≡ true
has_dash [] d = refl
has_dash (a ∷ h) d = ground (arith, has_dash h d)

not_empty : (p h d : Text) → [] ≡ p ++ (h ++ (dash ∷ d)) → ⊥
not_empty [] [] d e = ground (arith, e)
not_empty [] (a ∷ h) d e = ground (arith, e)
not_empty (a ∷ p) h d e = ground (arith, e)

-- A text is cut at its last dash in one way.
last_dash :
    (h g d e : Text)
    → any (dash ==◌) d ≡ false
    → any (dash ==◌) e ≡ false
    → h ++ (dash ∷ d) ≡ g ++ (dash ∷ e)
    → (h ≡ g) × (d ≡ e)
last_dash [] [] d e p q same = (refl, ap tail_of same)
last_dash [] (b ∷ g) d e p q same =
    absurd (
      ground
        (arith, p, subst (λ t. any (dash ==◌) t ≡ true) (sym (ap tail_of same)) (has_dash g e)))
last_dash (a ∷ h) [] d e p q same =
    absurd
      (ground (arith, q, subst (λ t. any (dash ==◌) t ≡ true) (ap tail_of same) (has_dash h d)))
last_dash (a ∷ h) (b ∷ g) d e p q same =
    ground (arith, same, last_dash h g d e p q (ap tail_of same))

-- A row and the event of another: the same block hash and the same index in it.
abbrev pub SameEvent : Row → Row → Type 0
SameEvent q r = (q.block_hash ≡ r.block_hash) × (q.event_index ≡ r.event_index)

module _ (digits : ℕ → Text) (decimal : Decimal digits) where
  slot_of-injective :
      (prefix : Text) (h g : Option Text) (i j : Option ℕ)
      → has_hash h ≡ true
      → has_index i ≡ true
      → slot_of digits prefix g j ≡ slot_of digits prefix h i
      → (g ≡ h) × (j ≡ i)
  slot_of-injective prefix none g i j a b e = absurd (ground (arith, a))
  slot_of-injective prefix (some h) g none j a b e = absurd (ground (arith, b))
  slot_of-injective prefix (some h) none (some i) j a b e = absurd (not_empty prefix h (digits i) e)
  slot_of-injective prefix (some h) (some g) (some i) none a b e =
      absurd (not_empty prefix h (digits i) e)
  slot_of-injective prefix (some h) (some g) (some i) (some j) a b e =
      let (same, text) =
        last_dash g h (digits j) (digits i) (decimal.no_dash j) (decimal.no_dash i)
          (cancel_prefix prefix (slot_key digits g j) (slot_key digits h i) e) in
      (ap some same, ap some (decimal.one_text j i text))

module _ (matches : Row → Bool) (new_key : Row → Text) where
  -- A row of the table, or one that got its new key.
  abbrev pub Origin : List Row → Row → Type 0
  Origin rs x =
      (q : Row) × In q rs × ((x ≡ q) ⊎ ((matches q ≡ true) × (x ≡ record q { key = new_key q })))

  updated-Origin :
      (rs done : List Row) (r : Row) (later : List Row)
      → In r rs
      → Origin rs (updated matches new_key done r later)
  updated-Origin rs done r later m = elim (Bool-cases (matches r)) [
    | inl e ↦
        elim (Bool-cases (
          is_taken matches new_key (new_key r) done
          || is_taken matches new_key (new_key r) later)) [
            | inl f ↦ rw (e, f) (r, m, inl refl)
            | inr f ↦ rw (e, f) (r, m, inr (e, refl))
          ]
    | inr e ↦ rw e (r, m, inl refl)
  ]

  pass-Origin :
      (all rs done : List Row)
      → ((q : Row) → In q rs → In q all)
      → ((x : Row) → In x done → Origin all x)
      → (x : Row) → In x (update_or_ignore matches new_key rs done)
      → Origin all x
  unfolding update_or_ignore
  pass-Origin all [] done sub from x m = from x m
  pass-Origin all (r ∷ rs) done sub from x m =
      pass-Origin all rs (done ++ (updated matches new_key done r rs ∷ [])) (λ q i. sub q (inr i))
        (λ y i. elim (In-append y done (updated matches new_key done r rs ∷ []) i) [
          | inl j ↦ from y j
          | inr (inl e) ↦
              subst (Origin all) (sym e) (updated-Origin all done r rs (sub r (inl refl)))
          | inr (inr n) ↦ elim n [ ]
        ])
        x m

  rekey-Origin : (rs : List Row) (x : Row) → In x (rekey matches new_key rs) → Origin rs x
  unfolding rekey
  rekey-Origin rs x m =
      pass-Origin rs rs [] (λ q i. i) (λ y n. elim n [ ]) x
        (filter_by-In (λ y. not (matches y)) x (update_or_ignore matches new_key rs []) m).0

  -- What became of a row: it stands as it was, or a row of its event stands with nothing changed but its
  -- key, which is the new one.
  abbrev pub Accounted : List Row → List Row → Row → Type 0
  Accounted rs after r =
      ((matches r ≡ false) × In r after)
      ⊎ ((matches r ≡ true)
          × ((q : Row) × In q rs × SameEvent q r × In (record q { key = new_key r }) after))

  rekey-Accounted :
      (rs : List Row) (r : Row)
      → ((r x : Row) → matches r ≡ true → x.key ≡ new_key r → matches x ≡ false)
      → ((q : Row) → matches r ≡ true → new_key q ≡ new_key r → SameEvent q r)
      → ((q : Row) → In q rs → matches r ≡ true → q.key ≡ new_key r → q.key ≡ new_key q)
      → In r rs
      → Accounted rs (rekey matches new_key rs) r
  rekey-Accounted rs r fresh inj own m = elim (rekey_lem matches new_key fresh r rs m) [
    | inl other ↦ inl other
    | inr (e, (x, inside, same, _)) ↦
        let (q, i, made) = rekey-Origin rs x inside in
        elim made [
          | inl p ↦
              let key : q.key ≡ new_key r = subst (λ y. y.key ≡ new_key r) p same in
              inr (
                e,
                (
                  q,
                  i,
                  inj q e (sym (own q i e key) ∙ key),
                  subst (λ y. In y (rekey matches new_key rs))
                      (p ∙ ap (λ k. record q { key = k }) key) inside,
                ),
              )
          | inr (_, p) ↦
              let key : new_key q ≡ new_key r = subst (λ y. y.key ≡ new_key r) p same in
              inr (
                e,
                (
                  q,
                  i,
                  inj q e key,
                  subst (λ y. In y (rekey matches new_key rs))
                      (p ∙ ap (λ k. record q { key = k }) key) inside,
                ),
              )
        ]
  ]

legacy_tx_fields :
    (r : Row)
    → is_legacy_tx r ≡ true
    → (has_hash r.block_hash ≡ true) × (has_index r.event_index ≡ true)
unfolding is_legacy_tx
legacy_tx_fields r h = ground (arith, h)

legacy_reward_fields :
    (r : Row)
    → is_legacy_reward r ≡ true
    → (has_hash r.block_hash ≡ true) × (has_index r.event_index ≡ true)
unfolding is_legacy_reward
legacy_reward_fields r h = ground (arith, h)

-- The rows that have a key of the new form have the key of their own event.
abbrev pub OwnKeys : Text → (Row → Text) → List Row → Type 0
OwnKeys form new_key rs = (q : Row) → In q rs → like q.key form ≡ true → q.key ≡ new_key q

-- For integers that become texts in decimal, and tables in which a key of the new form is that of the
-- row's own block hash and event index: after the rewrite a transaction, and a reward, with no old key,
-- or without a hash or an index, stands as it was, and for every other a row of the same block hash and
-- event index stands, of which nothing has changed but the key, which is the new one of that event; and
-- every row that stands is one of before, as it was or with its new key.
pub rewrites_account :
    (digits : ℕ → Text) (txs rewards : List Row)
    → Decimal digits
    → OwnKeys (codes "event-0x") (tx_key digits) txs
    → OwnKeys zero_x (reward_key digits) rewards
    → ((r : Row)
        → In r txs
        → Accounted is_legacy_tx (tx_key digits) txs (rewrite_transactions digits txs) r)
      × ((r : Row)
          → In r rewards
          → Accounted is_legacy_reward
              (reward_key digits)
              rewards
              (rewrite_rewards digits rewards)
              r)
      × ((x : Row)
          → In x (rewrite_transactions digits txs)
          → Origin is_legacy_tx (tx_key digits) txs x)
      × ((x : Row)
          → In x (rewrite_rewards digits rewards)
          → Origin is_legacy_reward (reward_key digits) rewards x)
unfolding rewrite_transactions rewrite_rewards
rewrites_account digits txs rewards decimal own_tx own_reward = (
  (λ r m.
      rekey-Accounted is_legacy_tx (tx_key digits) txs r (fresh_tx digits)
        (λ q e.
          let (h, i) = legacy_tx_fields r e in
          slot_of-injective digits decimal (codes "event-") r.block_hash q.block_hash r.event_index
            q.event_index h i)
        (λ q n e key.
          let (h, i) = legacy_tx_fields r e in
          own_tx q n (
            subst (λ k. like k (codes "event-0x") ≡ true) (sym key)
              (tx_slot-like digits r.block_hash r.event_index h i)))
        m),
  (λ r m.
      rekey-Accounted is_legacy_reward (reward_key digits) rewards r (fresh_reward digits)
        (λ q e.
          let (h, i) = legacy_reward_fields r e in
          slot_of-injective digits decimal [] r.block_hash q.block_hash r.event_index q.event_index
            h i)
        (λ q n e key.
          let (h, i) = legacy_reward_fields r e in
          own_reward q n (
            subst (λ k. like k zero_x ≡ true) (sym key)
              (reward_slot-like digits r.block_hash r.event_index h i)))
        m),
  rekey-Origin is_legacy_tx (tx_key digits) txs,
  rekey-Origin is_legacy_reward (reward_key digits) rewards,
)
