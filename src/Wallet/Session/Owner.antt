-- ===== src/Wallet/Session/Owner.antt =====
-- Whose discussion session is on the device, along every sequence of choices and disconnects.
use pdexplorer.Prelude.{
  Option, true, false, not, ◌&&◌, Bool-cases, inl, inr, ◌≡◌, ◌∙◌, refl, sym, ap, none, some, String,
  arith, if◌then◌else◌,
}
use pdexplorer.Wallet.Session.{
  address_key, Storage, Reliable, Addresses, Session, is_blank, connected, select, disconnect,
  choose, forget,
}
use pdexplorer.Wallet.Session.Writes.{get-choose, get-connected, connected_cases}

-- What the two tests of addresses keep to: to be of one account is symmetric and transitive, an address
-- that is not empty is of the account of its Polkadex form, and that form of a valid one is not empty.
pub record Lawful (adr : Addresses) : Type 0 where
  pub same_sym : (a b : String) → adr.is_same a b ≡ true → adr.is_same b a ≡ true
  pub same_trans :
      (a b c : String) → adr.is_same a b ≡ true → adr.is_same b c ≡ true → adr.is_same a c ≡ true
  pub same_form : (a : String) → is_blank a ≡ false → adr.is_same (adr.to_address a) a ≡ true
  pub valid_form : (a : String) → adr.is_valid a ≡ true → is_blank (adr.to_address a) ≡ false

module _ {S : Type 0} (io : Storage S) (adr : Addresses) where
  -- The discussion session, if there is one, is of the account that is connected.
  abbrev Owned : Session S → Type 0
  Owned s =
      (a : String)
      → s.token ≡ some a
      → (is_blank (io.get s.store address_key) ≡ false)
        × (adr.is_same (io.get s.store address_key) a ≡ true)

  -- The same, by the token.
  abbrev pub OwnedBy : Option String → S → Type 0
  OwnedBy none st = Unit
  OwnedBy (some a) st =
      (is_blank (io.get st address_key) ≡ false) × (adr.is_same (io.get st address_key) a ≡ true)

  Owned-OwnedBy : (o : Option String) (s : Session S) → s.token ≡ o → Owned s → OwnedBy o s.store
  Owned-OwnedBy none s e own = tt
  Owned-OwnedBy (some a) s e own = own a e

  -- What a page does: it looks, chooses, disconnects, or signs in to the discussions.
  pub data Move : Session S → Session S → Type 0 where
    look : (s : Session S) → Move s (record s { store = (connected io adr s.store).1 })
    choice : (address src : String) (s : Session S) → Move s (select io adr address src s).0
    leave : (s : Session S) → Move s (disconnect io adr s).0
    sign_in :
        (s : Session S)
        → is_blank (connected io adr s.store).0 ≡ false
        → Move s (record s {
          store = (connected io adr s.store).1;
          token = some (connected io adr s.store).0;
        })

  pub data Moves (s : Session S) : Session S → Type 0 where
    here : Moves s s
    next : {t u : Session S} → Moves s t → Move t u → Moves s u

  pub select_rejected :
      (address src : String) (s : Session S)
      → adr.is_valid address ≡ false
      → (select io adr address src s).0 ≡ record s { store = (connected io adr s.store).1 }
  unfolding select
  select_rejected address src s h = rw h refl

  pub select_fields :
      (address src : String) (s : Session S)
      → adr.is_valid address ≡ true
      → ((select io adr address src s).0.store
          ≡ choose io adr (adr.to_address address) src (connected io adr s.store).1)
        × ((select io adr address src s).0.token ≡ (
            if not (is_blank (connected io adr s.store).0)
              && not (adr.is_same (connected io adr s.store).0 (adr.to_address address))
            then none
            else s.token))
  unfolding select
  select_fields address src s h = ground (arith, h)

  pub disconnect_fields :
      (s : Session S)
      → ((disconnect io adr s).0.store ≡ forget io adr (connected io adr s.store).1)
        × ((disconnect io adr s).0.token ≡ none)
  unfolding disconnect
  disconnect_fields s = ground arith

module _ {S : Type 0} (io : Storage S) (adr : Addresses) (good : Reliable io)
    (law : Lawful adr) where
  look_keeps :
      (s : Session S) (a : String)
      → Owned io adr s
      → s.token ≡ some a
      → (is_blank (connected io adr s.store).0 ≡ false)
        × (adr.is_same (connected io adr s.store).0 a ≡ true)
  look_keeps s a own t =
      let v = io.get s.store address_key in
      let (full, same) = own a t in
      elim (connected_cases io adr good s.store) [
        | inl e ↦ rw e (full, same)
        | inr (e, _, kept) ↦
            (kept, rw e (law.same_trans (adr.to_address v) v a (law.same_form v full) same))
      ]

  look-Owned :
      (s : Session S)
      → Owned io adr s
      → Owned io adr (record s { store = (connected io adr s.store).1 })
  look-Owned s own a t = rw (get-connected io adr good s.store).0 (look_keeps s a own t)

  select-Owned :
      (address src : String) (s : Session S)
      → adr.is_valid address ≡ true
      → Owned io adr s
      → Owned io adr (select io adr address src s).0
  select-Owned address src s valid own a t =
      let (stored, token) = select_fields io adr address src s valid in
      let next = adr.to_address address in
      let c = (connected io adr s.store).0 in
      let now = get-choose io adr good next src (connected io adr s.store).1 in
      let kept = sym token ∙ t in
      rw (stored, now.0)
        (
          law.valid_form address valid,
          elim (Bool-cases (not (is_blank c) && not (adr.is_same c next))) [
            | inl e ↦ absurd (ground (arith, ap (λ b. if b then none else s.token) (sym e) ∙ kept))
            | inr e ↦
                let (full, same) =
                  look_keeps s a own (ap (λ b. if b then none else s.token) (sym e) ∙ kept) in
                law.same_trans next c a (law.same_sym c next (ground (arith, full, e))) same
          ],
        )

  Move-Owned : {s t : Session S} → Move io adr s t → Owned io adr s → Owned io adr t
  Move-Owned (look s) own = look-Owned s own
  Move-Owned (choice address src s) own = elim (Bool-cases (adr.is_valid address)) [
    | inl e ↦ select-Owned address src s e own
    | inr e ↦ rw (select_rejected io adr address src s e) (look-Owned s own)
  ]
  Move-Owned (leave s) own = λ a t. absurd (ground (arith, sym (disconnect_fields io adr s).1 ∙ t))
  Move-Owned (sign_in s full) own = λ a t.
      let c = (connected io adr s.store).0 in
      let same = ap (λ o. elim o [ none ↦ c | some b ↦ b ]) t in
      let form = law.same_form c full in
      rw ((get-connected io adr good s.store).0, sym same)
        (full, law.same_trans c (adr.to_address c) c (law.same_sym (adr.to_address c) c form) form)

  Moves-keep : {s t : Session S} → s.token ≡ none → Moves io adr s t → Owned io adr t
  Moves-keep fresh here = λ a t. absurd (ground (arith, sym fresh ∙ t))
  Moves-keep fresh (next ms m) = Move-Owned m (Moves-keep fresh ms)

  -- With a storage that takes every write and lawful tests of addresses, from a session without a token,
  -- whatever the page does: a discussion session on the device is of the account that is connected.
  pub Moves-OwnedBy :
      (s t : Session S) → s.token ≡ none → Moves io adr s t → OwnedBy io adr t.token t.store
  Moves-OwnedBy s t fresh ms = Owned-OwnedBy io adr t.token t refl (Moves-keep fresh ms)
