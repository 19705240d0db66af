-- ===== src/Tests/Session.antt =====
-- Runs of the session of the wallet, with a storage that is a function of its keys.
use pdexplorer.Prelude.{
  not, ◌&&◌, true, inl, inr, Bool-cases, subst, arith, some, false, ◌≡◌, refl, sym, ap, ◌∙◌, none,
  [], String, str_eq, eq_iff, ◌==◌, if◌then◌else◌,
}
use pdexplorer.Wallet.Session.{
  Key, key_index, Storage, Reliable, Addresses, Session, select, disconnect, connected, is_blank,
}
use pdexplorer.Wallet.Session.Owner.{Lawful, choice, here, next, OwnedBy, sign_in, Moves-OwnedBy}

abbrev keys : Storage (Key → String)
keys = record {
  get = λ st k. st k;
  set = λ st k v l. if key_index k == key_index l then v else st l;
  remove = λ st k l. if key_index k == key_index l then "" else st l;
}

keys-Reliable : Reliable keys
keys-Reliable = record { get-set = λ st k v l. refl; get-remove = λ st k l. refl }

-- Every address has one form, an empty one is of no account, and only the address 5F is valid.
abbrev plain : Addresses
plain = record {
  to_address = λ a. a;
  is_same = λ a b. not (is_blank a) && str_eq a b;
  is_valid = λ a. str_eq a "5F";
}

full_same : (a b : String) → is_blank a ≡ false → a ≡ b → plain.is_same a b ≡ true
full_same a b full e = rw (full, (eq_iff a b).1 e) refl

same_full : (a b : String) → plain.is_same a b ≡ true → (is_blank a ≡ false) × (a ≡ b)
same_full a b h = elim (Bool-cases (is_blank a)) [
  | inl e ↦ absurd (ground (arith, rw e at h))
  | inr e ↦ (e, (eq_iff a b).0 (rw e at h))
]

valid_full : (a : String) → a ≡ "5F" → is_blank a ≡ false
valid_full a h = ap (λ s. is_blank s) h

plain-Lawful : Lawful plain
plain-Lawful = record {
  same_sym = λ a b h.
      let (full, e) = same_full a b h in
      full_same b a (subst (λ s. is_blank s ≡ false) e full) (sym e);
  same_trans =
      λ a b c h k. let (full, e) = same_full a b h in full_same a c full (e ∙ (same_full b c k).1);
  same_form = λ a full. full_same a a full refl;
  valid_form = λ a h. valid_full a ((eq_iff a "5F").0 h);
}

abbrev first : Session (Key → String)
first = record { store = λ k. ""; token = none; changes = [] }

abbrev chosen : Session (Key → String)
chosen = (select keys plain "5F" "" first).0

abbrev out : Session (Key → String)
out = (disconnect keys plain chosen).0

-- Signed in to the discussions with the account that was chosen.
abbrev signed : Session (Key → String)
signed = record chosen {
  store = (connected keys plain chosen.store).1;
  token = some (connected keys plain chosen.store).0;
}

was_connected : is_blank (connected keys plain chosen.store).0 ≡ false
unfolding connected select
was_connected = refl

Moves-OwnedBy_example : OwnedBy keys plain signed.token signed.store
Moves-OwnedBy_example =
    Moves-OwnedBy keys plain keys-Reliable plain-Lawful first signed refl
      (next (next here (choice "5F" "" first)) (sign_in chosen was_connected))

abbrev looked : Session (Key → String)
looked = record out { store = (connected keys plain out.store).1 }
