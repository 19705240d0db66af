-- ===== src/Wallet/Session/Signing.antt =====
-- The account to sign with, and the order in which the extensions are tried.
use pdexplorer.Prelude.{
  Bool, true, false, not, ◌&&◌, Option-cases, inl, inr, ◌↔◌, ◌≡◌, refl, ap, none, some, List, [],
  ◌∷◌, String, str_eq, eq_iff, arith, In, filter_by, filter_by-In, In-filter_by, find, find-In,
  find-none, any, get_elem?,
}
use pdexplorer.Wallet.Session.{Account, pick_signing_account, order_sources, is_blank, first_or}

first_left :
    (p : Account → Bool) (b : Account) (xs : List Account)
    → In b xs
    → p b ≡ false
    → find p xs ≡ none
    → (a : Account) × (first_or (find p xs) xs ≡ some a) × In a xs × (p b ≡ true → p a ≡ true)
first_left p b [] m bad e = elim m [ ]
first_left p b (x ∷ xs) m bad e =
    (x, ap (λ o. first_or o (x ∷ xs)) e, inl refl, λ h. absurd (ground (arith, h, bad)))

first_or-In :
    (p : Account → Bool) (b : Account) (xs : List Account)
    → In b xs
    → (a : Account) × (first_or (find p xs) xs ≡ some a) × In a xs × (p b ≡ true → p a ≡ true)
first_or-In p b xs m = elim (Option-cases (find p xs)) [
  | inr (a, e) ↦ (a, ap (λ o. first_or o xs) e, (find-In p a xs e).0, λ h. (find-In p a xs e).1)
  | inl e ↦ first_left p b xs m (find-none p b xs e m) e
]

-- Wherever an account of the list is of the address, one is picked: an account of the list and of the
-- address, and one of the preferred extension where that holds an account of the address.
pub pick_signing_account_lem :
    (accounts : List Account) (address preferred : String) (is_same : String → String → Bool)
    (b : Account)
    → In b accounts
    → is_same b.account_address address ≡ true
    → (a : Account) × (pick_signing_account accounts address preferred is_same ≡ some a)
      × In a accounts
      × (is_same a.account_address address ≡ true)
      × (is_blank preferred ≡ false → b.account_source ≡ preferred → a.account_source ≡ preferred)
unfolding pick_signing_account
pick_signing_account_lem accounts address preferred is_same b m h =
    let p : Account → Bool = λ a. not (is_blank preferred) && str_eq a.account_source preferred in
    let q : Account → Bool = λ a. is_same a.account_address address in
    let (a, found, inside, best) =
      first_or-In p b (filter_by q accounts) (In-filter_by q b accounts m h) in
    let (kept, same) = filter_by-In q a accounts inside in
    (
      a,
      found,
      kept,
      same,
      λ full src. ground (
        arith,
        best,
        full,
        src,
        eq_iff b.account_source preferred,
        eq_iff a.account_source preferred,
      ),
    )

any_iff :
    (preferred : String) (keys : List String)
    → (any (λ k. str_eq k preferred) keys ≡ true) ↔ In preferred keys
any_iff preferred [] = ground arith
any_iff preferred (k ∷ keys) =
    ground (arith, any_iff preferred keys, eq_iff k preferred, eq_iff preferred k)

-- The extensions to try are those that there are, the preferred one first where there is one.
pub order_sources_lem :
    (keys : List String) (preferred k : String)
    → (In k (order_sources keys preferred) ↔ In k keys)
      × (In preferred keys
          → is_blank preferred ≡ false
          → get_elem? (order_sources keys preferred) 0 ≡ some preferred)
unfolding order_sources
order_sources_lem keys preferred k =
    let (to, from) = any_iff preferred keys in
    let present : String → Bool = λ l. not (str_eq l preferred) in
    ground (
      arith,
      to,
      from,
      In-filter_by present k keys,
      filter_by-In present k keys,
      eq_iff k preferred,
    )
