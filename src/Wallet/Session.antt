-- ===== src/Wallet/Session.antt =====
-- lib/wallet-session.js: who is connected, and what it takes to change that.
pub mod Writes
pub mod Owner
pub mod OptOut
pub mod Signing
use pdexplorer.Prelude.{
  ℕ, Bool, true, false, not, ◌&&◌, ◌||◌, Option, none, some, List, [], ◌∷◌, ◌++◌, String, str_eq,
  ◌==◌, ◌≡◌, find, any, filter_by, if◌then◌else◌,
}

-- `WALLET_KEYS`
pub data Key : Type 0 where
  address_key last_used_key source_key disconnected_key : Key

abbrev pub key_index : Key → ℕ
key_index address_key = 0
key_index last_used_key = 1
key_index source_key = 2
key_index disconnected_key = 3

-- The storage behind `safeGet`, `safeSet` and `safeDel`: a read that throws or finds nothing gives the
-- empty text, and a write that throws leaves the storage as it was.
pub record Storage (S : Type 0) : Type 0 where
  pub get : S → Key → String
  pub set : S → Key → String → S
  pub remove : S → Key → S

-- A storage that takes every write.
pub record Reliable {S : Type 0} (io : Storage S) : Type 0 where
  pub get-set :
      (st : S) (k : Key) (v : String) (l : Key)
      → io.get (io.set st k v) l ≡ (if key_index k == key_index l then v else io.get st l)
  pub get-remove :
      (st : S) (k : Key) (l : Key)
      → io.get (io.remove st k) l ≡ (if key_index k == key_index l then "" else io.get st l)

-- The addresses: the Polkadex form of one, whether two are of one account, whether one can be chosen.
pub record Addresses : Type 0 where
  pub to_address : String → String
  pub is_same : String → String → Bool
  pub is_valid : String → Bool

pub data Reason : Type 0 where
  by_select by_disconnect : Reason

-- What `onChange` is told.
pub record Change : Type 0 where
  pub change_previous : String
  pub change_current : String
  pub reason : Reason

-- `token` is the address that the discussion session on this device belongs to; `revokeDiscuss` clears
-- it. `changes` are the calls of `onChange`, the newest last.
pub record Session (S : Type 0) : Type 0 where
  pub store : S
  pub token : Option String
  pub changes : List Change

-- What `select` and `disconnect` answer.
pub record Answer : Type 0 where
  pub changed : Bool
  pub previous : String
  pub rejected : Bool

abbrev pub is_blank : String → Bool
is_blank s = str_eq s ""

module _ {S : Type 0} (io : Storage S) (adr : Addresses) where
  -- The address in Polkadex form, written back where it was stored in another.
  unfoldable pub connected : S → String × S
  connected st =
      let v = io.get st address_key in
      if is_blank v
      then ("", st)
      else let pdex = adr.to_address v in
        if not (is_blank pdex) && not (str_eq pdex v)
        then (pdex, io.set st address_key pdex)
        else (v, st)

  unfoldable pub source : S → String
  source st = io.get st source_key

  unfoldable pub last_used : S → String
  last_used st = io.get st last_used_key

  unfoldable pub is_disconnected : S → Bool
  is_disconnected st = str_eq (io.get st disconnected_key) "1"

  unfoldable pub may_auto_pick : S → Bool × S
  may_auto_pick st =
      let (c, after) = connected st in (is_blank c && not (is_disconnected after), after)

  abbrev revoke_discuss : Session S → Session S
  revoke_discuss s = record s { token = none }

  abbrev on_change : Change → Session S → Session S
  on_change c s = record s { changes = s.changes ++ c ∷ [] }

  -- A typed-in address has no source.
  abbrev pub keep_source : Bool → String → S → S
  keep_source true src st = io.remove st source_key
  keep_source false src st = io.set st source_key src

  -- The writes of a choice, in their order.
  abbrev pub choose : String → String → S → S
  choose next src st =
      let st2 = keep_source (is_blank src) src (io.set st address_key next) in
      io.remove (io.set st2 last_used_key next) disconnected_key

  unfoldable pub select : String → String → Session S → Session S × Answer
  select address src s =
      let (prev, st) = connected s.store in
      let s0 = record s { store = st } in
      if not (adr.is_valid address)
      then (s0, record { changed = false; previous = prev; rejected = true })
      else let next = adr.to_address address in
        let other = not (adr.is_same prev next) in
        let differs = is_blank prev || other || not (str_eq src (source st)) in
        let s1 = if not (is_blank prev) && other then revoke_discuss s0 else s0 in
        let s2 = record s1 { store = choose next src s1.store } in
        let s3 =
          if differs
          then on_change
              (record { change_previous = prev; change_current = next; reason = by_select }) s2
          else s2 in
        (s3, record { changed = differs; previous = prev; rejected = false })

  abbrev pub forget : S → S
  forget st =
      io.set (io.remove (io.remove (io.remove st address_key) source_key) last_used_key)
        disconnected_key "1"

  unfoldable pub disconnect : Session S → Session S × Answer
  disconnect s =
      let (prev, st) = connected s.store in
      let s1 = revoke_discuss (record s { store = st }) in
      let s2 = record s1 { store = forget s1.store } in
      let s3 =
        if is_blank prev
        then s2
        else on_change
            (record { change_previous = prev; change_current = ""; reason = by_disconnect }) s2 in
      (s3, record { changed = not (is_blank prev); previous = prev; rejected = false })

-- An account of an extension.
pub record Account : Type 0 where
  pub account_address : String
  pub account_source : String

abbrev pub first_or : Option Account → List Account → Option Account
first_or (some a) rest = some a
first_or none [] = none
first_or none (a ∷ rest) = some a

-- An entry that is missing from the list of accounts is left out.
unfoldable pub pick_signing_account :
    List Account → String → String → (String → String → Bool) → Option Account
pick_signing_account accounts address preferred is_same =
    let found = filter_by (λ a. is_same a.account_address address) accounts in
    first_or (find (λ a. not (is_blank preferred) && str_eq a.account_source preferred) found) found

unfoldable pub order_sources : List String → String → List String
order_sources keys preferred =
    if is_blank preferred || not (any (λ k. str_eq k preferred) keys)
    then keys
    else preferred ∷ filter_by (λ k. not (str_eq k preferred)) keys
