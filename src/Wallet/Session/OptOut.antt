-- ===== src/Wallet/Session/OptOut.antt =====
-- How long a disconnect lasts, and what a choice leaves.
use pdexplorer.Prelude.{true, false, not, ◌&&◌, ◌≡◌, ◌∙◌, refl, ap, String, str_eq, eq_iff, arith}
use pdexplorer.Wallet.Session.{
  address_key, disconnected_key, Storage, Reliable, Addresses, Session, is_blank, connected, source,
  last_used, is_disconnected, may_auto_pick, select, disconnect, choose,
}
use pdexplorer.Wallet.Session.Writes.{get-choose, get-forget}
use pdexplorer.Wallet.Session.Owner.{select_rejected, select_fields, disconnect_fields}

module _ {S : Type 0} (io : Storage S) (adr : Addresses) where
  -- What a page does without a valid choice: it looks, tries an address that cannot be chosen, or
  -- disconnects again.
  pub data Idle : Session S → Session S → Type 0 where
    idle_look : (s : Session S) → Idle s (record s { store = (connected io adr s.store).1 })
    idle_try :
        (address src : String) (s : Session S)
        → adr.is_valid address ≡ false
        → Idle s (select io adr address src s).0
    idle_leave : (s : Session S) → Idle s (disconnect io adr s).0

  pub data Idles (s : Session S) : Session S → Type 0 where
    idle_here : Idles s s
    idle_next : {t u : Session S} → Idles s t → Idle t u → Idles s u

  abbrev OptedOut : Session S → Type 0
  OptedOut s = (io.get s.store address_key ≡ "") × (io.get s.store disconnected_key ≡ "1")

  connected_out : (st : S) → io.get st address_key ≡ "" → connected io adr st ≡ ("", st)
  unfolding connected
  connected_out st h = rw h refl

  -- Nothing is connected, and the page may not pick an account by itself.
  abbrev pub StaysOut : S → Type 0
  StaysOut st =
      ((connected io adr st).0 ≡ "")
      × (is_disconnected io adr st ≡ true)
      × ((may_auto_pick io adr st).0 ≡ false)

  OptedOut-StaysOut : (s : Session S) → OptedOut s → StaysOut s.store
  unfolding may_auto_pick is_disconnected
  OptedOut-StaysOut s (a, d) =
      let look = connected_out s.store a in
      let out = ap (λ v. str_eq v "1") d in
      (
        ap (λ x. x.0) look,
        out,
        ap (λ x. is_blank x.0 && not (is_disconnected io adr x.1)) look ∙ ap not out,
      )

  connected_form :
      (st : S) (n : String)
      → io.get st address_key ≡ n
      → is_blank n ≡ false
      → adr.to_address n ≡ n
      → (connected io adr st).0 ≡ n
  unfolding connected
  connected_form st n h full form = rw (h, full, form) ground (arith, full, eq_iff n n)

module _ {S : Type 0} (io : Storage S) (adr : Addresses) (good : Reliable io) where
  disconnect-OptedOut : (s : Session S) → OptedOut io adr (disconnect io adr s).0
  disconnect-OptedOut s =
      let (adr_gone, _, _, out) = get-forget io adr good (connected io adr s.store).1 in
      rw (disconnect_fields io adr s).0 (adr_gone, out)

  look-OptedOut :
      (s : Session S)
      → OptedOut io adr s
      → OptedOut io adr (record s { store = (connected io adr s.store).1 })
  look-OptedOut s (a, d) = rw (connected_out io adr s.store a) (a, d)

  Idle-OptedOut : {s t : Session S} → Idle io adr s t → OptedOut io adr s → OptedOut io adr t
  Idle-OptedOut (idle_look s) o = look-OptedOut s o
  Idle-OptedOut (idle_try address src s bad) o =
      rw (select_rejected io adr address src s bad) (look-OptedOut s o)
  Idle-OptedOut (idle_leave s) o = disconnect-OptedOut s

  Idles-OptedOut : {s t : Session S} → Idles io adr s t → OptedOut io adr s → OptedOut io adr t
  Idles-OptedOut idle_here o = o
  Idles-OptedOut (idle_next is i) o = Idle-OptedOut i (Idles-OptedOut is o)

  -- With a storage that takes every write: after a disconnect, however often the page looks, tries an
  -- address that cannot be chosen or disconnects again, nothing is connected and the page may not pick
  -- an account by itself.
  pub disconnect_sticks :
      (s t : Session S) → Idles io adr (disconnect io adr s).0 t → StaysOut io adr t.store
  disconnect_sticks s t is = OptedOut-StaysOut io adr t (Idles-OptedOut is (disconnect-OptedOut s))

  -- With a storage that takes every write, and where the Polkadex form of the address is not empty and
  -- its own Polkadex form: after the choice of a valid address, its form is connected and last used,
  -- its source is stored, and the opt-out is lifted, whatever the session was before.
  pub select_connects :
      (address src : String) (s : Session S)
      → adr.is_valid address ≡ true
      → is_blank (adr.to_address address) ≡ false
      → adr.to_address (adr.to_address address) ≡ adr.to_address address
      → ((connected io adr (select io adr address src s).0.store).0 ≡ adr.to_address address)
        × (last_used io adr (select io adr address src s).0.store ≡ adr.to_address address)
        × (source io adr (select io adr address src s).0.store ≡ src)
        × (is_disconnected io adr (select io adr address src s).0.store ≡ false)
  unfolding last_used source is_disconnected
  select_connects address src s valid full form =
      let stored = (select_fields io adr address src s valid).0 in
      let next = adr.to_address address in
      let (here, used, from, out) = get-choose io adr good next src (connected io adr s.store).1 in
      rw stored (
        connected_form io adr (choose io adr next src (connected io adr s.store).1) next here full
            form,
        used,
        from,
        ap (λ v. str_eq v "1") out,
      )
