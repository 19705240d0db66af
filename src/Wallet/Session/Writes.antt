-- ===== src/Wallet/Session/Writes.antt =====
-- What the storage holds after the writes of a choice, of a disconnect and of a look.
use pdexplorer.Prelude.{
  Bool, true, false, ◌≡◌, ◌∙◌, refl, sym, ap, ◌⊎◌, String, eq_iff, arith, ◌==◌, if◌then◌else◌,
}
use pdexplorer.Wallet.Session.{
  Key, address_key, last_used_key, source_key, disconnected_key, key_index, Storage, Reliable,
  Addresses, is_blank, connected, keep_source, choose, forget,
}

pub is_blank_iff : (s : String) → is_blank s ≡ true → s ≡ ""
is_blank_iff s h = ground (arith, eq_iff s "")

module _ {S : Type 0} (io : Storage S) (adr : Addresses) (good : Reliable io) where
  get-keep_source :
      (b : Bool) (src : String) (st : S)
      → is_blank src ≡ b
      → (io.get (keep_source io adr b src st) source_key ≡ src)
        × (io.get (keep_source io adr b src st) address_key ≡ io.get st address_key)
  get-keep_source true src st h = (
    good.get-remove st source_key source_key ∙ sym (is_blank_iff src h),
    good.get-remove st source_key address_key,
  )
  get-keep_source false src st h =
      (good.get-set st source_key src source_key, good.get-set st source_key src address_key)

  -- The last two writes of a choice.
  settled :
      (next : String) (st : S) (k : Key)
      → io.get (io.remove (io.set st last_used_key next) disconnected_key) k ≡ (
          if key_index disconnected_key == key_index k
          then ""
          else if key_index last_used_key == key_index k
          then next
          else io.get st k)
  settled next st k =
      good.get-remove (io.set st last_used_key next) disconnected_key k
      ∙ ap (λ v. if key_index disconnected_key == key_index k then "" else v)
          (good.get-set st last_used_key next k)

  pub get-choose :
      (next src : String) (st : S)
      → (io.get (choose io adr next src st) address_key ≡ next)
        × (io.get (choose io adr next src st) last_used_key ≡ next)
        × (io.get (choose io adr next src st) source_key ≡ src)
        × (io.get (choose io adr next src st) disconnected_key ≡ "")
  get-choose next src st =
      let st1 = io.set st address_key next in
      let st2 = keep_source io adr (is_blank src) src st1 in
      let (src_kept, adr_kept) = get-keep_source (is_blank src) src st1 refl in
      (
        settled next st2 address_key ∙ adr_kept ∙ good.get-set st address_key next address_key,
        settled next st2 last_used_key,
        settled next st2 source_key ∙ src_kept,
        settled next st2 disconnected_key,
      )

  gone :
      (st : S) (k : Key)
      → io.get (forget io adr st) k ≡ (
          if key_index disconnected_key == key_index k
          then "1"
          else if key_index last_used_key == key_index k
          then ""
          else if key_index source_key == key_index k
          then ""
          else io.get (io.remove st address_key) k)
  gone st k =
      good.get-set (io.remove (io.remove (io.remove st address_key) source_key) last_used_key)
        disconnected_key "1" k
      ∙ ap (λ v. if key_index disconnected_key == key_index k then "1" else v)
          (good.get-remove (io.remove (io.remove st address_key) source_key) last_used_key k
            ∙ ap (λ v. if key_index last_used_key == key_index k then "" else v)
                (good.get-remove (io.remove st address_key) source_key k))

  pub get-forget :
      (st : S)
      → (io.get (forget io adr st) address_key ≡ "")
        × (io.get (forget io adr st) last_used_key ≡ "")
        × (io.get (forget io adr st) source_key ≡ "")
        × (io.get (forget io adr st) disconnected_key ≡ "1")
  get-forget st = (
    gone st address_key ∙ good.get-remove st address_key address_key,
    gone st last_used_key,
    gone st source_key,
    gone st disconnected_key,
  )

  -- A look leaves what it answers, and the other keys.
  pub get-connected :
      (st : S)
      → (io.get (connected io adr st).1 address_key ≡ (connected io adr st).0)
        × (io.get (connected io adr st).1 disconnected_key ≡ io.get st disconnected_key)
  unfolding connected
  get-connected st =
      let v = io.get st address_key in
      let pdex = adr.to_address v in
      ground (
        arith,
        good.get-set st address_key pdex address_key,
        good.get-set st address_key pdex disconnected_key,
        is_blank_iff v,
      )

  -- What a look answers: nothing stored, or the address that is stored, or its Polkadex form.
  pub connected_cases :
      (st : S)
      → ((connected io adr st).0 ≡ io.get st address_key)
        ⊎ ((connected io adr st).0 ≡ adr.to_address (io.get st address_key))
          × (is_blank (io.get st address_key) ≡ false)
          × (is_blank (connected io adr st).0 ≡ false)
  unfolding connected
  connected_cases st = ground (arith, is_blank_iff (io.get st address_key))
