-- ===== src/Feeds/TxPage/Complete.antt =====
-- Pages of `planTxPage` that follow one another return every transfer once, in order.
use pdexplorer.Prelude.{
  take-append_le, ℕ, zero, suc, ◌+◌, ◌-◌, ◌≤◌, ◌<◌, ◌≡◌, refl, sym, ap, ◌∙◌, inl, inr, Option, none,
  some, List, [], ◌∷◌, ◌++◌, take, drop, length, length-append, ltb, ◌==◌, arith, Bool-cases,
}
use mathlib.Core.List.{append_assoc, append-nil}
use pdexplorer.Feeds.TxPage.{BlockRows, Resume, TxPage, start_at, page_loop}
use pdexplorer.Feeds.TxPage.Rounds.{
  pending, Descending, below, Fits, filter_by-below, pending-below, take-append_ge, drop-append_le,
  drop-append_ge, drop-drop, drop-nil, page_loop_full, page_loop_stop, page_loop_next,
}

-- A cursor that is there is at most `n`.
abbrev pub AtMost : Option ℕ → ℕ → Type 0
AtMost none n = Unit
AtMost (some m) n = m ≤ n

-- How a page with `room` for more meets a block of `size` rows.
pub data Meets (room size : ℕ) : Type 0 where
  full : room < size → Meets room size
  stop : room ≡ size → Meets room size
  next : (m : ℕ) → room ≡ size + suc m → Meets room size

pub meets : (room size : ℕ) → Meets room size
meets room size = elim (Bool-cases (ltb room size)) [
  | inl e ↦ full (ground arith)
  | inr e ↦ elim (Bool-cases (room == size)) [
    | inl same ↦ stop (ground arith)
    | inr more ↦ next (room - size - 1) (ground arith)
  ]
]

Fits-weaken : (skip : Option Resume) (m n : ℕ) → Fits skip n → m ≤ n → Fits skip m
Fits-weaken none m n f h = tt
Fits-weaken (some s) m n f h = omega arith

AtMost-weaken : (o : Option ℕ) (m n : ℕ) → AtMost o m → m ≤ n → AtMost o n
AtMost-weaken none m n l h = tt
AtMost-weaken (some k) m n l h = omega arith

module _ {A : Type 0} where
  pub page_loop-takes :
      (cap room : ℕ) (skip : Option Resume) (rows : List (BlockRows A)) (emitted : List A)
      (last : Option ℕ)
      → length emitted + room ≡ cap
      → (page_loop cap skip rows emitted last).emitted ≡ emitted ++ take room (pending skip rows)
  unfolding page_loop
  page_loop-takes cap zero skip [] emitted last h = sym (append-nil emitted)
  page_loop-takes cap (suc room) skip [] emitted last h = sym (append-nil emitted)
  page_loop-takes cap room skip (b ∷ rows) emitted last h =
      let rest : List A = drop (start_at skip b.block_number) b.transactions in
      elim (meets room (length rest)) [
        | full more ↦
            rw (page_loop_full cap skip b rows emitted last room h more)
              (ap (emitted ++◌) (sym (take-append_le room rest (pending skip rows) (omega arith))))
        | stop same ↦ rw (page_loop_stop cap skip b rows emitted last room h same) (
            ap (emitted ++◌) (
              sym (take-append_ge room 0 rest (pending skip rows) (omega arith) ∙ append-nil rest)))
        | next m same ↦ rw (page_loop_next cap skip b rows emitted last room m h same) (
            page_loop-takes cap (suc m) skip rows (emitted ++ rest) (some b.block_number)
              (omega (arith, length-append emitted rest))
            ∙ append_assoc emitted rest (take (suc m) (pending skip rows))
            ∙ ap (emitted ++◌) (sym (take-append_ge room (suc m) rest (pending skip rows) same)))
      ]

  below-cons :
      (o : Option ℕ) (b : BlockRows A) (rows : List (BlockRows A))
      → AtMost o b.block_number
      → below o (b ∷ rows) ≡ below o rows
  below-cons none b rows h = refl
  below-cons (some n) b rows h = ground arith

  -- A page that ends inside a block is taken up again behind its last row.
  full_rest :
      (room : ℕ) (skip : Option Resume) (b : BlockRows A) (rows : List (BlockRows A))
      → Descending b.block_number rows
      → Fits skip (b.block_number + 1)
      → room ≤ length (drop (start_at skip b.block_number) b.transactions)
      → pending
          (some (record { block = b.block_number; count = start_at skip b.block_number + room }))
          (b ∷ rows)
        ≡ drop room (drop (start_at skip b.block_number) b.transactions ++ pending skip rows)
  full_rest room skip b rows d f h = ground (
    arith,
    pending-below
        (some (record { block = b.block_number; count = start_at skip b.block_number + room }))
        b.block_number rows d (omega arith),
    pending-below skip b.block_number rows d f,
    drop-append_le room (drop (start_at skip b.block_number) b.transactions) (pending skip rows) h,
    drop-drop (start_at skip b.block_number) room (start_at skip b.block_number + room)
        b.transactions refl,
  )

  -- What the next page will return, and that its cursor is within the block range.
  pub page_loop-leaves :
      (cap room n : ℕ) (skip : Option Resume) (rows : List (BlockRows A)) (emitted : List A)
      (last : Option ℕ)
      → Descending n rows
      → Fits skip n
      → AtMost last n
      → length emitted + room ≡ cap
      → (pending
            (page_loop cap skip rows emitted last).resume_in_block
            (below (page_loop cap skip rows emitted last).next_before_block rows)
          ≡ drop room (pending skip rows))
        × AtMost (page_loop cap skip rows emitted last).next_before_block n
  unfolding page_loop
  page_loop-leaves cap room n skip [] emitted none d f l h = (sym (drop-nil room), tt)
  page_loop-leaves cap room n skip [] emitted (some k) d f l h = (sym (drop-nil room), l)
  page_loop-leaves cap room n skip (b ∷ rows) emitted last d f l h =
      let rest : List A = drop (start_at skip b.block_number) b.transactions in
      let fits : Fits skip (b.block_number + 1) =
        Fits-weaken skip (b.block_number + 1) n f (omega (arith, d.0)) in
      elim (meets room (length rest)) [
        | full more ↦ rw (page_loop_full cap skip b rows emitted last room h more) (
          ap
                (pending (
                  some (record {
                    block = b.block_number;
                    count = start_at skip b.block_number + room;
                  })))
                (filter_by-below (b.block_number + 1) (b.block_number + 1) (b ∷ rows)
                  (omega arith, d.1) (omega arith))
              ∙ full_rest room skip b rows d.1 fits (omega arith),
          omega (arith, d.0),
        )
        | stop same ↦ rw (page_loop_stop cap skip b rows emitted last room h same) (
          ap (pending none) (
                below-cons (some b.block_number) b rows (omega arith)
                ∙ filter_by-below b.block_number b.block_number rows d.1 (omega arith))
              ∙ sym (pending-below skip b.block_number rows d.1 fits)
              ∙ sym (drop-append_ge room 0 rest (pending skip rows) (omega arith)),
          omega (arith, d.0),
        )
        | next m same ↦ rw (page_loop_next cap skip b rows emitted last room m h same) (
            let (same_rest, le) =
              page_loop-leaves cap (suc m) b.block_number skip rows (emitted ++ rest)
                (some b.block_number) d.1 (Fits-weaken skip b.block_number n f (omega (arith, d.0)))
                (omega arith) (omega (arith, length-append emitted rest)) in
            let q : TxPage A = page_loop cap skip rows (emitted ++ rest) (some b.block_number) in
            (
              ap (pending q.resume_in_block) (below-cons q.next_before_block b rows le)
                  ∙ same_rest
                  ∙ sym (drop-append_ge room (suc m) rest (pending skip rows) same),
              AtMost-weaken q.next_before_block b.block_number n le (omega (arith, d.0)),
            ))
      ]
