-- ===== src/Discussions/Reconcile/Referenda.antt =====
-- What `reconcileReferendumThreads` makes of a thread: the reads of its id, one after the other, and
-- no other read.
use mathlib.Core.Option
use pdexplorer.Prelude.{
  ℕ, ◌≡◌, refl, sym, ◌∙◌, ◌⊎◌, inl, inr, Bool, true, false, not, Option, none, some, List, [], ◌∷◌,
  String, str_eq, eq_iff, if◌then◌else◌, Bool-cases, In, arith,
}
use pdexplorer.Discussions.Table.{referendum, Threads, opened, closed}
use pdexplorer.Discussions.Table.Standings.{Standing, standing, get_thread-close}
use pdexplorer.Discussions.Reconcile.{
  RefRead, Changes, referendum_close_reason, end_referendum, Item, read_state, read_referendum,
  read_referenda, reconcile_referendum_threads, no_changes,
}
use pdexplorer.Discussions.Reconcile.Step.{listed, standing-keep_item}
use pdexplorer.Discussions.Reconcile.Exact.{shut}

-- What a read of its own makes of a thread.
abbrev pub moved : Bool → Option String → Option Standing → Option Standing
moved trusted none o = some (listed referendum trusted o)
moved trusted (some reason) o = if trusted then Option.map (shut reason) o else o

-- The reads of one id, in order.
pub evolved : Bool → String → List RefRead → Option Standing → Option Standing
evolved trusted j [] o = o
evolved trusted j (r ∷ rs) o =
    evolved trusted j rs
      (if str_eq r.item.id j then moved trusted (referendum_close_reason r.state) o else o)

standing-end_referendum :
    (now : ℕ) (id reason j : String) (ts : Threads) (out : Changes)
    → standing j (end_referendum now id reason (ts, out)).0
      ≡ (if str_eq id j then Option.map (shut reason) (standing j ts) else standing j ts)
unfolding end_referendum
standing-end_referendum now id reason j ts out =
    ground (arith, eq_iff id j, get_thread-close now id reason j ts)

standing-read_state :
    (now : ℕ) (trusted : Bool) (it : Item) (reason : Option String) (j : String) (ts : Threads)
    (out : Changes)
    → standing j (read_state now trusted it reason (ts, out)).0
      ≡ (if str_eq it.id j then moved trusted reason (standing j ts) else standing j ts)
unfolding read_state
standing-read_state now trusted it none j ts out =
    standing-keep_item now referendum trusted it ts out j
standing-read_state now true it (some reason) j ts out =
    standing-end_referendum now it.id reason j ts out
standing-read_state now false it (some reason) j ts out = ground arith

pub standing-read_referenda :
    (now : ℕ) (trusted : Bool) (rs : List RefRead) (j : String) (ts : Threads) (out : Changes)
    → standing j (read_referenda now trusted rs (ts, out)).0 ≡ evolved trusted j rs (standing j ts)
unfolding read_referenda read_referendum evolved
standing-read_referenda now trusted [] j ts out = refl
standing-read_referenda now trusted (r ∷ rs) j ts out =
    let st = read_referendum now trusted r (ts, out) in
    standing-read_referenda now trusted rs j st.0 st.1
    ∙ rw (standing-read_state now trusted r.item (referendum_close_reason r.state) j ts out)

moved_untrusted :
    (own : Bool) (reason : Option String) (s : Standing)
    → (if own then moved false reason (some s) else some s) ≡ some s
moved_untrusted own none s = ground arith
moved_untrusted own (some reason) s = ground arith

open_ne_closed :
    (old why : Option String)
    → ◌≡◌ {A = Option Standing} (some (opened, old)) (some (closed, why))
    → ⊥
open_ne_closed old why h = ground arith

-- A read that is not trusted leaves every thread as it is.
pub evolved_untrusted :
    (j : String) (rs : List RefRead) (s : Standing) → evolved false j rs (some s) ≡ some s
unfolding evolved
evolved_untrusted j [] s = refl
evolved_untrusted j (r ∷ rs) s =
    rw (moved_untrusted (str_eq r.item.id j) (referendum_close_reason r.state) s)
      (evolved_untrusted j rs s)

-- The read that closed a thread.
abbrev pub ClosedBy : Bool → String → Option String → List RefRead → Type 0
ClosedBy trusted j why rs =
    (trusted ≡ true)
    × ((r : RefRead) × In r rs × (r.item.id ≡ j) × (referendum_close_reason r.state ≡ why))

-- A step that leaves a thread closed found it closed, or closes it for the reason.
moved-closed :
    (trusted : Bool) (reason : Option String) (o : Option Standing) (why : Option String)
    → moved trusted reason o ≡ some (closed, why)
    → (o ≡ some (closed, why)) ⊎ ((trusted ≡ true) × (reason ≡ why))
moved-closed trusted none none why h = ground arith
moved-closed trusted none (some (s, r)) why h = ground arith
moved-closed trusted (some reason) none why h = ground arith
moved-closed trusted (some reason) (some (s, r)) why h = ground arith

later :
    (trusted : Bool) (j : String) (r : RefRead) (rs : List RefRead) (why : Option String)
    → ClosedBy trusted j why rs
    → ClosedBy trusted j why (r ∷ rs)
later trusted j r rs why (t, (q, m, i, e)) = (t, (q, inr m, i, e))

evolved-closed :
    (trusted : Bool) (j : String) (rs : List RefRead) (o : Option Standing) (why : Option String)
    → evolved trusted j rs o ≡ some (closed, why)
    → (o ≡ some (closed, why)) ⊎ ClosedBy trusted j why rs
unfolding evolved
evolved-closed trusted j [] o why h = inl h
evolved-closed trusted j (r ∷ rs) o why h = elim (Bool-cases (str_eq r.item.id j)) [
  | inl e ↦
      elim (evolved-closed trusted j rs (moved trusted (referendum_close_reason r.state) o) why
        (rw e at h)) [
          | inl now_closed ↦
              elim (moved-closed trusted (referendum_close_reason r.state) o why now_closed) [
                | inl before ↦ inl before
                | inr (t, same) ↦ inr (t, (r, inl refl, (eq_iff r.item.id j).0 e, same))
              ]
          | inr by ↦ inr (later trusted j r rs why by)
        ]
  | inr e ↦ elim (evolved-closed trusted j rs o why (rw e at h)) [
    | inl before ↦ inl before
    | inr by ↦ inr (later trusted j r rs why by)
  ]
]

-- A thread that stands open before a reconcile of referenda and closed after it was closed by a
-- trusted read, which saw this referendum passed, failed or cancelled, and for the reason of that
-- state: no read that fails to see a referendum, and none that is behind, closes its thread.
pub referendum_closed_evidence :
    (now : ℕ) (rs : List RefRead) (trusted : Bool) (ts : Threads) (j : String) (old : Option String)
    (why : String)
    → standing j ts ≡ some (opened, old)
    → standing j (reconcile_referendum_threads now rs trusted ts).0 ≡ some (closed, some why)
    → ClosedBy trusted j (some why) rs
unfolding reconcile_referendum_threads
referendum_closed_evidence now rs trusted ts j old why was is =
    elim (evolved-closed trusted j rs (standing j ts) (some why)
      (sym (standing-read_referenda now trusted rs j ts (no_changes (not trusted))) ∙ is)) [
        | inl before ↦ absurd (open_ne_closed old (some why) (sym was ∙ before))
        | inr by ↦ by
      ]
