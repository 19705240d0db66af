-- ===== src/Prelude/Sort.antt =====
-- `Array.prototype.sort` with a comparison that is a total preorder: a stable sort.
use Prim.Native.Nat.{suc}
use mathlib.Core.Path.{◌≡◌, refl}
use mathlib.Core.Logic.{◌⊎◌, ◌↔◌, inl, inr}
use native.Mathlib.Omega.{arith}
use mathlib.Core.Bool.{Bool, true, false}
use mathlib.Core.List.{List, [], ◌∷◌, Perm}
use mathlib.Core.List.Perm
use pdexplorer.Prelude.Tests.{if◌then◌else◌, Bool-cases}
use pdexplorer.Prelude.Lists.{All, In, length}

module _ {ℓ} {A : Type ℓ} (before : A → A → Bool) where
  -- `x` goes in front of the first element that it may precede.
  abbrev pub insert_by : A → List A → List A
  insert_by x [] = x ∷ []
  insert_by x (y ∷ ys) = if before x y then x ∷ y ∷ ys else y ∷ insert_by x ys

  abbrev pub sort_by : List A → List A
  sort_by [] = []
  sort_by (x ∷ xs) = insert_by x (sort_by xs)

  pub insert_by-Perm : (x : A) (xs : List A) → Perm (insert_by x xs) (x ∷ xs)
  insert_by-Perm x [] = Perm.refl (x ∷ [])
  insert_by-Perm x (y ∷ ys) = elim (Bool-cases (before x y)) [
    | inl e ↦ rw e (Perm.refl (x ∷ y ∷ ys))
    | inr e ↦ rw e (Perm.trans (Perm.cons y (insert_by-Perm x ys)) (Perm.swap x y ys))
  ]

  pub sort_by-Perm : (xs : List A) → Perm (sort_by xs) xs
  sort_by-Perm [] = Perm.refl []
  sort_by-Perm (x ∷ xs) = Perm.trans (insert_by-Perm x (sort_by xs)) (Perm.cons x (sort_by-Perm xs))

  abbrev pub IsSorted : List A → Type 0
  IsSorted [] = Unit
  IsSorted (x ∷ xs) = All (λ y. before x y ≡ true) xs × IsSorted xs

module _ {A : Type 0} (before : A → A → Bool) where
  insert_by-In : (a x : A) (xs : List A) → In a (insert_by before x xs) ↔ ((a ≡ x) ⊎ In a xs)
  insert_by-In a x [] = ground arith
  insert_by-In a x (y ∷ ys) = ground (arith, insert_by-In a x ys)

  pub sort_by-In : (a : A) (xs : List A) → In a (sort_by before xs) ↔ In a xs
  sort_by-In a [] = ground arith
  sort_by-In a (x ∷ xs) = ground (arith, insert_by-In a x (sort_by before xs), sort_by-In a xs)

  length-insert_by : (x : A) (xs : List A) → length (insert_by before x xs) ≡ suc (length xs)
  length-insert_by x [] = refl
  length-insert_by x (y ∷ ys) = ground (arith, length-insert_by x ys)

  pub length-sort_by : (xs : List A) → length (sort_by before xs) ≡ length xs
  length-sort_by [] = refl
  length-sort_by (x ∷ xs) = omega (arith, length-insert_by x (sort_by before xs), length-sort_by xs)

-- A total and transitive comparison sorts.
module _ {A : Type 0} (before : A → A → Bool)
    (total : (x y : A) → before x y ≡ false → before y x ≡ true)
    (trans : (x y z : A) → before x y ≡ true → before y z ≡ true → before x z ≡ true) where
  All-insert_by :
      (a x : A) (xs : List A)
      → before a x ≡ true
      → All (λ y. before a y ≡ true) xs
      → All (λ y. before a y ≡ true) (insert_by before x xs)
  All-insert_by a x [] h s = (h, tt)
  All-insert_by a x (y ∷ ys) h s = ground (arith, All-insert_by a x ys)

  All-weaken :
      (a x : A) (xs : List A)
      → before a x ≡ true
      → All (λ y. before x y ≡ true) xs
      → All (λ y. before a y ≡ true) xs
  All-weaken a x [] h s = tt
  All-weaken a x (y ∷ ys) h s = (trans a x y h s.0, All-weaken a x ys h s.1)

  insert_by-IsSorted :
      (x : A) (xs : List A) → IsSorted before xs → IsSorted before (insert_by before x xs)
  insert_by-IsSorted x [] s = (tt, tt)
  insert_by-IsSorted x (y ∷ ys) s = elim (Bool-cases (before x y)) [
    | inl e ↦ rw e ((e, All-weaken x y ys e s.0), s)
    | inr e ↦ rw e (All-insert_by y x ys (total x y e) s.0, insert_by-IsSorted x ys s.1)
  ]

  pub sort_by-IsSorted : (xs : List A) → IsSorted before (sort_by before xs)
  sort_by-IsSorted [] = tt
  sort_by-IsSorted (x ∷ xs) = insert_by-IsSorted x (sort_by before xs) (sort_by-IsSorted xs)
