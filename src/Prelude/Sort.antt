-- ===== src/Prelude/Sort.antt =====
-- Go's package sort: insertion sort by a test `less` stands for `sort.Sort`, `sort.Slice` and
-- `sort.Strings`, which promise a sorted rearrangement.
use soju_bouncer.Prelude.{nat_Eq, str_Eq, pair_Eq}
use mathlib.Core.Path.{◌≡◌, refl}
use mathlib.Core.Bool.{Bool, true, false}
use mathlib.Core.List.{List, [], ◌∷◌, Perm}
use mathlib.Core.List.Perm
use native.Mathlib.Omega.{arith}
use soju_bouncer.Prelude.Lists.{All}
use soju_bouncer.Prelude.Tests.{Str, ltb, nat_eq, if◌then◌else◌, Bool-cases}
use mathlib.Core.Logic.{inl, inr}

module _ {ℓ} {A : Type ℓ} (less : A → A → Bool) where
  unfoldable pub insert_sorted : A → List A → List A
  insert_sorted a [] = a ∷ []
  insert_sorted a (x ∷ l) = if less x a then x ∷ insert_sorted a l else a ∷ x ∷ l

  unfoldable pub sort : List A → List A
  unfolding insert_sorted
  sort [] = []
  sort (x ∷ l) = insert_sorted x (sort l)

  insert_sorted-perm : (a : A) (l : List A) → Perm (insert_sorted a l) (a ∷ l)
  unfolding insert_sorted
  insert_sorted-perm a [] = Perm.refl _
  insert_sorted-perm a (x ∷ l) = elim (Bool-cases (less x a)) [
    | inl after ↦ rw after (Perm.trans (Perm.cons x (insert_sorted-perm a l)) (Perm.swap a x l))
    | inr before ↦ rw before (Perm.refl _)
  ]

  pub sort-perm : (l : List A) → Perm (sort l) l
  unfolding sort
  sort-perm [] = Perm.refl _
  sort-perm (x ∷ l) = Perm.trans (insert_sorted-perm x (sort l)) (Perm.cons x (sort-perm l))

  -- No element is less than the one before it.
  abbrev pub IsSorted : List A → Type 0
  IsSorted [] = Unit
  IsSorted (x ∷ []) = Unit
  IsSorted (x ∷ y ∷ l) = (less y x ≡ false) × IsSorted (y ∷ l)

  insert_sorted-IsSorted :
      ((a b : A) → less a b ≡ true → less b a ≡ false)
      → (a : A) (l : List A) → IsSorted l
      → IsSorted (insert_sorted a l)
  unfolding insert_sorted
  insert_sorted-IsSorted asym a [] s = tt
  insert_sorted-IsSorted asym a (x ∷ []) s = ground (arith, asym x a)
  insert_sorted-IsSorted asym a (x ∷ y ∷ l) s =
      ground (arith, asym x a, asym y a, insert_sorted-IsSorted asym a (y ∷ l) s.1)

  pub sort-IsSorted :
      ((a b : A) → less a b ≡ true → less b a ≡ false) → (l : List A) → IsSorted (sort l)
  unfolding sort
  sort-IsSorted asym [] = tt
  sort-IsSorted asym (x ∷ l) = insert_sorted-IsSorted asym x (sort l) (sort-IsSorted asym l)

module _ {ℓ κ} {A : Type ℓ} (less : A → A → Bool) (P : A → Type κ) where
  pub insert_sorted-All : (a : A) (l : List A) → P a → All P l → All P (insert_sorted less a l)
  unfolding insert_sorted
  insert_sorted-All a [] p h = (p, tt)
  insert_sorted-All a (x ∷ l) p h = elim (Bool-cases (less x a)) [
    | inl after ↦ rw after (h.0, insert_sorted-All a l p h.1)
    | inr before ↦ rw before (p, h)
  ]

  pub sort-All : (l : List A) → All P l → All P (sort less l)
  unfolding sort
  sort-All [] h = tt
  sort-All (x ∷ l) h = insert_sorted-All x (sort less l) h.0 (sort-All l h.1)

-- The order of Go strings, byte by byte.
unfoldable pub str_less : Str → Str → Bool
str_less [] [] = false
str_less [] (y ∷ ys) = true
str_less (x ∷ xs) [] = false
str_less (x ∷ xs) (y ∷ ys) = if ltb x y then true else if nat_eq x y then str_less xs ys else false

pub str_less_asym : (a b : Str) → str_less a b ≡ true → str_less b a ≡ false
unfolding str_less
str_less_asym [] [] h = ground arith
str_less_asym [] (y ∷ ys) h = refl
str_less_asym (x ∷ xs) [] h = ground arith
str_less_asym (x ∷ xs) (y ∷ ys) h = ground (arith, str_less_asym xs ys)
