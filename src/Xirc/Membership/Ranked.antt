-- ===== src/Xirc/Membership/Ranked.antt =====
-- Sorted parts of a list of ranks, for MembershipSet of xirc/xirc.go: where an element goes.
use soju_bouncer.Prelude.{
  ◌≡◌, refl, sym, true, false, ◌||◌, ◌&&◌, not, List, [], ◌∷◌, if◌then◌else◌, Eq, ◌==◌, contains,
  arith, Bool-cases, inl, inr,
}

module _ {A : Type 0} ⦃e : Eq A⦄ where
  -- `l` is a part of the list of all ranks, in its order, which is by descending rank.
  pub data Ranked : List A → List A → Type 0 where
    none_left : Ranked [] []
    skip : {a : A} {av l : List A} → Ranked av l → Ranked (a ∷ av) l
    keep : {a x : A} {av l : List A} → x ≡ a → Ranked av l → Ranked (a ∷ av) (x ∷ l)

  abbrev pub Distinct : List A → Type 0
  Distinct [] = Unit
  Distinct (a ∷ av) = (contains a av ≡ false) × Distinct av

  -- Insertion of a rank, by recursion on both lists.
  unfoldable pub place : List A → List A → A → List A
  place [] l n = n ∷ l
  place (a ∷ av) [] n = n ∷ []
  place (a ∷ av) (x ∷ l) n = elim (x == a) [
    | true ↦ if a == n then x ∷ l else x ∷ place av l n
    | false ↦ elim (a == n) [ true ↦ n ∷ x ∷ l | false ↦ place av (x ∷ l) n ]
  ]

  unfoldable pub drop_first : List A → A → List A
  drop_first [] n = []
  drop_first (x ∷ l) n = if x == n then l else x ∷ drop_first l n

  pub Ranked-head : (x : A) {av l : List A} → Ranked av (x ∷ l) → contains x av ≡ true
  Ranked-head x (skip {a = a} r) = ground (arith, Ranked-head x r)
  Ranked-head x (keep {a = a} p r) = ground (arith, e.test_iff a x)

  Ranked-nil : (av : List A) → Ranked av []
  Ranked-nil [] = none_left
  Ranked-nil (a ∷ av) = skip (Ranked-nil av)

  pub Ranked-single : (av : List A) (n : A) → contains n av ≡ true → Ranked av (n ∷ [])
  Ranked-single [] n c = ground arith
  Ranked-single (a ∷ av) n c = elim (Bool-cases (a == n)) [
    | inl same ↦ keep (sym ((e.test_iff a n).0 same)) (Ranked-nil av)
    | inr other ↦ skip (Ranked-single av n (ground arith))
  ]

  not_same :
      (x a : A) (av : List A) → contains x av ≡ true → contains a av ≡ false → (x == a) ≡ false
  not_same x a av c d = ground (arith, e.test_iff x a)

  pub place-Ranked :
      (av l : List A) (n : A)
      → Distinct av
      → contains n av ≡ true
      → Ranked av l
      → Ranked av (place av l n)
  unfolding place
  place-Ranked [] l n d c r = ground arith
  place-Ranked (a ∷ av) [] n d c r = Ranked-single (a ∷ av) n c
  place-Ranked (a ∷ av) (x ∷ l) n d c (skip r) = elim (Bool-cases (a == n)) [
    | inl same ↦
        rw (not_same x a av (Ranked-head x r) d.0, same, place)
          (keep (sym ((e.test_iff a n).0 same)) r)
    | inr other ↦
        rw (not_same x a av (Ranked-head x r) d.0, other, place)
          (skip (place-Ranked av (x ∷ l) n d.1 (ground arith) r))
  ]
  place-Ranked (a ∷ av) (x ∷ l) n d c (keep p r) = elim (Bool-cases (a == n)) [
    | inl same ↦ rw ((e.test_iff x a).1 p, same, place) (keep p r)
    | inr other ↦
        rw ((e.test_iff x a).1 p, other, place) (keep p (place-Ranked av l n d.1 (ground arith) r))
  ]

  pub contains-place :
      (av l : List A) (n y : A) → contains y (place av l n) ≡ ((n == y) || contains y l)
  unfolding place
  contains-place [] l n y = refl
  contains-place (a ∷ av) [] n y = refl
  contains-place (a ∷ av) (x ∷ l) n y = ground (
    arith,
    contains-place av (x ∷ l) n y,
    contains-place av l n y,
    e.test_iff a n,
    e.test_iff x a,
  )

  pub drop_first-Ranked : (n : A) {av l : List A} → Ranked av l → Ranked av (drop_first l n)
  unfolding drop_first
  drop_first-Ranked n none_left = none_left
  drop_first-Ranked n (skip r) = skip (drop_first-Ranked n r)
  drop_first-Ranked n (keep {a = a} {x = x} p r) = elim (Bool-cases (x == n)) [
    | inl same ↦ rw same (skip r)
    | inr other ↦ rw other (keep p (drop_first-Ranked n r))
  ]

  contains-Ranked :
      (y : A) {av l : List A} → Ranked av l → contains y av ≡ false → contains y l ≡ false
  contains-Ranked y none_left h = refl
  contains-Ranked y (skip r) h = contains-Ranked y r (ground arith)
  contains-Ranked y (keep {a = a} {x = x} p r) h = ground (arith, contains-Ranked y r)

  pub contains-drop_first :
      (n y : A) {av l : List A}
      → Distinct av
      → Ranked av l
      → contains y (drop_first l n) ≡ (contains y l && not (n == y))
  unfolding drop_first
  contains-drop_first n y d none_left = ground arith
  contains-drop_first n y d (skip r) = contains-drop_first n y d.1 r
  contains-drop_first n y d (keep {a = a} {x = x} p r) = ground (
    arith,
    contains-drop_first n y d.1 r,
    contains-Ranked a r d.0,
    e.test_iff x n,
    e.test_iff x y,
    e.test_iff n y,
  )
