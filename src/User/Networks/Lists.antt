-- ===== src/User/Networks/Lists.antt =====
-- Lists of networks, for user.go: what sorting and the removal of an object keep.
use soju_bouncer.Prelude.{
  ℕ, ◌<◌, ◌≡◌, refl, sym, ap, ◌∙◌, ◌≢◌, inl, inr, Bool, true, false, ◌||◌, Option, none, some, List,
  [], ◌∷◌, ◌++◌, arith, nat_eq, if◌then◌else◌, ltb→lt, nat_eq_iff, Bool-cases, nat_Eq, str_Eq,
  pair_Eq, All, All-append, value_or,
}
use soju_bouncer.Prelude.Sort.{sort, insert_sorted, insert_sorted-All, sort-All}
use soju_bouncer.Database.{get_name}
use soju_bouncer.User.Networks.{by_id, remove_object, get_network_by_id, Network}

-- Two networks with different objects, ids and names.
abbrev pub Apart : Network → Network → Type 0
Apart a b =
    (a.object ≢ b.object) × (a.saved.id ≢ b.saved.id) × (get_name a.saved ≢ get_name b.saved)

abbrev pub AllApart : List Network → Type 0
AllApart [] = Unit
AllApart (n ∷ l) = All (Apart n) l × AllApart l

Apart-sym : (a b : Network) → Apart a b → Apart b a
Apart-sym a b h = ((λ e. h.0 (sym e)), (λ e. h.1 (sym e)), (λ e. h.2 (sym e)))

pub All-Apart_sym : (n : Network) (l : List Network) → All (Apart n) l → All (λ m. Apart m n) l
All-Apart_sym n [] h = tt
All-Apart_sym n (m ∷ l) h = (Apart-sym n m h.0, All-Apart_sym n l h.1)

-- Whether an object is among the networks.
abbrev pub has_object : ℕ → List Network → Bool
has_object o [] = false
has_object o (n ∷ l) = nat_eq n.object o || has_object o l

pub not_same : (a b : ℕ) → a ≢ b → nat_eq a b ≡ false
not_same a b h = ground (arith, h)

module _ (less : Network → Network → Bool) where
  insert_sorted-AllApart :
      (n : Network) (l : List Network)
      → All (Apart n) l
      → AllApart l
      → AllApart (insert_sorted less n l)
  unfolding insert_sorted
  insert_sorted-AllApart n [] h a = (tt, tt)
  insert_sorted-AllApart n (m ∷ l) h a = elim (Bool-cases (less m n)) [
    | inl after ↦ rw after (
      insert_sorted-All less (Apart m) n l (Apart-sym n m h.0) a.0,
      insert_sorted-AllApart n l h.1 a.1,
    )
    | inr before ↦ rw before (h, a)
  ]

  pub sort-AllApart : (l : List Network) → AllApart l → AllApart (sort less l)
  unfolding sort
  sort-AllApart [] a = tt
  sort-AllApart (n ∷ l) a =
      insert_sorted-AllApart n (sort less l) (sort-All less (Apart n) l a.0) (sort-AllApart l a.1)

  has_object-insert_sorted :
      (o : ℕ) (n : Network) (l : List Network)
      → has_object o (insert_sorted less n l) ≡ (nat_eq n.object o || has_object o l)
  unfolding insert_sorted
  has_object-insert_sorted o n [] = refl
  has_object-insert_sorted o n (m ∷ l) = ground (arith, has_object-insert_sorted o n l)

pub snoc-AllApart :
    (l : List Network) (n : Network) → AllApart l → All (λ m. Apart m n) l → AllApart (l ++ n ∷ [])
snoc-AllApart [] n a h = (tt, tt)
snoc-AllApart (m ∷ l) n a h =
    (All-append (Apart m) l (n ∷ []) a.0 (h.0, tt), snoc-AllApart l n a.1 h.1)

pub get_network_by_id-All :
    (P : Network → Type 0) (l : List Network) (id : ℕ) (n : Network)
    → get_network_by_id l id ≡ some n
    → All P l
    → P n
unfolding get_network_by_id
get_network_by_id-All P [] id n e h = ground (arith, e)
get_network_by_id-All P (m ∷ l) id n e h = elim (Bool-cases (nat_eq m.saved.id id)) [
  | inl here ↦ rw (← ap (λ o. value_or o m) (rw here at e)) h.0
  | inr past ↦ get_network_by_id-All P l id n (rw past at e) h.1
]

pub get_network_by_id-id :
    (l : List Network) (id : ℕ) (n : Network) → get_network_by_id l id ≡ some n → n.saved.id ≡ id
unfolding get_network_by_id
get_network_by_id-id [] id n e = ground (arith, e)
get_network_by_id-id (m ∷ l) id n e = elim (Bool-cases (nat_eq m.saved.id id)) [
  | inl here ↦ rw (← ap (λ o. value_or o m) (rw here at e)) ((nat_eq_iff m.saved.id id).0 here)
  | inr past ↦ get_network_by_id-id l id n (rw past at e)
]

-- The networks without an object.
abbrev pub dropped : ℕ → List Network → List Network
dropped o [] = []
dropped o (n ∷ l) = if nat_eq n.object o then l else n ∷ dropped o l

pub remove_object-dropped :
    (o : ℕ) (l : List Network) → has_object o l ≡ true → remove_object o l ≡ some (dropped o l)
unfolding remove_object
remove_object-dropped o [] h = ground arith
remove_object-dropped o (n ∷ l) h = elim (Bool-cases (nat_eq n.object o)) [
  | inl here ↦ rw here refl
  | inr past ↦ rw (past, remove_object-dropped o l (rw past at h)) refl
]

pub dropped-All : (P : Network → Type 0) (o : ℕ) (l : List Network) → All P l → All P (dropped o l)
dropped-All P o [] h = tt
dropped-All P o (n ∷ l) h = elim (Bool-cases (nat_eq n.object o)) [
  | inl here ↦ rw here h.1
  | inr past ↦ rw past (h.0, dropped-All P o l h.1)
]

pub dropped-AllApart : (o : ℕ) (l : List Network) → AllApart l → AllApart (dropped o l)
dropped-AllApart o [] a = tt
dropped-AllApart o (n ∷ l) a = elim (Bool-cases (nat_eq n.object o)) [
  | inl here ↦ rw here a.1
  | inr past ↦ rw past (dropped-All (Apart n) o l a.0, dropped-AllApart o l a.1)
]

pub has_object-dropped :
    (o p : ℕ) (l : List Network) → nat_eq p o ≡ false → has_object p (dropped o l) ≡ has_object p l
has_object-dropped o p [] h = refl
has_object-dropped o p (n ∷ l) h = ground (arith, has_object-dropped o p l h)

pub get_network_by_id-has_object :
    (l : List Network) (id : ℕ) (n : Network)
    → get_network_by_id l id ≡ some n
    → has_object n.object l ≡ true
unfolding get_network_by_id
get_network_by_id-has_object [] id n e = ground (arith, e)
get_network_by_id-has_object (m ∷ l) id n e = elim (Bool-cases (nat_eq m.saved.id id)) [
  | inl here ↦ rw (← ap (λ o. value_or o m) (rw here at e)) (ground arith)
  | inr past ↦ rw (get_network_by_id-has_object l id n (rw past at e)) (ground arith)
]

-- What is left without a network that was found is apart from it.
pub dropped-Apart :
    (l : List Network) (id : ℕ) (n : Network)
    → get_network_by_id l id ≡ some n
    → AllApart l
    → All (λ m. Apart m n) (dropped n.object l)
unfolding get_network_by_id
dropped-Apart [] id n e a = tt
dropped-Apart (m ∷ l) id n e a = elim (Bool-cases (nat_eq m.saved.id id)) [
  | inl here ↦
      rw (← ap (λ o. value_or o m) (rw here at e))
        (rw ((nat_eq_iff m.object m.object).1 refl) (All-Apart_sym m l a.0))
  | inr past ↦
      let found = rw past at e in
      let apart = get_network_by_id-All (Apart m) l id n found a.0 in
      rw (not_same m.object n.object apart.0) (apart, dropped-Apart l id n found a.1)
]

-- The ids ascend.
abbrev pub Ascending : List Network → Type 0
Ascending [] = Unit
Ascending (n ∷ l) = All (λ m. n.saved.id < m.saved.id) l × Ascending l

lower_All :
    (a b : ℕ) (l : List Network) → a < b → All (λ m. b < m.saved.id) l → All (λ m. a < m.saved.id) l
lower_All a b [] h s = tt
lower_All a b (n ∷ l) h s = (omega (arith, h, s.0), lower_All a b l h s.1)

insert_sorted-Ascending :
    (n : Network) (l : List Network)
    → All (Apart n) l
    → Ascending l
    → Ascending (insert_sorted by_id n l)
unfolding insert_sorted
insert_sorted-Ascending n [] h s = (tt, tt)
insert_sorted-Ascending n (m ∷ l) h s = elim (Bool-cases (by_id m n)) [
  | inl after ↦ rw after (
    insert_sorted-All by_id (λ k. m.saved.id < k.saved.id) n l (ltb→lt m.saved.id n.saved.id after)
        s.0,
    insert_sorted-Ascending n l h.1 s.1,
  )
  | inr before ↦
      let less : n.saved.id < m.saved.id = ground (arith, before, h.0.1) in
      rw before ((less, lower_All n.saved.id m.saved.id l less s.0), s)
]

pub sort-Ascending : (l : List Network) → AllApart l → Ascending (sort by_id l)
unfolding sort
sort-Ascending [] a = tt
sort-Ascending (n ∷ l) a =
    insert_sorted-Ascending n (sort by_id l) (sort-All by_id (Apart n) l a.0) (sort-Ascending l a.1)

pub dropped-Ascending : (o : ℕ) (l : List Network) → Ascending l → Ascending (dropped o l)
dropped-Ascending o [] s = tt
dropped-Ascending o (n ∷ l) s = elim (Bool-cases (nat_eq n.object o)) [
  | inl here ↦ rw here s.1
  | inr past ↦
      rw past (dropped-All (λ m. n.saved.id < m.saved.id) o l s.0, dropped-Ascending o l s.1)
]

pub has_object-sort : (o : ℕ) (l : List Network) → has_object o (sort by_id l) ≡ has_object o l
unfolding sort
has_object-sort o [] = refl
has_object-sort o (n ∷ l) =
    has_object-insert_sorted by_id o n (sort by_id l)
    ∙ ap (◌||◌ (nat_eq n.object o)) (has_object-sort o l)

pub has_object-snoc :
    (o : ℕ) (l : List Network) (n : Network)
    → has_object o (l ++ n ∷ []) ≡ (has_object o l || nat_eq n.object o)
has_object-snoc o [] n = ground arith
has_object-snoc o (m ∷ l) n = ground (arith, has_object-snoc o l n)

either :
    (m n : Network) (found : Option Network) (a b : Bool)
    → (a ≡ true → b ≡ true → ⊥)
    → (if a then some m else if b then some n else found)
      ≡ (if b then some n else if a then some m else found)
either m n found true true k = absurd (k refl refl)
either m n found true false k = refl
either m n found false b k = refl

-- Lookups by id after an insertion, a sort and a removal.
get_network_by_id-insert_sorted :
    (less : Network → Network → Bool) (n : Network) (l : List Network) (id : ℕ)
    → All (Apart n) l
    → get_network_by_id (insert_sorted less n l) id
      ≡ (if nat_eq n.saved.id id then some n else get_network_by_id l id)
unfolding insert_sorted get_network_by_id
get_network_by_id-insert_sorted less n [] id h = refl
get_network_by_id-insert_sorted less n (m ∷ l) id h = elim (Bool-cases (less m n)) [
  | inr before ↦ rw before refl
  | inl after ↦
      rw (after, get_network_by_id-insert_sorted less n l id h.1)
        (either m n (get_network_by_id l id) (nat_eq m.saved.id id) (nat_eq n.saved.id id)
          (λ a b. h.0.1 (ground (arith, a, b))))
]

pub get_network_by_id-sort :
    (less : Network → Network → Bool) (l : List Network) (id : ℕ)
    → AllApart l
    → get_network_by_id (sort less l) id ≡ get_network_by_id l id
unfolding sort get_network_by_id
get_network_by_id-sort less [] id a = refl
get_network_by_id-sort less (n ∷ l) id a =
    get_network_by_id-insert_sorted less n (sort less l) id (sort-All less (Apart n) l a.0)
    ∙ rw (get_network_by_id-sort less l id a.1) refl

pub get_network_by_id-snoc :
    (l : List Network) (n : Network) (id : ℕ)
    → All (λ m. Apart m n) l
    → get_network_by_id (l ++ n ∷ []) id
      ≡ (if nat_eq n.saved.id id then some n else get_network_by_id l id)
unfolding get_network_by_id
get_network_by_id-snoc [] n id h = refl
get_network_by_id-snoc (m ∷ l) n id h = rw (get_network_by_id-snoc l n id h.1) (
    either m n (get_network_by_id l id) (nat_eq m.saved.id id) (nat_eq n.saved.id id)
      (λ a b. h.0.1 (ground (arith, a, b))))

pub get_network_by_id-dropped :
    (l : List Network) (id j : ℕ) (n : Network)
    → get_network_by_id l id ≡ some n
    → AllApart l
    → nat_eq id j ≡ false
    → get_network_by_id (dropped n.object l) j ≡ get_network_by_id l j
unfolding get_network_by_id
get_network_by_id-dropped [] id j n e a ne = refl
get_network_by_id-dropped (m ∷ l) id j n e a ne = elim (Bool-cases (nat_eq m.saved.id id)) [
  | inl here ↦
      rw (← ap (λ o. value_or o m) (rw here at e))
        (rw ((nat_eq_iff m.object m.object).1 refl, other m.saved.id here) refl)
  | inr past ↦
      let found = rw past at e in
      let apart = get_network_by_id-All (Apart m) l id n found a.0 in
      rw (not_same m.object n.object apart.0, get_network_by_id-dropped l id j n found a.1 ne) refl
]
  where
    other : (k : ℕ) → nat_eq k id ≡ true → nat_eq k j ≡ false
    other k h = ground (arith, h, ne)

-- A network that was found is not among those that are left.
pub get_network_by_id-gone :
    (l : List Network) (n : Network)
    → All (λ m. Apart m n) l
    → get_network_by_id l n.saved.id ≡ none
unfolding get_network_by_id
get_network_by_id-gone [] n h = refl
get_network_by_id-gone (m ∷ l) n h =
    rw (not_same m.saved.id n.saved.id h.0.1) (get_network_by_id-gone l n h.1)
