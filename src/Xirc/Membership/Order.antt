-- ===== src/Xirc/Membership/Order.antt =====
-- MembershipSet of xirc/xirc.go: `Add` and `Remove` keep the set sorted by rank.
use mathlib.Core.List.{append_assoc}
use soju_bouncer.Prelude.{
  suc, ◌≡◌, refl, true, ◌&&◌, ◌||◌, not, [], ◌∷◌, ◌++◌, List, ◌==◌, get_elem?, length, contains,
  arith, ap,
}
use soju_bouncer.Xirc.Membership.{
  Membership, MembershipSet, membership_Eq, add_index, insert_at, insert_result, add, remove,
}
use soju_bouncer.Xirc.Membership.Ranked.{
  Ranked, Distinct, place, drop_first, place-Ranked, contains-place, drop_first-Ranked,
  contains-drop_first,
}

get_elem?-prefix : (pre l : MembershipSet) → get_elem? (pre ++ l) (length pre) ≡ get_elem? l 0
get_elem?-prefix [] l = refl
get_elem?-prefix (x ∷ pre) l = get_elem?-prefix pre l

insert_at-prefix :
    (pre l : MembershipSet) (n : Membership) → insert_at (length pre) n (pre ++ l) ≡ pre ++ n ∷ l
unfolding insert_at
insert_at-prefix [] l n = refl
insert_at-prefix (x ∷ pre) l n = ap (◌∷◌ x) (insert_at-prefix pre l n)

length-snoc : (pre : MembershipSet) (x : Membership) → length (pre ++ x ∷ []) ≡ suc (length pre)
length-snoc [] x = refl
length-snoc (y ∷ pre) x = ap suc (length-snoc pre x)

add_index-place :
    (av pre l : List Membership) (n : Membership)
    → insert_result (pre ++ l) n (add_index av (pre ++ l) n (length pre)) ≡ pre ++ place av l n
unfolding add_index place
add_index-place [] pre l n = insert_at-prefix pre l n
add_index-place (a ∷ av) pre [] n =
    rw (get_elem?-prefix pre [], add_index) (insert_at-prefix pre [] n)
add_index-place (a ∷ av) pre (x ∷ l) n = ground (
  arith,
  get_elem?-prefix pre (x ∷ l),
  insert_at-prefix pre (x ∷ l) n,
  add_index-place av pre (x ∷ l) n,
  add_index-place av (pre ++ x ∷ []) l n,
  append_assoc pre (x ∷ []) l,
  append_assoc pre (x ∷ []) (place av l n),
  length-snoc pre x,
)

add-place : (av l : List Membership) (n : Membership) → add av l n ≡ place av l n
unfolding add
add-place av l n = add_index-place av [] l n

remove-drop_first : (l : MembershipSet) (n : Membership) → remove l n ≡ drop_first l n
unfolding remove drop_first
remove-drop_first [] n = refl
remove-drop_first (x ∷ l) n = ground (arith, remove-drop_first l n)

-- With distinct available memberships, `Add` of an available membership keeps the set sorted by
-- descending rank, and adds that membership and no other.
pub add-Ranked :
    (av l : List Membership) (n y : Membership)
    → Distinct av
    → contains n av ≡ true
    → Ranked av l
    → Ranked av (add av l n) × (contains y (add av l n) ≡ ((n == y) || contains y l))
add-Ranked av l n y d c r =
    rw (add-place av l n) (place-Ranked av l n d c r, contains-place av l n y)

-- With distinct available memberships, `Remove` keeps the set sorted by descending rank, and takes
-- away its membership and no other.
pub remove-Ranked :
    (av l : List Membership) (n y : Membership)
    → Distinct av
    → Ranked av l
    → Ranked av (remove l n) × (contains y (remove l n) ≡ (contains y l && not (n == y)))
remove-Ranked av l n y d r =
    rw (remove-drop_first l n) (drop_first-Ranked n r, contains-drop_first n y d r)
