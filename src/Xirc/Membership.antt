-- ===== src/Xirc/Membership.antt =====
-- xirc/xirc.go, Membership and MembershipSet: the ranks of a channel member, sorted by descending
-- rank.
pub mod Ranked
pub mod Order
use soju_bouncer.Prelude.{
  ℕ, zero, suc, ◌+◌, ◌≡◌, ◌↔◌, Bool, ◌&&◌, Option, none, some, List, [], ◌∷◌, true, nat_eq,
  if◌then◌else◌, Eq, ◌==◌, get_elem?, arith,
}

pub record Membership : Type 0 where
  pub mode : ℕ
  pub prefix : ℕ

abbrev pub membership_eq : Membership → Membership → Bool
membership_eq a b = nat_eq a.mode b.mode && nat_eq a.prefix b.prefix

pub membership_eq_iff : (a b : Membership) → (membership_eq a b ≡ true) ↔ (a ≡ b)
membership_eq_iff a b = ground arith

instance abbrev pub membership_Eq : Eq Membership
membership_Eq = record { test = membership_eq; test_iff = membership_eq_iff }

abbrev pub MembershipSet : Type 0
MembershipSet = List Membership

-- The loop of `Add`: `none` where the membership is there already, or the index to insert at.
add_index : List Membership → MembershipSet → Membership → ℕ → Option ℕ
add_index [] l new_membership i = some i
add_index (available ∷ rest) l new_membership i = elim (get_elem? l i) [
  | none ↦ some i
  | some x ↦
      let taken = add_index rest l new_membership (suc i) in
      let skipped = add_index rest l new_membership i in
      if x == available
      then (if available == new_membership then none else taken)
      else (if available == new_membership then some i else skipped)
]

-- The slice with an element inserted at an index.
unfoldable pub insert_at {ℓ} : {A : Type ℓ} → ℕ → A → List A → List A
insert_at zero a l = a ∷ l
insert_at (suc i) a [] = a ∷ []
insert_at (suc i) a (x ∷ l) = x ∷ insert_at i a l

abbrev insert_result : MembershipSet → Membership → Option ℕ → MembershipSet
insert_result l new_membership none = l
insert_result l new_membership (some i) = insert_at i new_membership l

unfoldable pub add : List Membership → MembershipSet → Membership → MembershipSet
unfolding add_index insert_at
add available l new_membership =
    insert_result l new_membership (add_index available l new_membership 0)

unfoldable pub remove : MembershipSet → Membership → MembershipSet
remove [] membership = []
remove (m ∷ l) membership = if m == membership then l else m ∷ remove l membership
