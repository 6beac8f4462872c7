-- ===== src/User/Networks/Invariant.antt =====
-- The networks of a user in user.go: what every operation on them keeps.
pub mod Create
pub mod Change
pub mod Limit
pub mod Swap
pub mod Update
use soju_bouncer.Prelude.{
  ℕ, ◌*◌, ◌≤◌, ◌<◌, ◌≡◌, refl, ◌≢◌, Bool, true, false, ◌||◌, Option, none, some, List, [], ◌∷◌,
  ◌++◌, arith, nat_Eq, list_eq_iff, str_Eq, pair_Eq, All, All-append,
}
use soju_bouncer.Prelude.Sort.{sort, sort-All}
use soju_bouncer.Database.{NetworkRecord, get_name}
use soju_bouncer.User.Networks.{
  by_id, is_taken, check_network, Network, DownstreamConn, User, Server,
}
use soju_bouncer.User.Networks.Lists.{
  Apart, AllApart, has_object, sort-AllApart, snoc-AllApart, Ascending, sort-Ascending,
  has_object-sort, has_object-snoc,
}

-- A downstream connection that is not closed has no network, or one that is there.
abbrev pub points_in : List Network → Option ℕ → Bool
points_in l none = true
points_in l (some o) = has_object o l

abbrev pub Attached : List Network → DownstreamConn → Type 0
Attached l dc = (dc.closed || points_in l dc.network) ≡ true

-- The networks are sorted by id, with different objects, ids and names, and all of them are stored.
pub record IsState (l : List Network) (dcs : List DownstreamConn) (next : ℕ) : Type 0 where
  pub ascending : Ascending l
  pub apart : AllApart l
  pub stored : All (λ n. n.saved.id ≢ 0) l
  pub numbered : All (λ n. n.object < next) l
  pub attached : All (Attached l) dcs

abbrev pub IsUser : User → Type 0
IsUser u = IsState u.networks u.downstream_conns u.next_object

abbrev Covers : List Network → List Network → Type 0
Covers l l' = (o : ℕ) → has_object o l ≡ true → has_object o l' ≡ true

pub All-Attached :
    (l l' : List Network) (dcs : List DownstreamConn)
    → ((o : ℕ) → has_object o l ≡ true → has_object o l' ≡ true)
    → All (Attached l) dcs
    → All (Attached l') dcs
All-Attached l l' [] c h = tt
All-Attached l l' (dc ∷ dcs) c h = (one dc dc.network refl h.0, All-Attached l l' dcs c h.1)
  where
    one : (d : DownstreamConn) (p : Option ℕ) → d.network ≡ p → Attached l d → Attached l' d
    one d none e a = ground (arith, e)
    one d (some o) e a = ground (arith, e, c o)

pub numbered_All :
    (l : List Network) (a b : ℕ) → a ≤ b → All (λ n. n.object < a) l → All (λ n. n.object < b) l
numbered_All [] a b le h = tt
numbered_All (n ∷ l) a b le h = (omega (arith, le, h.0), numbered_All l a b le h.1)

-- A network that is apart from the others is added, with connections that may be on it.
pub add-IsState_moved :
    (l : List Network) (dcs moved : List DownstreamConn) (next : ℕ) (n : Network)
    → IsState l dcs next
    → All (λ m. Apart m n) l
    → n.saved.id ≢ 0
    → n.object < next
    → All (Attached (l ++ n ∷ [])) moved
    → IsState (sort by_id (l ++ n ∷ [])) moved next
add-IsState_moved l dcs moved next n s a z o t =
    let apart = snoc-AllApart l n s.apart a in
    record {
      ascending = sort-Ascending (l ++ n ∷ []) apart;
      apart = sort-AllApart by_id (l ++ n ∷ []) apart;
      stored =
          sort-All by_id (λ m. m.saved.id ≢ 0) (l ++ n ∷ [])
            (All-append (λ m. m.saved.id ≢ 0) l (n ∷ []) s.stored (z, tt));
      numbered =
          sort-All by_id (λ m. m.object < next) (l ++ n ∷ [])
            (All-append (λ m. m.object < next) l (n ∷ []) s.numbered (o, tt));
      attached =
          All-Attached (l ++ n ∷ []) (sort by_id (l ++ n ∷ [])) moved
            (λ p h. rw (has_object-sort p (l ++ n ∷ [])) h) t;
    }

pub add-IsState :
    (l : List Network) (dcs : List DownstreamConn) (next : ℕ) (n : Network)
    → IsState l dcs next
    → All (λ m. Apart m n) l
    → n.saved.id ≢ 0
    → n.object < next
    → IsState (sort by_id (l ++ n ∷ [])) dcs next
add-IsState l dcs next n s a z o =
    add-IsState_moved l dcs dcs next n s a z o
      (All-Attached l (l ++ n ∷ []) dcs (λ p h. rw (has_object-snoc p l n, h) refl) s.attached)

pub is_taken-All :
    (r : NetworkRecord) (l : List Network)
    → is_taken r l ≡ false
    → All (λ m. m.saved.id ≢ r.id → get_name m.saved ≢ get_name r) l
unfolding is_taken
is_taken-All r [] h = tt
is_taken-All r (n ∷ l) h = (
  (λ ne e. ground (arith, h, ne, list_eq_iff (get_name n.saved) (get_name r), e)),
  is_taken-All r l (ground arith),
)

pub check_network-is_taken :
    (srv : Server) (u : User) (r : NetworkRecord)
    → check_network srv u r ≡ none
    → is_taken r u.networks ≡ false
unfolding check_network
check_network-is_taken srv u r h = ground (arith, h)
