-- ===== src/User/Networks/Invariant/Create.antt =====
-- createNetwork of user.go: what a new network changes, and when it is refused.
use soju_bouncer.Prelude.{
  ℕ, ◌+◌, ◌<◌, ◌≡◌, refl, ap, ◌∙◌, ◌≢◌, inl, inr, Bool, true, false, ◌&&◌, ◌||◌, not, none, some,
  List, [], ◌∷◌, ◌++◌, arith, nat_eq, nat_eq_iff, Bool-cases, Option-cases, nat_Eq, str_Eq, pair_Eq,
  All, is_some,
}
use soju_bouncer.Database.{NetworkRecord, get_name}
use soju_bouncer.User.Networks.{
  store_network, create_network, add_network, Server, User, Network, Outcome, ok, err, panic,
  check_network, can_enable_new_network, new_network, notify_bouncer_network_state, has_id,
}
use soju_bouncer.User.Networks.Lists.{has_object-snoc, has_object-sort, Apart, has_object}
use soju_bouncer.User.Networks.Invariant.{
  check_network-is_taken, is_taken-All, has_object-snoc, has_object-sort, add-IsState, numbered_All,
  IsState, IsUser,
}

-- What the database promises of the id of a new row.
abbrev pub GivesFreshId : Server → User → Type 0
GivesFreshId srv u =
    (r : NetworkRecord) (id : ℕ)
    → srv.insert_network r ≡ some id
    → (id ≢ 0) × All (λ n. n.saved.id ≢ id) u.networks

-- Whether `createNetwork` refuses a record.
abbrev pub is_refused : Server → User → NetworkRecord → Bool → Bool
is_refused srv u r enforce_limit =
    ((enforce_limit && r.enabled) && not (can_enable_new_network srv u))
    || (is_some (check_network srv u r) || not (is_some (srv.insert_network r)))

-- The user with the new network, or the reason why there is none.
abbrev pub Created : Server → User → NetworkRecord → Bool → Outcome ℕ → Type 0
Created srv u r enforce_limit (ok u' o) =
    IsUser u'
    × (is_refused srv u r enforce_limit ≡ false)
    × (o ≡ u.next_object)
    × ((p : ℕ) → has_object p u'.networks ≡ (has_object p u.networks || nat_eq o p))
    × (u'.downstream_conns ≡ u.downstream_conns)
Created srv u r enforce_limit (err e) = is_refused srv u r enforce_limit ≡ true
Created srv u r enforce_limit panic = r.id ≢ 0

new_network-Apart :
    (l : List Network) (r : NetworkRecord) (id o : ℕ)
    → All (λ m. m.saved.id ≢ id) l
    → All (λ m. m.saved.id ≢ 0) l
    → All (λ m. m.object < o) l
    → r.id ≡ 0
    → All (λ m. m.saved.id ≢ r.id → get_name m.saved ≢ get_name r) l
    → All (λ m. Apart m (new_network o (record r { id = id }) [])) l
unfolding get_name new_network
new_network-Apart [] r id o f z b e t = tt
new_network-Apart (m ∷ l) r id o f z b e t = (
  ((λ q. ground (arith, b.0, q)), f.0, t.0 (rw e z.0)),
  new_network-Apart l r id o f.1 z.1 b.1 e t.1,
)

pub notify-has_object :
    (u : User) (id : ℕ)
    → ((notify_bouncer_network_state u id).networks ≡ u.networks)
      × ((notify_bouncer_network_state u id).downstream_conns ≡ u.downstream_conns)
      × ((notify_bouncer_network_state u id).next_object ≡ u.next_object)
unfolding notify_bouncer_network_state
notify-has_object u id = elim (Bool-cases (has_id id u.networks)) [
  | inl there ↦ rw there (refl, refl, refl)
  | inr gone ↦ rw gone (refl, refl, refl)
]

-- The user after the new network is added.
added-IsUser :
    (u : User) (r : NetworkRecord)
    → IsUser u
    → r.id ≢ 0
    → All (λ m. Apart m (new_network u.next_object r [])) u.networks
    → let u' =
        notify_bouncer_network_state
          (add_network
            (record u { next_object = u.next_object + 1 })
            (new_network u.next_object r []))
          r.id in
      IsUser u'
      × ((p : ℕ) → has_object p u'.networks ≡ (has_object p u.networks || nat_eq u.next_object p))
      × (u'.downstream_conns ≡ u.downstream_conns)
unfolding add_network new_network
added-IsUser u r s z a =
    let n = new_network u.next_object r [] in
    let u1 : User = add_network (record u { next_object = u.next_object + 1 }) n in
    let (same_networks, same_conns, same_next) = notify-has_object u1 r.id in
    let wider : IsState u.networks u.downstream_conns (u.next_object + 1) = record {
      ascending = s.ascending;
      apart = s.apart;
      stored = s.stored;
      numbered = numbered_All u.networks u.next_object (u.next_object + 1) (omega arith) s.numbered;
      attached = s.attached;
    } in
    (
      rw (same_networks, same_conns, same_next)
          (add-IsState u.networks u.downstream_conns (u.next_object + 1) n wider a z (omega arith)),
      (λ p.
          rw same_networks
            (has_object-sort p (u.networks ++ n ∷ []) ∙ has_object-snoc p u.networks n)),
      same_conns,
    )

store_network-none :
    (srv : Server) (r : NetworkRecord)
    → r.id ≡ 0
    → srv.insert_network r ≡ none
    → store_network srv r ≡ none
unfolding store_network
store_network-none srv r z e = rw ((nat_eq_iff r.id 0).1 z, e) refl

store_network-some :
    (srv : Server) (r : NetworkRecord) (id : ℕ)
    → r.id ≡ 0
    → srv.insert_network r ≡ some id
    → store_network srv r ≡ some (record r { id = id })
unfolding store_network
store_network-some srv r id z e = rw ((nat_eq_iff r.id 0).1 z, e) refl

pub refused_by : (a b : Bool) → a ≡ true → (a || b) ≡ true
refused_by a b h = rw h refl

pub refused_late : (a b c : Bool) → (b || c) ≡ true → (a || (b || c)) ≡ true
refused_late a b c h = ground (arith, h)

pub accepted : (a b c : Bool) → a ≡ false → b ≡ false → c ≡ false → (a || (b || c)) ≡ false
accepted a b c h k l = ground (arith, h, k, l)

-- Creating a network keeps the networks sorted by their ids, with different ids and names, and adds
-- one object and takes none away, so that every client that is connected keeps its network. It is
-- refused exactly if it would exceed an enforced limit, if the record is not valid or its name is
-- taken, or if the database fails. The record is new, and the database gives a fresh id.
pub create_network-Created :
    (srv : Server) (u : User) (r : NetworkRecord) (enforce_limit : Bool)
    → IsUser u
    → GivesFreshId srv u
    → r.id ≡ 0
    → Created srv u r enforce_limit (create_network srv u r enforce_limit)
unfolding create_network new_network
create_network-Created srv u r enforce_limit s g z =
    let new : nat_eq r.id 0 ≡ true = (nat_eq_iff r.id 0).1 z in
    elim (Bool-cases ((enforce_limit && r.enabled) && not (can_enable_new_network srv u))) [
      | inl over ↦ rw (new, over, create_network) (refused_by _ _ over)
      | inr within ↦ elim (Option-cases (check_network srv u r)) [
        | inr (e, bad) ↦
            rw (new, within, bad, create_network)
              (refused_late ((enforce_limit && r.enabled) && not (can_enable_new_network srv u))
                (is_some (check_network srv u r)) (not (is_some (srv.insert_network r)))
                (rw bad refl))
        | inl good ↦ elim (Option-cases (srv.insert_network r)) [
          | inl failed ↦
              rw (new, within, good, store_network-none srv r z failed, failed, create_network)
                (refused_late _ _ true (ground arith))
          | inr (id, given) ↦
              let (fresh, other) = g r id given in
              let named = is_taken-All r u.networks (check_network-is_taken srv u r good) in
              let (keeps, objects, conns) =
                added-IsUser u (record r { id = id }) s fresh
                  (new_network-Apart u.networks r id u.next_object other s.stored s.numbered z
                    named) in
              rw (new, within, good, store_network-some srv r id z given, given, create_network)
                (keeps, accepted _ _ false within (ap is_some good) refl, refl, objects, conns)
        ]
      ]
    ]
