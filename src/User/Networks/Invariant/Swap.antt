-- ===== src/User/Networks/Invariant/Swap.antt =====
-- updateNetwork of user.go: the old network object out, the new one in.
use soju_bouncer.Prelude.{
  ℕ, ◌+◌, ◌<◌, ◌≡◌, refl, sym, ap, ◌∙◌, ◌≢◌, inl, inr, Bool, true, false, ◌||◌, Option, none, some,
  List, [], ◌∷◌, ◌++◌, arith, nat_eq, if◌then◌else◌, nat_eq_iff, Bool-cases, nat_Eq, str_Eq,
  pair_Eq, All,
}
use soju_bouncer.Prelude.Sort.{sort}
use soju_bouncer.Database.{NetworkRecord, get_name}
use soju_bouncer.Xirc.CaseMappingMap
use soju_bouncer.User.Networks.{
  Server, User, Network, DownstreamConn, ok, by_id, points_to, close_all, get_network_by_id,
  new_network, add_network, notify_bouncer_network_state, stopped, is_taken,
}
use soju_bouncer.User.Networks.Update.{
  patch, transfer, replace_network, finish_update, moved, rename_events,
}
use soju_bouncer.User.Networks.Lists.{
  Apart, has_object, has_object-snoc, has_object-dropped, dropped, AllApart, get_network_by_id-sort,
  get_network_by_id-snoc, get_network_by_id-dropped, snoc-AllApart, dropped-AllApart, dropped-Apart,
  get_network_by_id-has_object, get_network_by_id-id, get_network_by_id-All, dropped-All,
}
use soju_bouncer.User.Networks.Invariant.{
  IsState, IsUser, Attached, points_in, add-IsState_moved, numbered_All, is_taken-All,
}
use soju_bouncer.User.Networks.Invariant.Create.{notify-has_object}
use soju_bouncer.User.Networks.Invariant.Change.{dropped-IsState, remove_network-dropped}

-- A connection that was moved is not closed.
close_all-patch :
    (o new : ℕ) (dcs : List DownstreamConn)
    → nat_eq new o ≡ false
    → close_all o (patch o new dcs) ≡ patch o new dcs
unfolding close_all patch
close_all-patch o new [] h = refl
close_all-patch o new (dc ∷ dcs) h = elim (Bool-cases (points_to o dc.network)) [
  | inl here ↦
      rw (here, h) (ap (◌∷◌ (record dc { network = some new })) (close_all-patch o new dcs h))
  | inr past ↦ rw (past, past) (ap (◌∷◌ dc) (close_all-patch o new dcs h))
]

or_true : (a : Bool) → (a || true) ≡ true
or_true a = ground arith

patch-Attached :
    (l l' : List Network) (o new : ℕ) (dcs : List DownstreamConn)
    → ((p : ℕ) → nat_eq p o ≡ false → has_object p l ≡ true → has_object p l' ≡ true)
    → has_object new l' ≡ true
    → All (Attached l) dcs
    → All (Attached l') (patch o new dcs)
unfolding patch
patch-Attached l l' o new [] k n h = tt
patch-Attached l l' o new (dc ∷ dcs) k n h = elim (Bool-cases (points_to o dc.network)) [
  | inl here ↦ rw here (rw n (or_true dc.closed), patch-Attached l l' o new dcs k n h.1)
  | inr past ↦ rw past (stays dc.closed dc.network past h.0, patch-Attached l l' o new dcs k n h.1)
]
  where
    stays :
        (c : Bool) (p : Option ℕ)
        → points_to o p ≡ false
        → (c || points_in l p) ≡ true
        → (c || points_in l' p) ≡ true
    stays c none e a = a
    stays true (some p) e a = refl
    stays false (some p) e a = k p e a

-- The new object's names are apart from those of the networks that stay.
successor-Apart :
    (l : List Network) (r : NetworkRecord) (old n : Network) (next : ℕ)
    → n.saved ≡ r
    → n.object ≡ next
    → old.saved.id ≡ r.id
    → All (λ m. Apart m old) l
    → All (λ m. m.object < next) l
    → All (λ m. m.saved.id ≢ r.id → get_name m.saved ≢ get_name r) l
    → All (λ m. Apart m n) l
successor-Apart [] r old n next s o i a b t = tt
successor-Apart (m ∷ l) r old n next s o i a b t =
    let other : m.saved.id ≢ r.id = λ e. a.0.1 (e ∙ sym i) in
    (
      (
        (λ e. ground (arith, b.0, e, o)),
        (λ e. other (e ∙ ap (λ (q : NetworkRecord). q.id) s)),
        (λ e. t.0 other (e ∙ ap get_name s)),
      ),
      successor-Apart l r old n next s o i a.1 b.1 t.1,
    )

-- The new object, with what is handed over.
abbrev pub successor : User → Network → NetworkRecord → Network
successor u old r =
    transfer old (new_network u.next_object r (CaseMappingMap.entries old.channels.m))

pub successor-saved :
    (u : User) (old : Network) (r : NetworkRecord)
    → ((successor u old r).saved ≡ r) × ((successor u old r).object ≡ u.next_object)
unfolding transfer new_network
successor-saved u old r = (refl, refl)

-- The networks with the old object replaced by one that is apart from the rest.
replaced-IsState :
    (u : User) (old n : Network)
    → IsUser u
    → has_object old.object u.networks ≡ true
    → nat_eq u.next_object old.object ≡ false
    → All (λ m. Apart m n) (dropped old.object u.networks)
    → n.saved.id ≢ 0
    → n.object ≡ u.next_object
    → IsState
        (sort by_id (dropped old.object u.networks ++ n ∷ []))
        (patch old.object u.next_object u.downstream_conns)
        (u.next_object + 1)
replaced-IsState u old n s there ne a z o =
    let l = dropped old.object u.networks in
    let d = dropped-IsState u.networks u.downstream_conns u.next_object old.object s in
    let wider : IsState l (close_all old.object u.downstream_conns) (u.next_object + 1) = record {
      ascending = d.ascending;
      apart = d.apart;
      stored = d.stored;
      numbered = numbered_All l u.next_object (u.next_object + 1) (omega arith) d.numbered;
      attached = d.attached;
    } in
    add-IsState_moved l (close_all old.object u.downstream_conns)
      (patch old.object u.next_object u.downstream_conns) (u.next_object + 1) n wider a z
      (omega (arith, o))
      (patch-Attached u.networks (l ++ n ∷ []) old.object u.next_object u.downstream_conns
        (λ p q h. rw (has_object-snoc p l n, has_object-dropped old.object p u.networks q, h) refl)
        (rw (has_object-snoc u.next_object l n, o, (nat_eq_iff u.next_object u.next_object).1 refl)
          (or_true (has_object u.next_object l)))
        s.attached)

replaced_lookup :
    (l : List Network) (old n : Network) (id j : ℕ)
    → get_network_by_id l id ≡ some old
    → AllApart l
    → n.saved.id ≡ id
    → All (λ m. Apart m n) (dropped old.object l)
    → get_network_by_id (sort by_id (dropped old.object l ++ n ∷ [])) j
      ≡ (if nat_eq id j then some n else get_network_by_id l j)
replaced_lookup l old n id j e a i h =
    let d = dropped old.object l in
    get_network_by_id-sort by_id (d ++ n ∷ []) j
      (snoc-AllApart d n (dropped-AllApart old.object l a) h)
    ∙ get_network_by_id-snoc d n j h
    ∙ ap (λ (k : ℕ). if nat_eq k j then some n else get_network_by_id d j) i
    ∙ kept (nat_eq id j) refl
  where
    kept :
        (b : Bool)
        → nat_eq id j ≡ b
        → (if b then some n else get_network_by_id (dropped old.object l) j)
          ≡ (if b then some n else get_network_by_id l j)
    kept true p = refl
    kept false p = get_network_by_id-dropped l id j old e a p

-- The user once the old object is removed and the new one is added.
abbrev pub swapped : Server → User → Network → Network → User
swapped srv u old n =
    let um = moved u old u.next_object in
    add_network
      (record um {
        networks = dropped old.object u.networks;
        downstream_conns = close_all old.object um.downstream_conns;
        events =
            (um.events ++ stopped old.object ∷ []) ++ rename_events srv.renames old.saved n.saved;
      })
      n

pub replace_network-swapped :
    (srv : Server) (u : User) (old : Network) (r : NetworkRecord)
    → has_object old.object u.networks ≡ true
    → let n = successor u old r in
      replace_network srv u old r
      ≡ ok (notify_bouncer_network_state (swapped srv u old n) n.saved.id) n.object
unfolding replace_network moved finish_update
replace_network-swapped srv u old r h =
    ap (finish_update srv old (successor u old r))
      (remove_network-dropped (moved u old u.next_object) old.object h)

pub swapped-Updated :
    (srv : Server) (u : User) (old : Network) (r : NetworkRecord) (id : ℕ)
    → IsUser u
    → get_network_by_id u.networks id ≡ some old
    → id ≢ 0
    → r.id ≡ id
    → is_taken r u.networks ≡ false
    → let n = successor u old r in
      let u' = notify_bouncer_network_state (swapped srv u old n) n.saved.id in
      IsUser u'
      × ((j : ℕ)
          → get_network_by_id u'.networks j
            ≡ (if nat_eq id j then some n else get_network_by_id u.networks j))
      × (u'.downstream_conns ≡ patch old.object u.next_object u.downstream_conns)
unfolding add_network moved
swapped-Updated srv u old r id s e z i t =
    let n = successor u old r in
    let (saved, object) = successor-saved u old r in
    let (same_networks, same_conns, same_next) =
      notify-has_object (swapped srv u old n) n.saved.id in
    let bound =
      get_network_by_id-All (λ m. m.object < u.next_object) u.networks id old e s.numbered in
    let ne : nat_eq u.next_object old.object ≡ false = ground (arith, bound) in
    let apart =
      successor-Apart (dropped old.object u.networks) r old n u.next_object saved object
        (get_network_by_id-id u.networks id old e ∙ sym i)
        (dropped-Apart u.networks id old e s.apart)
        (dropped-All (λ m. m.object < u.next_object) old.object u.networks s.numbered)
        (dropped-All (λ m. m.saved.id ≢ r.id → get_name m.saved ≢ get_name r) old.object u.networks
          (is_taken-All r u.networks t)) in
    let own : n.saved.id ≡ id = ap (λ (q : NetworkRecord). q.id) saved ∙ i in
    let conns = close_all-patch old.object u.next_object u.downstream_conns ne in
    (
      rw (same_networks, same_conns, same_next, conns)
          (replaced-IsState u old n s (get_network_by_id-has_object u.networks id old e) ne apart
            (λ q. z (sym own ∙ q)) object),
      (λ j. rw same_networks (replaced_lookup u.networks old n id j e s.apart own apart)),
      same_conns ∙ conns,
    )
