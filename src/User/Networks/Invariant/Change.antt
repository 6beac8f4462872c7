-- ===== src/User/Networks/Invariant/Change.antt =====
-- updateNetwork and deleteNetwork of user.go: what they change, and when they are refused.
use soju_bouncer.Prelude.{
  ℕ, ◌<◌, ◌≡◌, refl, ◌≢◌, inl, inr, Bool, true, false, ◌||◌, Option, none, some, List, [], ◌∷◌,
  ◌++◌, nat_eq, if◌then◌else◌, nat_eq_iff, Bool-cases, nat_Eq, str_Eq, pair_Eq, All,
}
use soju_bouncer.User.Networks.{
  Server, User, Network, DownstreamConn, Outcome, stopped, store_failed, ok, err, panic, points_to,
  close_all, remove_network, get_network_by_id,
}
use soju_bouncer.User.Networks.Update.{finish_delete, delete_network}
use soju_bouncer.User.Networks.Lists.{
  AllApart, has_object, get_network_by_id-id, dropped, remove_object-dropped, dropped-All,
  dropped-AllApart, has_object-dropped, get_network_by_id-has_object, dropped-Apart,
  dropped-Ascending, get_network_by_id-dropped, get_network_by_id-gone,
}
use soju_bouncer.User.Networks.Invariant.{IsState, IsUser, Attached, points_in}

-- Every connection to a network that goes is closed.
close_all-Attached :
    (l l' : List Network) (o : ℕ) (dcs : List DownstreamConn)
    → ((p : ℕ) → nat_eq p o ≡ false → has_object p l' ≡ has_object p l)
    → All (Attached l) dcs
    → All (Attached l') (close_all o dcs)
unfolding close_all
close_all-Attached l l' o [] k h = tt
close_all-Attached l l' o (dc ∷ dcs) k h = elim (Bool-cases (points_to o dc.network)) [
  | inl here ↦ rw here (refl, close_all-Attached l l' o dcs k h.1)
  | inr past ↦ rw past (rw (same dc.network past) h.0, close_all-Attached l l' o dcs k h.1)
]
  where
    same : (p : Option ℕ) → points_to o p ≡ false → points_in l' p ≡ points_in l p
    same none e = refl
    same (some p) e = k p e

pub dropped-IsState :
    (l : List Network) (dcs : List DownstreamConn) (next o : ℕ)
    → IsState l dcs next
    → IsState (dropped o l) (close_all o dcs) next
dropped-IsState l dcs next o s = record {
  ascending = dropped-Ascending o l s.ascending;
  apart = dropped-AllApart o l s.apart;
  stored = dropped-All (λ m. m.saved.id ≢ 0) o l s.stored;
  numbered = dropped-All (λ m. m.object < next) o l s.numbered;
  attached =
      close_all-Attached l (dropped o l) o dcs (λ p h. has_object-dropped o p l h) s.attached;
}

-- The connections to an object are closed, those that are not are as they were, and no other
-- attribute of a connection is changed.
abbrev pub ClosesOn : ℕ → List DownstreamConn → List DownstreamConn → Type 0
ClosesOn o [] [] = Unit
ClosesOn o (dc ∷ l) (dc' ∷ l') =
    ((dc'.closed ≡ (points_to o dc.network || dc.closed))
      × (dc'.network ≡ dc.network)
      × (dc'.conn_id ≡ dc.conn_id)
      × (dc'.notified ≡ dc.notified))
    × ClosesOn o l l'
ClosesOn o _ _ = ⊥

close_all-ClosesOn : (o : ℕ) (dcs : List DownstreamConn) → ClosesOn o dcs (close_all o dcs)
unfolding close_all
close_all-ClosesOn o [] = tt
close_all-ClosesOn o (dc ∷ dcs) = elim (Bool-cases (points_to o dc.network)) [
  | inl here ↦ rw here ((refl, refl, refl, refl), close_all-ClosesOn o dcs)
  | inr past ↦ rw past ((refl, refl, refl, refl), close_all-ClosesOn o dcs)
]

abbrev pub Deleted : Server → User → Network → Outcome (Unit {0}) → Type 0
Deleted srv u n (ok u' _) =
    IsUser u'
    × (srv.delete_row n.saved.id ≡ true)
    × ((id : ℕ)
        → get_network_by_id u'.networks id
          ≡ (if nat_eq n.saved.id id then none else get_network_by_id u.networks id))
    × ClosesOn n.object u.downstream_conns u'.downstream_conns
Deleted srv u n (err e) = srv.delete_row n.saved.id ≡ false
Deleted srv u n panic = ⊥

deleted_lookup :
    (l : List Network) (n : Network) (id j : ℕ)
    → get_network_by_id l id ≡ some n
    → AllApart l
    → get_network_by_id (dropped n.object l) j
      ≡ (if nat_eq n.saved.id j then none else get_network_by_id l j)
deleted_lookup l n id j e a = elim (Bool-cases (nat_eq n.saved.id j)) [
  | inl here ↦
      rw (here, ← (nat_eq_iff n.saved.id j).0 here)
        (get_network_by_id-gone (dropped n.object l) n (dropped-Apart l id n e a))
  | inr past ↦
      rw past (get_network_by_id-dropped l id j n e a (rw (get_network_by_id-id l id n e) at past))
]

pub remove_network-dropped :
    (u : User) (o : ℕ)
    → has_object o u.networks ≡ true
    → remove_network u o
      ≡ some (record u {
        networks = dropped o u.networks;
        downstream_conns = close_all o u.downstream_conns;
        events = u.events ++ stopped o ∷ [];
      })
unfolding remove_network
remove_network-dropped u o h = rw (remove_network, remove_object-dropped o u.networks h) refl

-- Deleting a network that is there takes it away and no other, keeps the rest in order, and closes
-- the clients that are on it; every other client stays as it is, open or closed, on its network. It
-- is refused exactly if the database fails.
pub delete_network-Deleted :
    (srv : Server) (u : User) (id : ℕ) (n : Network)
    → IsUser u
    → get_network_by_id u.networks id ≡ some n
    → Deleted srv u n (delete_network srv u id)
unfolding delete_network
delete_network-Deleted srv u id n s e = rw e (answered (srv.delete_row n.saved.id) refl)
  where
    answered :
        (b : Bool)
        → srv.delete_row n.saved.id ≡ b
        → Deleted srv u n
            (if b then finish_delete n.saved.id (remove_network u n.object) else err store_failed)
    answered false p = p
    answered true p =
        rw (remove_network-dropped u n.object (get_network_by_id-has_object u.networks id n e)) (
          dropped-IsState u.networks u.downstream_conns u.next_object n.object s,
          p,
          (λ j. deleted_lookup u.networks n id j e s.apart),
          close_all-ClosesOn n.object u.downstream_conns,
        )
