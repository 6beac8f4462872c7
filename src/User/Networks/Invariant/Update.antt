-- ===== src/User/Networks/Invariant/Update.antt =====
-- updateNetwork of user.go: the network object is replaced by a new one.
use soju_bouncer.Prelude.{
  ℕ, ◌≡◌, refl, sym, ap, ◌∙◌, ◌≢◌, inl, inr, Bool, true, false, ◌&&◌, ◌||◌, not, none, some, nat_eq,
  ◌<◌, List, [], ◌∷◌, Str, ◌==◌, list_eq_iff, All, arith, if◌then◌else◌, Bool-cases, Option-cases,
  nat_Eq, str_Eq, pair_Eq, is_some,
}
use mathlib.Core.Path.{subst}
use soju_bouncer.Database.{NetworkRecord, UserRecord}
use soju_bouncer.User.Networks.{
  Server, User, Network, DownstreamConn, points_to, Outcome, ok, err, panic, get_network_by_id,
  check_network, can_enable_new_network, store_network, store_failed, limit_reached, NetworkError,
}
use soju_bouncer.User.Networks.Update.{
  wipe_defaults, patch, replace_network, update_found, update_network,
}
use soju_bouncer.User.Networks.Lists.{get_network_by_id-has_object, not_same, has_object}
use soju_bouncer.User.Networks.Invariant.{IsUser, check_network-is_taken}
use soju_bouncer.User.Networks.Invariant.Create.{refused_late, accepted, refused_by}
use soju_bouncer.User.Networks.Invariant.Swap.{
  successor, successor-saved, replace_network-swapped, swapped-Updated,
}

-- The connections to an object are moved to another one, and nothing else of them is changed.
abbrev pub MovesOn : ℕ → ℕ → List DownstreamConn → List DownstreamConn → Type 0
MovesOn old o [] [] = Unit
MovesOn old o (dc ∷ l) (dc' ∷ l') =
    ((dc'.network ≡ (if points_to old dc.network then some o else dc.network))
      × (dc'.closed ≡ dc.closed)
      × (dc'.conn_id ≡ dc.conn_id)
      × (dc'.notified ≡ dc.notified))
    × MovesOn old o l l'
MovesOn old o _ _ = ⊥

patch-MovesOn : (old o : ℕ) (dcs : List DownstreamConn) → MovesOn old o dcs (patch old o dcs)
unfolding patch
patch-MovesOn old o [] = tt
patch-MovesOn old o (dc ∷ dcs) = elim (Bool-cases (points_to old dc.network)) [
  | inl here ↦ rw (here, patch) ((refl, refl, refl, refl), patch-MovesOn old o dcs)
  | inr past ↦ rw (past, patch) ((refl, refl, refl, refl), patch-MovesOn old o dcs)
]

-- An object whose number is not below those that are in use is new.
unused : (l : List Network) (next : ℕ) → All (λ n. n.object < next) l → has_object next l ≡ false
unused [] next h = refl
unused (n ∷ l) next h = ground (arith, h.0, unused l next h.1)

-- A record with the user's own nickname and real name left out, and nothing else changed.
pub record IsWiped (account : UserRecord) (r wiped : NetworkRecord) : Type 0 where
  pub rest : wiped ≡ record r { nick = wiped.nick; realname = wiped.realname }
  pub own_nick : r.nick ≡ account.nick → wiped.nick ≡ []
  pub other_nick : r.nick ≢ account.nick → wiped.nick ≡ r.nick
  pub own_realname : r.realname ≡ account.realname → wiped.realname ≡ []
  pub other_realname : r.realname ≢ account.realname → wiped.realname ≡ r.realname

own_left_out : (a b : Str) → a ≡ b → (if a == b then [] else a) ≡ []
own_left_out a b e = rw ((list_eq_iff a b).1 e) refl

other_kept : (a b : Str) → a ≢ b → (if a == b then [] else a) ≡ a
other_kept a b ne = elim (Bool-cases (a == b)) [
  | inl e ↦ absurd (ne ((list_eq_iff a b).0 e))
  | inr e ↦ rw e refl
]

wipe_defaults-IsWiped :
    (account : UserRecord) (r : NetworkRecord) → IsWiped account r (wipe_defaults account r)
wipe_defaults-IsWiped account r = record {
  rest = refl;
  own_nick = own_left_out r.nick account.nick;
  other_nick = other_kept r.nick account.nick;
  own_realname = own_left_out r.realname account.realname;
  other_realname = other_kept r.realname account.realname;
}

-- Whether `updateNetwork` refuses a record, which is to be stored as it is wiped.
abbrev pub is_update_refused : Server → User → NetworkRecord → NetworkRecord → Bool → Bool
is_update_refused srv u r wiped enforce_limit =
    ((enforce_limit && r.enabled) && not (can_enable_new_network srv u))
    || (is_some (check_network srv u wiped) || not (srv.update_row wiped))

-- The user with the replaced network, or the reason why it stays.
abbrev pub Updated :
    Server → User → NetworkRecord → NetworkRecord → Bool → Network → Outcome ℕ → Type 0
Updated srv u r wiped enforce_limit old (ok u' o) =
    IsUser u'
    × (is_update_refused srv u r wiped enforce_limit ≡ false)
    × (has_object o u.networks ≡ false)
    × (n : Network) × (n.saved ≡ wiped)
    × (n.object ≡ o)
    × ((id : ℕ)
        → get_network_by_id u'.networks id
          ≡ (if nat_eq r.id id then some n else get_network_by_id u.networks id))
    × MovesOn old.object o u.downstream_conns u'.downstream_conns
Updated srv u r wiped enforce_limit old (err e) =
    is_update_refused srv u r wiped enforce_limit ≡ true
Updated srv u r wiped enforce_limit old panic = ⊥

store_network-kept :
    (srv : Server) (r : NetworkRecord)
    → r.id ≢ 0
    → store_network srv r ≡ (if srv.update_row r then some r else none)
unfolding store_network
store_network-kept srv r z = rw (store_network, not_same r.id 0 z) refl

-- Whether the limit is in the way.
abbrev is_over : Server → User → NetworkRecord → Bool → Bool
is_over srv u r enforce_limit = (enforce_limit && r.enabled) && not (can_enable_new_network srv u)

-- The answer of the database, and what follows from it.
abbrev after_store : Server → User → NetworkRecord → Network → Bool → Outcome ℕ
after_store srv u r old b = if b then replace_network srv u old r else err store_failed

update_found-after_store :
    (srv : Server) (u : User) (r : NetworkRecord) (old : Network)
    → r.id ≢ 0
    → update_found srv u r (some old) ≡ after_store srv u r old (srv.update_row r)
unfolding update_found
update_found-after_store srv u r old z =
    rw (update_found, store_network-kept srv r z) (answered (srv.update_row r))
  where
    answered :
        (b : Bool)
        → elim (if b then some r else none) as (λ _. Outcome ℕ) [
          | none ↦ err store_failed
          | some r' ↦ replace_network srv u old r'
        ]
          ≡ after_store srv u r old b
    answered true = refl
    answered false = refl

after_store-Updated :
    (srv : Server) (u : User) (r : NetworkRecord) (enforce_limit : Bool) (old : Network) (b : Bool)
    → IsUser u
    → r.id ≢ 0
    → get_network_by_id u.networks r.id ≡ some old
    → is_over srv u r enforce_limit ≡ false
    → check_network srv u (wipe_defaults u.account r) ≡ none
    → srv.update_row (wipe_defaults u.account r) ≡ b
    → Updated srv u r
        (wipe_defaults u.account r)
        enforce_limit
        old
        (after_store srv u (wipe_defaults u.account r) old b)
after_store-Updated srv u r enforce_limit old false s z e within good p =
    refused_late (is_over srv u r enforce_limit)
      (is_some (check_network srv u (wipe_defaults u.account r)))
      (not (srv.update_row (wipe_defaults u.account r))) (rw (good, p) refl)
after_store-Updated srv u r enforce_limit old true s z e within good p =
    let wiped = wipe_defaults u.account r in
    let n = successor u old wiped in
    let (saved, object) = successor-saved u old wiped in
    let (keeps, lookups, conns) =
      swapped-Updated srv u old wiped r.id s e z refl (check_network-is_taken srv u wiped good) in
    subst (λ o. Updated srv u r (wipe_defaults u.account r) enforce_limit old o)
      (sym (
        replace_network-swapped srv u old wiped
          (get_network_by_id-has_object u.networks r.id old e)))
      (
        keeps,
        accepted (is_over srv u r enforce_limit) (is_some (check_network srv u wiped))
            (not (srv.update_row wiped)) within (rw good refl) (rw p refl),
        ap (λ k. has_object k u.networks) object ∙ unused u.networks u.next_object s.numbered,
        n,
        saved,
        refl,
        lookups,
        subst (MovesOn old.object n.object u.downstream_conns)
            (sym (conns ∙ ap (λ k. patch old.object k u.downstream_conns) (sym object)))
            (patch-MovesOn old.object n.object u.downstream_conns),
      )

update_network-over :
    (srv : Server) (u : User) (r : NetworkRecord) (enforce_limit : Bool)
    → r.id ≢ 0
    → is_over srv u r enforce_limit ≡ true
    → update_network srv u r enforce_limit ≡ err limit_reached
unfolding update_network
update_network-over srv u r enforce_limit z over = rw (update_network, not_same r.id 0 z, over) refl

update_network-bad :
    (srv : Server) (u : User) (r : NetworkRecord) (enforce_limit : Bool) (k : NetworkError)
    → r.id ≢ 0
    → is_over srv u r enforce_limit ≡ false
    → check_network srv u (wipe_defaults u.account r) ≡ some k
    → update_network srv u r enforce_limit ≡ err k
unfolding update_network
update_network-bad srv u r enforce_limit k z within bad =
    rw (update_network, not_same r.id 0 z, within, bad) refl

update_network-good :
    (srv : Server) (u : User) (r : NetworkRecord) (enforce_limit : Bool) (old : Network)
    → r.id ≢ 0
    → is_over srv u r enforce_limit ≡ false
    → check_network srv u (wipe_defaults u.account r) ≡ none
    → get_network_by_id u.networks r.id ≡ some old
    → update_network srv u r enforce_limit
      ≡ update_found srv u (wipe_defaults u.account r) (some old)
unfolding update_network
update_network-good srv u r enforce_limit old z within good e =
    rw (update_network, not_same r.id 0 z, within, good, e) refl

update_network-as_wiped :
    (srv : Server) (u : User) (r : NetworkRecord) (enforce_limit : Bool) (old : Network)
    → IsUser u
    → r.id ≢ 0
    → get_network_by_id u.networks r.id ≡ some old
    → Updated srv u r
        (wipe_defaults u.account r)
        enforce_limit
        old
        (update_network srv u r enforce_limit)
update_network-as_wiped srv u r enforce_limit old s z e =
    elim (Bool-cases (is_over srv u r enforce_limit)) [
      | inl over ↦
          subst (λ o. Updated srv u r (wipe_defaults u.account r) enforce_limit old o)
            (sym (update_network-over srv u r enforce_limit z over))
            (refused_by (is_over srv u r enforce_limit) _ over)
      | inr within ↦ elim (Option-cases (check_network srv u (wipe_defaults u.account r))) [
        | inr (k, bad) ↦
            subst (λ o. Updated srv u r (wipe_defaults u.account r) enforce_limit old o)
              (sym (update_network-bad srv u r enforce_limit k z within bad))
              (refused_late (is_over srv u r enforce_limit)
                (is_some (check_network srv u (wipe_defaults u.account r)))
                (not (srv.update_row (wipe_defaults u.account r))) (rw bad refl))
        | inl good ↦
            subst (λ o. Updated srv u r (wipe_defaults u.account r) enforce_limit old o)
              (sym (
                update_network-good srv u r enforce_limit old z within good e
                ∙ update_found-after_store srv u (wipe_defaults u.account r) old z))
              (after_store-Updated srv u r enforce_limit old
                (srv.update_row (wipe_defaults u.account r)) s z e within good refl)
      ]
    ]

-- Updating a network that is there replaces it by a new object, which no network had, with the new
-- record, in which a nickname or a real name that is the user's own is left empty; the other networks
-- stay; the networks stay sorted by their ids, with different ids and names; and the clients of the
-- network are moved to the new object, none of them closed. It is refused exactly if the record is
-- enabled and the limit, where it is enforced, is reached, be the network enabled already or not, if
-- the record is not valid or its name is taken, or if the database fails.
pub update_network-Updated :
    (srv : Server) (u : User) (r : NetworkRecord) (enforce_limit : Bool) (old : Network)
    → IsUser u
    → r.id ≢ 0
    → get_network_by_id u.networks r.id ≡ some old
    → (wiped : NetworkRecord) × IsWiped u.account r wiped
      × Updated srv u r wiped enforce_limit old (update_network srv u r enforce_limit)
update_network-Updated srv u r enforce_limit old s z e = (
  wipe_defaults u.account r,
  wipe_defaults-IsWiped u.account r,
  update_network-as_wiped srv u r enforce_limit old s z e,
)
