-- ===== src/User/Networks/Update.antt =====
-- user.go, updateNetwork and deleteNetwork.
use soju_bouncer.Prelude.{
  ℕ, ◌+◌, Bool, ◌&&◌, not, Option, none, some, List, [], ◌∷◌, ◌++◌, nat_eq, if◌then◌else◌, ◌==◌,
  nat_Eq, str_Eq, pair_Eq,
}
use soju_bouncer.Database.{get_name, NetworkRecord, UserRecord}
use soju_bouncer.Xirc.CaseMapping.{CaseMapping}
use soju_bouncer.Xirc.CaseMappingMap
use soju_bouncer.User.Networks.{
  renamed, store_failed, ok, err, panic, get_network_by_id, add_network, points_to, remove_network,
  can_enable_new_network, check_network, store_network, new_network, notify_bouncer_network_state,
  Network, DownstreamConn, Event, User, Outcome, Server, limit_reached, stopped, disconnected,
  deletion_sent,
}

-- A nickname or a real name that is the user's own is not kept for the network.
abbrev pub wipe_defaults : UserRecord → NetworkRecord → NetworkRecord
wipe_defaults account r = record r {
  nick = if r.nick == account.nick then [] else r.nick;
  realname = if r.realname == account.realname then [] else r.realname;
}

unfoldable pub patch : ℕ → ℕ → List DownstreamConn → List DownstreamConn
patch old new [] = []
patch old new (dc ∷ l) =
    (if points_to old dc.network then record dc { network = some new } else dc) ∷ patch old new l

unfoldable pub update_casemapping : Network → CaseMapping → Network
update_casemapping n cm = record n {
  casemap = cm;
  channels = CaseMappingMap.set_case_mapping n.channels cm;
  delivered = CaseMappingMap.set_case_mapping n.delivered cm;
  push_targets = CaseMappingMap.set_case_mapping n.push_targets cm;
}

-- The attributes that are not in the record are handed over.
unfoldable pub transfer : Network → Network → Network
unfolding update_casemapping
transfer old n =
    update_casemapping
      (record n {
        delivered = old.delivered;
        push_targets = old.push_targets;
        last_error = if n.saved.enabled then old.last_error else n.last_error;
      })
      old.casemap

abbrev pub disconnect : Network → List Event
disconnect n = stopped n.object ∷ (if n.connected then disconnected n.object ∷ [] else [])

unfoldable pub rename_events : Bool → NetworkRecord → NetworkRecord → List Event
unfolding get_name
rename_events renames old new =
    if renames && not (get_name new == get_name old)
    then renamed (get_name old) (get_name new) ∷ []
    else []

-- The network is stopped, the downstream connections are moved to the new object.
unfoldable pub moved : User → Network → ℕ → User
unfolding patch
moved u n new = record u {
  downstream_conns = patch n.object new u.downstream_conns;
  next_object = new + 1;
  events = u.events ++ disconnect n;
}

unfoldable pub finish_update : Server → Network → Network → Option User → Outcome ℕ
unfolding rename_events
finish_update srv old new none = panic
finish_update srv old new (some u) =
    ok
      (notify_bouncer_network_state
        (add_network
          (record u { events = u.events ++ rename_events srv.renames old.saved new.saved }) new)
        new.saved.id)
      new.object

unfoldable pub replace_network : Server → User → Network → NetworkRecord → Outcome ℕ
unfolding transfer moved finish_update
replace_network srv u old r =
    let new = transfer old (new_network u.next_object r (CaseMappingMap.entries old.channels.m)) in
    finish_update srv old new (remove_network (moved u old u.next_object) old.object)

unfoldable pub update_found : Server → User → NetworkRecord → Option Network → Outcome ℕ
unfolding replace_network
update_found srv u r none = panic
update_found srv u r (some old) = elim (store_network srv r) [
  | none ↦ err store_failed
  | some r' ↦ replace_network srv u old r'
]

unfoldable pub update_network : Server → User → NetworkRecord → Bool → Outcome ℕ
unfolding update_found
update_network srv u r enforce_limit =
    let wiped = wipe_defaults u.account r in
    if nat_eq r.id 0
    then panic
    else if (enforce_limit && r.enabled) && not (can_enable_new_network srv u)
    then err limit_reached
    else elim (check_network srv u wiped) [
      | some e ↦ err e
      | none ↦ update_found srv u wiped (get_network_by_id u.networks wiped.id)
    ]

abbrev pub deletion_messages : ℕ → List DownstreamConn → List Event
deletion_messages id [] = []
deletion_messages id (dc ∷ l) =
    if dc.notified
    then deletion_sent dc.conn_id id ∷ deletion_messages id l
    else deletion_messages id l

abbrev pub finish_delete : ℕ → Option User → Outcome (Unit {0})
finish_delete id none = panic
finish_delete id (some u) =
    ok (record u { events = u.events ++ deletion_messages id u.downstream_conns }) tt

abbrev pub delete_found : Server → User → Option Network → Outcome (Unit {0})
delete_found srv u none = panic
delete_found srv u (some n) =
    if srv.delete_row n.saved.id
    then finish_delete n.saved.id (remove_network u n.object)
    else err store_failed

unfoldable pub delete_network : Server → User → ℕ → Outcome (Unit {0})
delete_network srv u id = delete_found srv u (get_network_by_id u.networks id)
