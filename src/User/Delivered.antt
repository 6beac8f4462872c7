-- ===== src/User/Delivered.antt =====
-- user.go, deliveredStore: the last message that was delivered to each client, for each target.
use soju_bouncer.Prelude.{
  ◌≡◌, refl, inl, inr, Bool, true, ◌&&◌, ◌||◌, Option, none, some, List, [], ◌∷◌, arith, nat_eq,
  if◌then◌else◌, Bool-cases, ◌==◌, nat_Eq, list_eq_iff, Str, str_Eq, pair_Eq, lookup, insert,
  is_some, value_or, lookup-insert, contains,
}
use soju_bouncer.Xirc.CaseMapping.{CaseMapping}
use soju_bouncer.Xirc.CaseMappingMap
use soju_bouncer.Xirc.CaseMappingMap.{CaseMappingMap, Entry}
use soju_bouncer.Xirc.CaseMappingMap.Laws.{get-set}

-- Client names with their message ids; `none` is the nil map.
abbrev pub DeliveredClientMap : Type 0
DeliveredClientMap = Option (List (Str × Str))

abbrev pub DeliveredStore : Type 0
DeliveredStore = CaseMappingMap DeliveredClientMap

unfoldable pub new_delivered_store : CaseMapping → DeliveredStore
unfolding CaseMappingMap.new
new_delivered_store cm = CaseMappingMap.new cm

unfoldable pub empty : DeliveredStore → Bool
unfolding CaseMappingMap.len
empty ds = nat_eq (CaseMappingMap.len ds) 0

unfoldable pub has_target : DeliveredStore → Str → Bool
has_target ds target = is_some (CaseMappingMap.get none ds target)

abbrev pub load_client : DeliveredClientMap → Str → Str
load_client none client_name = []
load_client (some clients) client_name = value_or (lookup client_name clients) []

unfoldable pub load_id : DeliveredStore → Str → Str → Str
load_id ds target client_name = load_client (CaseMappingMap.get none ds target) client_name

abbrev pub store_client : DeliveredClientMap → Str → Str → DeliveredClientMap
store_client none client_name msg_id = some (insert client_name msg_id [])
store_client (some clients) client_name msg_id = some (insert client_name msg_id clients)

-- The map of a target's clients is shared, so that a write to it is a write to the store.
unfoldable pub store_id : DeliveredStore → Str → Str → Str → DeliveredStore
store_id ds target client_name msg_id =
    CaseMappingMap.set ds target
      (store_client (CaseMappingMap.get none ds target) client_name msg_id)

abbrev pub targets_of : List (Str × DeliveredClientMap) → List Str
targets_of [] = []
targets_of ((name, _) ∷ l) = name ∷ targets_of l

unfoldable pub for_each_target : DeliveredStore → List Str
unfolding CaseMappingMap.entries
for_each_target ds = targets_of (CaseMappingMap.entries ds.m)

abbrev add_name : Str → List Str → List Str
add_name name names = if contains name names then names else name ∷ names

abbrev add_clients : List (Str × Str) → List Str → List Str
add_clients [] names = names
add_clients ((client, _) ∷ clients) names = add_name client (add_clients clients names)

abbrev add_all : List (Str × DeliveredClientMap) → List Str → List Str
add_all [] names = names
add_all ((_, none) ∷ l) names = add_all l names
add_all ((_, some clients) ∷ l) names = add_clients clients (add_all l names)

-- The clients of all targets, each of them once. Go leaves the order open.
unfoldable pub for_each_client : DeliveredStore → List Str
unfolding CaseMappingMap.entries
for_each_client ds = add_all (CaseMappingMap.entries ds.m) []

load_client-store_client :
    (clients : DeliveredClientMap) (client other msg_id : Str)
    → load_client (store_client clients client msg_id) other
      ≡ (if client == other then msg_id else load_client clients other)
unfolding lookup
load_client-store_client none client other msg_id =
    ground (arith, lookup-insert client other msg_id [])
load_client-store_client (some clients) client other msg_id =
    ground (arith, lookup-insert client other msg_id clients)

is_some-store_client :
    (clients : DeliveredClientMap) (client msg_id : Str)
    → is_some (store_client clients client msg_id) ≡ true
is_some-store_client none client msg_id = refl
is_some-store_client (some clients) client msg_id = refl

get_same :
    (ds : DeliveredStore) (a b : Str)
    → ds.casemap a ≡ ds.casemap b
    → CaseMappingMap.get none ds a ≡ CaseMappingMap.get none ds b
unfolding CaseMappingMap.get
get_same ds a b e = rw e refl

-- After `StoreID` the id is loaded for the client and every spelling of the target; every other
-- target and every other client reads as before; and the target is there.
pub load_id-store_id :
    (ds : DeliveredStore) (target client msg_id name other : Str)
    → (load_id (store_id ds target client msg_id) name other ≡ (
        if (ds.casemap target == ds.casemap name) && client == other
        then msg_id
        else load_id ds name other))
      × (has_target (store_id ds target client msg_id) name
          ≡ ((ds.casemap target == ds.casemap name) || has_target ds name))
unfolding load_id store_id has_target
load_id-store_id ds target client msg_id name other =
    let clients = CaseMappingMap.get none ds target in
    let read = get-set none (store_client clients client msg_id) ds target name in
    elim (Bool-cases (ds.casemap target == ds.casemap name)) [
      | inl same ↦
          let e =
            get_same ds target name ((list_eq_iff (ds.casemap target) (ds.casemap name)).0 same) in
          rw (read, same)
            (
              rw (← e) (load_client-store_client clients client other msg_id),
              is_some-store_client clients client msg_id,
            )
      | inr apart ↦ rw (read, apart) (refl, refl)
    ]
