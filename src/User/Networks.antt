-- ===== src/User/Networks.antt =====
-- user.go, the networks of a user: addNetwork, removeNetwork, checkNetwork, createNetwork,
-- updateNetwork and deleteNetwork. A network object and a downstream connection's pointer to one are
-- modelled by the object's number. What is sent to others is a list of events.
pub mod Update
pub mod Defaults
pub mod Lists
pub mod Invariant
use soju_bouncer.Prelude.{
  ℕ, ◌+◌, ◌-◌, ◌*◌, Bool, true, false, ◌&&◌, ◌||◌, not, Option, none, some, List, [], ◌∷◌, ◌++◌,
  ltb, leb, nat_eq, if◌then◌else◌, ◌==◌, nat_Eq, Str, str_Eq, pair_Eq, codes, is_empty,
}
use soju_bouncer.Prelude.Sort.{sort}
use soju_bouncer.Prelude.Text.{has_prefix}
use soju_bouncer.Database.{get_name, is_unix, url, NetworkRecord, UserRecord, Url}
use soju_bouncer.Xirc.CaseMapping.{CaseMapping, casemap_ascii, casemap_rfc1459}
use soju_bouncer.Xirc.CaseMappingMap
use soju_bouncer.Xirc.CaseMappingMap.{CaseMappingMap}
use soju_bouncer.User.Delivered.{DeliveredStore, DeliveredClientMap, new_delivered_store}

-- A saved channel; `settings` is what the networks do not look at.
pub record ChannelRecord : Type 0 where
  pub channel_name : Str
  pub settings : Str

pub record Network : Type 0 where
  pub object : ℕ
  pub saved : NetworkRecord
  pub connected : Bool
  pub channels : CaseMappingMap ChannelRecord
  pub delivered : DeliveredStore
  pub push_targets : CaseMappingMap ℕ
  pub last_error : Option Str
  pub casemap : CaseMapping

pub record DownstreamConn : Type 0 where
  pub conn_id : ℕ
  pub network : Option ℕ
  pub closed : Bool
  pub notified : Bool

-- What the operations do beside the user's own state: goroutines that start and stop, an upstream
-- connection that is given up, BOUNCER messages to a connection, and the renaming of logs.
pub data Event : Type 0 where
  started stopped disconnected : ℕ → Event
  state_sent deletion_sent : ℕ → ℕ → Event
  renamed : Str → Str → Event

pub record User : Type 0 where
  pub account : UserRecord
  pub networks : List Network
  pub downstream_conns : List DownstreamConn
  pub next_object : ℕ
  pub events : List Event

pub data NetworkError : Type 0 where
  limit_reached bad_url url_user url_query url_fragment no_host has_path : NetworkError
  not_admin has_host no_path unknown_scheme name_empty name_dash name_taken : NetworkError
  store_failed : NetworkError

-- The result of an operation: the user and what is returned, an error, or the panic.
pub data Outcome {ℓ} (A : Type ℓ) : Type ℓ where
  ok : User → A → Outcome A
  err : NetworkError → Outcome A
  panic : Outcome A

-- The database, as far as it answers, and what the configuration allows. `insert_network` gives the
-- id of a new network. `renames` says whether the message store is told of new names.
pub record Server : Type 0 where
  pub parse_url : Str → Option Url
  pub insert_network : NetworkRecord → Option ℕ
  pub update_row : NetworkRecord → Bool
  pub delete_row : ℕ → Bool
  pub max_user_networks : Option ℕ
  pub renames : Bool

unfoldable pub get_network_by_id : List Network → ℕ → Option Network
get_network_by_id [] id = none
get_network_by_id (n ∷ l) id = if nat_eq n.saved.id id then some n else get_network_by_id l id

abbrev pub by_id : Network → Network → Bool
by_id a b = ltb a.saved.id b.saved.id

unfoldable pub add_network : User → Network → User
add_network u n = record u {
  networks = sort by_id (u.networks ++ n ∷ []);
  events = u.events ++ started n.object ∷ [];
}

-- The network object, taken out of the list; `none` where it is not there.
unfoldable pub remove_object : ℕ → List Network → Option (List Network)
remove_object o [] = none
remove_object o (n ∷ l) =
    let rest = remove_object o l in
    if nat_eq n.object o then some l else elim rest [ none ↦ none | some l' ↦ some (n ∷ l') ]

abbrev pub points_to : ℕ → Option ℕ → Bool
points_to o none = false
points_to o (some p) = nat_eq p o

unfoldable pub close_all : ℕ → List DownstreamConn → List DownstreamConn
close_all o [] = []
close_all o (dc ∷ l) =
    (if points_to o dc.network then record dc { closed = true } else dc) ∷ close_all o l

-- `none` is the panic on a network that is not there.
unfoldable pub remove_network : User → ℕ → Option User
unfolding remove_object close_all
remove_network u o = elim (remove_object o u.networks) [
  | none ↦ none
  | some l ↦ some (record u {
    networks = l;
    downstream_conns = close_all o u.downstream_conns;
    events = u.events ++ stopped o ∷ [];
  })
]

unfoldable pub count_enabled : List Network → ℕ
count_enabled [] = 0
count_enabled (n ∷ l) = if n.saved.enabled then count_enabled l + 1 else count_enabled l

-- The user's limit, or that of the configuration; `none` for no limit.
abbrev pub limit_of : Server → User → Option ℕ
limit_of srv u = elim u.account.max_networks [ none ↦ srv.max_user_networks | some m ↦ some m ]

abbrev pub below_limit : Option ℕ → ℕ → Bool
below_limit none n = true
below_limit (some max) n = not (leb max n)

unfoldable pub can_enable_new_network : Server → User → Bool
unfolding count_enabled
can_enable_new_network srv u = below_limit (limit_of srv u) (count_enabled u.networks)

abbrev pub check_scheme : Bool → Url → Option NetworkError
check_scheme admin u =
    if u.scheme == codes "ircs" || u.scheme == codes "irc+insecure"
    then (if is_empty u.host
        then some no_host
        else if not (is_empty u.path)
        then some has_path
        else none)
    else if is_unix u.scheme
    then (if not admin
        then some not_admin
        else if not (is_empty u.host)
        then some has_host
        else if is_empty u.path
        then some no_path
        else none)
    else some unknown_scheme

abbrev pub check_url : Bool → Option Url → Option NetworkError
check_url admin none = some bad_url
check_url admin (some u) =
    if u.has_user
    then some url_user
    else if not (is_empty u.raw_query)
    then some url_query
    else if not (is_empty u.fragment)
    then some url_fragment
    else check_scheme admin u

unfoldable pub is_taken : NetworkRecord → List Network → Bool
unfolding get_name
is_taken r [] = false
is_taken r (n ∷ l) =
    (get_name n.saved == get_name r && not (nat_eq n.saved.id r.id)) || is_taken r l

abbrev pub check_name : NetworkRecord → List Network → Option NetworkError
check_name r l =
    if is_empty (get_name r)
    then some name_empty
    else if has_prefix (get_name r) (codes "-")
    then some name_dash
    else if is_taken r l
    then some name_taken
    else none

-- `none` where the record is accepted.
unfoldable pub check_network : Server → User → NetworkRecord → Option NetworkError
check_network srv u r = elim (check_url u.account.admin (url srv.parse_url r)) [
  | some e ↦ some e
  | none ↦ check_name r u.networks
]

-- The id that the database gives to a record: a new one, or the one that it has.
unfoldable pub store_network : Server → NetworkRecord → Option NetworkRecord
store_network srv r =
    if nat_eq r.id 0
    then elim (srv.insert_network r) [ none ↦ none | some id ↦ some (record r { id = id }) ]
    else if srv.update_row r
    then some r
    else none

abbrev pub set_channels :
    List (Str × ChannelRecord) → CaseMappingMap ChannelRecord → CaseMappingMap ChannelRecord
set_channels [] m = m
set_channels ((_, ch) ∷ l) m = set_channels l (CaseMappingMap.set m ch.channel_name ch)

unfoldable pub new_network : ℕ → NetworkRecord → List (Str × ChannelRecord) → Network
new_network object r channels = record {
  object = object;
  saved = r;
  connected = false;
  channels = set_channels channels (CaseMappingMap.new casemap_ascii);
  delivered = new_delivered_store casemap_ascii;
  push_targets = CaseMappingMap.new casemap_ascii;
  last_error = none;
  casemap = casemap_rfc1459;
}

abbrev pub has_id : ℕ → List Network → Bool
has_id id [] = false
has_id id (n ∷ l) = nat_eq n.saved.id id || has_id id l

abbrev pub state_messages : ℕ → List DownstreamConn → List Event
state_messages id [] = []
state_messages id (dc ∷ l) =
    if dc.notified then state_sent dc.conn_id id ∷ state_messages id l else state_messages id l

-- No update is sent for a network that was removed.
unfoldable pub notify_bouncer_network_state : User → ℕ → User
notify_bouncer_network_state u id =
    if has_id id u.networks
    then record u { events = u.events ++ state_messages id u.downstream_conns }
    else u

abbrev pub create_stored : User → Option NetworkRecord → Outcome ℕ
create_stored u none = err store_failed
create_stored u (some r) =
    let n = new_network u.next_object r [] in
    ok
      (notify_bouncer_network_state (add_network (record u { next_object = u.next_object + 1 }) n)
        r.id)
      n.object

unfoldable pub create_network : Server → User → NetworkRecord → Bool → Outcome ℕ
unfolding can_enable_new_network
create_network srv u r enforce_limit =
    if not (nat_eq r.id 0)
    then panic
    else if (enforce_limit && r.enabled) && not (can_enable_new_network srv u)
    then err limit_reached
    else elim (check_network srv u r) [
      | some e ↦ err e
      | none ↦ create_stored u (store_network srv r)
    ]
