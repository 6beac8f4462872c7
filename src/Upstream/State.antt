-- ===== src/Upstream/State.antt =====
-- upstream.go, the state of a connection to a server: its channels, the users that it knows of, and
-- what the handlers of messages read and write. What a handler does to others is a list of outputs,
-- in order.
use soju_bouncer.Prelude.{ℕ, Bool, Option, none, some, List, [], ◌∷◌, ◌++◌, ◌==◌, Str, str_Eq}
use soju_bouncer.Irc.{Message, Prefix}
use soju_bouncer.Downstream.Sasl.{Base64}
use soju_bouncer.Xirc.CaseMapping.{CaseMapping}
use soju_bouncer.Xirc.CaseMappingMap
use soju_bouncer.Xirc.CaseMappingMap.{CaseMappingMap, Entry}
use soju_bouncer.Xirc.Caps.{CapRegistry}
use soju_bouncer.Xirc.Membership.{MembershipSet}
use soju_bouncer.Modes.Channel.{Available}
use soju_bouncer.Modes.Channel as ModeChannel
use soju_bouncer.Upstream.Pending.{Conn}
use soju_bouncer.Upstream.Highlight.{Unicode}
use soju_bouncer.User.Delivered.{DeliveredStore}
use soju_bouncer.Database.Channels.{ChannelSettings}

-- `topic_who` and `creation_time` tell whether they were ever given; a time is a
-- number of nanoseconds with whether it is negative. `state` holds the modes and the
-- members, as applyChannelModes changes them. `detach_timer` is whether a timer is set.
pub record UpstreamChannel : Type 0 where
  pub name : Str
  pub topic : Str
  pub topic_who : Option Prefix
  pub topic_time : Option (Bool × ℕ)
  pub status : Option ℕ
  pub state : ModeChannel.Channel
  pub creation_time : Str
  pub complete : Bool
  pub detach_timer : Bool

pub record UpstreamUser : Type 0 where
  pub nickname : Str
  pub username : Str
  pub hostname : Str
  pub server : Str
  pub flags : Str
  pub account : Str
  pub realname : Str

pub record UpstreamBatch : Type 0 where
  pub type : Str
  pub params : List Str
  pub outer : Option Str
  pub label : Str

-- A downstream connection that is bound to the network. `sasl_plain` are the credentials of an
-- authentication that is in progress.
pub record Client : Type 0 where
  pub id : ℕ
  pub nick : Str
  pub prefix : Prefix
  pub caps : CapRegistry
  pub sees_blocked : Bool
  pub monitored : CaseMappingMap (Unit {0})
  pub away : Bool
  pub sasl_plain : Option (Str × Str)

-- What a client is told of by a method of its own.
pub data Update : Type 0 where
  account_changed host_changed nick_changed realname_changed caps_changed : Update
  isupport_changed casemapping_changed : Update

-- `sent` and `advanced` are sendMessageWithID and advanceMessageWithID; `replied` is SendMessage to a
-- client; `logged` is a message that the message store appends for an entity.
pub data Output : Type 0 where
  to_server : Message → Output
  sent : ℕ → Prefix → Message → Output
  advanced : ℕ → Prefix → Message → Output
  replied : ℕ → Prefix → Message → Output
  logged : Str → Prefix → Message → Output
  updated : ℕ → Update → Output
  channel_forwarded : ℕ → Str → Output
  sasl_ended : ℕ → Message → Output
  sasl_saved : Str → Str → Output
  push_sent : Prefix → Message → Output
  push_later : Str → Prefix → Message → Output
  timer_set : Str → ℕ → Output
  timer_stopped : Str → Output
  relayed : ℕ → Prefix → Message → Output
  backlog_sent : ℕ → Str → Str → Output
  stored : Str → Output
  service_noticed : ℕ → Str → Output
  disconnected_notified : Output

-- `sasl` is `saslClient`, and, once it is started, the challenges that it has answered.
-- `casemap`, `saved` (the saved channels) and `delivered` belong to the connection's network.
pub record UpstreamConn : Type 0 where
  pub registered : Bool
  pub nick : Str
  pub username : Str
  pub realname : Str
  pub hostname : Str
  pub account : Str
  pub modes : Str
  pub server_prefix : Prefix
  pub server_name : Str
  pub user_modes : Str
  pub available : Available
  pub channel_types : Str
  pub status_msg : Str
  pub isupport : List (Str × Option Str)
  pub channels : CaseMappingMap (Option UpstreamChannel)
  pub users : CaseMappingMap (Option UpstreamUser)
  pub monitored : CaseMappingMap Bool
  pub caps : CapRegistry
  pub sasl : Option (Option (List Str))
  pub batches : List (Str × UpstreamBatch)
  pub away : Bool
  pub queues : Conn
  pub pending_regain_nick : Str
  pub regain_timer : Bool
  pub got_motd : Bool
  pub has_desired_nick : Bool
  pub casemap : CaseMapping
  pub saved : CaseMappingMap (Option ChannelSettings)
  pub delivered : DeliveredStore
  pub out : List Output

pub record MessageTarget : Type 0 where
  pub muted : Bool
  pub blocked : Bool

-- What a handler only reads: the name of the network, the prefix of the bouncer itself, whether it
-- marks its user as away without clients, the names that the user wants, the password of the server,
-- the clients of the network and all those of the user, whether messages are stored, the id of an entity's last message, `none` where the store fails, the
-- time in nanoseconds, irc.ParsePrefix, base64, and the SASL mechanism with what its client of the
-- library answers to the challenges so far, `none` where it fails. `message_target` is what the
-- database says of a sender, which is neither muted nor blocked where it says nothing.
pub record Network : Type 0 where
  pub name : Str
  pub server_prefix : Prefix
  pub auto_away : Bool
  pub want_nick : Str
  pub want_username : Str
  pub want_realname : Str
  pub pass : Str
  pub clients : List Client
  pub user_clients : List Client
  pub has_msg_store : Bool
  pub last_msg_id : Str → Option Str
  pub now : ℕ
  pub parse_prefix : Str → Prefix
  pub base64 : Base64
  pub sasl_mechanism : Str
  pub sasl_respond : List Str → Option Str
  pub message_target : Str → MessageTarget
  pub unicode : Unicode

-- Why a handler stops.
pub data HandleError : Type 0 where
  need_more_params unknown_channel unknown_nick bad_mode unexpected malformed fatal : HandleError
  registration_refused closed database_failed : HandleError
  panicked : HandleError

-- A handler changes the connection in place, so that it is a result on an error too.
abbrev pub Handled : Type 0
Handled = UpstreamConn × Option HandleError

abbrev pub done : UpstreamConn → Handled
done uc = (uc, none)

abbrev pub failed : UpstreamConn → HandleError → Handled
failed uc e = (uc, some e)

abbrev pub emit : UpstreamConn → List Output → UpstreamConn
emit uc o = record uc { out = uc.out ++ o }

unfoldable pub equal_casemap : UpstreamConn → Str → Str → Bool
equal_casemap uc a b = uc.casemap a == uc.casemap b

unfoldable pub is_our_nick : UpstreamConn → Str → Bool
unfolding equal_casemap
is_our_nick uc nick = equal_casemap uc uc.nick nick

unfoldable pub get_channel : UpstreamConn → Str → Option UpstreamChannel
get_channel uc name = CaseMappingMap.get none uc.channels name

abbrev pub set_channel : UpstreamConn → Str → UpstreamChannel → UpstreamConn
set_channel uc name ch = record uc { channels = CaseMappingMap.set uc.channels name (some ch) }

abbrev pub with_members : UpstreamChannel → CaseMappingMap (Option MembershipSet) → UpstreamChannel
with_members ch members = record ch { state = record ch.state { members = members } }

-- A change of what each entry of a map of pointers points to.
unfoldable pub map_entries {ℓ} :
    {V : Type ℓ} → (V → V) → List (Str × Entry (Option V)) → List (Str × Entry (Option V))
map_entries f [] = []
map_entries f ((k, entry) ∷ m) =
    (k, record entry { value = elim entry.value [ none ↦ none | some v ↦ some (f v) ] })
    ∷ map_entries f m

unfoldable pub change_each {ℓ} :
    {V : Type ℓ} → (V → V) → CaseMappingMap (Option V) → CaseMappingMap (Option V)
change_each f cmm = record cmm { m = map_entries f cmm.m }
