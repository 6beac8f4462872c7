-- ===== src/Upstream/Produce.antt =====
-- upstream.go, what becomes of a message that others are to see: appendLog stores it, produce stores
-- it and sends it to the clients, and forwardMessage sends it on.
pub mod Delivers
pub mod Keeps
use soju_bouncer.Prelude.{
  ℕ, Bool, false, ◌&&◌, ◌||◌, not, Option, none, some, List, [], ◌∷◌, ◌++◌, nat_eq, if◌then◌else◌,
  ◌==◌, Str, str_Eq, codes, is_empty, contains,
}
use soju_bouncer.Prelude.Text.{has_prefix}
use soju_bouncer.Irc.{Message, Prefix}
use soju_bouncer.Xirc.Caps
use soju_bouncer.Xirc.CaseMappingMap
use soju_bouncer.User.Delivered as Delivered
use soju_bouncer.User.Delivered.{DeliveredStore}
use soju_bouncer.Upstream.State.{
  UpstreamConn, Network, Client, Output, sent, advanced, replied, logged, timer_stopped, emit,
  is_our_nick, timer_set, get_channel, set_channel, UpstreamChannel,
}
use soju_bouncer.Database.Channels.{ChannelSettings}

abbrev pub storable_message_tags : List Str
storable_message_tags =
    codes "+draft/react" ∷ codes "+react" ∷ codes "+draft/unreact" ∷ codes "+unreact" ∷ []

abbrev pub has_storable_tag : List (Str × Str) → Bool
has_storable_tag [] = false
has_storable_tag ((tag, _) ∷ tags) = contains tag storable_message_tags || has_storable_tag tags

-- Whether a message is kept: not a TAGMSG without a tag that is kept, not one to a server mask, and
-- none to or from NickServ.
unfoldable pub is_stored : Network → UpstreamConn → Str → Message → Bool
unfolding has_prefix
is_stored net uc entity msg =
    net.has_msg_store
    && (not (msg.command == codes "TAGMSG" && not (has_storable_tag msg.tags))
        && (not (has_prefix entity (codes "$")) && not (uc.casemap entity == codes "nickserv")))

abbrev pub store_receipts : DeliveredStore → Str → Str → List Str → DeliveredStore
store_receipts ds entity last_id [] = ds
store_receipts ds entity last_id (client ∷ clients) =
    store_receipts (Delivered.store_id ds entity client last_id) entity last_id clients

abbrev append : UpstreamConn → Str → Prefix → Message → UpstreamConn
append uc entity from msg = emit uc (logged (uc.casemap entity) from msg ∷ [])

-- The first message of a target: a client that is away is to get it later.
abbrev first_message : UpstreamConn → Str → Prefix → Message → Option Str → UpstreamConn
first_message uc entity from msg none = uc
first_message uc entity from msg (some last_id) =
    append
      (record uc {
        delivered =
            store_receipts uc.delivered entity last_id (Delivered.for_each_client uc.delivered);
      })
      entity from msg

unfoldable pub append_log : Network → UpstreamConn → Str → Prefix → Message → UpstreamConn
unfolding is_stored
append_log net uc entity from msg =
    if not (is_stored net uc entity msg)
    then uc
    else if not (Delivered.empty uc.delivered) && not (Delivered.has_target uc.delivered entity)
    then first_message uc entity from msg (net.last_msg_id (uc.casemap entity))
    else append uc entity from msg

abbrev is_detached_settings : Option ChannelSettings → Bool
is_detached_settings none = false
is_detached_settings (some ch) = ch.detached

-- Whether a channel is saved as detached.
unfoldable pub is_detached : UpstreamConn → Str → Bool
is_detached uc name = is_detached_settings (CaseMappingMap.get none uc.saved name)

abbrev produce_to : UpstreamConn → Bool → Bool → Prefix → Message → ℕ → Client → List Output
produce_to uc detached blocked from msg origin_id dc =
    let echo = nat_eq dc.id origin_id && is_our_nick uc from.name in
    if blocked && not dc.sees_blocked
    then []
    else if not detached && (not echo || Caps.is_enabled dc.caps (codes "echo-message"))
    then sent dc.id from msg ∷ []
    else advanced dc.id from msg ∷ []

unfoldable pub produce_all :
    UpstreamConn → Bool → Bool → Prefix → Message → ℕ → List Client → List Output
unfolding is_our_nick Caps.is_enabled
produce_all uc detached blocked from msg origin_id [] = []
produce_all uc detached blocked from msg origin_id (dc ∷ l) =
    produce_to uc detached blocked from msg origin_id dc
    ++ produce_all uc detached blocked from msg origin_id l

-- With whether the sender is blocked, which the context carries.
unfoldable pub produce : Network → Bool → UpstreamConn → Str → Prefix → Message → ℕ → UpstreamConn
unfolding append_log is_detached produce_all
produce net blocked uc target from msg origin_id =
    let uc' = if is_empty target then uc else append_log net uc target from msg in
    emit uc' (produce_all uc' (is_detached uc' target) blocked from msg origin_id net.clients)

unfoldable pub to_clients : List Client → ℕ → Prefix → Message → List Output
to_clients [] id from msg = []
to_clients (dc ∷ l) id from msg =
    (if nat_eq id 0 || nat_eq id dc.id then replied dc.id from msg ∷ [] else [])
    ++ to_clients l id from msg

-- To the client with an id, or to all where the id is 0.
unfoldable pub forward_msg_by_id : Network → UpstreamConn → ℕ → Prefix → Message → UpstreamConn
unfolding to_clients
forward_msg_by_id net uc id from msg = emit uc (to_clients net.clients id from msg)

unfoldable pub forward_message : Network → UpstreamConn → Prefix → Message → UpstreamConn
unfolding forward_msg_by_id
forward_message net uc from msg = forward_msg_by_id net uc 0 from msg

-- The first lines of updateAutoDetach: a timer that runs is stopped.
abbrev pub stop_timer : UpstreamConn → UpstreamChannel → UpstreamConn
stop_timer uc ch = if ch.detach_timer then emit uc (timer_stopped ch.name ∷ []) else uc

-- updateAutoDetach on a channel of the connection: for a time of 0 no new timer is set.
abbrev pub update_auto_detach : UpstreamConn → Str → UpstreamChannel → ℕ → UpstreamConn
update_auto_detach uc name ch dur =
    let uc' =
      set_channel (stop_timer uc ch) name (record ch { detach_timer = not (nat_eq dur 0) }) in
    if nat_eq dur 0 then uc' else emit uc' (timer_set ch.name dur ∷ [])

abbrev pub detach_later :
    UpstreamConn → Str → UpstreamChannel → Option ChannelSettings → UpstreamConn
detach_later uc name uch none = uc
detach_later uc name uch (some ch) =
    if ch.detached then uc else update_auto_detach uc name uch ch.detach_after

abbrev pub detach_channel_later : UpstreamConn → Str → Option UpstreamChannel → UpstreamConn
detach_channel_later uc name none = uc
detach_channel_later uc name (some uch) =
    detach_later uc name uch (CaseMappingMap.get none uc.saved name)

unfoldable pub update_channel_auto_detach : UpstreamConn → Str → UpstreamConn
unfolding get_channel
update_channel_auto_detach uc name = detach_channel_later uc name (get_channel uc name)
