-- ===== src/Upstream/Text.antt =====
-- upstream.go, texts: PRIVMSG, NOTICE, TAGMSG and REDACT, and detached channels, which user.go
-- attaches again.
use soju_bouncer.Prelude.{
  ℕ, Bool, true, false, ◌&&◌, ◌||◌, not, Option, none, some, List, [], ◌∷◌, ◌++◌, if◌then◌else◌,
  ◌==◌, nat_Eq, Str, str_Eq, codes, is_empty, contains, lookup, get_elem?, is_some,
}
use soju_bouncer.Prelude.Text.{has_prefix}
use soju_bouncer.Irc.{Message, Prefix, message}
use soju_bouncer.Xirc.CaseMappingMap
use soju_bouncer.Database.Channels.{
  ChannelSettings, filter_default, filter_none, filter_highlight, filter_message,
}
use soju_bouncer.Upstream.Highlight.{is_highlight}
use soju_bouncer.Upstream.State.{
  UpstreamConn, UpstreamChannel, Network, Handled, done, failed, emit, need_more_params, panicked,
  is_our_nick, equal_casemap, Output, replied, relayed, Client, get_channel, channel_forwarded,
  backlog_sent, stored, push_later,
}
use soju_bouncer.Upstream.Produce.{produce, update_channel_auto_detach}

abbrev pub service_nick : Str
service_nick = codes "BouncerServ"

abbrev pub is_text : Message → Bool
is_text msg = msg.command == codes "NOTICE" || msg.command == codes "PRIVMSG"

abbrev text_highlight : Network → Str → Str → Option Str → Option Bool
text_highlight net nick name none = none
text_highlight net nick name (some text) =
    if name == nick then some false else is_highlight net.unicode text nick

-- isHighlight of user.go; `none` is a panic.
unfoldable pub message_highlight : Network → UpstreamConn → Prefix → Message → Option Bool
unfolding is_highlight
message_highlight net uc from msg =
    if not (is_text msg)
    then some false
    else text_highlight net uc.nick from.name (get_elem? msg.params 1)

abbrev pub needs_relay : ChannelSettings → Bool → Bool
needs_relay ch highlight = elim ch.relay_detached [
  | filter_message ↦ true
  | filter_highlight ↦ highlight
  | filter_default ↦ highlight
  | filter_none ↦ false
]

abbrev pub reattaches : ChannelSettings → Bool → Bool
reattaches ch highlight = elim ch.reattach_on [
  | filter_message ↦ true
  | filter_highlight ↦ highlight
  | filter_default ↦ false
  | filter_none ↦ false
]

abbrev pub delays_detach : ChannelSettings → Bool → Bool
delays_detach ch highlight = elim ch.detach_on [
  | filter_message ↦ true
  | filter_default ↦ true
  | filter_highlight ↦ highlight
  | filter_none ↦ false
]

abbrev pub set_saved : UpstreamConn → Str → ChannelSettings → UpstreamConn
set_saved uc name ch = record uc { saved = CaseMappingMap.set uc.saved name (some ch) }

-- What a client gets when a channel is attached: a JOIN, the channel if we are on it, and what it
-- has missed.
unfoldable pub attach_clients : Str → Str → Bool → List Client → List Output
attach_clients name msg_id joined [] = []
attach_clients name msg_id joined (dc ∷ l) =
    (replied dc.id dc.prefix (message (codes "JOIN") (name ∷ []))
      ∷ ((if joined then channel_forwarded dc.id name ∷ [] else [])
          ++ (if is_empty msg_id then [] else backlog_sent dc.id name msg_id ∷ [])))
    ++ attach_clients name msg_id joined l

-- attach of user.go.
unfoldable pub attach : Network → UpstreamConn → ChannelSettings → UpstreamConn
unfolding attach_clients update_channel_auto_detach
attach net uc ch =
    let attached = record ch { detached = false; detached_internal_msg_id = [] } in
    let uc' = update_channel_auto_detach (set_saved uc ch.name attached) ch.name in
    if ch.detached
    then emit uc' (
        attach_clients ch.name ch.detached_internal_msg_id (is_some (get_channel uc ch.name))
          net.clients)
    else uc

unfoldable pub relay_clients : List Client → Prefix → Message → List Output
relay_clients [] from msg = []
relay_clients (dc ∷ l) from msg = relayed dc.id from msg ∷ relay_clients l from msg

-- handleDetachedMessage.
unfoldable pub handle_detached_message :
    Network → UpstreamConn → ChannelSettings → Bool → Prefix → Message → UpstreamConn
unfolding attach relay_clients
handle_detached_message net uc ch highlight from msg =
    let uc' =
      if needs_relay ch highlight then emit uc (relay_clients net.clients from msg) else uc in
    if reattaches ch highlight then emit (attach net uc' ch) (stored ch.name ∷ []) else uc'

-- `strings.TrimLeft`.
unfoldable pub trim_left : Str → Str → Str
trim_left [] cutset = []
trim_left (c ∷ s) cutset =
    let rest = trim_left s cutset in if contains c cutset then rest else c ∷ s

abbrev context_channel : UpstreamConn → Prefix → Option UpstreamChannel → Option Str
context_channel uc from none = none
context_channel uc from (some ch) =
    if CaseMappingMap.has ch.state.members from.name then some ch.name else none

abbrev context_of : UpstreamConn → Prefix → Option Str → Option Str
context_of uc from none = none
context_of uc from (some t) = context_channel uc from (get_channel uc t)

-- The name of the buffer of a text, and whether it is a direct message. A channel that the sender is
-- on may be named as the context.
unfoldable pub buffer_of : UpstreamConn → Prefix → Message → Str → Str × Bool
unfolding is_our_nick get_channel lookup
buffer_of uc from msg target =
    let direct = is_our_nick uc target in
    elim (context_of uc from (lookup (codes "+draft/channel-context") msg.tags)) [
      | some name ↦ (name, false)
      | none ↦ (if direct then from.name else target, direct)
    ]

abbrev keeps_push : ChannelSettings → Bool → Bool
keeps_push ch detached = elim ch.relay_detached [
  | filter_none ↦ detached
  | filter_default ↦ false
  | filter_highlight ↦ false
  | filter_message ↦ false
]

-- What a text does to a saved channel, with whether it is kept from Web Push.
abbrev saved_text :
    Network → UpstreamConn → Str → ChannelSettings → Bool → Prefix → Message → UpstreamConn × Bool
saved_text net uc name ch highlight from msg =
    let uc1 = if ch.detached then handle_detached_message net uc ch highlight from msg else uc in
    let uc2 = if delays_detach ch highlight then update_channel_auto_detach uc1 name else uc1 in
    (uc2, keeps_push ch (ch.detached && not (reattaches ch highlight)))

abbrev finish_text :
    Network → UpstreamConn → ℕ → Bool → Bool → Bool → Str → Prefix → Message → UpstreamConn
finish_text net uc id self kept wanted name from msg =
    let target = net.message_target (uc.casemap from.name) in
    let pushes = (not self && not kept) && (is_text msg && wanted) in
    let uc' =
      if pushes && (not target.muted && not target.blocked)
      then emit uc (push_later name from msg ∷ [])
      else uc in
    produce net target.blocked uc' name from msg id

abbrev highlighted_text :
    Network
    → UpstreamConn
    → ℕ
    → Str
    → Bool
    → ChannelSettings
    → Prefix
    → Message
    → Option Bool
    → Handled
highlighted_text net uc id name direct ch from msg none = failed uc panicked
highlighted_text net uc id name direct ch from msg (some highlight) =
    let (uc', kept) = saved_text net uc name ch highlight from msg in
    done (finish_text net uc' id false kept (highlight || direct) name from msg)

abbrev buffered_text :
    Network → UpstreamConn → ℕ → Str → Bool → Prefix → Message → Option ChannelSettings → Handled
buffered_text net uc id name direct from msg none =
    done (finish_text net uc id (is_our_nick uc from.name) false direct name from msg)
buffered_text net uc id name direct from msg (some ch) =
    if is_text msg && not (is_our_nick uc from.name)
    then highlighted_text net uc id name direct ch from msg (message_highlight net uc from msg)
    else done (finish_text net uc id (is_our_nick uc from.name) false direct name from msg)

abbrev is_server_message : UpstreamConn → Str → Str → Bool
is_server_message uc name target =
    not uc.registered
    || (equal_casemap uc name uc.server_prefix.name
        || (target == codes "*" || has_prefix target (codes "$")))

unfoldable pub handle_target : Network → UpstreamConn → ℕ → Prefix → Message → Str → Handled
unfolding equal_casemap produce buffer_of message_highlight handle_detached_message
handle_target net uc id from msg target =
    if equal_casemap uc from.name service_nick || equal_casemap uc target service_nick
    then done uc
    else if is_server_message uc from.name target
    then done (produce net false uc [] from msg 0)
    else let (name, direct) = buffer_of uc from msg target in
      buffered_text net uc id name direct from msg (CaseMappingMap.get none uc.saved name)

abbrev text_params : Network → UpstreamConn → ℕ → Prefix → Message → List Str → Handled
text_params net uc id from msg [] = failed uc need_more_params
text_params net uc id from msg (target ∷ []) =
    if is_text msg
    then failed uc need_more_params
    else handle_target net uc id from msg (trim_left target uc.status_msg)
text_params net uc id from msg (target ∷ text ∷ rest) =
    handle_target net uc id from msg (trim_left target uc.status_msg)

unfoldable pub handle_text : Network → UpstreamConn → ℕ → Prefix → Message → Handled
unfolding trim_left handle_target
handle_text net uc id from msg = text_params net uc id from msg msg.params
