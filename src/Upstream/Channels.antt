-- ===== src/Upstream/Channels.antt =====
-- upstream.go, the messages on the state of a channel: topics, modes, the time of its creation, and
-- its names.
use soju_bouncer.Prelude.{
  ℕ, ◌*◌, Bool, true, false, ◌&&◌, not, Option, none, some, List, [], ◌∷◌, if◌then◌else◌, ◌==◌,
  nat_Eq, Str, str_Eq, is_empty, contains,
}
use soju_bouncer.Irc.{Message, Prefix}
use soju_bouncer.Modes.User as UserModes
use soju_bouncer.Modes.Channel as ChannelModes
use soju_bouncer.Modes.Channel.{ModeError}
use soju_bouncer.Upstream.Labels.{parse_int}
use soju_bouncer.Upstream.Pending.{second}
use soju_bouncer.Upstream.State.{
  UpstreamConn, UpstreamChannel, Network, Handled, done, failed, need_more_params, unknown_channel,
  unknown_nick, bad_mode, malformed, get_channel, set_channel,
}
use soju_bouncer.Upstream.Produce.{
  produce, append_log, forward_message, forward_msg_by_id, is_detached,
}

-- Reads a channel, and sends the message on where we have not joined it.
abbrev pub on_channel :
    Network
    → UpstreamConn
    → ℕ
    → Prefix
    → Message
    → Option UpstreamChannel
    → (UpstreamChannel → Handled)
    → Handled
on_channel net uc id from msg none f = done (forward_msg_by_id net uc id from msg)
on_channel net uc id from msg (some ch) f = f ch

-- A message that only the first reply for a channel sends on, if the channel is not detached.
abbrev pub first_time : Network → Bool → UpstreamConn → Str → Prefix → Message → UpstreamConn
first_time net first uc name from msg =
    if first && not (is_detached uc name) then forward_message net uc from msg else uc

-- RPL_TOPIC, and RPL_NOTOPIC, which has no topic.
abbrev topic_reply : Network → Bool → UpstreamConn → ℕ → Prefix → Message → List Str → Handled
topic_reply net has_topic uc id from msg (_ ∷ name ∷ topic ∷ rest) =
    on_channel net uc id from msg (get_channel uc name)
      (λ ch. done (set_channel uc name (record ch { topic = if has_topic then topic else [] })))
topic_reply net has_topic uc id from msg _ = failed uc need_more_params

unfoldable pub handle_topic_reply : Network → Bool → UpstreamConn → ℕ → Prefix → Message → Handled
unfolding get_channel forward_msg_by_id
handle_topic_reply net has_topic uc id from msg =
    topic_reply net has_topic uc id from msg msg.params

abbrev with_topic : UpstreamChannel → Prefix → ℕ → List Str → UpstreamChannel
with_topic ch from now [] = record ch { topic = [] }
with_topic ch from now (topic ∷ rest) = record ch {
  topic = topic;
  topic_who = some from;
  topic_time = some (false, now);
}

abbrev change_topic :
    Network → UpstreamConn → Str → List Str → Prefix → Message → Option UpstreamChannel → Handled
change_topic net uc name rest from msg none = failed uc unknown_channel
change_topic net uc name rest from msg (some ch) =
    done
      (produce net false (set_channel uc name (with_topic ch from net.now rest)) ch.name from msg 0)

abbrev topic_params : Network → UpstreamConn → Prefix → Message → List Str → Handled
topic_params net uc from msg [] = failed uc need_more_params
topic_params net uc from msg (name ∷ rest) =
    change_topic net uc name rest from msg (get_channel uc name)

unfoldable pub handle_topic : Network → UpstreamConn → Prefix → Message → Handled
unfolding get_channel produce
handle_topic net uc from msg = topic_params net uc from msg msg.params

abbrev starts_in : Str → Str → Bool
starts_in types [] = false
starts_in types (c ∷ s) = contains c types

unfoldable pub is_channel : UpstreamConn → Str → Bool
is_channel uc entity = starts_in uc.channel_types entity

-- The modes are kept as far as they were applied, also on an error.
unfoldable pub change_modes :
    UpstreamConn → Str → UpstreamChannel → Str → List Str → UpstreamConn × Bool
change_modes uc name ch mode_str arguments =
    let (state, error) =
      ChannelModes.apply_channel_modes uc.available ch.state mode_str arguments in
    let uc' = set_channel uc name (record ch { state = state }) in
    elim error [ none ↦ (uc', true) | some e ↦ (uc', false) ]

abbrev user_mode : Network → UpstreamConn → Prefix → Message → Str → Handled
user_mode net uc from msg mode_str =
    let (modes, is_ok) = UserModes.apply uc.modes mode_str in
    let uc' = record uc { modes = modes } in
    if is_ok then done (forward_message net uc' from msg) else failed uc' bad_mode

abbrev channel_mode :
    Network
    → UpstreamConn
    → Prefix
    → Message
    → Str
    → Str
    → List Str
    → Option UpstreamChannel
    → Handled
channel_mode net uc from msg name mode_str args none = failed uc unknown_channel
channel_mode net uc from msg name mode_str args (some ch) =
    let (uc1, is_ok) = change_modes uc name ch mode_str args in
    let uc2 = append_log net uc1 ch.name from msg in
    if not is_ok
    then failed uc1 bad_mode
    else if is_detached uc2 name
    then done uc2
    else done (forward_message net uc2 from msg)

abbrev mode_params : Network → UpstreamConn → Prefix → Message → List Str → Handled
mode_params net uc from msg (name ∷ mode_str ∷ args) =
    if not (is_channel uc name)
    then (if name == uc.nick then user_mode net uc from msg mode_str else failed uc unknown_nick)
    else channel_mode net uc from msg name mode_str args (get_channel uc name)
mode_params net uc from msg _ = failed uc need_more_params

unfoldable pub handle_mode : Network → UpstreamConn → Prefix → Message → Handled
unfolding get_channel is_channel change_modes append_log forward_message
handle_mode net uc from msg = mode_params net uc from msg msg.params

abbrev umodeis_params : Network → UpstreamConn → Prefix → Message → List Str → Handled
umodeis_params net uc from msg [] = failed uc need_more_params
umodeis_params net uc from msg (_ ∷ []) = user_mode net (record uc { modes = [] }) from msg []
umodeis_params net uc from msg (_ ∷ mode_str ∷ rest) =
    user_mode net (record uc { modes = [] }) from msg mode_str

unfoldable pub handle_umodeis : Network → UpstreamConn → Prefix → Message → Handled
unfolding forward_message
handle_umodeis net uc from msg = umodeis_params net uc from msg msg.params

abbrev has_no_modes : UpstreamChannel → Bool
has_no_modes ch = elim ch.state.modes [ none ↦ true | some m ↦ false ]

abbrev mode_is : Network → UpstreamConn → ℕ → Prefix → Message → Str → Str → List Str → Handled
mode_is net uc id from msg channel mode_str args =
    on_channel net uc id from msg (get_channel uc channel) λ ch.
      let cleared = record ch { state = record ch.state { modes = some [] } } in
      let (uc', is_ok) = change_modes uc channel cleared mode_str args in
      if is_ok
      then done (first_time net (has_no_modes ch) uc' channel from msg)
      else failed uc' bad_mode

abbrev channelmodeis_params : Network → UpstreamConn → ℕ → Prefix → Message → List Str → Handled
channelmodeis_params net uc id from msg (_ ∷ channel ∷ []) =
    mode_is net uc id from msg channel [] []
channelmodeis_params net uc id from msg (_ ∷ channel ∷ mode_str ∷ args) =
    mode_is net uc id from msg channel mode_str args
channelmodeis_params net uc id from msg _ = failed uc need_more_params

unfoldable pub handle_channelmodeis : Network → UpstreamConn → ℕ → Prefix → Message → Handled
unfolding get_channel change_modes forward_message
handle_channelmodeis net uc id from msg = channelmodeis_params net uc id from msg msg.params

abbrev creationtime_params : Network → UpstreamConn → ℕ → Prefix → Message → List Str → Handled
creationtime_params net uc id from msg (_ ∷ channel ∷ creation_time ∷ rest) =
    on_channel net uc id from msg (get_channel uc channel) λ ch. done (
      first_time net (is_empty ch.creation_time)
        (set_channel uc channel (record ch { creation_time = creation_time })) channel from msg)
creationtime_params net uc id from msg _ = failed uc need_more_params

unfoldable pub handle_creationtime : Network → UpstreamConn → ℕ → Prefix → Message → Handled
unfolding get_channel forward_message
handle_creationtime net uc id from msg = creationtime_params net uc id from msg msg.params

abbrev has_no_who : UpstreamChannel → Bool
has_no_who ch = elim ch.topic_who [ none ↦ true | some who ↦ false ]

-- The sender of the topic is kept where the time is refused.
abbrev topic_time_read :
    Network
    → UpstreamConn
    → Prefix
    → Message
    → Str
    → Str
    → UpstreamChannel
    → Option (Bool × ℕ)
    → Handled
topic_time_read net uc from msg channel who ch none =
    failed (set_channel uc channel (record ch { topic_who = some (net.parse_prefix who) }))
      malformed
topic_time_read net uc from msg channel who ch (some (negative, seconds)) = done (
    first_time net (has_no_who ch)
      (set_channel uc channel (record ch {
        topic_who = some (net.parse_prefix who);
        topic_time = some (negative, seconds * second);
      }))
      channel from msg)

abbrev topicwhotime_params : Network → UpstreamConn → ℕ → Prefix → Message → List Str → Handled
topicwhotime_params net uc id from msg (_ ∷ channel ∷ who ∷ time ∷ rest) =
    on_channel net uc id from msg (get_channel uc channel)
      λ ch. topic_time_read net uc from msg channel who ch (parse_int time)
topicwhotime_params net uc id from msg _ = failed uc need_more_params

unfoldable pub handle_topicwhotime : Network → UpstreamConn → ℕ → Prefix → Message → Handled
unfolding get_channel forward_message
handle_topicwhotime net uc id from msg = topicwhotime_params net uc id from msg msg.params
