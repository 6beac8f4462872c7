-- ===== src/Upstream/Members.antt =====
-- upstream.go, the messages that change who is on a channel: JOIN, PART, KICK, QUIT and NICK.
pub mod Roster
use soju_bouncer.Prelude.{
  Bool, true, false, Option, none, some, List, [], ◌∷◌, ◌++◌, if◌then◌else◌, ◌==◌, nat_Eq, Str,
  str_Eq, codes, is_some, lookup, map, ltb, length, get_or, ℕ,
}
use soju_bouncer.Prelude.Text.{split}
use soju_bouncer.Irc.{Message, Prefix, message}
use soju_bouncer.Xirc.Caps
use soju_bouncer.Xirc.CaseMapping.{CaseMapping}
use soju_bouncer.Xirc.CaseMappingMap
use soju_bouncer.Xirc.CaseMappingMap.{CaseMappingMap}
use soju_bouncer.Xirc.Membership.{MembershipSet}
use soju_bouncer.Upstream.State.{
  UpstreamConn, UpstreamChannel, UpstreamUser, Network, Handled, done, failed, emit, to_server,
  need_more_params, unknown_channel, panicked, is_our_nick, equal_casemap, get_channel, set_channel,
  with_members, change_each, updated, nick_changed, Client, Output,
}
use soju_bouncer.Upstream.Users.{no_user, cache_user_info, forget_user, forget_members}
use soju_bouncer.Upstream.Monitor.{update_monitor}
use soju_bouncer.Upstream.Produce.{
  produce, append_log, forward_message, update_channel_auto_detach, stop_timer,
}

abbrev pub bot_flag : Option (Option Str) → Str
bot_flag (some (some flag)) = flag
bot_flag _ = []

-- The flags that a user who joins has: "H" for here, and the flag of bots.
abbrev pub join_flags : UpstreamConn → Message → Str
join_flags uc msg =
    if Caps.is_enabled uc.caps (codes "away-notify")
    then codes "H"
      ++ (if is_some (lookup (codes "bot") msg.tags)
          then bot_flag (lookup (codes "BOT") uc.isupport)
          else [])
    else []

-- The account and the real name stand in a JOIN with three parameters.
unfoldable pub joined_user : UpstreamConn → Prefix → Message → UpstreamUser
unfolding Caps.is_enabled lookup
joined_user uc from msg =
    let extended = ltb 2 (length msg.params) in
    record no_user {
      username = from.user;
      hostname = from.host;
      flags = join_flags uc msg;
      account = if extended then get_or msg.params 1 [] else [];
      realname = if extended then get_or msg.params 2 [] else [];
    }

abbrev pub new_channel : CaseMapping → Str → UpstreamChannel
new_channel cm name = record {
  name = name;
  topic = [];
  topic_who = none;
  topic_time = none;
  status = none;
  state = record { modes = none; members = CaseMappingMap.new cm };
  creation_time = [];
  complete = false;
  detach_timer = false;
}

-- `chMsg`: the message with one of its channels.
abbrev pub with_channel : Message → Str → List Str → Message
with_channel msg ch rest = record msg { params = ch ∷ rest }

unfoldable pub join_ours : UpstreamConn → Str → UpstreamConn
unfolding update_channel_auto_detach CaseMappingMap.new
join_ours uc ch =
    emit (update_channel_auto_detach (set_channel uc ch (new_channel uc.casemap ch)) ch)
      (to_server (message (codes "MODE") (ch ∷ [])) ∷ [])

unfoldable pub add_member :
    UpstreamConn → Str → Str → MembershipSet → Option UpstreamChannel → Option UpstreamConn
add_member uc ch nick ms none = none
add_member uc ch nick ms (some uch) =
    some
      (set_channel uc ch (with_members uch (CaseMappingMap.set uch.state.members nick (some ms))))

unfoldable pub join_one : UpstreamConn → Prefix → Str → Option UpstreamConn
unfolding join_ours add_member is_our_nick get_channel
join_one uc from ch =
    if is_our_nick uc from.name
    then some (join_ours uc ch)
    else add_member uc ch from.name [] (get_channel uc ch)

-- A loop over the channels of a message: each is changed, and the message is produced for it.
unfoldable pub each_channel :
    (UpstreamConn → Str → Option UpstreamConn)
    → Network
    → Prefix
    → Message
    → List Str
    → UpstreamConn
    → List Str
    → Handled
each_channel f net from msg rest uc [] = done uc
each_channel f net from msg rest uc (ch ∷ l) = elim (f uc ch) [
  | none ↦ failed uc unknown_channel
  | some uc' ↦
      each_channel f net from msg rest (produce net false uc' ch from (with_channel msg ch rest) 0)
        l
]

abbrev join_cached :
    Network → Prefix → Message → Str → List Str → UpstreamConn → Option UpstreamConn → Handled
join_cached net from msg channels rest uc none = failed uc panicked
join_cached net from msg channels rest uc (some uc') =
    each_channel (λ c. join_one c from) net from msg rest uc' (split b',' channels)

abbrev join_params : Network → UpstreamConn → Prefix → Message → List Str → Handled
join_params net uc from msg [] = failed uc need_more_params
join_params net uc from msg (channels ∷ rest) =
    join_cached net from msg channels rest uc
      (cache_user_info uc from.name (joined_user uc from msg))

unfoldable pub handle_join : Network → UpstreamConn → Prefix → Message → Handled
unfolding joined_user join_one each_channel
handle_join net uc from msg = join_params net uc from msg msg.params

abbrev pub member_names : UpstreamChannel → List Str
member_names uch =
    map (λ (e : Str × Option MembershipSet). e.0) (CaseMappingMap.entries uch.state.members.m)

-- We have left a channel: it is dropped, and so are the users that we know of by it alone.
abbrev pub leave : Bool → UpstreamConn → Str → Option UpstreamChannel → UpstreamConn
leave stops_timer uc ch none = uc
leave stops_timer uc ch (some uch) =
    let uc' = record uc { channels = CaseMappingMap.del uc.channels ch } in
    forget_members (if stops_timer then stop_timer uc' uch else uc') (member_names uch)

abbrev pub remove_member : UpstreamConn → Str → Str → Option UpstreamChannel → Option UpstreamConn
remove_member uc ch nick none = none
remove_member uc ch nick (some uch) = some (
    forget_user (set_channel uc ch (with_members uch (CaseMappingMap.del uch.state.members nick)))
      nick)

-- Of PART and KICK. Only PART stops the timer of the channel.
unfoldable pub part_one : Bool → UpstreamConn → Str → Str → Option UpstreamConn
unfolding is_our_nick get_channel forget_members
part_one stops_timer uc nick ch =
    if is_our_nick uc nick
    then some (leave stops_timer uc ch (get_channel uc ch))
    else remove_member uc ch nick (get_channel uc ch)

abbrev part_params : Network → UpstreamConn → Prefix → Message → List Str → Handled
part_params net uc from msg [] = failed uc need_more_params
part_params net uc from msg (channels ∷ rest) =
    each_channel (λ c. part_one true c from.name) net from msg rest uc (split b',' channels)

unfoldable pub handle_part : Network → UpstreamConn → Prefix → Message → Handled
unfolding part_one each_channel
handle_part net uc from msg = part_params net uc from msg msg.params

abbrev kicked : Network → Prefix → Message → Str → UpstreamConn → Option UpstreamConn → Handled
kicked net from msg channel uc none = failed uc unknown_channel
kicked net from msg channel uc (some uc') = done (produce net false uc' channel from msg 0)

abbrev kick_params : Network → UpstreamConn → Prefix → Message → List Str → Handled
kick_params net uc from msg (channel ∷ user ∷ rest) =
    kicked net from msg channel uc (part_one false uc user channel)
kick_params net uc from msg _ = failed uc need_more_params

unfoldable pub handle_kick : Network → UpstreamConn → Prefix → Message → Handled
unfolding part_one
handle_kick net uc from msg = kick_params net uc from msg msg.params

-- What is logged does not depend on the members, so that the log stands after the changes of all
-- channels: these are the
-- names of the channels on which a nickname is, in the order of the map.
unfoldable pub channels_with : UpstreamConn → Str → List (Str × Option UpstreamChannel) → List Str
channels_with uc nick [] = []
channels_with uc nick ((_, none) ∷ l) = channels_with uc nick l
channels_with uc nick ((_, some ch) ∷ l) =
    (if CaseMappingMap.has ch.state.members nick then ch.name ∷ [] else [])
    ++ channels_with uc nick l

unfoldable pub log_each : Network → Prefix → Message → UpstreamConn → List Str → UpstreamConn
log_each net from msg uc [] = uc
log_each net from msg uc (name ∷ names) =
    log_each net from msg (append_log net uc name from msg) names

unfoldable pub quit_channel : Str → UpstreamChannel → UpstreamChannel
quit_channel nick ch = with_members ch (CaseMappingMap.del ch.state.members nick)

unfoldable pub handle_quit : Network → UpstreamConn → Prefix → Message → Handled
unfolding quit_channel change_each log_each channels_with
handle_quit net uc from msg =
    let names = channels_with uc from.name (CaseMappingMap.entries uc.channels.m) in
    let uc' =
      log_each net from msg
        (record uc { channels = change_each (quit_channel from.name) uc.channels }) names in
    let uc'' = record uc' { users = CaseMappingMap.del uc'.users from.name } in
    done (if from.name == uc.nick then uc'' else forward_message net uc'' from msg)

abbrev renamed_member : Str → Str → UpstreamChannel → Option MembershipSet → UpstreamChannel
renamed_member nick new_nick ch none = ch
renamed_member nick new_nick ch (some ms) =
    with_members ch
      (CaseMappingMap.set (CaseMappingMap.del ch.state.members nick) new_nick (some ms))

unfoldable pub rename_in_channel : Str → Str → UpstreamChannel → UpstreamChannel
rename_in_channel nick new_nick ch =
    renamed_member nick new_nick ch (CaseMappingMap.get none ch.state.members nick)

abbrev pub update_each : List Client → (ℕ → Output) → List Output
update_each [] f = []
update_each (dc ∷ l) f = f dc.id ∷ update_each l f

-- What our own new nickname changes: an attempt to get a nickname back is over when it succeeds.
unfoldable pub take_nick : Network → UpstreamConn → Str → UpstreamConn
unfolding equal_casemap
take_nick net uc new_nick =
    let regained = equal_casemap uc uc.pending_regain_nick new_nick in
    record uc {
      nick = new_nick;
      pending_regain_nick = if regained then [] else uc.pending_regain_nick;
      regain_timer = if regained then false else uc.regain_timer;
      has_desired_nick =
          if equal_casemap uc net.want_nick new_nick then true else uc.has_desired_nick;
    }

abbrev renamed : Network → Prefix → Message → Bool → UpstreamConn → Option UpstreamConn → Handled
renamed net from msg me uc none = failed uc panicked
renamed net from msg me uc (some uc') =
    if me
    then done
        (update_monitor net (emit uc' (update_each net.clients (λ id. updated id nick_changed))))
    else done (forward_message net uc' from msg)

abbrev nick_params : Network → UpstreamConn → Prefix → Message → List Str → Handled
nick_params net uc from msg [] = failed uc need_more_params
nick_params net uc from msg (new_nick ∷ rest) =
    let me = is_our_nick uc from.name in
    let uc1 = if me then take_nick net uc new_nick else uc in
    let names = channels_with uc1 from.name (CaseMappingMap.entries uc1.channels.m) in
    let uc2 =
      log_each net from msg
        (record uc1 { channels = change_each (rename_in_channel from.name new_nick) uc1.channels })
        names in
    renamed net from msg me uc2
      (cache_user_info uc2 from.name (record no_user { nickname = new_nick }))

unfoldable pub handle_nick : Network → UpstreamConn → Prefix → Message → Handled
unfolding rename_in_channel take_nick
handle_nick net uc from msg = nick_params net uc from msg msg.params
