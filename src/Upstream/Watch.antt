-- ===== src/Upstream/Watch.antt =====
-- upstream.go, invitations, and users who are watched.
use soju_bouncer.Prelude.{
  Bool, true, false, ◌&&◌, ◌||◌, not, Option, none, some, List, [], ◌∷◌, ◌++◌, map, if◌then◌else◌,
  nat_Eq, Str, str_Eq, codes,
}
use soju_bouncer.Prelude.Text.{split}
use soju_bouncer.Irc.{Message, Prefix, message}
use soju_bouncer.Xirc.Caps
use soju_bouncer.Xirc.CaseMappingMap
use soju_bouncer.Xirc.CaseMappingMap.{CaseMappingMap}
use soju_bouncer.Xirc.GenMsg.{generate_join}
use soju_bouncer.Database.Channels.{ChannelSettings}
use soju_bouncer.Upstream.Registration.{send}
use soju_bouncer.Upstream.State.{
  UpstreamConn, Network, Handled, done, failed, emit, need_more_params, to_server, is_our_nick,
  Output, replied, Client, get_channel, push_sent, equal_casemap,
}

unfoldable pub invite_clients : List Client → Bool → Bool → Prefix → Message → List Output
unfolding Caps.is_enabled
invite_clients [] invited blocked from msg = []
invite_clients (dc ∷ l) invited blocked from msg =
    (if (not invited && not (Caps.is_enabled dc.caps (codes "invite-notify")))
        || (blocked && not dc.sees_blocked)
      then []
      else replied dc.id from msg ∷ [])
    ++ invite_clients l invited blocked from msg

abbrev invite_seen : Network → Bool → UpstreamConn → Bool → Prefix → Message → Handled
invite_seen net blocked uc invited from msg = done (
    emit uc (
      invite_clients net.clients invited (invited && blocked) from msg
      ++ (if invited then push_sent from msg ∷ [] else [])))

abbrev is_joined : UpstreamConn → Str → Bool
is_joined uc channel = elim (get_channel uc channel) [ none ↦ false | some ch ↦ true ]

-- A saved channel that we are invited to, and are not on, is joined.
abbrev invited_to :
    Network → Bool → UpstreamConn → Str → Prefix → Message → Option ChannelSettings → Handled
invited_to net blocked uc channel from msg none = invite_seen net blocked uc true from msg
invited_to net blocked uc channel from msg (some c) =
    if is_joined uc channel
    then invite_seen net blocked uc true from msg
    else done (emit uc (map to_server (generate_join ((c.name, c.key) ∷ []))))

abbrev invite_params : Network → Bool → UpstreamConn → Prefix → Message → List Str → Handled
invite_params net blocked uc from msg (nick ∷ channel ∷ rest) =
    if is_our_nick uc nick
    then invited_to net blocked uc channel from msg (CaseMappingMap.get none uc.saved channel)
    else invite_seen net blocked uc false from msg
invite_params net blocked uc from msg _ = failed uc need_more_params

-- With whether the database says that the sender is blocked.
unfoldable pub handle_invite : Network → Bool → UpstreamConn → Prefix → Message → Handled
unfolding is_our_nick get_channel generate_join invite_clients
handle_invite net blocked uc from msg = invite_params net blocked uc from msg msg.params

unfoldable pub set_monitored : Network → Bool → CaseMappingMap Bool → List Str → CaseMappingMap Bool
set_monitored net online m [] = m
set_monitored net online m (target ∷ l) =
    set_monitored net online (CaseMappingMap.set m (net.parse_prefix target).name online) l

abbrev has_target : Network → UpstreamConn → Str → List Str → Bool
has_target net uc nick [] = false
has_target net uc nick (target ∷ l) =
    equal_casemap uc (net.parse_prefix target).name nick || has_target net uc nick l

-- The targets that one client watches, each in a message of its own.
abbrev watched_by : (Str → Str) → List Str → Message → Client → List Str → List Output
watched_by name extra msg dc [] = []
watched_by name extra msg dc (target ∷ l) =
    (if CaseMappingMap.has dc.monitored (name target)
      then replied dc.id (record { name = []; user = []; host = [] })
          (message msg.command (dc.nick ∷ (extra ++ target ∷ [])))
        ∷ []
      else [])
    ++ watched_by name extra msg dc l

unfoldable pub tell_watchers :
    (Str → Str) → List Str → Message → List Client → List Str → List Output
tell_watchers name extra msg [] targets = []
tell_watchers name extra msg (dc ∷ l) targets =
    watched_by name extra msg dc targets ++ tell_watchers name extra msg l targets

-- The nickname that we want is asked for when it becomes free.
abbrev take_back : Network → Bool → UpstreamConn → List Str → UpstreamConn
take_back net online uc targets =
    if not online
      && (not (is_our_nick uc net.want_nick)
          && (not uc.has_desired_nick && has_target net uc net.want_nick targets))
    then send uc (codes "NICK") (net.want_nick ∷ [])
    else uc

abbrev monitor_params : Network → Bool → UpstreamConn → Message → List Str → Handled
monitor_params net online uc msg (_ ∷ targets_str ∷ rest) =
    let targets = split b',' targets_str in
    let uc1 = record uc { monitored = set_monitored net online uc.monitored targets } in
    done (
      emit (take_back net online uc1 targets)
        (tell_watchers (λ t. (net.parse_prefix t).name) [] msg net.clients targets))
monitor_params net online uc msg _ = failed uc need_more_params

-- RPL_MONONLINE, and RPL_MONOFFLINE.
unfoldable pub handle_monitor : Network → Bool → UpstreamConn → Message → Handled
unfolding set_monitored is_our_nick tell_watchers split
handle_monitor net online uc msg = monitor_params net online uc msg msg.params

abbrev monlistfull_params : Network → UpstreamConn → Message → List Str → Handled
monlistfull_params net uc msg (_ ∷ limit ∷ targets_str ∷ rest) =
    done (emit uc (tell_watchers (λ t. t) (limit ∷ []) msg net.clients (split b',' targets_str)))
monlistfull_params net uc msg _ = failed uc need_more_params

unfoldable pub handle_monlistfull : Network → UpstreamConn → Message → Handled
unfolding tell_watchers split
handle_monlistfull net uc msg = monlistfull_params net uc msg msg.params
