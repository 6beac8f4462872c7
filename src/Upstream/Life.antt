-- ===== src/Upstream/Life.antt =====
-- upstream.go and user.go, the life of a connection: the registration, absence, an attempt to get a
-- nickname back, and its end, which aborts what clients wait for.
pub mod Ends
pub mod Refused
use soju_bouncer.Prelude.{
  ℕ, Bool, true, false, ◌&&◌, ◌||◌, not, Option, none, some, List, [], ◌∷◌, ◌++◌, if◌then◌else◌,
  ◌==◌, nat_Eq, Str, str_Eq, codes, is_empty,
}
use soju_bouncer.Irc.{Message, Prefix, message}
use soju_bouncer.Xirc.Caps
use soju_bouncer.Upstream.Pending.{PendingCommand}
use soju_bouncer.Upstream.State.{
  UpstreamConn, UpstreamChannel, Network, Client, Output, Handled, done, failed, emit, panicked,
  closed, replied, sasl_ended, updated, caps_changed, is_our_nick, service_noticed,
  disconnected_notified, change_each, timer_stopped,
}
use soju_bouncer.Xirc.CaseMappingMap
use soju_bouncer.Upstream.Members.{update_each}
use soju_bouncer.Upstream.Replies.{last_param}
use soju_bouncer.Upstream.Registration.{send}
use soju_bouncer.Upstream.Account.{find_client}
use soju_bouncer.Upstream.Dispatch.{handle_message}

-- A message from the server, with what its handler reads at that time.
pub record Incoming : Type 0 where
  pub net : Network
  pub prefix : Option Prefix
  pub msg : Message

-- The loop over the messages that come before the welcome; where they end, the connection is closed.
unfoldable pub run_until_registered : UpstreamConn → List Incoming → Handled
unfolding handle_message
run_until_registered uc [] = if uc.registered then done uc else failed uc closed
run_until_registered uc (m ∷ l) = elim uc.registered [
  | true ↦ done uc
  | false ↦
      let (uc', error) = handle_message m.net uc m.prefix m.msg in
      elim error [ none ↦ run_until_registered uc' l | some e ↦ failed uc' e ]
]

abbrev pub no_prefix : Prefix
no_prefix = record { name = []; user = []; host = [] }

abbrev reply : Client → Str → List Str → Option (List Output)
reply dc command params = some (replied dc.id no_prefix (message command (dc.nick ∷ params)) ∷ [])

abbrev who_mask : List Str → Str
who_mask [] = codes "*"
who_mask (mask ∷ params) = mask

abbrev abort_whois : Client → Option Str → Option (List Output)
abort_whois dc none = none
abort_whois dc (some nick) = reply dc (codes "318") (nick ∷ codes "Command aborted" ∷ [])

abbrev abort_account : Client → Message → List Str → Option (List Output)
abort_account dc msg [] = none
abort_account dc msg (account ∷ params) = some (
    replied dc.id no_prefix (
      message (codes "FAIL")
        (msg.command ∷ codes "TEMPORARILY_UNAVAILABLE" ∷ account ∷ codes "Command aborted" ∷ []))
    ∷ [])

-- What the client of a command that is aborted is told; `none` is a panic.
unfoldable pub abort_command : Client → Message → Option (List Output)
abort_command dc msg =
    if msg.command == codes "LIST"
    then reply dc (codes "323") (codes "Command aborted" ∷ [])
    else if msg.command == codes "WHO"
    then reply dc (codes "315") (who_mask msg.params ∷ codes "Command aborted" ∷ [])
    else if msg.command == codes "WHOIS"
    then abort_whois dc (last_param msg.params)
    else if msg.command == codes "AUTHENTICATE"
    then some (
        sasl_ended dc.id
          (message (codes "906") (dc.nick ∷ codes "SASL authentication aborted" ∷ []))
        ∷ [])
    else if msg.command == codes "REGISTER" || msg.command == codes "VERIFY"
    then abort_account dc msg msg.params
    else none

abbrev abort_one : Option Client → Message → Option (List Output)
abort_one none msg = some []
abort_one (some dc) msg = abort_command dc msg

abbrev pub both : Option (List Output) → Option (List Output) → Option (List Output)
both (some o) (some o') = some (o ++ o')
both _ _ = none

unfoldable pub abort_queue : List Client → List PendingCommand → Option (List Output)
unfolding abort_command
abort_queue clients [] = some []
abort_queue clients (p ∷ l) =
    both (abort_one (find_client clients p.downstream_id) p.msg) (abort_queue clients l)

unfoldable pub abort_queues : List Client → List (Str × List PendingCommand) → Option (List Output)
unfolding abort_queue
abort_queues clients [] = some []
abort_queues clients ((_, l) ∷ m) = both (abort_queue clients l) (abort_queues clients m)

abbrev aborted : UpstreamConn → Option (List Output) → Handled
aborted uc none = failed uc panicked
aborted uc (some o) = done (emit (record uc { queues = record uc.queues { pending_cmds = [] } }) o)

-- abortPendingCommands.
unfoldable pub abort_pending_commands : Network → UpstreamConn → Handled
unfolding abort_queues
abort_pending_commands net uc = aborted uc (abort_queues net.user_clients uc.queues.pending_cmds)

abbrev pub all_away : List Client → Bool
all_away [] = true
all_away (dc ∷ l) = dc.away && all_away l

abbrev away_reason : UpstreamConn → List Str
away_reason uc =
    (if Caps.is_available uc.caps (codes "draft/pre-away") then codes "*" else codes "Auto away")
    ∷ []

abbrev set_away : UpstreamConn → Bool → UpstreamConn
set_away uc true = record (send uc (codes "AWAY") (away_reason uc)) { away = true }
set_away uc false = record (send uc (codes "AWAY") []) { away = false }

abbrev pub same_bool : Bool → Bool → Bool
same_bool true b = b
same_bool false b = not b

-- updateAway.
unfoldable pub update_away : Network → UpstreamConn → UpstreamConn
unfolding Caps.is_available
update_away net uc =
    if not net.auto_away || same_bool (all_away net.clients) uc.away
    then uc
    else set_away uc (all_away net.clients)

-- stopRegainNickTimer. The timer and its back-off are set and unset together.
unfoldable pub stop_regain_nick_timer : UpstreamConn → UpstreamConn
stop_regain_nick_timer uc = record uc { regain_timer = false }

-- tryRegainNick, for the nickname that the timer was started for. That the timer goes off again
-- later is not seen in the state.
unfoldable pub try_regain_nick : Network → UpstreamConn → Str → UpstreamConn
unfolding is_our_nick stop_regain_nick_timer
try_regain_nick net uc nick =
    if not uc.regain_timer
    then uc
    else if not (net.want_nick == nick) || is_our_nick uc net.want_nick
    then stop_regain_nick_timer uc
    else if not (is_empty uc.pending_regain_nick)
    then uc
    else record (send uc (codes "NICK") (net.want_nick ∷ [])) {
      pending_regain_nick = net.want_nick;
    }

abbrev without_timer : UpstreamChannel → UpstreamChannel
without_timer ch = record ch { detach_timer = false }

unfoldable pub stop_timers : List (Str × Option UpstreamChannel) → List Output
stop_timers [] = []
stop_timers ((_, none) ∷ l) = stop_timers l
stop_timers ((_, some ch) ∷ l) =
    (if ch.detach_timer then timer_stopped ch.name ∷ [] else []) ++ stop_timers l

unfoldable pub disconnected_notices : Str → List Client → List Output
unfolding Caps.is_enabled
disconnected_notices name [] = []
disconnected_notices name (dc ∷ l) =
    (if Caps.is_enabled dc.caps (codes "soju.im/bouncer-networks")
      then []
      else service_noticed dc.id (codes "disconnected from " ++ name) ∷ [])
    ++ disconnected_notices name l

abbrev after_abort : Network → Bool → Bool → Handled → Handled
after_abort net found has_error (uc, some e) = failed uc e
after_abort net found has_error (uc, none) =
    let uc1 =
      emit (record uc { channels = change_each without_timer uc.channels })
        (stop_timers (CaseMappingMap.entries uc.channels.m)
          ++ update_each net.clients (λ id. updated id caps_changed)) in
    if not found
    then done uc1
    else done (
        emit uc1 (
          disconnected_notified
          ∷ (if has_error then [] else disconnected_notices net.name net.clients)))

-- handleUpstreamDisconnected of user.go, on the connection that is gone, with whether its network is
-- still one of the user, and whether it has an error already.
unfoldable pub handle_upstream_disconnected : Network → Bool → Bool → UpstreamConn → Handled
unfolding stop_regain_nick_timer abort_pending_commands change_each stop_timers disconnected_notices
handle_upstream_disconnected net found has_error uc =
    after_abort net found has_error (abort_pending_commands net (stop_regain_nick_timer uc))
