-- ===== src/Upstream/Replies.antt =====
-- upstream.go, the replies to commands of clients: those that a pending command waits for, and the
-- errors that end one.
use soju_bouncer.Prelude.{
  ℕ, Bool, false, ◌||◌, Option, none, some, List, [], ◌∷◌, ◌++◌, if◌then◌else◌, ◌==◌, nat_eq,
  nat_Eq, Str, str_Eq, codes, contains,
}
use soju_bouncer.Prelude.Text.{split_once}
use soju_bouncer.Irc.{Message, Prefix}
use soju_bouncer.Xirc.Membership.{Membership}
use soju_bouncer.Xirc.Whox.{WhoxInfo, parse_whox_options, parse_whox_reply}
use soju_bouncer.Upstream.Pending.{current_pending_command, dequeue_command}
use soju_bouncer.Upstream.State.{
  UpstreamConn, UpstreamUser, Network, Handled, done, failed, emit, need_more_params, unexpected,
  malformed, panicked, replied,
}
use soju_bouncer.Upstream.Users.{cache_user_info, should_cache_user_info, no_user}
use soju_bouncer.Upstream.Produce.{forward_msg_by_id}

abbrev pub reply_to : UpstreamConn → Prefix → Message → Option ℕ → UpstreamConn
reply_to uc from msg none = uc
reply_to uc from msg (some dc) = emit uc (replied dc from msg ∷ [])

-- A reply to the command in progress; one that nobody waits for is an error.
abbrev pending_reply : UpstreamConn → Prefix → Message → Option ℕ × Option Message → Handled
pending_reply uc from msg (dc, none) = failed uc unexpected
pending_reply uc from msg (dc, some cmd) = done (reply_to uc from msg dc)

-- RPL_LISTSTART, RPL_LIST and the replies to WHOIS.
unfoldable pub handle_pending_reply : UpstreamConn → Str → Prefix → Message → Handled
unfolding current_pending_command
handle_pending_reply uc cmd from msg =
    pending_reply uc from msg (current_pending_command uc.queues cmd)

abbrev pub dequeue : Network → UpstreamConn → Str → UpstreamConn × (Option ℕ × Option Message)
dequeue net uc cmd =
    let (queues, ended) = dequeue_command uc.queues cmd net.now in
    (record uc { queues = queues }, ended)

-- RPL_LISTEND and RPL_ENDOFWHOIS.
unfoldable pub handle_pending_end : Network → UpstreamConn → Str → Prefix → Message → Handled
unfolding dequeue_command
handle_pending_end net uc cmd from msg =
    let (uc', ended) = dequeue net uc cmd in pending_reply uc' from msg ended

-- An end of WHO that nobody waits for is ignored.
unfoldable pub handle_endofwho : Network → UpstreamConn → Prefix → Message → Handled
unfolding dequeue_command
handle_endofwho net uc from msg =
    let (uc', ended) = dequeue net uc (codes "WHO") in
    elim ended.1 [ none ↦ done uc' | some cmd ↦ done (reply_to uc' from msg ended.0) ]

abbrev is_prefix_of : List Membership → ℕ → Bool
is_prefix_of [] c = false
is_prefix_of (m ∷ ms) c = nat_eq c m.prefix || is_prefix_of ms c

-- stripMemberPrefixes of irc.go.
unfoldable pub strip_member_prefixes : List Membership → Str → Str
strip_member_prefixes ms [] = []
strip_member_prefixes ms (c ∷ s) =
    (if is_prefix_of ms c then [] else c ∷ []) ++ strip_member_prefixes ms s

abbrev cached : UpstreamConn → Option UpstreamConn → Handled
cached uc none = failed uc panicked
cached uc (some uc') = done uc'

unfoldable pub cache_if_known : UpstreamConn → Str → UpstreamUser → Handled
unfolding should_cache_user_info cache_user_info
cache_if_known uc nick info =
    if should_cache_user_info uc nick then cached uc (cache_user_info uc nick info) else done uc

abbrev who_realname :
    UpstreamConn → Prefix → Message → ℕ → UpstreamUser → Option (Str × Str) → Handled
who_realname uc from msg dc info none = failed uc malformed
who_realname uc from msg dc info (some (hops, realname)) =
    cache_if_known (emit uc (replied dc from msg ∷ [])) info.nickname
      (record info { realname = realname })

abbrev who_reply :
    UpstreamConn → Prefix → Message → UpstreamUser → Str → Option ℕ × Option Message → Handled
who_reply uc from msg info trailing (dc, none) = failed uc unexpected
who_reply uc from msg info trailing (none, some cmd) = done uc
who_reply uc from msg info trailing (some dc, some cmd) =
    who_realname uc from msg dc info (split_once b' ' trailing)

abbrev whoreply_params : UpstreamConn → Prefix → Message → List Str → Handled
whoreply_params uc from msg (_ ∷ _ ∷ username ∷ host ∷ server ∷ nick ∷ flags ∷ trailing ∷ rest) =
    who_reply uc from msg
      (record no_user {
        username = username;
        hostname = host;
        server = server;
        nickname = nick;
        flags = strip_member_prefixes uc.available.memberships flags;
      })
      trailing (current_pending_command uc.queues (codes "WHO"))
whoreply_params uc from msg _ = failed uc need_more_params

unfoldable pub handle_whoreply : UpstreamConn → Prefix → Message → Handled
unfolding current_pending_command cache_if_known strip_member_prefixes split_once
handle_whoreply uc from msg = whoreply_params uc from msg msg.params

abbrev whox_info : UpstreamConn → Option WhoxInfo → Handled
whox_info uc none = failed uc malformed
whox_info uc (some info) = cache_if_known uc info.nickname (record {
  nickname = info.nickname;
  username = info.username;
  hostname = info.hostname;
  server = info.server;
  flags = strip_member_prefixes uc.available.memberships info.flags;
  account = info.account;
  realname = info.realname;
})

abbrev whox_fields_read : UpstreamConn → Message → Str → Handled
whox_fields_read uc msg fields =
    if contains b'n' fields then whox_info uc (parse_whox_reply msg fields) else done uc

-- The options of the client's command tell the fields of the reply.
abbrev whox_reply : UpstreamConn → Message → List Str → Handled
whox_reply uc msg (_ ∷ options ∷ rest) = whox_fields_read uc msg (parse_whox_options options).0
whox_reply uc msg _ = done uc

abbrev whox_pending : UpstreamConn → Prefix → Message → Option ℕ × Option Message → Handled
whox_pending uc from msg (dc, none) = failed uc unexpected
whox_pending uc from msg (none, some cmd) = done uc
whox_pending uc from msg (some dc, some cmd) =
    whox_reply (emit uc (replied dc from msg ∷ [])) msg cmd.params

unfoldable pub handle_whospcrpl : UpstreamConn → Prefix → Message → Handled
unfolding current_pending_command cache_if_known strip_member_prefixes parse_whox_options
    parse_whox_reply
handle_whospcrpl uc from msg =
    whox_pending uc from msg (current_pending_command uc.queues (codes "WHO"))

abbrev pub last_param : List Str → Option Str
last_param [] = none
last_param (p ∷ []) = some p
last_param (p ∷ q ∷ l) = last_param (q ∷ l)

abbrev whois_error :
    Network → UpstreamConn → ℕ → Prefix → Message → Str → Option ℕ → Option Str → Handled
whois_error net uc id from msg nick dc none = failed uc panicked
whois_error net uc id from msg nick dc (some target) =
    if uc.casemap target == uc.casemap nick
    then done (reply_to (dequeue net uc (codes "WHOIS")).0 from msg dc)
    else done (forward_msg_by_id net uc id from msg)

abbrev nosuch_pending :
    Network → UpstreamConn → ℕ → Prefix → Message → Str → Option ℕ × Option Message → Handled
nosuch_pending net uc id from msg nick (dc, none) = done (forward_msg_by_id net uc id from msg)
nosuch_pending net uc id from msg nick (dc, some cmd) =
    whois_error net uc id from msg nick dc (last_param cmd.params)

abbrev nosuch_params : Network → UpstreamConn → ℕ → Prefix → Message → List Str → Handled
nosuch_params net uc id from msg (_ ∷ nick ∷ reason ∷ rest) =
    nosuch_pending net uc id from msg nick (current_pending_command uc.queues (codes "WHOIS"))
nosuch_params net uc id from msg _ = failed uc need_more_params

-- ERR_NOSUCHNICK and ERR_NOSUCHSERVER end a WHOIS on that name.
unfoldable pub handle_nosuch : Network → UpstreamConn → ℕ → Prefix → Message → Handled
unfolding current_pending_command dequeue_command forward_msg_by_id
handle_nosuch net uc id from msg = nosuch_params net uc id from msg msg.params

-- The client whose command has failed, if the message has no label of one.
abbrev pub client_of : ℕ → Option ℕ → ℕ
client_of id none = id
client_of id (some dc) = if nat_eq id 0 then dc else id

-- The end of a command by an error, of any kind.
unfoldable pub fail_command : Network → UpstreamConn → ℕ → Str → Prefix → Message → UpstreamConn
unfolding dequeue_command forward_msg_by_id
fail_command net uc id command from msg =
    let (uc', ended) = dequeue net uc command in
    forward_msg_by_id net uc' (client_of id ended.0) from msg
