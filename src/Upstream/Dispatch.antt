-- ===== src/Upstream/Dispatch.antt =====
-- upstream.go, handleMessage: which handler a message goes to, with its label and its batch. The time
-- tag that a message is given is left out.
use soju_bouncer.Prelude.{
  ℕ, true, false, Option, none, some, List, [], ◌∷◌, if◌then◌else◌, nat_Eq, Str, str_Eq, codes,
  is_empty, length, ltb, lookup, delete, value_or,
}
use soju_bouncer.Irc.{Message, Prefix}
use soju_bouncer.Upstream.Labels.{parse_label}
use soju_bouncer.Upstream.State.{
  UpstreamConn, UpstreamBatch, Network, Handled, done, failed, need_more_params, unexpected,
  malformed, fatal,
}
use soju_bouncer.Upstream.Produce.{forward_msg_by_id}
use soju_bouncer.Upstream.Members.{handle_join, handle_part, handle_kick, handle_quit, handle_nick}
use soju_bouncer.Upstream.Channels.{
  handle_topic_reply, handle_topic, handle_mode, handle_umodeis, handle_channelmodeis,
  handle_creationtime, handle_topicwhotime,
}
use soju_bouncer.Upstream.Names.{handle_namreply, handle_endofnames}
use soju_bouncer.Upstream.Replies.{
  handle_pending_reply, handle_pending_end, handle_endofwho, handle_whoreply, handle_whospcrpl,
  handle_nosuch,
}
use soju_bouncer.Upstream.Registration.{handle_cap, send}
use soju_bouncer.Upstream.Sasl.{handle_authenticate, handle_logged}
use soju_bouncer.Upstream.Account.{
  handle_visiblehost, handle_sasl_end, handle_register, handle_setname, handle_chghost, handle_away,
  handle_account,
}
use soju_bouncer.Upstream.Watch.{handle_invite, handle_monitor, handle_monlistfull}
use soju_bouncer.Upstream.Isupport.{handle_isupport}
use soju_bouncer.Upstream.Text.{handle_text}
use soju_bouncer.Upstream.Handle.{
  handle_welcome, handle_myinfo, handle_motd_end, handle_nickname_in_use, refused, handle_fail,
  handle_command_error, handle_batch,
}
use soju_bouncer.Upstream.Kinds.{
  monlistfull, setname, whoreply, sasl_success, cap_message, nickname_in_use, notopic_reply,
  list_reply, batch, quit, endofnames, text_message, authenticate, part, forwarded_reply,
  topic_change, channelmodeis, visiblehost, error_message, ignored, join_message, unhandled,
  isupport_message, umodeis, command_error, kick, whois_end, namreply, ping, nosuch, whospcrpl,
  Kind, creationtime, endofwho, loggedout, motd_end, topicwhotime, whois_reply, list_end, inviting,
  topic_reply, verify_reply, sasl_failure, myinfo, fail_message, refusal, register_reply, chghost,
  account_change, mode_change, informative, welcome, loggedin, nick_change, mononline, monoffline,
  away_change, kind_of, invite,
}

abbrev after_motd : Network → UpstreamConn → ℕ → Prefix → Message → UpstreamConn
after_motd net uc id from msg = if uc.got_motd then forward_msg_by_id net uc id from msg else uc

abbrev inviting_params : Network → UpstreamConn → ℕ → Prefix → Message → Handled
inviting_params net uc id from msg =
    if ltb (length msg.params) 3
    then failed uc need_more_params
    else done (forward_msg_by_id net uc id from msg)

abbrev error_text : UpstreamConn → List Str → Handled
error_text uc [] = failed uc need_more_params
error_text uc (text ∷ rest) = failed uc fatal

-- With the id of the client whose label the message has, that label or the one of its batch, and the
-- name of the batch.
unfoldable pub dispatch :
    Network → UpstreamConn → ℕ → Str → Option Str → Prefix → Message → Kind → Handled
dispatch net uc id label outer from msg text_message = handle_text net uc id from msg
dispatch net uc id label outer from msg ping = done (send uc (codes "PONG") msg.params)
dispatch net uc id label outer from msg cap_message = handle_cap net uc msg
dispatch net uc id label outer from msg authenticate = handle_authenticate net uc msg
dispatch net uc id label outer from msg loggedin = handle_logged net true uc msg
dispatch net uc id label outer from msg loggedout = handle_logged net false uc msg
dispatch net uc id label outer from msg visiblehost = handle_visiblehost net uc msg
dispatch net uc id label outer from msg sasl_success = handle_sasl_end net true uc msg
dispatch net uc id label outer from msg sasl_failure = handle_sasl_end net false uc msg
dispatch net uc id label outer from msg register_reply = handle_register net true uc from msg
dispatch net uc id label outer from msg verify_reply = handle_register net false uc from msg
dispatch net uc id label outer from msg welcome = handle_welcome uc from msg
dispatch net uc id label outer from msg myinfo = handle_myinfo uc msg
dispatch net uc id label outer from msg isupport_message = handle_isupport net uc msg
dispatch net uc id label outer from msg motd_end = handle_motd_end net uc id from msg
dispatch net uc id label outer from msg batch = handle_batch net uc label outer msg
dispatch net uc id label outer from msg nick_change = handle_nick net uc from msg
dispatch net uc id label outer from msg setname = handle_setname net uc from msg
dispatch net uc id label outer from msg chghost = handle_chghost net uc from msg
dispatch net uc id label outer from msg join_message = handle_join net uc from msg
dispatch net uc id label outer from msg part = handle_part net uc from msg
dispatch net uc id label outer from msg kick = handle_kick net uc from msg
dispatch net uc id label outer from msg quit = handle_quit net uc from msg
dispatch net uc id label outer from msg topic_reply = handle_topic_reply net true uc id from msg
dispatch net uc id label outer from msg notopic_reply = handle_topic_reply net false uc id from msg
dispatch net uc id label outer from msg topic_change = handle_topic net uc from msg
dispatch net uc id label outer from msg mode_change = handle_mode net uc from msg
dispatch net uc id label outer from msg umodeis = handle_umodeis net uc from msg
dispatch net uc id label outer from msg channelmodeis = handle_channelmodeis net uc id from msg
dispatch net uc id label outer from msg creationtime = handle_creationtime net uc id from msg
dispatch net uc id label outer from msg topicwhotime = handle_topicwhotime net uc id from msg
dispatch net uc id label outer from msg list_reply = handle_pending_reply uc (codes "LIST") from msg
dispatch net uc id label outer from msg list_end = handle_pending_end net uc (codes "LIST") from msg
dispatch net uc id label outer from msg namreply = handle_namreply net uc id from msg
dispatch net uc id label outer from msg endofnames = handle_endofnames net uc id from msg
dispatch net uc id label outer from msg whoreply = handle_whoreply uc from msg
dispatch net uc id label outer from msg whospcrpl = handle_whospcrpl uc from msg
dispatch net uc id label outer from msg endofwho = handle_endofwho net uc from msg
dispatch net uc id label outer from msg whois_reply =
    handle_pending_reply uc (codes "WHOIS") from msg
dispatch net uc id label outer from msg whois_end =
    handle_pending_end net uc (codes "WHOIS") from msg
dispatch net uc id label outer from msg invite =
    handle_invite net (net.message_target (uc.casemap from.name)).blocked uc from msg
dispatch net uc id label outer from msg inviting = inviting_params net uc id from msg
dispatch net uc id label outer from msg mononline = handle_monitor net true uc msg
dispatch net uc id label outer from msg monoffline = handle_monitor net false uc msg
dispatch net uc id label outer from msg monlistfull = handle_monlistfull net uc msg
dispatch net uc id label outer from msg away_change = handle_away net uc from msg
dispatch net uc id label outer from msg account_change = handle_account net uc from msg
dispatch net uc id label outer from msg forwarded_reply =
    done (forward_msg_by_id net uc id from msg)
dispatch net uc id label outer from msg nosuch = handle_nosuch net uc id from msg
dispatch net uc id label outer from msg command_error = handle_command_error net uc id from msg
dispatch net uc id label outer from msg fail_message = handle_fail net uc id from msg
dispatch net uc id label outer from msg ignored = done uc
dispatch net uc id label outer from msg informative = done (after_motd net uc id from msg)
dispatch net uc id label outer from msg error_message = error_text uc msg.params
dispatch net uc id label outer from msg nickname_in_use = handle_nickname_in_use net uc id from msg
dispatch net uc id label outer from msg refusal = refused net uc id from msg
dispatch net uc id label outer from msg unhandled = done (forward_msg_by_id net uc id from msg)

abbrev without_tags : Message → Message
without_tags msg = record msg { tags = delete (codes "batch") (delete (codes "label") msg.tags) }

abbrev labeled :
    Network → UpstreamConn → Str → Option Str → Prefix → Message → Option (ℕ × Str) → Handled
labeled net uc label outer from msg none = failed uc malformed
labeled net uc label outer from msg (some (id, _)) =
    dispatch net uc id label outer from msg (kind_of msg.command)

abbrev batched :
    Network → UpstreamConn → Str → Str → Prefix → Message → Option UpstreamBatch → Handled
batched net uc label name from msg none = failed uc unexpected
batched net uc label name from msg (some b) =
    let label' = if is_empty label then b.label else label in
    labeled net uc label' (some name) from msg (parse_label label')

abbrev pub or_server : UpstreamConn → Option Prefix → Prefix
or_server uc none = uc.server_prefix
or_server uc (some from) = from

abbrev in_batch : Network → UpstreamConn → Str → Prefix → Message → Option Str → Handled
in_batch net uc label from msg none = labeled net uc label none from msg (parse_label label)
in_batch net uc label from msg (some name) =
    batched net uc label name from msg (lookup name uc.batches)

unfoldable pub handle_message : Network → UpstreamConn → Option Prefix → Message → Handled
unfolding kind_of dispatch parse_label lookup delete
handle_message net uc prefix msg =
    in_batch net uc (value_or (lookup (codes "label") msg.tags) []) (or_server uc prefix)
      (without_tags msg) (lookup (codes "batch") msg.tags)
