-- ===== src/Downstream/Ping.antt =====
-- downstream.go, how a connection learns that its client has got a message: a ping with the id of the
-- message, and the receipt that its pong stores. The networks of the user are their ids with the
-- receipts of each.
use soju_bouncer.Prelude.{
  ℕ, Bool, ◌||◌, not, Option, none, some, List, [], ◌∷◌, ◌++◌, nat_Eq, if◌then◌else◌, ◌==◌, Str,
  str_Eq, codes, is_empty, lookup, insert, drop,
}
use soju_bouncer.Prelude.Text.{has_prefix}
use soju_bouncer.Irc.{Message, message}
use soju_bouncer.Xirc.Caps
use soju_bouncer.User.Delivered as Delivered
use soju_bouncer.User.Delivered.{DeliveredStore, load_id-store_id}
use soju_bouncer.Msgstore.MsgId.{Codec, ParseResult, parsed, invalid, parse_msg_id}
use soju_bouncer.Downstream.Send.{Outgoing, DownstreamConn, send_message, bare}

abbrev pub Networks : Type 0
Networks = List (ℕ × DeliveredStore)

unfoldable pub message_supports_backlog : Message → Bool
message_supports_backlog msg = (msg.command == codes "PRIVMSG") || (msg.command == codes "NOTICE")

unfoldable pub ping_token : Str → Str
ping_token msg_id = codes "soju-msgid-" ++ msg_id

unfoldable pub send_ping : DownstreamConn → Str → DownstreamConn
unfolding ping_token
send_ping dc msg_id = send_message dc (bare (message (codes "PING") (ping_token msg_id ∷ [])))

unfoldable pub advance_message_with_id : DownstreamConn → Outgoing → Str → DownstreamConn
unfolding send_ping message_supports_backlog
advance_message_with_id dc out id =
    if is_empty id
      || (not (message_supports_backlog out.msg)
          || Caps.is_enabled dc.caps (codes "draft/chathistory"))
    then dc
    else send_ping dc id

unfoldable pub send_message_with_id : DownstreamConn → Outgoing → Str → DownstreamConn
unfolding send_ping message_supports_backlog
send_message_with_id dc out id =
    let dc' = send_message dc out in
    if is_empty id
      || (not (message_supports_backlog out.msg)
          || Caps.is_enabled dc'.caps (codes "draft/chathistory"))
    then dc'
    else send_ping dc' id

abbrev ack_network : Networks → ℕ → Str → Str → Str → Option DeliveredStore → Networks
ack_network networks net_id entity client_name id none = networks
ack_network networks net_id entity client_name id (some delivered) =
    insert net_id (Delivered.store_id delivered entity client_name id) networks

abbrev ack_parsed : Networks → Str → Str → ParseResult (Unit {0}) → Networks
ack_parsed networks client_name id (invalid _) = networks
ack_parsed networks client_name id (parsed net_id entity _) =
    ack_network networks net_id entity client_name id (lookup net_id networks)

-- The body of the id is not read.
unfoldable pub ack_msg_id : Codec → Networks → Str → Str → Networks
ack_msg_id c networks client_name id = ack_parsed networks client_name id (parse_msg_id c none id)

unfoldable pub handle_pong : Codec → Networks → Str → Str → Networks
unfolding has_prefix ack_msg_id
handle_pong c networks client_name token =
    if not (has_prefix token (codes "soju-msgid-"))
    then networks
    else ack_msg_id c networks client_name (drop 11 token)
