-- ===== src/Upstream/Kinds.antt =====
-- upstream.go, the cases of handleMessage.
use soju_bouncer.Prelude.{List, [], ◌∷◌, nat_Eq, Str, str_Eq, codes, lookup, value_or}

-- The cases of the switch over commands.
pub data Kind : Type 0 where
  text_message ping cap_message authenticate loggedin loggedout : Kind
  visiblehost sasl_success sasl_failure register_reply verify_reply welcome : Kind
  myinfo isupport_message motd_end batch nick_change setname : Kind
  chghost join_message part kick quit topic_reply : Kind
  notopic_reply topic_change mode_change umodeis channelmodeis creationtime : Kind
  topicwhotime list_reply list_end namreply endofnames whoreply : Kind
  whospcrpl endofwho whois_reply whois_end invite inviting : Kind
  mononline monoffline monlistfull away_change account_change forwarded_reply : Kind
  nosuch command_error fail_message ignored informative error_message : Kind
  nickname_in_use refusal : Kind
  unhandled : Kind

-- The commands of the cases; numerics by their numbers.
abbrev pub kinds : List (Str × Kind)
kinds =
    (codes "NOTICE", text_message)
    ∷ (codes "PRIVMSG", text_message)
    ∷ (codes "TAGMSG", text_message)
    ∷ (codes "REDACT", text_message)
    ∷ (codes "PING", ping)
    ∷ (codes "CAP", cap_message)
    ∷ (codes "AUTHENTICATE", authenticate)
    ∷ (codes "900", loggedin)
    ∷ (codes "901", loggedout)
    ∷ (codes "396", visiblehost)
    ∷ (codes "903", sasl_success)
    ∷ (codes "902", sasl_failure)
    ∷ (codes "904", sasl_failure)
    ∷ (codes "905", sasl_failure)
    ∷ (codes "906", sasl_failure)
    ∷ (codes "REGISTER", register_reply)
    ∷ (codes "VERIFY", verify_reply)
    ∷ (codes "001", welcome)
    ∷ (codes "004", myinfo)
    ∷ (codes "005", isupport_message)
    ∷ (codes "422", motd_end)
    ∷ (codes "376", motd_end)
    ∷ (codes "BATCH", batch)
    ∷ (codes "NICK", nick_change)
    ∷ (codes "SETNAME", setname)
    ∷ (codes "CHGHOST", chghost)
    ∷ (codes "JOIN", join_message)
    ∷ (codes "PART", part)
    ∷ (codes "KICK", kick)
    ∷ (codes "QUIT", quit)
    ∷ (codes "332", topic_reply)
    ∷ (codes "331", notopic_reply)
    ∷ (codes "TOPIC", topic_change)
    ∷ (codes "MODE", mode_change)
    ∷ (codes "221", umodeis)
    ∷ (codes "324", channelmodeis)
    ∷ (codes "329", creationtime)
    ∷ (codes "333", topicwhotime)
    ∷ (codes "321", list_reply)
    ∷ (codes "322", list_reply)
    ∷ (codes "323", list_end)
    ∷ (codes "353", namreply)
    ∷ (codes "366", endofnames)
    ∷ (codes "352", whoreply)
    ∷ (codes "354", whospcrpl)
    ∷ (codes "315", endofwho)
    ∷ (codes "276", whois_reply)
    ∷ (codes "307", whois_reply)
    ∷ (codes "311", whois_reply)
    ∷ (codes "312", whois_reply)
    ∷ (codes "319", whois_reply)
    ∷ (codes "313", whois_reply)
    ∷ (codes "317", whois_reply)
    ∷ (codes "320", whois_reply)
    ∷ (codes "330", whois_reply)
    ∷ (codes "338", whois_reply)
    ∷ (codes "378", whois_reply)
    ∷ (codes "379", whois_reply)
    ∷ (codes "671", whois_reply)
    ∷ (codes "318", whois_end)
    ∷ (codes "INVITE", invite)
    ∷ (codes "341", inviting)
    ∷ (codes "730", mononline)
    ∷ (codes "731", monoffline)
    ∷ (codes "734", monlistfull)
    ∷ (codes "AWAY", away_change)
    ∷ (codes "ACCOUNT", account_change)
    ∷ (codes "301", forwarded_reply)
    ∷ (codes "367", forwarded_reply)
    ∷ (codes "346", forwarded_reply)
    ∷ (codes "348", forwarded_reply)
    ∷ (codes "368", forwarded_reply)
    ∷ (codes "347", forwarded_reply)
    ∷ (codes "349", forwarded_reply)
    ∷ (codes "401", nosuch)
    ∷ (codes "402", nosuch)
    ∷ (codes "400", command_error)
    ∷ (codes "421", command_error)
    ∷ (codes "461", command_error)
    ∷ (codes "263", command_error)
    ∷ (codes "FAIL", fail_message)
    ∷ (codes "ACK", ignored)
    ∷ (codes "306", ignored)
    ∷ (codes "305", ignored)
    ∷ (codes "002", ignored)
    ∷ (codes "003", ignored)
    ∷ (codes "251", informative)
    ∷ (codes "252", informative)
    ∷ (codes "253", informative)
    ∷ (codes "254", informative)
    ∷ (codes "255", informative)
    ∷ (codes "240", informative)
    ∷ (codes "246", informative)
    ∷ (codes "247", informative)
    ∷ (codes "250", informative)
    ∷ (codes "265", informative)
    ∷ (codes "266", informative)
    ∷ (codes "375", informative)
    ∷ (codes "372", informative)
    ∷ (codes "ERROR", error_message)
    ∷ (codes "433", nickname_in_use)
    ∷ (codes "464", refusal)
    ∷ (codes "432", refusal)
    ∷ (codes "436", refusal)
    ∷ (codes "437", refusal)
    ∷ (codes "463", refusal)
    ∷ (codes "465", refusal)
    ∷ []

unfoldable pub kind_of : Str → Kind
unfolding lookup
kind_of command = value_or (lookup command kinds) unhandled
