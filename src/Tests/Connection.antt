-- ===== src/Tests/Connection.antt =====
-- A connection of upstream.go: its registration, a channel that we join, and its end.
use soju_bouncer.Prelude.{
  ◌≡◌, refl, true, false, none, some, [], ◌∷◌, arith, Str, codes, str_Eq, nat_Eq, lookup,
}
use soju_bouncer.Prelude.Text.{split}
use soju_bouncer.Irc.{Message, Prefix, message}
use soju_bouncer.Xirc.CaseMapping.{casemap_ascii}
use soju_bouncer.Xirc.CaseMappingMap
use soju_bouncer.Modes.Channel.{std_channel_modes}
use soju_bouncer.Upstream.State.{UpstreamConn, Network, Client, is_our_nick, get_channel}
use soju_bouncer.Upstream.Isupport.{std_memberships, std_channel_types}
use soju_bouncer.Upstream.Members.{
  handle_join, handle_part, handle_kick, handle_quit, handle_nick, with_channel,
}
use soju_bouncer.Upstream.Members.Roster.{IsUniform, Makes, gone, renamed}
use soju_bouncer.Upstream.Members.Roster.Whole.{FirstOf, join_change, handle_join-FirstOf}
use soju_bouncer.Upstream.Members.Roster.Leave.{
  part_change, handle_part-FirstOf, handle_kick-FirstOf,
}
use soju_bouncer.Upstream.Members.Roster.Nick.{handle_quit-Makes, handle_nick-Makes}

abbrev pub no_one : Prefix
no_one = record { name = []; user = []; host = [] }

abbrev pub me : Prefix
me = record { name = codes "me"; user = codes "u"; host = codes "h" }

abbrev pub bob : Prefix
bob = record { name = codes "bob"; user = codes "b"; host = codes "h" }

-- A client that has joined nothing, and asks for nothing.
abbrev pub client : Client
client = record {
  id = 1;
  nick = codes "me";
  prefix = me;
  caps = record { available = []; enabled = [] };
  sees_blocked = false;
  monitored = record { m = []; casemap = casemap_ascii };
  away = false;
  sasl_plain = none;
}

abbrev pub net : Network
net = record {
  name = codes "net";
  server_prefix = no_one;
  auto_away = true;
  want_nick = codes "me";
  want_username = codes "u";
  want_realname = codes "r";
  pass = [];
  clients = client ∷ [];
  user_clients = client ∷ [];
  has_msg_store = true;
  last_msg_id = λ entity. some (codes "1");
  now = 0;
  parse_prefix = λ s. record { name = s; user = []; host = [] };
  base64 = record { encode = λ s. s; decode = λ s. some s };
  sasl_mechanism = [];
  sasl_respond = λ challenges. none;
  message_target = λ nick. record { muted = false; blocked = false };
  unicode = record { is_letter = λ c. false; is_number = λ c. false; is_space = λ c. false };
}

-- Registered, and on no channel.
abbrev pub fresh : UpstreamConn
fresh = record {
  registered = true;
  nick = codes "me";
  username = codes "u";
  realname = codes "r";
  hostname = [];
  account = [];
  modes = [];
  server_prefix = no_one;
  server_name = [];
  user_modes = [];
  available = record { memberships = std_memberships; channel_modes = std_channel_modes };
  channel_types = std_channel_types;
  status_msg = [];
  isupport = [];
  channels = record { m = []; casemap = casemap_ascii };
  users = record { m = []; casemap = casemap_ascii };
  monitored = record { m = []; casemap = casemap_ascii };
  caps = record { available = []; enabled = [] };
  sasl = none;
  batches = [];
  away = true;
  queues = record { pending_cmds = []; downstreams = 1 ∷ []; sent = [] };
  pending_regain_nick = [];
  regain_timer = false;
  got_motd = true;
  has_desired_nick = true;
  casemap = casemap_ascii;
  saved = record { m = []; casemap = casemap_ascii };
  delivered = record { m = []; casemap = casemap_ascii };
  out = [];
}

fresh-IsUniform : IsUniform fresh
unfolding get_channel CaseMappingMap.get lookup
fresh-IsUniform = record { channels = refl; members = λ k m e. ground arith }

abbrev pub said : Str → Message
said command = message command []

abbrev two : Str
two = codes "#a,#b"

-- We join two channels.
handle_join-FirstOf_example :
    FirstOf
      (is_our_nick fresh (codes "me"))
      (join_change (is_our_nick fresh (codes "me")) (codes "me"))
      (split b',' two)
      fresh
      (handle_join net fresh me (with_channel (said (codes "JOIN")) two []))
handle_join-FirstOf_example =
    handle_join-FirstOf net fresh me (said (codes "JOIN")) two [] fresh-IsUniform refl

abbrev on_two : UpstreamConn
on_two = (handle_join net fresh me (with_channel (said (codes "JOIN")) two [])).0

on_two-IsUniform : IsUniform on_two
on_two-IsUniform =
    (handle_join-FirstOf net fresh me (said (codes "JOIN")) two [] fresh-IsUniform
      refl).makes.uniform

-- Another user joins one of them.
abbrev with_bob : UpstreamConn
with_bob = (handle_join net on_two bob (with_channel (said (codes "JOIN")) (codes "#A") [])).0

with_bob-IsUniform : IsUniform with_bob
with_bob-IsUniform =
    (handle_join-FirstOf net on_two bob (said (codes "JOIN")) (codes "#A") [] on_two-IsUniform
      refl).makes.uniform

handle_part-FirstOf_example :
    FirstOf
      (is_our_nick with_bob (codes "bob"))
      (part_change (is_our_nick with_bob (codes "bob")) (codes "bob"))
      (split b',' (codes "#a"))
      with_bob
      (handle_part net with_bob bob (with_channel (said (codes "PART")) (codes "#a") []))
handle_part-FirstOf_example =
    handle_part-FirstOf net with_bob bob (said (codes "PART")) (codes "#a") [] with_bob-IsUniform

handle_kick-FirstOf_example :
    FirstOf
      (is_our_nick with_bob (codes "Me"))
      (part_change (is_our_nick with_bob (codes "Me")) (codes "Me"))
      (codes "#a" ∷ [])
      with_bob
      (handle_kick net with_bob bob
        (with_channel (said (codes "KICK")) (codes "#a") (codes "Me" ∷ [])))
handle_kick-FirstOf_example =
    handle_kick-FirstOf net with_bob bob (said (codes "KICK")) (codes "#a") (codes "Me") []
      with_bob-IsUniform

handle_quit-Makes_example :
    Makes (gone (codes "bob")) with_bob (handle_quit net with_bob bob (said (codes "QUIT"))).0
    × ((handle_quit net with_bob bob (said (codes "QUIT"))).1 ≡ none)
handle_quit-Makes_example =
    handle_quit-Makes net with_bob bob (said (codes "QUIT")) with_bob-IsUniform

handle_nick-Makes_example :
    let r = handle_nick net with_bob bob (with_channel (said (codes "NICK")) (codes "rob") []) in
    Makes (renamed (codes "bob") (codes "rob")) with_bob r.0 × (r.1 ≡ none)
handle_nick-Makes_example =
    handle_nick-Makes net with_bob bob (said (codes "NICK")) (codes "rob") [] with_bob-IsUniform
      refl
