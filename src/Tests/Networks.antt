-- ===== src/Tests/Networks.antt =====
-- The networks of a user of user.go, with what stands beside them, at a user with one network.
use soju_bouncer.Prelude.{
  ◌≡◌, refl, ap, true, false, Option, none, some, [], ◌∷◌, arith, nat_Eq, Str, str_Eq, pair_Eq,
  codes, value_or,
}
use soju_bouncer.Database.{Sasl, NetworkRecord, UserRecord, Url}
use soju_bouncer.Rate.{Backoffer, IsBackoff}
use soju_bouncer.Service.Commands.{
  command, Command, CommandSet, no_commands, and_command, find, exact, candidates, choose, find_lem,
}
use soju_bouncer.User.Networks.{
  Server, User, Network, DownstreamConn, new_network, create_network, get_network_by_id,
  count_enabled,
}
use soju_bouncer.User.Networks.Update.{update_network, delete_network}
use soju_bouncer.User.Networks.Invariant.{IsUser}
use soju_bouncer.User.Networks.Invariant.Create.{GivesFreshId, Created, create_network-Created}
use soju_bouncer.User.Networks.Invariant.Limit.{Within, create_network-limit}
use soju_bouncer.User.Networks.Invariant.Change.{Deleted, delete_network-Deleted}
use soju_bouncer.User.Networks.Invariant.Update.{IsWiped, Updated, update_network-Updated}

abbrev no_sasl : Sasl
no_sasl = record {
  mechanism = [];
  plain_username = [];
  plain_password = [];
  cert_blob = [];
  priv_key_blob = [];
}

abbrev libera : NetworkRecord
libera = record {
  id = 1;
  name = codes "libera";
  addr = codes "irc.libera.chat";
  nick = [];
  username = [];
  realname = [];
  pass = [];
  connect_commands = [];
  cert_fp = [];
  sasl = no_sasl;
  auto_away = true;
  enabled = true;
}

abbrev oftc : NetworkRecord
oftc = record libera { id = 0; name = codes "oftc"; addr = codes "irc.oftc.net" }

abbrev ada : UserRecord
ada = record {
  user_id = 1;
  username = codes "ada";
  nick = codes "ada";
  realname = [];
  admin = false;
  max_networks = some 2;
}

abbrev client : DownstreamConn
client = record { conn_id = 1; network = some 0; closed = false; notified = true }

abbrev one_network : Network
one_network = new_network 0 libera []

abbrev user : User
user = record {
  account = ada;
  networks = one_network ∷ [];
  downstream_conns = client ∷ [];
  next_object = 1;
  events = [];
}

abbrev https : Str → Option Url
https s = some (record {
  scheme = codes "ircs";
  has_user = false;
  host = s;
  path = [];
  raw_query = [];
  fragment = [];
})

abbrev server : Server
server = record {
  parse_url = https;
  insert_network = λ r. some 7;
  update_row = λ r. true;
  delete_row = λ id. true;
  max_user_networks = none;
  renames = false;
}

user-IsUser : IsUser user
unfolding new_network
user-IsUser = record {
  ascending = (tt, tt);
  apart = (tt, tt);
  stored = ((λ e. ground (arith, e)), tt);
  numbered = (omega arith, tt);
  attached = (refl, tt);
}

server-GivesFreshId : GivesFreshId server user
unfolding new_network
server-GivesFreshId r id e =
    let seven : 7 ≡ id = ap (λ o. value_or o 0) e in
    ((λ z. ground (arith, seven, z)), ((λ z. ground (arith, seven, z)), tt))

user_network : get_network_by_id user.networks 1 ≡ some one_network
unfolding get_network_by_id new_network
user_network = refl

create_network-Created_example :
    Created server user oftc true (create_network server user oftc true)
create_network-Created_example =
    create_network-Created server user oftc true user-IsUser server-GivesFreshId refl

create_network-limit_example : Within 2 (create_network server user oftc true)
unfolding count_enabled new_network
create_network-limit_example = create_network-limit server user oftc 2 refl (omega arith)

update_network-Updated_example :
    (wiped : NetworkRecord) × IsWiped user.account (record libera { nick = codes "ada" }) wiped
    × Updated server user
        (record libera { nick = codes "ada" })
        wiped
        true
        one_network
        (update_network server user (record libera { nick = codes "ada" }) true)
update_network-Updated_example =
    update_network-Updated server user (record libera { nick = codes "ada" }) true one_network
      user-IsUser (λ e. ground (arith, e)) user_network

delete_network-Deleted_example : Deleted server user one_network (delete_network server user 1)
delete_network-Deleted_example =
    delete_network-Deleted server user 1 one_network user-IsUser user_network

abbrev running : Backoffer
running = record { min_delay = 60; max_delay = 600; jitter = 30; n = 2 }

running-IsBackoff : IsBackoff running
running-IsBackoff = record {
  positive = omega arith;
  ordered = omega arith;
  room = omega arith;
  bounded = omega arith;
}

abbrev status : Command
status = command 0 false false no_commands

abbrev commands : CommandSet
commands = and_command (codes "network") status (and_command (codes "notice") status no_commands)

find_lem_example :
    find commands (codes "ne")
    ≡ choose (exact commands (codes "ne")) (candidates commands (codes "ne"))
find_lem_example = find_lem commands (codes "ne")
