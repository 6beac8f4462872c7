-- ===== src/Irc.antt =====
-- Messages of the IRC library that the program uses (gopkg.in/irc.v4), as far as the program reads
-- and builds them, and the numerics that it names by that library's constants.
use soju_bouncer.Prelude.{Str, List, [], codes}

pub record Message : Type 0 where
  pub tags : List (Str × Str)
  pub command : Str
  pub params : List Str

pub record Prefix : Type 0 where
  pub name : Str
  pub user : Str
  pub host : Str

abbrev pub message : Str → List Str → Message
message command params = record { tags = []; command = command; params = params }

abbrev pub rpl_isupport : Str
rpl_isupport = codes "005"

abbrev pub rpl_endofwho : Str
rpl_endofwho = codes "315"

abbrev pub rpl_endofwhois : Str
rpl_endofwhois = codes "318"

abbrev pub rpl_listend : Str
rpl_listend = codes "323"

abbrev pub rpl_whoreply : Str
rpl_whoreply = codes "352"

abbrev pub rpl_namreply : Str
rpl_namreply = codes "353"

abbrev pub rpl_endofnames : Str
rpl_endofnames = codes "366"

abbrev pub rpl_motd : Str
rpl_motd = codes "372"

abbrev pub rpl_motdstart : Str
rpl_motdstart = codes "375"

abbrev pub rpl_endofmotd : Str
rpl_endofmotd = codes "376"
