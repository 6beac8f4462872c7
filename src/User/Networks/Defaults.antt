-- ===== src/User/Networks/Defaults.antt =====
-- The defaults of database.go under what updateNetwork of user.go wipes.
use soju_bouncer.Prelude.{◌≡◌, some, arith, nat_Eq, list_eq_iff, str_Eq, pair_Eq}
use soju_bouncer.Database.{get_nick, get_username, get_realname, UserRecord, NetworkRecord}
use soju_bouncer.User.Networks.Update.{wipe_defaults}

-- A nickname or a real name that is wiped because it is the user's own is found again: the network
-- is used with the same nickname, user name and real name as before.
pub wipe_defaults-names :
    (account : UserRecord) (r : NetworkRecord)
    → (get_nick account (some (wipe_defaults account r)) ≡ get_nick account (some r))
      × (get_username account (some (wipe_defaults account r)) ≡ get_username account (some r))
      × (get_realname account (some (wipe_defaults account r)) ≡ get_realname account (some r))
wipe_defaults-names account r =
    ground (arith, list_eq_iff r.nick account.nick, list_eq_iff r.realname account.realname)
