-- ===== src/Database.antt =====
-- database/database.go: the records of users and networks, with their defaults.
pub mod Channels
pub mod Ansi
use soju_bouncer.Prelude.{
  ℕ, Bool, ◌||◌, not, Option, none, some, List, [], ◌∷◌, ◌++◌, if◌then◌else◌, ◌==◌, nat_Eq, Str,
  str_Eq, pair_Eq, codes, is_empty,
}
use soju_bouncer.Prelude.Text.{has_prefix}

pub record Sasl : Type 0 where
  pub mechanism : Str
  pub plain_username : Str
  pub plain_password : Str
  pub cert_blob : Str
  pub priv_key_blob : Str

-- A network with id 0 has not been stored yet.
pub record NetworkRecord : Type 0 where
  pub id : ℕ
  pub name : Str
  pub addr : Str
  pub nick : Str
  pub username : Str
  pub realname : Str
  pub pass : Str
  pub connect_commands : List Str
  pub cert_fp : Str
  pub sasl : Sasl
  pub auto_away : Bool
  pub enabled : Bool

-- `none` is a negative number of networks, for no limit of the user's own.
pub record UserRecord : Type 0 where
  pub user_id : ℕ
  pub username : Str
  pub nick : Str
  pub realname : Str
  pub admin : Bool
  pub max_networks : Option ℕ

unfoldable pub get_name : NetworkRecord → Str
get_name net = if is_empty net.name then net.addr else net.name

-- `none` is the nil network.
abbrev pub get_nick : UserRecord → Option NetworkRecord → Str
get_nick user none = if is_empty user.nick then user.username else user.nick
get_nick user (some net) =
    if not (is_empty net.nick)
    then net.nick
    else if is_empty user.nick
    then user.username
    else user.nick

abbrev pub get_username : UserRecord → Option NetworkRecord → Str
get_username user none = get_nick user none
get_username user (some net) =
    if not (is_empty net.username) then net.username else get_nick user (some net)

abbrev pub get_realname : UserRecord → Option NetworkRecord → Str
get_realname user none = if not (is_empty user.realname) then user.realname else get_nick user none
get_realname user (some net) =
    if not (is_empty net.realname)
    then net.realname
    else if not (is_empty user.realname)
    then user.realname
    else get_nick user (some net)

pub record Url : Type 0 where
  pub scheme : Str
  pub has_user : Bool
  pub host : Str
  pub path : Str
  pub raw_query : Str
  pub fragment : Str

unfoldable pub has_infix : Str → Str → Bool
unfolding has_prefix
has_infix [] p = has_prefix [] p
has_infix (c ∷ s) p = has_prefix (c ∷ s) p || has_infix s p

abbrev pub is_unix : Str → Bool
is_unix scheme = scheme == codes "irc+unix" || scheme == codes "unix"

abbrev pub with_path : Url → Url
with_path u = if is_unix u.scheme then record u { path = u.host ++ u.path; host = [] } else u

-- The address as a URL; `parse_url` is `url.Parse` of net/url.
abbrev pub url : (Str → Option Url) → NetworkRecord → Option Url
url parse_url net =
    elim (parse_url
      (if has_infix net.addr (codes "://") then net.addr else codes "ircs://" ++ net.addr)) [
        | none ↦ none
        | some u ↦ some (with_path u)
      ]
