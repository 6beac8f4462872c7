-- ===== src/Xirc/Whox.antt =====
-- xirc/whox.go: WHOX fields, the replies that carry them, and the options of a WHO command.
pub mod RoundTrip
use soju_bouncer.Irc.{Message, message, rpl_whoreply}
use soju_bouncer.Prelude.{
  ℕ, Bool, true, false, ◌&&◌, ◌||◌, not, Option, none, some, List, [], ◌∷◌, ◌++◌, Str, str_Eq,
  nat_Eq, ◌==◌, nat_eq, if◌then◌else◌, codes, contains, is_empty,
}
use soju_bouncer.Prelude.Text.{has_prefix, split_once, to_lower}

-- All WHOX field letters, by order of appearance in RPL_WHOSPCRPL messages.
abbrev pub whox_fields : Str
whox_fields = codes "tcuihsnfdlaor"

abbrev pub rpl_whospcrpl : Str
rpl_whospcrpl = codes "354"

pub record WhoxInfo : Type 0 where
  pub token : Str
  pub channel : Str
  pub username : Str
  pub hostname : Str
  pub server : Str
  pub nickname : Str
  pub flags : Str
  pub account : Str
  pub realname : Str

abbrev pub no_info : WhoxInfo
no_info = record {
  token = [];
  channel = [];
  username = [];
  hostname = [];
  server = [];
  nickname = [];
  flags = [];
  account = [];
  realname = [];
}

-- An empty channel is sent as "*".
unfoldable pub shown_channel : Str → Str
shown_channel channel = if is_empty channel then codes "*" else channel

-- A host name that starts with a colon is sent with a zero before it.
unfoldable pub shown_hostname : Str → Str
unfolding has_prefix
shown_hostname hostname =
    if has_prefix hostname (codes ":") then codes "0" ++ hostname else hostname

-- No account is sent as "0".
unfoldable pub shown_account : Str → Str
shown_account account =
    if not (is_empty account) && not (account == codes "*") then account else codes "0"

unfoldable pub get : WhoxInfo → ℕ → Str
get info k =
    if nat_eq k b't'
    then info.token
    else if nat_eq k b'c'
    then shown_channel info.channel
    else if nat_eq k b'u'
    then info.username
    else if nat_eq k b'i'
    then codes "255.255.255.255"
    else if nat_eq k b'h'
    then shown_hostname info.hostname
    else if nat_eq k b's'
    then info.server
    else if nat_eq k b'n'
    then info.nickname
    else if nat_eq k b'f'
    then info.flags
    else if nat_eq k b'd'
    then codes "0"
    else if nat_eq k b'l'
    then codes "0"
    else if nat_eq k b'a'
    then shown_account info.account
    else if nat_eq k b'o'
    then codes "0"
    else if nat_eq k b'r'
    then info.realname
    else []

unfoldable pub set : WhoxInfo → ℕ → Str → WhoxInfo
set info k v =
    if nat_eq k b't'
    then record info { token = v }
    else if nat_eq k b'c'
    then record info { channel = v }
    else if nat_eq k b'u'
    then record info { username = v }
    else if nat_eq k b'h'
    then record info { hostname = v }
    else if nat_eq k b's'
    then record info { server = v }
    else if nat_eq k b'n'
    then record info { nickname = v }
    else if nat_eq k b'f'
    then record info { flags = v }
    else if nat_eq k b'a'
    then record info { account = v }
    else if nat_eq k b'r'
    then record info { realname = v }
    else info

-- The loop of `GenerateWHOXReply` over the letters: the values of the fields that are asked for.
unfoldable pub values_of : Str → Str → WhoxInfo → List Str
values_of [] fields info = []
values_of (field ∷ letters) fields info =
    if contains field fields
    then get info field ∷ values_of letters fields info
    else values_of letters fields info

unfoldable pub generate_whox_reply : Str → WhoxInfo → Message
unfolding values_of get shown_channel shown_hostname shown_account
generate_whox_reply fields info =
    if is_empty fields
    then message rpl_whoreply (
        codes "*"
        ∷ shown_channel info.channel
        ∷ info.username
        ∷ shown_hostname info.hostname
        ∷ info.server
        ∷ info.nickname
        ∷ info.flags
        ∷ (codes "0 " ++ info.realname)
        ∷ [])
    else message rpl_whospcrpl (codes "*" ∷ values_of whox_fields fields info)

-- The loop of `ParseWHOXReply`: `none` where the value of a field is missing.
unfoldable pub read_values : Str → Str → List Str → WhoxInfo → Option WhoxInfo
read_values [] fields values info = some info
read_values (field ∷ letters) fields [] info =
    if contains field fields then none else read_values letters fields [] info
read_values (field ∷ letters) fields (v ∷ values) info = elim (contains field fields) [
  | true ↦ read_values letters fields values (set info field v)
  | false ↦ read_values letters fields (v ∷ values) info
]

abbrev read_params : List Str → Str → Option WhoxInfo
read_params [] fields = none
read_params (_ ∷ values) fields = read_values whox_fields fields values no_info

-- `none` stands for each of the three errors.
unfoldable pub parse_whox_reply : Message → Str → Option WhoxInfo
unfolding read_values set
parse_whox_reply msg fields =
    if msg.command == rpl_whospcrpl then read_params msg.params fields else none

abbrev whox_token : Str → Option (Str × Str) → Str × Str
whox_token field_part none = (to_lower field_part, [])
whox_token field_part (some (part, token)) =
    (to_lower part, if contains b't' (to_lower part) then token else [])

-- The fields and the token that the options of a WHO command ask for.
unfoldable pub parse_whox_options : Str → Str × Str
unfolding split_once to_lower
parse_whox_options options = elim (split_once b'%' options) [
  | none ↦ ([], [])
  | some (_, rest) ↦ whox_token rest (split_once b',' rest)
]
