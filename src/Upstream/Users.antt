-- ===== src/Upstream/Users.antt =====
-- upstream.go, the cache of users, and whether a user is to be kept in it.
use soju_bouncer.Prelude.{
  Bool, false, ◌||◌, Option, none, some, List, [], ◌∷◌, if◌then◌else◌, ◌==◌, Str, str_Eq, is_empty,
}
use soju_bouncer.Xirc.CaseMappingMap
use soju_bouncer.Xirc.CaseMappingMap.{CaseMappingMap, Entry}
use soju_bouncer.Upstream.State.{UpstreamChannel, UpstreamUser, UpstreamConn, is_our_nick}

abbrev pub no_user : UpstreamUser
no_user = record {
  nickname = [];
  username = [];
  hostname = [];
  server = [];
  flags = [];
  account = [];
  realname = [];
}

abbrev or_old : Str → Str → Str
or_old new old = if is_empty new then old else new

unfoldable pub update_from : UpstreamUser → UpstreamUser → UpstreamUser
update_from uu update = record {
  nickname = or_old update.nickname uu.nickname;
  username = or_old update.username uu.username;
  hostname = or_old update.hostname uu.hostname;
  server = or_old update.server uu.server;
  flags = or_old update.flags uu.flags;
  account = or_old update.account uu.account;
  realname = or_old update.realname uu.realname;
}

abbrev pub cache_in :
    CaseMappingMap (Option UpstreamUser)
    → Str
    → UpstreamUser
    → Option UpstreamUser
    → CaseMappingMap (Option UpstreamUser)
cache_in users nick info none =
    let info' = record info { nickname = or_old info.nickname nick } in
    CaseMappingMap.set users info'.nickname (some info')
cache_in users nick info (some uu) =
    let uu' = update_from uu info in
    if is_empty info.nickname || nick == info.nickname
    then CaseMappingMap.set users nick (some uu')
    else CaseMappingMap.set (CaseMappingMap.del users nick) uu'.nickname (some uu')

-- `none` is the panic on an empty nickname.
unfoldable pub cache_user_info : UpstreamConn → Str → UpstreamUser → Option UpstreamConn
unfolding update_from
cache_user_info uc nick info =
    if is_empty nick
    then none
    else some
        (record uc { users = cache_in uc.users nick info (CaseMappingMap.get none uc.users nick) })

abbrev pub has_member : Option UpstreamChannel → Str → Bool
has_member none nick = false
has_member (some ch) nick = CaseMappingMap.has ch.state.members nick

abbrev pub shares_channel : List (Str × Entry (Option UpstreamChannel)) → Str → Bool
shares_channel [] nick = false
shares_channel ((_, entry) ∷ m) nick = has_member entry.value nick || shares_channel m nick

unfoldable pub should_cache_user_info : UpstreamConn → Str → Bool
unfolding is_our_nick
should_cache_user_info uc nick =
    is_our_nick uc nick
    || (CaseMappingMap.has uc.monitored nick || shares_channel uc.channels.m nick)

abbrev pub forget_user : UpstreamConn → Str → UpstreamConn
forget_user uc nick =
    if should_cache_user_info uc nick
    then uc
    else record uc { users = CaseMappingMap.del uc.users nick }

-- The users of a channel that was left are forgotten one by one.
unfoldable pub forget_members : UpstreamConn → List Str → UpstreamConn
unfolding should_cache_user_info
forget_members uc [] = uc
forget_members uc (nick ∷ nicks) = forget_members (forget_user uc nick) nicks
