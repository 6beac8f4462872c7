-- ===== src/Upstream/Cached.antt =====
-- upstream.go, getCachedWHO: the replies to WHO that are made of what is known of users.
pub mod Complete
use soju_bouncer.Prelude.{
  ℕ, Bool, true, false, ◌&&◌, ◌||◌, not, Option, none, some, List, [], ◌∷◌, if◌then◌else◌, nat_eq,
  nat_Eq, Str, str_Eq, codes, is_empty, contains,
}
use soju_bouncer.Xirc.Caps
use soju_bouncer.Xirc.CaseMappingMap
use soju_bouncer.Upstream.State.{UpstreamConn, UpstreamChannel, UpstreamUser, get_channel}
use soju_bouncer.Upstream.Members.{member_names}

-- Whether a field is known; some have fixed values, and those that WHOX does not name are not.
abbrev pub has_field : UpstreamUser → ℕ → Bool
has_field uu c =
    if nat_eq c b'n'
    then not (is_empty uu.nickname)
    else if nat_eq c b'u'
    then not (is_empty uu.username)
    else if nat_eq c b'h'
    then not (is_empty uu.hostname)
    else if nat_eq c b's'
    then not (is_empty uu.server)
    else if nat_eq c b'f'
    then not (is_empty uu.flags)
    else if nat_eq c b'a'
    then not (is_empty uu.account)
    else if nat_eq c b'r'
    then not (is_empty uu.realname)
    else contains c (codes "tcidlo")

unfoldable pub has_whox_fields : UpstreamUser → Str → Bool
has_whox_fields uu [] = true
has_whox_fields uu (c ∷ fields) = has_field uu c && has_whox_fields uu fields

abbrev pub known_user : Option UpstreamUser → Str → Option UpstreamUser
known_user none fields = none
known_user (some uu) fields = if has_whox_fields uu fields then some uu else none

abbrev add_user : Option UpstreamUser → Option (List UpstreamUser) → Option (List UpstreamUser)
add_user (some uu) (some l) = some (uu ∷ l)
add_user _ _ = none

-- The members of a channel, if all are known.
unfoldable pub cached_members : UpstreamConn → Str → List Str → Option (List UpstreamUser)
unfolding has_whox_fields
cached_members uc fields [] = some []
cached_members uc fields (nick ∷ nicks) =
    add_user (known_user (CaseMappingMap.get none uc.users nick) fields)
      (cached_members uc fields nicks)

abbrev cached_channel : UpstreamConn → Str → Option UpstreamChannel → Option (List UpstreamUser)
cached_channel uc fields none = none
cached_channel uc fields (some uch) = cached_members uc fields (member_names uch)

abbrev cached_for : UpstreamConn → Str → Str → Option UpstreamUser → Option (List UpstreamUser)
cached_for uc mask fields none = cached_channel uc fields (get_channel uc mask)
cached_for uc mask fields (some uu) = add_user (known_user (some uu) fields) (some [])

abbrev pub default_fields : Str → Str
default_fields fields = if is_empty fields then codes "cuhsnfdr" else fields

-- Whether the capability is missing that keeps a field up to date.
abbrev pub goes_stale : UpstreamConn → Str → Bool
goes_stale uc fields =
    (contains b'a' fields && not (Caps.is_enabled uc.caps (codes "account-notify")))
    || (contains b'f' fields && not (Caps.is_enabled uc.caps (codes "away-notify")))

-- `none` where the server is to be asked.
unfoldable pub get_cached_who : UpstreamConn → Str → Str → Option (List UpstreamUser)
unfolding cached_members get_channel Caps.is_enabled
get_cached_who uc mask fields =
    let wanted = default_fields fields in
    if goes_stale uc wanted
    then none
    else cached_for uc mask wanted (CaseMappingMap.get none uc.users mask)
