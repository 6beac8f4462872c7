-- ===== src/Upstream/Names.antt =====
-- upstream.go, the names of a channel: NAMES replies, and their end.
use soju_bouncer.Prelude.{
  ℕ, true, ◌||◌, Option, some, List, [], ◌∷◌, if◌then◌else◌, nat_eq, nat_Eq, Str, str_Eq,
}
use soju_bouncer.Prelude.Text.{fields_from}
use soju_bouncer.Irc.{Message, Prefix}
use soju_bouncer.Xirc.CaseMappingMap
use soju_bouncer.Xirc.CaseMappingMap.{CaseMappingMap}
use soju_bouncer.Xirc.Membership.{Membership, MembershipSet}
use soju_bouncer.Modes.Prefixes.{parse_membership_prefix}
use soju_bouncer.Upstream.State.{
  UpstreamConn, UpstreamChannel, Network, Handled, done, failed, emit, need_more_params, panicked,
  malformed, unexpected, get_channel, set_channel, with_members, Client, Output, channel_forwarded,
}
use soju_bouncer.Upstream.Produce.{is_detached}
use soju_bouncer.Upstream.Channels.{on_channel}

pub data ChannelStatus : Type 0 where
  status_ok : ℕ → ChannelStatus
  bad_status status_panic : ChannelStatus

-- ParseChannelStatus of xirc/xirc.go; an index into the empty text panics.
unfoldable pub parse_channel_status : Str → ChannelStatus
parse_channel_status [] = status_panic
parse_channel_status (c ∷ []) =
    if nat_eq c b'=' || (nat_eq c b'@' || nat_eq c b'*') then status_ok c else bad_status
parse_channel_status (c ∷ d ∷ s) = bad_status

-- splitSpace.
unfoldable pub split_space : Str → List Str
unfolding fields_from
split_space s = fields_from (λ c. nat_eq c b' ') [] s

abbrev set_name :
    List Membership
    → CaseMappingMap (Option MembershipSet)
    → Str
    → CaseMappingMap (Option MembershipSet)
set_name memberships members s =
    let (ms, nick) = parse_membership_prefix memberships s in
    CaseMappingMap.set members nick (some ms)

unfoldable pub set_names :
    List Membership
    → CaseMappingMap (Option MembershipSet)
    → List Str
    → CaseMappingMap (Option MembershipSet)
unfolding parse_membership_prefix
set_names memberships members [] = members
set_names memberships members (s ∷ l) = set_names memberships (set_name memberships members s) l

abbrev names_read : UpstreamConn → Str → Str → UpstreamChannel → ChannelStatus → Handled
names_read uc name members ch bad_status = failed uc malformed
names_read uc name members ch status_panic = failed uc panicked
names_read uc name members ch (status_ok status) = done (
    set_channel uc name (
      with_members (record ch { status = some status })
        (set_names uc.available.memberships ch.state.members (split_space members))))

abbrev namreply_params : Network → UpstreamConn → ℕ → Prefix → Message → List Str → Handled
namreply_params net uc id from msg (_ ∷ status ∷ name ∷ members ∷ rest) =
    on_channel net uc id from msg (get_channel uc name)
      λ ch. names_read uc name members ch (parse_channel_status status)
namreply_params net uc id from msg _ = failed uc need_more_params

unfoldable pub handle_namreply : Network → UpstreamConn → ℕ → Prefix → Message → Handled
unfolding get_channel parse_channel_status set_names split_space
handle_namreply net uc id from msg = namreply_params net uc id from msg msg.params

unfoldable pub forward_channel_to : List Client → Str → List Output
forward_channel_to [] name = []
forward_channel_to (dc ∷ l) name = channel_forwarded dc.id name ∷ forward_channel_to l name

abbrev names_end : Network → UpstreamConn → Str → UpstreamChannel → Handled
names_end net uc name ch =
    let uc' = set_channel uc name (record ch { complete = true }) in
    if ch.complete
    then failed uc unexpected
    else if is_detached uc' name
    then done uc'
    else done (emit uc' (forward_channel_to net.clients ch.name))

abbrev endofnames_params : Network → UpstreamConn → ℕ → Prefix → Message → List Str → Handled
endofnames_params net uc id from msg (_ ∷ name ∷ rest) =
    on_channel net uc id from msg (get_channel uc name) (names_end net uc name)
endofnames_params net uc id from msg _ = failed uc need_more_params

unfoldable pub handle_endofnames : Network → UpstreamConn → ℕ → Prefix → Message → Handled
unfolding get_channel forward_channel_to
handle_endofnames net uc id from msg = endofnames_params net uc id from msg msg.params
