-- ===== src/Upstream/Detach.antt =====
-- user.go, the channels of a network that is connected: detaching a channel, and deleting it. That
-- a channel is attached again stands with the texts that do so.
pub mod RoundTrip
use soju_bouncer.Prelude.{
  ℕ, Bool, true, Option, none, some, List, [], ◌∷◌, if◌then◌else◌, Str, codes, value_or,
}
use soju_bouncer.Irc.{message}
use soju_bouncer.Xirc.CaseMappingMap
use soju_bouncer.Database.Channels.{ChannelSettings}
use soju_bouncer.Upstream.State.{
  UpstreamConn, UpstreamChannel, Network, Client, Output, Handled, done, failed, emit,
  unknown_channel, database_failed, replied, stored, get_channel,
}
use soju_bouncer.Upstream.Produce.{update_auto_detach}
use soju_bouncer.Upstream.Text.{set_saved}

abbrev stop_channel_timer : UpstreamConn → Str → Option UpstreamChannel → UpstreamConn
stop_channel_timer uc name none = uc
stop_channel_timer uc name (some uch) = update_auto_detach uc name uch 0

unfoldable pub part_clients : Str → List Client → List Output
part_clients name [] = []
part_clients name (dc ∷ l) =
    replied dc.id dc.prefix (message (codes "PART") (name ∷ codes "Detach" ∷ []))
    ∷ part_clients name l

-- The last message at that time is kept, and none where the store fails to tell it.
abbrev pub detached_settings : Network → UpstreamConn → ChannelSettings → ChannelSettings
detached_settings net uc ch = record ch {
  detached = true;
  detached_internal_msg_id =
      if net.has_msg_store
      then value_or (net.last_msg_id (uc.casemap ch.name)) []
      else ch.detached_internal_msg_id;
}

unfoldable pub detach : Network → UpstreamConn → ChannelSettings → UpstreamConn
unfolding part_clients get_channel
detach net uc ch =
    let uc1 = set_saved uc ch.name (detached_settings net uc ch) in
    let uc2 = stop_channel_timer uc1 ch.name (get_channel uc1 ch.name) in
    if ch.detached then uc else emit uc2 (part_clients ch.name net.clients)

abbrev detach_saved : Network → UpstreamConn → Option ChannelSettings → UpstreamConn
detach_saved net uc none = uc
detach_saved net uc (some ch) =
    if ch.detached then uc else emit (detach net uc ch) (stored ch.name ∷ [])

-- eventChannelDetach, of the timer of a channel.
unfoldable pub handle_channel_detach : Network → UpstreamConn → Str → UpstreamConn
unfolding detach
handle_channel_detach net uc name = detach_saved net uc (CaseMappingMap.get none uc.saved name)

abbrev delete_saved : Bool → UpstreamConn → Str → Option ChannelSettings → Handled
delete_saved deleted uc name none = failed uc unknown_channel
delete_saved deleted uc name (some ch) =
    let uc' = stop_channel_timer uc ch.name (get_channel uc ch.name) in
    if deleted
    then done (record uc' { saved = CaseMappingMap.del uc'.saved name })
    else failed uc' database_failed

-- deleteChannel, with whether the database has deleted it.
unfoldable pub delete_channel : Bool → UpstreamConn → Str → Handled
unfolding get_channel
delete_channel deleted uc name =
    delete_saved deleted uc name (CaseMappingMap.get none uc.saved name)
