-- ===== src/Upstream/Members/Roster/Nick.antt =====
-- The roster of upstream.go after a QUIT or a NICK.
use soju_bouncer.Prelude.{
  codes, ◌≡◌, refl, inl, inr, Bool, true, false, none, some, List, [], ◌∷◌, if◌then◌else◌,
  Bool-cases, ◌==◌, Str, str_Eq, lookup, ◌∙◌, is_empty, is_some, ap, nat_Eq,
}
use soju_bouncer.Irc.{Message, Prefix}
use soju_bouncer.Xirc.CaseMappingMap
use soju_bouncer.Xirc.CaseMappingMap.{CaseMappingMap, Entry}
use soju_bouncer.Upstream.State.{UpstreamConn, Network, change_each, emit, is_our_nick}
use soju_bouncer.Upstream.Users.{should_cache_user_info, cache_user_info}
use soju_bouncer.Upstream.Members.{quit_channel, rename_in_channel}
use soju_bouncer.Upstream.Members.Roster.{gone, renamed, IsUniform, Makes}
use soju_bouncer.Upstream.Members.Roster.Each.{gone-Makes, renamed-Makes}
use soju_bouncer.Upstream.Produce.Keeps.{
  Same, Same-refl, Same-trans, append_log-Same, forward_message-Same,
}
use soju_bouncer.Upstream.Members.{handle_quit, handle_nick, with_channel}
use soju_bouncer.Upstream.Users.{cache_in}
use soju_bouncer.Upstream.Members.{
  log_each, channels_with, take_nick, renamed as after_nick, update_each,
}
use soju_bouncer.Upstream.State.{updated, nick_changed}
use soju_bouncer.Upstream.Users.{no_user}
use soju_bouncer.Upstream.Monitor.{update_monitor, unwatch, monitor_lists}
use soju_bouncer.Upstream.Produce.{append_log, forward_message}

log_each-Same :
    (net : Network) (from : Prefix) (msg : Message) (uc : UpstreamConn) (l : List Str)
    → Same uc (log_each net from msg uc l)
unfolding log_each
log_each-Same net from msg uc [] = Same-refl uc
log_each-Same net from msg uc (name ∷ l) =
    Same-trans (append_log-Same net uc name from msg)
      (log_each-Same net from msg (append_log net uc name from msg) l)

-- A QUIT takes its user from every channel, and does not fail.
pub handle_quit-Makes :
    (net : Network) (uc : UpstreamConn) (from : Prefix) (msg : Message)
    → IsUniform uc
    → Makes (gone from.name) uc (handle_quit net uc from msg).0
      × ((handle_quit net uc from msg).1 ≡ none)
unfolding handle_quit
handle_quit-Makes net uc from msg u =
    let uc1 = record uc { channels = change_each (quit_channel from.name) uc.channels } in
    let names = channels_with uc from.name (CaseMappingMap.entries uc.channels.m) in
    let same = log_each-Same net from msg uc1 names in
    let uc2 = log_each net from msg uc1 names in
    let uc3 = record uc2 { users = CaseMappingMap.del uc2.users from.name } in
    elim (Bool-cases (from.name == uc.nick)) [
      | inl ours ↦ rw ours (gone-Makes uc uc3 from.name u same.channels same.casemap, refl)
      | inr other ↦
          let sent = forward_message-Same net uc3 from msg in
          rw other (
            gone-Makes uc (forward_message net uc3 from msg) from.name u
                (sent.channels ∙ same.channels) (sent.casemap ∙ same.casemap),
            refl,
          )
    ]

unwatch-keeps :
    (uc : UpstreamConn) (l : List Str)
    → ((unwatch uc l).channels ≡ uc.channels) × ((unwatch uc l).casemap ≡ uc.casemap)
unfolding unwatch
unwatch-keeps uc [] = (refl, refl)
unwatch-keeps uc (n ∷ l) =
    let uc1 = record uc { monitored = CaseMappingMap.del uc.monitored n } in
    elim (Bool-cases (should_cache_user_info uc1 n)) [
      | inl kept ↦ rw (kept, unwatch) (unwatch-keeps uc1 l)
      | inr unknown ↦
          rw (unknown, unwatch)
            (unwatch-keeps (record uc1 { users = CaseMappingMap.del uc1.users n }) l)
    ]

update_monitor-keeps :
    (net : Network) (uc : UpstreamConn)
    → ((update_monitor net uc).channels ≡ uc.channels)
      × ((update_monitor net uc).casemap ≡ uc.casemap)
unfolding update_monitor
update_monitor-keeps net uc = elim (Bool-cases (is_some (lookup (codes "MONITOR") uc.isupport))) [
  | inl can ↦ rw can (unwatch-keeps _ (monitor_lists net uc).1)
  | inr cannot ↦ rw cannot (refl, refl)
]

after_nick-keeps :
    (net : Network) (from : Prefix) (msg : Message) (me : Bool) (uc uc' : UpstreamConn)
    → ((after_nick net from msg me uc (some uc')).0.channels ≡ uc'.channels)
      × (((after_nick net from msg me uc (some uc')).0.casemap ≡ uc'.casemap)
          × ((after_nick net from msg me uc (some uc')).1 ≡ none))
after_nick-keeps net from msg true uc uc' =
    let (h, f) =
      update_monitor-keeps net
        (emit uc' (update_each net.clients (λ id. updated id nick_changed))) in
    (h, (f, refl))
after_nick-keeps net from msg false uc uc' =
    let same = forward_message-Same net uc' from msg in (same.channels, (same.casemap, refl))

-- A NICK gives its user the new nickname on every channel, where the old one is not empty, and does
-- not fail.
pub handle_nick-Makes :
    (net : Network) (uc : UpstreamConn) (from : Prefix) (msg : Message) (new_nick : Str)
    (rest : List Str)
    → IsUniform uc
    → is_empty from.name ≡ false
    → let r = handle_nick net uc from (with_channel msg new_nick rest) in
      Makes (renamed from.name new_nick) uc r.0 × (r.1 ≡ none)
unfolding handle_nick cache_user_info
handle_nick-Makes net uc from msg new_nick rest u named =
    let msg' = with_channel msg new_nick rest in
    let me = is_our_nick uc from.name in
    let (h, f) = before net uc new_nick me in
    let uc1 = if me then take_nick net uc new_nick else uc in
    let change = rename_in_channel from.name new_nick in
    let names = channels_with uc1 from.name (CaseMappingMap.entries uc1.channels.m) in
    let same =
      log_each-Same net from msg' (record uc1 { channels = change_each change uc1.channels })
        names in
    let chans = same.channels ∙ ap (change_each change) h in
    let uc2 =
      log_each net from msg' (record uc1 { channels = change_each change uc1.channels }) names in
    let info = record no_user { nickname = new_nick } in
    let uc3 = record uc2 {
      users = cache_in uc2.users from.name info (CaseMappingMap.get none uc2.users from.name);
    } in
    let (h2, (f2, e2)) = after_nick-keeps net from msg' me uc2 uc3 in
    rw named (
      renamed-Makes uc (after_nick net from msg' me uc2 (some uc3)).0 from.name new_nick u
          (h2 ∙ chans) (f2 ∙ same.casemap ∙ f),
      e2,
    )
  where
    before :
        (net : Network) (uc : UpstreamConn) (n : Str) (b : Bool)
        → ((if b then take_nick net uc n else uc).channels ≡ uc.channels)
          × ((if b then take_nick net uc n else uc).casemap ≡ uc.casemap)
    before net uc n true = (refl, refl)
    before net uc n false = (refl, refl)
