-- ===== src/Upstream/Monitor.antt =====
-- upstream.go, updateMonitor: the nicknames that the server is asked to watch for the clients and for
-- our own nickname.
pub mod Dropped
use soju_bouncer.Prelude.{
  Bool, true, ◌&&◌, not, List, [], ◌∷◌, ◌++◌, if◌then◌else◌, ◌==◌, nat_Eq, Str, str_Eq, codes,
  is_empty, is_some, lookup, map, contains,
}
use soju_bouncer.Irc.{Message, message}
use soju_bouncer.Xirc.CaseMappingMap
use soju_bouncer.Xirc.GenMsg.{generate_monitor}
use soju_bouncer.Upstream.State.{UpstreamConn, Network, Client, to_server, emit, is_our_nick}
use soju_bouncer.Upstream.Users.{forget_user, should_cache_user_info}

-- serviceNickCM of service.go.
abbrev pub service_nick_cm : Str
service_nick_cm = codes "bouncerserv"

-- The names to be added, each once, and those that are watched already and still wanted.
pub record Wanted : Type 0 where
  pub add_list : List Str
  pub seen : List Str

abbrev pub want_target : UpstreamConn → Wanted → Str → Wanted
want_target uc w target =
    let target_cm = uc.casemap target in
    if target_cm == service_nick_cm
    then w
    else if not (CaseMappingMap.has uc.monitored target_cm)
    then (if contains target_cm w.add_list
        then w
        else record w { add_list = w.add_list ++ target_cm ∷ [] })
    else record w { seen = target_cm ∷ w.seen }

unfoldable pub want_targets : UpstreamConn → Wanted → List Str → Wanted
want_targets uc w [] = w
want_targets uc w (target ∷ l) = want_targets uc (want_target uc w target) l

abbrev pub monitored_names : Client → List Str
monitored_names dc = map (λ (e : Str × Unit {0}). e.0) (CaseMappingMap.entries dc.monitored.m)

unfoldable pub want_all : UpstreamConn → Wanted → List Client → Wanted
unfolding want_targets
want_all uc w [] = w
want_all uc w (dc ∷ l) = want_all uc (want_targets uc w (monitored_names dc)) l

-- Our own nickname is watched while another one has it.
abbrev pub want_own : Network → UpstreamConn → List Str → List Str
want_own net uc add_list =
    if (not (contains (uc.casemap net.want_nick) add_list)
        && not (CaseMappingMap.has uc.monitored net.want_nick))
      && (not (is_our_nick uc net.want_nick) && not uc.has_desired_nick)
    then add_list ++ uc.casemap net.want_nick ∷ []
    else add_list

unfoldable pub remove_list : UpstreamConn → List Str → List (Str × Bool) → List Str
remove_list uc seen [] = []
remove_list uc seen ((nick, online) ∷ l) =
    (if contains (uc.casemap nick) seen then [] else nick ∷ []) ++ remove_list uc seen l

-- `removeAll`.
unfoldable pub none_seen : UpstreamConn → List Str → List (Str × Bool) → Bool
none_seen uc seen [] = true
none_seen uc seen ((nick, online) ∷ l) =
    not (contains (uc.casemap nick) seen) && none_seen uc seen l

unfoldable pub monitor_messages : Bool → List Str → List Str → List Message
unfolding generate_monitor
monitor_messages remove_all removes adds =
    if remove_all && (is_empty adds && not (is_empty removes))
    then message (codes "MONITOR") (codes "C" ∷ []) ∷ []
    else generate_monitor (codes "-") removes ++ generate_monitor (codes "+") adds

unfoldable pub unwatch : UpstreamConn → List Str → UpstreamConn
unfolding should_cache_user_info
unwatch uc [] = uc
unwatch uc (target ∷ l) =
    unwatch (forget_user (record uc { monitored = CaseMappingMap.del uc.monitored target }) target)
      l

abbrev pub all_wanted : Network → UpstreamConn → Wanted
all_wanted net uc = want_all uc (record { add_list = []; seen = [] }) net.clients

-- The names to be added and to be removed.
unfoldable pub monitor_lists : Network → UpstreamConn → List Str × List Str
unfolding want_all is_our_nick remove_list
monitor_lists net uc =
    let w = all_wanted net uc in
    (want_own net uc w.add_list, remove_list uc w.seen (CaseMappingMap.entries uc.monitored.m))

unfoldable pub update_monitor : Network → UpstreamConn → UpstreamConn
unfolding monitor_lists none_seen monitor_messages unwatch lookup
update_monitor net uc =
    let (adds, removes) = monitor_lists net uc in
    let all_gone = none_seen uc (all_wanted net uc).seen (CaseMappingMap.entries uc.monitored.m) in
    if is_some (lookup (codes "MONITOR") uc.isupport)
    then unwatch (emit uc (map to_server (monitor_messages all_gone removes adds))) removes
    else uc
