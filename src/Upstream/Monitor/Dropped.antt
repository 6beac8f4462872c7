-- ===== src/Upstream/Monitor/Dropped.antt =====
-- upstream.go, updateMonitor: our own nickname, once it is watched, is not watched any more.
use soju_bouncer.Prelude.{
  ◌≡◌, refl, inl, inr, Bool, true, false, ◌&&◌, not, none, List, [], ◌∷◌, ◌++◌, Bool-cases, ◌==◌,
  str_Eq, nat_Eq, Str, codes, is_empty, is_some, lookup, All, sym, ◌∙◌, ap,
}
use soju_bouncer.Irc.{message}
use soju_bouncer.Xirc.CaseMapping.{CaseMapping}
use soju_bouncer.Xirc.CaseMappingMap
use soju_bouncer.Xirc.CaseMappingMap.{CaseMappingMap, Entry}
use soju_bouncer.Xirc.CaseMappingMap.Laws.{IsValid, IsKeyed, has-del}
use soju_bouncer.Upstream.State.{UpstreamConn, Network, Client, to_server, emit}
use soju_bouncer.Upstream.Users.{should_cache_user_info}
use soju_bouncer.Upstream.Monitor.{
  update_monitor, unwatch, remove_list, none_seen, monitor_lists, monitor_messages, want_all,
  want_targets, Wanted,
}

names : List (Str × Entry Bool) → List Str
names [] = []
names ((_, entry) ∷ m) = entry.original_key ∷ names m

remove_list-all :
    (uc : UpstreamConn) (m : List (Str × Entry Bool))
    → remove_list uc [] (CaseMappingMap.entries m) ≡ names m
unfolding remove_list CaseMappingMap.entries names
remove_list-all uc [] = refl
remove_list-all uc ((k, entry) ∷ m) = ap (◌∷◌ entry.original_key) (remove_list-all uc m)

none_seen-all : (uc : UpstreamConn) (l : List (Str × Bool)) → none_seen uc [] l ≡ true
unfolding none_seen
none_seen-all uc [] = refl
none_seen-all uc ((nick, online) ∷ l) = none_seen-all uc l

parts : (b w : Bool) → (not b && w) ≡ true → (b ≡ false) × (w ≡ true)
parts true w h = cc
parts false w h = (refl, h)

names-nonempty :
    (m : List (Str × Entry Bool)) (k : Str)
    → is_some (lookup k m) ≡ true
    → is_empty (names m) ≡ false
unfolding lookup names
names-nonempty [] k h = cc
names-nonempty ((j, entry) ∷ m) k h = refl

-- A name that is watched after others were taken off is none of them.
still_watched :
    (uc : UpstreamConn) (l : List Str) (n : Str)
    → CaseMappingMap.has (unwatch uc l).monitored n ≡ true
    → (CaseMappingMap.has uc.monitored n ≡ true)
      × All (λ (x : Str). (uc.monitored.casemap x == uc.monitored.casemap n) ≡ false) l
unfolding unwatch CaseMappingMap.del
still_watched uc [] n h = (h, tt)
still_watched uc (x ∷ l) n h =
    let uc1 = record uc { monitored = CaseMappingMap.del uc.monitored x } in
    elim (Bool-cases (should_cache_user_info uc1 x)) [
      | inl cached ↦
          let (kept, others) = still_watched uc1 l n (rw (cached, unwatch) at h) in
          taken x l n kept others
      | inr unknown ↦
          let uc2 = record uc1 { users = CaseMappingMap.del uc1.users x } in
          let (kept, others) = still_watched uc2 l n (rw (unknown, unwatch) at h) in
          taken x l n kept others
    ]
  where
    taken :
        (x : Str) (l : List Str) (n : Str)
        → CaseMappingMap.has (CaseMappingMap.del uc.monitored x) n ≡ true
        → All (λ (y : Str). (uc.monitored.casemap y == uc.monitored.casemap n) ≡ false) l
        → (CaseMappingMap.has uc.monitored n ≡ true)
          × All (λ (y : Str). (uc.monitored.casemap y == uc.monitored.casemap n) ≡ false) (x ∷ l)
    taken x l n kept others =
        let e = has-del uc.monitored x n in
        let (apart, watched) =
          parts (uc.monitored.casemap x == uc.monitored.casemap n) _ (sym e ∙ kept) in
        (watched, (apart, others))

unwatch-out : (uc : UpstreamConn) (l : List Str) → (unwatch uc l).out ≡ uc.out
unfolding unwatch
unwatch-out uc [] = refl
unwatch-out uc (x ∷ l) =
    let uc1 = record uc { monitored = CaseMappingMap.del uc.monitored x } in
    elim (Bool-cases (should_cache_user_info uc1 x)) [
      | inl kept ↦ rw (kept, unwatch) (unwatch-out uc1 l)
      | inr gone ↦
          rw (gone, unwatch) (unwatch-out (record uc1 { users = CaseMappingMap.del uc1.users x }) l)
    ]

absent_of_names :
    (cm : CaseMapping) (m : List (Str × Entry Bool)) (n : Str)
    → All (IsKeyed cm) m
    → All (λ (x : Str). (cm x == cm n) ≡ false) (names m)
    → lookup (cm n) m ≡ none
unfolding lookup names
absent_of_names cm [] n h k = refl
absent_of_names cm ((j, entry) ∷ m) n h k = rw (h.0, k.0) (absent_of_names cm m n h.1 k.1)

-- Clients that watch nobody want nothing.
want_all-quiet :
    (uc : UpstreamConn) (w : Wanted) (l : List Client)
    → All (λ (dc : Client). dc.monitored.m ≡ []) l
    → want_all uc w l ≡ w
unfolding want_all want_targets CaseMappingMap.entries
want_all-quiet uc w [] h = refl
want_all-quiet uc w (dc ∷ l) h = rw (h.0, want_all-quiet uc w l h.1) refl

-- Where no client watches anybody, all that the server watches for us is taken off, the nickname
-- that we want included: a MONITOR C is sent and nothing is watched, even while another user has
-- that nickname.
pub update_monitor-drops :
    (net : Network) (uc : UpstreamConn)
    → All (λ (dc : Client). dc.monitored.m ≡ []) net.clients
    → is_some (lookup (codes "MONITOR") uc.isupport) ≡ true
    → IsValid uc.monitored
    → CaseMappingMap.has uc.monitored net.want_nick ≡ true
    → ((n : Str) → CaseMappingMap.has (update_monitor net uc).monitored n ≡ false)
      × ((update_monitor net uc).out
          ≡ uc.out ++ to_server (message (codes "MONITOR") (codes "C" ∷ [])) ∷ [])
unfolding update_monitor monitor_lists monitor_messages want_all CaseMappingMap.has
update_monitor-drops net uc quiet can valid watched =
    let l = names uc.monitored.m in
    let sent = emit uc (to_server (message (codes "MONITOR") (codes "C" ∷ [])) ∷ []) in
    let e : update_monitor net uc ≡ unwatch sent l =
      rw
        (
          can,
          want_all-quiet uc (record { add_list = []; seen = [] }) net.clients quiet,
          remove_list-all uc uc.monitored.m,
          none_seen-all uc (CaseMappingMap.entries uc.monitored.m),
          watched,
          names-nonempty uc.monitored.m (uc.monitored.casemap net.want_nick) watched,
        )
        refl in
    (
      (λ n. elim (Bool-cases (CaseMappingMap.has (update_monitor net uc).monitored n)) [
        | inl still ↦
            let (found, apart) =
              still_watched sent l n
                (ap (λ (x : UpstreamConn). CaseMappingMap.has x.monitored n) (sym e) ∙ still) in
            let absent = absent_of_names uc.monitored.casemap uc.monitored.m n valid.keyed apart in
            let bad : false ≡ true = rw absent at found in cc
        | inr taken_off ↦ taken_off
      ]),
      ap (λ (x : UpstreamConn). x.out) e ∙ unwatch-out sent l,
    )
