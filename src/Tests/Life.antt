-- ===== src/Tests/Life.antt =====
-- The start and the end of a connection of upstream.go, and what its clients get, at concrete inputs.
use soju_bouncer.Prelude.{
  leb, nat_eq, ◌&&◌, Bool, if◌then◌else◌, ◌==◌, ℕ, ◌≡◌, ◌↔◌, refl, true, false, none, some, [], ◌∷◌,
  ◌++◌, map, replicate, arith, Str, codes, All, lookup, zero, suc, str_Eq, nat_Eq,
}
use soju_bouncer.Irc.{message}
use soju_bouncer.Xirc.CaseMapping.{casemap_ascii}
use soju_bouncer.Xirc.CaseMappingMap
use soju_bouncer.Database.Channels.{ChannelSettings, filter_default}
use soju_bouncer.Upstream.State.{
  UpstreamConn, UpstreamChannel, UpstreamUser, registration_refused, to_server, get_channel,
  equal_casemap,
}
use soju_bouncer.Upstream.Isupport.{std_memberships, parse_memberships}
use soju_bouncer.Upstream.Isupport.RoundTrip.{prefix_value, parse-prefix_value}
use soju_bouncer.Upstream.Members.{member_names, new_channel}
use soju_bouncer.Upstream.Produce.{append_log, produce}
use soju_bouncer.Upstream.Produce.Delivers.{Delivery, produce-Delivery}
use soju_bouncer.Upstream.Highlight.{
  Unicode, is_highlight, is_word_boundary, stands_alone, last_rune,
}
use soju_bouncer.Upstream.Highlight.Search.{Run, is_highlight-Run, is_highlight-doubled}
use soju_bouncer.Upstream.Text.{attach}
use soju_bouncer.Upstream.Handle.{handle_batch}
use soju_bouncer.Upstream.Handle.Batches.{handle_batch-ends}
use soju_bouncer.Upstream.Monitor.{update_monitor}
use soju_bouncer.Upstream.Monitor.Dropped.{update_monitor-drops}
use soju_bouncer.Upstream.Life.{run_until_registered, update_away, all_away}
use soju_bouncer.Upstream.Life.Refused.{Refusal, refusal, retries, run_until_registered-refused}
use soju_bouncer.Upstream.Life.Ends.{update_away-all_away, after_away}
use soju_bouncer.Upstream.Cached.{get_cached_who, default_fields, has_whox_fields}
use soju_bouncer.Upstream.Cached.Complete.{Answers, IsNotified, get_cached_who-Answers}
use soju_bouncer.Upstream.Detach.{detach}
use soju_bouncer.Upstream.Detach.RoundTrip.{
  attach-detach, has_timer, IsDetached, parted, timers_stopped,
}
use soju_bouncer.Tests.Connection.{me, net, fresh, said}

abbrev unregistered : UpstreamConn
unregistered = record fresh { registered = false }

abbrev in_use : Refusal
in_use = record { net = net; prefix = none; target = codes "*"; nick = codes "me"; rest = [] }

all_in_use :
    (n : ℕ)
    → All
        (λ (r : Refusal).
          equal_casemap unregistered unregistered.pending_regain_nick r.nick ≡ false)
        (replicate n in_use)
unfolding equal_casemap casemap_ascii
all_in_use zero = tt
all_in_use (suc n) = (refl, all_in_use n)

run_until_registered-refused_example :
    ((run_until_registered unregistered (map refusal (replicate 28 in_use))).1
      ≡ some registration_refused)
    × ((run_until_registered unregistered (map refusal (replicate 28 in_use))).0.out
        ≡ [] ++ retries 27 (codes "me"))
run_until_registered-refused_example =
    run_until_registered-refused unregistered (replicate 28 in_use) refl (all_in_use 28)

abbrev waiting : UpstreamConn
waiting = record fresh {
  queues = record fresh.queues {
    pending_cmds =
        (
          codes "LIST",
          record {
            downstream_id = 1;
            downstream_label = [];
            msg = message (codes "LIST") [];
            sent_at = none;
          }
              ∷ [],
        )
        ∷ [];
  };
}

update_away-all_away_example :
    ((update_away net fresh).away ≡ all_away net.clients)
    × ((update_away net (update_away net fresh) ≡ update_away net fresh)
        × ((update_away net fresh).out ≡ fresh.out ++ after_away net fresh))
update_away-all_away_example = update_away-all_away net fresh refl

produce-Delivery_example :
    Delivery net false fresh
      (append_log net fresh (codes "#a") me (said (codes "PRIVMSG")))
      (produce net false fresh (codes "#a") me (said (codes "PRIVMSG")) 1)
      (codes "#a")
      me
      (said (codes "PRIVMSG"))
      1
produce-Delivery_example =
    produce-Delivery net false fresh (codes "#a") me (said (codes "PRIVMSG")) 1 refl

parse-prefix_value_example : parse_memberships (prefix_value std_memberships) ≡ some std_memberships
parse-prefix_value_example = parse-prefix_value std_memberships (
  (λ e. omega (arith, e)),
  (
    (λ e. omega (arith, e)),
    ((λ e. omega (arith, e)), ((λ e. omega (arith, e)), ((λ e. omega (arith, e)), tt))),
  ),
)

-- The letters of ASCII in lower case.
abbrev latin : Unicode
latin = record {
  is_letter = λ r. leb b'a' r && leb r b'z';
  is_number = λ r. false;
  is_space = λ r. nat_eq r b' ';
}

is_highlight-Run_example :
    (answer : Bool) × (is_highlight latin (codes "banana an") (codes "an") ≡ some answer)
    × Run latin (codes "an") (codes "banana an") answer
is_highlight-Run_example = is_highlight-Run latin b'a' (codes "banana an") (codes "n")

is_highlight-doubled_example :
    (stands_alone latin (codes "hoho") (codes "ho") 0 ≡ false)
    × (stands_alone latin (codes "hoho") (codes "ho") 2 ≡ false)
    × (is_highlight latin (codes "hoho") (codes "ho") ≡ some true)
unfolding is_word_boundary last_rune
is_highlight-doubled_example = is_highlight-doubled latin b'h' (codes "o") refl refl refl

handle_batch-ends_example :
    let start =
      handle_batch net fresh [] none
        (message (codes "BATCH") (codes "+1" ∷ codes "netsplit" ∷ [])) in
    let end = handle_batch net start.0 [] none (message (codes "BATCH") (codes "-1" ∷ [])) in
    ((start.1 ≡ none)
      × (lookup (codes "1") start.0.batches
          ≡ some (record { type = codes "netsplit"; params = []; outer = none; label = [] })))
    × ((end.1 ≡ none) × (end.0.batches ≡ fresh.batches))
unfolding lookup
handle_batch-ends_example =
    handle_batch-ends net fresh [] [] none none (codes "1") (codes "netsplit") [] [] refl

-- Another user has the nickname that is wanted, and the client watches nobody.
abbrev watching : UpstreamConn
watching = record fresh {
  nick = codes "me_";
  has_desired_nick = false;
  isupport = (codes "MONITOR", none) ∷ [];
  monitored = record {
    m = (codes "me", record { original_key = codes "me"; value = true }) ∷ [];
    casemap = casemap_ascii;
  };
}

update_monitor-drops_example :
    ((n : Str) → CaseMappingMap.has (update_monitor net watching).monitored n ≡ false)
    × ((update_monitor net watching).out
        ≡ [] ++ to_server (message (codes "MONITOR") (codes "C" ∷ [])) ∷ [])
unfolding CaseMappingMap.has lookup casemap_ascii
update_monitor-drops_example =
    update_monitor-drops net watching (refl, tt) refl
      (record { distinct = (refl, tt); keyed = (refl, tt) }) refl

abbrev bob_user : UpstreamUser
bob_user = record {
  nickname = codes "bob";
  username = codes "b";
  hostname = [];
  server = [];
  flags = [];
  account = [];
  realname = [];
}

abbrev with_bob : UpstreamChannel
with_bob = record (new_channel casemap_ascii (codes "#a")) {
  state = record (new_channel casemap_ascii (codes "#a")).state {
    members = record {
      m = (codes "bob", record { original_key = codes "Bob"; value = some [] }) ∷ [];
      casemap = casemap_ascii;
    };
  };
}

-- A channel with one member, who is known.
abbrev joined : UpstreamConn
joined = record fresh {
  channels = record {
    m = (codes "#a", record { original_key = codes "#a"; value = some with_bob }) ∷ [];
    casemap = casemap_ascii;
  };
  users = record {
    m = (codes "bob", record { original_key = codes "bob"; value = some bob_user }) ∷ [];
    casemap = casemap_ascii;
  };
}

get_cached_who-Answers_example :
    (get_cached_who joined (codes "#A") (codes "nu") ≡ some (bob_user ∷ [])) ↔ (
      IsNotified joined (default_fields (codes "nu"))
      × Answers joined (default_fields (codes "nu")) (member_names with_bob) (bob_user ∷ []))
unfolding CaseMappingMap.get get_channel lookup casemap_ascii
get_cached_who-Answers_example =
    get_cached_who-Answers joined (codes "#A") (codes "nu") with_bob (bob_user ∷ []) refl refl

bob_cached : get_cached_who joined (codes "#A") (codes "nu") ≡ some (bob_user ∷ [])
unfolding get_cached_who CaseMappingMap.get lookup casemap_ascii has_whox_fields
    CaseMappingMap.entries
bob_cached = refl

abbrev settings : ChannelSettings
settings = record {
  name = codes "#a";
  key = [];
  detached = false;
  detached_internal_msg_id = codes "0";
  relay_detached = filter_default;
  reattach_on = filter_default;
  detach_after = 5;
  detach_on = filter_default;
}

attach-detach_example :
    let uc1 = detach net joined settings in
    (ch1 : ChannelSettings) × IsDetached net joined settings ch1
    × ((name : Str)
        → CaseMappingMap.get none uc1.saved name ≡ (
            if joined.saved.casemap (codes "#a") == joined.saved.casemap name
            then some ch1
            else CaseMappingMap.get none joined.saved name))
    × (has_timer (get_channel uc1 (codes "#a")) ≡ false)
    × (uc1.out
        ≡ (joined.out ++ timers_stopped (get_channel joined (codes "#a")))
          ++ map (parted (codes "#a")) net.clients)
    × (CaseMappingMap.get none (attach net uc1 ch1).saved (codes "#a")
        ≡ some (record settings { detached_internal_msg_id = [] }))
attach-detach_example = attach-detach net joined settings refl
