-- ===== src/Upstream/Members/Roster.antt =====
-- Who is on which channel, as upstream.go tracks it, against a plain account of it: a relation of
-- channels and nicknames that each message changes.
pub mod Steps
pub mod Each
pub mod Handlers
pub mod Whole
pub mod Leave
pub mod Nick
use soju_bouncer.Prelude.{
  ℕ, ◌⊎◌, ◌≡◌, refl, inl, inr, Bool, true, false, ◌&&◌, ◌||◌, not, Option, none, some, List, [],
  ◌∷◌, if◌then◌else◌, Bool-cases, ◌==◌, Str, str_Eq, arith, lookup, ◌∙◌, is_empty, Option-cases,
  is_some, sym, ap, list_eq_iff, eq_refl, nat_Eq, nat_eq,
}
use soju_bouncer.Irc.{Message, Prefix}
use soju_bouncer.Xirc.CaseMapping.{CaseMapping}
use soju_bouncer.Xirc.CaseMappingMap
use soju_bouncer.Xirc.CaseMappingMap.{CaseMappingMap, Entry}
use soju_bouncer.Xirc.CaseMappingMap.Laws.{get-set, get-del, has-set, has-del}
use soju_bouncer.Xirc.Membership.{MembershipSet}
use soju_bouncer.Database.Channels.{ChannelSettings}
use soju_bouncer.Upstream.State.{
  UpstreamConn, UpstreamChannel, UpstreamUser, Network, change_each, map_entries, emit, get_channel,
  set_channel, with_members, is_our_nick, failed, done, Handled,
}
use soju_bouncer.Upstream.Users.{
  forget_members, forget_user, should_cache_user_info, cache_user_info,
}
use soju_bouncer.Upstream.Produce.{
  produce, update_channel_auto_detach, detach_channel_later, detach_later, update_auto_detach,
}
use soju_bouncer.Upstream.Members.{
  join_one, join_ours, add_member, part_one, leave, remove_member, new_channel,
}

-- On which channels we are, and who is on them.
pub record Roster : Type 0 where
  pub on : Str → Bool
  pub has : Str → Str → Bool

pub data Change : Type 0 where
  joined left : Str → Change
  added removed : Str → Str → Change
  gone : Str → Change
  renamed : Str → Str → Change

abbrev pub Members : Type 0
Members = CaseMappingMap (Option MembershipSet)

abbrev pub members_of : Option UpstreamChannel → Option Members
members_of none = none
members_of (some ch) = some ch.state.members

-- The members of a channel that we are on.
abbrev pub members_at : UpstreamConn → Str → Option Members
members_at uc c = members_of (get_channel uc c)

abbrev pub is_in : Option Members → Str → Bool
is_in none n = false
is_in (some members) n = CaseMappingMap.has members n

abbrev pub view : UpstreamConn → Roster
view uc = record { on = λ c. is_some (members_at uc c); has = λ c n. is_in (members_at uc c) n }

-- What a change does to the names that the case mapping identifies with its own.
abbrev pub change : CaseMapping → Change → Roster → Roster
change cm (joined c) r = record {
  on = λ k. (cm c == cm k) || r.on k;
  has = λ k m. not (cm c == cm k) && r.has k m;
}
change cm (left c) r = record {
  on = λ k. not (cm c == cm k) && r.on k;
  has = λ k m. not (cm c == cm k) && r.has k m;
}
change cm (added c n) r = record r { has = λ k m. ((cm c == cm k) && (cm n == cm m)) || r.has k m }
change cm (removed c n) r = record r {
  has = λ k m. not ((cm c == cm k) && (cm n == cm m)) && r.has k m;
}
change cm (gone n) r = record r { has = λ k m. not (cm n == cm m) && r.has k m }
change cm (renamed n n') r = record r {
  has =
      λ k m. if r.has k n then (cm n' == cm m) || (not (cm n == cm m) && r.has k m) else r.has k m;
}

abbrev pub Follows : UpstreamConn → Roster → Type 0
Follows uc r = (k m : Str) → ((view uc).on k ≡ r.on k) × ((view uc).has k m ≡ r.has k m)

-- A map of members goes by the case mapping, and has no nil pointer.
pub record IsSound (cm : CaseMapping) (m : Members) : Type 0 where
  pub casemap : m.casemap ≡ cm
  pub valued : (n : Str) → CaseMappingMap.has m n ≡ is_some (CaseMappingMap.get none m n)

-- The maps go by the case mapping of the network.
pub record IsUniform (uc : UpstreamConn) : Type 0 where
  pub channels : uc.channels.casemap ≡ uc.casemap
  pub members : (k : Str) (m : Members) → members_at uc k ≡ some m → IsSound uc.casemap m

if_members :
    (b : Bool) (v w : Option UpstreamChannel)
    → members_of (if b then v else w) ≡ (if b then members_of v else members_of w)
if_members true v w = refl
if_members false v w = refl

-- The members after a channel was written, and after one was dropped.
pub written :
    (uc uc' : UpstreamConn) (c k : Str) (v : Option UpstreamChannel)
    → uc.channels.casemap ≡ uc.casemap
    → uc'.channels ≡ CaseMappingMap.set uc.channels c v
    → members_at uc' k ≡ (if uc.casemap c == uc.casemap k then members_of v else members_at uc k)
unfolding get_channel
written uc uc' c k v e h =
    ap (λ m. members_of (CaseMappingMap.get none m k)) h
    ∙ ap members_of (get-set none v uc.channels c k)
    ∙ if_members (uc.channels.casemap c == uc.channels.casemap k) v _
    ∙ ap (λ (cm : CaseMapping). if cm c == cm k then members_of v else members_at uc k) e

pub dropped :
    (uc uc' : UpstreamConn) (c k : Str)
    → uc.channels.casemap ≡ uc.casemap
    → uc'.channels ≡ CaseMappingMap.del uc.channels c
    → members_at uc' k ≡ (if uc.casemap c == uc.casemap k then none else members_at uc k)
unfolding get_channel
dropped uc uc' c k e h =
    ap (λ m. members_of (CaseMappingMap.get none m k)) h
    ∙ ap members_of (get-del none uc.channels c k)
    ∙ if_members (uc.channels.casemap c == uc.channels.casemap k) none _
    ∙ ap (λ (cm : CaseMapping). if cm c == cm k then none else members_at uc k) e

pub members_same :
    (uc : UpstreamConn) (c k : Str)
    → uc.channels.casemap ≡ uc.casemap
    → (uc.casemap c == uc.casemap k) ≡ true
    → members_at uc k ≡ members_at uc c
unfolding get_channel CaseMappingMap.get
members_same uc c k e s = ground (arith, list_eq_iff (uc.casemap c) (uc.casemap k))

auto_detach-channels :
    (uc : UpstreamConn) (c : Str) (ch : UpstreamChannel) (dur : ℕ)
    → ((update_auto_detach uc c ch dur).channels
        ≡ CaseMappingMap.set uc.channels c (some (record ch { detach_timer = not (nat_eq dur 0) })))
      × (((update_auto_detach uc c ch dur).casemap ≡ uc.casemap)
          × ((update_auto_detach uc c ch dur).nick ≡ uc.nick))
auto_detach-channels uc c ch dur = elim (Bool-cases (nat_eq dur 0)) [
  | inl off ↦ elim (Bool-cases ch.detach_timer) [
    | inl t ↦ rw (off, t) (refl, (refl, refl))
    | inr t ↦ rw (off, t) (refl, (refl, refl))
  ]
  | inr on ↦ elim (Bool-cases ch.detach_timer) [
    | inl t ↦ rw (on, t) (refl, (refl, refl))
    | inr t ↦ rw (on, t) (refl, (refl, refl))
  ]
]

-- Writing a channel with the members that it has changes no members.
rewritten :
    (uc uc' : UpstreamConn) (c k : Str) (ch ch' : UpstreamChannel)
    → uc.channels.casemap ≡ uc.casemap
    → get_channel uc c ≡ some ch
    → ch'.state.members ≡ ch.state.members
    → uc'.channels ≡ CaseMappingMap.set uc.channels c (some ch')
    → members_at uc' k ≡ members_at uc k
rewritten uc uc' c k ch ch' e g s h = elim (Bool-cases (uc.casemap c == uc.casemap k)) [
  | inl same ↦ rw (written uc uc' c k _ e h, same, members_same uc c k e same, g) (ap some s)
  | inr other ↦ rw (written uc uc' c k _ e h, other) refl
]

-- Nothing of the roster changes.
pub record Steady (uc uc' : UpstreamConn) : Type 0 where
  pub members : (k : Str) → members_at uc' k ≡ members_at uc k
  pub casemap : uc'.casemap ≡ uc.casemap
  pub map_casemap : uc'.channels.casemap ≡ uc.channels.casemap
  pub nick : uc'.nick ≡ uc.nick

Steady-refl : (uc : UpstreamConn) → Steady uc uc
Steady-refl uc = record { members = λ k. refl; casemap = refl; map_casemap = refl; nick = refl }

pub auto_detach-Steady :
    (uc : UpstreamConn) (c : Str)
    → uc.channels.casemap ≡ uc.casemap
    → Steady uc (update_channel_auto_detach uc c)
unfolding update_channel_auto_detach CaseMappingMap.set
auto_detach-Steady uc c e = elim (Option-cases (get_channel uc c)) [
  | inl unknown ↦ rw unknown (Steady-refl uc)
  | inr (ch, found) ↦ rw found (saved_cases ch found (CaseMappingMap.get none uc.saved c))
]
  where
    saved_cases :
        (ch : UpstreamChannel)
        → get_channel uc c ≡ some ch
        → (o : Option ChannelSettings) → Steady uc (detach_later uc c ch o)
    saved_cases ch found none = Steady-refl uc
    saved_cases ch found (some settings) = elim (Bool-cases settings.detached) [
      | inl detached ↦ rw detached (Steady-refl uc)
      | inr attached ↦
          let uc' = update_auto_detach uc c ch settings.detach_after in
          let (h, (f, n)) = auto_detach-channels uc c ch settings.detach_after in
          let s : Steady uc uc' = record {
            members = λ k. rewritten uc uc' c k ch _ e found refl h;
            casemap = f;
            map_casemap = ap (λ (m : CaseMappingMap (Option UpstreamChannel)). m.casemap) h;
            nick = n;
          } in
          rw attached s
    ]

-- A step that keeps the maps uniform, and changes the roster as it says.
pub record Makes (ch : Change) (uc uc' : UpstreamConn) : Type 0 where
  pub uniform : IsUniform uc'
  pub casemap : uc'.casemap ≡ uc.casemap
  pub follows : Follows uc' (change uc.casemap ch (view uc))

-- The members after a step, in one equation.
abbrev pub At : UpstreamConn → UpstreamConn → Str → Option Members → Type 0
At uc uc' c v =
    (k : Str) → members_at uc' k ≡ (if uc.casemap c == uc.casemap k then v else members_at uc k)

IsUniform-At :
    (uc uc' : UpstreamConn) (c : Str) (v : Option Members)
    → IsUniform uc
    → uc'.channels.casemap ≡ uc.channels.casemap
    → uc'.casemap ≡ uc.casemap
    → ((m : Members) → v ≡ some m → IsSound uc.casemap m)
    → At uc uc' c v
    → IsUniform uc'
IsUniform-At uc uc' c v u e f h at = record {
  channels = e ∙ u.channels ∙ sym f;
  members =
      λ k m g. rw f (by_case k m (sym (at k) ∙ g) (Bool-cases (uc.casemap c == uc.casemap k)));
}
  where
    by_case :
        (k : Str) (m : Members)
        → (if uc.casemap c == uc.casemap k then v else members_at uc k) ≡ some m
        → ((uc.casemap c == uc.casemap k) ≡ true) ⊎ ((uc.casemap c == uc.casemap k) ≡ false)
        → IsSound uc.casemap m
    by_case k m g (inl same) = h m (rw same at g)
    by_case k m g (inr other) = u.members k m (rw other at g)

-- Steps that follow from the members after them.
pub At-Makes :
    (uc uc' : UpstreamConn) (c : Str) (v : Option Members) (ch : Change)
    → IsUniform uc
    → uc'.channels.casemap ≡ uc.channels.casemap
    → uc'.casemap ≡ uc.casemap
    → ((m : Members) → v ≡ some m → IsSound uc.casemap m)
    → At uc uc' c v
    → ((k m : Str)
        → (is_some (if uc.casemap c == uc.casemap k then v else members_at uc k)
            ≡ (change uc.casemap ch (view uc)).on k)
          × (is_in (if uc.casemap c == uc.casemap k then v else members_at uc k) m
              ≡ (change uc.casemap ch (view uc)).has k m))
    → Makes ch uc uc'
At-Makes uc uc' c v ch u e f h at says = record {
  uniform = IsUniform-At uc uc' c v u e f h at;
  casemap = f;
  follows = λ k m. rw (at k) (says k m);
}
