-- ===== src/Upstream/Members/Roster/Whole.antt =====
-- The roster of upstream.go after a whole JOIN, PART, KICK, QUIT or NICK.
use soju_bouncer.Prelude.{
  ◌≡◌, refl, inl, inr, Bool, true, false, Option, none, some, List, [], ◌∷◌, ◌++◌, map, Str, str_Eq,
  arith, is_empty, Option-cases, ap, nat_Eq,
}
use mathlib.Core.Path.{subst}
use soju_bouncer.Irc.{Message, Prefix}
use soju_bouncer.Xirc.CaseMappingMap
use soju_bouncer.Xirc.CaseMappingMap.{CaseMappingMap, Entry}
use soju_bouncer.Upstream.State.{
  UpstreamConn, UpstreamUser, Network, get_channel, set_channel, with_members, is_our_nick, Handled,
  unknown_channel,
}
use soju_bouncer.Upstream.Users.{cache_user_info}
use soju_bouncer.Upstream.Produce.{produce}
use soju_bouncer.Upstream.Members.{join_one, join_ours, new_channel}
use soju_bouncer.Upstream.Members.Roster.{
  Change, joined, left, added, removed, view, IsUniform, auto_detach-Steady, Makes,
}
use soju_bouncer.Upstream.Members.Roster.Steps.{joined-Makes, added-Makes}
use soju_bouncer.Upstream.Produce.Keeps.{Same, produce-Same}
use soju_bouncer.Upstream.Members.{each_channel, handle_join, with_channel, joined_user}
use soju_bouncer.Prelude.Text.{split}
use soju_bouncer.Upstream.Users.{cache_in}
use soju_bouncer.Upstream.Members.Roster.Handlers.{
  MakesAll, MakesAll-nil, MakesAll-cons, Makes-then,
}

-- How a handler ends that goes through channels, with those that it did not come to: without an
-- error after all of them, or at a channel on which we are not, where `always` does not hold.
abbrev pub Ends : Bool → List Str → Handled → Type 0
Ends always [] r = r.1 ≡ none
Ends always (c ∷ l) r =
    (always ≡ false) × (((view r.0).on c ≡ false) × (r.1 ≡ some unknown_channel))

-- A handler that goes through channels changes the roster by the first of them.
pub record FirstOf (always : Bool) (by : Str → Change) (l : List Str) (uc : UpstreamConn)
    (r : Handled) : Type 0 where
  pub first : List Str
  pub rest : List Str
  pub parts : first ++ rest ≡ l
  pub makes : MakesAll (map by first) uc r.0
  pub ending : Ends always rest r

pub each_channel-FirstOf :
    (f : UpstreamConn → Str → Option UpstreamConn) (by : Str → Change) (always : Bool)
    (P : UpstreamConn → Type 0) (net : Network) (from : Prefix) (msg : Message) (params : List Str)
    → ((uc uc' : UpstreamConn) (c : Str)
        → IsUniform uc
        → P uc
        → f uc c ≡ some uc'
        → Makes (by c) uc uc' × P uc')
    → ((uc : UpstreamConn) (c : Str)
        → P uc
        → f uc c ≡ none
        → (always ≡ false) × ((view uc).on c ≡ false))
    → ((uc uc' : UpstreamConn) → Same uc uc' → P uc → P uc')
    → (uc : UpstreamConn) (l : List Str) → IsUniform uc
    → P uc
    → FirstOf always by l uc (each_channel f net from msg params uc l)
unfolding each_channel
each_channel-FirstOf f by always P net from msg params step stop keep uc [] u p = record {
  first = [];
  rest = [];
  parts = refl;
  makes = MakesAll-nil uc u;
  ending = refl;
}
each_channel-FirstOf f by always P net from msg params step stop keep uc (c ∷ l) u p =
    elim (Option-cases (f uc c)) [
      | inl unknown ↦
          let (a, o) = stop uc c p unknown in
          rw (unknown, each_channel)
            (record {
              first = [];
              rest = c ∷ l;
              parts = refl;
              makes = MakesAll-nil uc u;
              ending = (a, (o, refl));
            })
      | inr (uc1, known) ↦
          let (m, p1) = step uc uc1 c u p known in
          let same = produce-Same net false uc1 c from (with_channel msg c params) 0 in
          let uc2 = produce net false uc1 c from (with_channel msg c params) 0 in
          let m2 = Makes-then (by c) uc uc1 uc2 m same.channels same.casemap in
          let ih =
            each_channel-FirstOf f by always P net from msg params step stop keep uc2 l m2.uniform
              (keep uc1 uc2 same p1) in
          rw (known, each_channel)
            (record {
              first = c ∷ ih.first;
              rest = ih.rest;
              parts = ap (◌∷◌ c) ih.parts;
              makes = MakesAll-cons (by c) (map by ih.first) uc uc2 _ m2 ih.makes;
              ending = ih.ending;
            })
    ]

pub ours_kept :
    (uc uc' : UpstreamConn) (n : Str) (b : Bool)
    → uc'.nick ≡ uc.nick
    → uc'.casemap ≡ uc.casemap
    → is_our_nick uc n ≡ b
    → is_our_nick uc' n ≡ b
unfolding is_our_nick
ours_kept uc uc' n b e f h = rw (e, f) h

-- The change of one channel that a user with a nickname joins or leaves.
abbrev pub join_change : Bool → Str → Str → Change
join_change true n c = joined c
join_change false n c = added c n

abbrev pub part_change : Bool → Str → Str → Change
part_change true n c = left c
part_change false n c = removed c n

pub some-inj : {a b : UpstreamConn} → some a ≡ some b → a ≡ b
some-inj h = cc

join_ours-ours :
    (uc : UpstreamConn) (c n : Str)
    → uc.channels.casemap ≡ uc.casemap
    → is_our_nick uc n ≡ true
    → is_our_nick (join_ours uc c) n ≡ true
unfolding join_ours CaseMappingMap.set
join_ours-ours uc c n e p =
    let s = auto_detach-Steady (set_channel uc c (new_channel uc.casemap c)) c e in
    ours_kept uc (join_ours uc c) n true s.nick s.casemap p

join_one-step :
    (from : Prefix) (ours : Bool) (uc uc' : UpstreamConn) (c : Str)
    → IsUniform uc
    → is_our_nick uc from.name ≡ ours
    → join_one uc from c ≡ some uc'
    → Makes (join_change ours from.name c) uc uc' × (is_our_nick uc' from.name ≡ ours)
unfolding join_one
join_one-step from true uc uc' c u p h =
    let e : join_ours uc c ≡ uc' = some-inj (rw p at h) in
    subst (λ (x : UpstreamConn). Makes (joined c) uc x × (is_our_nick x from.name ≡ true)) e
      (joined-Makes uc c u, join_ours-ours uc c from.name u.channels p)
join_one-step from false uc uc' c u p h = elim (Option-cases (get_channel uc c)) [
  | inl unknown ↦ let bad : none ≡ some uc' = rw (p, unknown) at h in ground arith
  | inr (ch, found) ↦
      let uc2 =
        set_channel uc c
          (with_members ch (CaseMappingMap.set ch.state.members from.name (some []))) in
      let e : uc2 ≡ uc' = some-inj (rw (p, found) at h) in
      subst
        (λ (x : UpstreamConn). Makes (added c from.name) uc x × (is_our_nick x from.name ≡ false)) e
        (added-Makes uc c ch u found from.name [], ours_kept uc uc2 from.name false refl refl p)
]

join_one-stop :
    (from : Prefix) (ours : Bool) (uc : UpstreamConn) (c : Str)
    → is_our_nick uc from.name ≡ ours
    → join_one uc from c ≡ none
    → (ours ≡ false) × ((view uc).on c ≡ false)
unfolding join_one
join_one-stop from true uc c p h = let bad = rw p at h in cc
join_one-stop from false uc c p h = elim (Option-cases (get_channel uc c)) [
  | inl unknown ↦ (refl, rw unknown refl)
  | inr (ch, found) ↦ let bad = rw (p, found) at h in cc
]

users_only :
    (uc : UpstreamConn) (users : CaseMappingMap (Option UpstreamUser)) (always : Bool)
    (by : Str → Change) (l : List Str) (r : Handled)
    → FirstOf always by l (record uc { users = users }) r
    → FirstOf always by l uc r
unfolding get_channel
users_only uc users always by l r h = record {
  first = h.first;
  rest = h.rest;
  parts = h.parts;
  makes = record {
    uniform = h.makes.uniform;
    casemap = h.makes.casemap;
    follows = h.makes.follows;
  };
  ending = h.ending;
}

-- A JOIN of a user with a nickname makes the first of its channels joined by us, or joined by that
-- user, and stops only at a channel of another user on which we are not.
pub handle_join-FirstOf :
    (net : Network) (uc : UpstreamConn) (from : Prefix) (msg : Message) (channels : Str)
    (rest : List Str)
    → IsUniform uc
    → is_empty from.name ≡ false
    → FirstOf
        (is_our_nick uc from.name)
        (join_change (is_our_nick uc from.name) from.name)
        (split b',' channels)
        uc
        (handle_join net uc from (with_channel msg channels rest))
unfolding handle_join cache_user_info get_channel is_our_nick
handle_join-FirstOf net uc from msg channels rest u named =
    let ours = is_our_nick uc from.name in
    let users =
      cache_in uc.users from.name (joined_user uc from (with_channel msg channels rest))
        (CaseMappingMap.get none uc.users from.name) in
    rw named (
      users_only uc users ours (join_change ours from.name) (split b',' channels) _ (
        each_channel-FirstOf (λ c. join_one c from) (join_change ours from.name) ours
          (λ x. is_our_nick x from.name ≡ ours) net from (with_channel msg channels rest) rest
          (join_one-step from ours) (join_one-stop from ours)
          (λ a b same. ours_kept a b from.name ours same.nick same.casemap)
          (record uc { users = users }) (split b',' channels)
          (record { channels = u.channels; members = u.members }) refl))
