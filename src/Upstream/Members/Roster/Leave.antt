-- ===== src/Upstream/Members/Roster/Leave.antt =====
-- The roster of upstream.go after a PART or KICK.
use soju_bouncer.Prelude.{
  ◌≡◌, refl, inl, inr, Bool, true, false, none, some, List, [], ◌∷◌, if◌then◌else◌, Bool-cases,
  ◌==◌, Str, str_Eq, arith, ◌∙◌, Option-cases, nat_Eq,
}
use mathlib.Core.Path.{subst}
use soju_bouncer.Irc.{Message, Prefix}
use soju_bouncer.Xirc.CaseMappingMap
use soju_bouncer.Xirc.CaseMappingMap.{CaseMappingMap, Entry}
use soju_bouncer.Upstream.State.{
  UpstreamConn, UpstreamChannel, Network, get_channel, set_channel, with_members, is_our_nick,
}
use soju_bouncer.Upstream.Users.{forget_members, forget_user, should_cache_user_info}
use soju_bouncer.Upstream.Produce.{produce}
use soju_bouncer.Upstream.Members.{part_one, leave}
use soju_bouncer.Upstream.Members.Roster.{
  Change, left, removed, view, IsUniform, members_same, Makes, At-Makes,
}
use soju_bouncer.Upstream.Members.Roster.Steps.{left-Makes, removed-Makes}
use soju_bouncer.Upstream.Produce.Keeps.{produce-Same}
use soju_bouncer.Upstream.Members.{handle_part, handle_kick, with_channel, member_names}
use soju_bouncer.Prelude.Text.{split}
use soju_bouncer.Upstream.Produce.{stop_timer}
use soju_bouncer.Upstream.Members.Roster.Handlers.{MakesAll-nil, MakesAll-cons, Makes-then}
use soju_bouncer.Upstream.Members.Roster.Whole.{FirstOf, each_channel-FirstOf, ours_kept, some-inj}

forget_members-keeps :
    (uc : UpstreamConn) (l : List Str)
    → ((forget_members uc l).channels ≡ uc.channels)
      × (((forget_members uc l).nick ≡ uc.nick) × ((forget_members uc l).casemap ≡ uc.casemap))
unfolding forget_members
forget_members-keeps uc [] = (refl, (refl, refl))
forget_members-keeps uc (n ∷ l) = elim (Bool-cases (should_cache_user_info uc n)) [
  | inl kept ↦ rw (kept, forget_members) (forget_members-keeps uc l)
  | inr unknown ↦
      rw (unknown, forget_members)
        (forget_members-keeps (record uc { users = CaseMappingMap.del uc.users n }) l)
]

-- We leave a channel on which we are not: nothing changes.
absent-Makes :
    (uc : UpstreamConn) (c : Str) → IsUniform uc → get_channel uc c ≡ none → Makes (left c) uc uc
absent-Makes uc c u g =
    At-Makes uc uc c none (left c) u refl refl (λ m e. ground arith)
      (λ k. elim (Bool-cases (uc.casemap c == uc.casemap k)) [
        | inl same ↦ rw (same, members_same uc c k u.channels same, g) refl
        | inr other ↦ rw other refl
      ])
      (λ k m. ground arith)

abbrev pub part_change : Bool → Str → Str → Change
part_change true n c = left c
part_change false n c = removed c n

leave-Makes :
    (stops : Bool) (uc : UpstreamConn) (c : Str) (ch : UpstreamChannel)
    → IsUniform uc
    → Makes (left c) uc (leave stops uc c (some ch))
      × (((leave stops uc c (some ch)).nick ≡ uc.nick)
          × ((leave stops uc c (some ch)).casemap ≡ uc.casemap))
leave-Makes stops uc c ch u =
    let uc1 = record uc { channels = CaseMappingMap.del uc.channels c } in
    let uc2 = if stops then stop_timer uc1 ch else uc1 in
    let (h, (n, m)) = forget_members-keeps uc2 (member_names ch) in
    let (h', (n', m')) = stopped uc1 ch stops in
    (left-Makes uc (leave stops uc c (some ch)) c u (h ∙ h') (m ∙ m'), (n ∙ n', m ∙ m'))
  where
    stopped :
        (uc : UpstreamConn) (ch : UpstreamChannel) (b : Bool)
        → ((if b then stop_timer uc ch else uc).channels ≡ uc.channels)
          × (((if b then stop_timer uc ch else uc).nick ≡ uc.nick)
              × ((if b then stop_timer uc ch else uc).casemap ≡ uc.casemap))
    stopped uc ch false = (refl, (refl, refl))
    stopped uc ch true = elim (Bool-cases ch.detach_timer) [
      | inl t ↦ rw t (refl, (refl, refl))
      | inr t ↦ rw t (refl, (refl, refl))
    ]

part_one-step :
    (stops : Bool) (n : Str) (ours : Bool) (uc uc' : UpstreamConn) (c : Str)
    → IsUniform uc
    → is_our_nick uc n ≡ ours
    → part_one stops uc n c ≡ some uc'
    → Makes (part_change ours n c) uc uc' × (is_our_nick uc' n ≡ ours)
unfolding part_one
part_one-step stops n true uc uc' c u p h = elim (Option-cases (get_channel uc c)) [
  | inl unknown ↦
      let e : uc ≡ uc' = some-inj (rw (p, unknown) at h) in
      subst (λ (x : UpstreamConn). Makes (left c) uc x × (is_our_nick x n ≡ true)) e
        (absent-Makes uc c u unknown, p)
  | inr (ch, found) ↦
      let e : leave stops uc c (some ch) ≡ uc' = some-inj (rw (p, found) at h) in
      let (m, (nick, casemap)) = leave-Makes stops uc c ch u in
      subst (λ (x : UpstreamConn). Makes (left c) uc x × (is_our_nick x n ≡ true)) e
        (m, ours_kept uc (leave stops uc c (some ch)) n true nick casemap p)
]
part_one-step stops n false uc uc' c u p h = elim (Option-cases (get_channel uc c)) [
  | inl unknown ↦ let bad = rw (p, unknown) at h in cc
  | inr (ch, found) ↦
      let uc1 = set_channel uc c (with_members ch (CaseMappingMap.del ch.state.members n)) in
      let e : forget_user uc1 n ≡ uc' = some-inj (rw (p, found) at h) in
      let (h', (nick, casemap)) = forget_members-keeps uc1 (n ∷ []) in
      subst (λ (x : UpstreamConn). Makes (removed c n) uc x × (is_our_nick x n ≡ false)) e
        (
          removed-Makes uc c ch u found (forget_user uc1 n) n h' casemap,
          ours_kept uc (forget_user uc1 n) n false nick casemap p,
        )
]

part_one-stop :
    (stops : Bool) (n : Str) (ours : Bool) (uc : UpstreamConn) (c : Str)
    → is_our_nick uc n ≡ ours
    → part_one stops uc n c ≡ none
    → (ours ≡ false) × ((view uc).on c ≡ false)
unfolding part_one
part_one-stop stops n true uc c p h = let bad = rw p at h in cc
part_one-stop stops n false uc c p h = elim (Option-cases (get_channel uc c)) [
  | inl unknown ↦ (refl, rw unknown refl)
  | inr (ch, found) ↦ let bad = rw (p, found) at h in cc
]

-- A PART makes the first of its channels left by us, or by its user, and stops only at a channel of
-- another user on which we are not.
pub handle_part-FirstOf :
    (net : Network) (uc : UpstreamConn) (from : Prefix) (msg : Message) (channels : Str)
    (rest : List Str)
    → IsUniform uc
    → FirstOf
        (is_our_nick uc from.name)
        (part_change (is_our_nick uc from.name) from.name)
        (split b',' channels)
        uc
        (handle_part net uc from (with_channel msg channels rest))
unfolding handle_part
handle_part-FirstOf net uc from msg channels rest u =
    let ours = is_our_nick uc from.name in
    (each_channel-FirstOf (λ c. part_one true c from.name) (part_change ours from.name) ours
      (λ x. is_our_nick x from.name ≡ ours) net from (with_channel msg channels rest) rest
      (part_one-step true from.name ours) (part_one-stop true from.name ours)
      (λ a b same. ours_kept a b from.name ours same.nick same.casemap) uc (split b',' channels) u
      refl)

-- A KICK takes the user that it names from its channel, or makes us leave it, and fails only for
-- another user on a channel on which we are not.
pub handle_kick-FirstOf :
    (net : Network) (uc : UpstreamConn) (from : Prefix) (msg : Message) (channel user : Str)
    (rest : List Str)
    → IsUniform uc
    → FirstOf
        (is_our_nick uc user)
        (part_change (is_our_nick uc user) user)
        (channel ∷ [])
        uc
        (handle_kick net uc from (with_channel msg channel (user ∷ rest)))
unfolding handle_kick
handle_kick-FirstOf net uc from msg channel user rest u =
    let ours = is_our_nick uc user in
    let by = part_change ours user in
    let msg' = with_channel msg channel (user ∷ rest) in
    elim (Option-cases (part_one false uc user channel)) [
      | inl unknown ↦
          let (a, o) = part_one-stop false user ours uc channel refl unknown in
          rw unknown (record {
            first = [];
            rest = channel ∷ [];
            parts = refl;
            makes = MakesAll-nil uc u;
            ending = (a, (o, refl));
          })
      | inr (uc1, known) ↦
          let (m, p1) = part_one-step false user ours uc uc1 channel u refl known in
          let uc2 = produce net false uc1 channel from msg' 0 in
          let same = produce-Same net false uc1 channel from msg' 0 in
          let m2 = Makes-then (by channel) uc uc1 uc2 m same.channels same.casemap in
          rw known (record {
            first = channel ∷ [];
            rest = [];
            parts = refl;
            makes = MakesAll-cons (by channel) [] uc uc2 uc2 m2 (MakesAll-nil uc2 m2.uniform);
            ending = refl;
          })
    ]
