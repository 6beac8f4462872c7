-- ===== src/Upstream/Members/Roster/Steps.antt =====
-- The steps of the messages on who is on a channel, one channel or one nickname at a time.
use soju_bouncer.Prelude.{
  ◌≡◌, refl, inl, inr, false, ◌&&◌, ◌||◌, not, Option, none, some, if◌then◌else◌, Bool-cases, ◌==◌,
  Str, str_Eq, arith, lookup, ◌∙◌, is_some, ap, nat_Eq,
}
use mathlib.Core.Path.{subst}
use soju_bouncer.Xirc.CaseMapping.{CaseMapping}
use soju_bouncer.Xirc.CaseMappingMap
use soju_bouncer.Xirc.CaseMappingMap.{CaseMappingMap, Entry}
use soju_bouncer.Xirc.CaseMappingMap.Laws.{get-set, get-del, has-set, has-del}
use soju_bouncer.Xirc.Membership.{MembershipSet}
use soju_bouncer.Upstream.State.{
  UpstreamConn, UpstreamChannel, get_channel, set_channel, with_members,
}
use soju_bouncer.Upstream.Members.{join_ours, new_channel}
use soju_bouncer.Upstream.Members.Roster.{
  Change, joined, left, added, removed, Members, members_of, members_at, is_in, view, change,
  IsUniform, IsSound, written, dropped, members_same, auto_detach-Steady, Makes, At-Makes,
}

has-new :
    (cm : CaseMapping) (m : Str)
    → CaseMappingMap.has {V = Option MembershipSet} (CaseMappingMap.new cm) m ≡ false
unfolding CaseMappingMap.has CaseMappingMap.new lookup
has-new cm m = refl

new-IsSound : (cm : CaseMapping) → IsSound cm (CaseMappingMap.new cm)
unfolding CaseMappingMap.new CaseMappingMap.has CaseMappingMap.get lookup
new-IsSound cm = record { casemap = refl; valued = λ n. refl }

pub set-IsSound :
    (cm : CaseMapping) (members : Members) (n : Str) (ms : MembershipSet)
    → IsSound cm members
    → IsSound cm (CaseMappingMap.set members n (some ms))
unfolding CaseMappingMap.set
set-IsSound cm members n ms i = record {
  casemap = i.casemap;
  valued = λ k.
      ground (arith, has-set members n k (some ms), get-set none (some ms) members n k, i.valued k);
}

pub del-IsSound :
    (cm : CaseMapping) (members : Members) (n : Str)
    → IsSound cm members
    → IsSound cm (CaseMappingMap.del members n)
unfolding CaseMappingMap.del
del-IsSound cm members n i = record {
  casemap = i.casemap;
  valued = λ k. ground (arith, has-del members n k, get-del none members n k, i.valued k);
}

pub some-IsSound :
    (cm : CaseMapping) (members : Members)
    → IsSound cm members
    → (m : Members) → some members ≡ some m
    → IsSound cm m
some-IsSound cm members i m e = subst (IsSound cm) (some-inj e) i
  where
    some-inj : {a b : Members} → some a ≡ some b → a ≡ b
    some-inj h = cc

pub joined-Makes :
    (uc : UpstreamConn) (c : Str) → IsUniform uc → Makes (joined c) uc (join_ours uc c)
unfolding join_ours get_channel CaseMappingMap.set
joined-Makes uc c u =
    let uc1 = set_channel uc c (new_channel uc.casemap c) in
    let s = auto_detach-Steady uc1 c u.channels in
    At-Makes uc (join_ours uc c) c (some (CaseMappingMap.new uc.casemap)) (joined c) u s.map_casemap
      s.casemap (some-IsSound uc.casemap _ (new-IsSound uc.casemap))
      (λ k. s.members k ∙ written uc uc1 c k (some (new_channel uc.casemap c)) u.channels refl)
      (λ k m. ground (arith, has-new uc.casemap m))

pub left-Makes :
    (uc uc' : UpstreamConn) (c : Str)
    → IsUniform uc
    → uc'.channels ≡ CaseMappingMap.del uc.channels c
    → uc'.casemap ≡ uc.casemap
    → Makes (left c) uc uc'
unfolding CaseMappingMap.del
left-Makes uc uc' c u h f =
    At-Makes uc uc' c none (left c) u
      (ap (λ (m : CaseMappingMap (Option UpstreamChannel)). m.casemap) h) f (λ m e. ground arith)
      (λ k. dropped uc uc' c k u.channels h) (λ k m. ground arith)

-- A channel is written with other members.
rewritten-Makes :
    (uc uc' : UpstreamConn) (c : Str) (ch : UpstreamChannel) (members : Members) (by : Change)
    → IsUniform uc
    → get_channel uc c ≡ some ch
    → IsSound uc.casemap members
    → uc'.channels ≡ CaseMappingMap.set uc.channels c (some (with_members ch members))
    → uc'.casemap ≡ uc.casemap
    → ((k m : Str)
        → (is_some (if uc.casemap c == uc.casemap k then some members else members_at uc k)
            ≡ (change uc.casemap by (view uc)).on k)
          × (is_in (if uc.casemap c == uc.casemap k then some members else members_at uc k) m
              ≡ (change uc.casemap by (view uc)).has k m))
    → Makes by uc uc'
unfolding CaseMappingMap.set
rewritten-Makes uc uc' c ch members by u g e h f says =
    At-Makes uc uc' c (some members) by u
      (ap (λ (m : CaseMappingMap (Option UpstreamChannel)). m.casemap) h) f
      (some-IsSound uc.casemap members e)
      (λ k. written uc uc' c k (some (with_members ch members)) u.channels h) says

module _ (uc : UpstreamConn) (c : Str) (ch : UpstreamChannel) (u : IsUniform uc)
    (g : get_channel uc c ≡ some ch) where
  its_members : IsSound uc.casemap ch.state.members
  its_members = u.members c ch.state.members (ap members_of g)

  pub added-Makes :
      (n : Str) (ms : MembershipSet)
      → Makes
          (added c n)
          uc
          (set_channel uc c (with_members ch (CaseMappingMap.set ch.state.members n (some ms))))
  unfolding CaseMappingMap.set
  added-Makes n ms =
      rewritten-Makes uc _ c ch (CaseMappingMap.set ch.state.members n (some ms)) (added c n) u g
        (set-IsSound uc.casemap ch.state.members n ms its_members) refl refl
        λ k m. elim (Bool-cases (uc.casemap c == uc.casemap k)) [
          | inl same ↦
              rw (same, members_same uc c k u.channels same, g)
                (
                  refl,
                  has-set ch.state.members n m (some ms)
                      ∙ ap
                          (λ (cm : CaseMapping).
                            (cm n == cm m) || CaseMappingMap.has ch.state.members m)
                          its_members.casemap,
                )
          | inr other ↦ rw other (refl, refl)
        ]

  pub removed-Makes :
      (uc' : UpstreamConn) (n : Str)
      → uc'.channels
        ≡ CaseMappingMap.set uc.channels c
            (some (with_members ch (CaseMappingMap.del ch.state.members n)))
      → uc'.casemap ≡ uc.casemap
      → Makes (removed c n) uc uc'
  unfolding CaseMappingMap.del
  removed-Makes uc' n h f =
      rewritten-Makes uc uc' c ch (CaseMappingMap.del ch.state.members n) (removed c n) u g
        (del-IsSound uc.casemap ch.state.members n its_members) h f
        λ k m. elim (Bool-cases (uc.casemap c == uc.casemap k)) [
          | inl same ↦
              rw (same, members_same uc c k u.channels same, g)
                (
                  refl,
                  has-del ch.state.members n m
                      ∙ ap
                          (λ (cm : CaseMapping).
                            not (cm n == cm m) && CaseMappingMap.has ch.state.members m)
                          its_members.casemap,
                )
          | inr other ↦ rw other (refl, refl)
        ]
