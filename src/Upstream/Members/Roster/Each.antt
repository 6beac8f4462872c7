-- ===== src/Upstream/Members/Roster/Each.antt =====
-- The roster of upstream.go when every channel changes: a nickname is gone, or is another one.
use soju_bouncer.Prelude.{
  ◌⊎◌, ◌≡◌, refl, inl, inr, false, ◌&&◌, ◌||◌, not, Option, none, some, List, [], ◌∷◌,
  if◌then◌else◌, Bool-cases, ◌==◌, Str, str_Eq, arith, lookup, ◌∙◌, Option-cases, is_some, sym, ap,
  nat_Eq,
}
use soju_bouncer.Xirc.CaseMapping.{CaseMapping}
use soju_bouncer.Xirc.CaseMappingMap
use soju_bouncer.Xirc.CaseMappingMap.{CaseMappingMap, Entry}
use soju_bouncer.Xirc.CaseMappingMap.Laws.{has-set, has-del}
use soju_bouncer.Xirc.Membership.{MembershipSet}
use soju_bouncer.Upstream.State.{
  UpstreamConn, UpstreamChannel, change_each, map_entries, get_channel,
}
use soju_bouncer.Upstream.Members.{quit_channel, rename_in_channel}
use soju_bouncer.Upstream.Members.Roster.{
  Change, gone, renamed, Members, members_of, members_at, view, change, IsUniform, IsSound, Makes,
}
use soju_bouncer.Upstream.Members.Roster.Steps.{set-IsSound, del-IsSound, some-IsSound}

option_map : (Members → Members) → Option Members → Option Members
option_map f none = none
option_map f (some m) = some (f m)

get-change_each :
    (f : UpstreamChannel → UpstreamChannel) (g : Members → Members)
    → ((ch : UpstreamChannel) → (f ch).state.members ≡ g ch.state.members)
    → (cmm : CaseMappingMap (Option UpstreamChannel)) (k : Str)
    → members_of (CaseMappingMap.get none (change_each f cmm) k)
      ≡ option_map g (members_of (CaseMappingMap.get none cmm k))
unfolding change_each CaseMappingMap.get map_entries lookup option_map
get-change_each f g e cmm k = in_entries cmm.m
  where
    at_value :
        (v : Option UpstreamChannel)
        → members_of (elim v [ none ↦ none | some ch ↦ some (f ch) ]) ≡ option_map g (members_of v)
    at_value none = refl
    at_value (some ch) = ap some (e ch)

    in_entries :
        (m : List (Str × Entry (Option UpstreamChannel)))
        → members_of (CaseMappingMap.value_of none (lookup (cmm.casemap k) (map_entries f m)))
          ≡ option_map g (members_of (CaseMappingMap.value_of none (lookup (cmm.casemap k) m)))
    in_entries [] = refl
    in_entries ((j, entry) ∷ m) = elim (Bool-cases (j == cmm.casemap k)) [
      | inl here ↦ rw here (at_value entry.value)
      | inr there ↦ rw there (in_entries m)
    ]

-- A change of every channel.
each-Makes :
    (uc uc' : UpstreamConn) (f : UpstreamChannel → UpstreamChannel) (g : Members → Members)
    (by : Change)
    → IsUniform uc
    → ((ch : UpstreamChannel) → (f ch).state.members ≡ g ch.state.members)
    → ((m : Members) → IsSound uc.casemap m → IsSound uc.casemap (g m))
    → uc'.channels ≡ change_each f uc.channels
    → uc'.casemap ≡ uc.casemap
    → ((k : Str) → (change uc.casemap by (view uc)).on k ≡ is_some (members_at uc k))
    → ((k m : Str) (members : Members)
        → IsSound uc.casemap members
        → members_at uc k ≡ some members
        → CaseMappingMap.has (g members) m ≡ (change uc.casemap by (view uc)).has k m)
    → ((k m : Str) → members_at uc k ≡ none → (change uc.casemap by (view uc)).has k m ≡ false)
    → Makes by uc uc'
unfolding get_channel change_each option_map
each-Makes uc uc' f g by u e sound h same on has absent =
    let at : (k : Str) → members_at uc' k ≡ option_map g (members_at uc k) = λ k.
      ap (λ m. members_of (CaseMappingMap.get none m k)) h ∙ get-change_each f g e uc.channels k in
    record {
      uniform = record {
        channels =
            ap (λ (m : CaseMappingMap (Option UpstreamChannel)). m.casemap) h
            ∙ u.channels
            ∙ sym same;
        members = λ k m q. rw same (after k m (sym (at k) ∙ q) (Option-cases (members_at uc k)));
      };
      casemap = same;
      follows = λ k m. elim (Option-cases (members_at uc k)) [
        | inl absent_here ↦ rw (at k, on k, absent k m absent_here, absent_here) (refl, refl)
        | inr (members, here) ↦
            rw (at k, on k, ← has k m members (u.members k members here) here, here) (refl, refl)
      ];
    }
  where
    after :
        (k : Str) (m : Members)
        → option_map g (members_at uc k) ≡ some m
        → (members_at uc k ≡ none) ⊎ ((a : Members) × (members_at uc k ≡ some a))
        → IsSound uc.casemap m
    after k m q (inl absent_here) = let bad = rw absent_here at q in cc
    after k m q (inr (a, here)) =
        some-IsSound uc.casemap (g a) (sound a (u.members k a here)) m (rw here at q)

pub gone-Makes :
    (uc uc' : UpstreamConn) (n : Str)
    → IsUniform uc
    → uc'.channels ≡ change_each (quit_channel n) uc.channels
    → uc'.casemap ≡ uc.casemap
    → Makes (gone n) uc uc'
unfolding quit_channel
gone-Makes uc uc' n u h f =
    each-Makes uc uc' (quit_channel n) (λ m. CaseMappingMap.del m n) (gone n) u (λ ch. refl)
      (λ m i. del-IsSound uc.casemap m n i) h f (λ k. refl)
      (λ k m members i here. rw here (
        has-del members n m
        ∙ ap (λ (cm : CaseMapping). not (cm n == cm m) && CaseMappingMap.has members m) i.casemap))
      (λ k m absent_here. rw absent_here (ground arith))

abbrev rename_value : Str → Str → Members → Option MembershipSet → Members
rename_value n n' m none = m
rename_value n n' m (some ms) = CaseMappingMap.set (CaseMappingMap.del m n) n' (some ms)

abbrev rename_member : Str → Str → Members → Members
rename_member n n' m = rename_value n n' m (CaseMappingMap.get none m n)

rename-IsSound :
    (cm : CaseMapping) (n n' : Str) (m : Members) → IsSound cm m → IsSound cm (rename_member n n' m)
rename-IsSound cm n n' m i = elim (Option-cases (CaseMappingMap.get none m n)) [
  | inl absent ↦ rw (absent, rename_member) i
  | inr (ms, here) ↦
      rw (here, rename_member)
        (set-IsSound cm (CaseMappingMap.del m n) n' ms (del-IsSound cm m n i))
]

rename-members :
    (n n' : Str) (ch : UpstreamChannel)
    → (rename_in_channel n n' ch).state.members ≡ rename_member n n' ch.state.members
unfolding rename_in_channel
rename-members n n' ch = elim (Option-cases (CaseMappingMap.get none ch.state.members n)) [
  | inl absent ↦ rw (absent, rename_member) refl
  | inr (ms, here) ↦ rw (here, rename_member) refl
]

has-set-del :
    (n n' k : Str) (m : Members) (ms : MembershipSet)
    → CaseMappingMap.has (CaseMappingMap.set (CaseMappingMap.del m n) n' (some ms)) k
      ≡ (m.casemap n' == m.casemap k)
        || (not (m.casemap n == m.casemap k) && CaseMappingMap.has m k)
unfolding CaseMappingMap.del
has-set-del n n' k m ms =
    has-set (CaseMappingMap.del m n) n' k (some ms)
    ∙ ap (λ b. (m.casemap n' == m.casemap k) || b) (has-del m n k)

has-rename :
    (cm : CaseMapping) (n n' k : Str) (m : Members)
    → IsSound cm m
    → CaseMappingMap.has (rename_member n n' m) k ≡ (
        if CaseMappingMap.has m n
        then (cm n' == cm k) || (not (cm n == cm k) && CaseMappingMap.has m k)
        else CaseMappingMap.has m k)
has-rename cm n n' k m i = elim (Option-cases (CaseMappingMap.get none m n)) [
  | inl absent ↦ rw (i.valued n, absent, rename_member) refl
  | inr (ms, here) ↦
      rw (i.valued n, here, rename_member)
        (has-set-del n n' k m ms
          ∙ ap (λ (c : CaseMapping). (c n' == c k) || (not (c n == c k) && CaseMappingMap.has m k))
              i.casemap)
]

pub renamed-Makes :
    (uc uc' : UpstreamConn) (n n' : Str)
    → IsUniform uc
    → uc'.channels ≡ change_each (rename_in_channel n n') uc.channels
    → uc'.casemap ≡ uc.casemap
    → Makes (renamed n n') uc uc'
renamed-Makes uc uc' n n' u h f =
    each-Makes uc uc' (rename_in_channel n n') (rename_member n n') (renamed n n') u
      (rename-members n n') (λ m i. rename-IsSound uc.casemap n n' m i) h f (λ k. refl)
      (λ k m members i here. rw here (has-rename uc.casemap n n' m members i))
      (λ k m absent_here. rw absent_here (ground arith))
