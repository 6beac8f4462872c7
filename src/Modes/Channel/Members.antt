-- ===== src/Modes/Channel/Members.antt =====
-- `applyChannelModes` of irc.go: what a mode string does to the members of a channel.
use soju_bouncer.Prelude.{
  ℕ, ◌≡◌, refl, ap, ◌∙◌, inl, inr, Bool, true, false, Option, none, some, List, [], ◌∷◌, arith,
  nat_eq, if◌then◌else◌, Bool-cases, ◌==◌, nat_Eq, Str, str_Eq, pair_Eq, get_elem?, contains,
  lookup, insert,
}
use soju_bouncer.Xirc.CaseMappingMap
use soju_bouncer.Xirc.CaseMappingMap.{CaseMappingMap, Entry}
use soju_bouncer.Xirc.Membership.{Membership, MembershipSet, membership_Eq}
use soju_bouncer.Xirc.Membership
use soju_bouncer.Xirc.Membership.Ranked.{Ranked, Distinct}
use soju_bouncer.Xirc.Membership.Order.{add-Ranked, remove-Ranked}
use soju_bouncer.Modes.Channel.{
  ModeError, find_membership, change_member, change_known, give_rank, apply_letter, is_sign,
  apply_from, apply_channel_modes, ModeType, Available, Channel, type_a, type_b, type_c, type_d,
  missing_argument,
}

-- The ranks of a member, sorted; nothing for the nil pointer.
abbrev pub Sorted : List Membership → Option MembershipSet → Type 0
Sorted av none = Unit
Sorted av (some l) = Ranked av l

abbrev pub AllSorted : List Membership → List (Str × Entry (Option MembershipSet)) → Type 0
AllSorted av [] = Unit
AllSorted av ((_, entry) ∷ m) = Sorted av entry.value × AllSorted av m

-- The members of a channel, as their names under the case mapping.
abbrev pub names : List (Str × Entry (Option MembershipSet)) → List Str
names [] = []
names ((k, _) ∷ m) = k ∷ names m

-- What a step from one channel to another keeps.
abbrev pub Kept : List Membership → Channel → Channel → Type 0
Kept av ch ch' =
    (AllSorted av ch.members.m → AllSorted av ch'.members.m)
    × (names ch'.members.m ≡ names ch.members.m)
    × (ch'.members.casemap ≡ ch.members.casemap)

Kept-refl : (av : List Membership) (ch : Channel) → Kept av ch ch
Kept-refl av ch = ((λ s. s), refl, refl)

Kept-trans : (av : List Membership) (a b c : Channel) → Kept av a b → Kept av b c → Kept av a c
Kept-trans av a b c k l = ((λ s. l.0 (k.0 s)), l.1 ∙ k.1, l.2 ∙ k.2)

abbrev SortedEntry : List Membership → Option (Entry (Option MembershipSet)) → Type 0
SortedEntry av none = Unit
SortedEntry av (some entry) = Sorted av entry.value

lookup-Sorted :
    (av : List Membership) (k : Str) (m : List (Str × Entry (Option MembershipSet)))
    → AllSorted av m
    → SortedEntry av (lookup k m)
unfolding lookup
lookup-Sorted av k [] s = tt
lookup-Sorted av k ((j, w) ∷ m) s = elim (Bool-cases (j == k)) [
  | inl same ↦ rw same s.0
  | inr other ↦ rw other (lookup-Sorted av k m s.1)
]

insert-Sorted :
    (av : List Membership) (k : Str) (m : List (Str × Entry (Option MembershipSet)))
    (entry : Entry (Option MembershipSet))
    → AllSorted av m
    → Sorted av entry.value
    → AllSorted av (insert k entry m)
unfolding insert
insert-Sorted av k [] entry s h = (h, tt)
insert-Sorted av k ((j, w) ∷ m) entry s h = elim (Bool-cases (j == k)) [
  | inl same ↦ rw same (h, s.1)
  | inr other ↦ rw other (s.0, insert-Sorted av k m entry s.1 h)
]

names-insert :
    (k : Str) (m : List (Str × Entry (Option MembershipSet)))
    (entry old : Entry (Option MembershipSet))
    → lookup k m ≡ some old
    → names (insert k entry m) ≡ names m
unfolding insert lookup
names-insert k [] entry old h = ground arith
names-insert k ((j, w) ∷ m) entry old h = elim (Bool-cases (j == k)) [
  | inl same ↦ rw same refl
  | inr other ↦ rw other (ap (◌∷◌ j) (names-insert k m entry old (rw other at h)))
]

find_membership-contains :
    (av : List Membership) (mode : ℕ) (m : Membership)
    → find_membership av mode ≡ some m
    → contains m av ≡ true
find_membership-contains [] mode m h = ground arith
find_membership-contains (a ∷ av) mode m h = ground (arith, find_membership-contains av mode m)

changed-Sorted :
    (av : List Membership) (plus : Bool) (membership : Membership) (l : MembershipSet)
    → Distinct av
    → contains membership av ≡ true
    → Ranked av l
    → Ranked av (if plus then Membership.add av l membership else Membership.remove l membership)
changed-Sorted av true membership l d c r = (add-Ranked av l membership membership d c r).0
changed-Sorted av false membership l d c r = (remove-Ranked av l membership membership d r).0

change_entry-Kept :
    (av : Available) (plus : Bool) (membership : Membership) (member : Str) (ch : Channel)
    (entry : Entry (Option MembershipSet)) (v : Option MembershipSet)
    → lookup (ch.members.casemap member) ch.members.m ≡ some entry
    → (AllSorted av.memberships ch.members.m → Sorted av.memberships v)
    → Distinct av.memberships
    → contains membership av.memberships ≡ true
    → Kept av.memberships ch (change_member av plus membership member v ch)
unfolding CaseMappingMap.set
change_entry-Kept av plus membership member ch entry none p q d c = Kept-refl av.memberships ch
change_entry-Kept av plus membership member ch entry (some l) p q d c = rw p (
  (λ s.
      insert-Sorted av.memberships (ch.members.casemap member) ch.members.m _ s
        (changed-Sorted av.memberships plus membership l d c (q s))),
  names-insert (ch.members.casemap member) ch.members.m _ entry p,
  refl,
)

change_found-Kept :
    (av : Available) (plus : Bool) (membership : Membership) (member : Str) (ch : Channel)
    (found : Option (Entry (Option MembershipSet)))
    → lookup (ch.members.casemap member) ch.members.m ≡ found
    → Distinct av.memberships
    → contains membership av.memberships ≡ true
    → Kept av.memberships ch
        (change_member av plus membership member (CaseMappingMap.value_of none found) ch)
change_found-Kept av plus membership member ch none p d c = Kept-refl av.memberships ch
change_found-Kept av plus membership member ch (some entry) p d c =
    change_entry-Kept av plus membership member ch entry entry.value p
      (λ s. rw p at (lookup-Sorted av.memberships (ch.members.casemap member) ch.members.m s)) d c

change_member-Kept :
    (av : Available) (plus : Bool) (membership : Membership) (member : Str) (ch : Channel)
    → Distinct av.memberships
    → contains membership av.memberships ≡ true
    → Kept av.memberships ch
        (change_member av plus membership member (CaseMappingMap.get none ch.members member) ch)
unfolding CaseMappingMap.get
change_member-Kept av plus membership member ch d c =
    change_found-Kept av plus membership member ch (lookup (ch.members.casemap member) ch.members.m)
      refl d c

change_known-Kept :
    (mem : List Membership) (mt : Option ModeType) (plus : Bool) (mode : ℕ) (arguments : List Str)
    (next : ℕ) (ch : Channel)
    → Kept mem ch (change_known mt plus mode arguments next ch).0
change_known-Kept mem none plus mode arguments next ch = Kept-refl mem ch
change_known-Kept mem (some type_a) plus mode arguments next ch = Kept-refl mem ch
change_known-Kept mem (some type_b) true mode arguments next ch = Kept-refl mem ch
change_known-Kept mem (some type_b) false mode arguments next ch = Kept-refl mem ch
change_known-Kept mem (some type_c) true mode arguments next ch = Kept-refl mem ch
change_known-Kept mem (some type_c) false mode arguments next ch = Kept-refl mem ch
change_known-Kept mem (some type_d) true mode arguments next ch = Kept-refl mem ch
change_known-Kept mem (some type_d) false mode arguments next ch = Kept-refl mem ch

abbrev KeptBy : List Membership → Channel → Option (Channel × ℕ) → Type 0
KeptBy mem ch none = Unit
KeptBy mem ch (some (ch', _)) = Kept mem ch ch'

give_rank-Kept :
    (av : Available) (plus : Bool) (membership : Membership) (member : Option Str) (next : ℕ)
    (ch : Channel)
    → Distinct av.memberships
    → contains membership av.memberships ≡ true
    → KeptBy av.memberships ch (give_rank av plus membership member next ch)
give_rank-Kept av plus membership none next ch d c = tt
give_rank-Kept av plus membership (some member) next ch d c =
    change_member-Kept av plus membership member ch d c

apply_letter-Kept :
    (av : Available) (found : Option Membership) (plus : Bool) (mode : ℕ) (arguments : List Str)
    (next : ℕ) (ch : Channel)
    → find_membership av.memberships mode ≡ found
    → Distinct av.memberships
    → KeptBy av.memberships ch (apply_letter av found plus mode arguments next ch)
apply_letter-Kept av none plus mode arguments next ch p d =
    change_known-Kept av.memberships (lookup mode av.channel_modes) plus mode arguments next ch
apply_letter-Kept av (some membership) plus mode arguments next ch p d =
    give_rank-Kept av plus membership (get_elem? arguments next) next ch d
      (find_membership-contains av.memberships mode membership p)

abbrev after :
    Channel
    → (Channel → ℕ → Channel × Option ModeError)
    → Option (Channel × ℕ)
    → Channel × Option ModeError
after ch rest done = elim done [
  | none ↦ (ch, some missing_argument)
  | some (ch', next') ↦ rest ch' next'
]

apply_from-Kept :
    (av : Available) (arguments : List Str) (sign next : ℕ) (ch : Channel) (s : Str)
    → Distinct av.memberships
    → Kept av.memberships ch (apply_from av arguments sign next ch s).0
unfolding apply_from
apply_from-Kept av arguments sign next ch [] d = Kept-refl av.memberships ch
apply_from-Kept av arguments sign next ch (mode ∷ s) d = elim (Bool-cases (is_sign mode)) [
  | inl signed ↦ rw (signed, apply_from) (apply_from-Kept av arguments mode next ch s d)
  | inr plain ↦ elim (Bool-cases (is_sign sign)) [
    | inr early ↦ rw (plain, early, apply_from) (Kept-refl av.memberships ch)
    | inl signed ↦
        rw (plain, signed, apply_from)
          (step
            (apply_letter av (find_membership av.memberships mode) (nat_eq sign b'+') mode arguments
              next ch)
            (apply_letter-Kept av (find_membership av.memberships mode) (nat_eq sign b'+') mode
              arguments next ch refl d)
            (λ ch' next'. apply_from-Kept av arguments sign next' ch' s d))
  ]
]
  where
    step :
        (done : Option (Channel × ℕ))
        → KeptBy av.memberships ch done
        → ((ch' : Channel) (next' : ℕ)
            → Kept av.memberships ch' (apply_from av arguments sign next' ch' s).0)
        → Kept av.memberships ch
            (after ch (λ ch' next'. apply_from av arguments sign next' ch' s) done).0
    step none k rest = Kept-refl av.memberships ch
    step (some (ch', next')) k rest =
        Kept-trans av.memberships ch ch' (apply_from av arguments sign next' ch' s).0 k
          (rest ch' next')

-- A mode string, applied to its end or up to an error, keeps the ranks of every member sorted,
-- where the server's ranks are distinct, and no member comes or goes by it.
pub apply_channel_modes-Kept :
    (av : Available) (ch : Channel) (mode_str : Str) (arguments : List Str)
    → Distinct av.memberships
    → Kept av.memberships ch (apply_channel_modes av ch mode_str arguments).0
unfolding apply_channel_modes
apply_channel_modes-Kept av ch mode_str arguments d = apply_from-Kept av arguments 0 0 ch mode_str d
