-- ===== src/Modes/Prefixes.antt =====
-- `formatMemberPrefix` of irc.go and `parseMembershipPrefix` of upstream.go: the ranks of a member
-- in front of a nickname.
use soju_bouncer.Prelude.{
  ℕ, ◌≡◌, refl, Bool, true, false, List, [], ◌∷◌, ◌++◌, map, arith, nat_eq, nat_eq_iff, nat_Eq, Str,
  All, contains,
}
use soju_bouncer.Xirc.Membership.{Membership, MembershipSet, membership_Eq}
use soju_bouncer.Xirc.Membership.Ranked.{
  Ranked, none_left, skip, keep, Distinct, Ranked-head, Ranked-single,
}

-- With whether the client has the capability "multi-prefix".
unfoldable pub format_member_prefix : Bool → MembershipSet → Str
format_member_prefix true ms = map (λ (m : Membership). m.prefix) ms
format_member_prefix false [] = []
format_member_prefix false (m ∷ ms) = m.prefix ∷ []

-- The loop over the available memberships, on what is left of the string.
unfoldable pub parse_membership_prefix : List Membership → Str → MembershipSet × Str
parse_membership_prefix [] s = ([], s)
parse_membership_prefix (m ∷ available) [] = ([], [])
parse_membership_prefix (m ∷ available) (c ∷ s) = elim (nat_eq c m.prefix) [
  | true ↦ let (ms, nick) = parse_membership_prefix available s in (m ∷ ms, nick)
  | false ↦ parse_membership_prefix available (c ∷ s)
]

abbrev pub starts_with : Str → ℕ → Bool
starts_with [] c = false
starts_with (x ∷ s) c = nat_eq x c

-- The available memberships have different prefixes, and the nickname begins with none of them.
abbrev pub AreClear : List Membership → Str → Type 0
AreClear available nick =
    Distinct (map (λ (m : Membership). m.prefix) available)
    × All (λ (m : Membership). starts_with nick m.prefix ≡ false) available

-- What a client is shown of the ranks.
abbrev pub shown : Bool → MembershipSet → MembershipSet
shown true ms = ms
shown false [] = []
shown false (m ∷ ms) = m ∷ []

parse-nick :
    (available : List Membership) (nick : Str)
    → All (λ (m : Membership). starts_with nick m.prefix ≡ false) available
    → parse_membership_prefix available nick ≡ ([], nick)
unfolding parse_membership_prefix
parse-nick [] nick h = refl
parse-nick (m ∷ available) [] h = refl
parse-nick (m ∷ available) (c ∷ nick) h =
    rw (parse_membership_prefix, h.0) (parse-nick available (c ∷ nick) h.1)

Ranked-contains :
    {available ms : List Membership} (m : Membership)
    → Ranked available (m ∷ ms)
    → contains m.prefix (map (λ (x : Membership). x.prefix) available) ≡ true
Ranked-contains m (skip {a = a} r) = ground (arith, Ranked-contains m r)
Ranked-contains m (keep {a = a} e r) = rw e (ground (arith, nat_Eq.test_iff a.prefix a.prefix))

prefix_other :
    (m a : Membership) (available : List Membership)
    → contains m.prefix (map (λ (x : Membership). x.prefix) available) ≡ true
    → contains a.prefix (map (λ (x : Membership). x.prefix) available) ≡ false
    → nat_eq m.prefix a.prefix ≡ false
prefix_other m a available c d = ground (arith, nat_eq_iff m.prefix a.prefix)

parse-prefixes :
    (available ms : List Membership) (nick : Str)
    → Ranked available ms
    → AreClear available nick
    → parse_membership_prefix available (map (λ (m : Membership). m.prefix) ms ++ nick) ≡ (ms, nick)
unfolding parse_membership_prefix
parse-prefixes [] [] nick none_left h = refl
parse-prefixes [] (m ∷ ms) nick r h = elim r [ ]
parse-prefixes (a ∷ available) [] nick r h = parse-nick (a ∷ available) nick h.1
parse-prefixes (a ∷ available) (m ∷ ms) nick (skip r) h =
    let other : nat_eq m.prefix a.prefix ≡ false =
      prefix_other m a available (Ranked-contains m r) h.0.0 in
    rw (parse_membership_prefix, other) (parse-prefixes available (m ∷ ms) nick r (h.0.1, h.1.1))
parse-prefixes (a ∷ available) (m ∷ ms) nick (keep e r) h =
    let ih = parse-prefixes available ms nick r (h.0.1, h.1.1) in
    ground (arith, ih, e, nat_eq_iff m.prefix a.prefix)

-- The prefixes that a client is sent in front of a nickname read back as the ranks that they stand
-- for, all of them with "multi-prefix" and the highest one without, and as the nickname. The ranks
-- are sorted, the available prefixes differ, and the nickname begins with none of them.
pub parse-format_member_prefix :
    (multi : Bool) (available ms : List Membership) (nick : Str)
    → Ranked available ms
    → AreClear available nick
    → parse_membership_prefix available (format_member_prefix multi ms ++ nick)
      ≡ (shown multi ms, nick)
unfolding format_member_prefix
parse-format_member_prefix true available ms nick r h = parse-prefixes available ms nick r h
parse-format_member_prefix false available [] nick r h = parse-prefixes available [] nick r h
parse-format_member_prefix false available (m ∷ ms) nick r h =
    parse-prefixes available (m ∷ []) nick (Ranked-single available m (Ranked-head m r)) h
