-- ===== src/Upstream/Cached/Complete.antt =====
-- upstream.go, getCachedWHO: an answer for a channel has all its members.
use soju_bouncer.Prelude.{
  ◌≡◌, refl, inl, inr, true, false, none, some, List, [], ◌∷◌, map, Bool-cases, Option-cases, Str,
  All, ◌↔◌, ◌∙◌, Bool, not, ◌&&◌, ◌||◌, contains, codes, nat_Eq, arith,
}
use mathlib.Core.Path.{subst}
use soju_bouncer.Xirc.Caps
use soju_bouncer.Xirc.CaseMappingMap
use soju_bouncer.Upstream.State.{UpstreamConn, UpstreamChannel, UpstreamUser, get_channel}
use soju_bouncer.Upstream.Members.{member_names}
use soju_bouncer.Upstream.Cached.{
  get_cached_who, cached_members, has_whox_fields, goes_stale, default_fields,
}

-- The users of an answer are what is known of these nicknames, in order, and have the fields.
pub record Answers (uc : UpstreamConn) (fields : Str) (nicks : List Str) (l : List UpstreamUser)
    : Type 0 where
  pub users : map (λ (nick : Str). CaseMappingMap.get none uc.users nick) nicks ≡ map some l
  pub known : All (λ (uu : UpstreamUser). has_whox_fields uu fields ≡ true) l

cons_inj : {A : Type 0} {x y : A} {xs ys : List A} → x ∷ xs ≡ y ∷ ys → (x ≡ y) × (xs ≡ ys)
cons_inj h = (cc, cc)

some_inj : {A : Type 0} {x y : A} → some x ≡ some y → x ≡ y
some_inj h = cc

cached_members-Answers :
    (uc : UpstreamConn) (fields : Str) (nicks : List Str) (l : List UpstreamUser)
    → cached_members uc fields nicks ≡ some l
    → Answers uc fields nicks l
unfolding cached_members
cached_members-Answers uc fields [] [] h = record { users = refl; known = tt }
cached_members-Answers uc fields [] (uu ∷ l) h = cc
cached_members-Answers uc fields (nick ∷ nicks) l h =
    elim (Option-cases (CaseMappingMap.get none uc.users nick)) [
      | inl unknown ↦ let bad = rw (cached_members, unknown) at h in cc
      | inr (uu, found) ↦ elim (Bool-cases (has_whox_fields uu fields)) [
        | inr lacks ↦ let bad = rw (cached_members, found, lacks) at h in cc
        | inl has ↦ elim (Option-cases (cached_members uc fields nicks)) [
          | inl none_rest ↦ let bad = rw (cached_members, found, has, none_rest) at h in cc
          | inr (rest, known) ↦
              let e = rw (cached_members, found, has, known) at h in
              let ih = cached_members-Answers uc fields nicks rest known in
              answer_with uu l rest found has e ih
        ]
      ]
    ]
  where
    answer_with :
        (uu : UpstreamUser) (l rest : List UpstreamUser)
        → CaseMappingMap.get none uc.users nick ≡ some uu
        → has_whox_fields uu fields ≡ true
        → some (uu ∷ rest) ≡ some l
        → Answers uc fields nicks rest
        → Answers uc fields (nick ∷ nicks) l
    answer_with uu l rest found has e ih =
        subst (Answers uc fields (nick ∷ nicks)) (some_inj e)
          (record { users = rw (found, ih.users) refl; known = (has, ih.known) })

Answers-cached_members :
    (uc : UpstreamConn) (fields : Str) (nicks : List Str) (l : List UpstreamUser)
    → Answers uc fields nicks l
    → cached_members uc fields nicks ≡ some l
unfolding cached_members
Answers-cached_members uc fields [] [] a = refl
Answers-cached_members uc fields [] (uu ∷ l) a = let bad = a.users in cc
Answers-cached_members uc fields (nick ∷ nicks) [] a = let bad = a.users in cc
Answers-cached_members uc fields (nick ∷ nicks) (uu ∷ l) a =
    let (found, rest) = cons_inj a.users in
    rw
      (
        cached_members,
        found,
        a.known.0,
        Answers-cached_members uc fields nicks l (record { users = rest; known = a.known.1 }),
      )
      refl

-- The server tells of changes of the accounts and of the absence of users, where those are asked for.
pub record IsNotified (uc : UpstreamConn) (fields : Str) : Type 0 where
  pub accounts :
      contains b'a' fields ≡ true → Caps.is_enabled uc.caps (codes "account-notify") ≡ true
  pub flags : contains b'f' fields ≡ true → Caps.is_enabled uc.caps (codes "away-notify") ≡ true

joins :
    (a n f w : Bool)
    → (a ≡ true → n ≡ true)
    → (f ≡ true → w ≡ true)
    → ((a && not n) || (f && not w)) ≡ false
joins true n true w h k = rw (h refl, k refl) refl
joins true n false w h k = rw (h refl) refl
joins false n true w h k = rw (k refl) refl
joins false n false w h k = refl

goes_stale-IsNotified :
    (uc : UpstreamConn) (fields : Str) → (goes_stale uc fields ≡ false) ↔ IsNotified uc fields
goes_stale-IsNotified uc fields =
    let (split, joined) =
      both_kept (contains b'a' fields) (Caps.is_enabled uc.caps (codes "account-notify"))
        (contains b'f' fields) (Caps.is_enabled uc.caps (codes "away-notify")) in
    (
      (λ h. record { accounts = (split h).0; flags = (split h).1 }),
      λ n. joined (n.accounts, n.flags),
    )
  where
    both_kept :
        (a n f w : Bool)
        → (((a && not n) || (f && not w)) ≡ false) ↔ ((a ≡ true → n ≡ true) × (f ≡ true → w ≡ true))
    both_kept a n f w = (
      (λ h. ((λ e. ground (arith, e, h)), (λ e. ground (arith, e, h)))),
      λ k. joins a n f w k.0 k.1,
    )

-- A WHO on a channel whose name is no known user's is answered from the cache exactly with what is
-- known of all its members, where each has the fields asked for, account-notify is enabled if the
-- account is one of them, and away-notify if the flags are.
pub get_cached_who-Answers :
    (uc : UpstreamConn) (mask fields : Str) (uch : UpstreamChannel) (l : List UpstreamUser)
    → CaseMappingMap.get none uc.users mask ≡ none
    → get_channel uc mask ≡ some uch
    → (get_cached_who uc mask fields ≡ some l) ↔ (
        IsNotified uc (default_fields fields)
        × Answers uc (default_fields fields) (member_names uch) l)
unfolding get_cached_who
get_cached_who-Answers uc mask fields uch l nobody on =
    let wanted = default_fields fields in
    let (split, joined) = goes_stale-IsNotified uc wanted in
    elim (Bool-cases (goes_stale uc wanted)) [
      | inl stale ↦ rw stale ((λ h. let bad = h in cc), (λ a. let bad = joined a.0 ∙ refl in cc))
      | inr fresh ↦
          rw (fresh, nobody, on)
            (
              (λ h. (split fresh, cached_members-Answers uc wanted (member_names uch) l h)),
              (λ a. Answers-cached_members uc wanted (member_names uch) l a.1),
            )
    ]
