-- ===== src/User/Networks/Invariant/Limit.antt =====
-- The limit on enabled networks, in createNetwork of user.go.
use soju_bouncer.Prelude.{
  ℕ, ◌+◌, ◌≤◌, ◌≡◌, refl, inl, inr, Bool, true, false, ◌&&◌, not, Option, none, some, List, [], ◌∷◌,
  ◌++◌, arith, nat_eq, if◌then◌else◌, Bool-cases, Option-cases, nat_Eq, str_Eq, pair_Eq,
}
use soju_bouncer.Prelude.Sort.{sort, insert_sorted}
use soju_bouncer.Database.{NetworkRecord}
use soju_bouncer.User.Networks.{
  Server, User, Network, Outcome, ok, err, panic, by_id, add_network, create_network, create_stored,
  check_network, store_network, can_enable_new_network, new_network, count_enabled, limit_of,
}
use soju_bouncer.User.Networks.Invariant.Create.{notify-has_object}

count_enabled-snoc :
    (l : List Network) (n : Network)
    → count_enabled (l ++ n ∷ []) ≡ count_enabled l + (if n.saved.enabled then 1 else 0)
unfolding count_enabled
count_enabled-snoc [] n = ground arith
count_enabled-snoc (m ∷ l) n = ground (arith, count_enabled-snoc l n)

count_enabled-insert_sorted :
    (less : Network → Network → Bool) (n : Network) (l : List Network)
    → count_enabled (insert_sorted less n l) ≡ count_enabled l + (if n.saved.enabled then 1 else 0)
unfolding count_enabled insert_sorted
count_enabled-insert_sorted less n [] = ground arith
count_enabled-insert_sorted less n (m ∷ l) = ground (arith, count_enabled-insert_sorted less n l)

count_enabled-sort :
    (less : Network → Network → Bool) (l : List Network)
    → count_enabled (sort less l) ≡ count_enabled l
unfolding count_enabled sort
count_enabled-sort less [] = refl
count_enabled-sort less (n ∷ l) =
    ground (arith, count_enabled-insert_sorted less n (sort less l), count_enabled-sort less l)

abbrev pub Within : ℕ → Outcome ℕ → Type 0
Within max (ok u' o) = count_enabled u'.networks ≤ max
Within max (err e) = Unit
Within max panic = Unit

room :
    (srv : Server) (u : User) (max : ℕ) (enabled : Bool)
    → limit_of srv u ≡ some max
    → count_enabled u.networks ≤ max
    → (enabled && not (can_enable_new_network srv u)) ≡ false
    → count_enabled u.networks + (if enabled then 1 else 0) ≤ max
unfolding can_enable_new_network
room srv u max false l c h = omega (arith, c)
room srv u max true l c h = ground (arith, c, (rw l at h))

created-Within :
    (u : User) (r : NetworkRecord) (max : ℕ)
    → count_enabled u.networks + (if r.enabled then 1 else 0) ≤ max
    → Within max (create_stored u (some r))
unfolding add_network new_network
created-Within u r max c =
    let n = new_network u.next_object r [] in
    let u1 : User = add_network (record u { next_object = u.next_object + 1 }) n in
    rw
      (
        (notify-has_object u1 r.id).0,
        count_enabled-sort by_id (u.networks ++ n ∷ []),
        count_enabled-snoc u.networks n,
      )
      c

store_network-enabled :
    (srv : Server) (r r' : NetworkRecord) → store_network srv r ≡ some r' → r.enabled ≡ r'.enabled
unfolding store_network
store_network-enabled srv r r' e = ground (arith, e)

stored-Within :
    (srv : Server) (u : User) (r : NetworkRecord) (max : ℕ) (o : Option NetworkRecord)
    → count_enabled u.networks + (if r.enabled then 1 else 0) ≤ max
    → store_network srv r ≡ o
    → Within max (create_stored u o)
stored-Within srv u r max none c e = tt
stored-Within srv u r max (some r') c e =
    created-Within u r' max (rw (store_network-enabled srv r r' e) at c)

-- A user who is within the limit stays within it when a network is created and the limit enforced.
pub create_network-limit :
    (srv : Server) (u : User) (r : NetworkRecord) (max : ℕ)
    → limit_of srv u ≡ some max
    → count_enabled u.networks ≤ max
    → Within max (create_network srv u r true)
unfolding create_network
create_network-limit srv u r max l c = elim (Bool-cases (nat_eq r.id 0)) [
  | inr old ↦ rw (old, create_network) tt
  | inl new ↦ elim (Bool-cases (r.enabled && not (can_enable_new_network srv u))) [
    | inl over ↦ rw (new, over, create_network) tt
    | inr within ↦ elim (Option-cases (check_network srv u r)) [
      | inr (e, bad) ↦ rw (new, within, bad, create_network) tt
      | inl good ↦
          rw (new, within, good, create_network)
            (stored-Within srv u r max (store_network srv r) (room srv u max r.enabled l c within)
              refl)
    ]
  ]
]
