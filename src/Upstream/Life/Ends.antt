-- ===== src/Upstream/Life/Ends.antt =====
-- upstream.go, absence that follows the clients, and what is aborted when a connection ends.
use soju_bouncer.Prelude.{
  ℕ, ◌+◌, ◌≡◌, refl, inl, inr, Bool, true, false, ◌||◌, not, Option, none, some, List, [], ◌∷◌,
  ◌++◌, Bool-cases, is_some, ◌==◌, str_Eq, nat_Eq, Str, codes, is_empty, length, All, ap, sym,
  if◌then◌else◌,
}
use soju_bouncer.Irc.{message}
use soju_bouncer.Upstream.Pending.{PendingCommand, is_supported}
use soju_bouncer.Upstream.State.{UpstreamConn, Network, Client, Output, to_server}
use soju_bouncer.Upstream.Account.{find_client}
use soju_bouncer.Upstream.Life.{update_away, all_away, away_reason, same_bool}

same_bool-eq : (a b : Bool) → same_bool a b ≡ true → a ≡ b
same_bool-eq true b h = sym h
same_bool-eq false true h = cc
same_bool-eq false false h = refl

same_bool_refl : (b : Bool) → same_bool b b ≡ true
same_bool_refl true = refl
same_bool_refl false = refl

append-nil : {A : Type 0} (l : List A) → l ++ [] ≡ l
append-nil [] = refl
append-nil (x ∷ l) = ap (◌∷◌ x) (append-nil l)

-- The message on a change of absence.
abbrev pub after_away : Network → UpstreamConn → List Output
after_away net uc =
    if same_bool (all_away net.clients) uc.away
    then []
    else to_server (message (codes "AWAY") (if all_away net.clients then away_reason uc else []))
      ∷ []

-- Where the network marks its user as away, the connection is marked so exactly if all clients are
-- away, the server is told by one message if that changes it, and doing it again does nothing.
pub update_away-all_away :
    (net : Network) (uc : UpstreamConn)
    → net.auto_away ≡ true
    → ((update_away net uc).away ≡ all_away net.clients)
      × ((update_away net (update_away net uc) ≡ update_away net uc)
          × ((update_away net uc).out ≡ uc.out ++ after_away net uc))
unfolding update_away
update_away-all_away net uc auto = elim (Bool-cases (same_bool (all_away net.clients) uc.away)) [
  | inl same ↦ rw (auto, same, same) (sym (same_bool-eq _ _ same), (refl, sym (append-nil uc.out)))
  | inr changed ↦ elim (Bool-cases (all_away net.clients)) [
    | inl away ↦ rw (auto, changed, away) (refl, (refl, refl))
    | inr present ↦ rw (auto, changed, present) (refl, (refl, refl))
  ]
]

-- The commands whose abort repeats a parameter.
abbrev pub names_parameter : Str → Bool
names_parameter cmd = cmd == codes "WHOIS" || (cmd == codes "REGISTER" || cmd == codes "VERIFY")

-- A command whose end a client can be told of.
abbrev pub IsAbortable : PendingCommand → Type 0
IsAbortable p =
    (is_supported p.msg.command ≡ true)
    × ((not (names_parameter p.msg.command) || not (is_empty p.msg.params)) ≡ true)

abbrev pub live : List Client → List PendingCommand → ℕ
live clients [] = 0
live clients (p ∷ l) =
    (if is_some (find_client clients p.downstream_id) then 1 else 0) + live clients l

abbrev pub all_live : List Client → List (Str × List PendingCommand) → ℕ
all_live clients [] = 0
all_live clients ((_, l) ∷ m) = live clients l + all_live clients m

abbrev count : Option (List Output) → Option ℕ
count none = none
count (some o) = some (length o)

abbrev pub AllAbortable : List (Str × List PendingCommand) → Type 0
AllAbortable m = All (λ (e : Str × List PendingCommand). All IsAbortable e.1) m
