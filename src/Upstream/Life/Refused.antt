-- ===== src/Upstream/Life/Refused.antt =====
-- upstream.go, a nickname that is in use for good: the registration ends.
use soju_bouncer.Prelude.{
  ◌+◌, ◌-◌, ◌<◌, ◌≡◌, refl, inl, inr, Bool, true, false, Option, none, some, List, [], ◌∷◌, ◌++◌,
  map, ltb, ltb→lt, lt→ltb, Bool-cases, str_Eq, Str, codes, length, arith, All, length-append, ℕ,
  zero, suc, min, leb, if◌then◌else◌, sym, lookup, delete, ◌∙◌, ap,
}
use mathlib.Core.List.{append-nil, append_assoc}
use soju_bouncer.Irc.{Message, Prefix, message}
use soju_bouncer.Upstream.Labels.{parse_label}
use soju_bouncer.Upstream.State.{
  UpstreamConn, Network, Output, to_server, closed, equal_casemap, registration_refused, done,
  failed, Handled,
}
use soju_bouncer.Upstream.Handle.{handle_nickname_in_use}
use soju_bouncer.Upstream.Registration.{send}
use soju_bouncer.Upstream.Dispatch.{handle_message, dispatch, or_server}
use soju_bouncer.Upstream.Kinds.{kind_of}
use soju_bouncer.Upstream.Life.{Incoming, run_until_registered}

-- An ERR_NICKNAMEINUSE, with the nickname that it refuses.
pub record Refusal : Type 0 where
  pub net : Network
  pub prefix : Option Prefix
  pub target : Str
  pub nick : Str
  pub rest : List Str

abbrev refusal_message : Refusal → Message
refusal_message r = message (codes "433") (r.target ∷ r.nick ∷ r.rest)

abbrev pub refusal : Refusal → Incoming
refusal r = record { net = r.net; prefix = r.prefix; msg = refusal_message r }

handled :
    (uc : UpstreamConn) (r : Refusal)
    → handle_message r.net uc r.prefix (refusal_message r)
      ≡ handle_nickname_in_use r.net uc 0 (or_server uc r.prefix) (refusal_message r)
unfolding handle_message kind_of dispatch parse_label lookup delete
handled uc r = refl

-- The nickname that is tried next.
abbrev longer : UpstreamConn → UpstreamConn
longer uc =
    let nick = uc.nick ++ codes "_" in
    send (record uc { nick = nick; has_desired_nick = false }) (codes "NICK") (nick ∷ [])

tried :
    (uc : UpstreamConn) (r : Refusal)
    → uc.registered ≡ false
    → length uc.nick + 1 < 30
    → handle_message r.net uc r.prefix (refusal_message r) ≡ done (longer uc)
unfolding handle_nickname_in_use
tried uc r u h = handled uc r ∙ rw (u, lt→ltb (length uc.nick + 1) 30 h) refl

given_up :
    (uc : UpstreamConn) (r : Refusal)
    → uc.registered ≡ false
    → ltb (length uc.nick + 1) 30 ≡ false
    → equal_casemap uc uc.pending_regain_nick r.nick ≡ false
    → handle_message r.net uc r.prefix (refusal_message r) ≡ failed uc registration_refused
unfolding handle_nickname_in_use
given_up uc r u h other = handled uc r ∙ rw (u, h, other) refl

abbrev next : List Refusal → Handled → Handled
next l h = elim h.1 [ none ↦ run_until_registered h.0 (map refusal l) | some e ↦ failed h.0 e ]

taken : (b : Bool) (x y : Handled) → b ≡ false → elim b [ true ↦ x | false ↦ y ] ≡ y
taken true x y h = cc
taken false x y h = refl

first_step :
    (uc : UpstreamConn) (r : Refusal) (l : List Refusal)
    → uc.registered ≡ false
    → run_until_registered uc (map refusal (r ∷ l))
      ≡ next l (handle_message r.net uc r.prefix (refusal_message r))
unfolding run_until_registered
first_step uc r l u = taken uc.registered (done uc) _ u

-- The NICK messages that try a nickname with one more underscore each.
abbrev pub retries : ℕ → Str → List Output
retries zero nick = []
retries (suc k) nick =
    to_server (message (codes "NICK") ((nick ++ codes "_") ∷ [])) ∷ retries k (nick ++ codes "_")

no_tries : (a : ℕ) → (leb 0 a ≡ true) × (min a 0 ≡ 0)
no_tries a = (ground arith, omega arith)

none_left : (k : ℕ) → (leb (suc k) 0 ≡ false) × (min 0 (suc k) ≡ 0)
none_left k = (ground arith, omega arith)

leb-room : {a b : ℕ} (k : ℕ) → a ≡ suc b → leb k b ≡ leb (suc k) a
leb-room k e = ground (arith, e)

min-room : {a b : ℕ} (k : ℕ) → a ≡ suc b → min a (suc k) ≡ suc (min b k)
min-room k e = omega (arith, e)

-- A connection that is not registered, and is told again and again that its nickname is in use, tries
-- the nickname with one more underscore each time, up to 29 characters; at the next refusal it gives
-- up with an error. If the messages end before that, the error is that the connection is closed. No
-- message may refuse a nickname that we try to get back.
pub run_until_registered-refused :
    (uc : UpstreamConn) (l : List Refusal)
    → uc.registered ≡ false
    → All (λ (r : Refusal). equal_casemap uc uc.pending_regain_nick r.nick ≡ false) l
    → ((run_until_registered uc (map refusal l)).1
        ≡ some (if leb (length l) (29 - length uc.nick) then closed else registration_refused))
      × ((run_until_registered uc (map refusal l)).0.out
          ≡ uc.out ++ retries (min (29 - length uc.nick) (length l)) uc.nick)
unfolding run_until_registered equal_casemap
run_until_registered-refused uc [] u other =
    rw (u, (no_tries (29 - length uc.nick)).0, (no_tries (29 - length uc.nick)).1)
      (refl, sym (append-nil uc.out))
run_until_registered-refused uc (r ∷ l) u other = elim (Bool-cases (ltb (length uc.nick + 1) 30)) [
  | inl short ↦
      let lt = ltb→lt (length uc.nick + 1) 30 short in
      let step = first_step uc r l u ∙ ap (next l) (tried uc r u lt) in
      let (error, out) = run_until_registered-refused (longer uc) l u other.1 in
      let len = length-append uc.nick (codes "_") in
      let room : 29 - length uc.nick ≡ suc (29 - length (uc.nick ++ codes "_")) =
        omega (arith, len, lt) in
      (
        ap (λ (h : Handled). h.1) step
            ∙ error
            ∙ ap (λ (b : Bool). some (if b then closed else registration_refused))
                (leb-room (length l) room),
        ap (λ (h : Handled). h.0.out) step
            ∙ out
            ∙ append_assoc uc.out (retries 1 uc.nick) _
            ∙ ap (λ k. uc.out ++ retries k uc.nick) (sym (min-room (length l) room)),
      )
  | inr full ↦
      let step = first_step uc r l u ∙ ap (next l) (given_up uc r u full other.0) in
      let full_nick : 29 - length uc.nick ≡ 0 = ground (arith, full) in
      (
        ap (λ (h : Handled). h.1) step ∙ rw (full_nick, (none_left (length l)).0) refl,
        ap (λ (h : Handled). h.0.out) step
            ∙ rw (full_nick, (none_left (length l)).1) (sym (append-nil uc.out)),
      )
]
