-- ===== src/Upstream/Produce/Delivers.antt =====
-- upstream.go, produce: who gets a message, and who does not.
use soju_bouncer.Prelude.{
  ℕ, ◌≡◌, refl, ap, ◌∙◌, inl, inr, Bool, true, false, ◌&&◌, ◌||◌, not, Option, none, some, List, [],
  ◌∷◌, ◌++◌, map, Bool-cases, Option-cases, nat_eq, if◌then◌else◌, Str, codes, is_empty, arith,
}
use soju_bouncer.Irc.{Message, Prefix}
use soju_bouncer.Xirc.Caps
use soju_bouncer.Upstream.State.{UpstreamConn, Network, Client, Output, sent, advanced, is_our_nick}
use soju_bouncer.Upstream.Produce.{append_log, is_detached, produce, produce_all}
use soju_bouncer.Upstream.Produce.Keeps.{append_log-Same}

-- The client that gets a message, or is to have it as read.
abbrev pub addressee : Output → Option ℕ
addressee (sent id from msg) = some id
addressee (advanced id from msg) = some id
addressee _ = none

abbrev pub content : Output → Option (Prefix × Message)
content (sent id from msg) = some (from, msg)
content (advanced id from msg) = some (from, msg)
content _ = none

abbrev pub is_sent : Output → Bool
is_sent (sent id from msg) = true
is_sent _ = false

-- The clients that may see messages of a sender, who may be blocked.
abbrev pub seeing : Bool → List Client → List Client
seeing blocked [] = []
seeing blocked (dc ∷ l) =
    if blocked && not dc.sees_blocked then seeing blocked l else dc ∷ seeing blocked l

-- A client does not get what goes to a detached channel, nor, unless it asks for echoes, what the
-- user has said through it.
abbrev pub is_shown : Bool → Bool → ℕ → Client → Bool
is_shown detached ours origin dc = not (
    detached
    || (ours && (nat_eq dc.id origin && not (Caps.is_enabled dc.caps (codes "echo-message")))))

module _ (uc : UpstreamConn) (detached blocked : Bool) (from : Prefix) (msg : Message)
    (origin : ℕ) where
  all-once :
      (l : List Client)
      → map addressee (produce_all uc detached blocked from msg origin l)
        ≡ map (λ (dc : Client). some dc.id) (seeing blocked l)
  unfolding produce_all
  all-once [] = refl
  all-once (dc ∷ l) = ground (arith, all-once l)

  all-content :
      (l : List Client)
      → map content (produce_all uc detached blocked from msg origin l)
        ≡ map (λ (dc : Client). some (from, msg)) (seeing blocked l)
  unfolding produce_all
  all-content [] = refl
  all-content (dc ∷ l) = ground (arith, all-content l)

  one-shown :
      (dc : Client)
      → (not detached
          && (not (nat_eq dc.id origin && is_our_nick uc from.name)
              || Caps.is_enabled dc.caps (codes "echo-message")))
        ≡ is_shown detached (is_our_nick uc from.name) origin dc
  one-shown dc = by_cases detached (nat_eq dc.id origin) (is_our_nick uc from.name) _
    where
      by_cases : (d o n e : Bool) → (not d && (not (o && n) || e)) ≡ not (d || (n && (o && not e)))
      by_cases true o n e = refl
      by_cases false true true true = refl
      by_cases false true true false = refl
      by_cases false true false e = refl
      by_cases false false true e = refl
      by_cases false false false e = refl

  all-shown :
      (l : List Client)
      → map is_sent (produce_all uc detached blocked from msg origin l)
        ≡ map (is_shown detached (is_our_nick uc from.name) origin) (seeing blocked l)
  unfolding produce_all
  all-shown [] = refl
  all-shown (dc ∷ l) = elim (Bool-cases (blocked && not dc.sees_blocked)) [
    | inl hidden ↦ rw (hidden, produce_all) (all-shown l)
    | inr visible ↦
        rw (visible, produce_all, ← one-shown dc)
          (shown_first
            (not detached
              && (not (nat_eq dc.id origin && is_our_nick uc from.name)
                  || Caps.is_enabled dc.caps (codes "echo-message")))
            (all-shown l))
  ]
    where
      shown_first :
          (b : Bool)
          → map is_sent (produce_all uc detached blocked from msg origin l)
            ≡ map (is_shown detached (is_our_nick uc from.name) origin) (seeing blocked l)
          → map is_sent (
              (if b then sent dc.id from msg ∷ [] else advanced dc.id from msg ∷ [])
              ++ produce_all uc detached blocked from msg origin l)
            ≡ b ∷ map (is_shown detached (is_our_nick uc from.name) origin) (seeing blocked l)
      shown_first true h = ap (◌∷◌ true) h
      shown_first false h = ap (◌∷◌ false) h

-- What a message that is produced adds to the outputs, after it was stored.
pub record Delivery (net : Network) (blocked : Bool) (uc logged uc' : UpstreamConn) (target : Str)
    (from : Prefix) (msg : Message) (origin : ℕ) : Type 0 where
  pub outputs : List Output
  pub added : uc'.out ≡ logged.out ++ outputs
  pub once : map addressee outputs ≡ map (λ (dc : Client). some dc.id) (seeing blocked net.clients)
  pub same :
      map content outputs ≡ map (λ (dc : Client). some (from, msg)) (seeing blocked net.clients)
  pub shown :
      map is_sent outputs
      ≡ map
          (is_shown (is_detached uc target) (is_our_nick uc from.name) origin)
          (seeing blocked net.clients)

append_log-saved :
    (net : Network) (uc : UpstreamConn) (entity : Str) (from : Prefix) (msg : Message)
    → (append_log net uc entity from msg).saved ≡ uc.saved
unfolding append_log
append_log-saved net uc entity from msg =
    elim (Option-cases (net.last_msg_id (uc.casemap entity))) [
      | inl gone ↦ rw gone (ground arith)
      | inr (id, found) ↦ rw found (ground arith)
    ]

-- A message that is produced for a target reaches each client that may see its sender once, as it is,
-- and no other, in the order of the clients. It is sent to a client if the channel is not detached
-- and it is not our own message that comes from this client, unless the client asks for echoes; else
-- it is only counted as read.
pub produce-Delivery :
    (net : Network) (blocked : Bool) (uc : UpstreamConn) (target : Str) (from : Prefix)
    (msg : Message) (origin : ℕ)
    → is_empty target ≡ false
    → Delivery net blocked uc
        (append_log net uc target from msg)
        (produce net blocked uc target from msg origin)
        target
        from
        msg
        origin
unfolding produce is_detached is_our_nick
produce-Delivery net blocked uc target from msg origin named =
    let uc1 = append_log net uc target from msg in
    let same = append_log-Same net uc target from msg in
    let saved = append_log-saved net uc target from msg in
    let detached = is_detached uc1 target in
    rw named (record {
      outputs = produce_all uc1 detached blocked from msg origin net.clients;
      added = refl;
      once = all-once uc1 detached blocked from msg origin net.clients;
      same = all-content uc1 detached blocked from msg origin net.clients;
      shown =
          all-shown uc1 detached blocked from msg origin net.clients
          ∙ rw (saved, same.nick, same.casemap) refl;
    })
