-- ===== src/Upstream/Produce/Keeps.antt =====
-- What the operations of upstream.go leave alone: storing and sending messages, and forgetting users,
-- change no channel.
use soju_bouncer.Prelude.{
  ℕ, ◌≡◌, refl, inl, inr, Bool, List, Bool-cases, Str, str_Eq, arith, ◌∙◌, is_empty, Option-cases,
}
use soju_bouncer.Irc.{Message, Prefix}
use soju_bouncer.Upstream.State.{UpstreamConn, Network, emit, Output}
use soju_bouncer.Upstream.Produce.{append_log, produce, forward_message, forward_msg_by_id}

-- All that is tracked is the same: the channels, the users, our nickname, what is watched, and the
-- case mapping.
pub record Same (uc uc' : UpstreamConn) : Type 0 where
  pub channels : uc'.channels ≡ uc.channels
  pub users : uc'.users ≡ uc.users
  pub nick : uc'.nick ≡ uc.nick
  pub monitored : uc'.monitored ≡ uc.monitored
  pub casemap : uc'.casemap ≡ uc.casemap

pub Same-refl : (uc : UpstreamConn) → Same uc uc
Same-refl uc = record {
  channels = refl;
  users = refl;
  nick = refl;
  monitored = refl;
  casemap = refl;
}

pub Same-trans : {a b c : UpstreamConn} → Same a b → Same b c → Same a c
Same-trans h k = record {
  channels = k.channels ∙ h.channels;
  users = k.users ∙ h.users;
  nick = k.nick ∙ h.nick;
  monitored = k.monitored ∙ h.monitored;
  casemap = k.casemap ∙ h.casemap;
}

-- The outputs do not count.
pub emit-Same : {uc uc' : UpstreamConn} (o : List Output) → Same uc uc' → Same uc (emit uc' o)
emit-Same o h = record {
  channels = h.channels;
  users = h.users;
  nick = h.nick;
  monitored = h.monitored;
  casemap = h.casemap;
}

pub append_log-Same :
    (net : Network) (uc : UpstreamConn) (entity : Str) (from : Prefix) (msg : Message)
    → Same uc (append_log net uc entity from msg)
unfolding append_log
append_log-Same net uc entity from msg = elim (Option-cases (net.last_msg_id (uc.casemap entity))) [
  | inl gone ↦ rw gone (ground arith)
  | inr (id, found) ↦ rw found (ground arith)
]

pub produce-Same :
    (net : Network) (blocked : Bool) (uc : UpstreamConn) (target : Str) (from : Prefix)
    (msg : Message) (origin_id : ℕ)
    → Same uc (produce net blocked uc target from msg origin_id)
unfolding produce
produce-Same net blocked uc target from msg origin_id = elim (Bool-cases (is_empty target)) [
  | inl no_target ↦ rw no_target (emit-Same _ (Same-refl uc))
  | inr stored ↦ rw stored (emit-Same _ (append_log-Same net uc target from msg))
]

pub forward_message-Same :
    (net : Network) (uc : UpstreamConn) (from : Prefix) (msg : Message)
    → Same uc (forward_message net uc from msg)
unfolding forward_message forward_msg_by_id
forward_message-Same net uc from msg = emit-Same _ (Same-refl uc)
