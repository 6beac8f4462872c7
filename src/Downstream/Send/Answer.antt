-- ===== src/Downstream/Send/Answer.antt =====
-- downstream.go: how a command with a label is answered.
use soju_bouncer.Prelude.{
  ℕ, zero, suc, ◌+◌, ◌/◌, ◌≡◌, refl, ap, ◌∙◌, inl, inr, Bool, true, false, if◌then◌else◌, Option,
  none, some, List, [], ◌∷◌, ◌++◌, map, Bool-cases, ltb, Str, str_Eq, is_empty, arith,
}
use soju_bouncer.Irc.{Prefix}
use soju_bouncer.Xirc.Caps
use soju_bouncer.Xirc.Caps.{CapRegistry}
use soju_bouncer.Upstream.Labels.{digits_from, format_uint}
use soju_bouncer.Downstream.Send.{
  Outgoing, DownstreamConn, prepare, in_batch, batch_start, batch_end, ack, with_label,
  next_batch_ref, Step, sends, takes_label, takes_batch_ref, sets_cap, send_message, flush_batch,
  write, send_or_keep, open_batch,
}

-- The messages that the client's capabilities let through, as they are at each step.
abbrev pub let_through : CapRegistry → Prefix → List Step → List Outgoing
let_through cr from [] = []
let_through cr from (sends out ∷ l) = elim (prepare cr from out) [
  | none ↦ let_through cr from l
  | some out' ↦ out' ∷ let_through cr from l
]
let_through cr from (takes_label ∷ l) = let_through cr from l
let_through cr from (takes_batch_ref ∷ l) = let_through cr from l
let_through cr from (sets_cap name on ∷ l) = let_through (Caps.set_enabled cr name on) from l

-- The first reference that is not in use yet when the second message is let through, where the last
-- one that was taken is given, and whether there was a first message.
abbrev pub second_ref : CapRegistry → Prefix → ℕ → Bool → List Step → ℕ
second_ref cr from n kept [] = next_batch_ref n
second_ref cr from n kept (sends out ∷ l) = elim (prepare cr from out) [
  | none ↦ second_ref cr from n kept l
  | some out' ↦ if kept then next_batch_ref n else second_ref cr from n true l
]
second_ref cr from n kept (takes_label ∷ l) = second_ref cr from n kept l
second_ref cr from n kept (takes_batch_ref ∷ l) = second_ref cr from (next_batch_ref n) kept l
second_ref cr from n kept (sets_cap name on ∷ l) =
    second_ref (Caps.set_enabled cr name on) from n kept l

abbrev pub keeps_label : List Step → Bool
keeps_label [] = true
keeps_label (sends out ∷ l) = keeps_label l
keeps_label (takes_label ∷ l) = false
keeps_label (takes_batch_ref ∷ l) = keeps_label l
keeps_label (sets_cap name on ∷ l) = keeps_label l

-- One answer: an ACK, the only message with the label, or a batch with the label.
abbrev pub answer : Str → Str → List Outgoing → List Outgoing
answer ref label [] = ack label ∷ []
answer ref label (out ∷ []) = with_label label out ∷ []
answer ref label (out ∷ out' ∷ l) =
    (batch_start label ref ∷ map (in_batch ref) (out ∷ out' ∷ l)) ++ batch_end ref ∷ []

digits_from-filled : (fuel n c : ℕ) (acc : Str) → is_empty (digits_from fuel n (c ∷ acc)) ≡ false
unfolding digits_from
digits_from-filled zero n c acc = refl
digits_from-filled (suc fuel) n c acc = elim (Bool-cases (ltb n 10)) [
  | inl small ↦ rw (digits_from, small) refl
  | inr more ↦ rw (digits_from, more) (digits_from-filled fuel (n / 10) _ (c ∷ acc))
]

digits_from-one : (fuel n : ℕ) → is_empty (digits_from (suc fuel) n []) ≡ false
unfolding digits_from
digits_from-one fuel n = elim (Bool-cases (ltb n 10)) [
  | inl small ↦ rw (digits_from, small) refl
  | inr more ↦ rw (digits_from, more) (digits_from-filled fuel (n / 10) _ [])
]

pub format_uint-filled : (n : ℕ) → is_empty (format_uint n) ≡ false
unfolding format_uint
format_uint-filled n =
    let next : n + 1 ≡ suc n = omega arith in
    ap (λ f. is_empty (digits_from f n [])) next ∙ digits_from-one n n

pub let_through-none :
    (cr : CapRegistry) (from : Prefix) (out : Outgoing) (l : List Step)
    → prepare cr from out ≡ none
    → let_through cr from (sends out ∷ l) ≡ let_through cr from l
let_through-none cr from out l e = rw (let_through, e) refl

pub let_through-some :
    (cr : CapRegistry) (from : Prefix) (out out' : Outgoing) (l : List Step)
    → prepare cr from out ≡ some out'
    → let_through cr from (sends out ∷ l) ≡ out' ∷ let_through cr from l
let_through-some cr from out out' l e = rw (let_through, e) refl

pub second_ref-none :
    (cr : CapRegistry) (from : Prefix) (n : ℕ) (kept : Bool) (out : Outgoing) (l : List Step)
    → prepare cr from out ≡ none
    → second_ref cr from n kept (sends out ∷ l) ≡ second_ref cr from n kept l
second_ref-none cr from n kept out l e = rw (second_ref, e) refl

pub second_ref-some :
    (cr : CapRegistry) (from : Prefix) (n : ℕ) (kept : Bool) (out out' : Outgoing) (l : List Step)
    → prepare cr from out ≡ some out'
    → second_ref cr from n kept (sends out ∷ l)
      ≡ (if kept then next_batch_ref n else second_ref cr from n true l)
second_ref-some cr from n kept out out' l e = rw (second_ref, e) refl

-- A connection whose context is one with a label, a batch and a message that is kept back.
abbrev pub labeled : DownstreamConn → Str → Str → Option Outgoing → DownstreamConn
labeled dc label batch pending_msg = record dc {
  context = some (record { label = label; batch = batch; pending_msg = pending_msg });
}

module _ (dc : DownstreamConn) (label : Str) (named : is_empty label ≡ false) where
  pub send_message-held :
      (batch : Str) (pending_msg : Option Outgoing) (out : Outgoing)
      → prepare dc.caps dc.server_prefix out ≡ none
      → send_message (labeled dc label batch pending_msg) out ≡ labeled dc label batch pending_msg
  unfolding send_message
  send_message-held batch pending_msg out e = rw e refl

  pub send_message-first :
      (out out' : Outgoing)
      → prepare dc.caps dc.server_prefix out ≡ some out'
      → send_message (labeled dc label [] none) out ≡ labeled dc label [] (some out')
  unfolding send_message send_or_keep
  send_message-first out out' e = rw (e, named) refl

  pub send_message-batched :
      (ref : Str) (out out' : Outgoing)
      → is_empty ref ≡ false
      → prepare dc.caps dc.server_prefix out ≡ some out'
      → send_message (labeled dc label ref none) out
        ≡ labeled (write dc (in_batch ref out')) label ref none
  unfolding send_message send_or_keep
  send_message-batched ref out out' filled e = rw (e, named, filled) refl

  pub send_message-second :
      (first out out' : Outgoing)
      → prepare dc.caps dc.server_prefix out ≡ some out'
      → let ref = format_uint (next_batch_ref dc.last_batch_ref) in
        send_message (labeled dc label [] (some first)) out
        ≡ labeled (write (open_batch dc label first) (in_batch ref out')) label ref none
  unfolding send_message send_or_keep
  send_message-second first out out' e =
      rw (e, named, format_uint-filled (next_batch_ref dc.last_batch_ref)) refl

  pub flush_batch-batched :
      (ref : Str)
      → is_empty ref ≡ false
      → (flush_batch (labeled dc label ref none)).sent ≡ dc.sent ++ batch_end ref ∷ []
  unfolding flush_batch
  flush_batch-batched ref filled = rw (named, filled) refl

  pub flush_batch-one :
      (out : Outgoing)
      → (flush_batch (labeled dc label [] (some out))).sent ≡ dc.sent ++ with_label label out ∷ []
  unfolding flush_batch
  flush_batch-one out = rw named refl

  pub flush_batch-none : (flush_batch (labeled dc label [] none)).sent ≡ dc.sent ++ ack label ∷ []
  unfolding flush_batch
  flush_batch-none = rw named refl
