-- ===== src/Downstream/Send/Label.antt =====
-- downstream.go, handleMessage: the answer to a command with a label, and to ISUPPORT.
use soju_bouncer.Prelude.{
  ◌≡◌, refl, sym, ap, ◌∙◌, inl, inr, Bool, true, false, ◌&&◌, not, none, some, List, [], ◌∷◌, ◌++◌,
  Bool-cases, if◌then◌else◌, ◌==◌, Str, str_Eq, codes, is_empty, lookup,
}
use mathlib.Core.List.{append-nil}
use soju_bouncer.Irc.{Message, Prefix}
use soju_bouncer.Xirc.Caps
use soju_bouncer.Upstream.Labels.{format_uint}
use soju_bouncer.Downstream.Send.{
  Outgoing, DownstreamConn, Step, sends, takes_label, run_all, run_step, flush_batch,
}
use soju_bouncer.Downstream.Send.Answer.{let_through, second_ref, keeps_label, answer, labeled}
use soju_bouncer.Downstream.Send.Runs.{answered, answered-answer, answered-plain}
use soju_bouncer.Downstream.Send.Handled.{
  Handler, Outcome, done, failed, irc_error, handle_message, with_outcome, is_closed_by, context_of,
}

-- The error that the client is told of.
abbrev told : Prefix → Outcome → List Step
told from done = []
told from failed = []
told from (irc_error msg) = sends (record { from = some from; msg = msg }) ∷ []

-- What happens to the connection for a command: what its handler does, and that the error is sent.
abbrev pub all_steps : Prefix → Message → Handler → List Step
all_steps from msg h =
    if msg.command == codes "ISUPPORT" then h.isupport else h.steps ++ told from h.outcome

-- Steps before which the label is taken away, or not.
abbrev pub steps_from : Bool → List Step → List Step
steps_from taken l = if taken then takes_label ∷ l else l

-- What the client gets for a command with a label: one answer, or, if the label was taken away for
-- the server to answer or since there are several targets, the messages as they are.
abbrev pub reply : DownstreamConn → Str → Bool → List Step → List Outgoing
reply dc label taken l =
    let through = let_through dc.caps dc.server_prefix l in
    if taken
    then through
    else answer (format_uint (second_ref dc.caps dc.server_prefix dc.last_batch_ref false l)) label
        through

abbrev is_failed : Outcome → Bool
is_failed failed = true
is_failed _ = false

-- Whether the connection is closed for the command.
abbrev pub fails : DownstreamConn → Message → Handler → Bool
fails dc msg h =
    if msg.command == codes "ISUPPORT"
    then not (Caps.is_enabled dc.caps (codes "draft/extended-isupport"))
    else is_failed h.outcome

run_all-append :
    (dc : DownstreamConn) (l l' : List Step) → run_all (run_all dc l) l' ≡ run_all dc (l ++ l')
run_all-append dc [] l' = refl
run_all-append dc (step ∷ l) l' = run_all-append (run_step dc step) l l'

-- The steps of a handler, and then the flush.
flushed :
    (dc : DownstreamConn) (label : Str) (taken : Bool) (l all : List Step)
    → is_empty label ≡ false
    → keeps_label l ≡ true
    → all ≡ steps_from taken l
    → answered (labeled dc label [] none) all ≡ dc.sent ++ reply dc label taken l
unfolding run_step
flushed dc label true l all named k e =
    ap (answered (labeled dc label [] none)) e ∙ answered-plain dc l
flushed dc label false l all named k e =
    ap (answered (labeled dc label [] none)) e ∙ answered-answer dc label l named k

with_outcome-answered :
    (dc dc' : DownstreamConn) (l : List Step) (outcome : Outcome)
    → is_failed outcome ≡ false
    → (with_outcome dc.server_prefix (run_all dc' l) outcome).0.sent
      ≡ answered dc' (l ++ told dc.server_prefix outcome)
unfolding flush_batch run_step
with_outcome-answered dc dc' l done ends = ap (answered dc') (sym (append-nil l))
with_outcome-answered dc dc' l failed ends = cc
with_outcome-answered dc dc' l (irc_error msg) ends =
    ap (λ c. (flush_batch c).sent) (run_all-append dc' l (told dc.server_prefix (irc_error msg)))

-- A command other than QUIT with a label that is not empty, of a client with labeled-response, which
-- does not close the connection, is answered by an ACK, by one message with the label, or by one
-- batch with the label and the first reference that is not in use when it starts. The answer holds
-- what the client's capabilities, as they are at that time, let through of what the handler sends and
-- of the error that it ends in, all of it and in order. This is for a handler that leaves the label
-- in place; one that takes it away before it does anything else answers with the same messages as
-- they are, without a label.
pub handle_message-answer :
    (dc : DownstreamConn) (msg : Message) (h : Handler) (label : Str) (taken : Bool) (l : List Step)
    → lookup (codes "label") msg.tags ≡ some label
    → is_empty label ≡ false
    → Caps.is_enabled dc.caps (codes "labeled-response") ≡ true
    → (msg.command == codes "QUIT") ≡ false
    → fails dc msg h ≡ false
    → all_steps dc.server_prefix msg h ≡ steps_from taken l
    → keeps_label l ≡ true
    → (handle_message dc msg h).0.sent ≡ dc.sent ++ reply dc label taken l
unfolding handle_message
handle_message-answer dc msg h label taken l has named enabled stays ends all k =
    elim (Bool-cases (msg.command == codes "ISUPPORT")) [
      | inl isupport ↦
          rw (handle_message, stays, isupport, rw isupport at ends, has, enabled)
            (flushed dc label taken l h.isupport named k (rw isupport at all))
      | inr other ↦
          rw (handle_message, stays, other, has, enabled)
            (with_outcome-answered dc (labeled dc label [] none) h.steps h.outcome
                (rw other at ends)
              ∙ flushed dc label taken l (h.steps ++ told dc.server_prefix h.outcome) named k
                  (rw other at all))
    ]

closed_by-outcome :
    (from : Prefix) (dc : DownstreamConn) (outcome : Outcome)
    → is_closed_by (with_outcome from dc outcome).1 ≡ is_failed outcome
unfolding is_closed_by
closed_by-outcome from dc done = refl
closed_by-outcome from dc failed = refl
closed_by-outcome from dc (irc_error msg) = refl

-- A command closes the connection where its handler fails by another error than those that are told
-- to the client, and, where it is ISUPPORT, just for a client without draft/extended-isupport; QUIT
-- is no error.
pub handle_message-fails :
    (dc : DownstreamConn) (msg : Message) (h : Handler)
    → is_closed_by (handle_message dc msg h).1
      ≡ (not (msg.command == codes "QUIT") && fails dc msg h)
unfolding handle_message is_closed_by
handle_message-fails dc msg h = elim (Bool-cases (msg.command == codes "QUIT")) [
  | inl quit ↦ rw (handle_message, quit) refl
  | inr stays ↦ elim (Bool-cases (msg.command == codes "ISUPPORT")) [
    | inl isupport ↦ elim (Bool-cases (Caps.is_enabled dc.caps (codes "draft/extended-isupport"))) [
      | inl enabled ↦ rw (handle_message, stays, isupport, enabled) refl
      | inr absent ↦ rw (handle_message, stays, isupport, absent) refl
    ]
    | inr other ↦
        rw (handle_message, stays, other)
          (closed_by-outcome dc.server_prefix
            (run_all (record dc { context = context_of dc.caps (lookup (codes "label") msg.tags) })
              h.steps)
            h.outcome)
  ]
]
