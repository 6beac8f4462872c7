-- ===== src/Downstream/Send/Runs.antt =====
-- downstream.go: the messages that a handler sends for a command with a label, one after the other.
use soju_bouncer.Prelude.{
  ℕ, ◌≡◌, refl, sym, ap, ◌∙◌, inl, inr, true, false, none, some, List, [], ◌∷◌, ◌++◌, map,
  Option-cases, Str, is_empty,
}
use mathlib.Core.List.{append_assoc, append-nil}
use soju_bouncer.Xirc.Caps
use soju_bouncer.Upstream.Labels.{format_uint}
use soju_bouncer.Downstream.Send.{
  Outgoing, DownstreamConn, prepare, in_batch, batch_start, batch_end, next_batch_ref, run_all,
  run_step, Step, sends, takes_label, takes_batch_ref, sets_cap, send_message, flush_batch, write,
  open_batch,
}
use soju_bouncer.Downstream.Send.Answer.{
  let_through, second_ref, keeps_label, answer, labeled, let_through-none, let_through-some,
  second_ref-none, second_ref-some, format_uint-filled, send_message-held, send_message-first,
  send_message-batched, send_message-second, flush_batch-batched, flush_batch-one, flush_batch-none,
}

abbrev pub answered : DownstreamConn → List Step → List Outgoing
answered dc l = (flush_batch (run_all dc l)).sent

-- Once there is a batch, every message is sent in it, and it ends.
answered-batched :
    (dc : DownstreamConn) (label ref : Str) (l : List Step)
    → is_empty label ≡ false
    → is_empty ref ≡ false
    → keeps_label l ≡ true
    → answered (labeled dc label ref none) l
      ≡ dc.sent
        ++ (map (in_batch ref) (let_through dc.caps dc.server_prefix l) ++ batch_end ref ∷ [])
unfolding run_step
answered-batched dc label ref [] named filled k = flush_batch-batched dc label named ref filled
answered-batched dc label ref (takes_label ∷ l) named filled k = cc
answered-batched dc label ref (takes_batch_ref ∷ l) named filled k =
    answered-batched (record dc { last_batch_ref = next_batch_ref dc.last_batch_ref }) label ref l
      named filled k
answered-batched dc label ref (sets_cap name on ∷ l) named filled k =
    answered-batched (record dc { caps = Caps.set_enabled dc.caps name on }) label ref l named
      filled k
answered-batched dc label ref (sends out ∷ l) named filled k =
    let all =
      λ (through : List Outgoing). dc.sent ++ (map (in_batch ref) through ++ batch_end ref ∷ []) in
    elim (Option-cases (prepare dc.caps dc.server_prefix out)) [
      | inl held ↦
          ap (λ c. answered c l) (send_message-held dc label named ref none out held)
          ∙ answered-batched dc label ref l named filled k
          ∙ ap all (sym (let_through-none dc.caps dc.server_prefix out l held))
      | inr (out', e) ↦
          ap (λ c. answered c l) (send_message-batched dc label named ref out out' filled e)
          ∙ answered-batched (write dc (in_batch ref out')) label ref l named filled k
          ∙ append_assoc dc.sent (in_batch ref out' ∷ []) _
          ∙ ap all (sym (let_through-some dc.caps dc.server_prefix out out' l e))
    ]

-- With a message kept back, there is a batch if another one follows.
answered-kept :
    (dc : DownstreamConn) (label : Str) (first : Outgoing) (l : List Step)
    → is_empty label ≡ false
    → keeps_label l ≡ true
    → answered (labeled dc label [] (some first)) l
      ≡ dc.sent
        ++ answer
            (format_uint (second_ref dc.caps dc.server_prefix dc.last_batch_ref true l))
            label
            (first ∷ let_through dc.caps dc.server_prefix l)
unfolding run_step
answered-kept dc label first [] named k = flush_batch-one dc label named first
answered-kept dc label first (takes_label ∷ l) named k = cc
answered-kept dc label first (takes_batch_ref ∷ l) named k =
    answered-kept (record dc { last_batch_ref = next_batch_ref dc.last_batch_ref }) label first l
      named k
answered-kept dc label first (sets_cap name on ∷ l) named k =
    answered-kept (record dc { caps = Caps.set_enabled dc.caps name on }) label first l named k
answered-kept dc label first (sends out ∷ l) named k =
    let ref = format_uint (next_batch_ref dc.last_batch_ref) in
    let all = λ (n : ℕ) (through : List Outgoing).
      dc.sent ++ answer (format_uint n) label (first ∷ through) in
    elim (Option-cases (prepare dc.caps dc.server_prefix out)) [
      | inl held ↦
          ap (λ c. answered c l) (send_message-held dc label named [] (some first) out held)
          ∙ answered-kept dc label first l named k
          ∙ ap (all (second_ref dc.caps dc.server_prefix dc.last_batch_ref true l))
              (sym (let_through-none dc.caps dc.server_prefix out l held))
          ∙ ap (λ n. all n (let_through dc.caps dc.server_prefix (sends out ∷ l)))
              (sym (second_ref-none dc.caps dc.server_prefix dc.last_batch_ref true out l held))
      | inr (out', e) ↦
          ap (λ c. answered c l) (send_message-second dc label named first out out' e)
          ∙ answered-batched (write (open_batch dc label first) (in_batch ref out')) label ref l
              named (format_uint-filled (next_batch_ref dc.last_batch_ref)) k
          ∙ append_assoc (dc.sent ++ batch_start label ref ∷ [] ++ in_batch ref first ∷ [])
              (in_batch ref out' ∷ []) _
          ∙ append_assoc (dc.sent ++ batch_start label ref ∷ []) (in_batch ref first ∷ []) _
          ∙ append_assoc dc.sent (batch_start label ref ∷ []) _
          ∙ ap (all (next_batch_ref dc.last_batch_ref))
              (sym (let_through-some dc.caps dc.server_prefix out out' l e))
          ∙ ap (λ n. all n (let_through dc.caps dc.server_prefix (sends out ∷ l)))
              (sym (second_ref-some dc.caps dc.server_prefix dc.last_batch_ref true out out' l e))
    ]

pub answered-answer :
    (dc : DownstreamConn) (label : Str) (l : List Step)
    → is_empty label ≡ false
    → keeps_label l ≡ true
    → answered (labeled dc label [] none) l
      ≡ dc.sent
        ++ answer
            (format_uint (second_ref dc.caps dc.server_prefix dc.last_batch_ref false l))
            label
            (let_through dc.caps dc.server_prefix l)
unfolding run_step
answered-answer dc label [] named k = flush_batch-none dc label named
answered-answer dc label (takes_label ∷ l) named k = cc
answered-answer dc label (takes_batch_ref ∷ l) named k =
    answered-answer (record dc { last_batch_ref = next_batch_ref dc.last_batch_ref }) label l named
      k
answered-answer dc label (sets_cap name on ∷ l) named k =
    answered-answer (record dc { caps = Caps.set_enabled dc.caps name on }) label l named k
answered-answer dc label (sends out ∷ l) named k =
    let all =
      λ (n : ℕ) (through : List Outgoing). dc.sent ++ answer (format_uint n) label through in
    elim (Option-cases (prepare dc.caps dc.server_prefix out)) [
      | inl held ↦
          ap (λ c. answered c l) (send_message-held dc label named [] none out held)
          ∙ answered-answer dc label l named k
          ∙ ap (all (second_ref dc.caps dc.server_prefix dc.last_batch_ref false l))
              (sym (let_through-none dc.caps dc.server_prefix out l held))
          ∙ ap (λ n. all n (let_through dc.caps dc.server_prefix (sends out ∷ l)))
              (sym (second_ref-none dc.caps dc.server_prefix dc.last_batch_ref false out l held))
      | inr (out', e) ↦
          ap (λ c. answered c l) (send_message-first dc label named out out' e)
          ∙ answered-kept dc label out' l named k
          ∙ ap (all (second_ref dc.caps dc.server_prefix dc.last_batch_ref true l))
              (sym (let_through-some dc.caps dc.server_prefix out out' l e))
          ∙ ap (λ n. all n (let_through dc.caps dc.server_prefix (sends out ∷ l)))
              (sym (second_ref-some dc.caps dc.server_prefix dc.last_batch_ref false out out' l e))
    ]

-- A connection whose label was taken away before anything was kept.
abbrev pub unlabeled : DownstreamConn → DownstreamConn
unlabeled dc = labeled dc [] [] none

send_message-plain :
    (dc : DownstreamConn) (out out' : Outgoing)
    → prepare dc.caps dc.server_prefix out ≡ some out'
    → send_message (unlabeled dc) out ≡ unlabeled (write dc out')
unfolding send_message
send_message-plain dc out out' e = rw e refl

send_message-not :
    (dc : DownstreamConn) (out : Outgoing)
    → prepare dc.caps dc.server_prefix out ≡ none
    → send_message (unlabeled dc) out ≡ unlabeled dc
unfolding send_message
send_message-not dc out e = rw e refl

-- Without the label, the messages are sent as they are, and there is no other answer.
pub answered-plain :
    (dc : DownstreamConn) (l : List Step)
    → answered (unlabeled dc) l ≡ dc.sent ++ let_through dc.caps dc.server_prefix l
unfolding run_step flush_batch
answered-plain dc [] = sym (append-nil dc.sent)
answered-plain dc (takes_label ∷ l) = answered-plain dc l
answered-plain dc (takes_batch_ref ∷ l) =
    answered-plain (record dc { last_batch_ref = next_batch_ref dc.last_batch_ref }) l
answered-plain dc (sets_cap name on ∷ l) =
    answered-plain (record dc { caps = Caps.set_enabled dc.caps name on }) l
answered-plain dc (sends out ∷ l) = elim (Option-cases (prepare dc.caps dc.server_prefix out)) [
  | inl held ↦
      ap (λ c. answered c l) (send_message-not dc out held)
      ∙ answered-plain dc l
      ∙ ap (λ through. dc.sent ++ through)
          (sym (let_through-none dc.caps dc.server_prefix out l held))
  | inr (out', e) ↦
      ap (λ c. answered c l) (send_message-plain dc out out' e)
      ∙ answered-plain (write dc out') l
      ∙ append_assoc dc.sent (out' ∷ []) _
      ∙ ap (λ through. dc.sent ++ through)
          (sym (let_through-some dc.caps dc.server_prefix out out' l e))
]
