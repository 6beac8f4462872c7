-- ===== src/Upstream/Pending/Queue.antt =====
-- The queue of pending commands of upstream.go: commands of a kind are sent one at a time, in the
-- order in which they came.
use soju_bouncer.Prelude.{
  ℕ, ◌≡◌, refl, sym, ap, ◌∙◌, Bool, true, false, none, some, List, [], ◌∷◌, ◌++◌, map, arith,
  if◌then◌else◌, ◌==◌, nat_Eq, Str, str_Eq, pair_Eq, eq_refl, All, All-append, insert, is_some,
  lookup-insert,
}
use mathlib.Core.List.{append_assoc, append-nil, map-append}
use soju_bouncer.Irc.{Message}
use soju_bouncer.Upstream.Pending.{
  is_single, queue, send_next_pending_command, is_supported, is_expired, enqueue_command,
  PendingCommand, Conn,
}

abbrev pub Sent : Type 0
Sent = ℕ × Str × Message

abbrev pub sent_of : Str → List Sent → List Sent
sent_of cmd [] = []
sent_of cmd ((id, label, msg) ∷ l) =
    if msg.command == cmd then (id, label, msg) ∷ sent_of cmd l else sent_of cmd l

-- The commands that wait behind the one in progress.
abbrev pub waiting : List PendingCommand → List Sent
waiting [] = []
waiting (p ∷ l) = map (λ (q : PendingCommand). (q.downstream_id, q.downstream_label, q.msg)) l

-- All commands of a kind that were asked for and not cancelled: those sent, and those that wait.
abbrev pub log : Conn → Str → List Sent
log uc cmd = sent_of cmd uc.sent ++ waiting (queue uc.pending_cmds cmd)

-- The first entry has been sent, the others have not, and all are of one kind.
abbrev pub IsQueue : Str → List PendingCommand → Type 0
IsQueue cmd [] = Unit
IsQueue cmd (p ∷ l) =
    (is_some p.sent_at ≡ true)
    × All (λ (q : PendingCommand). q.sent_at ≡ none) l
    × All (λ (q : PendingCommand). q.msg.command ≡ cmd) (p ∷ l)

pub queue-insert :
    (m : List (Str × List PendingCommand)) (cmd k : Str) (l : List PendingCommand)
    → queue (insert cmd l m) k ≡ (if cmd == k then l else queue m k)
queue-insert m cmd k l = ground (arith, lookup-insert cmd k l m)

sent_of-append :
    (cmd : Str) (a b : List Sent) → sent_of cmd (a ++ b) ≡ sent_of cmd a ++ sent_of cmd b
sent_of-append cmd [] b = refl
sent_of-append cmd ((id, label, msg) ∷ a) b = ground (arith, sent_of-append cmd a b)

abbrev pub entry : ℕ → Str → Message → PendingCommand
entry dc_id label msg = record {
  downstream_id = dc_id;
  downstream_label = label;
  msg = msg;
  sent_at = none;
}

enqueue-first :
    (uc : Conn) (dc_id : ℕ) (label : Str) (msg : Message) (now : ℕ)
    → is_supported msg.command ≡ true
    → queue uc.pending_cmds msg.command ≡ []
    → enqueue_command uc dc_id label msg now
      ≡ some (
          send_next_pending_command
            (record uc {
              pending_cmds = insert msg.command (entry dc_id label msg ∷ []) uc.pending_cmds;
            })
            msg.command
            now)
unfolding enqueue_command
enqueue-first uc dc_id label msg now s e = rw (e, s)

is_single-snoc :
    (p q : PendingCommand) (l : List PendingCommand) → is_single (p ∷ (l ++ q ∷ [])) ≡ false
is_single-snoc p q [] = refl
is_single-snoc p q (r ∷ l) = refl

enqueue-more :
    (uc : Conn) (dc_id : ℕ) (label : Str) (msg : Message) (now : ℕ) (p : PendingCommand)
    (l : List PendingCommand)
    → is_supported msg.command ≡ true
    → queue uc.pending_cmds msg.command ≡ p ∷ l
    → is_expired now (p ∷ l) ≡ false
    → enqueue_command uc dc_id label msg now
      ≡ some (record uc {
        pending_cmds = insert msg.command (p ∷ (l ++ entry dc_id label msg ∷ [])) uc.pending_cmds;
      })
unfolding enqueue_command
enqueue-more uc dc_id label msg now p l s e x =
    rw (e, x, is_single-snoc p (entry dc_id label msg) l, s)

-- What an operation on one kind of command leaves alone.
abbrev pub SameOthers : Str → Conn → Conn → Type 0
SameOthers cmd uc uc' =
    (k : Str)
    → (cmd == k) ≡ false
    → (queue uc'.pending_cmds k ≡ queue uc.pending_cmds k) × (log uc' k ≡ log uc k)

abbrev pub triple : PendingCommand → Sent
triple p = (p.downstream_id, p.downstream_label, p.msg)

pub send_nil :
    (uc : Conn) (cmd : Str) (now : ℕ)
    → queue uc.pending_cmds cmd ≡ []
    → send_next_pending_command uc cmd now ≡ uc
unfolding send_next_pending_command
send_nil uc cmd now e = rw e

sent_of-snoc :
    (k cmd : Str) (a : List Sent) (p : PendingCommand)
    → p.msg.command ≡ cmd
    → sent_of k (a ++ triple p ∷ [])
      ≡ (if cmd == k then sent_of k a ++ triple p ∷ [] else sent_of k a)
sent_of-snoc k cmd a p c =
    rw (sent_of-append k a (triple p ∷ []), ← c)
      (if_append (p.msg.command == k) (sent_of k a) (triple p))
  where
    if_append :
        (b : Bool) (x : List Sent) (y : Sent)
        → x ++ (if b then y ∷ [] else []) ≡ (if b then x ++ y ∷ [] else x)
    if_append true x y = refl
    if_append false x y = append-nil x

send_cons :
    (uc : Conn) (cmd : Str) (now : ℕ) (p : PendingCommand) (l : List PendingCommand)
    → queue uc.pending_cmds cmd ≡ p ∷ l
    → p.msg.command ≡ cmd
    → (k : Str)
    → (queue (send_next_pending_command uc cmd now).pending_cmds k
        ≡ (if cmd == k then record p { sent_at = some now } ∷ l else queue uc.pending_cmds k))
      × (sent_of k (send_next_pending_command uc cmd now).sent
          ≡ (if cmd == k then sent_of k uc.sent ++ triple p ∷ [] else sent_of k uc.sent))
unfolding send_next_pending_command
send_cons uc cmd now p l e c k = (
  rw e (queue-insert uc.pending_cmds cmd k (record p { sent_at = some now } ∷ l)),
  rw e (sent_of-snoc k cmd uc.sent p c),
)

-- The state after the queue of one kind is replaced, and its head sent.
pub replaced-sent :
    (uc : Conn) (cmd : Str) (now : ℕ) (p : PendingCommand) (l : List PendingCommand)
    → All (λ (q : PendingCommand). q.sent_at ≡ none) l
    → All (λ (q : PendingCommand). q.msg.command ≡ cmd) (p ∷ l)
    → let uc' =
        send_next_pending_command
          (record uc { pending_cmds = insert cmd (p ∷ l) uc.pending_cmds })
          cmd
          now in
      IsQueue cmd (queue uc'.pending_cmds cmd)
      × (log uc' cmd ≡ sent_of cmd uc.sent ++ triple p ∷ map triple l)
      × SameOthers cmd uc uc'
replaced-sent uc cmd now p l unsent kind =
    let uc1 : Conn = record uc { pending_cmds = insert cmd (p ∷ l) uc.pending_cmds } in
    let here : queue uc1.pending_cmds cmd ≡ p ∷ l =
      queue-insert uc.pending_cmds cmd cmd (p ∷ l) ∙ rw (eq_refl cmd) refl in
    let at = send_cons uc1 cmd now p l here kind.0 in
    let (q, s) = at cmd in
    (
      rw (q, eq_refl cmd) (refl, unsent, kind),
      rw (q, s, eq_refl cmd) (append_assoc (sent_of cmd uc.sent) (triple p ∷ []) (map triple l)),
      λ k ne.
          let (qk, sk) = at k in
          let old : queue uc1.pending_cmds k ≡ queue uc.pending_cmds k =
            queue-insert uc.pending_cmds cmd k (p ∷ l) ∙ rw ne refl in
          (rw (qk, ne) old, rw (qk, sk, ne, old)),
    )

enqueue_lem :
    (uc : Conn) (dc_id : ℕ) (label : Str) (msg : Message) (now : ℕ) (l : List PendingCommand)
    → queue uc.pending_cmds msg.command ≡ l
    → IsQueue msg.command l
    → is_supported msg.command ≡ true
    → is_expired now l ≡ false
    → (uc' : Conn) × (enqueue_command uc dc_id label msg now ≡ some uc')
      × IsQueue msg.command (queue uc'.pending_cmds msg.command)
      × (log uc' msg.command ≡ log uc msg.command ++ (dc_id, label, msg) ∷ [])
      × SameOthers msg.command uc uc'
enqueue_lem uc dc_id label msg now [] e q s x =
    let (keeps, logged, others) =
      replaced-sent uc msg.command now (entry dc_id label msg) [] tt (refl, tt) in
    (
      _,
      enqueue-first uc dc_id label msg now s e,
      keeps,
      rw e (logged ∙ ap (λ a. a ++ (dc_id, label, msg) ∷ []) (sym (append-nil _))),
      others,
    )
enqueue_lem uc dc_id label msg now (p ∷ l) e q s x =
    let added = p ∷ (l ++ entry dc_id label msg ∷ []) in
    let at = queue-insert uc.pending_cmds msg.command in
    (
      _,
      enqueue-more uc dc_id label msg now p l s e x,
      rw (at msg.command added, eq_refl msg.command)
          (
            q.0,
            All-append (λ (r : PendingCommand). r.sent_at ≡ none) l (entry dc_id label msg ∷ []) q.1
                (refl, tt),
            (
              q.2.0,
              All-append (λ (r : PendingCommand). r.msg.command ≡ msg.command) l
                  (entry dc_id label msg ∷ []) q.2.1 (refl, tt),
            ),
          ),
      rw (at msg.command added, eq_refl msg.command, e)
          (ap (λ a. sent_of msg.command uc.sent ++ a)
              (map-append triple l (entry dc_id label msg ∷ []))
            ∙ sym (append_assoc (sent_of msg.command uc.sent) (map triple l) _)),
      λ k ne. let old = at k added ∙ rw ne refl in (old, rw old),
    )

-- A supported command that is enqueued while the command in progress is not older than 30 seconds
-- stands behind all commands of its kind that were asked for, none of them lost, reordered or sent
-- twice; at once it is sent if none was in progress, and else it waits; the first of the queue is
-- sent and the others are not; and the other kinds of commands are left alone.
pub enqueue_command-IsQueue :
    (uc : Conn) (dc_id : ℕ) (label : Str) (msg : Message) (now : ℕ)
    → IsQueue msg.command (queue uc.pending_cmds msg.command)
    → is_supported msg.command ≡ true
    → is_expired now (queue uc.pending_cmds msg.command) ≡ false
    → (uc' : Conn) × (enqueue_command uc dc_id label msg now ≡ some uc')
      × IsQueue msg.command (queue uc'.pending_cmds msg.command)
      × (log uc' msg.command ≡ log uc msg.command ++ (dc_id, label, msg) ∷ [])
      × SameOthers msg.command uc uc'
enqueue_command-IsQueue uc dc_id label msg now q s x =
    enqueue_lem uc dc_id label msg now (queue uc.pending_cmds msg.command) refl q s x
