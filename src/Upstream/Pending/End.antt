-- ===== src/Upstream/Pending/End.antt =====
-- The ends of pending commands in upstream.go: a reply, a client that leaves, and a command that has
-- taken too long.
use soju_bouncer.Prelude.{
  ℕ, ◌≡◌, refl, ap, ◌∙◌, inl, inr, true, false, none, some, List, [], ◌∷◌, ◌++◌, map, arith, nat_eq,
  if◌then◌else◌, Bool-cases, nat_Eq, Str, str_Eq, pair_Eq, eq_refl, All, lookup, insert,
}
use soju_bouncer.Irc.{Message}
use soju_bouncer.Upstream.Pending.{
  queue, downstream_by_id, send_next_pending_command, is_supported, is_expired, copy_down,
  is_single, enqueue_command, head_of, current_pending_command, dequeue_command, without, cancel_in,
  cancel_all, cancel_pending_commands_by_downstream_id, PendingCommand, Conn,
}
use soju_bouncer.Upstream.Pending.Queue.{
  Sent, waiting, log, IsQueue, queue-insert, entry, SameOthers, triple, send_nil, replaced-sent,
}

dequeue_cons :
    (uc : Conn) (cmd : Str) (now : ℕ) (p : PendingCommand) (l : List PendingCommand)
    → queue uc.pending_cmds cmd ≡ p ∷ l
    → dequeue_command uc cmd now ≡ (
      send_next_pending_command (record uc { pending_cmds = insert cmd l uc.pending_cmds }) cmd now,
      (downstream_by_id uc.downstreams p.downstream_id, some p.msg),
    )
unfolding dequeue_command
dequeue_cons uc cmd now p l e = rw e

-- What a dequeued command leaves: the next command in progress, and the log as it was.
abbrev pub Advances : Conn → Str → Conn → Type 0
Advances uc cmd uc' =
    IsQueue cmd (queue uc'.pending_cmds cmd) × (log uc' cmd ≡ log uc cmd) × SameOthers cmd uc uc'

emptied :
    (uc : Conn) (cmd : Str) (now : ℕ) (p : PendingCommand)
    → queue uc.pending_cmds cmd ≡ p ∷ []
    → Advances uc cmd (
        send_next_pending_command
          (record uc { pending_cmds = insert cmd [] uc.pending_cmds })
          cmd
          now)
emptied uc cmd now p e =
    let uc1 : Conn = record uc { pending_cmds = insert cmd [] uc.pending_cmds } in
    let at = queue-insert uc.pending_cmds cmd in
    let here : queue uc1.pending_cmds cmd ≡ [] = at cmd [] ∙ rw (eq_refl cmd) refl in
    rw (send_nil uc1 cmd now here)
      (rw here tt, rw (here, e), λ k ne. let old = at k [] ∙ rw ne refl in (old, rw old))

-- The end of the command in progress gives it back with its client, if that is still there; the
-- next command that waits is sent, if there is one; no command is lost, reordered or sent twice; and
-- the other kinds of commands are left alone.
pub dequeue_command-IsQueue :
    (uc : Conn) (cmd : Str) (now : ℕ) (p : PendingCommand) (l : List PendingCommand)
    → queue uc.pending_cmds cmd ≡ p ∷ l
    → IsQueue cmd (p ∷ l)
    → ((dequeue_command uc cmd now).1
        ≡ (downstream_by_id uc.downstreams p.downstream_id, some p.msg))
      × Advances uc cmd (dequeue_command uc cmd now).0
dequeue_command-IsQueue uc cmd now p [] e q =
    rw (dequeue_cons uc cmd now p [] e) (refl, emptied uc cmd now p e)
dequeue_command-IsQueue uc cmd now p (r ∷ l) e q =
    let (keeps, logged, others) = replaced-sent uc cmd now r l q.1.1 q.2.1 in
    rw (dequeue_cons uc cmd now p (r ∷ l) e) (refl, (keeps, rw e logged, others))

-- The commands that wait, without those of a client.
abbrev pub others_of : ℕ → List Sent → List Sent
others_of id [] = []
others_of id ((d, label, msg) ∷ l) =
    if nat_eq d id then others_of id l else (d, label, msg) ∷ others_of id l

queue-cancel_all :
    (id : ℕ) (cmd : Str) (m : List (Str × List PendingCommand))
    → queue (cancel_all id m) cmd ≡ cancel_in id (queue m cmd)
unfolding lookup
queue-cancel_all id cmd [] = refl
queue-cancel_all id cmd ((k, l) ∷ m) = ground (arith, queue-cancel_all id cmd m)

without-others :
    (id : ℕ) (l : List PendingCommand) → map triple (without id l) ≡ others_of id (map triple l)
without-others id [] = refl
without-others id (p ∷ l) = ground (arith, without-others id l)

without-All :
    (P : PendingCommand → Type 0) (id : ℕ) (l : List PendingCommand)
    → All P l
    → All P (without id l)
without-All P id [] h = tt
without-All P id (p ∷ l) h = elim (Bool-cases (nat_eq p.downstream_id id)) [
  | inl gone ↦ rw gone (without-All P id l h.1)
  | inr stays ↦ rw stays (h.0, without-All P id l h.1)
]

cancel_in-IsQueue :
    (id : ℕ) (cmd : Str) (l : List PendingCommand) → IsQueue cmd l → IsQueue cmd (cancel_in id l)
cancel_in-IsQueue id cmd [] q = q
cancel_in-IsQueue id cmd (p ∷ l) q =
    (q.0, without-All _ id l q.1, (q.2.0, without-All _ id l q.2.1))

waiting-cancel_in :
    (id : ℕ) (l : List PendingCommand) → waiting (cancel_in id l) ≡ others_of id (waiting l)
waiting-cancel_in id [] = refl
waiting-cancel_in id (p ∷ l) = without-others id l

-- Cancelling a client's commands takes exactly its commands out of those that wait, of every kind;
-- nothing is sent, the commands in progress go on, and every queue keeps its first entry alone sent.
pub cancel-IsQueue :
    (uc : Conn) (id : ℕ) (cmd : Str)
    → IsQueue cmd (queue uc.pending_cmds cmd)
    → let uc' = cancel_pending_commands_by_downstream_id uc id in
      IsQueue cmd (queue uc'.pending_cmds cmd)
      × (waiting (queue uc'.pending_cmds cmd) ≡ others_of id (waiting (queue uc.pending_cmds cmd)))
      × (uc'.sent ≡ uc.sent)
      × ((current_pending_command uc' cmd) ≡ (current_pending_command uc cmd))
unfolding cancel_pending_commands_by_downstream_id current_pending_command
cancel-IsQueue uc id cmd q = rw (queue-cancel_all id cmd uc.pending_cmds) (
  cancel_in-IsQueue id cmd _ q,
  waiting-cancel_in id (queue uc.pending_cmds cmd),
  refl,
  head_kept (queue uc.pending_cmds cmd),
)
  where
    head_kept :
        (l : List PendingCommand)
        → head_of (record uc { pending_cmds = cancel_all id uc.pending_cmds }) (cancel_in id l)
          ≡ head_of uc l
    head_kept [] = refl
    head_kept (p ∷ l) = refl

copy_down-snoc :
    (p q : PendingCommand) (l : List PendingCommand)
    → copy_down (p ∷ (l ++ q ∷ [])) ≡ l ++ q ∷ q ∷ []
unfolding copy_down
copy_down-snoc p q [] = refl
copy_down-snoc p q (r ∷ l) = ap (◌∷◌ r) (copy_down-snoc r q l)

unsent_head :
    (cmd : Str) (q : PendingCommand) (l : List PendingCommand)
    → q.sent_at ≡ none
    → All (λ (r : PendingCommand). r.sent_at ≡ none) l
    → ¬ IsQueue cmd (l ++ q ∷ q ∷ [])
unsent_head cmd q [] e h bad = ground arith
unsent_head cmd q (r ∷ l) e h bad = ground arith

not_single : (q r : PendingCommand) (l : List PendingCommand) → is_single (l ++ q ∷ r ∷ []) ≡ false
not_single q r [] = refl
not_single q r (x ∷ []) = refl
not_single q r (x ∷ y ∷ l) = refl

-- A command that is enqueued when the command in progress is older than 30 seconds pushes that one
-- out, but stands twice at the end of the queue, and nothing is sent: the first entry of the queue
-- has not been sent, and so none of the kind is in progress until a reply comes.
pub enqueue_command-expired :
    (uc : Conn) (dc_id : ℕ) (label : Str) (msg : Message) (now : ℕ) (p : PendingCommand)
    (l : List PendingCommand)
    → queue uc.pending_cmds msg.command ≡ p ∷ l
    → IsQueue msg.command (p ∷ l)
    → is_supported msg.command ≡ true
    → is_expired now (p ∷ l) ≡ true
    → let e = entry dc_id label msg in
      (uc' : Conn) × (enqueue_command uc dc_id label msg now ≡ some uc')
      × (queue uc'.pending_cmds msg.command ≡ l ++ e ∷ e ∷ [])
      × (uc'.sent ≡ uc.sent)
      × (¬ IsQueue msg.command (queue uc'.pending_cmds msg.command))
unfolding enqueue_command
enqueue_command-expired uc dc_id label msg now p l e q s x =
    let n = entry dc_id label msg in
    let at : queue (insert msg.command (l ++ n ∷ n ∷ []) uc.pending_cmds) msg.command
        ≡ l ++ n ∷ n ∷ [] =
      queue-insert uc.pending_cmds msg.command msg.command (l ++ n ∷ n ∷ [])
      ∙ rw (eq_refl msg.command) refl in
    (
      record uc { pending_cmds = insert msg.command (l ++ n ∷ n ∷ []) uc.pending_cmds },
      rw (e, x, copy_down-snoc p n l, not_single n n l, s),
      at,
      refl,
      rw at (unsent_head msg.command n l refl q.1),
    )
