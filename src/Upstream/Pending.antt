-- ===== src/Upstream/Pending.antt =====
-- upstream.go, the queue of commands in progress: of each kind of command one is sent to the server
-- at a time, and the others wait for its end. Times are in nanoseconds, and `none` is the zero time.
pub mod Queue
pub mod End
use soju_bouncer.Prelude.{
  ℕ, ◌-◌, ◌*◌, Bool, true, false, ◌||◌, Option, none, some, List, [], ◌∷◌, ◌++◌, ltb, nat_eq,
  if◌then◌else◌, ◌==◌, nat_Eq, Str, str_Eq, pair_Eq, codes, lookup, insert, value_or,
}
use soju_bouncer.Irc.{Message}

pub record PendingCommand : Type 0 where
  pub downstream_id : ℕ
  pub downstream_label : Str
  pub msg : Message
  pub sent_at : Option ℕ

-- What the code below reads and writes of an `upstreamConn`: the queues by command, the ids of the
-- user's downstream connections, and the messages that were sent, with the downstream id and the
-- label that `SendMessageLabeled` is called with.
pub record Conn : Type 0 where
  pub pending_cmds : List (Str × List PendingCommand)
  pub downstreams : List ℕ
  pub sent : List (ℕ × Str × Message)

-- `uc.pendingCmds[cmd]`.
abbrev pub queue : List (Str × List PendingCommand) → Str → List PendingCommand
queue m cmd = value_or (lookup cmd m) []

abbrev pub downstream_by_id : List ℕ → ℕ → Option ℕ
downstream_by_id [] id = none
downstream_by_id (d ∷ ds) id = if nat_eq d id then some d else downstream_by_id ds id

abbrev pub send_head : Conn → Str → ℕ → List PendingCommand → Conn
send_head uc cmd now [] = uc
send_head uc cmd now (p ∷ l) = record uc {
  pending_cmds = insert cmd (record p { sent_at = some now } ∷ l) uc.pending_cmds;
  sent = uc.sent ++ (p.downstream_id, p.downstream_label, p.msg) ∷ [];
}

unfoldable pub send_next_pending_command : Conn → Str → ℕ → Conn
send_next_pending_command uc cmd now = send_head uc cmd now (queue uc.pending_cmds cmd)

abbrev pub is_supported : Str → Bool
is_supported cmd =
    cmd == codes "LIST"
    || (cmd == codes "WHO"
        || (cmd == codes "WHOIS"
            || (cmd == codes "AUTHENTICATE" || (cmd == codes "REGISTER" || cmd == codes "VERIFY"))))

abbrev pub second : ℕ
second = 1_000_000_000

-- Whether the command at the head was sent more than 30 seconds ago.
abbrev pub is_expired : ℕ → List PendingCommand → Bool
is_expired now [] = false
is_expired now (p ∷ l) = elim p.sent_at [ none ↦ false | some t ↦ ltb (30 * second) (now - t) ]

-- `copy(l, l[1:])`: the elements move one place to the front, and the last one stays.
unfoldable pub copy_down : List PendingCommand → List PendingCommand
copy_down [] = []
copy_down (p ∷ []) = p ∷ []
copy_down (p ∷ q ∷ l) = q ∷ copy_down (q ∷ l)

abbrev pub is_single : List PendingCommand → Bool
is_single (p ∷ []) = true
is_single _ = false

-- `none` is the panic on a command that is not supported. `label` is the label of the downstream's
-- command, taken out of its context.
unfoldable pub enqueue_command : Conn → ℕ → Str → Message → ℕ → Option Conn
unfolding send_next_pending_command copy_down
enqueue_command uc dc_id label msg now =
    let cmd = msg.command in
    let added =
      queue uc.pending_cmds cmd
      ++ record { downstream_id = dc_id; downstream_label = label; msg = msg; sent_at = none }
        ∷ [] in
    let l = if is_expired now added then copy_down added else added in
    let uc' = record uc { pending_cmds = insert cmd l uc.pending_cmds } in
    if is_supported cmd
    then some (if is_single l then send_next_pending_command uc' cmd now else uc')
    else none

abbrev pub head_of : Conn → List PendingCommand → Option ℕ × Option Message
head_of uc [] = (none, none)
head_of uc (p ∷ l) = (downstream_by_id uc.downstreams p.downstream_id, some p.msg)

unfoldable pub current_pending_command : Conn → Str → Option ℕ × Option Message
current_pending_command uc cmd = head_of uc (queue uc.pending_cmds cmd)

abbrev pub shifted : Conn → Str → List PendingCommand → Conn
shifted uc cmd [] = uc
shifted uc cmd (p ∷ l) = record uc { pending_cmds = insert cmd l uc.pending_cmds }

unfoldable pub dequeue_command : Conn → Str → ℕ → Conn × (Option ℕ × Option Message)
unfolding send_next_pending_command current_pending_command
dequeue_command uc cmd now =
    let uc' = shifted uc cmd (queue uc.pending_cmds cmd) in
    (send_next_pending_command uc' cmd now, current_pending_command uc cmd)

-- The inner loop, from the end of the queue down to its second element: the first one stays.
abbrev pub without : ℕ → List PendingCommand → List PendingCommand
without id [] = []
without id (p ∷ l) = if nat_eq p.downstream_id id then without id l else p ∷ without id l

abbrev pub cancel_in : ℕ → List PendingCommand → List PendingCommand
cancel_in id [] = []
cancel_in id (p ∷ l) = p ∷ without id l

abbrev pub cancel_all : ℕ → List (Str × List PendingCommand) → List (Str × List PendingCommand)
cancel_all id [] = []
cancel_all id ((cmd, l) ∷ m) = (cmd, cancel_in id l) ∷ cancel_all id m

unfoldable pub cancel_pending_commands_by_downstream_id : Conn → ℕ → Conn
cancel_pending_commands_by_downstream_id uc id = record uc {
  pending_cmds = cancel_all id uc.pending_cmds;
}
