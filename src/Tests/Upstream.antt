-- ===== src/Tests/Upstream.antt =====
-- The queue of pending commands and the labels of upstream.go, on a small queue and a label.
use soju_bouncer.Prelude.{
  ◌+◌, ◌*◌, ◌%◌, ◌^◌, true, Str, arith, ◌≡◌, refl, some, [], ◌∷◌, ◌++◌, nat_Eq, str_Eq, pair_Eq,
  codes, lookup,
}
use soju_bouncer.Irc.{Message, message}
use soju_bouncer.Upstream.Pending.{
  queue, second, enqueue_command, current_pending_command, dequeue_command,
  cancel_pending_commands_by_downstream_id, PendingCommand, Conn,
}
use soju_bouncer.Upstream.Pending.Queue.{
  log, IsQueue, SameOthers, enqueue_command-IsQueue, entry, waiting,
}
use soju_bouncer.Upstream.Pending.End.{
  Advances, dequeue_command-IsQueue, cancel-IsQueue, enqueue_command-expired, others_of,
}
use soju_bouncer.Upstream.Labels.{label_tag, parse_label}
use soju_bouncer.Upstream.Labels.RoundTrip.{parse-label_tag}

abbrev who : Message
who = message (codes "WHO") (codes "#soju" ∷ [])

abbrev sent_who : PendingCommand
sent_who = record { downstream_id = 1; downstream_label = codes "a"; msg = who; sent_at = some 0 }

-- A command in progress for the first client, and one that waits for the second.
abbrev busy : Conn
busy = record {
  pending_cmds = (codes "WHO", sent_who ∷ entry 2 [] who ∷ []) ∷ [];
  downstreams = 1 ∷ 2 ∷ [];
  sent = (1, codes "a", who) ∷ [];
}

busy-IsQueue : IsQueue (codes "WHO") (sent_who ∷ entry 2 [] who ∷ [])
busy-IsQueue = (refl, (refl, tt), (refl, (refl, tt)))

busy_queue : queue busy.pending_cmds (codes "WHO") ≡ sent_who ∷ entry 2 [] who ∷ []
busy_queue = unfold lookup in refl

enqueue_command-IsQueue_example :
    (uc' : Conn) × (enqueue_command busy 2 (codes "b") who second ≡ some uc')
    × IsQueue (codes "WHO") (queue uc'.pending_cmds (codes "WHO"))
    × (log uc' (codes "WHO") ≡ log busy (codes "WHO") ++ (2, codes "b", who) ∷ [])
    × SameOthers (codes "WHO") busy uc'
enqueue_command-IsQueue_example =
    enqueue_command-IsQueue busy 2 (codes "b") who second (rw busy_queue busy-IsQueue) refl
      (rw busy_queue refl)

dequeue_command-IsQueue_example :
    ((dequeue_command busy (codes "WHO") second).1 ≡ (some 1, some who))
    × Advances busy (codes "WHO") (dequeue_command busy (codes "WHO") second).0
dequeue_command-IsQueue_example =
    dequeue_command-IsQueue busy (codes "WHO") second sent_who (entry 2 [] who ∷ []) busy_queue
      busy-IsQueue

cancel-IsQueue_example :
    let uc' = cancel_pending_commands_by_downstream_id busy 2 in
    IsQueue (codes "WHO") (queue uc'.pending_cmds (codes "WHO"))
    × (waiting (queue uc'.pending_cmds (codes "WHO"))
        ≡ others_of 2 (waiting (queue busy.pending_cmds (codes "WHO"))))
    × (uc'.sent ≡ busy.sent)
    × ((current_pending_command uc' (codes "WHO")) ≡ (current_pending_command busy (codes "WHO")))
cancel-IsQueue_example = cancel-IsQueue busy 2 (codes "WHO") (rw busy_queue busy-IsQueue)

enqueue_command-expired_example :
    (uc' : Conn) × (enqueue_command busy 2 (codes "b") who (31 * second) ≡ some uc')
    × (queue uc'.pending_cmds (codes "WHO")
        ≡ (entry 2 [] who ∷ []) ++ entry 2 (codes "b") who ∷ entry 2 (codes "b") who ∷ [])
    × (uc'.sent ≡ busy.sent)
    × (¬ IsQueue (codes "WHO") (queue uc'.pending_cmds (codes "WHO")))
enqueue_command-expired_example =
    enqueue_command-expired busy 2 (codes "b") who (31 * second) sent_who (entry 2 [] who ∷ [])
      busy_queue busy-IsQueue refl refl

parse-label_tag_example :
    (tag : Str) × (label_tag true 12 7 (codes "a-b") ≡ (some tag, (7 + 1) % 2 ^ 64))
    × (parse_label tag ≡ some (12, codes "a-b"))
parse-label_tag_example = parse-label_tag 12 7 (codes "a-b") (omega arith)
