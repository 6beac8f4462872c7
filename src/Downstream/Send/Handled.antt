-- ===== src/Downstream/Send/Handled.antt =====
-- downstream.go, handleMessage: the commands that it handles itself, and what it makes of the outcome
-- of the handlers. What those send, in order, is an argument.
use soju_bouncer.Prelude.{
  Bool, true, false, not, Option, none, some, List, [], ◌∷◌, if◌then◌else◌, ◌==◌, Str, str_Eq,
  codes, lookup,
}
use soju_bouncer.Irc.{Message, Prefix, message}
use soju_bouncer.Xirc.Caps
use soju_bouncer.Xirc.Caps.{CapRegistry}
use soju_bouncer.Downstream.Send.{
  LabelContext, DownstreamConn, Step, send_message, flush_batch, run_all, run_step,
}

-- `irc_error` is an ircError with its message; `failed` is any other error.
pub data Outcome : Type 0 where
  done failed : Outcome
  irc_error : Message → Outcome

-- `steps` is what handleMessageRegistered or handleMessageUnregistered does to the connection before
-- its outcome; `isupport` is what sendIsupport does.
pub record Handler : Type 0 where
  pub steps : List Step
  pub outcome : Outcome
  pub isupport : List Step

unfoldable pub unknown_command_error : Str → Message
unknown_command_error command =
    message (codes "421") (codes "*" ∷ command ∷ codes "Unknown command" ∷ [])

abbrev pub context_of : CapRegistry → Option Str → Option LabelContext
context_of cr none = none
context_of cr (some label) =
    if Caps.is_enabled cr (codes "labeled-response")
    then some (record { label = label; batch = []; pending_msg = none })
    else none

-- The context is dropped when the handler returns.
abbrev finish : DownstreamConn → DownstreamConn × Outcome
finish dc = (record (flush_batch dc) { context = none }, done)

abbrev pub with_outcome : Prefix → DownstreamConn → Outcome → DownstreamConn × Outcome
with_outcome server_prefix dc done = finish dc
with_outcome server_prefix dc failed = (record dc { context = none }, failed)
with_outcome server_prefix dc (irc_error msg) =
    finish (send_message dc (record { from = some server_prefix; msg = msg }))

unfoldable pub handle_message : DownstreamConn → Message → Handler → DownstreamConn × Outcome
unfolding flush_batch run_step send_message Caps.is_enabled unknown_command_error
handle_message dc msg h =
    let dc' = record dc { context = context_of dc.caps (lookup (codes "label") msg.tags) } in
    if msg.command == codes "QUIT"
    then finish (record dc' { shutdown = true })
    else if msg.command == codes "ISUPPORT"
    then (if not (Caps.is_enabled dc.caps (codes "draft/extended-isupport"))
        then (record dc' { context = none }, irc_error (unknown_command_error msg.command))
        else finish (run_all dc' h.isupport))
    else with_outcome dc.server_prefix (run_all dc' h.steps) h.outcome

-- What the event loop does with the result: every error closes the connection.
unfoldable pub is_closed_by : Outcome → Bool
is_closed_by done = false
is_closed_by failed = true
is_closed_by (irc_error msg) = true
