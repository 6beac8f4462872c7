-- ===== src/Downstream/Send.antt =====
-- downstream.go, what a connection sends to its client: the filter of its capabilities, the answers
-- to a command with a label, and batches. A message is written out by value: the map of its tags is
-- not shared. The socket is open.
pub mod Answer
pub mod Handled
pub mod Label
pub mod Runs
use soju_bouncer.Prelude.{
  ℕ, ◌+◌, ◌%◌, ◌^◌, Bool, true, false, ◌&&◌, ◌||◌, not, Option, none, some, List, [], ◌∷◌, ◌++◌,
  if◌then◌else◌, ◌==◌, Str, str_Eq, codes, is_empty, lookup, insert, delete, value_or, take,
}
use soju_bouncer.Prelude.Text.{is_digit}
use soju_bouncer.Irc.{Message, Prefix, message}
use soju_bouncer.Xirc.Caps
use soju_bouncer.Xirc.Caps.{CapRegistry}
use soju_bouncer.Upstream.Labels.{format_uint}

pub record Outgoing : Type 0 where
  pub from : Option Prefix
  pub msg : Message

-- The command of a client that is handled, where it has a label: `batch` is empty until there is a
-- second message.
pub record LabelContext : Type 0 where
  pub label : Str
  pub batch : Str
  pub pending_msg : Option Outgoing

-- `context` is what the context of the running handler holds for the connection; `sent` is what it
-- has handed to the socket's queue, in order; `shutdown` is whether it was told to end.
pub record DownstreamConn : Type 0 where
  pub caps : CapRegistry
  pub server_prefix : Prefix
  pub last_batch_ref : ℕ
  pub context : Option LabelContext
  pub sent : List Outgoing
  pub shutdown : Bool

unfoldable pub is_numeric : Str → Bool
is_numeric (a ∷ b ∷ c ∷ []) = is_digit a && (is_digit b && is_digit c)
is_numeric _ = false

abbrev pub tag : Message → Str → Str
tag msg name = value_or (lookup name msg.tags) []

abbrev supports_tag : CapRegistry → Str → Bool
supports_tag cr name =
    if name == codes "time"
    then Caps.is_enabled cr (codes "server-time")
    else if name == codes "account"
    then Caps.is_enabled cr (codes "account-tag")
    else if name == codes "batch"
    then Caps.is_enabled cr (codes "batch")
    else false

abbrev pub supported_tags : CapRegistry → List (Str × Str) → List (Str × Str)
supported_tags cr [] = []
supported_tags cr ((name, value) ∷ tags) =
    if supports_tag cr name then (name, value) ∷ supported_tags cr tags else supported_tags cr tags

abbrev filter_tags : CapRegistry → Message → Message
filter_tags cr msg =
    if Caps.is_enabled cr (codes "message-tags")
    then msg
    else record msg { tags = supported_tags cr msg.tags }

abbrev filter_batch : CapRegistry → Message → Message
filter_batch cr msg =
    if not (Caps.is_enabled cr (codes "batch")) && not (is_empty (tag msg (codes "batch")))
    then record msg { tags = delete (codes "batch") msg.tags }
    else msg

-- A JOIN has a parameter.
abbrev shorten_join : CapRegistry → Message → Message
shorten_join cr msg =
    if (msg.command == codes "JOIN") && not (Caps.is_enabled cr (codes "extended-join"))
    then record msg { params = take 1 msg.params }
    else msg

-- The commands that only a client with a capability gets.
abbrev needed_caps : List (Str × Str)
needed_caps =
    (codes "TAGMSG", codes "message-tags")
    ∷ (codes "SETNAME", codes "setname")
    ∷ (codes "CHGHOST", codes "chghost")
    ∷ (codes "AWAY", codes "away-notify")
    ∷ (codes "ACCOUNT", codes "account-notify")
    ∷ (codes "MARKREAD", codes "draft/read-marker")
    ∷ (codes "READ", codes "soju.im/read")
    ∷ (codes "METADATA", codes "draft/metadata-2")
    ∷ (codes "REDACT", codes "draft/message-redaction")
    ∷ []

abbrev lacks_cap : CapRegistry → Str → List (Str × Str) → Bool
lacks_cap cr command [] = false
lacks_cap cr command ((name, cap) ∷ l) =
    ((command == name) && not (Caps.is_enabled cr cap)) || lacks_cap cr command l

unfoldable pub is_refused : CapRegistry → Str → Bool
unfolding Caps.is_enabled
is_refused cr command = lacks_cap cr command needed_caps

-- A source "*" stands for none.
abbrev known_source : Option Prefix → Option Prefix
known_source none = none
known_source (some from) = if from.name == codes "*" then none else some from

abbrev with_source : Prefix → Str → Option Prefix → Option Prefix
with_source server_prefix command none = if is_numeric command then some server_prefix else none
with_source server_prefix command (some from) = some from

-- The message as the client's capabilities let it through, if they do.
unfoldable pub prepare : CapRegistry → Prefix → Outgoing → Option Outgoing
unfolding is_refused Caps.is_enabled is_numeric
prepare cr server_prefix out =
    let msg = shorten_join cr (filter_batch cr (filter_tags cr out.msg)) in
    let from = with_source server_prefix msg.command (known_source out.from) in
    if is_refused cr msg.command then none else some (record { from = from; msg = msg })

abbrev pub write : DownstreamConn → Outgoing → DownstreamConn
write dc out = record dc { sent = dc.sent ++ out ∷ [] }

abbrev pub in_batch : Str → Outgoing → Outgoing
in_batch ref out =
    if is_empty (tag out.msg (codes "batch"))
    then record out { msg = record out.msg { tags = insert (codes "batch") ref out.msg.tags } }
    else out

abbrev pub bare : Message → Outgoing
bare msg = record { from = none; msg = msg }

abbrev pub label_tags : Str → List (Str × Str)
label_tags label = (codes "label", label) ∷ []

abbrev pub batch_start : Str → Str → Outgoing
batch_start label ref = bare (record {
  tags = label_tags label;
  command = codes "BATCH";
  params = (b'+' ∷ ref) ∷ codes "labeled-response" ∷ [];
})

abbrev pub batch_end : Str → Outgoing
batch_end ref = bare (message (codes "BATCH") ((b'-' ∷ ref) ∷ []))

abbrev pub ack : Str → Outgoing
ack label = bare (record { tags = label_tags label; command = codes "ACK"; params = [] })

abbrev pub with_label : Str → Outgoing → Outgoing
with_label label out = record out {
  msg = record out.msg { tags = insert (codes "label") label out.msg.tags };
}

abbrev pub next_batch_ref : ℕ → ℕ
next_batch_ref n = (n + 1) % 2 ^ 64

-- In the batch that is open, or kept back as the first message.
unfoldable pub send_or_keep : DownstreamConn → LabelContext → Outgoing → DownstreamConn
send_or_keep dc ctx out =
    if is_empty ctx.batch
    then record dc { context = some (record ctx { pending_msg = some out }) }
    else write (record dc { context = some ctx }) (in_batch ctx.batch out)

-- A second message opens a batch, with the first one.
abbrev pub open_batch : DownstreamConn → Str → Outgoing → DownstreamConn
open_batch dc label first =
    let ref = format_uint (next_batch_ref dc.last_batch_ref) in
    let dc' = record dc { last_batch_ref = next_batch_ref dc.last_batch_ref } in
    write (write dc' (batch_start label ref)) (in_batch ref first)

abbrev send_labeled : DownstreamConn → LabelContext → Option Outgoing → Outgoing → DownstreamConn
send_labeled dc ctx none out = send_or_keep dc ctx out
send_labeled dc ctx (some first) out =
    send_or_keep (open_batch dc ctx.label first)
      (record ctx { batch = format_uint (next_batch_ref dc.last_batch_ref); pending_msg = none })
      out

abbrev send_in : DownstreamConn → Option LabelContext → Outgoing → DownstreamConn
send_in dc none out = write dc out
send_in dc (some ctx) out =
    if is_empty ctx.label then write dc out else send_labeled dc ctx ctx.pending_msg out

abbrev send_prepared : DownstreamConn → Option Outgoing → DownstreamConn
send_prepared dc none = dc
send_prepared dc (some out) = send_in dc dc.context out

unfoldable pub send_message : DownstreamConn → Outgoing → DownstreamConn
unfolding prepare send_or_keep format_uint
send_message dc out = send_prepared dc (prepare dc.caps dc.server_prefix out)

abbrev end_batch : DownstreamConn → LabelContext → Option Outgoing → DownstreamConn
end_batch dc ctx none =
    if not (is_empty ctx.batch) then write dc (batch_end ctx.batch) else write dc (ack ctx.label)
end_batch dc ctx (some out) = write dc (with_label ctx.label out)

abbrev flush_in : DownstreamConn → Option LabelContext → DownstreamConn
flush_in dc none = dc
flush_in dc (some ctx) = if is_empty ctx.label then dc else end_batch dc ctx ctx.pending_msg

unfoldable pub flush_batch : DownstreamConn → DownstreamConn
flush_batch dc = flush_in dc dc.context

-- `send` is what is sent in the batch, with its reference.
unfoldable pub send_batch :
    DownstreamConn
    → Str
    → List Str
    → List (Str × Str)
    → (Str → DownstreamConn → DownstreamConn)
    → DownstreamConn
unfolding send_message Caps.is_enabled format_uint
send_batch dc typ params tags send =
    let ref = format_uint (next_batch_ref dc.last_batch_ref) in
    let dc' = record dc { last_batch_ref = next_batch_ref dc.last_batch_ref } in
    let start =
      bare
        (record { tags = tags; command = codes "BATCH"; params = (b'+' ∷ ref) ∷ typ ∷ params }) in
    let enabled = Caps.is_enabled dc.caps (codes "batch") in
    let dc'' = send ref (if enabled then send_message dc' start else dc') in
    if Caps.is_enabled dc''.caps (codes "batch") then send_message dc'' (batch_end ref) else dc''

-- What a handler does to the connection, one step at a time: it sends a message; it takes the label
-- away, as enqueueCommand and SendMessageLabeled do for the server to answer, and as commands with
-- several targets do; it takes a reference for a batch of its own, as SendBatch does; and it switches
-- a capability on or off. That SendMessageLabeled panics on a label that is used already is left out.
pub data Step : Type 0 where
  sends : Outgoing → Step
  takes_label : Step
  takes_batch_ref : Step
  sets_cap : Str → Bool → Step

abbrev without_label : Option LabelContext → Option LabelContext
without_label none = none
without_label (some ctx) = some (record ctx { label = [] })

unfoldable pub run_step : DownstreamConn → Step → DownstreamConn
unfolding send_message Caps.set_enabled
run_step dc (sends out) = send_message dc out
run_step dc takes_label = record dc { context = without_label dc.context }
run_step dc takes_batch_ref = record dc { last_batch_ref = next_batch_ref dc.last_batch_ref }
run_step dc (sets_cap name on) = record dc { caps = Caps.set_enabled dc.caps name on }

abbrev pub run_all : DownstreamConn → List Step → DownstreamConn
run_all dc [] = dc
run_all dc (step ∷ l) = run_all (run_step dc step) l
