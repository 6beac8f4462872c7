-- ===== src/Upstream/Handle.antt =====
-- upstream.go, handlers of the welcome, of errors, and of batches. The contexts by which the replies
-- to clients are labeled are left out.
pub mod Batches
use soju_bouncer.Prelude.{
  ℕ, ◌+◌, Bool, true, false, ◌&&◌, ◌||◌, not, Option, none, some, List, [], ◌∷◌, ◌++◌,
  if◌then◌else◌, ◌==◌, nat_eq, nat_Eq, Str, str_Eq, codes, is_empty, length, ltb, lookup, insert,
  delete, is_some,
}
use soju_bouncer.Irc.{Message, Prefix, message}
use soju_bouncer.Xirc.CaseMapping.{casemap_rfc1459}
use soju_bouncer.Upstream.Labels.{parse_label}
use soju_bouncer.Upstream.State.{
  UpstreamConn, UpstreamBatch, Network, Handled, HandleError, done, failed, need_more_params,
  unexpected, registration_refused, equal_casemap, is_our_nick,
}
use soju_bouncer.Upstream.Produce.{forward_msg_by_id}
use soju_bouncer.Upstream.Replies.{fail_command}
use soju_bouncer.Upstream.Registration.{send}
use soju_bouncer.Upstream.Isupport.{update_casemapping}

abbrev welcome_params : UpstreamConn → Prefix → List Str → Handled
welcome_params uc from [] = failed uc need_more_params
welcome_params uc from (nick ∷ rest) =
    done (record uc { nick = nick; registered = true; server_prefix = from })

unfoldable pub handle_welcome : UpstreamConn → Prefix → Message → Handled
handle_welcome uc from msg = welcome_params uc from msg.params

abbrev myinfo_params : UpstreamConn → List Str → Handled
myinfo_params uc (_ ∷ server_name ∷ _ ∷ user_modes ∷ _ ∷ rest) =
    done (record uc { server_name = server_name; user_modes = user_modes })
myinfo_params uc _ = failed uc need_more_params

abbrev pub has_value : Option (Option Str) → Bool
has_value (some (some v)) = true
has_value _ = false

-- The timer that tries to get the nickname back, where the server has no MONITOR. That it is started
-- twice is a panic.
abbrev start_regain : Network → UpstreamConn → Handled
start_regain net uc =
    if uc.regain_timer
    then failed uc HandleError.panicked
    else done (record uc { regain_timer = not (is_our_nick uc net.want_nick) })

-- ERR_NOMOTD and RPL_ENDOFMOTD: the first one is the end of the registration.
unfoldable pub handle_motd_end : Network → UpstreamConn → ℕ → Prefix → Message → Handled
unfolding update_casemapping forward_msg_by_id is_our_nick lookup
handle_motd_end net uc id from msg =
    let first = record uc { got_motd = true } in
    let mapped =
      if has_value (lookup (codes "CASEMAPPING") uc.isupport)
      then first
      else update_casemapping net first casemap_rfc1459 in
    if uc.got_motd
    then done (forward_msg_by_id net uc id from msg)
    else if is_some (lookup (codes "MONITOR") uc.isupport)
    then done mapped
    else start_regain net mapped

abbrev pub refused : Network → UpstreamConn → ℕ → Prefix → Message → Handled
refused net uc id from msg =
    if uc.registered
    then done (forward_msg_by_id net uc id from msg)
    else failed uc registration_refused

abbrev failed_nick : Network → UpstreamConn → ℕ → Prefix → Message → List Str → Handled
failed_nick net uc id from msg (_ ∷ nick ∷ rest) =
    if equal_casemap uc uc.pending_regain_nick nick
    then done (record uc { pending_regain_nick = [] })
    else refused net uc id from msg
failed_nick net uc id from msg _ = failed uc need_more_params

-- ERR_NICKNAMEINUSE: before the welcome another nickname is tried, as long as it is short.
unfoldable pub handle_nickname_in_use : Network → UpstreamConn → ℕ → Prefix → Message → Handled
unfolding equal_casemap forward_msg_by_id
handle_nickname_in_use net uc id from msg =
    let nick = uc.nick ++ codes "_" in
    if not uc.registered && ltb (length uc.nick + 1) 30
    then done
        (send (record uc { nick = nick; has_desired_nick = false }) (codes "NICK") (nick ∷ []))
    else failed_nick net uc id from msg msg.params

abbrev fail_params : Network → UpstreamConn → ℕ → Prefix → Message → List Str → Handled
fail_params net uc id from msg (command ∷ code ∷ rest) =
    if not uc.registered && (command == codes "*" && code == codes "ACCOUNT_REQUIRED")
    then failed uc registration_refused
    else done (fail_command net uc id command from msg)
fail_params net uc id from msg _ = failed uc need_more_params

abbrev error_params : Network → UpstreamConn → ℕ → Prefix → Message → List Str → Handled
error_params net uc id from msg (_ ∷ command ∷ reason ∷ rest) =
    let uc' = if command == codes "AUTHENTICATE" then record uc { sasl = none } else uc in
    done (fail_command net uc' id command from msg)
error_params net uc id from msg _ = failed uc need_more_params

unfoldable pub handle_fail : Network → UpstreamConn → ℕ → Prefix → Message → Handled
unfolding fail_command
handle_fail net uc id from msg = fail_params net uc id from msg msg.params

-- ERR_UNKNOWNERROR, ERR_UNKNOWNCOMMAND, ERR_NEEDMOREPARAMS and RPL_TRYAGAIN.
unfoldable pub handle_command_error : Network → UpstreamConn → ℕ → Prefix → Message → Handled
unfolding fail_command
handle_command_error net uc id from msg = error_params net uc id from msg msg.params

unfoldable pub handle_myinfo : UpstreamConn → Message → Handled
handle_myinfo uc msg = myinfo_params uc msg.params

-- A BATCH message of the bouncer itself, to the client whose label the batch has.
abbrev to_labeled : Network → UpstreamConn → Option (ℕ × Str) → (Str → Message) → UpstreamConn
to_labeled net uc none msg = uc
to_labeled net uc (some (id, label)) msg =
    if nat_eq id 0 || is_empty label
    then uc
    else forward_msg_by_id net uc id net.server_prefix (msg label)

abbrev batch_started : Message → Str → Message
batch_started msg label = record (message (codes "BATCH") msg.params) {
  tags = (codes "label", label) ∷ [];
}

abbrev start_batch : Network → UpstreamConn → Str → Option Str → Message → Str → List Str → Handled
start_batch net uc label outer msg tag (_ ∷ type ∷ params) =
    if is_some (lookup tag uc.batches)
    then failed uc unexpected
    else done (
        to_labeled net
          (record uc {
            batches =
                insert tag (record { type = type; params = params; outer = outer; label = label })
                  uc.batches;
          })
          (parse_label label) (batch_started msg))
start_batch net uc label outer msg tag _ =
    if is_some (lookup tag uc.batches) then failed uc unexpected else failed uc need_more_params

abbrev end_batch : Network → UpstreamConn → Message → Str → Option UpstreamBatch → Handled
end_batch net uc msg tag none = failed uc unexpected
end_batch net uc msg tag (some batch) = done (
    to_labeled net (record uc { batches = delete tag uc.batches }) (parse_label batch.label)
      (λ label. message (codes "BATCH") msg.params))

abbrev batch_tag : Network → UpstreamConn → Str → Option Str → Message → Str → Handled
batch_tag net uc label outer msg [] = failed uc unexpected
batch_tag net uc label outer msg (c ∷ tag) =
    if nat_eq c b'+'
    then start_batch net uc label outer msg tag msg.params
    else if nat_eq c b'-'
    then end_batch net uc msg tag (lookup tag uc.batches)
    else failed uc unexpected

abbrev batch_params : Network → UpstreamConn → Str → Option Str → Message → List Str → Handled
batch_params net uc label outer msg [] = failed uc need_more_params
batch_params net uc label outer msg (tag ∷ rest) = batch_tag net uc label outer msg tag

-- BATCH, with the label of the message or of the batch that it stands in.
unfoldable pub handle_batch : Network → UpstreamConn → Str → Option Str → Message → Handled
unfolding parse_label forward_msg_by_id lookup insert delete
handle_batch net uc label outer msg = batch_params net uc label outer msg msg.params
