-- ===== src/Upstream/Account.antt =====
-- upstream.go, messages on our own account and on what is known of users: the end of SASL, accounts,
-- hosts, names and absence, invitations, and users who are watched.
use soju_bouncer.Prelude.{
  ℕ, Bool, Option, none, some, List, [], ◌∷◌, ◌++◌, map, if◌then◌else◌, nat_eq, nat_Eq, Str, str_Eq,
  codes, is_empty,
}
use soju_bouncer.Prelude.Text.{split_once}
use soju_bouncer.Irc.{Message, Prefix}
use soju_bouncer.Xirc.CaseMappingMap
use soju_bouncer.Xirc.CaseMappingMap.{CaseMappingMap}
use soju_bouncer.Upstream.Members.{update_each}
use soju_bouncer.Upstream.Registration.{send}
use soju_bouncer.Upstream.Replies.{dequeue}
use soju_bouncer.Upstream.Produce.{forward_message}
use soju_bouncer.Upstream.State.{
  UpstreamConn, UpstreamUser, Network, Handled, done, failed, emit, need_more_params, panicked,
  updated, host_changed, realname_changed, sasl_ended, sasl_saved, is_our_nick, replied, Client,
}
use soju_bouncer.Upstream.Users.{cache_user_info, no_user}

abbrev host_parts : UpstreamConn → Str → Option (Str × Str) → UpstreamConn
host_parts uc raw none = record uc { hostname = raw }
host_parts uc raw (some (user, host)) = record uc { username = user; hostname = host }

abbrev tell_host : Network → UpstreamConn → UpstreamConn
tell_host net uc = emit uc (update_each net.clients (λ id. updated id host_changed))

abbrev visiblehost_params : Network → UpstreamConn → List Str → Handled
visiblehost_params net uc (_ ∷ raw_host ∷ rest) =
    done (tell_host net (host_parts uc raw_host (split_once b'@' raw_host)))
visiblehost_params net uc _ = failed uc need_more_params

unfoldable pub handle_visiblehost : Network → UpstreamConn → Message → Handled
unfolding split_once
handle_visiblehost net uc msg = visiblehost_params net uc msg.params

abbrev pub find_client : List Client → ℕ → Option Client
find_client [] id = none
find_client (dc ∷ l) id = if nat_eq dc.id id then some dc else find_client l id

abbrev client_sasl : List Client → Option ℕ → Option (ℕ × Str × Str)
client_sasl clients none = none
client_sasl clients (some id) = elim (find_client clients id) [
  | none ↦ none
  | some dc ↦ elim dc.sasl_plain [
    | none ↦ none
    | some (username, password) ↦ some (id, username, password)
  ]
]

-- The client that was waiting for the authentication is told of its end, and on a success the
-- network keeps its credentials.
abbrev end_client_sasl : UpstreamConn → Bool → Message → Option (ℕ × Str × Str) → UpstreamConn
end_client_sasl uc success msg none = uc
end_client_sasl uc success msg (some (id, username, password)) =
    emit uc ((if success then sasl_saved username password ∷ [] else []) ++ sasl_ended id msg ∷ [])

abbrev sasl_end_params : Network → Bool → UpstreamConn → Message → List Str → Handled
sasl_end_params net success uc msg (_ ∷ info ∷ rest) =
    let (uc1, ended) = dequeue net (record uc { sasl = none }) (codes "AUTHENTICATE") in
    let uc2 = end_client_sasl uc1 success msg (client_sasl net.user_clients ended.0) in
    done (if uc2.registered then uc2 else send uc2 (codes "CAP") (codes "END" ∷ []))
sasl_end_params net success uc msg _ = failed uc need_more_params

-- ERR_NICKLOCKED, RPL_SASLSUCCESS, ERR_SASLFAIL, ERR_SASLTOOLONG and ERR_SASLABORTED.
unfoldable pub handle_sasl_end : Network → Bool → UpstreamConn → Message → Handled
handle_sasl_end net success uc msg = sasl_end_params net success uc msg msg.params

abbrev registered_account : UpstreamConn → Prefix → Message → ℕ → List Str → List Str → Handled
registered_account uc from msg dc (_ ∷ account ∷ rest) (_ ∷ _ ∷ password ∷ more) =
    done (emit uc (sasl_saved account password ∷ replied dc from msg ∷ []))
registered_account uc from msg dc _ _ = failed uc need_more_params

abbrev account_reply : Bool → UpstreamConn → Prefix → Message → Option ℕ × Option Message → Handled
account_reply is_register uc from msg (none, cmd) = done uc
account_reply is_register uc from msg (some dc, none) =
    if is_register then failed uc panicked else done (emit uc (replied dc from msg ∷ []))
account_reply is_register uc from msg (some dc, some cmd) =
    if is_register
    then registered_account uc from msg dc msg.params cmd.params
    else done (emit uc (replied dc from msg ∷ []))

-- REGISTER, and VERIFY.
unfoldable pub handle_register : Network → Bool → UpstreamConn → Prefix → Message → Handled
handle_register net is_register uc from msg =
    let (uc', ended) = dequeue net uc msg.command in account_reply is_register uc' from msg ended

abbrev name_set : Network → UpstreamConn → Prefix → Message → Str → Option UpstreamConn → Handled
name_set net uc from msg realname none = failed uc panicked
name_set net uc from msg realname (some uc') =
    if is_our_nick uc' from.name
    then done (
        emit (record uc' { realname = realname })
          (update_each net.clients (λ id. updated id realname_changed)))
    else done (forward_message net uc' from msg)

abbrev setname_params : Network → UpstreamConn → Prefix → Message → List Str → Handled
setname_params net uc from msg [] = failed uc need_more_params
setname_params net uc from msg (realname ∷ rest) =
    name_set net uc from msg realname
      (cache_user_info uc from.name (record no_user { realname = realname }))

unfoldable pub handle_setname : Network → UpstreamConn → Prefix → Message → Handled
unfolding cache_user_info is_our_nick forward_message
handle_setname net uc from msg = setname_params net uc from msg msg.params

abbrev chghost_params : Network → UpstreamConn → Prefix → Message → List Str → Handled
chghost_params net uc from msg (username ∷ hostname ∷ rest) =
    if is_our_nick uc from.name
    then done (tell_host net (record uc { username = username; hostname = hostname }))
    else done (forward_message net uc from msg)
chghost_params net uc from msg _ = failed uc need_more_params

unfoldable pub handle_chghost : Network → UpstreamConn → Prefix → Message → Handled
unfolding is_our_nick forward_message
handle_chghost net uc from msg = chghost_params net uc from msg msg.params

abbrev replace_all : ℕ → ℕ → Str → Str
replace_all old new s = map (λ c. if nat_eq c old then new else c) s

abbrev new_flags : Message → Str → Str
new_flags msg flags =
    if is_empty msg.params then replace_all b'G' b'H' flags else replace_all b'H' b'G' flags

abbrev forwarded : Network → UpstreamConn → Prefix → Message → Option UpstreamConn → Handled
forwarded net uc from msg none = failed uc panicked
forwarded net uc from msg (some uc') = done (forward_message net uc' from msg)

abbrev away_user : UpstreamConn → Prefix → Message → Option UpstreamUser → Option UpstreamConn
away_user uc from msg none = some uc
away_user uc from msg (some uu) =
    if is_empty uu.flags
    then some uc
    else cache_user_info uc from.name (record no_user { flags = new_flags msg uu.flags })

-- Flags that are known follow the absence of their user.
unfoldable pub handle_away : Network → UpstreamConn → Prefix → Message → Handled
unfolding cache_user_info forward_message
handle_away net uc from msg =
    forwarded net uc from msg (away_user uc from msg (CaseMappingMap.get none uc.users from.name))

abbrev account_params : Network → UpstreamConn → Prefix → Message → List Str → Handled
account_params net uc from msg [] = failed uc need_more_params
account_params net uc from msg (account ∷ rest) =
    forwarded net uc from msg (cache_user_info uc from.name (record no_user { account = account }))

unfoldable pub handle_account : Network → UpstreamConn → Prefix → Message → Handled
unfolding cache_user_info forward_message
handle_account net uc from msg = account_params net uc from msg msg.params
