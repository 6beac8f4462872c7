-- ===== src/Upstream/Sasl.antt =====
-- upstream.go, SASL: challenges, and what the server says of our account.
use soju_bouncer.Upstream.Registration.{send}
use soju_bouncer.Prelude.{
  Bool, Option, none, some, List, [], ◌∷◌, ◌++◌, map, if◌then◌else◌, ◌==◌, nat_Eq, Str, str_Eq,
  codes,
}
use soju_bouncer.Irc.{Message}
use soju_bouncer.Xirc.GenMsg.{generate_sasl}
use soju_bouncer.Upstream.State.{
  UpstreamConn, Network, Handled, HandleError, done, failed, emit, need_more_params, malformed,
  unexpected, to_server, updated, account_changed, host_changed, Output, Client,
}

abbrev refuse_challenge : UpstreamConn → HandleError → Handled
refuse_challenge uc e = failed (send uc (codes "AUTHENTICATE") (codes "*" ∷ [])) e

-- The challenges that have been answered, with the new one; `Start` is given none.
abbrev asked : Option (List Str) → Str → List Str
asked none challenge = []
asked (some challenges) challenge = challenges ++ challenge ∷ []

abbrev answered : Network → UpstreamConn → List Str → Option Str → Handled
answered net uc challenges none =
    refuse_challenge (record uc { sasl = some (some challenges) }) unexpected
answered net uc challenges (some resp) = done (
    emit (record uc { sasl = some (some challenges) })
      (map to_server (generate_sasl net.base64.encode resp)))

abbrev answer : Network → UpstreamConn → Option (List Str) → Option Str → Handled
answer net uc started none = refuse_challenge uc malformed
answer net uc started (some challenge) =
    answered net uc (asked started challenge) (net.sasl_respond (asked started challenge))

abbrev challenge_params : Network → UpstreamConn → Option (List Str) → List Str → Handled
challenge_params net uc started [] = refuse_challenge uc need_more_params
challenge_params net uc started (s ∷ rest) =
    answer net uc started (if s == codes "+" then some [] else net.base64.decode s)

abbrev sasl_client : Network → UpstreamConn → List Str → Option (Option (List Str)) → Handled
sasl_client net uc params none = failed uc unexpected
sasl_client net uc params (some started) = challenge_params net uc started params

unfoldable pub handle_authenticate : Network → UpstreamConn → Message → Handled
unfolding generate_sasl
handle_authenticate net uc msg = sasl_client net uc msg.params uc.sasl

abbrev set_host : Network → UpstreamConn → Str → Str → UpstreamConn
set_host net uc account raw_prefix =
    let prefix = net.parse_prefix raw_prefix in
    emit (record uc { account = account; username = prefix.user; hostname = prefix.host })
      (tell_account net.clients)
  where
    tell_account : List Client → List Output
    tell_account [] = []
    tell_account (dc ∷ l) =
        updated dc.id account_changed ∷ updated dc.id host_changed ∷ tell_account l

abbrev loggedin_params : Network → UpstreamConn → List Str → Handled
loggedin_params net uc (_ ∷ raw_prefix ∷ account ∷ rest) = done (set_host net uc account raw_prefix)
loggedin_params net uc _ = failed uc need_more_params

abbrev loggedout_params : Network → UpstreamConn → List Str → Handled
loggedout_params net uc (_ ∷ raw_prefix ∷ rest) = done (set_host net uc [] raw_prefix)
loggedout_params net uc _ = failed uc need_more_params

-- RPL_LOGGEDIN, and RPL_LOGGEDOUT.
unfoldable pub handle_logged : Network → Bool → UpstreamConn → Message → Handled
handle_logged net is_in uc msg =
    if is_in then loggedin_params net uc msg.params else loggedout_params net uc msg.params
