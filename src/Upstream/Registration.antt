-- ===== src/Upstream/Registration.antt =====
-- upstream.go, the start of a connection: register, the capabilities, SASL, the welcome, and what
-- becomes of a nickname that is in use.
pub mod More
use soju_bouncer.Prelude.{
  Bool, true, false, ◌&&◌, ◌||◌, not, Option, none, some, List, [], ◌∷◌, ◌++◌, map, if◌then◌else◌,
  ◌==◌, nat_eq, nat_Eq, Str, str_Eq, codes, is_empty, length, ltb, lookup, insert, get_elem?, ◌-◌,
}
use soju_bouncer.Prelude.Text.{split, split_once, to_lower, to_upper, equal_fold, fields, join}
use soju_bouncer.Irc.{Message, message}
use soju_bouncer.Xirc.Caps
use soju_bouncer.Xirc.Caps.{CapRegistry}
use soju_bouncer.Xirc.GenMsg.{generate_sasl}
use soju_bouncer.Upstream.Members.{update_each}
use soju_bouncer.Upstream.Replies.{last_param}
use soju_bouncer.Upstream.State.{
  UpstreamConn, Network, Handled, HandleError, done, failed, emit, need_more_params, malformed,
  unexpected, to_server, updated, caps_changed, account_changed, host_changed, Output, Client,
}

-- permanentUpstreamCaps, in an order that Go leaves open.
abbrev pub permanent_upstream_caps : List Str
permanent_upstream_caps =
    codes "account-notify"
    ∷ codes "account-tag"
    ∷ codes "away-notify"
    ∷ codes "batch"
    ∷ codes "chghost"
    ∷ codes "extended-join"
    ∷ codes "extended-monitor"
    ∷ codes "invite-notify"
    ∷ codes "labeled-response"
    ∷ codes "message-tags"
    ∷ codes "multi-prefix"
    ∷ codes "sasl"
    ∷ codes "server-time"
    ∷ codes "setname"
    ∷ codes "draft/account-registration"
    ∷ codes "draft/extended-monitor"
    ∷ codes "draft/message-redaction"
    ∷ []

abbrev pub send : UpstreamConn → Str → List Str → UpstreamConn
send uc command params = emit uc (to_server (message command params) ∷ [])

unfoldable pub register : Network → UpstreamConn → UpstreamConn
register net uc =
    let named = record uc {
      nick = net.want_nick;
      username = net.want_username;
      realname = net.want_realname;
    } in
    let asked = send named (codes "CAP") (codes "LS" ∷ codes "302" ∷ []) in
    let passed = if is_empty net.pass then asked else send asked (codes "PASS") (net.pass ∷ []) in
    send (send passed (codes "NICK") (net.want_nick ∷ [])) (codes "USER")
      (net.want_username ∷ codes "0" ∷ codes "*" ∷ net.want_realname ∷ [])

abbrev cap_value : Option (Str × Str) → Str → Str × Str
cap_value none s = (to_lower s, [])
cap_value (some (k, v)) s = (to_lower k, v)

abbrev offer : CapRegistry → Str × Str → CapRegistry
offer cr (k, v) = record cr { available = insert k v cr.available }

unfoldable pub handle_supported_caps : CapRegistry → List Str → CapRegistry
unfolding split_once to_lower insert
handle_supported_caps cr [] = cr
handle_supported_caps cr (s ∷ caps) =
    handle_supported_caps (offer cr (cap_value (split_once b'=' s) s)) caps

unfoldable pub caps_to_request : CapRegistry → List Str → List Str
unfolding Caps.is_available Caps.is_enabled
caps_to_request cr [] = []
caps_to_request cr (c ∷ caps) =
    (if Caps.is_available cr c && not (Caps.is_enabled cr c) then c ∷ [] else [])
    ++ caps_to_request cr caps

-- "echo-message" is only wanted where replies are labeled.
unfoldable pub echo_request : CapRegistry → List Str
unfolding Caps.is_available Caps.is_enabled
echo_request cr =
    let echo_message = Caps.is_available cr (codes "labeled-response") in
    let is_on = Caps.is_enabled cr (codes "echo-message") in
    if not is_on && echo_message
    then codes "echo-message" ∷ []
    else if is_on && not echo_message
    then codes "-echo-message" ∷ []
    else []

unfoldable pub update_caps : UpstreamConn → UpstreamConn
unfolding caps_to_request echo_request join
update_caps uc =
    let wanted = caps_to_request uc.caps permanent_upstream_caps ++ echo_request uc.caps in
    if is_empty wanted then uc else send uc (codes "CAP") (codes "REQ" ∷ join b' ' wanted ∷ [])

abbrev any_equal_fold : List Str → Str → Bool
any_equal_fold [] mech = false
any_equal_fold (m ∷ ms) mech = equal_fold m mech || any_equal_fold ms mech

abbrev offers_mechanism : Option Str → Str → Bool
offers_mechanism none mech = false
offers_mechanism (some v) mech = is_empty v || any_equal_fold (split b',' v) mech

unfoldable pub supports_sasl : UpstreamConn → Str → Bool
unfolding lookup split equal_fold
supports_sasl uc mech = offers_mechanism (lookup (codes "sasl") uc.caps.available) mech

unfoldable pub request_sasl : Network → UpstreamConn → Bool
unfolding supports_sasl
request_sasl net uc = not (is_empty net.sasl_mechanism) && supports_sasl uc net.sasl_mechanism

abbrev start_sasl : Network → UpstreamConn → Handled
start_sasl net uc =
    if net.sasl_mechanism == codes "PLAIN" || net.sasl_mechanism == codes "EXTERNAL"
    then done
        (send (record uc { sasl = some none }) (codes "AUTHENTICATE") (net.sasl_mechanism ∷ []))
    else failed uc unexpected

unfoldable pub handle_cap_ack : Network → UpstreamConn → Str → Bool → Handled
unfolding request_sasl Caps.set_enabled
handle_cap_ack net uc name is_ok =
    let uc' = record uc { caps = Caps.set_enabled uc.caps name is_ok } in
    if name == codes "sasl" && (request_sasl net uc' && is_ok) then start_sasl net uc' else done uc'

abbrev acked : Bool → Str → Str × Bool
acked enable [] = ([], enable)
acked enable (c ∷ name) = if nat_eq c b'-' then (name, false) else (c ∷ name, enable)

unfoldable pub handle_cap_acks : Network → UpstreamConn → Bool → List Str → Handled
unfolding handle_cap_ack to_lower
handle_cap_acks net uc enable [] = done uc
handle_cap_acks net uc enable (s ∷ caps) =
    let (name, is_ok) = acked enable s in
    let (uc', error) = handle_cap_ack net uc (to_lower name) is_ok in
    elim error [ none ↦ handle_cap_acks net uc' enable caps | some e ↦ (uc', some e) ]

abbrev pub tell_caps : Network → UpstreamConn → UpstreamConn
tell_caps net uc =
    if uc.registered then emit uc (update_each net.clients (λ id. updated id caps_changed)) else uc

abbrev told : Network → Handled → Handled
told net (uc, some e) = (uc, some e)
told net (uc, none) = done (tell_caps net uc)

unfoldable pub del_caps : CapRegistry → List Str → CapRegistry
del_caps cr [] = cr
del_caps cr (c ∷ caps) = del_caps (Caps.del cr c) caps

abbrev pub is_star : Option Str → Bool
is_star none = false
is_star (some s) = s == codes "*"

-- `msg.Params[len(subParams)-2]`, from the parameters of the whole message.
unfoldable pub has_more : List Str → List Str → Bool
has_more params sub_params =
    not (ltb (length sub_params) 2) && is_star (get_elem? params (length sub_params - 2))

abbrev cap_ls : Network → UpstreamConn → List Str → List Str → Option Str → Handled
cap_ls net uc params sub_params none = failed uc need_more_params
cap_ls net uc params sub_params (some caps) =
    let uc1 = record uc { caps = handle_supported_caps uc.caps (fields caps) } in
    let uc2 = update_caps uc1 in
    if has_more params sub_params
    then done uc1
    else if request_sasl net uc2
    then done uc2
    else done (send uc2 (codes "CAP") (codes "END" ∷ []))

abbrev cap_acks : Network → UpstreamConn → Bool → List Str → Handled
cap_acks net uc enable [] = failed uc need_more_params
cap_acks net uc enable (caps ∷ rest) = told net (handle_cap_acks net uc enable (fields caps))

abbrev cap_new : UpstreamConn → List Str → Handled
cap_new uc [] = failed uc need_more_params
cap_new uc (caps ∷ rest) =
    done (update_caps (record uc { caps = handle_supported_caps uc.caps (fields caps) }))

abbrev cap_del : Network → UpstreamConn → List Str → Handled
cap_del net uc [] = failed uc need_more_params
cap_del net uc (caps ∷ rest) =
    done (tell_caps net (record uc { caps = del_caps uc.caps (fields caps) }))

abbrev cap_params : Network → UpstreamConn → List Str → List Str → Handled
cap_params net uc params (_ ∷ sub_cmd ∷ sub_params) =
    let cmd = to_upper sub_cmd in
    if cmd == codes "LS"
    then cap_ls net uc params sub_params (last_param sub_params)
    else if cmd == codes "ACK"
    then cap_acks net uc true sub_params
    else if cmd == codes "NAK"
    then cap_acks net uc false sub_params
    else if cmd == codes "NEW"
    then cap_new uc sub_params
    else if cmd == codes "DEL"
    then cap_del net uc sub_params
    else done uc
cap_params net uc params _ = failed uc need_more_params

unfoldable pub handle_cap : Network → UpstreamConn → Message → Handled
unfolding handle_supported_caps update_caps handle_cap_acks has_more del_caps fields to_upper
handle_cap net uc msg = cap_params net uc msg.params msg.params
