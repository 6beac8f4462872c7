-- ===== src/Upstream/Isupport.antt =====
-- upstream.go, RPL_ISUPPORT: what the server tells of itself, token by token.
pub mod RoundTrip
use soju_bouncer.Prelude.{
  ℕ, zero, suc, ◌+◌, ◌-◌, ◌*◌, ◌/◌, Bool, true, false, not, Option, none, some, List, [], ◌∷◌, ◌++◌,
  if◌then◌else◌, ◌==◌, nat_eq, nat_Eq, Str, str_Eq, codes, length, get_or, take, drop, insert,
  delete, ltb,
}
use soju_bouncer.Prelude.Text.{split_once, to_lower, to_upper}
use soju_bouncer.Irc.{Message}
use soju_bouncer.Xirc.CaseMapping.{CaseMapping, parse_case_mapping, casemap_rfc1459}
use soju_bouncer.Xirc.CaseMappingMap
use soju_bouncer.Xirc.GenMsg.{decode_isupport_value}
use soju_bouncer.Xirc.Membership.{Membership}
use soju_bouncer.Modes.Channel.{ModeType, type_a, type_b, type_c, type_d, std_channel_modes}
use soju_bouncer.Upstream.Labels.{split_n}
use soju_bouncer.Upstream.Monitor.{update_monitor}
use soju_bouncer.Upstream.State.{
  UpstreamConn, UpstreamChannel, Network, Handled, done, failed, emit, need_more_params, malformed,
  updated, isupport_changed, casemapping_changed, change_each, with_members,
}
use soju_bouncer.Upstream.Members.{update_each}

abbrev pub std_memberships : List Membership
std_memberships =
    record { mode = b'q'; prefix = b'~' }
    ∷ record { mode = b'a'; prefix = b'&' }
    ∷ record { mode = b'o'; prefix = b'@' }
    ∷ record { mode = b'h'; prefix = b'%' }
    ∷ record { mode = b'v'; prefix = b'+' }
    ∷ []

abbrev pub std_channel_types : Str
std_channel_types = codes "#&+!"

abbrev modes_of : ModeType → Str → List (ℕ × ModeType) → List (ℕ × ModeType)
modes_of mt [] m = m
modes_of mt (mode ∷ s) m = modes_of mt s (insert mode mt m)

abbrev chan_modes_of : List Str → Option (List (ℕ × ModeType))
chan_modes_of (a ∷ b ∷ c ∷ d ∷ rest) =
    some (modes_of type_d d (modes_of type_c c (modes_of type_b b (modes_of type_a a []))))
chan_modes_of _ = none

-- `none` is the error.
unfoldable pub parse_chan_modes : Str → Option (List (ℕ × ModeType))
unfolding split_n insert
parse_chan_modes s = chan_modes_of (split_n 4 b',' s)

-- `strings.IndexByte`.
unfoldable pub index_byte : Str → ℕ → Option ℕ
index_byte [] c = none
index_byte (x ∷ s) c =
    if nat_eq x c then some 0 else elim (index_byte s c) [ none ↦ none | some i ↦ some (suc i) ]

-- The loop over the memberships, from index `i` on.
unfoldable pub memberships_from : Str → ℕ → ℕ → ℕ → List Membership
memberships_from s sep i zero = []
memberships_from s sep i (suc count) =
    record { mode = get_or s (i + 1) 0; prefix = get_or s (sep + i + 1) 0 }
    ∷ memberships_from s sep (i + 1) count

abbrev memberships_at : Str → Option ℕ → Option (List Membership)
memberships_at s none = none
memberships_at s (some sep) =
    if nat_eq (length s) (sep * 2) then some (memberships_from s sep 0 (length s / 2 - 1)) else none

-- handleMemberships: `none` is the error.
unfoldable pub parse_memberships : Str → Option (List Membership)
unfolding memberships_from index_byte
parse_memberships [] = some []
parse_memberships (c ∷ s) =
    if nat_eq c b'(' then memberships_at (c ∷ s) (index_byte (c ∷ s) b')') else none

pub record Token : Type 0 where
  pub parameter : Str
  pub value : Str
  pub has_value : Bool
  pub negate : Bool

abbrev cut_value : Str → Option (Str × Str) → Token
cut_value token none = record { parameter = token; value = []; has_value = false; negate = false }
cut_value token (some (parameter, value)) = record {
  parameter = parameter;
  value = decode_isupport_value value;
  has_value = true;
  negate = false;
}

abbrev normal_parameter : Str → Option (Str × Str) → Str
normal_parameter parameter none = to_upper parameter
normal_parameter parameter (some (prefix, key)) = to_lower prefix ++ b'/' ∷ to_upper key

abbrev normal : Token → Token
normal t = record t { parameter = normal_parameter t.parameter (split_once b'/' t.parameter) }

unfoldable pub parse_token : Str → Token
unfolding split_once to_lower to_upper decode_isupport_value
parse_token [] = normal (cut_value [] none)
parse_token (c ∷ token) =
    if nat_eq c b'-'
    then normal (record { parameter = token; value = []; has_value = false; negate = true })
    else normal (cut_value (c ∷ token) (split_once b'=' (c ∷ token)))

abbrev map_members : CaseMapping → UpstreamChannel → UpstreamChannel
map_members cm ch = with_members ch (CaseMappingMap.set_case_mapping ch.state.members cm)

-- updateCasemapping of user.go, on the network and on its connection; the targets of Web Push are
-- left out.
unfoldable pub update_casemapping : Network → UpstreamConn → CaseMapping → UpstreamConn
unfolding change_each
update_casemapping net uc cm =
    emit
      (record uc {
        casemap = cm;
        saved = CaseMappingMap.set_case_mapping uc.saved cm;
        delivered = CaseMappingMap.set_case_mapping uc.delivered cm;
        channels = change_each (map_members cm) (CaseMappingMap.set_case_mapping uc.channels cm);
        users = CaseMappingMap.set_case_mapping uc.users cm;
        monitored = CaseMappingMap.set_case_mapping uc.monitored cm;
      })
      (update_each net.clients (λ id. updated id casemapping_changed))

abbrev or_rfc1459 : Option CaseMapping → CaseMapping
or_rfc1459 none = casemap_rfc1459
or_rfc1459 (some cm) = cm

abbrev set_chan_modes : UpstreamConn → Option (List (ℕ × ModeType)) → Handled
set_chan_modes uc none = failed uc malformed
set_chan_modes uc (some m) =
    done (record uc { available = record uc.available { channel_modes = m } })

abbrev set_memberships : UpstreamConn → Option (List Membership) → Handled
set_memberships uc none = failed uc malformed
set_memberships uc (some m) =
    done (record uc { available = record uc.available { memberships = m } })

-- What a token means to the connection. The rate limit of soju.im/SAFERATE is left out.
unfoldable pub apply_token : Network → UpstreamConn → Token → Handled
unfolding parse_chan_modes parse_memberships update_casemapping parse_case_mapping
apply_token net uc t =
    if t.parameter == codes "CASEMAPPING"
    then done (update_casemapping net uc (or_rfc1459 (parse_case_mapping t.value)))
    else if t.parameter == codes "CHANMODES"
    then set_chan_modes uc (if t.negate then some std_channel_modes else parse_chan_modes t.value)
    else if t.parameter == codes "CHANTYPES"
    then done (record uc { channel_types = if t.negate then std_channel_types else t.value })
    else if t.parameter == codes "STATUSMSG"
    then done (record uc { status_msg = if t.negate then [] else t.value })
    else if t.parameter == codes "PREFIX"
    then set_memberships uc (if t.negate then some std_memberships else parse_memberships t.value)
    else done uc

abbrev store_token : UpstreamConn → Token → UpstreamConn
store_token uc t = record uc {
  isupport =
      if t.has_value
      then insert t.parameter (some t.value) uc.isupport
      else if not t.negate
      then insert t.parameter none uc.isupport
      else delete t.parameter uc.isupport;
}

unfoldable pub apply_tokens : Network → UpstreamConn → List Str → Handled
unfolding apply_token parse_token insert delete
apply_tokens net uc [] = done uc
apply_tokens net uc (token ∷ tokens) =
    let t = parse_token token in
    let (uc', error) = apply_token net (store_token uc t) t in
    elim error [ none ↦ apply_tokens net uc' tokens | some e ↦ (uc', some e) ]

abbrev all_applied : Network → Handled → Handled
all_applied net (uc, some e) = (uc, some e)
all_applied net (uc, none) =
    done
      (emit (update_monitor net uc) (update_each net.clients (λ id. updated id isupport_changed)))

-- All parameters but the first and the last one are tokens.
unfoldable pub handle_isupport : Network → UpstreamConn → Message → Handled
unfolding apply_tokens update_monitor
handle_isupport net uc msg =
    if ltb (length msg.params) 2
    then failed uc need_more_params
    else all_applied net (apply_tokens net uc (take (length msg.params - 2) (drop 1 msg.params)))
