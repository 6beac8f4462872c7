-- ===== src/Xirc/GenMsg.antt =====
-- xirc/genmsg.go: messages that carry long lists, cut to the limits of the protocol. A loop that
-- appends to `msgs` is a recursion that puts each message in front of those that follow.
pub mod Names
pub mod Monitor
pub mod Isupport
pub mod Join
use soju_bouncer.Irc.{
  Message, message, rpl_isupport, rpl_motd, rpl_motdstart, rpl_endofmotd, rpl_namreply,
  rpl_endofnames,
}
use soju_bouncer.Prelude.{
  ℕ, zero, suc, ◌+◌, ◌-◌, ◌*◌, Bool, true, false, ◌&&◌, not, Option, none, some, List, [], ◌∷◌,
  ◌++◌, map, ltb, leb, nat_eq, if◌then◌else◌, nat_Eq, Str, str_Eq, pair_Eq, codes, length, take,
  drop, is_empty,
}
use soju_bouncer.Prelude.Text.Joins.{write_sep}
use soju_bouncer.Prelude.Text.{split, join, has_prefix}
use soju_bouncer.Prelude.Sort.{sort, str_less}

abbrev pub max_message_length : ℕ
max_message_length = 512

abbrev pub max_message_params : ℕ
max_message_params = 15

abbrev pub max_sasl_length : ℕ
max_sasl_length = 400

-- A message that is sent if the test holds, before the rest.
abbrev pub send_if : Bool → Message → List Message → List Message
send_if true msg msgs = msg ∷ msgs
send_if false msg msgs = msgs

-- `Less` of joinSorter, on a channel and its key: keys first, then by channel.
unfoldable pub join_less : Str × Str → Str × Str → Bool
unfolding str_less
join_less (c, k) (c', k') = elim (is_empty k) [
  | true ↦ elim (is_empty k') [ true ↦ str_less c c' | false ↦ false ]
  | false ↦ elim (is_empty k') [ true ↦ true | false ↦ str_less c c' ]
]

abbrev pub join_params : Str → Str → List Str
join_params channels [] = channels ∷ []
join_params channels (k ∷ keys) = channels ∷ (k ∷ keys) ∷ []

abbrev pub join_message : Str → Str → Message
join_message channels keys = message (codes "JOIN") (join_params channels keys)

-- The room that a key takes, with its comma.
abbrev pub key_room : Str → ℕ
key_room [] = 0
key_room (c ∷ key) = 1 + length (c ∷ key)

abbrev pub write_key : Str → Str → Str
write_key keys [] = keys
write_key keys (c ∷ key) = write_sep b',' keys (c ∷ key)

-- The loop of `GenerateJoin` over the sorted channels and keys, with its two buffers.
unfoldable pub join_from : ℕ → List (Str × Str) → Str → Str → List Message
join_from max [] channels keys = send_if (not (is_empty channels)) (join_message channels keys) []
join_from max ((channel, key) ∷ rest) channels keys =
    let n = length channels + length keys + 1 + length channel + key_room key in
    let full = not (is_empty channels) && ltb max n in
    send_if full (join_message channels keys) (
      join_from max rest (write_sep b',' (if full then [] else channels) channel)
        (write_key (if full then [] else keys) key))

-- Channels with their keys; the source takes two slices of one length.
unfoldable pub generate_join : List (Str × Str) → List Message
unfolding join_from join_less
generate_join pairs =
    join_from (max_message_length - (length (codes "JOIN") + 2)) (sort join_less pairs) [] []

-- `isupportEncoder.Replace`: a space and a backslash are escaped.
unfoldable pub isupport_encode : Str → Str
isupport_encode [] = []
isupport_encode (c ∷ s) =
    if nat_eq c b' '
    then codes "\\x20" ++ isupport_encode s
    else if nat_eq c 0x5c
    then codes "\\x5C" ++ isupport_encode s
    else c ∷ isupport_encode s

-- `isupportDecoder.Replace`, with the number of bytes of an escape that are still to be skipped.
unfoldable pub isupport_decode_from : ℕ → Str → Str
unfolding has_prefix
isupport_decode_from n [] = []
isupport_decode_from (suc n) (c ∷ s) = isupport_decode_from n s
isupport_decode_from zero (c ∷ s) = elim (has_prefix (c ∷ s) (codes "\\x20")) [
  | true ↦ b' ' ∷ isupport_decode_from 3 s
  | false ↦ elim (has_prefix (c ∷ s) (codes "\\x5C")) [
    | true ↦ 0x5c ∷ isupport_decode_from 3 s
    | false ↦ c ∷ isupport_decode_from zero s
  ]
]

unfoldable pub decode_isupport_value : Str → Str
unfolding isupport_decode_from
decode_isupport_value v = isupport_decode_from 0 v

-- A token of RPL_ISUPPORT, with its value if it has one.
unfoldable pub isupport_token : Str × Option Str → Str
isupport_token (k, none) = k
isupport_token (k, some v) = k ++ b'=' ∷ v

abbrev pub isupport_message : List Str → Message
isupport_message tokens =
    message rpl_isupport (((codes "*") ∷ map isupport_encode tokens) ++ codes "are supported" ∷ [])

-- The loop of `GenerateIsupport`, on fuel; two of the parameters are reserved.
unfoldable pub isupport_from : ℕ → List Str → List Message
unfolding isupport_encode
isupport_from zero tokens = []
isupport_from (suc fuel) [] = []
isupport_from (suc fuel) (tok ∷ tokens) =
    elim (ltb (max_message_params - 2) (length (tok ∷ tokens))) [
      | true ↦
          isupport_message (take (max_message_params - 2) (tok ∷ tokens))
          ∷ isupport_from fuel (drop (max_message_params - 2) (tok ∷ tokens))
      | false ↦ isupport_message (tok ∷ tokens) ∷ isupport_from fuel []
    ]

unfoldable pub generate_isupport : List (Str × Option Str) → List Message
unfolding isupport_from isupport_token str_less
generate_isupport isupport =
    let tokens = sort str_less (map isupport_token isupport) in
    isupport_from (length tokens + 1) tokens

unfoldable pub generate_motd : Str → List Message
unfolding split
generate_motd motd =
    message rpl_motdstart (codes "*" ∷ codes "- Message of the Day -" ∷ [])
    ∷ (map (λ l. message rpl_motd (codes "*" ∷ l ∷ [])) (split 10 motd)
        ++ message rpl_endofmotd (codes "*" ∷ codes "End of /MOTD command." ∷ []) ∷ [])

abbrev pub monitor_message : Str → List Str → Message
monitor_message subcmd buf = message (codes "MONITOR") (subcmd ∷ join b',' buf ∷ [])

-- The loop of `GenerateMonitor`: the targets of the next message, and the bytes that they take.
unfoldable pub monitor_from : ℕ → Str → List Str → List Str → ℕ → List Message
monitor_from max subcmd [] buf n = send_if (not (is_empty buf)) (monitor_message subcmd buf) []
monitor_from max subcmd (target ∷ targets) buf n =
    let full = ltb max (n + length target + 1) in
    send_if full (monitor_message subcmd buf) (
      monitor_from max subcmd targets ((if full then [] else buf) ++ target ∷ [])
        ((if full then 0 else n) + (length target + 1)))

unfoldable pub generate_monitor : Str → List Str → List Message
unfolding monitor_from
generate_monitor subcmd targets =
    monitor_from (max_message_length - length (codes "MONITOR " ++ (subcmd ++ codes " "))) subcmd
      targets [] 0

abbrev pub names_message : Str → ℕ → Str → Message
names_message channel status text =
    message rpl_namreply (codes "*" ∷ (status ∷ []) ∷ channel ∷ text ∷ [])

-- The loop of `GenerateNamesReply`, with its buffer.
unfoldable pub names_from : ℕ → Str → ℕ → List Str → Str → List Message
names_from max channel status [] buf =
    send_if (not (is_empty buf)) (names_message channel status buf)
      (message rpl_endofnames (codes "*" ∷ channel ∷ codes "End of /NAMES list" ∷ []) ∷ [])
names_from max channel status (s ∷ members) buf =
    let n = length buf + 1 + length s in
    let full = not (is_empty buf) && ltb max n in
    send_if full (names_message channel status buf)
      (names_from max channel status members (write_sep b' ' (if full then [] else buf) s))

-- `render` is `Message.String` of the IRC library.
unfoldable pub generate_names_reply : (Message → Str) → Str → ℕ → List Str → List Message
unfolding names_from
generate_names_reply render channel status members =
    let max = max_message_length - length (render (names_message channel status [])) in
    names_from max channel status members []

-- A chunk of the encoded response; an empty one is sent as "+".
abbrev pub sasl_chunk : Str → Str
sasl_chunk [] = codes "+"
sasl_chunk (c ∷ chunk) = c ∷ chunk

-- The loop of `GenerateSASL` from index `i`, on fuel.
unfoldable pub sasl_from : ℕ → ℕ → Str → List Message
sasl_from zero i encoded = []
sasl_from (suc fuel) i encoded = elim (leb i (length encoded)) [
  | true ↦
      let j = i + max_sasl_length in
      let end = if ltb (length encoded) j then length encoded else j in
      message (codes "AUTHENTICATE") (sasl_chunk (take (end - i) (drop i encoded)) ∷ [])
      ∷ sasl_from fuel (i + max_sasl_length) encoded
  | false ↦ []
]

-- `encode` is `base64.StdEncoding.EncodeToString`.
unfoldable pub generate_sasl : (Str → Str) → Str → List Message
unfolding sasl_from
generate_sasl encode resp = let encoded = encode resp in sasl_from (length encoded + 1) 0 encoded
