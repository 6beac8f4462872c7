-- ===== src/Tests/GenMsg.antt =====
-- The messages of xirc/genmsg.go for short lists.
use mathlib.Core.List.{Perm}
use soju_bouncer.Prelude.{
  ◌+◌, ◌≤◌, ◌≡◌, refl, false, Option, none, some, List, [], ◌∷◌, map, arith, nat_Eq, Str, str_Eq,
  pair_Eq, codes, length, is_empty, All, flatten,
}
use soju_bouncer.Irc.{Message}
use soju_bouncer.Xirc.GenMsg.{
  max_message_params, generate_join, isupport_encode, decode_isupport_value, isupport_token,
  isupport_message, generate_isupport,
}
use soju_bouncer.Xirc.GenMsg.Isupport.{generate_isupport_lem, decode-encode_isupport}
use soju_bouncer.Xirc.GenMsg.Join.{generate_join_lem, batch_message, channel_text, key_text}
use soju_bouncer.Xirc.GenMsg.Join.Keys.{channels_of, keys_of, read_join}

-- A message as its parameters, one after the other.
abbrev render : Message → Str
render msg = flatten msg.params

abbrev tokens : List (Str × Option Str)
tokens = (codes "NETWORK", some (codes "my net")) ∷ (codes "WHOX", none) ∷ []

generate_isupport_lem_example :
    (chunks : List (List Str)) × (generate_isupport tokens ≡ map isupport_message chunks)
    × Perm (flatten chunks) (map isupport_token tokens)
    × All (λ c. length (isupport_message c).params ≤ max_message_params) chunks
    × All (λ c. map decode_isupport_value (map isupport_encode c) ≡ c) chunks
generate_isupport_lem_example = generate_isupport_lem tokens

decode-encode_isupport_example :
    decode_isupport_value (isupport_encode (codes "my net")) ≡ codes "my net"
decode-encode_isupport_example = decode-encode_isupport (codes "my net")

abbrev channels : List (Str × Str)
channels = (codes "#a", []) ∷ (codes "#b", codes "key") ∷ []

generate_join_lem_example :
    (batches : List (List (Str × Str))) × (generate_join channels ≡ map batch_message batches)
    × Perm (flatten batches) channels
    × All (λ b. read_join (channels_of b) (keys_of b) ≡ b) batches
    × All (λ b. is_empty b ≡ false) batches
    × All (λ b. length (channel_text b) + length (key_text b) ≤ 506) batches
generate_join_lem_example =
    generate_join_lem channels ((refl, omega arith), ((refl, omega arith), tt))
