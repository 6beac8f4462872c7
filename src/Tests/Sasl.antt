-- ===== src/Tests/Sasl.antt =====
-- A SASL exchange of downstream.go, with a server that is done at the first response.
use soju_bouncer.Prelude.{
  ◌%◌, ◌≡◌, refl, Option, none, some, [], ◌∷◌, arith, nat_Eq, Str, str_Eq, pair_Eq, codes, length,
}
use soju_bouncer.Downstream.Sasl.{done, Mechanisms, Base64, DownstreamSasl, feed}
use soju_bouncer.Downstream.Sasl.Chunks.{IsBase64, generate_sasl-feed, Completes}
use soju_bouncer.Xirc.GenMsg.{generate_sasl}

-- Each byte takes four characters.
abbrev wide : Str → Str
wide [] = []
wide (c ∷ s) = c ∷ b'=' ∷ b'=' ∷ b'=' ∷ wide s

abbrev narrow : Str → Option Str
narrow [] = some []
narrow (c ∷ _ ∷ _ ∷ _ ∷ s) = elim (narrow s) [ none ↦ none | some t ↦ some (c ∷ t) ]
narrow _ = none

abbrev wide_base64 : Base64
wide_base64 = record { encode = wide; decode = narrow }

narrow-wide : (s : Str) → narrow (wide s) ≡ some s
narrow-wide [] = refl
narrow-wide (c ∷ s) = rw (narrow-wide s) refl

wide-padded : (s : Str) → length (wide s) % 4 ≡ 0
wide-padded [] = refl
wide-padded (c ∷ s) = omega (arith, wide-padded s)

wide_base64-IsBase64 : IsBase64 wide_base64
wide_base64-IsBase64 = record { decodes = narrow-wide; padded = wide-padded }

-- The server remembers the last response.
abbrev one_step : Mechanisms
one_step = record { Server = Option Str; start = λ mech. none; next = λ server resp. (resp, done) }

abbrev started : DownstreamSasl one_step wide_base64
started = record { server = none; mechanism = codes "PLAIN"; pending_resp = [] }

generate_sasl-feed_example :
    Completes one_step wide_base64 started
      (codes "a")
      (feed one_step wide_base64 (some started) (generate_sasl wide (codes "a")))
generate_sasl-feed_example =
    generate_sasl-feed one_step wide_base64 wide_base64-IsBase64 started (codes "a") refl
      (omega arith)
