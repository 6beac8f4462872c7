-- ===== src/Xirc/GenMsg/Isupport.antt =====
-- `GenerateIsupport` of xirc/genmsg.go and the escapes of xirc/xirc.go: tokens are cut into messages
-- with at most 15 parameters, and are read back from them.
use soju_bouncer.Prelude.{
  ℕ, zero, suc, ◌+◌, ◌≤◌, ◌<◌, ◌≡◌, refl, ap, inl, inr, Option, List, [], ◌∷◌, map, arith, ltb,
  nat_eq_iff, Bool-cases, nat_Eq, Str, str_Eq, pair_Eq, codes, length, take, drop, length-append,
  take-append-drop, length-take, length-drop, length-map, All, flatten,
}
use mathlib.Core.List.{append-nil}
use soju_bouncer.Xirc.GenMsg.{
  max_message_params, isupport_encode, isupport_decode_from, decode_isupport_value, isupport_token,
  isupport_message, isupport_from, generate_isupport,
}
use mathlib.Core.Path.{ap₂}
use mathlib.Core.List.{Perm}
use soju_bouncer.Prelude.Sort.{sort, sort-perm, str_less}

-- Behind an escape that was written the decoder goes on with the rest.
decode_escape :
    (c : ℕ) (s : Str)
    → isupport_decode_from 0 (isupport_encode s) ≡ s
    → isupport_decode_from 0 (isupport_encode (c ∷ s)) ≡ c ∷ s
unfolding isupport_encode isupport_decode_from
decode_escape c s h = ground (arith, nat_eq_iff c b' ', nat_eq_iff c 0x5c)

-- A value that is escaped and decoded is the same value.
pub decode-encode_isupport : (s : Str) → decode_isupport_value (isupport_encode s) ≡ s
unfolding decode_isupport_value
decode-encode_isupport [] = unfold isupport_encode isupport_decode_from in refl
decode-encode_isupport (c ∷ s) = decode_escape c s (decode-encode_isupport s)

decode_chunk : (c : List Str) → map decode_isupport_value (map isupport_encode c) ≡ c
decode_chunk [] = refl
decode_chunk (s ∷ c) = ap₂ ◌∷◌ (decode-encode_isupport s) (decode_chunk c)

decode_chunks :
    (cs : List (List Str)) → All (λ c. map decode_isupport_value (map isupport_encode c) ≡ c) cs
decode_chunks [] = tt
decode_chunks (c ∷ cs) = (decode_chunk c, decode_chunks cs)

pub record AreChunks (tokens : List Str) (chunks : List (List Str)) : Type 0 where
  pub all : flatten chunks ≡ tokens
  pub fit : All (λ c. length (isupport_message c).params ≤ max_message_params) chunks

length-params : (c : List Str) → length (isupport_message c).params ≡ length c + 2
length-params c = omega (
  arith,
  length-append (codes "*" ∷ map isupport_encode c) (codes "are supported" ∷ []),
  length-map isupport_encode c,
)

isupport_from_nil : (fuel : ℕ) → isupport_from fuel [] ≡ []
unfolding isupport_from
isupport_from_nil zero = refl
isupport_from_nil (suc fuel) = refl

isupport_from_lem :
    (fuel : ℕ) (tokens : List Str)
    → length tokens < fuel
    → (chunks : List (List Str)) × (isupport_from fuel tokens ≡ map isupport_message chunks)
      × AreChunks tokens chunks
unfolding isupport_from
isupport_from_lem zero tokens h = elim h [ ]
isupport_from_lem (suc fuel) [] h = ([], refl, record { all = refl; fit = tt })
isupport_from_lem (suc fuel) (tok ∷ tokens) h = elim (Bool-cases (ltb 13 (length (tok ∷ tokens)))) [
  | inl many ↦
      let (chunks, e, a) =
        isupport_from_lem fuel (drop 13 (tok ∷ tokens))
          (ground (arith, length-drop 13 (tok ∷ tokens))) in
      (
        take 13 (tok ∷ tokens) ∷ chunks,
        rw (many, isupport_from) (ap (◌∷◌ (isupport_message (take 13 (tok ∷ tokens)))) e),
        record {
          all = rw a.all (take-append-drop 13 (tok ∷ tokens));
          fit = (
            omega (arith, length-params (take 13 (tok ∷ tokens)), length-take 13 (tok ∷ tokens)),
            a.fit,
          );
        },
      )
  | inr few ↦ (
    (tok ∷ tokens) ∷ [],
    ground (arith, isupport_from_nil fuel),
    record { all = append-nil _; fit = (ground (arith, length-params (tok ∷ tokens)), tt) },
  )
]

-- `GenerateIsupport` puts every token in one message and nothing else: the messages are those of
-- chunks that together are a rearrangement of the tokens, none has more than 15 parameters, and
-- decoding what a message carries gives back its chunk.
pub generate_isupport_lem :
    (isupport : List (Str × Option Str))
    → (chunks : List (List Str)) × (generate_isupport isupport ≡ map isupport_message chunks)
      × Perm (flatten chunks) (map isupport_token isupport)
      × All (λ c. length (isupport_message c).params ≤ max_message_params) chunks
      × All (λ c. map decode_isupport_value (map isupport_encode c) ≡ c) chunks
unfolding generate_isupport
generate_isupport_lem isupport =
    let tokens = sort str_less (map isupport_token isupport) in
    let (chunks, e, a) = isupport_from_lem (length tokens + 1) tokens (omega arith) in
    (chunks, e, rw a.all (sort-perm str_less _), a.fit, decode_chunks chunks)
