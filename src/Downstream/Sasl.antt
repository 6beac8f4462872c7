-- ===== src/Downstream/Sasl.antt =====
-- `handleAuthenticate` of downstream.go: a client authenticates in chunks.
-- The SASL mechanisms (go-sasl) and base64 are parameters.
pub mod Chunks
use soju_bouncer.Prelude.{
  ◌+◌, ◌*◌, Bool, true, ◌||◌, Option, none, some, List, [], ◌∷◌, ◌++◌, ltb, nat_eq, if◌then◌else◌,
  ◌==◌, nat_Eq, Str, str_Eq, pair_Eq, codes, length,
}
use soju_bouncer.Prelude.Text.{to_upper}
use soju_bouncer.Irc.{Message}
use soju_bouncer.Xirc.GenMsg.{max_sasl_length}

pub data AuthError : Type 0 where
  cap_not_enabled missing_argument aborted unsupported_mechanism too_long invalid_base64 : AuthError
  server_error : AuthError

-- What a SASL server answers: an error, that it is done, or a challenge.
pub data Answer : Type 0 where
  failed done : Answer
  challenged : Str → Answer

-- The SASL servers of the library: one for each mechanism, and their step on a response, where
-- `none` is the absent response that starts the exchange. The credentials that a server is given
-- are a part of its state.
pub record Mechanisms : Type 1 where
  pub Server : Type 0
  pub start : Str → Server
  pub next : Server → Option Str → Server × Answer

-- `base64.StdEncoding`.
pub record Base64 : Type 0 where
  pub encode : Str → Str
  pub decode : Str → Option Str

module _ (lib : Mechanisms) (b64 : Base64) where
  open lib use {Server, start, next}
  open b64 use {encode, decode}

  pub record DownstreamSasl : Type 0 where
    pub server : Server
    pub mechanism : Str
    pub pending_resp : Str

  -- What a call returns, or sends: an error, nothing while it waits for the next chunk, a
  -- challenge, or the finished authentication.
  pub data Outcome : Type 0 where
    fail : AuthError → Outcome
    wait : Outcome
    challenge : Str → Outcome
    success : DownstreamSasl → Outcome

  abbrev pub challenge_text : Str → Str
  challenge_text [] = codes "+"
  challenge_text (c ∷ s) = encode (c ∷ s)

  -- The end of the handler. The deferred function drops the exchange on an error.
  unfoldable pub advance : DownstreamSasl → Option Str → Option DownstreamSasl × Outcome
  advance s resp =
      let (server', answer) = next s.server resp in
      let s' = record s { server = server' } in
      elim answer [
        | failed ↦ (none, fail server_error)
        | done ↦ (some s', success s')
        | challenged c ↦ (some s', challenge (challenge_text c))
      ]

  abbrev pub is_mechanism : Str → Bool
  is_mechanism mech =
      mech == codes "PLAIN"
      || (mech == codes "OAUTHBEARER" || (mech == codes "ANONYMOUS" || mech == codes "EXTERNAL"))

  unfoldable pub begin : Str → Option DownstreamSasl × Outcome
  unfolding advance to_upper
  begin arg =
      let mech = to_upper arg in
      if is_mechanism mech
      then advance (record { server = start mech; mechanism = mech; pending_resp = [] }) none
      else (none, fail unsupported_mechanism)

  -- "+" stands for an empty chunk.
  abbrev pub read_chunk : Str → Str
  read_chunk arg = if arg == codes "+" then [] else arg

  abbrev decoded : DownstreamSasl → Option Str → Option DownstreamSasl × Outcome
  decoded s none = (none, fail invalid_base64)
  decoded s (some resp) = advance (record s { pending_resp = [] }) (some resp)

  unfoldable pub continue : DownstreamSasl → Str → Option DownstreamSasl × Outcome
  unfolding advance
  continue s arg =
      let chunk = read_chunk arg in
      let pending = s.pending_resp ++ chunk in
      if ltb (10 * 1024) (length s.pending_resp + length chunk)
      then (none, fail too_long)
      else if nat_eq (length chunk) max_sasl_length
      then (some (record s { pending_resp = pending }), wait)
      else decoded (record s { pending_resp = pending }) (decode pending)

  abbrev with_argument : Option DownstreamSasl → Str → Option DownstreamSasl × Outcome
  with_argument none arg = begin arg
  with_argument (some s) arg = continue s arg

  abbrev with_params : Option DownstreamSasl → List Str → Option DownstreamSasl × Outcome
  with_params sasl [] = (none, fail missing_argument)
  with_params sasl (arg ∷ rest) =
      if arg == codes "*" then (none, fail aborted) else with_argument sasl arg

  -- The handler, with whether the "sasl" capability is enabled, and `dc.sasl`.
  unfoldable pub handle_authenticate :
      Bool → Option DownstreamSasl → Message → Option DownstreamSasl × Outcome
  unfolding begin continue
  handle_authenticate enabled sasl msg =
      if enabled then with_params sasl msg.params else (none, fail cap_not_enabled)

  -- The handler on a list of messages, one after the other.
  unfoldable pub feed : Option DownstreamSasl → List Message → Option DownstreamSasl × List Outcome
  unfolding handle_authenticate
  feed sasl [] = (sasl, [])
  feed sasl (msg ∷ msgs) =
      let (sasl', outcome) = handle_authenticate true sasl msg in
      let (sasl'', outcomes) = feed sasl' msgs in (sasl'', outcome ∷ outcomes)
