-- ===== src/Downstream/Sasl/Chunks.antt =====
-- SASL in chunks: what `GenerateSASL` of xirc/genmsg.go sends is what `handleAuthenticate` of
-- downstream.go puts together.
use soju_bouncer.Prelude.{
  ℕ, zero, suc, ◌+◌, ◌-◌, ◌%◌, ◌≤◌, ◌<◌, ◌≡◌, refl, ap, ◌≢◌, inl, inr, true, false, Option, some,
  List, [], ◌∷◌, ◌++◌, arith, ltb, leb, leb→le, Bool-cases, ◌==◌, nat_Eq, list_eq_iff, Str, str_Eq,
  pair_Eq, codes, length, take, drop, replicate, take-append-drop, length-take, length-drop,
  take_of_length-le, take-append-take,
}
use soju_bouncer.Downstream.Sasl.{
  wait, advance, handle_authenticate, feed, Mechanisms, Base64, DownstreamSasl, Outcome,
}
use native.Mathlib.Nat.{add_comm}
use soju_bouncer.Irc.{message, Message}
use soju_bouncer.Xirc.GenMsg.{sasl_chunk, sasl_from, generate_sasl}

-- The documented behaviour of base64: decoding undoes encoding, and an encoded text is padded to a
-- multiple of four characters.
pub record IsBase64 (b64 : Base64) : Type 0 where
  pub decodes : (s : Str) → b64.decode (b64.encode s) ≡ some s
  pub padded : (s : Str) → length (b64.encode s) % 4 ≡ 0

long_ne : (s t : Str) → length s ≢ length t → (s == t) ≡ false
long_ne s t h = ground (arith, list_eq_iff s t)

abbrev authenticate : Str → Message
authenticate chunk = message (codes "AUTHENTICATE") (sasl_chunk chunk ∷ [])

sasl_from-past : (fuel i : ℕ) (encoded : Str) → length encoded < i → sasl_from fuel i encoded ≡ []
unfolding sasl_from
sasl_from-past zero i encoded h = refl
sasl_from-past (suc fuel) i encoded h = ground arith

sasl_from-step :
    (fuel i : ℕ) (encoded : Str)
    → i + 400 ≤ length encoded
    → sasl_from (suc fuel) i encoded
      ≡ authenticate (take 400 (drop i encoded)) ∷ sasl_from fuel (i + 400) encoded
unfolding sasl_from
sasl_from-step fuel i encoded h =
    let e : i + 400 - i ≡ 400 = omega arith in
    let l : leb i (length encoded) ≡ true = ground arith in
    let m : ltb (length encoded) (i + 400) ≡ false = ground arith in rw (l, sasl_from, m, e)

sasl_from-end :
    (fuel i : ℕ) (encoded : Str)
    → i ≤ length encoded
    → length encoded < i + 400
    → sasl_from (suc fuel) i encoded ≡ authenticate (drop i encoded) ∷ []
unfolding sasl_from
sasl_from-end fuel i encoded h k =
    let l : leb i (length encoded) ≡ true = ground arith in
    let m : ltb (length encoded) (i + 400) ≡ true = ground arith in
    let r : sasl_from fuel (i + 400) encoded ≡ [] = sasl_from-past fuel (i + 400) encoded k in
    let t : take (length encoded - i) (drop i encoded) ≡ drop i encoded =
      take_of_length-le (length encoded - i) (drop i encoded)
        (omega (arith, length-drop i encoded)) in
    ground arith

pending-step :
    (i : ℕ) (pending encoded : Str)
    → pending ≡ take i encoded
    → pending ++ take 400 (drop i encoded) ≡ take (i + 400) encoded
pending-step i pending encoded e = rw (e, take-append-take i 400 encoded, add_comm 400 i)

module _ (lib : Mechanisms) (b64 : Base64) where
  -- A chunk that is full is kept, and the exchange waits.
  continue-full :
      (s : DownstreamSasl lib b64) (chunk : Str)
      → length chunk ≡ 400
      → length s.pending_resp + length chunk ≤ 10240
      → handle_authenticate lib b64 true
          (some s)
          (message (codes "AUTHENTICATE") (sasl_chunk chunk ∷ []))
        ≡ (some (record s { pending_resp = s.pending_resp ++ chunk }), wait)
  unfolding handle_authenticate
  continue-full s [] e b = ground arith
  continue-full s (c ∷ chunk) e b = ground (
    arith,
    long_ne (c ∷ chunk) (codes "+") (omega arith),
    long_ne (c ∷ chunk) (codes "*") (omega arith),
  )

  -- The last chunk ends the response.
  continue-last :
      (s : DownstreamSasl lib b64) (chunk resp : Str)
      → length chunk < 400
      → length chunk ≢ 1
      → length s.pending_resp + length chunk ≤ 10240
      → b64.decode (s.pending_resp ++ chunk) ≡ some resp
      → handle_authenticate lib b64 true
          (some s)
          (message (codes "AUTHENTICATE") (sasl_chunk chunk ∷ []))
        ≡ advance lib b64 (record s { pending_resp = [] }) (some resp)
  unfolding handle_authenticate
  continue-last s [] resp lt ne b d = ground arith
  continue-last s (c ∷ chunk) resp lt ne b d =
      ground (arith, long_ne (c ∷ chunk) (codes "+") ne, long_ne (c ∷ chunk) (codes "*") ne)

  -- The exchange ends with the last chunk: every message before it is answered by waiting.
  abbrev pub Completes :
      DownstreamSasl lib b64
      → Str
      → Option (DownstreamSasl lib b64) × List (Outcome lib b64)
      → Type 0
  Completes s resp result =
      (waits : ℕ) × (result ≡ (
        (advance lib b64 (record s { pending_resp = [] }) (some resp)).0,
        replicate waits wait
            ++ (advance lib b64 (record s { pending_resp = [] }) (some resp)).1 ∷ [],
      ))

  Completes-wait :
      (s : DownstreamSasl lib b64) (resp chunk : Str) (msgs : List Message)
      → length chunk ≡ 400
      → length s.pending_resp + length chunk ≤ 10240
      → Completes
          (record s { pending_resp = s.pending_resp ++ chunk })
          resp
          (feed lib b64 (some (record s { pending_resp = s.pending_resp ++ chunk })) msgs)
      → Completes s resp (feed lib b64 (some s) (authenticate chunk ∷ msgs))
  unfolding feed
  Completes-wait s resp chunk msgs l b (waits, e) =
      (suc waits, ground (arith, continue-full s chunk l b))

  Completes-last :
      (s : DownstreamSasl lib b64) (resp chunk : Str)
      → length chunk < 400
      → length chunk ≢ 1
      → length s.pending_resp + length chunk ≤ 10240
      → b64.decode (s.pending_resp ++ chunk) ≡ some resp
      → Completes s resp (feed lib b64 (some s) (authenticate chunk ∷ []))
  unfolding feed
  Completes-last s resp chunk lt ne b d = (0, ground (arith, continue-last s chunk resp lt ne b d))

  sasl_from-feed :
      (fuel i : ℕ) (s : DownstreamSasl lib b64) (encoded resp : Str)
      → b64.decode encoded ≡ some resp
      → length encoded % 4 ≡ 0
      → length encoded ≤ 10240
      → i % 4 ≡ 0
      → i ≤ length encoded
      → length encoded < fuel + i
      → s.pending_resp ≡ take i encoded
      → Completes s resp (feed lib b64 (some s) (sasl_from fuel i encoded))
  sasl_from-feed zero i s encoded resp d p b p4 le lt e = absurd (omega arith)
  sasl_from-feed (suc fuel) i s encoded resp d p b p4 le lt e =
      elim (Bool-cases (leb (i + 400) (length encoded))) [
        | inl more ↦
            let m = leb→le (i + 400) (length encoded) more in
            rw (sasl_from-step fuel i encoded m) (
              Completes-wait s resp (take 400 (drop i encoded)) (sasl_from fuel (i + 400) encoded)
                (omega (arith, length-take 400 (drop i encoded), length-drop i encoded))
                (omega (
                  arith,
                  length-take 400 (drop i encoded),
                  length-drop i encoded,
                  ap length e,
                  length-take i encoded,
                ))
                (sasl_from-feed fuel (i + 400) _ encoded resp d p b (omega arith) m (omega arith)
                  (pending-step i s.pending_resp encoded e)))
        | inr last ↦ rw (sasl_from-end fuel i encoded le (ground arith)) (
            Completes-last s resp (drop i encoded) (ground (arith, length-drop i encoded))
              (λ one. omega (arith, length-drop i encoded))
              (omega (arith, length-drop i encoded, ap length e, length-take i encoded))
              (rw (e, take-append-drop i encoded) d))
      ]

  -- A response that a client sends by `GenerateSASL` to a started exchange is put together by
  -- `handleAuthenticate`: every message but the last is answered by waiting, and at the last the
  -- SASL server gets exactly the response, on an empty buffer. The encoded response has at most
  -- 10 KiB, and base64 behaves as documented.
  pub generate_sasl-feed :
      IsBase64 b64
      → (s : DownstreamSasl lib b64) (resp : Str) → s.pending_resp ≡ []
      → length (b64.encode resp) ≤ 10240
      → Completes s resp (feed lib b64 (some s) (generate_sasl b64.encode resp))
  unfolding generate_sasl
  generate_sasl-feed h s resp e b =
      sasl_from-feed _ 0 s (b64.encode resp) resp (h.decodes resp) (h.padded resp) b refl
        (omega arith) (omega arith) e
