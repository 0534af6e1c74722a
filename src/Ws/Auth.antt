-- ===== src/Ws/Auth.antt =====
-- ws.rs, `auth_phase`: the exchange before a session.
use krymux.Base.{
  ℕ, suc, List, [], ◌∷◌, ◌++◌, Option, none, some, Bool, true, false, ltb, leb, ◌==◌, ◌&&◌, not,
  if◌then◌else◌, length, drop, any,
}
use krymux.Base.Bytes.{Bytes, codes, bytes_eq}
use krymux.Base.Json.{Json, number, string, object, members, index, as_str, as_u64, unwrap_or}
use krymux.Ws.Codec.{WsFrame, ws_encode, ws_decode, max_ws_message}
use krymux.Ws.Identity.{
  Crypto, WsIdentity, identity_sign, fingerprint_of_spki, ws_auth_transcript, legacy_auth_message,
  verify_client_sig,
}

abbrev pub max_auth_json : ℕ
max_auth_json = 4096

-- What the exchange is given. `write_all sent frame` is the outcome of a write and its flush, after
-- the frames that went before.
pub record Env : Type 0 where
  pub crypto : Crypto
  pub identity : WsIdentity
  pub auth_mode : Bytes
  pub fingerprints : List Bytes
  pub write_all : List Bytes → Bytes → Bool

-- `draws` counts the calls of the random source, `sent` the frames written.
pub record AuthState : Type 0 where
  pub client_spki : Option Bytes
  pub nonce_c : Option Bytes
  pub nonce_s : Option Bytes
  pub rest : Bytes
  pub sent : List Bytes
  pub draws : ℕ

pub data AuthError : Type 0 where
  oversized_frame : AuthError
  write_failed : AuthError
  binary_before_auth : AuthError
  auth_too_large : AuthError
  bad_json : AuthError
  bad_nonce : AuthError
  not_whitelisted : AuthError
  protocol_order : AuthError
  bad_signature : AuthError
  unknown_message : AuthError
  timeout : AuthError
  read_failed : AuthError
  closed : AuthError
  buffer_overflow : AuthError

-- `waiting` is an exchange that has not ended, `authed` the return of `Ok`.
pub data Auth : Type 0 where
  waiting : AuthState → Auth
  authed : AuthState → Auth
  refused : AuthError → AuthState → Auth

-- What a read under the deadline gives.
pub data Read : Type 0 where
  timed_out : Read
  failed : Read
  chunk : Bytes → Read

unfoldable pub written : Bool → Bytes → AuthState → (AuthState → Auth) → Auth
written false frame s k = refused write_failed s
written true frame s k = k record s { sent = s.sent ++ frame ∷ [] }

unfoldable pub remember : Bytes → Bytes → Bytes → AuthState → Auth
remember spki nc ns s =
    waiting record s { client_spki = some spki; nonce_c = some nc; nonce_s = some ns }

unfoldable pub and_then : Auth → (AuthState → Auth) → Auth
and_then (waiting s) k = k s
and_then (authed s) k = authed s
and_then (refused e s) k = refused e s

unfoldable pub on_read : Read → AuthState → Auth
on_read timed_out s = refused timeout s
on_read failed s = refused read_failed s
on_read (chunk []) s = refused closed s
on_read (chunk (b ∷ bs)) s =
    let rest = s.rest ++ b ∷ bs in
    if ltb max_ws_message (length rest)
    then refused buffer_overflow record s { rest = rest }
    else waiting record s { rest = rest }

module _ (env : Env) where
  -- `write_all(...)?` and `flush()?`.
  unfoldable pub write_frame : Bytes → AuthState → (AuthState → Auth) → Auth
  write_frame frame s k = written (env.write_all s.sent frame) frame s k

  unfoldable pub str_of : Json → Bytes → Bytes
  str_of msg key = unwrap_or (as_str (index msg key)) []

  unfoldable pub b64d : Bytes → Bytes
  b64d s = unwrap_or (env.crypto.b64_decode s) []

  unfoldable pub unhex : Bytes → Bytes
  unhex s = unwrap_or (env.crypto.hex_decode s) []

  unfoldable pub version_of : Json → ℕ
  version_of msg = unwrap_or (as_u64 (index msg (codes "v"))) 1

  unfoldable pub is_whitelisted : Bytes → Bool
  is_whitelisted spki =
      any (λ fp. bytes_eq fp (fingerprint_of_spki env.crypto spki)) env.fingerprints

  unfoldable pub negotiated : Json → ℕ
  negotiated msg = if leb 2 (version_of msg) then 2 else 1

  -- The message that the server signs.
  unfoldable pub challenge_message : ℕ → Bytes → Bytes → Bytes → Bytes
  challenge_message v spki nc ns =
      if leb 2 v
      then ws_auth_transcript env.crypto spki env.identity.public_key_spki nc ns
      else legacy_auth_message nc ns

  unfoldable pub challenge : ℕ → Bytes → Bytes → Bytes → Json
  challenge v spki nc ns = object (
      members (
        (codes "t", string (codes "challenge"))
        ∷ (codes "v", number v)
        ∷ (codes "nonceS", string (env.crypto.hex_encode ns))
        ∷ (
          codes "sigS",
          string (
              env.crypto.b64_encode
                (identity_sign env.crypto env.identity (challenge_message v spki nc ns))),
        )
        ∷ (codes "spki", string (env.crypto.b64_encode env.identity.public_key_spki))
        ∷ []))

  unfoldable pub send_challenge : Json → Bytes → Bytes → Bytes → AuthState → Auth
  send_challenge msg spki nc ns s =
      write_frame (ws_encode 1 (env.crypto.to_string (challenge (negotiated msg) spki nc ns)))
        record s { draws = suc s.draws } (remember spki nc ns)

  unfoldable pub init : Json → AuthState → Auth
  init msg s =
      let spki = b64d (str_of msg (codes "spki")) in
      let nc = unhex (str_of msg (codes "nonce")) in
      if not (length nc == 32)
      then refused bad_nonce s
      else if not (bytes_eq env.auth_mode (codes "open")) && not (is_whitelisted spki)
      then refused not_whitelisted s
      else send_challenge msg spki nc (env.crypto.fill s.draws) s

  unfoldable pub ok_frame : Bytes
  ok_frame =
      ws_encode 1 (env.crypto.to_string (object (members ((codes "t", string (codes "ok")) ∷ []))))

  unfoldable pub check_response : Bytes → Bytes → Bytes → Json → AuthState → Auth
  check_response spki nc ns msg s =
      if verify_client_sig env.crypto spki env.identity.public_key_spki nc ns
        (b64d (str_of msg (codes "sig"))) (version_of msg)
      then write_frame ok_frame s authed
      else refused bad_signature s

  unfoldable pub respond : Option Bytes → Option Bytes → Option Bytes → Json → AuthState → Auth
  respond (some spki) (some nc) (some ns) msg s = check_response spki nc ns msg s
  respond _ _ _ msg s = refused protocol_order s

  unfoldable pub response : Json → AuthState → Auth
  response msg s = respond s.client_spki s.nonce_c s.nonce_s msg s

  unfoldable pub on_message : Option Json → AuthState → Auth
  on_message none s = refused bad_json s
  on_message (some msg) s =
      let t = str_of msg (codes "t") in
      if bytes_eq t (codes "init")
      then init msg s
      else if bytes_eq t (codes "response")
      then response msg s
      else refused unknown_message s

  unfoldable pub on_frame : WsFrame → AuthState → Auth
  on_frame f s =
      if f.opcode == 9
      then write_frame (ws_encode 10 f.payload) s waiting
      else if f.opcode == 10
      then waiting s
      else if not (f.opcode == 1)
      then refused binary_before_auth s
      else if ltb max_auth_json (length f.payload)
      then refused auth_too_large s
      else on_message (env.crypto.from_slice f.payload) s

  -- `for f in frames`.
  unfoldable pub on_frames : List WsFrame → AuthState → Auth
  on_frames [] s = waiting s
  on_frames (f ∷ fs) s = and_then (on_frame f s) (on_frames fs)

  -- The frames at hand, from the bytes not yet taken.
  unfoldable pub on_decoded : List WsFrame × ℕ × Bool → AuthState → Auth
  on_decoded (frames, consumed, true) s =
      refused oversized_frame record s { rest = drop consumed s.rest }
  on_decoded (frames, consumed, false) s = on_frames frames record s { rest = drop consumed s.rest }

  -- The loop. It waits where the list of reads ends.
  unfoldable pub auth_loop : List Read → AuthState → Auth
  auth_loop [] s = on_decoded (ws_decode s.rest) s
  auth_loop (r ∷ reads) s =
      and_then (on_decoded (ws_decode s.rest) s) (λ s1. and_then (on_read r s1) (auth_loop reads))

  unfoldable pub auth_phase : Bytes → List Read → Auth
  auth_phase rest reads = auth_loop reads record {
    client_spki = none;
    nonce_c = none;
    nonce_s = none;
    rest = rest;
    sent = [];
    draws = 0;
  }
