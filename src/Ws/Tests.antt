-- ===== src/Ws/Tests.antt =====
-- ws.rs: runs of the frame codec, the request and the exchange, and the theorems at concrete inputs.
use krymux.Base.{
  ◌≡◌, refl, List, [], ◌∷◌, ◌++◌, Option, none, some, Bool, true, false, length, if◌then◌else◌,
  arith, map,
}
use krymux.Base.Bytes.{Bytes, codes, bytes_eq}
use krymux.Base.Json.{Json, string, object, members}
use krymux.Ws.Auth.{
  Env, Auth, authed, Read, chunk, auth_phase, auth_loop, and_then, on_decoded, on_read, on_frames,
  on_frame, on_message, init, response, respond, check_response, send_challenge, remember,
  write_frame, written, str_of, b64d, unhex, version_of, negotiated, is_whitelisted, challenge,
  challenge_message, ok_frame,
}
use krymux.Ws.Binding.{Parties, AreShort, transcript_inj}
use krymux.Ws.Bounds.{Capped, read_loop-Capped}
use krymux.Ws.Bridge.{Reader, read_loop, try_acquire}
use krymux.Ws.Codec.{
  ws_encode, ws_decode, decode_loop, turn, incomplete, take_frame, take_payload, extended_length,
  length_bytes, unmask,
}
use krymux.Ws.Http.{parse_http_head, header_line, header_lines, head_of_lines, static_path}
use krymux.Ws.Identity.{
  Crypto, verify_client_sig, verify_p256, point_of, ws_auth_transcript, transcript, part,
  legacy_auth_message, fingerprint_of_spki, identity_sign,
}
use krymux.Ws.RoundTrip.{Sent, Fits, encode_all, received, ws_decode-encode_all}
use krymux.Ws.Guarded.{carried}
use krymux.Ws.Safety.{IsSafe, auth_phase-IsSafe}

abbrev mask : Bytes
mask = 1 ∷ 2 ∷ 3 ∷ 4 ∷ []

abbrev by_server : Sent
by_server = record { mask = none; opcode = 2; payload = 7 ∷ 8 ∷ [] }

abbrev by_client : Sent
by_client = record { mask = some mask; opcode = 1; payload = codes "hello" }

by_server-Fits : Fits by_server
by_server-Fits = record {
  masked = tt;
  nibble = omega arith;
  bytes = (omega arith, (omega arith, tt));
  within = omega arith;
}

by_client-Fits : Fits by_client
by_client-Fits = record {
  masked = refl;
  nibble = omega arith;
  bytes = (omega arith, (omega arith, (omega arith, (omega arith, (omega arith, tt)))));
  within = omega arith;
}

half_frame : turn (0x82 ∷ []) ≡ incomplete
unfolding turn
half_frame = refl

ws_decode-encode_all_example : ws_decode (encode_all (by_server ∷ by_client ∷ []) ++ 0x82 ∷ []) ≡ (
  map received (by_server ∷ by_client ∷ []),
  length (encode_all (by_server ∷ by_client ∷ [])),
  false,
)
ws_decode-encode_all_example =
    ws_decode-encode_all (by_server ∷ by_client ∷ []) (0x82 ∷ [])
      (by_server-Fits, (by_client-Fits, tt)) half_frame

run_masked :
    encode_all (by_client ∷ []) ≡ 0x81 ∷ 0x85 ∷ 1 ∷ 2 ∷ 3 ∷ 4 ∷ 105 ∷ 103 ∷ 111 ∷ 104 ∷ 110 ∷ []
unfolding length_bytes unmask
run_masked = refl

run_oversized : ws_decode (0x82 ∷ 127 ∷ 0 ∷ 0 ∷ 0 ∷ 0 ∷ 1 ∷ 0 ∷ 0 ∷ 0 ∷ []) ≡ ([], 0, true)
unfolding ws_decode decode_loop turn take_frame take_payload extended_length
run_oversized = refl

-- A signature scheme for the runs: the key in front of what is signed.
abbrev hello : Json
hello = object (
    members (
      (codes "t", string (codes "init"))
      ∷ (codes "spki", string (codes "K"))
      ∷ (codes "nonce", string (codes "0123456789abcdef0123456789abcdef"))
      ∷ []))

abbrev answer : Json
answer = object (
    members (
      (codes "t", string (codes "response"))
      ∷ (codes "sig", string (codes "K0123456789abcdef0123456789abcdefN"))
      ∷ []))

abbrev parse_test : Bytes → Option Json
parse_test b =
    if bytes_eq b (codes "1")
    then some hello
    else if bytes_eq b (codes "2")
    then some answer
    else none

abbrev toy : Crypto
toy = record {
  sha256 = λ b. b;
  verify = λ key sig b. bytes_eq sig (key ++ b);
  sign = λ key b. some (key ++ b);
  fill = λ k. codes "N";
  hex_encode = λ b. b;
  hex_decode = λ b. some b;
  b64_encode = λ b. b;
  b64_decode = λ b. some b;
  from_slice = parse_test;
  to_string = λ v. [];
}

abbrev server : Env
server = record {
  crypto = toy;
  identity = record {
    key_pair = codes "S";
    public_key_spki = codes "S";
    fingerprint = codes "sha256:S";
    pkcs8 = [];
  };
  auth_mode = codes "whitelist";
  fingerprints = codes "sha256:K" ∷ [];
  write_all = λ sent frame. true;
}

abbrev text : Bytes → Sent
text p = record { mask = some mask; opcode = 1; payload = p }

abbrev reads : List Read
reads = chunk (encode_all (text (codes "1") ∷ [])) ∷ chunk (encode_all (text (codes "2") ∷ [])) ∷ []

-- The exchange of these reads lets the client in.
abbrev is_authed : Auth → Bool
is_authed (authed s) = true
is_authed _ = false

run_auth : is_authed (auth_phase server [] reads) ≡ true
unfolding auth_phase auth_loop and_then on_decoded on_read on_frames on_frame on_message init
    response respond check_response send_challenge remember write_frame written str_of b64d unhex
    version_of negotiated is_whitelisted challenge challenge_message ok_frame ws_encode ws_decode
    decode_loop turn take_frame take_payload extended_length length_bytes unmask verify_client_sig
    verify_p256 point_of ws_auth_transcript transcript part legacy_auth_message fingerprint_of_spki
    identity_sign
run_auth = refl

auth_phase-IsSafe_example : IsSafe server ([] ++ carried reads) (auth_phase server [] reads)
auth_phase-IsSafe_example = auth_phase-IsSafe server [] reads

abbrev parties : Parties
parties = record {
  client_spki = codes "K";
  server_spki = codes "S";
  client_nonce = codes "c";
  server_nonce = codes "s";
}

parties-AreShort : AreShort parties
parties-AreShort = record {
  client_spki_short = omega arith;
  server_spki_short = omega arith;
  client_nonce_short = omega arith;
  server_nonce_short = omega arith;
}

transcript_inj_example : parties ≡ parties
transcript_inj_example = transcript_inj parties parties parties-AreShort parties-AreShort refl

abbrev start : Reader
start = record { buf = []; fragment = none; delivered = []; pongs = [] }

read_loop-Capped_example :
    Capped (read_loop (λ ms m. true) (λ ps. true) (chunk (encode_all (by_client ∷ [])) ∷ []) start)
read_loop-Capped_example =
    read_loop-Capped (λ ms m. true) (λ ps. true) (chunk (encode_all (by_client ∷ [])) ∷ []) start
      record { assembled = tt; handed = tt }

run_acquire : try_acquire 255 (256 ∷ []) ≡ none
unfolding try_acquire
run_acquire = refl

abbrev request : Bytes
request =
    codes "GET /a?b HTTP/1.1"
    ++ 13 ∷ 10 ∷ codes "Upgrade:  websocket"
    ++ 13 ∷ 10 ∷ 13 ∷ 10 ∷ codes "xy"

run_request :
    parse_http_head (λ b. b) request
    ≡ some record {
      req_line = codes "GET /a?b HTTP/1.1";
      headers = (codes "upgrade", codes "websocket") ∷ [];
      rest = codes "xy";
    }
unfolding parse_http_head head_of_lines header_lines header_line
run_request = refl

run_path : static_path (codes "GET /a?b HTTP/1.1") ≡ codes "/a"
unfolding static_path
run_path = refl
