-- ===== src/Ws/Identity.antt =====
-- ws.rs, the P-256 identity of a server and the signatures of the exchange. SHA-256, the signature
-- scheme and the hex digits are parameters.
use krymux.Base.{
  ℕ, ◌+◌, ◌%◌, ◌^◌, [], ◌∷◌, ◌++◌, Option, none, some, Bool, true, false, leb, ◌==◌, ◌&&◌,
  if◌then◌else◌, length, drop,
}
use krymux.Base.Bytes.{Bytes, codes, to_be32}
use krymux.Base.Json.{Json, unwrap_or}
use krymux.Base.Text.{starts_with}

-- What ring, sha2, hex, base64 and serde_json do. `verify key signature data` is the check of a
-- signature, `sign` the signature by a key pair, `fill k` the k-th draw of random bytes.
pub record Crypto : Type 0 where
  pub sha256 : Bytes → Bytes
  pub verify : Bytes → Bytes → Bytes → Bool
  pub sign : Bytes → Bytes → Option Bytes
  pub fill : ℕ → Bytes
  pub hex_encode : Bytes → Bytes
  pub hex_decode : Bytes → Option Bytes
  pub b64_encode : Bytes → Bytes
  pub b64_decode : Bytes → Option Bytes
  pub from_slice : Bytes → Option Json
  pub to_string : Json → Bytes

abbrev pub p256_spki_prefix : Bytes
p256_spki_prefix =
    0x30 ∷ 0x59 ∷ 0x30 ∷ 0x13 ∷ 0x06 ∷ 0x07 ∷ 0x2a ∷ 0x86 ∷ 0x48 ∷ 0xce ∷ 0x3d ∷ 0x02 ∷ 0x01 ∷ 0x06
    ∷ 0x08 ∷ 0x2a ∷ 0x86 ∷ 0x48 ∷ 0xce ∷ 0x3d ∷ 0x03 ∷ 0x01 ∷ 0x07 ∷ 0x03 ∷ 0x42 ∷ 0x00 ∷ []

unfoldable pub p256_spki_der : Bytes → Bytes
p256_spki_der raw_point = p256_spki_prefix ++ raw_point

-- `key_pair` stands for ring's key pair.
pub record WsIdentity : Type 0 where
  pub key_pair : Bytes
  pub public_key_spki : Bytes
  pub fingerprint : Bytes
  pub pkcs8 : Bytes

abbrev pub ws_auth_label : Bytes
ws_auth_label = codes "ectun-ws-auth-v1"

unfoldable pub legacy_auth_message : Bytes → Bytes → Bytes
legacy_auth_message nonce_c nonce_s = nonce_c ++ nonce_s

-- A part with its length as a u32.
unfoldable pub part : Bytes → Bytes
part p = to_be32 (length p % 2 ^ 32) ++ p

unfoldable pub transcript : Bytes → Bytes → Bytes → Bytes → Bytes
transcript client_spki server_spki client_nonce server_nonce =
    ws_auth_label ++ part client_spki ++ part server_spki ++ part client_nonce ++ part server_nonce

unfoldable pub point_of : Bytes → Bytes
point_of spki =
    if (length spki == length p256_spki_prefix + 65) && starts_with spki p256_spki_prefix
    then drop (length p256_spki_prefix) spki
    else spki

module _ (crypto : Crypto) where
  unfoldable pub identity_sign : WsIdentity → Bytes → Bytes
  identity_sign id data_ = unwrap_or (crypto.sign id.key_pair data_) []

  unfoldable pub fingerprint_of_spki : Bytes → Bytes
  fingerprint_of_spki spki = codes "sha256:" ++ crypto.hex_encode (crypto.sha256 spki)

  unfoldable pub verify_p256 : Bytes → Bytes → Bytes → Bool
  verify_p256 spki signature signed = crypto.verify (point_of spki) signature signed

  unfoldable pub ws_auth_transcript : Bytes → Bytes → Bytes → Bytes → Bytes
  ws_auth_transcript client_spki server_spki client_nonce server_nonce =
      crypto.sha256 (transcript client_spki server_spki client_nonce server_nonce)

  unfoldable pub verify_client_sig : Bytes → Bytes → Bytes → Bytes → Bytes → ℕ → Bool
  verify_client_sig client_spki server_spki nonce_c nonce_s sig msg_v =
      if verify_p256 client_spki sig (ws_auth_transcript client_spki server_spki nonce_c nonce_s)
      then true
      else if leb 2 msg_v
      then false
      else verify_p256 client_spki sig (legacy_auth_message nonce_c nonce_s)

  -- `generate_pkcs8` draws a private key, `from_pkcs8` loads it, and `public_key` gives its raw point.
  module _ (generate_pkcs8 : Option Bytes) (from_pkcs8 : Bytes → Option Bytes)
      (public_key : Bytes → Bytes) where
    unfoldable pub loaded_identity : Bytes → Bytes → WsIdentity
    loaded_identity pkcs8 key_pair =
        let spki = p256_spki_der (public_key key_pair) in
        record {
          key_pair = key_pair;
          public_key_spki = spki;
          fingerprint = fingerprint_of_spki spki;
          pkcs8 = pkcs8;
        }

    unfoldable pub generate : Option WsIdentity
    generate = elim generate_pkcs8 [
      | none ↦ none
      | some pkcs8 ↦ elim (from_pkcs8 pkcs8) [
        | none ↦ none
        | some key_pair ↦ some (loaded_identity pkcs8 key_pair)
      ]
    ]
