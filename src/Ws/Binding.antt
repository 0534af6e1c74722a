-- ===== src/Ws/Binding.antt =====
-- ws.rs, `ws_auth_transcript` and `verify_client_sig`: what a signature binds.
use krymux.Base.{
  ℕ, ◌%◌, ◌^◌, ◌≡◌, refl, sym, ap, ◌∙◌, [], ◌∷◌, ◌++◌, true, ==_iff, ◌==◌, length, get_or,
  append-nil, append_assoc, arith,
}
use krymux.Base.Bytes.{Bytes, IsU32, to_be32, from_be32}
use mathlib.Core.List.{head-eq_of_cons-eq, tail-eq_of_cons-eq}
use krymux.Ws.Identity.{
  Crypto, part, transcript, ws_auth_label, verify_p256, point_of, p256_spki_der, p256_spki_prefix,
}

-- Lists of the same length that are followed by something are told apart.
append_inj :
    (xs ys : Bytes) {after after' : Bytes}
    → length xs ≡ length ys
    → xs ++ after ≡ ys ++ after'
    → (xs ≡ ys) × (after ≡ after')
append_inj [] [] l e = (refl, e)
append_inj [] (y ∷ ys) l e = ground (arith, l)
append_inj (x ∷ xs) [] l e = ground (arith, l)
append_inj (x ∷ xs) (y ∷ ys) l e =
    let rest = append_inj xs ys (omega (arith, l)) (tail-eq_of_cons-eq e) in
    (rw (head-eq_of_cons-eq e, rest.0) refl, rest.1)

to_be32_inj : (v w : ℕ) → IsU32 v → IsU32 w → to_be32 (v % 2 ^ 32) ≡ to_be32 (w % 2 ^ 32) → v ≡ w
to_be32_inj v w hv hw e =
    let read : Bytes → ℕ =
      λ b. from_be32 (get_or b 0 0) (get_or b 1 0) (get_or b 2 0) (get_or b 3 0) in
    let same : read (to_be32 (v % 2 ^ 32)) ≡ read (to_be32 (w % 2 ^ 32)) = ap read e in
    omega (arith, hv, hw, same)

part_inj :
    (p q : Bytes) {after after' : Bytes}
    → IsU32 (length p)
    → IsU32 (length q)
    → part p ++ after ≡ part q ++ after'
    → (p ≡ q) × (after ≡ after')
unfolding part
part_inj p q hp hq e =
    let heads = append_inj (to_be32 (length p % 2 ^ 32)) (to_be32 (length q % 2 ^ 32)) refl e in
    append_inj p q (to_be32_inj (length p) (length q) hp hq heads.0) heads.1

-- What the two sides of the exchange sign for.
pub record Parties : Type 0 where
  pub client_spki : Bytes
  pub server_spki : Bytes
  pub client_nonce : Bytes
  pub server_nonce : Bytes

abbrev pub transcript_of : Parties → Bytes
transcript_of p = transcript p.client_spki p.server_spki p.client_nonce p.server_nonce

pub record AreShort (p : Parties) : Type 0 where
  pub client_spki_short : IsU32 (length p.client_spki)
  pub server_spki_short : IsU32 (length p.server_spki)
  pub client_nonce_short : IsU32 (length p.client_nonce)
  pub server_nonce_short : IsU32 (length p.server_nonce)

-- The parts one after another.
transcript_parts :
    (a b c d : Bytes)
    → transcript a b c d ≡ ws_auth_label ++ (part a ++ (part b ++ (part c ++ (part d ++ []))))
unfolding transcript
transcript_parts a b c d = rw (append-nil (part d)) (
    append_assoc (ws_auth_label ++ part a ++ part b) (part c) (part d)
    ∙ append_assoc (ws_auth_label ++ part a) (part b) (part c ++ part d)
    ∙ append_assoc ws_auth_label (part a) (part b ++ (part c ++ part d)))

-- The transcript binds all of its parts: from equal transcripts of parts below 2^32 bytes it follows
-- that both keys and both nonces are equal, however the bytes are split between them.
pub transcript_inj :
    (p q : Parties) → AreShort p → AreShort q → transcript_of p ≡ transcript_of q → p ≡ q
transcript_inj p q hp hq e =
    let nested = sym (transcript_parts _ _ _ _) ∙ e ∙ transcript_parts _ _ _ _ in
    let after_label = (append_inj ws_auth_label ws_auth_label refl nested).1 in
    let first =
      part_inj p.client_spki q.client_spki hp.client_spki_short hq.client_spki_short after_label in
    let second =
      part_inj p.server_spki q.server_spki hp.server_spki_short hq.server_spki_short first.1 in
    let third =
      part_inj p.client_nonce q.client_nonce hp.client_nonce_short hq.client_nonce_short second.1 in
    let last =
      part_inj p.server_nonce q.server_nonce hp.server_nonce_short hq.server_nonce_short third.1 in
    λ i. record {
      client_spki = first.0 i;
      server_spki = second.0 i;
      client_nonce = third.0 i;
      server_nonce = last.0 i;
    }

point_of-p256_spki_der :
    (point : Bytes) → length point ≡ 65 → point_of (p256_spki_der point) ≡ point
unfolding point_of p256_spki_der
point_of-p256_spki_der point h =
    let same : (length (p256_spki_prefix ++ point) == 91) ≡ true =
      (==_iff _ _).1 (omega (arith, h)) in
    rw same refl

point_of_raw : (point : Bytes) → length point ≡ 65 → point_of point ≡ point
unfolding point_of
point_of_raw point h = rw h refl

-- A key verifies the same in either form: as a raw point of 65 bytes, or wrapped for a browser.
pub verify_p256-p256_spki_der :
    (crypto : Crypto) (point sig signed : Bytes)
    → length point ≡ 65
    → verify_p256 crypto (p256_spki_der point) sig signed ≡ verify_p256 crypto point sig signed
unfolding verify_p256
verify_p256-p256_spki_der crypto point sig signed h =
    ap (λ key. crypto.verify key sig signed)
      (point_of-p256_spki_der point h ∙ sym (point_of_raw point h))
