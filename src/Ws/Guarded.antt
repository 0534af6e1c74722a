-- ===== src/Ws/Guarded.antt =====
-- ws.rs, `auth_phase`: what each frame and each read leave of what a client has shown.
use krymux.Base.{
  ℕ, ◌<◌, ◌≡◌, refl, ap, ◌⊎◌, inl, inr, List, [], ◌∷◌, ◌++◌, Option, none, some, Bool, true, false,
  not, ◌&&◌, ◌==◌, ltb, any, length, drop, In, here, there, if_both, ||-true, Bool-cases, arith,
}
use krymux.Base.Bytes.{Bytes, codes, bytes_eq, bytes_eq→eq}
use krymux.Base.Json.{Json}
use krymux.Ws.Auth.{
  Env, AuthState, Auth, waiting, authed, refused, Read, timed_out, failed, chunk, written,
  write_frame, str_of, b64d, unhex, version_of, is_whitelisted, remember, send_challenge, init,
  check_response, respond, response, on_message, on_frame, and_then, on_frames, on_decoded, on_read,
  max_auth_json,
}
use krymux.Ws.Codec.{WsFrame, max_ws_message}
use krymux.Ws.Identity.{fingerprint_of_spki, verify_client_sig}

any-In : (x : Bytes) (xs : List Bytes) → any (λ y. bytes_eq y x) xs ≡ true → In x xs
any-In x [] h = cc h
any-In x (y ∷ ys) h = elim (||-true (bytes_eq y x) (any (λ z. bytes_eq z x) ys) h) [
  | inl e ↦ rw (bytes_eq→eq y x e) here
  | inr e ↦ there (any-In x ys e)
]

-- The bytes of a read, and of all reads.
abbrev pub read_bytes : Read → Bytes
read_bytes (chunk bs) = bs
read_bytes _ = []

abbrev pub carried : List Read → Bytes
carried [] = []
carried (r ∷ reads) = read_bytes r ++ carried reads

module _ (env : Env) where
  -- A key that the server lets in.
  abbrev pub IsAdmitted : Bytes → Type 0
  IsAdmitted spki =
      (env.auth_mode ≡ codes "open") ⊎ In (fingerprint_of_spki env.crypto spki) env.fingerprints

  -- One of the first `k` draws of the random source.
  abbrev pub IsDrawn : Bytes → ℕ → Type 0
  IsDrawn ns k = (j : ℕ) × (j < k) × (ns ≡ env.crypto.fill j)

  abbrev pub Known : Option Bytes → Option Bytes → Option Bytes → ℕ → Type 0
  Known (some spki) (some nc) (some ns) k = (length nc ≡ 32) × IsAdmitted spki × IsDrawn ns k
  Known _ _ _ k = Unit

  abbrev pub Knows : AuthState → Type 0
  Knows s = Known s.client_spki s.nonce_c s.nonce_s s.draws

  -- The frame holds a response with a signature that the key verifies.
  abbrev pub IsSignedBy : Bytes → Bytes → Bytes → WsFrame → Type 0
  IsSignedBy spki nc ns f =
      (msg : Json) × (env.crypto.from_slice f.payload ≡ some msg)
      × (verify_client_sig env.crypto spki env.identity.public_key_spki nc ns
            (b64d env (str_of env msg (codes "sig"))) (version_of env msg)
          ≡ true)

  -- An exchange that let a client in, by one of the frames that `heard` admits.
  pub record Authenticated (heard : WsFrame → Type 0) (s : AuthState) : Type 0 where
    pub spki : Bytes
    pub nc : Bytes
    pub ns : Bytes
    pub key : s.client_spki ≡ some spki
    pub client_nonce : s.nonce_c ≡ some nc
    pub server_nonce : s.nonce_s ≡ some ns
    pub known : Known (some spki) (some nc) (some ns) s.draws
    pub frame : WsFrame
    pub was_heard : heard frame
    pub signed : IsSignedBy spki nc ns frame

  module _ (heard : WsFrame → Type 0) where
    -- What holds of an exchange that has the bytes `left` yet to decode.
    abbrev pub Guarded : Bytes → Auth → Type 0
    Guarded left (waiting s) = Knows s × (s.rest ≡ left)
    Guarded left (authed s) = Authenticated heard s
    Guarded left (refused e s) = Unit

    written-Guarded :
        (left : Bytes) (b : Bool) (frame : Bytes) (s : AuthState) (k : AuthState → Auth)
        → Guarded left (k record s { sent = s.sent ++ frame ∷ [] })
        → Guarded left (written b frame s k)
    unfolding written
    written-Guarded left false frame s k g = tt
    written-Guarded left true frame s k g = g

    admitted :
        (spki : Bytes)
        → (not (bytes_eq env.auth_mode (codes "open")) && not (is_whitelisted env spki)) ≡ false
        → IsAdmitted spki
    unfolding is_whitelisted
    admitted spki e = elim (Bool-cases (bytes_eq env.auth_mode (codes "open"))) [
      | inl o ↦ inl (bytes_eq→eq _ _ o)
      | inr o ↦ inr (any-In _ _ (ground (arith, e, o)))
    ]

    init-Guarded :
        (left : Bytes) (msg : Json) (s : AuthState) → s.rest ≡ left → Guarded left (init env msg s)
    unfolding init send_challenge write_frame remember
    init-Guarded left msg s r =
        if_both (Guarded left) (not (length (unhex env (str_of env msg (codes "nonce"))) == 32)) _ _
          (λ e. tt)
          (λ e.
            if_both (Guarded left)
              (not (bytes_eq env.auth_mode (codes "open"))
                && not (is_whitelisted env (b64d env (str_of env msg (codes "spki")))))
              _ _ (λ e'. tt)
              (λ e'.
                written-Guarded left _ _ _ _
                  ((ground (arith, e), admitted _ e', (s.draws, omega arith, refl)), r)))

    check_response-Guarded :
        (left spki nc ns : Bytes) (msg : Json) (f : WsFrame) (s : AuthState)
        → heard f
        → env.crypto.from_slice f.payload ≡ some msg
        → s.client_spki ≡ some spki
        → s.nonce_c ≡ some nc
        → s.nonce_s ≡ some ns
        → Known (some spki) (some nc) (some ns) s.draws
        → Guarded left (check_response env spki nc ns msg s)
    unfolding check_response write_frame
    check_response-Guarded left spki nc ns msg f s hf hm ek ec es kn =
        if_both (Guarded left)
          (verify_client_sig env.crypto spki env.identity.public_key_spki nc ns
            (b64d env (str_of env msg (codes "sig"))) (version_of env msg))
          _ _
          (λ e. written-Guarded left _ _ _ _ record {
            spki = spki;
            nc = nc;
            ns = ns;
            key = ek;
            client_nonce = ec;
            server_nonce = es;
            known = kn;
            frame = f;
            was_heard = hf;
            signed = (msg, hm, e);
          })
          (λ e. tt)

    respond-Guarded :
        (left : Bytes) (a b c : Option Bytes) (msg : Json) (f : WsFrame) (s : AuthState)
        → heard f
        → env.crypto.from_slice f.payload ≡ some msg
        → s.client_spki ≡ a
        → s.nonce_c ≡ b
        → s.nonce_s ≡ c
        → Known a b c s.draws
        → Guarded left (respond env a b c msg s)
    unfolding respond
    respond-Guarded left none b c msg f s hf hm ek ec es kn = tt
    respond-Guarded left (some spki) none c msg f s hf hm ek ec es kn = tt
    respond-Guarded left (some spki) (some nc) none msg f s hf hm ek ec es kn = tt
    respond-Guarded left (some spki) (some nc) (some ns) msg f s hf hm ek ec es kn =
        check_response-Guarded left spki nc ns msg f s hf hm ek ec es kn

    on_message-Guarded :
        (left : Bytes) (o : Option Json) (f : WsFrame) (s : AuthState)
        → heard f
        → env.crypto.from_slice f.payload ≡ o
        → Knows s
        → s.rest ≡ left
        → Guarded left (on_message env o s)
    unfolding on_message response
    on_message-Guarded left none f s hf hm kn r = tt
    on_message-Guarded left (some msg) f s hf hm kn r =
        if_both (Guarded left) (bytes_eq (str_of env msg (codes "t")) (codes "init")) _ _
          (λ e. init-Guarded left msg s r)
          (λ e.
            if_both (Guarded left) (bytes_eq (str_of env msg (codes "t")) (codes "response")) _ _
              (λ e'. respond-Guarded left _ _ _ msg f s hf hm refl refl refl kn) (λ e'. tt))

    on_frame-Guarded :
        (left : Bytes) (f : WsFrame) (s : AuthState)
        → heard f
        → Knows s
        → s.rest ≡ left
        → Guarded left (on_frame env f s)
    unfolding on_frame write_frame
    on_frame-Guarded left f s hf kn r =
        if_both (Guarded left) (f.opcode == 9) _ _ (λ e. written-Guarded left _ _ _ waiting (kn, r))
          (λ e.
            if_both (Guarded left) (f.opcode == 10) _ _ (λ e1. (kn, r))
              (λ e1.
                if_both (Guarded left) (not (f.opcode == 1)) _ _ (λ e2. tt)
                  (λ e2.
                    if_both (Guarded left) (ltb max_auth_json (length f.payload)) _ _ (λ e3. tt)
                      (λ e3. on_message-Guarded left _ f s hf refl kn r))))

    and_then-Guarded :
        (left after : Bytes) (a : Auth) (k : AuthState → Auth)
        → Guarded left a
        → ((s : AuthState) → Knows s → s.rest ≡ left → Guarded after (k s))
        → Guarded after (and_then a k)
    unfolding and_then
    and_then-Guarded left after (waiting s) k g h = h s g.0 g.1
    and_then-Guarded left after (authed s) k g h = g
    and_then-Guarded left after (refused e s) k g h = tt

    on_frames-Guarded :
        (left : Bytes) (fs : List WsFrame) (s : AuthState)
        → ((f : WsFrame) → In f fs → heard f)
        → Knows s
        → s.rest ≡ left
        → Guarded left (on_frames env fs s)
    unfolding on_frames
    on_frames-Guarded left [] s hf kn r = (kn, r)
    on_frames-Guarded left (f ∷ fs) s hf kn r =
        and_then-Guarded left left (on_frame env f s) _ (on_frame-Guarded left f s (hf f here) kn r)
          (λ s' kn' r'. on_frames-Guarded left fs s' (λ g i. hf g (there i)) kn' r')

    pub on_decoded-Guarded :
        (d : List WsFrame × ℕ × Bool) (s : AuthState)
        → ((f : WsFrame) → In f d.0 → heard f)
        → Knows s
        → Guarded (drop d.1 s.rest) (on_decoded env d s)
    unfolding on_decoded
    on_decoded-Guarded (fs, consumed, true) s hf kn = tt
    on_decoded-Guarded (fs, consumed, false) s hf kn = on_frames-Guarded _ fs _ hf kn refl

    pub on_read-Guarded :
        (r : Read) (s : AuthState) (left : Bytes)
        → Knows s
        → s.rest ≡ left
        → Guarded (left ++ read_bytes r) (on_read r s)
    unfolding on_read
    on_read-Guarded timed_out s left kn e = tt
    on_read-Guarded failed s left kn e = tt
    on_read-Guarded (chunk []) s left kn e = tt
    on_read-Guarded (chunk (b ∷ bs)) s left kn e =
        if_both (Guarded (left ++ b ∷ bs)) (ltb max_ws_message (length (s.rest ++ b ∷ bs))) _ _
          (λ e'. tt) (λ e'. (kn, ap (λ r. r ++ b ∷ bs) e))
