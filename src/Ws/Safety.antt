-- ===== src/Ws/Safety.antt =====
-- ws.rs, `auth_phase`: what a client has shown before a session starts.
use krymux.Base.{
  ℕ, ◌≡◌, refl, sym, ap, ◌∙◌, List, [], ◌∷◌, ◌++◌, take, drop, take-append-drop, append_assoc, In,
}
use krymux.Base.Bytes.{Bytes}
use krymux.Ws.Auth.{
  Env, AuthState, Auth, waiting, authed, refused, Read, and_then, on_decoded, on_read, auth_loop,
  auth_phase,
}
use krymux.Ws.Codec.{WsFrame, ws_decode}
use krymux.Ws.Guarded.{
  read_bytes, carried, Knows, Authenticated, Guarded, on_decoded-Guarded, on_read-Guarded,
}

-- `buf` is a stretch of what the connection carried.
abbrev pub IsPieceOf : Bytes → Bytes → Type 0
IsPieceOf whole buf = (a : Bytes) × (b : Bytes) × (whole ≡ a ++ (buf ++ b))

-- The frame was decoded from a stretch of what the connection carried.
abbrev pub WasCarried : Bytes → WsFrame → Type 0
WasCarried whole f = (buf : Bytes) × IsPieceOf whole buf × In f (ws_decode buf).0

move_on :
    (n : ℕ) (a rest more later : Bytes)
    → a ++ (rest ++ (more ++ later)) ≡ (a ++ take n rest) ++ ((drop n rest ++ more) ++ later)
move_on n a rest more later = sym (
    rw
      (
        append_assoc a (take n rest) ((drop n rest ++ more) ++ later),
        append_assoc (drop n rest) more later,
        sym (append_assoc (take n rest) (drop n rest) (more ++ later)),
        take-append-drop n rest,
      )
      refl)

module _ (env : Env) (whole : Bytes) where
  -- What a run of the exchange comes to: whoever is let in has been authenticated.
  abbrev pub IsSafe : Auth → Type 0
  IsSafe (waiting s) = Knows env s
  IsSafe (authed s) = Authenticated env (WasCarried whole) s
  IsSafe (refused e s) = Unit

  and_then-IsSafe :
      (left : Bytes) (a : Auth) (k : AuthState → Auth)
      → Guarded env (WasCarried whole) left a
      → ((s : AuthState) → Knows env s → s.rest ≡ left → IsSafe (k s))
      → IsSafe (and_then a k)
  unfolding and_then
  and_then-IsSafe left (waiting s) k g h = h s g.0 g.1
  and_then-IsSafe left (authed s) k g h = g
  and_then-IsSafe left (refused e s) k g h = tt

  Guarded-IsSafe : (left : Bytes) (a : Auth) → Guarded env (WasCarried whole) left a → IsSafe a
  Guarded-IsSafe left (waiting s) g = g.0
  Guarded-IsSafe left (authed s) g = g
  Guarded-IsSafe left (refused e s) g = tt

  auth_loop-IsSafe :
      (reads : List Read) (s : AuthState) (a : Bytes)
      → whole ≡ a ++ (s.rest ++ carried reads)
      → Knows env s
      → IsSafe (auth_loop env reads s)
  unfolding auth_loop
  auth_loop-IsSafe [] s a e kn = Guarded-IsSafe _ _ (
      on_decoded-Guarded env (WasCarried whole) (ws_decode s.rest) s
        (λ f i. (s.rest, (a, carried [], e), i)) kn)
  auth_loop-IsSafe (r ∷ reads) s a e kn =
      let n = (ws_decode s.rest).1 in
      and_then-IsSafe (drop n s.rest) (on_decoded env (ws_decode s.rest) s) _
        (on_decoded-Guarded env (WasCarried whole) (ws_decode s.rest) s
          (λ f i. (s.rest, (a, carried (r ∷ reads), e), i)) kn)
        (λ s1 kn1 e1.
          and_then-IsSafe (drop n s.rest ++ read_bytes r) (on_read r s1) _
            (on_read-Guarded env (WasCarried whole) r s1 (drop n s.rest) kn1 e1)
            (λ s2 kn2 e2.
              auth_loop-IsSafe reads s2 (a ++ take n s.rest)
                (e
                  ∙ move_on n a s.rest (read_bytes r) (carried reads)
                  ∙ ap (λ x. (a ++ take n s.rest) ++ (x ++ carried reads)) (sym e2))
                kn2))

-- Where the exchange lets a client in, whatever was read and whichever writes succeed, it has stored
-- a key, a client nonce of 32 bytes and a server nonce that its random source gave, the key is on the
-- whitelist or the mode is open, and one of the frames that the connection carried holds a signature
-- that `verify_client_sig` accepts for exactly these.
pub auth_phase-IsSafe :
    (env : Env) (rest : Bytes) (reads : List Read)
    → IsSafe env (rest ++ carried reads) (auth_phase env rest reads)
unfolding auth_phase
auth_phase-IsSafe env rest reads = auth_loop-IsSafe env (rest ++ carried reads) reads _ [] refl tt
