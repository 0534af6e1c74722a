-- ===== src/Mux/Moves.antt =====
-- mux.rs, `outbound_pump`: every step of the machine, phase by phase, is a `Moved`.
use krymux.Base.{
  ℕ, ◌+◌, ◌-◌, ◌≤◌, ◌<◌, ◌≡◌, refl, sym, ap, ◌∙◌, [], ◌++◌, Option, some, Bool, true, false, ltb,
  if◌then◌else◌, length, arith, Bool-cases, inl, inr, min, take, drop, append-nil,
}
use mathlib.Core.Path.{subst}
use mathlib.Core.Option.{some-injective}
use krymux.Base.Lists.{drop-drop, drop_all, length-take, take-append-drop}
use krymux.Mux.State.{Shared}
use krymux.Mux.Outbound.{
  Chunk, OutPhase, reading, finished, first_charge, first_send, rest_charge, split, split_send,
  closing, OutPump, split_next, to_phase, data_frame, out_step,
}
use krymux.Mux.Sending.{unsent, debt, piece, frames, Fits, Moved}
use krymux.Mux.Sends.{after_acquire-Moved, after_send-Moved, send_last-Moved}

-- A step that changes nothing but the phase.
silent :
    {limit r : ℕ} {sh : Shared} (a b : OutPhase)
    → sh.closed ≡ false
    → sh.writer.gone ≡ false
    → Fits limit b
    → piece a ≡ []
    → unsent b ≡ unsent a
    → debt b ≡ debt a
    → frames sh r a ≡ []
    → Moved limit r sh a sh b
silent {sh = sh} a b up writing fits no_piece same same_debt no_frame = record {
  fits = fits;
  small = omega (arith, ap length no_piece);
  wire = ap (λ x. x ++ unsent b) no_piece ∙ same;
  charge = omega (arith, same_debt);
  queued = sym (append-nil _) ∙ ap (λ x. sh.writer.queue ++ x) (sym no_frame);
  up = up;
  writing = writing;
  same_limit = refl;
}

split_next_lem :
    (limit : ℕ) (c : Chunk) (m k off l : ℕ)
    → Fits limit (split c m off l)
    → 0 < k
    → k ≤ c.logical - m
    → let b = split_next c (m + k) off l in
      Fits limit b × ((unsent b ≡ drop off c.wire) × (k + debt b ≡ c.logical - m))
unfolding split_next
split_next_lem limit c m k off l f pos le = elim (Bool-cases (ltb off (length c.wire))) [
  | inl more ↦ rw more ((omega (arith, f), (f.1.0, omega arith)), (refl, omega (arith, f)))
  | inr no_more ↦ rw no_more ((omega (arith, f), f.1), (refl, omega (arith, f)))
]

module _ {A : Type 0} {P : Type 0} {z : A} where
  Test-step :
      (b : Bool) (x y : Option A)
      → (b ≡ true → x ≡ some z → P)
      → (b ≡ false → y ≡ some z → P)
      → (if b then x else y) ≡ some z
      → P
  Test-step true x y hx hy e = hx refl e
  Test-step false x y hx hy e = hy refl e

module _ {C : Type 0} (limit : ℕ) (sh sh' : Shared) (r : ℕ) (p' : OutPump C) where
  out_phase_step :
      (p : OutPump C) (a : OutPhase)
      → sh.closed ≡ false
      → sh.writer.gone ≡ false
      → Fits limit a
      → out_step sh r (record p { phase = a }) ≡ some (sh', p')
      → Moved limit r sh a sh' p'.phase
  unfolding out_step to_phase data_frame
  out_phase_step p reading up w f e = cc e
  out_phase_step p finished up w f e = cc e
  out_phase_step p (first_charge c) up w f e =
      after_acquire-Moved limit sh sh' r c.logical _ p' _ (first_charge c) up w f.0
        (λ n pos le. ((le, (pos, f.1)), (refl, omega arith))) refl refl e
  out_phase_step p (first_send c n) up w f e =
      after_send-Moved limit sh sh' r _ p' _ _ (first_send c n) up w f.0 f.1.1 (append-nil _) refl
        refl e
  out_phase_step p (rest_charge n m) up w f e =
      Test-step (ltb m n) _ _
        (λ less e'.
          after_acquire-Moved limit sh sh' r (n - m) _ p' _ (rest_charge n m) up w (ground arith)
            (λ k pos le. (omega arith, (refl, omega arith))) refl refl e')
        (λ all_charged e'.
          subst (λ (q : Shared × OutPump C). Moved limit r sh (rest_charge n m) q.0 q.1.phase)
            (some-injective _ _ e')
            (silent (rest_charge n m) reading up w _ refl refl (ground arith) refl))
        e
  out_phase_step p (split c m off l) up w f e =
      Test-step (ltb m c.logical) _ _
        (λ less e'.
          after_acquire-Moved limit sh sh' r (c.logical - m) _ p' _ (split c m off l) up w
            (ground arith) (λ k pos le. split_next_lem limit c m k off l f pos le) refl refl e')
        (λ all_charged.
          Test-step (ltb off (length c.wire)) _ _
            (λ more e'.
              subst (λ (q : Shared × OutPump C). Moved limit r sh (split c m off l) q.0 q.1.phase)
                (some-injective _ _ e')
                (silent (split c m off l) (split_send c m off l) up w (f.0, (f.1.0, ground arith))
                  refl refl refl refl))
            (λ no_more e'.
              subst (λ (q : Shared × OutPump C). Moved limit r sh (split c m off l) q.0 q.1.phase)
                (some-injective _ _ e')
                (silent (split c m off l) reading up w _ refl
                  (sym (drop_all off c.wire (ground arith))) (ground arith) refl)))
        e
  out_phase_step p (split_send c m off l) up w f e =
      let k = min l (length c.wire - off) in
      after_send-Moved limit sh sh' r _ p' _ _ (split_send c m off l) up w
        (f.0, (f.1.0, omega (arith, f))) (omega (arith, length-take k (drop off c.wire), f.1.0))
        (ap (λ x. take k (drop off c.wire) ++ x) (sym (drop-drop k off c.wire))
          ∙ take-append-drop k (drop off c.wire))
        refl refl e
  out_phase_step p (closing clean) up w f e = send_last-Moved limit sh sh' r _ p' clean up w e

  -- A step of the outbound pump in a session that is up, from a phase that fits the peer's frame cap
  -- `limit`, puts exactly the frames of that phase at the end of the writer queue. A DATA frame holds at
  -- most `limit` bytes and the next bytes of the chunk; the credit falls by just the logical bytes that
  -- are newly charged; and the next phase fits the cap again.
  pub out_step-Moved :
      (p : OutPump C)
      → sh.closed ≡ false
      → sh.writer.gone ≡ false
      → Fits limit p.phase
      → out_step sh r p ≡ some (sh', p')
      → Moved limit r sh p.phase sh' p'.phase
  out_step-Moved p up w f e = out_phase_step p p.phase up w f e
