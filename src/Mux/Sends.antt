-- ===== src/Mux/Sends.antt =====
-- mux.rs, `outbound_pump`: its charges and its sends, each a `Moved`.
use krymux.Base.{
  ℕ, ◌+◌, ◌≤◌, ◌<◌, ◌≡◌, refl, sym, ap, ◌∙◌, [], ◌∷◌, ◌++◌, some, none, Bool, true, false, length,
  arith, inl, inr, append-nil,
}
use mathlib.Core.Path.{subst}
use mathlib.Core.Option.{some-injective}
use krymux.Base.Bytes.{Bytes}
use krymux.Mux.State.{
  Shared, Writer, set_stream, enqueue, wait_send, sent, waits, finish_outbound, try_retire,
}
use krymux.Mux.Conserve.{wait_send_cases}
use krymux.Mux.Outbound.{
  acquire_credits, took, must_wait, OutPhase, finished, closing, OutPump, last_frame, to_phase,
  after_send, after_acquire, send_last,
}
use krymux.Mux.Sending.{unsent, debt, piece, frames, Fits, Moved, acquire_cases}

-- A charge of the credit loop.
module _ {C : Type 0} (limit : ℕ) (sh sh' : Shared) (r want : ℕ) (p p' : OutPump C)
    (next : ℕ → OutPhase) where
  pub after_took :
      (n : ℕ) (t : Shared)
      → acquire_credits sh r want ≡ took n t
      → after_acquire sh r p want next ≡ some (t, to_phase p (next n))
  unfolding after_acquire
  after_took n t e = rw (e, after_acquire)

  after_wait : acquire_credits sh r want ≡ must_wait → after_acquire sh r p want next ≡ none
  unfolding after_acquire
  after_wait e = rw (e, after_acquire)

  pub after_acquire-Moved :
      (a : OutPhase)
      → sh.closed ≡ false
      → sh.writer.gone ≡ false
      → 0 < want
      → ((n : ℕ)
          → 0 < n
          → n ≤ want
          → Fits limit (next n) × ((unsent (next n) ≡ unsent a) × (n + debt (next n) ≡ debt a)))
      → piece a ≡ []
      → frames sh r a ≡ []
      → after_acquire sh r p want next ≡ some (sh', p')
      → Moved limit r sh a sh' p'.phase
  unfolding to_phase
  after_acquire-Moved a up writing h k no_piece no_frame e = elim (acquire_cases sh r want up h) [
    | inl w ↦ cc (after_wait w, e)
    | inr (n, c, t, (pos, (le, sum))) ↦
        let same = some-injective _ _ (sym (after_took n _ t) ∙ e) in
        let next_fits = k n pos le in
        let charged = set_stream sh r (record (sh.heap r) { credits = c }) in
        let moved : Moved limit r sh a charged (next n) = record {
          fits = next_fits.0;
          small = omega (arith, ap length no_piece);
          wire = ap (λ x. x ++ unsent (next n)) no_piece ∙ next_fits.1.0;
          charge = ground (arith, next_fits.1.1);
          queued = sym (append-nil _) ∙ ap (λ x. sh.writer.queue ++ x) (sym no_frame);
          up = up;
          writing = writing;
          same_limit = refl;
        } in
        subst (λ (q : Shared × OutPump C). Moved limit r sh a q.0 q.1.phase) same moved
  ]

-- A send of the pump.
module _ {C : Type 0} (limit : ℕ) (sh sh' : Shared) (r : ℕ) (p p' : OutPump C) (frame : Bytes)
    (next : OutPhase) where
  pub after_sent :
      (t : Shared)
      → wait_send sh frame ≡ sent t
      → after_send sh p frame next ≡ some (t, to_phase p next)
  unfolding after_send
  after_sent t e = rw (e, after_send)

  after_full : wait_send sh frame ≡ waits → after_send sh p frame next ≡ none
  unfolding after_send
  after_full e = rw (e, after_send)

  pub after_send-Moved :
      (a : OutPhase)
      → sh.closed ≡ false
      → sh.writer.gone ≡ false
      → Fits limit next
      → length (piece a) ≤ limit
      → piece a ++ unsent next ≡ unsent a
      → debt next ≡ debt a
      → frames sh r a ≡ frame ∷ []
      → after_send sh p frame next ≡ some (sh', p')
      → Moved limit r sh a sh' p'.phase
  unfolding to_phase
  after_send-Moved a up writing fits small wire same_debt one e =
      elim (wait_send_cases sh frame writing) [
        | inr w ↦ cc (after_full w, e)
        | inl w ↦
            let moved : Moved limit r sh a (enqueue sh frame) next = record {
              fits = fits;
              small = small;
              wire = wire;
              charge = omega (arith, same_debt);
              queued = ap (λ x. sh.writer.queue ++ x) (sym one);
              up = up;
              writing = writing;
              same_limit = refl;
            } in
            subst (λ (q : Shared × OutPump C). Moved limit r sh a q.0 q.1.phase)
              (some-injective _ _ (sym (after_sent (enqueue sh frame) w) ∙ e)) moved
      ]

finish_outbound_keeps :
    (sh : Shared) (r : ℕ)
    → let t = finish_outbound sh r in
      (t.writer ≡ sh.writer)
      × ((t.closed ≡ sh.closed)
          × (((t.heap r).credits ≡ (sh.heap r).credits) × (t.peer_max_data ≡ sh.peer_max_data)))
unfolding finish_outbound try_retire
finish_outbound_keeps sh r = ground arith

frames-closing :
    (sh : Shared) (r : ℕ) (clean : Bool) → last_frame sh r clean ∷ [] ≡ frames sh r (closing clean)
unfolding last_frame
frames-closing sh r true = refl
frames-closing sh r false = refl

module _ {C : Type 0} (limit : ℕ) (sh sh' : Shared) (r : ℕ) (p p' : OutPump C) (clean : Bool) where
  pub last_sent :
      (t : Shared)
      → wait_send sh (last_frame sh r clean) ≡ sent t
      → send_last sh r p clean ≡ some (finish_outbound t r, to_phase p finished)
  unfolding send_last
  last_sent t e = rw (e, send_last)

  last_full : wait_send sh (last_frame sh r clean) ≡ waits → send_last sh r p clean ≡ none
  unfolding send_last
  last_full e = rw (e, send_last)

  pub send_last-Moved :
      sh.closed ≡ false
      → sh.writer.gone ≡ false
      → send_last sh r p clean ≡ some (sh', p')
      → Moved limit r sh (closing clean) sh' p'.phase
  unfolding to_phase
  send_last-Moved up writing e =
      let f = last_frame sh r clean in
      let keeps = finish_outbound_keeps (enqueue sh f) r in
      elim (wait_send_cases sh f writing) [
        | inr w ↦ cc (last_full w, e)
        | inl w ↦
            let moved : Moved limit r sh (closing clean) (finish_outbound (enqueue sh f) r)
                finished =
              record {
                fits = _;
                small = omega arith;
                wire = refl;
                charge = omega (arith, keeps.1.1.0);
                queued =
                    ap (λ (x : Writer). x.queue) keeps.0
                    ∙ ap (λ x. sh.writer.queue ++ x) (frames-closing sh r clean);
                up = keeps.1.0 ∙ up;
                writing = ap (λ (x : Writer). x.gone) keeps.0 ∙ writing;
                same_limit = keeps.1.1.1;
              } in
            subst (λ (q : Shared × OutPump C). Moved limit r sh (closing clean) q.0 q.1.phase)
              (some-injective _ _ (sym (last_sent (enqueue sh f) w) ∙ e)) moved
      ]
