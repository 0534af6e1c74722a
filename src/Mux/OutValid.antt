-- ===== src/Mux/OutValid.antt =====
-- mux.rs: a step of the outbound pump keeps the session valid.
use krymux.Base.{ℕ, ◌≡◌, refl, Option, some, none, Bool, true, false, if◌then◌else◌, arith}
use mathlib.Core.Path.{subst}
use mathlib.Core.Option.{some-injective}
use krymux.Base.Bytes.{Bytes}
use krymux.Mux.State.{Shared, wait_send, Sent, sent, writer_gone, waits, finish_outbound}
use krymux.Mux.Outbound.{
  acquire_credits, Acquired, took, session_closed, must_wait, OutPhase, reading, finished,
  first_charge, first_send, rest_charge, split, split_send, closing, OutPump, to_phase, after_send,
  after_acquire, send_last, last_frame, out_step,
}
use krymux.Mux.Valid.{Opens, IsValid}
use krymux.Mux.Keeps.{Keeps, Keeps-IsValid, sent-Keeps}
use krymux.Mux.Life.{finish_outbound-IsValid}

acquire-Keeps : (sh t : Shared) (r want n : ℕ) → acquire_credits sh r want ≡ took n t → Keeps sh t
unfolding acquire_credits
acquire-Keeps sh t r want n e = ground arith

module _ {C : Type 0} (opens : Opens) (sh sh' : Shared) (r : ℕ) (p p' : OutPump C) where
  abbrev Goes : Option (Shared × OutPump C) → Type 0
  Goes o = o ≡ some (sh', p') → IsValid opens sh → IsValid opens sh'

  Goes-to : (t : Shared) (q : OutPump C) → (IsValid opens sh → IsValid opens t) → Goes (some (t, q))
  Goes-to t q h e v =
      subst (λ (s : Shared × OutPump C). IsValid opens s.0) (some-injective _ _ e) (h v)

  charge-IsValid :
      (o : Acquired) (next : ℕ → OutPhase)
      → ((n : ℕ) (t : Shared) → o ≡ took n t → Keeps sh t)
      → Goes (elim o [
        | took n t ↦ some (t, to_phase p (next n))
        | session_closed ↦ some (sh, to_phase p (closing false))
        | must_wait ↦ none
      ])
  charge-IsValid (took n t) next k = Goes-to t _ (λ v. Keeps-IsValid (k n t refl) v)
  charge-IsValid session_closed next k = Goes-to sh _ (λ v. v)
  charge-IsValid must_wait next k = λ e v. cc e

  acquired-IsValid : (want : ℕ) (next : ℕ → OutPhase) → Goes (after_acquire sh r p want next)
  unfolding after_acquire
  acquired-IsValid want next =
      charge-IsValid (acquire_credits sh r want) next (λ n t e. acquire-Keeps sh t r want n e)

  frame-IsValid :
      (o : Sent) (next : OutPhase)
      → ((t : Shared) → o ≡ sent t → Keeps sh t)
      → Goes (elim o [
        | sent t ↦ some (t, to_phase p next)
        | writer_gone ↦ some (sh, to_phase p (closing false))
        | waits ↦ none
      ])
  frame-IsValid (sent t) next k = Goes-to t _ (λ v. Keeps-IsValid (k t refl) v)
  frame-IsValid writer_gone next k = Goes-to sh _ (λ v. v)
  frame-IsValid waits next k = λ e v. cc e

  after_send-IsValid : (frame : Bytes) (next : OutPhase) → Goes (after_send sh p frame next)
  unfolding after_send
  after_send-IsValid frame next =
      frame-IsValid (wait_send sh frame) next (λ t e. sent-Keeps sh t frame e)

  last-IsValid :
      (o : Sent)
      → ((t : Shared) → o ≡ sent t → Keeps sh t)
      → Goes (elim o [
        | sent t ↦ some (finish_outbound t r, to_phase p finished)
        | writer_gone ↦ some (finish_outbound sh r, to_phase p finished)
        | waits ↦ none
      ])
  last-IsValid (sent t) k =
      Goes-to _ _ (λ v. finish_outbound-IsValid t r (Keeps-IsValid (k t refl) v))
  last-IsValid writer_gone k = Goes-to _ _ (λ v. finish_outbound-IsValid sh r v)
  last-IsValid waits k = λ e v. cc e

  send_last-IsValid : (clean : Bool) → Goes (send_last sh r p clean)
  unfolding send_last
  send_last-IsValid clean = last-IsValid _ (λ t e. sent-Keeps sh t (last_frame sh r clean) e)

  Goes-test :
      (b : Bool) (x y : Option (Shared × OutPump C)) → Goes x → Goes y → Goes (if b then x else y)
  Goes-test true x y hx hy = hx
  Goes-test false x y hx hy = hy

module _ {C : Type 0} (opens : Opens) (sh sh' : Shared) (r : ℕ) (p' : OutPump C) where
  out_phase-IsValid :
      (p : OutPump C) (a : OutPhase)
      → out_step sh r (record p { phase = a }) ≡ some (sh', p')
      → IsValid opens sh
      → IsValid opens sh'
  unfolding out_step
  out_phase-IsValid p reading e v = cc e
  out_phase-IsValid p finished e v = cc e
  out_phase-IsValid p (first_charge c) e v = acquired-IsValid opens sh sh' r _ p' _ _ e v
  out_phase-IsValid p (first_send c n) e v = after_send-IsValid opens sh sh' r _ p' _ _ e v
  out_phase-IsValid p (rest_charge n m) e v =
      Goes-test opens sh sh' r p p' _ _ _ (acquired-IsValid opens sh sh' r _ p' _ _)
        (Goes-to opens sh sh' r p p' sh _ (λ w. w)) e v
  out_phase-IsValid p (split c m off l) e v =
      Goes-test opens sh sh' r p p' _ _ _ (acquired-IsValid opens sh sh' r _ p' _ _)
        (Goes-test opens sh sh' r p p' _ _ _ (Goes-to opens sh sh' r p p' sh _ (λ w. w))
          (Goes-to opens sh sh' r p p' sh _ (λ w. w)))
        e v
  out_phase-IsValid p (split_send c m off l) e v = after_send-IsValid opens sh sh' r _ p' _ _ e v
  out_phase-IsValid p (closing clean) e v = send_last-IsValid opens sh sh' r _ p' clean e v

  pub out_step-IsValid :
      (p : OutPump C) → out_step sh r p ≡ some (sh', p') → IsValid opens sh → IsValid opens sh'
  out_step-IsValid p e v = out_phase-IsValid p p.phase e v
