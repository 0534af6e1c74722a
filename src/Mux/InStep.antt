-- ===== src/Mux/InStep.antt =====
-- mux.rs, `inbound_pump`: every step of the machine accounts for the bytes that it takes.
use krymux.Base.{
  ℕ, ◌^◌, ◌<◌, ◌≡◌, refl, sym, ap, ◌∙◌, List, [], ◌∷◌, Option, some, none, Bool, length, arith,
}
use mathlib.Core.Path.{subst}
use mathlib.Core.Option.{some-injective}
use krymux.Base.Bytes.{Bytes, IsU32}
use krymux.Mux.State.{Shared, Inbound, set_stream}
use krymux.Mux.Inbound.{
  InPhase, receiving, finished, granting, granting_tail, growing, InPump, threshold, receive,
  pop_inbound, in_step,
}
use krymux.Mux.Credits.{in_flight, owed, IsLive, Balanced}
use krymux.Mux.Conserve.{
  Balanced-trans, maybe_grow-Balanced, end_pump-Balanced, after_window-Balanced,
}
use krymux.Mux.Pump.{logical, next_logical, receive-Balanced}

-- A change of a stream that leaves its numbers alone.
inbound-Balanced :
    (sh : Shared) (r : ℕ) (a : InPhase) (q : List Inbound)
    → IsLive sh r
    → Balanced r 0 sh a (set_stream sh r (record (sh.heap r) { inbound = q })) a
unfolding owed threshold
inbound-Balanced sh r a q v = record { balance = ground arith; live = ground arith; held = λ h. h }

as_growing :
    {r n : ℕ} {s t : Shared} {b : InPhase} (d : ℕ)
    → Balanced r n s (granting d) t b
    → Balanced r n s (growing d) t b
unfolding owed
as_growing d x = record { balance = omega (arith, x.balance); live = x.live; held = x.held }

as_tail :
    {r n : ℕ} {s t : Shared} {b : InPhase} (d : ℕ)
    → Balanced r n s (granting d) t b
    → Balanced r n s (granting_tail d) t b
unfolding owed
as_tail d x = record { balance = omega (arith, x.balance); live = x.live; held = x.held }

still : (sh : Shared) (r : ℕ) → IsLive sh r → Balanced r 0 sh receiving sh receiving
still sh r v = record { balance = omega arith; live = v; held = λ h. h }

module _ {D : Type 0} (push : D → Bytes → Option (Bytes × D)) (finish : D → Option Bytes) where
  -- Where the pump takes a message.
  module _ (now : ℕ) (wrote : Bool) (sh : Shared) (r : ℕ) (p : InPump D) where
    abbrev waiting : InPump D
    waiting = record p { phase = receiving }

    abbrev after_message : List Inbound → Option (Shared × InPump D)
    after_message [] = none
    after_message (m ∷ ms) =
        some (receive push finish now wrote (set_stream sh r (pop_inbound (sh.heap r))) r waiting m)

    abbrev message_bytes : List Inbound → Bytes
    message_bytes [] = []
    message_bytes (m ∷ ms) = logical push finish waiting m

    takes : in_step push finish now wrote sh r waiting ≡ after_message (sh.heap r).inbound
    unfolding in_step
    takes = elim (sh.heap r).inbound [ [] ↦ refl | m ∷ ms ↦ refl ]

    stands_for : next_logical push finish sh r waiting ≡ message_bytes (sh.heap r).inbound
    stands_for = elim (sh.heap r).inbound [ [] ↦ refl | m ∷ ms ↦ refl ]

  message_step :
      (now : ℕ) (wrote : Bool) (sh sh' : Shared) (r : ℕ) (p p' : InPump D) (ms : List Inbound)
      → IsLive sh r
      → length (message_bytes now wrote sh r p ms) < 2 ^ 31
      → after_message now wrote sh r p ms ≡ some (sh', p')
      → Balanced r (length (message_bytes now wrote sh r p ms)) sh receiving sh' p'.phase
  unfolding pop_inbound
  message_step now wrote sh sh' r p p' [] v h e = cc e
  message_step now wrote sh sh' r p p' (m ∷ ms) v h e =
      let popped = set_stream sh r (pop_inbound (sh.heap r)) in
      let q : InPump D = waiting now wrote sh r p in
      let pop = inbound-Balanced sh r receiving _ v in
      let next = receive-Balanced push finish now wrote popped r q m pop.live h refl in
      let n = length (logical push finish q m) in
      subst (λ (s : Shared × InPump D). Balanced r n sh receiving s.0 s.1.phase)
        (some-injective _ _ e) (Balanced-trans pop next (omega arith))

  phase_step :
      (now : ℕ) (wrote : Bool) (sh sh' : Shared) (r : ℕ) (p p' : InPump D) (a : InPhase)
      → IsLive sh r
      → IsU32 (in_flight a)
      → let q : InPump D = record p { phase = a } in
        length (next_logical push finish sh r q) < 2 ^ 31
        → in_step push finish now wrote sh r q ≡ some (sh', p')
        → Balanced r (length (next_logical push finish sh r q)) sh a sh' p'.phase
  unfolding in_step pop_inbound
  phase_step now wrote sh sh' r p p' receiving v u h e =
      let bytes = stands_for now wrote sh r p in
      subst (λ n. Balanced r n sh receiving sh' p'.phase) (sym (ap length bytes))
        (message_step now wrote sh sh' r p p' (sh.heap r).inbound v
          (subst (λ n. n < 2 ^ 31) (ap length bytes) h) (sym (takes now wrote sh r p) ∙ e))
  phase_step now wrote sh sh' r p p' finished v u h e = cc e
  phase_step now wrote sh sh' r p p' (granting d) v u h e =
      after_window-Balanced sh sh' r d p' _ v u (λ t w. maybe_grow-Balanced t r now _ w) e
  phase_step now wrote sh sh' r p p' (granting_tail d) v u h e =
      as_tail d (after_window-Balanced sh sh' r d p' _ v u (λ t w. end_pump-Balanced t r _ w) e)
  phase_step now wrote sh sh' r p p' (growing d) v u h e =
      as_growing d (after_window-Balanced sh sh' r d p' _ v u (λ t w. still t r w) e)

  -- A step of the inbound pump on a live stream, on every branch: the credit that this side owes grows by
  -- the logical bytes of the message that the step takes, and by what the window grows, and by nothing
  -- else; and the stream stays live. This takes messages of less than 2^31 logical bytes.
  pub in_step-Balanced :
      (now : ℕ) (wrote : Bool) (sh sh' : Shared) (r : ℕ) (p p' : InPump D)
      → IsLive sh r
      → IsU32 (in_flight p.phase)
      → length (next_logical push finish sh r p) < 2 ^ 31
      → in_step push finish now wrote sh r p ≡ some (sh', p')
      → Balanced r (length (next_logical push finish sh r p)) sh p.phase sh' p'.phase
  in_step-Balanced now wrote sh sh' r p p' v u h e =
      phase_step now wrote sh sh' r p p' p.phase v u h e
