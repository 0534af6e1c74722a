-- ===== src/Mux/Conserve.antt =====
-- mux.rs: the inbound pump and the growth of the window conserve credit, step by step.
use krymux.Base.{
  ℕ, ◌+◌, ◌%◌, ◌^◌, ◌<◌, ◌≡◌, refl, sym, ◌∙◌, [], ◌∷◌, some, none, Bool, true, false, ◌==◌,
  if◌then◌else◌, length, arith, ◌⊎◌, inl, inr,
}
use mathlib.Core.Path.{subst}
use mathlib.Core.Option.{some-injective}
use krymux.Base.Bytes.{Bytes, IsU32, to_be32, codes}
use krymux.Frame.{encode_frame, ft_window, ft_close}
use krymux.Mux.State.{
  Shared, set_stream, enqueue, send_control, wait_send, sent, waits, abort_stream,
}
use krymux.Mux.Inbound.{
  InPhase, receiving, granting, InPump, threshold, grow_window, add_u32, add_pending, maybe_grow,
  end_pump, consume, after_window,
}
use krymux.Mux.Credits.{
  owed, IsLive, Balanced, queued_credit-enqueue, credit_of-window, send_window_cases,
  threshold_bounds, credit_of-close,
}

module _ {r : ℕ} where
  pub Balanced-trans :
      {n m k : ℕ} {s t u : Shared} {a b c : InPhase}
      → Balanced r n s a t b
      → Balanced r m t b u c
      → n + m ≡ k
      → Balanced r k s a u c
  Balanced-trans x y e = record {
    balance = omega arith;
    live = y.live;
    held = λ h. y.held (x.held h);
  }

pub abort_stream-Balanced :
    (sh : Shared) (r : ℕ) (a : InPhase) → IsLive sh r → Balanced r 0 sh a (abort_stream sh r) a
unfolding abort_stream send_control owed threshold
abort_stream-Balanced sh r a v =
    let sid = (sh.heap r).id in
    let body : Bytes = codes "{\"code\":\"abort\"}" in
    ground (
      arith,
      queued_credit-enqueue sid sh.writer.queue (encode_frame ft_close 0 sid body),
      credit_of-close sid,
    )

module _ {D : Type 0} (sh : Shared) (r : ℕ) where
  pub maybe_grow-Balanced :
      (now : ℕ) (p : InPump D)
      → IsLive sh r
      → Balanced r 0 sh receiving (maybe_grow now sh r p).0 (maybe_grow now sh r p).1.phase
  unfolding maybe_grow grow_window owed threshold
  maybe_grow-Balanced now p v = record {
    balance = ground arith;
    live = ground arith;
    held = ground arith;
  }

  pub end_pump-Balanced :
      (p : InPump D)
      → IsLive sh r
      → Balanced r 0 sh receiving (end_pump sh r p).0 (end_pump sh r p).1.phase
  unfolding end_pump owed threshold
  end_pump-Balanced p v =
      let zeroed = set_stream sh r (record (sh.heap r) { pending_credit = 0 }) in
      let sid = (sh.heap r).id in
      let d = (sh.heap r).pending_credit in
      let f = encode_frame ft_window 0 sid (to_be32 d) in
      ground (
        arith,
        send_window_cases zeroed r d,
        threshold_bounds sh,
        queued_credit-enqueue sid sh.writer.queue f,
        credit_of-window sid d,
      )

-- The frame of held credit goes into the queue of the writer.
pub enqueue-Balanced :
    (sh : Shared) (r d : ℕ)
    → IsLive sh r
    → IsU32 d
    → let t = enqueue sh (encode_frame ft_window 0 (sh.heap r).id (to_be32 d)) in
      Balanced r 0 sh (granting d) t receiving
unfolding owed threshold
enqueue-Balanced sh r d v hd =
    let sid = (sh.heap r).id in
    let f = encode_frame ft_window 0 sid (to_be32 d) in
    ground (arith, queued_credit-enqueue sid sh.writer.queue f, credit_of-window sid d)

pub wait_send_cases :
    (sh : Shared) (f : Bytes)
    → sh.writer.gone ≡ false
    → (wait_send sh f ≡ sent (enqueue sh f)) ⊎ (wait_send sh f ≡ waits)
unfolding wait_send
wait_send_cases sh f h = ground arith

module _ {D : Type 0} (sh sh' : Shared) (r d : ℕ) (p : InPump D)
    (k : Shared → Shared × InPump D) where
  after_window_sent :
      (t : Shared)
      → wait_send sh (encode_frame ft_window 0 (sh.heap r).id (to_be32 d)) ≡ sent t
      → after_window sh r d k ≡ some (k t)
  unfolding after_window
  after_window_sent t e = rw (e, after_window)

  after_window_waits :
      wait_send sh (encode_frame ft_window 0 (sh.heap r).id (to_be32 d)) ≡ waits
      → after_window sh r d k ≡ none
  unfolding after_window
  after_window_waits e = rw (e, after_window)

  -- A send of credit that the pump held, and what the pump does next.
  pub after_window-Balanced :
      IsLive sh r
      → IsU32 d
      → ((t : Shared) → IsLive t r → Balanced r 0 t receiving (k t).0 (k t).1.phase)
      → after_window sh r d k ≡ some (sh', p)
      → Balanced r 0 sh (granting d) sh' p.phase
  after_window-Balanced v hd hk e =
      let f = encode_frame ft_window 0 (sh.heap r).id (to_be32 d) in
      elim (wait_send_cases sh f v.writing) [
        | inl w ↦
            let queued = enqueue-Balanced sh r d v hd in
            let next = hk (enqueue sh f) queued.live in
            let same = some-injective _ _ (sym (after_window_sent (enqueue sh f) w) ∙ e) in
            subst (λ (q : Shared × InPump D). Balanced r 0 sh (granting d) q.0 q.1.phase) same
              (Balanced-trans queued next (omega arith))
        | inr w ↦ cc (after_window_waits w, e)
      ]

pub add_pending-Balanced :
    (sh : Shared) (r len : ℕ)
    → IsLive sh r
    → len < 2 ^ 31
    → Balanced r len sh receiving (add_pending sh r len).0 (granting (add_pending sh r len).1)
unfolding add_pending owed threshold
add_pending-Balanced sh r len v h = ground (arith, threshold_bounds sh)

add_pending-lt : (sh : Shared) (r len : ℕ) → IsU32 (add_pending sh r len).1
unfolding add_pending
add_pending-lt sh r len = ground arith

-- The count of consumed bytes, which only the growth of the window reads.
counted-Balanced :
    (sh : Shared) (r n : ℕ)
    → IsLive sh r
    → Balanced r 0 sh receiving
        (set_stream sh r (record (sh.heap r) { consumed_since_grow = n }))
        receiving
unfolding owed threshold
counted-Balanced sh r n v = record { balance = ground arith; live = ground arith; held = λ h. h }

-- Held credit of 0 is no credit.
pub released :
    {r n : ℕ} {s t : Shared} {a : InPhase} (d : ℕ)
    → d ≡ 0
    → Balanced r n s a t (granting d)
    → Balanced r n s a t receiving
unfolding owed
released d e b = record {
  balance = omega (arith, b.balance);
  live = b.live;
  held = λ h. omega arith;
}

-- The branches of a test on a state and a pump.
module _ {D : Type 0} {r n : ℕ} {sh : Shared} {a : InPhase} where
  pub Balanced-test :
      (b : Bool) (x y : Shared × InPump D)
      → (b ≡ true → Balanced r n sh a x.0 x.1.phase)
      → (b ≡ false → Balanced r n sh a y.0 y.1.phase)
      → let q : Shared × InPump D = if b then x else y in Balanced r n sh a q.0 q.1.phase
  Balanced-test true x y hx hy = hx refl
  Balanced-test false x y hx hy = hy refl

module _ {D : Type 0} (now : ℕ) (wrote : Bool) (sh : Shared) (r : ℕ) (p : InPump D) where
  pub consume-Balanced :
      (bytes : Bytes)
      → IsLive sh r
      → length bytes < 2 ^ 31
      → p.phase ≡ receiving
      → Balanced r
          (length bytes)
          sh
          receiving
          (consume now wrote sh r p bytes).0
          (consume now wrote sh r p bytes).1.phase
  unfolding consume
  consume-Balanced [] v h e = rw e (record { balance = omega arith; live = v; held = λ h. h })
  consume-Balanced (b ∷ bs) v h e =
      let len = length (b ∷ bs) in
      let n = add_u32 (sh.heap r).consumed_since_grow (len % 2 ^ 32) in
      let counted = set_stream sh r (record (sh.heap r) { consumed_since_grow = n }) in
      let at_count = counted-Balanced sh r n v in
      let next = (add_pending counted r len).0 in
      let drained = (add_pending counted r len).1 in
      let at_pending : Balanced r len sh receiving next (granting drained) =
        Balanced-trans at_count (add_pending-Balanced counted r len at_count.live h)
          (omega arith) in
      Balanced-test (drained == 0) _ _
        (λ none_drained.
          Balanced-trans (released drained (ground arith) at_pending)
            (maybe_grow-Balanced next r now _ at_pending.live) (omega arith))
        (λ some_drained. at_pending)
