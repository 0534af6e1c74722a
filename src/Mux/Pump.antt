-- ===== src/Mux/Pump.antt =====
-- mux.rs, `inbound_pump`: every step of the pump accounts for the logical bytes of the message that it
-- takes, on every branch: application gone, decoder error, end of stream, abort.
use krymux.Base.{
  ℕ, ◌^◌, ◌<◌, ◌≡◌, [], ◌∷◌, Option, some, none, Bool, true, false, ◌==◌, leb, if◌then◌else◌,
  length, arith, Bool-cases, inl, inr,
}
use krymux.Base.Bytes.{Bytes}
use krymux.Mux.State.{Shared, Inbound, chunk, eof, abort, abort_stream, max_expansion}
use krymux.Mux.Inbound.{
  InPhase, receiving, granting, granting_tail, InPump, add_pending, end_pump, receive_decoded,
  receive_tail, receive,
}
use krymux.Mux.Credits.{owed, IsLive, Balanced}
use krymux.Mux.Conserve.{
  Balanced-trans, end_pump-Balanced, consume-Balanced, abort_stream-Balanced, add_pending-Balanced,
  released, Balanced-test,
}

-- The logical bytes that the decoder gives, none for an error.
abbrev pub decoded {ℓ} : {D : Type ℓ} → Option (Bytes × D) → Bytes
decoded none = []
decoded (some (plain, d)) = if leb (length plain) max_expansion then plain else []

abbrev pub tail_of : Option Bytes → Bytes
tail_of none = []
tail_of (some tail) = tail

held_tail :
    {r n : ℕ} {s t : Shared} {a : InPhase} (d : ℕ)
    → Balanced r n s a t (granting d)
    → Balanced r n s a t (granting_tail d)
unfolding owed
held_tail d b = record { balance = omega (arith, b.balance); live = b.live; held = b.held }

module _ {D : Type 0} (now : ℕ) (wrote : Bool) (sh : Shared) (r : ℕ) where
  ends-Balanced :
      (q : InPump D)
      → IsLive sh r
      → let s = end_pump (abort_stream sh r) r q in Balanced r 0 sh receiving s.0 s.1.phase
  ends-Balanced q v =
      let aborted = abort_stream-Balanced sh r receiving v in
      Balanced-trans aborted (end_pump-Balanced (abort_stream sh r) r q aborted.live) (omega arith)

  receive_decoded-Balanced :
      (p : InPump D) (o : Option (Bytes × D))
      → IsLive sh r
      → length (decoded o) < 2 ^ 31
      → p.phase ≡ receiving
      → let s = receive_decoded now wrote sh r p o in
        Balanced r (length (decoded o)) sh receiving s.0 s.1.phase
  unfolding receive_decoded
  receive_decoded-Balanced p none v h e = ends-Balanced p v
  receive_decoded-Balanced p (some (bytes, d)) v h e =
      let q : InPump D = record p { decomp = d } in
      elim (Bool-cases (leb (length bytes) max_expansion)) [
        | inl small ↦ rw small (consume-Balanced now wrote sh r q bytes v (rw small at h) e)
        | inr large ↦ rw large (ends-Balanced q v)
      ]

  receive_tail-Balanced :
      (p : InPump D) (o : Option Bytes)
      → IsLive sh r
      → length (tail_of o) < 2 ^ 31
      → let s = receive_tail wrote sh r p o in
        Balanced r (length (tail_of o)) sh receiving s.0 s.1.phase
  unfolding receive_tail
  receive_tail-Balanced p none v h = end_pump-Balanced sh r p v
  receive_tail-Balanced p (some []) v h = end_pump-Balanced sh r p v
  receive_tail-Balanced p (some (b ∷ bs)) v h =
      let len = length (b ∷ bs) in
      let added = add_pending-Balanced sh r len v h in
      let next = (add_pending sh r len).0 in
      let drained = (add_pending sh r len).1 in
      Balanced-test (drained == 0) _ _
        (λ none_drained.
          Balanced-trans (released drained (ground arith) added)
            (end_pump-Balanced next r _ added.live) (omega arith))
        (λ some_drained. held_tail drained added)

-- The logical bytes that a message stands for, given the codec of the stream.
module _ {D : Type 0} (push : D → Bytes → Option (Bytes × D)) (finish : D → Option Bytes) where
  abbrev pub logical : InPump D → Inbound → Bytes
  logical p (chunk wire true) = decoded (push p.decomp wire)
  logical p (chunk wire false) = wire
  logical p eof = tail_of (finish p.decomp)
  logical p abort = []

  -- The logical bytes of the message that the next step takes, if it takes one.
  abbrev pub next_logical : Shared → ℕ → InPump D → Bytes
  next_logical sh r p = elim p.phase [
    | receiving ↦ elim (sh.heap r).inbound [ [] ↦ [] | m ∷ ms ↦ logical p m ]
    | _ ↦ []
  ]

  pub receive-Balanced :
      (now : ℕ) (wrote : Bool) (sh : Shared) (r : ℕ) (p : InPump D) (m : Inbound)
      → IsLive sh r
      → length (logical p m) < 2 ^ 31
      → p.phase ≡ receiving
      → let s = receive push finish now wrote sh r p m in
        Balanced r (length (logical p m)) sh receiving s.0 s.1.phase
  unfolding receive
  receive-Balanced now wrote sh r p (chunk wire true) v h e =
      receive_decoded-Balanced now wrote sh r p (push p.decomp wire) v h e
  receive-Balanced now wrote sh r p (chunk wire false) v h e =
      consume-Balanced now wrote sh r p wire v h e
  receive-Balanced now wrote sh r p eof v h e =
      receive_tail-Balanced now wrote sh r p (finish p.decomp) v h
  receive-Balanced now wrote sh r p abort v h e = end_pump-Balanced sh r p v
