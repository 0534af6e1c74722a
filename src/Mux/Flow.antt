-- ===== src/Mux/Flow.antt =====
-- mux.rs, the receive side: the steps that touch the credit of a stream, in any order, and what they
-- add up to.
use krymux.Base.{ℕ, ◌+◌, ◌^◌, ◌≤◌, ◌<◌, ◌≡◌, ap, List, ◌∷◌, Option, some, Bool, length, arith}
use krymux.Base.Bytes.{Bytes, IsU32}
use krymux.Mux.State.{Shared, Inbound, set_stream, try_inbound}
use krymux.Mux.Tasks.{tick_stream}
use krymux.Mux.Inbound.{InPhase, InPump, threshold, in_step}
use krymux.Mux.Credits.{
  credit_of, queued_credit, in_flight, owed, IsLive, Balanced, tick_stream-Balanced,
}
use krymux.Mux.Pump.{next_logical}
use krymux.Mux.InStep.{in_step-Balanced}

try_inbound-Balanced :
    (sh : Shared) (r : ℕ) (a : InPhase) (m : Inbound)
    → IsLive sh r
    → Balanced r 0 sh a (set_stream sh r (try_inbound (sh.heap r) m)) a
unfolding owed threshold
try_inbound-Balanced sh r a m v = record {
  balance = ground arith;
  live = ground arith;
  held = λ h. h;
}

module _ {D : Type 0} (push : D → Bytes → Option (Bytes × D)) (finish : D → Option Bytes) where
  -- Steps of the session that touch the stream `r`: its pump, the ticker, a message that arrives, and
  -- the writer task, which takes the oldest frame. Between the two states `consumed` logical bytes were
  -- taken from the inbound queue and `granted` credit left for the peer.
  pub data Flow (r : ℕ) (sh : Shared) (p : InPump D) : Shared → InPump D → ℕ → ℕ → Type 0 where
    here : Flow r sh p sh p 0 0
    pump :
        {sh1 sh2 : Shared} {p1 p2 : InPump D} {consumed granted : ℕ} (now : ℕ) (wrote : Bool)
        → Flow r sh p sh1 p1 consumed granted
        → length (next_logical push finish sh1 r p1) < 2 ^ 31
        → in_step push finish now wrote sh1 r p1 ≡ some (sh2, p2)
        → Flow r sh p sh2 p2 (consumed + length (next_logical push finish sh1 r p1)) granted
    tick :
        {sh1 : Shared} {p1 : InPump D} {consumed granted : ℕ}
        → Flow r sh p sh1 p1 consumed granted
        → Flow r sh p (tick_stream sh1 r) p1 consumed granted
    arrive :
        {sh1 : Shared} {p1 : InPump D} {consumed granted : ℕ} (m : Inbound)
        → Flow r sh p sh1 p1 consumed granted
        → Flow r sh p (set_stream sh1 r (try_inbound (sh1.heap r) m)) p1 consumed granted
    write :
        {sh1 : Shared} {p1 : InPump D} {consumed granted : ℕ} (f : Bytes) (fs : List Bytes)
        → Flow r sh p sh1 p1 consumed granted
        → sh1.writer.queue ≡ f ∷ fs
        → Flow r sh p
            (record sh1 { writer = record (sh1.writer) { queue = fs } })
            p1
            consumed
            (granted + credit_of (sh1.heap r).id f)

  -- What the steps keep, with the credit that left counted in.
  record Kept (r : ℕ) (sh : Shared) (p : InPump D) (sh' : Shared) (p' : InPump D)
      (consumed granted : ℕ) : Type 0 where
    pub total :
        granted + owed sh' r p'.phase + (sh.heap r).granted
        ≡ owed sh r p.phase + (sh'.heap r).granted + consumed
    pub still_live : IsLive sh' r
    pub fits : IsU32 (in_flight p'.phase)

  Balanced-Kept :
      {r : ℕ} {sh sh1 sh2 : Shared} {p p1 p2 : InPump D} {consumed granted n : ℕ}
      → Kept r sh p sh1 p1 consumed granted
      → Balanced r n sh1 p1.phase sh2 p2.phase
      → Kept r sh p sh2 p2 (consumed + n) granted
  Balanced-Kept k b = record {
    total = omega (arith, k.total, b.balance);
    still_live = b.live;
    fits = b.held k.fits;
  }

  zero-Kept :
      {r : ℕ} {sh sh1 sh2 : Shared} {p p1 p2 : InPump D} {consumed granted : ℕ}
      → Kept r sh p sh1 p1 consumed granted
      → Balanced r 0 sh1 p1.phase sh2 p2.phase
      → Kept r sh p sh2 p2 consumed granted
  zero-Kept k b = record {
    total = omega (arith, k.total, b.balance);
    still_live = b.live;
    fits = b.held k.fits;
  }

  write-Kept :
      {r : ℕ} {sh sh1 : Shared} {p p1 : InPump D} {consumed granted : ℕ} (f : Bytes)
      (fs : List Bytes)
      → Kept r sh p sh1 p1 consumed granted
      → sh1.writer.queue ≡ f ∷ fs
      → Kept r sh p
          (record sh1 { writer = record (sh1.writer) { queue = fs } })
          p1
          consumed
          (granted + credit_of (sh1.heap r).id f)
  unfolding owed threshold queued_credit
  write-Kept {r} {sh1 = sh1} f fs k e =
      let q : queued_credit (sh1.heap r).id sh1.writer.queue
          ≡ credit_of (sh1.heap r).id f + queued_credit (sh1.heap r).id fs =
        ap (queued_credit (sh1.heap r).id) e in
      let v = k.still_live in
      record {
        total = omega (arith, k.total, q);
        still_live = record {
          up = v.up;
          writing = v.writing;
          id_fits = v.id_fits;
          window_fits = v.window_fits;
          max_fits = v.max_fits;
          pending = v.pending;
          granted = v.granted;
        };
        fits = k.fits;
      }

  Flow-Kept :
      {r : ℕ} {sh : Shared} {p : InPump D} {sh' : Shared} {p' : InPump D} {consumed granted : ℕ}
      → IsLive sh r
      → IsU32 (in_flight p.phase)
      → Flow r sh p sh' p' consumed granted
      → Kept r sh p sh' p' consumed granted
  Flow-Kept v u here = record { total = omega arith; still_live = v; fits = u }
  Flow-Kept v u (pump {sh1} {sh2} {p1} {p2} now wrote f h e) =
      let k = Flow-Kept v u f in
      Balanced-Kept k
        (in_step-Balanced push finish now wrote sh1 sh2 _ p1 p2 k.still_live k.fits h e)
  Flow-Kept {r} v u (tick {sh1} {p1} f) =
      let k = Flow-Kept v u f in zero-Kept k (tick_stream-Balanced sh1 r p1.phase k.still_live)
  Flow-Kept {r} v u (arrive {sh1} {p1} m f) =
      let k = Flow-Kept v u f in zero-Kept k (try_inbound-Balanced sh1 r p1.phase m k.still_live)
  Flow-Kept v u (write f fs w e) = write-Kept f fs (Flow-Kept v u w) e

  -- Over any steps of the pump, the ticker, the reader and the writer that touch a live stream, in any
  -- order, no credit is lost or doubled: what left for the peer and what is still owed, less what was
  -- owed at the start, is exactly the logical bytes consumed and what the window grew by.
  pub credit_conserved :
      {r : ℕ} {sh : Shared} {p : InPump D} {sh' : Shared} {p' : InPump D} {consumed granted : ℕ}
      → IsLive sh r
      → IsU32 (in_flight p.phase)
      → Flow r sh p sh' p' consumed granted
      → granted + owed sh' r p'.phase + (sh.heap r).granted
        ≡ owed sh r p.phase + (sh'.heap r).granted + consumed
  credit_conserved v u f = (Flow-Kept v u f).total

  -- Over any steps of the pump, the ticker, the reader and the writer that touch a live stream, the
  -- pending credit of the stream stays below the threshold, and its window within the session's
  -- maximum.
  pub Flow-bounds :
      {r : ℕ} {sh : Shared} {p : InPump D} {sh' : Shared} {p' : InPump D} {consumed granted : ℕ}
      → IsLive sh r
      → IsU32 (in_flight p.phase)
      → Flow r sh p sh' p' consumed granted
      → ((sh'.heap r).pending_credit < threshold sh') × ((sh'.heap r).granted ≤ sh'.rx_window_max)
  Flow-bounds v u f = let k = Flow-Kept v u f in (k.still_live.pending, k.still_live.granted)
