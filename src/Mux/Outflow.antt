-- ===== src/Mux/Outflow.antt =====
-- mux.rs, `outbound_pump`: what its reads and its steps add up to, whatever the other tasks do between.
use krymux.Base.{
  ℕ, ◌+◌, ◌≡◌, refl, sym, ap, ◌∙◌, List, [], ◌++◌, Option, some, false, arith, append-nil,
  append_assoc,
}
use krymux.Base.Bytes.{Bytes}
use krymux.Mux.State.{Shared}
use krymux.Mux.Outbound.{OutPhase, reading, OutPump, ReadEvent, read_chunk, out_step}
use krymux.Mux.Moves.{out_step-Moved}
use krymux.Mux.Sending.{unsent, debt, Fits}
use krymux.Mux.Given.{append_left, payloads, payloads-frames, given, read-Fits, read-given}

module _ {C : Type 0} (push : C → Bytes → Option (Bytes × C)) (raw : C) where
  -- Steps of a session that is up: the outbound pump of the stream `r`, its reads, and any change by
  -- another task that leaves the limit of the peer alone and can only add credit. Between the two
  -- states the reads gave the pump `fed` bytes for the wire, which stand for `logical` bytes; the
  -- DATA frames that the pump queued carry `sent`, and the peer granted `granted`.
  pub data Outflow (r : ℕ) (sh : Shared) (p : OutPump C)
      : Shared → OutPump C → Bytes → Bytes → ℕ → ℕ → Type 0 where
    begin : Outflow r sh p sh p [] [] 0 0
    step :
        {sh1 sh2 : Shared} {p1 p2 : OutPump C} {fed sent : Bytes} {logical granted : ℕ}
        (new : List Bytes)
        → Outflow r sh p sh1 p1 fed sent logical granted
        → out_step sh1 r p1 ≡ some (sh2, p2)
        → sh2.writer.queue ≡ sh1.writer.queue ++ new
        → Outflow r sh p sh2 p2 fed (sent ++ payloads new) logical granted
    read :
        {sh1 : Shared} {p1 : OutPump C} {fed sent : Bytes} {logical granted : ℕ} (ev : ReadEvent)
        → Outflow r sh p sh1 p1 fed sent logical granted
        → p1.phase ≡ reading
        → Outflow r sh p sh1
            (read_chunk push raw sh1 r p1 ev)
            (fed ++ (given push raw sh1 r p1 ev).0)
            sent
            (logical + (given push raw sh1 r p1 ev).1)
            granted
    other :
        {sh1 : Shared} {p1 : OutPump C} {fed sent : Bytes} {logical granted : ℕ} (sh2 : Shared)
        (n : ℕ)
        → Outflow r sh p sh1 p1 fed sent logical granted
        → sh2.closed ≡ false
        → sh2.writer.gone ≡ false
        → sh2.peer_max_data ≡ sh1.peer_max_data
        → (sh2.heap r).credits ≡ (sh1.heap r).credits + n
        → Outflow r sh p sh2 p1 fed sent logical (granted + n)

  record Kept (r : ℕ) (sh : Shared) (p : OutPump C) (sh' : Shared) (p' : OutPump C)
      (fed sent : Bytes) (logical granted : ℕ) : Type 0 where
    pub wire : sent ++ unsent p'.phase ≡ unsent p.phase ++ fed
    pub charge :
        (sh.heap r).credits + granted + debt p'.phase
        ≡ (sh'.heap r).credits + debt p.phase + logical
    pub fits : Fits sh'.peer_max_data p'.phase
    pub up : sh'.closed ≡ false
    pub writing : sh'.writer.gone ≡ false
    pub same_limit : sh'.peer_max_data ≡ sh.peer_max_data

  unsent_reading : (a : OutPhase) → a ≡ reading → (unsent a ≡ []) × (debt a ≡ 0)
  unsent_reading a e = rw e (refl, refl)

  Outflow-Kept :
      {r : ℕ} {sh : Shared} {p : OutPump C} {sh' : Shared} {p' : OutPump C} {fed sent : Bytes}
      {logical granted : ℕ}
      → sh.closed ≡ false
      → sh.writer.gone ≡ false
      → Fits sh.peer_max_data p.phase
      → Outflow r sh p sh' p' fed sent logical granted
      → Kept r sh p sh' p' fed sent logical granted
  Outflow-Kept up w f begin = record {
    wire = sym (append-nil _);
    charge = omega arith;
    fits = f;
    up = up;
    writing = w;
    same_limit = refl;
  }
  Outflow-Kept {r} up w f (step {sh1} {sh2} {p1} {p2} {fed} {sent} new o e n) =
      let k = Outflow-Kept up w f o in
      let m = out_step-Moved sh1.peer_max_data sh1 sh2 r p2 p1 k.up k.writing k.fits e in
      record {
        wire =
            ap (λ x. (sent ++ payloads x) ++ unsent p2.phase)
              (append_left sh1.writer.queue new _ (sym n ∙ m.queued))
            ∙ ap (λ x. (sent ++ x) ++ unsent p2.phase) (payloads-frames sh1 r p1.phase)
            ∙ append_assoc sent _ _
            ∙ ap (λ x. sent ++ x) m.wire
            ∙ k.wire;
        charge = omega (arith, k.charge, m.charge);
        fits = rw m.same_limit m.fits;
        up = m.up;
        writing = m.writing;
        same_limit = m.same_limit ∙ k.same_limit;
      }
  Outflow-Kept {r} {sh} {p} up w f (read {sh1} {p1} {fed} {sent} ev o e) =
      let k = Outflow-Kept up w f o in
      let nothing = unsent_reading p1.phase e in
      let new = (given push raw sh1 r p1 ev).0 in
      let same = read-given push raw sh1 r p1 ev in
      record {
        wire =
            ap (λ x. sent ++ x.0) same
            ∙ ap (λ x. x ++ new)
                (sym (append-nil sent) ∙ ap (λ x. sent ++ x) (sym nothing.0) ∙ k.wire)
            ∙ append_assoc (unsent p.phase) fed new;
        charge = omega (arith, k.charge, nothing.1, ap (λ x. x.1) same);
        fits = read-Fits push raw sh1 r p1 ev;
        up = k.up;
        writing = k.writing;
        same_limit = k.same_limit;
      }
  Outflow-Kept up w f (other sh2 n o u2 w2 same c) =
      let k = Outflow-Kept up w f o in
      record {
        wire = k.wire;
        charge = omega (arith, k.charge, c);
        fits = rw same k.fits;
        up = u2;
        writing = w2;
        same_limit = same ∙ k.same_limit;
      }

  -- Over the reads and the steps of the outbound pump of a session that is up, and whatever the other
  -- tasks do in between, the payloads of the DATA frames that it queued so far and the bytes not sent
  -- yet are, in order, what the pump started with and what the reads gave it: each chunk as it was read,
  -- or as the codec made it where compression applies. The credit that is gone is exactly the logical
  -- bytes of these, less what is not charged yet. It starts in a phase whose frames fit the peer's cap.
  pub Outflow-conserved :
      {r : ℕ} {sh : Shared} {p : OutPump C} {sh' : Shared} {p' : OutPump C} {fed sent : Bytes}
      {logical granted : ℕ}
      → sh.closed ≡ false
      → sh.writer.gone ≡ false
      → Fits sh.peer_max_data p.phase
      → Outflow r sh p sh' p' fed sent logical granted
      → (sent ++ unsent p'.phase ≡ unsent p.phase ++ fed)
        × ((sh.heap r).credits + granted + debt p'.phase
            ≡ (sh'.heap r).credits + debt p.phase + logical)
  Outflow-conserved up w f o = let k = Outflow-Kept up w f o in (k.wire, k.charge)
