-- ===== src/Mux/Progress.antt =====
-- mux.rs, `outbound_pump`: while there is credit and room in the writer queue, the pump moves, and each
-- move brings the chunk nearer to its end.
use krymux.Base.{
  ℕ, ◌+◌, ◌-◌, ◌*◌, ◌≤◌, ◌<◌, ◌≡◌, refl, ◌∙◌, some, true, false, ltb, length, arith, Bool-cases,
  ◌⊎◌, inl, inr, min, take, drop, if_true, if_false,
}
use krymux.Base.Bytes.{Bytes}
use krymux.Mux.State.{Shared, enqueue, wait_send, sent, writer_queue}
use krymux.Mux.Outbound.{
  is_positive, Chunk, OutPhase, reading, finished, first_charge, first_send, rest_charge, split,
  split_send, closing, OutPump, data_frame, last_frame, split_next, to_phase, out_step,
}
use krymux.Mux.Sending.{Fits, taken, acquire_took, taken_bounds}
use krymux.Mux.Sends.{after_took, after_sent, last_sent}

-- How far the chunk is from its end.
abbrev pub weight : OutPhase → ℕ
weight reading = 0
weight finished = 0
weight (first_charge c) = 2 * c.logical + 3 * length c.wire + 2
weight (first_send c charged) = 2 * (c.logical - charged) + 3 * length c.wire + 2
weight (rest_charge n charged) = 2 * (n - charged) + 1
weight (split c charged off limit) = 2 * (c.logical - charged) + 3 * (length c.wire - off) + 1
weight (split_send c charged off limit) = 2 * (c.logical - charged) + 3 * (length c.wire - off)
weight (closing clean) = 1

-- The pump has something to do, and a piece to send is not empty.
abbrev pub Busy : OutPhase → Type 0
Busy reading = ⊥
Busy finished = ⊥
Busy (first_charge c) = Unit {0}
Busy (first_send c charged) = Unit {0}
Busy (rest_charge n charged) = Unit {0}
Busy (split c charged off limit) = Unit {0}
Busy (split_send c charged off limit) = off < length c.wire
Busy (closing clean) = Unit {0}

-- The pump waits for a read, is done, or has something to do.
abbrev pub Settled : OutPhase → Type 0
Settled a = (a ≡ reading) ⊎ ((a ≡ finished) ⊎ Busy a)

pub record Runs {C : Type 0} (sh : Shared) (r : ℕ) (p : OutPump C) : Type 0 where
  pub state : Shared
  pub pump : OutPump C
  pub steps : out_step sh r p ≡ some (state, pump)
  pub shrinks : weight pump.phase < weight p.phase
  pub settled : Settled pump.phase

sends :
    (sh : Shared) (f : Bytes)
    → sh.writer.gone ≡ false
    → length sh.writer.queue < writer_queue
    → wait_send sh f ≡ sent (enqueue sh f)
unfolding wait_send
sends sh f w room = ground arith

split_next_nearer :
    (c : Chunk) (m n off k : ℕ)
    → 0 < n
    → n ≤ c.logical - m
    → (weight (split_next c (m + n) off k) < weight (split c m off k))
      × Settled (split_next c (m + n) off k)
unfolding split_next
split_next_nearer c m n off k pos le = elim (Bool-cases (ltb off (length c.wire))) [
  | inl more ↦ rw more (omega arith, inr (inr (ground (arith, more))))
  | inr no_more ↦ rw no_more (omega arith, inr (inr _))
]

module _ {C : Type 0} (limit : ℕ) (sh : Shared) (r : ℕ) where
  phase-Runs :
      (p : OutPump C) (a : OutPhase)
      → sh.closed ≡ false
      → sh.writer.gone ≡ false
      → length sh.writer.queue < writer_queue
      → is_positive (sh.heap r).credits ≡ true
      → 0 < limit
      → Fits limit a
      → Busy a
      → Runs sh r (record p { phase = a })
  unfolding out_step to_phase
  phase-Runs p reading up w room pos l f b = elim b [ ]
  phase-Runs p finished up w room pos l f b = elim b [ ]
  phase-Runs p (first_charge c) up w room pos l f b =
      let n = taken sh r c.logical in
      let bounds = taken_bounds sh r c.logical pos f.0 in
      record {
        state = _;
        pump = _;
        steps = after_took limit sh sh r c.logical _ p _ n _ (acquire_took sh r c.logical up pos);
        shrinks = omega arith;
        settled = inr (inr _);
      }
  phase-Runs p (first_send c n) up w room pos l f b =
      let frame = data_frame sh r c.compressed c.wire in
      record {
        state = _;
        pump = _;
        steps =
            after_sent limit sh sh r _ p frame (rest_charge c.logical n) _ (sends sh frame w room);
        shrinks = omega arith;
        settled = inr (inr _);
      }
  phase-Runs p (rest_charge n m) up w room pos l f b = elim (Bool-cases (ltb m n)) [
    | inl less ↦
        let t = taken sh r (n - m) in
        let bounds = taken_bounds sh r (n - m) pos (ground arith) in
        record {
          state = _;
          pump = _;
          steps =
              if_true _ _ _ less
              ∙ after_took limit sh sh r (n - m) _ p _ t _ (acquire_took sh r (n - m) up pos);
          shrinks = omega arith;
          settled = inr (inr _);
        }
    | inr done ↦ record {
      state = _;
      pump = _;
      steps = if_false _ _ _ done;
      shrinks = omega arith;
      settled = inl refl;
    }
  ]
  phase-Runs p (split c m off k) up w room pos l f b = elim (Bool-cases (ltb m c.logical)) [
    | inl less ↦
        let want = c.logical - m in
        let bounds = taken_bounds sh r want pos (ground arith) in
        let nearer = split_next_nearer c m (taken sh r want) off k bounds.0 bounds.1.0 in
        record {
          state = _;
          pump = _;
          steps =
              if_true _ _ _ less
              ∙ after_took limit sh sh r want _ p _ _ _ (acquire_took sh r want up pos);
          shrinks = nearer.0;
          settled = nearer.1;
        }
    | inr charged ↦ elim (Bool-cases (ltb off (length c.wire))) [
      | inl more ↦ record {
        state = _;
        pump = _;
        steps = if_false _ _ _ charged ∙ if_true _ _ _ more;
        shrinks = omega arith;
        settled = inr (inr (ground (arith, more)));
      }
      | inr no_more ↦ record {
        state = _;
        pump = _;
        steps = if_false _ _ _ charged ∙ if_false _ _ _ no_more;
        shrinks = omega arith;
        settled = inl refl;
      }
    ]
  ]
  phase-Runs p (split_send c m off k) up w room pos l f b =
      let n = min k (length c.wire - off) in
      let frame = data_frame sh r c.compressed (take n (drop off c.wire)) in
      record {
        state = _;
        pump = _;
        steps =
            after_sent limit sh sh r _ p frame (split c m (off + n) k) _ (sends sh frame w room);
        shrinks = omega (arith, f.1.0);
        settled = inr (inr _);
      }
  phase-Runs p (closing clean) up w room pos l f b = record {
    state = _;
    pump = _;
    steps = last_sent limit sh sh r _ p clean _ (sends sh (last_frame sh r clean) w room);
    shrinks = omega arith;
    settled = inr (inl refl);
  }

  -- In a session that is up, with room in the writer queue and credit on the stream, an outbound pump
  -- that has something to do makes a step. The step lowers the weight of what is left of the chunk, and
  -- leaves the pump at its next read, at its end, or again with something to do.
  pub out_step-Runs :
      (p : OutPump C)
      → sh.closed ≡ false
      → sh.writer.gone ≡ false
      → length sh.writer.queue < writer_queue
      → is_positive (sh.heap r).credits ≡ true
      → 0 < limit
      → Fits limit p.phase
      → Busy p.phase
      → Runs sh r p
  out_step-Runs p up w room pos l f b = phase-Runs p p.phase up w room pos l f b
