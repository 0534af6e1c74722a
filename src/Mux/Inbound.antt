-- ===== src/Mux/Inbound.antt =====
-- mux.rs: the inbound pump of a stream (decompress, deliver, give credit back) and the growth of the
-- receive window. The pump is a machine whose phases are its `await` points on the writer queue.
use krymux.Base.{
  ℕ, ◌+◌, ◌-◌, ◌%◌, ◌/◌, ◌^◌, [], ◌∷◌, ◌++◌, Bool, true, false, Option, none, some, length, leb,
  ltb, ◌==◌, if◌then◌else◌, is_empty, max, min,
}
use krymux.Base.Bytes.{Bytes, to_be32}
use krymux.Frame.{encode_frame, ft_window}
use krymux.Mux.State.{
  Shared, StreamInner, Inbound, chunk, eof, abort, set_stream, send_window, abort_stream, wait_send,
  sent, writer_gone, waits, max_expansion,
}

abbrev pub add_u32 : ℕ → ℕ → ℕ
add_u32 a b = (a + b) % 2 ^ 32

-- `granting` waits to send the drained credit and then looks at the window, `granting_tail` does so
-- for the tail at the end of the stream, and `growing` waits to send a bonus.
pub data InPhase : Type 0 where
  receiving finished : InPhase
  granting granting_tail growing : ℕ → InPhase

-- `delivered` is what the application side took.
pub record InPump (D : Type 0) : Type 0 where
  pub decomp : D
  pub discarding : Bool
  pub delivered : Bytes
  pub phase : InPhase

unfoldable pub threshold : Shared → ℕ
threshold sh = max (sh.rx_window / 4) 16384

-- `maybe_grow_window` up to its await: the new stream and the bonus, 0 for an early return.
unfoldable pub grow_window : ℕ → ℕ → StreamInner → StreamInner × ℕ
grow_window now rx_window_max s =
    let bonus = min s.granted (rx_window_max - s.granted) in
    if leb rx_window_max s.granted
    then (s, 0)
    else if ltb s.consumed_since_grow (s.granted / 2)
    then (s, 0)
    else if ltb (now - s.grow_at) 100
    then (s, 0)
    else if bonus == 0
    then (s, 0)
    else (
      record s { granted = add_u32 s.granted bonus; consumed_since_grow = 0; grow_at = now },
      bonus,
    )

-- `pending_credit.fetch_add`, and the swap to 0 at the threshold: the credit to send, or 0.
unfoldable pub add_pending : Shared → ℕ → ℕ → Shared × ℕ
add_pending sh r len =
    let s = sh.heap r in
    let p = add_u32 s.pending_credit (len % 2 ^ 32) in
    if leb (threshold sh) p
    then (set_stream sh r (record s { pending_credit = 0 }), p)
    else (set_stream sh r (record s { pending_credit = p }), 0)

unfoldable pub pop_inbound : StreamInner → StreamInner
pop_inbound s = record s { inbound = elim s.inbound [ [] ↦ [] | m ∷ ms ↦ ms ] }

module _ {D : Type 0} where
  unfoldable pub maybe_grow : ℕ → Shared → ℕ → InPump D → Shared × InPump D
  maybe_grow now sh r p =
      let (s, bonus) = grow_window now sh.rx_window_max (sh.heap r) in
      (set_stream sh r s, record p { phase = if bonus == 0 then receiving else growing bonus })

  -- What follows the loop: the credit that is left goes out, or back if the queue is full. The
  -- receiver of the inbound queue is dropped.
  unfoldable pub end_pump : Shared → ℕ → InPump D → Shared × InPump D
  end_pump sh r p =
      let s = sh.heap r in
      let drained = s.pending_credit in
      let zeroed = set_stream sh r (record s { pending_credit = 0 }) in
      let (tried, done) = send_window zeroed r drained in
      let after : Shared =
        if drained == 0
        then zeroed
        else if done
        then tried
        else set_stream zeroed r (record (zeroed.heap r) { pending_credit = add_u32 0 drained }) in
      (
        set_stream after r (record (after.heap r) { inbound = []; pump_gone = true }),
        record p { phase = finished },
      )

  -- The logical bytes of one DATA message. `wrote` is the outcome of the write to the application.
  unfoldable pub consume : ℕ → Bool → Shared → ℕ → InPump D → Bytes → Shared × InPump D
  consume now wrote sh r p plain =
      let s = sh.heap r in
      let counted = set_stream sh r (record s {
        consumed_since_grow = add_u32 s.consumed_since_grow (length plain % 2 ^ 32);
      }) in
      let taken : InPump D =
        if p.discarding
        then p
        else if wrote
        then record p { delivered = p.delivered ++ plain }
        else record p { discarding = true } in
      let (added, drained) = add_pending counted r (length plain) in
      if is_empty plain
      then (sh, p)
      else if drained == 0
      then maybe_grow now added r taken
      else (added, record taken { phase = granting drained })

  -- `send_window_await`: it waits for room, and ignores a writer that is gone.
  unfoldable pub after_window :
      Shared → ℕ → ℕ → (Shared → Shared × InPump D) → Option (Shared × InPump D)
  after_window sh r delta k =
      elim (wait_send sh (encode_frame ft_window 0 (sh.heap r).id (to_be32 delta))) [
        | sent sh' ↦ some (k sh')
        | writer_gone ↦ some (k sh)
        | waits ↦ none
      ]

  -- What the decoder gives for a compressed chunk; `none` is an error, and too large an expansion
  -- counts as one.
  unfoldable pub receive_decoded :
      ℕ → Bool → Shared → ℕ → InPump D → Option (Bytes × D) → Shared × InPump D
  receive_decoded now wrote sh r p none = end_pump (abort_stream sh r) r p
  receive_decoded now wrote sh r p (some (plain, d)) =
      if leb (length plain) max_expansion
      then consume now wrote sh r (record p { decomp = d }) plain
      else end_pump (abort_stream sh r) r (record p { decomp = d })

  -- What the decoder still holds at the end of the stream.
  unfoldable pub receive_tail : Bool → Shared → ℕ → InPump D → Option Bytes → Shared × InPump D
  receive_tail wrote sh r p none = end_pump sh r p
  receive_tail wrote sh r p (some tail) =
      let taken : InPump D = if wrote then record p { delivered = p.delivered ++ tail } else p in
      let (added, drained) = add_pending sh r (length tail) in
      if is_empty tail
      then end_pump sh r p
      else if drained == 0
      then end_pump added r taken
      else (added, record taken { phase = granting_tail drained })

  -- The codec of the stream: `Decompressor::push` and `Decompressor::finish`.
  module _ (push : D → Bytes → Option (Bytes × D)) (finish : D → Option Bytes) where
    unfoldable pub receive : ℕ → Bool → Shared → ℕ → InPump D → Inbound → Shared × InPump D
    receive now wrote sh r p (chunk wire true) =
        receive_decoded now wrote sh r p (push p.decomp wire)
    receive now wrote sh r p (chunk wire false) = consume now wrote sh r p wire
    receive now wrote sh r p eof = receive_tail wrote sh r p (finish p.decomp)
    receive now wrote sh r p abort = end_pump sh r p

    -- One step of the pump; `none` is a pump that waits.
    unfoldable pub in_step : ℕ → Bool → Shared → ℕ → InPump D → Option (Shared × InPump D)
    in_step now wrote sh r p = elim p.phase [
      | finished ↦ none
      | granting drained ↦ after_window sh r drained λ sh'. maybe_grow now sh' r p
      | granting_tail drained ↦ after_window sh r drained λ sh'. end_pump sh' r p
      | growing bonus ↦ after_window sh r bonus λ sh'. (sh', record p { phase = receiving })
      | receiving ↦ elim (sh.heap r).inbound [
        | [] ↦ none
        | m ∷ ms ↦ some (receive now wrote (set_stream sh r (pop_inbound (sh.heap r))) r p m)
      ]
    ]
