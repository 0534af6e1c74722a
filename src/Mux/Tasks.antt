-- ===== src/Mux/Tasks.antt =====
-- mux.rs: the tasks of a session: the socket writer, the socket reader, the credit ticker and the
-- keepalive.
use krymux.Base.{
  ℕ, zero, suc, ◌-◌, ◌*◌, ◌%◌, ◌^◌, List, [], ◌∷◌, ◌++◌, Bool, true, false, ◌||◌, not, Option, none,
  some, length, ltb, ◌==◌, if◌then◌else◌, min, take, drop, keep_if, ok, err,
}
use krymux.Base.Bytes.{Bytes, codes}
use krymux.Base.Json.{Json}
use krymux.Frame.{
  FrameHeader, parse, encode_frame, header_size, ft_hello, ft_open, ft_open_ack, ft_data, ft_window,
  ft_close, ft_ping, ft_pong, ft_goaway, max_hello, max_open, max_control, hard_max_frame,
}
use krymux.Compress.{Registry}
use krymux.Mux.State.{
  Shared, Inbound, set_stream, send_control, send_window, wait_send, sent, writer_gone, waits,
  teardown, our_max_data,
}
use krymux.Mux.Handle.{handled, failed, parked, handle_frame, ignore_result}
use krymux.Mux.Inbound.{add_u32}

-- The writer task: what it wrote to the socket, and whether it ended, which shuts the socket down.
pub record WriterTask : Type 0 where
  pub wire : Bytes
  pub exited : Bool

abbrev pub concat : List Bytes → Bytes
concat [] = []
concat (f ∷ fs) = f ++ concat fs

-- The frames of one batch: the first two and up to 14 more.
abbrev pub batch_limit : ℕ
batch_limit = 16

abbrev pub set_queue : Shared → List Bytes → Bool → Shared
set_queue sh queue gone = record sh { writer = record { queue = queue; gone = gone } }

-- One round of `writer_task` over the queue: a lone frame is written as it is, and a burst as one
-- buffer, after which a closed session drains the queue and ends. `wrote` says whether the write
-- went through, and `drained` how many frames of the last drain did. `none` is a task that waits.
unfoldable pub write_queue :
    Bool → ℕ → Shared → WriterTask → List Bytes → Option (Shared × WriterTask)
write_queue wrote drained sh w [] = none
write_queue wrote drained sh w (frame ∷ []) =
    if wrote
    then some (set_queue sh [] false, record w { wire = w.wire ++ frame })
    else some (set_queue sh [] true, record w { exited = true })
write_queue wrote drained sh w (frame ∷ second ∷ rest) =
    let frames : List Bytes = frame ∷ second ∷ rest in
    let left = drop batch_limit frames in
    let wire = w.wire ++ concat (take batch_limit frames) in
    if not wrote
    then some (set_queue sh left true, record w { exited = true })
    else if sh.closed
    then some
        (set_queue sh [] true, record { wire = wire ++ concat (take drained left); exited = true })
    else some (set_queue sh left false, record w { wire = wire })

unfoldable pub writer_step : Bool → ℕ → Shared → WriterTask → Option (Shared × WriterTask)
writer_step wrote drained sh w =
    if w.exited then none else write_queue wrote drained sh w sh.writer.queue

-- The largest payload that the reader takes of a frame type.
unfoldable pub frame_cap : ℕ → ℕ
frame_cap t =
    if t == ft_hello
    then max_hello
    else if t == ft_open
    then max_open
    else if t == ft_window
    then 4
    else if t == ft_close
    then 257
    else if t == ft_ping || t == ft_pong
    then 64
    else if t == ft_open_ack || t == ft_goaway
    then max_control
    else if t == ft_data
    then our_max_data
    else hard_max_frame

-- What the reader finds at the front of its input. `short` is an end of input before the frame ends.
pub data ReadFrame : Type 0 where
  short bad_frame oversized : ReadFrame
  frame : FrameHeader → Bytes → Bytes → ReadFrame

-- The part that follows the header.
unfoldable pub read_payload : FrameHeader → Bytes → ReadFrame
read_payload fh body =
    if ltb (frame_cap fh.frame_type) fh.length
    then oversized
    else if ltb (length body) fh.length
    then short
    else frame fh (take fh.length body) (drop fh.length body)

unfoldable pub read_frame : Bytes → ReadFrame
read_frame input =
    if ltb (length input) header_size then short else elim (parse (take header_size input)) [
      | err e ↦ bad_frame
      | ok fh ↦ read_payload fh (drop header_size input)
    ]

-- How the reader ends: the final state, or a state in which it waits for an inbound queue, with the
-- sends that wait and the input behind them.
pub data ReaderEnd : Type 0 where
  ended : Shared → ReaderEnd
  stalled : Shared → ℕ → List Inbound → Bytes → ReaderEnd
  no_fuel : ReaderEnd

-- The end of the reader: `closed.swap(true)`, and the teardown by whoever closes first.
unfoldable pub reader_exit : Shared → Shared
reader_exit sh = if sh.closed then sh else teardown sh

module _ (reg : Registry) (from_slice : Bytes → Option Json) (to_string : Json → Bytes)
    (now : ℕ) where
  -- `reader_task` on the whole input of the connection, up to its end.
  unfoldable pub reader_loop : ℕ → Shared → Bytes → ReaderEnd
  reader_loop zero sh input = no_fuel
  reader_loop (suc fuel) sh input = elim (read_frame input) [
    | short ↦ ended (reader_exit sh)
    | bad_frame ↦ ended (
        reader_exit
          (ignore_result (send_control sh ft_goaway 0 (codes "{\"reason\":\"bad frame\"}"))))
    | oversized ↦ ended (
        reader_exit
          (ignore_result (send_control sh ft_goaway 0 (codes "{\"reason\":\"oversized frame\"}"))))
    | frame fh payload rest ↦ elim (handle_frame reg from_slice to_string now sh fh payload) [
      | handled sh' ↦ reader_loop fuel sh' rest
      | failed e ↦ ended (reader_exit sh)
      | parked sh' r ms ↦ stalled sh' r ms rest
    ]
  ]

-- One tick for one stream: the pending credit goes out, or back if the queue is full.
unfoldable pub tick_stream : Shared → ℕ → Shared
tick_stream sh r =
    let s = sh.heap r in
    let pending = s.pending_credit in
    let zeroed = set_stream sh r (record s { pending_credit = 0 }) in
    let (tried, done) = send_window zeroed r pending in
    if pending == 0
    then zeroed
    else if done
    then tried
    else set_stream zeroed r (record (zeroed.heap r) { pending_credit = add_u32 0 pending })

abbrev pub tick_all : Shared → List (ℕ × ℕ) → Shared
tick_all sh [] = sh
tick_all sh ((sid, r) ∷ m) = tick_all (tick_stream sh r) m

-- `none` is the end of the ticker.
unfoldable pub credit_tick : Shared → Option Shared
credit_tick sh = if sh.closed then none else some (tick_all sh sh.streams)

pub data Keepalive : Type 0 where
  keepalive_ends : Shared → Keepalive
  keepalive_pinged : Shared → Keepalive
  keepalive_waits : Keepalive

-- `interval_sec.saturating_mul(3) * 1000` on u64.
unfoldable pub keepalive_deadline : ℕ → ℕ
keepalive_deadline interval_sec = min (interval_sec * 3) (2 ^ 64 - 1) * 1000 % 2 ^ 64

-- One tick of the keepalive. `is_live` says which outstanding pings are still awaited.
unfoldable pub keepalive_tick : ℕ → Bytes → (Bytes → Bool) → ℕ → Shared → Keepalive
keepalive_tick now nonce is_live interval_sec sh =
    if sh.closed
    then keepalive_ends sh
    else if ltb (keepalive_deadline interval_sec) (now - sh.last_pong_ms)
    then keepalive_ends (
        teardown (
          ignore_result (
            send_control (record sh { closed = true }) ft_goaway 0
              (codes "{\"reason\":\"keepalive timeout\"}"))))
    else elim (wait_send sh (encode_frame ft_ping 0 0 nonce)) [
      | sent sh' ↦ keepalive_pinged (record sh' { pings = keep_if is_live sh'.pings })
      | writer_gone ↦ keepalive_ends sh
      | waits ↦ keepalive_waits
    ]
