-- ===== src/Mux/State.antt =====
-- mux.rs: the state of a session and of its streams, the writer queue and the control frames.
-- The `Arc<StreamInner>` values live in a heap, since the map, the handles and the pumps share them.
use krymux.Base.{
  ℕ, List, [], ◌∷◌, ◌++◌, Bool, true, false, ◌&&◌, not, Option, none, some, length, ltb, ◌==◌,
  if◌then◌else◌,
}
use krymux.Base.Bytes.{Bytes, to_be32, codes}
use krymux.Frame.{encode_frame, ft_goaway, ft_window, ft_close, default_max_data}

abbrev pub default_window : ℕ
default_window = 262144

abbrev pub duplex_buf : ℕ
duplex_buf = 65536

abbrev pub our_max_data : ℕ
our_max_data = default_max_data

abbrev pub max_expansion : ℕ
max_expansion = 33554432

-- Capacities of the inbound queue of a stream and of the writer queue of a session.
abbrev pub inbound_queue : ℕ
inbound_queue = 128

abbrev pub writer_queue : ℕ
writer_queue = 1024

pub record Target : Type 0 where
  pub host : Option Bytes
  pub port : ℕ
  pub unix : Option Bytes
  pub hint : Bytes

-- `chunk` is the constructor `Data`: the wire payload and the COMPRESSED flag.
pub data Inbound : Type 0 where
  chunk : Bytes → Bool → Inbound
  eof : Inbound
  abort : Inbound

-- What the oneshot channel of a pending open holds: an upstream label, or why it was refused.
pub data Verdict : Type 0 where
  accepted : Bytes → Verdict
  refused : Bytes → Verdict

-- `inbound` is the queue behind `inbound_tx`, oldest first, and `pump_gone` says that its receiver
-- was dropped. `ack` says that the sender of the oneshot channel is still there, and `verdict` is
-- what went through it. `credits` is the bit pattern of an i64. Times are in milliseconds.
pub record StreamInner : Type 0 where
  pub id : ℕ
  pub inbound : List Inbound
  pub pump_gone : Bool
  pub credits : ℕ
  pub pending_credit : ℕ
  pub granted : ℕ
  pub consumed_since_grow : ℕ
  pub grow_at : ℕ
  pub ack : Bool
  pub verdict : Option Verdict
  pub ack_done : Bool
  pub compression : Bytes
  pub requested_level : Option ℕ
  pub app_gone : Bool
  pub out_done : Bool

-- The queue behind `writer`, oldest first; `gone` says that the writer task dropped its receiver.
pub record Writer : Type 0 where
  pub queue : List Bytes
  pub gone : Bool

-- `streams` maps an id to a place in `heap`; `next_ref` is the first free place. `handed` lists what
-- the stream handler was called with, newest first.
pub record Shared : Type 0 where
  pub is_client : Bool
  pub writer : Writer
  pub streams : List (ℕ × ℕ)
  pub heap : ℕ → StreamInner
  pub next_ref : ℕ
  pub next_id : ℕ
  pub peer_max_data : ℕ
  pub peer_window : ℕ
  pub peer_supported : List Bytes
  pub ready : Bool
  pub closed : Bool
  pub max_streams : ℕ
  pub rx_window : ℕ
  pub rx_window_max : ℕ
  pub our_supported : List Bytes
  pub on_stream : Bool
  pub handed : List (ℕ × Target)
  pub pings : List Bytes
  pub last_pong_ms : ℕ

-- The map of streams.
abbrev pub lookup : ℕ → List (ℕ × ℕ) → Option ℕ
lookup k [] = none
lookup k ((j, r) ∷ m) = if j == k then some r else lookup k m

abbrev pub remove : ℕ → List (ℕ × ℕ) → List (ℕ × ℕ)
remove k [] = []
remove k ((j, r) ∷ m) = if j == k then remove k m else (j, r) ∷ remove k m

abbrev pub insert : ℕ → ℕ → List (ℕ × ℕ) → List (ℕ × ℕ)
insert k r m = (k, r) ∷ remove k m

-- A store into the heap.
abbrev pub update : (ℕ → StreamInner) → ℕ → StreamInner → ℕ → StreamInner
update h r s q = if q == r then s else h q

abbrev pub set_stream : Shared → ℕ → StreamInner → Shared
set_stream sh r s = record sh { heap = update sh.heap r s }

-- `try_send` on the inbound queue, with its error ignored: a full queue and one with no receiver
-- drop the message.
abbrev pub try_inbound : StreamInner → Inbound → StreamInner
try_inbound s m =
    if not s.pump_gone && ltb (length s.inbound) inbound_queue
    then record s { inbound = s.inbound ++ (m ∷ []) }
    else s

-- `try_send` on the writer queue.
abbrev pub has_room : Writer → Bool
has_room w = not w.gone && ltb (length w.queue) writer_queue

abbrev pub enqueue : Shared → Bytes → Shared
enqueue sh frame = record sh {
  writer = record { queue = sh.writer.queue ++ (frame ∷ []); gone = sh.writer.gone };
}

unfoldable pub send_control : Shared → ℕ → ℕ → Bytes → Shared × Bool
send_control sh ft sid payload =
    if sh.closed && not (ft == ft_goaway)
    then (sh, true)
    else if has_room sh.writer
    then (enqueue sh (encode_frame ft 0 sid payload), true)
    else (sh, false)

unfoldable pub send_window : Shared → ℕ → ℕ → Shared × Bool
send_window sh r delta = send_control sh ft_window (sh.heap r).id (to_be32 delta)

-- `wait_send`: `waits` while the queue is full.
pub data Sent : Type 0 where
  sent : Shared → Sent
  writer_gone : Sent
  waits : Sent

unfoldable pub wait_send : Shared → Bytes → Sent
wait_send sh frame =
    if sh.writer.gone
    then writer_gone
    else if ltb (length sh.writer.queue) writer_queue
    then sent (enqueue sh frame)
    else waits

-- Unregisters the stream once neither the handle nor the outbound pump needs it, and only if the
-- map still holds this very stream under its id.
unfoldable pub try_retire : Shared → ℕ → Shared
try_retire sh r =
    let inner = sh.heap r in
    if inner.app_gone && inner.out_done
    then record sh {
      streams = elim (lookup inner.id sh.streams) [
        | some q ↦ if q == r then remove inner.id sh.streams else sh.streams
        | none ↦ sh.streams
      ];
      heap = update sh.heap r (try_inbound inner abort);
    }
    else sh

unfoldable pub abort_stream : Shared → ℕ → Shared
abort_stream sh r =
    let (sh', done) = send_control sh ft_close (sh.heap r).id (codes "{\"code\":\"abort\"}") in
    set_stream sh' r (try_inbound (sh'.heap r) abort)

-- `drop` of a `TunnelStream`.
unfoldable pub drop_handle : Shared → ℕ → Shared
drop_handle sh r = try_retire (set_stream sh r (record (sh.heap r) { app_gone = true })) r

-- The end of the outbound pump.
unfoldable pub finish_outbound : Shared → ℕ → Shared
finish_outbound sh r = try_retire (set_stream sh r (record (sh.heap r) { out_done = true })) r

-- Aborts the stream of every entry of the map.
abbrev pub abort_all : List (ℕ × ℕ) → (ℕ → StreamInner) → ℕ → StreamInner
abort_all [] h = h
abort_all ((sid, r) ∷ m) h = abort_all m (update h r (try_inbound (h r) abort))

-- `notify_waiters` wakes tasks and changes no state.
unfoldable pub teardown : Shared → Shared
teardown sh = record sh {
  closed = true;
  streams = [];
  heap = abort_all sh.streams sh.heap;
  ready = false;
}
