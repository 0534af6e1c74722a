-- ===== src/Mux/Session.antt =====
-- mux.rs: `MuxSession::start`, `open_stream`, `close` and `ping`, and the answers `accept` and
-- `reject` of a stream's handle.
use krymux.Base.{
  ℕ, ◌+◌, ◌%◌, ◌^◌, List, [], ◌∷◌, Bool, true, false, not, Option, none, some, length, leb, ◌==◌,
  if◌then◌else◌, max, keep_if,
}
use krymux.Base.Bytes.{Bytes, codes, bytes_eq}
use krymux.Base.Json.{Json, null, bool, number, string, array, object, end, field, Items, nil, cons}
use krymux.Frame.{
  encode_frame, ft_hello, ft_open, ft_open_ack, ft_ping, ft_goaway, default_max_data,
}
use krymux.Compress.{Registry, supported, negotiate, parse_level}
use krymux.Mux.State.{
  Shared, StreamInner, Target, abort, Verdict, accepted, refused, remove, insert, set_stream,
  try_inbound, enqueue, send_control, wait_send, Sent, sent, writer_gone, waits, teardown,
  drop_handle, default_window,
}
use krymux.Mux.Handle.{build_stream, ignore_result, verdict_body}

pub record SessionOpts : Type 0 where
  pub is_client : Bool
  pub name : Bytes
  pub rx_window : ℕ
  pub rx_window_max : ℕ
  pub max_streams : ℕ
  pub keepalive_sec : ℕ

abbrev pub strings : List Bytes → Items
strings [] = nil
strings (s ∷ ss) = cons (string s) (strings ss)

abbrev pub opt_string : Option Bytes → Json
opt_string none = null
opt_string (some s) = string s

unfoldable pub hello_body : Registry → SessionOpts → Json
hello_body reg o = object (
    field (codes "v") (number 1) (
      field (codes "mode") (string (if o.is_client then codes "client" else codes "server")) (
        field (codes "name") (string o.name) (
          field (codes "maxDataFrame") (number default_max_data) (
            field (codes "rxWindow") (number o.rx_window) (
              field (codes "maxStreams") (number o.max_streams)
                (field (codes "compression") (array (strings (supported reg))) end)))))))

-- A place of the heap that no stream has taken yet.
abbrev pub no_stream : StreamInner
no_stream = record {
  id = 0;
  inbound = [];
  pump_gone = true;
  credits = 0;
  pending_credit = 0;
  granted = 0;
  consumed_since_grow = 0;
  grow_at = 0;
  ack = false;
  verdict = none;
  ack_done = false;
  compression = [];
  requested_level = none;
  app_gone = true;
  out_done = true;
}

-- The state as `start` builds it; `handler` says that there is a stream handler.
unfoldable pub new_shared : Registry → ℕ → SessionOpts → Bool → Shared
new_shared reg now o handler = record {
  is_client = o.is_client;
  writer = record { queue = []; gone = false };
  streams = [];
  heap = λ r. no_stream;
  next_ref = 0;
  next_id = if o.is_client then 1 else 2;
  peer_max_data = default_max_data;
  peer_window = default_window;
  peer_supported = codes "none" ∷ [];
  ready = false;
  closed = false;
  max_streams = o.max_streams;
  rx_window = o.rx_window;
  rx_window_max = max o.rx_window_max o.rx_window;
  our_supported = supported reg;
  on_stream = handler;
  handed = [];
  pings = [];
  last_pong_ms = now;
}

-- The HELLO is queued first; the tasks start then.
unfoldable pub start : Registry → (Json → Bytes) → ℕ → SessionOpts → Bool → Shared
start reg to_string now o handler =
    enqueue (new_shared reg now o handler)
      (encode_frame ft_hello 0 0 (to_string (hello_body reg o)))

-- The outcome of the wait for the peer's HELLO: a session that never came up is torn down.
unfoldable pub hello_waited : Bool → Shared → Shared
hello_waited came sh = if came then sh else teardown sh

pub data OpenError : Type 0 where
  session_gone max_streams_reached writer_closed rejected closed_while_opening open_timeout :
      OpenError

-- `opening` has sent OPEN and waits for the verdict, `open_waits` waits to send it, and `opened` is
-- the end of a successful open.
pub data Opened : Type 0 where
  opening opened : Shared → ℕ → Opened
  open_waits : Shared → ℕ → Bytes → Opened
  open_failed : Shared → OpenError → Opened

unfoldable pub open_body : Target → Bytes → Json
open_body target algo = object (
    field (codes "host") (opt_string target.host) (
      field (codes "port") (number target.port) (
        field (codes "unix") (opt_string target.unix) (
          field (codes "hint") (string target.hint)
            (field (codes "meta") null (field (codes "compression") (string algo) end))))))

-- The send of the OPEN frame, which may have to wait for the writer.
unfoldable pub send_open : Shared → ℕ → Bytes → Opened
send_open sh r frame = elim (wait_send sh frame) [
  | sent sh' ↦ opening sh' r
  | writer_gone ↦ open_failed (drop_handle sh r) writer_closed
  | waits ↦ open_waits sh r frame
]

-- The tests at the head of `open_stream`: the lock on the map is given up after the count.
unfoldable pub open_check : Shared → Option OpenError
open_check sh =
    if sh.closed
    then some session_gone
    else if leb sh.max_streams (length sh.streams)
    then some max_streams_reached
    else none

-- The rest of `open_stream`, which takes the lock again for the insert: other tasks may have run in
-- between. The id comes from `fetch_add(2)` on a u32, and the stream is registered before OPEN is sent.
unfoldable pub open_register : Registry → (Json → Bytes) → ℕ → Shared → Target → Bytes → Opened
open_register reg to_string now sh target compression_req =
    let sid = sh.next_id in
    let algo = negotiate reg compression_req sh.peer_supported in
    let (built, r) =
      build_stream now (record sh { next_id = (sid + 2) % 2 ^ 32 }) sid algo
        (parse_level compression_req) in
    let registered = record built {
      streams = insert sid r built.streams;
      heap = λ q. if q == r then record (built.heap r) { ack = true } else built.heap q;
    } in
    send_open registered r (encode_frame ft_open 0 sid (to_string (open_body target algo)))

-- What ends the wait for OPEN_ACK: the verdict, a channel whose sender is gone, or the time-out.
pub data OpenWait : Type 0 where
  answered : Verdict → OpenWait
  channel_closed timed_out : OpenWait

-- A failed open leaves the map, and its handle is dropped.
abbrev pub unregister : Shared → ℕ → Shared
unregister sh r = record sh { streams = remove (sh.heap r).id sh.streams }

unfoldable pub open_answer : Shared → ℕ → OpenWait → Opened
open_answer sh r (answered (accepted upstream)) = opened sh r
open_answer sh r (answered (refused reason)) =
    open_failed (drop_handle (unregister sh r) r) rejected
open_answer sh r channel_closed = open_failed (drop_handle (unregister sh r) r) closed_while_opening
open_answer sh r timed_out = open_failed (drop_handle (unregister sh r) r) open_timeout

unfoldable pub close : (Json → Bytes) → Shared → Bytes → Shared
close to_string sh reason =
    if sh.closed
    then sh
    else teardown (
        ignore_result (
          send_control (record sh { closed = true }) ft_goaway 0
            (to_string (object (field (codes "reason") (string reason) end)))))

-- The start of `ping`: the nonce is registered, and PING is queued or waits.
unfoldable pub ping : Shared → Bytes → Sent
ping sh nonce = wait_send (record sh { pings = nonce ∷ sh.pings }) (encode_frame ft_ping 0 0 nonce)

-- What `ping` leaves when no pong came in time.
unfoldable pub ping_timeout : Shared → Bytes → Shared
ping_timeout sh nonce = record sh { pings = keep_if (λ n. not (bytes_eq n nonce)) sh.pings }

-- `ack_done.swap(true)`: only the first answer of `accept` and `reject` goes out.
unfoldable pub accept : (Json → Bytes) → Shared → ℕ → Option Bytes → Shared
accept to_string sh r upstream =
    let s = sh.heap r in
    let done = set_stream sh r (record s { ack_done = true }) in
    if s.ack_done
    then sh
    else ignore_result (
        send_control done ft_open_ack s.id (
          to_string (
            object (
              field (codes "ok") (bool true) (
                field (codes "compression") (string s.compression)
                  (field (codes "upstream") (opt_string upstream) end))))))

unfoldable pub reject : (Json → Bytes) → Shared → ℕ → Bytes → Bytes → Shared
reject to_string sh r code reason =
    let s = sh.heap r in
    let done = set_stream sh r (record s { ack_done = true }) in
    let sh' =
      ignore_result (send_control done ft_open_ack s.id (to_string (verdict_body code reason))) in
    if s.ack_done then sh else set_stream sh' r (try_inbound (sh'.heap r) abort)
