-- ===== src/Mux/Handle.antt =====
-- mux.rs: `build_stream` and `handle_frame`, with its branch for each frame type. Parsing and
-- printing of JSON are parameters, and so is the clock.
use krymux.Base.{
  ℕ, suc, ◌+◌, ◌%◌, ◌/◌, ◌^◌, List, [], ◌∷◌, ◌++◌, Bool, true, false, ◌&&◌, ◌||◌, not, Option, none,
  some, length, leb, ltb, ◌==◌, if◌then◌else◌, is_empty, keep_if, max, min, get_or,
}
use krymux.Base.Bytes.{Bytes, codes, from_be32, bytes_eq}
use krymux.Base.Json.{
  Json, bool, number, string, array, object, end, field, get, index, as_u64, as_str, as_bool,
  string_items, unwrap_or,
}
use krymux.Base.Text.{decimal}
use krymux.Frame.{
  FrameHeader, ft_hello, ft_open, ft_open_ack, ft_data, ft_window, ft_close, ft_ping, ft_pong,
  ft_goaway, default_max_data, hard_max_frame,
}
use krymux.Compress.{Registry, negotiate, parse_level}
use krymux.Mux.State.{
  Shared, StreamInner, Target, Inbound, chunk, eof, abort, Verdict, accepted, refused, lookup,
  insert, set_stream, update, try_inbound, send_control, default_window, inbound_queue,
}

pub data MuxError : Type 0 where
  frame_before_hello second_hello bad_hello_json unsupported_version : MuxError
  client_received_open bad_open_json peer_sent_goaway unknown_frame_type : MuxError
  bad_stream_id bad_window_length : ℕ → MuxError

-- `parked` is a reader that waits for room in an inbound queue, with what it still has to send.
pub data Handled : Type 0 where
  handled : Shared → Handled
  failed : MuxError → Handled
  parked : Shared → ℕ → List Inbound → Handled

-- The stream as `build_stream` makes it.
unfoldable pub new_inner : ℕ → Shared → ℕ → Bytes → Option ℕ → StreamInner
new_inner now sh sid algo level = record {
  id = sid;
  inbound = [];
  pump_gone = false;
  credits = sh.peer_window;
  pending_credit = 0;
  granted = sh.rx_window;
  consumed_since_grow = 0;
  grow_at = now;
  ack = false;
  verdict = none;
  ack_done = false;
  compression = algo;
  requested_level = level;
  app_gone = false;
  out_done = false;
}

-- The stream gets the next place of the heap; its pumps start with it. It cannot fail.
unfoldable pub build_stream : ℕ → Shared → ℕ → Bytes → Option ℕ → Shared × ℕ
build_stream now sh sid algo level = (
  record sh {
    heap = update sh.heap sh.next_ref (new_inner now sh sid algo level);
    next_ref = suc sh.next_ref;
  },
  sh.next_ref,
)

-- The sends of `handle_frame` to an inbound queue, one after the other. A send waits while the queue
-- is full, and a queue with no receiver ends them.
unfoldable pub deliver : Shared → ℕ → List Inbound → Handled
deliver sh r [] = handled sh
deliver sh r (m ∷ ms) =
    let s = sh.heap r in
    let rest = deliver (set_stream sh r (record s { inbound = s.inbound ++ (m ∷ []) })) r ms in
    if s.pump_gone
    then handled sh
    else if ltb (length s.inbound) inbound_queue
    then rest
    else parked sh r (m ∷ ms)

-- `clamp` of the HELLO handler.
unfoldable pub clamp : Option Json → ℕ → ℕ → ℕ → ℕ
clamp v default lo hi = max lo (min hi (unwrap_or (as_u64 (unwrap_or v (number default))) default))

-- `a.as_array().map(strings).unwrap_or(["none"])`.
abbrev pub peer_algorithms : Json → List Bytes
peer_algorithms (array vs) = string_items vs
peer_algorithms _ = codes "none" ∷ []

unfoldable pub accept_hello : Shared → Json → Shared
accept_hello sh hello = record sh {
  peer_max_data = clamp (get hello (codes "maxDataFrame")) default_max_data 1024 hard_max_frame;
  peer_window = clamp (get hello (codes "rxWindow")) default_window 16384 268435456;
  peer_supported = peer_algorithms (index hello (codes "compression"));
  ready = true;
}

abbrev pub is_version : Option ℕ → Bool
is_version none = false
is_version (some v) = v == 1

unfoldable pub handle_hello : (Bytes → Option Json) → Shared → Bytes → Handled
handle_hello from_slice sh payload =
    if sh.ready then failed second_hello else elim (from_slice payload) [
      | none ↦ failed bad_hello_json
      | some hello ↦
          if is_version (as_u64 (index hello (codes "v")))
          then handled (accept_hello sh hello)
          else failed unsupported_version
    ]

abbrev pub verdict_body : Bytes → Bytes → Json
verdict_body code reason = object (
    field (codes "ok") (bool false)
      (field (codes "code") (string code) (field (codes "reason") (string reason) end)))

abbrev pub ignore_result : Shared × Bool → Shared
ignore_result (sh, done) = sh

unfoldable pub open_target : Json → Target
open_target v = record {
  host = as_str (index v (codes "host"));
  port = unwrap_or (as_u64 (index v (codes "port"))) 0 % 2 ^ 16;
  unix = as_str (index v (codes "unix"));
  hint = unwrap_or (as_str (index v (codes "hint"))) (codes "raw");
}

-- The part of the OPEN handler that follows the limit, the duplicate test and the parsing.
unfoldable pub open_accepted : Registry → (Json → Bytes) → ℕ → Shared → ℕ → Json → Shared
open_accepted reg to_string now sh sid v =
    let requested = unwrap_or (as_str (index v (codes "compression"))) (codes "auto") in
    let algo = negotiate reg requested sh.peer_supported in
    let (built, r) = build_stream now sh sid algo (parse_level requested) in
    if sh.on_stream
    then record built {
      streams = insert sid r built.streams;
      handed = (sid, open_target v) ∷ built.handed;
    }
    else ignore_result (
        send_control sh ft_open_ack sid
          (to_string (verdict_body (codes "nohandler") (codes "server has no stream handler"))))

abbrev pub has_key : ℕ → List (ℕ × ℕ) → Bool
has_key k m = elim (lookup k m) [ some r ↦ true | none ↦ false ]

unfoldable pub handle_open :
    Registry → (Bytes → Option Json) → (Json → Bytes) → ℕ → Shared → ℕ → Bytes → Handled
handle_open reg from_slice to_string now sh sid payload =
    if sh.is_client
    then failed client_received_open
    else if sid == 0 || sid % 2 == 0
    then failed (bad_stream_id sid)
    else if leb sh.max_streams (length sh.streams)
    then handled (
        ignore_result (
          send_control sh ft_open_ack sid (
            to_string
              (verdict_body (codes "maxstreams") (codes "limit " ++ decimal sh.max_streams)))))
    else if has_key sid sh.streams
    then handled (
        ignore_result (
          send_control sh ft_open_ack sid
            (to_string (verdict_body (codes "duplicate") (codes "stream id already open")))))
    else elim (from_slice payload) [
      | none ↦ failed bad_open_json
      | some v ↦ handled (open_accepted reg to_string now sh sid v)
    ]

abbrev pub is_true : Option Bool → Bool
is_true (some true) = true
is_true (some false) = false
is_true none = false

-- `ack.take()` and the send of the verdict, when the sender is still there.
unfoldable pub settle : StreamInner → Json → StreamInner
settle s v =
    let verdict : Verdict =
      if is_true (as_bool (index v (codes "ok")))
      then accepted (unwrap_or (as_str (index v (codes "upstream"))) [])
      else refused (
          unwrap_or (as_str (index v (codes "code"))) (codes "denied")
          ++ b' ' ∷ unwrap_or (as_str (index v (codes "reason"))) []) in
    if s.ack
    then record s { ack_done = true; ack = false; verdict = some verdict }
    else record s { ack_done = true }

unfoldable pub handle_open_ack : (Bytes → Option Json) → Shared → ℕ → Bytes → Handled
handle_open_ack from_slice sh sid payload = elim (lookup sid sh.streams) [
  | none ↦ handled sh
  | some r ↦
      handled (set_stream sh r (settle (sh.heap r) (unwrap_or (from_slice payload) (object end))))
]

-- What a DATA frame puts into the inbound queue.
unfoldable pub data_messages : FrameHeader → Bytes → List Inbound
data_messages fh payload =
    let fin : List Inbound = if fh.flags / 2 % 2 == 1 then eof ∷ [] else [] in
    if is_empty payload then fin else chunk payload (fh.flags % 2 == 1) ∷ fin

unfoldable pub handle_data : Shared → FrameHeader → Bytes → Handled
handle_data sh fh payload = elim (lookup fh.stream_id sh.streams) [
  | none ↦ handled sh
  | some r ↦ deliver sh r (data_messages fh payload)
]

-- `fetch_add` on an i64 wraps.
abbrev pub add_i64 : ℕ → ℕ → ℕ
add_i64 a b = (a + b) % 2 ^ 64

unfoldable pub handle_window : Shared → ℕ → Bytes → Handled
handle_window sh sid payload =
    if length payload == 4
    then elim (lookup sid sh.streams) [
      | none ↦ handled sh
      | some r ↦
          let s = sh.heap r in
          let delta =
            from_be32 (get_or payload 0 0) (get_or payload 1 0) (get_or payload 2 0)
              (get_or payload 3 0) in
          handled (set_stream sh r (record s { credits = add_i64 s.credits delta }))
    ]
    else failed (bad_window_length (length payload))

unfoldable pub handle_close : Shared → ℕ → Handled
handle_close sh sid = elim (lookup sid sh.streams) [
  | none ↦ handled sh
  | some r ↦ handled (set_stream sh r (try_inbound (sh.heap r) abort))
]

unfoldable pub handle_pong : ℕ → Shared → Bytes → Handled
handle_pong now sh payload =
    if length payload == 16
    then handled (record sh {
      last_pong_ms = now;
      pings = keep_if (λ nonce. not (bytes_eq nonce payload)) sh.pings;
    })
    else handled sh

unfoldable pub handle_frame :
    Registry → (Bytes → Option Json) → (Json → Bytes) → ℕ → Shared → FrameHeader → Bytes → Handled
handle_frame reg from_slice to_string now sh fh payload =
    let t = fh.frame_type in
    let sid = fh.stream_id in
    if not sh.ready && not (t == ft_hello)
    then failed frame_before_hello
    else if t == ft_hello
    then handle_hello from_slice sh payload
    else if t == ft_open
    then handle_open reg from_slice to_string now sh sid payload
    else if t == ft_open_ack
    then handle_open_ack from_slice sh sid payload
    else if t == ft_data
    then handle_data sh fh payload
    else if t == ft_window
    then handle_window sh sid payload
    else if t == ft_close
    then handle_close sh sid
    else if t == ft_ping
    then handled (ignore_result (send_control sh ft_pong 0 payload))
    else if t == ft_pong
    then handle_pong now sh payload
    else if t == ft_goaway
    then failed peer_sent_goaway
    else failed unknown_frame_type
