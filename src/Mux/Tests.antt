-- ===== src/Mux/Tests.antt =====
-- mux.rs: the theorems of the session at concrete states.
mod Flowing
use krymux.Base.{
  ℕ, zero, suc, ◌+◌, ◌-◌, ◌%◌, ◌/◌, ◌^◌, ◌≤◌, ◌<◌, ◌≡◌, ◌≢◌, refl, sym, ap, ◌∙◌, List, [], ◌∷◌,
  ◌++◌, Option, some, none, Bool, true, false, not, ◌==◌, ◌&&◌, ltb, leb, if◌then◌else◌, length,
  get_or, arith, ◌⊎◌, inl, inr, min, max, take, drop,
}
use krymux.Base.Bytes.{Bytes, IsU32, to_be32, codes}
use krymux.Base.Json.{Json, null, number}
use krymux.Compress.{Registry, algo_none}
use krymux.Frame.{FrameHeader, encode_frame, frame_header, parse, ft_window, ft_data, ft_open}
use krymux.Mux.State.{
  Shared, StreamInner, Writer, Target, Inbound, chunk, eof, abort, lookup, teardown, drop_handle,
  finish_outbound, try_retire, set_stream, enqueue, wait_send,
}
use krymux.Mux.Handle.{
  build_stream, Handled, handled, handle_frame, handle_open, handle_window, add_i64,
}
use krymux.Mux.Inbound.{
  threshold, receive, consume, maybe_grow, add_pending, pop_inbound, InPump, InPhase, receiving,
  granting, growing, in_step, grow_window,
}
use krymux.Mux.Outbound.{
  Chunk, OutPhase, reading, first_charge, first_send, OutPump, out_step, ReadEvent, got, read_chunk,
}
use krymux.Mux.Tasks.{
  ReadFrame, frame, read_frame, frame_cap, WriterTask, read_payload, tick_stream, write_queue,
  concat, writer_step, reader_loop, no_fuel, ReaderEnd, reader_exit,
}
use krymux.Mux.OpenValid.{opened_state}
use krymux.Mux.Reach.{
  Reach, started, goes, open_checked, open_registered, frame_read, closes, handled_state,
  Reach-IsValid,
}
use krymux.Mux.Session.{
  SessionOpts, new_shared, start, send_open, open_check, open_register, close, accept, reject,
}
use krymux.Mux.Reading.{read_frame-encode_frame, read_frame_bounds, reader_loop-ne-no_fuel}
use krymux.Mux.Retire.{retire_both, retire_one_keeps, retire_other}
use krymux.Mux.Valid.{IsValid, After}
use krymux.Mux.Invariant.{handle_frame-IsValid}
use krymux.Mux.Credits.{IsLive, Balanced, owed, in_flight, threshold_bounds}
use krymux.Mux.Flow.{Flow, here, tick, pump, credit_conserved, Flow-bounds}
use krymux.Mux.Outflow.{Outflow, Outflow-conserved}
use krymux.Mux.Closing.{teardown_lem, Told, close_once, writer_order, writer_lone_stays}
use krymux.Mux.Opening.{
  handle_open_lem, Untouched, Registers, grow_window_bounds, Answer, accepts, rejects, answer,
  answer_once,
}

abbrev plain : Registry
plain = record { zstd_feature = false; zstd_dict = none }

abbrev no_json : Bytes → Option Json
no_json bytes = none

abbrev some_json : Bytes → Option Json
some_json bytes = some null

abbrev print : Json → Bytes
print j = codes "{}"

abbrev pub one_stream : StreamInner
one_stream = record {
  id = 1;
  inbound = chunk (7 ∷ 8 ∷ []) false ∷ [];
  pump_gone = false;
  credits = 262144;
  pending_credit = 5;
  granted = 262144;
  consumed_since_grow = 200000;
  grow_at = 0;
  ack = false;
  verdict = none;
  ack_done = false;
  compression = algo_none;
  requested_level = none;
  app_gone = false;
  out_done = false;
}

-- A server with one stream.
abbrev pub server : Shared
server = record {
  is_client = false;
  writer = record { queue = []; gone = false };
  streams = (1, 0) ∷ [];
  heap = λ r. one_stream;
  next_ref = 1;
  next_id = 2;
  peer_max_data = 65536;
  peer_window = 262144;
  peer_supported = algo_none ∷ [];
  ready = true;
  closed = false;
  max_streams = 4;
  rx_window = 262144;
  rx_window_max = 1048576;
  our_supported = algo_none ∷ [];
  on_stream = true;
  handed = [];
  pings = [];
  last_pong_ms = 0;
}

server-IsValid : IsValid (record { pending = 0; more = 0 }) server
server-IsValid = ground arith

pub server-IsLive : IsLive server 0
unfolding threshold
server-IsLive = record {
  up = refl;
  writing = refl;
  id_fits = omega arith;
  window_fits = omega arith;
  max_fits = omega arith;
  pending = omega arith;
  granted = omega arith;
}

abbrev pub pump_in : InPump Bytes
pump_in = record { decomp = []; discarding = false; delivered = []; phase = receiving }

abbrev pub pump_out : OutPump Bytes
pump_out = record { comp = []; sniffed = false; bypassed = false; phase = reading }

abbrev pub same : Bytes → Bytes → Option (Bytes × Bytes)
same d wire = some (wire, d)

abbrev pub finish : Bytes → Option Bytes
finish d = some []

abbrev pub payload : Bytes
payload = 7 ∷ 8 ∷ 9 ∷ []

read_frame-encode_frame_example :
    read_frame (encode_frame 4 0 3 payload ++ 1 ∷ [])
    ≡ frame (record { frame_type = 4; flags = 0; stream_id = 3; length = 3 }) payload (1 ∷ [])
read_frame-encode_frame_example =
    read_frame-encode_frame 4 0 3 payload (1 ∷ []) (omega arith) (omega arith) (omega arith)
      (unfold frame_cap in omega arith)

read_frame-encode_frame_example_end :
    read_frame (encode_frame 4 0 3 payload)
    ≡ frame (record { frame_type = 4; flags = 0; stream_id = 3; length = 3 }) payload []
unfolding read_frame encode_frame frame_header parse read_payload frame_cap
read_frame-encode_frame_example_end = refl

reader_loop-ne-no_fuel_example :
    reader_loop plain no_json print 0 14 server (encode_frame 4 0 1 payload) ≢ no_fuel
reader_loop-ne-no_fuel_example =
    reader_loop-ne-no_fuel plain no_json print 0 14 server (encode_frame 4 0 1 payload)
      (unfold encode_frame frame_header in omega arith)

retire_both_example :
    ((drop_handle server 0).streams ≡ server.streams)
    × ((finish_outbound server 0).streams ≡ server.streams)
    × (lookup 1 (finish_outbound (drop_handle server 0) 0).streams ≡ none)
    × (lookup 1 (drop_handle (finish_outbound server 0) 0).streams ≡ none)
retire_both_example = retire_both server 0 1 refl refl refl

teardown_lem_example :
    ((teardown server).closed ≡ true)
    × (((teardown server).ready ≡ false)
        × (((teardown server).streams ≡ []) × Told ((teardown server).heap 0)))
teardown_lem_example = teardown_lem server 1 0 refl

abbrev queued : Shared
queued = record server { writer = record { queue = (1 ∷ 2 ∷ []) ∷ (3 ∷ []) ∷ []; gone = false } }

abbrev idle_writer : WriterTask
idle_writer = record { wire = 9 ∷ []; exited = false }

queued_step :
    writer_step true 0 queued idle_writer
    ≡ some (
      record queued { writer = record { queue = []; gone = false } },
      record { wire = 9 ∷ 1 ∷ 2 ∷ 3 ∷ []; exited = false },
    )
unfolding writer_step write_queue
queued_step = refl

writer_order_example :
    (9 ∷ 1 ∷ 2 ∷ 3 ∷ []) ++ concat [] ≡ (9 ∷ []) ++ concat ((1 ∷ 2 ∷ []) ∷ (3 ∷ []) ∷ [])
writer_order_example =
    writer_order 0 queued (record queued { writer = record { queue = []; gone = false } })
      idle_writer (record { wire = 9 ∷ 1 ∷ 2 ∷ 3 ∷ []; exited = false }) refl refl queued_step

abbrev closing_server : Shared
closing_server = record server {
  closed = true;
  writer = record { queue = (1 ∷ 2 ∷ []) ∷ []; gone = false };
}

handle_open_lem_example :
    After
      (λ sh'. Untouched server sh' ⊎ Registers server 3 sh')
      (handle_open plain some_json print 0 server 3 (codes "null"))
handle_open_lem_example = handle_open_lem plain some_json print 0 server 3 (codes "null")

answer_once_example :
    answer print (answer print server 0 (rejects (codes "denied") (codes "no"))) 0 (accepts none)
    ≡ answer print server 0 (rejects (codes "denied") (codes "no"))
answer_once_example =
    answer_once print server 0 (rejects (codes "denied") (codes "no")) (accepts none)

abbrev options : SessionOpts
options = record {
  is_client = true;
  name = codes "a";
  rx_window = 262144;
  rx_window_max = 1048576;
  max_streams = 1;
  keepalive_sec = 0;
}

abbrev web : Target
web = record { host = none; port = 80; unix = none; hint = codes "raw" }

abbrev fresh_client : Shared
fresh_client = start plain print 0 options false

abbrev one_opened : Shared
one_opened = opened_state (open_register plain print 5 fresh_client web (codes "auto"))

abbrev both_opened : Shared
both_opened = opened_state (open_register plain print 6 one_opened web (codes "auto"))

abbrev early : Shared
early = handled_state both_opened (
    handle_frame plain no_json print 9 both_opened
      (record { frame_type = 5; flags = 0; stream_id = 77; length = 4 }) (0 ∷ 0 ∷ 1 ∷ 0 ∷ []))

checked : open_check fresh_client ≡ none
unfolding open_check start new_shared
checked = refl

-- A client whose callers both passed the check before either registered its stream; then a frame came
-- ahead of the HELLO, which ends the reader, and the session was closed.
overlapped : Reach plain no_json print Bytes same finish 0 options false 1 early 0
overlapped =
    frame_read 9 (record { frame_type = 5; flags = 0; stream_id = 77; length = 4 })
      (0 ∷ 0 ∷ 1 ∷ 0 ∷ [])
      (open_registered 6 web (codes "auto") (
        open_registered 5 web (codes "auto")
          (open_checked (open_checked started (ground arith) checked) (ground arith) checked)))
      (inr (ground arith))

-- Two streams are then open under a limit of one.
over_the_limit : (length both_opened.streams ≡ 2) × (both_opened.max_streams ≡ 1)
unfolding open_register send_open wait_send build_stream start new_shared
over_the_limit = (refl, refl)

Reach-IsValid_example : IsValid (record { pending = 0; more = 1 }) (close print early (codes "bye"))
Reach-IsValid_example =
    Reach-IsValid plain no_json print Bytes same finish (goes overlapped (closes (codes "bye")))
