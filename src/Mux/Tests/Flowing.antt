-- ===== src/Mux/Tests/Flowing.antt =====
-- mux.rs: the theorems on credit and on what is sent, at concrete states.
use krymux.Base.{◌+◌, ◌≡◌, refl, sym, [], ◌∷◌, ◌++◌, Option, some, none, true, false, arith}
use krymux.Base.Bytes.{Bytes}
use krymux.Mux.State.{Shared, wait_send}
use krymux.Mux.Inbound.{
  threshold, receive, consume, maybe_grow, add_pending, pop_inbound, InPump, receiving, growing,
  in_step, grow_window,
}
use krymux.Mux.Outbound.{
  first_charge, split_send, Chunk, OutPump, compress_chunk, sniff, start_chunk, to_phase,
  after_acquire, acquire_credits, after_send, data_frame, out_step, got, read_chunk,
}
use krymux.Mux.Tasks.{tick_stream}
use krymux.Mux.Credits.{owed}
use krymux.Mux.Flow.{Flow, here, tick, pump, credit_conserved}
use mathlib.Core.Path.{subst}
use krymux.Mux.Sending.{Fits, unsent, debt, Moved}
use krymux.Mux.Progress.{Runs, out_step-Runs}
use krymux.Mux.Moves.{out_step-Moved}
use krymux.Frame.{encode_frame, frame_header, ft_data}
use krymux.Mux.Outflow.{Outflow, begin, step, read, Outflow-conserved}
use krymux.Mux.Tests.{server, server-IsLive, pump_in, pump_out, same, finish}

-- The stream's pump takes the bytes 7 and 8, and the window of the stream doubles.
abbrev taken : Option (Shared × InPump Bytes)
taken = in_step same finish 200 true server 0 pump_in

abbrev got_or_server : Option (Shared × InPump Bytes) → Shared × InPump Bytes
got_or_server none = (server, pump_in)
got_or_server (some s) = s

taken-some : taken ≡ some (got_or_server taken)
unfolding in_step receive consume maybe_grow add_pending pop_inbound threshold grow_window
taken-some = refl

Flow-of_two_steps :
    Flow same finish 0 server pump_in
      (tick_stream (got_or_server taken).0 0)
      (got_or_server taken).1
      (0 + 2)
      0
Flow-of_two_steps = tick (pump 200 true here (omega arith) taken-some)

credit_conserved_example :
    0 + owed (tick_stream (got_or_server taken).0 0) 0 (got_or_server taken).1.phase + 262144
    ≡ owed server 0 receiving + ((tick_stream (got_or_server taken).0 0).heap 0).granted + (0 + 2)
credit_conserved_example =
    credit_conserved same finish server-IsLive (omega arith) Flow-of_two_steps

-- The run `taken` ends with 7 bytes of credit pending and a bonus to send.
run_taken :
    (((got_or_server taken).0.heap 0).pending_credit ≡ 7)
    × (((got_or_server taken).0.heap 0).granted ≡ 524288)
    × ((got_or_server taken).1.phase ≡ growing 262144)
unfolding in_step receive consume maybe_grow add_pending pop_inbound threshold grow_window
run_taken = (refl, refl, refl)

-- The outbound pump reads two bytes, charges them and sends them in one frame.
abbrev read_once : OutPump Bytes
read_once = read_chunk same [] server 0 pump_out (got (1 ∷ 2 ∷ []))

abbrev got_out : OutPump Bytes → Option (Shared × OutPump Bytes) → Shared × OutPump Bytes
got_out p none = (server, p)
got_out p (some s) = s

abbrev charged : Shared × OutPump Bytes
charged = got_out read_once (out_step server 0 read_once)

abbrev framed : Shared × OutPump Bytes
framed = got_out charged.1 (out_step charged.0 0 charged.1)

read_once_phase :
    read_once.phase ≡ first_charge (record { logical = 2; wire = 1 ∷ 2 ∷ []; compressed = false })
unfolding read_chunk compress_chunk sniff start_chunk to_phase
read_once_phase = refl

charged-some : out_step server 0 read_once ≡ some charged
unfolding out_step read_chunk compress_chunk sniff start_chunk to_phase after_acquire
    acquire_credits
charged-some = refl

framed-some : out_step charged.0 0 charged.1 ≡ some framed
unfolding out_step read_chunk compress_chunk sniff start_chunk to_phase after_acquire
    acquire_credits after_send wait_send data_frame
framed-some = refl

out_step-Moved_example : Moved 65536 0 server read_once.phase charged.0 charged.1.phase
out_step-Moved_example =
    out_step-Moved 65536 server charged.0 0 charged.1 read_once refl refl
      (subst (λ a. Fits 65536 a) (sym read_once_phase) (omega arith, omega arith)) charged-some

abbrev first_data : Bytes
first_data = encode_frame ft_data 0 1 (1 ∷ 2 ∷ [])

Outflow-run : Outflow same [] 0 server pump_out framed.0 framed.1 (1 ∷ 2 ∷ []) (1 ∷ 2 ∷ []) 2 0
unfolding out_step read_chunk compress_chunk sniff start_chunk to_phase after_acquire
    acquire_credits after_send wait_send data_frame encode_frame frame_header
Outflow-run =
    step (first_data ∷ []) (step [] (read (got (1 ∷ 2 ∷ [])) begin refl) charged-some refl)
      framed-some refl

Outflow-conserved_example :
    ((1 ∷ 2 ∷ []) ++ unsent framed.1.phase ≡ [] ++ (1 ∷ 2 ∷ []))
    × (262144 + 0 + debt framed.1.phase ≡ (framed.0.heap 0).credits + 0 + 2)
Outflow-conserved_example = Outflow-conserved same [] refl refl _ Outflow-run

abbrev wide : Chunk
wide = record { logical = 5; wire = 1 ∷ 2 ∷ 3 ∷ 4 ∷ 5 ∷ []; compressed = false }

abbrev splitting : OutPump Bytes
splitting = record { comp = []; sniffed = true; bypassed = false; phase = split_send wide 5 2 2 }

out_step-Runs_example : Runs server 0 splitting
out_step-Runs_example =
    out_step-Runs 2 server 0 splitting refl refl (omega arith) (ground arith) (omega arith)
      (omega arith, (refl, omega arith)) (omega arith)
