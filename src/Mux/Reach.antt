-- ===== src/Mux/Reach.antt =====
-- mux.rs: the steps of a session, in any order, and what holds in every state that they reach.
use krymux.Base.{
  ℕ, suc, ◌≤◌, none, ◌≡◌, refl, sym, ◌∙◌, List, [], ◌∷◌, Option, some, Bool, true, false,
  if◌then◌else◌, arith, Bool-cases, inl, inr, keep_if, if_true, if_false,
}
use krymux.Base.Bytes.{Bytes}
use krymux.Base.Json.{Json}
use krymux.Frame.{FrameHeader}
use krymux.Compress.{Registry}
use krymux.Mux.State.{Shared, Target, Inbound, Sent, sent, writer_gone, waits, drop_handle}
use krymux.Mux.Handle.{Handled, handled, failed, parked, handle_frame, deliver}
use krymux.Mux.Inbound.{InPump, in_step}
use krymux.Mux.Outbound.{OutPump, out_step}
use krymux.Mux.Tasks.{
  Keepalive, keepalive_ends, keepalive_pinged, keepalive_waits, keepalive_tick, tick_stream,
  reader_exit, WriterTask, writer_step, write_queue,
}
use krymux.Mux.Session.{
  SessionOpts, start, open_check, open_register, open_answer, OpenWait, close, accept, reject,
  hello_waited, send_open, ping, ping_timeout,
}
use krymux.Mux.Valid.{Opens, IsValid, After, after_handled, after_parked}
use krymux.Mux.Invariant.{MayOpen, handle_frame-IsValid, deliver-IsValid}
use krymux.Mux.Keeps.{
  Keeps, Keeps-IsValid, Keeps-trans, sent-Keeps, send_control-Keeps, in_step-Keeps,
  tick_stream-Keeps,
}
use krymux.Mux.Life.{
  start-IsValid, drop_handle-IsValid, close-IsValid, accept-IsValid, reject-IsValid,
  teardown-IsValid, if-IsValid,
}
use krymux.Mux.OpenValid.{
  opened_state, open_check-IsValid, open_register-IsValid, open_answer-IsValid, send_open-IsValid,
}
use krymux.Mux.OutValid.{out_step-IsValid}

hello_waited-IsValid :
    {opens : Opens}
    → (came : Bool) (sh : Shared) → IsValid opens sh
    → IsValid opens (hello_waited came sh)
unfolding hello_waited
hello_waited-IsValid came sh v = if-IsValid came sh _ v (teardown-IsValid sh v)

ping-Keeps : (sh sh' : Shared) (nonce : Bytes) → ping sh nonce ≡ sent sh' → Keeps sh sh'
unfolding ping
ping-Keeps sh sh' nonce e =
    let listed : Keeps sh (record sh { pings = nonce ∷ sh.pings }) = ground arith in
    Keeps-trans listed (sent-Keeps _ sh' _ e)

ping_timeout-Keeps : (sh : Shared) (nonce : Bytes) → Keeps sh (ping_timeout sh nonce)
unfolding ping_timeout
ping_timeout-Keeps sh nonce = ground arith

queue-Keeps :
    (wrote : Bool) (drained : ℕ) (sh sh' : Shared) (w w' : WriterTask) (q : List Bytes)
    → write_queue wrote drained sh w q ≡ some (sh', w')
    → Keeps sh sh'
unfolding write_queue
queue-Keeps wrote drained sh sh' w w' [] e = cc e
queue-Keeps wrote drained sh sh' w w' (f ∷ []) e = ground (arith, e)
queue-Keeps wrote drained sh sh' w w' (f ∷ g ∷ fs) e = ground (arith, e)

writer-Keeps :
    (wrote : Bool) (drained : ℕ) (sh sh' : Shared) (w w' : WriterTask)
    → writer_step wrote drained sh w ≡ some (sh', w')
    → Keeps sh sh'
unfolding writer_step
writer-Keeps wrote drained sh sh' w w' e = elim (Bool-cases w.exited) [
  | inl out ↦ cc (sym (if_true _ _ _ out) ∙ e)
  | inr runs ↦ queue-Keeps wrote drained sh sh' w w' sh.writer.queue (sym (if_false _ _ _ runs) ∙ e)
]

-- The state that a frame leaves; after an error the reader ends.
abbrev pub handled_state : Shared → Handled → Shared
handled_state sh (handled sh') = sh'
handled_state sh (failed e) = reader_exit sh
handled_state sh (parked sh' r ms) = sh'

-- The state that a tick of the keepalive leaves.
abbrev pub keepalive_state : Shared → Keepalive → Shared
keepalive_state sh (keepalive_ends sh') = sh'
keepalive_state sh (keepalive_pinged sh') = sh'
keepalive_state sh keepalive_waits = sh

-- The outcome of a tick, in a valid state.
data Ticked (opens : Opens) : Keepalive → Type 0 where
  ticked_ends : {sh : Shared} → IsValid opens sh → Ticked opens (keepalive_ends sh)
  ticked_pinged : {sh : Shared} → IsValid opens sh → Ticked opens (keepalive_pinged sh)
  ticked_waits : Ticked opens keepalive_waits

Ticked-test :
    {opens : Opens}
    → (b : Bool) {x y : Keepalive} → Ticked opens x
    → Ticked opens y
    → Ticked opens (if b then x else y)
Ticked-test true hx hy = hx
Ticked-test false hx hy = hy

pinged-Ticked :
    {opens : Opens}
    → (sh : Shared) (is_live : Bytes → Bool) (o : Sent) → ((t : Shared) → o ≡ sent t → Keeps sh t)
    → IsValid opens sh
    → Ticked opens (elim o [
      | sent sh' ↦ keepalive_pinged (record sh' { pings = keep_if is_live sh'.pings })
      | writer_gone ↦ keepalive_ends sh
      | waits ↦ keepalive_waits
    ])
pinged-Ticked sh is_live (sent t) k v =
    let cleaned : Keeps t (record t { pings = keep_if is_live t.pings }) = ground arith in
    ticked_pinged (Keeps-IsValid (Keeps-trans (k t refl) cleaned) v)
pinged-Ticked sh is_live writer_gone k v = ticked_ends v
pinged-Ticked sh is_live waits k v = ticked_waits

keepalive_tick-Ticked :
    {opens : Opens}
    → (now : ℕ) (nonce : Bytes) (is_live : Bytes → Bool) (interval_sec : ℕ) (sh : Shared)
    → IsValid opens sh
    → Ticked opens (keepalive_tick now nonce is_live interval_sec sh)
unfolding keepalive_tick
keepalive_tick-Ticked now nonce is_live interval_sec sh v =
    let marked : Keeps sh (record sh { closed = true }) = ground arith in
    Ticked-test sh.closed (ticked_ends v) (
      Ticked-test _
        (ticked_ends (
          teardown-IsValid _ (
            Keeps-IsValid
              (Keeps-trans marked (send_control-Keeps (record sh { closed = true }) _ _ _)) v)))
        (pinged-Ticked sh is_live _ (λ t e. sent-Keeps sh t _ e) v))

Ticked-IsValid :
    {opens : Opens}
    → (sh : Shared) (k : Keepalive) → Ticked opens k
    → IsValid opens sh
    → IsValid opens (keepalive_state sh k)
Ticked-IsValid sh (keepalive_ends t) (ticked_ends v) w = v
Ticked-IsValid sh (keepalive_pinged t) (ticked_pinged v) w = v
Ticked-IsValid sh keepalive_waits ticked_waits w = w

handled-IsValid :
    {opens : Opens}
    → (sh : Shared) (h : Handled) → After (IsValid opens) h
    → IsValid opens (reader_exit sh)
    → IsValid opens (handled_state sh h)
handled-IsValid sh (handled sh') (after_handled v) w = v
handled-IsValid sh (failed e) a w = w
handled-IsValid sh (parked sh' r ms) (after_parked v) w = v

reader_exit-IsValid :
    {opens : Opens} → (sh : Shared) → IsValid opens sh → IsValid opens (reader_exit sh)
unfolding reader_exit
reader_exit-IsValid sh v = if-IsValid sh.closed _ _ v (teardown-IsValid sh v)

module _ (reg : Registry) (from_slice : Bytes → Option Json) (to_string : Json → Bytes) (C : Type 0)
    {D : Type 0} (push : D → Bytes → Option (Bytes × D)) (finish : D → Option Bytes) where
  -- One step of a session, apart from the openings of streams: a call or a task of this side.
  pub data Step (sh : Shared) : Shared → Type 0 where
    reader_resumes : (r : ℕ) (ms : List Inbound) → Step sh (handled_state sh (deliver sh r ms))
    reader_ends : Step sh (reader_exit sh)
    hello_ends : (came : Bool) → Step sh (hello_waited came sh)
    open_resumes : (r : ℕ) (frame : Bytes) → Step sh (opened_state (send_open sh r frame))
    open_ends : (r : ℕ) (w : OpenWait) → Step sh (opened_state (open_answer sh r w))
    accepts : (r : ℕ) (upstream : Option Bytes) → Step sh (accept to_string sh r upstream)
    rejects : (r : ℕ) (code reason : Bytes) → Step sh (reject to_string sh r code reason)
    drops : (r : ℕ) → Step sh (drop_handle sh r)
    keepalive_ticks :
        (now : ℕ) (nonce : Bytes) (is_live : Bytes → Bool) (interval_sec : ℕ)
        → Step sh (keepalive_state sh (keepalive_tick now nonce is_live interval_sec sh))
    closes : (reason : Bytes) → Step sh (close to_string sh reason)
    pings : {sh' : Shared} (nonce : Bytes) → ping sh nonce ≡ sent sh' → Step sh sh'
    ping_ends : (nonce : Bytes) → Step sh (ping_timeout sh nonce)
    ticks : (r : ℕ) → Step sh (tick_stream sh r)
    pump_in :
        {sh' : Shared} (now : ℕ) (wrote : Bool) (r : ℕ) (p p' : InPump D)
        → in_step push finish now wrote sh r p ≡ some (sh', p')
        → Step sh sh'
    pump_out :
        {sh' : Shared} (r : ℕ) (p p' : OutPump C) → out_step sh r p ≡ some (sh', p') → Step sh sh'
    writes :
        {sh' : Shared} (wrote : Bool) (drained : ℕ) (w w' : WriterTask)
        → writer_step wrote drained sh w ≡ some (sh', w')
        → Step sh sh'

  -- The states that a session reaches from its start, each with the number of `open_stream` calls that
  -- have passed their check and not yet done their insert. At most `more` openings beyond the first are
  -- there at once. A frame that may open a stream is one of them, with its check and insert in one step;
  -- any step of another caller or task may come between the two halves of `open_stream`.
  pub data Reach (now : ℕ) (o : SessionOpts) (handler : Bool) (more : ℕ) : Shared → ℕ → Type 0 where
    started : Reach now o handler more (start reg to_string now o handler) 0
    frame_read :
        {sh : Shared} {pending : ℕ} (at : ℕ) (fh : FrameHeader) (payload : Bytes)
        → Reach now o handler more sh pending
        → MayOpen (record { pending = pending; more = more }) sh
        → Reach now o handler more
            (handled_state sh (handle_frame reg from_slice to_string at sh fh payload))
            pending
    open_checked :
        {sh : Shared} {pending : ℕ}
        → Reach now o handler more sh pending
        → pending ≤ more
        → open_check sh ≡ none
        → Reach now o handler more sh (suc pending)
    open_registered :
        {sh : Shared} {pending : ℕ} (at : ℕ) (target : Target) (compression_req : Bytes)
        → Reach now o handler more sh (suc pending)
        → Reach now o handler more
            (opened_state (open_register reg to_string at sh target compression_req))
            pending
    goes :
        {sh sh' : Shared} {pending : ℕ}
        → Reach now o handler more sh pending
        → Step sh sh'
        → Reach now o handler more sh' pending

  Step-IsValid :
      {opens : Opens} → {sh sh' : Shared} → Step sh sh' → IsValid opens sh → IsValid opens sh'
  Step-IsValid {sh = sh} (reader_resumes r ms) v =
      handled-IsValid sh _ (deliver-IsValid ms sh r v) (reader_exit-IsValid sh v)
  Step-IsValid {sh = sh} reader_ends v = reader_exit-IsValid sh v
  Step-IsValid {sh = sh} (hello_ends came) v = hello_waited-IsValid came sh v
  Step-IsValid {sh = sh} (open_resumes r frame) v = send_open-IsValid sh r frame v
  Step-IsValid {sh = sh} (pings {sh'} nonce e) v = Keeps-IsValid (ping-Keeps sh sh' nonce e) v
  Step-IsValid {sh = sh} (ping_ends nonce) v = Keeps-IsValid (ping_timeout-Keeps sh nonce) v
  Step-IsValid {sh = sh} (open_ends r w) v = open_answer-IsValid sh r w v
  Step-IsValid {sh = sh} (accepts r upstream) v = accept-IsValid to_string sh r upstream v
  Step-IsValid {sh = sh} (rejects r code reason) v = reject-IsValid to_string sh r code reason v
  Step-IsValid {sh = sh} (drops r) v = drop_handle-IsValid sh r v
  Step-IsValid {sh = sh} (closes reason) v = close-IsValid to_string sh reason v
  Step-IsValid {sh = sh} (keepalive_ticks now nonce is_live interval_sec) v =
      Ticked-IsValid sh _ (keepalive_tick-Ticked now nonce is_live interval_sec sh v) v
  Step-IsValid {sh = sh} (ticks r) v = Keeps-IsValid (tick_stream-Keeps sh r) v
  Step-IsValid {sh = sh} (pump_in {sh'} now wrote r p p' e) v =
      Keeps-IsValid (in_step-Keeps push finish now wrote sh sh' r p p' e) v
  Step-IsValid {sh = sh} (pump_out {sh'} r p p' e) v = out_step-IsValid _ sh sh' r p' p e v
  Step-IsValid {sh = sh} (writes {sh'} wrote drained w w' e) v =
      Keeps-IsValid (writer-Keeps wrote drained sh sh' w w' e) v

  -- Take any session from its start, with whatever options, and any frames of its peer, steps of its
  -- tasks and calls of its users in any order, where a call of `open_stream` checks the limit in one step
  -- and inserts its stream in another. At most `more + 1` openings are between check and insert at once,
  -- a frame that may open a stream included. Then the map of streams and the heap agree, ids are
  -- distinct, the streams and the openings that are past their check are together at most
  -- `max_streams + more`, so at most `max_streams` where openings do not overlap, and the frame cap and
  -- the window that the peer advertised are in their ranges.
  pub Reach-IsValid :
      {now : ℕ} {o : SessionOpts} {handler : Bool} {more pending : ℕ} {sh : Shared}
      → Reach now o handler more sh pending
      → IsValid (record { pending = pending; more = more }) sh
  Reach-IsValid {now} {o} {handler} {more} started = start-IsValid more reg to_string now o handler
  Reach-IsValid (frame_read {sh} at fh payload r may) =
      handled-IsValid sh _
        (handle_frame-IsValid reg from_slice to_string at sh fh payload may (Reach-IsValid r))
        (reader_exit-IsValid sh (Reach-IsValid r))
  Reach-IsValid {more = more} (open_checked {sh} {pending} r few passed) =
      open_check-IsValid pending more sh few passed (Reach-IsValid r)
  Reach-IsValid {more = more} (open_registered {sh} {pending} at target compression_req r) =
      open_register-IsValid pending more reg to_string at sh target compression_req
        (Reach-IsValid r)
  Reach-IsValid (goes r s) = Step-IsValid s (Reach-IsValid r)
