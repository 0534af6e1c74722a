-- ===== src/Mux/Credits.antt =====
-- mux.rs, the receive side: where the credit of a stream is, and that no step of the inbound pump or
-- of the ticker loses or doubles any of it.
use krymux.Base.{
  ℕ, ◌+◌, ◌^◌, ◌≤◌, ◌<◌, ◌≡◌, ap, ◌∙◌, List, [], ◌∷◌, ◌++◌, true, false, ◌==◌, ◌&&◌, if◌then◌else◌,
  get_or, arith, ◌⊎◌, append-nil,
}
use krymux.Base.Bytes.{Bytes, IsU32, to_be32, from_be32, from_be32-to_be32, codes}
use krymux.Frame.{encode_frame, ft_window, ft_close}
use krymux.Mux.State.{Shared, set_stream, enqueue, send_control, send_window}
use krymux.Mux.Tasks.{
  ReadFrame, frame, short, bad_frame, oversized, read_frame, frame_cap, tick_stream,
}
use krymux.Mux.Reading.{read_frame-encode_frame}
use krymux.Mux.Inbound.{InPhase, receiving, finished, granting, granting_tail, growing, threshold}

-- The credit that one frame gives to the stream `sid`, as its receiver reads it.
abbrev pub frame_credit : ℕ → ReadFrame → ℕ
frame_credit sid short = 0
frame_credit sid bad_frame = 0
frame_credit sid oversized = 0
frame_credit sid (frame fh payload rest) =
    if fh.frame_type == ft_window && fh.stream_id == sid
    then from_be32 (get_or payload 0 0) (get_or payload 1 0) (get_or payload 2 0)
        (get_or payload 3 0)
    else 0

unfoldable pub credit_of : ℕ → Bytes → ℕ
credit_of sid f = frame_credit sid (read_frame f)

unfoldable pub queued_credit : ℕ → List Bytes → ℕ
queued_credit sid [] = 0
queued_credit sid (f ∷ fs) = credit_of sid f + queued_credit sid fs

-- The credit that the pump holds while it waits to send it.
abbrev pub in_flight : InPhase → ℕ
in_flight receiving = 0
in_flight finished = 0
in_flight (granting n) = n
in_flight (granting_tail n) = n
in_flight (growing n) = n

read_window :
    (sid d : ℕ)
    → IsU32 sid
    → IsU32 d
    → read_frame (encode_frame ft_window 0 sid (to_be32 d))
      ≡ frame
          (record { frame_type = ft_window; flags = 0; stream_id = sid; length = 4 })
          (to_be32 d)
          []
read_window sid d hs hd =
    let cap4 : 4 ≤ frame_cap ft_window = unfold frame_cap in omega arith in
    rw (append-nil (encode_frame ft_window 0 sid (to_be32 d))) at
      (read_frame-encode_frame ft_window 0 sid (to_be32 d) [] (omega arith) (omega arith) hs cap4)

pub credit_of-window :
    (sid d : ℕ) → IsU32 sid → IsU32 d → credit_of sid (encode_frame ft_window 0 sid (to_be32 d)) ≡ d
unfolding credit_of
credit_of-window sid d hs hd =
    ap (frame_credit sid) (read_window sid d hs hd) ∙ ground (arith, from_be32-to_be32 d hd)

pub queued_credit-enqueue :
    (sid : ℕ) (q : List Bytes) (f : Bytes)
    → queued_credit sid (q ++ (f ∷ [])) ≡ queued_credit sid q + credit_of sid f
unfolding queued_credit
queued_credit-enqueue sid [] f = omega arith
queued_credit-enqueue sid (g ∷ q) f = omega (arith, queued_credit-enqueue sid q f)

-- All the credit of a stream that is still on this side: in the queue of the writer, counted as
-- pending, or held by its pump.
unfoldable pub owed : Shared → ℕ → InPhase → ℕ
owed sh r phase =
    queued_credit (sh.heap r).id sh.writer.queue + (sh.heap r).pending_credit + in_flight phase

-- What the accounting needs: the session is up, the numbers fit 32 bits, and the pending credit is
-- below the threshold at which the pump sends it.
pub record IsLive (sh : Shared) (r : ℕ) : Type 0 where
  pub up : sh.closed ≡ false
  pub writing : sh.writer.gone ≡ false
  pub id_fits : IsU32 (sh.heap r).id
  pub window_fits : IsU32 sh.rx_window
  pub max_fits : IsU32 sh.rx_window_max
  pub pending : (sh.heap r).pending_credit < threshold sh
  pub granted : (sh.heap r).granted ≤ sh.rx_window_max

-- From one state of the session and the phase of the pump to the next, `n` bytes were consumed: the
-- credit owed grows by these and by what the window grew, and by nothing else.
pub record Balanced (r n : ℕ) (sh : Shared) (a : InPhase) (sh' : Shared) (b : InPhase)
    : Type 0 where
  pub balance : owed sh' r b + (sh.heap r).granted ≡ owed sh r a + (sh'.heap r).granted + n
  pub live : IsLive sh' r
  pub held : IsU32 (in_flight a) → IsU32 (in_flight b)

pub send_window_cases :
    (sh : Shared) (r d : ℕ)
    → sh.closed ≡ false
    → (send_window sh r d
        ≡ (enqueue sh (encode_frame ft_window 0 (sh.heap r).id (to_be32 d)), true))
      ⊎ (send_window sh r d ≡ (sh, false))
unfolding send_window send_control
send_window_cases sh r d up = ground arith

pub threshold_bounds :
    (sh : Shared) → IsU32 sh.rx_window → (16384 ≤ threshold sh) × (threshold sh ≤ 2 ^ 30)
unfolding threshold
threshold_bounds sh h = omega arith

-- A tick moves the pending credit into the queue, or leaves it.
pub tick_stream-Balanced :
    (sh : Shared) (r : ℕ) (a : InPhase) → IsLive sh r → Balanced r 0 sh a (tick_stream sh r) a
unfolding tick_stream owed threshold
tick_stream-Balanced sh r a v =
    let zeroed = set_stream sh r (record (sh.heap r) { pending_credit = 0 }) in
    let sid = (sh.heap r).id in
    let d = (sh.heap r).pending_credit in
    let f = encode_frame ft_window 0 sid (to_be32 d) in
    ground (
      arith,
      send_window_cases zeroed r d,
      threshold_bounds sh,
      queued_credit-enqueue sid sh.writer.queue f,
      credit_of-window sid d,
    )

-- A CLOSE frame gives no credit.
pub credit_of-close :
    (sid : ℕ)
    → IsU32 sid
    → credit_of sid (encode_frame ft_close 0 sid (codes "{\"code\":\"abort\"}")) ≡ 0
unfolding credit_of
credit_of-close sid hs =
    let body : Bytes = codes "{\"code\":\"abort\"}" in
    let fits : 16 ≤ frame_cap ft_close = unfold frame_cap in omega arith in
    let read = read_frame-encode_frame ft_close 0 sid body [] (omega arith) (omega arith) hs fits in
    ap (frame_credit sid) (rw (append-nil (encode_frame ft_close 0 sid body)) at read)
