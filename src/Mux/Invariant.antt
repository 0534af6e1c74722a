-- ===== src/Mux/Invariant.antt =====
-- mux.rs: what every frame keeps true of a session: the map and the heap agree, the stream limit
-- holds up to openings that overlap, and the tunables that the peer advertised stay in their ranges.
use krymux.Base.{
  ℕ, suc, ◌<◌, ◌≤◌, ◌⊎◌, inl, inr, ◌≡◌, refl, List, [], ◌∷◌, Option, some, none, Bool, true, false,
  not, ◌&&◌, ◌||◌, ◌%◌, ◌==◌, ◌++◌, if◌then◌else◌, length, ltb, leb, arith,
}
use krymux.Base.Bytes.{Bytes}
use krymux.Base.Json.{Json}
use krymux.Compress.{Registry}
use krymux.Frame.{
  FrameHeader, ft_hello, ft_open, ft_open_ack, ft_data, ft_window, ft_close, ft_ping, ft_pong,
  ft_goaway,
}
use krymux.Mux.State.{
  Shared, StreamInner, Target, Inbound, lookup, insert, update, set_stream, send_control,
  inbound_queue,
}
use krymux.Mux.Streams.{remove_missing}
use krymux.Mux.Valid.{
  Opens, IsValid, Registered-update, Registered-fresh, After, After-if, After-test, has_key-false,
  After-option, after_handled, after_failed, after_parked,
}
use krymux.Mux.Handle.{
  handled, handle_frame, handle_hello, handle_open, handle_open_ack, handle_data, handle_window,
  handle_close, handle_pong, deliver, has_key, accept_hello, clamp, open_accepted, build_stream,
  new_inner, open_target, ignore_result, settle, data_messages,
}

pub set_stream-IsValid :
    {opens : Opens}
    → (sh : Shared) (r : ℕ) (s : StreamInner) → s.id ≡ (sh.heap r).id
    → IsValid opens sh
    → IsValid opens (set_stream sh r s)
set_stream-IsValid sh r s e v = record {
  registered = Registered-update sh.heap sh.next_ref r s sh.streams e v.registered;
  distinct = v.distinct;
  limit = v.limit;
  data_cap = v.data_cap;
  window = v.window;
}

pub send_control-IsValid :
    {opens : Opens}
    → (sh : Shared) (ft sid : ℕ) (payload : Bytes) → IsValid opens sh
    → IsValid opens (ignore_result (send_control sh ft sid payload))
unfolding send_control
send_control-IsValid sh ft sid payload v = ground arith

pub deliver-IsValid :
    {opens : Opens}
    → (ms : List Inbound) (sh : Shared) (r : ℕ) → IsValid opens sh
    → After (IsValid opens) (deliver sh r ms)
unfolding deliver
deliver-IsValid [] sh r v = after_handled v
deliver-IsValid (m ∷ ms) sh r v =
    let s = sh.heap r in
    let next : StreamInner = record s { inbound = s.inbound ++ (m ∷ []) } in
    After-if _ s.pump_gone (after_handled v) (
      After-if _ (ltb (length s.inbound) inbound_queue)
        (deliver-IsValid ms (set_stream sh r next) r (set_stream-IsValid sh r next refl v))
        (after_parked v))

accept_hello-IsValid :
    {opens : Opens}
    → (sh : Shared) (hello : Json) → IsValid opens sh
    → IsValid opens (accept_hello sh hello)
unfolding accept_hello clamp
accept_hello-IsValid sh hello v = ground arith

hello-IsValid :
    {opens : Opens}
    → (f : Bytes → Option Json) (sh : Shared) (payload : Bytes) → IsValid opens sh
    → After (IsValid opens) (handle_hello f sh payload)
unfolding handle_hello
hello-IsValid f sh payload v = After-if _ sh.ready after_failed (
    After-option _ (f payload) _ _ after_failed
      (λ hello. After-if _ _ (after_handled (accept_hello-IsValid sh hello v)) after_failed))

-- A change of one stream that keeps its id.
change-IsValid :
    {opens : Opens}
    → (sh : Shared) (sid : ℕ) (f : ℕ → StreamInner) → ((r : ℕ) → (f r).id ≡ (sh.heap r).id)
    → IsValid opens sh
    → After (IsValid opens) (elim (lookup sid sh.streams) [
      | none ↦ handled sh
      | some r ↦ handled (set_stream sh r (f r))
    ])
change-IsValid sh sid f keeps v =
    After-option _ (lookup sid sh.streams) (handled sh) (λ r. handled (set_stream sh r (f r)))
      (after_handled v) (λ r. after_handled (set_stream-IsValid sh r (f r) (keeps r) v))

open_ack-IsValid :
    {opens : Opens}
    → (f : Bytes → Option Json) (sh : Shared) (sid : ℕ) (payload : Bytes) → IsValid opens sh
    → After (IsValid opens) (handle_open_ack f sh sid payload)
unfolding handle_open_ack settle
open_ack-IsValid f sh sid payload v = change-IsValid sh sid _ (λ r. ground arith) v

window-IsValid :
    {opens : Opens}
    → (sh : Shared) (sid : ℕ) (payload : Bytes) → IsValid opens sh
    → After (IsValid opens) (handle_window sh sid payload)
unfolding handle_window
window-IsValid sh sid payload v =
    After-if _ (length payload == 4) (change-IsValid sh sid _ (λ r. refl) v) after_failed

close-IsValid :
    {opens : Opens}
    → (sh : Shared) (sid : ℕ) → IsValid opens sh
    → After (IsValid opens) (handle_close sh sid)
unfolding handle_close
close-IsValid sh sid v = change-IsValid sh sid _ (λ r. ground arith) v

data-IsValid :
    {opens : Opens}
    → (sh : Shared) (fh : FrameHeader) (payload : Bytes) → IsValid opens sh
    → After (IsValid opens) (handle_data sh fh payload)
unfolding handle_data
data-IsValid sh fh payload v =
    After-option _ (lookup fh.stream_id sh.streams) _ _ (after_handled v)
      (λ r. deliver-IsValid (data_messages fh payload) sh r v)

pong-IsValid :
    {opens : Opens}
    → (now : ℕ) (sh : Shared) (payload : Bytes) → IsValid opens sh
    → After (IsValid opens) (handle_pong now sh payload)
unfolding handle_pong
pong-IsValid now sh payload v =
    After-if _ (length payload == 16)
      (after_handled (record {
        registered = v.registered;
        distinct = v.distinct;
        limit = v.limit;
        data_cap = v.data_cap;
        window = v.window;
      }))
      (after_handled v)

register-IsValid :
    {opens : Opens}
    → (sh : Shared) (sid : ℕ) (s : StreamInner) (t : Target) → s.id ≡ sid
    → lookup sid sh.streams ≡ none
    → length sh.streams < sh.max_streams
    → opens.pending ≤ opens.more
    → IsValid opens sh
    → IsValid opens (record sh {
      heap = update sh.heap sh.next_ref s;
      next_ref = suc sh.next_ref;
      streams = insert sid sh.next_ref sh.streams;
      handed = (sid, t) ∷ sh.handed;
    })
register-IsValid {opens = opens} sh sid s t e fresh room few v = ground (
  arith,
  remove_missing sid sh.streams fresh,
  Registered-fresh sh.heap sh.next_ref s sh.streams v.registered,
)

if-IsValid :
    {opens : Opens}
    → (b : Bool) (x y : Shared) → IsValid opens x
    → IsValid opens y
    → IsValid opens (if b then x else y)
if-IsValid true x y hx hy = hx
if-IsValid false x y hx hy = hy

open_accepted-IsValid :
    {opens : Opens}
    → (reg : Registry) (to_string : Json → Bytes) (now : ℕ) (sh : Shared) (sid : ℕ) (v : Json)
    → lookup sid sh.streams ≡ none
    → length sh.streams < sh.max_streams
    → opens.pending ≤ opens.more
    → IsValid opens sh
    → IsValid opens (open_accepted reg to_string now sh sid v)
unfolding open_accepted build_stream new_inner
open_accepted-IsValid reg to_string now sh sid v fresh room few valid =
    if-IsValid sh.on_stream _ _
      (register-IsValid sh sid _ (open_target v) refl fresh room few valid)
      (send_control-IsValid sh _ sid _ valid)

-- A frame of the peer may open a stream only on a server, where it is one more opening.
abbrev pub MayOpen : Opens → Shared → Type 0
MayOpen opens sh = (sh.is_client ≡ true) ⊎ (opens.pending ≤ opens.more)

MayOpen-server :
    (opens : Opens) (sh : Shared)
    → MayOpen opens sh
    → sh.is_client ≡ false
    → opens.pending ≤ opens.more
MayOpen-server opens sh (inl client) server = cc (client, server)
MayOpen-server opens sh (inr few) server = few

open-IsValid :
    {opens : Opens}
    → (reg : Registry) (f : Bytes → Option Json) (to_string : Json → Bytes) (now : ℕ) (sh : Shared)
      (sid : ℕ) (payload : Bytes)
    → MayOpen opens sh
    → IsValid opens sh
    → After (IsValid opens) (handle_open reg f to_string now sh sid payload)
unfolding handle_open
open-IsValid {opens = opens} reg f to_string now sh sid payload may v =
    After-test _ sh.is_client (λ client. after_failed)
      (λ server. After-if _ (sid == 0 || sid % 2 == 0) after_failed (
        After-test _ (leb sh.max_streams (length sh.streams))
          (λ full. after_handled (send_control-IsValid sh ft_open_ack sid _ v))
          (λ room.
            After-test _ (has_key sid sh.streams)
              (λ dup. after_handled (send_control-IsValid sh ft_open_ack sid _ v))
              (λ fresh. After-option _ (f payload) _ _ after_failed (λ body. after_handled (
                open_accepted-IsValid reg to_string now sh sid body
                  (has_key-false sid sh.streams fresh) (ground arith)
                  (MayOpen-server opens sh may server) v))))))

-- Whatever frame comes, from whatever peer, handling it keeps the session valid: the map and the
-- heap agree, ids are distinct, the number of streams stays within its bound, and the peer's
-- frame cap and window stay in the ranges to which HELLO clamps them. The session is a client, which
-- accepts no OPEN, or there is a place for one more opening between its check and its insert. This holds
-- too when the reader waits for room in a queue.
pub handle_frame-IsValid :
    {opens : Opens}
    → (reg : Registry) (f : Bytes → Option Json) (to_string : Json → Bytes) (now : ℕ) (sh : Shared)
      (fh : FrameHeader) (payload : Bytes)
    → MayOpen opens sh
    → IsValid opens sh
    → After (IsValid opens) (handle_frame reg f to_string now sh fh payload)
unfolding handle_frame
handle_frame-IsValid reg f to_string now sh fh payload may v =
    let t = fh.frame_type in
    let sid = fh.stream_id in
    After-if _ (not sh.ready && not (t == ft_hello)) after_failed (
      After-if _ (t == ft_hello) (hello-IsValid f sh payload v) (
        After-if _ (t == ft_open) (open-IsValid reg f to_string now sh sid payload may v) (
          After-if _ (t == ft_open_ack) (open_ack-IsValid f sh sid payload v) (
            After-if _ (t == ft_data) (data-IsValid sh fh payload v) (
              After-if _ (t == ft_window) (window-IsValid sh sid payload v) (
                After-if _ (t == ft_close) (close-IsValid sh sid v) (
                  After-if _ (t == ft_ping)
                    (after_handled (send_control-IsValid sh ft_pong 0 payload v))
                    (After-if _ (t == ft_pong) (pong-IsValid now sh payload v)
                      (After-if _ (t == ft_goaway) after_failed after_failed)))))))))
