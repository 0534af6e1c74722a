-- ===== src/Mux/OpenValid.antt =====
-- mux.rs, `open_stream`: its check, its insert and its end keep the session valid.
use krymux.Base.{ℕ, suc, ◌≤◌, ◌≡◌, refl, none, ◌==◌, if◌then◌else◌, arith}
use krymux.Base.Bytes.{Bytes}
use krymux.Base.Json.{Json}
use krymux.Compress.{Registry}
use krymux.Mux.State.{
  accepted, refused, Shared, StreamInner, Target, update, remove, insert, wait_send, Sent, sent,
  writer_gone, waits, drop_handle,
}
use krymux.Mux.Handle.{build_stream, new_inner}
use krymux.Mux.Session.{
  Opened, opening, opened, open_waits, open_failed, open_check, open_register, send_open,
  open_answer, OpenWait, answered, channel_closed, timed_out, unregister, writer_closed,
}
use krymux.Mux.Streams.{lookup-remove, length-remove-le}
use krymux.Mux.Valid.{Opens, IsValid, Registered-fresh}
use krymux.Mux.Keeps.{Keeps, Keeps-IsValid, sent-Keeps, Registered-Keeps}
use krymux.Mux.Life.{remove-Registered, remove-Distinct, remove-IsValid, drop_handle-IsValid}

-- The state that an open leaves, on each outcome.
abbrev pub opened_state : Opened → Shared
opened_state (opening sh r) = sh
opened_state (opened sh r) = sh
opened_state (open_waits sh r frame) = sh
opened_state (open_failed sh e) = sh

-- A stream is registered under an id, whatever the map held for it.
registered-IsValid :
    (pending more : ℕ) (sh : Shared) (sid next : ℕ) (s built : StreamInner)
    → s.id ≡ sid
    → IsValid (record { pending = suc pending; more = more }) sh
    → IsValid
        (record { pending = pending; more = more })
        (record sh {
          next_id = next;
          heap = λ q. if q == sh.next_ref then s else update sh.heap sh.next_ref built q;
          next_ref = suc sh.next_ref;
          streams = insert sid sh.next_ref sh.streams;
        })
registered-IsValid pending more sh sid next s built e v =
    let after : ℕ → StreamInner =
      λ q. if q == sh.next_ref then s else update sh.heap sh.next_ref built q in
    let fresh =
      Registered-fresh sh.heap sh.next_ref s (remove sid sh.streams)
        (remove-Registered sh.heap sh.next_ref sid sh.streams v.registered) in
    record {
      registered = (
        ground (arith, e),
        omega arith,
        Registered-Keeps (update sh.heap sh.next_ref s) after (suc sh.next_ref) _
            (λ q. ground arith) fresh,
      );
      distinct = (
        ground (arith, lookup-remove sid sid sh.streams),
        remove-Distinct sid sh.streams v.distinct,
      );
      limit = omega (arith, v.limit, length-remove-le sid sh.streams);
      data_cap = v.data_cap;
      window = v.window;
    }

sent_open-IsValid :
    {opens : Opens}
    → (sh : Shared) (r : ℕ) (frame : Bytes) (o : Sent) → ((t : Shared) → o ≡ sent t → Keeps sh t)
    → IsValid opens sh
    → IsValid opens (
        opened_state (elim o [
          | sent sh' ↦ opening sh' r
          | writer_gone ↦ open_failed (drop_handle sh r) writer_closed
          | waits ↦ open_waits sh r frame
        ]))
sent_open-IsValid sh r frame (sent t) k v = Keeps-IsValid (k t refl) v
sent_open-IsValid sh r frame writer_gone k v = drop_handle-IsValid sh r v
sent_open-IsValid sh r frame waits k v = v

pub send_open-IsValid :
    {opens : Opens}
    → (sh : Shared) (r : ℕ) (frame : Bytes) → IsValid opens sh
    → IsValid opens (opened_state (send_open sh r frame))
unfolding send_open
send_open-IsValid sh r frame v =
    sent_open-IsValid sh r frame (wait_send sh frame) (λ t e. sent-Keeps sh t frame e) v

unregistered-IsValid :
    {opens : Opens}
    → (sh : Shared) (r : ℕ) → IsValid opens sh
    → IsValid opens (drop_handle (unregister sh r) r)
unregistered-IsValid sh r v =
    drop_handle-IsValid (unregister sh r) r (remove-IsValid sh (sh.heap r).id v)

-- A check that passes lets one more opening be pending, if there is a place for it.
pub open_check-IsValid :
    (pending more : ℕ) (sh : Shared)
    → pending ≤ more
    → open_check sh ≡ none
    → IsValid (record { pending = pending; more = more }) sh
    → IsValid (record { pending = suc pending; more = more }) sh
unfolding open_check
open_check-IsValid pending more sh few passed v = record {
  registered = v.registered;
  distinct = v.distinct;
  limit = ground (arith, passed, few);
  data_cap = v.data_cap;
  window = v.window;
}

-- The insert of an opening that is pending.
pub open_register-IsValid :
    (pending more : ℕ) (reg : Registry) (to_string : Json → Bytes) (now : ℕ) (sh : Shared)
    (target : Target) (compression_req : Bytes)
    → IsValid (record { pending = suc pending; more = more }) sh
    → IsValid
        (record { pending = pending; more = more })
        (opened_state (open_register reg to_string now sh target compression_req))
unfolding open_register build_stream new_inner
open_register-IsValid pending more reg to_string now sh target compression_req v =
    send_open-IsValid _ sh.next_ref _
      (registered-IsValid pending more sh sh.next_id _ _ _ (ground arith) v)

pub open_answer-IsValid :
    {opens : Opens}
    → (sh : Shared) (r : ℕ) (w : OpenWait) → IsValid opens sh
    → IsValid opens (opened_state (open_answer sh r w))
unfolding open_answer
open_answer-IsValid sh r (answered (accepted upstream)) v = v
open_answer-IsValid sh r (answered (refused reason)) v = unregistered-IsValid sh r v
open_answer-IsValid sh r channel_closed v = unregistered-IsValid sh r v
open_answer-IsValid sh r timed_out v = unregistered-IsValid sh r v
