-- ===== src/Mux/Life.antt =====
-- mux.rs: the operations that change the map of streams outside of `handle_frame` keep the session valid.
use krymux.Base.{
  ℕ, refl, List, [], ◌∷◌, Option, some, none, Bool, true, false, ◌==◌, if◌then◌else◌, arith,
}
use krymux.Base.Bytes.{Bytes}
use krymux.Base.Json.{Json}
use krymux.Compress.{Registry}
use krymux.Mux.State.{
  Shared, StreamInner, abort, set_stream, update, lookup, remove, try_inbound, try_retire,
  drop_handle, finish_outbound, teardown,
}
use krymux.Mux.Session.{SessionOpts, start, new_shared, close, accept, reject}
use krymux.Mux.Streams.{lookup-remove, length-remove-le}
use krymux.Mux.Valid.{Opens, IsValid, Registered, Distinct}
use krymux.Mux.Keeps.{Keeps, Keeps-IsValid, set_stream-Keeps, send_control-Keeps, Keeps-trans}

pub remove-Registered :
    (h : ℕ → StreamInner) (n k : ℕ) (m : List (ℕ × ℕ))
    → Registered h n m
    → Registered h n (remove k m)
remove-Registered h n k [] g = tt
remove-Registered h n k ((j, r) ∷ m) g = ground (arith, remove-Registered h n k m g.2)

pub remove-Distinct : (k : ℕ) (m : List (ℕ × ℕ)) → Distinct m → Distinct (remove k m)
remove-Distinct k [] d = tt
remove-Distinct k ((j, r) ∷ m) d = ground (arith, remove-Distinct k m d.1, lookup-remove k j m)

pub remove-IsValid :
    {opens : Opens}
    → (sh : Shared) (k : ℕ) → IsValid opens sh
    → IsValid opens (record sh { streams = remove k sh.streams })
remove-IsValid sh k v = record {
  registered = remove-Registered sh.heap sh.next_ref k sh.streams v.registered;
  distinct = remove-Distinct k sh.streams v.distinct;
  limit = omega (arith, v.limit, length-remove-le k sh.streams);
  data_cap = v.data_cap;
  window = v.window;
}

-- Whatever the options, a session starts valid, with no opening pending.
pub start-IsValid :
    (more : ℕ) (reg : Registry) (to_string : Json → Bytes) (now : ℕ) (o : SessionOpts)
    (handler : Bool)
    → IsValid (record { pending = 0; more = more }) (start reg to_string now o handler)
unfolding start new_shared
start-IsValid more reg to_string now o handler = ground arith

pub teardown-IsValid :
    {opens : Opens} → (sh : Shared) → IsValid opens sh → IsValid opens (teardown sh)
unfolding teardown
teardown-IsValid sh v = record {
  registered = tt;
  distinct = tt;
  limit = omega arith;
  data_cap = v.data_cap;
  window = v.window;
}

pub if-IsValid :
    {opens : Opens}
    → (b : Bool) (x y : Shared) → IsValid opens x
    → IsValid opens y
    → IsValid opens (if b then x else y)
if-IsValid true x y hx hy = hx
if-IsValid false x y hx hy = hy

removed-IsValid :
    {opens : Opens}
    → (sh : Shared) (r : ℕ) (b : Bool) → IsValid opens sh
    → IsValid opens (record sh {
      streams = if b then remove (sh.heap r).id sh.streams else sh.streams;
      heap = update sh.heap r (try_inbound (sh.heap r) abort);
    })
removed-IsValid sh r true v =
    let removed = record sh { streams = remove (sh.heap r).id sh.streams } in
    Keeps-IsValid (set_stream-Keeps removed r _ (ground arith)) (remove-IsValid sh (sh.heap r).id v)
removed-IsValid sh r false v = Keeps-IsValid (set_stream-Keeps sh r _ (ground arith)) v

retired-IsValid :
    {opens : Opens}
    → (sh : Shared) (r : ℕ) (o : Option ℕ) → IsValid opens sh
    → IsValid opens (record sh {
      streams = elim o [
        | some q ↦ if q == r then remove (sh.heap r).id sh.streams else sh.streams
        | none ↦ sh.streams
      ];
      heap = update sh.heap r (try_inbound (sh.heap r) abort);
    })
retired-IsValid sh r none v = Keeps-IsValid (set_stream-Keeps sh r _ (ground arith)) v
retired-IsValid sh r (some q) v = removed-IsValid sh r (q == r) v

try_retire-IsValid :
    {opens : Opens} → (sh : Shared) (r : ℕ) → IsValid opens sh → IsValid opens (try_retire sh r)
unfolding try_retire
try_retire-IsValid sh r v =
    if-IsValid _ _ _ (retired-IsValid sh r (lookup (sh.heap r).id sh.streams) v) v

pub drop_handle-IsValid :
    {opens : Opens} → (sh : Shared) (r : ℕ) → IsValid opens sh → IsValid opens (drop_handle sh r)
unfolding drop_handle
drop_handle-IsValid sh r v = try_retire-IsValid _ r (Keeps-IsValid (set_stream-Keeps sh r _ refl) v)

pub finish_outbound-IsValid :
    {opens : Opens}
    → (sh : Shared) (r : ℕ) → IsValid opens sh
    → IsValid opens (finish_outbound sh r)
unfolding finish_outbound
finish_outbound-IsValid sh r v =
    try_retire-IsValid _ r (Keeps-IsValid (set_stream-Keeps sh r _ refl) v)

pub close-IsValid :
    {opens : Opens}
    → (to_string : Json → Bytes) (sh : Shared) (reason : Bytes) → IsValid opens sh
    → IsValid opens (close to_string sh reason)
unfolding close
close-IsValid to_string sh reason v =
    let marked : Keeps sh (record sh { closed = true }) = ground arith in
    if-IsValid sh.closed _ _ v (
      teardown-IsValid _ (
        Keeps-IsValid (Keeps-trans marked (send_control-Keeps (record sh { closed = true }) _ _ _))
          v))

pub accept-IsValid :
    {opens : Opens}
    → (to_string : Json → Bytes) (sh : Shared) (r : ℕ) (upstream : Option Bytes) → IsValid opens sh
    → IsValid opens (accept to_string sh r upstream)
unfolding accept
accept-IsValid to_string sh r upstream v =
    let done = set_stream sh r (record (sh.heap r) { ack_done = true }) in
    if-IsValid (sh.heap r).ack_done _ _ v
      (Keeps-IsValid (Keeps-trans (set_stream-Keeps sh r _ refl) (send_control-Keeps done _ _ _)) v)

pub reject-IsValid :
    {opens : Opens}
    → (to_string : Json → Bytes) (sh : Shared) (r : ℕ) (code reason : Bytes) → IsValid opens sh
    → IsValid opens (reject to_string sh r code reason)
unfolding reject
reject-IsValid to_string sh r code reason v =
    let done = set_stream sh r (record (sh.heap r) { ack_done = true }) in
    let sent_keeps = Keeps-trans (set_stream-Keeps sh r _ refl) (send_control-Keeps done _ _ _) in
    if-IsValid (sh.heap r).ack_done _ _ v
      (Keeps-IsValid (Keeps-trans sent_keeps (set_stream-Keeps _ r _ (ground arith))) v)
