-- ===== src/Mux/Closing.antt =====
-- mux.rs: the end of a session, the answers to an OPEN, and the frames that change nothing.
use krymux.Base.{
  ℕ, zero, suc, ◌≤◌, ◌≡◌, refl, sym, ap, ◌∙◌, List, [], ◌∷◌, ◌++◌, some, none, Bool, true, false,
  ◌==◌, if◌then◌else◌, length, arith, Bool-cases, ◌⊎◌, inl, inr, take, drop, append_assoc, if_true,
  if_false,
}
use mathlib.Core.Path.{subst}
use mathlib.Core.Option.{some-injective}
use krymux.Base.Bytes.{Bytes}
use krymux.Base.Json.{Json}
use krymux.Mux.State.{
  Shared, StreamInner, Inbound, chunk, eof, abort, update, lookup, try_inbound, inbound_queue,
  teardown, abort_all,
}
use krymux.Mux.Tasks.{WriterTask, write_queue, writer_step, concat, reader_exit}
use krymux.Mux.Session.{close}

-- Whether an abort is in the inbound queue.
abbrev pub has_abort : List Inbound → Bool
has_abort [] = false
has_abort (abort ∷ ms) = true
has_abort (chunk b c ∷ ms) = has_abort ms
has_abort (eof ∷ ms) = has_abort ms

-- A stream that will learn of an abort: it is in the queue, or the queue is full or has no receiver.
abbrev pub Told : StreamInner → Type 0
Told s = (has_abort s.inbound ≡ true) ⊎ ((s.pump_gone ≡ true) ⊎ (inbound_queue ≤ length s.inbound))

abort_last : (ms : List Inbound) → has_abort (ms ++ abort ∷ []) ≡ true
abort_last [] = refl
abort_last (abort ∷ ms) = refl
abort_last (chunk b c ∷ ms) = abort_last ms
abort_last (eof ∷ ms) = abort_last ms

has_abort-append :
    (ms : List Inbound) (m : Inbound) → has_abort ms ≡ true → has_abort (ms ++ m ∷ []) ≡ true
has_abort-append [] m h = cc h
has_abort-append (abort ∷ ms) m h = refl
has_abort-append (chunk b c ∷ ms) m h = has_abort-append ms m h
has_abort-append (eof ∷ ms) m h = has_abort-append ms m h

try_abort-Told : (s : StreamInner) → Told (try_inbound s abort)
try_abort-Told s = ground (arith, abort_last s.inbound)

try_keeps-Told : (s : StreamInner) → Told s → Told (try_inbound s abort)
try_keeps-Told s h = ground (arith, abort_last s.inbound)

Told-test :
    (b : Bool) (x y : StreamInner) → Told x → (b ≡ false → Told y) → Told (if b then x else y)
Told-test true x y hx hy = hx
Told-test false x y hx hy = hy refl

abort_all_keeps :
    (m : List (ℕ × ℕ)) (h : ℕ → StreamInner) (r : ℕ) → Told (h r) → Told (abort_all m h r)
abort_all_keeps [] h r t = t
abort_all_keeps ((sid, q) ∷ m) h r t =
    abort_all_keeps m (update h q (try_inbound (h q) abort)) r
      (Told-test (r == q) _ _ (try_abort-Told (h q)) (λ ne. t))

abort_all-Told :
    (m : List (ℕ × ℕ)) (h : ℕ → StreamInner) (sid r : ℕ)
    → lookup sid m ≡ some r
    → Told (abort_all m h r)
abort_all-Told [] h sid r e = cc e
abort_all-Told ((j, q) ∷ m) h sid r e = elim (Bool-cases (j == sid)) [
  | inl same ↦
      let q_is_r : q ≡ r = some-injective _ _ (sym (rw same refl) ∙ e) in
      abort_all_keeps m (update h q (try_inbound (h q) abort)) r
        (Told-test (r == q) _ _ (try_abort-Told (h q)) (λ ne. ground (arith, q_is_r)))
  | inr differ ↦ abort_all-Told m (update h q (try_inbound (h q) abort)) sid r (ground (arith, e))
]

-- After the teardown of a session it is closed and not ready, its map is empty, and
-- every stream that was registered has an abort in its inbound queue, unless that queue is full or has
-- no receiver.
pub teardown_lem :
    (sh : Shared) (sid r : ℕ)
    → lookup sid sh.streams ≡ some r
    → ((teardown sh).closed ≡ true)
      × (((teardown sh).ready ≡ false)
          × (((teardown sh).streams ≡ []) × Told ((teardown sh).heap r)))
unfolding teardown
teardown_lem sh sid r e = (refl, (refl, (refl, abort_all-Told sh.streams sh.heap sid r e)))

closed_test :
    (b : Bool) (x y : Shared)
    → (b ≡ true → x.closed ≡ true)
    → y.closed ≡ true
    → let t : Shared = if b then x else y in t.closed ≡ true
closed_test true x y hx hy = hx refl
closed_test false x y hx hy = hy

close_closed :
    (to_string : Json → Bytes) (sh : Shared) (reason : Bytes)
    → (close to_string sh reason).closed ≡ true
unfolding close teardown
close_closed to_string sh reason = closed_test sh.closed sh _ (λ e. e) refl

-- Only the first end of a session has an effect: after `close`, another `close` and the end of the
-- reader leave the state as it is.
pub close_once :
    (to_string : Json → Bytes) (sh : Shared) (reason again : Bytes)
    → (close to_string (close to_string sh reason) again ≡ close to_string sh reason)
      × (reader_exit (close to_string sh reason) ≡ close to_string sh reason)
unfolding reader_exit close
close_once to_string sh reason again =
    let closed = close_closed to_string sh reason in
    (
      if_true (close to_string sh reason).closed _ _ closed,
      if_true (close to_string sh reason).closed _ _ closed,
    )

concat-take-drop : (n : ℕ) (fs : List Bytes) → concat (take n fs) ++ concat (drop n fs) ≡ concat fs
concat-take-drop zero fs = refl
concat-take-drop (suc n) [] = refl
concat-take-drop (suc n) (f ∷ fs) = append_assoc f _ _ ∙ ap (λ x. f ++ x) (concat-take-drop n fs)

queue_order :
    (drained : ℕ) (sh sh' : Shared) (w w' : WriterTask) (q : List Bytes)
    → sh.closed ≡ false
    → write_queue true drained sh w q ≡ some (sh', w')
    → w'.wire ++ concat sh'.writer.queue ≡ w.wire ++ concat q
unfolding write_queue
queue_order drained sh sh' w w' [] up e = cc e
queue_order drained sh sh' w w' (f ∷ []) up e =
    subst (λ (s : Shared × WriterTask). s.1.wire ++ concat s.0.writer.queue ≡ w.wire ++ (f ++ []))
      (some-injective _ _ e) (append_assoc w.wire f [])
queue_order drained sh sh' w w' (f ∷ g ∷ fs) up e =
    let frames : List Bytes = f ∷ g ∷ fs in
    let left = drop 16 frames in
    let wire = w.wire ++ concat (take 16 frames) in
    let t : Shared = record sh { writer = record { queue = left; gone = false } } in
    let same : some (t, record w { wire = wire }) ≡ some (sh', w') =
      sym (if_false sh.closed _ _ up) ∙ e in
    subst
      (λ (s : Shared × WriterTask). s.1.wire ++ concat s.0.writer.queue ≡ w.wire ++ concat frames)
      (some-injective _ _ same)
      (append_assoc w.wire _ _ ∙ ap (λ x. w.wire ++ x) (concat-take-drop 16 frames))

-- While the session is up and the socket takes what is written, a step of the writer keeps the
-- order: what it wrote and what is still queued is, byte for byte, what it had written and what was
-- queued.
pub writer_order :
    (drained : ℕ) (sh sh' : Shared) (w w' : WriterTask)
    → sh.closed ≡ false
    → w.exited ≡ false
    → writer_step true drained sh w ≡ some (sh', w')
    → w'.wire ++ concat sh'.writer.queue ≡ w.wire ++ concat sh.writer.queue
unfolding writer_step
writer_order drained sh sh' w w' up runs e =
    queue_order drained sh sh' w w' sh.writer.queue up (sym (if_false w.exited _ _ runs) ∙ e)

-- In a closed session, a running writer that finds one frame in the queue, when the socket takes
-- it, writes it, does not end, and waits from then on, so that the socket is not shut down.
pub writer_lone_stays :
    (drained : ℕ) (sh : Shared) (w : WriterTask) (f : Bytes)
    → sh.closed ≡ true
    → sh.writer.queue ≡ f ∷ []
    → w.exited ≡ false
    → (sh' : Shared) × (w' : WriterTask) × (writer_step true drained sh w ≡ some (sh', w'))
      × ((sh'.closed ≡ true) × ((w'.exited ≡ false) × (writer_step true drained sh' w' ≡ none)))
unfolding writer_step write_queue
writer_lone_stays drained sh w f closed one runs =
    let t : Shared = record sh { writer = record { queue = []; gone = false } } in
    let u : WriterTask = record w { wire = w.wire ++ f } in
    (
      t,
      u,
      if_false w.exited _ _ runs ∙ ap (write_queue true drained sh w) one,
      (closed, (runs, if_false w.exited _ _ runs)),
    )
