-- ===== src/Mux/Opening.antt =====
-- mux.rs: what an OPEN frame does on each branch of its handler, and the answers of the stream's handle.
use krymux.Base.{
  ℕ, ◌+◌, ◌-◌, ◌%◌, ◌/◌, ◌^◌, ◌≤◌, ◌<◌, ◌≡◌, refl, ◌∷◌, Option, some, Bool, true, false, ◌==◌, ◌||◌,
  leb, if◌then◌else◌, length, arith, ◌⊎◌, inl, inr, if_true,
}
use krymux.Base.Bytes.{Bytes}
use krymux.Base.Json.{Json}
use krymux.Compress.{Registry}
use krymux.Mux.State.{Shared, StreamInner, Target, send_control, lookup}
use krymux.Mux.Handle.{
  handle_open, open_accepted, open_target, build_stream, new_inner, has_key, ignore_result,
}
use krymux.Frame.{ft_open_ack}
use krymux.Mux.Valid.{After, after_handled, after_failed, After-if, After-test, After-option}
use krymux.Mux.Inbound.{grow_window}
use krymux.Mux.Session.{accept, reject}

-- What is kept when an OPEN is refused.
abbrev pub Untouched : Shared → Shared → Type 0
Untouched sh sh' =
    (sh'.streams ≡ sh.streams)
    × ((sh'.heap ≡ sh.heap) × ((sh'.handed ≡ sh.handed) × (sh'.next_ref ≡ sh.next_ref)))

-- What an accepted OPEN does.
abbrev pub Registers : Shared → ℕ → Shared → Type 0
Registers sh sid sh' =
    (sid % 2 ≡ 1)
    × ((has_key sid sh.streams ≡ false)
        × ((length sh.streams < sh.max_streams)
            × ((lookup sid sh'.streams ≡ some sh.next_ref)
                × (((sh'.heap sh.next_ref).id ≡ sid)
                    × ((t : Target) × (sh'.handed ≡ (sid, t) ∷ sh.handed))))))

send_control-Untouched :
    (sh : Shared) (ft sid : ℕ) (payload : Bytes)
    → Untouched sh (ignore_result (send_control sh ft sid payload))
unfolding send_control
send_control-Untouched sh ft sid payload = ground arith

-- The window of a stream grows only by what it may: by at most its own size, never beyond the maximum,
-- and only after half of it was consumed and 100 ms have passed; a growth starts the count again, and
-- no growth leaves the stream as it is.
pub grow_window_bounds :
    (now rx_window_max : ℕ) (s : StreamInner)
    → s.granted ≤ rx_window_max
    → rx_window_max < 2 ^ 32
    → let g = grow_window now rx_window_max s in
      (g.0.granted ≡ s.granted + g.1)
      × ((g.0.granted ≤ rx_window_max)
          × ((g.1 ≤ s.granted)
              × (((g.1 ≡ 0) × (g.0 ≡ s))
                  ⊎ ((s.granted / 2 ≤ s.consumed_since_grow)
                      × ((100 ≤ now - s.grow_at)
                          × ((g.0.consumed_since_grow ≡ 0) × (g.0.grow_at ≡ now)))))))
unfolding grow_window
grow_window_bounds now rx_window_max s h m = ground arith

-- The answers that the handle of a stream can give to OPEN.
pub data Answer : Type 0 where
  accepts : Option Bytes → Answer
  rejects : Bytes → Bytes → Answer

abbrev pub answer : (Json → Bytes) → Shared → ℕ → Answer → Shared
answer to_string sh r (accepts upstream) = accept to_string sh r upstream
answer to_string sh r (rejects code reason) = reject to_string sh r code reason

answered :
    (to_string : Json → Bytes) (sh : Shared) (r : ℕ) (x : Answer)
    → ((answer to_string sh r x).heap r).ack_done ≡ true
unfolding accept reject send_control
answered to_string sh r (accepts upstream) = ground arith
answered to_string sh r (rejects code reason) = ground arith

answer_noop :
    (to_string : Json → Bytes) (sh : Shared) (r : ℕ) (y : Answer)
    → (sh.heap r).ack_done ≡ true
    → answer to_string sh r y ≡ sh
unfolding accept reject
answer_noop to_string sh r (accepts upstream) h = if_true _ _ _ h
answer_noop to_string sh r (rejects code reason) h = if_true _ _ _ h

-- Of two calls of `accept` and `reject` on a stream, in any combination, only the first has an
-- effect.
pub answer_once :
    (to_string : Json → Bytes) (sh : Shared) (r : ℕ) (x y : Answer)
    → answer to_string (answer to_string sh r x) r y ≡ answer to_string sh r x
answer_once to_string sh r x y =
    answer_noop to_string (answer to_string sh r x) r y (answered to_string sh r x)

Branch-test :
    (sh : Shared) (sid : ℕ) (b : Bool) (x y : Shared)
    → Untouched sh x ⊎ Registers sh sid x
    → Untouched sh y ⊎ Registers sh sid y
    → let t : Shared = if b then x else y in Untouched sh t ⊎ Registers sh sid t
Branch-test sh sid true x y hx hy = hx
Branch-test sh sid false x y hx hy = hy

registers :
    (reg : Registry) (to_string : Json → Bytes) (now : ℕ) (sh : Shared) (sid : ℕ) (v : Json)
    → sid % 2 ≡ 1
    → has_key sid sh.streams ≡ false
    → length sh.streams < sh.max_streams
    → let sh' = open_accepted reg to_string now sh sid v in Untouched sh sh' ⊎ Registers sh sid sh'
unfolding open_accepted build_stream new_inner
registers reg to_string now sh sid v odd fresh room =
    Branch-test sh sid sh.on_stream _ _
      (inr (odd, (fresh, (room, (ground arith, (ground arith, (open_target v, refl)))))))
      (inl (send_control-Untouched sh ft_open_ack sid _))

-- An OPEN that is handled either changes no stream and calls no handler, or it has an odd id that is
-- free and there is room, and it registers the new stream and calls the handler once.
pub handle_open_lem :
    (reg : Registry) (from_slice : Bytes → Option Json) (to_string : Json → Bytes) (now : ℕ)
    (sh : Shared) (sid : ℕ) (payload : Bytes)
    → After
        (λ sh'. Untouched sh sh' ⊎ Registers sh sid sh')
        (handle_open reg from_slice to_string now sh sid payload)
unfolding handle_open
handle_open_lem reg from_slice to_string now sh sid payload =
    let P : Shared → Type 0 = λ sh'. Untouched sh sh' ⊎ Registers sh sid sh' in
    After-if P sh.is_client after_failed (
      After-test P (sid == 0 || sid % 2 == 0) (λ bad. after_failed)
        (λ good.
          After-test P (leb sh.max_streams (length sh.streams))
            (λ full. after_handled (inl (send_control-Untouched sh ft_open_ack sid _)))
            (λ room.
              After-test P (has_key sid sh.streams)
                (λ dup. after_handled (inl (send_control-Untouched sh ft_open_ack sid _)))
                (λ fresh. After-option P (from_slice payload) _ _ after_failed (λ v.
                  after_handled
                    (registers reg to_string now sh sid v (ground arith) fresh (ground arith)))))))
